-- ===== src/Conn/State.antt =====
-- The structs of internal/uplink/conn.go, and the writes to the socket. A *pending or *Bridge is
-- its address; `requests` and `sockets` hold the objects, also those no longer registered.
use dsh_fleet.Base.{
  ℕ, ◌*◌, Bool, false, List, [], ◌∷◌, ◌++◌, Option, none, some, ◌==◌, if◌then◌else◌, Bytes,
}
use dsh_fleet.Base.Dict.{Dict}
use dsh_fleet.Base.Result.{Result, ok, err, ℤ}
use dsh_fleet.Envelope.Frames.{Outbound, cancel}
use dsh_fleet.Conn.Chan.{Chan}

-- Durations are in milliseconds.
abbrev pub heartbeat_interval : ℕ
heartbeat_interval = 20000

abbrev pub max_chunk_bytes : ℕ
max_chunk_bytes = 256 * 1024

abbrev pub telemetry_interval : ℕ
telemetry_interval = 30000

abbrev pub stream_buffer : ℕ
stream_buffer = 32

-- The status line of a Response; its body is what `pump` writes.
pub record Response : Type 0 where
  pub status : ℤ
  pub headers : Dict Bytes

pub record RequestError : Type 0 where
  pub code : Bytes
  pub message : Bytes

-- A chunk is `some`; the nil that marks the end of a body is `none`.
pub record Pending : Type 0 where
  pub head : Chan Response
  pub fail : Chan RequestError
  pub chunks : Chan (Option Bytes)
  pub next_seq : ℕ
  pub once : Bool

pub record Bridge : Type 0 where
  pub id : Bytes
  pub up : Chan Bytes
  pub messages : Chan Bytes
  pub once : Bool

pub record Conn : Type 0 where
  pub node_id : Bytes
  pub caps : List Bytes
  pub pending : Dict ℕ
  pub bridges : Dict ℕ
  pub closed : Bool
  pub next_id : ℕ
  pub last_pong : ℕ
  pub done : Bool
  -- the heap
  pub requests : ℕ → Option Pending
  pub sockets : ℕ → Option Bridge
  pub next_address : ℕ
  -- what has gone out: frames on the wire, and calls of the telemetry sink
  pub outbox : List Outbound
  pub recorded : List (ℤ × Bytes)
  pub touches : ℕ

-- What ends a call or the read loop.
pub data ConnError : Type 0 where
  not_connected disconnected context_done open_timeout write_failed : ConnError
  bad_message bad_frame bad_payload out_of_order count_mismatch : ConnError
  node_error : RequestError → ConnError

-- A stretch of code runs to its end or panics.
pub data Run {ℓ} (A : Type ℓ) : Type ℓ where
  runs : A → Run A
  panics : Run A

infixl 5 ◌>>=◌
abbrev pub ◌>>=◌ {ℓ κ} : {A : Type ℓ} {B : Type κ} → Run A → (A → Run B) → Run B
runs a >>= k = k a
panics >>= k = panics

abbrev pub update {ℓ} : {A : Type ℓ} → (ℕ → Option A) → ℕ → A → ℕ → Option A
update f a v b = if a == b then some v else f b

-- newConn
unfoldable pub new_conn : Bytes → List Bytes → ℕ → Conn
new_conn node_id caps now = record {
  node_id = node_id;
  caps = caps;
  pending = [];
  bridges = [];
  closed = false;
  next_id = 0;
  last_pong = now;
  done = false;
  requests = λ _. none;
  sockets = λ _. none;
  next_address = 0;
  outbox = [];
  recorded = [];
  touches = 0;
}

-- Conn.write; `wire` says whether the socket takes the frame.
unfoldable pub write : Bool → Conn → Outbound → Result ConnError Conn
write wire c frame =
    if wire then ok (record c { outbox = c.outbox ++ frame ∷ [] }) else err write_failed

abbrev pub best_effort : Conn → Result ConnError Conn → Conn
best_effort c (ok c') = c'
best_effort c (err e) = c

-- Conn.cancel, which ignores the error of its write
unfoldable pub cancel_request : Bool → Conn → Bytes → Conn
unfolding write
cancel_request wire c id = best_effort c (write wire c (cancel id))

-- ===== src/Conn/Request.antt =====
-- Conn.Do and pump of internal/uplink/conn.go, cut where the lock is released or a select waits.
use dsh_fleet.Base.{ℕ, suc, ◌+◌, ◌%◌, ◌^◌, Bool, false, Option, none, some, if◌then◌else◌, Bytes}
use mathlib.Core.Option
use dsh_fleet.Base.Decimal.{decimal}
use dsh_fleet.Base.Dict.{Dict, put}
use dsh_fleet.Base.Result.{Result, ok, err}
use dsh_fleet.Envelope.Payload.{new_payload}
use dsh_fleet.Envelope.Frames.{Outbound, req}
use dsh_fleet.Conn.Chan.{make, receive, got, finished, empty}
use dsh_fleet.Conn.State.{
  Pending, Response, Conn, ConnError, not_connected, disconnected, context_done, node_error, Run,
  runs, panics, ◌>>=◌, update, stream_buffer, write, cancel_request,
}
use dsh_fleet.Conn.Close.{settle}

-- The arguments of Do. `body` is `none` for a nil slice.
pub record Call : Type 0 where
  pub ns : Bytes
  pub method : Bytes
  pub path : Bytes
  pub headers : Dict Bytes
  pub body : Option Bytes
  pub textual : Bool

abbrev pub new_pending : Pending
new_pending = record {
  head = make 1;
  fail = make 1;
  chunks = make stream_buffer;
  next_seq = 0;
  once = false;
}

-- c.nextID++ on a uint64
abbrev pub next : ℕ → ℕ
next n = (n + 1) % 2 ^ 64

-- The locked part of Do: a correlation id, and a fresh *pending registered under it.
unfoldable pub begin_do : Conn → Result ConnError (Bytes × ℕ × Conn)
begin_do c =
    if c.closed
    then err not_connected
    else (let id = decimal (next c.next_id) in
        ok (
          id,
          c.next_address,
          record c {
            next_id = next c.next_id;
            pending = put id c.next_address c.pending;
            requests = update c.requests c.next_address new_pending;
            next_address = suc c.next_address;
          },
        ))

unfoldable pub request_frame : Bytes → Call → Outbound
request_frame id call = req (record {
  id = id;
  ns = call.ns;
  method = call.method;
  path = call.path;
  headers = call.headers;
  body = Option.map (λ b. new_payload b call.textual) call.body;
})

-- A call that returns, or one that still waits.
pub data Wait {ℓ} (A : Type ℓ) : Type ℓ where
  waits : Wait A
  returns : Conn → Result ConnError A → Wait A

abbrev pub settled {ℓ} : {A : Type ℓ} → ConnError → Run Conn → Run (Wait A)
settled e m = m >>= λ c. runs (returns c (err e))

-- The write of the request; on failure the slot is freed at once.
unfoldable pub send_do : Bool → Conn → Bytes → Call → Run (Result ConnError (Unit {0}) × Conn)
unfolding write settle request_frame
send_do wire c id call = elim (write wire c (request_frame id call)) [
  | ok c' ↦ runs (ok tt, c')
  | err e ↦ settle c id >>= λ c'. runs (err e, c')
]

-- The cases of the select that ends Do.
pub data Ready : Type 0 where
  on_context on_done on_fail on_head : Ready

-- The select, at the case that the scheduler picks; a case that is not ready waits.
unfoldable pub select_do : Bool → Conn → Bytes → ℕ → Ready → Run (Wait Response)
unfolding cancel_request settle receive
select_do wire c id a on_context = runs (returns (cancel_request wire c id) (err context_done))
select_do wire c id a on_done = if c.done then settled disconnected (settle c id) else runs waits
select_do wire c id a on_fail = elim (c.requests a) [
  | none ↦ panics
  | some p ↦ elim (receive p.fail) [
    | got e ch ↦
        settled (node_error e)
          (settle (record c { requests = update c.requests a (record p { fail = ch }) }) id)
    | finished ↦ runs waits
    | empty ↦ runs waits
  ]
]
select_do wire c id a on_head = elim (c.requests a) [
  | none ↦ panics
  | some p ↦ elim (receive p.head) [
    | got response ch ↦ runs (
        returns (record c { requests = update c.requests a (record p { head = ch }) })
          (ok response))
    | finished ↦ runs waits
    | empty ↦ runs waits
  ]
]

-- What one round of pump does to the body that the caller reads.
pub data Pumped : Type 0 where
  idle : Pumped
  wrote : Bytes → Conn → Pumped
  ended broken reader_gone : Conn → Pumped

-- What pump does with one value of p.chunks: `reading` says whether the caller still reads.
abbrev pub after_chunk : Bool → Bool → Bytes → Conn → Option Bytes → Run Pumped
after_chunk wire reading id c none = settle c id >>= λ c'. runs (ended c')
after_chunk wire reading id c (some bytes) =
    if reading
    then runs (wrote bytes c)
    else settle (cancel_request wire c id) id >>= λ c'. runs (reader_gone c')

-- One round of pump.
unfoldable pub pump : Bool → Bool → Conn → Bytes → ℕ → Run Pumped
unfolding receive settle cancel_request
pump wire reading c id a = elim (c.requests a) [
  | none ↦ panics
  | some p ↦ elim (receive p.chunks) [
    | empty ↦ runs idle
    | finished ↦ settle c id >>= λ c'. runs (broken c')
    | got chunk ch ↦
        after_chunk wire reading id
          (record c { requests = update c.requests a (record p { chunks = ch }) }) chunk
  ]
]

-- bodyReader.Close, the first time: cancels the request on the node.
unfoldable pub close_body : Bool → Bool → Conn → Bytes → Conn
unfolding cancel_request
close_body wire once c id = if once then c else cancel_request wire c id

-- ===== src/Conn/Stalls.antt =====
-- Where internal/uplink/conn.go leaves a request or the read loop waiting, or panics: what the code
-- does on frames that docs/envelope.md allows, and on schedules that its goroutines allow.
use dsh_fleet.Base.{
  ℕ, ◌≡◌, refl, Bool, true, false, [], ◌∷◌, Option, some, arith, if◌then◌else◌, Bytes, length,
}
use dsh_fleet.Base.Dict.{delete}
use dsh_fleet.Base.Result.{err}
use dsh_fleet.Envelope.Frames.{Err, Head}
use dsh_fleet.Conn.Chan.{send, receive, close}
use dsh_fleet.Conn.State.{Pending, Conn, runs, update, cancel_request, write, context_done}
use dsh_fleet.Conn.Close.{close_chunks, close_chunks_at, settle}
use dsh_fleet.Conn.Request.{returns, on_context, select_do, idle, pump}
use dsh_fleet.Conn.Dispatch.{
  continues, blocks, crashes, lookup, with_request, put_request, deliver, on_head, on_err, hand,
  to_body, at_once, give_head, give_failure,
}
use dsh_fleet.Conn.Invariant.Store.{IsValid}

abbrev closed_body : Pending → Pending
closed_body p = record p { once = true; chunks = record p.chunks { is_closed = true } }

abbrev failed : Pending → Err → Pending
failed p f = record p {
  fail = record p.fail { buffer = record { code = f.code; message = f.message } ∷ [] };
}

failed_lem :
    (c : Conn) (f : Err) (a : ℕ) (p : Pending)
    → lookup c f.id ≡ some a
    → c.requests a ≡ some p
    → p.fail.is_closed ≡ false
    → p.fail.buffer ≡ []
    → p.fail.room ≡ 1
    → at_once (on_err c f) ≡ continues (put_request c a (failed p f))
unfolding at_once give_failure on_err with_request lookup send
failed_lem c f a p e g o b r = ground arith

-- The first err frame for a request whose fail channel is empty, sent as soon as it is looked up, only
-- fills that channel, also after the head, when nothing reads it any more: the slot stays taken, the
-- body's channel stays open, and a pump that waits for a chunk waits on, so the reader of the body is
-- told nothing.
pub first_err_unseen :
    (c : Conn) (f : Err) (a : ℕ) (p : Pending) (wire reading : Bool)
    → IsValid c
    → lookup c f.id ≡ some a
    → c.requests a ≡ some p
    → p.fail.buffer ≡ []
    → p.fail.room ≡ 1
    → p.once ≡ false
    → p.chunks.buffer ≡ []
    → (c' : Conn) × (at_once (on_err c f) ≡ continues c')
      × (lookup c' f.id ≡ some a)
      × (pump wire reading c' f.id a ≡ runs idle)
unfolding pump lookup receive
first_err_unseen c f a p wire reading v e g b r o k = (
  put_request c a (failed p f),
  failed_lem c f a p e g (v.sound a p g).fail_open b r,
  e,
  ground (arith, (v.sound a p g).once_closed),
)

-- A caller of Do whose context ends keeps its slot, and the err frame with which the node answers its
-- cancel frame, sent as soon as it is looked up, does not free the slot either, where no other error of
-- the request waits to be read.
pub cancelled_keeps_slot :
    (wire : Bool) (c : Conn) (f : Err) (a : ℕ) (p : Pending)
    → IsValid c
    → lookup c f.id ≡ some a
    → c.requests a ≡ some p
    → p.fail.buffer ≡ []
    → p.fail.room ≡ 1
    → (c' c₂ : Conn) × (select_do wire c f.id a on_context ≡ runs (returns c' (err context_done)))
      × (at_once (on_err c' f) ≡ continues c₂)
      × (lookup c₂ f.id ≡ some a)
unfolding select_do cancel_request write lookup
cancelled_keeps_slot true c f a p v e g b r = (
  cancel_request true c f.id,
  put_request (cancel_request true c f.id) a (failed p f),
  refl,
  failed_lem (cancel_request true c f.id) f a p e g (v.sound a p g).fail_open b r,
  e,
)
cancelled_keeps_slot false c f a p v e g b r =
    (c, put_request c a (failed p f), refl, failed_lem c f a p e g (v.sound a p g).fail_open b r, e)

-- A head frame for a request whose head channel is full, as one that nobody has read leaves it, stops
-- the read loop: the send waits for room, and the end of the context does not release it.
pub second_head_wedges :
    (c : Conn) (f : Head) (a : ℕ) (p : Pending)
    → IsValid c
    → lookup c f.id ≡ some a
    → c.requests a ≡ some p
    → length p.head.buffer ≡ p.head.room
    → at_once (on_head c f) ≡ blocks
unfolding at_once give_head on_head with_request lookup send
second_head_wedges c f a p v e g r = ground (arith, (v.sound a p g).head_open)

-- A request that is settled between the look-up for a data or end frame and the send of its chunk makes
-- that send panic, if the select takes the send, which it must while the context has not ended.
pub settle_under_delivery :
    (c : Conn) (id : Bytes) (a : ℕ) (p : Pending) (chunk : Option Bytes)
    → IsValid c
    → lookup c id ≡ some a
    → c.requests a ≡ some p
    → (c' : Conn) × (settle c id ≡ runs c') × (hand false c' (to_body a chunk) ≡ crashes)
unfolding settle close_chunks_at close_chunks close hand deliver lookup send
settle_under_delivery c id a p chunk v e g = (
  record c {
    pending = delete id c.pending;
    requests = update c.requests a (if p.once then p else closed_body p);
  },
  ground (arith, (v.sound a p g).once_closed),
  ground (arith, (v.sound a p g).once_closed),
)

-- ===== src/Witnesses/Connections.antt =====
-- One connection of internal/uplink/conn.go with one request in flight, and what the theorems say of it.
use dsh_fleet.Base.{
  ℕ, ◌≡◌, refl, true, false, List, [], ◌∷◌, ◌++◌, Option, none, some, arith, Bytes, codes,
}
use dsh_fleet.Base.Decimal.{decimal}
use dsh_fleet.Base.Dict.{find, put}
use dsh_fleet.Base.Result.{Result, ok, err, pos}
use dsh_fleet.Envelope.{frame}
use dsh_fleet.Envelope.Payload.{bytes, new_payload, bytes-new_payload}
use dsh_fleet.Envelope.Frames.{Data, End, Err, data_frame}
use dsh_fleet.Conn.State.{Conn, ConnError, runs, new_conn, context_done}
use dsh_fleet.Conn.Close.{settle, shutdown}
use dsh_fleet.Conn.Request.{begin_do, new_pending, returns, on_context, select_do, idle, pump}
use dsh_fleet.Conn.Dispatch.{
  continues, crashes, lookup, hand, to_body, at_once, receive_message, on_err,
}
use dsh_fleet.Conn.Correlation.{NewRequest, begin_do-NewRequest}
use dsh_fleet.Conn.Invariant.Store.{IsValid, Returns}
use dsh_fleet.Conn.Invariant.Calls.{InRange}
use dsh_fleet.Conn.Invariant.Reading.{receive_message-IsValid}
use dsh_fleet.Conn.Invariant.Requests.{Handles, ClosedUnder}
use dsh_fleet.Conn.Invariant.Ending.{IsOver, shutdown-IsOver}
use dsh_fleet.Conn.Steps.{between, other, here, next, calls, reachable-IsValid}
use dsh_fleet.Conn.Stream.{
  Act, arrives, finishes, sends, takes, Counts, arrivals, run, stream_integrity,
}
use dsh_fleet.Conn.Stalls.{first_err_unseen, cancelled_keeps_slot, settle_under_delivery}

abbrev laptop : Bytes
laptop = codes "laptop"

abbrev idle_conn : Conn
idle_conn = new_conn laptop [] 0

abbrev third : Result ConnError (Bytes × ℕ × Conn) → Conn
third (ok (id, a, c)) = c
third (err e) = idle_conn

abbrev busy : Conn
busy = third (begin_do idle_conn)

abbrev first_id : Bytes
first_id = codes "1"

range : InRange idle_conn
unfolding new_conn
range = omega arith

began : begin_do idle_conn ≡ ok (first_id, 0, busy)
unfolding begin_do new_conn decimal
began = refl

idle-IsValid : IsValid idle_conn
idle-IsValid = reachable-IsValid laptop [] 0 here

busy-IsValid : IsValid busy
busy-IsValid = reachable-IsValid laptop [] 0 (next here (other between (calls range began)))

begin_do-NewRequest_example : NewRequest idle_conn (begin_do idle_conn)
begin_do-NewRequest_example = begin_do-NewRequest idle_conn idle-IsValid range

abbrev hi : Data
hi = record { id = first_id; seq = pos 0; body = record { enc = codes "u"; d = codes "hi" } }

abbrev one_chunk : End
one_chunk = record { id = first_id; chunks = pos 1 }

receive_message-IsValid_example :
    Handles ⊥ (receive_message 5 busy (frame (data_frame hi)))
    × Handles
        (ClosedUnder busy (to_body 0 (some (codes "hi"))))
        (hand false busy (to_body 0 (some (codes "hi"))))
unfolding begin_do new_conn
receive_message-IsValid_example =
    receive_message-IsValid 5 busy (frame (data_frame hi)) false busy
      (to_body 0 (some (codes "hi"))) busy-IsValid busy-IsValid tt

shutdown-IsOver_example : Returns (IsOver busy) (shutdown busy)
shutdown-IsOver_example = shutdown-IsOver busy busy-IsValid

abbrev acts : List Act
acts = arrives hi ∷ sends ∷ finishes one_chunk ∷ takes ∷ sends ∷ takes ∷ []

ran : run busy first_id 0 none acts ≡ some (some (codes "hi") ∷ none ∷ [])
unfolding run begin_do new_conn bytes find put decimal
ran = refl

stream_integrity_example :
    (rest : List (Option Bytes)) × ((some (codes "hi") ∷ none ∷ []) ++ rest ≡ arrivals acts)
    × Counts 0 acts
stream_integrity_example =
    stream_integrity idle_conn busy first_id 0 acts (some (codes "hi") ∷ none ∷ []) idle-IsValid
      range began (refl, (tt, (refl, (tt, (tt, (tt, tt)))))) ran

bytes-new_payload_example : bytes (new_payload (255 ∷ 0 ∷ []) true) ≡ ok (255 ∷ 0 ∷ [])
bytes-new_payload_example = bytes-new_payload (255 ∷ 0 ∷ []) true (omega arith, (omega arith, tt))

slot : lookup busy first_id ≡ some 0
unfolding lookup begin_do new_conn find put decimal
slot = refl

object : busy.requests 0 ≡ some new_pending
unfolding begin_do new_conn
object = refl

abbrev failure : Err
failure = record { id = first_id; code = codes "internal"; message = codes "disk full" }

first_err_unseen_example :
    (c' : Conn) × (at_once (on_err busy failure) ≡ continues c')
    × (lookup c' first_id ≡ some 0)
    × (pump true true c' first_id 0 ≡ runs idle)
first_err_unseen_example =
    first_err_unseen busy failure 0 new_pending true true busy-IsValid slot object refl refl refl
      refl

cancelled_keeps_slot_example :
    (c' c₂ : Conn) × (select_do true busy first_id 0 on_context
      ≡ runs (returns c' (err context_done)))
    × (at_once (on_err c' failure) ≡ continues c₂)
    × (lookup c₂ first_id ≡ some 0)
cancelled_keeps_slot_example =
    cancelled_keeps_slot true busy failure 0 new_pending busy-IsValid slot object refl refl

settle_under_delivery_example :
    (c' : Conn) × (settle busy first_id ≡ runs c') × (hand false c' (to_body 0 none) ≡ crashes)
settle_under_delivery_example =
    settle_under_delivery busy first_id 0 new_pending none busy-IsValid slot object

-- ===== src/Conn/Invariant/Reading.antt =====
-- The read loop keeps the invariant, and panics only where a channel is closed under it.
use dsh_fleet.Base.{ℕ, Bool, List, Bytes, inl, inr}
use dsh_fleet.Base.Result.{Result-cases, ℤ}
use dsh_fleet.Envelope.{Message, garbled, untyped, malformed, frame}
use dsh_fleet.Envelope.Payload.{bytes}
use dsh_fleet.Envelope.Frames.{
  Kind, Frame, WsMsg, WsClose, t_pong, hello_frame, head_frame, data_frame, end_frame, err_frame,
  telemetry_frame, ws_up_frame, ws_msg_frame, ws_close_frame, pong_frame, other_frame,
}
use dsh_fleet.Conn.State.{Conn, Run, runs, panics}
use dsh_fleet.Conn.Close.{drop_bridge}
use dsh_fleet.Conn.Dispatch.{
  continues, crashes, Handover, hand, on_telemetry, on_head, on_err, on_ws_up, on_ws_msg,
  on_ws_close, dispatch, dispatch_malformed, receive_message,
}
use dsh_fleet.Conn.Invariant.Requests.{
  ClosedUnder, Target, Handles, with_socket-Handles, on_data-Handles, on_end-Handles,
  on_request-Handles, hand-Handles,
}
use dsh_fleet.Conn.Invariant.Store.{IsValid, Returns}
use dsh_fleet.Conn.Invariant.Closing.{drop_bridge-IsValid}

on_ws_msg-Handles : (c : Conn) (f : WsMsg) → IsValid c → Handles ⊥ (on_ws_msg c f)
unfolding on_ws_msg
on_ws_msg-Handles c f v = with_socket-Handles ⊥ c f.id _ v λ a b e g o.
    elim (Result-cases (bytes f.body)) [ inl (text, r) ↦ rw r (v, rw g tt) | inr (x, r) ↦ rw r v ]

on_ws_close-Handles : (c : Conn) (f : WsClose) → IsValid c → Handles ⊥ (on_ws_close c f)
unfolding on_ws_close
on_ws_close-Handles c f v = closing (drop_bridge c f.id) (drop_bridge-IsValid c f.id v)
  where
    closing :
        (m : Run Conn)
        → Returns IsValid m
        → Handles ⊥ (elim m [ runs c' ↦ continues c' | panics ↦ crashes ])
    closing (runs c') w = w
    closing panics w = w

same_maps-IsValid : (c : Conn) (now : ℕ) → IsValid c → IsValid (record c { last_pong = now })
same_maps-IsValid c now v = record {
  sound = v.sound;
  up_open = v.up_open;
  registered = v.registered;
  listening = v.listening;
  numbered = v.numbered;
  lettered = v.lettered;
  one_request = v.one_request;
  one_bridge = v.one_bridge;
  fresh = v.fresh;
  emptied = v.emptied;
  ended = v.ended;
}

recorded-IsValid :
    (c : Conn) (r : List (ℤ × Bytes)) → IsValid c → IsValid (record c { recorded = r })
recorded-IsValid c r v = record {
  sound = v.sound;
  up_open = v.up_open;
  registered = v.registered;
  listening = v.listening;
  numbered = v.numbered;
  lettered = v.lettered;
  one_request = v.one_request;
  one_bridge = v.one_bridge;
  fresh = v.fresh;
  emptied = v.emptied;
  ended = v.ended;
}

dispatch-Handles : (now : ℕ) (c : Conn) (f : Frame) → IsValid c → Handles ⊥ (dispatch now c f)
unfolding dispatch on_telemetry on_head on_err on_ws_up
dispatch-Handles now c (head_frame f) v = on_request-Handles c f.id _ v λ a p h. h
dispatch-Handles now c (data_frame f) v = on_data-Handles c f v
dispatch-Handles now c (end_frame f) v = on_end-Handles c f v
dispatch-Handles now c (err_frame f) v = on_request-Handles c f.id _ v λ a p h. h
dispatch-Handles now c (telemetry_frame f) v = recorded-IsValid c _ v
dispatch-Handles now c (ws_up_frame f) v =
    with_socket-Handles ⊥ c f.id _ v λ a b e g o. (v, rw g tt)
dispatch-Handles now c (ws_msg_frame f) v = on_ws_msg-Handles c f v
dispatch-Handles now c (ws_close_frame f) v = on_ws_close-Handles c f v
dispatch-Handles now c (pong_frame t) v = same_maps-IsValid c now v
dispatch-Handles now c (hello_frame f) v = v
dispatch-Handles now c (other_frame s) v = v

malformed-Handles :
    (now : ℕ) (c : Conn) (k : Kind) → IsValid c → Handles ⊥ (dispatch_malformed now c k)
unfolding dispatch_malformed
malformed-Handles now c t_pong v = same_maps-IsValid c now v
malformed-Handles now c _ v = v

pub reading-Handles :
    (now : ℕ) (c : Conn) (m : Message) → IsValid c → Handles ⊥ (receive_message now c m)
unfolding receive_message
reading-Handles now c garbled v = v
reading-Handles now c untyped v = v
reading-Handles now c (malformed k) v = malformed-Handles now c k v
reading-Handles now c (frame f) v = dispatch-Handles now c f v

-- From a valid connection, taking in any message as far as its look-up does not panic and leaves a
-- valid connection, with the object of the send that follows. That send, whatever ran in between, leaves
-- a valid connection or waits for room, and panics only as that of a chunk or of the end of a body whose
-- channel is closed by then, or of a bridge's message whose channel is.
pub receive_message-IsValid :
    (now : ℕ) (c : Conn) (m : Message) (takes_context : Bool) (later : Conn) (s : Handover)
    → IsValid c
    → IsValid later
    → Target later s
    → Handles ⊥ (receive_message now c m)
      × Handles (ClosedUnder later s) (hand takes_context later s)
receive_message-IsValid now c m takes_context later s v w h =
    (reading-Handles now c m v, hand-Handles takes_context later s w h)

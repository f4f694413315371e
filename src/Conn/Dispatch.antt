-- ===== src/Conn/Dispatch.antt =====
-- serve and dispatch of internal/uplink/conn.go. A frame is looked up under the lock, and its value is
-- sent to the object that was found after the lock is released: `hands` is the point between the two,
-- at which other goroutines may run. A send that finds its channel full stops the read loop until the
-- channel has room or the context ends: `blocks` is that wait, and the same send is tried again.
use dsh_fleet.Base.{ℕ, suc, Bool, false, [], ◌∷◌, ◌++◌, Option, none, some, if◌then◌else◌, Bytes}
use dsh_fleet.Base.Dict.{find}
use dsh_fleet.Base.Result.{ok, err, is_count}
use dsh_fleet.Envelope.{Message, garbled, untyped, malformed, frame}
use dsh_fleet.Envelope.Payload.{bytes}
use dsh_fleet.Envelope.Frames.{
  Kind, Frame, Head, Data, End, Err, Telemetry, WsUp, WsMsg, WsClose, t_head, t_data, t_end, t_err,
  t_telemetry, t_ws_up, t_ws_msg, t_ws_close, t_pong, hello_frame, head_frame, data_frame,
  end_frame, err_frame, telemetry_frame, ws_up_frame, ws_msg_frame, ws_close_frame, pong_frame,
  other_frame,
}
use dsh_fleet.Conn.Chan.{send, sent, full, panic}
use dsh_fleet.Conn.State.{
  Response, RequestError, Pending, Bridge, Conn, ConnError, context_done, bad_message, bad_frame,
  bad_payload, out_of_order, count_mismatch, runs, panics, update,
}
use dsh_fleet.Conn.Close.{close_chunks, drop_bridge}

-- A send that dispatch is about to make, with the address of the object it has found.
pub data Handover : Type 0 where
  to_head : ℕ → Response → Handover
  to_body : ℕ → Option Bytes → Handover
  to_fail : ℕ → RequestError → Handover
  to_up : ℕ → Bytes → Handover
  to_messages : ℕ → Bytes → Handover

pub data Outcome : Type 0 where
  continues : Conn → Outcome
  stops : Conn → ConnError → Outcome
  hands : Conn → Handover → Outcome
  blocks crashes : Outcome

-- lookup, and the object behind the pointer
unfoldable pub lookup : Conn → Bytes → Option ℕ
lookup c id = find id c.pending

abbrev pub put_request : Conn → ℕ → Pending → Conn
put_request c a p = record c { requests = update c.requests a p }

abbrev pub put_socket : Conn → ℕ → Bridge → Conn
put_socket c a b = record c { sockets = update c.sockets a b }

-- The same code for each registered object: nothing is done for an id that is not registered.
unfoldable pub with_request : Conn → Bytes → (ℕ → Pending → Outcome) → Outcome
unfolding lookup
with_request c id k = elim (lookup c id) [
  | none ↦ continues c
  | some a ↦ elim (c.requests a) [ none ↦ crashes | some p ↦ k a p ]
]

unfoldable pub with_socket : Conn → Bytes → (ℕ → Bridge → Outcome) → Outcome
with_socket c id k = elim (find id c.bridges) [
  | none ↦ continues c
  | some a ↦ elim (c.sockets a) [ none ↦ crashes | some b ↦ k a b ]
]

-- p.head <- response, which no context bounds
unfoldable pub give_head : Conn → ℕ → Response → Outcome
unfolding send
give_head c a response = elim (c.requests a) [
  | none ↦ crashes
  | some p ↦ elim (send p.head response) [
    | sent ch ↦ continues (put_request c a (record p { head = ch }))
    | full ↦ blocks
    | panic ↦ crashes
  ]
]

-- select { case p.chunks <- chunk: case <-ctx.Done(): }. Once the context has ended both cases may be
-- ready, and either may be taken: `takes_context` says that the second is.
unfoldable pub deliver : Bool → Conn → ℕ → Option Bytes → Outcome
unfolding send
deliver takes_context c a chunk =
    if takes_context then stops c context_done else elim (c.requests a) [
      | none ↦ crashes
      | some p ↦ elim (send p.chunks chunk) [
        | sent ch ↦ continues (put_request c a (record p { chunks = ch }))
        | full ↦ blocks
        | panic ↦ crashes
      ]
    ]

-- select { case p.fail <- re: default: p.closeChunks() }
unfoldable pub give_failure : Conn → ℕ → RequestError → Outcome
unfolding send close_chunks
give_failure c a e = elim (c.requests a) [
  | none ↦ crashes
  | some p ↦ elim (send p.fail e) [
    | sent ch ↦ continues (put_request c a (record p { fail = ch }))
    | full ↦ elim (close_chunks p) [ runs p' ↦ continues (put_request c a p') | panics ↦ crashes ]
    | panic ↦ crashes
  ]
]

-- select { case bridge.up <- f.Protocol: default: }
unfoldable pub give_up : Conn → ℕ → Bytes → Outcome
unfolding send
give_up c a protocol = elim (c.sockets a) [
  | none ↦ crashes
  | some b ↦ elim (send b.up protocol) [
    | sent ch ↦ continues (put_socket c a (record b { up = ch }))
    | full ↦ continues c
    | panic ↦ crashes
  ]
]

-- select { case bridge.Messages <- text: case <-ctx.Done(): }
unfoldable pub relay : Bool → Conn → ℕ → Bytes → Outcome
unfolding send
relay takes_context c a text = if takes_context then stops c context_done else elim (c.sockets a) [
  | none ↦ crashes
  | some b ↦ elim (send b.messages text) [
    | sent ch ↦ continues (put_socket c a (record b { messages = ch }))
    | full ↦ blocks
    | panic ↦ crashes
  ]
]

-- The send, on the object as it is by then; only two of the five watch the context.
unfoldable pub hand : Bool → Conn → Handover → Outcome
unfolding give_head deliver give_failure give_up relay
hand takes_context c (to_head a response) = give_head c a response
hand takes_context c (to_body a chunk) = deliver takes_context c a chunk
hand takes_context c (to_fail a e) = give_failure c a e
hand takes_context c (to_up a protocol) = give_up c a protocol
hand takes_context c (to_messages a text) = relay takes_context c a text

-- What was looked up is sent before any other goroutine runs, and without an end of the context.
unfoldable pub at_once : Outcome → Outcome
unfolding hand
at_once (hands c s) = hand false c s
at_once (continues c) = continues c
at_once (stops c e) = stops c e
at_once blocks = blocks
at_once crashes = crashes

unfoldable pub on_head : Conn → Head → Outcome
unfolding with_request
on_head c f =
    with_request c f.id
      λ a p. hands c (to_head a (record { status = f.status; headers = f.headers }))

abbrev pub counted : Pending → Pending
counted p = record p { next_seq = suc p.next_seq }

-- The sequence check comes before the payload is decoded, and counts the chunk either way.
unfoldable pub on_data : Conn → Data → Outcome
unfolding with_request
on_data c f = with_request c f.id λ a p.
    if is_count f.seq p.next_seq
    then elim (bytes f.body) [
      | err e ↦ stops (put_request c a (counted p)) bad_payload
      | ok chunk ↦ hands (put_request c a (counted p)) (to_body a (some chunk))
    ]
    else stops c out_of_order

unfoldable pub on_end : Conn → End → Outcome
unfolding with_request
on_end c f =
    with_request c f.id λ a p.
      if is_count f.chunks p.next_seq then hands c (to_body a none) else stops c count_mismatch

unfoldable pub on_err : Conn → Err → Outcome
unfolding with_request
on_err c f =
    with_request c f.id λ a p. hands c (to_fail a (record { code = f.code; message = f.message }))

-- A goroutine hands the snapshot to the telemetry sink.
unfoldable pub on_telemetry : Conn → Telemetry → Outcome
on_telemetry c f = continues (record c { recorded = c.recorded ++ (f.ts, f.snapshot) ∷ [] })

unfoldable pub on_ws_up : Conn → WsUp → Outcome
unfolding with_socket
on_ws_up c f = with_socket c f.id λ a b. hands c (to_up a f.protocol)

unfoldable pub on_ws_msg : Conn → WsMsg → Outcome
unfolding with_socket
on_ws_msg c f = with_socket c f.id λ a b. elim (bytes f.body) [
  | err e ↦ stops c bad_payload
  | ok text ↦ hands c (to_messages a text)
]

unfoldable pub on_ws_close : Conn → WsClose → Outcome
unfolding drop_bridge
on_ws_close c f = elim (drop_bridge c f.id) [ runs c' ↦ continues c' | panics ↦ crashes ]

-- dispatch of a frame that decodes, up to its send; `now` is the clock.
unfoldable pub dispatch : ℕ → Conn → Frame → Outcome
unfolding on_head on_data on_end on_err on_telemetry on_ws_up on_ws_msg on_ws_close
dispatch now c (head_frame f) = on_head c f
dispatch now c (data_frame f) = on_data c f
dispatch now c (end_frame f) = on_end c f
dispatch now c (err_frame f) = on_err c f
dispatch now c (telemetry_frame f) = on_telemetry c f
dispatch now c (ws_up_frame f) = on_ws_up c f
dispatch now c (ws_msg_frame f) = on_ws_msg c f
dispatch now c (ws_close_frame f) = on_ws_close c f
dispatch now c (pong_frame _) = continues (record c { last_pong = now })
dispatch now c (hello_frame _) = continues c
dispatch now c (other_frame _) = continues c

-- dispatch of a message whose discriminant is all that decodes: a pong is not decoded further, and
-- an unknown type is ignored.
unfoldable pub dispatch_malformed : ℕ → Conn → Kind → Outcome
dispatch_malformed now c t_head = stops c bad_frame
dispatch_malformed now c t_data = stops c bad_frame
dispatch_malformed now c t_end = stops c bad_frame
dispatch_malformed now c t_err = stops c bad_frame
dispatch_malformed now c t_telemetry = stops c bad_frame
dispatch_malformed now c t_ws_up = stops c bad_frame
dispatch_malformed now c t_ws_msg = stops c bad_frame
dispatch_malformed now c t_ws_close = stops c bad_frame
dispatch_malformed now c t_pong = continues (record c { last_pong = now })
dispatch_malformed now c _ = continues c

-- One round of serve, on the message that the socket gave, up to the send of its frame.
unfoldable pub receive_message : ℕ → Conn → Message → Outcome
unfolding dispatch dispatch_malformed
receive_message now c garbled = stops c bad_message
receive_message now c untyped = stops c bad_message
receive_message now c (malformed k) = dispatch_malformed now c k
receive_message now c (frame f) = dispatch now c f

-- ===== src/Conn/Steps.antt =====
-- The goroutines of internal/uplink/conn.go as a step relation: any stretch of any of them may come
-- next, with the outcome that its socket, its context and the scheduler give it. The read loop has a
-- place of its own: between two frames, or holding what it has looked up and is about to send.
use dsh_fleet.Base.{◌+◌, ◌*◌, ◌-◌, true, false, ltb, if-cases, refl, ℕ, ◌≡◌, Bool, Bytes, List}
use dsh_fleet.Base.Dict.{Dict, find}
use dsh_fleet.Base.Result.{Result, ok, err, ℤ}
use dsh_fleet.Envelope.{Message}
use dsh_fleet.Envelope.Frames.{Outbound, ping, ws_msg}
use dsh_fleet.Envelope.Payload.{new_payload}
use dsh_fleet.Conn.State.{
  heartbeat_interval, Conn, ConnError, Response, Bridge, Run, runs, new_conn, write,
}
use dsh_fleet.Conn.Close.{close_bridge, shutdown}
use dsh_fleet.Conn.Request.{
  Call, returns, Ready, Pumped, idle, wrote, ended, broken, reader_gone, begin_do, send_do,
  select_do, pump, close_body,
}
use dsh_fleet.Conn.Socket.{OpenReady, begin_open, send_open, select_open, send_message}
use dsh_fleet.Conn.Dispatch.{continues, stops, hands, Handover, hand, receive_message}
use dsh_fleet.Conn.Heartbeat.{Beat, beats, touched, heartbeat}
use dsh_fleet.Conn.Invariant.Store.{Allocated, IsValid, Returns, bookkeeping-IsValid}
use dsh_fleet.Conn.Invariant.Closing.{close_bridge-IsValid, cancel_request-IsValid}
use dsh_fleet.Conn.Invariant.Calls.{
  InRange, Began, begin_do-IsValid, BeganOpen, begin_open-IsValid, send_do-IsValid,
  send_open-IsValid, select_do-IsValid, select_open-IsValid, Pumping, pump-IsValid,
}
use dsh_fleet.Conn.Invariant.Requests.{Target, hand-Handles}
use dsh_fleet.Conn.Invariant.Reading.{reading-Handles}
use dsh_fleet.Conn.Invariant.Ending.{IsOver, shutdown-IsOver}

-- The connection after a round of pump.
abbrev pub after_pump : Conn → Pumped → Conn
after_pump c idle = c
after_pump c (wrote bytes c') = c'
after_pump c (ended c') = c'
after_pump c (broken c') = c'
after_pump c (reader_gone c') = c'

pub data Step (c : Conn) : Conn → Type 0 where
  calls : {id : Bytes} {a : ℕ} {c' : Conn} → InRange c → begin_do c ≡ ok (id, a, c') → Step c c'
  sends :
      {r : Result ConnError (Unit {0})} {c' : Conn} (wire : Bool) (id : Bytes) (call : Call)
      → send_do wire c id call ≡ runs (r, c')
      → Step c c'
  wakes :
      {r : Result ConnError Response} {c' : Conn} (wire : Bool) (id : Bytes) (a : ℕ) (ready : Ready)
      → Allocated (c.requests a)
      → select_do wire c id a ready ≡ runs (returns c' r)
      → Step c c'
  pumps :
      (p : Pumped) (wire reading : Bool) (id : Bytes) (a : ℕ)
      → Allocated (c.requests a)
      → pump wire reading c id a ≡ runs p
      → Step c (after_pump c p)
  closes_body : (wire once : Bool) (id : Bytes) → Step c (close_body wire once c id)
  opens : {id : Bytes} {a : ℕ} {c' : Conn} → InRange c → begin_open c ≡ ok (id, a, c') → Step c c'
  sends_open :
      {r : Result ConnError (Unit {0})} {c' : Conn} (wire : Bool) (id path : Bytes)
      (headers : Dict Bytes)
      → send_open wire c id path headers ≡ runs (r, c')
      → Step c c'
  wakes_open :
      {r : Result ConnError ℕ} {c' : Conn} (wire : Bool) (id : Bytes) (a : ℕ) (ready : OpenReady)
      → Allocated (c.sockets a)
      → select_open wire c id a ready ≡ runs (returns c' r)
      → Step c c'
  closes_bridge :
      {c' : Conn} (wire : Bool) (a : ℕ) (code : ℤ) (reason : Bytes)
      → Allocated (c.sockets a)
      → close_bridge wire c a code reason ≡ runs c'
      → Step c c'
  sends_message :
      {c' : Conn} (wire : Bool) (b : Bridge) (text : Bytes)
      → send_message wire c b text ≡ ok c'
      → Step c c'
  ticks : {c' : Conn} (wire : Bool) (now : ℕ) → heartbeat wire now c ≡ beats c' → Step c c'
  ends : {c' : Conn} → shutdown c ≡ runs c' → Step c c'

-- Where the read loop is: between two frames, about to send what it has looked up, or returned.
pub data Reader : Type 0 where
  between finished : Reader
  holding : Handover → Reader

pub record System : Type 0 where
  pub conn : Conn
  pub reader : Reader

abbrev pub at : Conn → Reader → System
at c r = record { conn = c; reader = r }

pub data Move : System → System → Type 0 where
  other : {c c' : Conn} (r : Reader) → Step c c' → Move (at c r) (at c' r)
  reads :
      {c c' : Conn} (now : ℕ) (m : Message)
      → receive_message now c m ≡ continues c'
      → Move (at c between) (at c' between)
  finds :
      {c c' : Conn} {s : Handover} (now : ℕ) (m : Message)
      → receive_message now c m ≡ hands c' s
      → Move (at c between) (at c' (holding s))
  stops_reading :
      {c c' : Conn} {e : ConnError} (now : ℕ) (m : Message)
      → receive_message now c m ≡ stops c' e
      → Move (at c between) (at c' finished)
  hands_over :
      {c c' : Conn} {s : Handover} (takes_context : Bool)
      → Target c s
      → hand takes_context c s ≡ continues c'
      → Move (at c (holding s)) (at c' between)
  gives_up :
      {c c' : Conn} {s : Handover} {e : ConnError} (takes_context : Bool)
      → Target c s
      → hand takes_context c s ≡ stops c' e
      → Move (at c (holding s)) (at c' finished)

pub data Reach (s : System) : System → Type 0 where
  here : Reach s s
  next : {t u : System} → Reach s t → Move t u → Reach s u

abbrev Wrote : Result ConnError Conn → Type 0
Wrote (ok c) = IsValid c
Wrote (err e) = Unit

write-Wrote : (wire : Bool) (c : Conn) (frame : Outbound) → IsValid c → Wrote (write wire c frame)
unfolding write
write-Wrote true c frame v = bookkeeping-IsValid c _ _ _ _ v
write-Wrote false c frame v = tt

abbrev Beating : Beat → Type 0
Beating (beats c) = IsValid c
Beating _ = Unit

heartbeat-Beating : (wire : Bool) (now : ℕ) (c : Conn) → IsValid c → Beating (heartbeat wire now c)
unfolding heartbeat
heartbeat-Beating wire now c v =
    if-cases Beating (ltb (2 * heartbeat_interval + 5000) (now - c.last_pong)) _ _ (λ t. tt)
      λ f. sent (write wire c (ping now)) (write-Wrote wire c (ping now) v)
  where
    sent : (r : Result ConnError Conn) → Wrote r → Beating (touched r)
    sent (ok d) w = bookkeeping-IsValid d _ _ _ _ w
    sent (err e) w = tt

Step-IsValid : {c d : Conn} → IsValid c → Step c d → IsValid d
unfolding close_body send_message
Step-IsValid {c} v (calls r e) = (began _ e (begin_do-IsValid c v r)).0
  where
    began :
        {id : Bytes} {a : ℕ} {c' : Conn} (o : Result ConnError (Bytes × ℕ × Conn))
        → o ≡ ok (id, a, c')
        → Began o
        → IsValid c' × Allocated (c'.requests a)
    began o e b = rw e at b
Step-IsValid {c} v (opens r e) = (began _ e (begin_open-IsValid c v r)).0
  where
    began :
        {id : Bytes} {a : ℕ} {c' : Conn} (o : Result ConnError (Bytes × ℕ × Conn))
        → o ≡ ok (id, a, c')
        → BeganOpen o
        → IsValid c' × Allocated (c'.sockets a)
    began o e b = rw e at b
Step-IsValid {c} v (sends wire id call e) = rw e at (send_do-IsValid wire c id call v)
Step-IsValid {c} v (wakes wire id a ready h e) = rw e at (select_do-IsValid wire c id a ready v h)
Step-IsValid {c} v (pumps p wire reading id a h e) =
    left p (rw e at (pump-IsValid wire reading c id a v h))
  where
    left : (p : Pumped) → Pumping p → IsValid (after_pump c p)
    left idle h = v
    left (wrote bytes c') h = h
    left (ended c') h = h
    left (broken c') h = h
    left (reader_gone c') h = h
Step-IsValid {c} v (closes_body wire once id) =
    if-cases IsValid once _ _ (λ t. v) (λ f. cancel_request-IsValid wire c id v)
Step-IsValid {c} v (sends_open wire id path headers e) =
    rw e at (send_open-IsValid wire c id path headers v)
Step-IsValid {c} v (wakes_open wire id a ready h e) =
    rw e at (select_open-IsValid wire c id a ready v h)
Step-IsValid {c} v (closes_bridge wire a code reason h e) =
    rw e at (close_bridge-IsValid wire c a code reason v h)
Step-IsValid {c} v (sends_message wire b text e) =
    rw e at (write-Wrote wire c (ws_msg (record { id = b.id; body = new_payload text true })) v)
Step-IsValid {c} v (ticks wire now e) = rw e at (heartbeat-Beating wire now c v)
Step-IsValid {c} v (ends e) = over _ e (shutdown-IsOver c v)
  where
    over : {c' : Conn} (o : Run Conn) → o ≡ runs c' → Returns (IsOver c) o → IsValid c'
    over {c'} o e r = let w : IsOver c c' = rw e at r in w.valid

Move-IsValid : {s t : System} → IsValid s.conn → Move s t → IsValid t.conn
Move-IsValid v (other r st) = Step-IsValid v st
Move-IsValid v (reads {c} now m e) = rw e at (reading-Handles now c m v)
Move-IsValid v (finds {c} now m e) = (rw e at (reading-Handles now c m v)).0
Move-IsValid v (stops_reading {c} now m e) = rw e at (reading-Handles now c m v)
Move-IsValid v (hands_over {c} {s = s} t h e) = rw e at (hand-Handles t c s v h)
Move-IsValid v (gives_up {c} {s = s} t h e) = rw e at (hand-Handles t c s v h)

Reach-IsValid : {s t : System} → IsValid s.conn → Reach s t → IsValid t.conn
Reach-IsValid v here = v
Reach-IsValid v (next r m) = Move-IsValid (Reach-IsValid v r) m

new_conn-IsValid :
    (node_id : Bytes) (caps : List Bytes) (now : ℕ) → IsValid (new_conn node_id caps now)
unfolding new_conn find
new_conn-IsValid node_id caps now = record {
  sound = λ a p h. cc;
  up_open = λ a b h. cc;
  registered = λ id a h. cc;
  listening = λ id a h. cc;
  numbered = λ id a h. cc;
  lettered = λ id a h. cc;
  one_request = tt;
  one_bridge = tt;
  fresh = λ a h. (refl, refl);
  emptied = λ h. cc;
  ended = refl;
}

pub reachable-IsValid :
    (node_id : Bytes) (caps : List Bytes) (now : ℕ) {s : System}
    → Reach (at (new_conn node_id caps now) between) s
    → IsValid s.conn
reachable-IsValid node_id caps now r = Reach-IsValid (new_conn-IsValid node_id caps now) r

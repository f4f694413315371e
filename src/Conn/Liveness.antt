-- ===== src/Conn/Liveness.antt =====
-- Pongs and the heartbeat of internal/uplink/conn.go.
use dsh_fleet.Base.{ℕ, ◌+◌, ◌<◌, ◌≡◌, ◌↔◌, refl, Bool, arith}
use dsh_fleet.Base.Result.{Result, ok, err, ℤ}
use dsh_fleet.Envelope.{frame}
use dsh_fleet.Envelope.Frames.{pong_frame, ping}
use dsh_fleet.Conn.State.{Conn, ConnError, write}
use dsh_fleet.Conn.Dispatch.{continues, receive_message}
use dsh_fleet.Conn.Heartbeat.{lost, touched, heartbeat}

touched_not_lost : (r : Result ConnError Conn) → touched r ≡ lost → ⊥
touched_not_lost (ok c) e = cc
touched_not_lost (err e) h = cc

-- A pong that arrives at one time is good for 45 seconds: a tick of the heartbeat gives the
-- connection up exactly when it comes later than that.
pub pong_deadline :
    (wire : Bool) (now later : ℕ) (c : Conn) (ts : ℤ)
    → (c' : Conn) × (receive_message now c (frame (pong_frame ts)) ≡ continues c')
      × ((heartbeat wire later c' ≡ lost) ↔ (now + 45000 < later))
unfolding receive_message heartbeat
pong_deadline wire now later c ts = (
  record c { last_pong = now },
  refl,
  (
    λ e. ground (arith, touched_not_lost (write wire (record c { last_pong = now }) (ping later))),
    λ l. ground arith,
  ),
)

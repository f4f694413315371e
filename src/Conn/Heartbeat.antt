-- ===== src/Conn/Heartbeat.antt =====
-- heartbeat of internal/uplink/conn.go: one tick of its ticker.
use dsh_fleet.Base.{ℕ, ◌+◌, ◌-◌, ◌*◌, Bool, ltb, if◌then◌else◌}
use dsh_fleet.Base.Result.{Result, ok, err}
use dsh_fleet.Envelope.Frames.{ping}
use dsh_fleet.Conn.State.{Conn, ConnError, heartbeat_interval, write}

-- The loop goes on, ends because a write failed, or closes the socket.
pub data Beat : Type 0 where
  beats : Conn → Beat
  stopped lost : Beat

abbrev pub touched : Result ConnError Conn → Beat
touched (ok c) = beats (record c { touches = c.touches + 1 })
touched (err e) = stopped

unfoldable pub heartbeat : Bool → ℕ → Conn → Beat
unfolding write
heartbeat wire now c =
    if ltb (2 * heartbeat_interval + 5000) (now - c.last_pong)
    then lost
    else touched (write wire c (ping now))

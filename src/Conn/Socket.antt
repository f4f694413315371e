-- ===== src/Conn/Socket.antt =====
-- Conn.OpenWS and Bridge.Send of internal/uplink/conn.go.
use dsh_fleet.Base.{ℕ, suc, Bool, true, false, ◌∷◌, none, some, if◌then◌else◌, Bytes, codes}
use dsh_fleet.Base.Decimal.{decimal}
use dsh_fleet.Base.Dict.{Dict, put}
use dsh_fleet.Base.Result.{Result, ok, err, pos}
use dsh_fleet.Envelope.Payload.{new_payload}
use dsh_fleet.Envelope.Frames.{ws_open, ws_msg}
use dsh_fleet.Conn.Chan.{make, receive, got, finished, empty}
use dsh_fleet.Conn.State.{
  Bridge, Conn, ConnError, not_connected, disconnected, context_done, open_timeout, Run, runs,
  panics, ◌>>=◌, update, stream_buffer, write,
}
use dsh_fleet.Conn.Close.{drop_bridge, close_bridge}
use dsh_fleet.Conn.Request.{next, Wait, waits, returns, settled}

abbrev pub new_bridge : Bytes → Bridge
new_bridge id = record { id = id; up = make 1; messages = make stream_buffer; once = false }

-- "w%d"
abbrev pub bridge_id : ℕ → Bytes
bridge_id n = b'w' ∷ decimal n

-- The locked part of OpenWS.
unfoldable pub begin_open : Conn → Result ConnError (Bytes × ℕ × Conn)
begin_open c =
    if c.closed
    then err not_connected
    else (let id = bridge_id (next c.next_id) in
        ok (
          id,
          c.next_address,
          record c {
            next_id = next c.next_id;
            bridges = put id c.next_address c.bridges;
            sockets = update c.sockets c.next_address (new_bridge id);
            next_address = suc c.next_address;
          },
        ))

unfoldable pub send_open :
    Bool → Conn → Bytes → Bytes → Dict Bytes → Run (Result ConnError (Unit {0}) × Conn)
unfolding write drop_bridge
send_open wire c id path headers =
    elim (write wire c (ws_open (record { id = id; path = path; headers = headers }))) [
      | ok c' ↦ runs (ok tt, c')
      | err e ↦ drop_bridge c id >>= λ c'. runs (err e, c')
    ]

pub data OpenReady : Type 0 where
  on_context on_done on_up on_timeout : OpenReady

-- The select of OpenWS; the address is the bridge that it returns.
unfoldable pub select_open : Bool → Conn → Bytes → ℕ → OpenReady → Run (Wait ℕ)
unfolding close_bridge drop_bridge receive
select_open wire c id a on_context =
    settled context_done (close_bridge wire c a (pos 1001) (codes "cancelled"))
select_open wire c id a on_done =
    if c.done then settled disconnected (drop_bridge c id) else runs waits
select_open wire c id a on_up = elim (c.sockets a) [
  | none ↦ panics
  | some b ↦ elim (receive b.up) [
    | got protocol ch ↦
        runs (returns (record c { sockets = update c.sockets a (record b { up = ch }) }) (ok a))
    | finished ↦ runs waits
    | empty ↦ runs waits
  ]
]
select_open wire c id a on_timeout =
    settled open_timeout (close_bridge wire c a (pos 1011) (codes "node did not open the socket"))

-- Bridge.Send
unfoldable pub send_message : Bool → Conn → Bridge → Bytes → Result ConnError Conn
unfolding write
send_message wire c b text =
    write wire c (ws_msg (record { id = b.id; body = new_payload text true }))

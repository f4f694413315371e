-- ===== src/Conn/Close.antt =====
-- closeChunks, settle, dropBridge, Bridge.Close and shutdown of internal/uplink/conn.go.
use dsh_fleet.Base.{ℕ, Bool, true, [], ◌∷◌, none, some, if◌then◌else◌, Bytes}
use dsh_fleet.Base.Dict.{Dict, find, delete}
use dsh_fleet.Base.Result.{ℤ}
use dsh_fleet.Envelope.Frames.{ws_close}
use dsh_fleet.Conn.Chan.{close}
use dsh_fleet.Conn.State.{Pending, Conn, Run, runs, panics, ◌>>=◌, update, write, best_effort}

-- pending.closeChunks, once
unfoldable pub close_chunks : Pending → Run Pending
unfolding close
close_chunks p = if p.once then runs p else elim (close p.chunks) [
  | none ↦ panics
  | some ch ↦ runs (record p { once = true; chunks = ch })
]

-- The same through the pointer.
unfoldable pub close_chunks_at : Conn → ℕ → Run Conn
unfolding close_chunks
close_chunks_at c a = elim (c.requests a) [
  | none ↦ panics
  | some p ↦ do p' ← close_chunks p; runs (record c { requests = update c.requests a p' })
]

-- Conn.settle
unfoldable pub settle : Conn → Bytes → Run Conn
unfolding close_chunks_at
settle c id = elim (find id c.pending) [
  | none ↦ runs (record c { pending = delete id c.pending })
  | some a ↦ close_chunks_at (record c { pending = delete id c.pending }) a
]

-- close(bridge.Messages)
unfoldable pub close_messages_at : Conn → ℕ → Run Conn
unfolding close
close_messages_at c a = elim (c.sockets a) [
  | none ↦ panics
  | some b ↦ elim (close b.messages) [
    | none ↦ panics
    | some ch ↦ runs (record c { sockets = update c.sockets a (record b { messages = ch }) })
  ]
]

-- Conn.dropBridge
unfoldable pub drop_bridge : Conn → Bytes → Run Conn
unfolding close_messages_at
drop_bridge c id = elim (find id c.bridges) [
  | none ↦ runs (record c { bridges = delete id c.bridges })
  | some a ↦ close_messages_at (record c { bridges = delete id c.bridges }) a
]

-- Bridge.Close, once
unfoldable pub close_bridge : Bool → Conn → ℕ → ℤ → Bytes → Run Conn
unfolding drop_bridge write
close_bridge wire c a code reason = elim (c.sockets a) [
  | none ↦ panics
  | some b ↦
      let c' : Conn = record c { sockets = update c.sockets a (record b { once = true }) } in
      let frame = ws_close (record { id = b.id; code = code; reason = reason }) in
      if b.once then runs c else drop_bridge (best_effort c' (write wire c' frame)) b.id
]

-- The loops of shutdown over what it took out of the maps.
unfoldable pub close_all_messages : Conn → Dict ℕ → Run Conn
unfolding close_messages_at
close_all_messages c [] = runs c
close_all_messages c ((id, a) ∷ rest) = do c' ← close_messages_at c a; close_all_messages c' rest

unfoldable pub close_all_chunks : Conn → Dict ℕ → Run Conn
unfolding close_chunks_at
close_all_chunks c [] = runs c
close_all_chunks c ((id, a) ∷ rest) = do c' ← close_chunks_at c a; close_all_chunks c' rest

-- close(c.done)
unfoldable pub close_done : Conn → Run Conn
close_done c = if c.done then panics else runs (record c { done = true })

-- Conn.shutdown
unfoldable pub shutdown : Conn → Run Conn
unfolding close_all_messages close_all_chunks close_done
shutdown c = if c.closed then runs c else do
  c₁ ← close_all_messages (record c { closed = true; pending = []; bridges = [] }) c.bridges
  c₂ ← close_all_chunks c₁ c.pending
  close_done c₂

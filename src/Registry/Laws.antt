-- ===== src/Registry/Laws.antt =====
-- What each call of internal/uplink/registry.go does to every other call's answer.
use dsh_fleet.Base.{
  ◌≡◌, Bool, false, ◌&&◌, Option, none, some, arith, ◌==◌, if◌then◌else◌, Bytes, same, Option-cases,
  inl, inr,
}
use dsh_fleet.Base.Dict.{find, put, find-put, find-delete}
use dsh_fleet.Base.Result.{Result, ok, err}
use dsh_fleet.Registry.{Registry, Handle, already_connected, RegistryError, add, remove, get}

-- What Add promises: the newcomer loses to a live connection, and otherwise takes its node id.
abbrev pub Added : Registry → Handle → Option Handle → Result RegistryError Registry → Type 0
Added r c (some live) result = result ≡ err already_connected
Added r c none result =
    (r' : Registry) × (result ≡ ok r')
    × ((k : Bytes) → get r' k ≡ (if same c.node_id k then some c else get r k))

-- Add refuses exactly when Get finds a connection for the node id, and otherwise returns a registry
-- in which Get finds the new connection at its id and what it found before at every other id.
pub add_lem : (r : Registry) (c : Handle) → Added r c (get r c.node_id) (add r c)
unfolding add get
add_lem r c = elim (Option-cases (find c.node_id r.conns)) [
  | inl e ↦
      rw e (
        record { conns = put c.node_id c r.conns },
        rw (e, add),
        λ k. find-put c.node_id k c r.conns,
      )
  | inr (live, e) ↦ rw e (rw (e, add))
]

-- c is the connection registered for its node id.
unfoldable pub is_registered : Registry → Handle → Bool
is_registered r c = elim (get r c.node_id) [ none ↦ false | some d ↦ d.address == c.address ]

-- Remove takes c's id out of the registry if c is the connection registered there, and changes no
-- answer of Get otherwise.
pub get-remove :
    (r : Registry) (c : Handle) (k : Bytes)
    → get (remove r c) k ≡ (if is_registered r c && same c.node_id k then none else get r k)
unfolding get remove is_registered
get-remove r c k = ground (arith, find-delete c.node_id k r.conns)

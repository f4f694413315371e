-- ===== src/Console/Machines/Laws.antt =====
-- What the list of machines of internal/console/nodes.go shows of the store and of the registry.
use dsh_fleet.Base.{
  ℕ, ◌+◌, ◌≤◌, ◌<◌, ◌≡◌, Bool, true, false, List, [], ◌∷◌, Option, none, some, ◌⊎◌, Bytes, same,
}
use dsh_fleet.Base.Result.{ℤ, pos, negsuc}
use dsh_fleet.Nodes.Rows.{Listed}
use dsh_fleet.Registry.{Registry, get, online}
use dsh_fleet.Registry.Online.{present}
use dsh_fleet.Console.Machines.{
  Status, revoked, never_seen, offline, offline_after, int_limit, status, Snapshot, NodeView,
}

-- The values of an int of 64 bits.
abbrev pub IsInt : ℤ → Type 0
IsInt (pos n) = n < int_limit
IsInt (negsuc n) = n < int_limit

Reads : Option Bytes → Type 0
Reads o = (s : Bytes) × (o ≡ some s)

-- Why a machine has its status, with `live` whether it is registered.
abbrev pub Explains : ℕ → Listed → Bool → Status → Type 0
Explains now n live revoked = (t : ℕ) × (n.revoked_at ≡ some t)
Explains now n live Status.online =
    (n.revoked_at ≡ none)
    × ((live ≡ true) ⊎ ((t : ℕ) × (n.last_seen_at ≡ some t) × (now < t + offline_after)))
Explains now n live never_seen = (n.revoked_at ≡ none) × (live ≡ false) × (n.last_seen_at ≡ none)
Explains now n live offline =
    (n.revoked_at ≡ none)
    × (live ≡ false)
    × ((t : ℕ) × (n.last_seen_at ≡ some t) × (t + offline_after ≤ now))

-- A row of the page for a machine of the store.
pub record Shows (now : ℕ) (r : Registry) (current : Bytes) (n : Listed) (v : NodeView)
    : Type 0 where
  pub id : v.id ≡ n.id
  pub label : ((n.label ≡ []) × (v.label ≡ n.id)) ⊎ (v.label ≡ n.label)
  pub explained : Explains now n (present (get r n.id)) v.status
  pub marked : v.current ≡ same n.id current

abbrev pub Each : (Listed → NodeView → Type 0) → List Listed → List NodeView → Type 0
Each P [] [] = Unit
Each P (n ∷ ns) (v ∷ vs) = P n v × Each P ns vs
Each P _ _ = ⊥

module _ (parse : Bytes → Option Snapshot) (now : ℕ)
    (ints : (b : Bytes) (s : Snapshot) → parse b ≡ some s → IsInt s.running × IsInt s.total)
    (clock : now < int_limit) where
  -- A view with the identity, status and mark of another.
  abbrev Alike : NodeView → NodeView → Type 0
  Alike v w = (w.id ≡ v.id) × (w.label ≡ v.label) × (w.status ≡ v.status)

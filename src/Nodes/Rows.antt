-- ===== src/Nodes/Rows.antt =====
-- The queries of internal/nodes/store.go that list machines and trim the snapshot history.
pub mod Prune
use dsh_fleet.Base.{
  ℕ, zero, suc, ◌+◌, ◌/◌, Bool, true, false, List, [], ◌∷◌, Option, none, some, ltb, leb,
  if◌then◌else◌, Bytes, length,
}
use dsh_fleet.Base.Dict.{Dict}
use dsh_fleet.Base.Result.{Result, ok, err, ℤ, pos, negsuc}
use dsh_fleet.Base.Errors.{GoError, other_error}
use dsh_fleet.Nodes.{Node, Sample, Store}

-- nodes.Node, as List fills it
pub record Listed : Type 0 where
  pub id : Bytes
  pub label : Bytes
  pub created_at : ℕ
  pub revoked_at : Option ℕ
  pub dsh_version : Bytes
  pub plugin_version : Bytes
  pub platform : Bytes
  pub arch : Bytes
  pub cwd : Bytes
  pub last_seen_at : Option ℕ
  pub snapshot : Bytes

-- COALESCE(c, '')
abbrev pub or_empty : Option Bytes → Bytes
or_empty none = []
or_empty (some s) = s

unfoldable pub listed : Bytes → Node → Listed
listed id n = record {
  id = id;
  label = or_empty n.label;
  created_at = n.created_at;
  revoked_at = n.revoked_at;
  dsh_version = or_empty n.dsh_version;
  plugin_version = or_empty n.plugin_version;
  platform = or_empty n.platform;
  arch = or_empty n.arch;
  cwd = or_empty n.cwd;
  last_seen_at = n.last_seen_at;
  snapshot = or_empty n.latest_snapshot;
}

-- ORDER BY created_at
unfoldable pub insert_node : Listed → List Listed → List Listed
insert_node n [] = n ∷ []
insert_node n (m ∷ ms) = if leb n.created_at m.created_at then n ∷ m ∷ ms else m ∷ insert_node n ms

unfoldable pub by_creation : Dict Node → List Listed
unfolding insert_node listed
by_creation [] = []
by_creation ((id, n) ∷ m) = insert_node (listed id n) (by_creation m)

-- Store.List
unfoldable pub list_nodes : Bool → Store → Result GoError (List Listed)
unfolding by_creation
list_nodes up s = if up then ok (by_creation s.nodes) else err other_error

-- LIMIT of PruneTelemetry
abbrev pub batch : ℕ
batch = 10000

-- ts < now() - keep, in the units of ts
abbrev pub is_below : ℤ → ℤ → Bool
is_below (pos a) (pos b) = ltb a b
is_below (pos a) (negsuc b) = false
is_below (negsuc a) (pos b) = true
is_below (negsuc a) (negsuc b) = ltb b a

abbrev pub is_old : ℤ → Sample → Bool
is_old limit x = is_below x.ts limit

-- One DELETE: the rows that it leaves, and how many it took, at most `room`.
unfoldable pub delete_old : (Sample → Bool) → ℕ → List Sample → List Sample × ℕ
delete_old old room [] = ([], 0)
delete_old old zero (x ∷ xs) = (x ∷ xs, 0)
delete_old old (suc room) (x ∷ xs) = elim (old x) [
  | true ↦ let r = delete_old old room xs in (r.0, suc r.1)
  | false ↦ let r = delete_old old (suc room) xs in (x ∷ r.0, r.1)
]

-- How a call ended: the rows that are left, the total, the number of its last round, and whether it is
-- an error.
pub record Pruned : Type 0 where
  pub rows : List Sample
  pub total : ℕ
  pub last : ℕ
  pub failed : Bool

-- The loop of PruneTelemetry. `limit` is now() - keep as the statement of each round finds it, `up` says
-- whether the database takes the statement, `done` whether the context is cancelled after it; `none` if
-- the fuel is not enough.
unfoldable pub prune_from :
    (ℕ → ℤ) → (ℕ → Bool) → (ℕ → Bool) → ℕ → ℕ → List Sample → ℕ → Option Pruned
unfolding delete_old
prune_from limit up done zero k xs total = none
prune_from limit up done (suc fuel) k xs total =
    let r = delete_old (is_old (limit k)) batch xs in
    let rest = prune_from limit up done fuel (suc k) r.0 (total + r.1) in
    if up k
    then if ltb r.1 batch
      then some (record { rows = r.0; total = total + r.1; last = k; failed = false })
      else if done k
      then some (record { rows = r.0; total = total + r.1; last = k; failed = true })
      else rest
    else some (record { rows = xs; total = total; last = k; failed = true })

-- Store.PruneTelemetry, with fuel for each batch of the table.
unfoldable pub prune_telemetry : (ℕ → ℤ) → (ℕ → Bool) → (ℕ → Bool) → Store → Option Pruned
unfolding prune_from
prune_telemetry limit up done s =
    prune_from limit up done (length s.telemetry / batch + 1) 0 s.telemetry 0

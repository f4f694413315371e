-- ===== src/Nodes.antt =====
-- internal/nodes/store.go over the nodes and node_telemetry tables. A row is found by its id; `up`
-- says whether the database takes a statement; now() is `now`.
pub mod Laws
pub mod Login
pub mod Rows
use dsh_fleet.Base.{
  ℕ, Bool, true, false, not, List, [], ◌∷◌, Option, none, some, if◌then◌else◌, Bytes, same,
}
use dsh_fleet.Base.Dict.{Dict, find, put}
use dsh_fleet.Base.Result.{Result, ok, err, ℤ}
use dsh_fleet.Base.Errors.{
  GoError, other_error, node_not_found, node_revoked, node_exists, node_foreign, node_has_own_token,
}
use dsh_fleet.Envelope.Frames.{NodeDescriptor}
use dsh_fleet.Secret.{
  IdKey, Verdict, compared, malformed_hash, unsupported_hash, crashed, new_node_token, hash, verify,
}

-- A row of nodes; NULL is `none`.
pub record Node : Type 0 where
  pub label : Option Bytes
  pub token_hash : Option Bytes
  pub owner_id : Option Bytes
  pub created_at : ℕ
  pub revoked_at : Option ℕ
  pub dsh_version : Option Bytes
  pub plugin_version : Option Bytes
  pub platform : Option Bytes
  pub arch : Option Bytes
  pub cwd : Option Bytes
  pub caps : List Bytes
  pub last_seen_at : Option ℕ
  pub latest_snapshot : Option Bytes

-- A row of node_telemetry.
pub record Sample : Type 0 where
  pub node_id : Bytes
  pub ts : ℤ
  pub snapshot : Bytes

pub record Store : Type 0 where
  pub nodes : Dict Node
  pub telemetry : List Sample
  pub now : ℕ

-- NULLIF(s, '')
abbrev pub null_if_empty : Bytes → Option Bytes
null_if_empty s = if same s [] then none else some s

-- COALESCE(a, b)
abbrev pub coalesce : Option Bytes → Option Bytes → Option Bytes
coalesce none b = b
coalesce (some a) b = some a

abbrev pub put_node : Store → Bytes → Node → Store
put_node s id n = record s { nodes = put id n s.nodes }

-- The columns that an INSERT leaves to their defaults.
abbrev pub new_node : ℕ → Option Bytes → Option Bytes → Option Bytes → Node
new_node now label token_hash owner_id = record {
  label = label;
  token_hash = token_hash;
  owner_id = owner_id;
  created_at = now;
  revoked_at = none;
  dsh_version = none;
  plugin_version = none;
  platform = none;
  arch = none;
  cwd = none;
  caps = [];
  last_seen_at = none;
  latest_snapshot = none;
}

-- A fresh token and its hash; `entropy` and `salt` are what rand.Read gives to the two.
unfoldable pub fresh_token : IdKey → ℕ → Option Bytes → Option Bytes → Option (Bytes × Bytes)
unfolding hash
fresh_token id_key cpus entropy salt = elim (new_node_token entropy) [
  | none ↦ none
  | some token ↦ elim (hash id_key cpus salt token) [ none ↦ none | some h ↦ some (token, h) ]
]

-- Store.Register, from the token on
unfoldable pub register :
    Option (Bytes × Bytes) → Bool → Store → Bytes → Bytes → Result GoError Bytes × Store
register none up s id label = (err other_error, s)
register (some (token, h)) up s id label =
    if up
    then elim (find id s.nodes) [
      | some n ↦ (err (node_exists ∷ []), s)
      | none ↦ (ok token, put_node s id (new_node s.now (null_if_empty label) (some h) none))
    ]
    else (err other_error, s)

abbrev pub rotated : Node → Bytes → Bytes → Node
rotated n h label = record n {
  token_hash = some h;
  label = coalesce (null_if_empty label) n.label;
  revoked_at = none;
}

-- Store.Rotate, from the token on
unfoldable pub rotate :
    Option (Bytes × Bytes) → Bool → Store → Bytes → Bytes → Result GoError Bytes × Store
rotate none up s id label = (err other_error, s)
rotate (some (token, h)) up s id label =
    if up
    then elim (find id s.nodes) [
      | none ↦ (err (node_not_found ∷ []), s)
      | some n ↦ elim n.owner_id [
        | some owner ↦ (err (node_not_found ∷ []), s)
        | none ↦ (ok token, put_node s id (rotated n h label))
      ]
    ]
    else (err other_error, s)

-- Store.whyNotClaimable
unfoldable pub why_not_claimable : Bool → Store → Bytes → GoError
why_not_claimable up s id =
    if up
    then elim (find id s.nodes) [
      | none ↦ node_not_found ∷ []
      | some n ↦ elim n.token_hash [ some h ↦ node_has_own_token ∷ [] | none ↦ node_foreign ∷ [] ]
    ]
    else other_error

-- owner_id = $3, which is not true of NULL
abbrev pub owned_by : Node → Bytes → Bool
owned_by n owner = elim n.owner_id [ none ↦ false | some o ↦ same o owner ]

abbrev pub reclaimed : Node → Bytes → Node
reclaimed n label = record n { label = coalesce n.label (null_if_empty label); revoked_at = none }

-- Store.EnsureOwned; `up₂` is for the statement of whyNotClaimable
unfoldable pub ensure_owned :
    Bool → Bool → Store → Bytes → Bytes → Bytes → Result GoError (Unit {0}) × Store
unfolding why_not_claimable
ensure_owned up up₂ s id owner label =
    if up
    then elim (find id s.nodes) [
      | none ↦ (ok tt, put_node s id (new_node s.now (null_if_empty label) none (some owner)))
      | some n ↦
          if owned_by n owner
          then (ok tt, put_node s id (reclaimed n label))
          else (err (why_not_claimable up₂ s id), s)
    ]
    else (err other_error, s)

abbrev pub judged : Verdict → Result GoError (Unit {0})
judged (compared true) = ok tt
judged (compared false) = err (node_not_found ∷ [])
judged _ = err other_error

-- Store.Authenticate
unfoldable pub authenticate : IdKey → Bool → Store → Bytes → Bytes → Result GoError (Unit {0})
unfolding verify
authenticate id_key up s id token =
    if up
    then elim (find id s.nodes) [
      | none ↦ err (node_not_found ∷ [])
      | some n ↦ elim n.revoked_at [
        | some t ↦ err (node_revoked ∷ [])
        | none ↦ elim n.token_hash [
          | none ↦ err (node_not_found ∷ [])
          | some h ↦ judged (verify id_key token h)
        ]
      ]
    ]
    else err other_error

-- Every UPDATE that names one id.
abbrev pub update_node : Bool → Store → Bytes → (Node → Node) → Result GoError (Unit {0}) × Store
update_node up s id f =
    if up
    then elim (find id s.nodes) [ none ↦ (ok tt, s) | some n ↦ (ok tt, put_node s id (f n)) ]
    else (err other_error, s)

-- Store.RecordHello
unfoldable pub record_hello :
    Bool → Store → Bytes → NodeDescriptor → List Bytes → Result GoError (Unit {0}) × Store
record_hello up s id d caps = update_node up s id λ n. record n {
  label = coalesce n.label (null_if_empty d.label);
  dsh_version = some d.dsh_version;
  plugin_version = some d.plugin_version;
  platform = some d.platform;
  arch = some d.arch;
  cwd = some d.cwd;
  caps = caps;
  last_seen_at = some s.now;
}

-- Store.Touch
unfoldable pub touch : Bool → Store → Bytes → Result GoError (Unit {0}) × Store
touch up s id = update_node up s id λ n. record n { last_seen_at = some s.now }

-- Store.RecordTelemetry: one transaction; `up` says whether all its statements and the commit are
-- taken, and the foreign key refuses the row of an unknown machine.
unfoldable pub record_telemetry :
    Bool → Store → Bytes → ℤ → Bytes → Result GoError (Unit {0}) × Store
record_telemetry up s id ts snapshot =
    if up
    then elim (find id s.nodes) [
      | none ↦ (err other_error, s)
      | some n ↦ (
        ok tt,
        record s {
          telemetry = record { node_id = id; ts = ts; snapshot = snapshot } ∷ s.telemetry;
          nodes =
              put id (record n { latest_snapshot = some snapshot; last_seen_at = some s.now })
                s.nodes;
        },
      )
    ]
    else (err other_error, s)

-- Store.Revoke
unfoldable pub revoke : Bool → Store → Bytes → Result GoError (Unit {0}) × Store
revoke up s id =
    if up
    then elim (find id s.nodes) [
      | none ↦ (err (node_not_found ∷ []), s)
      | some n ↦ elim n.revoked_at [
        | some t ↦ (err (node_not_found ∷ []), s)
        | none ↦ (ok tt, put_node s id (record n { revoked_at = some s.now }))
      ]
    ]
    else (err other_error, s)

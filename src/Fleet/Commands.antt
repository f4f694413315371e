-- ===== src/Fleet/Commands.antt =====
-- The operator commands of cmd/dshf/main.go, after the flags. `F` is what a flag.FlagSet has read, and
-- `parse` its Parse: the flags read, and the arguments from the first that is none.
use dsh_fleet.Base.{ℕ, Bool, true, List, [], ◌∷◌, Option, none, some, if◌then◌else◌, Bytes, same}
use dsh_fleet.Base.Result.{Result, ok, err, ℤ}
use dsh_fleet.Base.Errors.{GoError}
use dsh_fleet.Audit.Trail.{Logged, Decision, recent}
use dsh_fleet.Nodes
use dsh_fleet.Nodes.{register, rotate, revoke}
use dsh_fleet.Secret.{IdKey}
use dsh_fleet.Strings.{trim_space}
use dsh_fleet.Users
use dsh_fleet.Users.{User, Token, create}
use dsh_fleet.Users.Changes.{set_password}
use dsh_fleet.Users.Rows.{find_user, list_tokens}
use dsh_fleet.Users.Tokens.{mint_token, revoke_token}

pub data ArgError : Type 0 where
  bad_flags usage : ArgError
  unexpected : List Bytes → ArgError

module _ {F : Type 0} (parse : F → List Bytes → Option (F × List Bytes)) where
  abbrev pub after_flags : Bytes → Option (F × List Bytes) → Result ArgError (F × Bytes)
  after_flags value none = err bad_flags
  after_flags value (some (f, [])) = ok (f, value)
  after_flags value (some (f, a ∷ args)) = err (unexpected (a ∷ args))

  abbrev pub first_argument : Option (F × List Bytes) → Result ArgError (F × Bytes)
  first_argument none = err bad_flags
  first_argument (some (f, [])) = err usage
  first_argument (some (f, value ∷ args)) = after_flags value (parse f args)

  -- parseOneArg
  unfoldable pub parse_one_arg : F → List Bytes → Result ArgError (F × Bytes)
  parse_one_arg f args = first_argument (parse f args)

-- How a command ends: the usage or another text of its own, the error of a store, or its output.
pub data Ended {ℓ} (A : Type ℓ) : Type ℓ where
  complains : Ended A
  fails : GoError → Ended A
  prints : A → Ended A

abbrev pub printed {ℓ κ} : {A : Type ℓ} {S : Type κ} → Result GoError A × S → Ended A × S
printed (ok a, s) = (prints a, s)
printed (err e, s) = (fails e, s)

-- `dshf node add`: the token that is shown once; `fresh` is for Rotate and Register
unfoldable pub node_add :
    Option (Bytes × Bytes) → Bool → Nodes.Store → Bytes → Bytes → Bool → Ended Bytes × Nodes.Store
unfolding register rotate
node_add fresh up s id label again =
    printed (if again then rotate fresh up s id label else register fresh up s id label)

-- `dshf node revoke`, with its arguments
unfoldable pub node_revoke : Bool → Nodes.Store → List Bytes → Ended (Unit {0}) × Nodes.Store
unfolding revoke
node_revoke up s (id ∷ []) = printed (revoke up s id)
node_revoke up s _ = (complains, s)

abbrev pub is_blank : Bytes → Bool
is_blank s = same (trim_space s) []

module _ (lower : Bytes → Bytes) (id_key : IdKey) (cpus : ℕ) where
  -- `dshf user add`, with DSHF_NEW_PASSWORD
  unfoldable pub user_add :
      Option Bytes → Bytes → Bool → Users.Store → Bytes → Bool → Bytes → Ended User × Users.Store
  unfolding create
  user_add salt id up s name admin password =
      if is_blank password
      then (complains, s)
      else printed (create lower id_key cpus salt id up s name password admin)

  abbrev pub for_user {ℓ} :
      {A : Type ℓ}
      → Result GoError User
      → Users.Store
      → (User → Ended A × Users.Store)
      → Ended A × Users.Store
  for_user (err e) s k = (fails e, s)
  for_user (ok u) s k = k u

  -- `dshf user passwd`; `up` is for Find, `up₂` for SetPassword
  unfoldable pub user_passwd :
      Option Bytes → Bool → Bool → Users.Store → Bytes → Bytes → Ended (Unit {0}) × Users.Store
  unfolding find_user set_password
  user_passwd salt up up₂ s name password =
      if is_blank password
      then (complains, s)
      else for_user (find_user lower up s name) s
          λ u. printed (set_password id_key cpus salt true up₂ s u.id [] password)

  -- `dshf user token add`
  unfoldable pub token_add :
      Option Bytes
      → Option Bytes
      → Bytes
      → Bool
      → Bool
      → Users.Store
      → Bytes
      → Bytes
      → Ended Bytes × Users.Store
  unfolding find_user mint_token
  token_add entropy salt id up up₂ s name label =
      if is_blank label
      then (complains, s)
      else for_user (find_user lower up s name) s
          λ u. printed (mint_token id_key cpus entropy salt id up₂ s u.id label)

  -- `dshf user token revoke`; `parse` is uuid.Parse
  unfoldable pub token_revoke :
      (Bytes → Option Bytes)
      → Bool
      → Bool
      → Users.Store
      → List Bytes
      → Ended (Unit {0}) × Users.Store
  unfolding find_user revoke_token
  token_revoke parse up up₂ s (name ∷ id ∷ []) =
      for_user (find_user lower up s name) s λ u. elim (parse id) [
        | none ↦ (complains, s)
        | some i ↦ printed (revoke_token up₂ s u.id i)
      ]
  token_revoke parse up up₂ s _ = (complains, s)

  abbrev pub tokens_of : Bool → Users.Store → Result GoError User → Result GoError (List Token)
  tokens_of up s (err e) = err e
  tokens_of up s (ok u) = list_tokens up s u.id

  -- `dshf user token ls`
  unfoldable pub token_ls : Bool → Bool → Users.Store → Bytes → Result GoError (List Token)
  unfolding find_user list_tokens
  token_ls up up₂ s name = tokens_of up₂ s (find_user lower up s name)

-- `dshf audit`: its default limit is 50
unfoldable pub audit_lines :
    (Bytes → Bytes)
    → Bool
    → List User
    → List Logged
    → Bytes
    → Bytes
    → Bool
    → ℤ
    → Result GoError (List Decision)
unfolding recent
audit_lines lower up us rows node user denied limit =
    recent lower up us rows
      (record { node = node; user = user; denied_only = denied; limit = limit })

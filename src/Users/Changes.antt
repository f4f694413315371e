-- ===== src/Users/Changes.antt =====
-- The calls of internal/users/store.go that change or count accounts.
use dsh_fleet.Base.{
  ℕ, suc, Bool, true, false, ◌||◌, List, [], ◌∷◌, Option, none, some, ltb, if◌then◌else◌, Bytes,
  same, length,
}
use dsh_fleet.Base.Result.{Result, ok, err}
use dsh_fleet.Base.Errors.{GoError, other_error, bad_credentials, account_not_found, weak_password}
use dsh_fleet.Secret.{IdKey, Verdict, compared, hash, verify}
use dsh_fleet.Users.{
  User, Token, Store, by_id, update_users, clear_sessions, min_password_length, create,
}

-- The transaction of SetPassword.
abbrev pub with_password : Store → Bytes → Bytes → Store
with_password s id h = record s {
  users = update_users s.users id λ u. record u { password_hash = h };
  sessions = clear_sessions s.sessions id;
}

abbrev pub store_password : Bool → Store → Bytes → Option Bytes → Result GoError (Unit {0}) × Store
store_password up s id none = (err other_error, s)
store_password up s id (some h) = if up then (ok tt, with_password s id h) else (err other_error, s)

abbrev pub if_current :
    Verdict → Store → Result GoError (Unit {0}) × Store → Result GoError (Unit {0}) × Store
if_current (compared true) s rest = rest
if_current (compared false) s rest = (err (bad_credentials ∷ []), s)
if_current _ s rest = (err other_error, s)

-- Store.SetPassword; `up` is for the read of the stored hash, `up₂` for the transaction
unfoldable pub set_password :
    IdKey
    → ℕ
    → Option Bytes
    → Bool
    → Bool
    → Store
    → Bytes
    → Bytes
    → Bytes
    → Result GoError (Unit {0}) × Store
unfolding by_id update_users clear_sessions hash verify
set_password id_key cpus salt up up₂ s id current next =
    let change = store_password up₂ s id (hash id_key cpus salt next) in
    if ltb (length next) min_password_length
    then (err (weak_password ∷ []), s)
    else if same current []
    then change
    else if up
    then elim (by_id s.users id) [
      | none ↦ (err other_error, s)
      | some u ↦ if_current (verify id_key current u.password_hash) s change
    ]
    else (err other_error, s)

-- Store.SetAdmin
unfoldable pub set_admin : Bool → Store → Bytes → Bool → Result GoError (Unit {0}) × Store
unfolding by_id update_users
set_admin up s id admin =
    if up
    then elim (by_id s.users id) [
      | none ↦ (err (account_not_found ∷ []), s)
      | some u ↦
          (ok tt, record s { users = update_users s.users id λ v. record v { is_admin = admin } })
    ]
    else (err other_error, s)

abbrev pub with_disabled : Store → Bytes → Bool → Store
with_disabled s id disabled = record s {
  users =
      update_users s.users id λ v. record v { disabled_at = if disabled then some s.now else none };
  sessions = if disabled then clear_sessions s.sessions id else s.sessions;
}

-- Store.SetDisabled, one transaction
unfoldable pub set_disabled : Bool → Store → Bytes → Bool → Result GoError (Unit {0}) × Store
unfolding by_id update_users clear_sessions
set_disabled up s id disabled =
    if up
    then elim (by_id s.users id) [
      | none ↦ (err (account_not_found ∷ []), s)
      | some u ↦ (ok tt, with_disabled s id disabled)
    ]
    else (err other_error, s)

unfoldable pub remove_user : List User → Bytes → List User
remove_user [] id = []
remove_user (u ∷ us) id = let rest = remove_user us id in if same u.id id then rest else u ∷ rest

-- ON DELETE CASCADE of user_tokens
unfoldable pub remove_tokens : List Token → Bytes → List Token
remove_tokens [] id = []
remove_tokens (t ∷ ts) id =
    let rest = remove_tokens ts id in if same t.user_id id then rest else t ∷ rest

abbrev pub is_owner : List Bytes → Bytes → Bool
is_owner [] id = false
is_owner (o ∷ os) id = same o id || is_owner os id

-- Store.Delete. ON DELETE SET NULL on a machine's owner would leave the machine without a credential,
-- which the constraint nodes_one_credential refuses.
unfoldable pub delete_account : Bool → Store → Bytes → Result GoError (Unit {0}) × Store
unfolding by_id remove_user remove_tokens clear_sessions
delete_account up s id =
    if up
    then elim (by_id s.users id) [
      | none ↦ (err (account_not_found ∷ []), s)
      | some u ↦ if is_owner s.owners id then (err other_error, s) else (
        ok tt,
        record s {
          users = remove_user s.users id;
          sessions = clear_sessions s.sessions id;
          tokens = remove_tokens s.tokens id;
        },
      )
    ]
    else (err other_error, s)

abbrev pub is_active_admin : User → Bool
is_active_admin u = elim u.disabled_at [ none ↦ u.is_admin | some t ↦ false ]

-- Store.CountAdmins
unfoldable pub count_admins : List User → ℕ
count_admins [] = 0
count_admins (u ∷ us) = if is_active_admin u then suc (count_admins us) else count_admins us

abbrev pub created : Result GoError User × Store → Result GoError Bool × Store
created (ok u, s) = (ok true, s)
created (err e, s) = (err e, s)

-- Store.EnsureBootstrapAdmin
unfoldable pub ensure_bootstrap_admin :
    (Bytes → Bytes)
    → IdKey
    → ℕ
    → Option Bytes
    → Bytes
    → Bool
    → Bool
    → Store
    → Bytes
    → Bytes
    → Result GoError Bool × Store
unfolding create
ensure_bootstrap_admin lower id_key cpus salt id up up₂ s username password =
    if up
    then elim s.users [
      | [] ↦ created (create lower id_key cpus salt id up₂ s username password true)
      | u ∷ us ↦ (ok false, s)
    ]
    else (err other_error, s)

-- ===== src/Console/Account/Scope.antt =====
-- That nothing on an account's own page, internal/console/account.go, touches another account.
use dsh_fleet.Base.{
  ℕ, ◌≡◌, refl, Bool, true, false, not, [], Option, none, some, ltb, length, if-cases, Bytes, codes,
  same, same_refl,
}
use dsh_fleet.Base.Dict.{Dict}
use dsh_fleet.Base.Result.{Result, ok, err}
use dsh_fleet.Base.Errors.{GoError, other_error, bad_credentials, weak_password, errors_is}
use dsh_fleet.Secret.{
  IdKey, Verdict, compared, malformed_hash, unsupported_hash, crashed, hash, new_user_token, verify,
}
use dsh_fleet.Strings.{trim_space}
use dsh_fleet.Users.{User, Store, by_id, min_password_length}
use dsh_fleet.Users.Changes.{set_password, store_password, if_current}
use dsh_fleet.Users.Others.{others, others-own, remove-update, clear-clear, remove-revoke}
use dsh_fleet.Users.Tokens.{mint_token, revoke_token, has_target, stored}
use dsh_fleet.Console.Reply.{Reply, to_account}
use dsh_fleet.Console.Account.{
  Form, Reveal, change_password, mint, minting, withdraw, password_answer, revocation,
}

-- The call leaves what is not of the account `me`.
Leaves {ℓ} : {A : Type ℓ} → Bytes → Store → A × Store → Type 0
Leaves me s r = others me r.1 ≡ others me s

stored-Leaves :
    (up : Bool) (s : Store) (id : Bytes) (h : Option Bytes) → Leaves id s (store_password up s id h)
unfolding Leaves
stored-Leaves up s id none = refl
stored-Leaves false s id (some h) = refl
stored-Leaves true s id (some h) =
    rw (remove-update (λ u. record u { password_hash = h }) (λ u. refl) s.users id, clear-clear)

password-Leaves :
    (id_key : IdKey) (cpus : ℕ) (salt : Option Bytes) (up up₂ : Bool) (s : Store)
    (id current next : Bytes)
    → Leaves id s (set_password id_key cpus salt up up₂ s id current next)
unfolding set_password Leaves
password-Leaves id_key cpus salt up up₂ s id current next =
    if-cases L (ltb (length next) min_password_length) _ _ (λ t. refl)
      λ f.
        if-cases L (same current []) _ _ (λ t. changed)
          λ f. if-cases L up _ _ (λ t. row (by_id s.users id)) λ f. refl
  where
    L : Result GoError (Unit {0}) × Store → Type 0
    L r = Leaves id s r

    changed : L (store_password up₂ s id (hash id_key cpus salt next))
    changed = stored-Leaves up₂ s id (hash id_key cpus salt next)

    checked :
        (v : Verdict) → L (if_current v s (store_password up₂ s id (hash id_key cpus salt next)))
    checked (compared true) = changed
    checked (compared false) = refl
    checked malformed_hash = refl
    checked unsupported_hash = refl
    checked crashed = refl

    row :
        (o : Option User)
        → L (elim o [
          | none ↦ (err other_error, s)
          | some u ↦
              if_current
                (verify id_key current u.password_hash)
                s
                (store_password up₂ s id (hash id_key cpus salt next))
        ])
    row none = refl
    row (some u) = checked (verify id_key current u.password_hash)

mint-Leaves :
    (id_key : IdKey) (cpus : ℕ) (entropy salt : Option Bytes) (id : Bytes) (up : Bool) (s : Store)
    (me name : Bytes)
    → Leaves me s (mint_token id_key cpus entropy salt id up s me name)
unfolding mint_token Leaves
mint-Leaves id_key cpus entropy salt id up s me name =
    if-cases L (same (trim_space name) []) _ _ (λ t. refl) λ f. fresh (new_user_token entropy)
  where
    L : Result GoError Bytes × Store → Type 0
    L r = Leaves me s r

    row :
        (token h : Bytes) (up : Bool) (o : Option User)
        → by_id s.users me ≡ o
        → L (stored up s id me (trim_space name) token (some h))
    row token h false o e = refl
    row token h true none e = rw (e, stored) refl
    row token h true (some u) e = rw (e, stored) (others-own _ s me (same_refl me))

    kept : (token : Bytes) (h : Option Bytes) → L (stored up s id me (trim_space name) token h)
    kept token none = refl
    kept token (some h) = row token h up (by_id s.users me) refl

    fresh :
        (o : Option Bytes)
        → L (elim o [
          | none ↦ (err other_error, s)
          | some token ↦ stored up s id me (trim_space name) token (hash id_key cpus salt token)
        ])
    fresh none = refl
    fresh (some token) = kept token (hash id_key cpus salt token)

revoke-Leaves : (up : Bool) (s : Store) (me id : Bytes) → Leaves me s (revoke_token up s me id)
unfolding revoke_token Leaves
revoke-Leaves false s me id = refl
revoke-Leaves true s me id =
    if-cases (Leaves me s) (has_target s.tokens id me) _ _
      (λ t. rw (remove-revoke s.now s.tokens id me)) λ f. refl

answer-Leaves :
    (me : Bytes) (s : Store) (r : Result GoError (Unit {0}) × Store)
    → Leaves me s r
    → Leaves me s (password_answer r) × Leaves me s (revocation r)
unfolding Leaves
answer-Leaves me s (ok v, t) h = (h, h)
answer-Leaves me s (err e, t) h = (
  if-cases (Leaves me s) (errors_is e bad_credentials) _ _ (λ t. h)
      λ f. if-cases (Leaves me s) (errors_is e weak_password) _ _ (λ t. h) λ f. h,
  h,
)

minting-Leaves :
    (key : Bytes) (now : ℕ) (m : Dict Reveal) (me name : Bytes) (s : Store)
    (r : Result GoError Bytes × Store)
    → Leaves me s r
    → others me (minting key now m me name r).1 ≡ others me s
unfolding Leaves
minting-Leaves key now m me name s (ok token, t) h = h
minting-Leaves key now m me name s (err e, t) h = h

-- Whatever a signed-in account sends to the three forms of its page, and whatever the database and
-- rand.Read give, the users, sessions, tokens and machines of all other accounts stay as they are.
pub forms_leave_others :
    (id_key : IdKey) (cpus : ℕ) (entropy salt : Option Bytes) (parse : Bytes → Option Bytes)
    (id key : Bytes) (now : ℕ) (up up₂ : Bool) (s : Store) (m : Dict Reveal) (me : User)
    (form : Option Form)
    → (others me.id (change_password id_key cpus salt up up₂ s (some me) form).1 ≡ others me.id s)
      × (others me.id (mint id_key cpus entropy salt id key now up s m (some me) form).1
          ≡ others me.id s)
      × (others me.id (withdraw parse up s (some me) form).1 ≡ others me.id s)
unfolding change_password mint withdraw Leaves
forms_leave_others id_key cpus entropy salt parse id key now up up₂ s m me none = (refl, refl, refl)
forms_leave_others id_key cpus entropy salt parse id key now up up₂ s m me (some f) = (
  if-cases L (not (same f.next f.again)) _ _ (λ t. refl)
      λ n.
        if-cases L (same f.current []) _ _ (λ t. refl)
          λ n.
            (answer-Leaves me.id s (set_password id_key cpus salt up up₂ s me.id f.current f.next)
              (password-Leaves id_key cpus salt up up₂ s me.id f.current f.next)).0,
  minting-Leaves key now m me.id (trim_space f.name) s
      (mint_token id_key cpus entropy salt id up s me.id (trim_space f.name))
      (mint-Leaves id_key cpus entropy salt id up s me.id (trim_space f.name)),
  withdrawn (parse f.id),
)
  where
    L : Reply × Store → Type 0
    L r = Leaves me.id s r

    withdrawn :
        (o : Option Bytes)
        → L (elim o [
          | none ↦ (to_account (codes "That is not a token id.") [], s)
          | some id ↦ revocation (revoke_token up s me.id id)
        ])
    withdrawn none = refl
    withdrawn (some id) =
        (answer-Leaves me.id s (revoke_token up s me.id id) (revoke-Leaves up s me.id id)).1

-- ===== src/Users/Access.antt =====
-- Who gets in, by internal/users/store.go and tokens.go, after an account is disabled or its password
-- changed, and how long a session lasts.
use dsh_fleet.Base.{
  ℕ, ◌≡◌, ◌⊎◌, inl, inr, refl, Bool, true, false, ◌&&◌, List, [], ◌∷◌, Option, none, some, ltb,
  if◌then◌else◌, if-cases, Bytes, same, Option-cases, All,
}
use dsh_fleet.Base.Result.{Result, ok, err}
use dsh_fleet.Base.Errors.{GoError, no_session, account_not_found}
use dsh_fleet.Strings.{trim_space}
use dsh_fleet.Secret.{IdKey, Verdict, compared, malformed_hash, unsupported_hash, crashed, verify}
use dsh_fleet.Users.{
  User, Session, Token, Store, by_id, by_name, enabled, live, update_users, password_judged,
  authenticate, lookup_session,
}
use dsh_fleet.Users.Changes.{with_disabled, set_disabled}
use dsh_fleet.Users.Tokens.{by_username, try_tokens, matched, authenticate_token}

-- The call lets nobody in as the account `id`.
abbrev pub Denies : Bytes → Result GoError User → Type 0
Denies id (ok u) = same u.id id ≡ false
Denies id (err e) = Unit

-- Not the account, or a disabled one.
abbrev Locked : Bytes → User → Type 0
Locked id u = (same u.id id ≡ false) ⊎ ((t : ℕ) × (u.disabled_at ≡ some t))

abbrev pub Found : (User → Type 0) → Option User → Type 0
Found P none = Unit
Found P (some u) = P u

by_id-All : (P : User → Type 0) (us : List User) (id : Bytes) → All P us → Found P (by_id us id)
unfolding by_id
by_id-All P [] id h = tt
by_id-All P (u ∷ us) id h =
    if-cases (Found P) (same u.id id) _ _ (λ t. h.0) λ f. by_id-All P us id h.1

by_name-All :
    (P : User → Type 0) (lower : Bytes → Bytes) (us : List User) (name : Bytes)
    → All P us
    → Found P (by_name lower us name)
unfolding by_name
by_name-All P lower [] name h = tt
by_name-All P lower (u ∷ us) name h =
    if-cases (Found P) (same (lower u.username) (lower name)) _ _ (λ t. h.0)
      λ f. by_name-All P lower us name h.1

update-Locked :
    (us : List User) (id : Bytes) (now : ℕ)
    → All (Locked id) (update_users us id λ v. record v { disabled_at = some now })
unfolding update_users
update-Locked [] id now = tt
update-Locked (u ∷ us) id now = (
  if-cases (Locked id) (same u.id id) _ _ (λ t. inr (now, refl)) (λ f. inl f),
  update-Locked us id now,
)

-- A lookup that skips disabled accounts.
unlocked : (id : Bytes) (u : User) → Locked id u → u.disabled_at ≡ none → same u.id id ≡ false
unlocked id u (inl f) d = f
unlocked id u (inr (t, e)) d = cc (e, d)

abbrev pub OnRow : (User → Type 0) → Option (Bytes × User) → Type 0
OnRow P none = Unit
OnRow P (some (stored, u)) = P u

enabled-All :
    (id : Bytes) (us : List User) (j : Bytes)
    → All (Locked id) us
    → Found (λ u. same u.id id ≡ false) (enabled us j)
unfolding enabled
enabled-All id us j h = elim (Option-cases (by_id us j)) [
  | inl e ↦ rw (e, enabled) tt
  | inr (u, e) ↦
      let l : Found (Locked id) (some u) = rw e at (by_id-All (Locked id) us j h) in
      elim (Option-cases u.disabled_at) [
        | inl d ↦ rw (e, enabled, d) (unlocked id u l d)
        | inr (t, d) ↦ rw (e, enabled, d) tt
      ]
]

pub live-All :
    (P : User → Type 0) (xs : List Session) (us : List User) (now : ℕ) (h : Bytes)
    → All (λ x. Found P (enabled us x.user_id)) xs
    → OnRow P (live xs us now h)
unfolding live
live-All P [] us now h k = tt
live-All P (x ∷ xs) us now h k =
    if-cases (OnRow P) (same x.token_hash h && ltb now x.expires_at) _ _
      (λ t. row (live-All P xs us now h k.1) (enabled us x.user_id) k.0)
      λ f. live-All P xs us now h k.1
  where
    row :
        OnRow P (live xs us now h)
        → (o : Option User) → Found P o
        → OnRow P (elim o [ none ↦ live xs us now h | some u ↦ some (x.token_hash, u) ])
    row rest none q = rest
    row rest (some u) q = q

pub lookup-Denies :
    (sum256 : Bytes → Bytes) (up : Bool) (s : Store) (cookie id : Bytes)
    → OnRow (λ u. same u.id id ≡ false) (live s.sessions s.users s.now (sum256 cookie))
    → Denies id (lookup_session sum256 up s cookie)
unfolding lookup_session
lookup-Denies sum256 up s cookie id h =
    if-cases (Denies id) (same cookie []) _ _ (λ t. tt)
      λ f.
        if-cases (Denies id) up _ _ (λ u. row (live s.sessions s.users s.now (sum256 cookie)) h)
          λ d. tt
  where
    row :
        (o : Option (Bytes × User))
        → OnRow (λ u. same u.id id ≡ false) o
        → Denies id (elim o [
          | none ↦ err (no_session ∷ [])
          | some (stored, u) ↦ if same stored (sum256 cookie) then ok u else err (no_session ∷ [])
        ])
    row none q = tt
    row (some (stored, u)) q =
        if-cases (Denies id) (same stored (sum256 cookie)) _ _ (λ t. q) λ f. tt

every-session :
    (P : User → Type 0) (us : List User) (xs : List Session)
    → ((j : Bytes) → Found P (enabled us j))
    → All (λ x. Found P (enabled us x.user_id)) xs
every-session P us [] h = tt
every-session P us (x ∷ xs) h = (h x.user_id, every-session P us xs h)

password-Denies :
    (lower : Bytes → Bytes) (id_key : IdKey) (up : Bool) (s : Store) (name password id : Bytes)
    → All (Locked id) s.users
    → Denies id (authenticate lower id_key up s name password)
unfolding authenticate
password-Denies lower id_key false s name password id h = tt
password-Denies lower id_key true s name password id h =
    elim (Option-cases (by_name lower s.users (trim_space name))) [
      | inl e ↦ rw (e, authenticate) tt
      | inr (u, e) ↦
          let l : Found (Locked id) (some u) =
            rw e at (by_name-All (Locked id) lower s.users (trim_space name) h) in
          elim (Option-cases u.disabled_at) [
            | inl d ↦
                rw (e, authenticate, d)
                  (judged u (unlocked id u l d) (verify id_key password u.password_hash))
            | inr (t, d) ↦ rw (e, authenticate, d) tt
          ]
    ]
  where
    judged : (u : User) → same u.id id ≡ false → (v : Verdict) → Denies id (password_judged u v)
    judged u f (compared true) = f
    judged u f (compared false) = tt
    judged u f malformed_hash = tt
    judged u f unsupported_hash = tt
    judged u f crashed = tt

token-Denies :
    (lower : Bytes → Bytes) (id_key : IdKey) (up up₂ up₃ : Bool) (s : Store) (name token id : Bytes)
    → All (Locked id) s.users
    → Denies id (authenticate_token lower id_key up up₂ up₃ s name token).0
unfolding authenticate_token by_username
token-Denies lower id_key false up₂ up₃ s name token id h = tt
token-Denies lower id_key true up₂ up₃ s name token id h =
    elim (Option-cases (by_name lower s.users (trim_space name))) [
      | inl e ↦ rw (e, authenticate_token, by_username) tt
      | inr (u, e) ↦
          let l : Found (Locked id) (some u) =
            rw e at (by_name-All (Locked id) lower s.users (trim_space name) h) in
          elim (Option-cases u.disabled_at) [
            | inl d ↦
                rw (e, authenticate_token, by_username, d)
                  (if-cases (λ (o : Result GoError User × Store). Denies id o.0) up₂ _ _
                    (λ t. judged u (unlocked id u l d) (try_tokens id_key s.tokens u.id token))
                    λ f. tt)
            | inr (t, d) ↦ rw (e, authenticate_token, by_username, d) tt
          ]
    ]
  where
    judged :
        (u : User)
        → same u.id id ≡ false
        → (o : Result GoError Token) → Denies id (matched up₃ s u o).0
    judged u f (ok t) = f
    judged u f (err e) = tt

nobody_enters :
    (lower sum256 : Bytes → Bytes) (id_key : IdKey) (up up₂ up₃ : Bool) (s : Store)
    (id name secret : Bytes)
    → All (Locked id) s.users
    → Denies id (lookup_session sum256 up s secret)
      × Denies id (authenticate lower id_key up s name secret)
      × Denies id (authenticate_token lower id_key up up₂ up₃ s name secret).0
nobody_enters lower sum256 id_key up up₂ up₃ s id name secret all = (
  lookup-Denies sum256 up s secret id (
      live-All (λ u. same u.id id ≡ false) s.sessions s.users s.now (sum256 secret)
        (every-session _ s.users s.sessions (λ j. enabled-All id s.users j all))),
  password-Denies lower id_key up s name secret id all,
  token-Denies lower id_key up up₂ up₃ s name secret id all,
)

disabled_store :
    (up : Bool) (s s' : Store) (id : Bytes)
    → set_disabled up s id true ≡ (ok tt, s')
    → All (Locked id) s'.users
unfolding set_disabled
disabled_store false s s' id e = cc e
disabled_store true s s' id e = elim (Option-cases (by_id s.users id)) [
  | inl n ↦
      let no : (err (account_not_found ∷ []), s) ≡ (ok tt, s') = rw (n, set_disabled) at e in cc no
  | inr (u, f) ↦
      let yes : (ok tt, with_disabled s id true) ≡ (ok tt, s') = rw (f, set_disabled) at e in
      let store : with_disabled s id true ≡ s' = cc yes in
      rw⁻¹ store (update-Locked s.users id s.now)
]

-- Once SetDisabled has disabled an account, no session cookie, no password and no token lets anybody in
-- as that account, whatever the database then takes of each call.
pub disabled_is_locked_out :
    (lower sum256 : Bytes → Bytes) (id_key : IdKey) (up₀ up up₂ up₃ : Bool) (s s' : Store)
    (id name secret : Bytes)
    → set_disabled up₀ s id true ≡ (ok tt, s')
    → Denies id (lookup_session sum256 up s' secret)
      × Denies id (authenticate lower id_key up s' name secret)
      × Denies id (authenticate_token lower id_key up up₂ up₃ s' name secret).0
disabled_is_locked_out lower sum256 id_key up₀ up up₂ up₃ s s' id name secret e =
    nobody_enters lower sum256 id_key up up₂ up₃ s' id name secret (disabled_store up₀ s s' id e)

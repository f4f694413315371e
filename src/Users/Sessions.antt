-- ===== src/Users/Sessions.antt =====
-- How long a session of internal/users/store.go lasts.
use dsh_fleet.Base.{
  ℕ, ◌+◌, ◌<◌, ◌≡◌, inl, inr, refl, Bool, true, false, List, [], ◌∷◌, Option, none, some, arith,
  ltb, if-cases, Bytes, same, same_refl, same→eq, length, Bool-cases, Option-cases, All,
}
use dsh_fleet.Base.Result.{Result, ok, err}
use dsh_fleet.Base.Errors.{GoError, no_session, other_error}
use dsh_fleet.Base64.{encode_to_string, raw_url_encoding}
use dsh_fleet.Secret.{
  IdKey, Verdict, compared, malformed_hash, unsupported_hash, crashed, hash, verify,
}
use dsh_fleet.Users.{
  User, Session, Store, by_id, enabled, live, clear_sessions, lookup_session, start_session,
  end_session, drop_session, session_lifetime, truncate, user_agent_column,
}
use dsh_fleet.Users.Access.{Found, live-All, Denies, lookup-Denies}
use dsh_fleet.Users.Changes.{with_password, store_password, if_current, set_password}

by_id-id : (us : List User) (j : Bytes) → Found (λ u. u.id ≡ j) (by_id us j)
unfolding by_id
by_id-id [] j = tt
by_id-id (u ∷ us) j =
    if-cases (Found (λ u. u.id ≡ j)) (same u.id j) _ _ (λ t. same→eq u.id j t) λ f. by_id-id us j

enabled-id : (us : List User) (j : Bytes) → Found (λ u. u.id ≡ j) (enabled us j)
unfolding enabled
enabled-id us j = elim (Option-cases (by_id us j)) [
  | inl e ↦ rw (e, enabled) tt
  | inr (u, e) ↦
      let i : Found (λ u. u.id ≡ j) (some u) = rw e at (by_id-id us j) in
      elim (Option-cases u.disabled_at) [
        | inl d ↦ rw (e, enabled, d) i
        | inr (t, d) ↦ rw (e, enabled, d) tt
      ]
]

cleared :
    (us : List User) (xs : List Session) (id : Bytes)
    → All (λ x. Found (λ u. same u.id id ≡ false) (enabled us x.user_id)) (clear_sessions xs id)
unfolding clear_sessions
cleared us [] id = tt
cleared us (x ∷ xs) id =
    if-cases (All (λ x. Found (λ u. same u.id id ≡ false) (enabled us x.user_id)))
      (same x.user_id id) _ _ (λ t. cleared us xs id)
      λ f. (other f (enabled us x.user_id) (enabled-id us x.user_id), cleared us xs id)
  where
    other :
        same x.user_id id ≡ false
        → (o : Option User) → Found (λ u. u.id ≡ x.user_id) o
        → Found (λ u. same u.id id ≡ false) o
    other f none h = tt
    other f (some u) h = rw h f

without_sessions :
    (sum256 : Bytes → Bytes) (up : Bool) (s : Store) (id h cookie : Bytes)
    → Denies id (lookup_session sum256 up (with_password s id h) cookie)
without_sessions sum256 up s id h cookie =
    lookup-Denies sum256 up (with_password s id h) cookie id (
      live-All (λ u. same u.id id ≡ false) _ (with_password s id h).users s.now (sum256 cookie)
        (cleared (with_password s id h).users s.sessions id))

-- What SetPassword leaves: an error and the store as it was, or a password of ten bytes or more under a
-- new hash, and no cookie that finds the account.
abbrev pub Changed :
    (Bytes → Bytes) → Store → Bytes → Bytes → Bytes → Result GoError (Unit {0}) × Store → Type 0
Changed sum256 s id next cookie (err e, s') = s' ≡ s
Changed sum256 s id next cookie (ok _, s') =
    (ltb (length next) 10 ≡ false)
    × ((h : Bytes) × (s' ≡ with_password s id h))
    × Denies id (lookup_session sum256 true s' cookie)

stored-Changed :
    (sum256 : Bytes → Bytes) (up : Bool) (s : Store) (id next cookie : Bytes) (o : Option Bytes)
    → ltb (length next) 10 ≡ false
    → Changed sum256 s id next cookie (store_password up s id o)
stored-Changed sum256 up s id next cookie none l = refl
stored-Changed sum256 false s id next cookie (some h) l = refl
stored-Changed sum256 true s id next cookie (some h) l =
    (l, (h, refl), without_sessions sum256 true s id h cookie)

current-Changed :
    (sum256 : Bytes → Bytes) (s : Store) (id next cookie : Bytes) (v : Verdict)
    (o : Result GoError (Unit {0}) × Store)
    → Changed sum256 s id next cookie o
    → Changed sum256 s id next cookie (if_current v s o)
current-Changed sum256 s id next cookie (compared true) o h = h
current-Changed sum256 s id next cookie (compared false) o h = refl
current-Changed sum256 s id next cookie malformed_hash o h = refl
current-Changed sum256 s id next cookie unsupported_hash o h = refl
current-Changed sum256 s id next cookie crashed o h = refl

-- SetPassword fails and changes nothing, or the new password has ten bytes or more and is stored under
-- a new hash, and no cookie finds the account any more: every session that it had is gone.
pub set_password-Changed :
    (sum256 : Bytes → Bytes) (id_key : IdKey) (cpus : ℕ) (salt : Option Bytes) (up up₂ : Bool)
    (s : Store) (id current next cookie : Bytes)
    → Changed sum256 s id next cookie (set_password id_key cpus salt up up₂ s id current next)
unfolding set_password
set_password-Changed sum256 id_key cpus salt up up₂ s id current next cookie =
    if-cases (Changed sum256 s id next cookie) (ltb (length next) 10) _ _ (λ t. refl)
      λ f.
        let done = stored-Changed sum256 up₂ s id next cookie (hash id_key cpus salt next) f in
        if-cases (Changed sum256 s id next cookie) (same current []) _ _ (λ t. done)
          λ c.
            if-cases (Changed sum256 s id next cookie) up _ _ (λ u. read done (by_id s.users id))
              λ d. refl
  where
    read :
        Changed sum256 s id next cookie (store_password up₂ s id (hash id_key cpus salt next))
        → (o : Option User)
        → Changed sum256 s id next cookie (elim o [
          | none ↦ (err other_error, s)
          | some u ↦
              if_current
                (verify id_key current u.password_hash)
                s
                (store_password up₂ s id (hash id_key cpus salt next))
        ])
    read done none = refl
    read done (some u) = current-Changed sum256 s id next cookie _ _ done

dropped :
    (xs : List Session) (us : List User) (now : ℕ) (h : Bytes)
    → live (drop_session xs h) us now h ≡ none
unfolding drop_session live
dropped [] us now h = refl
dropped (x ∷ xs) us now h = elim (Bool-cases (same x.token_hash h)) [
  | inl t ↦ rw t (dropped xs us now h)
  | inr f ↦ rw (f, f) (dropped xs us now h)
]

ended :
    (sum256 : Bytes → Bytes) (s : Store) (token : Bytes)
    → lookup_session sum256 true (end_session sum256 true s token).1 token ≡ err (no_session ∷ [])
unfolding lookup_session end_session
ended sum256 s token = elim (Bool-cases (same token [])) [
  | inl t ↦ rw (t, lookup_session) refl
  | inr f ↦
      rw (f, lookup_session, end_session, dropped s.sessions s.users s.now (sum256 token)) refl
]

nonempty : (a : ℕ) (raw : Bytes) → same (encode_to_string raw_url_encoding (a ∷ raw)) [] ≡ false
unfolding encode_to_string
nonempty a [] = refl
nonempty a (b ∷ []) = refl
nonempty a (b ∷ c ∷ rest) = refl

-- The session row in front of the others.
fresh_session :
    (sum256 : Bytes → Bytes) (s : Store) (x : Session) (token : Bytes) (u : User) (now : ℕ)
    → same token [] ≡ false
    → x.token_hash ≡ sum256 token
    → enabled s.users x.user_id ≡ some u
    → ltb now x.expires_at ≡ true
    → lookup_session sum256 true (record s { sessions = x ∷ s.sessions; now = now }) token ≡ ok u
unfolding lookup_session live
fresh_session sum256 s x token u now n h e l =
    let found : same x.token_hash (sum256 token) ≡ true = rw h (same_refl (sum256 token)) in
    rw (n, lookup_session, live, found, l, e, found) refl

-- A session that StartSession issued, on some entropy, to an account that is not disabled resolves to
-- that account at any time before its lifetime is over, and to nobody after EndSession.
pub session_lasts :
    (sum256 : Bytes → Bytes) (a : ℕ) (raw : Bytes) (s s' : Store) (user_id agent token : Bytes)
    (u : User) (now : ℕ)
    → enabled s.users user_id ≡ some u
    → start_session sum256 (some (a ∷ raw)) true s user_id agent ≡ (ok token, s')
    → now < s.now + session_lifetime
    → (lookup_session sum256 true (record s' { now = now }) token ≡ ok u)
      × (lookup_session sum256 true
            (end_session sum256 true (record s' { now = now }) token).1
            token
          ≡ err (no_session ∷ []))
unfolding start_session enabled
session_lasts sum256 a raw s s' user_id agent token u now e st l =
    (issued, ended sum256 (record s' { now = now }) token)
  where
    row : Session
    row = record {
      user_id = user_id;
      token_hash = sum256 (encode_to_string raw_url_encoding (a ∷ raw));
      expires_at = s.now + session_lifetime;
      user_agent = user_agent_column (truncate agent 400);
    }

    issued : lookup_session sum256 true (record s' { now = now }) token ≡ ok u
    issued = elim (Option-cases (by_id s.users user_id)) [
      | inl n ↦ let no : none ≡ some u = rw (n, enabled) at e in cc no
      | inr (v, f) ↦
          let yes : (
            ok (encode_to_string raw_url_encoding (a ∷ raw)),
            record s { sessions = row ∷ s.sessions },
          )
              ≡ (ok token, s') =
            rw (f, start_session) at st in
          let token_is : encode_to_string raw_url_encoding (a ∷ raw) ≡ token = cc yes in
          let store : record s { sessions = row ∷ s.sessions } ≡ s' = cc yes in
          rw⁻¹ (token_is, store)
            (fresh_session sum256 s row (encode_to_string raw_url_encoding (a ∷ raw)) u now
              (nonempty a raw) refl e (ground arith))
    ]

-- ===== src/Console/Login/Opens.antt =====
-- That Login of internal/console/auth.go opens the guarded pages to whom it signs in, and Logout shuts
-- them.
use dsh_fleet.Base.{
  ℕ, ◌+◌, ◌<◌, ◌≡◌, refl, ap, Bool, true, false, not, List, [], ◌∷◌, none, some, arith,
  Option-cases, Bool-cases, inl, inr, Bytes, same, same_iff, same_refl, codes,
}
use dsh_fleet.Base.Result.{Result, ok, err, Result-cases}
use dsh_fleet.Base.Errors.{GoError, other_error, bad_credentials, errors_is}
use dsh_fleet.Secret.{IdKey, Verdict, compared, malformed_hash, unsupported_hash, crashed, verify}
use dsh_fleet.Strings.{trim_space}
use dsh_fleet.Users.{
  User, Store, by_id, by_name, enabled, password_judged, authenticate, start_session,
  session_lifetime,
}
use dsh_fleet.Users.Admins.{UniqueIds}
use dsh_fleet.Users.Sessions.{session_lasts}
use dsh_fleet.Console.{Request, passes, require, turn_away, sanitize_next}
use dsh_fleet.Console.Login.{Form, LoginReply, Cookie, rejected, started, new_cookie, login, logout}

by_name-by_id :
    (lower : Bytes → Bytes) (us : List User) (name : Bytes) (u : User)
    → UniqueIds us
    → by_name lower us name ≡ some u
    → by_id us u.id ≡ some u
unfolding by_name by_id
by_name-by_id lower [] name u d e = cc e
by_name-by_id lower (v ∷ us) name u d e = elim (Bool-cases (same (lower v.username) (lower name))) [
  | inl t ↦ let same_user : v ≡ u = cc (rw t at e) in rw⁻¹ same_user (rw (same_refl v.id) refl)
  | inr f ↦
      let there = by_name-by_id lower us name u d.1 (rw f at e) in
      ground (arith, same_iff v.id u.id, there)
]

judged_ok : (u v : User) (o : Verdict) → password_judged u o ≡ ok v → (u ≡ v) × (o ≡ compared true)
judged_ok u v (compared true) e = (cc e, refl)
judged_ok u v (compared false) e = cc e
judged_ok u v malformed_hash e = cc e
judged_ok u v unsupported_hash e = cc e
judged_ok u v crashed e = cc e

-- Whom Authenticate lets in.
pub record Knows (lower : Bytes → Bytes) (id_key : IdKey) (s : Store) (f : Form) (u : User)
    : Type 0 where
  pub named : by_name lower s.users (trim_space f.username) ≡ some u
  pub enabled_account : u.disabled_at ≡ none
  pub verified : verify id_key f.password u.password_hash ≡ compared true

authenticate-Knows :
    (lower : Bytes → Bytes) (id_key : IdKey) (up : Bool) (s : Store) (f : Form) (u : User)
    → authenticate lower id_key up s f.username f.password ≡ ok u
    → Knows lower id_key s f u
unfolding authenticate
authenticate-Knows lower id_key false s f u e = cc e
authenticate-Knows lower id_key true s f u e =
    elim (Option-cases (by_name lower s.users (trim_space f.username))) [
      | inl n ↦ let no : err (bad_credentials ∷ []) ≡ ok u = rw (n, authenticate) at e in cc no
      | inr (v, n) ↦ elim (Option-cases v.disabled_at) [
        | inr (t, d) ↦
            let no : err (bad_credentials ∷ []) ≡ ok u = rw (n, authenticate, d) at e in cc no
        | inl d ↦
            let (same_user, c) = judged_ok v u _ (rw (n, authenticate, d) at e) in
            rw⁻¹ same_user (record { named = n; enabled_account = d; verified = c })
      ]
    ]

-- The page is open to the cookie until the session is over, and to nobody with it after Logout.
pub record Opens (sum256 : Bytes → Bytes) (secure : Bool) (from : ℕ) (s' : Store) (u : User)
    (cookie : Bytes) : Type 0 where
  pub open_until :
      (now : ℕ) (r : Request)
      → now < from + session_lifetime
      → r.session_cookie ≡ some cookie
      → (require sum256 true (record s' { now = now }) r).0 ≡ passes u
  pub shut_after :
      (lower : Bytes → Bytes) (id_key : IdKey) (now : ℕ) (r : Request)
      → now < from + session_lifetime
      → r.session_cookie ≡ some cookie
      → (require sum256 true
          (logout lower sum256 id_key secure true (record s' { now = now }) (some cookie)).3
          r).0
        ≡ turn_away r

session-Opens :
    (sum256 : Bytes → Bytes) (secure : Bool) (a : ℕ) (raw : Bytes) (s s' : Store)
    (agent token : Bytes) (u : User)
    → enabled s.users u.id ≡ some u
    → start_session sum256 (some (a ∷ raw)) true s u.id agent ≡ (ok token, s')
    → Opens sum256 secure s.now s' u token
unfolding require logout
session-Opens sum256 secure a raw s s' agent token u live st = record {
  open_until = λ now r early c.
      let found = (session_lasts sum256 a raw s s' u.id agent token u now live st early).0 in
      rw (c, require, found) refl;
  shut_after = λ lower id_key now r early c.
      let gone = (session_lasts sum256 a raw s s' u.id agent token u now live st early).1 in
      rw (c, require, gone) refl;
}

rejected_lem :
    (next : Bytes) (e : GoError) (other : Bytes) (cookie : Cookie)
    → rejected next e ≡ LoginReply.signs_in other cookie
    → ⊥
rejected_lem next e other cookie h = elim (Bool-cases (not (errors_is e bad_credentials))) [
  | inl t ↦ let no : LoginReply.refuses 500 ≡ LoginReply.signs_in other cookie = rw t at h in cc no
  | inr f ↦
      let no : LoginReply.asks 401 next (codes "Wrong username or password.")
          ≡ LoginReply.signs_in other cookie =
        rw f at h in
      cc no
]

enabled_lem :
    (us : List User) (u : User)
    → by_id us u.id ≡ some u
    → u.disabled_at ≡ none
    → enabled us u.id ≡ some u
unfolding enabled
enabled_lem us u e d = ground arith

start_down :
    (sum256 : Bytes → Bytes) (a : ℕ) (raw : Bytes) (s : Store) (id agent : Bytes)
    → start_session sum256 (some (a ∷ raw)) false s id agent ≡ (err other_error, s)
unfolding start_session
start_down sum256 a raw s id agent = refl

begun :
    (sum256 : Bytes → Bytes) (secure up₂ : Bool) (a : ℕ) (raw : Bytes) (s s' : Store)
    (agent target next : Bytes) (cookie : Cookie) (u : User)
    → enabled s.users u.id ≡ some u
    → (o : Result GoError Bytes × Store)
    → start_session sum256 (some (a ∷ raw)) up₂ s u.id agent ≡ o
    → started secure target o ≡ (LoginReply.signs_in next cookie, s')
    → (token : Bytes) × (token ≡ cookie.value)
      × (next ≡ target)
      × Opens sum256 secure s.now s' u token
begun sum256 secure up₂ a raw s s' agent target next cookie u live (err why, t) st e = cc e
begun sum256 secure false a raw s s' agent target next cookie u live (ok token, t) st e =
    cc (start_down sum256 a raw s u.id agent, st)
begun sum256 secure true a raw s s' agent target next cookie u live (ok token, t) st e =
    let same_store : t ≡ s' = cc e in
    let same_cookie : new_cookie secure t.now token ≡ cookie = cc e in
    (
      token,
      ap (λ (c : Cookie). c.value) same_cookie,
      cc e,
      rw⁻¹ same_store (session-Opens sum256 secure a raw s t agent token u live st),
    )

-- When Login answers with a session cookie, the form names an account that is not disabled and its
-- password verifies, the redirect stays as sanitizeNext makes it, and a request with the cookie passes
-- Require as that account at any time before the session's lifetime is over, and is turned away after
-- Logout with the cookie, if the ids of the accounts are unique and the database answers Require.
pub login-Opens :
    (lower sum256 : Bytes → Bytes) (id_key : IdKey) (secure up up₂ : Bool) (a : ℕ) (raw : Bytes)
    (s s' : Store) (f : Form) (agent next : Bytes) (cookie : Cookie)
    → UniqueIds s.users
    → login lower sum256 id_key secure up up₂ (some (a ∷ raw)) s (some f) agent
      ≡ (LoginReply.signs_in next cookie, s')
    → (u : User) × Knows lower id_key s f u
      × (next ≡ sanitize_next f.next)
      × Opens sum256 secure s.now s' u cookie.value
unfolding login
login-Opens lower sum256 id_key secure up up₂ a raw s s' f agent next cookie d e =
    elim (Result-cases (authenticate lower id_key up s f.username f.password)) [
      | inr (why, x) ↦
          let no : (rejected (sanitize_next f.next) why, s)
              ≡ (LoginReply.signs_in next cookie, s') =
            rw (x, login) at e in
          absurd (
            rejected_lem (sanitize_next f.next) why next cookie
              (ap (λ (r : LoginReply × Store). r.0) no))
      | inl (u, x) ↦
          let k = authenticate-Knows lower id_key up s f u x in
          let found = by_name-by_id lower s.users (trim_space f.username) u d k.named in
          let (token, issued, target, opens) =
            begun sum256 secure up₂ a raw s s' agent (sanitize_next f.next) next cookie u
              (enabled_lem s.users u found k.enabled_account)
              (start_session sum256 (some (a ∷ raw)) up₂ s u.id agent) refl (rw (x, login) at e) in
          (u, k, target, rw⁻¹ issued opens)
    ]

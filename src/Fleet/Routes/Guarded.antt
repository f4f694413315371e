-- ===== src/Fleet/Routes/Guarded.antt =====
-- Which handlers of cmd/dshf/main.go run for whom.
use dsh_fleet.Base.{
  ◌≡◌, refl, ◌⊎◌, inl, inr, Bool, true, false, List, [], ◌∷◌, ◌++◌, Option, none, some, if-cases,
  All, Bytes, codes, same, same_iff,
}
use dsh_fleet.Base.Result.{Result, ok, err}
use dsh_fleet.Base.Errors.{GoError, no_session, errors_is}
use dsh_fleet.Users.{User, Store, lookup_session}
use dsh_fleet.Console.{
  Request, Gate, passes, signs_in, refuses, require, require_admin, resolved, turn_away,
  admins_only, is_navigation,
}
use dsh_fleet.Console.Reply.{path_login, path_logout, path_people, path_audit}
use dsh_fleet.Fleet.Routes.{
  Route, machine, route_of, chosen, get_patterns, post_patterns, is_get, is_post, is_select,
  Guarding, unguarded, signed_in, administrators, guard_of, Served, runs, guard_answers, behind,
  guarded_by, serve,
}

-- The account that the request's cookie is a session of.
abbrev pub SignedIn : (Bytes → Bytes) → Bool → Store → Request → User → Type 0
SignedIn sum256 up s r u =
    (cookie : Bytes) × (r.session_cookie ≡ some cookie) × (lookup_session sum256 up s cookie ≡ ok u)

Passes : (Bytes → Bytes) → Bool → Store → Request → Gate → Type 0
Passes sum256 up s r (passes u) = SignedIn sum256 up s r u
Passes sum256 up s r g = Unit

turn_away-Passes :
    (sum256 : Bytes → Bytes) (up : Bool) (s : Store) (r : Request)
    → Passes sum256 up s r (turn_away r)
unfolding turn_away Passes
turn_away-Passes sum256 up s r =
    if-cases (Passes sum256 up s r) (is_navigation r) _ _ (λ t. tt) λ f. tt

require-Passes :
    (sum256 : Bytes → Bytes) (up : Bool) (s : Store) (r : Request)
    → Passes sum256 up s r (require sum256 up s r).0
unfolding require Passes
require-Passes sum256 up s r = by_cookie r.session_cookie refl
  where
    found :
        (cookie : Bytes)
        → r.session_cookie ≡ some cookie
        → (o : Result GoError User) → lookup_session sum256 up s cookie ≡ o
        → Passes sum256 up s r (resolved r o).0
    found cookie e (ok u) l = (cookie, e, l)
    found cookie e (err why) l =
        if-cases (λ (g : Gate × Bool). Passes sum256 up s r g.0) (errors_is why no_session) _ _
          (λ t. turn_away-Passes sum256 up s r) λ f. tt

    by_cookie :
        (c : Option Bytes)
        → r.session_cookie ≡ c
        → Passes sum256 up s r
            (elim c as (λ c. Gate × Bool) [
              | none ↦ (turn_away r, false)
              | some cookie ↦ resolved r (lookup_session sum256 up s cookie)
            ]).0
    by_cookie none e = turn_away-Passes sum256 up s r
    by_cookie (some cookie) e = found cookie e (lookup_session sum256 up s cookie) refl

-- The four paths that need no session.
abbrev pub Public : Bytes → Type 0
Public path =
    (path ≡ codes "/healthz")
    ⊎ (path ≡ path_login)
    ⊎ (path ≡ path_logout)
    ⊎ (path ≡ codes "/uplink")

-- The pages of the administrators.
abbrev pub Administers : Bytes → Bytes → Type 0
Administers verb path =
    ((is_get verb ≡ true) × ((path ≡ path_people) ⊎ (path ≡ path_audit)))
    ⊎ ((is_post verb ≡ true) × ((path ≡ path_people) ⊎ (path ≡ path_people ++ codes "/update")))

abbrev Open : Route → Bytes → Type 0
Open route path = guard_of route ≡ unguarded → Public path

chosen-Open :
    (path : Bytes) (ps : List (Bytes × Route)) (other : Route)
    → All (λ q. Open q.1 q.0) ps
    → Open other path
    → Open (chosen path ps other) path
chosen-Open path [] other h o = o
chosen-Open path ((p, route) ∷ ps) other h o =
    if-cases (λ route. Open route path) (same path p) _ _
      (λ t g. rw ((same_iff path p).0 t) (h.0 g)) λ f. chosen-Open path ps other h.1 o

route-Open : (verb path : Bytes) → Open (route_of verb path) path
unfolding route_of guard_of
route-Open verb path =
    if-cases (λ route. Open route path) (is_get verb) _ _
      (λ t.
        chosen-Open path get_patterns _
          (
            (λ g. inl refl),
            (
              (λ g. inr (inl refl)),
              (
                (λ g. inr (inr (inr refl))),
                (
                  (λ g. cc g),
                  (
                    (λ g. cc g),
                    ((λ g. cc g), ((λ g. cc g), ((λ g. cc g), ((λ g. cc g), ((λ g. cc g), tt))))),
                  ),
                ),
              ),
            ),
          )
          (if-cases (λ route. Open route path) (is_select path) _ _ (λ t g. cc g) λ f g. cc g))
      λ f.
        if-cases (λ route. Open route path) (is_post verb) _ _
          (λ t.
            chosen-Open path post_patterns machine
              (
                (λ g. inr (inl refl)),
                (
                  (λ g. inr (inr (inl refl))),
                  ((λ g. cc g), ((λ g. cc g), ((λ g. cc g), ((λ g. cc g), ((λ g. cc g), tt))))),
                ),
              )
              λ g. cc g)
          λ f g. cc g

Administers-guard :
    (verb path : Bytes) → Administers verb path → guard_of (route_of verb path) ≡ administrators
unfolding route_of guard_of
Administers-guard verb path (inl (g, inl e)) = rw (e, g) refl
Administers-guard verb path (inl (g, inr e)) = rw (e, g) refl
Administers-guard verb path (inr (p, inl e)) = rw (e, (same_iff verb (codes "POST")).0 p) refl
Administers-guard verb path (inr (p, inr e)) = rw (e, (same_iff verb (codes "POST")).0 p) refl

-- Why a handler ran: it needs no session, or the cookie is a session of the account.
abbrev pub Because : (Bytes → Bytes) → Bool → Store → Request → Bytes → Served → Type 0
Because sum256 up s r path (guard_answers g) = Unit
Because sum256 up s r path (runs route none) = Public path
Because sum256 up s r path (runs route (some u)) =
    SignedIn sum256 up s r u × (Administers r.verb path → u.is_admin ≡ true)

guarded-Because :
    (sum256 : Bytes → Bytes) (up : Bool) (s : Store) (r : Request) (path : Bytes) (route : Route)
    (g : Guarding)
    → guard_of route ≡ g
    → Open route path
    → (Administers r.verb path → guard_of route ≡ administrators)
    → Because sum256 up s r path
        (guarded_by g route (require sum256 up s r) (require_admin sum256 up s r))
unfolding require_admin Passes
guarded-Because sum256 up s r path route unguarded e o a = o e
guarded-Because sum256 up s r path route signed_in e o a =
    plain (require sum256 up s r).0 (require-Passes sum256 up s r)
  where
    plain : (g : Gate) → Passes sum256 up s r g → Because sum256 up s r path (behind route g)
    plain (passes u) p = (p, λ h. cc (a h, e))
    plain (signs_in uri) p = tt
    plain (refuses n) p = tt
guarded-Because sum256 up s r path route administrators e o a =
    admin (require sum256 up s r).0 (require-Passes sum256 up s r)
  where
    admin :
        (g : Gate)
        → Passes sum256 up s r g
        → Because sum256 up s r path (behind route (admins_only g))
    admin (passes u) p =
        if-cases (λ g. Because sum256 up s r path (behind route g)) u.is_admin _ _
          (λ t. (p, λ h. t)) λ f. tt
    admin (signs_in uri) p = tt
    admin (refuses n) p = tt

-- A handler of the mux runs without an account only at the health check, the login form, the logout and
-- the uplink. Any other runs for the account that the session cookie of the request resolves to, and
-- the pages of the administrators, their two forms included, only if that account is one.
pub serve-Because :
    (sum256 : Bytes → Bytes) (up : Bool) (s : Store) (r : Request) (path : Bytes)
    → Because sum256 up s r path (serve sum256 up s r path)
unfolding serve
serve-Because sum256 up s r path =
    guarded-Because sum256 up s r path (route_of r.verb path) (guard_of (route_of r.verb path)) refl
      (route-Open r.verb path) (Administers-guard r.verb path)

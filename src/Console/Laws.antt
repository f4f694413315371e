-- ===== src/Console/Laws.antt =====
-- Whom the guards of internal/console/auth.go keep out.
use dsh_fleet.Base.{◌≡◌, Bool, true, false, Option, none, some, if-cases, Bytes, same, []}
use dsh_fleet.Base.Result.{Result, ok, err}
use dsh_fleet.Base.Errors.{GoError, no_session, errors_is}
use dsh_fleet.Users.{User, Store, lookup_session}
use dsh_fleet.Users.Access.{Denies, disabled_is_locked_out}
use dsh_fleet.Users.Changes.{set_disabled}
use dsh_fleet.Console.{
  Request, Gate, passes, signs_in, refuses, turn_away, resolved, require, admins_only,
  require_admin, is_navigation,
}

-- The guard lets nobody through as the account `id`.
abbrev pub Bars : Bytes → Gate → Type 0
Bars id (passes u) = same u.id id ≡ false
Bars id g = Unit

turn_away-Bars : (id : Bytes) (r : Request) → Bars id (turn_away r)
unfolding turn_away
turn_away-Bars id r = if-cases (Bars id) (is_navigation r) _ _ (λ t. tt) λ f. tt

resolved-Bars :
    (id : Bytes) (r : Request) (o : Result GoError User) → Denies id o → Bars id (resolved r o).0
resolved-Bars id r (ok u) h = h
resolved-Bars id r (err e) h =
    if-cases (λ (g : Gate × Bool). Bars id g.0) (errors_is e no_session) _ _
      (λ t. turn_away-Bars id r) λ f. tt

require-Bars :
    (sum256 : Bytes → Bytes) (up : Bool) (s : Store) (id : Bytes) (r : Request)
    → ((cookie : Bytes) → Denies id (lookup_session sum256 up s cookie))
    → Bars id (require sum256 up s r).0
unfolding require
require-Bars sum256 up s id r h = by_cookie r.session_cookie
  where
    by_cookie :
        (c : Option Bytes)
        → Bars id
            (elim c as (λ c. Gate × Bool) [
              | none ↦ (turn_away r, false)
              | some cookie ↦ resolved r (lookup_session sum256 up s cookie)
            ]).0
    by_cookie none = turn_away-Bars id r
    by_cookie (some cookie) = resolved-Bars id r _ (h cookie)

admins-Bars : (id : Bytes) (g : Gate) → Bars id g → Bars id (admins_only g)
admins-Bars id (passes u) h = if-cases (Bars id) u.is_admin _ _ (λ t. h) λ f. tt
admins-Bars id (signs_in uri) h = tt
admins-Bars id (refuses n) h = tt

-- Once SetDisabled has disabled an account, neither Require nor RequireAdmin lets a request through as
-- that account, whatever cookie it has.
pub disabled_is_turned_away :
    (sum256 : Bytes → Bytes) (up₀ up : Bool) (s s' : Store) (id : Bytes) (r : Request)
    → set_disabled up₀ s id true ≡ (ok tt, s')
    → Bars id (require sum256 up s' r).0 × Bars id (require_admin sum256 up s' r).0
unfolding require_admin
disabled_is_turned_away sum256 up₀ up s s' id r e =
    let barred = require-Bars sum256 up s' id r λ cookie.
      (disabled_is_locked_out (λ b. b) sum256 (λ secret salt time memory p n. []) up₀ up up up s s'
        id [] cookie e).0 in
    (barred, admins-Bars id (require sum256 up s' r).0 barred)

-- ===== src/Console.antt =====
-- The guards of internal/console/auth.go in front of every page.
pub mod Laws
pub mod Reply
pub mod People
pub mod Account
pub mod Overlay
pub mod Login
pub mod Machines
use dsh_fleet.Base.{
  ℕ, Bool, true, false, not, ◌&&◌, ◌||◌, [], Option, none, some, if◌then◌else◌, Bytes, codes, same,
}
use dsh_fleet.Base.Result.{Result, ok, err}
use dsh_fleet.Base.Errors.{GoError, no_session, errors_is}
use dsh_fleet.Strings.{has_prefix, contains}
use dsh_fleet.Users.{User, Store, lookup_session}

-- What the guard reads of a request; a header that is absent is empty.
pub record Request : Type 0 where
  pub verb : Bytes
  pub uri : Bytes
  pub sec_fetch_mode : Bytes
  pub accept : Bytes
  pub session_cookie : Option Bytes

-- The wrapped handler runs for an account, or the guard answers: a redirect to the login page with the
-- URI to come back to, or a bare status.
pub data Gate : Type 0 where
  passes : User → Gate
  signs_in : Bytes → Gate
  refuses : ℕ → Gate

-- isNavigation
unfoldable pub is_navigation : Request → Bool
unfolding contains
is_navigation r =
    if not (same r.verb (codes "GET") || same r.verb (codes "HEAD"))
    then false
    else if not (same r.sec_fetch_mode [])
    then same r.sec_fetch_mode (codes "navigate")
    else contains r.accept (codes "text/html")

-- sanitizeNext
unfoldable pub sanitize_next : Bytes → Bytes
unfolding has_prefix
sanitize_next next =
    if same next [] || not (has_prefix next (codes "/")) || has_prefix next (codes "//")
    then codes "/"
    else next

-- The end of Require.
unfoldable pub turn_away : Request → Gate
unfolding is_navigation
turn_away r = if is_navigation r then signs_in r.uri else refuses 401

abbrev pub resolved : Request → Result GoError User → Gate × Bool
resolved r (ok u) = (passes u, false)
resolved r (err e) = if errors_is e no_session then (turn_away r, true) else (refuses 500, false)

-- Guard.Require; the second component says whether the session cookie is cleared.
unfoldable pub require : (Bytes → Bytes) → Bool → Store → Request → Gate × Bool
unfolding turn_away lookup_session
require sum256 up s r = elim r.session_cookie [
  | none ↦ (turn_away r, false)
  | some cookie ↦ resolved r (lookup_session sum256 up s cookie)
]

abbrev pub admins_only : Gate → Gate
admins_only (passes u) = if u.is_admin then passes u else refuses 403
admins_only g = g

-- Guard.RequireAdmin
unfoldable pub require_admin : (Bytes → Bytes) → Bool → Store → Request → Gate × Bool
unfolding require
require_admin sum256 up s r = let g = require sum256 up s r in (admins_only g.0, g.1)

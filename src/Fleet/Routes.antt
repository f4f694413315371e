-- ===== src/Fleet/Routes.antt =====
-- The routes of `serve` in cmd/dshf/main.go and the guard in front of each. A path is as the mux has
-- it, without empty, `.` or `..` segments; a pattern with GET also takes HEAD.
pub mod Guarded
use dsh_fleet.Base.{
  Bool, true, false, not, ◌&&◌, ◌||◌, List, [], ◌∷◌, ◌++◌, Option, none, some, if◌then◌else◌, Bytes,
  codes, same,
}
use dsh_fleet.Strings.{cut_prefix, has}
use dsh_fleet.Users.{User, Store}
use dsh_fleet.Console.{Request, Gate, passes, signs_in, refuses, require, require_admin}
use dsh_fleet.Console.Reply.{
  prefix, path_login, path_logout, path_console, path_select, path_state, path_overlay,
  path_account, path_people, path_audit,
}

-- The handlers, by what they serve; the last is the proxy.
pub data Route : Type 0 where
  healthz login_page login logout uplink : Route
  home console select state overlay : Route
  account change_password mint_token revoke_token : Route
  people create_person update_person audit : Route
  machine : Route

abbrev pub is_get : Bytes → Bool
is_get verb = same verb (codes "GET") || same verb (codes "HEAD")

abbrev pub is_post : Bytes → Bool
is_post verb = same verb (codes "POST")

-- path_select and one segment
abbrev pub is_select : Bytes → Bool
is_select path = elim (cut_prefix path path_select) [
  | none ↦ false
  | some node ↦ not (same node []) && not (has b'/' node)
]

-- The first pattern of the list that the path is.
abbrev pub chosen : Bytes → List (Bytes × Route) → Route → Route
chosen path [] other = other
chosen path ((p, route) ∷ ps) other = if same path p then route else chosen path ps other

abbrev pub get_patterns : List (Bytes × Route)
get_patterns =
    (codes "/healthz", healthz)
    ∷ (path_login, login_page)
    ∷ (codes "/uplink", uplink)
    ∷ (prefix ++ codes "/", home)
    ∷ (path_console, console)
    ∷ (path_state, state)
    ∷ (path_overlay, overlay)
    ∷ (path_account, account)
    ∷ (path_people, people)
    ∷ (path_audit, audit)
    ∷ []

abbrev pub post_patterns : List (Bytes × Route)
post_patterns =
    (path_login, login)
    ∷ (path_logout, logout)
    ∷ (path_account ++ codes "/password", change_password)
    ∷ (path_account ++ codes "/tokens", mint_token)
    ∷ (path_account ++ codes "/tokens/revoke", revoke_token)
    ∷ (path_people, create_person)
    ∷ (path_people ++ codes "/update", update_person)
    ∷ []

-- The mux: the pattern that a request matches, or `/`.
unfoldable pub route_of : Bytes → Bytes → Route
unfolding cut_prefix
route_of verb path =
    if is_get verb
    then chosen path get_patterns (if is_select path then select else machine)
    else if is_post verb
    then chosen path post_patterns machine
    else machine

pub data Guarding : Type 0 where
  unguarded signed_in administrators : Guarding

-- What `serve` wraps each handler in.
unfoldable pub guard_of : Route → Guarding
guard_of healthz = unguarded
guard_of login_page = unguarded
guard_of login = unguarded
guard_of logout = unguarded
guard_of uplink = unguarded
guard_of people = administrators
guard_of create_person = administrators
guard_of update_person = administrators
guard_of audit = administrators
guard_of _ = signed_in

-- The handler runs, with the account that the guard found, or the guard answers.
pub data Served : Type 0 where
  runs : Route → Option User → Served
  guard_answers : Gate → Served

abbrev pub behind : Route → Gate → Served
behind route (passes u) = runs route (some u)
behind route g = guard_answers g

abbrev pub guarded_by : Guarding → Route → (Gate × Bool) → (Gate × Bool) → Served
guarded_by unguarded route plain admin = runs route none
guarded_by signed_in route plain admin = behind route plain.0
guarded_by administrators route plain admin = behind route admin.0

-- The mux of `serve`, for a request with this path.
unfoldable pub serve : (Bytes → Bytes) → Bool → Store → Request → Bytes → Served
unfolding route_of guard_of require require_admin
serve sum256 up s r path =
    let route = route_of r.verb path in
    guarded_by (guard_of route) route (require sum256 up s r) (require_admin sum256 up s r)

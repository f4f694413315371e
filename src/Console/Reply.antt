-- ===== src/Console/Reply.antt =====
-- How the handlers of internal/console answer, and the paths that it owns (internal/console/auth.go).
use dsh_fleet.Base.{ℕ, not, [], ◌++◌, if◌then◌else◌, Bytes, codes, same}
use dsh_fleet.Url.{query_escape}

-- http.Error with its text, or http.Redirect with 303 to a location.
pub data Reply : Type 0 where
  fails : ℕ → Bytes → Reply
  redirects : Bytes → Reply

abbrev pub prefix : Bytes
prefix = codes "/_fleet"

abbrev pub path_login : Bytes
path_login = prefix ++ codes "/login"

abbrev pub path_logout : Bytes
path_logout = prefix ++ codes "/logout"

abbrev pub path_console : Bytes
path_console = prefix ++ codes "/console"

abbrev pub path_select : Bytes
path_select = prefix ++ codes "/select/"

abbrev pub path_state : Bytes
path_state = prefix ++ codes "/state"

abbrev pub path_overlay : Bytes
path_overlay = prefix ++ codes "/overlay.js"

abbrev pub path_account : Bytes
path_account = prefix ++ codes "/account"

abbrev pub path_people : Bytes
path_people = prefix ++ codes "/people"

abbrev pub path_audit : Bytes
path_audit = prefix ++ codes "/audit"

-- PeoplePage.redirect
unfoldable pub to_people : Bytes → Bytes → Bytes → Reply
unfolding query_escape
to_people failure notice created = redirects (
    path_people
    ++ (if not (same failure [])
        then codes "?error=" ++ query_escape failure
        else if not (same notice [])
        then codes "?notice=" ++ query_escape notice
        else if not (same created [])
        then codes "?created=" ++ query_escape created
        else []))

-- AccountPage.redirect
unfoldable pub to_account : Bytes → Bytes → Reply
unfolding query_escape
to_account failure notice = redirects (
    path_account
    ++ (if not (same failure [])
        then codes "?error=" ++ query_escape failure
        else if not (same notice [])
        then codes "?notice=" ++ query_escape notice
        else []))

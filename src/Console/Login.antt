-- ===== src/Console/Login.antt =====
-- The forms and cookies of internal/console/auth.go.
pub mod Opens
use dsh_fleet.Base.{
  ℕ, ◌+◌, Bool, true, false, not, [], Option, none, some, if◌then◌else◌, Bytes, codes, same,
}
use dsh_fleet.Base.Result.{Result, ok, err}
use dsh_fleet.Base.Errors.{GoError, bad_credentials, errors_is}
use dsh_fleet.Secret.{IdKey}
use dsh_fleet.Users.{
  User, Store, authenticate, start_session, lookup_session, end_session, session_lifetime,
}
use dsh_fleet.Console.{sanitize_next}
use dsh_fleet.Console.Reply.{path_login}

abbrev pub session_cookie : Bytes
session_cookie = codes "dshf_session"

abbrev pub node_cookie : Bytes
node_cookie = codes "dshf_node"

-- How long a cookie lives: with the browser, until a time, or not at all (MaxAge -1).
pub data Lifetime : Type 0 where
  browser : Lifetime
  until : ℕ → Lifetime
  cleared : Lifetime

-- A cookie for the path /, with SameSite=Lax, that scripts do not see.
pub record Cookie : Type 0 where
  pub name : Bytes
  pub value : Bytes
  pub secure : Bool
  pub lifetime : Lifetime

-- Guard.SetNode
unfoldable pub set_node : Bool → Bytes → Cookie
set_node secure id = record { name = node_cookie; value = id; secure = secure; lifetime = browser }

-- Guard.clearCookie
unfoldable pub clear_cookie : Bool → Bytes → Cookie
clear_cookie secure name = record { name = name; value = []; secure = secure; lifetime = cleared }

-- SelectedNode, on the cookie of the request
unfoldable pub selected_node : Option Bytes → Bytes
selected_node none = []
selected_node (some value) = value

-- SelectedUser, on the account of the request
unfoldable pub selected_user : Option User → Bytes
selected_user none = []
selected_user (some u) = u.id

-- The values of the login form.
pub record Form : Type 0 where
  pub username : Bytes
  pub password : Bytes
  pub next : Bytes

-- A bare status, the form again with a status, what to go to and a message, or a redirect with a
-- session cookie.
pub data LoginReply : Type 0 where
  refuses : ℕ → LoginReply
  asks : ℕ → Bytes → Bytes → LoginReply
  goes : Bytes → LoginReply
  signs_in : Bytes → Cookie → LoginReply

abbrev pub new_cookie : Bool → ℕ → Bytes → Cookie
new_cookie secure now token = record {
  name = session_cookie;
  value = token;
  secure = secure;
  lifetime = until (now + session_lifetime);
}

abbrev pub started : Bool → Bytes → Result GoError Bytes × Store → LoginReply × Store
started secure next (ok token, s) = (signs_in next (new_cookie secure s.now token), s)
started secure next (err e, s) = (refuses 500, s)

abbrev pub rejected : Bytes → GoError → LoginReply
rejected next e =
    if not (errors_is e bad_credentials)
    then refuses 500
    else asks 401 next (codes "Wrong username or password.")

module _ (lower sum256 : Bytes → Bytes) (id_key : IdKey) (secure : Bool) where
  -- Guard.Login; `up` and `up₂` are for Authenticate and StartSession, `agent` is the User-Agent
  unfoldable pub login :
      Bool → Bool → Option Bytes → Store → Option Form → Bytes → LoginReply × Store
  unfolding sanitize_next authenticate start_session
  login up up₂ entropy s none agent = (refuses 400, s)
  login up up₂ entropy s (some f) agent =
      elim (authenticate lower id_key up s f.username f.password) [
        | err e ↦ (rejected (sanitize_next f.next) e, s)
        | ok user ↦
            started secure (sanitize_next f.next) (start_session sum256 entropy up₂ s user.id agent)
      ]

  abbrev pub ended : Bool → Store → Option Bytes → Store
  ended up s none = s
  ended up s (some cookie) = (end_session sum256 up s cookie).1

  -- Guard.Logout: where to go, the two cookies, and the store, also when EndSession fails
  unfoldable pub logout : Bool → Store → Option Bytes → Bytes × Cookie × Cookie × Store
  unfolding end_session
  logout up s cookie = (
    path_login,
    clear_cookie secure session_cookie,
    clear_cookie secure node_cookie,
    ended up s cookie,
  )

  abbrev pub welcome : Bytes → Option (Result GoError User) → LoginReply
  welcome next (some (ok u)) = goes (codes "/")
  welcome next _ = asks 200 next []

  abbrev pub looked_up : Bool → Store → Option Bytes → Option (Result GoError User)
  looked_up up s none = none
  looked_up up s (some cookie) = some (lookup_session sum256 up s cookie)

  -- Guard.LoginPage
  unfoldable pub login_page : Bool → Store → Option Bytes → Bytes → LoginReply
  unfolding sanitize_next lookup_session
  login_page up s cookie next = welcome (sanitize_next next) (looked_up up s cookie)

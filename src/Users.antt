-- ===== src/Users.antt =====
-- internal/users/store.go and tokens.go over the users, user_sessions and user_tokens tables. `lower`
-- is the database's lower(), `sum256` is sha256.Sum256, `up` says whether the database takes what a
-- call asks of it. Times are in seconds.
pub mod Changes
pub mod Tokens
pub mod Access
pub mod Sessions
pub mod Rows
pub mod Admins
pub mod Others
use dsh_fleet.Base.{
  ℕ, zero, suc, ◌+◌, ◌*◌, Bool, true, false, not, ◌&&◌, List, [], ◌∷◌, ◌++◌, Option, none, some,
  ltb, if◌then◌else◌, Bytes, same, length, map,
}
use dsh_fleet.Base.Result.{Result, ok, err}
use dsh_fleet.Base.Errors.{
  GoError, other_error, bad_credentials, no_session, username_exists, account_not_found,
  weak_password, bad_token,
}
use dsh_fleet.Base64.{encode_to_string, raw_url_encoding}
use dsh_fleet.Strings.{trim_space}
use dsh_fleet.Secret.{IdKey, Verdict, compared, hash, new_user_token, verify}

abbrev pub session_lifetime : ℕ
session_lifetime = 30 * 24 * 3600

abbrev pub min_password_length : ℕ
min_password_length = 10

-- A row of users, with the columns that User leaves out.
pub record User : Type 0 where
  pub id : Bytes
  pub username : Bytes
  pub password_hash : Bytes
  pub is_admin : Bool
  pub created_at : ℕ
  pub disabled_at : Option ℕ

pub record Session : Type 0 where
  pub user_id : Bytes
  pub token_hash : Bytes
  pub expires_at : ℕ
  pub user_agent : Option Bytes

pub record Token : Type 0 where
  pub id : Bytes
  pub user_id : Bytes
  pub name : Bytes
  pub token_hash : Bytes
  pub created_at : ℕ
  pub last_used_at : Option ℕ
  pub revoked_at : Option ℕ

pub record Store : Type 0 where
  pub users : List User
  pub sessions : List Session
  pub tokens : List Token
  -- owner_id of the machines that have one
  pub owners : List Bytes
  pub now : ℕ

-- WHERE id = $1
unfoldable pub by_id : List User → Bytes → Option User
by_id [] id = none
by_id (u ∷ us) id = if same u.id id then some u else by_id us id

-- WHERE lower(username) = lower($1)
unfoldable pub by_name : (Bytes → Bytes) → List User → Bytes → Option User
by_name lower [] name = none
by_name lower (u ∷ us) name =
    if same (lower u.username) (lower name) then some u else by_name lower us name

-- UPDATE users SET ... WHERE id = $1
unfoldable pub update_users : List User → Bytes → (User → User) → List User
update_users [] id f = []
update_users (u ∷ us) id f = (if same u.id id then f u else u) ∷ update_users us id f

-- DELETE FROM user_sessions WHERE user_id = $1
unfoldable pub clear_sessions : List Session → Bytes → List Session
clear_sessions [] id = []
clear_sessions (x ∷ xs) id =
    let rest = clear_sessions xs id in if same x.user_id id then rest else x ∷ rest

-- Store.Create; `id` is the database's, `salt` what rand.Read gives
unfoldable pub create :
    (Bytes → Bytes)
    → IdKey
    → ℕ
    → Option Bytes
    → Bytes
    → Bool
    → Store
    → Bytes
    → Bytes
    → Bool
    → Result GoError User × Store
unfolding trim_space hash by_name
create lower id_key cpus salt id up s username password admin =
    let name = trim_space username in
    if same name []
    then (err other_error, s)
    else if ltb (length password) 8
    then (err other_error, s)
    else elim (hash id_key cpus salt password) [
      | none ↦ (err other_error, s)
      | some h ↦
          let u : User = record {
            id = id;
            username = name;
            password_hash = h;
            is_admin = admin;
            created_at = s.now;
            disabled_at = none;
          } in
          if up
          then elim (by_name lower s.users name) [
            | some taken ↦ (err (username_exists ∷ []), s)
            | none ↦ (ok u, record s { users = s.users ++ u ∷ [] })
          ]
          else (err other_error, s)
    ]

abbrev pub password_judged : User → Verdict → Result GoError User
password_judged u (compared true) = ok u
password_judged u (compared false) = err (bad_credentials ∷ [])
password_judged u _ = err other_error

-- Store.Authenticate
unfoldable pub authenticate :
    (Bytes → Bytes) → IdKey → Bool → Store → Bytes → Bytes → Result GoError User
unfolding by_name trim_space verify
authenticate lower id_key up s username password =
    if up
    then elim (by_name lower s.users (trim_space username)) [
      | none ↦ err (bad_credentials ∷ [])
      | some u ↦ elim u.disabled_at [
        | some t ↦ err (bad_credentials ∷ [])
        | none ↦ password_judged u (verify id_key password u.password_hash)
      ]
    ]
    else err other_error

-- truncate
unfoldable pub truncate : Bytes → ℕ → Bytes
truncate [] n = []
truncate (a ∷ s) zero = []
truncate (a ∷ s) (suc n) = a ∷ truncate s n

abbrev pub user_agent_column : Bytes → Option Bytes
user_agent_column a = if same a [] then none else some a

-- Store.StartSession; `entropy` is what rand.Read gives
unfoldable pub start_session :
    (Bytes → Bytes) → Option Bytes → Bool → Store → Bytes → Bytes → Result GoError Bytes × Store
unfolding truncate encode_to_string by_id
start_session sum256 none up s user_id agent = (err other_error, s)
start_session sum256 (some raw) up s user_id agent =
    let token = encode_to_string raw_url_encoding raw in
    let x : Session = record {
      user_id = user_id;
      token_hash = sum256 token;
      expires_at = s.now + session_lifetime;
      user_agent = user_agent_column (truncate agent 400);
    } in
    if up
    then elim (by_id s.users user_id) [
      | none ↦ (err other_error, s)
      | some u ↦ (ok token, record s { sessions = x ∷ s.sessions })
    ]
    else (err other_error, s)

-- An account that is not disabled.
unfoldable pub enabled : List User → Bytes → Option User
unfolding by_id
enabled us id = elim (by_id us id) [
  | none ↦ none
  | some u ↦ elim u.disabled_at [ none ↦ some u | some t ↦ none ]
]

-- The join of LookupSession, up to its first row.
unfoldable pub live : List Session → List User → ℕ → Bytes → Option (Bytes × User)
unfolding enabled
live [] us now h = none
live (x ∷ xs) us now h =
    let rest = live xs us now h in
    if same x.token_hash h && ltb now x.expires_at
    then elim (enabled us x.user_id) [ none ↦ rest | some u ↦ some (x.token_hash, u) ]
    else rest

-- Store.LookupSession
unfoldable pub lookup_session : (Bytes → Bytes) → Bool → Store → Bytes → Result GoError User
unfolding live
lookup_session sum256 up s token =
    if same token []
    then err (no_session ∷ [])
    else if up
    then elim (live s.sessions s.users s.now (sum256 token)) [
      | none ↦ err (no_session ∷ [])
      | some (stored, u) ↦ if same stored (sum256 token) then ok u else err (no_session ∷ [])
    ]
    else err other_error

-- DELETE FROM user_sessions WHERE token_hash = $1
unfoldable pub drop_session : List Session → Bytes → List Session
drop_session [] h = []
drop_session (x ∷ xs) h =
    let rest = drop_session xs h in if same x.token_hash h then rest else x ∷ rest

-- Store.EndSession
unfoldable pub end_session :
    (Bytes → Bytes) → Bool → Store → Bytes → Result GoError (Unit {0}) × Store
unfolding drop_session
end_session sum256 up s token =
    if same token []
    then (ok tt, s)
    else if up
    then (ok tt, record s { sessions = drop_session s.sessions (sum256 token) })
    else (err other_error, s)

-- Store.PurgeExpiredSessions
unfoldable pub purge : List Session → ℕ → List Session
purge [] now = []
purge (x ∷ xs) now = let rest = purge xs now in if ltb now x.expires_at then x ∷ rest else rest

unfoldable pub purge_expired_sessions : Bool → Store → Store
unfolding purge
purge_expired_sessions up s = if up then record s { sessions = purge s.sessions s.now } else s

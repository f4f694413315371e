-- ===== src/Console/Account.antt =====
-- internal/console/account.go: an account's own page. The state of the page is its map of reveals;
-- `key` is what uuid.NewString gives. Times are in seconds.
pub mod Reveals
pub mod Scope
use dsh_fleet.Base.{
  ℕ, ◌+◌, ◌-◌, ◌*◌, Bool, true, false, not, ◌&&◌, ◌||◌, List, [], ◌∷◌, ◌++◌, Option, none, some,
  ltb, if◌then◌else◌, Bytes, codes, same, map,
}
use dsh_fleet.Base.Dict.{Dict, find, put, delete}
use dsh_fleet.Base.Result.{Result, ok, err}
use dsh_fleet.Base.Errors.{GoError, bad_credentials, weak_password, errors_is}
use dsh_fleet.Secret.{IdKey}
use dsh_fleet.Strings.{trim_space}
use dsh_fleet.Url.{query_escape}
use dsh_fleet.Users.{User, Token, Store}
use dsh_fleet.Users.Changes.{set_password}
use dsh_fleet.Users.Rows.{list_tokens}
use dsh_fleet.Users.Tokens.{mint_token, revoke_token}
use dsh_fleet.Console.Reply.{Reply, fails, redirects, to_account, path_account, path_login}
use dsh_fleet.Console.People.{weak_password_text}

-- revealLifetime
abbrev pub reveal_lifetime : ℕ
reveal_lifetime = 2 * 60

pub record Reveal : Type 0 where
  pub owner : Bytes
  pub token : Bytes
  pub name : Bytes
  pub at : ℕ

-- time.Since(v.at) > revealLifetime
abbrev pub is_stale : ℕ → Reveal → Bool
is_stale now v = ltb reveal_lifetime (now - v.at)

-- The sweep of stash.
unfoldable pub sweep : ℕ → Dict Reveal → Dict Reveal
sweep now [] = []
sweep now ((k, v) ∷ m) = let rest = sweep now m in if is_stale now v then rest else (k, v) ∷ rest

-- AccountPage.stash
unfoldable pub stash : Bytes → ℕ → Dict Reveal → Bytes → Bytes → Bytes → Dict Reveal
unfolding sweep put
stash key now m owner token name =
    put key (record { owner = owner; token = token; name = name; at = now }) (sweep now m)

abbrev pub nothing : Bytes × Bytes
nothing = ([], [])

-- AccountPage.collect
unfoldable pub collect : ℕ → Dict Reveal → Bytes → Bytes → (Bytes × Bytes) × Dict Reveal
unfolding find delete
collect now m key owner = elim (find key m) [
  | none ↦ (nothing, m)
  | some entry ↦ (
    if not (same entry.owner owner) || is_stale now entry
        then nothing
        else (entry.token, entry.name),
    delete key m,
  )
]

pub record TokenView : Type 0 where
  pub id : Bytes
  pub name : Bytes
  pub created : ℕ
  pub last_used : Option ℕ
  pub revoked : Bool

-- accountData, before dates and ages are written out
pub record AccountData : Type 0 where
  pub user : Bytes
  pub admin : Bool
  pub tokens : List TokenView
  pub uplink : Bytes
  pub minted : Bytes
  pub minted_name : Bytes
  pub error : Bytes
  pub notice : Bytes

abbrev is_some : Option ℕ → Bool
is_some none = false
is_some (some t) = true

unfoldable pub token_view : Token → TokenView
token_view t = record {
  id = t.id;
  name = t.name;
  created = t.created_at;
  last_used = t.last_used_at;
  revoked = is_some t.revoked_at;
}

-- AccountPage.render
unfoldable pub render : Bytes → Bool → Store → User → Bytes → Bytes → Bytes × Bytes → AccountData
unfolding token_view list_tokens
render uplink up s user failure notice minted = listed (list_tokens up s user.id)
  where
    view : List TokenView → Bytes → AccountData
    view tokens error = record {
      user = user.username;
      admin = user.is_admin;
      tokens = tokens;
      uplink = uplink;
      minted = minted.0;
      minted_name = minted.1;
      error = error;
      notice = notice;
    }

    listed : Result GoError (List Token) → AccountData
    listed (ok ts) = view (map token_view ts) failure
    listed (err e) = view [] (codes "Could not read your tokens.")

-- The query of a visit.
pub record Query : Type 0 where
  pub shown : Bytes
  pub error : Bytes
  pub notice : Bytes

-- AccountPage.ServeHTTP: a page, or 401
unfoldable pub serve_account :
    Bytes → Bool → ℕ → Store → Dict Reveal → Option User → Query → Option AccountData × Dict Reveal
unfolding collect render
serve_account uplink up now s m none q = (none, m)
serve_account uplink up now s m (some user) q =
    let got = collect now m q.shown user.id in
    (some (render uplink up s user q.error q.notice got.0), got.1)

-- The values of a form of the page.
pub record Form : Type 0 where
  pub current : Bytes
  pub next : Bytes
  pub again : Bytes
  pub name : Bytes
  pub id : Bytes

abbrev pub malformed : Reply
malformed = fails 400 (codes "malformed request")

abbrev pub password_answer : Result GoError (Unit {0}) × Store → Reply × Store
password_answer (ok v, s) = (
  redirects
      (path_login ++ codes "?notice=" ++ query_escape (codes "Password changed. Sign in again.")),
  s,
)
password_answer (err e, s) =
    if errors_is e bad_credentials
    then (to_account (codes "That is not your current password.") [], s)
    else if errors_is e weak_password
    then (to_account weak_password_text [], s)
    else (to_account (codes "Could not change the password.") [], s)

-- AccountPage.ChangePassword
unfoldable pub change_password :
    IdKey → ℕ → Option Bytes → Bool → Bool → Store → Option User → Option Form → Reply × Store
unfolding set_password
change_password id_key cpus salt up up₂ s (some user) (some f) =
    if not (same f.next f.again)
    then (to_account (codes "The two new passwords do not match.") [], s)
    else if same f.current []
    then (to_account (codes "Enter your current password.") [], s)
    else password_answer (set_password id_key cpus salt up up₂ s user.id f.current f.next)
change_password id_key cpus salt up up₂ s _ _ = (malformed, s)

abbrev pub minting :
    Bytes
    → ℕ
    → Dict Reveal
    → Bytes
    → Bytes
    → Result GoError Bytes × Store
    → Reply × Store × Dict Reveal
minting key now m owner name (ok token, s) = (
  redirects (path_account ++ codes "?shown=" ++ query_escape key),
  s,
  stash key now m owner token name,
)
minting key now m owner name (err e, s) = (
  if same name []
      then to_account (codes "Give the token a name, so you can recognise it later.") []
      else to_account (codes "Could not create the token.") [],
  s,
  m,
)

-- AccountPage.MintToken
unfoldable pub mint :
    IdKey
    → ℕ
    → Option Bytes
    → Option Bytes
    → Bytes
    → Bytes
    → ℕ
    → Bool
    → Store
    → Dict Reveal
    → Option User
    → Option Form
    → Reply × Store × Dict Reveal
unfolding mint_token stash
mint id_key cpus entropy salt id key now up s m (some user) (some f) =
    let name = trim_space f.name in
    minting key now m user.id name (mint_token id_key cpus entropy salt id up s user.id name)
mint id_key cpus entropy salt id key now up s m _ _ = (malformed, s, m)

abbrev pub revocation : Result GoError (Unit {0}) × Store → Reply × Store
revocation (ok v, s) = (
  to_account [] (codes "Token revoked. Machines using it are refused at their next reconnect."),
  s,
)
revocation (err e, s) = (to_account (codes "Could not revoke that token.") [], s)

-- AccountPage.RevokeToken; `parse` is uuid.Parse
unfoldable pub withdraw :
    (Bytes → Option Bytes) → Bool → Store → Option User → Option Form → Reply × Store
unfolding revoke_token
withdraw parse up s (some user) (some f) = elim (parse f.id) [
  | none ↦ (to_account (codes "That is not a token id.") [], s)
  | some id ↦ revocation (revoke_token up s user.id id)
]
withdraw parse up s _ _ = (malformed, s)

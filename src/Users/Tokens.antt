-- ===== src/Users/Tokens.antt =====
-- internal/users/tokens.go: the tokens with which a person's machines enrol themselves.
use dsh_fleet.Base.{
  ℕ, Bool, true, false, ◌&&◌, List, [], ◌∷◌, Option, none, some, if◌then◌else◌, Bytes, same,
}
use dsh_fleet.Base.Result.{Result, ok, err}
use dsh_fleet.Base.Errors.{GoError, other_error, bad_token}
use dsh_fleet.Strings.{trim_space}
use dsh_fleet.Secret.{IdKey, compared, hash, new_user_token, verify}
use dsh_fleet.Users.{User, Token, Store, by_id, by_name}

abbrev pub stored :
    Bool → Store → Bytes → Bytes → Bytes → Bytes → Option Bytes → Result GoError Bytes × Store
stored up s id user_id name token none = (err other_error, s)
stored up s id user_id name token (some h) =
    if up
    then elim (by_id s.users user_id) [
      | none ↦ (err other_error, s)
      | some u ↦ (
        ok token,
        record s {
          tokens =
              record {
                id = id;
                user_id = user_id;
                name = name;
                token_hash = h;
                created_at = s.now;
                last_used_at = none;
                revoked_at = none;
              }
              ∷ s.tokens;
        },
      )
    ]
    else (err other_error, s)

-- Store.MintToken; `id` is the database's, `entropy` and `salt` what rand.Read gives
unfoldable pub mint_token :
    IdKey
    → ℕ
    → Option Bytes
    → Option Bytes
    → Bytes
    → Bool
    → Store
    → Bytes
    → Bytes
    → Result GoError Bytes × Store
unfolding trim_space hash by_id
mint_token id_key cpus entropy salt id up s user_id name =
    if same (trim_space name) [] then (err other_error, s) else elim (new_user_token entropy) [
      | none ↦ (err other_error, s)
      | some token ↦ stored up s id user_id (trim_space name) token (hash id_key cpus salt token)
    ]

abbrev pub is_live : Token → Bool
is_live t = elim t.revoked_at [ none ↦ true | some at ↦ false ]

-- The row that RevokeToken updates.
abbrev pub is_target : Bytes → Bytes → Token → Bool
is_target id user_id t = same t.id id && same t.user_id user_id && is_live t

unfoldable pub revoke_in : ℕ → List Token → Bytes → Bytes → List Token
revoke_in now [] id user_id = []
revoke_in now (t ∷ ts) id user_id =
    (if is_target id user_id t then record t { revoked_at = some now } else t)
    ∷ revoke_in now ts id user_id

unfoldable pub has_target : List Token → Bytes → Bytes → Bool
has_target [] id user_id = false
has_target (t ∷ ts) id user_id =
    let rest = has_target ts id user_id in if is_target id user_id t then true else rest

-- Store.RevokeToken
unfoldable pub revoke_token : Bool → Store → Bytes → Bytes → Result GoError (Unit {0}) × Store
unfolding revoke_in has_target
revoke_token up s user_id id =
    if up
    then if has_target s.tokens id user_id
      then (ok tt, record s { tokens = revoke_in s.now s.tokens id user_id })
      else (err (bad_token ∷ []), s)
    else (err other_error, s)

-- Store.byUsername
unfoldable pub by_username : (Bytes → Bytes) → Bool → Store → Bytes → Result GoError User
unfolding by_name trim_space
by_username lower up s username =
    if up
    then elim (by_name lower s.users (trim_space username)) [
      | none ↦ err (bad_token ∷ [])
      | some u ↦ elim u.disabled_at [ none ↦ ok u | some t ↦ err (bad_token ∷ []) ]
    ]
    else err other_error

-- The loop of AuthenticateToken over the live tokens of an account: the token that matches, if any.
unfoldable pub try_tokens : IdKey → List Token → Bytes → Bytes → Result GoError Token
unfolding verify
try_tokens id_key [] user_id token = err (bad_token ∷ [])
try_tokens id_key (t ∷ ts) user_id token =
    let rest = try_tokens id_key ts user_id token in
    if same t.user_id user_id && is_live t
    then elim (verify id_key token t.token_hash) [
      | compared true ↦ ok t
      | compared false ↦ rest
      | _ ↦ err other_error
    ]
    else rest

unfoldable pub touch_in : ℕ → List Token → Bytes → List Token
touch_in now [] id = []
touch_in now (t ∷ ts) id =
    (if same t.id id then record t { last_used_at = some now } else t) ∷ touch_in now ts id

abbrev pub matched : Bool → Store → User → Result GoError Token → Result GoError User × Store
matched up s u (ok t) = (ok u, if up then record s { tokens = touch_in s.now s.tokens t.id } else s)
matched up s u (err e) = (err e, s)

-- Store.AuthenticateToken; `up₂` is for the read of the tokens, `up₃` for touchToken, whose failure
-- changes nothing else
unfoldable pub authenticate_token :
    (Bytes → Bytes)
    → IdKey
    → Bool
    → Bool
    → Bool
    → Store
    → Bytes
    → Bytes
    → Result GoError User × Store
unfolding by_username try_tokens touch_in
authenticate_token lower id_key up up₂ up₃ s username token =
    elim (by_username lower up s username) [
      | err e ↦ (err e, s)
      | ok u ↦
          if up₂
          then matched up₃ s u (try_tokens id_key s.tokens u.id token)
          else (err other_error, s)
    ]

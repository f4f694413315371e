-- ===== src/Users/Rows.antt =====
-- The reads of internal/users/store.go and tokens.go that list rows, and Find.
use dsh_fleet.Base.{Bool, List, [], ◌∷◌, leb, if◌then◌else◌, Bytes, same}
use dsh_fleet.Base.Result.{Result, ok, err}
use dsh_fleet.Base.Errors.{GoError, other_error, account_not_found, bad_token, errors_is}
use dsh_fleet.Users.{User, Token, Store}
use dsh_fleet.Users.Tokens.{by_username}

-- ORDER BY created_at; rows of one time keep their order.
unfoldable pub insert_user : User → List User → List User
insert_user u [] = u ∷ []
insert_user u (v ∷ vs) = if leb u.created_at v.created_at then u ∷ v ∷ vs else v ∷ insert_user u vs

unfoldable pub by_creation : List User → List User
unfolding insert_user
by_creation [] = []
by_creation (u ∷ us) = insert_user u (by_creation us)

-- Store.List
unfoldable pub list_users : Bool → Store → Result GoError (List User)
unfolding by_creation
list_users up s = if up then ok (by_creation s.users) else err other_error

-- WHERE user_id = $1 ORDER BY created_at DESC
unfoldable pub insert_token : Token → List Token → List Token
insert_token t [] = t ∷ []
insert_token t (v ∷ vs) =
    if leb v.created_at t.created_at then t ∷ v ∷ vs else v ∷ insert_token t vs

unfoldable pub newest_of : List Token → Bytes → List Token
unfolding insert_token
newest_of [] user_id = []
newest_of (t ∷ ts) user_id =
    let rest = newest_of ts user_id in if same t.user_id user_id then insert_token t rest else rest

-- Store.ListTokens
unfoldable pub list_tokens : Bool → Store → Bytes → Result GoError (List Token)
unfolding newest_of
list_tokens up s user_id = if up then ok (newest_of s.tokens user_id) else err other_error

abbrev renamed : Result GoError User → Result GoError User
renamed (ok u) = ok u
renamed (err e) = if errors_is e bad_token then err (account_not_found ∷ []) else err e

-- Store.Find
unfoldable pub find_user : (Bytes → Bytes) → Bool → Store → Bytes → Result GoError User
unfolding by_username
find_user lower up s username = renamed (by_username lower up s username)

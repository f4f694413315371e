-- ===== src/Users/Others.antt =====
-- What the calls of internal/users/store.go and tokens.go leave of the other accounts.
use dsh_fleet.Base.{ℕ, ◌≡◌, refl, true, List, [], ◌∷◌, arith, Bytes, same}
use dsh_fleet.Users.{User, Session, Token, Store, update_users, clear_sessions}
use dsh_fleet.Users.Changes.{remove_user, remove_tokens}
use dsh_fleet.Users.Tokens.{revoke_in}

-- The rows that do not belong to the account `me`.
abbrev pub others : Bytes → Store → List User × List Session × List Token × List Bytes
others me s =
    (remove_user s.users me, clear_sessions s.sessions me, remove_tokens s.tokens me, s.owners)

pub remove-update :
    (f : User → User)
    → ((u : User) → (f u).id ≡ u.id)
    → (us : List User) (id : Bytes) → remove_user (update_users us id f) id ≡ remove_user us id
unfolding remove_user update_users
remove-update f keeps [] id = refl
remove-update f keeps (u ∷ us) id = ground (arith, keeps u, remove-update f keeps us id)

pub clear-clear :
    (xs : List Session) (id : Bytes)
    → clear_sessions (clear_sessions xs id) id ≡ clear_sessions xs id
unfolding clear_sessions
clear-clear [] id = refl
clear-clear (x ∷ xs) id = ground (arith, clear-clear xs id)

pub remove-revoke :
    (now : ℕ) (ts : List Token) (id user_id : Bytes)
    → remove_tokens (revoke_in now ts id user_id) user_id ≡ remove_tokens ts user_id
unfolding remove_tokens revoke_in
remove-revoke now [] id user_id = refl
remove-revoke now (t ∷ ts) id user_id = ground (arith, remove-revoke now ts id user_id)

pub others-own :
    (t : Token) (s : Store) (me : Bytes)
    → same t.user_id me ≡ true
    → others me (record s { tokens = t ∷ s.tokens }) ≡ others me s
unfolding remove_tokens
others-own t s me e = rw e refl

-- ===== src/Witnesses/Accounts.antt =====
-- One account with a session, for the theorems on internal/users.
use dsh_fleet.Base.{◌+◌, ◌≡◌, refl, true, [], ◌∷◌, none, some, arith, Bytes, codes}
use dsh_fleet.Base.Result.{ok, err}
use dsh_fleet.Base.Errors.{no_session}
use dsh_fleet.Base64.{encode_to_string}
use dsh_fleet.Base64.Chars.{char_of}
use dsh_fleet.Secret.{IdKey}
use dsh_fleet.Users.{
  User, Store, by_id, enabled, lookup_session, start_session, end_session, authenticate,
  session_lifetime,
}
use dsh_fleet.Users.Access.{Denies, disabled_is_locked_out}
use dsh_fleet.Users.Changes.{with_disabled, set_disabled}
use dsh_fleet.Users.Sessions.{session_lasts}
use dsh_fleet.Users.Tokens.{authenticate_token}

abbrev same_text : Bytes → Bytes
same_text b = b

abbrev toy_key : IdKey
toy_key secret salt time memory p n = secret

abbrev ann : User
ann = record {
  id = codes "1";
  username = codes "ann";
  password_hash = codes "$";
  is_admin = true;
  created_at = 0;
  disabled_at = none;
}

abbrev store : Store
store = record { users = ann ∷ []; sessions = []; tokens = []; owners = []; now = 100 }

abbrev cookie : Bytes
cookie = codes "AAA"

abbrev signed_in : Store
signed_in = record store {
  sessions =
      record {
        user_id = codes "1";
        token_hash = cookie;
        expires_at = 100 + session_lifetime;
        user_agent = none;
      }
      ∷ [];
}

found : enabled store.users (codes "1") ≡ some ann
unfolding enabled by_id
found = refl

started :
    start_session same_text (some (0 ∷ 0 ∷ [])) true store (codes "1") [] ≡ (ok cookie, signed_in)
unfolding start_session by_id encode_to_string char_of
started = refl

session_lasts_example :
    (lookup_session same_text true (record signed_in { now = 200 }) cookie ≡ ok ann)
    × (lookup_session same_text true
          (end_session same_text true (record signed_in { now = 200 }) cookie).1
          cookie
        ≡ err (no_session ∷ []))
session_lasts_example =
    session_lasts same_text 0 (0 ∷ []) store signed_in (codes "1") [] cookie ann 200 found started
      (omega arith)

abbrev locked : Store
locked = with_disabled signed_in (codes "1") true

disabled : set_disabled true signed_in (codes "1") true ≡ (ok tt, locked)
unfolding set_disabled by_id
disabled = refl

disabled_is_locked_out_example :
    Denies (codes "1") (lookup_session same_text true locked cookie)
    × Denies (codes "1") (authenticate same_text toy_key true locked (codes "ann") cookie)
    × Denies
        (codes "1")
        (authenticate_token same_text toy_key true true true locked (codes "ann") cookie).0
disabled_is_locked_out_example =
    disabled_is_locked_out same_text same_text toy_key true true true true signed_in locked
      (codes "1") (codes "ann") cookie disabled

-- ===== src/Witnesses/Pages.antt =====
-- Two administrators and the pages of internal/console, for the theorems on its handlers.
use dsh_fleet.Base.{
  ℕ, ◌+◌, ◌≡◌, refl, true, false, ◌&&◌, List, [], ◌∷◌, Option, none, some, arith, leb,
  if◌then◌else◌, Bytes, codes, same,
}
use dsh_fleet.Base.Result.{pos}
use dsh_fleet.Base64.{encode_to_string, triple}
use dsh_fleet.Base64.Chars.{char_of, value_of}
use dsh_fleet.Console.{Request, sanitize_next}
use dsh_fleet.Console.Account.{
  Reveal, stash, collect, nothing, reveal_lifetime, change_password, mint, withdraw,
}
use dsh_fleet.Console.Account
use dsh_fleet.Console.Account.Reveals.{Call, stashed, calls, shown_once}
use dsh_fleet.Console.Account.Scope.{forms_leave_others}
use dsh_fleet.Console.Login
use dsh_fleet.Console.Login.{Cookie, LoginReply, new_cookie, login}
use dsh_fleet.Console.Login.Opens.{Knows, Opens, login-Opens}
use dsh_fleet.Console.Machines.{Snapshot}
use dsh_fleet.Console.People
use dsh_fleet.Console.People.{Database, update}
use dsh_fleet.Console.People.Lockout.{Administered, update-Administered}
use dsh_fleet.Fleet.Routes.{serve}
use dsh_fleet.Fleet.Routes.Guarded.{Because, serve-Because}
use dsh_fleet.Nodes
use dsh_fleet.Nodes.{Node}
use dsh_fleet.Base.Decimal.{decimal}
use dsh_fleet.Secret.{IdKey, threads, encoded}
use dsh_fleet.Users.{User, Store, by_id, by_name, authenticate, start_session, session_lifetime}
use dsh_fleet.Users.Changes.{count_admins}
use dsh_fleet.Users.Others.{others}

abbrev toy_key : IdKey
toy_key secret salt time memory p n = secret

abbrev same_text : Bytes → Bytes
same_text b = b

abbrev person : Bytes → Bytes → User
person id name = record {
  id = id;
  username = name;
  password_hash = codes "$";
  is_admin = true;
  created_at = 0;
  disabled_at = none;
}

abbrev ann : User
ann = person (codes "1") (codes "ann")

abbrev ben : User
ben = person (codes "2") (codes "ben")

abbrev store : Store
store = record { users = ann ∷ ben ∷ []; sessions = []; tokens = []; owners = []; now = 100 }

abbrev all_up : Database
all_up = record { lists = true; counts = true; changes = true }

abbrev form : Bytes → Bytes → People.Form
form id action = record {
  id = id;
  action = action;
  username = [];
  password = [];
  again = [];
  admin = [];
}

two_administrators : Administered store.users
unfolding count_admins by_id
two_administrators = (omega arith, (refl, (refl, tt)))

update-Administered_example :
    Administered
      (update toy_key 2 none all_up some
        (λ s. s)
        store
        (some ann)
        (some (form (codes "2") (codes "demote")))).1.users
update-Administered_example =
    update-Administered toy_key 2 none all_up some (λ s. s) store (some ann)
      (some (form (codes "2") (codes "demote"))) refl refl two_administrators

-- Two administrators who demote each other at the same time leave none.
demoted_at_once :
    count_admins
      (update toy_key 2 none all_up some
        (λ s.
          (update toy_key 2 none all_up some
            (λ s. s)
            s
            (some ben)
            (some (form (codes "1") (codes "demote")))).1)
        store
        (some ann)
        (some (form (codes "2") (codes "demote")))).1.users
    ≡ 0
unfolding update count_admins by_id
demoted_at_once = refl

-- Without the list of accounts the last administrator is demoted.
demoted_unseen :
    count_admins
      (update toy_key 2 none
        (record all_up { lists = false })
        some
        (λ s. s)
        (record store { users = ann ∷ [] })
        (some ann)
        (some (form (codes "1") (codes "demote")))).1.users
    ≡ 0
unfolding update count_admins by_id
demoted_unseen = refl

abbrev other_call : List Call
other_call = stashed (codes "k2") 110 (codes "2") (codes "ut_b") (codes "desk") ∷ []

shown_once_example :
    let got =
      collect 150
        (calls
          (stash (codes "k1") 100 (calls [] []) (codes "1") (codes "ut_a") (codes "laptop"))
          other_call)
        (codes "k1")
        (codes "1") in
    (got.0 ≡ (
      if same (codes "1") (codes "1") && leb 150 (100 + reveal_lifetime)
      then (codes "ut_a", codes "laptop")
      else nothing))
    × ((later : ℕ) (other : Bytes)
        → (collect later (calls got.1 other_call) (codes "k1") other).0 ≡ nothing)
shown_once_example =
    shown_once [] other_call other_call (codes "k1") (codes "1") (codes "ut_a") (codes "laptop")
      (codes "1") 100 150 ((refl, omega arith), tt) (refl, tt)

abbrev account_form : Account.Form
account_form = record {
  current = codes "old password";
  next = codes "new password";
  again = codes "new password";
  name = codes "laptop";
  id = codes "9";
}

forms_leave_others_example :
    (others
        (codes "1")
        (change_password toy_key 2 (some (1 ∷ [])) true true store (some ann) (some account_form)).1
      ≡ others (codes "1") store)
    × (others
          (codes "1")
          (mint toy_key 2
            (some (7 ∷ []))
            (some (1 ∷ []))
            (codes "9")
            (codes "k1")
            100
            true
            store
            []
            (some ann)
            (some account_form)).1
        ≡ others (codes "1") store)
    × (others (codes "1") (withdraw some true store (some ann) (some account_form)).1
        ≡ others (codes "1") store)
forms_leave_others_example =
    forms_leave_others toy_key 2 (some (7 ∷ [])) (some (1 ∷ [])) some (codes "9") (codes "k1") 100
      true true store [] ann (some account_form)

abbrev salt : Bytes
salt = 7 ∷ 8 ∷ []

abbrev cora : User
cora = record ann { password_hash = encoded (threads 2) salt (codes "pw") }

abbrev one_up : Store
one_up = record store { users = cora ∷ []; sessions = [] }

abbrev login_form : Login.Form
login_form = record { username = codes "ann"; password = codes "pw"; next = codes "/_fleet/people" }

abbrev cookie : Cookie
cookie = new_cookie true 100 (codes "AAA")

abbrev one_in : Store
one_in = record one_up {
  sessions =
      record {
        user_id = codes "1";
        token_hash = codes "AAA";
        expires_at = 100 + session_lifetime;
        user_agent = none;
      }
      ∷ [];
}

signed_in :
    login same_text same_text toy_key true true true (some (0 ∷ 0 ∷ [])) one_up (some login_form) []
    ≡ (LoginReply.signs_in (codes "/_fleet/people") cookie, one_in)
unfolding login sanitize_next authenticate start_session by_name by_id encoded threads
    encode_to_string decimal char_of triple value_of
signed_in = refl

login-Opens_example :
    (u : User) × Knows same_text toy_key one_up login_form u
    × (codes "/_fleet/people" ≡ sanitize_next login_form.next)
    × Opens same_text true one_up.now one_in u cookie.value
unfolding by_id
login-Opens_example =
    login-Opens same_text same_text toy_key true true true 0 (0 ∷ []) one_up one_in login_form []
      (codes "/_fleet/people") cookie (refl, tt) signed_in

abbrev parse_snapshot : Bytes → Option Snapshot
parse_snapshot b =
    some (record { total = pos 3; running = pos 2; tools = pos 5; phases = codes "failed" ∷ [] })

abbrev laptop : Nodes.Node
laptop = record {
  label = none;
  token_hash = none;
  owner_id = none;
  created_at = 1;
  revoked_at = none;
  dsh_version = none;
  plugin_version = none;
  platform = none;
  arch = none;
  cwd = none;
  caps = [];
  last_seen_at = some 20;
  latest_snapshot = some (codes "{}");
}

abbrev machines : Nodes.Store
machines = record { nodes = (codes "laptop", laptop) ∷ []; telemetry = []; now = 100 }

abbrev request : Request
request = record {
  verb = codes "POST";
  uri = codes "/_fleet/people";
  sec_fetch_mode = codes "navigate";
  accept = [];
  session_cookie = some (codes "AAA");
}

serve-Because_example :
    Because same_text true one_in request
      (codes "/_fleet/people")
      (serve same_text true one_in request (codes "/_fleet/people"))
serve-Because_example = serve-Because same_text true one_in request (codes "/_fleet/people")

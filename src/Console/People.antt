-- ===== src/Console/People.antt =====
-- internal/console/people.go: the administrators' page. `parse` is uuid.Parse; a form that does not
-- parse is `none`.
pub mod Lockout
use dsh_fleet.Base.{
  ℕ, Bool, true, false, not, ◌&&◌, ◌||◌, List, [], ◌∷◌, Option, none, some, ltb, leb, if◌then◌else◌,
  map, Bytes, codes, same, length,
}
use dsh_fleet.Base.Result.{Result, ok, err}
use dsh_fleet.Base.Errors.{GoError, username_exists, weak_password, errors_is}
use dsh_fleet.Secret.{IdKey}
use dsh_fleet.Strings.{trim_space}
use dsh_fleet.Users.{User, Store, by_id, create, min_password_length}
use dsh_fleet.Users.Changes.{
  set_password, set_admin, set_disabled, delete_account, count_admins, is_active_admin,
}
use dsh_fleet.Users.Rows.{list_users}
use dsh_fleet.Console.Reply.{Reply, fails, to_people}

-- personView, before its date is written out
pub record PersonView : Type 0 where
  pub id : Bytes
  pub username : Bytes
  pub admin : Bool
  pub disabled : Bool
  pub created : ℕ
  pub self : Bool

pub record PeopleData : Type 0 where
  pub user : Bytes
  pub people : List PersonView
  pub error : Bytes
  pub notice : Bytes
  pub created : Bytes

abbrev is_set : Option ℕ → Bool
is_set none = false
is_set (some t) = true

unfoldable pub person_view : User → User → PersonView
person_view me u = record {
  id = u.id;
  username = u.username;
  admin = u.is_admin;
  disabled = is_set u.disabled_at;
  created = u.created_at;
  self = same u.id me.id;
}

abbrev pub people_page :
    User → Bytes → Bytes → Bytes → Result GoError (List User) → Result ℕ PeopleData
people_page me error notice created (err e) = err 500
people_page me error notice created (ok us) = ok (record {
  user = me.username;
  people = map (person_view me) us;
  error = error;
  notice = notice;
  created = created;
})

-- PeoplePage.ServeHTTP, with the three values of the query: a status, or what is rendered
unfoldable pub serve_people :
    Bool → Store → Option User → Bytes → Bytes → Bytes → Result ℕ PeopleData
unfolding person_view list_users
serve_people up s none error notice created = err 401
serve_people up s (some me) error notice created =
    people_page me error notice created (list_users up s)

-- The values of a form of the page; an absent one is empty.
pub record Form : Type 0 where
  pub id : Bytes
  pub action : Bytes
  pub username : Bytes
  pub password : Bytes
  pub again : Bytes
  pub admin : Bytes

-- Whether the database answers List, CountAdmins and the change itself.
pub record Database : Type 0 where
  pub lists : Bool
  pub counts : Bool
  pub changes : Bool

abbrev pub weak_password_text : Bytes
weak_password_text = codes "users: password must be at least 10 characters"

abbrev pub not_matching : Bytes
not_matching = codes "The two passwords do not match."

abbrev pub creation : Result GoError User × Store → Reply × Store
creation (ok u, s) = (to_people [] [] u.username, s)
creation (err e, s) =
    if errors_is e username_exists
    then (to_people (codes "That username is taken.") [] [], s)
    else (to_people (codes "Could not create the account.") [] [], s)

-- PeoplePage.Create
unfoldable pub create_person :
    (Bytes → Bytes) → IdKey → ℕ → Option Bytes → Bytes → Bool → Store → Option Form → Reply × Store
unfolding create
create_person lower id_key cpus salt id up s none = (fails 400 (codes "malformed form"), s)
create_person lower id_key cpus salt id up s (some f) =
    if not (same f.password f.again)
    then (to_people not_matching [] [], s)
    else if ltb (length f.password) min_password_length
    then (to_people weak_password_text [] [], s)
    else creation (
        create lower id_key cpus salt id up s (trim_space f.username) f.password
          (same f.admin (codes "on")))

-- What targetIsAdmin says of the row that it finds, if any.
abbrev pub is_admin_row : Option User → Bool
is_admin_row none = false
is_admin_row (some u) = is_active_admin u

-- PeoplePage.targetIsAdmin
unfoldable pub target_is_admin : Bool → Store → Bytes → Result GoError Bool
unfolding by_id list_users
target_is_admin up s id = elim (list_users up s) [
  | ok us ↦ ok (is_admin_row (by_id us id))
  | err e ↦ err e
]

abbrev pub is_me : Option User → Bytes → Bool
is_me none id = false
is_me (some u) id = same u.id id

-- The end of refuseLockout, for what targetIsAdmin gave.
abbrev pub last_admin : Database → Store → Result GoError Bool → Option Bytes
last_admin db s (ok true) =
    if not db.counts
    then some (codes "Could not check how many administrators remain.")
    else if leb (count_admins s.users) 1
    then some (codes "This is the last administrator; promote another one first.")
    else none
last_admin db s _ = none

-- PeoplePage.refuseLockout: the text of its error, if any
unfoldable pub refuse_lockout : Database → Store → Option User → Bytes → Bytes → Option Bytes
unfolding target_is_admin count_admins
refuse_lockout db s me id action =
    if is_me me id && same action (codes "delete")
    then some (codes "You cannot delete the account you are signed in as.")
    else if is_me me id && same action (codes "disable")
    then some (codes "You cannot withdraw your own access.")
    else last_admin db s (target_is_admin db.lists s id)

-- PeoplePage.done
abbrev pub done : Result GoError (Unit {0}) × Store → Bytes → Reply × Store
done (ok _, s) notice = (to_people [] notice [], s)
done (err e, s) notice = (to_people (codes "Could not apply that change.") [] [], s)

abbrev pub reset_notice : Bytes
reset_notice = codes "Password reset. That account's other sessions were signed out."

abbrev pub reset : Result GoError (Unit {0}) × Store → Reply × Store
reset (ok v, s) = done (ok v, s) reset_notice
reset (err e, s) =
    if errors_is e weak_password
    then (to_people weak_password_text [] [], s)
    else done (err e, s) reset_notice

abbrev pub is_guarded : Bytes → Bool
is_guarded action =
    same action (codes "delete") || same action (codes "demote") || same action (codes "disable")

-- The change, unless refuseLockout has an error.
abbrev pub unless : Option Bytes → Store → Reply × Store → Reply × Store
unless (some why) s change = (to_people why [] [], s)
unless none s change = change

module _ (id_key : IdKey) (cpus : ℕ) (salt : Option Bytes) (db : Database) where
  -- The switch of Update.
  unfoldable pub act : Store → Bytes → Form → Reply × Store
  unfolding set_password set_admin set_disabled delete_account
  act s id f =
      if same f.action (codes "reset")
      then if not (same f.password f.again)
        then (to_people not_matching [] [], s)
        else reset (set_password id_key cpus salt true db.changes s id [] f.password)
      else if same f.action (codes "promote")
      then done (set_admin db.changes s id true) (codes "Now an administrator.")
      else if same f.action (codes "demote")
      then done (set_admin db.changes s id false) (codes "No longer an administrator.")
      else if same f.action (codes "disable")
      then done (set_disabled db.changes s id true)
          (codes "Access withdrawn, and sessions signed out.")
      else if same f.action (codes "enable")
      then done (set_disabled db.changes s id false) (codes "Access restored.")
      else if same f.action (codes "delete")
      then done (delete_account db.changes s id)
          (codes "Account deleted. Machines it enrolled keep running until their next reconnect.")
      else (to_people (codes "Unknown action.") [] [], s)

  -- PeoplePage.Update; `meanwhile` is what other requests do between the check and the change
  unfoldable pub update :
      (Bytes → Option Bytes) → (Store → Store) → Store → Option User → Option Form → Reply × Store
  unfolding act refuse_lockout
  update parse meanwhile s (some me) (some f) = elim (parse f.id) [
    | none ↦ (to_people (codes "That is not an account id.") [] [], s)
    | some id ↦
        if is_guarded f.action
        then unless (refuse_lockout db s (some me) id f.action) s (act (meanwhile s) id f)
        else act s id f
  ]
  update parse meanwhile s _ _ = (fails 400 (codes "malformed request"), s)

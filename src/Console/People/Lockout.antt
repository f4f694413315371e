-- ===== src/Console/People/Lockout.antt =====
-- That Update of internal/console/people.go never takes the last administrator away.
use dsh_fleet.Base.{
  ℕ, ◌+◌, ◌≤◌, ◌≡◌, refl, Bool, true, false, not, List, [], Option, none, some, arith, ltb, length,
  if◌then◌else◌, if-cases, Bytes, codes, same, Option-cases, Bool-cases, inl, inr,
}
use dsh_fleet.Base.Result.{Result, ok, err}
use dsh_fleet.Base.Errors.{GoError, weak_password, errors_is}
use dsh_fleet.Secret.{IdKey, hash}
use dsh_fleet.Users.{User, Store, by_id, update_users, min_password_length}
use dsh_fleet.Users.Admins.{
  UniqueIds, weight, by_id-by_creation, update-UniqueIds, count-update, count-update_none,
  count-remove, remove-UniqueIds,
}
use dsh_fleet.Users.Changes.{
  set_password, set_admin, set_disabled, delete_account, count_admins, remove_user, store_password,
  is_owner,
}
use dsh_fleet.Users.Rows.{list_users}
use dsh_fleet.Console.Reply.{Reply}
use dsh_fleet.Console.People.{
  Form, Database, target_is_admin, refuse_lockout, is_guarded, act, update, done, reset, unless,
}

-- An administrator who is not disabled, and no id twice.
abbrev pub Administered : List User → Type 0
Administered us = (1 ≤ count_admins us) × UniqueIds us

-- The row of `id`, if there is one, is not the last administrator.
abbrev Spared : List User → Bytes → Type 0
Spared us id = (u : User) → by_id us id ≡ some u → weight u + 1 ≤ count_admins us

write-Administered :
    (f : User → User)
    → ((u : User) → (f u).id ≡ u.id)
    → (us : List User) (id : Bytes) (u : User) → by_id us id ≡ some u
    → weight u + 1 ≤ count_admins us + weight (f u)
    → Administered us
    → Administered (update_users us id f)
write-Administered f keeps us id u e w h =
    (omega (arith, count-update f us id u h.1 e), update-UniqueIds f keeps us id h.1)

remove-Administered :
    (us : List User) (id : Bytes) (u : User)
    → by_id us id ≡ some u
    → weight u + 1 ≤ count_admins us
    → Administered us
    → Administered (remove_user us id)
remove-Administered us id u e w h =
    (omega (arith, count-remove us id u h.1 e), remove-UniqueIds us id h.1)

-- What refuseLockout lets pass leaves somebody, if it could read the accounts.
refuse_lockout-Spared :
    (db : Database) (s : Store) (me : Option User) (id action : Bytes)
    → db.lists ≡ true
    → Administered s.users
    → refuse_lockout db s me id action ≡ none
    → Spared s.users id
unfolding refuse_lockout target_is_admin list_users
refuse_lockout-Spared db s me id action up h e u f =
    ground (arith, by_id-by_creation s.users id h.1)

abbrev Kept : Result GoError (Unit {0}) × Store → Type 0
Kept r = Administered r.1.users

set_admin-Kept :
    (up : Bool) (s : Store) (id : Bytes) (admin : Bool)
    → Administered s.users
    → (admin ≡ false → Spared s.users id)
    → Kept (set_admin up s id admin)
unfolding set_admin
set_admin-Kept false s id admin h spared = h
set_admin-Kept true s id admin h spared = elim (Option-cases (by_id s.users id)) [
  | inl e ↦ rw (e, set_admin) h
  | inr (u, e) ↦
      rw (e, set_admin)
        (write-Administered (λ v. record v { is_admin = admin }) (λ v. refl) s.users id u e
          (room admin u e spared) h)
]
  where
    room :
        (admin : Bool) (u : User)
        → by_id s.users id ≡ some u
        → (admin ≡ false → Spared s.users id)
        → weight u + 1 ≤ count_admins s.users + weight (record u { is_admin = admin })
    room true u e spared = ground arith
    room false u e spared = omega (arith, spared refl u e)

set_disabled-Kept :
    (up : Bool) (s : Store) (id : Bytes) (disabled : Bool)
    → Administered s.users
    → (disabled ≡ true → Spared s.users id)
    → Kept (set_disabled up s id disabled)
unfolding set_disabled
set_disabled-Kept false s id disabled h spared = h
set_disabled-Kept true s id disabled h spared = elim (Option-cases (by_id s.users id)) [
  | inl e ↦ rw (e, set_disabled) h
  | inr (u, e) ↦
      rw (e, set_disabled)
        (write-Administered (λ v. record v { disabled_at = if disabled then some s.now else none })
          (λ v. refl) s.users id u e (room disabled u e spared) h)
]
  where
    room :
        (disabled : Bool) (u : User)
        → by_id s.users id ≡ some u
        → (disabled ≡ true → Spared s.users id)
        → weight u + 1
          ≤ count_admins s.users
            + weight (record u { disabled_at = if disabled then some s.now else none })
    room false u e spared = ground arith
    room true u e spared = omega (arith, spared refl u e)

delete-Kept :
    (up : Bool) (s : Store) (id : Bytes)
    → Administered s.users
    → Spared s.users id
    → Kept (delete_account up s id)
unfolding delete_account
delete-Kept false s id h spared = h
delete-Kept true s id h spared = elim (Option-cases (by_id s.users id)) [
  | inl e ↦ rw (e, delete_account) h
  | inr (u, e) ↦ elim (Bool-cases (is_owner s.owners id)) [
    | inl o ↦ rw (e, delete_account, o) h
    | inr o ↦ rw (e, delete_account, o) (remove-Administered s.users id u e (spared u e) h)
  ]
]

stored-Kept :
    (up : Bool) (s : Store) (id : Bytes) (hash : Option Bytes)
    → Administered s.users
    → Kept (store_password up s id hash)
stored-Kept up s id none h = h
stored-Kept false s id (some hash) h = h
stored-Kept true s id (some hash) h = elim (Option-cases (by_id s.users id)) [
  | inl e ↦ (
    omega (arith, count-update_none written s.users id e),
    update-UniqueIds written (λ v. refl) s.users id h.1,
  )
  | inr (u, e) ↦ write-Administered written (λ v. refl) s.users id u e (ground arith) h
]
  where
    written : User → User
    written u = record u { password_hash = hash }

set_password-Kept :
    (id_key : IdKey) (cpus : ℕ) (salt : Option Bytes) (up : Bool) (s : Store) (id next : Bytes)
    → Administered s.users
    → Kept (set_password id_key cpus salt true up s id [] next)
unfolding set_password
set_password-Kept id_key cpus salt up s id next h =
    if-cases Kept (ltb (length next) min_password_length) _ _ (λ t. h)
      λ f. stored-Kept up s id (hash id_key cpus salt next) h

KeptBy : Reply × Store → Type 0
KeptBy r = Administered r.1.users

done-Kept :
    (r : Result GoError (Unit {0}) × Store) (notice : Bytes) → Kept r → KeptBy (done r notice)
unfolding KeptBy
done-Kept (ok v, s) notice h = h
done-Kept (err e, s) notice h = h

reset-Kept : (r : Result GoError (Unit {0}) × Store) → Kept r → KeptBy (reset r)
unfolding KeptBy
reset-Kept (ok v, s) h = h
reset-Kept (err e, s) h = if-cases KeptBy (errors_is e weak_password) _ _ (λ t. h) λ f. h

module _ (id_key : IdKey) (cpus : ℕ) (salt : Option Bytes) (db : Database) where
  act-Kept :
      (s : Store) (id : Bytes) (f : Form)
      → Administered s.users
      → (is_guarded f.action ≡ true → Spared s.users id)
      → KeptBy (act id_key cpus salt db s id f)
  unfolding act KeptBy
  act-Kept s id f h spared =
      if-cases KeptBy (same f.action (codes "reset")) _ _
        (λ t.
          if-cases KeptBy (not (same f.password f.again)) _ _ (λ t. h)
            λ m.
              reset-Kept (set_password id_key cpus salt true db.changes s id [] f.password)
                (set_password-Kept id_key cpus salt db.changes s id f.password h))
        λ n.
          if-cases KeptBy (same f.action (codes "promote")) _ _
            (λ t.
              done-Kept (set_admin db.changes s id true) _
                (set_admin-Kept db.changes s id true h (λ e. cc)))
            λ n.
              if-cases KeptBy (same f.action (codes "demote")) _ _
                (λ t.
                  done-Kept (set_admin db.changes s id false) _
                    (set_admin-Kept db.changes s id false h (λ e. spared (ground arith))))
                λ n.
                  if-cases KeptBy (same f.action (codes "disable")) _ _
                    (λ t.
                      done-Kept (set_disabled db.changes s id true) _
                        (set_disabled-Kept db.changes s id true h (λ e. spared (ground arith))))
                    λ n.
                      if-cases KeptBy (same f.action (codes "enable")) _ _
                        (λ t.
                          done-Kept (set_disabled db.changes s id false) _
                            (set_disabled-Kept db.changes s id false h (λ e. cc)))
                        λ n.
                          if-cases KeptBy (same f.action (codes "delete")) _ _
                            (λ t.
                              done-Kept (delete_account db.changes s id) _
                                (delete-Kept db.changes s id h (spared (ground arith))))
                            λ n. h

  -- While the database answers List and nobody else changes an account between the check and the
  -- change, Update leaves an administrator who is not disabled, whoever asks for whatever, if there
  -- was one and no id stands twice.
  pub update-Administered :
      (parse : Bytes → Option Bytes) (meanwhile : Store → Store) (s : Store) (me : Option User)
      (form : Option Form)
      → db.lists ≡ true
      → (meanwhile s).users ≡ s.users
      → Administered s.users
      → Administered (update id_key cpus salt db parse meanwhile s me form).1.users
  unfolding update KeptBy
  update-Administered parse meanwhile s none form up calm h = h
  update-Administered parse meanwhile s (some me) none up calm h = h
  update-Administered parse meanwhile s (some me) (some f) up calm h =
      elim (Option-cases (parse f.id)) [
        | inl e ↦ rw (e, update) h
        | inr (id, e) ↦
            rw (e, update)
              (if-cases KeptBy (is_guarded f.action) _ _
                (λ t.
                  checked id (refuse_lockout db s (some me) id f.action)
                    λ n. refuse_lockout-Spared db s (some me) id f.action up h n)
                λ g. act-Kept s id f h (λ t. cc))
      ]
    where
      checked :
          (id : Bytes) (o : Option Bytes)
          → (o ≡ none → Spared s.users id)
          → KeptBy (unless o s (act id_key cpus salt db (meanwhile s) id f))
      checked id (some why) spared = h
      checked id none spared = act-Kept (meanwhile s) id f (rw calm h) (λ t. rw calm (spared refl))

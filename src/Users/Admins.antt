-- ===== src/Users/Admins.antt =====
-- How the calls of internal/users/store.go change the number of enabled administrators, in a table
-- whose ids are unique, as its primary key makes them.
use dsh_fleet.Base.{
  ℕ, ◌+◌, ◌≡◌, refl, List, [], ◌∷◌, none, some, arith, if◌then◌else◌, Bytes, same, same_iff,
  Bool-cases, inl, inr,
}
use dsh_fleet.Users.{User, by_id, update_users}
use dsh_fleet.Users.Changes.{is_active_admin, count_admins, remove_user}
use dsh_fleet.Users.Rows.{insert_user, by_creation}

abbrev pub UniqueIds : List User → Type 0
UniqueIds [] = Unit
UniqueIds (u ∷ us) = (by_id us u.id ≡ none) × UniqueIds us

abbrev pub weight : User → ℕ
weight u = if is_active_admin u then 1 else 0

by_id-insert_user :
    (u : User) (us : List User) (id : Bytes)
    → by_id us u.id ≡ none
    → by_id (insert_user u us) id ≡ (if same u.id id then some u else by_id us id)
unfolding by_id insert_user
by_id-insert_user u [] id h = refl
by_id-insert_user u (v ∷ us) id h =
    ground
      (arith, same_iff v.id u.id, same_iff u.id id, same_iff v.id id, by_id-insert_user u us id)

-- Sorting moves rows and loses none.
pub by_id-by_creation :
    (us : List User) (id : Bytes) → UniqueIds us → by_id (by_creation us) id ≡ by_id us id
unfolding by_id by_creation
by_id-by_creation [] id h = refl
by_id-by_creation (u ∷ us) id h = ground (
  arith,
  by_id-insert_user u (by_creation us) id,
  by_id-by_creation us u.id h.1,
  by_id-by_creation us id h.1,
)

module _ (f : User → User) (keeps : (u : User) → (f u).id ≡ u.id) where
  pub by_id-update :
      (us : List User) (id j : Bytes) → by_id us j ≡ none → by_id (update_users us id f) j ≡ none
  unfolding by_id update_users
  by_id-update [] id j h = refl
  by_id-update (u ∷ us) id j h = ground (arith, keeps u, by_id-update us id j)

  pub update-UniqueIds :
      (us : List User) (id : Bytes) → UniqueIds us → UniqueIds (update_users us id f)
  unfolding update_users
  update-UniqueIds [] id h = tt
  update-UniqueIds (u ∷ us) id h = elim (Bool-cases (same u.id id)) [
    | inl e ↦ rw (e, keeps u) (by_id-update us id u.id h.0, update-UniqueIds us id h.1)
    | inr e ↦ rw e (by_id-update us id u.id h.0, update-UniqueIds us id h.1)
  ]

pub count-update_none :
    (f : User → User) (us : List User) (id : Bytes)
    → by_id us id ≡ none
    → count_admins (update_users us id f) ≡ count_admins us
unfolding by_id update_users count_admins
count-update_none f [] id h = refl
count-update_none f (u ∷ us) id h = ground (arith, count-update_none f us id)

-- An update of one row moves the count by that row.
pub count-update :
    (f : User → User) (us : List User) (id : Bytes) (u : User)
    → UniqueIds us
    → by_id us id ≡ some u
    → count_admins (update_users us id f) + weight u ≡ count_admins us + weight (f u)
unfolding by_id update_users count_admins
count-update f [] id u h e = ground arith
count-update f (v ∷ us) id u h e =
    ground (arith, same_iff v.id id, count-update f us id u h.1, count-update_none f us id)

pub by_id-remove :
    (us : List User) (id j : Bytes) → by_id us j ≡ none → by_id (remove_user us id) j ≡ none
unfolding by_id remove_user
by_id-remove [] id j h = refl
by_id-remove (u ∷ us) id j h = ground (arith, by_id-remove us id j)

pub remove-UniqueIds : (us : List User) (id : Bytes) → UniqueIds us → UniqueIds (remove_user us id)
unfolding remove_user
remove-UniqueIds [] id h = tt
remove-UniqueIds (u ∷ us) id h = elim (Bool-cases (same u.id id)) [
  | inl e ↦ rw e (remove-UniqueIds us id h.1)
  | inr e ↦ rw e (by_id-remove us id u.id h.0, remove-UniqueIds us id h.1)
]

count-remove_none :
    (us : List User) (id : Bytes)
    → by_id us id ≡ none
    → count_admins (remove_user us id) ≡ count_admins us
unfolding by_id remove_user count_admins
count-remove_none [] id h = refl
count-remove_none (u ∷ us) id h = ground (arith, count-remove_none us id)

pub count-remove :
    (us : List User) (id : Bytes) (u : User)
    → UniqueIds us
    → by_id us id ≡ some u
    → count_admins (remove_user us id) + weight u ≡ count_admins us
unfolding by_id remove_user count_admins
count-remove [] id u h e = ground arith
count-remove (v ∷ us) id u h e =
    ground (arith, same_iff v.id id, count-remove us id u h.1, count-remove_none us id)

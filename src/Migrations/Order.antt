-- ===== src/Migrations/Order.antt =====
-- In which order collect of internal/store/migrate.go gives the files.
use dsh_fleet.Base.{
  ◌≡◌, refl, true, false, List, [], ◌∷◌, Option, none, some, arith, if-cases, All, Bool-cases, inl,
  inr, Bytes,
}
use dsh_fleet.Base.Result.{ok}
use dsh_fleet.Registry.Online.{less, less_trans, insert, insert-All, sort_strings}
use dsh_fleet.Migrations.{DirEntry, collect, some_files, sql_names}

-- No string is above a later one.
abbrev pub InOrder : List Bytes → Type 0
InOrder [] = Unit
InOrder (k ∷ ks) = All (λ j. less j k ≡ false) ks × InOrder ks

less_irrefl : (a : Bytes) → less a a ≡ false
unfolding less
less_irrefl [] = refl
less_irrefl (x ∷ a) = ground (arith, less_irrefl a)

above : (i j k : Bytes) → less k j ≡ true → less i j ≡ false → less i k ≡ false
above i j k h n = elim (Bool-cases (less i k)) [ inl t ↦ cc (less_trans i k j t h, n) | inr f ↦ f ]

all_above :
    (k j : Bytes) (ks : List Bytes)
    → less k j ≡ true
    → All (λ i. less i j ≡ false) ks
    → All (λ i. less i k ≡ false) ks
all_above k j [] h a = tt
all_above k j (i ∷ ks) h a = (above i j k h a.0, all_above k j ks h a.1)

insert-InOrder : (k : Bytes) (ks : List Bytes) → InOrder ks → InOrder (insert k ks)
unfolding insert
insert-InOrder k [] h = (tt, tt)
insert-InOrder k (j ∷ ks) h =
    if-cases InOrder (less k j) _ _
      (λ t. ((above j j k t (less_irrefl j), all_above k j ks t h.0), h))
      λ f. (insert-All (λ i. less i j ≡ false) k ks f h.0, insert-InOrder k ks h.1)

sort-InOrder : (ks : List Bytes) → InOrder (sort_strings ks)
unfolding sort_strings
sort-InOrder [] = tt
sort-InOrder (k ∷ ks) = insert-InOrder k (sort_strings ks) (sort-InOrder ks)

pub collect-InOrder :
    (dir : Option (List DirEntry)) (files : List Bytes) → collect dir ≡ ok files → InOrder files
unfolding collect
collect-InOrder none files e = cc e
collect-InOrder (some es) files e =
    sorted (sort_strings (sql_names es)) (sort-InOrder (sql_names es)) e
  where
    sorted : (fs : List Bytes) → InOrder fs → some_files fs ≡ ok files → InOrder files
    sorted [] h e = cc e
    sorted (f ∷ fs) h e = let same_files : f ∷ fs ≡ files = cc e in rw⁻¹ same_files h

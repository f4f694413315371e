-- ===== src/Registry/Online.antt =====
-- The sorted key list of Registry.Online: sort.Strings as insertion by byte order.
use dsh_fleet.Base.{
  ◌≡◌, refl, ap, ◌∙◌, Bool, true, false, ◌&&◌, ◌||◌, List, [], ◌∷◌, Option, none, some, arith, ltb,
  ◌==◌, if◌then◌else◌, Bytes, same, same_refl, Bool-cases, inl, inr, All,
}
use dsh_fleet.Base.Dict.{Dict, find, put, delete, find-delete}

-- a < b on strings
unfoldable pub less : Bytes → Bytes → Bool
less [] [] = false
less [] (_ ∷ _) = true
less (_ ∷ _) [] = false
less (a ∷ as') (b ∷ bs) = ltb a b || (a == b) && less as' bs

unfoldable pub insert : Bytes → List Bytes → List Bytes
insert k [] = k ∷ []
insert k (j ∷ js) = if less k j then k ∷ j ∷ js else j ∷ insert k js

unfoldable pub sort_strings : List Bytes → List Bytes
unfolding insert less
sort_strings [] = []
sort_strings (k ∷ ks) = insert k (sort_strings ks)

unfoldable pub keys {ℓ} : {V : Type ℓ} → Dict V → List Bytes
keys [] = []
keys ((k, v) ∷ m) = k ∷ keys m

-- slices.Contains
unfoldable pub contains : Bytes → List Bytes → Bool
contains k [] = false
contains k (j ∷ js) = same j k || contains k js

-- Each string is below the next: sorted, with no string twice.
abbrev pub Ascending : List Bytes → Type 0
Ascending [] = Unit
Ascending (k ∷ ks) = All (λ j. less k j ≡ true) ks × Ascending ks

-- Go's maps have one entry per key.
abbrev pub Distinct : {V : Type 0} → Dict V → Type 0
Distinct [] = Unit
Distinct ((k, v) ∷ m) = (find k m ≡ none) × Distinct m

-- The same of a list of strings.
abbrev pub Unrepeated : List Bytes → Type 0
Unrepeated [] = Unit
Unrepeated (k ∷ ks) = (contains k ks ≡ false) × Unrepeated ks

abbrev pub present {ℓ} : {V : Type ℓ} → Option V → Bool
present none = false
present (some v) = true

pub less_trans : (a b c : Bytes) → less a b ≡ true → less b c ≡ true → less a c ≡ true
unfolding less
less_trans [] [] [] h k = h
less_trans [] (y ∷ b) [] h k = k
less_trans [] b (z ∷ c) h k = refl
less_trans (x ∷ a) [] c h k = ground arith
less_trans (x ∷ a) (y ∷ b) [] h k = ground arith
less_trans (x ∷ a) (y ∷ b) (z ∷ c) h k = ground (arith, less_trans a b c)

-- Two strings are ordered one way or the other, or they are the same.
less-total : (a b : Bytes) → less a b ≡ false → same b a ≡ false → less b a ≡ true
unfolding less
less-total [] [] h k = ground arith
less-total [] (y ∷ b) h k = ground arith
less-total (x ∷ a) [] h k = refl
less-total (x ∷ a) (y ∷ b) h k = ground (arith, less-total a b)

contains-insert :
    (k j : Bytes) (ks : List Bytes) → contains j (insert k ks) ≡ (same k j || contains j ks)
unfolding contains insert
contains-insert k j [] = refl
contains-insert k j (i ∷ ks) = ground (arith, contains-insert k j ks)

pub contains-sort : (j : Bytes) (ks : List Bytes) → contains j (sort_strings ks) ≡ contains j ks
unfolding sort_strings contains
contains-sort j [] = refl
contains-sort j (k ∷ ks) = ground (arith, contains-insert k j (sort_strings ks), contains-sort j ks)

pub insert-All :
    (P : Bytes → Type 0) (k : Bytes) (ks : List Bytes) → P k → All P ks → All P (insert k ks)
unfolding insert
insert-All P k [] p h = (p, tt)
insert-All P k (j ∷ ks) p h = elim (Bool-cases (less k j)) [
  | inl e ↦ rw e (p, h)
  | inr e ↦ rw e (h.0, insert-All P k ks p h.1)
]

All-weaken :
    (k j : Bytes) (ks : List Bytes)
    → less k j ≡ true
    → All (λ i. less j i ≡ true) ks
    → All (λ i. less k i ≡ true) ks
All-weaken k j [] h a = tt
All-weaken k j (i ∷ ks) h a = (less_trans k j i h a.0, All-weaken k j ks h a.1)

insert-Ascending :
    (k : Bytes) (ks : List Bytes) → contains k ks ≡ false → Ascending ks → Ascending (insert k ks)
unfolding insert contains
insert-Ascending k [] n h = (tt, tt)
insert-Ascending k (j ∷ ks) n h = elim (Bool-cases (less k j)) [
  | inl e ↦ rw e ((e, All-weaken k j ks e h.0), h)
  | inr e ↦ rw e (
    insert-All (λ i. less j i ≡ true) k ks (less-total k j e (ground arith)) h.0,
    insert-Ascending k ks (ground arith) h.1,
  )
]

pub sort-Ascending : (m : List Bytes) → Unrepeated m → Ascending (sort_strings m)
unfolding sort_strings
sort-Ascending [] h = tt
sort-Ascending (k ∷ ks) h =
    insert-Ascending k (sort_strings ks) (contains-sort k ks ∙ h.0) (sort-Ascending ks h.1)

pub contains-keys : {V : Type 0} (k : Bytes) (m : Dict V) → contains k (keys m) ≡ present (find k m)
unfolding contains keys find
contains-keys k [] = refl
contains-keys k ((j, v) ∷ m) = ground (arith, contains-keys k m)

keys-Unrepeated : {V : Type 0} (m : Dict V) → Distinct m → Unrepeated (keys m)
unfolding keys
keys-Unrepeated [] d = tt
keys-Unrepeated ((k, v) ∷ m) d = (contains-keys k m ∙ ap present d.0, keys-Unrepeated m d.1)

-- The listed keys ascend, and they are those at which the map has a value.
pub sort-keys :
    {V : Type 0} (m : Dict V)
    → Distinct m
    → Ascending (sort_strings (keys m))
      × ((k : Bytes) → contains k (sort_strings (keys m)) ≡ present (find k m))
sort-keys m d = (
  sort-Ascending (keys m) (keys-Unrepeated m d),
  λ k. contains-sort k (keys m) ∙ contains-keys k m,
)

pub delete-Distinct : {V : Type 0} (k : Bytes) (m : Dict V) → Distinct m → Distinct (delete k m)
unfolding delete
delete-Distinct k [] d = tt
delete-Distinct k ((j, v) ∷ m) d = elim (Bool-cases (same j k)) [
  | inl e ↦ rw e (delete-Distinct k m d.1)
  | inr e ↦ rw e (ground (arith, find-delete k j m, d.0), delete-Distinct k m d.1)
]

pub put-Distinct : {V : Type 0} (k : Bytes) (v : V) (m : Dict V) → Distinct m → Distinct (put k v m)
unfolding put
put-Distinct k v m d = (ground (arith, find-delete k k m, same_refl k), delete-Distinct k m d)

pub ruleset distinct_laws = (delete-Distinct, put-Distinct)

-- ===== src/Audit/Trail/Laws.antt =====
-- What Recent of internal/audit/query.go reads.
use dsh_fleet.Base.{
  ℕ, zero, suc, ◌≤◌, ◌≡◌, refl, ap, ◌∙◌, Bool, true, false, not, ◌||◌, List, [], ◌∷◌, ◌++◌, Option,
  none, some, arith, if◌then◌else◌, if-cases, Bool-cases, ◌⊎◌, ◌↔◌, inl, inr, Bytes, same, same_iff,
  map, length, All,
}
use dsh_fleet.Base.Result.{ok, ℤ, pos, negsuc}
use mathlib.Core.List.{Perm}
use mathlib.Core.List.Perm
use dsh_fleet.Users.{User}
use dsh_fleet.Audit.Trail.{
  Logged, Filter, joined, equals, matches, row_limit, newer, insert_row, selected, take, decision,
  recent,
}

-- Each row is at least as new as those after it.
abbrev pub NewestFirst : List Logged → Type 0
NewestFirst [] = Unit
NewestFirst (a ∷ as') = All (λ b. newer a b ≡ true) as' × NewestFirst as'

newer_trans : (a b c : Logged) → newer a b ≡ true → newer b c ≡ true → newer a c ≡ true
newer_trans a b c h k = ground arith

newer_total : (a b : Logged) → newer a b ≡ false → newer b a ≡ true
newer_total a b h = ground arith

All-insert :
    (P : Logged → Type 0) (a : Logged) (as' : List Logged)
    → P a
    → All P as'
    → All P (insert_row a as')
unfolding insert_row
All-insert P a [] p h = (p, tt)
All-insert P a (b ∷ bs) p h =
    if-cases (All P) (newer a b) _ _ (λ t. (p, h)) λ f. (h.0, All-insert P a bs p h.1)

older :
    (a b : Logged) (bs : List Logged)
    → newer a b ≡ true
    → All (λ c. newer b c ≡ true) bs
    → All (λ c. newer a c ≡ true) bs
older a b [] h k = tt
older a b (c ∷ bs) h k = (newer_trans a b c h k.0, older a b bs h k.1)

insert-NewestFirst :
    (a : Logged) (as' : List Logged) → NewestFirst as' → NewestFirst (insert_row a as')
unfolding insert_row
insert-NewestFirst a [] h = (tt, tt)
insert-NewestFirst a (b ∷ bs) h =
    if-cases NewestFirst (newer a b) _ _ (λ t. ((t, older a b bs t h.0), h))
      λ f. (
        All-insert (λ c. newer b c ≡ true) a bs (newer_total a b f) h.0,
        insert-NewestFirst a bs h.1,
      )

selected-NewestFirst : (p : Logged → Bool) (rows : List Logged) → NewestFirst (selected p rows)
unfolding selected
selected-NewestFirst p [] = tt
selected-NewestFirst p (a ∷ rows) =
    if-cases NewestFirst (p a) _ _ (λ t. insert-NewestFirst a _ (selected-NewestFirst p rows))
      λ f. selected-NewestFirst p rows

insert-perm : (a : Logged) (as' : List Logged) → Perm (insert_row a as') (a ∷ as')
unfolding insert_row
insert-perm a [] = Perm.rfl
insert-perm a (b ∷ bs) =
    if-cases (λ l. Perm l (a ∷ b ∷ bs)) (newer a b) _ _ (λ t. Perm.rfl)
      λ f. Perm.trans (Perm.cons b (insert-perm a bs)) (Perm.swap a b bs)

-- The rows that meet the filter, in the table's order.
abbrev pub meeting : (Logged → Bool) → List Logged → List Logged
meeting p [] = []
meeting p (a ∷ as') = if p a then a ∷ meeting p as' else meeting p as'

selected-perm : (p : Logged → Bool) (rows : List Logged) → Perm (selected p rows) (meeting p rows)
unfolding selected
selected-perm p [] = Perm.rfl
selected-perm p (a ∷ rows) = elim (Bool-cases (p a)) [
  | inl t ↦ rw t (Perm.trans (insert-perm a (selected p rows)) (Perm.cons a (selected-perm p rows)))
  | inr f ↦ rw f (selected-perm p rows)
]

drop : ℕ → List Logged → List Logged
drop zero xs = xs
drop (suc n) [] = []
drop (suc n) (x ∷ xs) = drop n xs

take-drop : (n : ℕ) (xs : List Logged) → take n xs ++ drop n xs ≡ xs
unfolding take drop
take-drop zero xs = refl
take-drop (suc n) [] = refl
take-drop (suc n) (x ∷ xs) = ap (◌∷◌ x) (take-drop n xs)

length-take : (n : ℕ) (xs : List Logged) → length (take n xs) ≤ n
unfolding take
length-take zero xs = omega arith
length-take (suc n) [] = omega arith
length-take (suc n) (x ∷ xs) = omega (arith, length-take n xs)

limit_range : (l : ℤ) → (1 ≤ row_limit l) × (row_limit l ≤ 1000)
unfolding row_limit
limit_range (pos n) = ground arith
limit_range (negsuc n) = omega arith

-- What the filter asks for, written without its tests.
pub record Wanted (lower : Bytes → Bytes) (us : List User) (f : Filter) (a : Logged) : Type 0 where
  pub of_node : (f.node ≡ []) ⊎ (a.node_id ≡ some f.node)
  pub of_user :
      (f.user ≡ [])
      ⊎ ((name : Bytes) × (joined us a.user_id ≡ some name) × (lower name ≡ lower f.user))
  pub of_outcome : (f.denied_only ≡ false) ⊎ (a.allowed ≡ false)

node_wanted :
    (f : Bytes → Bytes) (v : Bytes) (c : Option Bytes)
    → (same v [] || equals f c v) ≡ true
    → (v ≡ []) ⊎ ((d : Bytes) × (c ≡ some d) × (f d ≡ f v))
node_wanted f v none h = inl (ground (arith, same_iff v []))
node_wanted f v (some d) h = elim (Bool-cases (same v [])) [
  | inl e ↦ inl (ground (arith, same_iff v []))
  | inr e ↦ inr (d, refl, ground (arith, same_iff (f d) (f v)))
]

wanted_node :
    (f : Bytes → Bytes) (v : Bytes) (c : Option Bytes)
    → (v ≡ []) ⊎ ((d : Bytes) × (c ≡ some d) × (f d ≡ f v))
    → (same v [] || equals f c v) ≡ true
wanted_node f v none (inl e) = ground (arith, same_iff v [])
wanted_node f v (some d) (inl e) = ground (arith, same_iff v [])
wanted_node f v c (inr (d, e, q)) = rw e (ground (arith, same_iff (f d) (f v)))

named :
    (v : Bytes) (c : Option Bytes)
    → ((v ≡ []) ⊎ ((d : Bytes) × (c ≡ some d) × (d ≡ v))) ↔ ((v ≡ []) ⊎ (c ≡ some v))
named v c = (there, back)
  where
    there : (v ≡ []) ⊎ ((d : Bytes) × (c ≡ some d) × (d ≡ v)) → (v ≡ []) ⊎ (c ≡ some v)
    there (inl e) = inl e
    there (inr (d, e, q)) = inr (e ∙ ap some q)

    back : (v ≡ []) ⊎ (c ≡ some v) → (v ≡ []) ⊎ ((d : Bytes) × (c ≡ some d) × (d ≡ v))
    back (inl e) = inl e
    back (inr e) = inr (v, e, refl)

matches_iff :
    (lower : Bytes → Bytes) (us : List User) (f : Filter) (a : Logged)
    → (matches lower us f a ≡ true) ↔ Wanted lower us f a
unfolding matches
matches_iff lower us f a = (
  λ h. record {
    of_node = (named f.node a.node_id).0 (node_wanted (λ s. s) f.node a.node_id (ground arith));
    of_user = node_wanted lower f.user (joined us a.user_id) (ground arith);
    of_outcome = ground arith;
  },
  λ w.
      let n = wanted_node (λ s. s) f.node a.node_id ((named f.node a.node_id).1 w.of_node) in
      let u = wanted_node lower f.user (joined us a.user_id) w.of_user in
      rw (n, u) (outcome f.denied_only a.allowed w.of_outcome),
)
  where
    outcome : (d b : Bool) → (d ≡ false) ⊎ (b ≡ false) → (not d || not b) ≡ true
    outcome d b h = ground arith

-- What was read of the table, and what the limit left behind.
pub record Read (p : Logged → Bool) (limit : ℕ) (rows shown hidden : List Logged) : Type 0 where
  pub complete : Perm (shown ++ hidden) (meeting p rows)
  pub newest_first : NewestFirst (shown ++ hidden)
  pub short : length shown ≤ limit
  pub full : length shown ≡ limit ⊎ (hidden ≡ [])

length-full : (n : ℕ) (xs : List Logged) → (length (take n xs) ≡ n) ⊎ (drop n xs ≡ [])
unfolding take drop
length-full zero xs = inl refl
length-full (suc n) [] = inr refl
length-full (suc n) (x ∷ xs) = ground (arith, length-full n xs)

-- When the database answers, Recent gives the columns of the newest rows that meet the filter, newest
-- first: those shown and those left out are together all rows that meet it, each once, in that order;
-- at most the limit are shown, and fewer only if none is left out. The limit is from 1 to 1000. A row
-- meets the filter exactly if it is of the node, of an account whose name lowers as that of the filter,
-- and a refusal, as far as the filter asks for these.
pub recent-Read :
    (lower : Bytes → Bytes) (us : List User) (rows : List Logged) (f : Filter)
    → (shown : List Logged) × (hidden : List Logged) × (recent lower true us rows f
        ≡ ok (map (decision us) shown))
      × Read (matches lower us f) (row_limit f.limit) rows shown hidden
      × (1 ≤ row_limit f.limit)
      × (row_limit f.limit ≤ 1000)
      × ((a : Logged) → (matches lower us f a ≡ true) ↔ Wanted lower us f a)
unfolding recent
recent-Read lower us rows f =
    let p = matches lower us f in
    let n = row_limit f.limit in
    let all = selected p rows in
    (
      take n all,
      drop n all,
      refl,
      record {
        complete = rw (take-drop n all) (selected-perm p rows);
        newest_first = rw (take-drop n all) (selected-NewestFirst p rows);
        short = length-take n all;
        full = length-full n all;
      },
      (limit_range f.limit).0,
      (limit_range f.limit).1,
      matches_iff lower us f,
    )

-- ===== src/Audit/Sublists.antt =====
-- Lists with items left out, for what internal/audit/audit.go keeps of what it is given.
use dsh_fleet.Base.{◌≡◌, refl, List, [], ◌∷◌, ◌++◌, ◌⊎◌, inl, inr}

-- The first list is the second with items left out.
abbrev pub Subsequence : {A : Type 0} → List A → List A → Type 0
Subsequence [] ys = Unit
Subsequence (x ∷ xs) [] = ⊥
Subsequence (x ∷ xs) (y ∷ ys) = ((x ≡ y) × Subsequence xs ys) ⊎ Subsequence (x ∷ xs) ys

module _ {A : Type 0} where
  skip : (xs : List A) (y : A) (ys : List A) → Subsequence xs ys → Subsequence xs (y ∷ ys)
  skip [] y ys s = tt
  skip (x ∷ xs) y ys s = inr s

  pub skip_end : (xs ys : List A) (z : A) → Subsequence xs ys → Subsequence xs (ys ++ z ∷ [])
  skip_end [] ys z s = tt
  skip_end (x ∷ xs) [] z s = absurd s
  skip_end (x ∷ xs) (y ∷ ys) z (inl (e, s)) = inl (e, skip_end xs ys z s)
  skip_end (x ∷ xs) (y ∷ ys) z (inr s) = inr (skip_end (x ∷ xs) ys z s)

  pub keep_end :
      (xs ys : List A) (z : A) → Subsequence xs ys → Subsequence (xs ++ z ∷ []) (ys ++ z ∷ [])
  keep_end [] [] z s = inl (refl, tt)
  keep_end [] (y ∷ ys) z s = inr (keep_end [] ys z tt)
  keep_end (x ∷ xs) [] z s = absurd s
  keep_end (x ∷ xs) (y ∷ ys) z (inl (e, s)) = inl (e, keep_end xs ys z s)
  keep_end (x ∷ xs) (y ∷ ys) z (inr s) = inr (keep_end (x ∷ xs) ys z s)

  tail_of : (x : A) (xs ys : List A) → Subsequence (x ∷ xs) ys → Subsequence xs ys
  tail_of x xs [] s = absurd s
  tail_of x xs (y ∷ ys) (inl (e, s)) = skip xs y ys s
  tail_of x xs (y ∷ ys) (inr s) = skip xs y ys (tail_of x xs ys s)

  pub without :
      (a : List A) (x : A) (b ys : List A) → Subsequence (a ++ x ∷ b) ys → Subsequence (a ++ b) ys
  without [] x b ys s = tail_of x b ys s
  without (z ∷ a) x b [] s = absurd s
  without (z ∷ a) x b (y ∷ ys) (inl (e, s)) = inl (e, without a x b ys s)
  without (z ∷ a) x b (y ∷ ys) (inr s) = inr (without (z ∷ a) x b ys s)

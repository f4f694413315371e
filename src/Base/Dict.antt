-- ===== src/Base/Dict.antt =====
-- A Go map with string keys, as an association list with one entry per key.
use mathlib.Core.Path.{◌≡◌}
use mathlib.Core.Logic.{◌≢◌}
use mathlib.Core.Option.{Option, none, some}
use mathlib.Core.List.{List, [], ◌∷◌}
use native.Mathlib.Omega.{arith}
use dsh_fleet.Base.Tests.{if◌then◌else◌}
use dsh_fleet.Base.Text.{Bytes, same, same_iff, same_refl}

abbrev pub Dict {ℓ} : Type ℓ → Type ℓ
Dict V = List (Bytes × V)

module _ {ℓ} {V : Type ℓ} where
  -- m[k], with the second result of the comma-ok form
  unfoldable pub find : Bytes → Dict V → Option V
  find k [] = none
  find k ((j, v) ∷ m) = if same j k then some v else find k m

  -- delete(m, k)
  unfoldable pub delete : Bytes → Dict V → Dict V
  delete k [] = []
  delete k ((j, v) ∷ m) = let rest = delete k m in if same j k then rest else (j, v) ∷ rest

  -- m[k] = v
  unfoldable pub put : Bytes → V → Dict V → Dict V
  unfolding delete
  put k v m = (k, v) ∷ delete k m

  pub find-delete :
      (k j : Bytes) (m : Dict V) → find j (delete k m) ≡ (if same k j then none else find j m)
  unfolding find delete
  find-delete k j [] = ground arith
  find-delete k j ((i, v) ∷ m) =
      ground (arith, find-delete k j m, same_iff i k, same_iff i j, same_iff k j)

  pub find-put :
      (k j : Bytes) (v : V) (m : Dict V)
      → find j (put k v m) ≡ (if same k j then some v else find j m)
  unfolding find put
  find-put k j v m = ground (arith, find-delete k j m)

module _ {ℓ} {V : Type ℓ} where
  pub find-put_self : (k : Bytes) (v : V) (m : Dict V) → find k (put k v m) ≡ some v
  find-put_self k v m = ground (arith, find-put k k v m, same_refl k)

  pub find-put_ne : (k j : Bytes) (v : V) (m : Dict V) → j ≢ k → find j (put k v m) ≡ find j m
  find-put_ne k j v m n = ground (arith, find-put k j v m, same_iff k j)

pub ruleset dict_laws = (find-delete, find-put)

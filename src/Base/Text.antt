-- ===== src/Base/Text.antt =====
-- Go strings as lists of bytes. `codes` gives the bytes of an ASCII literal.
use Prim.Native.Nat.{ℕ}
use Prim.Native.Char.{code}
use Prim.Native.String.{String}
use mathlib.Core.Path.{◌≡◌, refl}
use mathlib.Core.Logic.{◌↔◌}
use mathlib.Core.Bool.{Bool, true, false, ◌&&◌}
use mathlib.Core.List.{List, [], ◌∷◌}
use native.Mathlib.Omega.{arith}
use dsh_fleet.Base.Tests.{◌==◌}

abbrev pub Bytes : Type 0
Bytes = List ℕ

abbrev pub codes : String → Bytes
codes String.[] = []
codes (String.◌∷◌ c s) = code c ∷ codes s

-- a == b on strings
abbrev pub same : Bytes → Bytes → Bool
same [] [] = true
same [] (_ ∷ _) = false
same (_ ∷ _) [] = false
same (a ∷ as') (b ∷ bs) = (a == b) && same as' bs

pub same→eq : (a b : Bytes) → same a b ≡ true → a ≡ b
same→eq [] [] h = refl
same→eq [] (b ∷ bs) h = ground arith
same→eq (a ∷ as') [] h = ground arith
same→eq (a ∷ as') (b ∷ bs) h = ground (arith, same→eq as' bs)

pub same_refl : (a : Bytes) → same a a ≡ true
same_refl [] = refl
same_refl (a ∷ as') = ground (arith, same_refl as')

pub same_iff : (a b : Bytes) → (same a b ≡ true) ↔ (a ≡ b)
same_iff a b = (same→eq a b, λ e. ground (arith, same_refl a))

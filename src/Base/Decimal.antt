-- ===== src/Base/Decimal.antt =====
-- fmt's %d on an unsigned number, and that it is injective.
use Prim.Native.Nat.{ℕ, zero, suc, ◌+◌, ◌-◌, ◌*◌, ◌/◌, ◌%◌, ◌≤◌}
use mathlib.Core.Path.{◌≡◌, ap, ◌∙◌}
use mathlib.Core.List.{[], ◌∷◌}
use native.Mathlib.Omega.{arith}
use mathlib.Core.Logic.{inl, inr}
use dsh_fleet.Base.Tests.{◌==◌, Bool-cases, if◌then◌else◌}
use dsh_fleet.Base.Text.{Bytes}

-- Digits of `n` in front of `acc`, the least significant first; `n` rounds are enough.
unfoldable pub digits_onto : ℕ → ℕ → Bytes → Bytes
digits_onto zero n acc = acc
digits_onto (suc f) n acc =
    let rest = digits_onto f (n / 10) ((b'0' + n % 10) ∷ acc) in if n == 0 then acc else rest

unfoldable pub decimal : ℕ → Bytes
unfolding digits_onto
decimal n = if n == 0 then b'0' ∷ [] else digits_onto n n []

unfoldable pub value_from : ℕ → Bytes → ℕ
value_from v [] = v
value_from v (c ∷ cs) = value_from (v * 10 + (c - b'0')) cs

pub value_from-digits_onto :
    (f n : ℕ) (acc : Bytes) → n ≤ f → value_from 0 (digits_onto f n acc) ≡ value_from n acc
unfolding digits_onto value_from
value_from-digits_onto zero n acc h = ap (λ (k : ℕ). value_from k acc) (omega arith)
value_from-digits_onto (suc f) n acc h = elim (Bool-cases (n == 0)) [
  | inl done ↦ rw done (ap (λ (k : ℕ). value_from k acc) (ground arith))
  | inr more ↦ rw more (
      value_from-digits_onto f (n / 10) ((b'0' + n % 10) ∷ acc) (ground arith)
      ∙ ap (λ (k : ℕ). value_from k acc) (ground arith))
]

pub value_from-decimal : (n : ℕ) → value_from 0 (decimal n) ≡ n
unfolding decimal value_from
value_from-decimal n = ground (arith, value_from-digits_onto n n [])

pub decimal-injective : (a b : ℕ) → decimal a ≡ decimal b → a ≡ b
decimal-injective a b e = cc (value_from-decimal a, value_from-decimal b)

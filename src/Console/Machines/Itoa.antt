-- ===== src/Console/Machines/Itoa.antt =====
-- That itoa of internal/console/nodes.go writes an int as strconv.Itoa does, the least one aside.
use dsh_fleet.Base.{
  ℕ, zero, suc, ◌+◌, ◌-◌, ◌*◌, ◌/◌, ◌%◌, ◌≤◌, ◌<◌, ◌≡◌, refl, ap, sym, ◌∙◌, true, false, [], ◌∷◌,
  Option, some, arith, ◌==◌, ==_iff, Bool-cases, inl, inr, Bytes,
}
use dsh_fleet.Base.Decimal.{digits_onto, decimal}
use dsh_fleet.Base.Result.{ℤ, pos, negsuc}
use dsh_fleet.Console.Machines.{int_limit, put_digits, with_sign, itoa}

-- strconv.Itoa
abbrev pub decimal_int : ℤ → Bytes
decimal_int (pos n) = decimal n
decimal_int (negsuc n) = b'-' ∷ decimal (n + 1)

-- What an int holds, without the least one.
abbrev pub HasNegative : ℤ → Type 0
HasNegative (pos n) = n < int_limit
HasNegative (negsuc n) = n + 1 < int_limit

abbrev power : ℕ → ℕ
power zero = 1
power (suc m) = 10 * power m

no_digits :
    (i f n : ℕ) (acc : Bytes)
    → n ≡ 0
    → (put_digits i n acc ≡ some (i, acc)) × (digits_onto f n acc ≡ acc)
unfolding put_digits digits_onto
no_digits zero zero n acc e = (ground arith, refl)
no_digits zero (suc f) n acc e = (ground arith, ground arith)
no_digits (suc i) zero n acc e = (ground arith, refl)
no_digits (suc i) (suc f) n acc e = (ground arith, ground arith)

Written : ℕ → ℕ → ℕ → ℕ → Bytes → Type 0
Written m i f n acc = (j : ℕ) × (i ≤ j + m) × (put_digits i n acc ≡ some (j, digits_onto f n acc))

blank : (m i f n : ℕ) (acc : Bytes) → n ≡ 0 → Written m i f n acc
unfolding Written
blank m i f n acc e =
    let (p, d) = no_digits i f n acc e in
    (i, omega arith, p ∙ ap (λ (s : Bytes). some (i, s)) (sym d))

-- `m` bytes are enough for a number of `m` digits, and `f` rounds for its value.
put_digits-Written : (m i f n : ℕ) (acc : Bytes) → n < power m → m ≤ i → n ≤ f → Written m i f n acc
unfolding put_digits digits_onto Written
put_digits-Written zero i f n acc h k l = blank zero i f n acc (omega (arith, h))
put_digits-Written (suc m) zero f n acc h k l = absurd (omega (arith, k))
put_digits-Written (suc m) (suc i) zero n acc h k l =
    blank (suc m) (suc i) zero n acc (omega (arith, l))
put_digits-Written (suc m) (suc i) (suc f) n acc h k l = elim (Bool-cases (n == 0)) [
  | inl z ↦ blank (suc m) (suc i) (suc f) n acc ((==_iff n 0).0 z)
  | inr more ↦
      let (j, room, e) =
        put_digits-Written m i f (n / 10) ((b'0' + n % 10) ∷ acc) (omega (arith, h)) (omega arith)
          (ground (arith, l)) in
      (j, omega (arith, room), rw (more, put_digits, digits_onto) e)
]

nonzero : (n : ℕ) → (n == 0) ≡ false → decimal n ≡ digits_onto n n []
unfolding decimal
nonzero n e = rw e refl

-- The loop of itoa on a number above zero that an int holds.
buffer_enough :
    (m : ℕ)
    → (m == 0) ≡ false
    → m < int_limit
    → (j : ℕ) × (1 ≤ j) × (put_digits 20 m [] ≡ some (j, decimal m))
unfolding Written
buffer_enough m p h =
    let (j, room, e) =
      put_digits-Written 19 20 m m [] (omega (arith, h)) (omega arith) (omega arith) in
    (j, omega (arith, room), e ∙ ap (λ (s : Bytes). some (j, s)) (sym (nonzero m p)))

signed :
    (j : ℕ) (s : Bytes) (o : Option (ℕ × Bytes))
    → 1 ≤ j
    → o ≡ some (j, s)
    → with_sign true o ≡ some (b'-' ∷ s)
signed zero s o h e = absurd (omega (arith, h))
signed (suc j) s o h e = rw e refl

zero_lem : itoa (pos 0) ≡ some (decimal 0)
unfolding itoa decimal
zero_lem = refl

-- Every int but the least is written as its decimal digits, after a minus sign if it is below zero, and
-- without an index out of range. The least is written as the sign alone.
pub itoa-decimal_int :
    ((z : ℤ) → HasNegative z → itoa z ≡ some (decimal_int z))
    × (itoa (negsuc (int_limit - 1)) ≡ some (b'-' ∷ []))
unfolding itoa
itoa-decimal_int = (each, unfold put_digits in refl)
  where
    each : (z : ℤ) → HasNegative z → itoa z ≡ some (decimal_int z)
    each (pos n) h = elim (Bool-cases (n == 0)) [
      | inl z ↦ rw ((==_iff n 0).0 z) zero_lem
      | inr more ↦ let (j, room, e) = buffer_enough n more h in rw (more, e) refl
    ]
    each (negsuc n) h =
        let same_size : (n + 1 == int_limit) ≡ false = ground arith in
        let (j, room, e) = buffer_enough (n + 1) (ground arith) h in
        rw same_size (signed j (decimal (n + 1)) (put_digits 20 (n + 1) []) room e)

-- ===== src/Secret/Scan.antt =====
-- What internal/auth/secret.go uses of strings.Split and fmt.Sscanf.
use dsh_fleet.Base.{
  ℕ, ◌+◌, ◌-◌, ◌^◌, Bool, false, ◌&&◌, ◌||◌, List, [], ◌∷◌, ◌++◌, Option, none, some, ltb, leb,
  ◌==◌, if◌then◌else◌, Bytes, length, ◌≡◌, refl, arith,
}
use dsh_fleet.Base.Decimal.{value_from}
use dsh_fleet.Base.Result.{ℤ, pos, negsuc}
use dsh_fleet.Strings.{trim_left, has}

abbrev onto_first : ℕ → List Bytes → List Bytes
onto_first a [] = (a ∷ []) ∷ []
onto_first a (s ∷ ss) = (a ∷ s) ∷ ss

-- strings.Split at one byte
unfoldable pub split : ℕ → Bytes → List Bytes
split sep [] = [] ∷ []
split sep (a ∷ s) = let rest = split sep s in if a == sep then [] ∷ rest else onto_first a rest

-- The digits at the start, and what follows them.
unfoldable pub span_digits : Bytes → Bytes × Bytes
span_digits [] = ([], [])
span_digits (a ∷ s) =
    let (ds, rest) = span_digits s in
    if leb b'0' a && leb a b'9' then (a ∷ ds, rest) else ([], a ∷ s)

abbrev pub has_newline : ℕ → Bytes → Bool
has_newline n [] = false
has_newline n (a ∷ s) = ltb n (length (a ∷ s)) && (a == 10 || has_newline n s)

-- SkipSpace, which takes no line break
unfoldable pub skip_space : Bytes → Option Bytes
unfolding trim_left
skip_space s = let t = trim_left s in if has_newline (length t) s then none else some t

abbrev pub sized : ℕ → Bytes × Bytes → Option (ℕ × Bytes)
sized bound ([], rest) = none
sized bound (d ∷ ds, rest) =
    let v = value_from 0 (d ∷ ds) in if ltb v bound then some (v, rest) else none

-- %d into an unsigned number below `bound`
unfoldable pub scan_uint : ℕ → Bytes → Option (ℕ × Bytes)
unfolding skip_space span_digits value_from
scan_uint bound s = elim (skip_space s) [ none ↦ none | some t ↦ sized bound (span_digits t) ]

abbrev pub negated : Option (ℕ × Bytes) → Option ℤ
negated none = none
negated (some (n, rest)) = if n == 0 then some (pos 0) else some (negsuc (n - 1))

abbrev pub plain : Option (ℕ × Bytes) → Option ℤ
plain none = none
plain (some (n, rest)) = some (pos n)

unfoldable pub after_sign : Bytes → Option ℤ
unfolding span_digits value_from
after_sign [] = none
after_sign (a ∷ s) =
    if a == b'-'
    then negated (sized (2 ^ 63 + 1) (span_digits s))
    else if a == b'+'
    then plain (sized (2 ^ 63) (span_digits s))
    else plain (sized (2 ^ 63) (span_digits (a ∷ s)))

-- %d into an int, at the end of a format
unfoldable pub scan_int : Bytes → Option ℤ
unfolding skip_space after_sign
scan_int s = elim (skip_space s) [ none ↦ none | some t ↦ after_sign t ]

pub split_whole : (sep : ℕ) (s : Bytes) → has sep s ≡ false → split sep s ≡ s ∷ []
unfolding split
split_whole sep [] h = refl
split_whole sep (a ∷ s) h = ground (arith, split_whole sep s)

pub split-append :
    (sep : ℕ) (s t : Bytes) → has sep s ≡ false → split sep (s ++ sep ∷ t) ≡ s ∷ split sep t
unfolding split
split-append sep [] t h = ground arith
split-append sep (a ∷ s) t h = ground (arith, split-append sep s t)

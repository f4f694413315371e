-- ===== src/Utf8.antt =====
-- unicode/utf8's Valid, by the table of well-formed byte sequences.
pub mod Runes
use dsh_fleet.Base.{
  ℕ, zero, suc, Bool, true, false, ◌&&◌, [], ◌∷◌, Option, none, some, ltb, leb, ◌==◌, if◌then◌else◌,
  Bytes, ◌≡◌, refl,
}

-- How many continuation bytes follow, and the range of the first of them.
pub record Tail : Type 0 where
  pub more : ℕ
  pub low : ℕ
  pub high : ℕ

abbrev tail_of : ℕ → ℕ → ℕ → Option Tail
tail_of more low high = some (record { more = more; low = low; high = high })

unfoldable pub lead : ℕ → Option Tail
lead c =
    if ltb c 0x80
    then tail_of 0 0x80 0xbf
    else if ltb c 0xc2
    then none
    else if ltb c 0xe0
    then tail_of 1 0x80 0xbf
    else if c == 0xe0
    then tail_of 2 0xa0 0xbf
    else if c == 0xed
    then tail_of 2 0x80 0x9f
    else if ltb c 0xf0
    then tail_of 2 0x80 0xbf
    else if c == 0xf0
    then tail_of 3 0x90 0xbf
    else if ltb c 0xf4
    then tail_of 3 0x80 0xbf
    else if c == 0xf4
    then tail_of 3 0x80 0x8f
    else none

unfoldable valid_from : ℕ → ℕ → ℕ → Bytes → Bool
valid_from zero low high [] = true
valid_from (suc n) low high [] = false
valid_from zero low high (c ∷ cs) = elim (lead c) [
  | none ↦ false
  | some t ↦ valid_from t.more t.low t.high cs
]
valid_from (suc n) low high (c ∷ cs) =
    let rest = valid_from n 0x80 0xbf cs in if leb low c && leb c high then rest else false

unfoldable pub valid : Bytes → Bool
unfolding valid_from lead
valid = valid_from 0 0 0

-- A two-byte letter is text, a lone continuation byte and a surrogate are not.
valid_samples :
    (valid (0x61 ∷ 0xc3 ∷ 0xa9 ∷ []) ≡ true)
    × (valid (0x80 ∷ []) ≡ false)
    × (valid (0xed ∷ 0xa0 ∷ 0x80 ∷ []) ≡ false)
unfolding valid
valid_samples = (refl, refl, refl)

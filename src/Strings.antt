-- ===== src/Strings.antt =====
-- What the code uses of Go's package strings, on strings as bytes. Where a result is only compared
-- with ASCII text, it is right as far as that text can tell.
use mathlib.Core.List
use dsh_fleet.Base.{
  ℕ, ◌+◌, Bool, true, false, ◌&&◌, ◌||◌, [], ◌∷◌, Option, none, some, leb, ◌==◌, if◌then◌else◌,
  Bytes, same,
}

-- strings.HasPrefix(s, p)
unfoldable pub has_prefix : Bytes → Bytes → Bool
has_prefix s [] = true
has_prefix [] (_ ∷ _) = false
has_prefix (a ∷ s) (b ∷ p) = (a == b) && has_prefix s p

-- strings.CutPrefix(s, p), when p is there
unfoldable pub cut_prefix : Bytes → Bytes → Option Bytes
cut_prefix s [] = some s
cut_prefix [] (_ ∷ _) = none
cut_prefix (a ∷ s) (b ∷ p) = if a == b then cut_prefix s p else none

-- strings.TrimPrefix
unfoldable pub trim_prefix : Bytes → Bytes → Bytes
unfolding cut_prefix
trim_prefix s p = elim (cut_prefix s p) [ none ↦ s | some rest ↦ rest ]

-- strings.HasSuffix(s, p)
unfoldable pub has_suffix : Bytes → Bytes → Bool
unfolding has_prefix
has_suffix s p = has_prefix (List.reverse s) (List.reverse p)

-- strings.TrimSuffix
unfoldable pub trim_suffix : Bytes → Bytes → Bytes
unfolding trim_prefix
trim_suffix s p = List.reverse (trim_prefix (List.reverse s) (List.reverse p))

-- strings.SplitN(s, sep, 2)[0] for a separator of one byte
unfoldable pub before : ℕ → Bytes → Bytes
before sep [] = []
before sep (a ∷ s) = if a == sep then [] else a ∷ before sep s

-- strings.Contains(s, p)
unfoldable pub contains : Bytes → Bytes → Bool
unfolding has_prefix
contains [] p = has_prefix [] p
contains (a ∷ s) p = has_prefix (a ∷ s) p || contains s p

-- strings.IndexByte(s, b) >= 0
abbrev pub has : ℕ → Bytes → Bool
has b [] = false
has b (a ∷ s) = a == b || has b s

abbrev pub lower_byte : ℕ → ℕ
lower_byte b = if leb b'A' b && leb b b'Z' then b + 32 else b

-- Every rune that a case mapping takes to an ASCII letter as that letter, every other byte as it is:
-- the mapping takes x y, the two bytes of a rune, to r, and the Kelvin sign to k.
unfoldable pub to_ascii : ℕ → ℕ → ℕ → Bytes → Bytes
to_ascii x y r [] = []
to_ascii x y r (a ∷ []) = lower_byte a ∷ []
to_ascii x y r (a ∷ b ∷ []) = elim (a == x && b == y) [
  | true ↦ r ∷ []
  | false ↦ lower_byte a ∷ to_ascii x y r (b ∷ [])
]
to_ascii x y r (a ∷ b ∷ c ∷ s) = elim (a == x && b == y) [
  | true ↦ r ∷ to_ascii x y r (c ∷ s)
  | false ↦ elim (a == 0xE2 && b == 0x84 && c == 0xAA) [
    | true ↦ b'k' ∷ to_ascii x y r s
    | false ↦ lower_byte a ∷ to_ascii x y r (b ∷ c ∷ s)
  ]
]

-- strings.ToLower, compared with ASCII: U+0130 lowers to i.
unfoldable pub to_lower : Bytes → Bytes
unfolding to_ascii
to_lower s = to_ascii 0xC4 0xB0 b'i' s

-- The letters of a string as strings.EqualFold sees them: U+017F folds to s.
unfoldable pub folded : Bytes → Bytes
unfolding to_ascii
folded s = to_ascii 0xC5 0xBF b's' s

-- strings.EqualFold(s, t) for a t of ASCII text in lower case
unfoldable pub equal_fold : Bytes → Bytes → Bool
unfolding folded
equal_fold s t = same (folded s) t

abbrev pub is_ascii_space : ℕ → Bool
is_ascii_space b = (leb 9 b && leb b 13) || b == 32

-- The second and third byte of a space rune that starts with 0xE1, 0xE2 or 0xE3.
abbrev is_wide_space : ℕ → ℕ → ℕ → Bool
is_wide_space a b c =
    (a == 0xE1 && b == 0x9A && c == 0x80)
    || (a == 0xE2
        && b == 0x80
        && ((leb 0x80 c && leb c 0x8A) || c == 0xA8 || c == 0xA9 || c == 0xAF))
    || (a == 0xE2 && b == 0x81 && c == 0x9F)
    || (a == 0xE3 && b == 0x80 && c == 0x80)

abbrev is_narrow_space : ℕ → ℕ → Bool
is_narrow_space a b = a == 0xC2 && (b == 0x85 || b == 0xA0)

-- strings.TrimLeftFunc(s, unicode.IsSpace)
unfoldable pub trim_left : Bytes → Bytes
trim_left [] = []
trim_left (a ∷ []) = if is_ascii_space a then [] else a ∷ []
trim_left (a ∷ b ∷ []) = elim (is_ascii_space a) [
  | true ↦ trim_left (b ∷ [])
  | false ↦ if is_narrow_space a b then [] else a ∷ b ∷ []
]
trim_left (a ∷ b ∷ c ∷ s) = elim (is_ascii_space a) [
  | true ↦ trim_left (b ∷ c ∷ s)
  | false ↦ elim (is_narrow_space a b) [
    | true ↦ trim_left (c ∷ s)
    | false ↦ elim (is_wide_space a b c) [ true ↦ trim_left s | false ↦ a ∷ b ∷ c ∷ s ]
  ]
]

-- The same at the other end, on the reversed string.
unfoldable pub trim_reversed : Bytes → Bytes
trim_reversed [] = []
trim_reversed (a ∷ []) = if is_ascii_space a then [] else a ∷ []
trim_reversed (b ∷ a ∷ []) = elim (is_ascii_space b) [
  | true ↦ trim_reversed (a ∷ [])
  | false ↦ if is_narrow_space a b then [] else b ∷ a ∷ []
]
trim_reversed (c ∷ b ∷ a ∷ s) = elim (is_ascii_space c) [
  | true ↦ trim_reversed (b ∷ a ∷ s)
  | false ↦ elim (is_narrow_space b c) [
    | true ↦ trim_reversed (a ∷ s)
    | false ↦ elim (is_wide_space a b c) [ true ↦ trim_reversed s | false ↦ c ∷ b ∷ a ∷ s ]
  ]
]

-- strings.TrimSpace
unfoldable pub trim_space : Bytes → Bytes
unfolding trim_left trim_reversed
trim_space s = List.reverse (trim_reversed (List.reverse (trim_left s)))

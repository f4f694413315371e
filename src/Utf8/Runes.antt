-- ===== src/Utf8/Runes.antt =====
-- unicode/utf8's DecodeRune and AppendRune, and bytes.ToLower over a table of lower-case runes.
use mathlib.Core.List.{map}
use dsh_fleet.Base.{
  ℕ, zero, suc, ◌+◌, ◌*◌, ◌/◌, ◌%◌, Bool, true, ◌&&◌, ◌||◌, [], ◌∷◌, ◌++◌, Option, none, some, ltb,
  leb, if◌then◌else◌, Bytes,
}
use dsh_fleet.Utf8.{lead}
use dsh_fleet.Strings.{lower_byte}

-- utf8.RuneError
abbrev pub rune_error : ℕ
rune_error = 0xFFFD

-- The continuation bytes, each with six bits of the rune.
unfoldable pub follows : ℕ → ℕ → ℕ → Bytes → ℕ → Option ℕ
follows zero low high cs r = some r
follows (suc n) low high [] r = none
follows (suc n) low high (c ∷ cs) r =
    let rest = follows n 0x80 0xbf cs (r * 64 + c % 64) in
    if leb low c && leb c high then rest else none

abbrev leading : ℕ → ℕ → ℕ
leading zero c = c
leading (suc zero) c = c % 32
leading (suc (suc zero)) c = c % 16
leading (suc (suc (suc n))) c = c % 8

-- DecodeRune: a rune, and the number of bytes after its first.
unfoldable pub decode_rune : ℕ → Bytes → ℕ × ℕ
unfolding follows lead
decode_rune c cs = elim (lead c) [
  | none ↦ (rune_error, 0)
  | some t ↦ elim (follows t.more t.low t.high cs (leading t.more c)) [
    | none ↦ (rune_error, 0)
    | some r ↦ (r, t.more)
  ]
]

-- AppendRune
unfoldable pub encode_rune : ℕ → Bytes
encode_rune r =
    if ltb r 0x80
    then r ∷ []
    else if ltb r 0x800
    then (0xC0 + r / 64) ∷ (0x80 + r % 64) ∷ []
    else if (leb 0xD800 r && leb r 0xDFFF) || ltb 0x10FFFF r
    then 0xEF ∷ 0xBF ∷ 0xBD ∷ []
    else if ltb r 0x10000
    then (0xE0 + r / 4096) ∷ (0x80 + r / 64 % 64) ∷ (0x80 + r % 64) ∷ []
    else (0xF0 + r / 262144) ∷ (0x80 + r / 4096 % 64) ∷ (0x80 + r / 64 % 64) ∷ (0x80 + r % 64) ∷ []

abbrev pub all_ascii : Bytes → Bool
all_ascii [] = true
all_ascii (c ∷ cs) = ltb c 0x80 && all_ascii cs

module _ (lower : ℕ → ℕ) where
  -- bytes.Map(lower, s), past the bytes that the rune before took
  unfoldable pub map_runes : ℕ → Bytes → Bytes
  unfolding decode_rune encode_rune
  map_runes n [] = []
  map_runes zero (c ∷ cs) = let d = decode_rune c cs in encode_rune (lower d.0) ++ map_runes d.1 cs
  map_runes (suc n) (c ∷ cs) = map_runes n cs

  -- bytes.ToLower(s), with unicode.ToLower as `lower`
  unfoldable pub bytes_to_lower : Bytes → Bytes
  unfolding map_runes
  bytes_to_lower s = if all_ascii s then map lower_byte s else map_runes 0 s

-- ===== src/Base64/Chars.antt =====
-- The 64 characters of each alphabet.
use dsh_fleet.Base.{
  ℕ, ◌+◌, ◌-◌, ◌<◌, ◌≡◌, false, ◌&&◌, ◌||◌, Option, none, some, arith, ltb, leb, ◌==◌,
  if◌then◌else◌,
}

pub data Alphabet : Type 0 where
  std url : Alphabet

unfoldable pub char_of : Alphabet → ℕ → ℕ
char_of std n =
    if ltb n 26
    then n + 65
    else if ltb n 52
    then n + 71
    else if ltb n 62
    then n - 4
    else if n == 62
    then 43
    else 47
char_of url n =
    if ltb n 26
    then n + 65
    else if ltb n 52
    then n + 71
    else if ltb n 62
    then n - 4
    else if n == 62
    then 45
    else 95

-- The decoding table of the standard alphabet.
unfoldable pub value_of : ℕ → Option ℕ
value_of c =
    if leb 65 c && leb c 90
    then some (c - 65)
    else if leb 97 c && leb c 122
    then some (c - 71)
    else if leb 48 c && leb c 57
    then some (c + 4)
    else if c == 43
    then some 62
    else if c == 47
    then some 63
    else none

pub value_of-char_of : (n : ℕ) → n < 64 → value_of (char_of std n) ≡ some n
unfolding value_of char_of
value_of-char_of n h = ground arith

-- No character of an alphabet is a line break, `$` or `=`.
pub char_of-ne_eq : (n : ℕ) → n < 64 → (char_of std n == b'=') ≡ false
unfolding char_of
char_of-ne_eq n h = ground arith

pub char_of-ne_break : (n : ℕ) → n < 64 → (char_of std n == 10 || char_of std n == 13) ≡ false
unfolding char_of
char_of-ne_break n h = ground arith

pub char_of-ne_dollar : (n : ℕ) → n < 64 → (char_of std n == b'$') ≡ false
unfolding char_of
char_of-ne_dollar n h = ground arith

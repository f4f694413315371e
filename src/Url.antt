-- ===== src/Url.antt =====
-- What the code uses of Go's package net/url, on strings as bytes.
use dsh_fleet.Base.{
  ℕ, ◌+◌, ◌-◌, ◌/◌, ◌%◌, Bool, ◌&&◌, ◌||◌, [], ◌∷◌, leb, ltb, ◌==◌, if◌then◌else◌, Bytes,
}

-- Letters, digits and the four marks that every part of a URL takes as they are.
abbrev pub is_unreserved : ℕ → Bool
is_unreserved b =
    (leb b'a' b && leb b b'z')
    || (leb b'A' b && leb b b'Z')
    || (leb b'0' b && leb b b'9')
    || b == b'-'
    || b == b'_'
    || b == b'.'
    || b == b'~'

-- upperhex
abbrev pub hex_digit : ℕ → ℕ
hex_digit n = if ltb n 10 then b'0' + n else b'A' + (n - 10)

-- url.QueryEscape
unfoldable pub query_escape : Bytes → Bytes
query_escape [] = []
query_escape (b ∷ s) =
    let rest = query_escape s in
    if is_unreserved b
    then b ∷ rest
    else if b == 32
    then b'+' ∷ rest
    else b'%' ∷ hex_digit (b / 16) ∷ hex_digit (b % 16) ∷ rest

-- ===== src/Base64.antt =====
-- encoding/base64 as pkg/envelope and internal/auth use it: StdEncoding, RawStdEncoding and
-- RawURLEncoding, with Go's lenient decoder (line breaks are skipped, unused low bits ignored).
pub mod Chars
pub mod Roundtrip
use dsh_fleet.Base.{
  ℕ, ◌+◌, ◌*◌, ◌/◌, ◌%◌, ◌||◌, List, [], ◌∷◌, ◌++◌, Option, none, some, ◌==◌, if◌then◌else◌, Bytes,
}
use dsh_fleet.Base64.Chars.{Alphabet, std, url, char_of, value_of}

pub record Encoding : Type 0 where
  pub alphabet : Alphabet
  pub padding : Bytes

abbrev pub std_encoding : Encoding
std_encoding = record { alphabet = std; padding = b'=' ∷ [] }

abbrev pub raw_std_encoding : Encoding
raw_std_encoding = record { alphabet = std; padding = [] }

abbrev pub raw_url_encoding : Encoding
raw_url_encoding = record { alphabet = url; padding = [] }

infixl 5 ◌>>=◌
abbrev pub ◌>>=◌ {ℓ κ} : {A : Type ℓ} {B : Type κ} → Option A → (A → Option B) → Option B
none >>= k = none
some a >>= k = k a

-- EncodeToString
unfoldable pub encode_to_string : Encoding → Bytes → Bytes
encode_to_string e [] = []
encode_to_string e (a ∷ []) =
    char_of e.alphabet (a / 4) ∷ char_of e.alphabet (a % 4 * 16) ∷ e.padding ++ e.padding
encode_to_string e (a ∷ b ∷ []) =
    char_of e.alphabet (a / 4)
    ∷ char_of e.alphabet (a % 4 * 16 + b / 16)
    ∷ char_of e.alphabet (b % 16 * 4)
    ∷ e.padding
encode_to_string e (a ∷ b ∷ c ∷ rest) =
    char_of e.alphabet (a / 4)
    ∷ char_of e.alphabet (a % 4 * 16 + b / 16)
    ∷ char_of e.alphabet (b % 16 * 4 + c / 64)
    ∷ char_of e.alphabet (c % 64)
    ∷ encode_to_string e rest

-- The decoder skips CR and LF wherever they stand.
unfoldable pub skip_breaks : Bytes → Bytes
skip_breaks [] = []
skip_breaks (c ∷ cs) = let rest = skip_breaks cs in if c == 10 || c == 13 then rest else c ∷ rest

-- Nothing may follow a padded group.
abbrev pub last : Bytes → Option Bytes
last [] = some []
last (_ ∷ _) = none

abbrev pub byte₀ : ℕ → ℕ → ℕ
byte₀ x y = x * 4 + y / 16

abbrev pub byte₁ : ℕ → ℕ → ℕ
byte₁ y z = y % 16 * 16 + z / 4

abbrev pub byte₂ : ℕ → ℕ → ℕ
byte₂ z w = z % 4 * 64 + w

-- The bytes of two, three and four characters.
unfoldable pub pair : ℕ → ℕ → Option Bytes
pair a b = do x ← value_of a; y ← value_of b; some (byte₀ x y ∷ [])

unfoldable pub triple : ℕ → ℕ → ℕ → Option Bytes
triple a b c = do x ← value_of a; y ← value_of b; z ← value_of c; some (byte₀ x y ∷ byte₁ y z ∷ [])

unfoldable pub quantum : ℕ → ℕ → ℕ → ℕ → Option Bytes
quantum a b c d = do
  x ← value_of a
  y ← value_of b
  z ← value_of c
  w ← value_of d
  some (byte₀ x y ∷ byte₁ y z ∷ byte₂ z w ∷ [])

abbrev pub join : Option Bytes → Option Bytes → Option Bytes
join group rest = do out ← group; more ← rest; some (out ++ more)

-- StdEncoding.DecodeString, after the breaks are gone. Only the last group may be padded.
unfoldable pub decode_padded : Bytes → Option Bytes
decode_padded [] = some []
decode_padded (a ∷ b ∷ c ∷ d ∷ rest) =
    let more = decode_padded rest in
    if c == b'='
    then (if d == b'=' then join (pair a b) (last rest) else none)
    else if d == b'='
    then join (triple a b c) (last rest)
    else join (quantum a b c d) more
decode_padded _ = none

-- RawStdEncoding.DecodeString, after the breaks are gone
unfoldable pub decode_raw : Bytes → Option Bytes
decode_raw [] = some []
decode_raw (a ∷ []) = none
decode_raw (a ∷ b ∷ []) = pair a b
decode_raw (a ∷ b ∷ c ∷ []) = triple a b c
decode_raw (a ∷ b ∷ c ∷ d ∷ rest) = join (quantum a b c d) (decode_raw rest)

unfoldable pub std_decode_string : Bytes → Option Bytes
unfolding decode_padded skip_breaks
std_decode_string s = decode_padded (skip_breaks s)

unfoldable pub raw_std_decode_string : Bytes → Option Bytes
unfolding decode_raw skip_breaks
raw_std_decode_string s = decode_raw (skip_breaks s)

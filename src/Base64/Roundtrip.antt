-- ===== src/Base64/Roundtrip.antt =====
-- Decoding inverts encoding, in the padded and the raw form.
use mathlib.Core.Path.{ap₂}
use dsh_fleet.Base.{ℕ, ◌+◌, ◌*◌, ◌/◌, ◌%◌, ◌<◌, ◌≡◌, refl, ap, [], ◌∷◌, some, arith, Bytes, All}
use dsh_fleet.Base64.Chars.{std, char_of, value_of-char_of, char_of-ne_eq, char_of-ne_break}
use dsh_fleet.Base64.{
  std_encoding, raw_std_encoding, encode_to_string, skip_breaks, decode_padded, decode_raw,
  std_decode_string, raw_std_decode_string, pair, triple, quantum, byte₀, byte₁, byte₂,
}

abbrev pub IsByte : ℕ → Type 0
IsByte b = b < 256

-- The sextets of three bytes, and the bytes that they give back.
sextets :
    (a b c : ℕ)
    → a < 256
    → b < 256
    → c < 256
    → (a / 4 < 64)
      × (a % 4 * 16 < 64)
      × (a % 4 * 16 + b / 16 < 64)
      × (b % 16 * 4 < 64)
      × (b % 16 * 4 + c / 64 < 64)
      × (c % 64 < 64)
sextets a b c ha hb hc =
    (omega arith, omega arith, omega arith, omega arith, omega arith, omega arith)

skip-char :
    (n : ℕ) (cs : Bytes)
    → n < 64
    → skip_breaks (char_of std n ∷ cs) ≡ char_of std n ∷ skip_breaks cs
unfolding skip_breaks
skip-char n cs h = rw (char_of-ne_break n h)

skip-encode-raw :
    (bs : Bytes)
    → All IsByte bs
    → skip_breaks (encode_to_string raw_std_encoding bs) ≡ encode_to_string raw_std_encoding bs
unfolding encode_to_string skip_breaks
skip-encode-raw [] h = refl
skip-encode-raw (a ∷ []) h = ground (arith, char_of-ne_break (a / 4), char_of-ne_break (a % 4 * 16))
skip-encode-raw (a ∷ b ∷ []) h = ground (
  arith,
  char_of-ne_break (a / 4),
  char_of-ne_break (a % 4 * 16 + b / 16),
  char_of-ne_break (b % 16 * 4),
)
skip-encode-raw (a ∷ b ∷ c ∷ rest) h = ground (
  arith,
  char_of-ne_break (a / 4),
  char_of-ne_break (a % 4 * 16 + b / 16),
  char_of-ne_break (b % 16 * 4 + c / 64),
  char_of-ne_break (c % 64),
  skip-encode-raw rest,
)

skip-encode-std :
    (bs : Bytes)
    → All IsByte bs
    → skip_breaks (encode_to_string std_encoding bs) ≡ encode_to_string std_encoding bs
unfolding encode_to_string skip_breaks
skip-encode-std [] h = refl
skip-encode-std (a ∷ []) h = ground (arith, char_of-ne_break (a / 4), char_of-ne_break (a % 4 * 16))
skip-encode-std (a ∷ b ∷ []) h = ground (
  arith,
  char_of-ne_break (a / 4),
  char_of-ne_break (a % 4 * 16 + b / 16),
  char_of-ne_break (b % 16 * 4),
)
skip-encode-std (a ∷ b ∷ c ∷ rest) h = ground (
  arith,
  char_of-ne_break (a / 4),
  char_of-ne_break (a % 4 * 16 + b / 16),
  char_of-ne_break (b % 16 * 4 + c / 64),
  char_of-ne_break (c % 64),
  skip-encode-std rest,
)

-- The bytes that the sextets of an encoding give back.
byte₀-sextets : (a b : ℕ) → a < 256 → b < 256 → byte₀ (a / 4) (a % 4 * 16 + b / 16) ≡ a
byte₀-sextets a b ha hb = omega arith

byte₁-sextets :
    (a b c : ℕ)
    → a < 256
    → b < 256
    → c < 256
    → byte₁ (a % 4 * 16 + b / 16) (b % 16 * 4 + c / 64) ≡ b
byte₁-sextets a b c ha hb hc = omega arith

byte₂-sextets : (b c : ℕ) → b < 256 → c < 256 → byte₂ (b % 16 * 4 + c / 64) (c % 64) ≡ c
byte₂-sextets b c hb hc = omega arith

pair-sextets :
    (a : ℕ) → a < 256 → pair (char_of std (a / 4)) (char_of std (a % 4 * 16)) ≡ some (a ∷ [])
unfolding pair
pair-sextets a h =
    rw (value_of-char_of (a / 4) (omega arith), value_of-char_of (a % 4 * 16) (omega arith))
      (ap (λ (k : ℕ). some (k ∷ [])) (omega arith))

triple-sextets :
    (a b : ℕ)
    → a < 256
    → b < 256
    → triple (char_of std (a / 4)) (char_of std (a % 4 * 16 + b / 16)) (char_of std (b % 16 * 4))
      ≡ some (a ∷ b ∷ [])
unfolding triple
triple-sextets a b ha hb =
    rw
      (
        value_of-char_of (a / 4) (omega arith),
        value_of-char_of (a % 4 * 16 + b / 16) (omega arith),
        value_of-char_of (b % 16 * 4) (omega arith),
      )
      (ap₂ (λ (x y : ℕ). some (x ∷ y ∷ [])) (omega arith) (omega arith))

quantum-sextets :
    (a b c : ℕ)
    → a < 256
    → b < 256
    → c < 256
    → quantum
        (char_of std (a / 4))
        (char_of std (a % 4 * 16 + b / 16))
        (char_of std (b % 16 * 4 + c / 64))
        (char_of std (c % 64))
      ≡ some (a ∷ b ∷ c ∷ [])
unfolding quantum
quantum-sextets a b c ha hb hc =
    rw
      (
        value_of-char_of (a / 4) (omega arith),
        value_of-char_of (a % 4 * 16 + b / 16) (omega arith),
        value_of-char_of (b % 16 * 4 + c / 64) (omega arith),
        value_of-char_of (c % 64) (omega arith),
      )
      (cc (byte₀-sextets a b ha hb, byte₁-sextets a b c ha hb hc, byte₂-sextets b c hb hc))

decode_raw-encode :
    (bs : Bytes) → All IsByte bs → decode_raw (encode_to_string raw_std_encoding bs) ≡ some bs
unfolding decode_raw encode_to_string
decode_raw-encode [] h = refl
decode_raw-encode (a ∷ []) h = pair-sextets a h.0
decode_raw-encode (a ∷ b ∷ []) h = triple-sextets a b h.0 h.1.0
decode_raw-encode (a ∷ b ∷ c ∷ rest) h =
    rw (quantum-sextets a b c h.0 h.1.0 h.1.1.0, decode_raw-encode rest h.1.1.1)

decode_padded-encode :
    (bs : Bytes) → All IsByte bs → decode_padded (encode_to_string std_encoding bs) ≡ some bs
unfolding decode_padded encode_to_string
decode_padded-encode [] h = refl
decode_padded-encode (a ∷ []) h = rw (pair-sextets a h.0)
decode_padded-encode (a ∷ b ∷ []) h =
    rw (char_of-ne_eq (b % 16 * 4) (omega arith), triple-sextets a b h.0 h.1.0)
decode_padded-encode (a ∷ b ∷ c ∷ rest) h = rw (
  char_of-ne_eq (b % 16 * 4 + c / 64) (omega arith),
  char_of-ne_eq (c % 64) (omega arith),
  quantum-sextets a b c h.0 h.1.0 h.1.1.0,
  decode_padded-encode rest h.1.1.1,
)

pub std_decode-encode :
    (bs : Bytes) → All IsByte bs → std_decode_string (encode_to_string std_encoding bs) ≡ some bs
unfolding std_decode_string
std_decode-encode bs h = rw (skip-encode-std bs h) (decode_padded-encode bs h)

pub raw_std_decode-encode :
    (bs : Bytes)
    → All IsByte bs
    → raw_std_decode_string (encode_to_string raw_std_encoding bs) ≡ some bs
unfolding raw_std_decode_string
raw_std_decode-encode bs h = rw (skip-encode-raw bs h) (decode_raw-encode bs h)

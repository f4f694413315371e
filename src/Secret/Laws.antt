-- ===== src/Secret/Laws.antt =====
-- A secret verifies against its own hash, by internal/auth/secret.go.
use dsh_fleet.Base.{
  ℕ, zero, suc, ◌+◌, ◌*◌, ◌/◌, ◌%◌, ◌≡◌, refl, ap, ◌∙◌, false, [], ◌∷◌, ◌++◌, some, arith, ltb,
  ◌==◌, if-cases, Bytes, codes, same, length, All,
}
use dsh_fleet.Base.Decimal.{decimal, digits_onto, value_from}
use dsh_fleet.Base64.{encode_to_string, raw_std_encoding}
use dsh_fleet.Base64.Chars.{char_of-ne_dollar}
use dsh_fleet.Base64.Roundtrip.{IsByte, raw_std_decode-encode}
use dsh_fleet.Strings.{has, cut_prefix, trim_left}
use dsh_fleet.Secret.Scan.{
  split, split_whole, split-append, scan_int, scan_uint, skip_space, span_digits, after_sign,
}
use dsh_fleet.Secret.{
  IdKey, compared, threads, encoded, verify, verify_parts, scan_costs, argon_time, argon_memory,
  argon_key_len, hash,
}

has-encode : (s : Bytes) → All IsByte s → has b'$' (encode_to_string raw_std_encoding s) ≡ false
unfolding encode_to_string
has-encode [] h = refl
has-encode (a ∷ []) h = ground (arith, char_of-ne_dollar (a / 4), char_of-ne_dollar (a % 4 * 16))
has-encode (a ∷ b ∷ []) h = ground (
  arith,
  char_of-ne_dollar (a / 4),
  char_of-ne_dollar (a % 4 * 16 + b / 16),
  char_of-ne_dollar (b % 16 * 4),
)
has-encode (a ∷ b ∷ c ∷ s) h = ground (
  arith,
  char_of-ne_dollar (a / 4),
  char_of-ne_dollar (a % 4 * 16 + b / 16),
  char_of-ne_dollar (b % 16 * 4 + c / 64),
  char_of-ne_dollar (c % 64),
  has-encode s h.1.1.1,
)

-- Hash uses one to four threads.
threads-cases : (P : ℕ → Type 0) (cpus : ℕ) → P 1 → P 2 → P 3 → P 4 → P (threads cpus)
unfolding threads
threads-cases P cpus one two three four =
    if-cases P (ltb 4 (cpus % 256)) _ _ (λ t. four)
      λ f. if-cases P ((cpus % 256) == 0) _ _ (λ z. one) λ z. few (cpus % 256) f z
  where
    few : (n : ℕ) → ltb 4 n ≡ false → (n == 0) ≡ false → P n
    few zero f z = absurd (cc z)
    few (suc zero) f z = one
    few (suc (suc zero)) f z = two
    few (suc (suc (suc zero))) f z = three
    few (suc (suc (suc (suc zero)))) f z = four
    few (suc (suc (suc (suc (suc n))))) f z = absurd (ground arith)

parts_lem :
    (id_key : IdKey) (guess salt sum costs : Bytes) (p : ℕ)
    → All IsByte salt
    → All IsByte sum
    → scan_costs costs ≡ some (argon_memory, argon_time, p)
    → (p == 0) ≡ false
    → verify_parts id_key guess (
        []
        ∷ codes "argon2id"
        ∷ codes "v=19"
        ∷ costs
        ∷ encode_to_string raw_std_encoding salt
        ∷ encode_to_string raw_std_encoding sum
        ∷ [])
      ≡ compared (same (id_key guess salt argon_time argon_memory p (length sum)) sum)
unfolding verify_parts cut_prefix scan_int skip_space trim_left after_sign span_digits value_from
parts_lem id_key guess salt sum costs p hs hk e z =
    rw (raw_std_decode-encode salt hs, verify_parts, raw_std_decode-encode sum hk, e, z) refl

tail_lem :
    (salt sum : Bytes)
    → All IsByte salt
    → All IsByte sum
    → split b'$'
        (encode_to_string raw_std_encoding salt ++ b'$' ∷ encode_to_string raw_std_encoding sum)
      ≡ encode_to_string raw_std_encoding salt ∷ encode_to_string raw_std_encoding sum ∷ []
tail_lem salt sum hs hk =
    split-append b'$' (encode_to_string raw_std_encoding salt)
      (encode_to_string raw_std_encoding sum) (has-encode salt hs)
    ∙ ap (λ t. encode_to_string raw_std_encoding salt ∷ t)
        (split_whole b'$' (encode_to_string raw_std_encoding sum) (has-encode sum hk))

-- What an encoded hash says when it is verified, at a number of threads that Hash uses.
Checks : IdKey → Bytes → Bytes → Bytes → ℕ → Type 0
Checks id_key guess salt sum p =
    verify id_key guess (encoded p salt sum)
    ≡ compared (same (id_key guess salt argon_time argon_memory p (length sum)) sum)

-- The costs of an encoded hash read back, and what follows them is the salt and the sum.
split_lem :
    (id_key : IdKey) (guess salt sum : Bytes) (p : ℕ) (costs : Bytes)
    → All IsByte salt
    → All IsByte sum
    → scan_costs costs ≡ some (argon_memory, argon_time, p)
    → (p == 0) ≡ false
    → split b'$' (encoded p salt sum)
      ≡ []
        ∷ codes "argon2id"
        ∷ codes "v=19"
        ∷ costs
        ∷ split b'$'
            (encode_to_string raw_std_encoding salt ++ b'$' ∷ encode_to_string raw_std_encoding sum)
    → Checks id_key guess salt sum p
unfolding verify Checks
split_lem id_key guess salt sum p costs hs hk e z l =
    ap (verify_parts id_key guess)
      (l ∙ ap (λ t. [] ∷ codes "argon2id" ∷ codes "v=19" ∷ costs ∷ t) (tail_lem salt sum hs hk))
    ∙ parts_lem id_key guess salt sum costs p hs hk e z

encoded-Checks :
    (id_key : IdKey) (guess salt sum : Bytes)
    → All IsByte salt
    → All IsByte sum
    → Checks id_key guess salt sum 1
      × Checks id_key guess salt sum 2
      × Checks id_key guess salt sum 3
      × Checks id_key guess salt sum 4
unfolding encoded decimal digits_onto split scan_costs cut_prefix scan_uint skip_space trim_left
    span_digits value_from
encoded-Checks id_key guess salt sum hs hk = (
  split_lem id_key guess salt sum 1 (codes "m=65536,t=1,p=1") hs hk refl refl refl,
  split_lem id_key guess salt sum 2 (codes "m=65536,t=1,p=2") hs hk refl refl refl,
  split_lem id_key guess salt sum 3 (codes "m=65536,t=1,p=3") hs hk refl refl refl,
  split_lem id_key guess salt sum 4 (codes "m=65536,t=1,p=4") hs hk refl refl refl,
)

-- IDKey gives as many bytes as it is asked for.
abbrev pub Derives : IdKey → Type 0
Derives id_key =
    (secret salt : Bytes) (time memory p n : ℕ)
    → All IsByte (id_key secret salt time memory p n)
      × (length (id_key secret salt time memory p n) ≡ n)

-- A guess verifies against the hash of a secret exactly if both derive the same key with the salt and
-- the costs of the hash, on any number of processors, where IDKey gives as many bytes as it is asked
-- for: so the secret itself does.
pub verify-hash :
    (id_key : IdKey) (cpus : ℕ) (salt secret guess e : Bytes)
    → Derives id_key
    → All IsByte salt
    → hash id_key cpus (some salt) secret ≡ some e
    → verify id_key guess e
      ≡ compared (
          same
            (id_key guess salt argon_time argon_memory (threads cpus) argon_key_len)
            (id_key secret salt argon_time argon_memory (threads cpus) argon_key_len))
unfolding hash Checks
verify-hash id_key cpus salt secret guess e d hs h =
    let checks : Checks id_key guess salt
        (id_key secret salt argon_time argon_memory (threads cpus) argon_key_len) (threads cpus) =
      threads-cases
        (λ p.
          Checks id_key guess salt (id_key secret salt argon_time argon_memory p argon_key_len) p)
        cpus (all 1).0 (all 2).1 (all 3).2 (all 4).3 in
    let encoded_is : encoded (threads cpus) salt
          (id_key secret salt argon_time argon_memory (threads cpus) argon_key_len)
        ≡ e =
      cc in
    rw (encoded_is, (d secret salt argon_time argon_memory (threads cpus) argon_key_len).1) at
      checks
  where
    all :
        (p : ℕ)
        → (let sum = id_key secret salt argon_time argon_memory p argon_key_len in
            Checks id_key guess salt sum 1
            × Checks id_key guess salt sum 2
            × Checks id_key guess salt sum 3
            × Checks id_key guess salt sum 4)
    all p =
        encoded-Checks id_key guess salt _ hs
          (d secret salt argon_time argon_memory p argon_key_len).0

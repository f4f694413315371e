-- ===== src/Secret.antt =====
-- internal/auth/secret.go: minting tokens, and hashing and verifying secrets. The key derivation is
-- golang.org/x/crypto/argon2's IDKey, an argument; entropy is what rand.Read gives, or its failure.
pub mod Scan
pub mod Laws
use mathlib.Core.Option
use dsh_fleet.Base.{
  ℕ, ◌*◌, ◌%◌, ◌^◌, Bool, true, false, List, [], ◌∷◌, ◌++◌, Option, none, some, ltb, ◌==◌,
  if◌then◌else◌, Bytes, codes, same, length, ◌||◌,
}
use dsh_fleet.Base.Decimal.{decimal}
use dsh_fleet.Base.Result.{ℤ, is_count}
use dsh_fleet.Base64.{
  ◌>>=◌, encode_to_string, raw_url_encoding, raw_std_encoding, raw_std_decode_string,
}
use dsh_fleet.Strings.{cut_prefix}
use dsh_fleet.Secret.Scan.{split, scan_int, scan_uint}

abbrev pub token_prefix : Bytes
token_prefix = codes "nt_"

abbrev pub user_token_prefix : Bytes
user_token_prefix = codes "ut_"

abbrev pub argon_time : ℕ
argon_time = 1

abbrev pub argon_memory : ℕ
argon_memory = 64 * 1024

abbrev pub argon_key_len : ℕ
argon_key_len = 32

-- argon2.Version
abbrev pub argon_version : ℕ
argon_version = 19

-- IDKey(password, salt, time, memory, threads, keyLen)
abbrev pub IdKey : Type 0
IdKey = Bytes → Bytes → ℕ → ℕ → ℕ → ℕ → Bytes

-- mint
unfoldable pub mint : Bytes → Option Bytes → Option Bytes
unfolding encode_to_string
mint prefix entropy = Option.map (λ raw. prefix ++ encode_to_string raw_url_encoding raw) entropy

abbrev pub new_node_token : Option Bytes → Option Bytes
new_node_token entropy = mint token_prefix entropy

abbrev pub new_user_token : Option Bytes → Option Bytes
new_user_token entropy = mint user_token_prefix entropy

-- uint8(runtime.NumCPU()), brought into 1 to 4
unfoldable pub threads : ℕ → ℕ
threads cpus = let n = cpus % 256 in if ltb 4 n then 4 else if n == 0 then 1 else n

-- The encoded form that Hash prints.
unfoldable pub encoded : ℕ → Bytes → Bytes → Bytes
unfolding encode_to_string decimal
encoded p salt sum =
    codes "$argon2id$v="
    ++ decimal argon_version
    ++ codes "$m="
    ++ decimal argon_memory
    ++ codes ",t="
    ++ decimal argon_time
    ++ codes ",p="
    ++ decimal p
    ++ b'$' ∷ encode_to_string raw_std_encoding salt
    ++ b'$' ∷ encode_to_string raw_std_encoding sum

-- Hash
unfoldable pub hash : IdKey → ℕ → Option Bytes → Bytes → Option Bytes
unfolding threads encoded
hash id_key cpus entropy secret =
    Option.map
      (λ salt.
        encoded (threads cpus) salt
          (id_key secret salt argon_time argon_memory (threads cpus) argon_key_len))
      entropy

-- What Verify returns; IDKey panics on no rounds or no threads.
pub data Verdict : Type 0 where
  compared : Bool → Verdict
  malformed_hash unsupported_hash crashed : Verdict

-- fmt.Sscanf(s, "m=%d,t=%d,p=%d", ...) into two uint32 and a uint8
unfoldable pub scan_costs : Bytes → Option (ℕ × ℕ × ℕ)
unfolding cut_prefix scan_uint
scan_costs s = do
  s₁ ← cut_prefix s (codes "m=")
  (memory, s₂) ← scan_uint (2 ^ 32) s₁
  s₃ ← cut_prefix s₂ (codes ",t=")
  (time, s₄) ← scan_uint (2 ^ 32) s₃
  s₅ ← cut_prefix s₄ (codes ",p=")
  (p, s₆) ← scan_uint (2 ^ 8) s₅
  some (memory, time, p)

abbrev pub derived : IdKey → Bytes → Option (ℕ × ℕ × ℕ) → Option Bytes → Option Bytes → Verdict
derived id_key secret (some (memory, time, p)) (some salt) (some want) =
    if time == 0 || p == 0
    then crashed
    else compared (same (id_key secret salt time memory p (length want)) want)
derived id_key secret _ _ _ = malformed_hash

abbrev pub versioned : Option ℤ → Verdict → Verdict
versioned none rest = malformed_hash
versioned (some version) rest = if is_count version argon_version then rest else unsupported_hash

-- Verify, on the parts between the dollar signs
unfoldable pub verify_parts : IdKey → Bytes → List Bytes → Verdict
unfolding cut_prefix scan_int scan_costs raw_std_decode_string
verify_parts id_key secret ([] ∷ name ∷ version ∷ costs ∷ salt ∷ sum ∷ []) =
    if same name (codes "argon2id")
    then versioned (cut_prefix version (codes "v=") >>= scan_int) (
        derived id_key secret (scan_costs costs) (raw_std_decode_string salt)
          (raw_std_decode_string sum))
    else unsupported_hash
verify_parts id_key secret _ = malformed_hash

-- Verify
unfoldable pub verify : IdKey → Bytes → Bytes → Verdict
unfolding split verify_parts
verify id_key secret s = verify_parts id_key secret (split b'$' s)

-- ===== src/Envelope/Payload.antt =====
-- Payload, Bytes and NewPayload of pkg/envelope/envelope.go.
use dsh_fleet.Base.{
  ◌≡◌, Bool, ◌&&◌, Option, none, some, arith, Bytes, codes, same, if◌then◌else◌, All,
}
use dsh_fleet.Base.Result.{Result, ok, err}
use dsh_fleet.Base64.{std_encoding, encode_to_string, std_decode_string}
use dsh_fleet.Base64.Roundtrip.{IsByte, std_decode-encode}
use dsh_fleet.Utf8.{valid}

pub record Payload : Type 0 where
  pub enc : Bytes
  pub d : Bytes

pub data PayloadError : Type 0 where
  corrupt_input : PayloadError
  bad_encoding : Bytes → PayloadError

abbrev enc_u : Bytes
enc_u = codes "u"

abbrev enc_b : Bytes
enc_b = codes "b"

abbrev or_corrupt : Option Bytes → Result PayloadError Bytes
or_corrupt none = err corrupt_input
or_corrupt (some b) = ok b

-- Payload.Bytes
unfoldable pub bytes : Payload → Result PayloadError Bytes
bytes p =
    if same p.enc enc_u
    then ok p.d
    else if same p.enc enc_b
    then or_corrupt (std_decode_string p.d)
    else err (bad_encoding p.enc)

-- NewPayload
unfoldable pub new_payload : Bytes → Bool → Payload
new_payload b textual =
    if textual && valid b
    then record { enc = enc_u; d = b }
    else record { enc = enc_b; d = encode_to_string std_encoding b }

-- Any bytes come back from the payload made of them, under either encoding.
pub bytes-new_payload :
    (b : Bytes) (textual : Bool) → All IsByte b → bytes (new_payload b textual) ≡ ok b
unfolding bytes new_payload
bytes-new_payload b textual h = ground (arith, std_decode-encode b h)

-- Bytes travel verbatim exactly when the caller calls them text and they are valid UTF-8.
pub new_payload_verbatim :
    (b : Bytes) (textual : Bool) → (same (new_payload b textual).enc enc_u) ≡ (textual && valid b)
unfolding new_payload
new_payload_verbatim b textual = ground arith

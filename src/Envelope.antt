-- ===== src/Envelope.antt =====
-- pkg/envelope/envelope.go: the constants and frames of the uplink wire contract. JSON text is
-- encoding/json's: a message is what Unmarshal makes of it, or the way in which it fails.
pub mod Payload
pub mod Frames
use dsh_fleet.Base.{ℕ, Option, none, some, Bytes, ◌∷◌, []}
use dsh_fleet.Base.Result.{Result, ok, err}
use dsh_fleet.Envelope.Frames.{Kind, Frame, kind}

-- What one raw text message decodes to. `garbled` does not decode even into the probe, `untyped`
-- has an empty "t", `malformed k` has discriminant `k` and does not decode as such a frame.
pub data Message : Type 0 where
  garbled untyped : Message
  malformed : Kind → Message
  frame : Frame → Message

pub data DiscriminantError : Type 0 where
  unparseable no_discriminant : DiscriminantError

-- Discriminant
unfoldable pub discriminant : Message → Result DiscriminantError Kind
discriminant garbled = err unparseable
discriminant untyped = err no_discriminant
discriminant (malformed k) = ok k
discriminant (frame f) = ok (kind f)

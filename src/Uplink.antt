-- ===== src/Uplink.antt =====
-- internal/uplink/handler.go: a node's handshake, from the accepted socket to the end of the
-- registration. The credential stores are what the handler's interfaces ask of them.
pub mod Laws
use dsh_fleet.Base.{
  ℕ, ◌/◌, Bool, true, false, ◌||◌, List, [], Option, none, some, if◌then◌else◌, Bytes, same,
}
use dsh_fleet.Base.Result.{Result, ok, err, is_count}
use dsh_fleet.Base.Errors.{Sentinel, GoError, is_set, other_error}
use dsh_fleet.Envelope.{Message, frame}
use dsh_fleet.Envelope.Frames.{
  Hello, NodeDescriptor, Welcome, hello_frame, protocol_version, close_bad_token,
  close_unknown_node, close_bad_protocol, close_duplicate, close_auth_timeout,
}
use dsh_fleet.Registry.{Registry, RegistryError, Handle, add, remove}
use dsh_fleet.Conn.State.{heartbeat_interval, max_chunk_bytes, telemetry_interval}

-- Authenticator: Authenticate and RecordHello, over the state of a store.
pub record Authenticator {ℓ} (S : Type ℓ) : Type ℓ where
  pub authenticate : Bytes → Bytes → S → Result GoError (Unit {0}) × S
  pub record_hello : Bytes → NodeDescriptor → List Bytes → S → Result GoError (Unit {0}) × S

-- Enroller: AuthenticateToken and Claim. An owner is its uuid.
pub record Enroller {ℓ} (S : Type ℓ) : Type ℓ where
  pub authenticate_token : Bytes → Bytes → S → Result GoError Bytes × S
  pub claim : Bytes → Bytes → Bytes → S → Result GoError (Unit {0}) × S

-- The fields of Handler; a nil sentinel or enroller is `none`.
pub record Handler {ℓ} (S : Type ℓ) : Type ℓ where
  pub auth : Authenticator S
  pub enroller : Option (Enroller S)
  pub not_found : Option Sentinel
  pub revoked : Option Sentinel
  pub foreign : Option Sentinel
  pub own_token : Option Sentinel

-- readHello: `none` for the message is a read that failed or came after the auth deadline.
unfoldable pub read_hello : Option Message → Option Hello
read_hello (some (frame (hello_frame h))) =
    if same h.node_id [] || same h.token [] then none else some h
read_hello _ = none

-- What is sent on the socket: a close code with the store and the registry as they are by then, or
-- a connection that entered the registry.
pub data Handshake {ℓ} (S : Type ℓ) : Type ℓ where
  refused : ℕ → Registry → S → Handshake S
  admitted : Hello → Registry → S → Handshake S

-- websocket.StatusInternalError
abbrev pub status_internal_error : ℕ
status_internal_error = 1011

-- The welcome that follows a registration.
unfoldable pub welcome_frame : Welcome
welcome_frame = record {
  protocol = protocol_version;
  heartbeat_ms = heartbeat_interval;
  max_chunk_bytes = max_chunk_bytes;
  telemetry_interval_ms = telemetry_interval;
}

abbrev pub handle_at : ℕ → Hello → Handle
handle_at address hello = record { address = address; node_id = hello.node_id }

module _ {ℓ} {S : Type ℓ} where
  abbrev pub claim_for :
      Enroller S → Hello → Result GoError Bytes × S → Result GoError (Unit {0}) × S
  claim_for e hello (ok owner, s) = e.claim hello.node_id owner hello.node.label s
  claim_for e hello (err why, s) = (err why, s)

  -- Handler.enrol
  unfoldable pub enrol : Handler S → Hello → S → Result GoError (Unit {0}) × S
  enrol h hello s = elim h.enroller [
    | none ↦ (err other_error, s)
    | some e ↦ claim_for e hello (e.authenticate_token hello.username hello.token s)
  ]

  -- The credential that a hello presents, checked.
  unfoldable pub check_credential : Handler S → Hello → S → Result GoError (Unit {0}) × S
  unfolding enrol
  check_credential h hello s =
      if same hello.username []
      then h.auth.authenticate hello.node_id hello.token s
      else enrol h hello s

  -- The cases of the switch on the error, in their order.
  unfoldable pub close_code : Handler S → GoError → ℕ
  close_code h e =
      if is_set e h.own_token
      then close_unknown_node
      else if is_set e h.foreign
      then close_unknown_node
      else if is_set e h.revoked
      then close_bad_token
      else if is_set e h.not_found
      then close_unknown_node
      else status_internal_error

  abbrev pub register : Registry → S → Hello → Result RegistryError Registry → Handshake S
  register r s hello (ok r') = admitted hello r' s
  register r s hello (err e) = refused close_duplicate r s

  abbrev pub decide : Handler S → Registry → ℕ → Hello → Result GoError (Unit {0}) × S → Handshake S
  decide h r address hello (err e, s) = refused (close_code h e) r s
  decide h r address hello (ok _, s) = register r s hello (add r (handle_at address hello))

  -- ServeHTTP as far as Registry.Add, for a socket that becomes the connection at `address`.
  unfoldable pub handshake : Handler S → Registry → S → ℕ → Option Message → Handshake S
  unfolding read_hello check_credential close_code
  handshake h r s address message = elim (read_hello message) [
    | none ↦ refused close_auth_timeout r s
    | some hello ↦
        if is_count hello.protocol protocol_version
        then decide h r address hello (check_credential h hello s)
        else refused close_bad_protocol r s
  ]

  -- What follows the handshake: the connection is recorded, served and removed.
  abbrev pub served :
      Handler S → ℕ → Bool → (Registry → S → Registry × S) → Handshake S → Registry × S
  served h address wire meanwhile (refused code r s) = (r, s)
  served h address wire meanwhile (admitted hello r s) =
      let recorded = (h.auth.record_hello hello.node_id hello.node hello.caps s).1 in
      if wire
      then (let after = meanwhile r recorded in (remove after.0 (handle_at address hello), after.1))
      else (remove r (handle_at address hello), recorded)

  -- The whole of ServeHTTP, on the registry and the store. `wire` says whether the socket takes the
  -- welcome, `meanwhile` is what all else does to both while the connection is served.
  unfoldable pub serve_http :
      Handler S
      → Registry
      → S
      → ℕ
      → Option Message
      → Bool
      → (Registry → S → Registry × S)
      → Registry × S
  unfolding handshake
  serve_http h r s address message wire meanwhile =
      served h address wire meanwhile (handshake h r s address message)

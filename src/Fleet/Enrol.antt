-- ===== src/Fleet/Enrol.antt =====
-- The uplink handler as cmd/dshf/main.go makes it: the machine store, and the enroller that joins the
-- machine store and the account store. The state is both; `up` fields say what the database takes.
pub mod Grounds
pub mod Entitled
use dsh_fleet.Base.{Bool, List, [], ◌∷◌, Option, some, Bytes}
use dsh_fleet.Base.Result.{Result, ok, err}
use dsh_fleet.Base.Errors.{GoError, node_not_found, node_revoked, node_foreign, node_has_own_token}
use dsh_fleet.Envelope.Frames.{NodeDescriptor}
use dsh_fleet.Nodes
use dsh_fleet.Nodes.{record_hello, ensure_owned}
use dsh_fleet.Secret.{IdKey}
use dsh_fleet.Uplink.{Authenticator, Enroller, Handler}
use dsh_fleet.Users
use dsh_fleet.Users.{User}
use dsh_fleet.Users.Tokens

abbrev pub Stores : Type 0
Stores = Users.Store × Nodes.Store

-- Whether the database takes each statement of a handshake.
pub record Statements : Type 0 where
  pub reads_node : Bool
  pub writes_hello : Bool
  pub reads_account : Bool
  pub reads_tokens : Bool
  pub writes_use : Bool
  pub claims : Bool
  pub reads_claim : Bool

module _ (lower : Bytes → Bytes) (id_key : IdKey) (up : Statements) where
  -- nodeStore as the handler's Auth
  abbrev pub node_store : Authenticator Stores
  node_store = record {
    authenticate = λ id token s. (Nodes.authenticate id_key up.reads_node s.1 id token, s);
    record_hello =
        λ id d caps s. let r = record_hello up.writes_hello s.1 id d caps in (r.0, (s.0, r.1));
  }

  abbrev pub owner_of :
      Nodes.Store → Result GoError User × Users.Store → Result GoError Bytes × Stores
  owner_of ns (ok u, us) = (ok u.id, (us, ns))
  owner_of ns (err e, us) = (err (node_not_found ∷ e), (us, ns))

  -- enroller.AuthenticateToken
  unfoldable pub authenticate_token : Bytes → Bytes → Stores → Result GoError Bytes × Stores
  authenticate_token username token s = owner_of s.1 (
      Tokens.authenticate_token lower id_key up.reads_account up.reads_tokens up.writes_use s.0
        username token)

  -- enroller.Claim
  unfoldable pub claim : Bytes → Bytes → Bytes → Stores → Result GoError (Unit {0}) × Stores
  unfolding ensure_owned
  claim id owner label s =
      let r = ensure_owned up.claims up.reads_claim s.1 id owner label in (r.0, (s.0, r.1))

  abbrev pub enroller : Enroller Stores
  enroller = record { authenticate_token = authenticate_token; claim = claim }

  -- The Handler of `GET /uplink`.
  abbrev pub uplink_handler : Handler Stores
  uplink_handler = record {
    auth = node_store;
    enroller = some enroller;
    not_found = some node_not_found;
    revoked = some node_revoked;
    foreign = some node_foreign;
    own_token = some node_has_own_token;
  }

-- ===== src/Fleet/Enrol/Entitled.antt =====
-- Whom the uplink of cmd/dshf/main.go admits, by both stores.
use dsh_fleet.Base.{
  ℕ, ◌≡◌, refl, ◌⊎◌, inl, inr, false, [], Option, Bool-cases, Bytes, same, same_iff,
}
use dsh_fleet.Base.Result.{Result, ok, err}
use dsh_fleet.Base.Errors.{GoError}
use dsh_fleet.Envelope.{Message}
use dsh_fleet.Envelope.Frames.{Hello}
use dsh_fleet.Nodes.{ensure_owned}
use dsh_fleet.Registry.{Registry}
use dsh_fleet.Secret.{IdKey}
use dsh_fleet.Uplink.{Handshake, refused, admitted, check_credential, enrol, claim_for, handshake}
use dsh_fleet.Uplink.Laws.{
  Explains, silent, foreign_protocol, bad_credential, duplicate, joined, handshake-Explains,
}
use dsh_fleet.Users
use dsh_fleet.Users.{User, Token, by_name}
use dsh_fleet.Users.Tokens.{by_username, try_tokens, is_live, matched, touch_in}
use dsh_fleet.Users.Tokens
use dsh_fleet.Fleet.Enrol.{
  Stores, Statements, node_store, owner_of, authenticate_token, claim, enroller, uplink_handler,
}
use dsh_fleet.Fleet.Enrol.Grounds.{OwnToken, PersonsToken, own_token, account_lem, claimed}

module _ (lower : Bytes → Bytes) (id_key : IdKey) where
  module _ (up : Statements) where
    -- The stores after the handshake of a hello that was admitted.
    abbrev pub Admits : (Hello → Stores → Type 0) → Handshake Stores → Type 0
    Admits P (refused code r s) = Unit
    Admits P (admitted hello r s) = P hello s

    abbrev pub Entitles : Stores → Hello → Stores → Type 0
    Entitles s hello s' =
        ((hello.username ≡ []) × OwnToken lower id_key s s' hello)
        ⊎ ((same hello.username [] ≡ false) × PersonsToken lower id_key s s' hello)

    by-OwnToken :
        (s s' : Stores) (hello : Hello)
        → (node_store lower id_key up).authenticate hello.node_id hello.token s ≡ (ok tt, s')
        → OwnToken lower id_key s s' hello
    by-OwnToken s s' hello e =
        let (n, found, live, (h, hashed, verified)) =
          own_token lower id_key up.reads_node s.1 hello.node_id hello.token (cc e) in
        record {
          node = n;
          found = found;
          live = live;
          hash = h;
          hashed = hashed;
          verified = verified;
          unchanged = cc e;
        }

    by-PersonsToken :
        (s s' : Stores) (hello : Hello)
        → enrol (uplink_handler lower id_key up) hello s ≡ (ok tt, s')
        → PersonsToken lower id_key s s' hello
    unfolding enrol authenticate_token claim
    by-PersonsToken s s' hello e =
        persons
          (Tokens.authenticate_token lower id_key up.reads_account up.reads_tokens up.writes_use s.0
            hello.username hello.token)
          refl e
      where
        persons :
            (o : Result GoError User × Users.Store)
            → Tokens.authenticate_token lower id_key up.reads_account up.reads_tokens up.writes_use
                s.0 hello.username hello.token
              ≡ o
            → claim_for (enroller lower id_key up) hello (owner_of lower id_key up s.1 o)
              ≡ (ok tt, s')
            → PersonsToken lower id_key s s' hello
        persons (err why, us) x e = cc e
        persons (ok u, us) x e =
            let (named, enabled, token, users) =
              account_lem lower id_key up.reads_account up.reads_tokens up.writes_use s.0 us
                hello.username hello.token u x in
            let r = ensure_owned up.claims up.reads_claim s.1 hello.node_id u.id hello.node.label in
            let taken : r ≡ (ok tt, s'.1) = cc e in
            let (n, found, owned, live) =
              claimed lower id_key up.claims up.reads_claim s.1 s'.1 hello.node_id u.id
                hello.node.label taken in
            let kept : us ≡ s'.0 = cc e in
            record {
              user = u;
              named = named;
              enabled = enabled;
              token = token;
              node = n;
              found = found;
              owned = owned;
              live = live;
              accounts = rw⁻¹ kept users;
            }

    credential-Entitles :
        (s s' : Stores) (hello : Hello)
        → check_credential (uplink_handler lower id_key up) hello s ≡ (ok tt, s')
        → Entitles s hello s'
    unfolding check_credential
    credential-Entitles s s' hello e = elim (Bool-cases (same hello.username [])) [
      | inl t ↦
          inl (
            (same_iff hello.username []).0 t,
            by-OwnToken s s' hello (rw (t, check_credential) at e),
          )
      | inr f ↦ inr (f, by-PersonsToken s s' hello (rw (f, check_credential) at e))
    ]

    explained :
        (r : Registry) (s : Stores) (address : ℕ) (message : Option Message) (o : Handshake Stores)
        → Explains (uplink_handler lower id_key up) r s address message o
        → Admits (Entitles s) o
    explained r s address message _ (silent f) = tt
    explained r s address message _ (foreign_protocol _ f p) = tt
    explained r s address message _ (bad_credential _ w s' code f p k d) = tt
    explained r s address message _ (duplicate _ live s' f p k g) = tt
    explained r s address message _ (joined hello s' r' f p k g found) =
        credential-Entitles s s' hello k

    -- The uplink of the running control plane admits a machine only on one of two grounds. Without a
    -- username, its token verifies against the hash of its row, which is not revoked. With one, the
    -- account of that name is not disabled, the token verifies against a token of the account that is
    -- not revoked, and the machine's row is then owned by the account and not revoked.
    pub uplink-Admits :
        (r : Registry) (s : Stores) (address : ℕ) (message : Option Message)
        → Admits (Entitles s) (handshake (uplink_handler lower id_key up) r s address message)
    uplink-Admits r s address message =
        explained r s address message _
          (handshake-Explains (uplink_handler lower id_key up) r s address message)

-- ===== src/Nodes/Login.antt =====
-- What a token minted by internal/nodes/store.go is good for, and until when.
use dsh_fleet.Base.{ℕ, ◌≡◌, refl, ap, ◌∙◌, true, [], ◌∷◌, Option, none, some, Bytes, same_refl, All}
use dsh_fleet.Base.Dict.{find, find-put_self}
use dsh_fleet.Base.Result.{ok, err}
use dsh_fleet.Base.Errors.{node_revoked}
use dsh_fleet.Base64.Roundtrip.{IsByte}
use dsh_fleet.Secret.{
  IdKey, compared, argon_key_len, argon_memory, argon_time, threads, mint, hash, verify,
}
use dsh_fleet.Secret.Laws.{Derives, verify-hash}
use dsh_fleet.Nodes.{
  Node, Store, fresh_token, register, rotate, ensure_owned, authenticate, revoke, owned_by,
  reclaimed, put_node,
}

-- A token against its own hash.
fresh_token_verifies :
    (id_key : IdKey) (cpus : ℕ) (entropy : Option Bytes) (salt token h : Bytes)
    → Derives id_key
    → All IsByte salt
    → fresh_token id_key cpus entropy (some salt) ≡ some (token, h)
    → verify id_key token h ≡ compared true
unfolding fresh_token hash mint
fresh_token_verifies id_key cpus none salt token h d hs e = cc e
fresh_token_verifies id_key cpus (some raw) salt token h d hs e =
    verify-hash id_key cpus salt token token h d hs minted
    ∙ ap compared
        (same_refl (id_key token salt argon_time argon_memory (threads cpus) argon_key_len))
  where
    minted : hash id_key cpus (some salt) token ≡ some h
    minted = cc e

accepted :
    (id_key : IdKey) (s : Store) (id token h : Bytes) (n : Node)
    → find id s.nodes ≡ some n
    → n.revoked_at ≡ none
    → n.token_hash ≡ some h
    → verify id_key token h ≡ compared true
    → authenticate id_key true s id token ≡ ok tt
unfolding authenticate
accepted id_key s id token h n e r k v = rw (e, authenticate, r, k, v) refl

-- The token that Register hands out for a free id authenticates that machine, where the salt and the
-- derived keys are bytes.
pub registered_token_works :
    (id_key : IdKey) (cpus : ℕ) (entropy : Option Bytes) (salt token h : Bytes) (s : Store)
    (id label : Bytes)
    → Derives id_key
    → All IsByte salt
    → fresh_token id_key cpus entropy (some salt) ≡ some (token, h)
    → find id s.nodes ≡ none
    → authenticate id_key true (register (some (token, h)) true s id label).1 id token ≡ ok tt
unfolding register
registered_token_works id_key cpus entropy salt token h s id label d hs e f =
    rw (f, register)
      (accepted id_key _ id token h _ (find-put_self id _ s.nodes) refl refl
        (fresh_token_verifies id_key cpus entropy salt token h d hs e))

-- The token that Rotate hands out authenticates its machine, revoked before or not, where the machine
-- has no owner and the salt and the derived keys are bytes.
pub rotated_token_works :
    (id_key : IdKey) (cpus : ℕ) (entropy : Option Bytes) (salt token h : Bytes) (s : Store)
    (id label : Bytes) (n : Node)
    → Derives id_key
    → All IsByte salt
    → fresh_token id_key cpus entropy (some salt) ≡ some (token, h)
    → find id s.nodes ≡ some n
    → n.owner_id ≡ none
    → authenticate id_key true (rotate (some (token, h)) true s id label).1 id token ≡ ok tt
unfolding rotate
rotated_token_works id_key cpus entropy salt token h s id label n d hs e f o =
    rw (f, rotate, o)
      (accepted id_key _ id token h _ (find-put_self id _ s.nodes) refl refl
        (fresh_token_verifies id_key cpus entropy salt token h d hs e))

withdrawn : Store → Bytes → Node → Store
withdrawn s id n = put_node s id (record n { revoked_at = some s.now })

refuses :
    (id_key : IdKey) (s : Store) (id : Bytes) (n : Node) (token : Bytes)
    → authenticate id_key true (withdrawn s id n) id token ≡ err (node_revoked ∷ [])
unfolding withdrawn authenticate
refuses id_key s id n token =
    rw (find-put_self id (record n { revoked_at = some s.now }) s.nodes, authenticate) refl

lifts :
    (s : Store) (id owner label : Bytes) (n : Node)
    → find id s.nodes ≡ some n
    → owned_by n owner ≡ true
    → (m : Node) × (find id (ensure_owned true true s id owner label).1.nodes ≡ some m)
      × (m.revoked_at ≡ none)
unfolding ensure_owned
lifts s id owner label n f o = (
  reclaimed n label,
  rw (f, ensure_owned, o) (find-put_self id (reclaimed n label) s.nodes),
  refl,
)

-- Revoke of a machine that is not revoked, with an owner or a token of its own, makes every node token
-- for it refused as revoked, whatever it is, and the next claim by its owner, if it has one, lifts that
-- again.
pub revoked_until_claimed :
    (id_key : IdKey) (s : Store) (id label : Bytes) (n : Node)
    → find id s.nodes ≡ some n
    → n.revoked_at ≡ none
    → ((token : Bytes)
        → authenticate id_key true (revoke true s id).1 id token ≡ err (node_revoked ∷ []))
      × ((owner : Bytes)
          → owned_by n owner ≡ true
          → (m : Node) × (find id
                (ensure_owned true true (revoke true s id).1 id owner label).1.nodes
              ≡ some m)
            × (m.revoked_at ≡ none))
unfolding revoke withdrawn
revoked_until_claimed id_key s id label n f r =
    rw (f, revoke, r)
      (
        refuses id_key s id n,
        λ owner o.
            lifts (withdrawn s id n) id owner label (record n { revoked_at = some s.now })
              (find-put_self id (record n { revoked_at = some s.now }) s.nodes) o,
      )

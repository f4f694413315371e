-- ===== src/Witnesses/Credentials.antt =====
-- A key derivation that is no secret, and machines with its tokens, for the theorems on
-- internal/auth/secret.go and internal/nodes/store.go.
use dsh_fleet.Base.{
  ℕ, zero, suc, ◌%◌, ◌≡◌, refl, true, List, [], ◌∷◌, none, some, arith, ap, Bytes, codes, same,
  length, All,
}
use dsh_fleet.Base.Dict.{find}
use dsh_fleet.Base.Result.{ok, err}
use dsh_fleet.Base.Errors.{node_revoked}
use dsh_fleet.Base64.{encode_to_string}
use dsh_fleet.Base64.Chars.{char_of}
use dsh_fleet.Base64.Roundtrip.{IsByte}
use dsh_fleet.Secret.{
  IdKey, compared, threads, encoded, argon_time, argon_memory, argon_key_len, hash, mint, verify,
}
use dsh_fleet.Secret.Laws.{Derives, verify-hash}
use dsh_fleet.Nodes.{
  Node, Store, new_node, fresh_token, register, revoke, ensure_owned, authenticate, owned_by,
}
use dsh_fleet.Nodes.Laws.{Call, IsConsistent, Same, claims, revokes, run, run_keeps_credentials}
use dsh_fleet.Nodes.Login.{registered_token_works, revoked_until_claimed}

abbrev fill : ℕ → ℕ → Bytes
fill zero b = []
fill (suc n) b = b ∷ fill n b

abbrev toy_key : IdKey
toy_key secret salt time memory p n = fill n (length secret % 256)

fill-All : (n b : ℕ) → IsByte b → All IsByte (fill n b)
fill-All zero b h = tt
fill-All (suc n) b h = (h, fill-All n b h)

length-fill : (n b : ℕ) → length (fill n b) ≡ n
length-fill zero b = refl
length-fill (suc n) b = ap suc (length-fill n b)

toy-Derives : Derives toy_key
toy-Derives secret salt time memory p n =
    (fill-All n (length secret % 256) (omega arith), length-fill n (length secret % 256))

abbrev salt : Bytes
salt = 7 ∷ 8 ∷ []

salt-All : All IsByte salt
salt-All = (omega arith, (omega arith, tt))

-- The hash of "pw" on two processors.
abbrev stored : Bytes
stored =
    encoded (threads 2) salt
      (toy_key (codes "pw") salt argon_time argon_memory (threads 2) argon_key_len)

hashed : hash toy_key 2 (some salt) (codes "pw") ≡ some stored
unfolding hash
hashed = refl

verify-hash_example :
    verify toy_key (codes "guess") stored
    ≡ compared (
        same
          (toy_key (codes "guess") salt argon_time argon_memory (threads 2) argon_key_len)
          (toy_key (codes "pw") salt argon_time argon_memory (threads 2) argon_key_len))
verify-hash_example =
    verify-hash toy_key 2 salt (codes "pw") (codes "guess") stored toy-Derives salt-All hashed

abbrev token : Bytes
token = codes "nt_AAA"

abbrev token_hash : Bytes
token_hash =
    encoded (threads 2) salt (toy_key token salt argon_time argon_memory (threads 2) argon_key_len)

fresh : fresh_token toy_key 2 (some (0 ∷ 0 ∷ [])) (some salt) ≡ some (token, token_hash)
unfolding fresh_token hash mint encode_to_string char_of
fresh = refl

abbrev empty : Store
empty = record { nodes = []; telemetry = []; now = 0 }

free : find (codes "laptop") empty.nodes ≡ none
unfolding find
free = refl

registered_token_works_example :
    authenticate toy_key true
      (register (some (token, token_hash)) true empty (codes "laptop") []).1
      (codes "laptop")
      token
    ≡ ok tt
registered_token_works_example =
    registered_token_works toy_key 2 (some (0 ∷ 0 ∷ [])) salt token token_hash empty
      (codes "laptop") [] toy-Derives salt-All fresh free

abbrev own : Node
own = new_node 0 none (some (codes "old")) none

abbrev enrolled : Node
enrolled = new_node 0 none none (some (codes "ann"))

abbrev two : Store
two = record {
  nodes = (codes "laptop", own) ∷ (codes "desk", enrolled) ∷ [];
  telemetry = [];
  now = 5;
}

at_desk : find (codes "desk") two.nodes ≡ some enrolled
unfolding find
at_desk = refl

revoked_until_claimed_example :
    ((t : Bytes)
      → authenticate toy_key true (revoke true two (codes "desk")).1 (codes "desk") t
        ≡ err (node_revoked ∷ []))
    × ((owner : Bytes)
        → owned_by enrolled owner ≡ true
        → (m : Node) × (find
              (codes "desk")
              (ensure_owned true true
                (revoke true two (codes "desk")).1
                (codes "desk")
                owner
                []).1.nodes
            ≡ some m)
          × (m.revoked_at ≡ none))
revoked_until_claimed_example =
    revoked_until_claimed toy_key two (codes "desk") [] enrolled at_desk refl

-- Its owner is somebody.
owned : owned_by enrolled (codes "ann") ≡ true
owned = refl

abbrev desk_only : Store
desk_only = record { nodes = (codes "desk", enrolled) ∷ []; telemetry = []; now = 5 }

desk_only-IsConsistent : IsConsistent desk_only
unfolding find
desk_only-IsConsistent id n e = ground arith

abbrev history : List (ℕ × Call)
history =
    (6, claims true true (codes "desk") (codes "eve") []) ∷ (7, revokes true (codes "desk")) ∷ []

run_keeps_credentials_example :
    IsConsistent (run desk_only history)
    × ((id : Bytes) (n : Node)
        → find id desk_only.nodes ≡ some n
        → Same n (find id (run desk_only history).nodes))
run_keeps_credentials_example = run_keeps_credentials history desk_only desk_only-IsConsistent

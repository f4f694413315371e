-- ===== src/Nodes/Laws.antt =====
-- What any history of calls on internal/nodes/store.go keeps of each machine's credential.
use dsh_fleet.Base.{
  ℕ, ◌≡◌, refl, Bool, true, false, not, List, [], ◌∷◌, Option, none, some, if-cases, Bytes, same,
  same→eq, Bool-cases, Option-cases, inl, inr, sym, ap, ◌∙◌,
}
use dsh_fleet.Base.Dict.{Dict, find, put, find-put}
use dsh_fleet.Base.Result.{Result, ℤ}
use dsh_fleet.Base.Errors.{GoError}
use dsh_fleet.Envelope.Frames.{NodeDescriptor}
use dsh_fleet.Nodes.{
  Node, Store, owned_by, register, rotate, ensure_owned, record_hello, touch, record_telemetry,
  revoke, update_node,
}

abbrev pub is_some : Option Bytes → Bool
is_some none = false
is_some (some a) = true

-- The constraint nodes_one_credential: a token of its own or an owner, and not both.
abbrev pub OneCredential : Node → Type 0
OneCredential n = is_some n.token_hash ≡ not (is_some n.owner_id)

abbrev pub IsConsistent : Store → Type 0
IsConsistent s = (id : Bytes) (n : Node) → find id s.nodes ≡ some n → OneCredential n

-- The same machine with the same kind of credential, and the same owner if it has one.
abbrev pub Same : Node → Option Node → Type 0
Same n none = ⊥
Same n (some m) = (m.owner_id ≡ n.owner_id) × (is_some m.token_hash ≡ is_some n.token_hash)

abbrev Grows : Dict Node → Dict Node → Type 0
Grows d d' = (id : Bytes) (n : Node) → find id d ≡ some n → Same n (find id d')

record Evolves (s s' : Store) : Type 0 where
  kept : Grows s.nodes s'.nodes
  consistent : IsConsistent s → IsConsistent s'

stays : (s : Store) → Evolves s s
stays s = record { kept = λ id n e. rw e (refl, refl); consistent = λ h. h }

-- A write that leaves every other row, and keeps the credential of the row that it replaces.
put-Evolves :
    (s s' : Store) (j : Bytes) (m : Node)
    → s'.nodes ≡ put j m s.nodes
    → ((n : Node) → find j s.nodes ≡ some n → Same n (some m))
    → (IsConsistent s → OneCredential m)
    → Evolves s s'
put-Evolves s s' j m e k o = record { kept = kept; consistent = consistent }
  where
    kept : Grows s.nodes s'.nodes
    kept id n f =
        rw (e, find-put j id m s.nodes)
          (elim (Bool-cases (same j id)) [
            | inl t ↦ rw t (k n (rw (same→eq j id t) f))
            | inr u ↦ rw (u, f) (refl, refl)
          ])

    consistent : IsConsistent s → IsConsistent s'
    consistent h id n f = elim (Bool-cases (same j id)) [
      | inl t ↦
          let g : some m ≡ some n = rw (e, find-put j id m s.nodes, t) at f in
          let m_is_n : m ≡ n = cc in rw⁻¹ m_is_n (o h)
      | inr u ↦ h id n (rw (e, find-put j id m s.nodes, u) at f)
    ]

-- One write at the row that was found, and one where none was.
changes :
    (s s' : Store) (j : Bytes) (n m : Node)
    → find j s.nodes ≡ some n
    → s'.nodes ≡ put j m s.nodes
    → Same n (some m)
    → is_some m.token_hash ≡ is_some n.token_hash
    → Evolves s s'
changes s s' j n m f e k t =
    put-Evolves s s' j m e (λ n' g. let n_is : n' ≡ n = cc in rw n_is k) λ h. cc (h j n f, k.0, t)

inserts :
    (s s' : Store) (j : Bytes) (m : Node)
    → find j s.nodes ≡ none
    → s'.nodes ≡ put j m s.nodes
    → OneCredential m
    → Evolves s s'
inserts s s' j m f e o = put-Evolves s s' j m e (λ n g. cc) λ h. o

module _ (s : Store) where
  abbrev Next {ℓ} : {A : Type ℓ} → Result GoError A × Store → Type 0
  Next (r, s') = Evolves s s'

  register-Evolves :
      (token : Option (Bytes × Bytes)) (up : Bool) (id label : Bytes)
      → Next (register token up s id label)
  unfolding register
  register-Evolves none up id label = stays s
  register-Evolves (some (token, h)) false id label = stays s
  register-Evolves (some (token, h)) true id label = elim (Option-cases (find id s.nodes)) [
    | inl e ↦ rw (e, register) (inserts s _ id _ e refl refl)
    | inr (n, e) ↦ rw (e, register) (stays s)
  ]

  ensure_owned-Evolves :
      (up up₂ : Bool) (id owner label : Bytes) → Next (ensure_owned up up₂ s id owner label)
  unfolding ensure_owned
  ensure_owned-Evolves false up₂ id owner label = stays s
  ensure_owned-Evolves true up₂ id owner label = elim (Option-cases (find id s.nodes)) [
    | inl e ↦ rw (e, ensure_owned) (inserts s _ id _ e refl refl)
    | inr (n, e) ↦
        rw (e, ensure_owned)
          (if-cases Next (owned_by n owner) _ _ (λ t. changes s _ id n _ e refl (refl, refl) refl)
            λ f. stays s)
  ]

  update-Evolves :
      (up : Bool) (id : Bytes) (f : Node → Node)
      → ((n : Node) → Same n (some (f n)))
      → Next (update_node up s id f)
  update-Evolves false id f k = stays s
  update-Evolves true id f k = elim (Option-cases (find id s.nodes)) [
    | inl e ↦ rw e (stays s)
    | inr (n, e) ↦ rw e (changes s _ id n (f n) e refl (k n) (k n).1)
  ]

  record_telemetry-Evolves :
      (up : Bool) (id : Bytes) (ts : ℤ) (snapshot : Bytes)
      → Next (record_telemetry up s id ts snapshot)
  unfolding record_telemetry
  record_telemetry-Evolves false id ts snapshot = stays s
  record_telemetry-Evolves true id ts snapshot = elim (Option-cases (find id s.nodes)) [
    | inl e ↦ rw (e, record_telemetry) (stays s)
    | inr (n, e) ↦ rw (e, record_telemetry) (changes s _ id n _ e refl (refl, refl) refl)
  ]

  revoke-Evolves : (up : Bool) (id : Bytes) → Next (revoke up s id)
  unfolding revoke
  revoke-Evolves false id = stays s
  revoke-Evolves true id = elim (Option-cases (find id s.nodes)) [
    | inl e ↦ rw (e, revoke) (stays s)
    | inr (n, e) ↦ elim (Option-cases n.revoked_at) [
      | inl r ↦ rw (e, revoke, r) (changes s _ id n _ e refl (refl, refl) refl)
      | inr (t, r) ↦ rw (e, revoke, r) (stays s)
    ]
  ]

  rotate-Evolves :
      (token : Option (Bytes × Bytes)) (up : Bool) (id label : Bytes)
      → IsConsistent s
      → Next (rotate token up s id label)
  unfolding rotate
  rotate-Evolves none up id label h = stays s
  rotate-Evolves (some (token, k)) false id label h = stays s
  rotate-Evolves (some (token, k)) true id label h = elim (Option-cases (find id s.nodes)) [
    | inl e ↦ rw (e, rotate) (stays s)
    | inr (n, e) ↦ elim (Option-cases n.owner_id) [
      | inl o ↦
          let own : is_some n.token_hash ≡ true = cc (h id n e, ap is_some o) in
          rw (e, rotate, o) (changes s _ id n _ e refl (refl, sym own) (sym own))
      | inr (owner, o) ↦ rw (e, rotate, o) (stays s)
    ]
  ]

-- Calls that write, each with what the database takes and what Register and Rotate minted.
pub data Call : Type 0 where
  registers rotates : Option (Bytes × Bytes) → Bool → Bytes → Bytes → Call
  claims : Bool → Bool → Bytes → Bytes → Bytes → Call
  hellos : Bool → Bytes → NodeDescriptor → List Bytes → Call
  touches revokes : Bool → Bytes → Call
  samples : Bool → Bytes → ℤ → Bytes → Call

unfoldable pub step : Store → Call → Store
unfolding register rotate ensure_owned record_hello touch revoke record_telemetry
step s (registers token up id label) = (register token up s id label).1
step s (rotates token up id label) = (rotate token up s id label).1
step s (claims up up₂ id owner label) = (ensure_owned up up₂ s id owner label).1
step s (hellos up id d caps) = (record_hello up s id d caps).1
step s (touches up id) = (touch up s id).1
step s (revokes up id) = (revoke up s id).1
step s (samples up id ts snapshot) = (record_telemetry up s id ts snapshot).1

step-Evolves : (s : Store) (c : Call) → IsConsistent s → Evolves s (step s c)
unfolding step record_hello touch
step-Evolves s (registers token up id label) h = register-Evolves s token up id label
step-Evolves s (rotates token up id label) h = rotate-Evolves s token up id label h
step-Evolves s (claims up up₂ id owner label) h = ensure_owned-Evolves s up up₂ id owner label
step-Evolves s (hellos up id d caps) h = update-Evolves s up id _ λ n. (refl, refl)
step-Evolves s (touches up id) h = update-Evolves s up id _ λ n. (refl, refl)
step-Evolves s (revokes up id) h = revoke-Evolves s up id
step-Evolves s (samples up id ts snapshot) h = record_telemetry-Evolves s up id ts snapshot

-- now() moves on between two calls.
unfoldable pub run : Store → List (ℕ × Call) → Store
unfolding step
run s [] = s
run s ((now, c) ∷ cs) = run (step (record s { now = now }) c) cs

Same-trans : (n : Node) (m k : Option Node) (a : Node) → m ≡ some a → Same n m → Same a k → Same n k
Same-trans n m none a e p q = absurd q
Same-trans n m (some b) a e p q = let r : Same n (some a) = rw e at p in (q.0 ∙ r.0, q.1 ∙ r.1)

-- From a store in which each machine has exactly one credential, any history of calls leads to such a
-- store, and no machine that was there is gone, has another owner or another kind of credential: a
-- claim never takes a machine over, and a fresh token never goes to a machine that its owner enrolled.
pub run_keeps_credentials :
    (calls : List (ℕ × Call)) (s : Store)
    → IsConsistent s
    → IsConsistent (run s calls)
      × ((id : Bytes) (n : Node) → find id s.nodes ≡ some n → Same n (find id (run s calls).nodes))
unfolding run
run_keeps_credentials [] s h = (h, (stays s).kept)
run_keeps_credentials ((now, c) ∷ cs) s h =
    let e = step-Evolves (record s { now = now }) c h in
    let rest = run_keeps_credentials cs (step (record s { now = now }) c) (e.consistent h) in
    (
      rest.0,
      λ id n f.
          follow id n f (find id (step (record s { now = now }) c).nodes) refl (e.kept id n f)
            rest.1,
    )
  where
    follow :
        (id : Bytes) (n : Node)
        → find id s.nodes ≡ some n
        → (m : Option Node) → find id (step (record s { now = now }) c).nodes ≡ m
        → Same n m
        → ((j : Bytes) (a : Node)
            → find j (step (record s { now = now }) c).nodes ≡ some a
            → Same a (find j (run (step (record s { now = now }) c) cs).nodes))
        → Same n (find id (run (step (record s { now = now }) c) cs).nodes)
    follow id n f none g p r = absurd p
    follow id n f (some a) g p r = Same-trans n (some a) _ a refl p (r id a g)

-- ===== src/Fleet/Upkeep/Window.antt =====
-- Which snapshots pruneTelemetry of cmd/dshf/main.go keeps.
use dsh_fleet.Base.{
  ℕ, suc, ◌+◌, ◌≤◌, ◌≡◌, ◌⊎◌, inl, inr, Bool, true, false, List, [], ◌∷◌, some, arith, if-cases,
  Bool-cases, Option-cases, All,
}
use dsh_fleet.Base.Result.{ℤ, pos, negsuc, is_count}
use dsh_fleet.Nodes.{Sample, Store}
use dsh_fleet.Nodes.Rows.{Pruned, is_old, is_below}
use dsh_fleet.Nodes.Rows.Prune.{kept, prune_telemetry_ends, Rises}
use dsh_fleet.Fleet.Upkeep.{Round, Batches, before, prune, prune_hourly, prune_history}

-- The row is in the list.
abbrev pub Has : Sample → List Sample → Type 0
Has x [] = ⊥
Has x (y ∷ ys) = (y ≡ x) ⊎ Has x ys

-- The clock does not go back during a call of prune.
abbrev pub Advances : Batches → Type 0
Advances b = (k : ℕ) → b.clock k ≤ b.clock (suc k)

-- What others do to the store before a call: they append rows. The clock does not go back then, nor
-- during the call.
abbrev pub Appends : Round Store Batches → Type 0
Appends r =
    ((s : Store)
      → (s.now ≤ (r.others s).now)
        × ((x : Sample) → Has x s.telemetry → Has x (r.others s).telemetry))
    × ((b : Batches) → r.tick ≡ some b → Advances b)

-- The row comes in before one of the hours' calls.
abbrev pub Arrives : ℕ → Sample → List (Round Store Batches) → Store → Type 0
Arrives k x [] s = ⊥
Arrives k x (r ∷ rs) s =
    Has x (r.others s).telemetry
    ⊎ ((b : Batches) × (r.tick ≡ some b) × Arrives k x rs (prune (pos k) b (r.others s)))

-- The row is there still, or it is older than the window at the store's time.
abbrev pub Remains : ℕ → Sample → Store → Type 0
Remains k x s = Has x s.telemetry ⊎ (is_old (before s.now (pos k)) x ≡ true)

older :
    (k n m : ℕ) (t : ℤ)
    → n ≤ m
    → is_below t (before n (pos k)) ≡ true
    → is_below t (before m (pos k)) ≡ true
older k n m (pos a) h o = ground arith
older k n m (negsuc a) h o = ground arith

kept-Has :
    (old : Sample → Bool) (x : Sample) (xs : List Sample)
    → old x ≡ false
    → Has x xs
    → Has x (kept old xs)
kept-Has old x [] o h = h
kept-Has old x (y ∷ ys) o (inl e) = let same : old y ≡ false = rw e o in rw same (inl e)
kept-Has old x (y ∷ ys) o (inr h) =
    if-cases (Has x) (old y) _ _ (λ t. kept-Has old x ys o h) λ f. inr (kept-Has old x ys o h)

Has-kept : (old : Sample → Bool) (x : Sample) (xs : List Sample) → Has x (kept old xs) → Has x xs
Has-kept old x [] h = h
Has-kept old x (y ∷ ys) h = elim (Bool-cases (old y)) [
  | inl t ↦ inr (Has-kept old x ys (rw t at h))
  | inr f ↦ elim (rw f at h) [ inl e ↦ inl e | inr h ↦ inr (Has-kept old x ys h) ]
]

before_rises : (keep : ℤ) (n m : ℕ) → n ≤ m → is_below (before m keep) (before n keep) ≡ false
before_rises (pos k) n m h = ground arith
before_rises (negsuc k) n m h = ground arith

rows_left :
    (k now : ℕ) (s : Store) (x : Sample) (p : Pruned)
    → s.now ≤ now
    → kept (is_old (before now (pos k))) p.rows ≡ kept (is_old (before now (pos k))) s.telemetry
    → Remains k x s
    → Remains k x (record s { telemetry = p.rows; now = now })
rows_left k now s x p l e (inr o) = inr (older k s.now now x.ts l o)
rows_left k now s x p l e (inl h) = elim (Bool-cases (is_old (before now (pos k)) x)) [
  | inl o ↦ inr o
  | inr f ↦
      let old = is_old (before now (pos k)) in
      inl (Has-kept old x p.rows (rw e (kept-Has old x s.telemetry f h)))
]

limits : ℤ → Batches → Store → ℕ → ℤ
limits keep b s k = before (s.now + b.clock k) keep

limits-Rises : (keep : ℤ) (b : Batches) (s : Store) → Advances b → Rises (limits keep b s)
unfolding limits
limits-Rises keep b s up k =
    before_rises keep (s.now + b.clock k) (s.now + b.clock (suc k)) (omega (arith, up k))

prune-Remains :
    (k : ℕ) (b : Batches) (s : Store) (x : Sample)
    → Advances b
    → Remains k x s
    → Remains k x (prune (pos k) b s)
unfolding prune limits
prune-Remains k b s x up h =
    let (p, e, window, _, _) =
      prune_telemetry_ends (limits (pos k) b s) (limits-Rises (pos k) b s up) b.up b.done s in
    rw (e, prune) (rows_left k (s.now + b.clock p.last) s x p (omega arith) window h)

others-Remains :
    (k : ℕ) (r : Round Store Batches) (s : Store) (x : Sample)
    → Appends r
    → Remains k x s
    → Remains k x (r.others s)
others-Remains k r s x a (inl h) = inl ((a.0 s).1 x h)
others-Remains k r s x a (inr o) = inr (older k s.now (r.others s).now x.ts (a.0 s).0 o)

-- From what others did before a call to the end.
tick-Remains :
    (k : ℕ) (r : Round Store Batches) (rs : List (Round Store Batches)) (s : Store) (x : Sample)
    → Appends r
    → ((s : Store) → Remains k x s → Remains k x (prune_hourly (pos k) rs s))
    → Remains k x (r.others s)
    → Remains k x (prune_hourly (pos k) (r ∷ rs) s)
unfolding prune_hourly
tick-Remains k r rs s x a later h = elim (Option-cases r.tick) [
  | inl e ↦ rw (e, prune_hourly) h
  | inr (b, e) ↦
      rw (e, prune_hourly)
        (later (prune (pos k) b (r.others s)) (prune-Remains k b (r.others s) x (a.1 b e) h))
]

hourly-Remains :
    (k : ℕ) (rs : List (Round Store Batches)) (s : Store) (x : Sample)
    → All Appends rs
    → Remains k x s
    → Remains k x (prune_hourly (pos k) rs s)
unfolding prune_hourly
hourly-Remains k [] s x a h = h
hourly-Remains k (r ∷ rs) s x a h =
    tick-Remains k r rs s x a.0 (λ s. hourly-Remains k rs s x a.1) (others-Remains k r s x a.0 h)

arrived-Remains :
    (k : ℕ) (rs : List (Round Store Batches)) (s : Store) (x : Sample)
    → All Appends rs
    → Arrives k x rs s
    → Remains k x (prune_hourly (pos k) rs s)
unfolding prune_hourly
arrived-Remains k [] s x a h = absurd h
arrived-Remains k (r ∷ rs) s x a (inl h) =
    tick-Remains k r rs s x a.0 (λ s. hourly-Remains k rs s x a.1) (inl h)
arrived-Remains k (r ∷ rs) s x a (inr (b, e, h)) =
    rw (e, prune_hourly) (arrived-Remains k rs (prune (pos k) b (r.others s)) x a.1 h)

-- Whatever the database and the context do, and however many hours pass, pruneTelemetry takes no row
-- that is not older than the retention at the end, be the row there at the start or one that comes in
-- before a later hour's call, if others only append rows, between the calls, and the clock does not go
-- back.
pub history_window :
    (k : ℕ) (first : Batches) (rs : List (Round Store Batches)) (s : Store) (x : Sample)
    → Advances first
    → All Appends rs
    → (Has x s.telemetry ⊎ ((1 ≤ k) × Arrives k x rs (prune (pos k) first s)))
    → Remains k x (prune_history (pos k) first rs s)
unfolding prune_history
history_window k first rs s x up a h =
    if-cases (Remains k x) (is_count (pos k) 0) _ _
      (λ z. elim h [ inl h ↦ inl h | inr h ↦ absurd (ground (arith, z, h.0)) ])
      λ n. elim h [
        | inl h ↦
            hourly-Remains k rs (prune (pos k) first s) x a (prune-Remains k first s x up (inl h))
        | inr h ↦ arrived-Remains k rs (prune (pos k) first s) x a h.1
      ]

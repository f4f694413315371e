-- ===== src/Nodes/Rows/Prune.antt =====
-- That PruneTelemetry of internal/nodes/store.go ends, and which rows it leaves.
use dsh_fleet.Base.{
  ℕ, zero, suc, ◌+◌, ◌*◌, ◌/◌, ◌≤◌, ◌<◌, ◌≡◌, refl, ap, ◌∙◌, Bool, true, false, List, [], ◌∷◌,
  Option, some, arith, ltb, ltb→lt, if◌then◌else◌, if-cases, Bool-cases, inl, inr, length, All,
}
use dsh_fleet.Base.Result.{ℤ, pos, negsuc}
use dsh_fleet.Nodes.{Sample, Store}
use dsh_fleet.Nodes.Rows.{Pruned, batch, is_below, is_old, delete_old, prune_from, prune_telemetry}

false→le : (a b : ℕ) → ltb a b ≡ false → b ≤ a
false→le a b h = ground arith

-- The rows within the window, in their order.
abbrev pub kept : (Sample → Bool) → List Sample → List Sample
kept old [] = []
kept old (x ∷ xs) = if old x then kept old xs else x ∷ kept old xs

-- One DELETE, and the rows that are within a window that is no larger.
record Batch (old later : Sample → Bool) (room : ℕ) (xs : List Sample) (r : List Sample × ℕ)
    : Type 0 where
  counted : length r.0 + r.1 ≡ length xs
  within : r.1 ≤ room
  clean : r.1 < room → All (λ x. old x ≡ false) r.0
  keeps : kept later r.0 ≡ kept later xs

module _ (old later : Sample → Bool) (ages : (x : Sample) → old x ≡ true → later x ≡ true) where
  delete-Batch : (room : ℕ) (xs : List Sample) → Batch old later room xs (delete_old old room xs)
  unfolding delete_old
  delete-Batch room [] = record {
    counted = refl;
    within = omega arith;
    clean = λ h. tt;
    keeps = refl;
  }
  delete-Batch zero (x ∷ xs) = record {
    counted = omega arith;
    within = omega arith;
    clean = λ h. absurd (omega (arith, h));
    keeps = refl;
  }
  delete-Batch (suc room) (x ∷ xs) = elim (Bool-cases (old x)) [
    | inl t ↦
        let b = delete-Batch room xs in
        rw (t, delete_old)
          (record {
            counted = omega (arith, b.counted);
            within = omega (arith, b.within);
            clean = λ h. b.clean (omega (arith, h));
            keeps = b.keeps ∙ rw (ages x t) refl;
          })
    | inr f ↦
        let b = delete-Batch (suc room) xs in
        rw (f, delete_old)
          (record {
            counted = omega (arith, b.counted);
            within = b.within;
            clean = λ h. (f, b.clean h);
            keeps = ap (λ l. if later x then l else x ∷ l) b.keeps;
          })
  ]

-- The clock of the database does not go back from one round to the next.
abbrev pub Rises : (ℕ → ℤ) → Type 0
Rises limit = (k : ℕ) → is_below (limit (suc k)) (limit k) ≡ false

below_trans : (t a b : ℤ) → is_below b a ≡ false → is_below t a ≡ true → is_below t b ≡ true
below_trans (pos t) (pos a) (pos b) h o = ground arith
below_trans (pos t) (pos a) (negsuc b) h o = cc h
below_trans (negsuc t) (pos a) (pos b) h o = refl
below_trans (negsuc t) (pos a) (negsuc b) h o = cc h
below_trans (negsuc t) (negsuc a) (pos b) h o = refl
below_trans (negsuc t) (negsuc a) (negsuc b) h o = ground arith
below_trans (pos t) (negsuc a) b h o = cc o

module _ (limit : ℕ → ℤ) (rises : Rises limit) where
  -- What is old in a round is old in a later one.
  ages_by : (d k : ℕ) (x : Sample) → is_old (limit k) x ≡ true → is_old (limit (k + d)) x ≡ true
  ages_by zero k x o = let here : k + 0 ≡ k = omega arith in rw here o
  ages_by (suc d) k x o =
      let next = below_trans x.ts (limit k) (limit (suc k)) (rises k) o in
      let here : k + suc d ≡ suc k + d = omega arith in rw here (ages_by d (suc k) x next)

  -- From round k with the rows `xs` and the count `total` to the end of the call.
  record Ends (k : ℕ) (xs : List Sample) (total : ℕ) (p : Pruned) : Type 0 where
    later : (d : ℕ) × (p.last ≡ k + d)
    window : kept (is_old (limit p.last)) p.rows ≡ kept (is_old (limit p.last)) xs
    counts : length p.rows + p.total ≡ length xs + total
    clean : p.failed ≡ false → All (λ x. is_old (limit p.last) x ≡ false) p.rows

  abbrev Finishes : ℕ → List Sample → ℕ → Option Pruned → Type 0
  Finishes k xs total o = (p : Pruned) × (o ≡ some p) × Ends k xs total p

  prune-Finishes :
      (up done : ℕ → Bool) (fuel k : ℕ) (xs : List Sample) (total : ℕ)
      → length xs < fuel * batch
      → Finishes k xs total (prune_from limit up done fuel k xs total)
  unfolding prune_from
  prune-Finishes up done zero k xs total h = absurd (omega (arith, h))
  prune-Finishes up done (suc fuel) k xs total h =
      let old = is_old (limit k) in
      let r = delete_old old batch xs in
      let b = delete-Batch old old (λ x o. o) batch xs in
      if-cases (Finishes k xs total) (up k) _ _
        (λ t.
          if-cases (Finishes k xs total) (ltb r.1 batch) _ _
            (λ ended. (
              record { rows = r.0; total = total + r.1; last = k; failed = false },
              refl,
              record {
                later = (0, omega arith);
                window = b.keeps;
                counts = omega (arith, b.counted);
                clean = λ e. b.clean (ltb→lt r.1 batch ended);
              },
            ))
            λ more.
              if-cases (Finishes k xs total) (done k) _ _
                (λ c. (
                  record { rows = r.0; total = total + r.1; last = k; failed = true },
                  refl,
                  record {
                    later = (0, omega arith);
                    window = b.keeps;
                    counts = omega (arith, b.counted);
                    clean = λ e. cc e;
                  },
                ))
                λ c.
                  let (p, e, rest) =
                    prune-Finishes up done fuel (suc k) r.0 (total + r.1)
                      (omega (arith, b.counted, false→le r.1 batch more, h)) in
                  let (d, l) = rest.later in
                  let here : p.last ≡ k + suc d = omega (arith, l) in
                  let ages : (x : Sample) → old x ≡ true → is_old (limit p.last) x ≡ true =
                    λ x o. rw here (ages_by (suc d) k x o) in
                  (
                    p,
                    e,
                    record {
                      later = (suc d, here);
                      window =
                          rest.window
                          ∙ (delete-Batch old (is_old (limit p.last)) ages batch xs).keeps;
                      counts = omega (arith, rest.counts, b.counted);
                      clean = rest.clean;
                    },
                  ))
        λ f. (
          record { rows = xs; total = total; last = k; failed = true },
          refl,
          record {
            later = (0, omega arith);
            window = refl;
            counts = omega arith;
            clean = λ e. cc e;
          },
        )

  -- PruneTelemetry returns, one round for each full batch of the table being enough, if no row comes in
  -- between, the clock does not go back and a DELETE that returns an error has deleted nothing. Whatever
  -- fails, it keeps the rows that are within the window of its last round in their order, and the rows
  -- left with the number that it returns make up those it found. Without an error no row is left that
  -- is before the limit of the last round.
  pub prune_telemetry_ends :
      (up done : ℕ → Bool) (s : Store)
      → (p : Pruned) × (prune_telemetry limit up done s ≡ some p)
        × (kept (is_old (limit p.last)) p.rows ≡ kept (is_old (limit p.last)) s.telemetry)
        × (length p.rows + p.total ≡ length s.telemetry)
        × (p.failed ≡ false → All (λ x. is_old (limit p.last) x ≡ false) p.rows)
  unfolding prune_telemetry
  prune_telemetry_ends up done s =
      let (p, e, ends) =
        prune-Finishes up done (length s.telemetry / batch + 1) 0 s.telemetry 0 (omega arith) in
      (p, e, ends.window, omega (arith, ends.counts), ends.clean)

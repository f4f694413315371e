-- ===== src/Audit/Queue.antt =====
-- What becomes of the decisions that internal/audit/audit.go is given.
use dsh_fleet.Base.{
  ℕ, suc, ◌+◌, ◌≤◌, ◌≡◌, refl, Bool, true, false, List, [], ◌∷◌, ◌++◌, Option, none, some, map,
  arith, Option-cases, ltb, ltb→lt, if-cases, length, length-append, inl, inr,
}
use mathlib.Core.List.{append_assoc, append-nil, map-append}
use dsh_fleet.Audit.{
  Entry, Row, row, capacity, Warning, queue_full, cannot_record, Phase, serving, flushing, ended,
  Recorder, new, record_decision, received_from, written, noticed_in, emptied_in, Event, decided,
  stopped, received, noticed, emptied, wrote, step, run, offered, unheards, Insert, inserted,
  refused, unheard, pending_of, pending,
}
use dsh_fleet.Audit.Sublists.{Subsequence, skip_end, keep_end, without}

-- What is true of the channel, the write, the table and the log, after the decisions `given` and as many
-- rows as `doubts` of which the recorder may not have heard: those have both the row and a warning.
pub record Holds (given : List Entry) (doubts : ℕ) (queue : List Entry)
    (writing : Option (Entry × Bool)) (rows : List Row) (log : List Warning) : Type 0 where
  pub bounded : length queue ≤ capacity
  pub in_order : Subsequence (rows ++ map row (pending_of writing queue)) (map row given)
  pub twice : ℕ
  pub few : twice ≤ doubts
  pub counted : length given + twice ≡ length rows + length log + length (pending_of writing queue)

abbrev pub Accounts : List Entry → ℕ → Recorder → Type 0
Accounts given doubts r = Holds given doubts r.queue r.writing r.rows r.log

pending-append :
    (w : Option (Entry × Bool)) (q : List Entry) (e : Entry)
    → pending_of w (q ++ e ∷ []) ≡ pending_of w q ++ e ∷ []
pending-append none q e = refl
pending-append (some (x, dead)) q e = refl

decision-Accounts :
    (given : List Entry) (doubts : ℕ) (r : Recorder) (e : Entry)
    → Accounts given doubts r
    → Accounts (given ++ e ∷ []) doubts (record_decision r e)
unfolding record_decision
decision-Accounts given doubts r e h =
    if-cases (Accounts (given ++ e ∷ []) doubts) (ltb (length r.queue) capacity) _ _
      (λ t. record {
        bounded = omega (arith, length-append r.queue (e ∷ []), ltb→lt (length r.queue) capacity t);
        in_order =
            simp (pending-append, map-append, ← append_assoc)
              (keep_end (r.rows ++ map row (pending r)) (map row given) (row e) h.in_order);
        twice = h.twice;
        few = h.few;
        counted = rw (pending-append r.writing r.queue e) (
            omega
              (arith, h.counted, length-append given (e ∷ []), length-append (pending r) (e ∷ [])));
      })
      λ f. record {
        bounded = h.bounded;
        in_order =
            rw map-append
              (skip_end (r.rows ++ map row (pending r)) (map row given) (row e) h.in_order);
        twice = h.twice;
        few = h.few;
        counted = omega (
          arith,
          h.counted,
          length-append given (e ∷ []),
          length-append r.log (queue_full e.node_id e.path ∷ []),
        );
      }

-- More doubts admit what fewer do.
more :
    {given : List Entry} (r : Recorder) (few many : ℕ)
    → few ≤ many
    → Accounts given few r
    → Accounts given many r
more r few many l h = record {
  bounded = h.bounded;
  in_order = h.in_order;
  twice = h.twice;
  few = omega (arith, l, h.few);
  counted = h.counted;
}

module _ (given : List Entry) (doubts : ℕ) where
  received-Accounts :
      (r r' : Recorder) (w : Option (Entry × Bool)) (p : Phase) (q : List Entry)
      → received_from r w p q ≡ some r'
      → Holds given doubts q w r.rows r.log
      → Accounts given doubts r'
  received-Accounts r r' none serving [] e h = cc e
  received-Accounts r r' none serving (x ∷ q) e h =
      let same : record r { queue = q; writing = some (x, r.cancelled) } ≡ r' = cc e in
      rw⁻¹ same (record {
        bounded = omega (arith, h.bounded);
        in_order = h.in_order;
        twice = h.twice;
        few = h.few;
        counted = h.counted;
      })
  received-Accounts r r' none flushing [] e h = cc e
  received-Accounts r r' none flushing (x ∷ q) e h =
      let same : record r { queue = q; writing = some (x, false) } ≡ r' = cc e in
      rw⁻¹ same (record {
        bounded = omega (arith, h.bounded);
        in_order = h.in_order;
        twice = h.twice;
        few = h.few;
        counted = h.counted;
      })
  received-Accounts r r' none ended q e h = cc e
  received-Accounts r r' (some w) p q e h = cc e

  refused_lem :
      (r r' : Recorder) (x : Entry) (dead : Bool)
      → record r { writing = none; log = r.log ++ cannot_record ∷ [] } ≡ r'
      → Holds given doubts r.queue (some (x, dead)) r.rows r.log
      → Accounts given (doubts + 0) r'
  refused_lem r r' x dead same h = rw⁻¹ same (record {
    bounded = h.bounded;
    in_order = without r.rows (row x) (map row r.queue) (map row given) h.in_order;
    twice = h.twice;
    few = omega (arith, h.few);
    counted = omega (arith, h.counted, length-append r.log (cannot_record ∷ []));
  })

  written-Accounts :
      (r r' : Recorder) (w : Option (Entry × Bool)) (i : Insert)
      → written r w i ≡ some r'
      → Holds given doubts r.queue w r.rows r.log
      → Accounts given (doubts + unheards (wrote i ∷ [])) r'
  unfolding unheards
  written-Accounts r r' none i e h = cc e
  written-Accounts r r' (some (x, true)) inserted e h = refused_lem r r' x true (cc e) h
  written-Accounts r r' (some (x, true)) refused e h = refused_lem r r' x true (cc e) h
  written-Accounts r r' (some (x, true)) unheard e h =
      more r' (doubts + 0) (doubts + 1) (omega arith) (refused_lem r r' x true (cc e) h)
  written-Accounts r r' (some (x, false)) refused e h = refused_lem r r' x false (cc e) h
  written-Accounts r r' (some (x, false)) inserted e h =
      let same : record r { writing = none; rows = r.rows ++ row x ∷ [] } ≡ r' = cc e in
      rw⁻¹ same (record {
        bounded = h.bounded;
        in_order = simp append_assoc h.in_order;
        twice = h.twice;
        few = omega (arith, h.few);
        counted = omega (arith, h.counted, length-append r.rows (row x ∷ []));
      })
  written-Accounts r r' (some (x, false)) unheard e h =
      let same : record r {
        writing = none;
        rows = r.rows ++ row x ∷ [];
        log = r.log ++ cannot_record ∷ [];
      }
          ≡ r' =
        cc e in
      rw⁻¹ same (record {
        bounded = h.bounded;
        in_order = simp append_assoc h.in_order;
        twice = suc h.twice;
        few = omega (arith, h.few);
        counted = omega (
          arith,
          h.counted,
          length-append r.rows (row x ∷ []),
          length-append r.log (cannot_record ∷ []),
        );
      })

  noticed-Accounts :
      (r r' : Recorder) (w : Option (Entry × Bool)) (p : Phase) (c : Bool)
      → noticed_in r w p c ≡ some r'
      → Accounts given doubts r
      → Accounts given doubts r'
  noticed-Accounts r r' none serving true e h =
      let same : record r { phase = flushing } ≡ r' = cc e in
      rw⁻¹ same (record {
        bounded = h.bounded;
        in_order = h.in_order;
        twice = h.twice;
        few = h.few;
        counted = h.counted;
      })
  noticed-Accounts r r' none serving false e h = cc e
  noticed-Accounts r r' none flushing c e h = cc e
  noticed-Accounts r r' none ended c e h = cc e
  noticed-Accounts r r' (some w) p c e h = cc e

  emptied-Accounts :
      (r r' : Recorder) (w : Option (Entry × Bool)) (p : Phase) (q : List Entry)
      → emptied_in r w p q ≡ some r'
      → Accounts given doubts r
      → Accounts given doubts r'
  emptied-Accounts r r' none flushing [] e h =
      let same : record r { phase = ended } ≡ r' = cc e in
      rw⁻¹ same (record {
        bounded = h.bounded;
        in_order = h.in_order;
        twice = h.twice;
        few = h.few;
        counted = h.counted;
      })
  emptied-Accounts r r' none flushing (x ∷ q) e h = cc e
  emptied-Accounts r r' none serving q e h = cc e
  emptied-Accounts r r' none ended q e h = cc e
  emptied-Accounts r r' (some w) p q e h = cc e

step-Accounts :
    (given : List Entry) (doubts : ℕ) (r r' : Recorder) (ev : Event)
    → step r ev ≡ some r'
    → Accounts given doubts r
    → Accounts (given ++ offered (ev ∷ [])) (doubts + unheards (ev ∷ [])) r'
unfolding step offered unheards
step-Accounts given doubts r r' (decided x) e h =
    let same : record_decision r x ≡ r' = cc e in
    more r' doubts (doubts + 0) (omega arith) (rw⁻¹ same (decision-Accounts given doubts r x h))
step-Accounts given doubts r r' stopped e h =
    let same : record r { cancelled = true } ≡ r' = cc e in
    rw append-nil (
      rw⁻¹ same (record {
        bounded = h.bounded;
        in_order = h.in_order;
        twice = h.twice;
        few = omega (arith, h.few);
        counted = h.counted;
      }))
step-Accounts given doubts r r' received e h = rw append-nil (
    more r' doubts (doubts + 0) (omega arith)
      (received-Accounts given doubts r r' r.writing r.phase r.queue e h))
step-Accounts given doubts r r' (wrote i) e h =
    rw append-nil (written-Accounts given doubts r r' r.writing i e h)
step-Accounts given doubts r r' noticed e h = rw append-nil (
    more r' doubts (doubts + 0) (omega arith)
      (noticed-Accounts given doubts r r' r.writing r.phase r.cancelled e h))
step-Accounts given doubts r r' emptied e h = rw append-nil (
    more r' doubts (doubts + 0) (omega arith)
      (emptied-Accounts given doubts r r' r.writing r.phase r.queue e h))

offered-cons :
    (ev : Event) (evs : List Event) → offered (ev ∷ evs) ≡ offered (ev ∷ []) ++ offered evs
unfolding offered
offered-cons (decided e) evs = refl
offered-cons stopped evs = refl
offered-cons received evs = refl
offered-cons noticed evs = refl
offered-cons emptied evs = refl
offered-cons (wrote i) evs = refl

unheards-cons :
    (ev : Event) (evs : List Event) → unheards (ev ∷ evs) ≡ unheards (ev ∷ []) + unheards evs
unfolding unheards
unheards-cons (decided e) evs = omega arith
unheards-cons stopped evs = omega arith
unheards-cons received evs = omega arith
unheards-cons noticed evs = omega arith
unheards-cons emptied evs = omega arith
unheards-cons (wrote inserted) evs = omega arith
unheards-cons (wrote refused) evs = omega arith
unheards-cons (wrote unheard) evs = omega arith

run_from-Accounts :
    (given : List Entry) (doubts : ℕ) (r r' : Recorder) (evs : List Event)
    → run r evs ≡ some r'
    → Accounts given doubts r
    → Accounts (given ++ offered evs) (doubts + unheards evs) r'
unfolding run
run_from-Accounts given doubts r r' [] e h =
    let same : r ≡ r' = cc e in
    let none_offered : offered [] ≡ [] = unfold offered in refl in
    rw (none_offered, append-nil)
      (more r' doubts (doubts + unheards []) (omega arith) (rw⁻¹ same h))
run_from-Accounts given doubts r r' (ev ∷ evs) e h = elim (Option-cases (step r ev)) [
  | inl n ↦ let no : none ≡ some r' = rw (n, run) at e in cc no
  | inr (t, s) ↦
      let rest : run t evs ≡ some r' = rw (s, run) at e in
      let there =
        run_from-Accounts (given ++ offered (ev ∷ [])) (doubts + unheards (ev ∷ [])) t r' evs rest
          (step-Accounts given doubts r t ev s h) in
      rw (offered-cons ev evs, ← append_assoc)
        (more r' (doubts + unheards (ev ∷ []) + unheards evs) (doubts + unheards (ev ∷ evs))
          (omega (arith, unheards-cons ev evs)) there)
]

-- In any order of requests, of drain's steps and of the stop function: the channel never holds more than
-- its 1024 entries; what is in the table and what waits is, in order, a part of the decisions recorded;
-- and every decision is in the table, waits, or has one warning in the log. Only a decision whose row is
-- inserted while Exec returns an error can be both in the table and in the log.
pub run-Accounts :
    (evs : List Event) (r : Recorder)
    → run new evs ≡ some r
    → Accounts (offered evs) (unheards evs) r
unfolding new
run-Accounts evs r e = more r (0 + unheards evs) (unheards evs) (omega arith) (
    run_from-Accounts [] 0 new r evs e (record {
      bounded = omega arith;
      in_order = tt;
      twice = 0;
      few = omega arith;
      counted = refl;
    }))

-- ===== src/Audit/Stop.antt =====
-- That the stop function of internal/audit/audit.go returns.
use dsh_fleet.Base.{
  ℕ, suc, ◌+◌, ◌*◌, ◌≤◌, ◌≡◌, refl, ◌⊎◌, inl, inr, Bool, true, false, List, [], ◌∷◌, ◌++◌, Option,
  none, some, arith, Option-cases, length, All,
}
use dsh_fleet.Audit.{
  Entry, cannot_record, Phase, serving, flushing, ended, Recorder, Event, decided, stopped,
  received, noticed, emptied, wrote, inserted, refused, unheard, step, run, pending, pending_of,
}

-- A step of drain.
abbrev pub OfDrain : Event → Type 0
OfDrain (decided e) = ⊥
OfDrain stopped = ⊥
OfDrain _ = Unit

abbrev phase_left : Phase → ℕ
phase_left serving = 2
phase_left flushing = 1
phase_left ended = 0

abbrev busy : Option (Entry × Bool) → ℕ
busy none = 0
busy (some w) = 1

-- The steps that drain can still take.
abbrev pub remaining : Recorder → ℕ
remaining r = 2 * length r.queue + busy r.writing + phase_left r.phase

-- Once drain has returned nothing waits.
abbrev pub Flushed : Phase → List Entry → Type 0
Flushed ended waiting = waiting ≡ []
Flushed _ waiting = Unit

record Stopping (left : ℕ) (r : Recorder) : Type 0 where
  less : suc (remaining r) ≤ left
  flushed : Flushed r.phase (pending r)
  cancelled : r.cancelled ≡ true

step-Stopping :
    (r r' : Recorder) (ev : Event)
    → OfDrain ev
    → step r ev ≡ some r'
    → r.cancelled ≡ true
    → Flushed r.phase (pending r)
    → Stopping (remaining r) r'
unfolding step
step-Stopping r r' (decided x) o e c f = absurd o
step-Stopping r r' stopped o e c f = absurd o
step-Stopping r r' received o e c f = ground arith
step-Stopping r r' (wrote inserted) o e c f = ground arith
step-Stopping r r' (wrote refused) o e c f = ground arith
step-Stopping r r' (wrote unheard) o e c f = ground arith
step-Stopping r r' noticed o e c f = ground arith
step-Stopping r r' emptied o e c f = ground arith

-- Drain can take a step, unless it has returned.
abbrev pub CanGo : Recorder → Type 0
CanGo r = (ev : Event) × OfDrain ev × (r' : Recorder) × (step r ev ≡ some r')

can_go :
    (r : Recorder) (w : Option (Entry × Bool)) (p : Phase) (q : List Entry)
    → r.writing ≡ w
    → r.phase ≡ p
    → r.queue ≡ q
    → r.cancelled ≡ true
    → Flushed p (pending_of w q)
    → CanGo r ⊎ ((r.phase ≡ ended) × (pending r ≡ []))
unfolding step
can_go r none serving q ew ep eq c f =
    inl (noticed, tt, record r { phase = flushing }, rw (ew, ep, c) refl)
can_go r none flushing [] ew ep eq c f =
    inl (emptied, tt, record r { phase = ended }, rw (ew, ep, eq) refl)
can_go r none flushing (e ∷ q) ew ep eq c f =
    inl (received, tt, record r { queue = q; writing = some (e, false) }, rw (ew, ep, eq) refl)
can_go r (some (e, true)) p q ew ep eq c f = inl (
  wrote refused,
  tt,
  record r { writing = none; log = r.log ++ cannot_record ∷ [] },
  rw (ew, step) refl,
)
can_go r (some (e, false)) p q ew ep eq c f = inl (
  wrote refused,
  tt,
  record r { writing = none; log = r.log ++ cannot_record ∷ [] },
  rw (ew, step) refl,
)
can_go r none ended q ew ep eq c f = inr (ep, rw (ew, eq) f)

drained :
    (r r' : Recorder) (evs : List Event)
    → All OfDrain evs
    → run r evs ≡ some r'
    → r.cancelled ≡ true
    → Flushed r.phase (pending r)
    → (length evs ≤ remaining r) × (CanGo r' ⊎ ((r'.phase ≡ ended) × (pending r' ≡ [])))
unfolding run
drained r r' [] o e c f =
    let same : r ≡ r' = cc e in
    (omega arith, rw⁻¹ same (can_go r r.writing r.phase r.queue refl refl refl c f))
drained r r' (ev ∷ evs) o e c f = elim (Option-cases (step r ev)) [
  | inl n ↦ let no : none ≡ some r' = rw (n, run) at e in cc no
  | inr (t, s) ↦
      let go : run t evs ≡ some r' = rw (s, run) at e in
      let st = step-Stopping r t ev o.0 s c f in
      let (short, left) = drained t r' evs o.1 go st.cancelled st.flushed in
      (omega (arith, short, st.less), left)
]

-- Once stop was called and no request records a decision any more, and if nothing waits in case drain
-- has returned already, drain takes at most `remaining` steps, which is at most twice the entries that
-- wait and three, whatever the database does and whichever ready case a select takes; when it can take
-- no further step it has returned, and nothing is left in the channel.
pub stop_returns :
    (r r' : Recorder) (evs : List Event)
    → r.cancelled ≡ true
    → Flushed r.phase (pending r)
    → All OfDrain evs
    → run r evs ≡ some r'
    → (length evs ≤ remaining r)
      × (remaining r ≤ 2 * length (pending r) + 3)
      × (CanGo r' ⊎ ((r'.phase ≡ ended) × (pending r' ≡ [])))
stop_returns r r' evs c f o e =
    let (short, left) = drained r r' evs o e c f in (short, ground arith, left)

-- ===== src/Conn/Stream.antt =====
-- One response body of internal/uplink/conn.go: the frames that the read loop takes in, and what
-- pump hands to the reader, in any interleaving of the two.
use dsh_fleet.Base.{
  ℕ, suc, ◌≡◌, refl, ap, sym, ◌∙◌, true, false, List, [], ◌∷◌, ◌++◌, Option, none, some, Bytes, All,
}
use mathlib.Core.List.{append_assoc, append-nil}
use dsh_fleet.Base.Result.{ok, err, pos}
use dsh_fleet.Envelope.Payload.{bytes}
use dsh_fleet.Envelope.Frames.{Data, End}
use dsh_fleet.Conn.State.{Pending, Conn, Run, runs, panics}
use dsh_fleet.Conn.Request.{
  Pumped, idle, wrote, ended, broken, reader_gone, pump, begin_do, new_pending,
}
use dsh_fleet.Conn.Delivery.{
  Delivered, deliver_lem, Arrived, on_data_lem, Finished, on_end_lem, Took, pump_lem,
}
use dsh_fleet.Conn.Correlation.{NewRequest, begin_do-NewRequest}
use dsh_fleet.Conn.Invariant.Store.{IsValid}
use dsh_fleet.Conn.Invariant.Calls.{InRange}
use dsh_fleet.Conn.Dispatch.{
  Outcome, continues, stops, hands, blocks, crashes, Handover, to_body, lookup, deliver, hand,
  on_data, on_end,
}

-- The read loop looks up a data frame or an end frame, or sends what it has looked up; or pump takes a
-- chunk and the reader still reads.
pub data Act : Type 0 where
  arrives : Data → Act
  finishes : End → Act
  sends : Act
  takes : Act

abbrev taking : Option Bytes → Option (List (Option Bytes)) → Option (List (Option Bytes))
taking chunk none = none
taking chunk (some rest) = some (chunk ∷ rest)

abbrev nothing_after : List Act → Option (List (Option Bytes))
nothing_after [] = some (none ∷ [])
nothing_after (_ ∷ _) = none

-- What pump has taken, `none` for the end of the body; `held` is what the read loop is about to send.
-- No result if the connection stops, the read loop waits or acts out of turn, or something is left to
-- do after the end.
unfoldable pub run : Conn → Bytes → ℕ → Option Handover → List Act → Option (List (Option Bytes))
unfolding on_data on_end hand pump
run c id a held [] = some []
run c id a none (arrives f ∷ acts) = elim (on_data c f) [
  | continues c' ↦ run c' id a none acts
  | hands c' s ↦ run c' id a (some s) acts
  | _ ↦ none
]
run c id a none (finishes f ∷ acts) = elim (on_end c f) [
  | continues c' ↦ run c' id a none acts
  | hands c' s ↦ run c' id a (some s) acts
  | _ ↦ none
]
run c id a (some s) (sends ∷ acts) = elim (hand false c s) [
  | continues c' ↦ run c' id a none acts
  | _ ↦ none
]
run c id a held (takes ∷ acts) = elim (pump true true c id a) [
  | runs (wrote b c') ↦ taking (some b) (run c' id a held acts)
  | runs (ended c') ↦ nothing_after acts
  | _ ↦ none
]
run c id a _ _ = none

-- Every frame is one of this request.
abbrev pub Concerns : Bytes → Act → Type 0
Concerns id (arrives f) = f.id ≡ id
Concerns id (finishes f) = f.id ≡ id
Concerns id _ = Unit

-- The frames that count: sequence numbers run from n up with no gap or repeat, and an end frame
-- claims the number of chunks before it.
abbrev pub Counts : ℕ → List Act → Type 0
Counts n [] = Unit
Counts n (arrives f ∷ acts) = (f.seq ≡ pos n) × Counts (suc n) acts
Counts n (finishes f ∷ acts) = (f.chunks ≡ pos n) × Counts n acts
Counts n (_ ∷ acts) = Counts n acts

-- The decoded bodies in the order of arrival, `none` for an end frame.
unfoldable pub arrivals : List Act → List (Option Bytes)
arrivals [] = []
arrivals (arrives f ∷ acts) = elim (bytes f.body) [
  | ok b ↦ some b ∷ arrivals acts
  | err e ↦ arrivals acts
]
arrivals (finishes f ∷ acts) = none ∷ arrivals acts
arrivals (_ ∷ acts) = arrivals acts

-- The chunk that is about to be sent, and where it goes.
abbrev handing : ℕ → Option (Option Bytes) → Option Handover
handing a none = none
handing a (some chunk) = some (to_body a chunk)

abbrev chunk_of : Option (Option Bytes) → List (Option Bytes)
chunk_of none = []
chunk_of (some chunk) = chunk ∷ []

-- The buffer of a request that is registered under the id with the chunk on its way, and the number it
-- waits for next.
abbrev Streams : ℕ → List (Option Bytes) → List Act → List (Option Bytes) → Type 0
Streams n buffer acts taken =
    (rest : List (Option Bytes)) × (taken ++ rest ≡ buffer ++ arrivals acts) × Counts n acts

abbrev RunLem : List Act → Type 0
RunLem acts =
    (c : Conn) (id : Bytes) (a : ℕ) (p : Pending) (h : Option (Option Bytes))
    (taken : List (Option Bytes))
    → lookup c id ≡ some a
    → c.requests a ≡ some p
    → All (Concerns id) acts
    → run c id a (handing a h) acts ≡ some taken
    → Streams p.next_seq (p.chunks.buffer ++ chunk_of h) acts taken

-- One chunk more in the buffer stands for one arrival less.
shift :
    (buffer held taken rest more : List (Option Bytes)) (chunk : Option Bytes)
    → held ≡ buffer ++ chunk ∷ []
    → taken ++ rest ≡ held ++ more
    → taken ++ rest ≡ buffer ++ chunk ∷ more
shift buffer held taken rest more chunk k e =
    e ∙ ap (λ l. l ++ more) k ∙ append_assoc buffer (chunk ∷ []) more

run-arrives : (f : Data) (acts : List Act) → RunLem acts → RunLem (arrives f ∷ acts)
unfolding run arrivals
run-arrives f acts ih c id a p (some chunk) taken e g h r = cc r
run-arrives f acts ih c id a p none taken e g h r =
    go (on_data c f) refl (on_data_lem c id a p f e g h.0)
  where
    go :
        (o : Outcome)
        → on_data c f ≡ o
        → Arrived id a p f o
        → Streams p.next_seq (p.chunks.buffer ++ []) (arrives f ∷ acts) taken
    go (continues c') q y = absurd y
    go (hands c' s) q (b, x, y, to, k) =
        let r' : run c' id a (some (to_body a (some b))) acts ≡ some taken = rw (q, run, to) at r in
        let (rest, s, n) = ih c' id a k.object (some (some b)) taken k.found k.stored h.1 r' in
        (
          rest,
          rw (x, arrivals, append-nil)
              (shift p.chunks.buffer _ taken rest (arrivals acts) (some b)
                (ap (λ l. l ++ some b ∷ []) k.held) s),
          (y, rw k.seq at n),
        )
    go (stops c' x) q y = cc (rw (q, run) at r)
    go blocks q y = cc (rw (q, run) at r)
    go crashes q y = cc (rw (q, run) at r)

run-finishes : (f : End) (acts : List Act) → RunLem acts → RunLem (finishes f ∷ acts)
unfolding run arrivals
run-finishes f acts ih c id a p (some chunk) taken e g h r = cc r
run-finishes f acts ih c id a p none taken e g h r =
    go (on_end c f) refl (on_end_lem c id a p f e g h.0)
  where
    go :
        (o : Outcome)
        → on_end c f ≡ o
        → Finished id a p f o
        → Streams p.next_seq (p.chunks.buffer ++ []) (finishes f ∷ acts) taken
    go (continues c') q y = absurd y
    go (hands c' s) q (y, to, k) =
        let r' : run c' id a (some (to_body a none)) acts ≡ some taken = rw (q, run, to) at r in
        let (rest, s, n) = ih c' id a k.object (some none) taken k.found k.stored h.1 r' in
        (
          rest,
          rw append-nil (
              shift p.chunks.buffer _ taken rest (arrivals acts) none
                (ap (λ l. l ++ none ∷ []) k.held) s),
          (y, rw k.seq at n),
        )
    go (stops c' x) q y = cc (rw (q, run) at r)
    go blocks q y = cc (rw (q, run) at r)
    go crashes q y = cc (rw (q, run) at r)

run-sends : (acts : List Act) → RunLem acts → RunLem (sends ∷ acts)
unfolding run arrivals hand
run-sends acts ih c id a p none taken e g h r = cc r
run-sends acts ih c id a p (some chunk) taken e g h r =
    go (deliver false c a chunk) refl (deliver_lem c id a p chunk e g)
  where
    go :
        (o : Outcome)
        → deliver false c a chunk ≡ o
        → Delivered id a p.next_seq (p.chunks.buffer ++ chunk ∷ []) o
        → Streams p.next_seq (p.chunks.buffer ++ chunk ∷ []) (sends ∷ acts) taken
    go (continues c') q k =
        let r' : run c' id a none acts ≡ some taken = rw (q, run, hand) at r in
        let (rest, s, n) = ih c' id a k.object none taken k.found k.stored h.1 r' in
        (rest, rw (append-nil, k.held) at s, rw k.seq at n)
    go (hands c' s) q k = cc (rw (q, run, hand) at r)
    go (stops c' x) q y = cc (rw (q, run, hand) at r)
    go blocks q y = cc (rw (q, run, hand) at r)
    go crashes q y = cc (rw (q, run, hand) at r)

taking_inv :
    (chunk : Option Bytes) (m : Option (List (Option Bytes))) (taken : List (Option Bytes))
    → taking chunk m ≡ some taken
    → (more : List (Option Bytes)) × (m ≡ some more) × (taken ≡ chunk ∷ more)
taking_inv chunk none taken h = cc
taking_inv chunk (some more) taken h = (more, refl, cc)

nothing_after_inv :
    (n : ℕ) (acts : List Act) (taken : List (Option Bytes))
    → nothing_after acts ≡ some taken
    → (taken ≡ none ∷ []) × (arrivals acts ≡ []) × Counts n acts
unfolding arrivals
nothing_after_inv n [] taken h = (cc, refl, tt)
nothing_after_inv n (act ∷ acts) taken h = cc

-- The rest of a run after a round of pump.
abbrev taken_by :
    Option Handover → List Act → Conn → Bytes → ℕ → Run Pumped → Option (List (Option Bytes))
taken_by held acts c id a m = elim m [
  | runs (wrote b c') ↦ taking (some b) (run c' id a held acts)
  | runs (ended c') ↦ nothing_after acts
  | _ ↦ none
]

-- pump runs whatever the read loop holds.
takes_lem :
    (c : Conn) (id : Bytes) (a : ℕ) (held : Option Handover) (acts : List Act)
    → run c id a held (takes ∷ acts) ≡ taken_by held acts c id a (pump true true c id a)
unfolding run
takes_lem c id a none acts = refl
takes_lem c id a (some s) acts = refl

run-takes : (acts : List Act) → RunLem acts → RunLem (takes ∷ acts)
unfolding run arrivals
run-takes acts ih c id a p held taken e g h r₀ =
    go (pump true true c id a) refl (pump_lem c id a p e g)
  where
    r : taken_by (handing a held) acts c id a (pump true true c id a) ≡ some taken
    r = sym (takes_lem c id a (handing a held) acts) ∙ r₀

    go :
        (m : Run Pumped)
        → pump true true c id a ≡ m
        → Took id a p m
        → Streams p.next_seq (p.chunks.buffer ++ chunk_of held) (takes ∷ acts) taken
    go (runs (wrote b c')) q (tail, t, k) =
        let r' : taking (some b) (run c' id a (handing a held) acts) ≡ some taken = rw q at r in
        let (more, m, u) = taking_inv (some b) (run c' id a (handing a held) acts) taken r' in
        let (rest, s, n) = ih c' id a k.object held more k.found k.stored h.1 m in
        (
          rest,
          rw (u, t)
              (ap (λ l. some b ∷ l) (s ∙ ap (λ l. (l ++ chunk_of held) ++ arrivals acts) k.held)),
          rw k.seq at n,
        )
    go (runs (ended c')) q (tail, t) =
        let r' : nothing_after acts ≡ some taken = rw q at r in
        let (u, w, n) = nothing_after_inv p.next_seq acts taken r' in
        (tail ++ chunk_of held, rw (u, t, w) (sym (append-nil (none ∷ tail ++ chunk_of held))), n)
    go (runs idle) q t = cc (rw q at r)
    go (runs (broken c')) q t = cc (rw q at r)
    go (runs (reader_gone c')) q t = cc (rw q at r)
    go panics q t = cc (rw q at r)

run_lem : (acts : List Act) → RunLem acts
unfolding run arrivals
run_lem [] = λ c id a p held taken e g h r.
    (p.chunks.buffer ++ chunk_of held, cc (append-nil (p.chunks.buffer ++ chunk_of held)), tt)
run_lem (arrives f ∷ acts) = run-arrives f acts (run_lem acts)
run_lem (finishes f ∷ acts) = run-finishes f acts (run_lem acts)
run_lem (sends ∷ acts) = run-sends acts (run_lem acts)
run_lem (takes ∷ acts) = run-takes acts (run_lem acts)

-- For a request that Do has just begun, let its frames be looked up and sent by the read loop and let
-- pump take chunks in any order, also between the look-up and the send of a frame, as long as the
-- connection goes on. Then what pump has taken, the end mark included, is an initial part
-- of the decoded bodies in the order of their arrival, the sequence numbers that arrived are 0, 1, 2
-- and so on with no gap or repeat, and each end frame claims as many chunks as came before it.
pub stream_integrity :
    (c c' : Conn) (id : Bytes) (a : ℕ) (acts : List Act) (taken : List (Option Bytes))
    → IsValid c
    → InRange c
    → begin_do c ≡ ok (id, a, c')
    → All (Concerns id) acts
    → run c' id a none acts ≡ some taken
    → (rest : List (Option Bytes)) × (taken ++ rest ≡ arrivals acts) × Counts 0 acts
unfolding lookup
stream_integrity c c' id a acts taken v r b h e =
    let n : NewRequest c (ok (id, a, c')) = rw b at (begin_do-NewRequest c v r) in
    run_lem acts c' id a new_pending none taken n.4 n.3 h e

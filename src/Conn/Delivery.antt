-- ===== src/Conn/Delivery.antt =====
-- What one data or end frame and one round of pump of internal/uplink/conn.go do to a request.
use dsh_fleet.Base.{
  ℕ, suc, ◌≡◌, refl, ap, ◌∙◌, true, false, List, [], ◌∷◌, ◌++◌, Option, none, some, arith, Bytes,
  if-cases, inl, inr,
}
use dsh_fleet.Base.Dict.{find}
use dsh_fleet.Base.Result.{Result-cases, ok, ℤ, pos, negsuc, is_count}
use dsh_fleet.Envelope.Payload.{bytes}
use dsh_fleet.Envelope.Frames.{Data, End}
use dsh_fleet.Conn.Chan.{Chan, send-cases, receive-cases}
use dsh_fleet.Conn.State.{Pending, Conn, Run, runs, panics, ◌>>=◌, update}
use dsh_fleet.Conn.Close.{settle}
use dsh_fleet.Conn.Request.{Pumped, wrote, ended, broken, after_chunk, pump}
use dsh_fleet.Conn.Dispatch.{
  Outcome, continues, hands, to_body, lookup, with_request, deliver, counted, on_data, on_end,
}

count_iff : (z : ℤ) (n : ℕ) → is_count z n ≡ true → z ≡ pos n
count_iff (pos k) n h = ground arith
count_iff (negsuc k) n h = ground arith

-- A request's object after the read loop has put a chunk into it.
pub record Holds (c : Conn) (id : Bytes) (a n : ℕ) (buffer : List (Option Bytes)) : Type 0 where
  pub object : Pending
  pub found : lookup c id ≡ some a
  pub stored : c.requests a ≡ some object
  pub seq : object.next_seq ≡ n
  pub held : object.chunks.buffer ≡ buffer

-- What the send leaves, if it neither waits nor fails.
abbrev pub Delivered : Bytes → ℕ → ℕ → List (Option Bytes) → Outcome → Type 0
Delivered id a n buffer (continues c) = Holds c id a n buffer
Delivered id a n buffer _ = Unit

pub deliver_lem :
    (c : Conn) (id : Bytes) (a : ℕ) (p : Pending) (chunk : Option Bytes)
    → lookup c id ≡ some a
    → c.requests a ≡ some p
    → Delivered id a p.next_seq (p.chunks.buffer ++ chunk ∷ []) (deliver false c a chunk)
unfolding deliver lookup
deliver_lem c id a p chunk e g =
    rw (g, deliver)
      (elim (send-cases p.chunks chunk) [
        | inl (t, s) ↦ rw s tt
        | inr (o, inl s) ↦ rw s tt
        | inr (o, inr (ch, s, k, b)) ↦ rw s (record {
          object = record p { chunks = ch };
          found = e;
          stored = ground arith;
          seq = refl;
          held = b;
        })
      ])

-- A frame has been looked up: its chunk is about to be sent, and the object counts it.
abbrev pub Arrived : Bytes → ℕ → Pending → Data → Outcome → Type 0
Arrived id a p f (continues c) = ⊥
Arrived id a p f (hands c s) =
    (b : Bytes) × (bytes f.body ≡ ok b)
    × (f.seq ≡ pos p.next_seq)
    × (s ≡ to_body a (some b))
    × Holds c id a (suc p.next_seq) p.chunks.buffer
Arrived id a p f _ = Unit

pub on_data_lem :
    (c : Conn) (id : Bytes) (a : ℕ) (p : Pending) (f : Data)
    → lookup c id ≡ some a
    → c.requests a ≡ some p
    → f.id ≡ id
    → Arrived id a p f (on_data c f)
unfolding on_data with_request lookup
on_data_lem c id a p f e g q =
    let e' : find f.id c.pending ≡ some a = ap (λ i. find i c.pending) q ∙ e in
    rw (e', on_data, with_request, g)
      (if-cases (Arrived id a p f) (is_count f.seq p.next_seq) _ _
        (λ t. elim (Result-cases (bytes f.body)) [
          | inl (b, r) ↦ rw r (
            b,
            r,
            count_iff f.seq p.next_seq t,
            refl,
            record {
              object = counted p;
              found = e;
              stored = ground arith;
              seq = refl;
              held = refl;
            },
          )
          | inr (x, r) ↦ rw r tt
        ])
        (λ t. tt))

abbrev pub Finished : Bytes → ℕ → Pending → End → Outcome → Type 0
Finished id a p f (continues c) = ⊥
Finished id a p f (hands c s) =
    (f.chunks ≡ pos p.next_seq) × (s ≡ to_body a none) × Holds c id a p.next_seq p.chunks.buffer
Finished id a p f _ = Unit

pub on_end_lem :
    (c : Conn) (id : Bytes) (a : ℕ) (p : Pending) (f : End)
    → lookup c id ≡ some a
    → c.requests a ≡ some p
    → f.id ≡ id
    → Finished id a p f (on_end c f)
unfolding on_end with_request lookup
on_end_lem c id a p f e g q =
    let e' : find f.id c.pending ≡ some a = ap (λ i. find i c.pending) q ∙ e in
    rw (e', on_end, with_request, g)
      (if-cases (Finished id a p f) (is_count f.chunks p.next_seq) _ _
        (λ t. (
          count_iff f.chunks p.next_seq t,
          refl,
          record { object = p; found = e; stored = g; seq = refl; held = refl },
        ))
        (λ t. tt))

-- What a round of pump takes off the buffer.
abbrev pub Took : Bytes → ℕ → Pending → Run Pumped → Type 0
Took id a p (runs (wrote b c)) =
    (tail : List (Option Bytes)) × (p.chunks.buffer ≡ some b ∷ tail) × Holds c id a p.next_seq tail
Took id a p (runs (ended c)) = (tail : List (Option Bytes)) × (p.chunks.buffer ≡ none ∷ tail)
Took id a p _ = Unit

Took-end :
    (id : Bytes) (a : ℕ) (p : Pending) (tail : List (Option Bytes)) (m : Run Conn)
    → p.chunks.buffer ≡ none ∷ tail
    → Took id a p (m >>= λ c. runs (ended c))
Took-end id a p tail (runs c) q = (tail, q)
Took-end id a p tail panics q = tt

Took-broken :
    (id : Bytes) (a : ℕ) (p : Pending) (m : Run Conn) → Took id a p (m >>= λ c. runs (broken c))
Took-broken id a p (runs c) = tt
Took-broken id a p panics = tt

pub pump_lem :
    (c : Conn) (id : Bytes) (a : ℕ) (p : Pending)
    → lookup c id ≡ some a
    → c.requests a ≡ some p
    → Took id a p (pump true true c id a)
unfolding pump lookup
pump_lem c id a p e g =
    rw (g, pump)
      (elim (receive-cases p.chunks) [
        | inl (inl f) ↦ rw f tt
        | inl (inr f) ↦ rw f (Took-broken id a p (settle c id))
        | inr (chunk, rest, f, o, q) ↦ rw f (taken chunk rest q)
      ])
  where
    taken :
        (chunk : Option Bytes) (rest : Chan (Option Bytes))
        → p.chunks.buffer ≡ chunk ∷ rest.buffer
        → Took id a p (
            after_chunk true true id
              (record c { requests = update c.requests a (record p { chunks = rest }) })
              chunk)
    taken none rest q = Took-end id a p rest.buffer (settle _ id) q
    taken (some b) rest q = (
      rest.buffer,
      q,
      record {
        object = record p { chunks = rest };
        found = e;
        stored = ground arith;
        seq = refl;
        held = refl;
      },
    )

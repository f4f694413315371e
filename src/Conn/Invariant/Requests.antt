-- ===== src/Conn/Invariant/Requests.antt =====
-- The look-ups and the sends of the read loop keep the invariant, and a send panics only where its
-- channel was closed after the look-up.
use dsh_fleet.Base.{
  ℕ, ◌≡◌, refl, sym, ◌∙◌, Bool, true, false, Option, none, some, arith, Bytes, Option-cases,
  if-cases, inl, inr,
}
use dsh_fleet.Base.Dict.{find}
use dsh_fleet.Base.Result.{Result-cases, ok, err, is_count}
use dsh_fleet.Envelope.Payload.{bytes}
use dsh_fleet.Envelope.Frames.{Data, End}
use dsh_fleet.Conn.Chan.{send-cases}
use dsh_fleet.Conn.State.{
  Response, RequestError, Pending, Bridge, Conn, bad_payload, Run, runs, panics,
}
use dsh_fleet.Conn.Close.{close_chunks}
use dsh_fleet.Conn.Dispatch.{
  Outcome, continues, stops, hands, blocks, crashes, Handover, to_head, to_body, to_fail, to_up,
  to_messages, lookup, put_request, with_request, with_socket, deliver, counted, on_data, on_end,
  give_head, give_failure, give_up, relay, hand,
}
use dsh_fleet.Conn.Invariant.Store.{
  Allocated, put_socket-IsValid, IsSound, Listening, IsValid, Returns, put_request-IsValid,
}
use dsh_fleet.Conn.Invariant.Closing.{close_chunks-IsSound}

-- The object that a send is for is on the heap.
abbrev pub Target : Conn → Handover → Type 0
Target c (to_head a response) = Allocated (c.requests a)
Target c (to_body a chunk) = Allocated (c.requests a)
Target c (to_fail a e) = Allocated (c.requests a)
Target c (to_up a protocol) = Allocated (c.sockets a)
Target c (to_messages a text) = Allocated (c.sockets a)

-- The object at the address has had its chunks closed.
abbrev pub BodyClosed : Option Pending → Type 0
BodyClosed none = ⊥
BodyClosed (some p) = p.once ≡ true

abbrev MessagesClosed : Option Bridge → Type 0
MessagesClosed none = ⊥
MessagesClosed (some b) = b.messages.is_closed ≡ true

-- The two ways for the read loop to panic: the channel was closed after the look-up.
abbrev pub ClosedUnder : Conn → Handover → Type 0
ClosedUnder c (to_body a chunk) = BodyClosed (c.requests a)
ClosedUnder c (to_messages a text) = MessagesClosed (c.sockets a)
ClosedUnder c _ = ⊥

-- An outcome leaves a valid connection, with the object of a send still there, or it is a panic that
-- `Why` explains.
abbrev pub Handles : Type 0 → Outcome → Type 0
Handles Why (continues c) = IsValid c
Handles Why (stops c e) = IsValid c
Handles Why (hands c s) = IsValid c × Target c s
Handles Why blocks = Unit
Handles Why crashes = Why

with_request-Handles :
    (Why : Type 0) (c : Conn) (id : Bytes) (k : ℕ → Pending → Outcome)
    → IsValid c
    → ((a : ℕ) (p : Pending) → lookup c id ≡ some a → c.requests a ≡ some p → Handles Why (k a p))
    → Handles Why (with_request c id k)
unfolding with_request
with_request-Handles Why c id k v h = elim (Option-cases (find id c.pending)) [
  | inl e ↦ rw (e, with_request) v
  | inr (a, e) ↦ elim (Option-cases (c.requests a)) [
    | inl f ↦ absurd (rw f at (v.registered id a e))
    | inr (p, f) ↦ rw (e, with_request, f) (h a p e f)
  ]
]

pub with_socket-Handles :
    (Why : Type 0) (c : Conn) (id : Bytes) (k : ℕ → Bridge → Outcome)
    → IsValid c
    → ((a : ℕ) (b : Bridge)
        → find id c.bridges ≡ some a
        → c.sockets a ≡ some b
        → b.messages.is_closed ≡ false
        → Handles Why (k a b))
    → Handles Why (with_socket c id k)
unfolding with_socket
with_socket-Handles Why c id k v h = elim (Option-cases (find id c.bridges)) [
  | inl e ↦ rw (e, with_socket) v
  | inr (a, e) ↦ elim (Option-cases (c.sockets a)) [
    | inl f ↦ absurd (rw f at (v.listening id a e))
    | inr (b, f) ↦
        let l : Listening id (some b) = rw f at (v.listening id a e) in
        rw (e, with_socket, f) (h a b e f l.1)
  ]
]

-- A send to the object at an address, which is there.
at_request :
    (Why : Type 0) (c : Conn) (a : ℕ) (k : Pending → Outcome)
    → Allocated (c.requests a)
    → ((p : Pending) → c.requests a ≡ some p → Handles Why (k p))
    → Handles Why (elim (c.requests a) [ none ↦ crashes | some p ↦ k p ])
at_request Why c a k h f = elim (Option-cases (c.requests a)) [
  | inl e ↦ absurd (rw e at h)
  | inr (p, e) ↦ rw e (f p e)
]

at_socket :
    (Why : Type 0) (c : Conn) (a : ℕ) (k : Bridge → Outcome)
    → Allocated (c.sockets a)
    → ((b : Bridge) → c.sockets a ≡ some b → Handles Why (k b))
    → Handles Why (elim (c.sockets a) [ none ↦ crashes | some b ↦ k b ])
at_socket Why c a k h f = elim (Option-cases (c.sockets a)) [
  | inl e ↦ absurd (rw e at h)
  | inr (b, e) ↦ rw e (f b e)
]

deliver-Handles :
    (takes_context : Bool) (c : Conn) (a : ℕ) (chunk : Option Bytes)
    → IsValid c
    → Allocated (c.requests a)
    → Handles (BodyClosed (c.requests a)) (deliver takes_context c a chunk)
unfolding deliver
deliver-Handles takes_context c a chunk v h =
    if-cases (Handles Why) takes_context _ _ (λ t. v)
      λ f. at_request Why c a _ h λ p e. elim (send-cases p.chunks chunk) [
        | inl (t, s) ↦ rw s (rw e ((v.sound a p e).once_closed ∙ t))
        | inr (o, inl s) ↦ rw s tt
        | inr (o, inr (ch, s, k, b)) ↦ rw s (
            put_request-IsValid c a p _ v e (record {
              once_closed = (v.sound a p e).once_closed ∙ sym k;
              head_open = (v.sound a p e).head_open;
              fail_open = (v.sound a p e).fail_open;
            }))
      ]
  where
    Why : Type 0
    Why = BodyClosed (c.requests a)

give_head-Handles :
    (c : Conn) (a : ℕ) (r : Response)
    → IsValid c
    → Allocated (c.requests a)
    → Handles ⊥ (give_head c a r)
unfolding give_head
give_head-Handles c a r v h = at_request ⊥ c a _ h λ p g. elim (send-cases p.head r) [
  | inl (t, s) ↦ cc (t, (v.sound a p g).head_open)
  | inr (o, inl s) ↦ rw s tt
  | inr (o, inr (ch, s, k, b)) ↦ rw s (
      put_request-IsValid c a p _ v g (record {
        once_closed = (v.sound a p g).once_closed;
        head_open = k ∙ o;
        fail_open = (v.sound a p g).fail_open;
      }))
]

give_failure-Handles :
    (c : Conn) (a : ℕ) (e : RequestError)
    → IsValid c
    → Allocated (c.requests a)
    → Handles ⊥ (give_failure c a e)
unfolding give_failure
give_failure-Handles c a e v h = at_request ⊥ c a _ h λ p g. elim (send-cases p.fail e) [
  | inl (t, s) ↦ cc (t, (v.sound a p g).fail_open)
  | inr (o, inl s) ↦ rw s (closing p g (close_chunks p) (close_chunks-IsSound p (v.sound a p g)))
  | inr (o, inr (ch, s, k, b)) ↦ rw s (
      put_request-IsValid c a p _ v g (record {
        once_closed = (v.sound a p g).once_closed;
        head_open = (v.sound a p g).head_open;
        fail_open = k ∙ o;
      }))
]
  where
    closing :
        (p : Pending)
        → c.requests a ≡ some p
        → (m : Run Pending) → Returns IsSound m
        → Handles ⊥ (elim m [ runs p' ↦ continues (put_request c a p') | panics ↦ crashes ])
    closing p g (runs q) s = put_request-IsValid c a p q v g s
    closing p g panics s = s

still_open :
    (c : Conn) (a : ℕ) (b : Bridge)
    → IsValid c
    → c.sockets a ≡ some b
    → find b.id c.bridges ≡ some a
    → b.messages.is_closed ≡ false
still_open c a b v g f = let l : Listening b.id (some b) = rw g at (v.listening b.id a f) in l.1

give_up-Handles :
    (c : Conn) (a : ℕ) (protocol : Bytes)
    → IsValid c
    → Allocated (c.sockets a)
    → Handles ⊥ (give_up c a protocol)
unfolding give_up
give_up-Handles c a protocol v h = at_socket ⊥ c a _ h λ b g. elim (send-cases b.up protocol) [
  | inl (t, s) ↦ cc (t, v.up_open a b g)
  | inr (u, inl s) ↦ rw s v
  | inr (u, inr (ch, s, k, _)) ↦
      rw s (put_socket-IsValid c a b _ v g refl (k ∙ u) (still_open c a b v g))
]

relay-Handles :
    (takes_context : Bool) (c : Conn) (a : ℕ) (text : Bytes)
    → IsValid c
    → Allocated (c.sockets a)
    → Handles (MessagesClosed (c.sockets a)) (relay takes_context c a text)
unfolding relay
relay-Handles takes_context c a text v h =
    if-cases (Handles Why) takes_context _ _ (λ t. v)
      λ f. at_socket Why c a _ h λ b g. elim (send-cases b.messages text) [
        | inl (t, s) ↦ rw s (rw g t)
        | inr (u, inl s) ↦ rw s tt
        | inr (u, inr (ch, s, k, _)) ↦
            rw s (put_socket-IsValid c a b _ v g refl (v.up_open a b g) (λ _. k ∙ u))
      ]
  where
    Why : Type 0
    Why = MessagesClosed (c.sockets a)

pub hand-Handles :
    (takes_context : Bool) (c : Conn) (s : Handover)
    → IsValid c
    → Target c s
    → Handles (ClosedUnder c s) (hand takes_context c s)
unfolding hand
hand-Handles t c (to_head a response) v h = give_head-Handles c a response v h
hand-Handles t c (to_body a chunk) v h = deliver-Handles t c a chunk v h
hand-Handles t c (to_fail a e) v h = give_failure-Handles c a e v h
hand-Handles t c (to_up a protocol) v h = give_up-Handles c a protocol v h
hand-Handles t c (to_messages a text) v h = relay-Handles t c a text v h

pub on_request-Handles :
    (c : Conn) (id : Bytes) (k : ℕ → Pending → Handover)
    → IsValid c
    → ((a : ℕ) (p : Pending) → Allocated (c.requests a) → Target c (k a p))
    → Handles ⊥ (with_request c id λ a p. hands c (k a p))
on_request-Handles c id k v h = with_request-Handles ⊥ c id _ v λ a p e g. (v, h a p (rw g tt))

allocated_self : (c : Conn) (a : ℕ) (p : Pending) → Allocated ((put_request c a p).requests a)
allocated_self c a p = ground arith

counted-IsSound : (p : Pending) → IsSound p → IsSound (counted p)
counted-IsSound p s = record {
  once_closed = s.once_closed;
  head_open = s.head_open;
  fail_open = s.fail_open;
}

pub on_data-Handles : (c : Conn) (f : Data) → IsValid c → Handles ⊥ (on_data c f)
unfolding on_data
on_data-Handles c f v =
    with_request-Handles ⊥ c f.id _ v
      λ a p e g. if-cases (Handles ⊥) (is_count f.seq p.next_seq) _ _ (λ t. body a p g) (λ t. v)
  where
    body :
        (a : ℕ) (p : Pending)
        → c.requests a ≡ some p
        → Handles ⊥ (elim (bytes f.body) [
          | err e ↦ stops (put_request c a (counted p)) bad_payload
          | ok chunk ↦ hands (put_request c a (counted p)) (to_body a (some chunk))
        ])
    body a p g =
        let w = put_request-IsValid c a p (counted p) v g (counted-IsSound p (v.sound a p g)) in
        elim (Result-cases (bytes f.body)) [
          | inl (chunk, r) ↦ rw r (w, allocated_self c a (counted p))
          | inr (x, r) ↦ rw r w
        ]

pub on_end-Handles : (c : Conn) (f : End) → IsValid c → Handles ⊥ (on_end c f)
unfolding on_end
on_end-Handles c f v =
    with_request-Handles ⊥ c f.id _ v λ a p e g.
      if-cases (Handles ⊥) (is_count f.chunks p.next_seq) _ _ (λ t. (v, rw g tt)) (λ t. v)

-- ===== src/Conn/Invariant/Ending.antt =====
-- shutdown closes everything in flight, once, and a second shutdown does nothing.
use dsh_fleet.Base.{
  ℕ, ◌≡◌, ◌≢◌, refl, ap, ◌∙◌, true, false, [], ◌∷◌, Option, none, some, arith, ◌==◌, Bytes, same,
  same_iff, same_refl, Option-cases, Bool-cases, if-cases, inl, inr,
}
use dsh_fleet.Base.Dict.{Dict, find}
use dsh_fleet.Registry.Online.{Distinct}
use dsh_fleet.Conn.State.{Pending, Bridge, Conn}
use dsh_fleet.Conn.Close.{
  close_chunks, close_chunks_at, close_messages_at, close_all_messages, close_all_chunks,
  close_done, shutdown,
}
use dsh_fleet.Conn.Invariant.Store.{
  IsSound, Listening, Allocated, IsValid, Returns, Returns-bind, Returns-map, put_request-IsValid,
  put_socket-IsValid,
}
use dsh_fleet.Conn.Invariant.Requests.{BodyClosed}

abbrev pub MessagesClosed : Option Bridge → Type 0
MessagesClosed none = ⊥
MessagesClosed (some b) = b.messages.is_closed ≡ true

-- What is closed stays closed, and what is allocated stays allocated.
pub record Kept (c c' : Conn) : Type 0 where
  pub bodies : (a : ℕ) → BodyClosed (c.requests a) → BodyClosed (c'.requests a)
  pub sockets : (a : ℕ) → MessagesClosed (c.sockets a) → MessagesClosed (c'.sockets a)
  pub live : (a : ℕ) → Allocated (c.requests a) → Allocated (c'.requests a)
  pub same_done : c'.done ≡ c.done
  pub same_closed : c'.closed ≡ c.closed

Kept-trans : (c d e : Conn) → Kept c d → Kept d e → Kept c e
Kept-trans c d e x y = record {
  bodies = λ a h. y.bodies a (x.bodies a h);
  sockets = λ a h. y.sockets a (x.sockets a h);
  live = λ a h. y.live a (x.live a h);
  same_done = y.same_done ∙ x.same_done;
  same_closed = y.same_closed ∙ x.same_closed;
}

-- The connection while shutdown runs: valid but for `done`, which is set last.
abbrev ending : Conn → Conn
ending c = record c { done = true }

-- One close of a bridge that is out of the map.
record ClosedAt (c : Conn) (a : ℕ) (c' : Conn) : Type 0 where
  valid : IsValid (ending c')
  kept : Kept c c'
  closed_here : MessagesClosed (c'.sockets a)
  elsewhere : (j : ℕ) → j ≢ a → c'.sockets j ≡ c.sockets j
  no_bridges : c'.bridges ≡ c.bridges

close_messages_at_lem :
    (c : Conn) (a : ℕ) (b : Bridge)
    → IsValid (ending c)
    → c.sockets a ≡ some b
    → b.messages.is_closed ≡ false
    → c.bridges ≡ []
    → Returns (ClosedAt c a) (close_messages_at c a)
unfolding close_messages_at find
close_messages_at_lem c a b v e o n =
    rw (e, close_messages_at, o)
      (record {
        valid = put_socket-IsValid (ending c) a b _ v e refl (v.up_open a b e) (λ h. cc);
        kept = record {
          bodies = λ j h. h;
          sockets = λ j h. ground arith;
          live = λ j h. h;
          same_done = refl;
          same_closed = refl;
        };
        closed_here = ground arith;
        elsewhere = λ j h. ground arith;
        no_bridges = refl;
      })

record MessagesDone (c : Conn) (bs : Dict ℕ) (c' : Conn) : Type 0 where
  valid : IsValid (ending c')
  kept : Kept c c'
  closed : (id : Bytes) (a : ℕ) → find id bs ≡ some a → MessagesClosed (c'.sockets a)

-- The bridges that are left in the list still listen after the first of them is closed.
still-Listening :
    (i id : Bytes) (a j : ℕ) (bs : Dict ℕ) (c c' : Conn) (b : Bridge)
    → c.sockets a ≡ some b
    → b.id ≡ i
    → find i bs ≡ none
    → find id bs ≡ some j
    → Listening id (c.sockets j)
    → ((k : ℕ) → k ≢ a → c'.sockets k ≡ c.sockets k)
    → Listening id (c'.sockets j)
still-Listening i id a j bs c c' b e n f h l k = elim (Bool-cases (j == a)) [
  | inl t ↦ absurd (clash (ground arith))
  | inr t ↦ rw (k j (λ q. ground arith)) l
]
  where
    clash : j ≡ a → ⊥
    clash q = let here : Listening id (some b) = rw (q, e) at l in cc (here.0, n, f, h)

close_all_messages_lem :
    (bs : Dict ℕ) (c : Conn)
    → IsValid (ending c)
    → c.bridges ≡ []
    → Distinct bs
    → ((id : Bytes) (a : ℕ) → find id bs ≡ some a → Listening id (c.sockets a))
    → Returns (MessagesDone c bs) (close_all_messages c bs)
unfolding close_all_messages find
close_all_messages_lem [] c v n d l = record {
  valid = v;
  kept = record {
    bodies = λ j h. h;
    sockets = λ j h. h;
    live = λ j h. h;
    same_done = refl;
    same_closed = refl;
  };
  closed = λ id a h. cc;
}
close_all_messages_lem ((i, a) ∷ bs) c v n d l = elim (Option-cases (c.sockets a)) [
  | inl e ↦ absurd (rw e at first)
  | inr (b, e) ↦
      let here : Listening i (some b) = rw e at first in
      Returns-bind (ClosedAt c a) (MessagesDone c ((i, a) ∷ bs)) (close_messages_at c a) _
        (close_messages_at_lem c a b v e here.1 n)
        λ c' k.
          Returns-map (MessagesDone c' bs) (MessagesDone c ((i, a) ∷ bs)) _
            (close_all_messages_lem bs c' k.valid (k.no_bridges ∙ n) d.1 λ id j h.
              still-Listening i id a j bs c c' b e here.0 d.0 h
                (l id j (ground (arith, same_iff i id, d.0))) k.elsewhere)
            λ c₂ m. record {
              valid = m.valid;
              kept = Kept-trans c c' c₂ k.kept m.kept;
              closed = λ id j h. elim (Bool-cases (same i id)) [
                | inl t ↦ let q : j ≡ a = ground arith in rw q (m.kept.sockets a k.closed_here)
                | inr t ↦ m.closed id j (ground arith)
              ];
            }
]
  where
    first : Listening i (c.sockets a)
    first = l i a (ground (arith, same_refl i))

close_chunks_closes :
    (p : Pending) → IsSound p → Returns (λ q. IsSound q × (q.once ≡ true)) (close_chunks p)
unfolding close_chunks
close_chunks_closes p s = ground arith

record BodyDone (c : Conn) (a : ℕ) (c' : Conn) : Type 0 where
  valid : IsValid (ending c')
  kept : Kept c c'
  closed_here : BodyClosed (c'.requests a)

close_chunks_at_lem :
    (c : Conn) (a : ℕ)
    → IsValid (ending c)
    → Allocated (c.requests a)
    → Returns (BodyDone c a) (close_chunks_at c a)
unfolding close_chunks_at
close_chunks_at_lem c a v h = elim (Option-cases (c.requests a)) [
  | inl e ↦ absurd (rw e at h)
  | inr (p, e) ↦
      rw (e, close_chunks_at)
        (Returns-bind (λ q. IsSound q × (q.once ≡ true)) (BodyDone c a) (close_chunks p) _
          (close_chunks_closes p (v.sound a p e))
          λ q s. record {
            valid = put_request-IsValid (ending c) a p q v e s.0;
            kept = record {
              bodies = λ j x. ground (arith, s.1);
              sockets = λ j x. x;
              live = λ j x. ground arith;
              same_done = refl;
              same_closed = refl;
            };
            closed_here = ground (arith, s.1);
          })
]

record BodiesDone (c : Conn) (ps : Dict ℕ) (c' : Conn) : Type 0 where
  valid : IsValid (ending c')
  kept : Kept c c'
  closed : (id : Bytes) (a : ℕ) → find id ps ≡ some a → BodyClosed (c'.requests a)

close_all_chunks_lem :
    (ps : Dict ℕ) (c : Conn)
    → IsValid (ending c)
    → Distinct ps
    → ((id : Bytes) (a : ℕ) → find id ps ≡ some a → Allocated (c.requests a))
    → Returns (BodiesDone c ps) (close_all_chunks c ps)
unfolding close_all_chunks find
close_all_chunks_lem [] c v d l = record {
  valid = v;
  kept = record {
    bodies = λ j h. h;
    sockets = λ j h. h;
    live = λ j h. h;
    same_done = refl;
    same_closed = refl;
  };
  closed = λ id a h. cc;
}
close_all_chunks_lem ((i, a) ∷ ps) c v d l =
    Returns-bind (BodyDone c a) (BodiesDone c ((i, a) ∷ ps)) (close_chunks_at c a) _
      (close_chunks_at_lem c a v (l i a (ground (arith, same_refl i))))
      λ c' k.
        Returns-map (BodiesDone c' ps) (BodiesDone c ((i, a) ∷ ps)) _
          (close_all_chunks_lem ps c' k.valid d.1
            λ id j h. k.kept.live j (l id j (ground (arith, same_iff i id, d.0))))
          λ c₂ m. record {
            valid = m.valid;
            kept = Kept-trans c c' c₂ k.kept m.kept;
            closed = λ id j h. elim (Bool-cases (same i id)) [
              | inl t ↦ let q : j ≡ a = ground arith in rw q (m.kept.bodies a k.closed_here)
              | inr t ↦ m.closed id j (ground arith)
            ];
          }

-- What shutdown leaves of a connection c.
pub record IsOver (c c' : Conn) : Type 0 where
  pub valid : IsValid c'
  pub closed : c'.closed ≡ true
  pub done : c'.done ≡ true
  pub bodies : (id : Bytes) (a : ℕ) → find id c.pending ≡ some a → BodyClosed (c'.requests a)
  pub sockets : (id : Bytes) (a : ℕ) → find id c.bridges ≡ some a → MessagesClosed (c'.sockets a)

abbrev emptied : Conn → Conn
emptied c = record c { closed = true; pending = []; bridges = [] }

emptied-IsValid : (c : Conn) → IsValid c → IsValid (ending (emptied c))
unfolding find
emptied-IsValid c v = record {
  sound = v.sound;
  up_open = v.up_open;
  registered = λ id a h. cc;
  listening = λ id a h. cc;
  numbered = λ id a h. cc;
  lettered = λ id a h. cc;
  one_request = tt;
  one_bridge = tt;
  fresh = v.fresh;
  emptied = λ h. (refl, refl);
  ended = refl;
}

close_done_lem :
    (c c₁ c₂ : Conn)
    → c.closed ≡ false
    → IsValid c
    → MessagesDone (emptied c) c.bridges c₁
    → BodiesDone c₁ c.pending c₂
    → Returns (IsOver c) (close_done c₂)
unfolding close_done
close_done_lem c c₁ c₂ f v m b =
    if-cases (Returns (IsOver c)) c₂.done _ _
      (λ t. cc (t, b.kept.same_done, m.kept.same_done, v.ended, f))
      λ t. record {
        valid = b.valid;
        closed = b.kept.same_closed ∙ m.kept.same_closed;
        done = refl;
        bodies = b.closed;
        sockets = λ id a h. b.kept.sockets a (m.closed id a h);
      }

-- shutdown of a valid connection ends without a panic, from any state: the connection is closed and
-- done, the body of every registered request and the messages of every registered bridge are closed.
pub shutdown-IsOver : (c : Conn) → IsValid c → Returns (IsOver c) (shutdown c)
unfolding shutdown find
shutdown-IsOver c v =
    if-cases (Returns (IsOver c)) c.closed _ _
      (λ t. record {
        valid = v;
        closed = t;
        done = v.ended ∙ t;
        bodies = λ id a h. cc (ap (find id) (v.emptied t).0, h);
        sockets = λ id a h. cc (ap (find id) (v.emptied t).1, h);
      })
      λ f.
        Returns-bind (MessagesDone (emptied c) c.bridges) (IsOver c)
          (close_all_messages (emptied c) c.bridges) _
          (close_all_messages_lem c.bridges (emptied c) (emptied-IsValid c v) refl v.one_bridge
            v.listening)
          λ c₁ m.
            Returns-bind (BodiesDone c₁ c.pending) (IsOver c) (close_all_chunks c₁ c.pending) _
              (close_all_chunks_lem c.pending c₁ m.valid v.one_request
                λ id a h. m.kept.live a (v.registered id a h))
              λ c₂ b. close_done_lem c c₁ c₂ f v m b

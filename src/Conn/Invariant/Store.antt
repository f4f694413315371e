-- ===== src/Conn/Invariant/Store.antt =====
-- The invariant, and the writes to the maps and the heap that keep it.
use dsh_fleet.Base.{ℕ, ◌≤◌, ◌≡◌, ap, true, false, List, [], ◌∷◌, Option, none, some, arith, Bytes}
use dsh_fleet.Base.Decimal.{decimal}
use dsh_fleet.Base.Dict.{find, delete, find-delete}
use dsh_fleet.Base.Result.{ℤ}
use dsh_fleet.Envelope.Frames.{Outbound}
use dsh_fleet.Registry.Online.{Distinct, delete-Distinct}
use dsh_fleet.Conn.State.{Pending, Bridge, Conn, Run, runs, panics, ◌>>=◌, update}

pub record IsSound (p : Pending) : Type 0 where
  pub once_closed : p.once ≡ p.chunks.is_closed
  pub head_open : p.head.is_closed ≡ false
  pub fail_open : p.fail.is_closed ≡ false

-- The bridge registered under `id` is that bridge, and its messages can still be closed.
abbrev pub Listening : Bytes → Option Bridge → Type 0
Listening id none = ⊥
Listening id (some b) = (b.id ≡ id) × (b.messages.is_closed ≡ false)

abbrev pub Allocated {ℓ} : {A : Type ℓ} → Option A → Type 0
Allocated none = ⊥
Allocated (some p) = Unit

-- An id that was handed out while the counter stood at n or below.
abbrev pub Numbered : ℕ → Bytes → Type 0
Numbered n id = (k : ℕ) × (id ≡ decimal k) × (k ≤ n)

abbrev pub Lettered : ℕ → Bytes → Type 0
Lettered n id = (k : ℕ) × (id ≡ b'w' ∷ decimal k) × (k ≤ n)

pub record IsValid (c : Conn) : Type 0 where
  pub sound : (a : ℕ) (p : Pending) → c.requests a ≡ some p → IsSound p
  pub up_open : (a : ℕ) (b : Bridge) → c.sockets a ≡ some b → b.up.is_closed ≡ false
  pub registered : (id : Bytes) (a : ℕ) → find id c.pending ≡ some a → Allocated (c.requests a)
  pub listening : (id : Bytes) (a : ℕ) → find id c.bridges ≡ some a → Listening id (c.sockets a)
  pub numbered : (id : Bytes) (a : ℕ) → find id c.pending ≡ some a → Numbered c.next_id id
  pub lettered : (id : Bytes) (a : ℕ) → find id c.bridges ≡ some a → Lettered c.next_id id
  pub one_request : Distinct c.pending
  pub one_bridge : Distinct c.bridges
  pub fresh : (a : ℕ) → c.next_address ≤ a → (c.requests a ≡ none) × (c.sockets a ≡ none)
  pub emptied : c.closed ≡ true → (c.pending ≡ []) × (c.bridges ≡ [])
  pub ended : c.done ≡ c.closed

-- The code runs to its end, and what it returns satisfies P.
abbrev pub Returns {ℓ} : {A : Type ℓ} → (A → Type 0) → Run A → Type 0
Returns P (runs a) = P a
Returns P panics = ⊥

pub Returns-bind {ℓ κ} :
    {A : Type ℓ} {B : Type κ} (P : A → Type 0) (Q : B → Type 0) (m : Run A) (k : A → Run B)
    → Returns P m
    → ((a : A) → P a → Returns Q (k a))
    → Returns Q (m >>= k)
Returns-bind P Q (runs a) k h step = step a h
Returns-bind P Q panics k h step = absurd h

pub Returns-map {ℓ} :
    {A : Type ℓ} (P Q : A → Type 0) (m : Run A) → Returns P m → ((a : A) → P a → Q a) → Returns Q m
Returns-map P Q (runs a) h f = f a h
Returns-map P Q panics h f = h

pub put_request-IsValid :
    (c : Conn) (a : ℕ) (p q : Pending)
    → IsValid c
    → c.requests a ≡ some p
    → IsSound q
    → IsValid (record c { requests = update c.requests a q })
put_request-IsValid c a p q v e s = record {
  sound = λ b r h. ground (arith, v.sound b r, s);
  up_open = v.up_open;
  registered = λ id b h. ground (arith, v.registered id b h);
  listening = v.listening;
  numbered = v.numbered;
  lettered = v.lettered;
  one_request = v.one_request;
  one_bridge = v.one_bridge;
  fresh = λ b h. ground (arith, v.fresh b h);
  emptied = v.emptied;
  ended = v.ended;
}

-- A write to a bridge that keeps its name, and leaves its messages open where it is registered.
pub put_socket-IsValid :
    (c : Conn) (a : ℕ) (b d : Bridge)
    → IsValid c
    → c.sockets a ≡ some b
    → d.id ≡ b.id
    → d.up.is_closed ≡ false
    → (find b.id c.bridges ≡ some a → d.messages.is_closed ≡ false)
    → IsValid (record c { sockets = update c.sockets a d })
put_socket-IsValid c a b d v e i u m = record {
  sound = v.sound;
  up_open = λ j r h. ground (arith, v.up_open j r);
  registered = v.registered;
  listening = λ id j h. ground (arith, v.listening id j h, m);
  numbered = v.numbered;
  lettered = v.lettered;
  one_request = v.one_request;
  one_bridge = v.one_bridge;
  fresh = λ j h. ground (arith, v.fresh j h);
  emptied = v.emptied;
  ended = v.ended;
}

pub delete_request-IsValid :
    (c : Conn) (id : Bytes) → IsValid c → IsValid (record c { pending = delete id c.pending })
unfolding delete
delete_request-IsValid c id v = record {
  sound = v.sound;
  up_open = v.up_open;
  registered = λ j a h. v.registered j a (ground (arith, find-delete id j c.pending));
  listening = v.listening;
  numbered = λ j a h. v.numbered j a (ground (arith, find-delete id j c.pending));
  lettered = v.lettered;
  one_request = delete-Distinct id c.pending v.one_request;
  one_bridge = v.one_bridge;
  fresh = v.fresh;
  emptied = λ h. (ap (delete id) (v.emptied h).0, (v.emptied h).1);
  ended = v.ended;
}

pub delete_bridge-IsValid :
    (c : Conn) (id : Bytes) → IsValid c → IsValid (record c { bridges = delete id c.bridges })
unfolding delete
delete_bridge-IsValid c id v = record {
  sound = v.sound;
  up_open = v.up_open;
  registered = v.registered;
  listening = λ j a h. v.listening j a (ground (arith, find-delete id j c.bridges));
  numbered = v.numbered;
  lettered = λ j a h. v.lettered j a (ground (arith, find-delete id j c.bridges));
  one_request = v.one_request;
  one_bridge = delete-Distinct id c.bridges v.one_bridge;
  fresh = v.fresh;
  emptied = λ h. ((v.emptied h).0, ap (delete id) (v.emptied h).1);
  ended = v.ended;
}

-- What goes out, and the clock, are outside the invariant.
pub bookkeeping-IsValid :
    (c : Conn) (last_pong : ℕ) (outbox : List Outbound) (recorded : List (ℤ × Bytes)) (touches : ℕ)
    → IsValid c
    → IsValid (record c {
      last_pong = last_pong;
      outbox = outbox;
      recorded = recorded;
      touches = touches;
    })
bookkeeping-IsValid c last_pong outbox recorded touches v = record {
  sound = v.sound;
  up_open = v.up_open;
  registered = v.registered;
  listening = v.listening;
  numbered = v.numbered;
  lettered = v.lettered;
  one_request = v.one_request;
  one_bridge = v.one_bridge;
  fresh = v.fresh;
  emptied = v.emptied;
  ended = v.ended;
}

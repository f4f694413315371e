-- ===== src/Conn/Invariant/Calls.antt =====
-- Do, OpenWS and pump keep the invariant at each stretch, whatever the scheduler picks.
use dsh_fleet.Base.{
  ℕ, ◌+◌, ◌<◌, ◌^◌, ◌≡◌, refl, sym, ◌∙◌, Bool, true, false, Option, none, some, arith, Bytes, same,
  same_iff, Option-cases, Bool-cases, if-cases, inl, inr,
}
use dsh_fleet.Base.Decimal.{decimal}
use dsh_fleet.Base.Dict.{Dict, find, put, find-put}
use dsh_fleet.Base.Result.{Result, ok, err}
use dsh_fleet.Registry.Online.{put-Distinct}
use dsh_fleet.Conn.Chan.{receive-cases}
use dsh_fleet.Conn.State.{
  Response, Bridge, Conn, ConnError, disconnected, context_done, open_timeout, node_error, Run,
  update, cancel_request,
}
use dsh_fleet.Conn.Close.{settle, drop_bridge}
use dsh_fleet.Conn.Request.{
  next, Call, Wait, waits, returns, settled, begin_do, send_do, Ready, on_context, on_done, on_fail,
  on_head, select_do, after_chunk, Pumped, idle, wrote, ended, broken, reader_gone, pump,
}
use dsh_fleet.Conn.Socket.{
  bridge_id, begin_open, send_open, select_open, OpenReady, on_up, on_timeout,
}
use dsh_fleet.Conn.Invariant.Store.{
  Listening, Allocated, Numbered, Lettered, IsValid, Returns, Returns-bind, put_request-IsValid,
  put_socket-IsValid,
}
use dsh_fleet.Conn.Invariant.Closing.{
  settle-IsValid, drop_bridge-IsValid, close_bridge-IsValid, cancel_request-IsValid, write-IsValid,
}

-- A new call is registered at a fresh address, or the connection has ended.
abbrev pub Began : Result ConnError (Bytes × ℕ × Conn) → Type 0
Began (ok (id, a, c)) = IsValid c × Allocated (c.requests a)
Began (err e) = Unit

abbrev pub BeganOpen : Result ConnError (Bytes × ℕ × Conn) → Type 0
BeganOpen (ok (id, a, c)) = IsValid c × Allocated (c.sockets a)
BeganOpen (err e) = Unit

-- The counter does not wrap: fewer than 2 ^ 64 calls have been made on the connection.
abbrev pub InRange : Conn → Type 0
InRange c = c.next_id + 1 < 2 ^ 64

next-InRange : (c : Conn) → InRange c → next c.next_id ≡ c.next_id + 1
next-InRange c r = omega arith

later_number :
    (c : Conn) (id : Bytes) → Numbered c.next_id id → InRange c → Numbered (next c.next_id) id
later_number c id (k, e, l) r = (k, e, omega arith)

later_letter :
    (c : Conn) (id : Bytes) → Lettered c.next_id id → InRange c → Lettered (next c.next_id) id
later_letter c id (k, e, l) r = (k, e, omega arith)

new-Numbered :
    (c : Conn) (id : Bytes) (a : ℕ)
    → IsValid c
    → InRange c
    → find id (put (decimal (next c.next_id)) c.next_address c.pending) ≡ some a
    → Numbered (next c.next_id) id
new-Numbered c id a v r h = elim (Bool-cases (same (decimal (next c.next_id)) id)) [
  | inl t ↦ (next c.next_id, sym ((same_iff _ id).0 t), omega arith)
  | inr f ↦
      later_number c id
        (v.numbered id a
          (ground (arith, find-put (decimal (next c.next_id)) id c.next_address c.pending)))
        r
]

new-Lettered :
    (c : Conn) (id : Bytes) (a : ℕ)
    → IsValid c
    → InRange c
    → find id (put (bridge_id (next c.next_id)) c.next_address c.bridges) ≡ some a
    → Lettered (next c.next_id) id
new-Lettered c id a v r h = elim (Bool-cases (same (bridge_id (next c.next_id)) id)) [
  | inl t ↦ (next c.next_id, sym ((same_iff _ id).0 t), omega arith)
  | inr f ↦
      later_letter c id
        (v.lettered id a
          (ground (arith, find-put (bridge_id (next c.next_id)) id c.next_address c.bridges)))
        r
]

pub begin_do-IsValid : (c : Conn) → IsValid c → InRange c → Began (begin_do c)
unfolding begin_do
begin_do-IsValid c v r =
    if-cases Began c.closed _ _ (λ e. tt)
      λ e. (
        record {
          sound = λ a p h. ground (arith, v.sound a p);
          up_open = v.up_open;
          registered = λ id a h. ground (
            arith,
            v.registered id a,
            find-put (decimal (next c.next_id)) id c.next_address c.pending,
          );
          listening = v.listening;
          numbered = λ id a h. new-Numbered c id a v r h;
          lettered = λ id a h. later_letter c id (v.lettered id a h) r;
          one_request = put-Distinct _ _ _ v.one_request;
          one_bridge = v.one_bridge;
          fresh = λ a h. ground (arith, v.fresh a);
          emptied = λ h. cc;
          ended = v.ended;
        },
        ground arith,
      )

pub begin_open-IsValid : (c : Conn) → IsValid c → InRange c → BeganOpen (begin_open c)
unfolding begin_open
begin_open-IsValid c v r =
    if-cases BeganOpen c.closed _ _ (λ e. tt)
      λ e. (
        record {
          sound = v.sound;
          up_open = λ a b h. ground (arith, v.up_open a b);
          registered = v.registered;
          listening = λ id a h. ground (
            arith,
            v.listening id a,
            v.fresh c.next_address,
            find-put (bridge_id (next c.next_id)) id c.next_address c.bridges,
            same_iff (bridge_id (next c.next_id)) id,
          );
          numbered = λ id a h. later_number c id (v.numbered id a h) r;
          lettered = λ id a h. new-Lettered c id a v r h;
          one_request = v.one_request;
          one_bridge = put-Distinct _ _ _ v.one_bridge;
          fresh = λ a h. ground (arith, v.fresh a);
          emptied = λ h. cc;
          ended = v.ended;
        },
        ground arith,
      )

abbrev pub Sent : Result ConnError (Unit {0}) × Conn → Type 0
Sent (r, c) = IsValid c

pub send_do-IsValid :
    (wire : Bool) (c : Conn) (id : Bytes) (call : Call)
    → IsValid c
    → Returns Sent (send_do wire c id call)
unfolding send_do
send_do-IsValid true c id call v = write-IsValid true c _ v
send_do-IsValid false c id call v =
    Returns-bind IsValid Sent (settle c id) _ (settle-IsValid c id v) λ c' h. h

pub send_open-IsValid :
    (wire : Bool) (c : Conn) (id path : Bytes) (headers : Dict Bytes)
    → IsValid c
    → Returns Sent (send_open wire c id path headers)
unfolding send_open
send_open-IsValid true c id path headers v = write-IsValid true c _ v
send_open-IsValid false c id path headers v =
    Returns-bind IsValid Sent (drop_bridge c id) _ (drop_bridge-IsValid c id v) λ c' h. h

-- A call that returns leaves a valid connection.
abbrev pub Left {ℓ} : {A : Type ℓ} → Wait A → Type 0
Left waits = Unit
Left (returns c r) = IsValid c

settled-IsValid {ℓ} :
    (A : Type ℓ) (e : ConnError) (m : Run Conn)
    → Returns IsValid m
    → Returns (Left {A = A}) (settled e m)
settled-IsValid A e m h = Returns-bind IsValid (Left {A = A}) m _ h λ c v. v

pub select_do-IsValid :
    (wire : Bool) (c : Conn) (id : Bytes) (a : ℕ) (ready : Ready)
    → IsValid c
    → Allocated (c.requests a)
    → Returns Left (select_do wire c id a ready)
unfolding select_do
select_do-IsValid wire c id a on_context v h = cancel_request-IsValid wire c id v
select_do-IsValid wire c id a on_done v h =
    if-cases (Returns Left) c.done _ _
      (λ e. settled-IsValid Response disconnected _ (settle-IsValid c id v)) (λ e. tt)
select_do-IsValid wire c id a on_fail v h = elim (Option-cases (c.requests a)) [
  | inl e ↦ absurd (rw e at h)
  | inr (p, e) ↦
      rw (e, select_do)
        (elim (receive-cases p.fail) [
          | inl (inl f) ↦ rw f tt
          | inl (inr f) ↦ rw f tt
          | inr (error, rest, f, o, b) ↦ rw f (
              settled-IsValid Response (node_error error) _ (
                settle-IsValid _ id (
                  put_request-IsValid c a p (record p { fail = rest }) v e
                    (record {
                      once_closed = (v.sound a p e).once_closed;
                      head_open = (v.sound a p e).head_open;
                      fail_open = o ∙ (v.sound a p e).fail_open;
                    }))))
        ])
]
select_do-IsValid wire c id a on_head v h = elim (Option-cases (c.requests a)) [
  | inl e ↦ absurd (rw e at h)
  | inr (p, e) ↦
      rw (e, select_do)
        (elim (receive-cases p.head) [
          | inl (inl f) ↦ rw f tt
          | inl (inr f) ↦ rw f tt
          | inr (response, rest, f, o, b) ↦ rw f (
              put_request-IsValid c a p (record p { head = rest }) v e
                (record {
                  once_closed = (v.sound a p e).once_closed;
                  head_open = o ∙ (v.sound a p e).head_open;
                  fail_open = (v.sound a p e).fail_open;
                }))
        ])
]

pub select_open-IsValid :
    (wire : Bool) (c : Conn) (id : Bytes) (a : ℕ) (ready : OpenReady)
    → IsValid c
    → Allocated (c.sockets a)
    → Returns Left (select_open wire c id a ready)
unfolding select_open
select_open-IsValid wire c id a OpenReady.on_context v h =
    settled-IsValid ℕ context_done _ (close_bridge-IsValid wire c a _ _ v h)
select_open-IsValid wire c id a OpenReady.on_done v h =
    if-cases (Returns Left) c.done _ _
      (λ e. settled-IsValid ℕ disconnected _ (drop_bridge-IsValid c id v)) (λ e. tt)
select_open-IsValid wire c id a on_up v h = elim (Option-cases (c.sockets a)) [
  | inl e ↦ absurd (rw e at h)
  | inr (b, e) ↦
      rw (e, select_open)
        (elim (receive-cases b.up) [
          | inl (inl f) ↦ rw f tt
          | inl (inr f) ↦ rw f tt
          | inr (protocol, rest, f, o, _) ↦ rw f (
              put_socket-IsValid c a b (record b { up = rest }) v e refl (o ∙ v.up_open a b e)
                λ r. (still_open b e r).1)
        ])
]
  where
    still_open :
        (b : Bridge) → c.sockets a ≡ some b → find b.id c.bridges ≡ some a → Listening b.id (some b)
    still_open b e r = rw e at (v.listening b.id a r)
select_open-IsValid wire c id a on_timeout v h =
    settled-IsValid ℕ open_timeout _ (close_bridge-IsValid wire c a _ _ v h)

-- What a round of pump leaves.
abbrev pub Pumping : Pumped → Type 0
Pumping idle = Unit
Pumping (wrote bytes c) = IsValid c
Pumping (ended c) = IsValid c
Pumping (broken c) = IsValid c
Pumping (reader_gone c) = IsValid c

pub pump-IsValid :
    (wire reading : Bool) (c : Conn) (id : Bytes) (a : ℕ)
    → IsValid c
    → Allocated (c.requests a)
    → Returns Pumping (pump wire reading c id a)
unfolding pump
pump-IsValid wire reading c id a v h = elim (Option-cases (c.requests a)) [
  | inl e ↦ absurd (rw e at h)
  | inr (p, e) ↦
      rw (e, pump)
        (elim (receive-cases p.chunks) [
          | inl (inl f) ↦ rw f tt
          | inl (inr f) ↦
              rw f (Returns-bind IsValid Pumping (settle c id) _ (settle-IsValid c id v) λ c' w. w)
          | inr (chunk, rest, f, o, _) ↦
              let taken =
                put_request-IsValid c a p (record p { chunks = rest }) v e
                  (record {
                    once_closed = (v.sound a p e).once_closed ∙ sym o;
                    head_open = (v.sound a p e).head_open;
                    fail_open = (v.sound a p e).fail_open;
                  }) in
              rw f (
                pumped chunk
                  (record c { requests = update c.requests a (record p { chunks = rest }) }) taken)
        ])
]
  where
    pumped :
        (chunk : Option Bytes) (c' : Conn)
        → IsValid c'
        → Returns Pumping (after_chunk wire reading id c' chunk)
    pumped none c' w =
        Returns-bind IsValid Pumping (settle c' id) _ (settle-IsValid c' id w) λ c₂ x. x
    pumped (some bytes) c' w = elim (Bool-cases reading) [
      | inl e ↦ rw e w
      | inr e ↦ rw e (
          Returns-bind IsValid Pumping (settle (cancel_request wire c' id) id) _
            (settle-IsValid _ id (cancel_request-IsValid wire c' id w)) λ c₂ x. x)
    ]

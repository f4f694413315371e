-- ===== src/Conn/Invariant/Closing.antt =====
-- settle, dropBridge and Bridge.Close keep the invariant and never close a channel twice.
use dsh_fleet.Base.{
  ℕ, ◌≡◌, refl, Bool, true, false, Option, none, some, arith, Bytes, same_refl, Option-cases,
  Bool-cases, inl, inr,
}
use dsh_fleet.Base.Dict.{find, delete, find-delete}
use dsh_fleet.Base.Result.{ℤ}
use dsh_fleet.Envelope.Frames.{Outbound}
use dsh_fleet.Conn.State.{Pending, Bridge, Conn, write, best_effort, cancel_request}
use dsh_fleet.Conn.Close.{
  close_chunks, close_chunks_at, settle, close_messages_at, drop_bridge, close_bridge,
}
use dsh_fleet.Conn.Invariant.Store.{
  IsSound, Listening, Allocated, IsValid, Returns, Returns-bind, put_request-IsValid,
  put_socket-IsValid, delete_request-IsValid, delete_bridge-IsValid,
}

pub close_chunks-IsSound : (p : Pending) → IsSound p → Returns IsSound (close_chunks p)
unfolding close_chunks
close_chunks-IsSound p s = ground arith

close_chunks_at-IsValid :
    (c : Conn) (a : ℕ)
    → IsValid c
    → Allocated (c.requests a)
    → Returns IsValid (close_chunks_at c a)
unfolding close_chunks_at
close_chunks_at-IsValid c a v h = elim (Option-cases (c.requests a)) [
  | inl e ↦ absurd (rw e at h)
  | inr (p, e) ↦
      rw (e, close_chunks_at)
        (Returns-bind IsSound IsValid (close_chunks p) _ (close_chunks-IsSound p (v.sound a p e))
          λ q s. put_request-IsValid c a p q v e s)
]

-- settle frees the slot, and its close of the chunks is never a second one.
pub settle-IsValid : (c : Conn) (id : Bytes) → IsValid c → Returns IsValid (settle c id)
unfolding settle
settle-IsValid c id v = elim (Option-cases (find id c.pending)) [
  | inl e ↦ rw (e, settle) (delete_request-IsValid c id v)
  | inr (a, e) ↦
      rw (e, settle)
        (close_chunks_at-IsValid _ a (delete_request-IsValid c id v) (v.registered id a e))
]

close_messages_at-IsValid :
    (c : Conn) (a : ℕ) (b : Bridge)
    → IsValid c
    → c.sockets a ≡ some b
    → b.messages.is_closed ≡ false
    → find b.id c.bridges ≡ none
    → Returns IsValid (close_messages_at c a)
unfolding close_messages_at
close_messages_at-IsValid c a b v e o n =
    rw (e, close_messages_at, o) (put_socket-IsValid c a b _ v e refl (v.up_open a b e) (λ h. cc))

pub drop_bridge-IsValid : (c : Conn) (id : Bytes) → IsValid c → Returns IsValid (drop_bridge c id)
unfolding drop_bridge
drop_bridge-IsValid c id v = elim (Option-cases (find id c.bridges)) [
  | inl e ↦ rw (e, drop_bridge) (delete_bridge-IsValid c id v)
  | inr (a, e) ↦ rw (e, drop_bridge) (drop_at a e (c.sockets a) refl (v.listening id a e))
]
  where
    drop_at :
        (a : ℕ)
        → find id c.bridges ≡ some a
        → (o : Option Bridge) → c.sockets a ≡ o
        → Listening id o
        → Returns IsValid (close_messages_at (record c { bridges = delete id c.bridges }) a)
    drop_at a e none f l = absurd l
    drop_at a e (some b) f l =
        close_messages_at-IsValid _ a b (delete_bridge-IsValid c id v) f l.1
          (ground (arith, find-delete id b.id c.bridges, same_refl id))

pub write-IsValid :
    (wire : Bool) (c : Conn) (frame : Outbound)
    → IsValid c
    → IsValid (best_effort c (write wire c frame))
unfolding write
write-IsValid true c frame v = record {
  sound = v.sound;
  up_open = v.up_open;
  registered = v.registered;
  listening = v.listening;
  numbered = v.numbered;
  lettered = v.lettered;
  one_request = v.one_request;
  one_bridge = v.one_bridge;
  fresh = v.fresh;
  emptied = v.emptied;
  ended = v.ended;
}
write-IsValid false c frame v = v

pub cancel_request-IsValid :
    (wire : Bool) (c : Conn) (id : Bytes) → IsValid c → IsValid (cancel_request wire c id)
unfolding cancel_request
cancel_request-IsValid wire c id v = write-IsValid wire c _ v

-- Bridge.Close may be called on any bridge, at any time, any number of times.
pub close_bridge-IsValid :
    (wire : Bool) (c : Conn) (a : ℕ) (code : ℤ) (reason : Bytes)
    → IsValid c
    → Allocated (c.sockets a)
    → Returns IsValid (close_bridge wire c a code reason)
unfolding close_bridge
close_bridge-IsValid wire c a code reason v h = elim (Option-cases (c.sockets a)) [
  | inl e ↦ absurd (rw e at h)
  | inr (b, e) ↦
      let marked =
        put_socket-IsValid c a b (record b { once = true }) v e refl (v.up_open a b e)
          (λ r. (still_open b e r).1) in
      rw (e, close_bridge)
        (elim (Bool-cases b.once) [
          | inl t ↦ rw t v
          | inr f ↦ rw f (drop_bridge-IsValid _ b.id (write-IsValid wire _ _ marked))
        ])
]
  where
    still_open :
        (b : Bridge) → c.sockets a ≡ some b → find b.id c.bridges ≡ some a → Listening b.id (some b)
    still_open b e r = rw e at (v.listening b.id a r)

-- ===== src/Conn/Correlation.antt =====
-- Correlation ids of internal/uplink/conn.go: a new call never takes over a slot in flight.
use dsh_fleet.Base.{
  ℕ, ◌≡◌, true, false, none, some, arith, Bytes, Option-cases, if-cases, same, if◌then◌else◌, inl,
  inr,
}
use dsh_fleet.Base.Decimal.{decimal, decimal-injective}
use dsh_fleet.Base.Dict.{find, find-put, find-put_self}
use dsh_fleet.Base.Result.{Result, ok, err}
use dsh_fleet.Conn.State.{Conn, ConnError}
use dsh_fleet.Conn.Request.{begin_do, next, new_pending}
use dsh_fleet.Conn.Socket.{begin_open, bridge_id, new_bridge}
use dsh_fleet.Conn.Invariant.Store.{IsValid, Numbered, Lettered}
use dsh_fleet.Conn.Invariant.Calls.{InRange}

fresh_number : (c : Conn) → IsValid c → InRange c → find (decimal (next c.next_id)) c.pending ≡ none
fresh_number c v r = elim (Option-cases (find (decimal (next c.next_id)) c.pending)) [
  | inl e ↦ e
  | inr (a, e) ↦ absurd (taken (v.numbered _ a e))
]
  where
    taken : Numbered c.next_id (decimal (next c.next_id)) → ⊥
    taken (k, e, l) = omega (arith, decimal-injective (next c.next_id) k e)

fresh_letter :
    (c : Conn) → IsValid c → InRange c → find (bridge_id (next c.next_id)) c.bridges ≡ none
fresh_letter c v r = elim (Option-cases (find (bridge_id (next c.next_id)) c.bridges)) [
  | inl e ↦ e
  | inr (a, e) ↦ absurd (taken (v.lettered _ a e))
]
  where
    taken : Lettered c.next_id (bridge_id (next c.next_id)) → ⊥
    taken (k, e, l) = omega (arith, decimal-injective (next c.next_id) k (cc))

-- What a call of Do finds of the slots: it is refused on a closed connection, and otherwise
-- gets an id that was free, and an object of its own that is new, while every other slot stays.
abbrev pub NewRequest : Conn → Result ConnError (Bytes × ℕ × Conn) → Type 0
NewRequest c (err e) = c.closed ≡ true
NewRequest c (ok (id, a, c')) =
    (c.closed ≡ false)
    × (find id c.pending ≡ none)
    × (c.requests a ≡ none)
    × (c'.requests a ≡ some new_pending)
    × (find id c'.pending ≡ some a)
    × ((j : Bytes) → find j c'.pending ≡ (if same id j then some a else find j c.pending))

-- Do on a valid connection whose counter does not wrap takes a correlation id that no request in
-- flight has, registers a new request under it and leaves every other slot; on a closed one it fails.
pub begin_do-NewRequest : (c : Conn) → IsValid c → InRange c → NewRequest c (begin_do c)
unfolding begin_do
begin_do-NewRequest c v r =
    if-cases (NewRequest c) c.closed _ _ (λ t. t)
      λ f. (
        f,
        fresh_number c v r,
        (v.fresh c.next_address (omega arith)).0,
        ground arith,
        find-put_self _ c.next_address c.pending,
        λ j. find-put _ j c.next_address c.pending,
      )

abbrev pub NewBridge : Conn → Result ConnError (Bytes × ℕ × Conn) → Type 0
NewBridge c (err e) = c.closed ≡ true
NewBridge c (ok (id, a, c')) =
    (c.closed ≡ false)
    × (find id c.bridges ≡ none)
    × (c.sockets a ≡ none)
    × (c'.sockets a ≡ some (new_bridge id))
    × (find id c'.bridges ≡ some a)
    × ((j : Bytes) → find j c'.bridges ≡ (if same id j then some a else find j c.bridges))

-- The same of OpenWS: the bridge's id is free, its object is new, and every other bridge stays.
pub begin_open-NewBridge : (c : Conn) → IsValid c → InRange c → NewBridge c (begin_open c)
unfolding begin_open
begin_open-NewBridge c v r =
    if-cases (NewBridge c) c.closed _ _ (λ t. t)
      λ f. (
        f,
        fresh_letter c v r,
        (v.fresh c.next_address (omega arith)).1,
        ground arith,
        find-put_self _ c.next_address c.bridges,
        λ j. find-put _ j c.next_address c.bridges,
      )

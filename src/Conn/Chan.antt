-- ===== src/Conn/Chan.antt =====
-- Go's buffered channels, as internal/uplink/conn.go uses them.
use dsh_fleet.Base.{
  ℕ, Bool, true, false, List, [], ◌∷◌, ◌++◌, Option, none, some, ltb, arith, ◌≡◌, refl, ◌⊎◌, inl,
  inr, Bool-cases, if◌then◌else◌, length,
}

pub record Chan {ℓ} (A : Type ℓ) : Type ℓ where
  pub buffer : List A
  pub room : ℕ
  pub is_closed : Bool

-- A send succeeds, waits for room, or panics because the channel is closed.
pub data Sent {ℓ} (A : Type ℓ) : Type ℓ where
  sent : Chan A → Sent A
  full panic : Sent A

pub data Received {ℓ} (A : Type ℓ) : Type ℓ where
  got : A → Chan A → Received A
  finished empty : Received A

module _ {ℓ} {A : Type ℓ} where
  -- make(chan A, room)
  abbrev pub make : ℕ → Chan A
  make room = record { buffer = []; room = room; is_closed = false }

  -- ch <- a
  unfoldable pub send : Chan A → A → Sent A
  send ch a =
      if ch.is_closed
      then panic
      else if ltb (length ch.buffer) ch.room
      then sent (record ch { buffer = ch.buffer ++ a ∷ [] })
      else full

  -- <-ch, and the loop of `range ch` at its end
  unfoldable pub receive : Chan A → Received A
  receive ch = elim ch.buffer [
    | [] ↦ if ch.is_closed then finished else empty
    | a ∷ rest ↦ got a (record ch { buffer = rest })
  ]

  -- close(ch), which panics on a closed channel
  unfoldable pub close : Chan A → Option (Chan A)
  close ch = if ch.is_closed then none else some (record ch { is_closed = true })

  -- A receive on a channel takes its oldest value, or finds it empty.
  pub receive-cases :
      (ch : Chan A)
      → ((receive ch ≡ empty) ⊎ (receive ch ≡ finished))
        ⊎ ((a : A) × (rest : Chan A) × (receive ch ≡ got a rest)
            × (rest.is_closed ≡ ch.is_closed)
            × (ch.buffer ≡ a ∷ rest.buffer))
  unfolding receive
  receive-cases ch = by_buffer ch.buffer refl
    where
      by_buffer :
          (b : List A)
          → ch.buffer ≡ b
          → ((receive ch ≡ empty) ⊎ (receive ch ≡ finished))
            ⊎ ((a : A) × (rest : Chan A) × (receive ch ≡ got a rest)
                × (rest.is_closed ≡ ch.is_closed)
                × (ch.buffer ≡ a ∷ rest.buffer))
      by_buffer [] e = elim (Bool-cases ch.is_closed) [
        | inl t ↦ inl (inr (rw (e, receive, t)))
        | inr f ↦ inl (inl (rw (e, receive, f)))
      ]
      by_buffer (a ∷ b) e = inr (a, record ch { buffer = b }, rw (e, receive), refl, e)

  -- A send panics exactly on a closed channel; on an open one it appends or finds no room.
  pub send-cases :
      (ch : Chan A) (a : A)
      → ((ch.is_closed ≡ true) × (send ch a ≡ panic))
        ⊎ ((ch.is_closed ≡ false)
            × ((send ch a ≡ full)
                ⊎ ((after : Chan A) × (send ch a ≡ sent after)
                    × (after.is_closed ≡ ch.is_closed)
                    × (after.buffer ≡ ch.buffer ++ a ∷ []))))
  unfolding send
  send-cases ch a = elim (Bool-cases ch.is_closed) [
    | inl t ↦ inl (t, ground arith)
    | inr f ↦ inr (
      f,
      elim (Bool-cases (ltb (length ch.buffer) ch.room)) [
        | inl r ↦ inr (record ch { buffer = ch.buffer ++ a ∷ [] }, ground arith, refl, refl)
        | inr n ↦ inl (ground arith)
      ],
    )
  ]

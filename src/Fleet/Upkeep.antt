-- ===== src/Fleet/Upkeep.antt =====
-- What `serve` of cmd/dshf/main.go does every hour: purgeSessions and pruneTelemetry. Times and
-- durations are in nanoseconds here.
pub mod Window
use dsh_fleet.Base.{ℕ, ◌+◌, ◌-◌, Bool, List, [], ◌∷◌, Option, none, some, leb, if◌then◌else◌}
use dsh_fleet.Base.Result.{ℤ, pos, negsuc, is_count}
use dsh_fleet.Nodes
use dsh_fleet.Nodes.Rows.{prune_telemetry}
use dsh_fleet.Users
use dsh_fleet.Users.{purge_expired_sessions}

-- One wait of a loop: what others do to the store meanwhile, and what the tick finds of the database,
-- or `none` when the context is cancelled.
pub record Round (S D : Type 0) : Type 0 where
  pub others : S → S
  pub tick : Option D

-- purgeSessions
unfoldable pub purge_sessions : List (Round Users.Store Bool) → Users.Store → Users.Store
unfolding purge_expired_sessions
purge_sessions [] s = s
purge_sessions (r ∷ rs) s = elim r.tick [
  | none ↦ r.others s
  | some up ↦ purge_sessions rs (purge_expired_sessions up (r.others s))
]

-- now() - keep
abbrev pub before : ℕ → ℤ → ℤ
before now (pos k) = if leb k now then pos (now - k) else negsuc (k - now - 1)
before now (negsuc k) = pos (now + k + 1)

-- What the database and the context say in each batch of one call of prune, and the time that has
-- passed since the call began when the database reads now() for it.
pub record Batches : Type 0 where
  pub up : ℕ → Bool
  pub done : ℕ → Bool
  pub clock : ℕ → ℕ

-- The closure `prune`; the call has fuel enough, and it is as late after it as at its last batch.
unfoldable pub prune : ℤ → Batches → Nodes.Store → Nodes.Store
unfolding prune_telemetry
prune keep b s = elim (prune_telemetry (λ k. before (s.now + b.clock k) keep) b.up b.done s) [
  | none ↦ s
  | some p ↦ record s { telemetry = p.rows; now = s.now + b.clock p.last }
]

-- The loop of pruneTelemetry.
unfoldable pub prune_hourly : ℤ → List (Round Nodes.Store Batches) → Nodes.Store → Nodes.Store
unfolding prune
prune_hourly keep [] s = s
prune_hourly keep (r ∷ rs) s = elim r.tick [
  | none ↦ r.others s
  | some b ↦ prune_hourly keep rs (prune keep b (r.others s))
]

-- pruneTelemetry
unfoldable pub prune_history :
    ℤ → Batches → List (Round Nodes.Store Batches) → Nodes.Store → Nodes.Store
unfolding prune_hourly
prune_history keep first rounds s =
    if is_count keep 0 then s else prune_hourly keep rounds (prune keep first s)

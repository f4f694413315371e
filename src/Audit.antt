-- ===== src/Audit.antt =====
-- internal/audit/audit.go: the recorder of gate decisions. Its state is the channel, the goroutine
-- `drain`, what the table audit_log holds of this recorder, oldest first, and what was logged. An event
-- is a step of a request, of drain, or of the stop function, in any order.
pub mod Trail
pub mod Sublists
pub mod Queue
pub mod Stop
use dsh_fleet.Base.{
  ℕ, suc, Bool, true, false, not, ◌&&◌, List, [], ◌∷◌, ◌++◌, Option, none, some, ltb, ◌==◌,
  if◌then◌else◌, Bytes, same, length,
}

-- entry
pub record Entry : Type 0 where
  pub user_id : Bytes
  pub node_id : Bytes
  pub ns : Bytes
  pub path : Bytes
  pub allowed : Bool
  pub status : ℕ
  pub reason : Bytes

-- The columns of audit_log that write fills.
pub record Row : Type 0 where
  pub user_id : Option Bytes
  pub node_id : Option Bytes
  pub ns : Bytes
  pub path : Bytes
  pub allowed : Bool
  pub status : Option ℕ
  pub reason : Option Bytes

abbrev null_if_empty : Bytes → Option Bytes
null_if_empty s = if same s [] then none else some s

-- VALUES of write
unfoldable pub row : Entry → Row
row e = record {
  user_id = null_if_empty e.user_id;
  node_id = some e.node_id;
  ns = e.ns;
  path = e.path;
  allowed = e.allowed;
  status = if e.status == 0 then none else some e.status;
  reason = null_if_empty e.reason;
}

-- make(chan entry, 1024)
abbrev pub capacity : ℕ
capacity = 1024

-- The two warnings.
pub data Warning : Type 0 where
  queue_full : Bytes → Bytes → Warning
  cannot_record : Warning

-- drain in its first select, in the loop that flushes, or returned with `done` closed.
pub data Phase : Type 0 where
  serving flushing ended : Phase

pub record Recorder : Type 0 where
  pub queue : List Entry
  -- the entry in a call of write, and whether its context was cancelled from the start
  pub writing : Option (Entry × Bool)
  pub phase : Phase
  pub cancelled : Bool
  pub rows : List Row
  pub log : List Warning

-- New
unfoldable pub new : Recorder
new = record { queue = []; writing = none; phase = serving; cancelled = false; rows = []; log = [] }

-- RecordDecision
unfoldable pub record_decision : Recorder → Entry → Recorder
record_decision r e =
    if ltb (length r.queue) capacity
    then record r { queue = r.queue ++ e ∷ [] }
    else record r { log = r.log ++ queue_full e.node_id e.path ∷ [] }

-- `case e := <-r.queue`: in the first select the context may be cancelled by now, while the flush
-- writes without it.
abbrev pub doomed : Phase → Bool → Bool
doomed serving cancelled = cancelled
doomed _ cancelled = false

abbrev pub received_from : Recorder → Option (Entry × Bool) → Phase → List Entry → Option Recorder
received_from r none serving (e ∷ q) =
    some (record r { queue = q; writing = some (e, doomed serving r.cancelled) })
received_from r none flushing (e ∷ q) =
    some (record r { queue = q; writing = some (e, doomed flushing r.cancelled) })
received_from r _ _ _ = none

-- What Exec does in time under a live context: `unheard` is a row that is inserted while Exec returns an
-- error.
pub data Insert : Type 0 where
  inserted refused unheard : Insert

-- The return of write. Nothing is sent under a context that is cancelled.
abbrev pub written : Recorder → Option (Entry × Bool) → Insert → Option Recorder
written r none i = none
written r (some (e, true)) i = some (record r { writing = none; log = r.log ++ cannot_record ∷ [] })
written r (some (e, false)) inserted =
    some (record r { writing = none; rows = r.rows ++ row e ∷ [] })
written r (some (e, false)) refused =
    some (record r { writing = none; log = r.log ++ cannot_record ∷ [] })
written r (some (e, false)) unheard =
    some
      (record r { writing = none; rows = r.rows ++ row e ∷ []; log = r.log ++ cannot_record ∷ [] })

-- `case <-ctx.Done()`
abbrev pub noticed_in : Recorder → Option (Entry × Bool) → Phase → Bool → Option Recorder
noticed_in r none serving true = some (record r { phase = flushing })
noticed_in r _ _ _ = none

-- `default` of the flush
abbrev pub emptied_in : Recorder → Option (Entry × Bool) → Phase → List Entry → Option Recorder
emptied_in r none flushing [] = some (record r { phase = ended })
emptied_in r _ _ _ = none

pub data Event : Type 0 where
  decided : Entry → Event
  stopped received noticed emptied : Event
  wrote : Insert → Event

-- The next state, if the event can happen.
unfoldable pub step : Recorder → Event → Option Recorder
unfolding record_decision
step r (decided e) = some (record_decision r e)
step r stopped = some (record r { cancelled = true })
step r received = received_from r r.writing r.phase r.queue
step r (wrote i) = written r r.writing i
step r noticed = noticed_in r r.writing r.phase r.cancelled
step r emptied = emptied_in r r.writing r.phase r.queue

abbrev next : Option Recorder → (Recorder → Option Recorder) → Option Recorder
next none k = none
next (some r) k = k r

unfoldable pub run : Recorder → List Event → Option Recorder
unfolding step
run r [] = some r
run r (ev ∷ evs) = next (step r ev) λ r'. run r' evs

-- The decisions that requests recorded, in order.
unfoldable pub offered : List Event → List Entry
offered [] = []
offered (decided e ∷ evs) = e ∷ offered evs
offered (ev ∷ evs) = offered evs

-- The rows of which the recorder may not have heard.
unfoldable pub unheards : List Event → ℕ
unheards [] = 0
unheards (wrote unheard ∷ evs) = suc (unheards evs)
unheards (ev ∷ evs) = unheards evs

-- Taken by the recorder, and neither in the table nor given up.
abbrev pub pending_of : Option (Entry × Bool) → List Entry → List Entry
pending_of none q = q
pending_of (some (e, dead)) q = e ∷ q

abbrev pub pending : Recorder → List Entry
pending r = pending_of r.writing r.queue

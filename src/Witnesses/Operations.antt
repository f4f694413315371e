-- ===== src/Witnesses/Operations.antt =====
-- Decisions in a row and machines, for the theorems on internal/audit, internal/nodes and cmd/dshf.
use dsh_fleet.Base.{
  ℕ, zero, suc, arith, ◌+◌, ◌*◌, ◌≤◌, ◌≡◌, ◌⊎◌, ◌↔◌, refl, Bool, true, false, List, [], ◌∷◌, none,
  some, length, Bytes, codes, All, map, inl, inr,
}
use dsh_fleet.Base.Result.{ℤ, ok, pos}
use dsh_fleet.Audit.{
  Entry, Recorder, Phase, decided, stopped, received, noticed, emptied, wrote, inserted, unheards,
  new, run, offered, pending, row, record_decision, cannot_record,
}
use dsh_fleet.Audit.Queue.{Accounts, run-Accounts}
use dsh_fleet.Audit.Stop.{CanGo, remaining, stop_returns}
use dsh_fleet.Audit.Trail.{Logged, Filter, recent, matches, row_limit, decision}
use dsh_fleet.Audit.Trail.Laws.{Read, Wanted, recent-Read}
use dsh_fleet.Envelope.{frame}
use dsh_fleet.Envelope.Frames.{Hello, hello_frame}
use dsh_fleet.Fleet.Enrol.{Stores, Statements, uplink_handler}
use dsh_fleet.Fleet.Enrol.Entitled.{Admits, Entitles, uplink-Admits}
use dsh_fleet.Fleet.Upkeep.{Round, Batches, prune, prune_history}
use dsh_fleet.Fleet.Upkeep.Window.{Advances, Appends, Remains, history_window}
use dsh_fleet.Nodes
use dsh_fleet.Nodes.Rows.{Pruned, prune_telemetry, is_old}
use dsh_fleet.Nodes.Rows.Prune.{kept, Rises, prune_telemetry_ends}
use dsh_fleet.Registry.{new_registry}
use dsh_fleet.Secret.{IdKey}
use dsh_fleet.Uplink.{handshake}

abbrev entry : Bytes → Entry
entry path = record {
  user_id = codes "1";
  node_id = codes "laptop";
  ns = codes "agents";
  path = path;
  allowed = true;
  status = 200;
  reason = [];
}

abbrev last : Entry
last = entry (codes "/agents/1")

-- Cancelled with one decision that waits.
abbrev waiting : Recorder
waiting = record {
  queue = last ∷ [];
  writing = none;
  phase = Phase.serving;
  cancelled = true;
  rows = [];
  log = [];
}

waits : run new (decided last ∷ stopped ∷ []) ≡ some waiting
unfolding run record_decision new
waits = refl

run-Accounts_example :
    Accounts
      (offered (decided last ∷ stopped ∷ []))
      (unheards (decided last ∷ stopped ∷ []))
      waiting
run-Accounts_example = run-Accounts (decided last ∷ stopped ∷ []) waiting waits

-- The first select may still take an entry after the stop, and then it is lost.
lost_after_stop :
    (run waiting (received ∷ wrote inserted ∷ noticed ∷ emptied ∷ []))
    ≡ some (record waiting { queue = []; phase = Phase.ended; log = cannot_record ∷ [] })
unfolding run
lost_after_stop = refl

abbrev flushed : Recorder
flushed = record waiting { queue = []; phase = Phase.ended; rows = row last ∷ [] }

flushes : run waiting (noticed ∷ received ∷ wrote inserted ∷ emptied ∷ []) ≡ some flushed
unfolding run
flushes = refl

stop_returns_example :
    (length (noticed ∷ received ∷ wrote inserted ∷ emptied ∷ []) ≤ remaining waiting)
    × (remaining waiting ≤ 2 * length (pending waiting) + 3)
    × (CanGo flushed ⊎ ((flushed.phase ≡ Phase.ended) × (pending flushed ≡ [])))
stop_returns_example =
    stop_returns waiting flushed (noticed ∷ received ∷ wrote inserted ∷ emptied ∷ []) refl tt
      (tt, (tt, (tt, (tt, tt)))) flushes

abbrev decision_row : ℕ → ℕ → Bool → Logged
decision_row id ts allowed = record {
  id = id;
  ts = ts;
  user_id = some (codes "1");
  node_id = some (codes "laptop");
  ns = codes "agents";
  path = codes "/";
  allowed = allowed;
  status = none;
  reason = none;
}

abbrev trail : List Logged
trail = decision_row 1 10 false ∷ decision_row 2 10 false ∷ decision_row 3 20 true ∷ []

abbrev denied : Filter
denied = record { node = codes "laptop"; user = []; denied_only = true; limit = pos 1 }

abbrev same_text : Bytes → Bytes
same_text b = b

recent-Read_example :
    (shown : List Logged) × (hidden : List Logged) × (recent same_text true [] trail denied
      ≡ ok (map (decision []) shown))
    × Read (matches same_text [] denied) (row_limit denied.limit) trail shown hidden
    × (1 ≤ row_limit denied.limit)
    × (row_limit denied.limit ≤ 1000)
    × ((a : Logged) → (matches same_text [] denied a ≡ true) ↔ Wanted same_text [] denied a)
recent-Read_example = recent-Read same_text [] trail denied

abbrev sample : ℕ → Nodes.Sample
sample ts = record { node_id = codes "laptop"; ts = pos ts; snapshot = codes "{}" }

abbrev history : Nodes.Store
history = record { nodes = []; telemetry = sample 1 ∷ sample 9 ∷ sample 2 ∷ []; now = 10 }

-- The second round has a later limit.
abbrev limit : ℕ → ℤ
limit zero = pos 5
limit (suc k) = pos 6

limit-Rises : Rises limit
limit-Rises zero = refl
limit-Rises (suc k) = refl

prune_telemetry_ends_example :
    (p : Pruned) × (prune_telemetry limit (λ k. true) (λ k. false) history ≡ some p)
    × (kept (is_old (limit p.last)) p.rows ≡ kept (is_old (limit p.last)) history.telemetry)
    × (length p.rows + p.total ≡ length history.telemetry)
    × (p.failed ≡ false → All (λ x. is_old (limit p.last) x ≡ false) p.rows)
prune_telemetry_ends_example =
    prune_telemetry_ends limit limit-Rises (λ k. true) (λ k. false) history

abbrev toy_key : IdKey
toy_key secret salt time memory p n = secret

abbrev stores : Stores
stores = (
  record { users = []; sessions = []; tokens = []; owners = []; now = 10 },
  record { nodes = []; telemetry = []; now = 10 },
)

abbrev takes_all : Statements
takes_all = record {
  reads_node = true;
  writes_hello = true;
  reads_account = true;
  reads_tokens = true;
  writes_use = true;
  claims = true;
  reads_claim = true;
}

abbrev hello : Hello
hello = record {
  protocol = pos 1;
  node_id = codes "laptop";
  username = codes "ann";
  token = codes "ut_a";
  node = record {
    label = codes "My laptop";
    platform = codes "linux";
    arch = codes "x64";
    dsh_version = codes "1.0.0";
    plugin_version = codes "0.1.0";
    cwd = codes "/home/me";
  };
  caps = [];
}

uplink-Admits_example :
    Admits same_text toy_key takes_all (Entitles same_text toy_key takes_all stores) (
      handshake
        (uplink_handler same_text toy_key takes_all)
        new_registry
        stores
        9
        (some (frame (hello_frame hello))))
uplink-Admits_example =
    uplink-Admits same_text toy_key takes_all new_registry stores 9
      (some (frame (hello_frame hello)))

-- Each batch takes one unit of time.
abbrev batches : Batches
batches = record { up = λ k. true; done = λ k. false; clock = λ k. k }

batches-Advances : Advances batches
batches-Advances k = omega arith

-- Another snapshot comes in, and two hours pass.
abbrev arrives : Round Nodes.Store Batches
arrives = record {
  others = λ s. record s { telemetry = sample s.now ∷ s.telemetry; now = s.now + 4 };
  tick = some batches;
}

arrives-Appends : Appends arrives
arrives-Appends =
    (λ s. (omega arith, λ x h. inr h), λ b e k. let e : batches ≡ b = cc e in rw⁻¹ e (omega arith))

-- The snapshot that comes in before the call of the second hour.
history_window_example :
    Remains 5 (sample 14) (prune_history (pos 5) batches (arrives ∷ arrives ∷ []) history)
unfolding prune
history_window_example =
    history_window 5 batches (arrives ∷ arrives ∷ []) history (sample 14) batches-Advances
      (arrives-Appends, (arrives-Appends, tt))
      (inr (omega arith, inr (batches, refl, inl (inl refl))))

-- At the end it is 18, and only the snapshot of time 14 is not older than 5.
one_remains :
    (prune_history (pos 5) batches (arrives ∷ arrives ∷ []) history).telemetry ≡ sample 14 ∷ []
unfolding prune_history
one_remains = refl

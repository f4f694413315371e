-- ===== src/Registry/History.antt =====
-- Histories of calls on the registry of internal/uplink/registry.go, as connections come and go.
use dsh_fleet.Base.{◌≡◌, ◌≢◌, List, [], ◌∷◌, some, arith, Bytes, same_iff, All}
use dsh_fleet.Base.Dict.{find-put, find-delete}
use dsh_fleet.Base.Result.{Result, ok, err}
use dsh_fleet.Registry.{Registry, Handle, RegistryError, new_registry, add, remove, get, online}
use dsh_fleet.Registry.Online.{
  Ascending, Distinct, contains, present, sort-keys, put-Distinct, delete-Distinct,
}

pub data Call : Type 0 where
  adds removes : Handle → Call

abbrev pub or_same : Registry → Result RegistryError Registry → Registry
or_same r (ok r') = r'
or_same r (err e) = r

-- A refused Add leaves the registry as it was.
unfoldable pub step : Registry → Call → Registry
unfolding add remove
step r (adds c) = or_same r (add r c)
step r (removes c) = remove r c

unfoldable pub run : Registry → List Call → Registry
unfolding step
run r [] = r
run r (c ∷ cs) = run (step r c) cs

abbrev pub Spares : Handle → Call → Type 0
Spares c (adds d) = Unit
Spares c (removes d) = d.address ≢ c.address

step-Spares :
    (r : Registry) (k : Bytes) (c : Handle) (call : Call)
    → get r k ≡ some c
    → Spares c call
    → get (step r call) k ≡ some c
unfolding step add remove get
step-Spares r k c (adds d) e s =
    ground (arith, find-put d.node_id k d r.conns, same_iff d.node_id k)
step-Spares r k c (removes d) e s =
    ground (arith, find-delete d.node_id k r.conns, same_iff d.node_id k)

-- A registered connection keeps its node id through any calls but its own Remove: neither a
-- newcomer for the same id nor the late Remove of an older connection evicts it.
pub registered_stays :
    (calls : List Call) (r : Registry) (k : Bytes) (c : Handle)
    → get r k ≡ some c
    → All (Spares c) calls
    → get (run r calls) k ≡ some c
unfolding run
registered_stays [] r k c e h = e
registered_stays (call ∷ calls) r k c e h =
    registered_stays calls (step r call) k c (step-Spares r k c call e h.0) h.1

step-Distinct : (r : Registry) (call : Call) → Distinct r.conns → Distinct (step r call).conns
unfolding step add remove
step-Distinct r (adds c) d = ground (arith, put-Distinct c.node_id c r.conns d)
step-Distinct r (removes c) d = ground (arith, delete-Distinct c.node_id r.conns d)

run-Distinct : (calls : List Call) (r : Registry) → Distinct r.conns → Distinct (run r calls).conns
unfolding run
run-Distinct [] r d = d
run-Distinct (call ∷ calls) r d = run-Distinct calls (step r call) (step-Distinct r call d)

-- After any history of a new registry, Online ascends strictly and names exactly the node ids at
-- which Get finds a connection.
pub online-run :
    (calls : List Call)
    → Ascending (online (run new_registry calls))
      × ((k : Bytes)
          → contains k (online (run new_registry calls)) ≡ present (get (run new_registry calls) k))
unfolding online get new_registry
online-run calls =
    sort-keys (run (record { conns = [] }) calls).conns
      (run-Distinct calls (record { conns = [] }) tt)

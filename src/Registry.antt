-- ===== src/Registry.antt =====
-- internal/uplink/registry.go. A connection is its address and the fields the registry reads; the
-- lock makes every call atomic, so a history of calls is a list of them.
pub mod Laws
pub mod Online
pub mod History
use dsh_fleet.Base.{
  ℕ, Bool, true, false, ◌&&◌, List, [], ◌∷◌, Option, none, some, ◌==◌, if◌then◌else◌, Bytes,
}
use dsh_fleet.Base.Dict.{Dict, find, put, delete}
use dsh_fleet.Base.Result.{Result, ok, err}
use dsh_fleet.Registry.Online.{sort_strings, keys}

-- A *Conn: `address` tells two connections of one node apart.
pub record Handle : Type 0 where
  pub address : ℕ
  pub node_id : Bytes

pub data RegistryError : Type 0 where
  already_connected : RegistryError

pub record Registry : Type 0 where
  pub conns : Dict Handle

-- NewRegistry
unfoldable pub new_registry : Registry
new_registry = record { conns = [] }

-- Registry.Add
unfoldable pub add : Registry → Handle → Result RegistryError Registry
add r c = elim (find c.node_id r.conns) [
  | some live ↦ err already_connected
  | none ↦ ok (record { conns = put c.node_id c r.conns })
]

-- Registry.Remove
unfoldable pub remove : Registry → Handle → Registry
remove r c = elim (find c.node_id r.conns) [
  | none ↦ r
  | some current ↦
      if current.address == c.address then record { conns = delete c.node_id r.conns } else r
]

-- Registry.Get
unfoldable pub get : Registry → Bytes → Option Handle
get r node_id = find node_id r.conns

-- Registry.Online
unfoldable pub online : Registry → List Bytes
unfolding sort_strings
online r = sort_strings (keys r.conns)

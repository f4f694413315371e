-- ===== src/Console/Machines.antt =====
-- internal/console/nodes.go, offline.go and state.go: the list of machines. `parse` is json.Unmarshal
-- into the struct `snapshot`. Times are in seconds, as the database's now() and the clock give them.
pub mod Itoa
pub mod Laws
use dsh_fleet.Base.{
  ℕ, zero, suc, ◌+◌, ◌-◌, ◌*◌, ◌/◌, ◌%◌, ◌^◌, Bool, true, false, not, ◌&&◌, ◌||◌, List, [], ◌∷◌,
  ◌++◌, Option, none, some, ltb, leb, ◌==◌, if◌then◌else◌, Bytes, codes, same, length,
}
use dsh_fleet.Base.Dict.{Dict}
use dsh_fleet.Base.Result.{Result, ok, err, ℤ, pos, negsuc}
use dsh_fleet.Base.Errors.{GoError}
use dsh_fleet.Nodes.{Store}
use dsh_fleet.Nodes.Rows.{Listed, list_nodes}
use dsh_fleet.Registry.Online.{contains}
use dsh_fleet.Strings.{has, trim_prefix}
use dsh_fleet.Users.{User}
use dsh_fleet.Console.{Request, is_navigation}
use dsh_fleet.Console.Reply.{Reply, fails, redirects, path_select, path_console, prefix}

-- offlineAfter
abbrev pub offline_after : ℕ
offline_after = 60

pub data Status : Type 0 where
  revoked online never_seen offline : Status

-- time.Since(t); what is ahead of the clock is as what is now
abbrev pub since : ℕ → ℕ → ℕ
since now t = now - t

-- The cases of status that look at last_seen_at.
abbrev pub by_last_seen : ℕ → Option ℕ → Status
by_last_seen now none = never_seen
by_last_seen now (some t) = if ltb (since now t) offline_after then online else offline

-- status
unfoldable pub status : ℕ → Listed → Bool → Status
status now n live = elim n.revoked_at [
  | some t ↦ revoked
  | none ↦ if live then online else by_last_seen now n.last_seen_at
]

-- 2^63, below which an int is from above, and down to which from below.
abbrev pub int_limit : ℕ
int_limit = 9223372036854775808

-- The loop of itoa, with `i` bytes of the buffer left: what is left after it, and the text so far.
-- `none` is an index out of range.
unfoldable pub put_digits : ℕ → ℕ → Bytes → Option (ℕ × Bytes)
put_digits zero n acc = if n == 0 then some (0, acc) else none
put_digits (suc i) n acc =
    let rest = put_digits i (n / 10) ((b'0' + n % 10) ∷ acc) in
    if n == 0 then some (suc i, acc) else rest

abbrev pub with_sign : Bool → Option (ℕ × Bytes) → Option Bytes
with_sign neg none = none
with_sign false (some (i, s)) = some s
with_sign true (some (zero, s)) = none
with_sign true (some (suc i, s)) = some (b'-' ∷ s)

-- itoa; the least int is its own negative, at which the loop makes no round
unfoldable pub itoa : ℤ → Option Bytes
itoa (pos n) = if n == 0 then some (codes "0") else with_sign false (put_digits 20 n [])
itoa (negsuc n) = with_sign true (put_digits 20 (if n + 1 == int_limit then 0 else n + 1) [])

abbrev pub followed_by : Option Bytes → Bytes → Option Bytes
followed_by none s = none
followed_by (some a) s = some (a ++ s)

-- humanSince
unfoldable pub human_since : ℕ → Option Bytes
unfolding itoa
human_since d =
    if ltb d 60
    then some (codes "just now")
    else if ltb d 3600
    then followed_by (itoa (pos (d / 60))) (codes "m ago")
    else if ltb d (24 * 3600)
    then followed_by (itoa (pos (d / 3600))) (codes "h ago")
    else followed_by (itoa (pos (d / 3600 / 24))) (codes "d ago")

-- snapshot
pub record Snapshot : Type 0 where
  pub total : ℤ
  pub running : ℤ
  pub tools : ℤ
  pub phases : List Bytes

-- nodeView
pub record NodeView : Type 0 where
  pub id : Bytes
  pub label : Bytes
  pub status : Status
  pub dsh : Bytes
  pub platform : Bytes
  pub last_seen : Bytes
  pub agents : Bytes
  pub tools : ℤ
  pub failed : ℕ
  pub plugins : ℕ
  pub current : Bool

unfoldable pub count_failed : List Bytes → ℕ
count_failed [] = 0
count_failed (p ∷ ps) = if same p (codes "failed") then suc (count_failed ps) else count_failed ps

abbrev pub joined : Option Bytes → Option Bytes → Option Bytes
joined none b = none
joined (some a) b = elim b [ none ↦ none | some c ↦ some (a ++ codes " / " ++ c) ]

-- The telemetry of a view; `none` is a panic.
abbrev pub with_snapshot : NodeView → Option Snapshot → Option NodeView
with_snapshot v none = some v
with_snapshot v (some s) = elim (joined (itoa s.running) (itoa s.total)) [
  | none ↦ none
  | some agents ↦ some (record v {
    agents = agents;
    tools = s.tools;
    plugins = length s.phases;
    failed = count_failed s.phases;
  })
]

abbrev pub age : ℕ → Option ℕ → Option Bytes
age now none = some (codes "never")
age now (some t) = human_since (since now t)

-- The view before the snapshot is read.
abbrev pub first_view : ℕ → Listed → Bool → Bytes → NodeView
first_view now n live seen = record {
  id = n.id;
  label = if same n.label [] then n.id else n.label;
  status = status now n live;
  dsh = n.dsh_version;
  platform = n.platform;
  last_seen = seen;
  agents = [];
  tools = pos 0;
  failed = 0;
  plugins = 0;
  current = false;
}

abbrev pub name_of : Option User → Bytes
name_of none = []
name_of (some u) = u.username

abbrev pub is_admin_of : Option User → Bool
is_admin_of none = false
is_admin_of (some u) = u.is_admin

-- nodesData, State
pub record MachineList : Type 0 where
  pub user : Bytes
  pub admin : Bool
  pub current : Bytes
  pub nodes : List NodeView

module _ (parse : Bytes → Option Snapshot) (now : ℕ) where
  -- project
  unfoldable pub project : Listed → Bool → Option NodeView
  unfolding status human_since itoa count_failed
  project n live = elim (age now n.last_seen_at) [
    | none ↦ none
    | some seen ↦
        with_snapshot (first_view now n live seen)
          (if same n.snapshot [] then none else parse n.snapshot)
  ]

  abbrev pub put_current : Bytes → Option NodeView → Option (List NodeView) → Option (List NodeView)
  put_current current none vs = none
  put_current current (some v) vs = elim vs [
    | none ↦ none
    | some vs ↦ some (record v { current = same v.id current } ∷ vs)
  ]

  -- The loop of NodesPage.ServeHTTP and StatePage.ServeHTTP.
  unfoldable pub views : List Bytes → Bytes → List Listed → Option (List NodeView)
  unfolding project
  views live current [] = some []
  views live current (n ∷ ns) =
      put_current current (project n (contains n.id live)) (views live current ns)

  abbrev pub listed_page :
      List Bytes
      → Bytes
      → Option User
      → Result GoError (List Listed)
      → Option (Result ℕ MachineList)
  listed_page live current user (err e) = some (err 500)
  listed_page live current user (ok ns) = elim (views live current ns) [
    | none ↦ none
    | some vs ↦ some (
        ok
          (record { user = name_of user; admin = is_admin_of user; current = current; nodes = vs }))
  ]

  -- NodesPage.ServeHTTP and StatePage.ServeHTTP, with `live` the answer of Online and `current` that of
  -- SelectedNode: a status, or what is rendered; `none` is a panic
  unfoldable pub serve_machines :
      Bool → Store → List Bytes → Bytes → Option User → Option (Result ℕ MachineList)
  unfolding views list_nodes
  serve_machines up s live current user = listed_page live current user (list_nodes up s)

  abbrev pub unknown_machine : Bytes → NodeView
  unknown_machine id = record {
    id = id;
    label = id;
    status = offline;
    dsh = [];
    platform = [];
    last_seen = codes "never";
    agents = [];
    tools = pos 0;
    failed = 0;
    plugins = 0;
    current = false;
  }

  -- The loop of OfflinePage.ServeHTTP.
  unfoldable pub offline_view : List Bytes → Bytes → List Listed → Option NodeView
  unfolding project
  offline_view live id [] = some (unknown_machine id)
  offline_view live id (n ∷ ns) =
      let rest = offline_view live id ns in
      if same n.id id then project n (contains n.id live) else rest

  abbrev pub offline_of : List Bytes → Bytes → Result GoError (List Listed) → Option NodeView
  offline_of live id (err e) = some (unknown_machine id)
  offline_of live id (ok ns) = offline_view live id ns

  -- OfflinePage.ServeHTTP, always with 502: a page for a navigation, a text otherwise
  unfoldable pub serve_offline :
      Bool → Store → List Bytes → Bytes → Request → Option (Option NodeView)
  unfolding offline_view list_nodes is_navigation
  serve_offline up s live id r =
      if not (is_navigation r)
      then some none
      else elim (offline_of live id (list_nodes up s)) [ none ↦ none | some v ↦ some (some v) ]

-- Guard.Select: the machine that the cookie is set to, if any
unfoldable pub select : Bytes → Reply × Option Bytes
unfolding trim_prefix
select path =
    let id = trim_prefix path path_select in
    if same id [] || has b'/' id
    then (fails 400 (codes "no machine named"), none)
    else (redirects (codes "/"), some id)

-- Home
unfoldable pub home : Reply
home = redirects path_console

-- ===== src/Fleet.antt =====
-- cmd/dshf/main.go: what the command puts together of the other parts, and its own small helpers.
pub mod Enrol
pub mod Routes
pub mod Commands
pub mod Upkeep
pub mod Start
use dsh_fleet.Base.{
  ℕ, Bool, true, false, ◌&&◌, ◌||◌, List, [], ◌∷◌, ◌++◌, Option, none, some, ltb, if◌then◌else◌,
  Bytes, codes, same,
}
use dsh_fleet.Config.{Url}
use dsh_fleet.Console.Machines.{Status, revoked, online, never_seen, offline, since, by_last_seen}
use dsh_fleet.Console.Reply.{Reply, fails, redirects, path_console}
use dsh_fleet.Nodes.Rows.{Listed}
use dsh_fleet.Strings.{contains, to_lower}

-- The subcommands that `run` tells apart.
pub data Command : Type 0 where
  no_command serve node user audit cert version help : Command
  unknown : Bytes → Command

-- run
unfoldable pub command : List Bytes → Command
command [] = no_command
command (name ∷ args) =
    if same name (codes "serve")
    then serve
    else if same name (codes "node")
    then node
    else if same name (codes "user")
    then user
    else if same name (codes "audit")
    then audit
    else if same name (codes "cert")
    then cert
    else if same name (codes "version") || same name (codes "--version") || same name (codes "-v")
    then version
    else if same name (codes "help") || same name (codes "--help") || same name (codes "-h")
    then help
    else unknown name

-- uplinkURL
unfoldable pub uplink_url : Url → Bytes
uplink_url public =
    (if same public.scheme (codes "https") then codes "wss" else codes "ws")
    ++ codes "://"
    ++ public.host
    ++ codes "/uplink"

-- Whether warnIfInsecureOrigin warns.
unfoldable pub warns_of_origin : Url → Bool
warns_of_origin public =
    if same public.scheme (codes "https")
    then false
    else if same public.hostname (codes "localhost")
        || same public.hostname (codes "127.0.0.1")
        || same public.hostname (codes "::1")
    then false
    else true

-- noMachineSelected, on the method and the Accept header
unfoldable pub no_machine_selected : Bytes → Bytes → Reply
unfolding contains
no_machine_selected verb accept =
    if same verb (codes "GET") && contains accept (codes "text/html")
    then redirects path_console
    else fails 503 (codes "no machine selected")

-- nodeStatus
unfoldable pub node_status : ℕ → Listed → Status
node_status now n = elim n.revoked_at [
  | some t ↦ revoked
  | none ↦ elim n.last_seen_at [
    | none ↦ never_seen
    | some t ↦ if ltb (since now t) 60 then online else offline
  ]
]

-- dash
unfoldable pub dash : Bytes → Bytes
dash s = if same s [] then codes "-" else s

pub data Level : Type 0 where
  debug info warn error : Level

-- newLogger
unfoldable pub log_level : Bytes → Level
unfolding to_lower
log_level level =
    let l = to_lower level in
    if same l (codes "debug")
    then debug
    else if same l (codes "warn")
    then warn
    else if same l (codes "error")
    then error
    else info

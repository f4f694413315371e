-- ===== src/Witnesses/Startup.antt =====
-- An environment and a directory of scripts, for the theorems on internal/config, internal/store and
-- the start of cmd/dshf.
use dsh_fleet.Base.{
  ◌≡◌, refl, true, false, List, [], ◌∷◌, Option, none, some, if◌then◌else◌, Bytes, codes, same, map,
  if-cases,
}
use dsh_fleet.Base.Result.{ok}
use dsh_fleet.Config
use dsh_fleet.Config.{Config, env_or, atoi, checks, load, retention}
use dsh_fleet.Strings.{trim_space}
use dsh_fleet.Registry.Online.{Unrepeated, contains}
use dsh_fleet.Config.Laws.{Valid, load-Valid}
use dsh_fleet.Fleet.Start.{Answers, Running, Tables, start}
use dsh_fleet.Fleet.Start.Ready.{Ready, start-Ready}
use dsh_fleet.Migrations.{
  Versions, Script, fails, in_progress, closed, Taken, accepted, refused, migration_failed,
  DirEntry, Database, is_applied, migrate, collect, version,
}
use dsh_fleet.Migrations.Order.{InOrder}
use dsh_fleet.Migrations.Step.{OnlyOwn}
use dsh_fleet.Migrations.Progress.{Progress}
use dsh_fleet.Migrations.Laws.{migrate-Progress}
use dsh_fleet.Secret.{IdKey, encoded, threads, hash}
use dsh_fleet.Proxy.Gate.{access_full, parse_access}
use dsh_fleet.Users.Changes.{ensure_bootstrap_admin}
use dsh_fleet.Users
use dsh_fleet.Users.{create, by_name}

abbrev same_text : Bytes → Bytes
same_text b = b

abbrev toy_key : IdKey
toy_key secret salt time memory p n = secret

abbrev nobody : Users.Store
nobody = record { users = []; sessions = []; tokens = []; owners = []; now = 10 }

-- A script creates schema_migrations if it is not there, and fails on the text "bad".
abbrev create_table : Versions → Versions
create_table none = some []
create_table (some vs) = some vs

abbrev exec : Bytes → Versions → Script
exec sql vs = if same sql (codes "bad") then fails vs else in_progress vs (create_table vs)

abbrev read_file : Bytes → Option Bytes
read_file name = if same name (codes "2.sql") then some (codes "bad") else some (codes "ok")

abbrev all_up : Bytes → Taken
all_up name = record { begins = true; records = accepted; commits = accepted }

create_table_lem : (vs : Versions) (w : Bytes) → is_applied (create_table vs) w ≡ is_applied vs w
unfolding contains
create_table_lem none w = refl
create_table_lem (some vs) w = refl

exec_owns : (v sql : Bytes) (vs : Versions) → OnlyOwn v vs (exec sql vs)
exec_owns v sql vs =
    if-cases (OnlyOwn v vs) (same sql (codes "bad")) _ _ (λ t w n. refl)
      λ f. (λ w n. refl, λ w n. create_table_lem vs w)

abbrev directory : Option (List DirEntry)
directory = some (
    record { name = codes "2.sql"; is_dir = false }
    ∷ record { name = codes "1.sql"; is_dir = false }
    ∷ record { name = codes "notes"; is_dir = false }
    ∷ [])

abbrev fresh : Database
fresh = record { versions = none; scripts = [] }

collected : collect directory ≡ ok (codes "1.sql" ∷ codes "2.sql" ∷ [])
unfolding collect
collected = refl

-- The second script fails, and the first one stays.
stops_at_second :
    (migrate exec read_file all_up true directory fresh).database.versions ≡ some (codes "1" ∷ [])
unfolding migrate contains
stops_at_second = refl

-- A script that creates the table, records its version and commits, as the first one of the repository.
abbrev commits_itself : Bytes → Versions → Script
commits_itself sql vs = closed (some (codes "1" ∷ []))

abbrev cut_off : Bytes → Taken
cut_off name = record { begins = true; records = refused; commits = refused }

-- When the connection breaks after it, Migrate returns no version, and one is recorded.
recorded_though_failed : migrate commits_itself read_file cut_off true directory fresh ≡ record {
  ran = [];
  error = some (migration_failed (codes "1"));
  database = record { versions = some (codes "1" ∷ []); scripts = codes "ok" ∷ [] };
}
unfolding migrate contains
recorded_though_failed = refl

migrate-Progress_example :
    InOrder (codes "1.sql" ∷ codes "2.sql" ∷ [])
    × Progress exec read_file all_up
        (codes "1.sql" ∷ codes "2.sql" ∷ [])
        fresh
        (migrate exec read_file all_up true directory fresh)
    × ((migrate exec read_file all_up true directory fresh).error ≡ none
        → (migrate exec read_file all_up true directory
            (migrate exec read_file all_up true directory fresh).database).ran
          ≡ [])
unfolding version contains
migrate-Progress_example =
    migrate-Progress exec read_file all_up directory (codes "1.sql" ∷ codes "2.sql" ∷ []) fresh
      (λ file sql vs r. exec_owns (version file) sql vs) collected (refl, (refl, tt))

abbrev env : Bytes → Option Bytes
env key =
    if same key (codes "DSHF_DATABASE_URL")
    then some (codes "postgres://db")
    else if same key (codes "DSHF_ADMIN_PASSWORD")
    then some (codes "long password")
    else if same key (codes "DSHF_PUBLIC_URL")
    then some (codes "https://fleet.example")
    else if same key (codes "DSHF_TELEMETRY_RETENTION_DAYS")
    then some (codes "106752")
    else none

abbrev parse_url : Bytes → Option Config.Url
parse_url raw = some (record {
  scheme = codes "https";
  host = codes "fleet.example";
  hostname = codes "fleet.example";
})

abbrev fleet_config : Config
fleet_config = record {
  database_url = codes "postgres://db";
  listen = codes ":8080";
  public_url = record {
    scheme = codes "https";
    host = codes "fleet.example";
    hostname = codes "fleet.example";
  };
  migrations_dir = codes "deploy/migrations";
  admin_user = codes "admin";
  admin_password = codes "long password";
  tls_cert = [];
  tls_key = [];
  privileged_access = codes "full";
  telemetry_retention = retention 106752;
  log_level = codes "info";
}

loaded : load env parse_url ≡ ok fleet_config
unfolding load env_or checks trim_space atoi
loaded = refl

load-Valid_example : Valid env parse_url fleet_config
load-Valid_example = load-Valid env parse_url fleet_config loaded

abbrev read_dir : Bytes → Option (List DirEntry)
read_dir dir = some (record { name = codes "1.sql"; is_dir = false } ∷ [])

abbrev read_in : Bytes → Bytes → Option Bytes
read_in dir name = read_file name

only_one :
    (dir : Bytes) (files : List Bytes)
    → collect (read_dir dir) ≡ ok files
    → Unrepeated (map version files)
unfolding collect contains
only_one dir files e =
    let same_files : codes "1.sql" ∷ [] ≡ files = cc e in rw⁻¹ same_files (refl, tt)

abbrev answers : Answers
answers = record {
  opens = λ url. true;
  reads_versions = true;
  counts = true;
  inserts = true;
  id = codes "7";
  salt = some (7 ∷ 8 ∷ []);
}

abbrev admin : Users.User
admin = record {
  id = codes "7";
  username = codes "admin";
  password_hash = encoded (threads 2) (7 ∷ 8 ∷ []) (codes "long password");
  is_admin = true;
  created_at = 10;
  disabled_at = none;
}

abbrev server : Running
server = record {
  config = fleet_config;
  applied = codes "1" ∷ [];
  created_admin = true;
  secure = true;
  privileged = access_full;
  tls = false;
}

abbrev seeded : Tables
seeded = (
  record { versions = some (codes "1" ∷ []); scripts = codes "ok" ∷ [] },
  record nobody { users = admin ∷ [] },
)

listens :
    start env parse_url exec read_dir read_in all_up same_text toy_key 2 answers (fresh, nobody)
    ≡ (ok server, seeded)
unfolding start load env_or checks trim_space atoi migrate contains create hash by_name
    ensure_bootstrap_admin parse_access
listens = refl

start-Ready_example :
    Ready env parse_url exec read_dir read_in all_up same_text toy_key 2 answers
      (fresh, nobody)
      seeded
      server
start-Ready_example =
    start-Ready env parse_url exec read_dir read_in all_up same_text toy_key 2
      (λ dir file sql vs r. exec_owns (version file) sql vs) only_one answers (fresh, nobody) seeded
      server listens

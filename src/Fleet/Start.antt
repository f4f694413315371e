-- ===== src/Fleet/Start.antt =====
-- How `serve` of cmd/dshf/main.go starts, up to the listener. The state is the database, as the
-- migrations and the account store see it; `env` and `parse` are those of Config, `opens` is
-- store.Open, and `read_dir`, `read_file`, `exec` and `taken` are what Migrations takes.
pub mod Ready
use dsh_fleet.Base.{
  ℕ, Bool, true, false, List, [], Option, none, some, if◌then◌else◌, Bytes, codes, same,
}
use dsh_fleet.Base.Result.{Result, ok, err}
use dsh_fleet.Base.Errors.{GoError}
use dsh_fleet.Config.{Url, Config, ConfigError, load, serves_tls}
use dsh_fleet.Migrations
use dsh_fleet.Migrations.{DirEntry, MigrateError, Outcome, migrate}
use dsh_fleet.Proxy.Gate.{Access, parse_access}
use dsh_fleet.Secret.{IdKey}
use dsh_fleet.Users
use dsh_fleet.Users.Changes.{ensure_bootstrap_admin}

pub data StartError : Type 0 where
  no_config : ConfigError → StartError
  no_database : StartError
  not_migrated : MigrateError → StartError
  no_account : GoError → StartError
  bad_access : Bytes → StartError

-- What the server is made of, once it listens.
pub record Running : Type 0 where
  pub config : Config
  pub applied : List Bytes
  pub created_admin : Bool
  pub secure : Bool
  pub privileged : Access
  pub tls : Bool

abbrev pub Tables : Type 0
Tables = Migrations.Database × Users.Store

-- What the database answers: the connection, the versions, and the two statements of
-- EnsureBootstrapAdmin; and the id and the salt of a new account.
pub record Answers : Type 0 where
  pub opens : Bytes → Bool
  pub reads_versions : Bool
  pub counts : Bool
  pub inserts : Bool
  pub id : Bytes
  pub salt : Option Bytes

module _ (env : Bytes → Option Bytes) (parse : Bytes → Option Url)
    (exec : Bytes → Migrations.Versions → Migrations.Script)
    (read_dir : Bytes → Option (List DirEntry)) (read_file : Bytes → Bytes → Option Bytes)
    (taken : Bytes → Migrations.Taken) (lower : Bytes → Bytes) (id_key : IdKey) (cpus : ℕ) where
  abbrev pub with_access :
      Config → List Bytes → Bool → Tables → Result Bytes Access → Result StartError Running × Tables
  with_access c applied created b (err level) = (err (bad_access level), b)
  with_access c applied created b (ok access) = (
    ok (record {
      config = c;
      applied = applied;
      created_admin = created;
      secure = same c.public_url.scheme (codes "https");
      privileged = access;
      tls = serves_tls c;
    }),
    b,
  )

  abbrev pub with_account :
      Config
      → List Bytes
      → Migrations.Database
      → Result GoError Bool × Users.Store
      → Result StartError Running × Tables
  with_account c applied d (err e, us) = (err (no_account e), (d, us))
  with_account c applied d (ok created, us) =
      with_access c applied created (d, us) (parse_access c.privileged_access)

  abbrev pub with_schema :
      Answers → Config → Users.Store → Outcome exec → Result StartError Running × Tables
  with_schema a c us o = elim o.error [
    | some e ↦ (err (not_migrated e), (o.database, us))
    | none ↦ with_account c o.ran o.database (
        ensure_bootstrap_admin lower id_key cpus a.salt a.id a.counts a.inserts us c.admin_user
          c.admin_password)
  ]

  abbrev pub with_config :
      Answers → Tables → Result ConfigError Config → Result StartError Running × Tables
  with_config a (d, us) (err e) = (err (no_config e), (d, us))
  with_config a (d, us) (ok c) =
      if a.opens c.database_url
      then with_schema a c us (
          migrate exec (read_file c.migrations_dir) taken a.reads_versions
            (read_dir c.migrations_dir) d)
      else (err no_database, (d, us))

  -- serve, up to the listener
  unfoldable pub start : Answers → Tables → Result StartError Running × Tables
  unfolding serves_tls
  start a b = with_config a b (load env parse)

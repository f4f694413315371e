-- ===== src/Migrations.antt =====
-- internal/store/migrate.go. A file is named by its entry in the directory, which `filepath.Base` gives
-- back of its path. What a script does to the database is the argument `exec`; a script may commit what
-- it did itself, as those of deploy/migrations do. The state is what is committed: the table
-- schema_migrations, if it is there, and the scripts that ran to their end.
pub mod Order
pub mod Step
pub mod Progress
pub mod Laws
use dsh_fleet.Base.{
  Bool, true, false, not, ◌&&◌, ◌||◌, List, [], ◌∷◌, ◌++◌, Option, none, some, if◌then◌else◌, Bytes,
  codes, same, map,
}
use dsh_fleet.Base.Result.{Result, ok, err}
use dsh_fleet.Registry.Online.{sort_strings, contains}
use dsh_fleet.Strings.{has_suffix, trim_suffix}

-- What os.ReadDir gives of a directory.
pub record DirEntry : Type 0 where
  pub name : Bytes
  pub is_dir : Bool

pub data MigrateError : Type 0 where
  no_directory no_migrations cannot_read_versions : MigrateError
  cannot_read_file migration_failed : Bytes → MigrateError

abbrev pub suffix : Bytes
suffix = codes ".sql"

unfoldable pub sql_names : List DirEntry → List Bytes
unfolding has_suffix
sql_names [] = []
sql_names (e ∷ es) =
    let rest = sql_names es in
    if e.is_dir || not (has_suffix e.name suffix) then rest else e.name ∷ rest

abbrev pub some_files : List Bytes → Result MigrateError (List Bytes)
some_files [] = err no_migrations
some_files (f ∷ fs) = ok (f ∷ fs)

-- collect
unfoldable pub collect : Option (List DirEntry) → Result MigrateError (List Bytes)
unfolding sql_names sort_strings
collect none = err no_directory
collect (some es) = some_files (sort_strings (sql_names es))

unfoldable pub version : Bytes → Bytes
unfolding trim_suffix
version file = trim_suffix file suffix

-- The column version of schema_migrations, `none` if the table is not there.
abbrev pub Versions : Type 0
Versions = Option (List Bytes)

pub record Database : Type 0 where
  pub versions : Versions
  pub scripts : List Bytes

abbrev pub is_applied : Versions → Bytes → Bool
is_applied none v = false
is_applied (some vs) v = contains v vs

-- How the text of a script ends: with an error, leaving what it committed; with a transaction open, in
-- which the second is seen while the first is committed; or after a COMMIT of its own.
pub data Script : Type 0 where
  fails : Versions → Script
  in_progress : Versions → Versions → Script
  closed : Versions → Script

-- What the database makes of a statement: `lost` is one that it carried out while the caller is told of
-- an error.
pub data Acceptance : Type 0 where
  accepted refused lost : Acceptance

-- appliedVersions: a missing table is no version; `up` is for any other error
unfoldable pub applied_versions : Bool → Database → Result MigrateError Versions
applied_versions up d = if up then ok d.versions else err cannot_read_versions

-- INSERT INTO schema_migrations ... ON CONFLICT DO NOTHING
abbrev pub record_version : Bytes → Versions → Option Versions
record_version v none = none
record_version v (some vs) = some (some (if contains v vs then vs else v ∷ vs))

-- What Begin, the upsert and Commit of runOne meet.
pub record Taken : Type 0 where
  pub begins : Bool
  pub records : Acceptance
  pub commits : Acceptance

-- What runOne returns, and what it leaves.
abbrev pub Ended : Type 0
Ended = Option MigrateError × Database

abbrev pub left : Option MigrateError → Versions → List Bytes → Ended
left e vs scripts = (e, record { versions = vs; scripts = scripts })

-- The upsert and Commit in the transaction, which Rollback takes back to `saved`.
unfoldable pub in_transaction :
    Acceptance → Acceptance → Bytes → Bytes → Database → Versions → Option Versions → Ended
in_transaction accepted accepted v sql d saved (some vs) = left none vs (d.scripts ++ sql ∷ [])
in_transaction accepted lost v sql d saved (some vs) =
    left (some (migration_failed v)) vs (d.scripts ++ sql ∷ [])
in_transaction accepted refused v sql d saved (some vs) =
    left (some (migration_failed v)) saved d.scripts
in_transaction refused c v sql d saved (some vs) = left (some (migration_failed v)) saved d.scripts
in_transaction lost c v sql d saved (some vs) = left (some (migration_failed v)) saved d.scripts
in_transaction r c v sql d saved none = left (some (migration_failed v)) saved d.scripts

-- The upsert when the script has committed: it stands on its own, and Commit and Rollback find nothing
-- to end.
unfoldable pub after_commit :
    Acceptance → Acceptance → Bytes → Bytes → Database → Versions → Option Versions → Ended
after_commit accepted accepted v sql d saved (some vs) = left none vs (d.scripts ++ sql ∷ [])
after_commit accepted lost v sql d saved (some vs) =
    left (some (migration_failed v)) vs (d.scripts ++ sql ∷ [])
after_commit accepted refused v sql d saved (some vs) =
    left (some (migration_failed v)) vs (d.scripts ++ sql ∷ [])
after_commit lost c v sql d saved (some vs) =
    left (some (migration_failed v)) vs (d.scripts ++ sql ∷ [])
after_commit refused c v sql d saved (some vs) =
    left (some (migration_failed v)) saved (d.scripts ++ sql ∷ [])
after_commit r c v sql d saved none = left (some (migration_failed v)) saved (d.scripts ++ sql ∷ [])

unfoldable pub after_script : Taken → Bytes → Bytes → Database → Script → Ended
unfolding in_transaction after_commit
after_script t v sql d (fails vs) = left (some (migration_failed v)) vs d.scripts
after_script t v sql d (in_progress saved vs) =
    in_transaction t.records t.commits v sql d saved (record_version v vs)
after_script t v sql d (closed vs) =
    after_commit t.records t.commits v sql d vs (record_version v vs)

module _ (exec : Bytes → Versions → Script) where
  -- runOne
  unfoldable pub run_one : Taken → Bytes → Bytes → Database → Ended
  unfolding after_script
  run_one t v sql d =
      if t.begins
      then after_script t v sql d (exec sql d.versions)
      else (some (migration_failed v), d)

  -- What Migrate returns, and the database that it leaves.
  pub record Outcome : Type 0 where
    pub ran : List Bytes
    pub error : Option MigrateError
    pub database : Database

  abbrev pub prepend : Bytes → Outcome → Outcome
  prepend v o = record { ran = v ∷ o.ran; error = o.error; database = o.database }

  module _ (read_file : Bytes → Option Bytes) (up : Bytes → Taken) where
    abbrev pub ended : MigrateError → Database → Outcome
    ended e d = record { ran = []; error = some e; database = d }

    -- The loop of Migrate, from one file on.
    unfoldable pub each : Versions → List Bytes → Database → Outcome
    unfolding version run_one
    each applied [] d = record { ran = []; error = none; database = d }
    each applied (file ∷ files) d = elim (is_applied applied (version file)) [
      | true ↦ each applied files d
      | false ↦ elim (read_file file) [
        | none ↦ ended (cannot_read_file (version file)) d
        | some sql ↦
            let r = run_one (up file) (version file) sql d in
            elim r.0 [
              | some e ↦ ended e r.1
              | none ↦ prepend (version file) (each applied files r.1)
            ]
      ]
    ]

    abbrev pub from_versions : List Bytes → Database → Result MigrateError Versions → Outcome
    from_versions files d (err e) = ended e d
    from_versions files d (ok applied) = each applied files d

    abbrev pub from_files : Bool → Database → Result MigrateError (List Bytes) → Outcome
    from_files reads d (err e) = ended e d
    from_files reads d (ok files) = from_versions files d (applied_versions reads d)

    -- Migrate; `reads` is for the query of appliedVersions
    unfoldable pub migrate : Bool → Option (List DirEntry) → Database → Outcome
    unfolding collect applied_versions each
    migrate reads dir d = from_files reads d (collect dir)

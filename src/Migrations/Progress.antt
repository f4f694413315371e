-- ===== src/Migrations/Progress.antt =====
-- What Migrate of internal/store/migrate.go may leave, over runs that may fail.
use dsh_fleet.Base.{
  ◌≡◌, refl, false, List, [], ◌∷◌, ◌++◌, Option, none, some, if◌then◌else◌, ◌⊎◌, inl, Bytes, map,
}
use dsh_fleet.Registry.Online.{contains}
use dsh_fleet.Migrations.{
  Versions, Script, Taken, MigrateError, Database, Outcome, version, is_applied, migration_failed,
}
use dsh_fleet.Migrations.Step.{OnlyOwn, RollsBack}

-- The versions of the files that are not recorded.
unfoldable pub todo : Versions → List Bytes → List Bytes
todo vs [] = []
todo vs (file ∷ files) =
    let rest = todo vs files in if is_applied vs (version file) then rest else version file ∷ rest

module _ (exec : Bytes → Versions → Script) (read_file : Bytes → Option Bytes)
    (up : Bytes → Taken) where
  -- No script records another version than that of its file, or removes one, in whatever it commits or
  -- leaves to be committed.
  abbrev pub Own : Type 0
  Own =
      (file sql : Bytes) (vs : Versions)
      → read_file file ≡ some sql
      → OnlyOwn (version file) vs (exec sql vs)

  -- The versions that ran are those of some of the files, in their order, with the scripts `sqls`.
  abbrev pub Ran : List Bytes → List Bytes → List Bytes → Type 0
  Ran [] ran sqls = (ran ≡ []) × (sqls ≡ [])
  Ran (file ∷ files) ran sqls =
      Ran files ran sqls
      ⊎ ((sql : Bytes) × (later : List Bytes) × (rest : List Bytes) × (read_file file ≡ some sql)
          × (ran ≡ version file ∷ later)
          × (sqls ≡ sql ∷ rest)
          × Ran files later rest)

  pub nothing-Ran : (files : List Bytes) → Ran files [] []
  nothing-Ran [] = (refl, refl)
  nothing-Ran (file ∷ files) = inl (nothing-Ran files)

  -- No script commits, and the answer to no Commit is lost.
  abbrev pub AllRollBack : Type 0
  AllRollBack =
      (file sql : Bytes) (vs : Versions)
      → read_file file ≡ some sql
      → RollsBack vs (up file).commits (exec sql vs)

  -- The script at which Migrate stopped may have stayed, and its version with it.
  abbrev pub Stayed : List Bytes → List Bytes → Option MigrateError → Type 0
  Stayed extra tail error =
      (file : Bytes) × (sql : Bytes) × (read_file file ≡ some sql)
      × (error ≡ some (migration_failed (version file)))
      × ((extra ≡ []) ⊎ (extra ≡ version file ∷ []))
      × ((tail ≡ []) ⊎ (tail ≡ sql ∷ []))

  -- Of one call on the files, from `d` to its outcome.
  pub record Progress (files : List Bytes) (d : Database) (o : Outcome exec) : Type 0 where
    pub sqls : List Bytes
    pub extra : List Bytes
    pub tail : List Bytes
    pub split : todo d.versions files ≡ o.ran ++ (extra ++ todo o.database.versions files)
    pub scripts : o.database.scripts ≡ d.scripts ++ (sqls ++ tail)
    pub ran : Ran files o.ran sqls
    pub stayed : ((extra ≡ []) × (tail ≡ [])) ⊎ Stayed extra tail o.error
    pub finished : o.error ≡ none → (extra ≡ []) × (todo o.database.versions files ≡ [])
    pub rolled : AllRollBack → (extra ≡ []) × (tail ≡ [])
    pub keeps :
        (w : Bytes)
        → contains w (map version files) ≡ false
        → is_applied o.database.versions w ≡ is_applied d.versions w

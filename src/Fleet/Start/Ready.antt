-- ===== src/Fleet/Start/Ready.antt =====
-- What holds when `serve` of cmd/dshf/main.go listens.
use dsh_fleet.Base.{
  ℕ, ◌≡◌, ◌≢◌, refl, ◌⊎◌, inl, inr, Bool, true, false, List, [], ◌∷◌, ◌++◌, Option, none, some,
  arith, Bool-cases, Option-cases, Bytes, codes, same, map,
}
use dsh_fleet.Base.Result.{Result, ok, err, Result-cases}
use dsh_fleet.Base.Errors.{GoError}
use dsh_fleet.Config.{Url, Config, load, serves_tls}
use dsh_fleet.Config.Laws.{Valid, load-Valid}
use dsh_fleet.Fleet.Start.{
  no_config, no_database, not_migrated, Running, Tables, Answers, with_access, with_account,
  with_schema, start,
}
use dsh_fleet.Migrations
use dsh_fleet.Migrations.{DirEntry, MigrateError, Outcome, collect, version, migrate}
use dsh_fleet.Migrations.Progress.{todo, Own}
use dsh_fleet.Migrations.Laws.{migrate-Progress}
use dsh_fleet.Proxy.Gate.{Access, parse_access}
use dsh_fleet.Registry.Online.{Unrepeated}
use dsh_fleet.Secret.{IdKey, hash}
use dsh_fleet.Strings.{trim_space}
use dsh_fleet.Users
use dsh_fleet.Users.{User, Session, Token, create, by_name}
use dsh_fleet.Users.Changes.{ensure_bootstrap_admin, created}

module _ (lower : Bytes → Bytes) (id_key : IdKey) (cpus : ℕ) (salt : Option Bytes) where
  -- An administrator with this name and the password of this hash, who is not disabled.
  pub record Administrator (name password : Bytes) (u : User) : Type 0 where
    pub is_admin : u.is_admin ≡ true
    pub enabled : u.disabled_at ≡ none
    pub named : u.username ≡ trim_space name
    pub hashed : hash id_key cpus salt password ≡ some u.password_hash

  -- The first account is made, or there was one and nothing changes.
  abbrev pub Seeded : Bytes → Bytes → Users.Store → Users.Store → Type 0
  Seeded name password s s' =
      ((s.users ≡ []) × ((u : User) × (s'.users ≡ u ∷ []) × Administrator name password u))
      ⊎ ((s.users ≢ []) × (s' ≡ s))

  create-Administrator :
      (id : Bytes) (up : Bool) (s s' : Users.Store) (name password : Bytes) (u : User)
      → create lower id_key cpus salt id up s name password true ≡ (ok u, s')
      → (s'.users ≡ s.users ++ u ∷ []) × Administrator name password u
  unfolding create
  create-Administrator id up s s' name password u e = (
    ground arith,
    record {
      is_admin = ground arith;
      enabled = ground arith;
      named = ground arith;
      hashed = ground arith;
    },
  )

  created_lem :
      (s' : Users.Store) (made : Bool) (o : Result GoError User × Users.Store)
      → created o ≡ (ok made, s')
      → (u : User) × (o ≡ (ok u, s'))
  created_lem s' made (ok u, s) e = let same : s ≡ s' = cc e in (u, rw same refl)
  created_lem s' made (err why, s) e = cc e

  bootstrap-Seeded :
      (id : Bytes) (up up₂ made : Bool) (us : List User) (sessions : List Session)
      (tokens : List Token) (owners : List Bytes) (now : ℕ) (s' : Users.Store)
      (name password : Bytes)
      → (let s : Users.Store = record {
        users = us;
        sessions = sessions;
        tokens = tokens;
        owners = owners;
        now = now;
      } in
          ensure_bootstrap_admin lower id_key cpus salt id up up₂ s name password ≡ (ok made, s')
          → Seeded name password s s')
  unfolding ensure_bootstrap_admin
  bootstrap-Seeded id false up₂ made us sessions tokens owners now s' name password e = cc e
  bootstrap-Seeded id true up₂ made [] sessions tokens owners now s' name password e =
      let (u, c) = created_lem s' made _ e in
      let (added, admin) = create-Administrator id up₂ _ s' name password u c in
      inl (refl, (u, added, admin))
  bootstrap-Seeded id true up₂ made (u ∷ us) sessions tokens owners now s' name password e =
      inr ((λ h. cc h), cc e)

module _ (env : Bytes → Option Bytes) (parse : Bytes → Option Url)
    (exec : Bytes → Migrations.Versions → Migrations.Script)
    (read_dir : Bytes → Option (List DirEntry)) (read_file : Bytes → Bytes → Option Bytes)
    (taken : Bytes → Migrations.Taken) (lower : Bytes → Bytes) (id_key : IdKey) (cpus : ℕ) where
  pub record Ready (a : Answers) (b b' : Tables) (r : Running) : Type 0 where
    pub valid : Valid env parse r.config
    pub reached : a.opens r.config.database_url ≡ true
    pub files : List Bytes
    pub found : collect (read_dir r.config.migrations_dir) ≡ ok files
    pub migrated : todo b'.0.versions files ≡ []
    pub seeded :
        Seeded lower id_key cpus a.salt r.config.admin_user r.config.admin_password b.1 b'.1
    pub gated : parse_access r.config.privileged_access ≡ ok r.privileged
    pub cookies : r.secure ≡ same r.config.public_url.scheme (codes "https")
    pub listener : r.tls ≡ serves_tls r.config

  module _ (own : (dir : Bytes) → Own exec (read_file dir) taken)
      (distinct : (dir : Bytes) (files : List Bytes)
        → collect (read_dir dir) ≡ ok files
        → Unrepeated (map version files)) where
    schema_lem :
        (reads : Bool) (dir : Option (List DirEntry)) (file : Bytes → Option Bytes)
        (d : Migrations.Database)
        → Own exec file taken
        → ((files : List Bytes) → collect dir ≡ ok files → Unrepeated (map version files))
        → (migrate exec file taken reads dir d).error ≡ none
        → (files : List Bytes) × (collect dir ≡ ok files)
          × (todo (migrate exec file taken reads dir d).database.versions files ≡ [])
    unfolding migrate
    schema_lem reads dir file d own distinct e = elim (Result-cases (collect dir)) [
      | inr (why, x) ↦ let no : some why ≡ none = rw (x, migrate) at e in cc no
      | inl (files, x) ↦ (files, x, finished reads files x e)
    ]
      where
        finished :
            (reads : Bool) (files : List Bytes)
            → collect dir ≡ ok files
            → (migrate exec file taken reads dir d).error ≡ none
            → todo (migrate exec file taken reads dir d).database.versions files ≡ []
        finished true files x e =
            ((migrate-Progress exec file taken dir files d own x (distinct files x)).1.finished e).1
        finished false files x e =
            let no : some Migrations.cannot_read_versions ≡ none =
              rw (x, migrate, Migrations.applied_versions) at e in
            cc no

    module _ (a : Answers) (b b' : Tables) (r : Running) (c : Config) (valid : Valid env parse c)
        (reached : a.opens c.database_url ≡ true) where
      accessed :
          (applied : List Bytes) (made : Bool) (now : Tables) (o : Result Bytes Access)
          (files : List Bytes)
          → parse_access c.privileged_access ≡ o
          → collect (read_dir c.migrations_dir) ≡ ok files
          → todo now.0.versions files ≡ []
          → Seeded lower id_key cpus a.salt c.admin_user c.admin_password b.1 now.1
          → with_access env parse exec read_dir read_file taken lower id_key cpus c applied made now
              o
            ≡ (ok r, b')
          → Ready a b b' r
      accessed applied made now (err level) files g f t s e = cc e
      accessed applied made now (ok access) files g f t s e =
          let same_server : record {
            config = c;
            applied = applied;
            created_admin = made;
            secure = same c.public_url.scheme (codes "https");
            privileged = access;
            tls = serves_tls c;
          }
              ≡ r =
            cc e in
          let same_tables : now ≡ b' = cc e in
          rw⁻¹ (same_server, same_tables)
            (record {
              valid = valid;
              reached = reached;
              files = files;
              found = f;
              migrated = t;
              seeded = s;
              gated = g;
              cookies = refl;
              listener = refl;
            })

      accounted :
          (applied : List Bytes) (d : Migrations.Database) (o : Result GoError Bool × Users.Store)
          (files : List Bytes)
          → ensure_bootstrap_admin lower id_key cpus a.salt a.id a.counts a.inserts b.1 c.admin_user
              c.admin_password
            ≡ o
          → collect (read_dir c.migrations_dir) ≡ ok files
          → todo d.versions files ≡ []
          → with_account env parse exec read_dir read_file taken lower id_key cpus c applied d o
            ≡ (ok r, b')
          → Ready a b b' r
      accounted applied d (err why, us) files x f t e = cc e
      accounted applied d (ok made, us) files x f t e =
          let seeded =
            bootstrap-Seeded lower id_key cpus a.salt a.id a.counts a.inserts made b.1.users
              b.1.sessions b.1.tokens b.1.owners b.1.now us c.admin_user c.admin_password x in
          accessed applied made (d, us) (parse_access c.privileged_access) files refl f t seeded e

      migrated-Ready :
          with_schema env parse exec read_dir read_file taken lower id_key cpus a c b.1 (
              migrate exec
                (read_file c.migrations_dir)
                taken
                a.reads_versions
                (read_dir c.migrations_dir)
                b.0)
            ≡ (ok r, b')
          → Ready a b b' r
      migrated-Ready e =
          let o =
            migrate exec (read_file c.migrations_dir) taken a.reads_versions
              (read_dir c.migrations_dir) b.0 in
          elim (Option-cases o.error) [
            | inr (why, h) ↦
                let no : (err (not_migrated why), (o.database, b.1)) ≡ (ok r, b') = rw h at e in
                cc no
            | inl h ↦
                let (files, f, t) =
                  schema_lem a.reads_versions (read_dir c.migrations_dir)
                    (read_file c.migrations_dir) b.0 (own c.migrations_dir)
                    (distinct c.migrations_dir) h in
                accounted o.ran o.database _ files refl f t (rw h at e)
          ]

    -- When serve listens, its configuration is valid, the database was reached, no migration of the
    -- directory is left to run, there is an account: the one it made, an administrator with the name
    -- and the password of the environment, if there was none, and otherwise those that were there,
    -- unchanged; and the level of access, the cookies and TLS are as the configuration says. The
    -- scripts record no other version than their own, and the versions of a directory are different.
    pub start-Ready :
        (a : Answers) (b b' : Tables) (r : Running)
        → start env parse exec read_dir read_file taken lower id_key cpus a b ≡ (ok r, b')
        → Ready a b b' r
    unfolding start
    start-Ready a b b' r e = elim (Result-cases (load env parse)) [
      | inr (why, x) ↦ let no : (err (no_config why), b) ≡ (ok r, b') = rw (x, start) at e in cc no
      | inl (c, x) ↦ elim (Bool-cases (a.opens c.database_url)) [
        | inr f ↦ let no : (err no_database, b) ≡ (ok r, b') = rw (x, start, f) at e in cc no
        | inl t ↦ migrated-Ready a b b' r c (load-Valid env parse c x) t (rw (x, start, t) at e)
      ]
    ]

-- ===== src/Migrations/Step.antt =====
-- What one runOne of internal/store/migrate.go leaves.
use dsh_fleet.Base.{
  if-cases, ◌≡◌, refl, true, false, ◌||◌, List, [], ◌∷◌, ◌++◌, Option, none, some, arith,
  if◌then◌else◌, Bool-cases, ◌⊎◌, inl, inr, Bytes, same, same_iff, same_refl,
}
use dsh_fleet.Registry.Online.{contains}
use dsh_fleet.Migrations.{
  Versions, Script, fails, in_progress, closed, Acceptance, accepted, refused, lost, Taken, Ended,
  left, in_transaction, after_commit, after_script, Database, is_applied, record_version, run_one,
  migration_failed,
}

contains-record :
    (w v : Bytes) (vs : List Bytes)
    → contains w (if contains v vs then vs else v ∷ vs) ≡ (same v w || contains w vs)
unfolding contains
contains-record w v vs = elim (Bool-cases (contains v vs)) [
  | inl t ↦ rw t (absorbed t)
  | inr f ↦ rw f refl
]
  where
    absorbed : contains v vs ≡ true → contains w vs ≡ (same v w || contains w vs)
    absorbed t = elim (Bool-cases (same v w)) [
      | inl e ↦ ground (arith, same_iff v w)
      | inr e ↦ rw e refl
    ]

-- Only the version `v` may differ.
abbrev pub Leaves : Bytes → Versions → Versions → Type 0
Leaves v vs t = (w : Bytes) → same w v ≡ false → is_applied t w ≡ is_applied vs w

abbrev pub OnlyOwn : Bytes → Versions → Script → Type 0
OnlyOwn v vs (fails t) = Leaves v vs t
OnlyOwn v vs (in_progress saved t) = Leaves v vs saved × Leaves v vs t
OnlyOwn v vs (closed t) = Leaves v vs t

-- The script does not commit, so that what fails is rolled back.
abbrev pub RollsBack : Versions → Acceptance → Script → Type 0
RollsBack vs c (fails t) = t ≡ vs
RollsBack vs c (in_progress saved t) = (saved ≡ vs) × ¬ (c ≡ lost)
RollsBack vs c (closed t) = ⊥

-- What one runOne did, of a script that is rolled back if `Rolls`.
pub record Recorded (Rolls : Type 0) (v sql : Bytes) (d : Database) (o : Ended) : Type 0 where
  pub done : o.0 ≡ none → is_applied o.1.versions v ≡ true
  pub others : Leaves v d.versions o.1.versions
  pub failure : (o.0 ≡ none) ⊎ (o.0 ≡ some (migration_failed v))
  pub script :
      (o.1.scripts ≡ d.scripts ++ sql ∷ [])
      ⊎ ((o.1.scripts ≡ d.scripts) × (o.0 ≡ some (migration_failed v)))
  pub restores : Rolls → (o.0 ≡ none) ⊎ (o.1 ≡ d)

module _ (Rolls : Type 0) (v sql : Bytes) (d : Database) (vs : Versions) where
  back-Recorded :
      (Rolls → vs ≡ d.versions)
      → Leaves v d.versions vs
      → Recorded Rolls v sql d (left (some (migration_failed v)) vs d.scripts)
  back-Recorded b l = record {
    done = λ e. cc e;
    others = l;
    failure = inr refl;
    script = inr (refl, refl);
    restores = λ r. inr (rw (b r) refl);
  }

  stays-Recorded :
      (Rolls → ⊥)
      → Leaves v d.versions vs
      → Recorded Rolls v sql d (left (some (migration_failed v)) vs (d.scripts ++ sql ∷ []))
  stays-Recorded n l = record {
    done = λ e. cc e;
    others = l;
    failure = inr refl;
    script = inl refl;
    restores = λ r. absurd (n r);
  }

  passes-Recorded :
      Leaves v d.versions vs
      → is_applied vs v ≡ true
      → Recorded Rolls v sql d (left none vs (d.scripts ++ sql ∷ []))
  passes-Recorded l t = record {
    done = λ e. t;
    others = l;
    failure = inl refl;
    script = inl refl;
    restores = λ r. inl refl;
  }

-- The upsert adds the version, if it does anything.
abbrev Upserts : Bytes → Database → Option Versions → Type 0
Upserts v d none = Unit
Upserts v d (some t) = Leaves v d.versions t × (is_applied t v ≡ true)

record_version-Upserts :
    (v : Bytes) (d : Database) (vs : Versions)
    → Leaves v d.versions vs
    → Upserts v d (record_version v vs)
unfolding contains
record_version-Upserts v d none l = tt
record_version-Upserts v d (some vs) l = (
  λ w n. ground (arith, contains-record w v vs, same_iff v w, same_iff w v, l w n),
  ground (arith, contains-record v v vs, same_refl v),
)

module _ (Rolls : Type 0) (v sql : Bytes) (d : Database) (saved : Versions) where
  in_transaction-Recorded :
      (r c : Acceptance) (o : Option Versions)
      → (Rolls → saved ≡ d.versions)
      → (Rolls → ¬ (c ≡ lost))
      → Leaves v d.versions saved
      → Upserts v d o
      → Recorded Rolls v sql d (in_transaction r c v sql d saved o)
  unfolding in_transaction
  in_transaction-Recorded accepted accepted (some t) b k l u =
      passes-Recorded Rolls v sql d t u.0 u.1
  in_transaction-Recorded accepted lost (some t) b k l u =
      stays-Recorded Rolls v sql d t (λ r. k r refl) u.0
  in_transaction-Recorded accepted refused (some t) b k l u = back-Recorded Rolls v sql d saved b l
  in_transaction-Recorded refused c (some t) b k l u = back-Recorded Rolls v sql d saved b l
  in_transaction-Recorded lost c (some t) b k l u = back-Recorded Rolls v sql d saved b l
  in_transaction-Recorded accepted c none b k l u = back-Recorded Rolls v sql d saved b l
  in_transaction-Recorded refused c none b k l u = back-Recorded Rolls v sql d saved b l
  in_transaction-Recorded lost c none b k l u = back-Recorded Rolls v sql d saved b l

  after_commit-Recorded :
      (r c : Acceptance) (o : Option Versions)
      → (Rolls → ⊥)
      → Leaves v d.versions saved
      → Upserts v d o
      → Recorded Rolls v sql d (after_commit r c v sql d saved o)
  unfolding after_commit
  after_commit-Recorded accepted accepted (some t) n l u = passes-Recorded Rolls v sql d t u.0 u.1
  after_commit-Recorded accepted lost (some t) n l u = stays-Recorded Rolls v sql d t n u.0
  after_commit-Recorded accepted refused (some t) n l u = stays-Recorded Rolls v sql d t n u.0
  after_commit-Recorded lost c (some t) n l u = stays-Recorded Rolls v sql d t n u.0
  after_commit-Recorded refused c (some t) n l u = stays-Recorded Rolls v sql d saved n l
  after_commit-Recorded accepted c none n l u = stays-Recorded Rolls v sql d saved n l
  after_commit-Recorded refused c none n l u = stays-Recorded Rolls v sql d saved n l
  after_commit-Recorded lost c none n l u = stays-Recorded Rolls v sql d saved n l

after_script-Recorded :
    (t : Taken) (v sql : Bytes) (d : Database) (s : Script)
    → OnlyOwn v d.versions s
    → Recorded (RollsBack d.versions t.commits s) v sql d (after_script t v sql d s)
unfolding after_script
after_script-Recorded t v sql d (fails vs) own = back-Recorded _ v sql d vs (λ r. r) own
after_script-Recorded t v sql d (in_progress saved vs) own =
    in_transaction-Recorded _ v sql d saved t.records t.commits (record_version v vs) (λ r. r.0)
      (λ r. r.1) own.0 (record_version-Upserts v d vs own.1)
after_script-Recorded t v sql d (closed vs) own =
    after_commit-Recorded _ v sql d vs t.records t.commits (record_version v vs) (λ r. r) own
      (record_version-Upserts v d vs own)

pub run_one-Recorded :
    (exec : Bytes → Versions → Script) (t : Taken) (v sql : Bytes) (d : Database)
    → OnlyOwn v d.versions (exec sql d.versions)
    → Recorded
        (RollsBack d.versions t.commits (exec sql d.versions))
        v
        sql
        d
        (run_one exec t v sql d)
unfolding run_one
run_one-Recorded exec t v sql d own =
    let Rolls = RollsBack d.versions t.commits (exec sql d.versions) in
    if-cases (Recorded Rolls v sql d) t.begins _ _
      (λ b. after_script-Recorded t v sql d (exec sql d.versions) own)
      λ b. back-Recorded Rolls v sql d d.versions (λ r. refl) (λ w n. refl)

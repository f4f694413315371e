-- ===== src/Migrations/Laws.antt =====
-- What Migrate of internal/store/migrate.go applies, over runs that may fail.
use dsh_fleet.Base.{
  length, length-append, ◌≡◌, refl, ap, sym, ◌∙◌, true, false, List, [], ◌∷◌, ◌++◌, Option, none,
  some, arith, Bool-cases, Option-cases, ◌⊎◌, inl, inr, Bytes, same, same_iff, map,
}
use mathlib.Core.List.{append_assoc, append-nil}
use dsh_fleet.Base.Result.{ok}
use dsh_fleet.Registry.Online.{contains, Unrepeated}
use dsh_fleet.Migrations.Order.{InOrder, collect-InOrder}
use dsh_fleet.Migrations.{
  Versions, Script, Taken, Ended, left, DirEntry, MigrateError, Database, Outcome, version,
  is_applied, run_one, each, migrate, collect, ended, prepend, migration_failed, cannot_read_file,
}
use dsh_fleet.Migrations.Step.{RollsBack, Recorded, run_one-Recorded}
use dsh_fleet.Migrations.Progress.{todo, Own, AllRollBack, Progress, nothing-Ran}

module _ (exec : Bytes → Versions → Script) (read_file : Bytes → Option Bytes)
    (up : Bytes → Taken) where
  module _ (own : Own exec read_file up) where
    -- The set that Migrate read says of the files left what the table says.
    Agree : Versions → Versions → List Bytes → Type 0
    Agree applied vs [] = Unit
    Agree applied vs (file ∷ files) =
        (is_applied applied (version file) ≡ is_applied vs (version file)) × Agree applied vs files

    Agree-step :
        (applied vs vs' : Versions) (v : Bytes) (files : List Bytes)
        → contains v (map version files) ≡ false
        → ((w : Bytes) → same w v ≡ false → is_applied vs' w ≡ is_applied vs w)
        → Agree applied vs files
        → Agree applied vs' files × (todo vs' files ≡ todo vs files)
    unfolding Agree todo contains
    Agree-step applied vs vs' v [] n keeps a = (tt, refl)
    Agree-step applied vs vs' v (file ∷ files) n keeps a =
        let other : same (version file) v ≡ false = ground arith in
        let (rest, left) = Agree-step applied vs vs' v files (ground arith) keeps a.1 in
        let here = keeps (version file) other in ((a.0 ∙ sym here, rest), rw (here, left) refl)

    stopped-Progress :
        (files : List Bytes) (e : MigrateError) (d : Database)
        → Progress exec read_file up files d (ended exec read_file up e d)
    stopped-Progress files e d = record {
      sqls = [];
      extra = [];
      tail = [];
      split = refl;
      scripts = sym (append-nil d.scripts);
      ran = nothing-Ran exec read_file up files;
      stayed = inl (refl, refl);
      rolled = λ r. (refl, refl);
      finished = λ h. cc h;
      keeps = λ w n. refl;
    }

    -- The version is recorded or not, and so is the script.
    failed-Progress :
        (file sql : Bytes) (files : List Bytes) (e : MigrateError) (d d' : Database)
        → is_applied d.versions (version file) ≡ false
        → read_file file ≡ some sql
        → Recorded
            (RollsBack d.versions (up file).commits (exec sql d.versions))
            (version file)
            sql
            d
            (some e, d')
        → todo d'.versions files ≡ todo d.versions files
        → Progress exec read_file up (file ∷ files) d (ended exec read_file up e d')
    unfolding todo contains
    failed-Progress file sql files e d d' f r rec same_todo =
        let v = version file in
        let told : some e ≡ some (migration_failed v) = elim rec.failure [
          | inl n ↦ let no : some e ≡ none = n in cc no
          | inr x ↦ x
        ] in
        let keeps : (w : Bytes)
            → contains w (map version (file ∷ files)) ≡ false
            → is_applied d'.versions w ≡ is_applied d.versions w =
          λ w m. rec.others w (ground (arith, same_iff v w, same_iff w v)) in
        let Same : Type 0 = AllRollBack exec read_file up → d' ≡ d in
        let same_db : Same = λ all. elim (rec.restores (all file sql d.versions r)) [
          | inl n ↦ let no : some e ≡ none = n in cc no
          | inr s ↦ s
        ] in
        let (tail, scripts, tails, back) : (tail : List Bytes) × (d'.scripts ≡ d.scripts ++ tail)
            × ((tail ≡ []) ⊎ (tail ≡ sql ∷ []))
            × (AllRollBack exec read_file up → tail ≡ []) =
          elim rec.script [
            | inl s ↦ (sql ∷ [], s, inr refl, λ all. absurd (longer (same_db all) s))
            | inr s ↦ ([], s.0 ∙ sym (append-nil d.scripts), inl refl, λ all. refl)
          ] in
        let (extra, split, extras, none_extra) : (extra : List Bytes) × (todo d.versions
                (file ∷ files)
              ≡ extra ++ todo d'.versions (file ∷ files))
            × ((extra ≡ []) ⊎ (extra ≡ v ∷ []))
            × (AllRollBack exec read_file up → extra ≡ []) =
          elim (Bool-cases (is_applied d'.versions v)) [
            | inl t ↦
                (v ∷ [], rw (f, t, same_todo) refl, inr refl, λ all. absurd (unset (same_db all) t))
            | inr n ↦ ([], rw (f, n, same_todo) refl, inl refl, λ all. refl)
          ] in
        record {
          sqls = [];
          extra = extra;
          tail = tail;
          split = split;
          scripts = scripts;
          ran = nothing-Ran exec read_file up (file ∷ files);
          stayed = inr (file, sql, r, told, extras, tails);
          rolled = λ all. (none_extra all, back all);
          finished = λ h. cc h;
          keeps = keeps;
        }
      where
        longer : d' ≡ d → d'.scripts ≡ d.scripts ++ sql ∷ [] → ⊥
        longer same s =
            let more : d.scripts ≡ d.scripts ++ sql ∷ [] = sym (ap (λ x. x.scripts) same) ∙ s in
            let lengths = ap length more in
            omega (arith, lengths, length-append d.scripts (sql ∷ []))

        unset : d' ≡ d → is_applied d'.versions (version file) ≡ true → ⊥
        unset same t =
            let no : false ≡ true =
              sym f ∙ sym (ap (λ x. is_applied x.versions (version file)) same) ∙ t in
            cc no

    skipped-Progress :
        (file : Bytes) (files : List Bytes) (d : Database) (o : Outcome exec)
        → contains (version file) (map version files) ≡ false
        → is_applied d.versions (version file) ≡ true
        → Progress exec read_file up files d o
        → Progress exec read_file up (file ∷ files) d o
    unfolding todo contains
    skipped-Progress file files d o n t p =
        let after = p.keeps (version file) n ∙ t in
        record {
          sqls = p.sqls;
          extra = p.extra;
          tail = p.tail;
          split = rw (t, after) p.split;
          scripts = p.scripts;
          ran = inl p.ran;
          stayed = p.stayed;
          rolled = p.rolled;
          finished = λ e. rw after (p.finished e);
          keeps = λ w m. p.keeps w (ground arith);
        }

    taken-Progress :
        (file sql : Bytes) (files : List Bytes) (d d' : Database) (o : Outcome exec)
        → contains (version file) (map version files) ≡ false
        → is_applied d.versions (version file) ≡ false
        → read_file file ≡ some sql
        → Recorded
            (RollsBack d.versions (up file).commits (exec sql d.versions))
            (version file)
            sql
            d
            (none, d')
        → todo d'.versions files ≡ todo d.versions files
        → Progress exec read_file up files d' o
        → Progress exec read_file up (file ∷ files) d (prepend exec (version file) o)
    unfolding todo contains
    taken-Progress file sql files d d' o n f r rec same_todo p =
        let after = p.keeps (version file) n ∙ rec.done refl in
        let here : d'.scripts ≡ d.scripts ++ sql ∷ [] = elim rec.script [
          | inl s ↦ s
          | inr s ↦ let no : none ≡ some (migration_failed (version file)) = s.1 in cc no
        ] in
        record {
          sqls = sql ∷ p.sqls;
          extra = p.extra;
          tail = p.tail;
          split = rw (f, after) (ap (◌∷◌ (version file)) (sym same_todo ∙ p.split));
          scripts = p.scripts ∙ rw here (append_assoc d.scripts (sql ∷ []) (p.sqls ++ p.tail));
          ran = inr (sql, o.ran, p.sqls, r, refl, refl, p.ran);
          stayed = p.stayed;
          rolled = p.rolled;
          finished = λ e. rw after (p.finished e);
          keeps = λ w m.
              p.keeps w (ground arith)
              ∙ rec.others w (ground (arith, same_iff (version file) w, same_iff w (version file)));
        }

    each-Progress :
        (applied : Versions) (files : List Bytes) (d : Database)
        → Unrepeated (map version files)
        → Agree applied d.versions files
        → Progress exec read_file up files d (each exec read_file up applied files d)
    unfolding each Agree todo
    each-Progress applied [] d u a = record {
      sqls = [];
      extra = [];
      tail = [];
      split = refl;
      scripts = sym (append-nil d.scripts);
      ran = (refl, refl);
      stayed = inl (refl, refl);
      rolled = λ r. (refl, refl);
      finished = λ e. (refl, refl);
      keeps = λ w n. refl;
    }
    each-Progress applied (file ∷ files) d u a =
        elim (Bool-cases (is_applied applied (version file))) [
          | inl t ↦
              rw (t, each)
                (skipped-Progress file files d _ u.0 (sym a.0 ∙ t)
                  (each-Progress applied files d u.1 a.1))
          | inr f ↦ elim (Option-cases (read_file file)) [
            | inl n ↦
                rw (f, n, each)
                  (stopped-Progress (file ∷ files) (cannot_read_file (version file)) d)
            | inr (sql, r) ↦
                let o = run_one exec (up file) (version file) sql d in
                let rec =
                  run_one-Recorded exec (up file) (version file) sql d
                    (own file sql d.versions r) in
                let (agree, same_todo) =
                  Agree-step applied d.versions o.1.versions (version file) files u.0 rec.others
                    a.1 in
                elim (Option-cases o.0) [
                  | inr (e, x) ↦
                      rw (f, r, x, each)
                        (failed-Progress file sql files e d o.1 (sym a.0 ∙ f) r
                          (told o (some e) x rec) same_todo)
                  | inl x ↦
                      rw (f, r, x, each)
                        (taken-Progress file sql files d o.1 _ u.0 (sym a.0 ∙ f) r
                          (told o none x rec) same_todo (each-Progress applied files o.1 u.1 agree))
                ]
          ]
        ]
      where
        told :
            {Rolls : Type 0} {v sql : Bytes} {d : Database} (o : Ended) (e : Option MigrateError)
            → o.0 ≡ e
            → Recorded Rolls v sql d o
            → Recorded Rolls v sql d (e, o.1)
        told o e x rec = rw⁻¹ x rec

    Agree-refl : (vs : Versions) (files : List Bytes) → Agree vs vs files
    unfolding Agree
    Agree-refl vs [] = tt
    Agree-refl vs (file ∷ files) = (refl, Agree-refl vs files)

no_prefix : (xs ys : List Bytes) → [] ≡ xs ++ ys → xs ≡ []
no_prefix [] ys e = refl
no_prefix (x ∷ xs) ys e = cc e

module _ (exec : Bytes → Versions → Script) (read_file : Bytes → Option Bytes)
    (up : Bytes → Taken) where
  -- Where the directory has migrations of different versions and the versions can be read, and no script
  -- records the version of another file: what Migrate returns is an initial part of the versions that
  -- were not recorded, in the order of the files, and the scripts committed are those of that part. What
  -- is not recorded afterwards is the rest, but for the version of the script at which Migrate stopped,
  -- which may be recorded and committed although Migrate fails with it; this is not so if no script
  -- commits and the answer to no Commit is lost. The files are in ascending order. Without an error
  -- nothing is left, and a second Migrate runs nothing.
  pub migrate-Progress :
      (dir : Option (List DirEntry)) (files : List Bytes) (d : Database)
      → Own exec read_file up
      → collect dir ≡ ok files
      → Unrepeated (map version files)
      → InOrder files
        × Progress exec read_file up files d (migrate exec read_file up true dir d)
        × ((migrate exec read_file up true dir d).error ≡ none
            → (migrate exec read_file up true dir
                (migrate exec read_file up true dir d).database).ran
              ≡ [])
  unfolding migrate
  migrate-Progress dir files d own found u = (
    collect-InOrder dir files found,
    once d,
    λ e.
        let again = once (migrate exec read_file up true dir d).database in
        no_prefix _ _ (sym ((once d).finished e).1 ∙ again.split),
  )
    where
      once :
          (d : Database) → Progress exec read_file up files d (migrate exec read_file up true dir d)
      once d =
          rw (found, migrate)
            (each-Progress exec read_file up own d.versions files d u
              (Agree-refl exec read_file up own d.versions files))

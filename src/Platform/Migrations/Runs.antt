-- ===== src/Platform/Migrations/Runs.antt =====
-- A whole run of the migrations, and the runs after it.
use test_task_autumn.Prelude.{
  String, ◌≡◌, refl, sym, ap, ◌∙◌, ◌⊎◌, inl, inr, true, false, ◌||◌, Option, some, List, [], ◌∷◌,
  ◌==◌, nat_eq, string_eq, All, Result, ok, err,
}
use test_task_autumn.Database.{Plan, pure, query, write, statement, transaction, ◌>>=◌, ◌>>◌}
use test_task_autumn.Database.Honest.{IsHonest, honest_rules, transaction-Settled}
use test_task_autumn.Platform.Migrations.Files.{
  MigrationError, database, Migration, World, load_migrations,
}
use test_task_autumn.Platform.Migrations.{
  MigrationTables, MigrationConfig, ensure_migrations_table, apply_migration, apply_all, run_loaded,
  run,
}
use test_task_autumn.Platform.Migrations.Moves.{IsRecorded, Progress, stops, apply_migration-Moved}
use test_task_autumn.Platform.Migrations.Progress.{apply_all-Ends}

module _ {D : Type 0} (exec : String → D → Option D) where
  abbrev pub with_table : MigrationTables D → MigrationTables D
  with_table t = record t { has_table = true }

  -- The table is there after a success, and the rest of the tables is as it was in any case.
  abbrev Ensured :
      MigrationTables D → Result MigrationError (Unit {0}) × Plan × MigrationTables D → Type 0
  Ensured t o = (o.2 ≡ with_table t) ⊎ ((o.2 ≡ t) × ((e : MigrationError) × (o.0 ≡ err e)))

  body-IsHonest :
      IsHonest {E = MigrationError} {D = MigrationTables D}
        (query database (λ t. tt) >> write database (λ t. some (with_table t)))
  body-IsHonest = search honest_rules depth 8

  ensure-Ensured :
      (plan : Plan) (t : MigrationTables D) → Ensured t (ensure_migrations_table exec plan t)
  unfolding ensure_migrations_table transaction ◌>>=◌ statement
  ensure-Ensured plan t = elim (transaction-Settled database _ plan t body-IsHonest) [
    | inl (kept, failed) ↦ inr (kept, failed)
    | inr (same, _) ↦ inl same
  ]

  module _ (service : String) where
    -- A recorded migration is passed over, whatever fails.
    passed_over :
        (m : Migration) (plan : Plan) (t : MigrationTables D)
        → t.has_table ≡ true
        → IsRecorded exec service m t
        → (apply_migration exec service m plan t).2 ≡ t
    passed_over m plan t table (row, found, _) =
        elim (apply_migration-Moved exec service m plan t table) [
          | inl (same, _) ↦ same
          | inr (inl (same, _)) ↦ same
          | inr (inr (d, new, _, _)) ↦ absurd (cc (sym new ∙ found))
        ]

    after_kept :
        (ms : List Migration) (t : MigrationTables D) (plan : Plan)
        (o : Result MigrationError (Unit {0}) × Plan × MigrationTables D)
        → o.2 ≡ t
        → ((p : Plan) → (apply_all exec service ms p t).2 ≡ t)
        → (((λ p d. o) >> apply_all exec service ms) plan t).2 ≡ t
    unfolding ◌>>=◌
    after_kept ms t plan (err e, p, u) same next = same
    after_kept ms t plan (ok _, p, u) same next =
        ap (λ x. (apply_all exec service ms p x).2) same ∙ next p

    rest_passed_over :
        (ms : List Migration) (plan : Plan) (t : MigrationTables D)
        → t.has_table ≡ true
        → All (λ m. IsRecorded exec service m t) ms
        → (apply_all exec service ms plan t).2 ≡ t
    unfolding apply_all pure ◌>>=◌
    rest_passed_over [] plan t table h = refl
    rest_passed_over (m ∷ ms) plan t table (r, h) =
        after_kept ms t plan (apply_migration exec service m plan t) (passed_over m plan t table r)
          (λ p. rest_passed_over ms p t table h)

    with_table_same : (t : MigrationTables D) → t.has_table ≡ true → with_table t ≡ t
    with_table_same t table = ap (λ b. record t { has_table = b }) (sym table)

    table_kept :
        (t : MigrationTables D) (o : Result MigrationError (Unit {0}) × Plan × MigrationTables D)
        → t.has_table ≡ true
        → Ensured t o
        → o.2 ≡ t
    table_kept t o table (inl same) = same ∙ with_table_same t table
    table_kept t o table (inr (same, _)) = same

    rerun_kept :
        (ms : List Migration) (plan : Plan) (t : MigrationTables D)
        → t.has_table ≡ true
        → All (λ m. IsRecorded exec service m t) ms
        → (run_loaded exec service ms plan t).2 ≡ t
    unfolding ◌>>=◌
    rerun_kept ms plan t table h =
        after_kept ms t plan (ensure_migrations_table exec plan t)
          (table_kept t (ensure_migrations_table exec plan t) table (ensure-Ensured plan t))
          (λ p. rest_passed_over ms p t table h)

    -- The tables after a run: from those before it, with schema_migrations or not yet, a part of the
    -- migrations in turn; all of them are recorded where the run returned nil, and then no further run,
    -- with any faults, changes the tables.
    pub record Installs (ms : List Migration) (t : MigrationTables D)
        (o : Result MigrationError (Unit {0}) × Plan × MigrationTables D) : Type 0 where
      pub begun : MigrationTables D
      pub begins : (begun ≡ t) ⊎ (begun ≡ with_table t)
      pub progress : Progress exec service ms begun o.2
      pub recorded : o.0 ≡ ok tt → All (λ m. IsRecorded exec service m o.2) ms
      pub again : o.0 ≡ ok tt → (plan : Plan) → (run_loaded exec service ms plan o.2).2 ≡ o.2

    after_ensure :
        (ms : List Migration) (t : MigrationTables D) (plan : Plan)
        (o : Result MigrationError (Unit {0}) × Plan × MigrationTables D)
        → Ensured t o
        → Installs ms t (((λ p d. o) >> apply_all exec service ms) plan t)
    unfolding ◌>>=◌
    after_ensure ms t plan (err e, p, u) ensured = record {
      begun = u;
      begins = elim ensured [ inl same ↦ inr same | inr (same, _) ↦ inl same ];
      progress = stops;
      recorded = λ h. absurd (cc h);
      again = λ h. absurd (cc h);
    }
    after_ensure ms t plan (ok _, p, u) (inr (_, (e, failed))) = absurd (cc failed)
    after_ensure ms t plan (ok _, p, u) (inl same) =
        let ends = apply_all-Ends exec service ms p u (ap (λ x. x.has_table) same) in
        record {
          begun = u;
          begins = inr same;
          progress = ends.progress;
          recorded = ends.recorded;
          again = λ h plan'.
              rerun_kept ms plan' (apply_all exec service ms p u).2 ends.table (ends.recorded h);
        }

  -- For a named service and a directory that loads as these migrations, whatever faults come: after `Run`
  -- the tables are those before it, with or without the empty schema_migrations, and with a part of the
  -- migrations in turn, each that was not recorded executed and recorded in one step, and no recorded one
  -- executed again; where `Run` returned nil, every migration is recorded under its checksum, and no
  -- further run of these migrations changes the tables, whatever fails.
  pub run-Installs :
      (w : World) (config : MigrationConfig) (ms : List Migration) (plan : Plan)
      (t : MigrationTables D)
      → (w.trim_space config.service == "" || w.trim_space config.directory == "") ≡ false
      → load_migrations w config.directory ≡ ok ms
      → Installs config.service ms t (run exec w config plan t)
  unfolding run ◌>>=◌ pure
  run-Installs w config ms plan t named loaded =
      rw (run, named, loaded)
        (after_ensure config.service ms t plan (ensure_migrations_table exec plan t)
          (ensure-Ensured plan t))

-- ===== src/Platform/Migrations/Moves.antt =====
-- What one migration makes of the tables, whatever fails.
use test_task_autumn.Prelude.{
  String, ◌≡◌, refl, sym, ap, ◌∙◌, ◌⊎◌, inl, inr, true, Option, none, some, List, [], ◌∷◌,
  if◌then◌else◌, ◌==◌, nat_eq, string_eq, Bool-cases, Option-cases, insert, Result, ok, err,
}
use mathlib.Core.Path.{subst}
use test_task_autumn.Database.{Plan, pure, throw, statement, transaction, ◌>>=◌}
use test_task_autumn.Database.Honest.{IsHonest, honest_rules, transaction-Settled}
use test_task_autumn.Platform.Migrations.Files.{
  MigrationError, database, checksum_mismatch, Migration,
}
use test_task_autumn.Platform.Migrations.{
  MigrationKey, key_beq, key_beq_iff, migration_key_eq, Applied, MigrationTables, select_applied,
  execute_sql, insert_applied, key_of, applied_of, apply_found, apply_body, apply_migration,
}

pub key_same : (k : MigrationKey) → key_beq k k ≡ true
key_same k = (key_beq_iff k k).1 refl

module _ {D : Type 0} (exec : String → D → Option D) (service : String) where
  -- The migration is recorded with its checksum.
  abbrev pub IsRecorded : Migration → MigrationTables D → Type 0
  IsRecorded m t =
      (row : Applied) × (t.applied (key_of exec service m) ≡ some row)
      × ((row.checksum == m.checksum) ≡ true)

  abbrev pub installed : Migration → D → MigrationTables D → MigrationTables D
  installed m d t = record t {
    schema = d;
    applied = insert t.applied (key_of exec service m) (applied_of exec m);
  }

  -- The tables after a part of the migrations in turn: one that is recorded is passed over, and one that is
  -- not is executed and recorded in one step.
  pub data Progress : List Migration → MigrationTables D → MigrationTables D → Type 0 where
    stops : {ms : List Migration} {t : MigrationTables D} → Progress ms t t
    keeps :
        {m : Migration} {ms : List Migration} {t u : MigrationTables D}
        → IsRecorded m t
        → Progress ms t u
        → Progress (m ∷ ms) t u
    installs :
        {m : Migration} {ms : List Migration} {t u : MigrationTables D}
        → (d : D) → t.applied (key_of exec service m) ≡ none
        → exec m.sql t.schema ≡ some d
        → Progress ms (installed m d t) u
        → Progress (m ∷ ms) t u

  apply_found-IsHonest :
      (m : Migration) (found : Option Applied) → IsHonest (apply_found exec service m found)
  apply_found-IsHonest m none = search honest_rules depth 8
  apply_found-IsHonest m (some stored) = search honest_rules depth 8

  apply_body-IsHonest : (m : Migration) → IsHonest (apply_body exec service m)
  apply_body-IsHonest m = search (honest_rules, apply_found-IsHonest) depth 8

  -- The tables after one migration that met its end with this result.
  abbrev pub Moved :
      Migration → MigrationTables D → Result MigrationError (Unit {0}) → MigrationTables D → Type 0
  Moved m t result u =
      ((u ≡ t) × ((e : MigrationError) × (result ≡ err e)))
      ⊎ ((u ≡ t) × IsRecorded m t)
      ⊎ ((d : D) × (t.applied (key_of exec service m) ≡ none)
          × (exec m.sql t.schema ≡ some d)
          × (u ≡ installed m d t))

  select_applied_lem :
      (key : MigrationKey) (t : MigrationTables D)
      → t.has_table ≡ true
      → select_applied exec key t ≡ ok (t.applied key, t)
  select_applied_lem key t table = ap (λ b. if b then ok (t.applied key, t) else err database) table

  execute_sql_lem :
      (sql : String) (t : MigrationTables D) (d : D)
      → exec sql t.schema ≡ some d
      → execute_sql exec sql t ≡ some (record t { schema = d })
  execute_sql_lem sql t d done = rw (execute_sql, done) refl

  insert_applied_lem :
      (key : MigrationKey) (row : Applied) (t : MigrationTables D)
      → t.has_table ≡ true
      → t.applied key ≡ none
      → insert_applied exec key row t ≡ some (record t { applied = insert t.applied key row })
  insert_applied_lem key row t table new =
      rw (insert_applied, new)
        (ap (λ b. if b then some (record t { applied = insert t.applied key row }) else none) table)

  Clean : Migration → MigrationTables D → Type 0
  Clean m t =
      (u : MigrationTables D) × (result : Result MigrationError (Unit {0})) × (transaction database
          (apply_body exec service m) [] t
        ≡ (result, [], u))
      × Moved m t result u

  apply-Clean : (m : Migration) (t : MigrationTables D) → t.has_table ≡ true → Clean m t
  unfolding Clean transaction ◌>>=◌ statement pure throw
  apply-Clean m t table =
      let selected = select_applied_lem (key_of exec service m) t table in
      elim (Option-cases (t.applied (key_of exec service m))) [
        | inr (row, q) ↦ elim (Bool-cases (row.checksum == m.checksum)) [
          | inl same ↦ (t, ok tt, rw (selected, q, same) refl, inr (inl (refl, (row, q, same))))
          | inr differ ↦ (
            t,
            err (checksum_mismatch service m.filename),
            rw (selected, q, differ) refl,
            inl (refl, (checksum_mismatch service m.filename, refl)),
          )
        ]
        | inl q ↦ elim (Option-cases (exec m.sql t.schema)) [
          | inl failed ↦
              (t, err database, rw (selected, q, failed) refl, inl (refl, (database, refl)))
          | inr (d, done) ↦
              let executed = execute_sql_lem m.sql t d done in
              let inserted =
                insert_applied_lem (key_of exec service m) (applied_of exec m)
                  (record t { schema = d }) table q in
              (
                installed m d t,
                ok tt,
                rw (selected, q, executed, inserted) refl,
                inr (inr (d, q, done, refl)),
              )
        ]
      ]

  -- A transaction whose reply is lost has moved the tables all the same.
  Moved-lost :
      (m : Migration) (t u : MigrationTables D) (result : Result MigrationError (Unit {0}))
      (e : MigrationError)
      → Moved m t result u
      → Moved m t (err e) u
  Moved-lost m t u result e (inl (same, _)) = inl (same, (e, refl))
  Moved-lost m t u result e (inr moved) = inr moved

  pub apply_migration-Moved :
      (m : Migration) (plan : Plan) (t : MigrationTables D)
      → t.has_table ≡ true
      → Moved m t
          (apply_migration exec service m plan t).0
          (apply_migration exec service m plan t).2
  unfolding Clean apply_migration
  apply_migration-Moved m plan t table =
      let o = transaction database (apply_body exec service m) plan t in
      let (u, result, run, moved) = apply-Clean m t table in
      elim (transaction-Settled database (apply_body exec service m) plan t
        (apply_body-IsHonest m)) [
          | inl (kept, failed) ↦ inl (kept, failed)
          | inr (same, inl replied) ↦
              subst (λ r. Moved m t r o.2) (sym (replied ∙ ap (λ x. x.0) run))
                (subst (Moved m t result) (sym (same ∙ ap (λ x. x.2) run)) moved)
          | inr (same, inr down) ↦
              subst (λ r. Moved m t r o.2) (sym down)
                (subst (Moved m t (err database)) (sym (same ∙ ap (λ x. x.2) run))
                  (Moved-lost m t u result database moved))
        ]

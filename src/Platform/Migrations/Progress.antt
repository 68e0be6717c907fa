-- ===== src/Platform/Migrations/Progress.antt =====
-- What any number of faults can make of a run of the migrations.
use test_task_autumn.Prelude.{
  String, ◌≡◌, refl, sym, ap, ◌∙◌, inl, inr, true, Option, List, [], ◌∷◌, eq_refl, ◌==◌, nat_eq,
  string_eq, Bool-cases, All, Result, ok, err,
}
use mathlib.Core.Path.{subst}
use test_task_autumn.Database.{Plan, pure, ◌>>=◌, ◌>>◌}
use test_task_autumn.Platform.Migrations.Files.{MigrationError, Migration}
use test_task_autumn.Platform.Migrations.{
  key_beq_iff, migration_key_eq, MigrationTables, key_of, applied_of, apply_migration, apply_all,
}
use test_task_autumn.Platform.Migrations.Moves.{
  key_same, IsRecorded, installed, Progress, stops, keeps, installs, Moved, apply_migration-Moved,
}

module _ {D : Type 0} (exec : String → D → Option D) (service : String) where
  IsRecorded-Progress :
      {ms : List Migration} {t u : MigrationTables D} (m : Migration)
      → Progress exec service ms t u
      → IsRecorded exec service m t
      → IsRecorded exec service m u
  IsRecorded-Progress m stops r = r
  IsRecorded-Progress m (keeps _ rest) r = IsRecorded-Progress m rest r
  IsRecorded-Progress m (installs {m = n} {t = t} d new _ rest) (row, found, same) =
      IsRecorded-Progress m rest
        (elim (Bool-cases (key_of exec service n == key_of exec service m)) [
          | inl hit ↦
              let e : key_of exec service n ≡ key_of exec service m = (key_beq_iff _ _).0 hit in
              absurd (cc (sym new ∙ ap t.applied e ∙ found))
          | inr miss ↦ (row, rw miss found, same)
        ])

  -- How a run of the loop ends.
  pub record Ends (ms : List Migration) (t : MigrationTables D)
      (o : Result MigrationError (Unit {0}) × Plan × MigrationTables D) : Type 0 where
    pub progress : Progress exec service ms t o.2
    pub table : o.2.has_table ≡ true
    pub recorded : o.0 ≡ ok tt → All (λ m. IsRecorded exec service m o.2) ms

  own_record :
      (m : Migration) (d : D) (t : MigrationTables D)
      → IsRecorded exec service m (installed exec service m d t)
  own_record m d t =
      (applied_of exec m, rw (key_same (key_of exec service m)) refl, eq_refl m.checksum)

  after_one :
      (m : Migration) (ms : List Migration) (t : MigrationTables D) (plan : Plan)
      (o : Result MigrationError (Unit {0}) × Plan × MigrationTables D)
      → t.has_table ≡ true
      → Moved exec service m t o.0 o.2
      → ((p : Plan) (u : MigrationTables D)
          → u.has_table ≡ true
          → Ends ms u (apply_all exec service ms p u))
      → Ends (m ∷ ms) t (((λ p d. o) >> apply_all exec service ms) plan t)
  unfolding ◌>>=◌
  after_one m ms t plan (err e, p, u) table (inl (same, _)) next = record {
    progress = subst (Progress exec service (m ∷ ms) t) (sym same) stops;
    table = ap (λ x. x.has_table) same ∙ table;
    recorded = λ h. absurd (cc h);
  }
  after_one m ms t plan (err e, p, u) table (inr (inl (same, _))) next = record {
    progress = subst (Progress exec service (m ∷ ms) t) (sym same) stops;
    table = ap (λ x. x.has_table) same ∙ table;
    recorded = λ h. absurd (cc h);
  }
  after_one m ms t plan (err e, p, u) table (inr (inr (d, new, done, same))) next = record {
    progress =
        installs d new done
          (subst (Progress exec service ms (installed exec service m d t)) (sym same) stops);
    table = ap (λ x. x.has_table) same ∙ table;
    recorded = λ h. absurd (cc h);
  }
  after_one m ms t plan (ok _, p, u) table (inl (_, (e, failed))) next = absurd (cc failed)
  after_one m ms t plan (ok _, p, u) table (inr (inl (same, r))) next =
      let ends = next p u (ap (λ x. x.has_table) same ∙ table) in
      record {
        progress = keeps r (
            subst (λ x. Progress exec service ms x (apply_all exec service ms p u).2) same
              ends.progress);
        table = ends.table;
        recorded = λ h. (
          IsRecorded-Progress m ends.progress (subst (IsRecorded exec service m) (sym same) r),
          ends.recorded h,
        );
      }
  after_one m ms t plan (ok _, p, u) table (inr (inr (d, new, done, same))) next =
      let ends = next p u (ap (λ x. x.has_table) same ∙ table) in
      record {
        progress = installs d new done (
            subst (λ x. Progress exec service ms x (apply_all exec service ms p u).2) same
              ends.progress);
        table = ends.table;
        recorded = λ h. (
          IsRecorded-Progress m ends.progress
              (subst (IsRecorded exec service m) (sym same) (own_record m d t)),
          ends.recorded h,
        );
      }

  pub apply_all-Ends :
      (ms : List Migration) (plan : Plan) (t : MigrationTables D)
      → t.has_table ≡ true
      → Ends ms t (apply_all exec service ms plan t)
  unfolding apply_all pure ◌>>=◌
  apply_all-Ends [] plan t table = record { progress = stops; table = table; recorded = λ h. tt }
  apply_all-Ends (m ∷ ms) plan t table =
      after_one m ms t plan (apply_migration exec service m plan t) table
        (apply_migration-Moved exec service m plan t table) (λ p u. apply_all-Ends ms p u)

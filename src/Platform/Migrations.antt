-- ===== src/Platform/Migrations.antt =====
-- internal/platform/migrations/runner.go. What the SQL of a migration does to the schema `D` of its
-- service is an argument; it leaves schema_migrations alone. Each migration is a transaction of its own,
-- under the advisory lock of its service.
pub mod Names
pub mod Files
pub mod Moves
pub mod Progress
pub mod Runs
use test_task_autumn.Prelude.{
  ℕ, zero, suc, ◌+◌, ◌-◌, ◌*◌, ◌/◌, ◌%◌, ◌^◌, ◌≤◌, ◌<◌, String, ◌<>◌, ◌≡◌, refl, sym, ap, ◌∙◌, ◌≢◌,
  ◌↔◌, ◌⊎◌, inl, inr, Bool, true, false, not, ◌&&◌, ◌||◌, Option, none, some, List, [], ◌∷◌, ◌++◌,
  map, arith, eq_iff, eq_refl, ltb, leb, if◌then◌else◌, Eq, ◌==◌, ◌!=◌, nat_eq, string_eq,
  Bool-cases, Option-cases, Map, empty_map, insert, length, is_empty, take, keep_if, All,
  length-append, is_empty-append_cons, length-take-le, contains, Result, ok, err, >>=-eq-ok,
  Result-cases, fail_if,
}
use test_task_autumn.Database.{
  Tx, pure, throw, query, write, statement, from_result, transaction, ◌>>=◌, ◌>>◌,
}
use test_task_autumn.Platform.Migrations.Files.{
  MigrationError, invalid_config, checksum_mismatch, database, Migration, World, load_migrations,
}

pub record MigrationConfig : Type 0 where
  pub service : String
  pub directory : String

pub record MigrationKey : Type 0 where
  pub service : String
  pub version : String

abbrev pub key_beq : MigrationKey → MigrationKey → Bool
key_beq a b = a.service == b.service && a.version == b.version

pub key_beq_iff : (a b : MigrationKey) → (key_beq a b ≡ true) ↔ (a ≡ b)
key_beq_iff a b = ground (arith, eq_iff a.service b.service, eq_iff a.version b.version)

instance abbrev pub migration_key_eq : Eq MigrationKey
migration_key_eq = record { equals = key_beq; equals_iff = key_beq_iff }

pub record Applied : Type 0 where
  pub filename : String
  pub checksum : String

-- The schema of the service, and schema_migrations.
pub record MigrationTables (D : Type 0) : Type 0 where
  pub schema : D
  pub has_table : Bool
  pub applied : Map MigrationKey Applied

module _ {D : Type 0} (exec : String → D → Option D) where
  -- `ensureMigrationsTable`
  unfoldable pub ensure_migrations_table : Tx MigrationError (MigrationTables D) (Unit {0})
  ensure_migrations_table =
      transaction database
        (query database (λ t. tt) >> write database (λ t. some (record t { has_table = true })))

  -- selectAppliedMigrationSQL, which fails where there is no table
  abbrev pub select_applied :
      MigrationKey → MigrationTables D → Result MigrationError (Option Applied × MigrationTables D)
  select_applied key t = if t.has_table then ok (t.applied key, t) else err database

  abbrev pub execute_sql : String → MigrationTables D → Option (MigrationTables D)
  execute_sql sql t = elim (exec sql t.schema) [
    | none ↦ none
    | some d ↦ some (record t { schema = d })
  ]

  -- insertAppliedMigrationSQL
  abbrev pub insert_applied :
      MigrationKey → Applied → MigrationTables D → Option (MigrationTables D)
  insert_applied key row t = elim (t.applied key) [
    | some _ ↦ none
    | none ↦ if t.has_table then some (record t { applied = insert t.applied key row }) else none
  ]

  abbrev pub key_of : String → Migration → MigrationKey
  key_of service item = record { service = service; version = item.version }

  abbrev pub applied_of : Migration → Applied
  applied_of item = record { filename = item.filename; checksum = item.checksum }

  abbrev pub apply_found :
      String → Migration → Option Applied → Tx MigrationError (MigrationTables D) (Unit {0})
  apply_found service item (some stored) =
      if stored.checksum == item.checksum
      then pure tt
      else throw (checksum_mismatch service item.filename)
  apply_found service item none =
      write database (execute_sql item.sql)
      >> write database (insert_applied (key_of service item) (applied_of item))

  abbrev pub apply_body : String → Migration → Tx MigrationError (MigrationTables D) (Unit {0})
  apply_body service item =
      query database (λ t. tt)
      >> statement database (select_applied (key_of service item))
      >>= apply_found service item

  -- `applyMigration`
  unfoldable pub apply_migration :
      String → Migration → Tx MigrationError (MigrationTables D) (Unit {0})
  apply_migration service item = transaction database (apply_body service item)

  -- the loop of `Run`
  unfoldable pub apply_all :
      String → List Migration → Tx MigrationError (MigrationTables D) (Unit {0})
  unfolding apply_migration
  apply_all service [] = pure tt
  apply_all service (item ∷ items) = apply_migration service item >> apply_all service items

  abbrev pub run_loaded : String → List Migration → Tx MigrationError (MigrationTables D) (Unit {0})
  run_loaded service items = ensure_migrations_table >> apply_all service items

  -- `Run`
  unfoldable pub run : World → MigrationConfig → Tx MigrationError (MigrationTables D) (Unit {0})
  unfolding ensure_migrations_table apply_all
  run w config =
      if w.trim_space config.service == "" || w.trim_space config.directory == ""
      then throw invalid_config
      else from_result (load_migrations w config.directory) >>= run_loaded config.service

-- ===== src/Tests/Migrated.antt =====
-- The migrations of a directory of two, with a schema that lists the statements that it has seen.
use test_task_autumn.Prelude.{
  String, ◌≡◌, refl, true, false, Option, some, List, [], ◌∷◌, ◌++◌, if◌then◌else◌, ◌==◌, nat_eq,
  string_eq, empty_map, ok,
}
use test_task_autumn.Database.{Plan, fine, lost, pure, throw, statement, transaction, ◌>>=◌}
use test_task_autumn.Platform.Migrations.Names.{ext, migration_version}
use test_task_autumn.Platform.Migrations.Files.{
  Migration, World, load_migrations, read_entries, sort_migrations, insert_migration,
}
use test_task_autumn.Platform.Migrations.{
  MigrationTables, MigrationConfig, run, apply_all, apply_migration, ensure_migrations_table,
}
use test_task_autumn.Platform.Migrations.Runs.{Installs, run-Installs}

run_program : Unit {0}
unfolding load_migrations read_entries sort_migrations insert_migration ext migration_version run
    apply_all apply_migration ensure_migrations_table transaction pure throw statement ◌>>=◌
run_program = tt

abbrev disk : World
disk = record {
  read_dir = λ directory. some (
      record { name = "0002_items.sql"; is_dir = false }
      ∷ record { name = "old"; is_dir = true }
      ∷ record { name = "0001_init.sql"; is_dir = false }
      ∷ record { name = "README.md"; is_dir = false }
      ∷ []);
  read_file = λ directory name. if name == "0001_init.sql" then some "CREATE" else some "ALTER";
  trim_space = λ s. s;
  sha256_hex = λ s. s;
}

abbrev config : MigrationConfig
config = record { service = "order"; directory = "migrations/order" }

abbrev migrations : List Migration
migrations =
    record { version = "0001"; filename = "0001_init.sql"; sql = "CREATE"; checksum = "CREATE" }
    ∷ record { version = "0002"; filename = "0002_items.sql"; sql = "ALTER"; checksum = "ALTER" }
    ∷ []

load_migrations_test : load_migrations disk "migrations/order" ≡ ok migrations
unfolding run_program
load_migrations_test = refl

abbrev exec : String → List String → Option (List String)
exec sql seen = some (seen ++ sql ∷ [])

abbrev tables : MigrationTables (List String)
tables = record { schema = []; has_table = false; applied = empty_map }

-- The commit of the first migration loses its reply.
abbrev faults : Plan
faults = fine ∷ fine ∷ fine ∷ fine ∷ fine ∷ fine ∷ fine ∷ fine ∷ fine ∷ lost ∷ []

faults_test : (run exec disk config faults tables).2.schema ≡ "CREATE" ∷ []
unfolding run_program
faults_test = refl

rerun_test :
    (run exec disk config [] (run exec disk config faults tables).2).2.schema
    ≡ "CREATE" ∷ "ALTER" ∷ []
unfolding run_program
rerun_test = refl

run-Installs_example : Installs exec "order" migrations tables (run exec disk config faults tables)
run-Installs_example =
    run-Installs exec disk config migrations faults tables refl load_migrations_test

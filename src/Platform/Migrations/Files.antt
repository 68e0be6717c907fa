-- ===== src/Platform/Migrations/Files.antt =====
-- internal/platform/migrations/runner.go: the files of a directory as migrations. The directory, the
-- digest and strings.TrimSpace are arguments.
use test_task_autumn.Prelude.{
  String, Bool, ◌||◌, Option, none, some, List, [], ◌∷◌, if◌then◌else◌, ◌==◌, ◌!=◌, nat_eq,
  string_eq, Result, ok, err, ◌>>=◌, ◌>>◌, fail_if,
}
use test_task_autumn.Prelude.Texts.{str_leb}
use test_task_autumn.Platform.Migrations.Names.{ext, migration_version}

pub data MigrationError : Type 0 where
  invalid_config : MigrationError
  empty_migration : String → MigrationError
  checksum_mismatch : String → String → MigrationError
  unreadable : MigrationError
  database : MigrationError

pub record Migration : Type 0 where
  pub version : String
  pub filename : String
  pub sql : String
  pub checksum : String

pub record Entry : Type 0 where
  pub name : String
  pub is_dir : Bool

-- os.ReadDir, os.ReadFile of a name in a directory, and the hexadecimal SHA-256
pub record World : Type 0 where
  pub read_dir : String → Option (List Entry)
  pub read_file : String → String → Option String
  pub trim_space : String → String
  pub sha256_hex : String → String

unfoldable pub insert_migration : Migration → List Migration → List Migration
insert_migration x [] = x ∷ []
insert_migration x (y ∷ ys) =
    let rest = insert_migration x ys in
    if str_leb x.filename y.filename then x ∷ y ∷ ys else y ∷ rest

-- `sort.Slice` by the filename, which no two entries share
unfoldable pub sort_migrations : List Migration → List Migration
unfolding insert_migration
sort_migrations [] = []
sort_migrations (x ∷ xs) = insert_migration x (sort_migrations xs)

module _ (w : World) where
  abbrev pub migration_of : String → String → Migration
  migration_of name sql = record {
    version = migration_version name;
    filename = name;
    sql = sql;
    checksum = w.sha256_hex sql;
  }

  abbrev pub or_fail : {A : Type 0} → Option A → MigrationError → Result MigrationError A
  or_fail none e = err e
  or_fail (some a) e = ok a

  -- the loop over the entries
  unfoldable pub read_entries : String → List Entry → Result MigrationError (List Migration)
  unfolding ext migration_version
  read_entries directory [] = ok []
  read_entries directory (e ∷ es) =
      let rest = read_entries directory es in
      if e.is_dir || ext e.name != ".sql" then rest else do
        contents ← or_fail (w.read_file directory e.name) unreadable
        fail_if (w.trim_space contents == "") (empty_migration e.name)
        items ← rest
        ok (migration_of e.name (w.trim_space contents) ∷ items)

  -- `loadMigrations`
  unfoldable pub load_migrations : String → Result MigrationError (List Migration)
  unfolding read_entries sort_migrations
  load_migrations directory = do
    entries ← or_fail (w.read_dir directory) unreadable
    items ← read_entries directory entries
    ok (sort_migrations items)

-- ===== src/Platform/Migrations/Names.antt =====
-- The names of migration files: `filepath.Ext`, `strings.TrimSuffix` of it, and `strings.Cut` at "_".
use Prim.Native.Char.{code}
use Prim.Native.String.{String, [], ◌∷◌}
use test_task_autumn.Prelude.{
  String, ◌≡◌, refl, ◌&&◌, [], ◌∷◌, if◌then◌else◌, ◌==◌, ◌!=◌, nat_eq, string_eq,
}

-- from the last dot on
unfoldable pub ext : String → String
ext [] = ""
ext (c ∷ s) = let rest = ext s in if rest != "" then rest else if code c == 46 then c ∷ s else ""

unfoldable pub without_ext : String → String
unfolding ext
without_ext [] = ""
without_ext (c ∷ s) =
    let rest = without_ext s in if code c == 46 && ext s == "" then "" else c ∷ rest

unfoldable pub before_underscore : String → String
before_underscore [] = ""
before_underscore (c ∷ s) = let rest = before_underscore s in if code c == 95 then "" else c ∷ rest

-- `migrationVersion`
unfoldable pub migration_version : String → String
unfolding without_ext before_underscore
migration_version filename = before_underscore (without_ext filename)

names_test :
    (ext "0001_init.up.sql" ≡ ".sql")
    × (without_ext "0001_init.up.sql" ≡ "0001_init.up")
    × (migration_version "0001_init.up.sql" ≡ "0001")
    × (migration_version "0002.sql" ≡ "0002")
    × (migration_version "readme" ≡ "readme")
unfolding ext without_ext migration_version
names_test = (refl, refl, refl, refl, refl)

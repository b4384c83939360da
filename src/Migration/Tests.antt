-- ===== src/Migration/Tests.antt =====
-- A plan with one migration applied and one to run.
use cns_server.Base.{◌≡◌, ◌↔◌, List, [], ◌∷◌, map, ok}
use cns_server.Migration.{
  MigrationFile, AppliedMigration, apply, build_migration_plan, IsCounting, IsPlan,
  available_version, applied_version, build_migration_plan_exact,
}

abbrev first : MigrationFile
first = record { version = 1; name = "devices"; file = "001_devices.sql" }

abbrev second : MigrationFile
second = record { version = 2; name = "commands"; file = "002_commands.sql" }

abbrev done : List AppliedMigration
done = record { version = 1; name = "devices" } ∷ []

build_migration_plan_exact_example :
    (build_migration_plan (first ∷ second ∷ []) done apply ≡ ok (second ∷ [])) ↔ (
      IsCounting 0 (map available_version (first ∷ second ∷ []))
      × IsCounting 0 (map applied_version done)
      × IsPlan apply (first ∷ second ∷ []) done (second ∷ []))
build_migration_plan_exact_example =
    build_migration_plan_exact (first ∷ second ∷ []) done apply (second ∷ [])

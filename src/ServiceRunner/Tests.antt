-- ===== src/ServiceRunner/Tests.antt =====
-- A run that starts, waits once and is told to stop.
use cns_server.Base.{true, false, [], ◌∷◌, ok}
use cns_server.ServiceRunner.{normal, ServiceOperations, run_service}
use cns_server.ServiceRunner.Exit.{IsHonest, run_service_exits}

abbrev operations : ServiceOperations
operations = record {
  config_loaded = ok tt;
  migrations_discovered = ok tt;
  postgres_connected = ok tt;
  applied_migrations_read = ok tt;
  migrations_planned = λ b. ok tt;
  pending_migration_count = 1;
  migration_applied = λ i. ok tt;
  device_snapshot_loaded = ok tt;
  command_state_loaded = ok tt;
  signal_handlers_installed = ok tt;
  device_runtime_started = ok tt;
  mqtt_created = ok tt;
  mqtt_started = ok tt;
  checks =
      record {
        mqtt_has_terminal_failure = false;
        mqtt_callback_stop_requested = false;
        shutdown_requested = false;
      }
      ∷ record {
        mqtt_has_terminal_failure = false;
        mqtt_callback_stop_requested = false;
        shutdown_requested = true;
      }
      ∷ [];
}

run_service_exits_example : IsHonest (run_service normal operations)
run_service_exits_example = run_service_exits normal operations

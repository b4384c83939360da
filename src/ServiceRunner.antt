-- ===== src/ServiceRunner.antt =====
-- core/runtime/service_runner.{hpp,cpp}: the life of the process. The operations that the runner calls
-- are its parameters: what each returns is in `ServiceOperations`, and what is called, in which
-- order, is the trace. The checks of the main loop are a list: when it ends, the loop still runs.
pub mod Exit
pub mod Tests
use cns_server.Base.{
  ℕ, zero, suc, ◌≡◌, ◌≢◌, ◌↔◌, ◌⊎◌, inl, inr, refl, String, Bool, true, false, not, ◌&&◌, ◌||◌,
  List, [], ◌∷◌, ◌++◌, Option, none, some, if◌then◌else◌, Expected, ok, unexpected, In, arith,
}

pub data RunMode : Type 0 where
  normal migrate_only : RunMode

-- The calls of the operations.
pub data Operation : Type 0 where
  load_config initialize_logger discover_migrations connect_postgres : Operation
  read_applied_migrations plan_migrations : Operation
  apply_migration : ℕ → Operation
  load_device_snapshot load_command_state install_signal_handlers start_device_runtime : Operation
  stop_accepting_device_messages stop_device_runtime create_mqtt start_mqtt stop_mqtt : Operation
  wait_for_next_check : Operation
  info error : String → Operation

-- One round of checks: a terminal failure of MQTT, its callback's wish to stop, a signal.
pub record Check : Type 0 where
  pub mqtt_has_terminal_failure : Bool
  pub mqtt_callback_stop_requested : Bool
  pub shutdown_requested : Bool

pub record ServiceOperations : Type 0 where
  pub config_loaded : Expected String Unit
  pub migrations_discovered : Expected String Unit
  pub postgres_connected : Expected String Unit
  pub applied_migrations_read : Expected String Unit
  pub migrations_planned : Bool → Expected String Unit
  pub pending_migration_count : ℕ
  pub migration_applied : ℕ → Expected String Unit
  pub device_snapshot_loaded : Expected String Unit
  pub command_state_loaded : Expected String Unit
  pub signal_handlers_installed : Expected String Unit
  pub device_runtime_started : Expected String Unit
  pub mqtt_created : Expected String Unit
  pub mqtt_started : Expected String Unit
  pub checks : List Check

-- The calls made, and the exit code when the program ends.
pub record Outcome : Type 0 where
  pub calls : List Operation
  pub exit_code : Option ℕ

abbrev pub then_do : List Operation → Outcome → Outcome
then_do calls outcome = record { calls = calls ++ outcome.calls; exit_code = outcome.exit_code }

abbrev pub exits : ℕ → List Operation → Outcome
exits code calls = record { calls = calls; exit_code = some code }

-- `if (Failed(operation(), operations)) { cleanup; return 1; }` before the rest.
unfoldable pub attempt : Operation → Expected String Unit → List Operation → Outcome → Outcome
attempt operation (ok _) cleanup rest = then_do (operation ∷ []) rest
attempt operation (unexpected message) cleanup rest = exits 1 (operation ∷ error message ∷ cleanup)

-- The loop over the pending migrations, from an index on.
unfoldable pub apply_migrations : ServiceOperations → ℕ → ℕ → Outcome
unfolding attempt
apply_migrations ops index zero = exits 0 (info "数据库迁移完成" ∷ [])
apply_migrations ops index (suc left) =
    attempt (apply_migration index) (ops.migration_applied index) []
      (apply_migrations ops (suc index) left)

abbrev stop_runtime : List Operation
stop_runtime = stop_accepting_device_messages ∷ stop_device_runtime ∷ []

abbrev stop_all : List Operation
stop_all = stop_accepting_device_messages ∷ stop_device_runtime ∷ stop_mqtt ∷ []

-- The main loop.
unfoldable pub watch : List Check → Outcome
watch [] = record { calls = []; exit_code = none }
watch (c ∷ checks) =
    let rest = watch checks in
    if c.mqtt_has_terminal_failure
    then exits 1 (error "MQTT后台运行发生终止性失败" ∷ stop_all)
    else if c.mqtt_callback_stop_requested || c.shutdown_requested
    then exits 0 (stop_all ++ info "路由服务已停止" ∷ [])
    else then_do (wait_for_next_check ∷ []) rest

unfoldable pub start_service : ServiceOperations → Outcome
unfolding attempt watch
start_service ops = attempt load_device_snapshot ops.device_snapshot_loaded [] (
    attempt load_command_state ops.command_state_loaded [] (
      attempt install_signal_handlers ops.signal_handlers_installed [] (
        attempt start_device_runtime ops.device_runtime_started stop_runtime (
          attempt create_mqtt ops.mqtt_created stop_runtime (
            attempt start_mqtt ops.mqtt_started stop_all
              (then_do (info "路由服务已启动" ∷ []) (watch ops.checks)))))))

abbrev pub is_migrate_only : RunMode → Bool
is_migrate_only migrate_only = true
is_migrate_only normal = false

-- RunService
unfoldable pub run_service : RunMode → ServiceOperations → Outcome
unfolding attempt apply_migrations start_service
run_service mode ops = attempt load_config ops.config_loaded [] (
    then_do (initialize_logger ∷ []) (
      attempt discover_migrations ops.migrations_discovered [] (
        attempt connect_postgres ops.postgres_connected [] (
          attempt read_applied_migrations ops.applied_migrations_read [] (
            attempt plan_migrations (ops.migrations_planned (is_migrate_only mode)) [] (
              if is_migrate_only mode
              then apply_migrations ops 0 ops.pending_migration_count
              else start_service ops))))))

-- ===== src/CommandService/Runs.antt =====
-- core/runtime/command_service.cpp: the runs of the service.
use cns_server.Base.{ℕ, String, Bool, true, false, List, [], ◌∷◌, none, Eq, string_eq, option_eq}
use cns_server.Device.{DeviceRegistry}
use cns_server.Database.{CommandDatabaseResult}
use cns_server.Command.{SourceKind, CommandRecord, command_status_eq}
use cns_server.CommandService.{SourceRequest, CommandInbound, Environment, CommandService}
use cns_server.CommandService.Cycle.{
  push_command_message, push_command_result, push_publish_completion, process_commands,
  on_target_online, set_database_available, set_mqtt_available, close_commands,
  cancel_outstanding_work, load_active,
}

-- What happens to the service, with the directory as it then is.
pub data CommandEvent (J : Type 0) : Type 0 where
  receives : CommandInbound J → CommandEvent J
  answers : CommandDatabaseResult J → CommandEvent J
  completes : (token : ℕ) (result : Bool) → CommandEvent J
  processes_commands : DeviceRegistry J → (now : ℕ) → CommandEvent J
  comes_online : DeviceRegistry J → (device_id : String) (now : ℕ) → CommandEvent J
  sets_database sets_mqtt : (available : Bool) → CommandEvent J
  closes_commands cancels_commands : CommandEvent J
  loads : DeviceRegistry J → List (CommandRecord J) → CommandEvent J

abbrev pub with_devices : {J : Type 0} → Environment J → DeviceRegistry J → Environment J
with_devices env devices = record env { devices = devices }

module _ {J : Type 0} ⦃e : Eq J⦄ (env : Environment J)
    (parse : SourceKind → CommandRecord J → SourceRequest J) where
  unfoldable pub command_step : CommandEvent J → CommandService J → CommandService J
  unfolding push_command_message push_command_result push_publish_completion process_commands
      on_target_online set_database_available set_mqtt_available close_commands
      cancel_outstanding_work load_active
  command_step (receives m) s = (push_command_message env m s).0
  command_step (answers r) s = push_command_result r s
  command_step (completes token result) s = push_publish_completion token result s
  command_step (processes_commands devices now) s =
      process_commands (with_devices env devices) now s
  command_step (comes_online devices id now) s =
      on_target_online (with_devices env devices) id now s
  command_step (sets_database available) s = set_database_available available s
  command_step (sets_mqtt available) s = set_mqtt_available available s
  command_step closes_commands s = close_commands s
  command_step cancels_commands s = cancel_outstanding_work s
  command_step (loads devices commands) s = load_active (with_devices env devices) parse commands s

  unfoldable pub run_commands : List (CommandEvent J) → CommandService J → CommandService J
  unfolding command_step
  run_commands [] s = s
  run_commands (x ∷ xs) s = run_commands xs (command_step x s)

-- The service at its start.
unfoldable pub new_command_service : {J : Type 0} → CommandService J
new_command_service = record {
  next_operation_id = 1;
  next_publish_token = 1;
  messages = [];
  database_results = [];
  publish_completions = [];
  operations = [];
  publications = [];
  active_commands = [];
  completed_commands = [];
  recovery_started = [];
  deferred_transitions = [];
  early_device_acks = [];
  next_cleanup_at = none;
  outstanding_operations = 0;
  database_available = true;
  is_mqtt_available = true;
  closed = false;
  port_calls = 0;
  outputs = [];
  database_trace = [];
}

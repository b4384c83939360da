-- ===== src/CommandService/Tests.antt =====
-- A host application's request for a box, and a command that is loaded and published.
use cns_server.Base.{
  ℕ, ◌≤◌, ◌≡◌, refl, true, false, List, [], ◌∷◌, none, some, length, ℕ_eq, string_eq,
}
use cns_server.Base.Map.{find, insert, contains}
use cns_server.Device.{DeviceRegistry}
use cns_server.Registry.{find_device}
use cns_server.Command.{
  SourceKind, host_app, config, pending, CommandRecord, failed, timeout, is_terminal,
  can_transition, device_target,
}
use cns_server.Command.Router.{CommandSource, find_source}
use cns_server.CommandService.{
  CommandService, SourceRequest, config_request, RequestContext, source_request, Environment,
  target_for, activate,
}
use cns_server.CommandService.Publish.{publish_to}
use cns_server.CommandService.Requests.{handle_request}
use cns_server.CommandService.Recovery.{check_id}
use cns_server.CommandService.Cycle.{load_command, load_each, load_active}
use cns_server.CommandService.Runs.{
  CommandEvent, receives, processes_commands, loads, command_step, run_commands,
  new_command_service,
}
use cns_server.CommandService.Open.{open_operations}
use cns_server.CommandService.Valid.Runs.{
  commands_after, run_commands_outstanding, run_commands_remembered, run_commands_active,
}
use cns_server.CommandService.Timeouts.{publish_to-check_id}
use cns_server.CommandService.Admission.{HasFreshIds, IsAnswered, handle_request-IsAnswered}

abbrev app : CommandSource
app = record { source_id = "app"; kind = host_app; device_id = none; is_enabled = true }

abbrev no_devices : DeviceRegistry ℕ
no_devices = record { records = []; roles = []; named_roles = [] }

abbrev environment : Environment ℕ
environment = record {
  sources = ("app", app) ∷ [];
  devices = no_devices;
  submit_to_database = λ calls id task. true;
  publish_to_device = λ calls token device_id context. true;
  generate_uuid = λ calls. "id";
  max_inflight_commands = 10;
  config_timeout = 15;
  control_timeout = 30;
  terminal_retention = 1000;
  cleanup_interval = 100;
  cleanup_batch_size = 5;
}

abbrev request : SourceRequest ℕ
request = config_request (record {
  request_id = "r";
  target = device_target "box";
  parameters = record {
    telemetry_publish_interval_ms = some 1000;
    heartbeat_interval_ms = none;
    mqtt_reconnect_delay_s = none;
    mqtt_reconnect_delay_max_s = none;
  };
  comparison_payload = 7;
})

abbrev parse : SourceKind → CommandRecord ℕ → SourceRequest ℕ
parse kind c = request

abbrev running : CommandRecord ℕ
running = record {
  command_id = "c";
  command_type = config;
  source_id = "app";
  request_id = "r";
  target_device_id = some "box";
  request_payload = 7;
  status = pending;
  error_code = none;
  error_message = none;
  device_ack = none;
  created_at = 5;
  dispatched_at = none;
  updated_at = 5;
  completed_at = none;
}

abbrev context : RequestContext ℕ
context = record {
  source_id = "app";
  source = some app;
  parsed = request;
  command_type = config;
  received_at = 5;
  deadline = 20;
  target = none;
  command = some running;
  device_ack_business_status = none;
}

abbrev events : List (CommandEvent ℕ)
events =
    receives (record { content = source_request "app" config (λ kind. request); received_at = 5 })
    ∷ processes_commands no_devices 6
    ∷ []

abbrev loading : List (CommandEvent ℕ)
loading = loads no_devices (running ∷ []) ∷ []

run_commands_outstanding_example :
    (commands_after environment parse events).outstanding_operations
    ≡ length (open_operations (commands_after environment parse events).database_trace)
run_commands_outstanding_example = run_commands_outstanding environment parse events

run_commands_remembered_example :
    length (commands_after environment parse events).completed_commands ≤ 10
run_commands_remembered_example = run_commands_remembered environment parse events

loaded : find "c" (commands_after environment parse loading).active_commands ≡ some context
unfolding commands_after run_commands command_step load_active load_each load_command find_source
    find insert new_command_service activate is_terminal target_for find_device
loaded = refl

run_commands_active_example :
    (c : CommandRecord ℕ) × (context.command ≡ some c)
    × (c.command_id ≡ "c")
    × (is_terminal c.status ≡ false)
    × (can_transition c.status failed ≡ true)
    × (can_transition c.status timeout ≡ true)
run_commands_active_example = run_commands_active environment parse loading "c" context loaded

abbrev handed_over : CommandService ℕ
handed_over =
    publish_to environment context running "box" 6 (commands_after environment parse loading)

handed_over_started : contains "c" handed_over.recovery_started ≡ true
unfolding contains find publish_to insert commands_after run_commands find_source is_terminal
    new_command_service
handed_over_started = refl

publish_to-check_id_example :
    (contains "c" handed_over.recovery_started ≡ true)
    × (check_id environment "c" 1000 handed_over ≡ handed_over)
publish_to-check_id_example =
    publish_to-check_id environment context running "box" 6
      (commands_after environment parse loading) environment 1000 handed_over refl
      handed_over_started

start-HasFreshIds : HasFreshIds (new_command_service {J = ℕ})
unfolding new_command_service find
start-HasFreshIds id le = refl

handle_request-IsAnswered_example :
    IsAnswered environment new_command_service
      (handle_request environment "app" config (λ kind. request) 5 new_command_service)
handle_request-IsAnswered_example =
    handle_request-IsAnswered environment "app" config (λ kind. request) 5 new_command_service
      start-HasFreshIds

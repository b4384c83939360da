-- ===== src/CommandService.antt =====
-- core/runtime/command_service.{hpp,cpp}: the commands of the sources, from their requests to the
-- answers of the devices. The database, the MQTT publishers and the random ids are ports, whose answers
-- may depend on the number of calls made before. A message comes with what the parsers read from
-- it; the sinks get the data that their texts are built from. Times are ticks, and the counters
-- of operations and publications, which never run out in 64 bits, do not wrap upwards.
pub mod Publish
pub mod Acks
pub mod Results
pub mod Stored
pub mod Requests
pub mod Recovery
pub mod Cycle
pub mod Runs
pub mod Eviction
pub mod Open
pub mod Valid
pub mod Timeouts
pub mod Admission
pub mod Tests
use text.Mathlib.Text.{find? as text_find}
use cns_server.Base.{
  ℕ, zero, suc, ◌+◌, ◌-◌, String, Bool, true, false, not, ◌&&◌, List, [], ◌∷◌, ◌++◌, Option, none,
  some, ◌==◌, ltb, if◌then◌else◌, is_some, Expected, ok, unexpected, length, ℕ_eq, string_eq,
}
use cns_server.Base.Map.{Map, find, insert, erase}
use cns_server.Device.{DeviceRecord, DeviceRegistry}
use cns_server.Registry.{find_device}
use cns_server.Database.{
  DatabaseError, CommandDatabaseTask, transition_command, CommandDatabaseResult,
}
use cns_server.Command.{
  SourceKind, CommandType, CommandStatus, CommandRecord, CommandUpdate, SourceConfigRequest,
  SourceControlRequest, ControlCommand, ProtocolError, is_terminal,
}
use cns_server.Command.Router.{CommandSource, ResolvedTarget}

-- SourceRequestParseResult, for both types of command.
pub data SourceRequest (J : Type 0) : Type 0 where
  config_request : SourceConfigRequest J → SourceRequest J
  control_request : SourceControlRequest J → SourceRequest J
  rejected_request :
      (request_id : Option String) (comparison_payload : Option J) → ProtocolError → SourceRequest J

pub record RequestContext (J : Type 0) : Type 0 where
  pub source_id : String
  pub source : Option CommandSource
  pub parsed : SourceRequest J
  pub command_type : CommandType
  pub received_at : ℕ
  pub deadline : ℕ
  pub target : Option ResolvedTarget
  pub command : Option (CommandRecord J)
  pub device_ack_business_status : Option String

pub data OperationKind : Type 0 where
  finding finding_by_id_for_convergence inserting transitioning cleaning : OperationKind

pub record Operation (J : Type 0) : Type 0 where
  pub kind : OperationKind
  pub context : RequestContext J

pub record TransitionTask (J : Type 0) : Type 0 where
  pub command_id : String
  pub expected : CommandStatus
  pub desired : CommandStatus
  pub update : CommandUpdate J

pub record DeferredTransition (J : Type 0) : Type 0 where
  pub context : RequestContext J
  pub task : TransitionTask J

pub record CompletedCommand (J : Type 0) : Type 0 where
  pub context : RequestContext J
  pub remembered_at : ℕ

-- What ParseDeviceConfigAck or ParseDeviceControlAck reads from a payload.
pub record DeviceAck (J : Type 0) : Type 0 where
  pub payload : String
  pub command_id : String
  pub business_status : String
  pub raw : J
  pub control_command : Option ControlCommand

pub record EarlyDeviceAck (J : Type 0) : Type 0 where
  pub device_id : String
  pub ack : DeviceAck J
  pub received_at : ℕ

-- A message by its topic.
pub data CommandMessage (J : Type 0) : Type 0 where
  other_topic : CommandMessage J
  device_ack : (device_id : String) → CommandType → Option (DeviceAck J) → CommandMessage J
  source_request :
      (source_id : String) → CommandType → (SourceKind → SourceRequest J) → CommandMessage J

pub record CommandInbound (J : Type 0) : Type 0 where
  pub content : CommandMessage J
  pub received_at : ℕ

-- The calls of the sinks. A sink that throws changes nothing but the diagnostics.
pub data CommandOutput (J : Type 0) : Type 0 where
  rejects : (source_id : String) → Option String → ProtocolError → CommandType → CommandOutput J
  acknowledges : RequestContext J → CommandOutput J
  informs_routed : RequestContext J → CommandOutput J
  informs_answered : RequestContext J → (business_status : String) → CommandOutput J
  informs_late : RequestContext J → (business_status : String) → CommandOutput J
  informs_unmatched :
      (device_id : String) → Option (DeviceRecord J) → (business_status : String) → CommandOutput J
  diagnoses : String → CommandOutput J

pub record Environment (J : Type 0) : Type 0 where
  pub sources : Map String CommandSource
  pub devices : DeviceRegistry J
  pub submit_to_database : ℕ → ℕ → CommandDatabaseTask J → Bool
  pub publish_to_device : ℕ → ℕ → (device_id : String) → RequestContext J → Bool
  pub generate_uuid : ℕ → String
  pub max_inflight_commands : ℕ
  pub config_timeout : ℕ
  pub control_timeout : ℕ
  pub terminal_retention : ℕ
  pub cleanup_interval : ℕ
  pub cleanup_batch_size : ℕ

-- What passed between the service and the database: an operation that the database accepted, an
-- answer that a pass handled, and the work given up.
pub data DatabaseTrace : Type 0 where
  accepts handles : (operation_id : ℕ) → DatabaseTrace
  gives_up : DatabaseTrace

pub record CommandService (J : Type 0) : Type 0 where
  pub next_operation_id : ℕ
  pub next_publish_token : ℕ
  pub messages : List (CommandInbound J)
  pub database_results : List (CommandDatabaseResult J)
  pub publish_completions : List (ℕ × Bool)
  pub operations : Map ℕ (Operation J)
  pub publications : Map ℕ (RequestContext J)
  pub active_commands : Map String (RequestContext J)
  pub completed_commands : Map String (CompletedCommand J)
  pub recovery_started : Map {0, 0} String Unit
  pub deferred_transitions : Map String (DeferredTransition J)
  pub early_device_acks : Map String (EarlyDeviceAck J)
  pub next_cleanup_at : Option ℕ
  pub outstanding_operations : ℕ
  pub database_available : Bool
  pub is_mqtt_available : Bool
  pub closed : Bool
  pub port_calls : ℕ
  pub outputs : List (CommandOutput J)
  -- Newest first, and read by no operation.
  pub database_trace : List DatabaseTrace

-- IsStateChangedError
unfoldable pub is_state_changed_error : DatabaseError → Bool
is_state_changed_error e = is_some (text_find e.message "状态已变化")

module _ {J : Type 0} where
  unfoldable pub emit_output : CommandOutput J → CommandService J → CommandService J
  emit_output o s = record s { outputs = s.outputs ++ o ∷ [] }

  -- TargetFor
  unfoldable pub target_for : Environment J → CommandRecord J → Option ResolvedTarget
  target_for env c = elim c.target_device_id [
    | none ↦ none
    | some id ↦ elim (find_device env.devices id) [
      | none ↦ none
      | some d ↦ some (record {
        device_id = d.device_id;
        school_name = d.school_name;
        dcdw_label = d.dcdw_label;
      })
    ]
  ]

  -- PublishAck
  unfoldable pub publish_ack : RequestContext J → CommandService J → CommandService J
  unfolding emit_output
  publish_ack context s =
      if is_some context.command then emit_output (acknowledges context) s else s

  -- Submit
  unfoldable pub submit_operation :
      Environment J
      → OperationKind
      → RequestContext J
      → CommandDatabaseTask J
      → CommandService J
      → CommandService J × Bool
  submit_operation env kind context task s =
      let id = s.next_operation_id in
      let called = record s { next_operation_id = id + 1; port_calls = s.port_calls + 1 } in
      if env.submit_to_database s.port_calls id task
      then (
        record called {
          operations = insert id (record { kind = kind; context = context }) s.operations;
          outstanding_operations = s.outstanding_operations + 1;
          database_trace = accepts id ∷ s.database_trace;
        },
        true,
      )
      else (called, false)

  abbrev pub database_task : TransitionTask J → CommandDatabaseTask J
  database_task t = transition_command t.command_id t.expected t.desired t.update

  -- What a refused transition leaves behind, in SubmitTransitionOrDefer and in
  -- RetryDeferredTransitions.
  unfoldable pub defer : RequestContext J → TransitionTask J → CommandService J → CommandService J
  defer context task s = record s {
    database_available = false;
    deferred_transitions =
        insert task.command_id (record { context = context; task = task }) s.deferred_transitions;
  }

  -- SubmitTransitionOrDefer
  unfoldable pub submit_transition_or_defer :
      Environment J → RequestContext J → TransitionTask J → CommandService J → CommandService J
  unfolding submit_operation defer
  submit_transition_or_defer env context task s =
      let submitted = submit_operation env transitioning context (database_task task) s in
      let t = submitted.0 in
      if submitted.1
      then record t { deferred_transitions = erase task.command_id t.deferred_transitions }
      else defer context task t

  -- RetryDeferredTransitions, which takes one entry per pass.
  unfoldable pub retry_deferred :
      Environment J → Map String (DeferredTransition J) → CommandService J → CommandService J
  unfolding submit_operation defer
  retry_deferred env [] s = s
  retry_deferred env ((id, d) ∷ rest) s =
      let t = record s { deferred_transitions = rest } in
      let submitted = submit_operation env transitioning d.context (database_task d.task) t in
      if submitted.1 then submitted.0 else defer d.context d.task (submitted.0)

  unfoldable pub retry_deferred_transitions : Environment J → CommandService J → CommandService J
  unfolding retry_deferred
  retry_deferred_transitions env s =
      let retried = retry_deferred env s.deferred_transitions s in
      if s.database_available then retried else s

  -- The inner loop of RememberCompletedCommand.
  unfoldable pub oldest_from : String → ℕ → Map String (CompletedCommand J) → String
  oldest_from id at [] = id
  oldest_from id at ((j, c) ∷ rest) =
      let later = oldest_from j c.remembered_at rest in
      let kept = oldest_from id at rest in if ltb c.remembered_at at then later else kept

  unfoldable pub erase_oldest : Map String (CompletedCommand J) → Map String (CompletedCommand J)
  unfolding oldest_from
  erase_oldest [] = []
  erase_oldest ((id, c) ∷ rest) = erase (oldest_from id c.remembered_at rest) ((id, c) ∷ rest)

  -- Its outer loop, on fuel.
  unfoldable pub evict : ℕ → ℕ → Map String (CompletedCommand J) → Map String (CompletedCommand J)
  unfolding erase_oldest
  evict max_commands zero m = m
  evict max_commands (suc fuel) m =
      let rest = evict max_commands fuel (erase_oldest m) in
      if ltb max_commands (length m) then rest else m

  unfoldable pub remember :
      Environment J → RequestContext J → CommandRecord J → ℕ → CommandService J → CommandService J
  unfolding evict
  remember env context c now s =
      let m =
        insert c.command_id (record { context = context; remembered_at = now })
          s.completed_commands in
      record s { completed_commands = evict env.max_inflight_commands (length m) m }

  -- RememberCompletedCommand
  unfoldable pub remember_completed_command :
      Environment J → RequestContext J → ℕ → CommandService J → CommandService J
  unfolding remember
  remember_completed_command env context now s = elim context.command [
    | none ↦ s
    | some c ↦ if is_terminal c.status then remember env context c now s else s
  ]

  -- The end of a command: it is remembered, and leaves the tables of running commands.
  unfoldable pub retire :
      Environment J → RequestContext J → CommandRecord J → ℕ → CommandService J → CommandService J
  unfolding remember_completed_command
  retire env context c now s =
      let t = remember_completed_command env context now s in
      record t {
        active_commands = erase c.command_id t.active_commands;
        recovery_started = erase c.command_id t.recovery_started;
        early_device_acks = erase c.command_id t.early_device_acks;
      }

  unfoldable pub activate : RequestContext J → String → CommandService J → CommandService J
  activate context id s = record s { active_commands = insert id context s.active_commands }

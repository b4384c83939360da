-- ===== src/CommandService/Cycle.antt =====
-- core/runtime/command_service.cpp: one pass of the service, and the requests of other threads.
use cns_server.Base.{
  ℕ, ◌+◌, String, Bool, true, false, not, ◌&&◌, ◌||◌, List, [], ◌∷◌, ◌++◌, none, some, Eq, ◌==◌,
  ltb, leb, if◌then◌else◌, length, string_eq, option_eq,
}
use cns_server.Base.Map.{Map, erase}
use cns_server.Database.{CommandDatabaseResult}
use cns_server.Command.{SourceKind, in_progress, CommandRecord, is_terminal, command_status_eq}
use cns_server.Command.Router.{find_source}
use cns_server.CommandService.{
  SourceRequest, RequestContext, CommandInbound, diagnoses, Environment, CommandService, gives_up,
  emit_output, target_for, retry_deferred_transitions, activate,
}
use cns_server.CommandService.Publish.{by_type, handle_publish_completion}
use cns_server.CommandService.Stored.{handle_command_result}
use cns_server.CommandService.Requests.{handle_command_message}
use cns_server.CommandService.Recovery.{process_timeouts_and_recovery}

module _ {J : Type 0} where
  -- TryPush
  unfoldable pub push_command_message :
      Environment J → CommandInbound J → CommandService J → CommandService J × Bool
  push_command_message env m s =
      if s.closed || leb env.max_inflight_commands (length s.messages)
      then (s, false)
      else (record s { messages = s.messages ++ m ∷ [] }, true)

  -- PushDatabaseResult of commands
  unfoldable pub push_command_result : CommandDatabaseResult J → CommandService J → CommandService J
  push_command_result r s =
      if s.closed then s else record s { database_results = s.database_results ++ r ∷ [] }

  -- PushPublishCompletion
  unfoldable pub push_publish_completion : ℕ → Bool → CommandService J → CommandService J
  push_publish_completion token result s =
      if s.closed
      then s
      else record s { publish_completions = s.publish_completions ++ (token, result) ∷ [] }

  unfoldable pub close_commands : CommandService J → CommandService J
  close_commands s = record s { closed = true }

  -- CancelOutstandingWork
  unfoldable pub cancel_outstanding_work : CommandService J → CommandService J
  cancel_outstanding_work s = record s {
    messages = [];
    database_results = [];
    publish_completions = [];
    operations = [];
    outstanding_operations = 0;
    publications = [];
    deferred_transitions = [];
    early_device_acks = [];
    completed_commands = [];
    database_trace = gives_up ∷ s.database_trace;
  }

  unfoldable pub set_database_available : Bool → CommandService J → CommandService J
  set_database_available available s = record s { database_available = available }

  unfoldable pub set_mqtt_available : Bool → CommandService J → CommandService J
  set_mqtt_available available s = record s {
    is_mqtt_available = available;
    recovery_started = if available && not s.is_mqtt_available then [] else s.recovery_started;
  }

  unfoldable pub forget_recovery :
      String → Map String (RequestContext J) → Map {0, 0} String Unit → Map {0, 0} String Unit
  forget_recovery device_id [] m = m
  forget_recovery device_id ((id, context) ∷ rest) m =
      forget_recovery device_id rest (elim context.command [
        | none ↦ m
        | some c ↦ if c.target_device_id == some device_id then erase id m else m
      ])

  -- OnTargetOnline
  unfoldable pub on_target_online : Environment J → String → ℕ → CommandService J → CommandService J
  unfolding forget_recovery process_timeouts_and_recovery
  on_target_online env device_id now s = process_timeouts_and_recovery env now (record s {
    recovery_started = forget_recovery device_id s.active_commands s.recovery_started;
  })

  module _ ⦃e : Eq J⦄ (env : Environment J) where
    -- The three kinds of input, in the order in which a pass takes them.
    unfoldable pub handle_command_results :
        List (CommandDatabaseResult J) → ℕ → CommandService J → CommandService J
    unfolding handle_command_result
    handle_command_results [] now s = s
    handle_command_results (r ∷ rs) now s =
        handle_command_results rs now (handle_command_result env r now s)

    unfoldable pub handle_completions : List (ℕ × Bool) → ℕ → CommandService J → CommandService J
    unfolding handle_publish_completion
    handle_completions [] now s = s
    handle_completions ((token, result) ∷ rest) now s =
        handle_completions rest now (handle_publish_completion env token result now s)

    unfoldable pub handle_command_messages :
        List (CommandInbound J) → ℕ → CommandService J → CommandService J
    unfolding handle_command_message
    handle_command_messages [] now s = s
    handle_command_messages (m ∷ ms) now s =
        handle_command_messages ms now (handle_command_message env m.content m.received_at now s)

    -- ProcessReady, on the inputs that wait when it begins.
    unfoldable pub process_commands : ℕ → CommandService J → CommandService J
    unfolding handle_command_results handle_completions handle_command_messages
        retry_deferred_transitions process_timeouts_and_recovery
    process_commands now s =
        let taken = record s { database_results = []; publish_completions = []; messages = [] } in
        let t = handle_command_messages s.messages now (
          handle_completions s.publish_completions now
            (handle_command_results s.database_results now taken)) in
        process_timeouts_and_recovery env now (retry_deferred_transitions env t)

  -- A running command that is loaded at the start, with what the parser reads from its payload.
  unfoldable pub load_command :
      Environment J
      → (SourceKind → CommandRecord J → SourceRequest J)
      → CommandRecord J
      → CommandService J
      → CommandService J
  unfolding activate target_for
  load_command env parse c s = elim (find_source env.sources c.source_id) [
    | none ↦ s
    | some source ↦
        (let base = if c.status == in_progress then c.updated_at else c.created_at in
          let timeout = by_type c.command_type env.config_timeout env.control_timeout in
          let loaded =
            activate
              (record {
                source_id = c.source_id;
                source = some source;
                parsed = parse source.kind c;
                command_type = c.command_type;
                received_at = c.created_at;
                deadline = base + timeout;
                target = target_for env c;
                command = some c;
                device_ack_business_status = none;
              })
              c.command_id s in
          if is_terminal c.status then s else loaded)
  ]

  unfoldable pub load_each :
      Environment J
      → (SourceKind → CommandRecord J → SourceRequest J)
      → List (CommandRecord J)
      → CommandService J
      → CommandService J
  unfolding load_command
  load_each env parse [] s = s
  load_each env parse (c ∷ cs) s = load_each env parse cs (load_command env parse c s)

  -- LoadActive
  unfoldable pub load_active :
      Environment J
      → (SourceKind → CommandRecord J → SourceRequest J)
      → List (CommandRecord J)
      → CommandService J
      → CommandService J
  unfolding load_each emit_output
  load_active env parse commands s =
      if ltb env.max_inflight_commands (length commands)
      then emit_output (diagnoses "活动命令数量超过配置上限") s
      else load_each env parse commands s

-- ===== src/CommandService/Results.antt =====
-- core/runtime/command_service.cpp: the answers of the database.
use cns_server.Base.{
  ℕ, ◌+◌, String, Bool, true, false, Option, none, some, Eq, ◌==◌, if◌then◌else◌, Expected, ok,
  unexpected, ℕ_eq, string_eq,
}
use cns_server.Base.Map.{contains}
use cns_server.Device.{DeviceRecord, online, status_beq}
use cns_server.Registry.{find_device}
use cns_server.Database.{ErrorKind, unavailable, permanent, find_command_by_id, insert_command}
use cns_server.Command.{
  pending, failed, CommandRecord, CommandUpdate, ProtocolError, IdempotencyResult, same, conflict,
  compare_request, is_terminal, can_transition, command_status_eq,
}
use cns_server.Command.Router.{
  CommandSource, ResolvedTarget, resolve_config_target, resolve_control_target,
}
use cns_server.CommandService.{
  SourceRequest, config_request, control_request, rejected_request, RequestContext, OperationKind,
  finding_by_id_for_convergence, inserting, transitioning, rejects, diagnoses, Environment,
  CommandService, emit_output, target_for, publish_ack, submit_operation,
  submit_transition_or_defer, retire, activate,
}

abbrev pub protocol_error : String → String → ProtocolError
protocol_error code message = record { code = code; message = message }

abbrev pub is_conflict : IdempotencyResult → Bool
is_conflict same = false
is_conflict conflict = true

abbrev pub is_unavailable : ErrorKind → Bool
is_unavailable unavailable = true
is_unavailable permanent = false

abbrev pub is_transition : OperationKind → Bool
is_transition transitioning = true
is_transition _ = false

abbrev pub is_insert : OperationKind → Bool
is_insert inserting = true
is_insert _ = false

module _ {J : Type 0} where
  -- RequestId
  abbrev pub request_id_of : SourceRequest J → Option String
  request_id_of (config_request r) = some r.request_id
  request_id_of (control_request r) = some r.request_id
  request_id_of (rejected_request id payload e) = id

  -- ComparisonPayload
  abbrev pub comparison_payload_of : SourceRequest J → Option J
  comparison_payload_of (config_request r) = some r.comparison_payload
  comparison_payload_of (control_request r) = some r.comparison_payload
  comparison_payload_of (rejected_request id payload e) = payload

  -- Reject, to the source of a context.
  unfoldable pub reject_context :
      RequestContext J → ProtocolError → CommandService J → CommandService J
  unfolding emit_output
  reject_context context e s =
      emit_output (rejects context.source_id (request_id_of context.parsed) e context.command_type)
        s

  -- The update that repeats a transition, with the time of dispatch that it keeps.
  abbrev pub repeat_update : CommandRecord J → Option ℕ → CommandUpdate J
  repeat_update desired dispatched_at = record {
    error_code = desired.error_code;
    error_message = desired.error_message;
    device_ack = desired.device_ack;
    dispatched_at = dispatched_at;
    completed_at = desired.completed_at;
    updated_at = desired.updated_at;
  }

  -- HandleTransitionConflict
  unfoldable pub handle_transition_conflict :
      Environment J → RequestContext J → CommandRecord J → CommandService J → CommandService J
  unfolding submit_operation emit_output
  handle_transition_conflict env context c s =
      let submitted =
        submit_operation env finding_by_id_for_convergence context (find_command_by_id c.command_id)
          s in
      if submitted.1
      then submitted.0
      else emit_output (diagnoses "命令状态变化后查询当前状态失败：数据库当前不可用")
          (record (submitted.0) { database_available = false })

  unfoldable pub converge :
      Environment J
      → RequestContext J
      → CommandRecord J
      → CommandRecord J
      → ℕ
      → CommandService J
      → CommandService J
  unfolding retire publish_ack activate submit_transition_or_defer
  converge env before desired current now s =
      let context = record before { command = some current; target = target_for env current } in
      let retired = retire env context current now s in
      let activated = activate context current.command_id s in
      let repeated =
        submit_transition_or_defer env (record context { command = some desired })
          (record {
            command_id = current.command_id;
            expected = current.status;
            desired = desired.status;
            update = repeat_update desired desired.dispatched_at;
          })
          s in
      if is_terminal current.status
      then if contains current.command_id s.active_commands
        then publish_ack context retired
        else retired
      else if current.status == desired.status
      then activated
      else if can_transition current.status desired.status
      then repeated
      else activated

  -- ConvergeAfterConflict
  unfoldable pub converge_after_conflict :
      Environment J → RequestContext J → CommandRecord J → ℕ → CommandService J → CommandService J
  unfolding converge
  converge_after_conflict env context current now s = elim context.command [
    | none ↦ s
    | some desired ↦ converge env context desired current now s
  ]

  -- The record for a request that the database does not know: failed at once, or pending.
  failed_record : CommandRecord J → ProtocolError → ℕ → CommandRecord J
  failed_record c e at = record c {
    status = failed;
    error_code = some e.code;
    error_message = some e.message;
    completed_at = some at;
  }

  abbrev pub is_online_device : Option (DeviceRecord J) → Bool
  is_online_device none = false
  is_online_device (some d) = status_beq d.status online

  unfoldable pub resolve_request :
      Environment J → CommandSource → SourceRequest J → Expected ProtocolError ResolvedTarget
  resolve_request env source (config_request r) = resolve_config_target source r env.devices
  resolve_request env source (control_request r) = resolve_control_target source r env.devices
  resolve_request env source (rejected_request id payload e) = unexpected e

  unfoldable pub target_record :
      Environment J
      → RequestContext J
      → CommandRecord J
      → Expected ProtocolError ResolvedTarget
      → RequestContext J × CommandRecord J
  unfolding failed_record
  target_record env context c (unexpected e) = (context, failed_record c e context.received_at)
  target_record env context c (ok target) =
      let addressed = record c { target_device_id = some target.device_id } in
      (
        record context { target = some target },
        if is_online_device (find_device env.devices target.device_id)
            then addressed
            else failed_record addressed (protocol_error "target_offline" "目标设备当前离线")
                context.received_at,
      )

  -- The insertion of a new command. A context has its source, and a request that reached the
  -- database its id and its payload.
  unfoldable pub create_command :
      Environment J
      → RequestContext J
      → CommandSource
      → String
      → J
      → CommandService J
      → CommandService J
  unfolding resolve_request target_record submit_operation
  create_command env context source request_id payload s =
      let made : CommandRecord J = record {
        command_id = env.generate_uuid s.port_calls;
        command_type = context.command_type;
        source_id = context.source_id;
        request_id = request_id;
        target_device_id = none;
        request_payload = payload;
        status = pending;
        error_code = none;
        error_message = none;
        device_ack = none;
        created_at = context.received_at;
        dispatched_at = none;
        updated_at = context.received_at;
        completed_at = none;
      } in
      let (addressed, c) =
        target_record env context made (resolve_request env source context.parsed) in
      let t = record s { port_calls = s.port_calls + 1 } in
      (submit_operation env inserting (record addressed { command = some c }) (insert_command c)
        t).0

  unfoldable pub create_for :
      Environment J
      → RequestContext J
      → Option CommandSource
      → Option String
      → Option J
      → CommandService J
      → CommandService J
  unfolding create_command
  create_for env context (some source) (some request_id) (some payload) s =
      create_command env context source request_id payload s
  create_for env context _ _ _ s = s

  -- The answer to a request that the database has a command for.
  unfoldable pub repeat_answer :
      Environment J → RequestContext J → CommandRecord J → CommandService J → CommandService J
  unfolding publish_ack
  repeat_answer env context existing s =
      publish_ack (record context { command = some existing; target = target_for env existing }) s

  module _ ⦃e : Eq J⦄ where
    unfoldable pub handle_found :
        Environment J
        → RequestContext J
        → Option (CommandRecord J)
        → CommandService J
        → CommandService J
    unfolding create_for repeat_answer reject_context
    handle_found env context none s =
        create_for env context context.source (request_id_of context.parsed)
          (comparison_payload_of context.parsed) s
    handle_found env context (some existing) s =
        let conflicting =
          reject_context context (protocol_error "idempotency_conflict" "同一请求号的内容不一致") s in
        elim (comparison_payload_of context.parsed) [
          | none ↦ conflicting
          | some payload ↦
              if is_conflict (compare_request existing payload)
              then conflicting
              else repeat_answer env context existing s
        ]

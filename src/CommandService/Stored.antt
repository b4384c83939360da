-- ===== src/CommandService/Stored.antt =====
-- core/runtime/command_service.cpp: what follows a write of the database, and the handler of all its
-- answers.
use Prim.Native.String.{◌++◌ as str_append}
use cns_server.Base.{
  ℕ, ◌-◌, ◌^◌, ◌∷◌, nat_eq, String, Bool, false, not, ◌&&◌, ◌||◌, Option, none, some, Eq, ◌==◌,
  if◌then◌else◌, is_some, Expected, ok, unexpected, ℕ_eq, string_eq,
}
use cns_server.Base.Map.{find, erase}
use cns_server.Database.{
  DatabaseError, CommandDatabaseValue, found, stored, cleaned, CommandDatabaseResult,
}
use cns_server.Command.{
  CommandStatus, dispatched, in_progress, succeeded, failed, timeout, CommandRecord,
  compare_request, is_terminal, can_transition, command_status_eq,
}
use cns_server.CommandService.{
  RequestContext, OperationKind, finding, finding_by_id_for_convergence, cleaning, Operation,
  informs_routed, informs_answered, diagnoses, Environment, CommandService, handles, emit_output,
  publish_ack, submit_transition_or_defer, retire, activate, is_state_changed_error,
}
use cns_server.CommandService.Publish.{publish_record}
use cns_server.CommandService.Acks.{handle_device_ack}
use cns_server.CommandService.Results.{
  protocol_error, is_conflict, is_unavailable, is_transition, is_insert, reject_context,
  repeat_update, handle_transition_conflict, converge_after_conflict, repeat_answer, handle_found,
}

-- Whether the status that was stored is the one that an answer asked for.
unfoldable pub is_ack_persisted : CommandStatus → String → Bool
is_ack_persisted in_progress status = status == "in_progress"
is_ack_persisted failed status = status == "rejected"
is_ack_persisted timeout status = status == "timeout"
is_ack_persisted succeeded status =
    not (status == "in_progress") && not (status == "rejected") && not (status == "timeout")
is_ack_persisted _ status = false

module _ {J : Type 0} where
  -- The report that a command was routed to its device.
  unfoldable pub report_routed :
      OperationKind
      → Option (CommandRecord J)
      → RequestContext J
      → CommandRecord J
      → CommandService J
      → CommandService J
  unfolding emit_output
  report_routed kind requested context c s = elim requested [
    | none ↦ s
    | some before ↦
        if is_transition kind
          && (before.status == dispatched)
          && (c.status == dispatched)
          && is_some context.target
        then emit_output (informs_routed context) s
        else s
  ]

  -- The report of an answer that was stored, after which the context forgets it.
  unfoldable pub report_answered :
      RequestContext J → CommandRecord J → CommandService J → RequestContext J × CommandService J
  unfolding emit_output is_ack_persisted
  report_answered context c s = elim context.device_ack_business_status [
    | none ↦ (context, s)
    | some status ↦
        if is_ack_persisted c.status status && is_some context.target
        then (
          record context { device_ack_business_status = none },
          emit_output (informs_answered context status) s,
        )
        else (context, s)
  ]

  -- An answer of the device that came before the command was known to be dispatched.
  unfoldable pub take_early_ack :
      Environment J → RequestContext J → CommandRecord J → CommandService J → CommandService J
  unfolding handle_device_ack
  take_early_ack env context c s = elim (find c.command_id s.early_device_acks) [
    | none ↦ s
    | some early ↦
        handle_device_ack env early.device_id context.command_type (some early.ack)
          early.received_at
          (record s { early_device_acks = erase c.command_id s.early_device_acks })
  ]

  unfoldable pub keep_running :
      Environment J → RequestContext J → CommandRecord J → CommandService J → CommandService J
  unfolding activate take_early_ack
  keep_running env context c s =
      let t = activate context c.command_id s in
      if c.status == dispatched then take_early_ack env context c t else t

  -- A stored record that is final, or that a transition stored.
  unfoldable pub settle_record :
      Environment J
      → OperationKind
      → Option (CommandRecord J)
      → RequestContext J
      → CommandRecord J
      → ℕ
      → CommandService J
      → CommandService J
  unfolding publish_ack report_routed report_answered retire keep_running
  settle_record env kind requested context c now s =
      let (reported, t) =
        report_answered context c
          (report_routed kind requested context c (publish_ack context s)) in
      let retired = retire env reported c now t in
      let running = keep_running env reported c t in
      if is_terminal c.status then retired else running

  unfoldable pub store_record :
      Environment J
      → OperationKind
      → RequestContext J
      → CommandRecord J
      → ℕ
      → CommandService J
      → CommandService J
  unfolding settle_record activate publish_record
  store_record env kind before c now s =
      let context = record before { command = some c } in
      let settled = settle_record env kind before.command context c now s in
      let published = publish_record env context now (activate context c.command_id s) in
      if is_transition kind || is_terminal c.status then settled else published

  -- Whether a transition to a final status came back with a status from which it may be repeated.
  abbrev pub is_overtaken : OperationKind → CommandRecord J → CommandRecord J → Bool
  is_overtaken kind desired c =
      is_transition kind
      && is_terminal desired.status
      && not (is_terminal c.status)
      && can_transition c.status desired.status

  unfoldable pub repeat_transition :
      Environment J
      → RequestContext J
      → CommandRecord J
      → CommandRecord J
      → CommandService J
      → CommandService J
  unfolding submit_transition_or_defer
  repeat_transition env context desired c s =
      submit_transition_or_defer env context
        (record {
          command_id = desired.command_id;
          expected = c.status;
          desired = desired.status;
          update = repeat_update desired none;
        })
        s

  module _ ⦃e : Eq J⦄ where
    -- An insertion that found another command for the request.
    unfoldable pub other_command :
        Environment J
        → RequestContext J
        → CommandRecord J
        → CommandRecord J
        → CommandService J
        → CommandService J
    unfolding reject_context repeat_answer
    other_command env context made c s =
        if is_conflict (compare_request c made.request_payload)
        then reject_context context (protocol_error "idempotency_conflict" "同一请求号的内容不一致") s
        else repeat_answer env context c s

    unfoldable pub handle_stored :
        Environment J
        → OperationKind
        → RequestContext J
        → CommandRecord J
        → ℕ
        → CommandService J
        → CommandService J
    unfolding other_command repeat_transition store_record
    handle_stored env kind context c now s =
        let plain = store_record env kind context c now s in
        elim context.command [
          | none ↦ plain
          | some desired ↦
              if is_insert kind && not (desired.command_id == c.command_id)
              then other_command env context desired c s
              else if is_overtaken kind desired c
              then repeat_transition env context desired c s
              else plain
        ]

    unfoldable pub handle_value :
        Environment J
        → OperationKind
        → RequestContext J
        → CommandDatabaseValue J
        → ℕ
        → CommandService J
        → CommandService J
    unfolding emit_output converge_after_conflict handle_found handle_stored
    handle_value env cleaning context (cleaned n) now s = s
    handle_value env cleaning context _ now s = emit_output (diagnoses "命令清理返回类型异常") s
    handle_value env finding_by_id_for_convergence context (found none) now s =
        emit_output (diagnoses "命令状态变化后未找到当前命令记录") s
    handle_value env finding_by_id_for_convergence context (found (some c)) now s =
        converge_after_conflict env context c now s
    handle_value env finding_by_id_for_convergence context _ now s =
        emit_output (diagnoses "命令按ID查询返回类型异常") s
    handle_value env finding context (found c) now s = handle_found env context c s
    handle_value env finding context _ now s = emit_output (diagnoses "命令查询返回类型异常") s
    handle_value env kind context (stored c) now s = handle_stored env kind context c now s
    handle_value env kind context _ now s = emit_output (diagnoses "命令写入返回类型异常") s

    -- The branch of an error.
    unfoldable pub handle_error :
        Environment J
        → OperationKind
        → RequestContext J
        → DatabaseError
        → CommandService J
        → CommandService J
    unfolding emit_output handle_transition_conflict is_state_changed_error
    handle_error env kind context error s =
        let unavailable_database = is_unavailable error.kind in
        let failed_operation =
          emit_output (diagnoses (str_append "命令数据库操作失败：" error.message)) (record s {
            database_available = if unavailable_database then false else s.database_available;
          }) in
        elim context.command [
          | none ↦ failed_operation
          | some c ↦
              if is_transition kind && is_state_changed_error error
              then handle_transition_conflict env context c s
              else failed_operation
        ]

    unfoldable pub finish_operation :
        Environment J
        → Operation J
        → Expected DatabaseError (CommandDatabaseValue J)
        → ℕ
        → CommandService J
        → CommandService J
    unfolding handle_error handle_value
    finish_operation env op (unexpected error) now s = handle_error env op.kind op.context error s
    finish_operation env op (ok value) now s = handle_value env op.kind op.context value now s

    -- Handle(CommandDatabaseResult)
    unfoldable pub handle_command_result :
        Environment J → CommandDatabaseResult J → ℕ → CommandService J → CommandService J
    unfolding finish_operation
    handle_command_result env result now s = elim (find result.operation_id s.operations) [
      | none ↦ noted
      | some op ↦ finish_operation env op result.value now (record noted {
        operations = erase result.operation_id s.operations;
        outstanding_operations =
            if nat_eq s.outstanding_operations 0 then 2 ^ 64 - 1 else s.outstanding_operations - 1;
      })
    ]
      where
        noted : CommandService J
        noted = record s { database_trace = handles result.operation_id ∷ s.database_trace }

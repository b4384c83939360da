-- ===== src/CommandService/Valid/Answers.antt =====
-- core/runtime/command_service.cpp: every answer of the database keeps the tables as they must be.
use cns_server.Base.{
  ℕ, refl, not, ◌&&◌, Option, none, some, Eq, ◌==◌, Expected, ok, unexpected, arith, ℕ_eq,
  string_eq,
}
use cns_server.Base.Map.{find, find-erase, erase-IsUnique}
use cns_server.Database.{
  DatabaseError, CommandDatabaseValue, found, stored, recovered, cleaned, CommandDatabaseResult,
}
use cns_server.Command.{CommandRecord, compare_request}
use cns_server.CommandService.{
  RequestContext, OperationKind, finding, finding_by_id_for_convergence, inserting, transitioning,
  cleaning, Operation, Environment, CommandService, is_state_changed_error,
}
use cns_server.CommandService.Results.{
  is_conflict, is_transition, is_insert, comparison_payload_of, handle_found,
}
use cns_server.CommandService.Stored.{
  is_overtaken, repeat_transition, other_command, handle_stored, handle_value, handle_error,
  finish_operation, handle_command_result,
}
use cns_server.CommandService.Open.{open_operations, keys-erase, without-keys_absent}
use cns_server.CommandService.Valid.{
  if_keeps, option_keeps, Holds, frame-Holds, emit_output-Holds, submit_transition_or_defer-Holds,
  length-erase_once,
}
use cns_server.CommandService.Valid.Results.{
  reject_context-Holds, handle_transition_conflict-Holds, converge_after_conflict-Holds,
  create_for-Holds, repeat_answer-Holds, store_record-Holds,
}

module _ {J : Type 0} ⦃e : Eq J⦄ (env : Environment J) where
  handle_found-Holds :
      (context : RequestContext J) (c : Option (CommandRecord J)) (s : CommandService J)
      → Holds env s
      → Holds env (handle_found env context c s)
  unfolding handle_found
  handle_found-Holds context none s v = create_for-Holds env context _ _ _ s v
  handle_found-Holds context (some c) s v =
      let conflicting = reject_context-Holds env context _ s v in
      option_keeps (Holds env) (comparison_payload_of context.parsed) _ _ (λ _. conflicting)
        (λ payload _.
          if_keeps (Holds env) (is_conflict (compare_request c payload)) _ _ (λ _. conflicting)
            (λ _. repeat_answer-Holds env context c s v))

  handle_stored-Holds :
      (kind : OperationKind) (context : RequestContext J) (c : CommandRecord J) (now : ℕ)
      (s : CommandService J)
      → Holds env s
      → Holds env (handle_stored env kind context c now s)
  unfolding handle_stored other_command repeat_transition
  handle_stored-Holds kind context c now s v =
      let plain = store_record-Holds env kind context c now s v in
      option_keeps (Holds env) context.command _ _ (λ _. plain)
        (λ desired _.
          if_keeps (Holds env) (is_insert kind && not (desired.command_id == c.command_id)) _ _
            (λ _.
              if_keeps (Holds env) (is_conflict (compare_request c desired.request_payload)) _ _
                (λ _. reject_context-Holds env context _ s v)
                (λ _. repeat_answer-Holds env context c s v))
            (λ _.
              if_keeps (Holds env) (is_overtaken kind desired c) _ _
                (λ _. submit_transition_or_defer-Holds env _ _ s v) (λ _. plain)))

  handle_value-Holds :
      (kind : OperationKind) (context : RequestContext J) (value : CommandDatabaseValue J) (now : ℕ)
      (s : CommandService J)
      → Holds env s
      → Holds env (handle_value env kind context value now s)
  unfolding handle_value
  handle_value-Holds cleaning context (cleaned n) now s v = v
  handle_value-Holds cleaning context (found c) now s v = emit_output-Holds env _ s v
  handle_value-Holds cleaning context (stored c) now s v = emit_output-Holds env _ s v
  handle_value-Holds cleaning context (recovered cs) now s v = emit_output-Holds env _ s v
  handle_value-Holds finding_by_id_for_convergence context (found none) now s v =
      emit_output-Holds env _ s v
  handle_value-Holds finding_by_id_for_convergence context (found (some c)) now s v =
      converge_after_conflict-Holds env context c now s v
  handle_value-Holds finding_by_id_for_convergence context (stored c) now s v =
      emit_output-Holds env _ s v
  handle_value-Holds finding_by_id_for_convergence context (recovered cs) now s v =
      emit_output-Holds env _ s v
  handle_value-Holds finding_by_id_for_convergence context (cleaned n) now s v =
      emit_output-Holds env _ s v
  handle_value-Holds finding context (found c) now s v = handle_found-Holds context c s v
  handle_value-Holds finding context (stored c) now s v = emit_output-Holds env _ s v
  handle_value-Holds finding context (recovered cs) now s v = emit_output-Holds env _ s v
  handle_value-Holds finding context (cleaned n) now s v = emit_output-Holds env _ s v
  handle_value-Holds inserting context (stored c) now s v =
      handle_stored-Holds inserting context c now s v
  handle_value-Holds inserting context (found c) now s v = emit_output-Holds env _ s v
  handle_value-Holds inserting context (recovered cs) now s v = emit_output-Holds env _ s v
  handle_value-Holds inserting context (cleaned n) now s v = emit_output-Holds env _ s v
  handle_value-Holds transitioning context (stored c) now s v =
      handle_stored-Holds transitioning context c now s v
  handle_value-Holds transitioning context (found c) now s v = emit_output-Holds env _ s v
  handle_value-Holds transitioning context (recovered cs) now s v = emit_output-Holds env _ s v
  handle_value-Holds transitioning context (cleaned n) now s v = emit_output-Holds env _ s v

  handle_error-Holds :
      (kind : OperationKind) (context : RequestContext J) (error : DatabaseError)
      (s : CommandService J)
      → Holds env s
      → Holds env (handle_error env kind context error s)
  unfolding handle_error
  handle_error-Holds kind context error s v =
      let failed_operation = emit_output-Holds env _ _ (
        frame-Holds env
          (record {
            outstanding = refl;
            next = refl;
            operations = refl;
            completed = refl;
            active = refl;
            trace = refl;
          })
          v) in
      option_keeps (Holds env) context.command _ _ (λ _. failed_operation)
        (λ c _.
          if_keeps (Holds env) (is_transition kind && is_state_changed_error error) _ _
            (λ _. handle_transition_conflict-Holds env context c s v) (λ _. failed_operation))

  finish_operation-Holds :
      (op : Operation J) (value : Expected DatabaseError (CommandDatabaseValue J)) (now : ℕ)
      (s : CommandService J)
      → Holds env s
      → Holds env (finish_operation env op value now s)
  unfolding finish_operation
  finish_operation-Holds op (unexpected error) now s v =
      handle_error-Holds op.kind op.context error s v
  finish_operation-Holds op (ok value) now s v = handle_value-Holds op.kind op.context value now s v

  pub handle_command_result-Holds :
      (result : CommandDatabaseResult J) (now : ℕ) (s : CommandService J)
      → Holds env s
      → Holds env (handle_command_result env result now s)
  unfolding handle_command_result open_operations
  handle_command_result-Holds result now s v =
      option_keeps (Holds env) (find result.operation_id s.operations) _ _
        (λ p. record {
          outstanding = v.outstanding;
          fresh = v.fresh;
          unique = v.unique;
          kept = ground (arith, v.kept, without-keys_absent result.operation_id s.operations);
          remembered = v.remembered;
          active = v.active;
        })
        (λ op p. finish_operation-Holds op result.value now _ (record {
          outstanding = ground (
            arith,
            v.outstanding,
            length-erase_once result.operation_id op s.operations v.unique p,
          );
          fresh =
              λ id le. ground (arith, v.fresh id, find-erase result.operation_id id s.operations);
          unique = erase-IsUnique result.operation_id s.operations v.unique;
          kept = ground (arith, v.kept, keys-erase result.operation_id s.operations);
          remembered = v.remembered;
          active = v.active;
        }))

-- ===== src/CommandService/Valid/Results.antt =====
-- core/runtime/command_service.cpp: the answers of the database keep the tables as they must be.
use cns_server.Base.{
  ℕ, ◌≡◌, refl, String, false, ◌&&◌, ◌||◌, Option, none, some, ◌==◌, is_some, arith, ℕ_eq,
  string_eq,
}
use cns_server.Base.Map.{find, contains}
use cns_server.Database.{find_command_by_id}
use cns_server.Command.{
  CommandRecord, is_terminal, can_transition, command_status_eq, dispatched, ProtocolError,
}
use cns_server.Command.Router.{CommandSource}
use cns_server.CommandService.{
  RequestContext, OperationKind, finding_by_id_for_convergence, Environment, CommandService,
  target_for, submit_operation, activate,
}
use cns_server.CommandService.Results.{
  is_transition, reject_context, handle_transition_conflict, converge, converge_after_conflict,
  create_command, create_for, repeat_answer,
}
use cns_server.CommandService.Stored.{
  is_ack_persisted, report_routed, report_answered, take_early_ack, keep_running, settle_record,
  store_record,
}
use cns_server.CommandService.Valid.{
  if_keeps, option_keeps, Holds, frame-Holds, emit_output-Holds, submit_operation-Holds,
  submit_transition_or_defer-Holds, publish_ack-Holds, retire-Holds, activate-Holds,
}
use cns_server.CommandService.Valid.Publish.{publish_record-Holds}
use cns_server.CommandService.Valid.Acks.{handle_device_ack-Holds}

module _ {J : Type 0} (env : Environment J) where
  pub reject_context-Holds :
      (context : RequestContext J) (e : ProtocolError) (s : CommandService J)
      → Holds env s
      → Holds env (reject_context context e s)
  unfolding reject_context
  reject_context-Holds context e s v = emit_output-Holds env _ s v

  pub handle_transition_conflict-Holds :
      (context : RequestContext J) (c : CommandRecord J) (s : CommandService J)
      → Holds env s
      → Holds env (handle_transition_conflict env context c s)
  unfolding handle_transition_conflict
  handle_transition_conflict-Holds context c s v =
      let submitted =
        submit_operation env finding_by_id_for_convergence context (find_command_by_id c.command_id)
          s in
      let w = submit_operation-Holds env _ _ _ s v in
      if_keeps (Holds env) submitted.1 _ _ (λ _. w)
        (λ _. emit_output-Holds env _ _ (
          frame-Holds env
            (record {
              outstanding = refl;
              next = refl;
              operations = refl;
              completed = refl;
              active = refl;
              trace = refl;
            })
            w))

  converge-Holds :
      (before : RequestContext J) (desired current : CommandRecord J) (now : ℕ)
      (s : CommandService J)
      → Holds env s
      → Holds env (converge env before desired current now s)
  unfolding converge
  converge-Holds before desired current now s v =
      let context = record before { command = some current; target = target_for env current } in
      let retired = retire-Holds env context current now s v in
      let repeated = submit_transition_or_defer-Holds env _ _ s v in
      if_keeps (Holds env) (is_terminal current.status) _ _
        (λ _.
          if_keeps (Holds env) (contains current.command_id s.active_commands) _ _
            (λ _. publish_ack-Holds env context _ retired) (λ _. retired))
        (λ e.
          let activated =
            activate-Holds env context current.command_id s
              (record { command = current; present = refl; keyed = refl; running = e }) v in
          if_keeps (Holds env) (current.status == desired.status) _ _ (λ _. activated)
            (λ _.
              if_keeps (Holds env) (can_transition current.status desired.status) _ _
                (λ _. repeated) (λ _. activated)))

  pub converge_after_conflict-Holds :
      (context : RequestContext J) (current : CommandRecord J) (now : ℕ) (s : CommandService J)
      → Holds env s
      → Holds env (converge_after_conflict env context current now s)
  unfolding converge_after_conflict
  converge_after_conflict-Holds context current now s v =
      option_keeps (Holds env) context.command s _ (λ _. v)
        (λ desired _. converge-Holds context desired current now s v)

  pub create_for-Holds :
      (context : RequestContext J) (source : Option CommandSource) (id : Option String)
      (payload : Option J) (s : CommandService J)
      → Holds env s
      → Holds env (create_for env context source id payload s)
  unfolding create_for create_command
  create_for-Holds context (some source) (some id) (some payload) s v =
      submit_operation-Holds env _ _ _ _ (
        frame-Holds env
          (record {
            outstanding = refl;
            next = refl;
            operations = refl;
            completed = refl;
            active = refl;
            trace = refl;
          })
          v)
  create_for-Holds context none id payload s v = v
  create_for-Holds context (some source) none payload s v = v
  create_for-Holds context (some source) (some id) none s v = v

  pub repeat_answer-Holds :
      (context : RequestContext J) (c : CommandRecord J) (s : CommandService J)
      → Holds env s
      → Holds env (repeat_answer env context c s)
  unfolding repeat_answer
  repeat_answer-Holds context c s v =
      publish_ack-Holds env (record context { command = some c; target = target_for env c }) s v

  report_routed-Holds :
      (kind : OperationKind) (requested : Option (CommandRecord J)) (context : RequestContext J)
      (c : CommandRecord J) (s : CommandService J)
      → Holds env s
      → Holds env (report_routed kind requested context c s)
  unfolding report_routed
  report_routed-Holds kind requested context c s v =
      option_keeps (Holds env) requested s _ (λ _. v)
        (λ before _.
          if_keeps (Holds env)
            (is_transition kind
              && (before.status == dispatched)
              && (c.status == dispatched)
              && is_some context.target)
            _ _ (λ _. emit_output-Holds env _ s v) (λ _. v))

  -- The report of an answer keeps the record of its context.
  Reported : CommandRecord J → RequestContext J × CommandService J → Type 0
  Reported c p = (p.0.command ≡ some c) × Holds env p.1

  report_answered-Reported :
      (context : RequestContext J) (c : CommandRecord J) (s : CommandService J)
      → context.command ≡ some c
      → Holds env s
      → Reported c (report_answered context c s)
  unfolding report_answered Reported
  report_answered-Reported context c s e v =
      option_keeps (Reported c) context.device_ack_business_status _ _ (λ _. (e, v))
        (λ status _.
          if_keeps (Reported c) (is_ack_persisted c.status status && is_some context.target) _ _
            (λ _. (e, emit_output-Holds env _ s v)) (λ _. (e, v)))

  keep_running-Holds :
      (context : RequestContext J) (c : CommandRecord J) (s : CommandService J)
      → context.command ≡ some c
      → is_terminal c.status ≡ false
      → Holds env s
      → Holds env (keep_running env context c s)
  unfolding keep_running take_early_ack
  keep_running-Holds context c s e r v =
      let w =
        activate-Holds env context c.command_id s
          (record { command = c; present = e; keyed = refl; running = r }) v in
      let t = activate context c.command_id s in
      if_keeps (Holds env) (c.status == dispatched) _ _
        (λ _.
          option_keeps (Holds env) (find c.command_id t.early_device_acks) t _ (λ _. w)
            (λ early _.
              handle_device_ack-Holds env early.device_id context.command_type (some early.ack)
                early.received_at _
                (frame-Holds env
                  (record {
                    outstanding = refl;
                    next = refl;
                    operations = refl;
                    completed = refl;
                    active = refl;
                    trace = refl;
                  })
                  w)))
        (λ _. w)

  settle_record-Holds :
      (kind : OperationKind) (requested : Option (CommandRecord J)) (context : RequestContext J)
      (c : CommandRecord J) (now : ℕ) (s : CommandService J)
      → context.command ≡ some c
      → Holds env s
      → Holds env (settle_record env kind requested context c now s)
  unfolding settle_record Reported
  settle_record-Holds kind requested context c now s e v =
      let (e', w) =
        report_answered-Reported context c _ e
          (report_routed-Holds kind requested context c _ (publish_ack-Holds env context s v)) in
      if_keeps (Holds env) (is_terminal c.status) _ _ (λ _. retire-Holds env _ c now _ w)
        (λ r. keep_running-Holds _ c _ e' r w)

  pub store_record-Holds :
      (kind : OperationKind) (before : RequestContext J) (c : CommandRecord J) (now : ℕ)
      (s : CommandService J)
      → Holds env s
      → Holds env (store_record env kind before c now s)
  unfolding store_record
  store_record-Holds kind before c now s v =
      let context = record before { command = some c } in
      if_keeps (Holds env) (is_transition kind || is_terminal c.status) _ _
        (λ _. settle_record-Holds kind before.command context c now s refl v)
        (λ e. publish_record-Holds env context now _ (
          activate-Holds env context c.command_id s
            (record { command = c; present = refl; keyed = refl; running = ground (arith, e) }) v))

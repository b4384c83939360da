-- ===== src/CommandService/Valid/Runs.antt =====
-- core/runtime/command_service.cpp: over any run of the service, what its tables hold.
use cns_server.Base.{
  ◌≤◌, ◌≡◌, refl, String, true, false, List, [], ◌∷◌, some, Eq, ltb, length, arith, string_eq,
}
use cns_server.Base.Map.{find}
use cns_server.Command.{
  SourceKind, CommandRecord, CommandStatus, in_progress, failed, timeout, is_terminal,
  can_transition, command_status_eq, pending, dispatched, succeeded, delivery_uncertain,
}
use cns_server.CommandService.{SourceRequest, RequestContext, Environment, CommandService}
use cns_server.CommandService.Cycle.{
  push_command_message, push_command_result, push_publish_completion, close_commands,
  cancel_outstanding_work, set_database_available, set_mqtt_available, on_target_online,
  load_active,
}
use cns_server.CommandService.Runs.{
  CommandEvent, receives, answers, completes, processes_commands, comes_online, sets_database,
  sets_mqtt, closes_commands, cancels_commands, loads, with_devices, command_step, run_commands,
  new_command_service,
}
use cns_server.CommandService.Open.{open_operations, keys, length-keys}
use cns_server.CommandService.Valid.{if_keeps, Holds, frame-Holds, emit_output-Holds}
use cns_server.CommandService.Valid.Recovery.{process_timeouts_and_recovery-Holds}
use cns_server.CommandService.Valid.Cycle.{load_each-Holds, process_commands-Holds}

module _ {J : Type 0} ⦃e : Eq J⦄ (env : Environment J)
    (parse : SourceKind → CommandRecord J → SourceRequest J) where
  command_step-Holds :
      (x : CommandEvent J) (s : CommandService J)
      → Holds env s
      → Holds env (command_step env parse x s)
  unfolding command_step push_command_message push_command_result push_publish_completion
      on_target_online set_database_available set_mqtt_available close_commands
      cancel_outstanding_work load_active find open_operations keys
  command_step-Holds (receives m) s v =
      frame-Holds env
        (record {
          outstanding = ground arith;
          next = ground arith;
          operations = ground arith;
          completed = ground arith;
          active = ground arith;
          trace = ground arith;
        })
        v
  command_step-Holds (answers r) s v =
      frame-Holds env
        (record {
          outstanding = ground arith;
          next = ground arith;
          operations = ground arith;
          completed = ground arith;
          active = ground arith;
          trace = ground arith;
        })
        v
  command_step-Holds (completes token result) s v =
      frame-Holds env
        (record {
          outstanding = ground arith;
          next = ground arith;
          operations = ground arith;
          completed = ground arith;
          active = ground arith;
          trace = ground arith;
        })
        v
  command_step-Holds (processes_commands devices now) s v =
      process_commands-Holds (with_devices env devices) now s v
  command_step-Holds (comes_online devices id now) s v =
      process_timeouts_and_recovery-Holds (with_devices env devices) now _ (
        frame-Holds env
          (record {
            outstanding = refl;
            next = refl;
            operations = refl;
            completed = refl;
            active = refl;
            trace = refl;
          })
          v)
  command_step-Holds (sets_database available) s v =
      frame-Holds env
        (record {
          outstanding = refl;
          next = refl;
          operations = refl;
          completed = refl;
          active = refl;
          trace = refl;
        })
        v
  command_step-Holds (sets_mqtt available) s v =
      frame-Holds env
        (record {
          outstanding = refl;
          next = refl;
          operations = refl;
          completed = refl;
          active = refl;
          trace = refl;
        })
        v
  command_step-Holds closes_commands s v =
      frame-Holds env
        (record {
          outstanding = refl;
          next = refl;
          operations = refl;
          completed = refl;
          active = refl;
          trace = refl;
        })
        v
  command_step-Holds cancels_commands s v = record {
    outstanding = refl;
    fresh = λ id le. refl;
    unique = tt;
    kept = refl;
    remembered = omega arith;
    active = v.active;
  }
  command_step-Holds (loads devices commands) s v =
      if_keeps (Holds env) (ltb env.max_inflight_commands (length commands)) _ _
        (λ _. emit_output-Holds env _ s v)
        (λ _. load_each-Holds (with_devices env devices) parse commands s v)

  run_commands-Holds :
      (xs : List (CommandEvent J)) (s : CommandService J)
      → Holds env s
      → Holds env (run_commands env parse xs s)
  unfolding run_commands
  run_commands-Holds [] s v = v
  run_commands-Holds (x ∷ xs) s v =
      run_commands-Holds xs (command_step env parse x s) (command_step-Holds x s v)

  module _ (xs : List (CommandEvent J)) where
    -- The service after the events.
    unfoldable pub commands_after : CommandService J
    commands_after = run_commands env parse xs new_command_service

    commands_after-Holds : Holds env commands_after
    unfolding commands_after new_command_service find open_operations keys
    commands_after-Holds = run_commands-Holds xs new_command_service (record {
      outstanding = refl;
      fresh = λ id le. refl;
      unique = tt;
      kept = refl;
      remembered = omega arith;
      active = λ id context p. absurd (ground (arith, p));
    })

    -- After any sequence of messages, answers of the database, ends of publications, passes and
    -- requests of other threads: the counter that the shutdown waits on is the number of
    -- operations that the database accepted since the work was last given up and whose answer no
    -- pass has handled, be it that it has not come, that it waits for a pass, or that it was dropped
    -- because the service was closed.
    pub run_commands_outstanding :
        commands_after.outstanding_operations
        ≡ length (open_operations commands_after.database_trace)
    run_commands_outstanding = ground (
      arith,
      commands_after-Holds.outstanding,
      commands_after-Holds.kept,
      length-keys commands_after.operations,
    )

    -- After any sequence of messages, answers of the database, ends of publications, passes and
    -- requests of other threads: no more finished commands are remembered than the limit on
    -- commands, to which the loop that evicts the oldest ones brings them back.
    pub run_commands_remembered :
        length commands_after.completed_commands ≤ env.max_inflight_commands
    run_commands_remembered = commands_after-Holds.remembered

    -- After any sequence of messages, answers of the database, ends of publications, passes and
    -- requests of other threads: an active command has its record, under the record's own id and in
    -- a status that is not final, from which it may fail and may time out.
    pub run_commands_active :
        (id : String) (context : RequestContext J)
        → find id commands_after.active_commands ≡ some context
        → (c : CommandRecord J) × (context.command ≡ some c)
          × (c.command_id ≡ id)
          × (is_terminal c.status ≡ false)
          × (can_transition c.status failed ≡ true)
          × (can_transition c.status timeout ≡ true)
    unfolding is_terminal can_transition
    run_commands_active id context p =
        let r = commands_after-Holds.active id context p in
        let (f, t) = may_end r.command.status r.running in
        (r.command, r.present, r.keyed, r.running, f, t)
      where
        may_end :
            (status : CommandStatus)
            → is_terminal status ≡ false
            → (can_transition status failed ≡ true) × (can_transition status timeout ≡ true)
        may_end pending h = (refl, refl)
        may_end dispatched h = (refl, refl)
        may_end in_progress h = (refl, refl)
        may_end succeeded h = ground arith
        may_end failed h = ground arith
        may_end timeout h = ground arith
        may_end delivery_uncertain h = ground arith

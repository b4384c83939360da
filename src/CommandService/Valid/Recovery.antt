-- ===== src/CommandService/Valid/Recovery.antt =====
-- core/runtime/command_service.cpp: timeouts and recovery keep the tables as they must be.
use cns_server.Base.{ℕ, ◌+◌, refl, String, not, ◌&&◌, [], ◌∷◌, some, leb, string_eq}
use cns_server.Base.Map.{Map, find, contains}
use cns_server.Command.{CommandRecord, command_status_eq}
use cns_server.CommandService.{RequestContext, Environment, CommandService}
use cns_server.CommandService.Recovery.{
  is_config, has_cleanup, begin_cleanup, clean_up, time_out, is_target_online, check_command,
  check_id, check_ids, process_timeouts_and_recovery,
}
use cns_server.CommandService.Valid.{
  if_keeps, option_keeps, Holds, frame-Holds, submit_operation-Holds,
  submit_transition_or_defer-Holds,
}
use cns_server.CommandService.Valid.Publish.{publish_record-Holds}

module _ {J : Type 0} (env : Environment J) where
  begin_cleanup-Holds :
      (now : ℕ) (s : CommandService J) → Holds env s → Holds env (begin_cleanup env now s)
  unfolding begin_cleanup
  begin_cleanup-Holds now s v = submit_operation-Holds env _ _ _ s v

  clean_up-Holds : (now : ℕ) (s : CommandService J) → Holds env s → Holds env (clean_up env now s)
  unfolding clean_up
  clean_up-Holds now s v =
      option_keeps (Holds env) s.next_cleanup_at _ _ (λ _. later s v)
        (λ at _.
          if_keeps (Holds env) (leb at now) _ _
            (λ _.
              if_keeps (Holds env) (not (has_cleanup s.operations) && s.database_available) _ _
                (λ _. later (begin_cleanup env now s) (begin_cleanup-Holds now s v))
                (λ _. later s v))
            (λ _. v))
    where
      later :
          (t : CommandService J)
          → Holds env t
          → Holds env (record t { next_cleanup_at = some (now + env.cleanup_interval) })
      later t = frame-Holds env (record {
        outstanding = refl;
        next = refl;
        operations = refl;
        completed = refl;
        active = refl;
        trace = refl;
      })

  check_command-Holds :
      (id : String) (context : RequestContext J) (c : CommandRecord J) (now : ℕ)
      (s : CommandService J)
      → Holds env s
      → Holds env (check_command env id context c now s)
  unfolding check_command time_out
  check_command-Holds id context c now s v =
      let w =
        frame-Holds env
          (record {
            outstanding = refl;
            next = refl;
            operations = refl;
            completed = refl;
            active = refl;
            trace = refl;
          })
          v in
      if_keeps (Holds env) (leb context.deadline now) _ _
        (λ _.
          if_keeps (Holds env) (contains id s.recovery_started) _ _ (λ _. v)
            (λ _. submit_transition_or_defer-Holds env _ _ _ w))
        (λ _.
          if_keeps (Holds env)
            (is_config context.command_type
              && s.is_mqtt_available
              && not (contains id s.recovery_started)
              && is_target_online env c)
            _ _ (λ _. publish_record-Holds env context now _ w) (λ _. v))

  check_ids-Holds :
      (m : Map String (RequestContext J)) (now : ℕ) (s : CommandService J)
      → Holds env s
      → Holds env (check_ids env m now s)
  unfolding check_ids check_id
  check_ids-Holds [] now s v = v
  check_ids-Holds ((id, unused) ∷ rest) now s v = check_ids-Holds rest now (check_id env id now s) (
      option_keeps (Holds env) (find id s.active_commands) s _ (λ _. v)
        (λ context _.
          option_keeps (Holds env) context.command s _ (λ _. v)
            (λ c _. check_command-Holds id context c now s v)))

  pub process_timeouts_and_recovery-Holds :
      (now : ℕ) (s : CommandService J)
      → Holds env s
      → Holds env (process_timeouts_and_recovery env now s)
  unfolding process_timeouts_and_recovery
  process_timeouts_and_recovery-Holds now s v =
      check_ids-Holds (clean_up env now s).active_commands now _ (clean_up-Holds now s v)

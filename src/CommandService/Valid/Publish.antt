-- ===== src/CommandService/Valid/Publish.antt =====
-- core/runtime/command_service.cpp: publications keep the tables as they must be.
use cns_server.Base.{ℕ, refl, String, Bool, ℕ_eq, string_eq}
use cns_server.Base.Map.{find}
use cns_server.Command.{CommandRecord, command_status_eq, dispatched}
use cns_server.CommandService.{RequestContext, Environment, CommandService}
use cns_server.CommandService.Publish.{
  is_request, fail_publication, publish_to, publish_record, complete_publication,
  handle_publish_completion,
}
use cns_server.CommandService.Valid.{
  if_keeps, option_keeps, Holds, frame-Holds, submit_transition_or_defer-Holds,
}

module _ {J : Type 0} (env : Environment J) where
  fail_publication-Holds :
      (context : RequestContext J) (c : CommandRecord J) (now : ℕ) (s : CommandService J)
      → Holds env s
      → Holds env (fail_publication env context c now s)
  unfolding fail_publication
  fail_publication-Holds context c now s v = submit_transition_or_defer-Holds env _ _ s v

  publish_to-Holds :
      (context : RequestContext J) (c : CommandRecord J) (device_id : String) (now : ℕ)
      (s : CommandService J)
      → Holds env s
      → Holds env (publish_to env context c device_id now s)
  unfolding publish_to
  publish_to-Holds context c device_id now s v =
      if_keeps (Holds env)
        (env.publish_to_device s.port_calls s.next_publish_token device_id context) _ _
        (λ _.
          frame-Holds env
            (record {
              outstanding = refl;
              next = refl;
              operations = refl;
              completed = refl;
              active = refl;
              trace = refl;
            })
            v)
        (λ _. fail_publication-Holds context c now _ (
          frame-Holds env
            (record {
              outstanding = refl;
              next = refl;
              operations = refl;
              completed = refl;
              active = refl;
              trace = refl;
            })
            v))

  pub publish_record-Holds :
      (context : RequestContext J) (now : ℕ) (s : CommandService J)
      → Holds env s
      → Holds env (publish_record env context now s)
  unfolding publish_record
  publish_record-Holds context now s v =
      option_keeps (Holds env) context.command s _ (λ _. v)
        (λ c _.
          option_keeps (Holds env) c.target_device_id s _ (λ _. v)
            (λ device_id _.
              if_keeps (Holds env) s.is_mqtt_available _ _
                (λ _.
                  if_keeps (Holds env) (is_request context.parsed) _ _
                    (λ _. publish_to-Holds context c device_id now s v) (λ _. v))
                (λ _. v)))

  complete_publication-Holds :
      (context : RequestContext J) (c : CommandRecord J) (result : Bool) (now : ℕ)
      (s : CommandService J)
      → Holds env s
      → Holds env (complete_publication env context c result now s)
  unfolding complete_publication
  complete_publication-Holds context c result now s v =
      let w = submit_transition_or_defer-Holds env _ _ s v in
      if_keeps (Holds env) result _ _
        (λ _.
          if_keeps (Holds env) (command_status_eq.beq c.status dispatched) _ _ (λ _. v) (λ _. w))
        (λ _. w)

  pub handle_publish_completion-Holds :
      (token : ℕ) (result : Bool) (now : ℕ) (s : CommandService J)
      → Holds env s
      → Holds env (handle_publish_completion env token result now s)
  unfolding handle_publish_completion
  handle_publish_completion-Holds token result now s v =
      option_keeps (Holds env) (find token s.publications) s _ (λ _. v)
        (λ context _.
          let w =
            frame-Holds env
              (record {
                outstanding = refl;
                next = refl;
                operations = refl;
                completed = refl;
                active = refl;
                trace = refl;
              })
              v in
          option_keeps (Holds env) context.command _ _ (λ _. w)
            (λ c _. complete_publication-Holds context c result now _ w))

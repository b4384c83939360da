-- ===== src/CommandService/Timeouts.antt =====
-- core/runtime/command_service.cpp: the timeout of a command that was published.
use cns_server.Base.{
  ℕ, ◌≡◌, refl, String, true, not, ◌&&◌, leb, is_some, arith, string_eq, eq_refl, if_true,
}
use cns_server.Base.Map.{find, insert, contains, find-insert}
use cns_server.Command.{CommandRecord}
use cns_server.CommandService.{RequestContext, Environment, CommandService}
use cns_server.CommandService.Publish.{publish_to}
use cns_server.CommandService.Recovery.{is_config, is_target_online, check_command, check_id}
use cns_server.CommandService.Valid.{if_keeps, option_keeps}

module _ {J : Type 0} (env : Environment J) where
  check_command-started :
      (id : String) (context : RequestContext J) (c : CommandRecord J) (now : ℕ)
      (s : CommandService J)
      → contains id s.recovery_started ≡ true
      → check_command env id context c now s ≡ s
  unfolding check_command
  check_command-started id context c now s h =
      if_keeps (λ t. t ≡ s) (leb context.deadline now) _ _ (λ _. if_true s _ h)
        (λ _.
          if_keeps (λ t. t ≡ s)
            (is_config context.command_type
              && s.is_mqtt_available
              && not (contains id s.recovery_started)
              && is_target_online env c)
            _ s (λ b. absurd (ground (arith, h, b))) (λ _. refl))

  pub check_id-started :
      (id : String) (now : ℕ) (s : CommandService J)
      → contains id s.recovery_started ≡ true
      → check_id env id now s ≡ s
  unfolding check_id
  check_id-started id now s h =
      option_keeps (λ t. t ≡ s) (find id s.active_commands) s _ (λ _. refl)
        (λ context _.
          option_keeps (λ t. t ≡ s) context.command s _ (λ _. refl)
            (λ c _. check_command-started id context c now s h))

module _ {J : Type 0} (env : Environment J) where
  -- When the publisher of its device has accepted a command, the command is on the list of started
  -- recoveries; and in every state with the command on that list, under any environment, the
  -- check for timeouts and recovery does nothing about it, at any time and whatever its deadline.
  pub publish_to-check_id :
      (context : RequestContext J) (c : CommandRecord J) (device_id : String) (now : ℕ)
      (s : CommandService J) (env' : Environment J) (later : ℕ) (t : CommandService J)
      → env.publish_to_device s.port_calls s.next_publish_token device_id context ≡ true
      → contains c.command_id t.recovery_started ≡ true
      → (contains c.command_id (publish_to env context c device_id now s).recovery_started ≡ true)
        × (check_id env' c.command_id later t ≡ t)
  unfolding publish_to contains
  publish_to-check_id context c device_id now s env' later t p h = (
    if_keeps (λ (t : CommandService J). contains c.command_id t.recovery_started ≡ true)
        (env.publish_to_device s.port_calls s.next_publish_token device_id context) _ _
        (λ _. started) (λ q. absurd (ground (arith, p, q))),
    check_id-started env' c.command_id later t h,
  )
    where
      started : is_some (find c.command_id (insert c.command_id tt s.recovery_started)) ≡ true
      started =
          ground (
            arith,
            find-insert c.command_id c.command_id tt s.recovery_started,
            eq_refl c.command_id,
          )

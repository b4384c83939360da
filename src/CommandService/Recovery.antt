-- ===== src/CommandService/Recovery.antt =====
-- core/runtime/command_service.cpp: timeouts, the recovery of commands, and the cleanup.
use cns_server.Base.{
  ℕ, ◌+◌, ◌-◌, String, Bool, true, false, not, ◌&&◌, ◌||◌, [], ◌∷◌, none, some, leb, if◌then◌else◌,
  string_eq, option_eq,
}
use cns_server.Base.Map.{Map, find, insert, contains}
use cns_server.Registry.{find_device}
use cns_server.Database.{cleanup_commands}
use cns_server.Command.{CommandType, config, control, timeout, CommandRecord, command_status_eq}
use cns_server.CommandService.{
  rejected_request, RequestContext, cleaning, Operation, OperationKind, Environment, CommandService,
  submit_operation, submit_transition_or_defer,
}
use cns_server.CommandService.Publish.{by_type, empty_update, publish_record}
use cns_server.CommandService.Results.{is_online_device, protocol_error}

abbrev pub is_config : CommandType → Bool
is_config config = true
is_config control = false

abbrev is_cleaning : OperationKind → Bool
is_cleaning cleaning = true
is_cleaning _ = false

module _ {J : Type 0} where
  unfoldable pub has_cleanup : Map ℕ (Operation J) → Bool
  has_cleanup [] = false
  has_cleanup ((id, op) ∷ rest) = is_cleaning op.kind || has_cleanup rest

  -- The submission of a cleanup.
  unfoldable pub begin_cleanup : Environment J → ℕ → CommandService J → CommandService J
  unfolding submit_operation
  begin_cleanup env now s =
      (submit_operation env cleaning
        (record {
          source_id = "";
          source = none;
          parsed = rejected_request none none (protocol_error "cleanup" "终态清理");
          command_type = config;
          received_at = now;
          deadline = now;
          target = none;
          command = none;
          device_ack_business_status = none;
        })
        (cleanup_commands (now - env.terminal_retention) env.cleanup_batch_size) s).0

  -- The first block of ProcessTimeoutsAndRecovery.
  unfoldable pub clean_up : Environment J → ℕ → CommandService J → CommandService J
  unfolding has_cleanup begin_cleanup
  clean_up env now s =
      let later : CommandService J → CommandService J =
        λ t. record t { next_cleanup_at = some (now + env.cleanup_interval) } in
      elim s.next_cleanup_at [
        | none ↦ later s
        | some at ↦
            if leb at now
            then if not (has_cleanup s.operations) && s.database_available
              then later (begin_cleanup env now s)
              else later s
            else s
      ]

  unfoldable pub time_out :
      Environment J
      → String
      → RequestContext J
      → CommandRecord J
      → ℕ
      → CommandService J
      → CommandService J
  unfolding submit_transition_or_defer
  time_out env id context c now s =
      let code = some (by_type context.command_type "command_timeout" "control_timeout") in
      let message = some (by_type context.command_type "设备配置命令超时" "设备飞控命令超时") in
      submit_transition_or_defer env
        (record context {
          command = some (record c {
            status = timeout;
            error_code = code;
            error_message = message;
            updated_at = now;
            completed_at = some now;
          });
        })
        (record {
          command_id = id;
          expected = c.status;
          desired = timeout;
          update = record (empty_update now) {
            error_code = code;
            error_message = message;
            dispatched_at = c.dispatched_at;
            completed_at = some now;
          };
        })
        (record s { recovery_started = insert id tt s.recovery_started })

  unfoldable pub is_target_online : Environment J → CommandRecord J → Bool
  is_target_online env c = elim c.target_device_id [
    | none ↦ false
    | some device_id ↦ is_online_device (find_device env.devices device_id)
  ]

  -- One round of the loop over the active commands.
  unfoldable pub check_command :
      Environment J
      → String
      → RequestContext J
      → CommandRecord J
      → ℕ
      → CommandService J
      → CommandService J
  unfolding time_out is_target_online publish_record
  check_command env id context c now s =
      let timed_out = time_out env id context c now s in
      let published =
        publish_record env context now
          (record s { recovery_started = insert id tt s.recovery_started }) in
      if leb context.deadline now
      then if contains id s.recovery_started then s else timed_out
      else if is_config context.command_type
          && s.is_mqtt_available
          && not (contains id s.recovery_started)
          && is_target_online env c
      then published
      else s

  unfoldable pub check_id : Environment J → String → ℕ → CommandService J → CommandService J
  unfolding check_command
  check_id env id now s = elim (find id s.active_commands) [
    | none ↦ s
    | some context ↦ elim context.command [
      | none ↦ s
      | some c ↦ check_command env id context c now s
    ]
  ]

  -- The loop, over the ids taken at its beginning.
  unfoldable pub check_ids :
      Environment J → Map String (RequestContext J) → ℕ → CommandService J → CommandService J
  unfolding check_id
  check_ids env [] now s = s
  check_ids env ((id, context) ∷ rest) now s = check_ids env rest now (check_id env id now s)

  -- ProcessTimeoutsAndRecovery
  unfoldable pub process_timeouts_and_recovery :
      Environment J → ℕ → CommandService J → CommandService J
  unfolding clean_up check_ids
  process_timeouts_and_recovery env now s =
      let t = clean_up env now s in check_ids env t.active_commands now t

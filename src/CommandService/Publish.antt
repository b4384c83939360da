-- ===== src/CommandService/Publish.antt =====
-- core/runtime/command_service.cpp: the publication of a command to its device, and the end of it.
use cns_server.Base.{ℕ, ◌+◌, String, Bool, true, false, none, some, if◌then◌else◌, ℕ_eq, string_eq}
use cns_server.Base.Map.{find, insert, erase}
use cns_server.Command.{
  CommandType, config, control, CommandStatus, dispatched, failed, delivery_uncertain,
  CommandRecord, CommandUpdate, command_status_eq,
}
use cns_server.CommandService.{
  SourceRequest, config_request, control_request, rejected_request, RequestContext, Environment,
  CommandService, submit_transition_or_defer,
}

abbrev pub by_type : {A : Type 0} → CommandType → A → A → A
by_type config a b = a
by_type control a b = b

-- The status that a completion asks for.
unfoldable pub completion_status : CommandType → Bool → CommandStatus
completion_status type true = dispatched
completion_status type false = by_type type failed delivery_uncertain

module _ {J : Type 0} where
  abbrev pub is_request : SourceRequest J → Bool
  is_request (config_request r) = true
  is_request (control_request r) = true
  is_request (rejected_request id payload e) = false

  abbrev pub empty_update : ℕ → CommandUpdate J
  empty_update now = record {
    error_code = none;
    error_message = none;
    device_ack = none;
    dispatched_at = none;
    completed_at = none;
    updated_at = now;
  }

  -- The branch of a publisher that refuses.
  unfoldable pub fail_publication :
      Environment J → RequestContext J → CommandRecord J → ℕ → CommandService J → CommandService J
  unfolding submit_transition_or_defer
  fail_publication env context c now s =
      let code = some "mqtt_publish_failed" in
      let message = some (by_type context.command_type "设备配置命令发布失败" "设备飞控命令发布失败") in
      submit_transition_or_defer env
        (record context {
          command = some (record c {
            status = failed;
            error_code = code;
            error_message = message;
            updated_at = now;
            completed_at = some now;
          });
        })
        (record {
          command_id = c.command_id;
          expected = c.status;
          desired = failed;
          update = record (empty_update now) {
            error_code = code;
            error_message = message;
            completed_at = some now;
          };
        })
        s

  unfoldable pub publish_to :
      Environment J
      → RequestContext J
      → CommandRecord J
      → String
      → ℕ
      → CommandService J
      → CommandService J
  unfolding fail_publication
  publish_to env context c device_id now s =
      let token = s.next_publish_token in
      let started = record s {
        recovery_started = insert c.command_id tt s.recovery_started;
        next_publish_token = token + 1;
        publications = insert token context s.publications;
        port_calls = s.port_calls + 1;
      } in
      if env.publish_to_device s.port_calls token device_id context
      then started
      else fail_publication env context c now
          (record started { publications = erase token started.publications })

  -- PublishRecord
  unfoldable pub publish_record :
      Environment J → RequestContext J → ℕ → CommandService J → CommandService J
  unfolding publish_to
  publish_record env context now s = elim context.command [
    | none ↦ s
    | some c ↦ elim c.target_device_id [
      | none ↦ s
      | some device_id ↦
          if s.is_mqtt_available
          then if is_request context.parsed then publish_to env context c device_id now s else s
          else s
    ]
  ]

  unfoldable pub completed_update : CommandType → Bool → ℕ → CommandUpdate J
  completed_update type true now = record (empty_update now) { dispatched_at = some now }
  completed_update type false now = record (empty_update now) {
    error_code = some (by_type type "mqtt_publish_failed" "control_delivery_uncertain");
    error_message = some (by_type type "设备配置命令发布失败" "飞控命令发布后无法确认是否送达");
    completed_at = some now;
  }

  unfoldable pub completed_record : CommandType → Bool → ℕ → CommandRecord J → CommandRecord J
  unfolding completion_status
  completed_record type true now c = record c {
    status = dispatched;
    updated_at = now;
    dispatched_at = some now;
  }
  completed_record type false now c = record c {
    status = by_type type failed delivery_uncertain;
    updated_at = now;
    error_code = some (by_type type "mqtt_publish_failed" "control_delivery_uncertain");
    error_message = some (by_type type "设备配置命令发布失败" "飞控命令发布后无法确认是否送达");
    completed_at = some now;
  }

  unfoldable pub complete_publication :
      Environment J
      → RequestContext J
      → CommandRecord J
      → Bool
      → ℕ
      → CommandService J
      → CommandService J
  unfolding completion_status completed_update completed_record submit_transition_or_defer
  complete_publication env context c result now s =
      let type = context.command_type in
      let submitted =
        submit_transition_or_defer env
          (record context { command = some (completed_record type result now c) })
          (record {
            command_id = c.command_id;
            expected = c.status;
            desired = completion_status type result;
            update = completed_update type result now;
          })
          s in
      if result
      then if command_status_eq.beq c.status dispatched then s else submitted
      else submitted

  -- Handle(mqtt::PublishCompletion). Each publication has a record.
  unfoldable pub handle_publish_completion :
      Environment J → ℕ → Bool → ℕ → CommandService J → CommandService J
  unfolding complete_publication
  handle_publish_completion env token result now s = elim (find token s.publications) [
    | none ↦ s
    | some context ↦
        (let t = record s { publications = erase token s.publications } in
          elim context.command [
            | none ↦ t
            | some c ↦ complete_publication env context c result now t
          ])
  ]

-- ===== src/CommandService/Acks.antt =====
-- core/runtime/command_service.cpp: the answers of the devices.
use cns_server.Base.{
  ℕ, ◌+◌, String, Bool, true, false, not, ◌&&◌, ◌||◌, Option, none, some, ◌==◌, if◌then◌else◌,
  is_some, string_eq, option_eq,
}
use cns_server.Base.Map.{find, insert}
use cns_server.Registry.{find_device}
use cns_server.Command.{
  CommandType, config, control, CommandStatus, pending, dispatched, in_progress, succeeded, failed,
  timeout, CommandRecord, ControlCommand, set_motor_pwm, emergency_stop, takeoff, land, is_terminal,
  command_status_eq,
}
use cns_server.CommandService.{
  SourceRequest, config_request, control_request, rejected_request, RequestContext, DeviceAck,
  informs_late, informs_unmatched, diagnoses, Environment, CommandService, emit_output,
  submit_transition_or_defer,
}
use cns_server.CommandService.Publish.{by_type}

abbrev pub is_same_type : CommandType → CommandType → Bool
is_same_type config config = true
is_same_type control control = true
is_same_type _ _ = false

abbrev pub is_control : CommandType → Bool
is_control t = is_same_type t control

abbrev is_same_command : ControlCommand → ControlCommand → Bool
is_same_command set_motor_pwm set_motor_pwm = true
is_same_command emergency_stop emergency_stop = true
is_same_command takeoff takeoff = true
is_same_command land land = true
is_same_command _ _ = false

-- The status that an answer asks for.
unfoldable pub desired_status : String → CommandStatus
desired_status business_status =
    if business_status == "timeout"
    then timeout
    else if business_status == "rejected"
    then failed
    else if business_status == "in_progress"
    then in_progress
    else succeeded

module _ {J : Type 0} where
  -- The test that an answer belongs to a command.
  unfoldable pub belongs_to : String → CommandType → RequestContext J → Bool
  belongs_to device_id type context = elim context.command [
    | none ↦ false
    | some c ↦ (c.target_device_id == some device_id) && is_same_type context.command_type type
  ]

  -- The test of a control answer against the command it answers.
  unfoldable pub answers_command : Option ControlCommand → SourceRequest J → Bool
  answers_command none parsed = true
  answers_command (some command) (config_request r) = false
  answers_command (some command) (control_request r) = is_same_command r.command command
  answers_command (some command) (rejected_request id payload e) = false

  -- TryHandleLateDeviceAck, and the report of an answer that belongs to no command.
  unfoldable pub handle_late_device_ack :
      Environment J → String → CommandType → DeviceAck J → CommandService J → CommandService J
  unfolding emit_output belongs_to
  handle_late_device_ack env device_id type ack s =
      let unmatched =
        emit_output
          (informs_unmatched device_id (find_device env.devices device_id) ack.business_status) s in
      elim (find ack.command_id s.completed_commands) [
        | none ↦ unmatched
        | some done ↦
            if belongs_to device_id type done.context && is_some done.context.target
            then emit_output (informs_late done.context ack.business_status) s
            else unmatched
      ]

  unfoldable pub put_early : String → DeviceAck J → ℕ → CommandService J → CommandService J
  put_early device_id ack now s = record s {
    early_device_acks =
        insert ack.command_id (record { device_id = device_id; ack = ack; received_at = now })
          s.early_device_acks;
  }

  -- An answer before the end of the publication: the first one is kept, except that a control
  -- answer of progress gives way to a final one.
  unfoldable pub keep_early :
      String → CommandType → DeviceAck J → ℕ → CommandService J → CommandService J
  unfolding put_early emit_output
  keep_early device_id type ack now s = elim (find ack.command_id s.early_device_acks) [
    | none ↦ put_early device_id ack now s
    | some early ↦
        (let is_final = not (ack.business_status == "in_progress") in
          let was_final = is_control type && not (early.ack.business_status == "in_progress") in
          if early.ack.payload == ack.payload
          then s
          else if was_final && is_final
          then emit_output (diagnoses "设备飞控ACK在发布确认前发生冲突") s
          else if is_final || not was_final
          then put_early device_id ack now s
          else s)
  ]

  unfoldable pub answered_record : CommandType → DeviceAck J → ℕ → CommandRecord J → CommandRecord J
  unfolding desired_status
  answered_record type ack now c =
      let desired = desired_status ack.business_status in
      let is_failed = command_status_eq.beq desired failed in
      let is_timeout = command_status_eq.beq desired timeout in
      record c {
        status = desired;
        device_ack = some ack.raw;
        updated_at = now;
        completed_at = if is_terminal desired then some now else none;
        error_code =
            if is_failed
            then some "device_rejected"
            else if is_timeout
            then some "device_timeout"
            else c.error_code;
        error_message =
            if is_failed
            then some (by_type type "设备拒绝配置命令" "设备拒绝飞控命令")
            else if is_timeout
            then some "设备报告飞控命令超时"
            else c.error_message;
      }

  -- The transition that an answer to a running command asks for.
  unfoldable pub apply_device_ack :
      Environment J
      → RequestContext J
      → CommandRecord J
      → CommandType
      → DeviceAck J
      → ℕ
      → CommandService J
      → CommandService J
  unfolding desired_status answered_record submit_transition_or_defer
  apply_device_ack env context c type ack now s =
      let desired = desired_status ack.business_status in
      let answered = answered_record type ack now c in
      submit_transition_or_defer env
        (record context {
          deadline =
              if command_status_eq.beq desired in_progress
              then now + env.control_timeout
              else context.deadline;
          command = some answered;
          device_ack_business_status = some ack.business_status;
        })
        (record {
          command_id = c.command_id;
          expected = c.status;
          desired = desired;
          update = record {
            error_code = answered.error_code;
            error_message = answered.error_message;
            device_ack = answered.device_ack;
            dispatched_at = none;
            completed_at = answered.completed_at;
            updated_at = now;
          };
        })
        s

  unfoldable pub answer_running :
      Environment J
      → String
      → RequestContext J
      → CommandRecord J
      → CommandType
      → DeviceAck J
      → ℕ
      → CommandService J
      → CommandService J
  unfolding keep_early apply_device_ack emit_output answers_command
  answer_running env device_id context c type ack now s =
      if answers_command ack.control_command context.parsed
      then elim c.status [
        | pending ↦ keep_early device_id type ack now s
        | dispatched ↦ apply_device_ack env context c type ack now s
        | in_progress ↦ apply_device_ack env context c type ack now s
        | _ ↦ s
      ]
      else emit_output (diagnoses "设备飞控ACK的command与活动命令不匹配") s

  unfoldable pub match_device_ack :
      Environment J → String → CommandType → DeviceAck J → ℕ → CommandService J → CommandService J
  unfolding handle_late_device_ack belongs_to answer_running
  match_device_ack env device_id type ack now s =
      let late = handle_late_device_ack env device_id type ack s in
      elim (find ack.command_id s.active_commands) [
        | none ↦ late
        | some context ↦ elim context.command [
          | none ↦ late
          | some c ↦
              if belongs_to device_id type context
              then answer_running env device_id context c type ack now s
              else late
        ]
      ]

  -- HandleDeviceAck
  unfoldable pub handle_device_ack :
      Environment J
      → String
      → CommandType
      → Option (DeviceAck J)
      → ℕ
      → CommandService J
      → CommandService J
  unfolding match_device_ack emit_output
  handle_device_ack env device_id type none now s =
      emit_output (diagnoses (by_type type "设备配置ACK格式非法" "设备飞控ACK格式非法")) s
  handle_device_ack env device_id type (some ack) now s =
      match_device_ack env device_id type ack now s

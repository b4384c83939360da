-- ===== src/CommandService/Valid/Acks.antt =====
-- core/runtime/command_service.cpp: the answers of the devices keep the tables as they must be.
use cns_server.Base.{ℕ, refl, String, not, ◌&&◌, ◌||◌, Option, none, some, ◌==◌, is_some, string_eq}
use cns_server.Base.Map.{find}
use cns_server.Command.{
  CommandType, CommandStatus, pending, dispatched, in_progress, succeeded, failed, timeout,
  delivery_uncertain, CommandRecord,
}
use cns_server.CommandService.{RequestContext, DeviceAck, Environment, CommandService}
use cns_server.CommandService.Acks.{
  is_control, belongs_to, answers_command, handle_late_device_ack, put_early, keep_early,
  apply_device_ack, answer_running, match_device_ack, handle_device_ack,
}
use cns_server.CommandService.Valid.{
  if_keeps, option_keeps, Holds, frame-Holds, emit_output-Holds, submit_transition_or_defer-Holds,
}

module _ {J : Type 0} (env : Environment J) where
  handle_late_device_ack-Holds :
      (device_id : String) (type : CommandType) (ack : DeviceAck J) (s : CommandService J)
      → Holds env s
      → Holds env (handle_late_device_ack env device_id type ack s)
  unfolding handle_late_device_ack
  handle_late_device_ack-Holds device_id type ack s v =
      let w = emit_output-Holds env _ s v in
      option_keeps (Holds env) (find ack.command_id s.completed_commands) _ _ (λ _. w)
        (λ done _.
          if_keeps (Holds env)
            (belongs_to device_id type done.context && is_some done.context.target) _ _
            (λ _. emit_output-Holds env _ s v) (λ _. w))

  put_early-Holds :
      (device_id : String) (ack : DeviceAck J) (now : ℕ) (s : CommandService J)
      → Holds env s
      → Holds env (put_early device_id ack now s)
  unfolding put_early
  put_early-Holds device_id ack now s = frame-Holds env (record {
    outstanding = refl;
    next = refl;
    operations = refl;
    completed = refl;
    active = refl;
    trace = refl;
  })

  keep_early-Holds :
      (device_id : String) (type : CommandType) (ack : DeviceAck J) (now : ℕ) (s : CommandService J)
      → Holds env s
      → Holds env (keep_early device_id type ack now s)
  unfolding keep_early
  keep_early-Holds device_id type ack now s v =
      let w = put_early-Holds device_id ack now s v in
      option_keeps (Holds env) (find ack.command_id s.early_device_acks) _ _ (λ _. w)
        (λ early _.
          let is_final = not (ack.business_status == "in_progress") in
          let was_final = is_control type && not (early.ack.business_status == "in_progress") in
          if_keeps (Holds env) (early.ack.payload == ack.payload) _ _ (λ _. v)
            (λ _.
              if_keeps (Holds env) (was_final && is_final) _ _ (λ _. emit_output-Holds env _ s v)
                (λ _. if_keeps (Holds env) (is_final || not was_final) _ _ (λ _. w) (λ _. v))))

  answer_running-Holds :
      (device_id : String) (context : RequestContext J) (c : CommandRecord J) (type : CommandType)
      (ack : DeviceAck J) (now : ℕ) (s : CommandService J)
      → Holds env s
      → Holds env (answer_running env device_id context c type ack now s)
  unfolding answer_running apply_device_ack
  answer_running-Holds device_id context c type ack now s v =
      if_keeps (Holds env) (answers_command ack.control_command context.parsed) _ _
        (λ _. by_status c.status) (λ _. emit_output-Holds env _ s v)
    where
      by_status :
          (status : CommandStatus)
          → Holds env (elim status [
            | pending ↦ keep_early device_id type ack now s
            | dispatched ↦ apply_device_ack env context c type ack now s
            | in_progress ↦ apply_device_ack env context c type ack now s
            | _ ↦ s
          ])
      by_status pending = keep_early-Holds device_id type ack now s v
      by_status dispatched = submit_transition_or_defer-Holds env _ _ s v
      by_status in_progress = submit_transition_or_defer-Holds env _ _ s v
      by_status succeeded = v
      by_status failed = v
      by_status timeout = v
      by_status delivery_uncertain = v

  match_device_ack-Holds :
      (device_id : String) (type : CommandType) (ack : DeviceAck J) (now : ℕ) (s : CommandService J)
      → Holds env s
      → Holds env (match_device_ack env device_id type ack now s)
  unfolding match_device_ack
  match_device_ack-Holds device_id type ack now s v =
      let late = handle_late_device_ack-Holds device_id type ack s v in
      option_keeps (Holds env) (find ack.command_id s.active_commands) _ _ (λ _. late)
        (λ context _.
          option_keeps (Holds env) context.command _ _ (λ _. late)
            (λ c _.
              if_keeps (Holds env) (belongs_to device_id type context) _ _
                (λ _. answer_running-Holds device_id context c type ack now s v) (λ _. late)))

  pub handle_device_ack-Holds :
      (device_id : String) (type : CommandType) (ack : Option (DeviceAck J)) (now : ℕ)
      (s : CommandService J)
      → Holds env s
      → Holds env (handle_device_ack env device_id type ack now s)
  unfolding handle_device_ack
  handle_device_ack-Holds device_id type none now s v = emit_output-Holds env _ s v
  handle_device_ack-Holds device_id type (some ack) now s v =
      match_device_ack-Holds device_id type ack now s v

-- ===== src/Command.antt =====
-- core/command/command_types.hpp and command_state: commands, their sources and targets, and the
-- states a command goes through. Times are ticks of the system clock; `J` is the JSON value type
-- of the nlohmann library. Integers of a fixed width are numbers that are only copied here.
pub mod Lifecycle
pub mod Router
pub mod Routing
pub mod Catalog
pub mod Names
pub mod Validation
pub mod Tests
use cns_server.Base.{
  ℕ, ◌≡◌, ◌↔◌, String, Bool, true, false, ◌||◌, Option, Eq, ◌==◌, arith, Expected, ok, unexpected,
  if◌then◌else◌, string_eq,
}

pub data SourceKind : Type 0 where
  device host_app control_center : SourceKind

pub data CommandType : Type 0 where
  config control : CommandType

pub data CommandStatus : Type 0 where
  pending dispatched in_progress succeeded failed timeout delivery_uncertain : CommandStatus

abbrev status_beq : CommandStatus → CommandStatus → Bool
status_beq pending pending = true
status_beq dispatched dispatched = true
status_beq in_progress in_progress = true
status_beq succeeded succeeded = true
status_beq failed failed = true
status_beq timeout timeout = true
status_beq delivery_uncertain delivery_uncertain = true
status_beq _ _ = false

pub status_beq_iff : (a b : CommandStatus) → (status_beq a b ≡ true) ↔ (a ≡ b)
status_beq_iff a b = (ground arith, ground arith)

instance abbrev pub command_status_eq : Eq CommandStatus
command_status_eq = record { beq = status_beq; beq_iff = status_beq_iff }

pub data RequestTarget : Type 0 where
  device_label_target : (dcdw_label : String) → RequestTarget
  school_label_target : (school_name dcdw_label : String) → RequestTarget
  device_target : (device_id : String) → RequestTarget

pub record ConfigParameters : Type 0 where
  pub telemetry_publish_interval_ms : Option ℕ
  pub heartbeat_interval_ms : Option ℕ
  pub mqtt_reconnect_delay_s : Option ℕ
  pub mqtt_reconnect_delay_max_s : Option ℕ

pub record SourceConfigRequest (J : Type 0) : Type 0 where
  pub request_id : String
  pub target : RequestTarget
  pub parameters : ConfigParameters
  pub comparison_payload : J

pub data ControlCommand : Type 0 where
  set_motor_pwm emergency_stop takeoff land : ControlCommand

pub record ControlParameters : Type 0 where
  pub pwm_us : Option (ℕ × ℕ × ℕ × ℕ)

pub record SourceControlRequest (J : Type 0) : Type 0 where
  pub request_id : String
  pub target : RequestTarget
  pub command : ControlCommand
  pub parameters : ControlParameters
  pub comparison_payload : J

pub record ProtocolError : Type 0 where
  pub code : String
  pub message : String

pub record CommandRecord (J : Type 0) : Type 0 where
  pub command_id : String
  pub command_type : CommandType
  pub source_id : String
  pub request_id : String
  pub target_device_id : Option String
  pub request_payload : J
  pub status : CommandStatus
  pub error_code : Option String
  pub error_message : Option String
  pub device_ack : Option J
  pub created_at : ℕ
  pub dispatched_at : Option ℕ
  pub updated_at : ℕ
  pub completed_at : Option ℕ

pub record CommandUpdate (J : Type 0) : Type 0 where
  pub error_code : Option String
  pub error_message : Option String
  pub device_ack : Option J
  pub dispatched_at : Option ℕ
  pub completed_at : Option ℕ
  pub updated_at : ℕ

unfoldable pub is_terminal : CommandStatus → Bool
is_terminal status =
    status == succeeded || status == failed || status == timeout || status == delivery_uncertain

unfoldable pub can_transition : CommandStatus → CommandStatus → Bool
can_transition pending to =
    to == dispatched || to == failed || to == timeout || to == delivery_uncertain
can_transition dispatched to =
    to == in_progress
    || to == succeeded
    || to == failed
    || to == timeout
    || to == delivery_uncertain
can_transition in_progress to =
    to == in_progress
    || to == succeeded
    || to == failed
    || to == timeout
    || to == delivery_uncertain
can_transition _ to = false

-- ToString of a command type, and ParseCommandType.
unfoldable pub command_type_text : CommandType → String
command_type_text config = "config"
command_type_text control = "control"

unfoldable pub parse_command_type : String → Expected String CommandType
parse_command_type text =
    if text == "config"
    then ok config
    else if text == "control"
    then ok control
    else unexpected "未知命令类型"

pub data IdempotencyResult : Type 0 where
  same conflict : IdempotencyResult

-- CompareRequest, with the equality of the JSON library as an instance.
unfoldable pub compare_request : {J : Type 0} ⦃e : Eq J⦄ → CommandRecord J → J → IdempotencyResult
compare_request existing comparison_payload =
    if existing.request_payload == comparison_payload then same else conflict

-- ===== src/Protocol.antt =====
-- core/protocol/device_message.hpp: what the two kinds of device message carry. `J` is the JSON
-- value type of the nlohmann library.
use cns_server.Base.{String, Option, List, Bool, true, false, Eq, ◌≡◌, ◌↔◌, arith}

pub data RegistrationStatus : Type 0 where
  online offline : RegistrationStatus

pub data DeviceType : Type 0 where
  cns_box flight_controller : DeviceType

abbrev device_type_beq : DeviceType → DeviceType → Bool
device_type_beq cns_box cns_box = true
device_type_beq flight_controller flight_controller = true
device_type_beq _ _ = false

pub device_type_beq_iff : (a b : DeviceType) → (device_type_beq a b ≡ true) ↔ (a ≡ b)
device_type_beq_iff a b = (ground arith, ground arith)

instance abbrev pub device_type_eq : Eq DeviceType
device_type_eq = record { beq = device_type_beq; beq_iff = device_type_beq_iff }

pub record Registration (J : Type 0) : Type 0 where
  pub device_id : String
  pub status : RegistrationStatus
  pub school_name : Option String
  pub dcdw_label : Option String
  pub device_type : DeviceType
  pub capabilities : Option (List String)
  pub product : Option J
  pub version : Option J

pub record Telemetry (J : Type 0) : Type 0 where
  pub payload : J
  pub dcdw_label : Option String
  pub device_type : Option DeviceType

-- ===== src/Device.antt =====
-- core/device/device_registry.hpp: a device's record, its changes, and the directory's maps. Times are
-- ticks since an origin; `school_id` is the bit pattern of an int64, and is only compared. `J` is the
-- JSON value type of the nlohmann library.
pub mod Roles
pub mod Index
use text.Mathlib.TextEquality.{eq_iff}
use cns_server.Base.{
  ℕ, ◌+◌, ◌≡◌, ◌↔◌, String, Bool, true, false, not, ◌&&◌, ◌||◌, List, [], ◌∷◌, ◌++◌, Option, none,
  some, Eq, ◌==◌, ltb, leb, if◌then◌else◌, is_some, Expected, ok, unexpected, u64, arith, length,
  ℕ_eq, string_eq, option_eq,
}
use cns_server.Base.Map.{Map, find, insert, erase, emplace, contains, values, map_values}
use cns_server.Protocol.{DeviceType}
use cns_server.StateEvent.{ChangeReason}

pub data Status : Type 0 where
  online offline : Status

pub record DeviceRecord (J : Type 0) : Type 0 where
  pub device_id : String
  pub school_id : ℕ
  pub school_name : String
  pub dcdw_label : Option String
  pub model_version : String
  pub status : Status
  pub last_seen_at : Option ℕ
  pub latest_telemetry : Option J
  pub telemetry_received_at : Option ℕ
  pub revision : ℕ
  pub device_type : DeviceType
  pub capabilities : Option (List String)
  pub product : Option J
  pub version : Option J

pub record Mutation (J : Type 0) : Type 0 where
  pub device : DeviceRecord J
  pub reason : ChangeReason
  pub status_changed : Bool
  pub diagnostic : Option String

pub record RoleKey : Type 0 where
  pub school_id : ℕ
  pub dcdw_label : String

pub record NamedRoleKey : Type 0 where
  pub school_name : String
  pub dcdw_label : String

pub role_key_eq_iff :
    (a b : RoleKey)
    → ((a.school_id == b.school_id && a.dcdw_label == b.dcdw_label) ≡ true) ↔ (a ≡ b)
role_key_eq_iff a b = ground (arith, eq_iff a.dcdw_label b.dcdw_label)

pub named_role_key_eq_iff :
    (a b : NamedRoleKey)
    → ((a.school_name == b.school_name && a.dcdw_label == b.dcdw_label) ≡ true) ↔ (a ≡ b)
named_role_key_eq_iff a b =
    ground (arith, eq_iff a.school_name b.school_name, eq_iff a.dcdw_label b.dcdw_label)

instance abbrev pub role_key_eq : Eq RoleKey
role_key_eq = record {
  beq = λ a b. a.school_id == b.school_id && a.dcdw_label == b.dcdw_label;
  beq_iff = role_key_eq_iff;
}

instance abbrev pub named_role_key_eq : Eq NamedRoleKey
named_role_key_eq = record {
  beq = λ a b. a.school_name == b.school_name && a.dcdw_label == b.dcdw_label;
  beq_iff = named_role_key_eq_iff;
}

pub record DeviceRegistry (J : Type 0) : Type 0 where
  pub records : Map String (DeviceRecord J)
  pub roles : Map RoleKey String
  pub named_roles : Map NamedRoleKey (List String)

pub data Error : Type 0 where
  unknown_device duplicate_device_id role_conflict : String → Error
  device_type_mismatch : Error

abbrev pub status_beq : Status → Status → Bool
status_beq online online = true
status_beq offline offline = true
status_beq _ _ = false

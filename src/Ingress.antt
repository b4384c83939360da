-- ===== src/Ingress.antt =====
-- core/runtime/device_ingress.{hpp,cpp}: the bridge from MQTT to the business queue, and its counters of
-- rejected messages. Whether the queue took the message is an argument; `Disable` may fall between
-- the two locks of `Handle`, which are two steps. The clock and the diagnostic do not throw.
pub mod Counts
pub mod Tests
use cns_server.Base.{
  ℕ, ◌+◌, ◌-◌, ◌^◌, String, Bool, true, false, not, List, [], ◌∷◌, Option, none, some, ltb,
  if◌then◌else◌,
}
use cns_server.Base.Map.{Map}
use cns_server.RateLimiter.{should_emit}

abbrev pub size_max : ℕ
size_max = 2 ^ 64 - 1

-- SaturatingAdd
unfoldable pub saturating_add : ℕ → ℕ → ℕ
saturating_add left right = if ltb (size_max - left) right then size_max else left + right

pub record DeviceIngress : Type 0 where
  pub last_emissions : Map String ℕ
  pub rejected_count : ℕ
  pub rejected_bytes : ℕ
  pub is_enabled : Bool
  pub has_diagnostic : Bool

-- What the diagnostic shows.
pub record Rejections : Type 0 where
  pub count : ℕ
  pub bytes : ℕ

-- The second lock of Handle, after the queue has answered.
unfoldable pub note_rejection : ℕ → ℕ → ℕ → DeviceIngress → DeviceIngress × Option Rejections
unfolding saturating_add
note_rejection window now payload_bytes s =
    let count = saturating_add s.rejected_count 1 in
    let bytes = saturating_add s.rejected_bytes payload_bytes in
    let emission = should_emit window "mqtt_device_queue_full" now s.last_emissions in
    if s.is_enabled
    then if not s.has_diagnostic
      then (record s { rejected_count = count; rejected_bytes = bytes }, none)
      else if emission.1
      then (
        record s { last_emissions = emission.0; rejected_count = 0; rejected_bytes = 0 },
        some (record { count = count; bytes = bytes }),
      )
      else (
        record s { last_emissions = emission.0; rejected_count = count; rejected_bytes = bytes },
        none,
      )
    else (s, none)

-- Handle, when nothing falls between its locks.
unfoldable pub handle : ℕ → ℕ → ℕ → Bool → DeviceIngress → DeviceIngress × Option Rejections
unfolding note_rejection
handle window now payload_bytes accepted s =
    if s.is_enabled
    then if accepted then (s, none) else note_rejection window now payload_bytes s
    else (s, none)

-- Disable
unfoldable pub disable : DeviceIngress → DeviceIngress
disable s = record s { is_enabled = false; has_diagnostic = false }

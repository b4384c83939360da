-- ===== src/SourceParsing/Tests.antt =====
-- The parsers over a small library: numbers, and objects and arrays of numbers.
use cns_server.Base.{
  ℕ, ◌≤◌, ◌≡◌, refl, String, true, false, List, [], ◌∷◌, Option, none, some, Bool, map, ok,
  string_eq,
}
use cns_server.Base.Map.{find}
use cns_server.Command.{ConfigParameters, ControlParameters}
use cns_server.SourceParsing.{
  JsonLibrary, number_in_range, read_unsigned_in_range, check_parameters, all_known,
  parse_parameters,
}
use cns_server.SourceParsing.Parse.{parse_pwm}
use cns_server.SourceParsing.Bounds.{
  IsRead, IsWithin, IsOrdered, parse_parameters_bounds, parse_pwm_bounds,
}

data Value : Type 0 where
  integer : ℕ → Value
  object : List (String × ℕ) → Value
  array : List ℕ → Value

abbrev is_integer : Value → Bool
is_integer (integer n) = true
is_integer _ = false

abbrev is_object : Value → Bool
is_object (object fields) = true
is_object _ = false

abbrev is_array : Value → Bool
is_array (array ns) = true
is_array _ = false

abbrev number : Value → ℕ
number (integer n) = n
number _ = 0

abbrev names : List (String × ℕ) → List String
names [] = []
names ((k, n) ∷ rest) = k ∷ names rest

abbrev keys : Value → List String
keys (object fields) = names fields
keys _ = []

abbrev integer_of : Option ℕ → Option Value
integer_of none = none
integer_of (some n) = some (integer n)

abbrev member : String → Value → Option Value
member key (object fields) = integer_of (find key fields)
member key _ = none

abbrev elements : Value → List Value
elements (array ns) = map integer ns
elements _ = []

abbrev json : JsonLibrary Value
json = record {
  parse = λ text. none;
  is_object = is_object;
  is_array = is_array;
  is_string = λ v. false;
  is_integer = is_integer;
  is_negative = λ v. false;
  number = number;
  text = λ v. "";
  keys = keys;
  member = member;
  elements = elements;
}

abbrev value : Value
value = object (("heartbeat_interval_ms", 500) ∷ ("mqtt_reconnect_delay_s", 2) ∷ [])

abbrev parameters : ConfigParameters
parameters = record {
  telemetry_publish_interval_ms = none;
  heartbeat_interval_ms = some 500;
  mqtt_reconnect_delay_s = some 2;
  mqtt_reconnect_delay_max_s = none;
}

accepted : parse_parameters json value ≡ ok parameters
unfolding parse_parameters check_parameters read_unsigned_in_range number_in_range all_known find
accepted = refl

parse_parameters_bounds_example :
    (IsRead json "telemetry_publish_interval_ms" value none × IsWithin 100 60000 none)
    × (IsRead json "heartbeat_interval_ms" value (some 500) × IsWithin 100 60000 (some 500))
    × (IsRead json "mqtt_reconnect_delay_s" value (some 2) × IsWithin 1 3600 (some 2))
    × (IsRead json "mqtt_reconnect_delay_max_s" value none × IsWithin 1 3600 none)
    × IsOrdered (some 2) none
parse_parameters_bounds_example = parse_parameters_bounds json value parameters accepted

abbrev motors : List Value
motors = integer 1000 ∷ integer 1500 ∷ integer 1501 ∷ integer 2000 ∷ []

abbrev motor_parameters : ControlParameters
motor_parameters = record { pwm_us = some (1000, 1500, 1501, 2000) }

accepted_motors : parse_pwm json motors ≡ ok motor_parameters
unfolding parse_pwm number_in_range
accepted_motors = refl

parse_pwm_bounds_example :
    (a : ℕ) × (b : ℕ) × (c : ℕ) × (d : ℕ) × (motor_parameters.pwm_us ≡ some (a, b, c, d))
    × (map number motors ≡ a ∷ b ∷ c ∷ d ∷ [])
    × ((1000 ≤ a) × (a ≤ 2000))
    × ((1000 ≤ b) × (b ≤ 2000))
    × ((1000 ≤ c) × (c ≤ 2000))
    × ((1000 ≤ d) × (d ≤ 2000))
parse_pwm_bounds_example = parse_pwm_bounds json motors motor_parameters accepted_motors

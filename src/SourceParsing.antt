-- ===== src/SourceParsing.antt =====
-- core/command/source_request.cpp: what a source may ask for. The JSON library is a parameter: the
-- functions of nlohmann::json that the parsers call. The keys of an object are all different.
pub mod Parse
pub mod Bounds
pub mod Tests
use Prim.Native.String.{len}
use Prim.Native.Char.{code}
use cns_server.Base.{
  ℕ, ◌%◌, ◌^◌, String, Bool, true, false, not, ◌&&◌, ◌||◌, List, [], ◌∷◌, Option, none, some, ◌==◌,
  ltb, leb, if◌then◌else◌, is_some, Expected, ok, unexpected, length, nat_eq, string_eq, ℕ_eq,
}
use cns_server.Command.{
  SourceKind, device, RequestTarget, device_label_target, school_label_target, device_target,
  ConfigParameters, ControlCommand, set_motor_pwm, emergency_stop, takeoff, land, ControlParameters,
  ProtocolError,
}
use cns_server.Command.Router.{is_device}

-- The library: `member` is contains and at, `number` is get<std::uint64_t>, and `is_negative`
-- says that get<std::int64_t> is below 0.
pub record JsonLibrary (J : Type 0) : Type 0 where
  pub parse : String → Option J
  pub is_object : J → Bool
  pub is_array : J → Bool
  pub is_string : J → Bool
  pub is_integer : J → Bool
  pub is_negative : J → Bool
  pub number : J → ℕ
  pub text : J → String
  pub keys : J → List String
  pub member : String → J → Option J
  pub elements : J → List J

abbrev pub request_error : String → String → ProtocolError
request_error code message = record { code = code; message = message }

-- The code points of a text. The tests below fail on every byte of a code point past ASCII.
abbrev codes : String → List ℕ
codes String.[] = []
codes (String.◌∷◌ c s) = code c ∷ codes s

abbrev pub is_alnum : ℕ → Bool
is_alnum c = (leb 48 c && leb c 57) || (leb 65 c && leb c 90) || (leb 97 c && leb c 122)

unfoldable pub all_codes : (ℕ → Bool) → List ℕ → Bool
all_codes test [] = true
all_codes test (c ∷ cs) = test c && all_codes test cs

abbrev pub is_source_id_code : ℕ → Bool
is_source_id_code c = is_alnum c || c == 46 || c == 95 || c == 45

abbrev pub is_request_id_code : ℕ → Bool
is_request_id_code c = is_alnum c || c == 46 || c == 95 || c == 45 || c == 58

-- IsValidSourceId
unfoldable pub is_valid_source_id : String → Bool
unfolding all_codes
is_valid_source_id value =
    not (value == "") && leb (len value) 64 && all_codes is_source_id_code (codes value)

-- IsValidRequestId
unfoldable pub is_valid_request_id : String → Bool
unfolding all_codes
is_valid_request_id value =
    not (value == "") && leb (len value) 128 && all_codes is_request_id_code (codes value)

-- IsValidDeviceId of core/mqtt_topic/device_topic.cpp, whose codes are those of a request id
unfoldable pub is_valid_device_id : String → Bool
unfolding all_codes
is_valid_device_id value =
    not (value == "") && leb (len value) 20 && all_codes is_request_id_code (codes value)

-- The test that every key of an object is one of the known ones.
abbrev pub is_known : String → List String → Bool
is_known key [] = false
is_known key (k ∷ ks) = (k == key) || is_known key ks

unfoldable pub all_known : List String → List String → Bool
all_known known [] = true
all_known known (key ∷ keys) = is_known key known && all_known known keys

abbrev pub exceeds : Option ℕ → Option ℕ → Bool
exceeds (some initial) (some maximum) = ltb maximum initial
exceeds _ _ = false

-- The end of ParseParameters, on what the four calls have read.
unfoldable pub check_parameters :
    Option (Option ℕ)
    → Option (Option ℕ)
    → Option (Option ℕ)
    → Option (Option ℕ)
    → Expected ProtocolError ConfigParameters
check_parameters (some publish) (some heartbeat) (some delay) (some delay_max) =
    if exceeds delay delay_max
    then unexpected (request_error "invalid_parameters" "MQTT重连初值不得大于最大值")
    else ok (record {
      telemetry_publish_interval_ms = publish;
      heartbeat_interval_ms = heartbeat;
      mqtt_reconnect_delay_s = delay;
      mqtt_reconnect_delay_max_s = delay_max;
    })
check_parameters _ _ _ _ = unexpected (request_error "invalid_parameters" "配置参数类型或范围非法")

module _ {J : Type 0} (json : JsonLibrary J) where
  -- The string of a member, if it is one.
  unfoldable pub string_member : String → J → Option String
  string_member key object = elim (json.member key object) [
    | none ↦ none
    | some value ↦ if json.is_string value then some (json.text value) else none
  ]

  -- IsNonEmptyStringWithin, with the string
  unfoldable pub string_within : ℕ → String → J → Option String
  unfolding string_member
  string_within maximum key object = elim (string_member key object) [
    | none ↦ none
    | some value ↦ if not (value == "") && leb (len value) maximum then some value else none
  ]

  -- The number of a value in a range, cast to a narrower integer.
  unfoldable pub number_in_range : ℕ → ℕ → ℕ → J → Option ℕ
  number_in_range width minimum maximum value =
      if json.is_integer value && not (json.is_negative value)
      then if leb minimum (json.number value) && leb (json.number value) maximum
        then some (json.number value % 2 ^ width)
        else none
      else none

  -- ReadUnsignedInRange: `none` where it clears `valid`.
  unfoldable pub read_unsigned_in_range : String → ℕ → ℕ → J → Option (Option ℕ)
  unfolding number_in_range
  read_unsigned_in_range key minimum maximum object = elim (json.member key object) [
    | none ↦ some none
    | some value ↦ elim (number_in_range 32 minimum maximum value) [
      | none ↦ none
      | some n ↦ some (some n)
    ]
  ]

  -- ParseParameters
  unfoldable pub parse_parameters : J → Expected ProtocolError ConfigParameters
  unfolding read_unsigned_in_range check_parameters all_known
  parse_parameters value =
      let checked =
        check_parameters (read_unsigned_in_range "telemetry_publish_interval_ms" 100 60000 value)
          (read_unsigned_in_range "heartbeat_interval_ms" 100 60000 value)
          (read_unsigned_in_range "mqtt_reconnect_delay_s" 1 3600 value)
          (read_unsigned_in_range "mqtt_reconnect_delay_max_s" 1 3600 value) in
      if json.is_object value && not (nat_eq (length (json.keys value)) 0)
      then if all_known
          ("telemetry_publish_interval_ms" ∷ "heartbeat_interval_ms" ∷ "mqtt_reconnect_delay_s"
            ∷ "mqtt_reconnect_delay_max_s" ∷ [])
          (json.keys value)
        then checked
        else unexpected (request_error "invalid_parameters" "parameters包含未知字段")
      else unexpected (request_error "invalid_parameters" "parameters必须是非空对象")

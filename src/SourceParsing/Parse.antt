-- ===== src/SourceParsing/Parse.antt =====
-- core/command/source_request.cpp: the parsers of the two kinds of request.
use cns_server.Base.{
  ℕ, String, Bool, true, false, ◌&&◌, List, [], ◌∷◌, Option, none, some, ◌==◌, if◌then◌else◌,
  Expected, ok, unexpected, length, nat_eq, string_eq,
}
use cns_server.Command.{
  SourceKind, RequestTarget, device_label_target, school_label_target, device_target,
  ControlCommand, set_motor_pwm, emergency_stop, takeoff, land, ControlParameters, ProtocolError,
}
use cns_server.Command.Router.{is_device}
use cns_server.CommandService.{SourceRequest, config_request, control_request, rejected_request}
use cns_server.SourceParsing.{
  JsonLibrary, request_error, is_valid_request_id, is_valid_device_id, all_known, string_member,
  string_within, number_in_range, parse_parameters,
}

abbrev is_motor : ControlCommand → Bool
is_motor set_motor_pwm = true
is_motor _ = false

module _ {J : Type 0} (json : JsonLibrary J) where
  member_count : J → ℕ
  member_count value = length (json.keys value)

  -- The target of a source that is no device.
  unfoldable pub parse_open_target : J → Expected ProtocolError RequestTarget
  unfolding member_count string_member string_within
  parse_open_target value =
      let by_school : Option RequestTarget = elim (string_within json 128 "school_name" value) [
        | none ↦ none
        | some school ↦ elim (string_within json 64 "dcdw_label" value) [
          | none ↦ none
          | some label ↦ some (school_label_target school label)
        ]
      ] in
      let by_device : Option RequestTarget = elim (string_member json "device_id" value) [
        | none ↦ none
        | some id ↦ if is_valid_device_id id then some (device_target id) else none
      ] in
      let found =
        if nat_eq (member_count value) 1
        then by_device
        else if nat_eq (member_count value) 2
        then by_school
        else none in
      elim found [
        | none ↦ unexpected (request_error "invalid_target" "非设备来源目标形式非法或混用")
        | some target ↦ ok target
      ]

  -- ParseTarget
  unfoldable pub parse_target : J → SourceKind → Expected ProtocolError RequestTarget
  unfolding member_count string_within parse_open_target
  parse_target value kind =
      let labelled : Option RequestTarget = elim (string_within json 64 "dcdw_label" value) [
        | none ↦ none
        | some label ↦
            if nat_eq (member_count value) 1 then some (device_label_target label) else none
      ] in
      if json.is_object value
      then if is_device kind
        then elim labelled [
          | none ↦ unexpected (request_error "invalid_target" "设备来源只能按同校角色号寻址")
          | some target ↦ ok target
        ]
        else parse_open_target value
      else unexpected (request_error "invalid_target" "target必须是对象")

  -- ParseControlCommand
  unfoldable pub parse_control_command : J → Expected ProtocolError ControlCommand
  unfolding string_member
  parse_control_command root = elim (string_member json "command" root) [
    | none ↦ unexpected (request_error "unsupported_command" "command缺失或非法")
    | some name ↦
        if name == "set_motor_pwm"
        then ok set_motor_pwm
        else if name == "emergency_stop"
        then ok emergency_stop
        else if name == "takeoff"
        then ok takeoff
        else if name == "land"
        then ok land
        else unexpected (request_error "unsupported_command" "不支持的飞控命令")
  ]

  -- The loop over the four values; a list of another length is refused before it.
  unfoldable pub parse_pwm : List J → Expected ProtocolError ControlParameters
  unfolding number_in_range
  parse_pwm (a ∷ b ∷ c ∷ d ∷ []) =
      let refused = unexpected (request_error "invalid_parameters" "PWM必须是1000到2000的整数") in
      elim (number_in_range json 16 1000 2000 a) [
        | none ↦ refused
        | some p ↦ elim (number_in_range json 16 1000 2000 b) [
          | none ↦ refused
          | some q ↦ elim (number_in_range json 16 1000 2000 c) [
            | none ↦ refused
            | some r ↦ elim (number_in_range json 16 1000 2000 d) [
              | none ↦ refused
              | some s ↦ ok (record { pwm_us = some (p, q, r, s) })
            ]
          ]
        ]
      ]
  parse_pwm _ = unexpected (request_error "invalid_parameters" "set_motor_pwm只接受四路pwm_us")

  unfoldable pub parse_motor_parameters : J → Expected ProtocolError ControlParameters
  unfolding member_count parse_pwm
  parse_motor_parameters value =
      let refused = unexpected (request_error "invalid_parameters" "set_motor_pwm只接受四路pwm_us") in
      elim (json.member "pwm_us" value) [
        | none ↦ refused
        | some pwm ↦
            if nat_eq (member_count value) 1 && json.is_array pwm
            then parse_pwm (json.elements pwm)
            else refused
      ]

  -- ParseControlParameters
  unfoldable pub parse_control_parameters :
      J → ControlCommand → Expected ProtocolError ControlParameters
  unfolding member_count parse_motor_parameters
  parse_control_parameters value command =
      if json.is_object value
      then if is_motor command
        then parse_motor_parameters value
        else if nat_eq (member_count value) 0
        then ok (record { pwm_us = none })
        else unexpected (request_error "invalid_parameters" "该飞控命令不接受参数")
      else unexpected (request_error "invalid_parameters" "parameters必须是对象")

  -- The request id, where it is present and valid.
  unfoldable pub request_id_in : J → Option String
  unfolding string_member
  request_id_in root = elim (string_member json "request_id" root) [
    | none ↦ none
    | some id ↦ if is_valid_request_id id then some id else none
  ]

  is_schema_one : J → Bool
  is_schema_one root = elim (json.member "schema_version" root) [
    | none ↦ false
    | some value ↦ json.is_integer value && nat_eq (json.number value) 1
  ]

  -- The tests that both kinds of request begin with, up to the target, and the rest of the parser.
  unfoldable pub parse_envelope :
      List String
      → SourceKind
      → J
      → (String → RequestTarget → Expected ProtocolError (SourceRequest J))
      → SourceRequest J
  unfolding request_id_in is_schema_one all_known parse_target
  parse_envelope allowed kind root parse_rest = elim (request_id_in root) [
    | none ↦
        rejected_request none (some root) (request_error "invalid_request_id" "request_id缺失或非法")
    | some id ↦
        (let reject : ProtocolError → SourceRequest J = rejected_request (some id) (some root) in
          let addressed : SourceRequest J = elim (json.member "target" root) [
            | none ↦ reject (request_error "invalid_target" "缺少target")
            | some target ↦ elim (parse_target target kind) [
              | unexpected e ↦ reject e
              | ok parsed ↦ elim (parse_rest id parsed) [
                | unexpected e ↦ reject e
                | ok request ↦ request
              ]
            ]
          ] in
          if all_known allowed (json.keys root)
          then if is_schema_one root
            then addressed
            else reject (request_error "unsupported_schema_version" "只支持schema_version=1")
          else reject (request_error "invalid_json" "来源请求包含未知字段"))
  ]

  unfoldable pub parse_root :
      List String
      → SourceKind
      → String
      → (J → String → RequestTarget → Expected ProtocolError (SourceRequest J))
      → SourceRequest J
  unfolding parse_envelope
  parse_root allowed kind payload parse_rest = elim (json.parse payload) [
    | none ↦ rejected_request none none (request_error "invalid_json" "来源请求不是合法JSON")
    | some root ↦
        if json.is_object root
        then parse_envelope allowed kind root (parse_rest root)
        else rejected_request none none (request_error "invalid_json" "来源请求必须是JSON对象")
  ]

  unfoldable pub parse_config_rest :
      J → String → RequestTarget → Expected ProtocolError (SourceRequest J)
  unfolding parse_parameters
  parse_config_rest root id target = elim (json.member "parameters" root) [
    | none ↦ unexpected (request_error "invalid_parameters" "缺少parameters")
    | some value ↦ elim (parse_parameters json value) [
      | unexpected e ↦ unexpected e
      | ok parameters ↦ ok (
          config_request (record {
            request_id = id;
            target = target;
            parameters = parameters;
            comparison_payload = root;
          }))
    ]
  ]

  unfoldable pub parse_control_rest :
      J → String → RequestTarget → Expected ProtocolError (SourceRequest J)
  unfolding parse_control_command parse_control_parameters
  parse_control_rest root id target = elim (parse_control_command root) [
    | unexpected e ↦ unexpected e
    | ok command ↦ elim (json.member "parameters" root) [
      | none ↦ unexpected (request_error "invalid_parameters" "缺少parameters")
      | some value ↦ elim (parse_control_parameters value command) [
        | unexpected e ↦ unexpected e
        | ok parameters ↦ ok (
            control_request (record {
              request_id = id;
              target = target;
              command = command;
              parameters = parameters;
              comparison_payload = root;
            }))
      ]
    ]
  ]

  -- ParseSourceConfigRequest
  unfoldable pub parse_source_config_request : String → SourceKind → SourceRequest J
  unfolding parse_root parse_config_rest
  parse_source_config_request payload kind =
      parse_root ("schema_version" ∷ "request_id" ∷ "target" ∷ "parameters" ∷ []) kind payload
        parse_config_rest

  -- ParseSourceControlRequest
  unfoldable pub parse_source_control_request : String → SourceKind → SourceRequest J
  unfolding parse_root parse_control_rest
  parse_source_control_request payload kind =
      parse_root ("schema_version" ∷ "request_id" ∷ "target" ∷ "command" ∷ "parameters" ∷ []) kind
        payload parse_control_rest

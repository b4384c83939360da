-- ===== src/CommandService/Requests.antt =====
-- core/runtime/command_service.cpp: the admission of a source's request.
use cns_server.Base.{ℕ, ◌+◌, String, Option, none, some, leb, if◌then◌else◌, length, string_eq}
use cns_server.Registry.{find_device}
use cns_server.Database.{find_command}
use cns_server.Command.{CommandType, ProtocolError}
use cns_server.Command.Router.{CommandSource, is_device, find_source}
use cns_server.Command.{SourceKind}
use cns_server.CommandService.{
  SourceRequest, config_request, control_request, rejected_request, CommandMessage, other_topic,
  device_ack, source_request, finding, rejects, Environment, CommandService, emit_output,
  submit_operation,
}
use cns_server.CommandService.Publish.{by_type}
use cns_server.CommandService.Acks.{handle_device_ack}
use cns_server.CommandService.Results.{protocol_error, is_online_device, request_id_of}

module _ {J : Type 0} where
  -- What a request is refused for before it is read.
  unfoldable pub source_refusal : Environment J → Option CommandSource → Option ProtocolError
  source_refusal env none = some (protocol_error "source_not_registered" "命令来源未登记")
  source_refusal env (some source) =
      let offline = some (protocol_error "source_device_offline" "来源设备当前离线") in
      if source.is_enabled
      then if is_device source.kind
        then elim source.device_id [
          | none ↦ offline
          | some id ↦ if is_online_device (find_device env.devices id) then none else offline
        ]
        else none
      else some (protocol_error "source_disabled" "命令来源已禁用")

  -- What a request with an id is refused for.
  unfoldable pub capacity_refusal : Environment J → CommandService J → Option ProtocolError
  capacity_refusal env s =
      if s.is_mqtt_available
      then if s.database_available
        then if leb env.max_inflight_commands
            (length s.active_commands + length s.operations + length s.publications)
          then some (protocol_error "server_busy" "服务器命令容量已满")
          else none
        else some (protocol_error "database_unavailable" "数据库当前不可用")
      else some (protocol_error "mqtt_unavailable" "MQTT当前不可用")

  abbrev pub error_of : SourceRequest J → Option ProtocolError
  error_of (config_request r) = none
  error_of (control_request r) = none
  error_of (rejected_request id payload e) = some e

  -- The search for an earlier command, which begins an admitted request.
  unfoldable pub begin_request :
      Environment J
      → String
      → CommandSource
      → CommandType
      → SourceRequest J
      → String
      → ℕ
      → CommandService J
      → CommandService J
  unfolding submit_operation emit_output
  begin_request env source_id source type parsed request_id received_at s =
      let submitted =
        submit_operation env finding
          (record {
            source_id = source_id;
            source = some source;
            parsed = parsed;
            command_type = type;
            received_at = received_at;
            deadline = received_at + by_type type env.config_timeout env.control_timeout;
            target = none;
            command = none;
            device_ack_business_status = none;
          })
          (find_command source_id request_id) s in
      if submitted.1
      then submitted.0
      else emit_output
          (rejects source_id (some request_id) (protocol_error "database_unavailable" "数据库当前不可用")
            type)
          (submitted.0)

  -- A request with what it was read as.
  unfoldable pub admit_request :
      Environment J
      → String
      → CommandSource
      → CommandType
      → SourceRequest J
      → ℕ
      → CommandService J
      → CommandService J
  unfolding emit_output begin_request capacity_refusal
  admit_request env source_id source type parsed received_at s = elim (request_id_of parsed) [
    | none ↦ elim (error_of parsed) [
      | none ↦ s
      | some e ↦ emit_output (rejects source_id none e type) s
    ]
    | some request_id ↦ elim (capacity_refusal env s) [
      | some e ↦ emit_output (rejects source_id (some request_id) e type) s
      | none ↦ begin_request env source_id source type parsed request_id received_at s
    ]
  ]

  unfoldable pub handle_request :
      Environment J
      → String
      → CommandType
      → (SourceKind → SourceRequest J)
      → ℕ
      → CommandService J
      → CommandService J
  unfolding emit_output source_refusal admit_request
  handle_request env source_id type parse received_at s =
      let source = find_source env.sources source_id in
      elim (source_refusal env source) [
        | some e ↦ emit_output (rejects source_id none e type) s
        | none ↦ elim source [
          | none ↦ s
          | some known ↦ admit_request env source_id known type (parse known.kind) received_at s
        ]
      ]

  -- Handle(mqtt::InboundMessage)
  unfoldable pub handle_command_message :
      Environment J → CommandMessage J → ℕ → ℕ → CommandService J → CommandService J
  unfolding handle_device_ack handle_request
  handle_command_message env other_topic received_at now s = s
  handle_command_message env (device_ack device_id type ack) received_at now s =
      handle_device_ack env device_id type ack now s
  handle_command_message env (source_request source_id type parse) received_at now s =
      handle_request env source_id type parse received_at s

-- ===== src/CommandService/Valid/Requests.antt =====
-- core/runtime/command_service.cpp: messages keep the tables as they must be.
use cns_server.Base.{ℕ, ◌+◌, String, none, some, string_eq}
use cns_server.Database.{find_command}
use cns_server.Command.{SourceKind, CommandType}
use cns_server.Command.Router.{CommandSource, find_source}
use cns_server.CommandService.{
  SourceRequest, RequestContext, CommandMessage, other_topic, device_ack, source_request, finding,
  Environment, CommandService, submit_operation,
}
use cns_server.CommandService.Results.{request_id_of}
use cns_server.CommandService.Publish.{by_type}
use cns_server.CommandService.Requests.{
  source_refusal, capacity_refusal, error_of, begin_request, admit_request, handle_request,
  handle_command_message,
}
use cns_server.CommandService.Valid.{
  if_keeps, option_keeps, Holds, emit_output-Holds, submit_operation-Holds,
}
use cns_server.CommandService.Valid.Acks.{handle_device_ack-Holds}

module _ {J : Type 0} (env : Environment J) where
  begin_request-Holds :
      (source_id : String) (source : CommandSource) (type : CommandType) (parsed : SourceRequest J)
      (request_id : String) (received_at : ℕ) (s : CommandService J)
      → Holds env s
      → Holds env (begin_request env source_id source type parsed request_id received_at s)
  unfolding begin_request
  begin_request-Holds source_id source type parsed request_id received_at s v =
      let context : RequestContext J = record {
        source_id = source_id;
        source = some source;
        parsed = parsed;
        command_type = type;
        received_at = received_at;
        deadline = received_at + by_type type env.config_timeout env.control_timeout;
        target = none;
        command = none;
        device_ack_business_status = none;
      } in
      let submitted = submit_operation env finding context (find_command source_id request_id) s in
      let w = submit_operation-Holds env finding context (find_command source_id request_id) s v in
      if_keeps (Holds env) submitted.1 _ _ (λ _. w) (λ _. emit_output-Holds env _ _ w)

  admit_request-Holds :
      (source_id : String) (source : CommandSource) (type : CommandType) (parsed : SourceRequest J)
      (received_at : ℕ) (s : CommandService J)
      → Holds env s
      → Holds env (admit_request env source_id source type parsed received_at s)
  unfolding admit_request
  admit_request-Holds source_id source type parsed received_at s v =
      option_keeps (Holds env) (request_id_of parsed) _ _
        (λ _.
          option_keeps (Holds env) (error_of parsed) s _ (λ _. v)
            (λ e _. emit_output-Holds env _ s v))
        (λ id _.
          option_keeps (Holds env) (capacity_refusal env s) _ _
            (λ _. begin_request-Holds source_id source type parsed id received_at s v)
            (λ e _. emit_output-Holds env _ s v))

  handle_request-Holds :
      (source_id : String) (type : CommandType) (parse : SourceKind → SourceRequest J)
      (received_at : ℕ) (s : CommandService J)
      → Holds env s
      → Holds env (handle_request env source_id type parse received_at s)
  unfolding handle_request
  handle_request-Holds source_id type parse received_at s v =
      let source = find_source env.sources source_id in
      option_keeps (Holds env) (source_refusal env source) _ _
        (λ _.
          option_keeps (Holds env) source s _ (λ _. v)
            (λ known _.
              admit_request-Holds source_id known type (parse known.kind) received_at s v))
        (λ e _. emit_output-Holds env _ s v)

  pub handle_command_message-Holds :
      (m : CommandMessage J) (received_at now : ℕ) (s : CommandService J)
      → Holds env s
      → Holds env (handle_command_message env m received_at now s)
  unfolding handle_command_message
  handle_command_message-Holds other_topic received_at now s v = v
  handle_command_message-Holds (device_ack device_id type ack) received_at now s v =
      handle_device_ack-Holds env device_id type ack now s v
  handle_command_message-Holds (source_request source_id type parse) received_at now s v =
      handle_request-Holds source_id type parse received_at s v

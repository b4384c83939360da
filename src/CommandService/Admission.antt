-- ===== src/CommandService/Admission.antt =====
-- core/runtime/command_service.cpp: what a request of a source leads to.
use cns_server.Base.{
  ℕ, suc, ◌+◌, ◌≤◌, ◌≡◌, String, Bool, true, false, [], ◌∷◌, Option, none, some, if◌then◌else◌,
  length, length-append, arith, string_eq, ℕ_eq,
}
use cns_server.Base.Map.{find, insert}
use cns_server.Database.{find_command, CommandDatabaseTask}
use cns_server.Command.{SourceKind, CommandType}
use cns_server.Command.Router.{CommandSource, find_source}
use cns_server.CommandService.{
  accepts, SourceRequest, config_request, control_request, rejected_request, RequestContext,
  OperationKind, CommandOutput, rejects, finding, Environment, CommandService, emit_output,
  submit_operation,
}
use cns_server.CommandService.Publish.{by_type}
use cns_server.CommandService.Results.{request_id_of, protocol_error}
use cns_server.CommandService.Requests.{
  source_refusal, capacity_refusal, error_of, begin_request, admit_request, handle_request,
}
use cns_server.CommandService.Valid.{option_keeps, length-insert_fresh}

-- No operation has an id that is still to be given out.
abbrev pub HasFreshIds : {J : Type 0} → CommandService J → Type 0
HasFreshIds s = (id : ℕ) → s.next_operation_id ≤ id → find id s.operations ≡ none

module _ {J : Type 0} (env : Environment J) where
  -- One message or one operation more, and the capacity kept.
  pub record IsAnswered (s t : CommandService J) : Type 0 where
    pub once : length t.outputs + length t.operations ≡ suc (length s.outputs + length s.operations)
    pub in_capacity :
        length s.active_commands + length s.operations + length s.publications
          ≤ env.max_inflight_commands
        → length t.active_commands + length t.operations + length t.publications
          ≤ env.max_inflight_commands

  emit_output-IsAnswered :
      (o : CommandOutput J) (s : CommandService J) → IsAnswered s (emit_output o s)
  unfolding emit_output
  emit_output-IsAnswered o s = record {
    once = omega (arith, length-append s.outputs (o ∷ []));
    in_capacity = λ le. le;
  }

  submit_operation-IsAnswered :
      (kind : OperationKind) (context : RequestContext J) (task : CommandDatabaseTask J)
      (o : CommandOutput J) (s : CommandService J)
      → HasFreshIds s
      → capacity_refusal env s ≡ none
      → let submitted = submit_operation env kind context task s in
        IsAnswered s (if submitted.1 then submitted.0 else emit_output o submitted.0)
  unfolding submit_operation emit_output capacity_refusal
  submit_operation-IsAnswered kind context task o s v room =
      let fresh = v s.next_operation_id (omega arith) in
      let longer =
        length-insert_fresh s.next_operation_id (record { kind = kind; context = context })
          s.operations fresh in
      by_answer (env.submit_to_database s.port_calls s.next_operation_id task) longer
    where
      by_answer :
          (b : Bool)
          → length
              (insert s.next_operation_id (record { kind = kind; context = context }) s.operations)
            ≡ suc (length s.operations)
          → let called = record s {
            next_operation_id = s.next_operation_id + 1;
            port_calls = s.port_calls + 1;
          } in
            let submitted : CommandService J × Bool =
              if b
              then (
                record called {
                  operations =
                      insert s.next_operation_id
                        (record { kind = kind; context = context })
                        s.operations;
                  outstanding_operations = s.outstanding_operations + 1;
                  database_trace = accepts s.next_operation_id ∷ s.database_trace;
                },
                true,
              )
              else (called, false) in
            IsAnswered s (if submitted.1 then submitted.0 else emit_output o submitted.0)
      by_answer true longer = record {
        once = omega (arith, longer);
        in_capacity = λ le. ground (arith, longer);
      }
      by_answer false longer = record {
        once = omega (arith, length-append s.outputs (o ∷ []));
        in_capacity = λ le. le;
      }

  admit_request-IsAnswered :
      (source_id : String) (source : CommandSource) (type : CommandType) (parsed : SourceRequest J)
      (received_at : ℕ) (s : CommandService J)
      → HasFreshIds s
      → IsAnswered s (admit_request env source_id source type parsed received_at s)
  unfolding admit_request begin_request
  admit_request-IsAnswered source_id source type parsed received_at s v =
      option_keeps (IsAnswered s) (request_id_of parsed) _ _
        (λ n.
          option_keeps (IsAnswered s) (error_of parsed) s _ (λ m. absurd (no_error parsed n m))
            (λ e _. emit_output-IsAnswered _ s))
        (λ id _.
          option_keeps (IsAnswered s) (capacity_refusal env s) _ _
            (λ room.
              submit_operation-IsAnswered finding
                (record {
                  source_id = source_id;
                  source = some source;
                  parsed = parsed;
                  command_type = type;
                  received_at = received_at;
                  deadline = received_at + by_type type env.config_timeout env.control_timeout;
                  target = none;
                  command = none;
                  device_ack_business_status = none;
                })
                (find_command source_id id)
                (rejects source_id (some id) (protocol_error "database_unavailable" "数据库当前不可用")
                  type)
                s v room)
            (λ e _. emit_output-IsAnswered _ s))
    where
      no_error : (p : SourceRequest J) → request_id_of p ≡ none → error_of p ≡ none → ⊥
      no_error (config_request r) n m = ground (arith, n)
      no_error (control_request r) n m = ground (arith, n)
      no_error (rejected_request id payload e) n m = ground (arith, m)

  -- In a state in which no operation has an id that is still to be given out, and whatever the ports
  -- answer: a request of a source makes the messages sent and the operations in flight grow by
  -- exactly one together, and running commands, operations and publications that are
  -- together within the limit on commands stay within it.
  pub handle_request-IsAnswered :
      (source_id : String) (type : CommandType) (parse : SourceKind → SourceRequest J)
      (received_at : ℕ) (s : CommandService J)
      → HasFreshIds s
      → IsAnswered s (handle_request env source_id type parse received_at s)
  unfolding handle_request source_refusal
  handle_request-IsAnswered source_id type parse received_at s v =
      let source = find_source env.sources source_id in
      option_keeps (IsAnswered s) (source_refusal env source) _ _
        (λ accepted.
          option_keeps (IsAnswered s) source s _ (λ missing. absurd (known source accepted missing))
            (λ known _.
              admit_request-IsAnswered source_id known type (parse known.kind) received_at s v))
        (λ e _. emit_output-IsAnswered _ s)
    where
      known : (o : Option CommandSource) → source_refusal env o ≡ none → o ≡ none → ⊥
      known none a m = ground (arith, a)
      known (some source) a m = ground (arith, m)

-- ===== src/CommandService/Valid/Cycle.antt =====
-- core/runtime/command_service.cpp: a pass of the service keeps the tables as they must be.
use cns_server.Base.{ℕ, refl, Bool, List, [], ◌∷◌, Eq, string_eq}
use cns_server.Database.{CommandDatabaseResult}
use cns_server.Command.{SourceKind, CommandRecord, is_terminal, command_status_eq}
use cns_server.Command.Router.{find_source}
use cns_server.CommandService.{SourceRequest, CommandInbound, Environment, CommandService}
use cns_server.CommandService.Cycle.{
  handle_command_results, handle_completions, handle_command_messages, process_commands,
  load_command, load_each,
}
use cns_server.CommandService.Valid.{
  if_keeps, option_keeps, Holds, frame-Holds, retry_deferred_transitions-Holds, activate-Holds,
}
use cns_server.CommandService.Valid.Publish.{handle_publish_completion-Holds}
use cns_server.CommandService.Valid.Answers.{handle_command_result-Holds}
use cns_server.CommandService.Valid.Requests.{handle_command_message-Holds}
use cns_server.CommandService.Valid.Recovery.{process_timeouts_and_recovery-Holds}

module _ {J : Type 0} (env : Environment J) where
  pub load_each-Holds :
      (parse : SourceKind → CommandRecord J → SourceRequest J) (cs : List (CommandRecord J))
      (s : CommandService J)
      → Holds env s
      → Holds env (load_each env parse cs s)
  unfolding load_each load_command
  load_each-Holds parse [] s v = v
  load_each-Holds parse (c ∷ cs) s v = load_each-Holds parse cs (load_command env parse c s) (
      option_keeps (Holds env) (find_source env.sources c.source_id) s _ (λ _. v)
        (λ source _.
          if_keeps (Holds env) (is_terminal c.status) _ _ (λ _. v)
            (λ r.
              activate-Holds env _ c.command_id s
                (record { command = c; present = refl; keyed = refl; running = r }) v)))

module _ {J : Type 0} ⦃e : Eq J⦄ (env : Environment J) where
  handle_command_results-Holds :
      (rs : List (CommandDatabaseResult J)) (now : ℕ) (s : CommandService J)
      → Holds env s
      → Holds env (handle_command_results env rs now s)
  unfolding handle_command_results
  handle_command_results-Holds [] now s v = v
  handle_command_results-Holds (r ∷ rs) now s v =
      handle_command_results-Holds rs now _ (handle_command_result-Holds env r now s v)

  handle_completions-Holds :
      (ps : List (ℕ × Bool)) (now : ℕ) (s : CommandService J)
      → Holds env s
      → Holds env (handle_completions env ps now s)
  unfolding handle_completions
  handle_completions-Holds [] now s v = v
  handle_completions-Holds ((token, result) ∷ ps) now s v =
      handle_completions-Holds ps now _ (handle_publish_completion-Holds env token result now s v)

  handle_command_messages-Holds :
      (ms : List (CommandInbound J)) (now : ℕ) (s : CommandService J)
      → Holds env s
      → Holds env (handle_command_messages env ms now s)
  unfolding handle_command_messages
  handle_command_messages-Holds [] now s v = v
  handle_command_messages-Holds (m ∷ ms) now s v =
      handle_command_messages-Holds ms now _
        (handle_command_message-Holds env m.content m.received_at now s v)

  pub process_commands-Holds :
      (now : ℕ) (s : CommandService J) → Holds env s → Holds env (process_commands env now s)
  unfolding process_commands
  process_commands-Holds now s v = process_timeouts_and_recovery-Holds env now _ (
      retry_deferred_transitions-Holds env _ (
        handle_command_messages-Holds s.messages now _ (
          handle_completions-Holds s.publish_completions now _ (
            handle_command_results-Holds s.database_results now _ (
              frame-Holds env
                (record {
                  outstanding = refl;
                  next = refl;
                  operations = refl;
                  completed = refl;
                  active = refl;
                  trace = refl;
                })
                v)))))

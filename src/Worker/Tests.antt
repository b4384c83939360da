-- ===== src/Worker/Tests.antt =====
-- The worker in a run in which the database is lost and comes back.
use cns_server.Base.{
  ℕ, ◌+◌, ◌≤◌, ◌≡◌, ◌≢◌, ◌⊎◌, refl, true, false, List, [], ◌∷◌, none, ok, unexpected, length, ℕ_eq,
  string_eq, arith,
}
use cns_server.Base.Map.{find, insert, contains}
use cns_server.Registry.Tests.{box}
use cns_server.Dirty.{DesiredDeviceWrite, immediate}
use cns_server.Database.{
  StorePort, returned, unavailable, threw, find_command_by_id, perform, answer,
}
use cns_server.Worker.{
  stopped, new_worker, submit_write, submit_command, merge_write, merged, take, settle, settle_job,
}
use cns_server.Worker.Events.{
  Event, submits_command, takes, settles, run, step, acceptances, answers, outputs_of,
}
use cns_server.Worker.Accounts.{queued, in_job, in_flight}
use cns_server.Worker.Settling.{run-new_worker_accounts}
use cns_server.Worker.Held.{IsHeld, IsReported}
use cns_server.Worker.Delivery.{submit_write-run_delivers}

abbrev broken : StorePort ℕ
broken = record {
  provision = λ r t. threw;
  write = λ w. returned (unexpected (record { kind = unavailable; message = "" }));
  reconnect_and_validate = returned (ok tt);
  find_command = λ s r. threw;
  find_command_by_id = λ c. returned (ok none);
  insert_command = λ c. threw;
  transition_command = λ c a b u. threw;
  cleanup_commands = λ b n. threw;
  recover_control_commands = λ a n. threw;
}

abbrev events : List (Event ℕ)
events =
    submits_command 7 (find_command_by_id "c")
    ∷ takes false 1
    ∷ settles broken 1
    ∷ takes false 2
    ∷ settles broken 2
    ∷ takes false 3
    ∷ takes false 9
    ∷ settles broken 9
    ∷ []

run-new_worker_accounts_example :
    let t = run 2 5 events new_worker in
    (length t.command_operations ≤ 2)
    × ((id : ℕ) → queued id t.commands + in_job id t.job ≡ in_flight id t)
    × ((id : ℕ)
        → (t.job ≢ stopped)
        → acceptances 2 5 id events new_worker ≡ answers 2 5 id events new_worker + in_flight id t)
run-new_worker_accounts_example = run-new_worker_accounts 2 5 events

abbrev status_write : DesiredDeviceWrite ℕ
status_write = record {
  device = box "a" 1 "north" "L1";
  revision = 4;
  write_metadata = false;
  write_status = true;
  write_telemetry = false;
  urgency = immediate;
}

accepted : (submit_write status_write (run 2 5 [] new_worker)).1 ≡ true
unfolding run submit_write
accepted = refl

live : (run 2 5 events (submit_write status_write (run 2 5 [] new_worker)).0).job ≢ stopped
unfolding run step submit_write merge_write merged submit_command contains find insert take settle
    settle_job answer perform
live = λ e. ground arith

submit_write-run_delivers_example :
    IsHeld status_write (run 2 5 events (submit_write status_write (run 2 5 [] new_worker)).0)
    ⊎ IsReported status_write
        (outputs_of 2 5 events (submit_write status_write (run 2 5 [] new_worker)).0)
submit_write-run_delivers_example =
    submit_write-run_delivers 2 5 [] events status_write accepted live

-- ===== src/Worker/Settling.antt =====
-- core/runtime/postgres_worker.cpp: the operations of commands when the database answers, and in any
-- run.
use cns_server.Device.{DeviceRecord}
use cns_server.Base.{
  string_eq, nat_eq_iff, nat_eq_iff, ℕ, ◌+◌, ◌≤◌, ◌≡◌, ◌≢◌, refl, String, List, [], ◌∷◌, none,
  Expected, ok, unexpected, length, ℕ_eq, arith,
}
use cns_server.Base.Map.{find, contains, find-erase}
use cns_server.Dirty.{DesiredDeviceWrite}
use cns_server.Database.{
  ErrorKind, CommandDatabaseTask, CommandDatabaseValue, DatabaseError, unavailable, permanent,
  StorePort,
}
use cns_server.Worker.{
  ProvisionTask, Job, idle, stopped, reconnect, command, provision, write, PostgresWorker, Output,
  new_worker, settle, settle_job, finish, lose, settle_reconnect, settle_command, settle_provision,
  settle_write, answer_command,
}
use cns_server.Worker.Events.{
  Event, submits_provision, submits_write, submits_command, flushes, takes, settles, step, run,
  acceptances, answers,
}
use cns_server.Worker.Accounts.{
  IsAccounted, IsStep, queued, in_job, in_flight, untouched, command_step, provision_step,
  write_step, flush_step, take_step, length-erase,
}

module _ {J : Type 0} where
  module _ (max_inflight interval : ℕ) (s : PostgresWorker J) (v : IsAccounted max_inflight s) where
    abbrev After : PostgresWorker J × List (Output J) → Type 0
    After f = IsStep max_inflight s (record { worker = f.0; accepted = none; outputs = f.1 })

    reconnecting :
        (now : ℕ) (kind : ErrorKind) (message : String)
        → s.job ≡ reconnect
        → After (
            settle_reconnect now interval
              (unexpected (record { kind = kind; message = message }))
              s)
    unfolding settle_reconnect finish queued contains find
    reconnecting now unavailable m at =
        untouched max_inflight interval s v _ _ refl refl (λ j. ground arith) (λ j. refl)
          (λ e. ground arith)
    reconnecting now permanent m at = record {
      accounted = record { exact = λ id. refl; bounded = ground arith };
      balanced = λ id n. absurd (n refl);
      ends = λ e. refl;
    }

    reconnected :
        (now : ℕ) (r : Expected DatabaseError Unit)
        → s.job ≡ reconnect
        → After (settle_reconnect now interval r s)
    unfolding settle_reconnect
    reconnected now (ok u) at =
        untouched max_inflight interval s v _ _ refl refl (λ j. ground arith) (λ j. refl)
          (λ e. ground arith)
    reconnected now (unexpected e) at = reconnecting now e.kind e.message at

    answered :
        (id : ℕ) (task : CommandDatabaseTask J)
        (value : Expected DatabaseError (CommandDatabaseValue J))
        → s.job ≡ command id task
        → After (answer_command id value s)
    unfolding answer_command contains
    answered id task value e = record {
      accounted = record {
        exact =
            λ j. ground (arith, v.exact j, find-erase id j s.command_operations, nat_eq_iff id j);
        bounded = ground (arith, length-erase id s.command_operations, v.bounded);
      };
      balanced =
          λ j n. ground (arith, v.exact j, find-erase id j s.command_operations, nat_eq_iff id j);
      ends = λ f. ground arith;
    }

    command_failed :
        (now id : ℕ) (task : CommandDatabaseTask J) (kind : ErrorKind) (message : String)
        → s.job ≡ command id task
        → After (
            settle_command now interval id task
              (unexpected (record { kind = kind; message = message }))
              s)
    unfolding settle_command lose queued
    command_failed now id task unavailable m at = record {
      accounted = record { exact = λ i. ground (arith, v.exact i); bounded = v.bounded };
      balanced = λ i n. ground arith;
      ends = λ e. ground arith;
    }
    command_failed now id task permanent m at = answered id task _ at

    command_settled :
        (now id : ℕ) (task : CommandDatabaseTask J)
        (r : Expected DatabaseError (CommandDatabaseValue J))
        → s.job ≡ command id task
        → After (settle_command now interval id task r s)
    unfolding settle_command
    command_settled now id task (ok value) at = answered id task (ok value) at
    command_settled now id task (unexpected e) at = command_failed now id task e.kind e.message at

    provision_settled :
        (now : ℕ) (id : String) (p : ProvisionTask J) (r : Expected DatabaseError (DeviceRecord J))
        → s.job ≡ provision p
        → After (settle_provision now interval id r s)
    unfolding settle_provision lose
    provision_settled now id p (ok r) at =
        untouched max_inflight interval s v _ _ refl refl (λ j. ground arith) (λ j. refl)
          (λ e. ground arith)
    provision_settled now id p (unexpected e) at = failed e.kind e.message
      where
        failed :
            (kind : ErrorKind) (m : String)
            → After (
                settle_provision now interval id
                  (unexpected (record { kind = kind; message = m }))
                  s)
        failed unavailable m =
            untouched max_inflight interval s v _ _ refl refl (λ j. ground arith) (λ j. refl)
              (λ e. ground arith)
        failed permanent m =
            untouched max_inflight interval s v _ _ refl refl (λ j. ground arith) (λ j. refl)
              (λ e. ground arith)

    write_settled :
        (now : ℕ) (w : DesiredDeviceWrite J) (r : Expected DatabaseError Unit)
        → s.job ≡ write w
        → After (settle_write now interval w r s)
    unfolding settle_write lose
    write_settled now w (ok u) at =
        untouched max_inflight interval s v _ _ refl refl (λ j. ground arith) (λ j. refl)
          (λ e. ground arith)
    write_settled now w (unexpected e) at = failed e.kind e.message
      where
        failed :
            (kind : ErrorKind) (m : String)
            → After
                (settle_write now interval w (unexpected (record { kind = kind; message = m })) s)
        failed unavailable m =
            untouched max_inflight interval s v _ _ refl refl (λ j. ground arith) (λ j. refl)
              (λ e. ground arith)
        failed permanent m =
            untouched max_inflight interval s v _ _ refl refl (λ j. ground arith) (λ j. refl)
              (λ e. ground arith)

    settle_step :
        (store : StorePort J) (now : ℕ)
        → IsStep max_inflight s (step max_inflight interval (settles store now) s)
    unfolding step settle
    settle_step store now = of_job s.job refl
      where
        of_job : (j : Job J) → s.job ≡ j → After (settle_job store now interval j s)
        of_job idle e =
            untouched max_inflight interval s v s [] refl refl (λ j. refl) (λ j. refl) (λ e. e)
        of_job stopped e =
            untouched max_inflight interval s v s [] refl refl (λ j. refl) (λ j. refl) (λ e. e)
        of_job reconnect e = reconnected now _ e
        of_job (command id task) e = command_settled now id task _ e
        of_job (provision p) e = provision_settled now _ p _ e
        of_job (write w) e = write_settled now w _ e

    pub any_step : (e : Event J) → IsStep max_inflight s (step max_inflight interval e s)
    any_step (submits_provision r at) = provision_step max_inflight interval s v r at
    any_step (submits_write w) = write_step max_inflight interval s v w
    any_step (submits_command id task) = command_step max_inflight interval s v id task
    any_step flushes = flush_step max_inflight interval s v
    any_step (takes stop now) = take_step max_inflight interval s v stop now
    any_step (settles store now) = settle_step store now

  module _ (max_inflight interval : ℕ) where
    pub new-IsAccounted : IsAccounted max_inflight (new_worker {J = J})
    unfolding queued contains find
    new-IsAccounted = record { exact = λ id. refl; bounded = ground arith }

    pub stays_stopped :
        (es : List (Event J)) (s : PostgresWorker J)
        → IsAccounted max_inflight s
        → s.job ≡ stopped
        → (run max_inflight interval es s).job ≡ stopped
    unfolding run
    stays_stopped [] s v e = e
    stays_stopped (x ∷ es) s v e =
        let f = any_step max_inflight interval s v x in stays_stopped es _ f.accounted (f.ends e)

    pub run_accounts :
        (es : List (Event J)) (s : PostgresWorker J)
        → IsAccounted max_inflight s
        → let t = run max_inflight interval es s in
          IsAccounted max_inflight t
          × ((id : ℕ)
              → (t.job ≢ stopped)
              → in_flight id t + answers max_inflight interval id es s
                ≡ in_flight id s + acceptances max_inflight interval id es s)
    unfolding run answers acceptances
    run_accounts [] s v = (v, λ id n. ground arith)
    run_accounts (x ∷ es) s v =
        let f = any_step max_inflight interval s v x in
        let t = (step max_inflight interval x s).worker in
        let rest = run_accounts es t f.accounted in
        (
          rest.0,
          λ id n.
              omega (arith, rest.1 id n, f.balanced id (λ e. n (stays_stopped es t f.accounted e))),
        )

    -- From a new worker, after any sequence of calls, iterations and answers of the database: at
    -- most `max_inflight` operations are in flight, those in flight are exactly the ones that wait
    -- or are being worked on, each of them once, and as long as the thread has not ended, an
    -- operation was accepted as often as it was answered, plus once when it is in flight.
    pub run-new_worker_accounts :
        (es : List (Event J))
        → let t = run max_inflight interval es new_worker in
          (length t.command_operations ≤ max_inflight)
          × ((id : ℕ) → queued id t.commands + in_job id t.job ≡ in_flight id t)
          × ((id : ℕ)
              → (t.job ≢ stopped)
              → acceptances max_inflight interval id es new_worker
                ≡ answers max_inflight interval id es new_worker + in_flight id t)
    unfolding contains find
    run-new_worker_accounts es =
        let (v, balance) = run_accounts es new_worker new-IsAccounted in
        (v.bounded, v.exact, λ id n. omega (arith, balance id n))

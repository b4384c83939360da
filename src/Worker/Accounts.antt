-- ===== src/Worker/Accounts.antt =====
-- core/runtime/postgres_worker.cpp: the operations of commands in one call, except an answer.
use mathlib.Core.Path.{subst}
use cns_server.Base.{
  sym, if_true, if_false, string_eq, Bool-cases, nat_eq_iff, nat_eq_iff, inl, inr, ℕ, suc, ◌+◌, ◌≤◌,
  ◌≡◌, ◌≢◌, refl, String, Bool, true, false, not, ◌||◌, List, [], ◌∷◌, ◌++◌, none, some, ◌==◌, leb,
  if◌then◌else◌, length, ℕ_eq, arith,
}
use cns_server.Base.Map.{Map, insert, erase, contains, find-insert}
use cns_server.Protocol.{Registration}
use cns_server.Dirty.{DesiredDeviceWrite}
use cns_server.Database.{CommandDatabaseTask}
use cns_server.Worker.{
  ProvisionTask, Job, idle, stopped, command, PostgresWorker, Output, submit_provision,
  submit_write, submit_command, flush_and_stop, take, take_command, take_provision, take_write,
  finish,
}
use cns_server.Worker.Events.{
  submits_provision, submits_write, submits_command, flushes, takes, Effect, is_idle, step,
  answers_in, is_id,
}

length-insert : (k : ℕ) (m : Map {0, 0} ℕ Unit) → length (insert k tt m) ≤ suc (length m)
unfolding insert
length-insert k [] = ground arith
length-insert k ((i, w) ∷ m) = ground (arith, length-insert k m)

pub length-erase : (k : ℕ) (m : Map {0, 0} ℕ Unit) → length (erase k m) ≤ length m
unfolding erase
length-erase k [] = ground arith
length-erase k ((i, w) ∷ m) = ground (arith, length-erase k m)

module _ {J : Type 0} where
  unfoldable pub queued : ℕ → List (ℕ × CommandDatabaseTask J) → ℕ
  queued id [] = 0
  queued id ((j, task) ∷ rest) = (if j == id then 1 else 0) + queued id rest

  abbrev pub in_job : ℕ → Job J → ℕ
  in_job id (command j task) = if j == id then 1 else 0
  in_job id _ = 0

  -- Whether an operation is in flight.
  abbrev pub in_flight : ℕ → PostgresWorker J → ℕ
  in_flight id s = if contains id s.command_operations then 1 else 0

  pub record IsAccounted (max_inflight : ℕ) (s : PostgresWorker J) : Type 0 where
    pub exact : (id : ℕ) → queued id s.commands + in_job id s.job ≡ in_flight id s
    pub bounded : length s.command_operations ≤ max_inflight

  queued-append :
      (id : ℕ) (xs : List (ℕ × CommandDatabaseTask J)) (j : ℕ) (task : CommandDatabaseTask J)
      → queued id (xs ++ (j, task) ∷ []) ≡ queued id xs + (if j == id then 1 else 0)
  unfolding queued
  queued-append id [] j task = ground arith
  queued-append id ((i, t) ∷ xs) j task = ground (arith, queued-append id xs j task)

  -- What a step of the worker keeps, and how it accounts for an operation.
  pub record IsStep (max_inflight : ℕ) (s : PostgresWorker J) (f : Effect J) : Type 0 where
    pub accounted : IsAccounted max_inflight f.worker
    pub balanced :
        (id : ℕ)
        → (f.worker.job ≢ stopped)
        → in_flight id f.worker + answers_in id f.outputs ≡ in_flight id s + is_id id f.accepted
    pub ends : s.job ≡ stopped → f.worker.job ≡ stopped

  module _ (max_inflight interval : ℕ) (s : PostgresWorker J) (v : IsAccounted max_inflight s) where
    pub untouched :
        (t : PostgresWorker J) (outputs : List (Output J))
        → t.command_operations ≡ s.command_operations
        → t.commands ≡ s.commands
        → ((id : ℕ) → in_job id t.job ≡ in_job id s.job)
        → ((id : ℕ) → answers_in id outputs ≡ 0)
        → (s.job ≡ stopped → t.job ≡ stopped)
        → IsStep max_inflight s (record { worker = t; accepted = none; outputs = outputs })
    untouched t outputs o c j a e = record {
      accounted = record {
        exact = λ id. ground (arith, v.exact id, j id);
        bounded = ground (arith, v.bounded);
      };
      balanced = λ id n. ground (arith, a id);
      ends = e;
    }

    admitted :
        (id : ℕ) (task : CommandDatabaseTask J)
        → contains id s.command_operations ≡ false
        → leb max_inflight (length s.command_operations) ≡ false
        → IsStep max_inflight s (record {
          worker = record s {
            command_operations = insert id tt s.command_operations;
            commands = s.commands ++ (id, task) ∷ [];
          };
          accepted = some id;
          outputs = [];
        })
    unfolding contains
    admitted id task fresh room = record {
      accounted = record {
        exact = λ j. ground (
          arith,
          v.exact j,
          queued-append j s.commands id task,
          find-insert id j tt s.command_operations,
          nat_eq_iff id j,
        );
        bounded = ground (arith, length-insert id s.command_operations);
      };
      balanced = λ j n. ground (arith, find-insert id j tt s.command_operations, nat_eq_iff id j);
      ends = λ e. e;
    }

    pub command_step :
        (id : ℕ) (task : CommandDatabaseTask J)
        → IsStep max_inflight s (step max_inflight interval (submits_command id task) s)
    unfolding step submit_command contains
    command_step id task = elim (Bool-cases refused) [
      | inl r ↦ rw r (untouched s [] refl refl (λ j. refl) (λ j. refl) (λ e. e))
      | inr r ↦ rw r (admitted id task (ground arith) (ground arith))
    ]
      where
        refused : Bool
        refused =
            not s.is_accepting
            || contains id s.command_operations
            || leb max_inflight (length s.command_operations)

    pub provision_step :
        (r : Registration J) (at : ℕ)
        → IsStep max_inflight s (step max_inflight interval (submits_provision r at) s)
    unfolding step submit_provision
    provision_step r at =
        untouched (submit_provision r at s).0 [] (ground arith) (ground arith) (λ j. ground arith)
          (λ j. refl) (λ e. ground arith)

    pub write_step :
        (w : DesiredDeviceWrite J)
        → IsStep max_inflight s (step max_inflight interval (submits_write w) s)
    unfolding step submit_write
    write_step w =
        untouched (submit_write w s).0 [] (ground arith) (ground arith) (λ j. ground arith)
          (λ j. refl) (λ e. ground arith)

    pub flush_step : IsStep max_inflight s (step max_inflight interval flushes s)
    unfolding step flush_and_stop
    flush_step = untouched _ [] refl refl (λ j. refl) (λ j. refl) (λ e. e)

    taking_write :
        (ws : Map String (DesiredDeviceWrite J))
        → s.job ≡ idle
        → IsStep max_inflight s (record { worker = take_write s ws; accepted = none; outputs = [] })
    unfolding take_write finish
    taking_write [] i =
        untouched (take_write s []) [] (ground arith) (ground arith) (λ j. ground arith) (λ j. refl)
          (λ e. ground arith)
    taking_write ((id, w) ∷ rest) i =
        untouched (take_write s ((id, w) ∷ rest)) [] refl refl (λ j. ground arith) (λ j. refl)
          (λ e. ground arith)

    taking_provision :
        (ps : Map String (ProvisionTask J))
        → s.job ≡ idle
        → IsStep max_inflight s
            (record { worker = take_provision s ps; accepted = none; outputs = [] })
    unfolding take_provision
    taking_provision [] i = taking_write s.writes i
    taking_provision ((id, p) ∷ rest) i =
        untouched (take_provision s ((id, p) ∷ rest)) [] refl refl (λ j. ground arith) (λ j. refl)
          (λ e. ground arith)

    taking_command :
        (cs : List (ℕ × CommandDatabaseTask J))
        → s.commands ≡ cs
        → s.job ≡ idle
        → IsStep max_inflight s
            (record { worker = take_command s cs; accepted = none; outputs = [] })
    unfolding take_command queued
    taking_command [] c i = taking_provision s.provisions i
    taking_command ((id, task) ∷ rest) c i = record {
      accounted = record { exact = λ j. ground (arith, v.exact j); bounded = v.bounded };
      balanced = λ j n. ground arith;
      ends = λ e. ground arith;
    }

    taking :
        (stop : Bool) (now : ℕ)
        → s.job ≡ idle
        → IsStep max_inflight s (record { worker = take stop now s; accepted = none; outputs = [] })
    unfolding take finish
    taking true now i =
        untouched (take true now s) [] refl refl (λ j. ground arith) (λ j. refl) (λ e. refl)
    taking false now i = elim (Bool-cases s.is_unavailable) [
      | inl e ↦
          untouched (take false now s) [] (ground arith) (ground arith) (λ j. ground arith)
            (λ j. refl) (λ e. ground arith)
      | inr e ↦
          subst (λ t. IsStep max_inflight s (record { worker = t; accepted = none; outputs = [] }))
            (sym (if_false _ _ e)) (taking_command s.commands refl i)
    ]

    idle_job : (j : Job J) → is_idle j ≡ true → j ≡ idle
    idle_job j e = ground arith

    pub take_step :
        (stop : Bool) (now : ℕ)
        → IsStep max_inflight s (step max_inflight interval (takes stop now) s)
    unfolding step
    take_step stop now = elim (Bool-cases (is_idle s.job)) [
      | inl e ↦
          subst (λ t. IsStep max_inflight s (record { worker = t; accepted = none; outputs = [] }))
            (sym (if_true _ _ e)) (taking stop now (idle_job s.job e))
      | inr e ↦
          subst (λ t. IsStep max_inflight s (record { worker = t; accepted = none; outputs = [] }))
            (sym (if_false _ _ e)) (untouched s [] refl refl (λ j. refl) (λ j. refl) (λ e. e))
    ]

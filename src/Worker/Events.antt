-- ===== src/Worker/Events.antt =====
-- core/runtime/postgres_worker.cpp: the calls of the worker in any order. A call that falls outside
-- an iteration's two steps changes nothing: `take` needs an idle thread.
use cns_server.Base.{
  string_eq, ℕ, ◌+◌, Bool, true, false, List, [], ◌∷◌, ◌++◌, Option, none, some, ◌==◌,
  if◌then◌else◌, ℕ_eq,
}
use cns_server.Protocol.{Registration}
use cns_server.Dirty.{DesiredDeviceWrite}
use cns_server.Database.{CommandDatabaseTask, StorePort}
use cns_server.Worker.{
  Job, idle, PostgresWorker, Output, emitted_command, submit_provision, submit_write,
  submit_command, flush_and_stop, take, settle,
}

-- The calls that change the worker.
pub data Event (J : Type 0) : Type 0 where
  submits_provision : Registration J → ℕ → Event J
  submits_write : DesiredDeviceWrite J → Event J
  submits_command : ℕ → CommandDatabaseTask J → Event J
  flushes : Event J
  takes : Bool → ℕ → Event J
  settles : StorePort J → ℕ → Event J

-- What a call does: the state after it, the operation it accepts and its outputs.
pub record Effect (J : Type 0) : Type 0 where
  pub worker : PostgresWorker J
  pub accepted : Option ℕ
  pub outputs : List (Output J)

abbrev pub is_idle : {J : Type 0} → Job J → Bool
is_idle idle = true
is_idle _ = false

abbrev pub answers_in : {J : Type 0} → ℕ → List (Output J) → ℕ
answers_in id [] = 0
answers_in id (emitted_command r ∷ os) = (if r.operation_id == id then 1 else 0) + answers_in id os
answers_in id (_ ∷ os) = answers_in id os

abbrev pub is_id : ℕ → Option ℕ → ℕ
is_id id none = 0
is_id id (some j) = if j == id then 1 else 0

module _ {J : Type 0} (max_inflight interval : ℕ) where
  unfoldable pub step : Event J → PostgresWorker J → Effect J
  unfolding submit_provision submit_write submit_command flush_and_stop take settle
  step (submits_provision r at) s = record {
    worker = (submit_provision r at s).0;
    accepted = none;
    outputs = [];
  }
  step (submits_write w) s = record { worker = (submit_write w s).0; accepted = none; outputs = [] }
  step (submits_command id task) s =
      let answer = submit_command max_inflight id task s in
      record { worker = answer.0; accepted = if answer.1 then some id else none; outputs = [] }
  step flushes s = record { worker = flush_and_stop s; accepted = none; outputs = [] }
  step (takes stop now) s = record {
    worker = if is_idle s.job then take stop now s else s;
    accepted = none;
    outputs = [];
  }
  step (settles store now) s =
      let after = settle store now interval s in
      record { worker = after.0; accepted = none; outputs = after.1 }

  unfoldable pub run : List (Event J) → PostgresWorker J → PostgresWorker J
  run [] s = s
  run (e ∷ es) s = run es (step e s).worker

  -- How often an operation is accepted in a run, and answered.
  unfoldable pub acceptances : ℕ → List (Event J) → PostgresWorker J → ℕ
  acceptances id [] s = 0
  acceptances id (e ∷ es) s = is_id id (step e s).accepted + acceptances id es (step e s).worker

  unfoldable pub answers : ℕ → List (Event J) → PostgresWorker J → ℕ
  answers id [] s = 0
  answers id (e ∷ es) s = answers_in id (step e s).outputs + answers id es (step e s).worker

  unfoldable pub outputs_of : List (Event J) → PostgresWorker J → List (Output J)
  outputs_of [] s = []
  outputs_of (e ∷ es) s = (step e s).outputs ++ outputs_of es (step e s).worker

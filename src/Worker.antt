-- ===== src/Worker.antt =====
-- core/runtime/postgres_worker.cpp: the thread that alone calls the database. What other threads
-- call runs under the mutex, so does every part of Run between two calls of the port: they are
-- steps on one state. Run is cut in two steps, `take` up to the call of the port and `settle` after
-- it, so that other calls can fall between them. The store is an argument of each step: it may
-- answer differently every time. Callbacks are outputs, and do not throw.
pub mod Events
pub mod Merge
pub mod Accounts
pub mod Settling
pub mod Held
pub mod Delivery
pub mod Tests
use cns_server.Base.{
  ℕ, suc, ◌+◌, String, Bool, true, false, not, ◌&&◌, ◌||◌, List, [], ◌∷◌, ◌++◌, Option, none, some,
  ◌==◌, ltb, leb, if◌then◌else◌, Expected, ok, unexpected, length, ℕ_eq, string_eq,
}
use cns_server.Base.Map.{Map, find, insert, erase, contains}
use cns_server.Protocol.{Registration}
use cns_server.Device.{DeviceRecord}
use cns_server.Dirty.{DesiredDeviceWrite, Urgency, immediate, telemetry_batch}
use cns_server.Database.{
  ErrorKind, unavailable, permanent, DatabaseError, CommandDatabaseTask, CommandDatabaseValue,
  StorePort, answer, perform, ResultKind, provisioned, write_completed, database_unavailable,
  database_recovered, permanent_failure, DatabaseResult, CommandDatabaseResult,
}

pub record ProvisionTask (J : Type 0) : Type 0 where
  pub registration : Registration J
  pub received_at : ℕ

-- What Run works on between its two steps: the local variables of an iteration.
pub data Job (J : Type 0) : Type 0 where
  idle stopped reconnect : Job J
  command : ℕ → CommandDatabaseTask J → Job J
  provision : ProvisionTask J → Job J
  write : DesiredDeviceWrite J → Job J

pub record PostgresWorker (J : Type 0) : Type 0 where
  pub provisions : Map String (ProvisionTask J)
  pub writes : Map String (DesiredDeviceWrite J)
  pub provisioning : Map {0, 0} String Unit
  pub commands : List (ℕ × CommandDatabaseTask J)
  pub command_operations : Map {0, 0} ℕ Unit
  pub is_unavailable : Bool
  pub is_accepting : Bool
  pub is_drain_requested : Bool
  pub is_worker_stopped : Bool
  pub reconnect_at : ℕ
  pub job : Job J

pub data Output (J : Type 0) : Type 0 where
  emitted : DatabaseResult J → Output J
  emitted_command : CommandDatabaseResult J → Output J
  replayed : Output J
  diagnosed : String → Output J

abbrev pub is_immediate : Urgency → Bool
is_immediate immediate = true
is_immediate telemetry_batch = false

-- The ids under which a map has an entry, put into a set.
unfoldable pub add_ids :
    {V : Type 0} → Map {0, 0} String V → Map {0, 0} String Unit → Map {0, 0} String Unit
add_ids [] ids = ids
add_ids ((id, v) ∷ m) ids = add_ids m (insert id tt ids)

module _ {J : Type 0} where
  abbrev pub new_worker : PostgresWorker J
  new_worker = record {
    provisions = [];
    writes = [];
    provisioning = [];
    commands = [];
    command_operations = [];
    is_unavailable = false;
    is_accepting = true;
    is_drain_requested = false;
    is_worker_stopped = false;
    reconnect_at = 0;
    job = idle;
  }

  unfoldable pub submit_provision : Registration J → ℕ → PostgresWorker J → PostgresWorker J × Bool
  submit_provision registration at s =
      if not s.is_accepting || s.is_unavailable
      then (s, false)
      else if contains registration.device_id s.provisioning
      then (s, false)
      else (record s { provisions = insert registration.device_id task s.provisions }, true)
    where
      task : ProvisionTask J
      task = record { registration = registration; received_at = at }

  -- The writes to an entry that MergeWrite finds.
  unfoldable pub merge_into : DesiredDeviceWrite J → DesiredDeviceWrite J → DesiredDeviceWrite J
  merge_into new current = record {
    device = if newer then new.device else current.device;
    revision = if newer then new.revision else current.revision;
    write_metadata = current.write_metadata || new.write_metadata;
    write_status = current.write_status || new.write_status;
    write_telemetry = current.write_telemetry || new.write_telemetry;
    urgency = if is_immediate new.urgency then immediate else current.urgency;
  }
    where
      newer : Bool
      newer = leb current.revision new.revision

  unfoldable pub merged :
      DesiredDeviceWrite J → Option (DesiredDeviceWrite J) → DesiredDeviceWrite J
  unfolding merge_into
  merged w none = w
  merged w (some current) = merge_into w current

  -- MergeWrite
  unfoldable pub merge_write :
      DesiredDeviceWrite J → Map String (DesiredDeviceWrite J) → Map String (DesiredDeviceWrite J)
  unfolding merged
  merge_write w m = insert w.device.device_id (merged w (find w.device.device_id m)) m

  unfoldable pub submit_write : DesiredDeviceWrite J → PostgresWorker J → PostgresWorker J × Bool
  unfolding merge_write
  submit_write w s =
      if s.is_accepting then (record s { writes = merge_write w s.writes }, true) else (s, false)

  unfoldable pub submit_command :
      ℕ → ℕ → CommandDatabaseTask J → PostgresWorker J → PostgresWorker J × Bool
  submit_command max_inflight id task s =
      if not s.is_accepting
        || contains id s.command_operations
        || leb max_inflight (length s.command_operations)
      then (s, false)
      else (
        record s {
          command_operations = insert id tt s.command_operations;
          commands = s.commands ++ (id, task) ∷ [];
        },
        true,
      )

  -- The request of FlushAndStop; the waiting after it changes nothing.
  unfoldable pub flush_and_stop : PostgresWorker J → PostgresWorker J
  flush_and_stop s = record s { is_accepting = false; is_drain_requested = true }

  -- Finish, and the return from Run.
  unfoldable pub finish : PostgresWorker J → PostgresWorker J
  finish s = record s { is_worker_stopped = true; is_accepting = false; job = stopped }

  unfoldable pub take_write :
      PostgresWorker J → Map String (DesiredDeviceWrite J) → PostgresWorker J
  unfolding finish
  take_write s [] = if s.is_drain_requested then finish s else s
  take_write s ((id, w) ∷ rest) = record s { writes = rest; job = write w }

  unfoldable pub take_provision : PostgresWorker J → Map String (ProvisionTask J) → PostgresWorker J
  unfolding take_write
  take_provision s [] = take_write s s.writes
  take_provision s ((id, p) ∷ rest) = record s {
    provisions = rest;
    provisioning = insert id tt s.provisioning;
    job = provision p;
  }

  unfoldable pub take_command :
      PostgresWorker J → List (ℕ × CommandDatabaseTask J) → PostgresWorker J
  unfolding take_provision
  take_command s [] = take_provision s s.provisions
  take_command s ((id, task) ∷ rest) = record s { commands = rest; job = command id task }

  -- The part of an iteration under the first lock, at a time of the steady clock.
  unfoldable pub take : Bool → ℕ → PostgresWorker J → PostgresWorker J
  unfolding take_command
  take stop_requested now s =
      if stop_requested
      then finish s
      else if s.is_unavailable
      then if ltb now s.reconnect_at then s else record s { job = reconnect }
      else take_command s s.commands

  -- The connection is lost: the provisions that wait are dropped.
  unfoldable pub lose : ℕ → ℕ → PostgresWorker J → PostgresWorker J
  lose now interval s = record s {
    is_unavailable = true;
    reconnect_at = now + interval;
    provisions = [];
    job = idle;
  }

  abbrev pub plain_result : ResultKind → String → ℕ → String → DatabaseResult J
  plain_result kind device_id revision error = record {
    kind = kind;
    device_id = device_id;
    revision = revision;
    device = none;
    error = error;
  }

  abbrev pub failed_with : ResultKind → String → ℕ → String → List (Output J)
  failed_with kind device_id revision context =
      emitted (plain_result kind device_id revision context) ∷ diagnosed context ∷ []

  unfoldable pub settle_reconnect :
      ℕ → ℕ → Expected DatabaseError Unit → PostgresWorker J → PostgresWorker J × List (Output J)
  unfolding finish
  settle_reconnect now interval (ok _) s = (
    record s { is_unavailable = false; job = idle },
    emitted (plain_result database_recovered "" 0 "") ∷ replayed ∷ [],
  )
  settle_reconnect now interval (unexpected e) s = elim e.kind [
    | unavailable ↦
        (record s { reconnect_at = now + interval; job = idle }, diagnosed "数据库重连暂不可用" ∷ [])
    | permanent ↦ (
      finish (record s { provisions = []; writes = []; commands = []; command_operations = [] }),
      failed_with permanent_failure "" 0 "数据库迁移版本校验永久失败",
    )
  ]

  unfoldable pub answer_command :
      ℕ
      → Expected DatabaseError (CommandDatabaseValue J)
      → PostgresWorker J
      → PostgresWorker J × List (Output J)
  answer_command id value s = (
    record s { command_operations = erase id s.command_operations; job = idle },
    emitted_command (record { operation_id = id; value = value }) ∷ [],
  )

  unfoldable pub settle_command :
      ℕ
      → ℕ
      → ℕ
      → CommandDatabaseTask J
      → Expected DatabaseError (CommandDatabaseValue J)
      → PostgresWorker J
      → PostgresWorker J × List (Output J)
  unfolding lose answer_command
  settle_command now interval id task (ok value) s = answer_command id (ok value) s
  settle_command now interval id task (unexpected e) s = elim e.kind [
    | unavailable ↦ (
      record (lose now interval s) { commands = (id, task) ∷ s.commands },
      diagnosed "数据库命令操作暂不可用" ∷ [],
    )
    | permanent ↦ answer_command id (unexpected e) s
  ]

  unfoldable pub settle_provision :
      ℕ
      → ℕ
      → String
      → Expected DatabaseError (DeviceRecord J)
      → PostgresWorker J
      → PostgresWorker J × List (Output J)
  unfolding lose
  settle_provision now interval id result s = elim result [
    | ok r ↦ (
      released,
      emitted (record {
        kind = provisioned;
        device_id = id;
        revision = r.revision;
        device = some r;
        error = "";
      })
          ∷ [],
    )
    | unexpected e ↦ elim e.kind [
      | unavailable ↦
          (lose now interval released, failed_with database_unavailable id 0 "数据库建档暂不可用")
      | permanent ↦ (released, failed_with permanent_failure id 0 "数据库建档永久失败")
    ]
  ]
    where
      released : PostgresWorker J
      released = record s {
        provisioning = erase id s.provisioning;
        provisions = erase id s.provisions;
        job = idle;
      }

  unfoldable pub settle_write :
      ℕ
      → ℕ
      → DesiredDeviceWrite J
      → Expected DatabaseError Unit
      → PostgresWorker J
      → PostgresWorker J × List (Output J)
  unfolding lose merge_write
  settle_write now interval w (ok _) s = (
    record s { job = idle },
    emitted (plain_result write_completed w.device.device_id w.revision "") ∷ [],
  )
  settle_write now interval w (unexpected e) s = elim e.kind [
    | unavailable ↦ (
      record (lose now interval s) { writes = merge_write w s.writes },
      failed_with database_unavailable w.device.device_id w.revision "数据库写入暂不可用",
    )
    | permanent ↦ (
      record s { job = idle },
      failed_with permanent_failure w.device.device_id w.revision "数据库写入永久失败",
    )
  ]

  -- The rest of an iteration: the call of the port, and what its answer does.
  unfoldable pub settle_job :
      StorePort J → ℕ → ℕ → Job J → PostgresWorker J → PostgresWorker J × List (Output J)
  unfolding settle_reconnect settle_command settle_provision settle_write answer perform
  settle_job store now interval idle s = (s, [])
  settle_job store now interval stopped s = (s, [])
  settle_job store now interval reconnect s =
      settle_reconnect now interval (answer "数据库重连校验端口异常" store.reconnect_and_validate) s
  settle_job store now interval (command id task) s =
      settle_command now interval id task (perform store task) s
  settle_job store now interval (provision p) s =
      settle_provision now interval p.registration.device_id
        (answer "数据库建档端口异常" (store.provision p.registration p.received_at)) s
  settle_job store now interval (write w) s =
      settle_write now interval w (answer "数据库写入端口异常" (store.write w)) s

  unfoldable pub settle :
      StorePort J → ℕ → ℕ → PostgresWorker J → PostgresWorker J × List (Output J)
  unfolding settle_job
  settle store now interval s = settle_job store now interval s.job s

  -- PendingDeviceCount
  unfoldable pub pending_device_count : PostgresWorker J → ℕ
  unfolding add_ids
  pending_device_count s =
      length (add_ids s.provisioning (add_ids s.writes (add_ids s.provisions [])))

  -- IsDatabaseAvailable
  unfoldable pub is_database_available : PostgresWorker J → Bool
  is_database_available s = s.is_accepting && not s.is_unavailable

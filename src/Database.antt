-- ===== src/Database.antt =====
-- core/runtime/postgres_worker.hpp and device_service.hpp: the database port, the tasks for it and
-- the results of the worker. A call of the port either returns or throws. The numbers of
-- operations, revisions and batches are 64-bit values that are only copied and compared here.
use cns_server.Base.{ℕ, String, List, Option, Expected, ok, unexpected}
use cns_server.Protocol.{Registration}
use cns_server.Device.{DeviceRecord}
use cns_server.Dirty.{DesiredDeviceWrite}
use cns_server.Command.{CommandRecord, CommandStatus, CommandUpdate}

pub data ErrorKind : Type 0 where
  unavailable permanent : ErrorKind

pub record DatabaseError : Type 0 where
  pub kind : ErrorKind
  pub message : String

pub data CommandDatabaseTask (J : Type 0) : Type 0 where
  find_command : (source_id request_id : String) → CommandDatabaseTask J
  find_command_by_id : (command_id : String) → CommandDatabaseTask J
  insert_command : (command : CommandRecord J) → CommandDatabaseTask J
  transition_command :
      (command_id : String) (expected desired : CommandStatus) (update : CommandUpdate J)
      → CommandDatabaseTask J
  recover_control_commands : (recovered_at limit : ℕ) → CommandDatabaseTask J
  cleanup_commands : (before batch_size : ℕ) → CommandDatabaseTask J

pub data CommandDatabaseValue (J : Type 0) : Type 0 where
  found : Option (CommandRecord J) → CommandDatabaseValue J
  stored : CommandRecord J → CommandDatabaseValue J
  recovered : List (CommandRecord J) → CommandDatabaseValue J
  cleaned : ℕ → CommandDatabaseValue J

-- What a call of the port ends in.
pub data Call (A : Type 0) : Type 0 where
  returned : Expected DatabaseError A → Call A
  threw : Call A

pub record StorePort (J : Type 0) : Type 0 where
  pub provision : Registration J → ℕ → Call (DeviceRecord J)
  pub write : DesiredDeviceWrite J → Call Unit
  pub reconnect_and_validate : Call Unit
  pub find_command : String → String → Call (Option (CommandRecord J))
  pub find_command_by_id : String → Call (Option (CommandRecord J))
  pub insert_command : CommandRecord J → Call (CommandRecord J)
  pub transition_command :
      String → CommandStatus → CommandStatus → CommandUpdate J → Call (CommandRecord J)
  pub cleanup_commands : ℕ → ℕ → Call ℕ
  pub recover_control_commands : ℕ → ℕ → Call (List (CommandRecord J))

-- A call that throws counts as a permanent error.
unfoldable pub answer : {A : Type 0} → String → Call A → Expected DatabaseError A
answer message (returned e) = e
answer message threw = unexpected (record { kind = permanent; message = message })

abbrev pub map_expected : {E A B : Type 0} → (A → B) → Expected E A → Expected E B
map_expected f (ok a) = ok (f a)
map_expected f (unexpected e) = unexpected e

-- The visit of a command task in Run.
unfoldable pub perform :
    {J : Type 0}
    → StorePort J
    → CommandDatabaseTask J
    → Expected DatabaseError (CommandDatabaseValue J)
unfolding answer
perform store (find_command source request) =
    map_expected found (answer "数据库命令端口异常" (store.find_command source request))
perform store (find_command_by_id id) =
    map_expected found (answer "数据库命令端口异常" (store.find_command_by_id id))
perform store (insert_command c) = map_expected stored (answer "数据库命令端口异常" (store.insert_command c))
perform store (transition_command id expected desired update) =
    map_expected stored (answer "数据库命令端口异常" (store.transition_command id expected desired update))
perform store (recover_control_commands at limit) =
    map_expected recovered (answer "数据库命令端口异常" (store.recover_control_commands at limit))
perform store (cleanup_commands before size) =
    map_expected cleaned (answer "数据库命令端口异常" (store.cleanup_commands before size))

pub data ResultKind : Type 0 where
  provisioned write_completed database_unavailable database_recovered permanent_failure : ResultKind

pub record DatabaseResult (J : Type 0) : Type 0 where
  pub kind : ResultKind
  pub device_id : String
  pub revision : ℕ
  pub device : Option (DeviceRecord J)
  pub error : String

pub record CommandDatabaseResult (J : Type 0) : Type 0 where
  pub operation_id : ℕ
  pub value : Expected DatabaseError (CommandDatabaseValue J)

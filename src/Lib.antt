-- ===== src/Lib.antt =====
-- The route service (route_service/src): what its parts guarantee.
--
-- The service receives device messages over MQTT, keeps a directory of devices, writes changes to
-- PostgreSQL in the background, and routes commands of sources to devices. The business thread owns the
-- directory and the dirty state; the database thread owns the connection; they meet in queues and
-- callbacks. Which file models which part, with paths below route_service/src:
--
--   Queue       core/queue/bounded_queue.hpp: TryPush, WaitPop, Close as steps on one state
--   Protocol, StateEvent   the types of core/protocol/device_message.hpp and core/state_event
--   Device, Registry   core/device/device_registry: the records and the two indexes by role;
--               Load, ApplyRegistration, ApplyTelemetry, ExpireInactive, AddProvisioned, the lookups
--   Dirty       core/persistence/dirty_state: Mark, Restore, Complete, TakeMatching and its callers
--   RateLimiter core/runtime/rate_limiter: ShouldEmit
--   Migration   core/migration/migration_plan: ValidateContinuous, BuildMigrationPlan
--   Command     core/command/command_types, command_state (IsTerminal, CanTransition),
--               FormatUuidV4, command_validation, and command_router (SourceCatalog,
--               ResolveConfigTarget, ResolveControlTarget), which works over the directory of Registry
--   Database, Worker   core/runtime/postgres_worker: the port, the Submit calls, FlushAndStop, and an
--               iteration of Run as two steps around the call of the port
--   DeviceService   core/runtime/device_service: SubmitWrite, Mark and DispatchWrites, what a database
--               result and a message do (Results), a pass of the thread and the requests of other threads
--               (Cycle); it works over Registry, Dirty and Queue
--   CommandService   core/runtime/command_service: Submit, the deferred transitions and the remembered
--               commands, the publication (Publish), the device's answers (Acks), the database's
--               answers (Results, Stored), the admission of requests (Requests), timeouts and recovery
--               (Recovery), and a pass (Cycle); it works over Registry and Command
--   SourceParsing   core/command/source_request: ParseSourceConfigRequest and
--               ParseSourceControlRequest, over an interface of the JSON library
--   Runtime, ServiceRunner   core/runtime/service_runner: StartDeviceRuntimeTransaction,
--               DrainDeviceRuntime and RunService as traces of the operations that they call
--   Ingress     core/runtime/device_ingress: Handle, Disable and SaturatingAdd
--   Base        shared tests, lists and maps
--
-- A C++ string is a text, a std::expected is Expected, an optional is Option, a hash map is an
-- association list that is read and written by key; an iteration goes through it in insertion order.
-- Times are ticks since an origin. Revisions are 64-bit and wrap around where the code adds to them
-- (u64); ids and other integers are only copied and compared. JSON values are a parameter J, as they
-- belong to the nlohmann library. The database port is a parameter of every step of the worker, and may
-- return an error or throw. The callbacks of the two services are ports whose answers may depend on how
-- many calls came before. Every definition is total by recursion on its data, but for the eviction of
-- remembered commands, whose fuel is the number of commands: each round evicts one.
--
-- Not modelled: memory, locks and condition variables (an operation under a mutex is one step), the
-- sleeping loops around the passes, the adapters of MQTT and PostgreSQL, the parsing of topics
-- and of device messages (a message comes with what was read from it), the texts of logs, configuration,
-- and the other services of the repository. The ids of the command service's operations do not wrap, and
-- its counter of operations in flight does so only below zero. That service also keeps a list of what
-- passed between it and the database (Open), which no operation reads.
pub mod Base
pub mod Protocol
pub mod StateEvent
pub mod Queue
pub mod Device
pub mod Registry
pub mod Dirty
pub mod RateLimiter
pub mod Migration
pub mod Command
pub mod Database
pub mod Worker
pub mod CommandService
pub mod DeviceService
pub mod Ingress
pub mod Runtime
pub mod ServiceRunner
pub mod SourceParsing

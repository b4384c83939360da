-- ===== src/Runtime.antt =====
-- core/runtime/service_runner.{hpp,cpp}: how the device runtime starts and drains. The operations are
-- parameters: each returns or throws, and the calls made are the trace.
pub mod Order
pub mod Tests
use cns_server.Base.{
  ℕ, String, Bool, true, false, List, [], ◌∷◌, ◌++◌, Expected, ok, unexpected, if◌then◌else◌,
}

-- What an operation ends in.
pub data Result (A : Type 0) : Type 0 where
  returns : A → Result A
  throws_exception throws_unknown : Result A

pub data StartCall : Type 0 where
  configure_handler start_postgres_thread start_device_thread rollback : StartCall

pub record StartOperations : Type 0 where
  pub handler_configured : Result (Expected String Unit)
  pub postgres_thread_started : Result (Expected String Unit)
  pub device_thread_started : Result (Expected String Unit)

-- One operation of the transaction and, when it succeeds, the rest. A rollback that throws is ignored.
unfoldable pub start_step :
    StartCall
    → Result (Expected String Unit)
    → List StartCall × Expected String Unit
    → List StartCall × Expected String Unit
start_step call (returns (ok _)) rest = (call ∷ rest.0, rest.1)
start_step call (returns (unexpected error)) rest = (call ∷ rollback ∷ [], unexpected error)
start_step call throws_exception rest = (call ∷ rollback ∷ [], unexpected "启动设备运行时失败")
start_step call throws_unknown rest = (call ∷ rollback ∷ [], unexpected "启动设备运行时发生未知异常")

-- StartDeviceRuntimeTransaction
unfoldable pub start_device_runtime_transaction :
    StartOperations → List StartCall × Expected String Unit
unfolding start_step
start_device_runtime_transaction ops = start_step configure_handler ops.handler_configured (
    start_step start_postgres_thread ops.postgres_thread_started
      (start_step start_device_thread ops.device_thread_started ([], ok tt)))

pub data DrainCall : Type 0 where
  wait_input_drained wait_database_idle flush_database : DrainCall
  pending_devices disable_external_bridge request_stop join_threads detach_threads : DrainCall
  report_timeout : ℕ → DrainCall

pub record DrainOperations : Type 0 where
  pub input_drained : Result Bool
  pub database_idle : Result Bool
  pub database_flushed : Result Bool
  pub pending_count : Result ℕ
  pub bridge_disabled : Result Unit
  pub stop_requested : Result Unit
  pub threads_joined : Result Unit
  pub threads_detached : Result Unit
  pub timeout_reported : Result Unit

-- The catch block, whose own exceptions are ignored.
abbrev pub abandon : List DrainCall × Bool
abandon = (disable_external_bridge ∷ request_stop ∷ detach_threads ∷ [], false)

-- One call in the try block: an exception leads to the catch block.
unfoldable pub guarded :
    {A : Type 0} → DrainCall → Result A → (A → List DrainCall × Bool) → List DrainCall × Bool
guarded call (returns a) rest = let f = rest a in (call ∷ f.0, f.1)
guarded call throws_exception rest = (call ∷ abandon.0, abandon.1)
guarded call throws_unknown rest = (call ∷ abandon.0, abandon.1)

unfoldable pub drain_finished : DrainOperations → List DrainCall × Bool
unfolding guarded
drain_finished ops =
    guarded join_threads ops.threads_joined
      (λ _. guarded disable_external_bridge ops.bridge_disabled (λ _. ([], true)))

unfoldable pub drain_timed_out : DrainOperations → List DrainCall × Bool
unfolding guarded
drain_timed_out ops = guarded pending_devices ops.pending_count (λ count.
    guarded (report_timeout count) ops.timeout_reported (λ _.
      guarded disable_external_bridge ops.bridge_disabled (λ _.
        guarded request_stop ops.stop_requested
          (λ _. guarded detach_threads ops.threads_detached (λ _. ([], false))))))

-- DrainDeviceRuntime. The time that remains is not modelled: a wait that times out returns false.
unfoldable pub drain_device_runtime : DrainOperations → List DrainCall × Bool
unfolding guarded drain_finished drain_timed_out
drain_device_runtime ops = guarded wait_input_drained ops.input_drained (λ drained.
    if drained
    then guarded wait_database_idle ops.database_idle (λ idle.
      if idle
      then guarded flush_database ops.database_flushed
          (λ flushed. if flushed then drain_finished ops else drain_timed_out ops)
      else drain_timed_out ops)
    else drain_timed_out ops)

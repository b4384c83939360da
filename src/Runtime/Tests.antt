-- ===== src/Runtime/Tests.antt =====
-- A start whose second thread fails, and a drain whose bridge throws.
use cns_server.Base.{◌≡◌, ◌↔◌, true, ok, unexpected, In}
use cns_server.Runtime.{
  returns, throws_exception, rollback, StartOperations, start_device_runtime_transaction,
  DrainOperations, drain_device_runtime,
}
use cns_server.Runtime.Order.{
  IsReleased, start_device_runtime_transaction_exact, drain_device_runtime_releases,
}

abbrev failing : StartOperations
failing = record {
  handler_configured = returns (ok tt);
  postgres_thread_started = returns (unexpected "no thread");
  device_thread_started = returns (ok tt);
}

start_device_runtime_transaction_exact_example :
    ((start_device_runtime_transaction failing).1 ≡ ok tt)
    ↔ (In rollback (start_device_runtime_transaction failing).0 → ⊥)
start_device_runtime_transaction_exact_example = start_device_runtime_transaction_exact failing

abbrev throwing : DrainOperations
throwing = record {
  input_drained = returns true;
  database_idle = returns true;
  database_flushed = returns true;
  pending_count = returns 3;
  bridge_disabled = throws_exception;
  stop_requested = returns tt;
  threads_joined = returns tt;
  threads_detached = returns tt;
  timeout_reported = returns tt;
}

drain_device_runtime_releases_example : IsReleased (drain_device_runtime throwing)
drain_device_runtime_releases_example = drain_device_runtime_releases throwing

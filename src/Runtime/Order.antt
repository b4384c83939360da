-- ===== src/Runtime/Order.antt =====
-- core/runtime/service_runner.cpp: what a start and a drain leave behind on every path.
use cns_server.Base.{
  ◌≡◌, ◌↔◌, ◌⊎◌, inl, inr, refl, Bool, true, false, ◌∷◌, List, [], ok, arith, In, Expected, String,
  unexpected, ◌≢◌, if◌then◌else◌,
}
use cns_server.Runtime.{
  Result, returns, throws_exception, throws_unknown, StartCall, configure_handler,
  start_postgres_thread, start_device_thread, rollback, StartOperations, start_step,
  start_device_runtime_transaction, DrainCall, disable_external_bridge, request_stop, join_threads,
  detach_threads, DrainOperations, guarded, drain_finished, drain_timed_out, drain_device_runtime,
}

-- A start fails exactly when it calls the rollback.
abbrev pub IsRolledBack : List StartCall × Expected String Unit → Type 0
IsRolledBack f = (f.1 ≡ ok tt) ↔ (In rollback f.0 → ⊥)

step-IsRolledBack :
    (call : StartCall) (r : Result (Expected String Unit))
    (rest : List StartCall × Expected String Unit)
    → call ≢ rollback
    → IsRolledBack rest
    → IsRolledBack (start_step call r rest)
unfolding start_step
step-IsRolledBack call (returns (ok u)) rest n h = (λ e i. ground arith, λ f. h.1 (λ i. f (inr i)))
step-IsRolledBack call (returns (unexpected error)) rest n h =
    (λ e. ground arith, λ f. absurd (f (inr (inl refl))))
step-IsRolledBack call throws_exception rest n h =
    (λ e. ground arith, λ f. absurd (f (inr (inl refl))))
step-IsRolledBack call throws_unknown rest n h =
    (λ e. ground arith, λ f. absurd (f (inr (inl refl))))

-- Whatever the three operations return or throw, the start succeeds exactly when nothing is rolled
-- back.
pub start_device_runtime_transaction_exact :
    (ops : StartOperations)
    → ((start_device_runtime_transaction ops).1 ≡ ok tt)
      ↔ (In rollback (start_device_runtime_transaction ops).0 → ⊥)
unfolding start_device_runtime_transaction
start_device_runtime_transaction_exact ops =
    step-IsRolledBack configure_handler ops.handler_configured _ (λ e. ground arith)
      (step-IsRolledBack start_postgres_thread ops.postgres_thread_started _ (λ e. ground arith)
        (step-IsRolledBack start_device_thread ops.device_thread_started ([], ok tt)
          (λ e. ground arith) (λ e i. i, λ f. refl)))

-- The bridge is disabled, and the threads are joined, or told to stop and detached.
abbrev pub IsReleased : List DrainCall × Bool → Type 0
IsReleased f =
    In disable_external_bridge f.0
    × (((f.1 ≡ true) × In join_threads f.0)
        ⊎ ((f.1 ≡ false) × In request_stop f.0 × In detach_threads f.0))

guarded-IsReleased :
    {A : Type 0} (call : DrainCall) (r : Result A) (rest : A → List DrainCall × Bool)
    → ((a : A) → IsReleased (rest a))
    → IsReleased (guarded call r rest)
unfolding guarded
guarded-IsReleased call (returns a) rest h = (inr (h a).0, more (h a).1)
  where
    more :
        (((rest a).1 ≡ true) × In join_threads (rest a).0)
          ⊎ (((rest a).1 ≡ false) × In request_stop (rest a).0 × In detach_threads (rest a).0)
        → (((rest a).1 ≡ true) × In join_threads (call ∷ (rest a).0))
          ⊎ (((rest a).1 ≡ false)
              × In request_stop (call ∷ (rest a).0)
              × In detach_threads (call ∷ (rest a).0))
    more (inl (e, j)) = inl (e, inr j)
    more (inr (e, s, d)) = inr (e, inr s, inr d)
guarded-IsReleased call throws_exception rest h =
    (inr (inl refl), inr (refl, inr (inr (inl refl)), inr (inr (inr (inl refl)))))
guarded-IsReleased call throws_unknown rest h =
    (inr (inl refl), inr (refl, inr (inr (inl refl)), inr (inr (inr (inl refl)))))

finished-IsReleased :
    (joined disabled : Result Unit)
    → IsReleased (
        guarded join_threads joined
          (λ _. guarded disable_external_bridge disabled (λ _. ([], true))))
unfolding guarded
finished-IsReleased (returns _) (returns _) = ground arith
finished-IsReleased (returns _) throws_exception = ground arith
finished-IsReleased (returns _) throws_unknown = ground arith
finished-IsReleased throws_exception disabled = ground arith
finished-IsReleased throws_unknown disabled = ground arith

stopped-IsReleased :
    (disabled stopped detached : Result Unit)
    → IsReleased (
        guarded disable_external_bridge disabled (λ _.
          guarded request_stop stopped (λ _. guarded detach_threads detached (λ _. ([], false)))))
unfolding guarded
stopped-IsReleased (returns _) (returns _) (returns _) = ground arith
stopped-IsReleased (returns _) (returns _) throws_exception = ground arith
stopped-IsReleased (returns _) (returns _) throws_unknown = ground arith
stopped-IsReleased (returns _) throws_exception detached = ground arith
stopped-IsReleased (returns _) throws_unknown detached = ground arith
stopped-IsReleased throws_exception stopped detached = ground arith
stopped-IsReleased throws_unknown stopped detached = ground arith

timed_out-IsReleased : (ops : DrainOperations) → IsReleased (drain_timed_out ops)
unfolding drain_timed_out
timed_out-IsReleased ops = guarded-IsReleased _ ops.pending_count _ (λ count.
    guarded-IsReleased _ ops.timeout_reported _
      (λ _. stopped-IsReleased ops.bridge_disabled ops.stop_requested ops.threads_detached))

either-IsReleased :
    (b : Bool) (f g : List DrainCall × Bool)
    → IsReleased f
    → IsReleased g
    → IsReleased (if b then f else g)
either-IsReleased true f g p q = p
either-IsReleased false f g p q = q

-- Whatever the operations return or throw, a drain disables the external bridge, and it either
-- succeeds and has joined the threads, or fails and has told them to stop and detached them.
pub drain_device_runtime_releases : (ops : DrainOperations) → IsReleased (drain_device_runtime ops)
unfolding drain_device_runtime drain_finished
drain_device_runtime_releases ops = guarded-IsReleased _ ops.input_drained _ (λ drained.
    either-IsReleased drained _ _
      (guarded-IsReleased _ ops.database_idle _ (λ idle.
        either-IsReleased idle _ _
          (guarded-IsReleased _ ops.database_flushed _ (λ flushed.
            either-IsReleased flushed _ _
              (finished-IsReleased ops.threads_joined ops.bridge_disabled)
              (timed_out-IsReleased ops)))
          (timed_out-IsReleased ops)))
      (timed_out-IsReleased ops))

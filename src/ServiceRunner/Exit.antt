-- ===== src/ServiceRunner/Exit.antt =====
-- core/runtime/service_runner.cpp: what a run of the process leaves behind, and its exit code.
use cns_server.Base.{
  ℕ, zero, suc, ◌≡◌, ◌⊎◌, inl, inr, refl, String, Bool, true, false, List, [], ◌∷◌, none, some,
  Expected, ok, unexpected, arith, ◌||◌, if◌then◌else◌,
}
use cns_server.ServiceRunner.{
  RunMode, Operation, initialize_logger, apply_migration, wait_for_next_check, info, error, Check,
  ServiceOperations, Outcome, then_do, attempt, apply_migrations, watch, start_service,
  is_migrate_only, run_service,
}

abbrev is_error : Operation → Bool
is_error (error message) = true
is_error _ = false

abbrev pub Reports : List Operation → Type 0
Reports [] = ⊥
Reports (x ∷ xs) = (is_error x ≡ true) ⊎ Reports xs

-- A run that ends has exit code 0 or 1, and 1 exactly when it reported an error.
abbrev pub IsHonest : Outcome → Type 0
IsHonest o =
    ((o.exit_code ≡ none) × (Reports o.calls → ⊥))
    ⊎ ((o.exit_code ≡ some 0) × (Reports o.calls → ⊥))
    ⊎ ((o.exit_code ≡ some 1) × Reports o.calls)

then-IsHonest :
    (x : Operation) (o : Outcome) → is_error x ≡ false → IsHonest o → IsHonest (then_do (x ∷ []) o)
then-IsHonest x o n (inl (e, q)) = inl (e, λ w. elim w [ inl b ↦ absurd (cc) | inr r ↦ q r ])
then-IsHonest x o n (inr (inl (e, q))) =
    inr (inl (e, λ w. elim w [ inl b ↦ absurd (cc) | inr r ↦ q r ]))
then-IsHonest x o n (inr (inr (e, q))) = inr (inr (e, inr q))

attempt-IsHonest :
    (x : Operation) (r : Expected String Unit) (cleanup : List Operation) (o : Outcome)
    → is_error x ≡ false
    → IsHonest o
    → IsHonest (attempt x r cleanup o)
unfolding attempt
attempt-IsHonest x (ok u) cleanup o n h = then-IsHonest x o n h
attempt-IsHonest x (unexpected m) cleanup o n h = inr (inr (refl, inr (inl refl)))

apply-IsHonest :
    (ops : ServiceOperations) (index left : ℕ) → IsHonest (apply_migrations ops index left)
unfolding apply_migrations
apply-IsHonest ops index zero = inr (inl (refl, λ w. ground arith))
apply-IsHonest ops index (suc left) =
    attempt-IsHonest (apply_migration index) (ops.migration_applied index) [] _ refl
      (apply-IsHonest ops (suc index) left)

if-IsHonest : (b : Bool) (f g : Outcome) → IsHonest f → IsHonest g → IsHonest (if b then f else g)
if-IsHonest true f g p q = p
if-IsHonest false f g p q = q

watch-IsHonest : (checks : List Check) → IsHonest (watch checks)
unfolding watch
watch-IsHonest [] = inl (refl, λ w. w)
watch-IsHonest (c ∷ checks) =
    if-IsHonest c.mqtt_has_terminal_failure _ _ (inr (inr (refl, inl refl))) (
      if-IsHonest (c.mqtt_callback_stop_requested || c.shutdown_requested) _ _
        (inr (inl (refl, λ w. ground arith)))
        (then-IsHonest wait_for_next_check (watch checks) refl (watch-IsHonest checks)))

service-IsHonest : (ops : ServiceOperations) → IsHonest (start_service ops)
unfolding start_service
service-IsHonest ops = attempt-IsHonest _ ops.device_snapshot_loaded _ _ refl (
    attempt-IsHonest _ ops.command_state_loaded _ _ refl (
      attempt-IsHonest _ ops.signal_handlers_installed _ _ refl (
        attempt-IsHonest _ ops.device_runtime_started _ _ refl (
          attempt-IsHonest _ ops.mqtt_created _ _ refl (
            attempt-IsHonest _ ops.mqtt_started _ _ refl
              (then-IsHonest (info "路由服务已启动") _ refl (watch-IsHonest ops.checks)))))))

-- In both modes and whatever the operations return: a run that ends has exit code 1 and reported an
-- error, or exit code 0 and reported none; and a run whose loop goes on has reported none.
pub run_service_exits : (mode : RunMode) (ops : ServiceOperations) → IsHonest (run_service mode ops)
unfolding run_service
run_service_exits mode ops = attempt-IsHonest _ ops.config_loaded _ _ refl (
    then-IsHonest initialize_logger _ refl (
      attempt-IsHonest _ ops.migrations_discovered _ _ refl (
        attempt-IsHonest _ ops.postgres_connected _ _ refl (
          attempt-IsHonest _ ops.applied_migrations_read _ _ refl (
            attempt-IsHonest _ (ops.migrations_planned (is_migrate_only mode)) _ _ refl (
              if-IsHonest (is_migrate_only mode) _ _
                (apply-IsHonest ops 0 ops.pending_migration_count) (service-IsHonest ops)))))))

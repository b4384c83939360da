-- ===== src/CommandService/Valid.antt =====
-- core/runtime/command_service.cpp: what holds of the service's tables at all times.
pub mod Publish
pub mod Acks
pub mod Results
pub mod Answers
pub mod Requests
pub mod Recovery
pub mod Cycle
pub mod Runs
use mathlib.Core.Path.{subst}
use text.Mathlib.TextEquality.{eq_iff}
use cns_server.Base.{
  ℕ, suc, ◌+◌, ◌≤◌, ◌≡◌, ◌≢◌, refl, sym, String, Bool, true, false, Option, none, some, ◌==◌,
  if◌then◌else◌, is_some, length, arith, nat_eq_iff, ℕ_eq, string_eq, List, [], ◌∷◌,
}
use cns_server.Base.Map.{
  Map, find, insert, erase, contains, IsUnique, insert-IsUnique, erase-IsUnique, find-insert,
  find-erase,
}
use cns_server.Command.{CommandRecord, is_terminal}
use cns_server.Database.{CommandDatabaseTask}
use cns_server.CommandService.{
  RequestContext, OperationKind, transitioning, Operation, TransitionTask, DeferredTransition,
  CommandOutput, Environment, CommandService, emit_output, publish_ack, submit_operation,
  database_task, defer, submit_transition_or_defer, retry_deferred, retry_deferred_transitions,
  remember, remember_completed_command, retire, activate,
}
use cns_server.CommandService.Eviction.{length-evict}
use cns_server.CommandService.Open.{open_operations, keys, keys-insert_fresh}

module _ {V : Type 0} where
  pub length-insert_fresh :
      (k : ℕ) (v : V) (m : Map ℕ V) → find k m ≡ none → length (insert k v m) ≡ suc (length m)
  unfolding insert find
  length-insert_fresh k v [] h = refl
  length-insert_fresh k v ((j, w) ∷ m) h = ground (arith, length-insert_fresh k v m)

  absent-erase : (k : ℕ) (m : Map ℕ V) → find k m ≡ none → erase k m ≡ m
  unfolding erase find
  absent-erase k [] h = refl
  absent-erase k ((j, w) ∷ m) h = ground (arith, absent-erase k m)

  pub length-erase_once :
      (k : ℕ) (v : V) (m : Map ℕ V)
      → IsUnique m
      → find k m ≡ some v
      → suc (length (erase k m)) ≡ length m
  unfolding erase find
  length-erase_once k v [] u h = ground arith
  length-erase_once k v ((j, w) ∷ m) u h =
      ground (arith, nat_eq_iff j k, absent-erase k m, length-erase_once k v m u.1)

-- To prove a property of a computed state by cases on the test it was computed with.
module _ {S : Type 0} (P : S → Type 0) where
  pub if_keeps :
      (b : Bool) (x y : S) → (b ≡ true → P x) → (b ≡ false → P y) → P (if b then x else y)
  if_keeps true x y p q = p refl
  if_keeps false x y p q = q refl

  pub option_keeps :
      {A : Type 0} (o : Option A) (x : S) (f : A → S)
      → (o ≡ none → P x)
      → ((a : A) → o ≡ some a → P (f a))
      → P (elim o [ none ↦ x | some a ↦ f a ])
  option_keeps none x f p q = p refl
  option_keeps (some a) x f p q = q a refl

module _ {J : Type 0} where
  -- A command that is not final, under its own id.
  pub record IsRunning (id : String) (context : RequestContext J) : Type 0 where
    pub command : CommandRecord J
    pub present : context.command ≡ some command
    pub keyed : command.command_id ≡ id
    pub running : is_terminal command.status ≡ false

  pub record IsValid (max_commands : ℕ) (s : CommandService J) : Type 0 where
    pub outstanding : s.outstanding_operations ≡ length s.operations
    pub fresh : (id : ℕ) → s.next_operation_id ≤ id → find id s.operations ≡ none
    pub unique : IsUnique s.operations
    pub kept : open_operations s.database_trace ≡ keys s.operations
    pub remembered : length s.completed_commands ≤ max_commands
    pub active :
        (id : String) (context : RequestContext J)
        → find id s.active_commands ≡ some context
        → IsRunning id context

  -- A step that leaves the four tables alone.
  pub record IsFrame (s t : CommandService J) : Type 0 where
    pub outstanding : t.outstanding_operations ≡ s.outstanding_operations
    pub next : t.next_operation_id ≡ s.next_operation_id
    pub operations : t.operations ≡ s.operations
    pub completed : t.completed_commands ≡ s.completed_commands
    pub active : t.active_commands ≡ s.active_commands
    pub trace : t.database_trace ≡ s.database_trace

  module _ (env : Environment J) where
    abbrev pub Holds : CommandService J → Type 0
    Holds s = IsValid env.max_inflight_commands s

    pub frame-Holds : {s t : CommandService J} → IsFrame s t → Holds s → Holds t
    frame-Holds f v = record {
      outstanding = ground (arith, v.outstanding, f.outstanding, f.operations);
      fresh = λ id le. ground (arith, v.fresh id, f.next, f.operations);
      unique = ground (arith, v.unique, f.operations);
      kept = ground (arith, v.kept, f.operations, f.trace);
      remembered = ground (arith, v.remembered, f.completed);
      active = λ id context p. v.active id context (ground (arith, f.active));
    }

    pub emit_output-Holds :
        (o : CommandOutput J) (s : CommandService J) → Holds s → Holds (emit_output o s)
    unfolding emit_output
    emit_output-Holds o s = frame-Holds (record {
      outstanding = refl;
      next = refl;
      operations = refl;
      completed = refl;
      active = refl;
      trace = refl;
    })

    pub submit_operation-Holds :
        (kind : OperationKind) (context : RequestContext J) (task : CommandDatabaseTask J)
        (s : CommandService J)
        → Holds s
        → Holds (submit_operation env kind context task s).0
    unfolding submit_operation open_operations
    submit_operation-Holds kind context task s v =
        if_keeps (λ (p : CommandService J × Bool). Holds p.0)
          (env.submit_to_database s.port_calls s.next_operation_id task) _ _
          (λ _. record {
            outstanding =
                let fresh = v.fresh s.next_operation_id (omega arith) in
                ground (
                  arith,
                  v.outstanding,
                  length-insert_fresh s.next_operation_id
                      (record { kind = kind; context = context }) s.operations fresh,
                );
            fresh = λ id le. ground (
              arith,
              v.fresh id,
              nat_eq_iff s.next_operation_id id,
              find-insert s.next_operation_id id (record { kind = kind; context = context })
                  s.operations,
            );
            unique = insert-IsUnique s.next_operation_id _ s.operations v.unique;
            kept =
                let fresh = v.fresh s.next_operation_id (omega arith) in
                ground (
                  arith,
                  v.kept,
                  keys-insert_fresh s.next_operation_id (record { kind = kind; context = context })
                      s.operations fresh,
                );
            remembered = v.remembered;
            active = v.active;
          })
          (λ _. record {
            outstanding = v.outstanding;
            fresh = λ id le. v.fresh id (omega (arith, le));
            unique = v.unique;
            kept = v.kept;
            remembered = v.remembered;
            active = v.active;
          })

    pub defer-Holds :
        (context : RequestContext J) (task : TransitionTask J) (s : CommandService J)
        → Holds s
        → Holds (defer context task s)
    unfolding defer
    defer-Holds context task s = frame-Holds (record {
      outstanding = refl;
      next = refl;
      operations = refl;
      completed = refl;
      active = refl;
      trace = refl;
    })

    pub submit_transition_or_defer-Holds :
        (context : RequestContext J) (task : TransitionTask J) (s : CommandService J)
        → Holds s
        → Holds (submit_transition_or_defer env context task s)
    unfolding submit_transition_or_defer
    submit_transition_or_defer-Holds context task s v =
        let w = submit_operation-Holds transitioning context (database_task task) s v in
        let submitted = submit_operation env transitioning context (database_task task) s in
        if_keeps Holds submitted.1 _ _
          (λ _.
            frame-Holds
              (record {
                outstanding = refl;
                next = refl;
                operations = refl;
                completed = refl;
                active = refl;
                trace = refl;
              })
              w)
          (λ _. defer-Holds context task submitted.0 w)

    retry_deferred-Holds :
        (m : Map String (DeferredTransition J)) (s : CommandService J)
        → Holds s
        → Holds (retry_deferred env m s)
    unfolding retry_deferred
    retry_deferred-Holds [] s v = v
    retry_deferred-Holds ((id, d) ∷ rest) s v =
        let t : CommandService J = record s { deferred_transitions = rest } in
        let submitted = submit_operation env transitioning d.context (database_task d.task) t in
        let w = submit_operation-Holds transitioning d.context (database_task d.task) t (
          frame-Holds
            (record {
              outstanding = refl;
              next = refl;
              operations = refl;
              completed = refl;
              active = refl;
              trace = refl;
            })
            v) in
        if_keeps Holds submitted.1 _ _ (λ _. w) (λ _. defer-Holds d.context d.task submitted.0 w)

    pub retry_deferred_transitions-Holds :
        (s : CommandService J) → Holds s → Holds (retry_deferred_transitions env s)
    unfolding retry_deferred_transitions
    retry_deferred_transitions-Holds s v =
        if_keeps Holds s.database_available _ _
          (λ _. retry_deferred-Holds s.deferred_transitions s v) (λ _. v)

    pub publish_ack-Holds :
        (context : RequestContext J) (s : CommandService J)
        → Holds s
        → Holds (publish_ack context s)
    unfolding publish_ack
    publish_ack-Holds context s v =
        if_keeps Holds (is_some context.command) _ _ (λ _. emit_output-Holds _ s v) (λ _. v)

    remember-Holds :
        (context : RequestContext J) (c : CommandRecord J) (now : ℕ) (s : CommandService J)
        → Holds s
        → Holds (remember env context c now s)
    unfolding remember
    remember-Holds context c now s v =
        let m =
          insert c.command_id (record { context = context; remembered_at = now })
            s.completed_commands in
        record {
          outstanding = v.outstanding;
          fresh = v.fresh;
          unique = v.unique;
          kept = v.kept;
          remembered = length-evict env.max_inflight_commands (length m) m (omega arith);
          active = v.active;
        }

    pub remember_completed_command-Holds :
        (context : RequestContext J) (now : ℕ) (s : CommandService J)
        → Holds s
        → Holds (remember_completed_command env context now s)
    unfolding remember_completed_command
    remember_completed_command-Holds context now s v =
        option_keeps Holds context.command s _ (λ _. v)
          (λ c _.
            if_keeps Holds (is_terminal c.status) _ _ (λ _. remember-Holds context c now s v)
              (λ _. v))

    pub retire-Holds :
        (context : RequestContext J) (c : CommandRecord J) (now : ℕ) (s : CommandService J)
        → Holds s
        → Holds (retire env context c now s)
    unfolding retire
    retire-Holds context c now s v =
        let w = remember_completed_command-Holds context now s v in
        record {
          outstanding = w.outstanding;
          fresh = w.fresh;
          unique = w.unique;
          kept = w.kept;
          remembered = w.remembered;
          active = λ id other p. w.active id other (
              ground (
                arith,
                eq_iff c.command_id id,
                find-erase c.command_id id
                    (remember_completed_command env context now s).active_commands,
              ));
        }

    pub activate-Holds :
        (context : RequestContext J) (id : String) (s : CommandService J)
        → IsRunning id context
        → Holds s
        → Holds (activate context id s)
    unfolding activate
    activate-Holds context id s r v = record {
      outstanding = v.outstanding;
      fresh = v.fresh;
      unique = v.unique;
      kept = v.kept;
      remembered = v.remembered;
      active = λ j other p. activated j other p;
    }
      where
        activated :
            (j : String) (other : RequestContext J)
            → find j (insert id context s.active_commands) ≡ some other
            → IsRunning j other
        activated j other p = by_key (id == j) refl
          where
            by_key : (b : Bool) → (id == j) ≡ b → IsRunning j other
            by_key true e =
                subst (λ k. IsRunning k other) (ground (arith, eq_iff id j))
                  (subst (IsRunning id) (ground (arith, find-insert id j context s.active_commands))
                    r)
            by_key false e =
                v.active j other (ground (arith, find-insert id j context s.active_commands))

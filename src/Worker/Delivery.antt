-- ===== src/Worker/Delivery.antt =====
-- core/runtime/postgres_worker.cpp: no accepted write is lost before the thread ends.
use mathlib.Core.Path.{subst}
use cns_server.Device.{DeviceRecord}
use cns_server.Base.{
  In-append_left, In-append_right, ◌⊎◌, sym, string_eq, Bool-cases, inl, inr, ℕ, ◌≡◌, ◌≢◌, refl,
  String, true, List, [], ◌∷◌, some, Expected, ok, unexpected, ℕ_eq, arith,
}
use cns_server.Base.Map.{find}
use cns_server.Dirty.{DesiredDeviceWrite}
use cns_server.Database.{
  ResultKind, write_completed, permanent_failure, ErrorKind, CommandDatabaseTask,
  CommandDatabaseValue, DatabaseError, unavailable, permanent, StorePort,
}
use cns_server.Worker.{
  plain_result, ProvisionTask, Job, idle, stopped, reconnect, command, provision, write,
  PostgresWorker, Output, emitted, new_worker, submit_provision, submit_write, submit_command,
  flush_and_stop, settle, settle_job, finish, lose, settle_reconnect, settle_command,
  settle_provision, settle_write, answer_command,
}
use cns_server.Worker.Events.{
  Event, submits_provision, submits_write, submits_command, flushes, takes, settles, step, run,
  outputs_of,
}
use cns_server.Worker.Settling.{any_step, stays_stopped, run_accounts, new-IsAccounted}
use cns_server.Worker.Merge.{IsCovered, IsKeyed, merge_write_covers_new}
use cns_server.Worker.Accounts.{IsAccounted}
use cns_server.Worker.Held.{IsHeld, IsReported, IsKept, same_writes, more_writes, take-IsKept}

module _ {J : Type 0} where
  module _ (s : PostgresWorker J) (k : IsKeyed s.writes) where
    reported :
        (x : DesiredDeviceWrite J) (kind : ResultKind) (message : String) (more : List (Output J))
        → s.job ≡ write x
        → (kind ≡ write_completed) ⊎ (kind ≡ permanent_failure)
        → IsKept s
            (record s { job = idle })
            (emitted (plain_result kind x.device.device_id x.revision message) ∷ more)
    reported x kind message more at final = record {
      keyed = k;
      held = λ w (v, c, h) n. told w v c h;
    }
      where
        same : (v : DesiredDeviceWrite J) → s.job ≡ write v → x ≡ v
        same v e = ground arith

        told :
            (w v : DesiredDeviceWrite J)
            → IsCovered w v
            → (find w.device.device_id s.writes ≡ some v) ⊎ (s.job ≡ write v)
            → IsHeld w (record s { job = idle })
              ⊎ IsReported w
                  (emitted (plain_result kind x.device.device_id x.revision message) ∷ more)
        told w v c (inl e) = inl (v, c, inl e)
        told w v c (inr e) =
            let d : IsCovered w x = subst (λ y. IsCovered w y) (sym (same v e)) c in
            inr (
              plain_result kind x.device.device_id x.revision message,
              inl refl,
              d.same_device,
              d.not_older,
              final,
            )

    write-IsKept :
        (interval now : ℕ) (x : DesiredDeviceWrite J) (r : Expected DatabaseError Unit)
        → s.job ≡ write x
        → let f = settle_write now interval x r s in IsKept s f.0 f.1
    unfolding settle_write lose
    write-IsKept interval now x (ok u) at = reported x write_completed _ _ at (inl refl)
    write-IsKept interval now x (unexpected e) at = failed e.kind e.message
      where
        failed :
            (kind : ErrorKind) (m : String)
            → let f =
                settle_write now interval x (unexpected (record { kind = kind; message = m })) s in
              IsKept s f.0 f.1
        failed unavailable m = more_writes s k x _ _ refl (λ v e. inr (ground arith))
        failed permanent m = reported x permanent_failure _ _ at (inr refl)

    -- The other jobs do not touch the writes, except when the thread ends.
    provision-IsKept :
        (interval now : ℕ) (id : String) (p : ProvisionTask J)
        (r : Expected DatabaseError (DeviceRecord J))
        → s.job ≡ provision p
        → let f = settle_provision now interval id r s in IsKept s f.0 f.1
    unfolding settle_provision lose
    provision-IsKept interval now id p (ok r) at =
        same_writes s k _ _ refl (λ v e. absurd (ground arith))
    provision-IsKept interval now id p (unexpected e) at = failed e.kind e.message
      where
        failed :
            (kind : ErrorKind) (m : String)
            → let f =
                settle_provision now interval id
                  (unexpected (record { kind = kind; message = m }))
                  s in
              IsKept s f.0 f.1
        failed unavailable m = same_writes s k _ _ refl (λ v e. absurd (ground arith))
        failed permanent m = same_writes s k _ _ refl (λ v e. absurd (ground arith))

    command-IsKept :
        (interval now id : ℕ) (task : CommandDatabaseTask J)
        (r : Expected DatabaseError (CommandDatabaseValue J))
        → s.job ≡ command id task
        → let f = settle_command now interval id task r s in IsKept s f.0 f.1
    unfolding settle_command lose answer_command
    command-IsKept interval now id task (ok r) at =
        same_writes s k _ _ refl (λ v e. absurd (ground arith))
    command-IsKept interval now id task (unexpected e) at = failed e.kind e.message
      where
        failed :
            (kind : ErrorKind) (m : String)
            → let f =
                settle_command now interval id task
                  (unexpected (record { kind = kind; message = m }))
                  s in
              IsKept s f.0 f.1
        failed unavailable m = same_writes s k _ _ refl (λ v e. absurd (ground arith))
        failed permanent m = same_writes s k _ _ refl (λ v e. absurd (ground arith))

    reconnect-IsKept :
        (interval now : ℕ) (r : Expected DatabaseError Unit)
        → s.job ≡ reconnect
        → let f = settle_reconnect now interval r s in IsKept s f.0 f.1
    unfolding settle_reconnect finish find
    reconnect-IsKept interval now (ok r) at =
        same_writes s k _ _ refl (λ v e. absurd (ground arith))
    reconnect-IsKept interval now (unexpected e) at = failed e.kind e.message
      where
        failed :
            (kind : ErrorKind) (m : String)
            → let f =
                settle_reconnect now interval
                  (unexpected (record { kind = kind; message = m }))
                  s in
              IsKept s f.0 f.1
        failed unavailable m = same_writes s k _ _ refl (λ v e. absurd (ground arith))
        failed permanent m = record {
          keyed = record { unique = tt; keyed = λ id v e. ground arith };
          held = λ w h n. absurd (n refl);
        }

    settle-IsKept :
        (store : StorePort J) (now interval : ℕ)
        → let f = settle store now interval s in IsKept s f.0 f.1
    unfolding settle
    settle-IsKept store now interval = of_job s.job refl
      where
        of_job :
            (j : Job J) → s.job ≡ j → let f = settle_job store now interval j s in IsKept s f.0 f.1
        of_job idle e = same_writes s k s [] refl (λ v e. e)
        of_job stopped e = same_writes s k s [] refl (λ v e. e)
        of_job reconnect e = reconnect-IsKept interval now _ e
        of_job (command id task) e = command-IsKept interval now id task _ e
        of_job (provision p) e = provision-IsKept interval now _ p _ e
        of_job (write w) e = write-IsKept interval now w _ e

    any-IsKept :
        (max_inflight interval : ℕ) (x : Event J)
        → let f = step max_inflight interval x s in IsKept s f.worker f.outputs
    unfolding step submit_provision submit_command submit_write flush_and_stop
    any-IsKept max_inflight interval (submits_provision r at) =
        same_writes s k (submit_provision r at s).0 [] (ground arith) (λ v e. ground arith)
    any-IsKept max_inflight interval (submits_write w) = elim (Bool-cases s.is_accepting) [
      | inl e ↦ more_writes s k w (submit_write w s).0 [] (ground arith) (λ v e. inl (ground arith))
      | inr e ↦ same_writes s k (submit_write w s).0 [] (ground arith) (λ v e. ground arith)
    ]
    any-IsKept max_inflight interval (submits_command id task) =
        same_writes s k (submit_command max_inflight id task s).0 [] (ground arith)
          (λ v e. ground arith)
    any-IsKept max_inflight interval flushes = same_writes s k _ [] refl (λ v e. e)
    any-IsKept max_inflight interval (takes stop now) = take-IsKept s k stop now
    any-IsKept max_inflight interval (settles store now) = settle-IsKept store now interval

  module _ (max_inflight interval : ℕ) where
    run_kept :
        (es : List (Event J)) (s : PostgresWorker J)
        → IsAccounted max_inflight s
        → IsKeyed s.writes
        → let t = run max_inflight interval es s in
          IsKeyed t.writes
          × ((w : DesiredDeviceWrite J)
              → IsHeld w s
              → t.job ≢ stopped
              → IsHeld w t ⊎ IsReported w (outputs_of max_inflight interval es s))
    unfolding run outputs_of
    run_kept [] s v k = (k, λ w h n. inl h)
    run_kept (x ∷ es) s v k =
        let f = any_step max_inflight interval s v x in
        let g = any-IsKept s k max_inflight interval x in
        let t = (step max_inflight interval x s).worker in
        let rest = run_kept es t f.accounted g.keyed in
        let live : (run max_inflight interval es t).job ≢ stopped → t.job ≢ stopped =
          λ n e. n (stays_stopped max_inflight interval es t f.accounted e) in
        (
          rest.0,
          λ w h n. elim (g.held w h (live n)) [
            | inl there ↦ elim (rest.1 w there n) [
              | inl q ↦ inl q
              | inr (r, i, d, n, q) ↦ inr (
                r,
                In-append_right (emitted r) (step max_inflight interval x s).outputs _ i,
                d,
                n,
                q,
              )
            ]
            | inr (r, i, d, n, q) ↦ inr (
              r,
              In-append_left (emitted r) (step max_inflight interval x s).outputs _ i,
              d,
              n,
              q,
            )
          ],
        )

    empty-IsKeyed : IsKeyed (new_worker {J = J}).writes
    unfolding find
    empty-IsKeyed = record { unique = tt; keyed = λ id v e. ground arith }

    write_accepted :
        (s : PostgresWorker J)
        → IsAccounted max_inflight s
        → IsKeyed s.writes
        → (w : DesiredDeviceWrite J)
        → IsAccounted max_inflight (submit_write w s).0 × IsKeyed (submit_write w s).0.writes
    unfolding step
    write_accepted s v k w = (
      (any_step max_inflight interval s v (submits_write w)).accounted,
      (any-IsKept s k max_inflight interval (submits_write w)).keyed,
    )

    accepted_IsHeld :
        (w : DesiredDeviceWrite J) (s : PostgresWorker J)
        → IsKeyed s.writes
        → (submit_write w s).1 ≡ true
        → IsHeld w (submit_write w s).0
    unfolding submit_write
    accepted_IsHeld w s k e =
        let (v, at, c) = merge_write_covers_new s.writes k w in
        let open_now : s.is_accepting ≡ true = ground arith in (v, c, inl (ground arith))

    -- From a new worker, after any sequence of calls, iterations and answers of the database: when
    -- a write is accepted, then after any further sequence in which the thread has not ended, a
    -- write for the same device with at least its fields and its revision waits or is being
    -- written, or a result has reported the device, at its revision or a later one, as written or
    -- as failed for good.
    pub submit_write-run_delivers :
        (before after : List (Event J)) (w : DesiredDeviceWrite J)
        → (submit_write w (run max_inflight interval before new_worker)).1 ≡ true
        → let s = (submit_write w (run max_inflight interval before new_worker)).0 in
          let t = run max_inflight interval after s in
          t.job ≢ stopped → IsHeld w t ⊎ IsReported w (outputs_of max_inflight interval after s)
    submit_write-run_delivers before after w e n =
        let first =
          run_kept before new_worker (new-IsAccounted max_inflight interval) empty-IsKeyed in
        let here = run max_inflight interval before new_worker in
        let v =
          (run_accounts max_inflight interval before new_worker
            (new-IsAccounted max_inflight interval)).0 in
        let next = write_accepted here v first.0 w in
        (run_kept after (submit_write w here).0 next.0 next.1).1 w
          (accepted_IsHeld w here first.0 e) n

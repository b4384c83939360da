-- ===== src/DeviceService/Counter.antt =====
-- core/runtime/device_service.cpp: over any run of the service, what the counter of outstanding
-- work says.
use mathlib.Core.Path.{subst}
use cns_server.Base.{
  sym, ◌∙◌, if_true, if_false, ℕ, ◌+◌, ◌≡◌, refl, String, Bool, true, false, List, [], ◌∷◌, none,
  if◌then◌else◌, arith, Bool-cases, inl, inr, string_eq,
}
use cns_server.Base.Map.{Map, find, IsUnique}
use cns_server.Device.{Mutation}
use cns_server.Registry.{expire_inactive}
use cns_server.Dirty.{DesiredDeviceWrite, Entry, take_immediate, take_telemetry_due, take_all_dirty}
use cns_server.Database.{DatabaseResult}
use cns_server.DeviceService.{
  PendingRegistration, InboundMessage, Ports, DeviceService, emit, called, mark_device, send,
}
use cns_server.DeviceService.Results.{submitted_count, handle_database_result, handle_message}
use cns_server.DeviceService.Cycle.{
  Intervals, Event, pushes_message, pushes_result, closes, cancels, requests_snapshot, drains_input,
  processes, push_message, push_database_result, close_service, cancel_outstanding_database_work,
  request_external_snapshot, handle_results, unsubmit, consume_cancel, handle_messages,
  submit_pending, mark_each, expire_devices, scan_offline, dispatch_all, dispatch_due,
  dispatch_writes, publish_current_snapshot, consume_snapshot, drain_input, process_ready,
  service_step, run_service_steps,
}
use cns_server.DeviceService.Work.{
  IsCounted, IsSameWork, IsCounted-IsSameWork, mark_device-IsSameWork, send-IsCounted,
}
use cns_server.DeviceService.Settle.{
  refusals_of, handle_content-IsCounted, handle_database_result-IsCounted,
}
use cns_server.DeviceService.Submission.{submit_each-IsSubmission, submission_counts}

module _ {J : Type 0} where
  same : (s : DeviceService J) → IsSameWork s s
  same s = record { pending = refl; submitted = refl; count = refl }

  -- The refusals among the results that a pass handles.
  unfoldable pub refusals_in : Ports J → List (DatabaseResult J) → DeviceService J → ℕ
  refusals_in ports [] s = 0
  refusals_in ports (r ∷ rs) s =
      let t = record s { results = rs } in
      refusals_of r t + refusals_in ports rs (handle_database_result ports r t)

  unsubmit_none : (m : Map String (PendingRegistration J)) → submitted_count (unsubmit m) ≡ 0
  unfolding unsubmit submitted_count
  unsubmit_none [] = refl
  unsubmit_none ((id, c) ∷ m) = ground (arith, unsubmit_none m)

  find-unsubmit :
      (k : String) (m : Map String (PendingRegistration J))
      → find k m ≡ none
      → find k (unsubmit m) ≡ none
  unfolding unsubmit find
  find-unsubmit k [] h = refl
  find-unsubmit k ((id, c) ∷ m) h = ground (arith, find-unsubmit k m)

  unsubmit-IsUnique : (m : Map String (PendingRegistration J)) → IsUnique m → IsUnique (unsubmit m)
  unfolding unsubmit
  unsubmit-IsUnique [] u = tt
  unsubmit-IsUnique ((id, c) ∷ m) u = (find-unsubmit id m u.0, unsubmit-IsUnique m u.1)

  module _ (ports : Ports J) where
    handle_results-IsCounted :
        (rs : List (DatabaseResult J)) (n : ℕ) (s : DeviceService J)
        → IsCounted n s
        → IsCounted (n + refusals_in ports rs s) (handle_results ports rs s)
    unfolding handle_results refusals_in
    handle_results-IsCounted [] n s v = record {
      counted = omega (arith, v.counted);
      bounded = v.bounded;
      pending_unique = v.pending_unique;
      submitted_unique = v.submitted_unique;
    }
    handle_results-IsCounted (r ∷ rs) n s v =
        let t : DeviceService J = record s { results = rs } in
        let one = handle_database_result-IsCounted ports n r t (
          IsCounted-IsSameWork n s t (record { pending = refl; submitted = refl; count = refl })
            v) in
        let rest = handle_results-IsCounted rs (n + refusals_of r t) _ one in
        record {
          counted = omega (arith, rest.counted);
          bounded = rest.bounded;
          pending_unique = rest.pending_unique;
          submitted_unique = rest.submitted_unique;
        }

    consume_cancel-IsCounted :
        (n : ℕ) (s : DeviceService J)
        → IsCounted n s
        → IsCounted (if s.is_cancel_requested then 0 else n) (consume_cancel s)
    unfolding consume_cancel
    consume_cancel-IsCounted n s v = elim (Bool-cases s.is_cancel_requested) [
      | inr e ↦
          rw (e, consume_cancel)
            record {
              counted = v.counted;
              bounded = v.bounded;
              pending_unique = v.pending_unique;
              submitted_unique = v.submitted_unique;
            }
      | inl e ↦
          rw (e, consume_cancel)
            record {
              counted = ground (arith, unsubmit_none s.pending);
              bounded = ground arith;
              pending_unique = unsubmit-IsUnique s.pending v.pending_unique;
              submitted_unique = tt;
            }
    ]

    handle_messages-IsCounted :
        (n : ℕ) (ms : List (InboundMessage J)) (s : DeviceService J)
        → IsCounted n s
        → IsCounted n (handle_messages ports ms s)
    unfolding handle_messages handle_message
    handle_messages-IsCounted n [] s v =
        IsCounted-IsSameWork n s _ (record { pending = refl; submitted = refl; count = refl }) v
    handle_messages-IsCounted n (m ∷ ms) s v =
        let t : DeviceService J = record s { mqtt_queue = record s.mqtt_queue { queue = ms } } in
        handle_messages-IsCounted n ms (handle_message ports m t) (
          handle_content-IsCounted ports n m.content m.received_at t (
            IsCounted-IsSameWork n s t (record { pending = refl; submitted = refl; count = refl })
              v))

    submit_pending-IsCounted :
        (n : ℕ) (s : DeviceService J) → IsCounted n s → IsCounted n (submit_pending ports s)
    unfolding submit_pending
    submit_pending-IsCounted n s v = elim (Bool-cases s.is_database_unavailable) [
      | inl e ↦ subst (IsCounted n) (sym (if_true _ _ e)) v
      | inr e ↦
          (let all = submit_each-IsSubmission ports s.pending s in
            subst (IsCounted n) (sym (if_false _ _ e)) record {
              counted = submission_counts n s all v;
              bounded = all.bounded v.bounded;
              pending_unique = all.unique v.pending_unique;
              submitted_unique = ground (arith, all.submitted, v.submitted_unique);
            })
    ]

    mark_each-IsSameWork :
        (ms : List (Mutation J)) (s : DeviceService J) → IsSameWork s (mark_each ports ms s)
    unfolding mark_each
    mark_each-IsSameWork [] s = same s
    mark_each-IsSameWork (m ∷ ms) s =
        let one = mark_device-IsSameWork ports m s in
        let rest = mark_each-IsSameWork ms (mark_device ports m s) in
        record {
          pending = rest.pending ∙ one.pending;
          submitted = rest.submitted ∙ one.submitted;
          count = rest.count ∙ one.count;
        }

    scan_offline-IsSameWork :
        (intervals : Intervals) (system_now : ℕ) (s : DeviceService J)
        → IsSameWork s (scan_offline ports intervals system_now s)
    unfolding scan_offline expire_devices called
    scan_offline-IsSameWork intervals system_now s = record {
      pending = ground (arith, scanned.pending);
      submitted = ground (arith, scanned.submitted);
      count = ground (arith, scanned.count);
    }
      where
        now : ℕ
        now = ports.steady_now s.port_calls

        next : ℕ
        next = if s.is_scan_initialized then s.next_scan else now + intervals.offline_scan

        ready : DeviceService J
        ready = record (called s) { next_scan = next; is_scan_initialized = true }

        scanned : IsSameWork ready (expire_devices ports intervals system_now ready)
        scanned =
            let expired = expire_inactive ready.registry system_now intervals.offline_timeout in
            let marked = mark_each-IsSameWork expired.1 (record ready { registry = expired.0 }) in
            record { pending = marked.pending; submitted = marked.submitted; count = marked.count }

    dispatch_all-IsCounted :
        (n : ℕ) (s : DeviceService J) → IsCounted n s → IsCounted n (dispatch_all ports s)
    unfolding dispatch_all
    dispatch_all-IsCounted n s v = elim (Bool-cases s.is_drain_submission_blocked) [
      | inl e ↦ subst (IsCounted n) (sym (if_true _ _ e)) v
      | inr e ↦
          subst (IsCounted n) (sym (if_false _ _ e)) (blocked (send ports taken.1 ready).1 sent)
    ]
      where
        taken : Map String (Entry J) × List (DesiredDeviceWrite J)
        taken = take_all_dirty s.dirty

        ready : DeviceService J
        ready = record s { dirty = taken.0 }

        sent : IsCounted n (send ports taken.1 ready).0
        sent = send-IsCounted ports n taken.1 ready (
            IsCounted-IsSameWork n s ready
              (record { pending = refl; submitted = refl; count = refl }) v)

        blocked :
            {t : DeviceService J} (b : Bool)
            → IsCounted n t
            → IsCounted n (
                if b
                then record t { is_drain_dispatch_pending = false }
                else record t { is_drain_submission_blocked = true })
        blocked true w =
            IsCounted-IsSameWork n _ _ (record { pending = refl; submitted = refl; count = refl }) w
        blocked false w =
            IsCounted-IsSameWork n _ _ (record { pending = refl; submitted = refl; count = refl }) w

    dispatch_due-IsCounted :
        (n interval : ℕ) (s : DeviceService J)
        → IsCounted n s
        → IsCounted n (dispatch_due ports interval s)
    unfolding dispatch_due called
    dispatch_due-IsCounted n interval s v =
        let urgent = take_immediate s.dirty in
        let ready : DeviceService J = record s { dirty = urgent.0 } in
        let t = (send ports urgent.1 ready).0 in
        let sent = send-IsCounted ports n urgent.1 ready (
          IsCounted-IsSameWork n s ready (record { pending = refl; submitted = refl; count = refl })
            v) in
        let due = take_telemetry_due (ports.steady_now t.port_calls) interval t.dirty in
        send-IsCounted ports n due.1 (record (called t) { dirty = due.0 })
          (IsCounted-IsSameWork n t _ (record { pending = refl; submitted = refl; count = refl })
            sent)

    dispatch_writes-IsCounted :
        (n interval : ℕ) (s : DeviceService J)
        → IsCounted n s
        → IsCounted n (dispatch_writes ports interval s)
    unfolding dispatch_writes
    dispatch_writes-IsCounted n interval s v = elim (Bool-cases s.is_database_unavailable) [
      | inl e ↦ subst (IsCounted n) (sym (if_true _ _ e)) v
      | inr e ↦ subst (IsCounted n) (sym (if_false _ _ e)) (by_input s.is_input_drained)
    ]
      where
        by_input :
            (b : Bool)
            → IsCounted n (if b then dispatch_all ports s else dispatch_due ports interval s)
        by_input true = dispatch_all-IsCounted n s v
        by_input false = dispatch_due-IsCounted n interval s v

    consume_snapshot-IsSameWork : (s : DeviceService J) → IsSameWork s (consume_snapshot s)
    unfolding consume_snapshot publish_current_snapshot emit
    consume_snapshot-IsSameWork s = record {
      pending = ground arith;
      submitted = ground arith;
      count = ground arith;
    }

    -- The refusals that the counter still misses after a pass: cancelling sets it to zero.
    unfoldable pub refusals_after : DeviceService J → ℕ → ℕ
    refusals_after s n =
        if (handle_results ports s.results s).is_cancel_requested
        then 0
        else n + refusals_in ports s.results s

    process_ready-IsCounted :
        (intervals : Intervals) (system_now n : ℕ) (s : DeviceService J)
        → IsCounted n s
        → IsCounted (refusals_after s n) (process_ready ports intervals system_now s)
    unfolding process_ready refusals_after
    process_ready-IsCounted intervals system_now n s v =
        let k = refusals_after s n in
        let handled = handle_results ports s.results s in
        let t = consume_cancel handled in
        let tv = consume_cancel-IsCounted _ handled (handle_results-IsCounted s.results n s v) in
        let w = submit_pending ports (handle_messages ports t.mqtt_queue.queue t) in
        let wv =
          submit_pending-IsCounted k _ (handle_messages-IsCounted k t.mqtt_queue.queue t tv) in
        let scanned = scan_offline ports intervals system_now w in
        IsCounted-IsSameWork k _ _ (consume_snapshot-IsSameWork _) (
          dispatch_writes-IsCounted k intervals.telemetry_interval scanned
            (IsCounted-IsSameWork k w scanned (scan_offline-IsSameWork intervals system_now w) wv))

    module _ (intervals : Intervals) where
      refusals_step : Event J → DeviceService J → ℕ → ℕ
      unfolding refusals_after
      refusals_step (processes system_now) s n = refusals_after s n
      refusals_step _ s n = n

      -- Since the last time the outstanding work was given up: how many records the directory refused
      -- although their registrations were submitted.
      unfoldable pub run_refusals : List (Event J) → DeviceService J → ℕ → ℕ
      unfolding refusals_step
      run_refusals [] s n = n
      run_refusals (e ∷ es) s n =
          run_refusals es (service_step ports intervals e s) (refusals_step e s n)

      service_step-IsCounted :
          (e : Event J) (n : ℕ) (s : DeviceService J)
          → IsCounted n s
          → IsCounted (refusals_step e s n) (service_step ports intervals e s)
      unfolding service_step refusals_step push_message push_database_result close_service
          cancel_outstanding_database_work request_external_snapshot drain_input
      service_step-IsCounted (pushes_message m) n s v =
          IsCounted-IsSameWork n s _ (record { pending = refl; submitted = refl; count = refl }) v
      service_step-IsCounted (pushes_result r) n s v =
          IsCounted-IsSameWork n s _ (record { pending = refl; submitted = refl; count = refl }) v
      service_step-IsCounted closes n s v =
          IsCounted-IsSameWork n s _ (record { pending = refl; submitted = refl; count = refl }) v
      service_step-IsCounted cancels n s v =
          IsCounted-IsSameWork n s _ (record { pending = refl; submitted = refl; count = refl }) v
      service_step-IsCounted requests_snapshot n s v =
          IsCounted-IsSameWork n s _
            (record { pending = ground arith; submitted = ground arith; count = ground arith }) v
      service_step-IsCounted drains_input n s v =
          IsCounted-IsSameWork n s _
            (record { pending = ground arith; submitted = ground arith; count = ground arith }) v
      service_step-IsCounted (processes system_now) n s v =
          process_ready-IsCounted intervals system_now n s v

      pub run_service_steps-IsCounted :
          (es : List (Event J)) (n : ℕ) (s : DeviceService J)
          → IsCounted n s
          → IsCounted (run_refusals es s n) (run_service_steps ports intervals es s)
      unfolding run_service_steps run_refusals
      run_service_steps-IsCounted [] n s v = v
      run_service_steps-IsCounted (e ∷ es) n s v =
          run_service_steps-IsCounted es _ _ (service_step-IsCounted e n s v)

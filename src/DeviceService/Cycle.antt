-- ===== src/DeviceService/Cycle.antt =====
-- core/runtime/device_service.cpp: one pass of the thread, the requests of other threads, and the
-- steps that a schedule of them consists of. A pass takes the messages that wait when it begins.
use cns_server.Base.{
  ℕ, ◌+◌, String, Bool, true, false, not, List, [], ◌∷◌, ◌++◌, Option, none, some, leb, nat_eq,
  is_some, if◌then◌else◌, length, map,
}
use cns_server.Base.Map.{Map}
use cns_server.Queue.{BoundedQueue, try_push, close}
use cns_server.StateEvent.{snapshot_replay}
use cns_server.Device.{DeviceRecord, DeviceRegistry, Mutation}
use cns_server.Registry.{expire_inactive}
use cns_server.Registry.Listing.{list_devices}
use cns_server.Dirty.{clear, take_immediate, take_telemetry_due, take_all_dirty}
use cns_server.Database.{DatabaseResult}
use cns_server.DeviceService.{
  PublishedState, PendingRegistration, InboundMessage, Answer, accepted, refused, threw,
  threw_unknown, Ports, publishes_snapshot, diagnoses, DeviceService, emit, called, begin_work,
  is_device_degraded, mark_device, send,
}
use cns_server.DeviceService.Results.{handle_database_result, handle_message}

-- kOfflineScan, telemetry_interval_ and offline_timeout_, in ticks.
pub record Intervals : Type 0 where
  pub offline_scan : ℕ
  pub telemetry_interval : ℕ
  pub offline_timeout : ℕ

-- What happens to the service: the passes of its thread, and the requests that other threads make
-- between them.
pub data Event (J : Type 0) : Type 0 where
  pushes_message : InboundMessage J → Event J
  pushes_result : DatabaseResult J → Event J
  closes cancels requests_snapshot drains_input : Event J
  processes : (system_now : ℕ) → Event J

abbrev scan_time : Intervals → Option ℕ → ℕ
scan_time intervals none = 0
scan_time intervals (some now) = now + intervals.offline_scan

module _ {J : Type 0} where
  -- The constructor. The first reading of the clock may have thrown.
  unfoldable pub new_service :
      Intervals → Option ℕ → DeviceRegistry J → BoundedQueue (InboundMessage J) → DeviceService J
  new_service intervals reading registry queue = record {
    registry = registry;
    mqtt_queue = queue;
    results = [];
    dirty = [];
    pending = [];
    degraded = [];
    last_reason = [];
    submitted = [];
    pending_status_logs = [];
    next_scan = scan_time intervals reading;
    is_scan_initialized = is_some reading;
    is_database_unavailable = false;
    closed = false;
    is_input_drained = false;
    is_cancel_requested = false;
    is_snapshot_requested = false;
    is_drain_dispatch_pending = false;
    is_drain_submission_blocked = false;
    outstanding_database_work = 0;
    port_calls = 0;
    outputs = [];
  }

  -- TryPush
  unfoldable pub push_message : InboundMessage J → DeviceService J → DeviceService J × Bool
  push_message m s =
      let pushed = try_push s.mqtt_queue m in (record s { mqtt_queue = pushed.0 }, pushed.1)

  -- PushDatabaseResult
  unfoldable pub push_database_result : DatabaseResult J → DeviceService J → DeviceService J
  push_database_result r s = record s { results = s.results ++ r ∷ [] }

  -- Close
  unfoldable pub close_service : DeviceService J → DeviceService J
  close_service s = record s {
    closed = true;
    is_snapshot_requested = false;
    is_drain_dispatch_pending = true;
    mqtt_queue = close s.mqtt_queue;
  }

  -- CancelOutstandingDatabaseWork
  unfoldable pub cancel_outstanding_database_work : DeviceService J → DeviceService J
  cancel_outstanding_database_work s = record s {
    is_cancel_requested = true;
    is_drain_dispatch_pending = false;
  }

  -- RequestExternalSnapshot
  unfoldable pub request_external_snapshot : DeviceService J → DeviceService J
  request_external_snapshot s = if s.closed then s else record s { is_snapshot_requested = true }

  -- What WaitForDatabaseIdle waits for, between two passes.
  unfoldable pub is_database_idle : DeviceService J → Bool
  is_database_idle s =
      if nat_eq s.outstanding_database_work 0 then not s.is_drain_dispatch_pending else false

  -- The first loop of ProcessReady.
  unfoldable pub handle_results :
      Ports J → List (DatabaseResult J) → DeviceService J → DeviceService J
  unfolding handle_database_result
  handle_results ports [] s = record s { results = [] }
  handle_results ports (r ∷ rs) s =
      handle_results ports rs (handle_database_result ports r (record s { results = rs }))

  unfoldable pub unsubmit : Map String (PendingRegistration J) → Map String (PendingRegistration J)
  unsubmit [] = []
  unsubmit ((id, c) ∷ rest) = (id, record c { submitted = false }) ∷ unsubmit rest

  -- The block under ConsumeCancelDatabaseWorkRequest.
  unfoldable pub consume_cancel : DeviceService J → DeviceService J
  unfolding unsubmit
  consume_cancel s =
      if s.is_cancel_requested
      then record s {
        is_cancel_requested = false;
        pending = unsubmit s.pending;
        submitted = [];
        dirty = clear s.dirty;
        is_drain_submission_blocked = false;
        outstanding_database_work = 0;
      }
      else s

  -- The loop over the queue of messages.
  unfoldable pub handle_messages :
      Ports J → List (InboundMessage J) → DeviceService J → DeviceService J
  handle_messages ports [] s = record s { mqtt_queue = record s.mqtt_queue { queue = [] } }
  handle_messages ports (m ∷ ms) s =
      handle_messages ports ms
        (handle_message ports m (record s { mqtt_queue = record s.mqtt_queue { queue = ms } }))

  -- The branches of a round of the loop over the pending registrations.
  unfoldable pub answer_candidate :
      PendingRegistration J → Answer → DeviceService J → PendingRegistration J × DeviceService J
  unfolding emit begin_work
  answer_candidate c accepted s = (record c { submitted = true }, begin_work s)
  answer_candidate c refused s = (c, emit (diagnoses "数据库建档提交端口已关闭") s)
  answer_candidate c threw s = (c, emit (diagnoses "数据库建档提交回调异常") s)
  answer_candidate c threw_unknown s = (c, emit (diagnoses "数据库建档提交回调发生未知异常") s)

  unfoldable pub submit_candidate :
      Ports J → PendingRegistration J → DeviceService J → PendingRegistration J × DeviceService J
  unfolding answer_candidate called
  submit_candidate ports c s =
      if c.submitted
      then (c, s)
      else answer_candidate c (ports.provision s.port_calls c.registration c.received_at) (called s)

  unfoldable pub submit_each :
      Ports J
      → Map String (PendingRegistration J)
      → DeviceService J
      → Map String (PendingRegistration J) × DeviceService J
  unfolding submit_candidate
  submit_each ports [] s = ([], s)
  submit_each ports ((id, c) ∷ rest) s =
      let one = submit_candidate ports c s in
      let others = submit_each ports rest one.1 in ((id, one.0) ∷ others.0, others.1)

  unfoldable pub submit_pending : Ports J → DeviceService J → DeviceService J
  unfolding submit_each
  submit_pending ports s =
      let submitted_all = submit_each ports s.pending s in
      if s.is_database_unavailable
      then s
      else record (submitted_all.1) { pending = submitted_all.0 }

  unfoldable pub mark_each : Ports J → List (Mutation J) → DeviceService J → DeviceService J
  unfolding mark_device
  mark_each ports [] s = s
  mark_each ports (m ∷ ms) s = mark_each ports ms (mark_device ports m s)

  unfoldable pub expire_devices : Ports J → Intervals → ℕ → DeviceService J → DeviceService J
  unfolding mark_each
  expire_devices ports intervals system_now s =
      let expired = expire_inactive s.registry system_now intervals.offline_timeout in
      mark_each ports expired.1 (record s { registry = expired.0 })

  -- The scan for devices that have gone silent.
  unfoldable pub scan_offline : Ports J → Intervals → ℕ → DeviceService J → DeviceService J
  unfolding called expire_devices
  scan_offline ports intervals system_now s =
      let now = ports.steady_now s.port_calls in
      let t = called s in
      let next_scan = if s.is_scan_initialized then s.next_scan else now + intervals.offline_scan in
      let ready = record t { next_scan = next_scan; is_scan_initialized = true } in
      let expired = expire_devices ports intervals system_now ready in
      if leb next_scan now
      then record expired { next_scan = now + intervals.offline_scan }
      else ready

  -- DispatchWrites once the input is drained.
  unfoldable pub dispatch_all : Ports J → DeviceService J → DeviceService J
  unfolding send
  dispatch_all ports s =
      let taken = take_all_dirty s.dirty in
      let sent = send ports taken.1 (record s { dirty = taken.0 }) in
      if s.is_drain_submission_blocked
      then s
      else if sent.1
      then record (sent.0) { is_drain_dispatch_pending = false }
      else record (sent.0) { is_drain_submission_blocked = true }

  -- DispatchWrites before that.
  unfoldable pub dispatch_due : Ports J → ℕ → DeviceService J → DeviceService J
  unfolding send called
  dispatch_due ports interval s =
      let urgent = take_immediate s.dirty in
      let t = (send ports urgent.1 (record s { dirty = urgent.0 })).0 in
      let due = take_telemetry_due (ports.steady_now t.port_calls) interval t.dirty in
      (send ports due.1 (record (called t) { dirty = due.0 })).0

  -- DispatchWrites
  unfoldable pub dispatch_writes : Ports J → ℕ → DeviceService J → DeviceService J
  unfolding dispatch_all dispatch_due
  dispatch_writes ports interval s =
      let drained = dispatch_all ports s in
      let due = dispatch_due ports interval s in
      if s.is_database_unavailable then s else if s.is_input_drained then drained else due

  snapshot_state : DeviceService J → DeviceRecord J → PublishedState J
  snapshot_state s r = record {
    device = r;
    reason = snapshot_replay;
    degraded = is_device_degraded s r.device_id;
  }

  -- PublishCurrentSnapshot, with a sink.
  unfoldable pub publish_current_snapshot : DeviceService J → DeviceService J
  unfolding emit snapshot_state
  publish_current_snapshot s =
      emit (publishes_snapshot (map (snapshot_state s) (list_devices s.registry))) s

  unfoldable pub consume_snapshot : DeviceService J → DeviceService J
  unfolding publish_current_snapshot
  consume_snapshot s =
      if s.is_snapshot_requested
      then publish_current_snapshot (record s { is_snapshot_requested = false })
      else s

  -- The test of Run after a pass, and SetInputDrained.
  unfoldable pub drain_input : DeviceService J → DeviceService J
  drain_input s =
      if nat_eq (length s.mqtt_queue.queue) 0
      then if s.closed then record s { is_input_drained = true } else s
      else s

  module _ (ports : Ports J) (intervals : Intervals) where
    -- ProcessReady
    unfoldable pub process_ready : ℕ → DeviceService J → DeviceService J
    unfolding handle_results consume_cancel handle_messages submit_pending scan_offline
        dispatch_writes consume_snapshot
    process_ready system_now s =
        let t = consume_cancel (handle_results ports s.results s) in
        let u = submit_pending ports (handle_messages ports t.mqtt_queue.queue t) in
        consume_snapshot (
          dispatch_writes ports intervals.telemetry_interval
            (scan_offline ports intervals system_now u))

  module _ (ports : Ports J) (intervals : Intervals) where
    unfoldable pub service_step : Event J → DeviceService J → DeviceService J
    unfolding push_message push_database_result close_service cancel_outstanding_database_work
        request_external_snapshot drain_input process_ready
    service_step (pushes_message m) s = (push_message m s).0
    service_step (pushes_result r) s = push_database_result r s
    service_step closes s = close_service s
    service_step cancels s = cancel_outstanding_database_work s
    service_step requests_snapshot s = request_external_snapshot s
    service_step drains_input s = drain_input s
    service_step (processes system_now) s = process_ready ports intervals system_now s

    unfoldable pub run_service_steps : List (Event J) → DeviceService J → DeviceService J
    unfolding service_step
    run_service_steps [] s = s
    run_service_steps (e ∷ es) s = run_service_steps es (service_step e s)

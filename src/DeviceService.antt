-- ===== src/DeviceService.antt =====
-- core/runtime/device_service.{hpp,cpp}: the thread that owns the device directory, its state and
-- what it hands to the database worker. The callbacks and the clock are ports, whose answers
-- may depend on the number of calls made before. The state's flags are written under a lock, one by
-- one, so a schedule of the threads is a sequence of the steps in DeviceService/Cycle.antt.
pub mod Results
pub mod Cycle
pub mod Work
pub mod Settle
pub mod Submission
pub mod Counter
pub mod Idle
pub mod Tests
use Prim.Native.String.{◌++◌ as str_append}
use cns_server.Base.{
  ℕ, ◌+◌, ◌-◌, ◌^◌, String, Bool, true, false, not, ◌&&◌, ◌||◌, List, [], ◌∷◌, ◌++◌, Option, none,
  some, ◌==◌, nat_eq, if◌then◌else◌, Expected, ok, unexpected, u64, string_eq,
}
use cns_server.Base.Map.{Map, find, insert, contains}
use cns_server.Queue.{BoundedQueue}
use cns_server.Protocol.{Registration, Telemetry}
use cns_server.StateEvent.{ChangeReason, telemetry}
use cns_server.Device.{DeviceRecord, DeviceRegistry, Mutation}
use cns_server.Registry.{find_device}
use cns_server.Dirty.{Urgency, immediate, telemetry_batch, DesiredDeviceWrite, Entry, mark, restore}
use cns_server.Database.{DatabaseResult}

pub record PublishedState (J : Type 0) : Type 0 where
  pub device : DeviceRecord J
  pub reason : ChangeReason
  pub degraded : Bool

pub record PendingRegistration (J : Type 0) : Type 0 where
  pub registration : Registration J
  pub received_at : ℕ
  pub submitted : Bool

-- A message with the results of ParseDeviceTopic, ParseRegistration and ParseTelemetry: the id
-- in its topic, and what its payload was read as, if it was.
pub data DeviceMessage (J : Type 0) : Type 0 where
  invalid_topic : DeviceMessage J
  registers : (device_id : String) → Option (Registration J) → DeviceMessage J
  reports : (device_id : String) → Option (Telemetry J) → DeviceMessage J

pub record InboundMessage (J : Type 0) : Type 0 where
  pub content : DeviceMessage J
  pub received_at : ℕ

-- How a call of a submitter ends.
pub data Answer : Type 0 where
  accepted refused threw threw_unknown : Answer

pub record Ports (J : Type 0) : Type 0 where
  pub provision : ℕ → Registration J → ℕ → Answer
  pub write : ℕ → DesiredDeviceWrite J → Answer
  pub steady_now : ℕ → ℕ

-- The calls of the sinks. A sink that throws changes nothing but the diagnostics.
pub data Output (J : Type 0) : Type 0 where
  publishes : PublishedState J → Output J
  publishes_snapshot : List (PublishedState J) → Output J
  diagnoses informs : String → Output J

pub record DeviceService (J : Type 0) : Type 0 where
  pub registry : DeviceRegistry J
  pub mqtt_queue : BoundedQueue (InboundMessage J)
  pub results : List (DatabaseResult J)
  pub dirty : Map String (Entry J)
  pub pending : Map String (PendingRegistration J)
  pub degraded : Map String ℕ
  pub last_reason : Map String ChangeReason
  pub submitted : Map String (DesiredDeviceWrite J)
  pub pending_status_logs : Map String (DesiredDeviceWrite J)
  pub next_scan : ℕ
  pub is_scan_initialized : Bool
  pub is_database_unavailable : Bool
  pub closed : Bool
  pub is_input_drained : Bool
  pub is_cancel_requested : Bool
  pub is_snapshot_requested : Bool
  pub is_drain_dispatch_pending : Bool
  pub is_drain_submission_blocked : Bool
  pub outstanding_database_work : ℕ
  pub port_calls : ℕ
  pub outputs : List (Output J)

abbrev is_telemetry : ChangeReason → Bool
is_telemetry telemetry = true
is_telemetry _ = false

abbrev or_telemetry : Option ChangeReason → ChangeReason
or_telemetry none = telemetry
or_telemetry (some reason) = reason

module _ {J : Type 0} where
  unfoldable pub emit : Output J → DeviceService J → DeviceService J
  emit o s = record s { outputs = s.outputs ++ o ∷ [] }

  -- One more call of a port has been made.
  unfoldable pub called : DeviceService J → DeviceService J
  called s = record s { port_calls = s.port_calls + 1 }

  -- AdjustOutstandingDatabaseWork, up by one and down by a count, on a std::size_t.
  unfoldable pub begin_work : DeviceService J → DeviceService J
  begin_work s = record s { outstanding_database_work = u64 (s.outstanding_database_work + 1) }

  unfoldable pub end_work : ℕ → DeviceService J → DeviceService J
  end_work count s = record s {
    outstanding_database_work = u64 (s.outstanding_database_work + (2 ^ 64 - u64 count));
  }

  unfoldable pub end_work_if : Bool → DeviceService J → DeviceService J
  unfolding end_work
  end_work_if b s = if b then end_work 1 s else s

  -- WriteFor
  unfoldable pub write_for : Mutation J → Urgency → DesiredDeviceWrite J
  write_for m urgency = record {
    device = m.device;
    revision = m.device.revision;
    write_metadata = not (is_telemetry m.reason);
    write_status = not (is_telemetry m.reason) || m.status_changed;
    write_telemetry = is_telemetry m.reason;
    urgency = urgency;
  }

  -- IsDeviceDegraded
  unfoldable pub is_device_degraded : DeviceService J → String → Bool
  is_device_degraded s id = s.is_database_unavailable || contains id s.degraded

  -- The reason that a degraded state is published with.
  unfoldable pub reason_of : DeviceService J → String → ChangeReason
  reason_of s id = or_telemetry (find id s.last_reason)

  -- The block `if (const auto* record = registry_.Find(id))` that marks a device degraded and
  -- publishes it; `revision` gives the revision to wait for.
  unfoldable pub degrade : String → (ℕ → ℕ) → DeviceService J → DeviceService J
  unfolding emit reason_of
  degrade id revision s = elim (find_device s.registry id) [
    | none ↦ s
    | some r ↦
        emit (publishes (record { device = r; reason = reason_of s id; degraded = true }))
          (record s { degraded = insert id (revision r.revision) s.degraded })
  ]

  -- Mark
  unfoldable pub mark_device : Ports J → Mutation J → DeviceService J → DeviceService J
  unfolding write_for emit called is_device_degraded
  mark_device ports m s =
      let id = m.device.device_id in
      let logs =
        if m.status_changed
        then insert id
            (record {
              device = m.device;
              revision = m.device.revision;
              write_metadata = false;
              write_status = true;
              write_telemetry = false;
              urgency = immediate;
            })
            s.pending_status_logs
        else s.pending_status_logs in
      let urgency = if is_telemetry m.reason then telemetry_batch else immediate in
      let marked = called (record s {
        last_reason = insert id m.reason s.last_reason;
        pending_status_logs = logs;
        dirty = mark (write_for m urgency) (ports.steady_now s.port_calls) s.dirty;
        degraded =
            if is_device_degraded s id then insert id m.device.revision s.degraded else s.degraded;
      }) in
      emit
        (publishes (record {
          device = m.device;
          reason = m.reason;
          degraded = is_device_degraded marked id;
        }))
        marked

  -- The three failing branches of SubmitWrite, which differ in the diagnostic.
  unfoldable pub reject_write :
      Ports J → DesiredDeviceWrite J → String → DeviceService J → DeviceService J × Bool
  unfolding emit called degrade
  reject_write ports w message s = (
    emit (diagnoses message) (
        degrade w.device.device_id (λ revision. revision)
          (called (record s { dirty = restore w (ports.steady_now s.port_calls) s.dirty }))),
    false,
  )

  unfoldable pub accept_write : DesiredDeviceWrite J → DeviceService J → DeviceService J × Bool
  unfolding begin_work
  accept_write w s =
      let id = w.device.device_id in
      let counted = if contains id s.submitted then s else begin_work s in
      (record counted { submitted = insert id w s.submitted }, true)

  -- The branches of SubmitWrite.
  unfoldable pub answer_write :
      Ports J → DesiredDeviceWrite J → Answer → DeviceService J → DeviceService J × Bool
  unfolding reject_write accept_write
  answer_write ports w accepted s = accept_write w s
  answer_write ports w refused s = reject_write ports w "数据库写入提交端口已关闭" s
  answer_write ports w threw s = reject_write ports w "数据库写入提交回调异常" s
  answer_write ports w threw_unknown s = reject_write ports w "数据库写入提交回调发生未知异常" s

  -- SubmitWrite
  unfoldable pub submit_device_write :
      Ports J → DesiredDeviceWrite J → DeviceService J → DeviceService J × Bool
  unfolding called answer_write
  submit_device_write ports w s = answer_write ports w (ports.write s.port_calls w) (called s)

  -- The lambda `send` of DispatchWrites: every write is tried.
  unfoldable pub send :
      Ports J → List (DesiredDeviceWrite J) → DeviceService J → DeviceService J × Bool
  unfolding submit_device_write
  send ports [] s = (s, true)
  send ports (w ∷ ws) s =
      let one = submit_device_write ports w s in
      let rest = send ports ws one.0 in (rest.0, one.1 && rest.1)

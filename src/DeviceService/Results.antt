-- ===== src/DeviceService/Results.antt =====
-- core/runtime/device_service.cpp: what the thread does with a database result and with a message.
use Prim.Native.String.{◌++◌ as str_append}
use cns_server.Base.{
  ℕ, max, ◌+◌, String, Bool, true, false, ◌&&◌, [], ◌∷◌, Option, none, some, ◌==◌, leb, nat_eq,
  if◌then◌else◌, Expected, ok, unexpected, length, string_eq,
}
use cns_server.Base.Map.{Map, find, insert, erase, contains}
use cns_server.Protocol.{Registration}
use cns_server.StateEvent.{database_recovered}
use cns_server.Device.{DeviceRecord, DeviceRegistry, Mutation, Error, online, status_beq}
use cns_server.Registry.{find_device, apply_registration, apply_telemetry, add_provisioned}
use cns_server.Dirty.{immediate, DesiredDeviceWrite, complete}
use cns_server.Database.{
  DatabaseResult, provisioned, write_completed, database_unavailable, permanent_failure,
}
use cns_server.Database.{database_recovered as recovered_result}
use cns_server.DeviceService.{
  PendingRegistration, InboundMessage, DeviceMessage, invalid_topic, registers, reports, Ports,
  publishes, diagnoses, informs, DeviceService, emit, end_work, end_work_if, degrade, mark_device,
  submit_device_write,
}

module _ {J : Type 0} where
  -- The loops that count the pending registrations that were submitted.
  unfoldable pub submitted_count : Map String (PendingRegistration J) → ℕ
  submitted_count [] = 0
  submitted_count ((id, c) ∷ rest) = (if c.submitted then 1 else 0) + submitted_count rest

  unfoldable pub end_works : ℕ → DeviceService J → DeviceService J
  unfolding end_work
  end_works count s = if nat_eq count 0 then s else end_work count s

  unfoldable pub handle_unavailable : DatabaseResult J → DeviceService J → DeviceService J
  unfolding emit degrade submitted_count end_works
  handle_unavailable result s =
      let count = submitted_count s.pending in
      let degraded_state =
        degrade result.device_id (λ revision. max revision result.revision)
          (record s { is_database_unavailable = true }) in
      emit (diagnoses "数据库暂不可用，设备状态进入降级模式")
        (end_works count (record degraded_state { pending = [] }))

  -- The first block of a permanent failure.
  unfoldable pub fail_pending : String → DeviceService J → DeviceService J
  unfolding end_work_if
  fail_pending id s = elim (find id s.pending) [
    | none ↦ s
    | some c ↦ let t = end_work_if c.submitted s in record t { pending = erase id t.pending }
  ]

  -- A failure that names no device.
  unfoldable pub fail_all : DeviceService J → DeviceService J
  unfolding submitted_count end_works
  fail_all s =
      end_works (submitted_count s.pending + length s.submitted)
        (record s { pending = []; submitted = []; pending_status_logs = [] })

  unfoldable pub fail_write : String → DeviceService J → DeviceService J
  unfolding end_work_if
  fail_write id s =
      let t = end_work_if (contains id s.submitted) s in
      record t {
        submitted = erase id t.submitted;
        pending_status_logs = erase id t.pending_status_logs;
      }

  unfoldable pub handle_permanent_failure : DatabaseResult J → DeviceService J → DeviceService J
  unfolding emit degrade fail_pending fail_all fail_write
  handle_permanent_failure result s =
      let id = result.device_id in
      let t = fail_pending id s in
      let failed = if id == "" then fail_all t else fail_write id t in
      emit (diagnoses "数据库操作永久失败，已拒绝相关待处理操作")
        (degrade id (λ revision. max revision result.revision) failed)

  -- The loop over the degraded devices, which gets the keys it began with: a submission
  -- only overwrites an entry.
  unfoldable pub resubmit : Ports J → Map String ℕ → DeviceService J → DeviceService J
  unfolding submit_device_write
  resubmit ports [] s = s
  resubmit ports ((id, revision) ∷ rest) s = resubmit ports rest (elim (find_device s.registry id) [
    | none ↦ s
    | some r ↦ (submit_device_write ports (snapshot_write r) s).0
  ])
    where
      has_telemetry : Option J → Bool
      has_telemetry none = false
      has_telemetry (some t) = true

      snapshot_write : DeviceRecord J → DesiredDeviceWrite J
      snapshot_write r = record {
        device = r;
        revision = r.revision;
        write_metadata = true;
        write_status = true;
        write_telemetry = has_telemetry r.latest_telemetry;
        urgency = immediate;
      }

  unfoldable pub handle_recovered : Ports J → DeviceService J → DeviceService J
  unfolding resubmit
  handle_recovered ports s =
      resubmit ports s.degraded (record s { is_database_unavailable = false })

  -- The block `if (auto mutation = registry_.Apply...)`.
  unfoldable pub apply_change :
      Ports J → Expected Error (DeviceRegistry J × Mutation J) → DeviceService J → DeviceService J
  unfolding mark_device
  apply_change ports (unexpected e) s = s
  apply_change ports (ok p) s = mark_device ports p.1 (record s { registry = p.0 })

  -- A record for a pending registration, by what the directory says to it.
  unfoldable pub add_device :
      Ports J
      → String
      → PendingRegistration J
      → Expected Error (DeviceRegistry J)
      → DeviceService J
      → DeviceService J
  unfolding end_work_if apply_change
  add_device ports id candidate (unexpected e) s = end_work_if candidate.submitted s
  add_device ports id candidate (ok registry) s = end_work_if candidate.submitted (
      apply_change ports (apply_registration registry candidate.registration candidate.received_at)
        (record s { registry = registry; pending = erase id s.pending }))

  unfoldable pub handle_provisioned :
      Ports J → String → Option (DeviceRecord J) → DeviceService J → DeviceService J
  unfolding add_device
  handle_provisioned ports id none s = s
  handle_provisioned ports id (some device) s = elim (find id s.pending) [
    | none ↦ s
    | some candidate ↦ add_device ports id candidate (add_provisioned s.registry device) s
  ]

  -- DescribeDeviceForLog
  unfoldable pub describe_device_for_log : DeviceRecord J → String
  describe_device_for_log r = str_append r.school_name (
      str_append "/" (
        str_append (elim r.dcdw_label [ none ↦ "未编号" | some label ↦ label ])
          (str_append " device_id=" r.device_id)))

  -- The log of a change of status, when the write that completed carried it.
  unfoldable pub log_status : String → ℕ → DesiredDeviceWrite J → DeviceService J → DeviceService J
  unfolding emit describe_device_for_log
  log_status id revision w s = elim (find id s.pending_status_logs) [
    | none ↦ s
    | some log ↦
        if leb log.revision revision && w.write_status
        then emit
            (informs (
              str_append (if status_beq log.device.status online then "设备上线：" else "设备离线：")
                (describe_device_for_log log.device)))
            (record s { pending_status_logs = erase id s.pending_status_logs })
        else s
  ]

  unfoldable pub complete_write : String → ℕ → DeviceService J → DeviceService J
  unfolding log_status end_work
  complete_write id revision s = elim (find id s.submitted) [
    | none ↦ s
    | some w ↦
        if leb w.revision revision
        then (let t = log_status id revision w s in
            end_work 1 (record t { dirty = complete w t.dirty; submitted = erase id t.submitted }))
        else s
  ]

  -- The end of the degradation of a device, once a write at the revision waited for is done.
  unfoldable pub restore_device : String → ℕ → DeviceService J → DeviceService J
  unfolding emit
  restore_device id revision s = elim (find id s.degraded) [
    | none ↦ s
    | some waited ↦
        if leb waited revision
        then (let t = record s { degraded = erase id s.degraded } in
            elim (find_device s.registry id) [
              | none ↦ t
              | some r ↦
                  emit
                    (publishes
                      (record { device = r; reason = database_recovered; degraded = false }))
                    t
            ])
        else s
  ]

  -- Handle(DatabaseResult)
  unfoldable pub handle_database_result :
      Ports J → DatabaseResult J → DeviceService J → DeviceService J
  unfolding handle_unavailable handle_permanent_failure handle_recovered handle_provisioned
      complete_write restore_device
  handle_database_result ports result s = elim result.kind [
    | database_unavailable ↦ handle_unavailable result s
    | permanent_failure ↦ handle_permanent_failure result s
    | recovered_result ↦ handle_recovered ports s
    | provisioned ↦ handle_provisioned ports result.device_id result.device s
    | write_completed ↦
        restore_device result.device_id result.revision
          (complete_write result.device_id result.revision s)
  ]

  -- A registration of a device that the directory does not know.
  unfoldable pub pend_registration : String → Registration J → ℕ → DeviceService J → DeviceService J
  pend_registration id registration received_at s =
      if s.is_database_unavailable then s else record s {
        pending =
            insert id
              (record {
                registration = registration;
                received_at = received_at;
                submitted = elim (find id s.pending) [ none ↦ false | some c ↦ c.submitted ];
              })
              s.pending;
      }

  -- A registration that was read.
  unfoldable pub handle_registration :
      Ports J → String → Registration J → ℕ → DeviceService J → DeviceService J
  unfolding apply_change pend_registration
  handle_registration ports id registration received_at s = elim (find_device s.registry id) [
    | none ↦ pend_registration id registration received_at s
    | some r ↦ apply_change ports (apply_registration s.registry registration received_at) s
  ]

  -- Handle(mqtt::InboundMessage)
  unfoldable pub handle_content : Ports J → DeviceMessage J → ℕ → DeviceService J → DeviceService J
  unfolding apply_change handle_registration
  handle_content ports invalid_topic received_at s = s
  handle_content ports (registers id none) received_at s = s
  handle_content ports (registers id (some registration)) received_at s =
      handle_registration ports id registration received_at s
  handle_content ports (reports id none) received_at s = s
  handle_content ports (reports id (some t)) received_at s =
      apply_change ports (apply_telemetry s.registry id t received_at) s

  unfoldable pub handle_message : Ports J → InboundMessage J → DeviceService J → DeviceService J
  unfolding handle_content
  handle_message ports m s = handle_content ports m.content m.received_at s

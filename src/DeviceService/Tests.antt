-- ===== src/DeviceService/Tests.antt =====
-- A device whose record the directory refuses, and the service afterwards.
use cns_server.Base.{
  ◌≡◌, refl, String, true, false, List, [], ◌∷◌, none, some, u64, arith, ◌+◌, ◌↔◌, collect,
}
use cns_server.Base.Map.{find, insert, erase, contains, values, map_values}
use cns_server.Queue.{BoundedQueue, try_push}
use cns_server.Protocol.{cns_box}
use cns_server.Protocol.{online as says_online}
use cns_server.Device.{DeviceRecord, DeviceRegistry, online}
use cns_server.Registry.{find_device, add_provisioned, expire_inactive, provision}
use cns_server.Dirty.{take_immediate, take_telemetry_due, take_matching}
use cns_server.Database.{provisioned, database_unavailable}
use cns_server.DeviceService.{
  InboundMessage, registers, accepted, Ports, send, end_work, end_work_if, begin_work, called, emit,
  degrade, is_device_degraded,
}
use cns_server.DeviceService.Results.{
  submitted_count, end_works, handle_database_result, handle_unavailable, handle_provisioned,
  add_device, handle_message, handle_content, handle_registration, pend_registration,
}
use cns_server.DeviceService.Settle.{refusals_of}
use cns_server.DeviceService.Counter.{run_refusals, refusals_after, refusals_in}
use cns_server.DeviceService.Cycle.{
  Intervals, Event, pushes_message, pushes_result, processes, is_database_idle, new_service,
  run_service_steps, service_step, push_message, push_database_result, process_ready,
  handle_results, consume_cancel, handle_messages, submit_pending, submit_each, submit_candidate,
  answer_candidate, scan_offline, expire_devices, mark_each, dispatch_writes, dispatch_due,
  consume_snapshot,
}
use cns_server.DeviceService.Idle.{
  HasNoMark, marked_work-HasNoMark, service_after, refused_records, marked_work,
  run_service_steps_counts, is_database_idle_exact, is_database_idle_refused,
}

abbrev ports : Ports Unit
ports = record {
  provision = λ calls registration at. accepted;
  write = λ calls w. accepted;
  steady_now = λ calls. calls;
}

abbrev intervals : Intervals
intervals = record { offline_scan = 1000; telemetry_interval = 5000; offline_timeout = 60_000 }

abbrev box : String → DeviceRecord Unit
box id = record {
  device_id = id;
  school_id = 1;
  school_name = "school";
  dcdw_label = some "L";
  model_version = "";
  status = online;
  last_seen_at = none;
  latest_telemetry = none;
  telemetry_received_at = none;
  revision = 1;
  device_type = cns_box;
  capabilities = none;
  product = none;
  version = none;
}

abbrev registry : DeviceRegistry Unit
registry = record {
  records = ("a", box "a") ∷ [];
  roles = (record { school_id = 1; dcdw_label = "L" }, "a") ∷ [];
  named_roles = [];
}

abbrev queue : BoundedQueue (InboundMessage Unit)
queue = record { capacity = 10; queue = []; closed = false }

abbrev registration : Event Unit
registration = pushes_message (record {
  content = registers "b" (
      some (record {
        device_id = "b";
        status = says_online;
        school_name = none;
        dcdw_label = none;
        device_type = cns_box;
        capabilities = none;
        product = none;
        version = none;
      }));
  received_at = 5;
})

abbrev conflict : Event Unit
conflict = pushes_result (record {
  kind = provisioned;
  device_id = "b";
  revision = 1;
  device = some (box "b");
  error = "";
})

abbrev outage : Event Unit
outage = pushes_result (record {
  kind = database_unavailable;
  device_id = "";
  revision = 0;
  device = none;
  error = "";
})

abbrev waiting : List (Event Unit)
waiting = registration ∷ processes 10 ∷ []

abbrev refused : List (Event Unit)
refused = registration ∷ processes 10 ∷ conflict ∷ processes 11 ∷ outage ∷ processes 12 ∷ []

idle_refused : refused_records ports intervals (some 0) registry queue refused ≡ 1
unfolding service_after refused_records marked_work new_service run_service_steps run_refusals
    refusals_after refusals_in refusals_of service_step push_message push_database_result
    process_ready handle_results handle_database_result handle_unavailable handle_provisioned
    add_device consume_cancel handle_messages handle_message handle_content handle_registration
    pend_registration submit_pending submit_each submit_candidate answer_candidate scan_offline
    expire_devices mark_each dispatch_writes dispatch_due send consume_snapshot end_works end_work
    end_work_if begin_work submitted_count called emit degrade find insert erase contains try_push
    find_device add_provisioned provision expire_inactive take_immediate take_telemetry_due
    take_matching collect values map_values is_device_degraded
idle_refused = refl

none_marked : marked_work ports intervals (some 0) registry queue refused ≡ 0
unfolding service_after refused_records marked_work new_service run_service_steps run_refusals
    refusals_after refusals_in refusals_of service_step push_message push_database_result
    process_ready handle_results handle_database_result handle_unavailable handle_provisioned
    add_device consume_cancel handle_messages handle_message handle_content handle_registration
    pend_registration submit_pending submit_each submit_candidate answer_candidate scan_offline
    expire_devices mark_each dispatch_writes dispatch_due send consume_snapshot end_works end_work
    end_work_if begin_work submitted_count called emit degrade find insert erase contains try_push
    find_device add_provisioned provision expire_inactive take_immediate take_telemetry_due
    take_matching collect values map_values is_device_degraded
none_marked = refl

none_refused : refused_records ports intervals (some 0) registry queue waiting ≡ 0
unfolding service_after refused_records marked_work new_service run_service_steps run_refusals
    refusals_after refusals_in refusals_of service_step push_message push_database_result
    process_ready handle_results handle_database_result handle_unavailable handle_provisioned
    add_device consume_cancel handle_messages handle_message handle_content handle_registration
    pend_registration submit_pending submit_each submit_candidate answer_candidate scan_offline
    expire_devices mark_each dispatch_writes dispatch_due send consume_snapshot end_works end_work
    end_work_if begin_work submitted_count called emit degrade find insert erase contains try_push
    find_device add_provisioned provision expire_inactive take_immediate take_telemetry_due
    take_matching collect values map_values is_device_degraded
none_refused = refl

one_marked : marked_work ports intervals (some 0) registry queue waiting ≡ 1
unfolding service_after refused_records marked_work new_service run_service_steps run_refusals
    refusals_after refusals_in refusals_of service_step push_message push_database_result
    process_ready handle_results handle_database_result handle_unavailable handle_provisioned
    add_device consume_cancel handle_messages handle_message handle_content handle_registration
    pend_registration submit_pending submit_each submit_candidate answer_candidate scan_offline
    expire_devices mark_each dispatch_writes dispatch_due send consume_snapshot end_works end_work
    end_work_if begin_work submitted_count called emit degrade find insert erase contains try_push
    find_device add_provisioned provision expire_inactive take_immediate take_telemetry_due
    take_matching collect values map_values is_device_degraded
one_marked = refl

run_service_steps_counts_example :
    u64 (
      (service_after ports intervals (some 0) registry queue refused).outstanding_database_work
      + refused_records ports intervals (some 0) registry queue refused)
    ≡ u64 (marked_work ports intervals (some 0) registry queue refused)
run_service_steps_counts_example =
    run_service_steps_counts ports intervals (some 0) registry queue refused

is_database_idle_exact_example :
    (is_database_idle (service_after ports intervals (some 0) registry queue waiting) ≡ true) ↔ (
      HasNoMark ports intervals (some 0) registry queue waiting
      × ((service_after ports intervals (some 0) registry queue waiting).is_drain_dispatch_pending
          ≡ false))
is_database_idle_exact_example =
    is_database_idle_exact ports intervals (some 0) registry queue waiting none_refused
      (omega (arith, one_marked))

no_mark : HasNoMark ports intervals (some 0) registry queue refused
no_mark = (marked_work-HasNoMark ports intervals (some 0) registry queue refused).0 none_marked

is_database_idle_refused_example :
    is_database_idle (service_after ports intervals (some 0) registry queue refused) ≡ false
is_database_idle_refused_example =
    is_database_idle_refused ports intervals (some 0) registry queue refused
      (omega (arith, idle_refused)) (omega (arith, idle_refused)) no_mark

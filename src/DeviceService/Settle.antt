-- ===== src/DeviceService/Settle.antt =====
-- core/runtime/device_service.cpp: how a database result and a message change the counter of
-- outstanding work.
use cns_server.Base.{
  ℕ, max, ◌+◌, ◌≡◌, refl, String, Bool, true, false, [], ◌∷◌, Option, none, some, ◌==◌, leb, nat_eq,
  if◌then◌else◌, length, arith, Bool-cases, Option-cases, inl, inr, string_eq, Expected, ok,
  unexpected,
}
use cns_server.Base.Map.{Map, find, erase, contains, IsUnique, insert-IsUnique, erase-IsUnique}
use cns_server.Protocol.{Registration}
use cns_server.Device.{DeviceRecord, DeviceRegistry, Mutation, Error}
use cns_server.Registry.{find_device, add_provisioned, apply_registration, apply_telemetry}
use cns_server.Database.{
  DatabaseResult, ResultKind, provisioned, write_completed, database_unavailable,
  database_recovered, permanent_failure,
}
use cns_server.DeviceService.{
  PendingRegistration, DeviceMessage, invalid_topic, registers, reports, Ports, DeviceService, emit,
  end_work, end_work_if, degrade,
}
use cns_server.DeviceService.Results.{
  submitted_count, end_works, handle_unavailable, fail_pending, fail_all, fail_write,
  handle_permanent_failure, resubmit, handle_recovered, apply_change, add_device,
  handle_provisioned, log_status, complete_write, restore_device, handle_database_result,
  pend_registration, handle_registration, handle_content,
}
use cns_server.DeviceService.Work.{
  IsCounted, IsSameWork, IsCounted-IsSameWork, degrade-IsSameWork, mark_device-IsSameWork,
  end_work-IsCounted, submit_device_write-IsCounted, submitted_count-erase, submitted_count-insert,
  length-erase_found, length-erase_missing,
}

module _ {J : Type 0} where
  plus_none : (n : ℕ) (s : DeviceService J) → IsCounted n s → IsCounted (n + 0) s
  plus_none n s v = record {
    counted = omega (arith, v.counted);
    bounded = v.bounded;
    pending_unique = v.pending_unique;
    submitted_unique = v.submitted_unique;
  }

  -- A record that the directory refuses although its registration was submitted.
  refused_record : PendingRegistration J → Expected Error (DeviceRegistry J) → ℕ
  refused_record c (ok registry) = 0
  refused_record c (unexpected e) = if c.submitted then 1 else 0

  refused_answer : String → Option (DeviceRecord J) → DeviceService J → ℕ
  unfolding refused_record
  refused_answer id none s = 0
  refused_answer id (some device) s = elim (find id s.pending) [
    | none ↦ 0
    | some c ↦ refused_record c (add_provisioned s.registry device)
  ]

  unfoldable pub refusals_of : DatabaseResult J → DeviceService J → ℕ
  unfolding refused_answer
  refusals_of result s = elim result.kind [
    | provisioned ↦ refused_answer result.device_id result.device s
    | _ ↦ 0
  ]

  module _ (ports : Ports J) (n : ℕ) where
    apply_change-IsSameWork :
        (e : Expected Error (DeviceRegistry J × Mutation J)) (s : DeviceService J)
        → IsSameWork s (apply_change ports e s)
    unfolding apply_change
    apply_change-IsSameWork (unexpected e) s = record {
      pending = refl;
      submitted = refl;
      count = refl;
    }
    apply_change-IsSameWork (ok p) s =
        let same = mark_device-IsSameWork ports p.1 (record s { registry = p.0 }) in
        record { pending = same.pending; submitted = same.submitted; count = same.count }

    end_works-IsCounted :
        (k : ℕ) (s t : DeviceService J)
        → IsCounted n s
        → IsUnique t.pending
        → IsUnique t.submitted
        → t.outstanding_database_work ≡ s.outstanding_database_work
        → submitted_count s.pending + length s.submitted
          ≡ k + submitted_count t.pending + length t.submitted
        → IsCounted n (end_works k t)
    unfolding end_works
    end_works-IsCounted k s t v p q e c = elim (Bool-cases (nat_eq k 0)) [
      | inl z ↦
          rw (z, end_works)
            record {
              counted = ground (arith, v.counted);
              bounded = ground (arith, v.bounded);
              pending_unique = p;
              submitted_unique = q;
            }
      | inr z ↦ rw (z, end_works) (end_work-IsCounted k n s t v p q e c)
    ]

    end_work_if-IsCounted :
        (b : Bool) (s t : DeviceService J)
        → IsCounted n s
        → IsUnique t.pending
        → IsUnique t.submitted
        → t.outstanding_database_work ≡ s.outstanding_database_work
        → submitted_count s.pending + length s.submitted
          ≡ (if b then 1 else 0) + submitted_count t.pending + length t.submitted
        → IsCounted n (end_work_if b t)
    unfolding end_work_if
    end_work_if-IsCounted true s t v p q e c = end_work-IsCounted 1 n s t v p q e c
    end_work_if-IsCounted false s t v p q e c = record {
      counted = ground (arith, v.counted);
      bounded = ground (arith, v.bounded);
      pending_unique = p;
      submitted_unique = q;
    }

    handle_unavailable-IsCounted :
        (r : DatabaseResult J) (s : DeviceService J)
        → IsCounted n s
        → IsCounted n (handle_unavailable r s)
    unfolding handle_unavailable emit submitted_count
    handle_unavailable-IsCounted r s v =
        let lost = record s { is_database_unavailable = true } in
        let same = degrade-IsSameWork r.device_id (λ revision. max revision r.revision) lost in
        let degraded = degrade r.device_id (λ revision. max revision r.revision) lost in
        let rest = record degraded { pending = [] } in
        IsCounted-IsSameWork n (end_works (submitted_count s.pending) rest) _
          (record { pending = refl; submitted = refl; count = refl })
          (end_works-IsCounted (submitted_count s.pending) s rest v tt
            (ground (arith, same.submitted, v.submitted_unique)) same.count
            (ground (arith, same.submitted)))

    fail_pending-IsCounted :
        (id : String) (s : DeviceService J) → IsCounted n s → IsCounted n (fail_pending id s)
    unfolding fail_pending end_work_if end_work
    fail_pending-IsCounted id s v = elim (Option-cases (find id s.pending)) [
      | inl e ↦ rw (e, fail_pending) v
      | inr (c, e) ↦
          rw (e, fail_pending)
            (IsCounted-IsSameWork n
              (end_work_if c.submitted (record s { pending = erase id s.pending })) _
              (record { pending = ground arith; submitted = ground arith; count = ground arith })
              (end_work_if-IsCounted c.submitted s (record s { pending = erase id s.pending }) v
                (erase-IsUnique id s.pending v.pending_unique) v.submitted_unique refl
                (ground (arith, submitted_count-erase id c s.pending v.pending_unique e))))
    ]

    fail_all-IsCounted : (s : DeviceService J) → IsCounted n s → IsCounted n (fail_all s)
    unfolding fail_all submitted_count
    fail_all-IsCounted s v =
        end_works-IsCounted (submitted_count s.pending + length s.submitted) s
          (record s { pending = []; submitted = []; pending_status_logs = [] }) v tt tt refl
          (omega arith)

    fail_write-IsCounted :
        (id : String) (s : DeviceService J) → IsCounted n s → IsCounted n (fail_write id s)
    unfolding fail_write end_work_if end_work erase
    fail_write-IsCounted id s v =
        let failed = record s {
          submitted = erase id s.submitted;
          pending_status_logs = erase id s.pending_status_logs;
        } in
        IsCounted-IsSameWork n (end_work_if (contains id s.submitted) failed) _
          (record { pending = ground arith; submitted = ground arith; count = ground arith })
          (end_work_if-IsCounted (contains id s.submitted) s failed v v.pending_unique
            (erase-IsUnique id s.submitted v.submitted_unique) refl
            (ground (
              arith,
              length-erase_found id s.submitted v.submitted_unique,
              length-erase_missing id s.submitted,
            )))

    handle_permanent_failure-IsCounted :
        (r : DatabaseResult J) (s : DeviceService J)
        → IsCounted n s
        → IsCounted n (handle_permanent_failure r s)
    unfolding handle_permanent_failure emit
    handle_permanent_failure-IsCounted r s v =
        let same =
          degrade-IsSameWork r.device_id (λ revision. max revision r.revision)
            (if r.device_id == ""
              then fail_all (fail_pending r.device_id s)
              else fail_write r.device_id (fail_pending r.device_id s)) in
        IsCounted-IsSameWork n _ _
          (record { pending = same.pending; submitted = same.submitted; count = same.count })
          (failed (r.device_id == ""))
      where
        failed :
            (b : Bool)
            → IsCounted n (
                if b
                then fail_all (fail_pending r.device_id s)
                else fail_write r.device_id (fail_pending r.device_id s))
        failed true = fail_all-IsCounted _ (fail_pending-IsCounted r.device_id s v)
        failed false = fail_write-IsCounted r.device_id _ (fail_pending-IsCounted r.device_id s v)

    resubmit-IsCounted :
        (m : Map String ℕ) (s : DeviceService J) → IsCounted n s → IsCounted n (resubmit ports m s)
    unfolding resubmit
    resubmit-IsCounted [] s v = v
    resubmit-IsCounted ((id, revision) ∷ rest) s v =
        elim (Option-cases (find_device s.registry id)) [
          | inl e ↦ rw (e, resubmit) (resubmit-IsCounted rest s v)
          | inr (r, e) ↦
              rw (e, resubmit)
                (resubmit-IsCounted rest _ (submit_device_write-IsCounted ports n _ s v))
        ]

    handle_recovered-IsCounted :
        (s : DeviceService J) → IsCounted n s → IsCounted n (handle_recovered ports s)
    unfolding handle_recovered
    handle_recovered-IsCounted s v =
        resubmit-IsCounted s.degraded (record s { is_database_unavailable = false })
          (IsCounted-IsSameWork n s _ (record { pending = refl; submitted = refl; count = refl }) v)

    add_device-IsCounted :
        (id : String) (c : PendingRegistration J) (e : Expected Error (DeviceRegistry J))
        (s : DeviceService J)
        → IsCounted n s
        → find id s.pending ≡ some c
        → IsCounted (n + refused_record c e) (add_device ports id c e s)
    unfolding add_device refused_record end_work_if end_work
    add_device-IsCounted id c (unexpected e) s v p = record {
      counted = ground (arith, v.counted);
      bounded = ground (arith, v.bounded);
      pending_unique = ground (arith, v.pending_unique);
      submitted_unique = ground (arith, v.submitted_unique);
    }
    add_device-IsCounted id c (ok registry) s v p =
        let added = record s { registry = registry; pending = erase id s.pending } in
        let e = apply_registration registry c.registration c.received_at in
        let same = apply_change-IsSameWork e added in
        plus_none n _ (
          end_work_if-IsCounted c.submitted s (apply_change ports e added) v
            (ground (arith, same.pending, erase-IsUnique id s.pending v.pending_unique))
            (ground (arith, same.submitted, v.submitted_unique)) same.count
            (ground (
              arith,
              same.pending,
              same.submitted,
              submitted_count-erase id c s.pending v.pending_unique p,
            )))

    complete_write-IsCounted :
        (id : String) (revision : ℕ) (s : DeviceService J)
        → IsCounted n s
        → IsCounted n (complete_write id revision s)
    unfolding complete_write log_status emit contains
    complete_write-IsCounted id revision s v = elim (Option-cases (find id s.submitted)) [
      | inl e ↦ rw (e, complete_write) v
      | inr (w, e) ↦ elim (Bool-cases (leb w.revision revision)) [
        | inr old ↦ rw (e, old, complete_write) v
        | inl done ↦
            rw (e, done, complete_write)
              (end_work-IsCounted 1 n s _ v (ground (arith, v.pending_unique))
                (ground (arith, erase-IsUnique id s.submitted v.submitted_unique)) (ground arith)
                (ground (arith, length-erase_found id s.submitted v.submitted_unique)))
      ]
    ]

    restore_device-IsSameWork :
        (id : String) (revision : ℕ) (s : DeviceService J)
        → IsSameWork s (restore_device id revision s)
    unfolding restore_device emit
    restore_device-IsSameWork id revision s = record {
      pending = ground arith;
      submitted = ground arith;
      count = ground arith;
    }

    pend_registration-IsCounted :
        (id : String) (r : Registration J) (at : ℕ) (s : DeviceService J)
        → IsCounted n s
        → IsCounted n (pend_registration id r at s)
    unfolding pend_registration
    pend_registration-IsCounted id r at s v = elim (Bool-cases s.is_database_unavailable) [
      | inl e ↦
          rw (e, pend_registration)
            record {
              counted = v.counted;
              bounded = v.bounded;
              pending_unique = v.pending_unique;
              submitted_unique = v.submitted_unique;
            }
      | inr e ↦
          rw (e, pend_registration)
            record {
              counted = ground (
                arith,
                v.counted,
                submitted_count-insert id
                    (record {
                      registration = r;
                      received_at = at;
                      submitted = elim (find id s.pending) [ none ↦ false | some c ↦ c.submitted ];
                    })
                    s.pending,
              );
              bounded = v.bounded;
              pending_unique = insert-IsUnique id _ s.pending v.pending_unique;
              submitted_unique = v.submitted_unique;
            }
    ]

    handle_registration-IsCounted :
        (id : String) (r : Registration J) (at : ℕ) (s : DeviceService J)
        → IsCounted n s
        → IsCounted n (handle_registration ports id r at s)
    unfolding handle_registration
    handle_registration-IsCounted id r at s v = elim (Option-cases (find_device s.registry id)) [
      | inr (d, e) ↦
          rw (e, handle_registration)
            (IsCounted-IsSameWork n s _
              (apply_change-IsSameWork (apply_registration s.registry r at) s) v)
      | inl e ↦ rw (e, handle_registration) (pend_registration-IsCounted id r at s v)
    ]

    pub handle_content-IsCounted :
        (m : DeviceMessage J) (at : ℕ) (s : DeviceService J)
        → IsCounted n s
        → IsCounted n (handle_content ports m at s)
    unfolding handle_content
    handle_content-IsCounted invalid_topic at s v = v
    handle_content-IsCounted (registers id none) at s v = v
    handle_content-IsCounted (registers id (some r)) at s v =
        handle_registration-IsCounted id r at s v
    handle_content-IsCounted (reports id none) at s v = v
    handle_content-IsCounted (reports id (some t)) at s v =
        IsCounted-IsSameWork n s _ (apply_change-IsSameWork (apply_telemetry s.registry id t at) s)
          v

    handle_provisioned-IsCounted :
        (id : String) (device : Option (DeviceRecord J)) (s : DeviceService J)
        → IsCounted n s
        → IsCounted (n + refused_answer id device s) (handle_provisioned ports id device s)
    unfolding handle_provisioned refused_answer
    handle_provisioned-IsCounted id none s v = plus_none n s v
    handle_provisioned-IsCounted id (some device) s v = elim (Option-cases (find id s.pending)) [
      | inl e ↦ rw (e, handle_provisioned, refused_answer) (plus_none n s v)
      | inr (c, e) ↦
          rw (e, handle_provisioned, refused_answer)
            (add_device-IsCounted id c (add_provisioned s.registry device) s v e)
    ]

    pub handle_database_result-IsCounted :
        (r : DatabaseResult J) (s : DeviceService J)
        → IsCounted n s
        → IsCounted (n + refusals_of r s) (handle_database_result ports r s)
    unfolding handle_database_result refusals_of
    handle_database_result-IsCounted r s v = by_kind r.kind
      where
        by_kind :
            (kind : ResultKind)
            → IsCounted
                (n + refusals_of (record r { kind = kind }) s)
                (handle_database_result ports (record r { kind = kind }) s)
        by_kind database_unavailable = plus_none n _ (handle_unavailable-IsCounted r s v)
        by_kind permanent_failure = plus_none n _ (handle_permanent_failure-IsCounted r s v)
        by_kind database_recovered = plus_none n _ (handle_recovered-IsCounted s v)
        by_kind provisioned = handle_provisioned-IsCounted r.device_id r.device s v
        by_kind write_completed = plus_none n _ (
            IsCounted-IsSameWork n _ _ (restore_device-IsSameWork r.device_id r.revision _)
              (complete_write-IsCounted r.device_id r.revision s v))

-- ===== src/DeviceService/Idle.antt =====
-- core/runtime/device_service.cpp: when the shutdown may take the service for idle.
use text.Mathlib.TextEquality.{eq_iff}
use cns_server.Base.{
  ℕ, ◌+◌, ◌^◌, ◌<◌, ◌≡◌, ◌≢◌, ◌↔◌, ◌⊎◌, inl, inr, refl, true, false, List, [], ◌∷◌, Option, some,
  length, u64, arith, String, string_eq, eq_refl, Bool-cases,
}
use cns_server.Base.Map.{Map, find, IsUnique}
use cns_server.Queue.{BoundedQueue}
use cns_server.Device.{DeviceRegistry}
use cns_server.DeviceService.{PendingRegistration, InboundMessage, Ports, DeviceService}
use cns_server.DeviceService.Results.{submitted_count}
use cns_server.DeviceService.Cycle.{
  Intervals, Event, new_service, is_database_idle, run_service_steps,
}
use cns_server.DeviceService.Work.{IsCounted}
use cns_server.DeviceService.Counter.{run_refusals, run_service_steps-IsCounted}

length-none : {A : Type 0} (xs : List A) → length xs ≡ 0 → xs ≡ []
length-none [] h = refl
length-none (x ∷ xs) h = ground (arith, h)

module _ {J : Type 0} where
  submitted_count-found :
      (id : String) (c : PendingRegistration J) (m : Map String (PendingRegistration J))
      → find id m ≡ some c
      → c.submitted ≡ true
      → submitted_count m ≢ 0
  unfolding submitted_count find
  submitted_count-found id c [] there marked z = ground (arith, there)
  submitted_count-found id c ((j, w) ∷ m) there marked z =
      ground (arith, there, marked, z, submitted_count-found id c m)

  abbrev Marked : Map String (PendingRegistration J) → Type 0
  Marked m =
      (id : String) × (c : PendingRegistration J) × (find id m ≡ some c) × (c.submitted ≡ true)

  submitted_count-cases :
      (m : Map String (PendingRegistration J)) → IsUnique m → (submitted_count m ≡ 0) ⊎ Marked m
  unfolding submitted_count find
  submitted_count-cases [] u = inl refl
  submitted_count-cases ((j, w) ∷ m) u = elim (Bool-cases w.submitted) [
    | inl e ↦ inr (j, w, ground (arith, eq_refl j), e)
    | inr e ↦ elim (submitted_count-cases m u.1) [
      | inl z ↦ inl (ground (arith, z, e))
      | inr (id, c, there, marked) ↦ inr (id, c, ground (arith, eq_iff j id, there, u.0), marked)
    ]
  ]

module _ {J : Type 0} (ports : Ports J) (intervals : Intervals) (reading : Option ℕ)
    (registry : DeviceRegistry J) (queue : BoundedQueue (InboundMessage J))
    (events : List (Event J)) where
  -- The service after the events, and the refused_records since work was last given up.
  unfoldable pub service_after : DeviceService J
  service_after =
      run_service_steps ports intervals events (new_service intervals reading registry queue)

  unfoldable pub refused_records : ℕ
  refused_records =
      run_refusals ports intervals events (new_service intervals reading registry queue) 0

  -- The registrations marked as submitted, and the devices with a submitted write. These are marks of
  -- the service: a refused record leaves its registration marked although the database has answered,
  -- and the table of submitted writes has one write per device, which goes when any write of the
  -- device has failed for good.
  unfoldable pub marked_work : ℕ
  unfolding service_after
  marked_work = submitted_count service_after.pending + length service_after.submitted

  -- The service has neither.
  unfoldable pub HasNoMark : Type 0
  HasNoMark =
      (¬ (
        (id : String) × (c : PendingRegistration J) × (find id service_after.pending ≡ some c)
        × (c.submitted ≡ true)))
      × (service_after.submitted ≡ [])

  counted : IsCounted refused_records service_after
  unfolding service_after refused_records new_service submitted_count
  counted =
      run_service_steps-IsCounted ports intervals events 0
        (new_service intervals reading registry queue) start
    where
      start : IsCounted 0 (new_service intervals reading registry queue)
      start = record {
        counted = refl;
        bounded = omega arith;
        pending_unique = tt;
        submitted_unique = tt;
      }

  pub marked_work-HasNoMark : (marked_work ≡ 0) ↔ HasNoMark
  unfolding marked_work HasNoMark
  marked_work-HasNoMark = (
    λ none. (
      λ (id, c, there, m).
          submitted_count-found id c service_after.pending there m (omega (arith, none)),
      length-none service_after.submitted (omega (arith, none)),
    ),
    λ (unmarked, empty). elim (submitted_count-cases service_after.pending counted.pending_unique) [
      | inl z ↦ ground (arith, z, empty)
      | inr found ↦ absurd (unmarked found)
    ],
  )

  -- After any sequence of messages, database results, requests of other threads and passes, whatever
  -- the callbacks answer: the counter of outstanding work, plus the number of times that the
  -- directory refused the record of a registration marked as submitted (which takes one off the
  -- counter and leaves the mark) since the work was last given up, is modulo 2^64 the number of
  -- registrations marked as submitted plus the number of devices with a submitted write.
  pub run_service_steps_counts :
      u64 (service_after.outstanding_database_work + refused_records) ≡ u64 marked_work
  unfolding marked_work
  run_service_steps_counts = counted.counted

  -- If the directory has refused no record of a registration marked as submitted since the work was
  -- last given up, and there are fewer than 2^64 registrations marked as submitted and devices with
  -- a submitted write, then the service is taken for idle exactly when no pending registration is
  -- marked as submitted, no device has a submitted write and no last dispatch is due.
  pub is_database_idle_exact :
      refused_records ≡ 0
      → marked_work < 2 ^ 64
      → (is_database_idle service_after ≡ true)
        ↔ (HasNoMark × (service_after.is_drain_dispatch_pending ≡ false))
  unfolding is_database_idle
  is_database_idle_exact none_refused few =
      let c : service_after.outstanding_database_work ≡ marked_work =
        omega (arith, run_service_steps_counts, counted.bounded) in
      (
        λ h. (marked_work-HasNoMark.0 (ground (arith, c, h)), ground (arith, h)),
        λ (unmarked, quiet). ground (arith, c, marked_work-HasNoMark.1 unmarked, quiet),
      )

  -- If the directory has refused the record of a registration marked as submitted since the work was
  -- last given up (once to 2^64 - 1 times), then the service is not taken for idle once no pending
  -- registration is marked as submitted and no device has a submitted write: the counter has
  -- fallen below 0 and wrapped.
  pub is_database_idle_refused :
      0 < refused_records
      → refused_records < 2 ^ 64
      → HasNoMark
      → is_database_idle service_after ≡ false
  unfolding is_database_idle
  is_database_idle_refused some_refused few unmarked =
      let z = marked_work-HasNoMark.1 unmarked in
      let c : 0 < service_after.outstanding_database_work =
        omega (arith, run_service_steps_counts, counted.bounded, z) in
      ground (arith, c)

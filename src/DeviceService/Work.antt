-- ===== src/DeviceService/Work.antt =====
-- core/runtime/device_service.cpp: what the counter of outstanding database work counts.
use text.Mathlib.TextEquality.{eq_iff}
use cns_server.Base.{
  ℕ, suc, ◌+◌, ◌^◌, ◌<◌, ◌≡◌, refl, String, Bool, true, false, List, [], ◌∷◌, Option, none, some,
  if◌then◌else◌, length, u64, arith, Bool-cases, Option-cases, inl, inr, string_eq,
}
use cns_server.Base.Map.{Map, find, insert, erase, contains, IsUnique, insert-IsUnique}
use cns_server.Dirty.{DesiredDeviceWrite, restore}
use cns_server.Device.{Mutation}
use cns_server.Registry.{find_device}
use cns_server.DeviceService.{
  PendingRegistration, Answer, answer_write, accepted, refused, threw, threw_unknown, Ports,
  DeviceService, emit, called, begin_work, end_work, degrade, mark_device, reject_write,
  accept_write, submit_device_write, send,
}
use cns_server.DeviceService.Results.{submitted_count}

module _ {V : Type 0} where
  erase_absent : (k : String) (m : Map String V) → find k m ≡ none → erase k m ≡ m
  unfolding erase find
  erase_absent k [] h = refl
  erase_absent k ((j, w) ∷ m) h = ground (arith, erase_absent k m)

  pub length-erase_missing :
      (k : String) (m : Map String V) → contains k m ≡ false → length (erase k m) ≡ length m
  unfolding contains
  length-erase_missing k m h = ground (arith, erase_absent k m)

  pub length-erase_found :
      (k : String) (m : Map String V)
      → IsUnique m
      → contains k m ≡ true
      → suc (length (erase k m)) ≡ length m
  unfolding erase find contains
  length-erase_found k [] u h = ground arith
  length-erase_found k ((j, w) ∷ m) u h =
      ground (arith, eq_iff j k, erase_absent k m, length-erase_found k m u.1)

  pub length-insert_found :
      (k : String) (v : V) (m : Map String V)
      → length (insert k v m) ≡ (if contains k m then 0 else 1) + length m
  unfolding insert find contains
  length-insert_found k v [] = ground arith
  length-insert_found k v ((j, w) ∷ m) = ground (arith, length-insert_found k v m)

module _ {J : Type 0} where
  pub submitted_count-erase :
      (k : String) (c : PendingRegistration J) (m : Map String (PendingRegistration J))
      → IsUnique m
      → find k m ≡ some c
      → submitted_count m ≡ (if c.submitted then 1 else 0) + submitted_count (erase k m)
  unfolding submitted_count erase find
  submitted_count-erase k c [] u h = ground arith
  submitted_count-erase k c ((j, w) ∷ m) u h =
      ground (arith, eq_iff j k, erase_absent k m, submitted_count-erase k c m u.1)

  abbrev pub flag_of : Option (PendingRegistration J) → Bool
  flag_of none = false
  flag_of (some c) = c.submitted

  pub submitted_count-insert :
      (k : String) (c : PendingRegistration J) (m : Map String (PendingRegistration J))
      → c.submitted ≡ flag_of (find k m)
      → submitted_count (insert k c m) ≡ submitted_count m
  unfolding submitted_count insert find
  submitted_count-insert k c [] h = ground arith
  submitted_count-insert k c ((j, w) ∷ m) h = ground (arith, submitted_count-insert k c m)

  -- The counter, for a number of registrations whose record the directory refused: each such refusal
  -- takes one off the counter and leaves the registration behind as submitted.
  pub record IsCounted (refusals : ℕ) (s : DeviceService J) : Type 0 where
    pub counted :
        u64 (s.outstanding_database_work + refusals)
        ≡ u64 (submitted_count s.pending + length s.submitted)
    pub bounded : s.outstanding_database_work < 2 ^ 64
    pub pending_unique : IsUnique s.pending
    pub submitted_unique : IsUnique s.submitted

  -- A step that leaves the counter and what it counts alone.
  pub record IsSameWork (s t : DeviceService J) : Type 0 where
    pub pending : t.pending ≡ s.pending
    pub submitted : t.submitted ≡ s.submitted
    pub count : t.outstanding_database_work ≡ s.outstanding_database_work

  pub IsCounted-IsSameWork :
      (n : ℕ) (s t : DeviceService J) → IsSameWork s t → IsCounted n s → IsCounted n t
  IsCounted-IsSameWork n s t e v = record {
    counted = ground (arith, v.counted, e.pending, e.submitted, e.count);
    bounded = ground (arith, v.bounded, e.count);
    pending_unique = ground (arith, v.pending_unique, e.pending);
    submitted_unique = ground (arith, v.submitted_unique, e.submitted);
  }

  pub degrade-IsSameWork :
      (id : String) (f : ℕ → ℕ) (s : DeviceService J) → IsSameWork s (degrade id f s)
  unfolding degrade emit
  degrade-IsSameWork id f s = elim (Option-cases (find_device s.registry id)) [
    | inl e ↦ record { pending = ground arith; submitted = ground arith; count = ground arith }
    | inr (r, e) ↦ record { pending = ground arith; submitted = ground arith; count = ground arith }
  ]

  pub mark_device-IsSameWork :
      (ports : Ports J) (m : Mutation J) (s : DeviceService J)
      → IsSameWork s (mark_device ports m s)
  unfolding mark_device emit called
  mark_device-IsSameWork ports m s = record { pending = refl; submitted = refl; count = refl }

  pub end_work-IsCounted :
      (k n : ℕ) (s t : DeviceService J)
      → IsCounted n s
      → IsUnique t.pending
      → IsUnique t.submitted
      → t.outstanding_database_work ≡ s.outstanding_database_work
      → submitted_count s.pending + length s.submitted
        ≡ k + submitted_count t.pending + length t.submitted
      → IsCounted n (end_work k t)
  unfolding end_work
  end_work-IsCounted k n s t v p q e c = record {
    counted = omega (arith, v.counted);
    bounded = omega arith;
    pending_unique = p;
    submitted_unique = q;
  }

  pub begin_work-IsCounted :
      (n : ℕ) (s t : DeviceService J)
      → IsCounted n s
      → IsUnique t.pending
      → IsUnique t.submitted
      → t.outstanding_database_work ≡ s.outstanding_database_work
      → submitted_count t.pending + length t.submitted
        ≡ suc (submitted_count s.pending + length s.submitted)
      → IsCounted n (begin_work t)
  unfolding begin_work
  begin_work-IsCounted n s t v p q e c = record {
    counted = omega (arith, v.counted);
    bounded = omega arith;
    pending_unique = p;
    submitted_unique = q;
  }

  module _ (ports : Ports J) (n : ℕ) where
    accept_write-IsCounted :
        (w : DesiredDeviceWrite J) (s : DeviceService J)
        → IsCounted n s
        → IsCounted n (accept_write w s).0
    unfolding accept_write begin_work
    accept_write-IsCounted w s v = elim (Bool-cases (contains w.device.device_id s.submitted)) [
      | inl e ↦ record {
        counted = ground (arith, v.counted, length-insert_found w.device.device_id w s.submitted);
        bounded = ground (arith, v.bounded);
        pending_unique = ground (arith, v.pending_unique);
        submitted_unique =
            ground (arith, insert-IsUnique w.device.device_id w s.submitted v.submitted_unique);
      }
      | inr e ↦ record {
        counted = ground (arith, v.counted, length-insert_found w.device.device_id w s.submitted);
        bounded = ground (arith, v.bounded);
        pending_unique = ground (arith, v.pending_unique);
        submitted_unique =
            ground (arith, insert-IsUnique w.device.device_id w s.submitted v.submitted_unique);
      }
    ]

    reject_write-IsSameWork :
        (w : DesiredDeviceWrite J) (message : String) (s : DeviceService J)
        → IsSameWork s (reject_write ports w message s).0
    unfolding reject_write emit called
    reject_write-IsSameWork w message s =
        let same =
          degrade-IsSameWork w.device.device_id (λ revision. revision)
            (called (record s { dirty = restore w (ports.steady_now s.port_calls) s.dirty })) in
        record { pending = same.pending; submitted = same.submitted; count = same.count }

    answer_write-IsCounted :
        (w : DesiredDeviceWrite J) (a : Answer) (s : DeviceService J)
        → IsCounted n s
        → IsCounted n (answer_write ports w a s).0
    unfolding answer_write
    answer_write-IsCounted w accepted s v = accept_write-IsCounted w s v
    answer_write-IsCounted w refused s v =
        IsCounted-IsSameWork n s _ (reject_write-IsSameWork w _ s) v
    answer_write-IsCounted w threw s v =
        IsCounted-IsSameWork n s _ (reject_write-IsSameWork w _ s) v
    answer_write-IsCounted w threw_unknown s v =
        IsCounted-IsSameWork n s _ (reject_write-IsSameWork w _ s) v

    pub submit_device_write-IsCounted :
        (w : DesiredDeviceWrite J) (s : DeviceService J)
        → IsCounted n s
        → IsCounted n (submit_device_write ports w s).0
    unfolding submit_device_write called
    submit_device_write-IsCounted w s v =
        answer_write-IsCounted w (ports.write s.port_calls w) (called s) (
          IsCounted-IsSameWork n s (called s)
            (record { pending = refl; submitted = refl; count = refl }) v)

    pub send-IsCounted :
        (ws : List (DesiredDeviceWrite J)) (s : DeviceService J)
        → IsCounted n s
        → IsCounted n (send ports ws s).0
    unfolding send
    send-IsCounted [] s v = v
    send-IsCounted (w ∷ ws) s v =
        send-IsCounted ws (submit_device_write ports w s).0 (submit_device_write-IsCounted w s v)

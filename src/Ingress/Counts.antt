-- ===== src/Ingress/Counts.antt =====
-- core/runtime/device_ingress.cpp: no rejected message is left out of the counters.
use cns_server.Base.{
  ℕ, suc, ◌+◌, ◌≤◌, ◌<◌, ◌≡◌, Bool, true, List, [], ◌∷◌, Option, none, some, arith, if◌then◌else◌,
}
use cns_server.Ingress.{size_max, saturating_add, DeviceIngress, Rejections, note_rejection, handle}

pub record Message : Type 0 where
  pub now : ℕ
  pub payload_bytes : ℕ
  pub is_accepted : Bool

module _ (window : ℕ) where
  unfoldable pub run_messages : List Message → DeviceIngress → DeviceIngress
  run_messages [] s = s
  run_messages (m ∷ ms) s = run_messages ms (handle window m.now m.payload_bytes m.is_accepted s).0

  abbrev count_of : Option Rejections → ℕ
  count_of none = 0
  count_of (some r) = r.count

  -- The sum of the counts that the diagnostics have shown.
  unfoldable pub reported_count : List Message → DeviceIngress → ℕ
  reported_count [] s = 0
  reported_count (m ∷ ms) s =
      let after = handle window m.now m.payload_bytes m.is_accepted s in
      count_of after.1 + reported_count ms after.0

  unfoldable pub refused : List Message → ℕ
  refused [] = 0
  refused (m ∷ ms) = (if m.is_accepted then 0 else 1) + refused ms

  one_message :
      (m : Message) (s : DeviceIngress)
      → s.is_enabled ≡ true
      → s.rejected_count < size_max
      → let after = handle window m.now m.payload_bytes m.is_accepted s in
        (after.0.is_enabled ≡ true)
        × (after.0.rejected_count ≤ suc s.rejected_count)
        × (count_of after.1 + after.0.rejected_count
            ≡ s.rejected_count + (if m.is_accepted then 0 else 1))
  unfolding handle note_rejection saturating_add
  one_message m s e lt = (ground arith, ground arith, ground arith)

  -- For a bridge that stays enabled, and as long as the counter cannot reach its maximum: the counts
  -- that the diagnostics have shown and the one that is kept add up to the refused messages and
  -- what was kept at the start.
  pub run_messages_counts :
      (ms : List Message) (s : DeviceIngress)
      → s.is_enabled ≡ true
      → s.rejected_count + refused ms < size_max
      → reported_count ms s + (run_messages ms s).rejected_count ≡ s.rejected_count + refused ms
  unfolding run_messages reported_count refused
  run_messages_counts [] s e lt = ground arith
  run_messages_counts (m ∷ ms) s e lt =
      let (on, le, sum) = one_message m s e (omega arith) in
      let rest =
        run_messages_counts ms (handle window m.now m.payload_bytes m.is_accepted s).0 on
          (omega arith) in
      omega arith

-- ===== src/DeviceService/Submission.antt =====
-- core/runtime/device_service.cpp: the loop over the pending registrations and the counter.
use mathlib.Core.Path.{subst}
use cns_server.Base.{
  ap, sym, if_true, if_false, ℕ, ◌+◌, ◌^◌, ◌<◌, ◌≡◌, refl, String, false, [], ◌∷◌, none,
  if◌then◌else◌, length, u64, arith, Bool-cases, inl, inr, string_eq,
}
use cns_server.Base.Map.{Map, find, IsUnique}
use cns_server.DeviceService.{
  PendingRegistration, Answer, accepted, refused, threw, threw_unknown, Ports, DeviceService, emit,
  called, begin_work,
}
use cns_server.DeviceService.Results.{submitted_count}
use cns_server.DeviceService.Cycle.{answer_candidate, submit_candidate, submit_each}
use cns_server.DeviceService.Work.{IsCounted}

module _ {J : Type 0} where
  -- What a round of the loop over the pending registrations does.
  pub record IsRound (c c' : PendingRegistration J) (s t : DeviceService J) : Type 0 where
    pub submitted : t.submitted ≡ s.submitted
    pub bounded : s.outstanding_database_work < 2 ^ 64 → t.outstanding_database_work < 2 ^ 64
    pub counted :
        u64 (t.outstanding_database_work + (if c.submitted then 1 else 0))
        ≡ u64 (s.outstanding_database_work + (if c'.submitted then 1 else 0))

  answer_candidate-IsRound :
      (c : PendingRegistration J) (a : Answer) (s : DeviceService J)
      → c.submitted ≡ false
      → IsRound c (answer_candidate c a s).0 s (answer_candidate c a s).1
  unfolding answer_candidate begin_work emit
  answer_candidate-IsRound c accepted s e = record {
    submitted = refl;
    bounded = λ b. omega arith;
    counted = ground arith;
  }
  answer_candidate-IsRound c refused s e = record {
    submitted = refl;
    bounded = λ b. b;
    counted = refl;
  }
  answer_candidate-IsRound c threw s e = record {
    submitted = refl;
    bounded = λ b. b;
    counted = refl;
  }
  answer_candidate-IsRound c threw_unknown s e = record {
    submitted = refl;
    bounded = λ b. b;
    counted = refl;
  }

  submit_candidate-IsRound :
      (ports : Ports J) (c : PendingRegistration J) (s : DeviceService J)
      → IsRound c (submit_candidate ports c s).0 s (submit_candidate ports c s).1
  unfolding submit_candidate called
  submit_candidate-IsRound ports c s = elim (Bool-cases c.submitted) [
    | inl e ↦
        subst {A = PendingRegistration J × DeviceService J} (λ p. IsRound c p.0 s p.1)
          (sym (if_true _ _ e)) (record { submitted = refl; bounded = λ b. b; counted = refl })
    | inr e ↦
        (let one =
            answer_candidate-IsRound c (ports.provision s.port_calls c.registration c.received_at)
              (called s) e in
          subst {A = PendingRegistration J × DeviceService J} (λ p. IsRound c p.0 s p.1)
            (sym (if_false _ _ e))
            record { submitted = one.submitted; bounded = one.bounded; counted = one.counted })
  ]

  -- What the loop does.
  pub record IsSubmission (m m' : Map String (PendingRegistration J)) (s t : DeviceService J)
      : Type 0 where
    pub submitted : t.submitted ≡ s.submitted
    pub bounded : s.outstanding_database_work < 2 ^ 64 → t.outstanding_database_work < 2 ^ 64
    pub counted :
        u64 (t.outstanding_database_work + submitted_count m)
        ≡ u64 (s.outstanding_database_work + submitted_count m')
    pub absent : (k : String) → find k m ≡ none → find k m' ≡ none
    pub unique : IsUnique m → IsUnique m'

  pub submit_each-IsSubmission :
      (ports : Ports J) (m : Map String (PendingRegistration J)) (s : DeviceService J)
      → IsSubmission m (submit_each ports m s).0 s (submit_each ports m s).1
  unfolding submit_each submitted_count find
  submit_each-IsSubmission ports [] s = record {
    submitted = refl;
    bounded = λ b. b;
    counted = refl;
    absent = λ k h. refl;
    unique = λ u. tt;
  }
  submit_each-IsSubmission ports ((id, c) ∷ rest) s =
      let one = submit_candidate-IsRound ports c s in
      let others = submit_each-IsSubmission ports rest (submit_candidate ports c s).1 in
      record {
        submitted = ground (arith, one.submitted, others.submitted);
        bounded = λ b. others.bounded (one.bounded b);
        counted = omega (arith, one.counted, others.counted);
        absent = λ k h. ground (arith, others.absent k);
        unique = λ u. (others.absent id u.0, others.unique u.1);
      }

  pub submission_counts :
      (n : ℕ) (s : DeviceService J) {m : Map String (PendingRegistration J)} {t : DeviceService J}
      → IsSubmission s.pending m s t
      → IsCounted n s
      → u64 (t.outstanding_database_work + n) ≡ u64 (submitted_count m + length t.submitted)
  submission_counts n s all v =
      let e = ap length all.submitted in omega (arith, all.counted, v.counted, e)

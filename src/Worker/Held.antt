-- ===== src/Worker/Held.antt =====
-- core/runtime/postgres_worker.cpp: which writes are held, and that taking a job keeps them.
use mathlib.Core.Path.{subst}
use cns_server.Base.{
  ap, ◌∙◌, In, ◌⊎◌, sym, if_true, if_false, string_eq, Bool-cases, inl, inr, ℕ, ◌≤◌, ◌≡◌, ◌≢◌, refl,
  String, Bool, true, false, List, [], ◌∷◌, some, ◌==◌, if◌then◌else◌, ℕ_eq, arith,
}
use cns_server.Base.Map.{Map, find}
use cns_server.Dirty.{DesiredDeviceWrite}
use cns_server.Database.{DatabaseResult, write_completed, permanent_failure, CommandDatabaseTask}
use cns_server.Worker.{
  merge_write, ProvisionTask, Job, idle, stopped, write, PostgresWorker, Output, emitted, take,
  take_command, take_provision, take_write, finish,
}
use cns_server.Worker.Events.{is_idle}
use cns_server.Worker.Merge.{
  IsCovered, IsKeyed, IsCovered-trans, merge_write-IsKeyed, merge_write_covers_new,
  merge_write_covers_old,
}
use text.Mathlib.TextEquality.{eq_iff}

module _ {J : Type 0} where
  -- A write that waits, or is being written, does all that `w` asks for.
  abbrev pub IsHeld : DesiredDeviceWrite J → PostgresWorker J → Type 0
  IsHeld w s =
      (v : DesiredDeviceWrite J) × IsCovered w v
      × ((find w.device.device_id s.writes ≡ some v) ⊎ (s.job ≡ write v))

  -- A result reports the device as written, or as failed for good, at the revision of `w` or later.
  abbrev pub IsReported : DesiredDeviceWrite J → List (Output J) → Type 0
  IsReported w outputs =
      (r : DatabaseResult J) × In (emitted r) outputs
      × (r.device_id ≡ w.device.device_id)
      × (w.revision ≤ r.revision)
      × ((r.kind ≡ write_completed) ⊎ (r.kind ≡ permanent_failure))

  pub record IsKept (s : PostgresWorker J) (t : PostgresWorker J) (outputs : List (Output J))
      : Type 0 where
    pub keyed : IsKeyed t.writes
    pub held :
        (w : DesiredDeviceWrite J)
        → IsHeld w s
        → t.job ≢ stopped
        → IsHeld w t ⊎ IsReported w outputs

  module _ (s : PostgresWorker J) (k : IsKeyed s.writes) where
    pub same_writes :
        (t : PostgresWorker J) (outputs : List (Output J))
        → t.writes ≡ s.writes
        → ((v : DesiredDeviceWrite J) → s.job ≡ write v → t.job ≡ write v)
        → IsKept s t outputs
    same_writes t outputs p j = record {
      keyed = subst IsKeyed (sym p) k;
      held = λ w (v, c, h) n. inl (v, c, kept w v h);
    }
      where
        kept :
            (w v : DesiredDeviceWrite J)
            → (find w.device.device_id s.writes ≡ some v) ⊎ (s.job ≡ write v)
            → (find w.device.device_id t.writes ≡ some v) ⊎ (t.job ≡ write v)
        kept w v (inl e) = inl (cc)
        kept w v (inr e) = inr (j v e)

    pub more_writes :
        (x : DesiredDeviceWrite J) (t : PostgresWorker J) (outputs : List (Output J))
        → t.writes ≡ merge_write x s.writes
        → ((v : DesiredDeviceWrite J) → s.job ≡ write v → (t.job ≡ write v) ⊎ (v ≡ x))
        → IsKept s t outputs
    more_writes x t outputs p j = record {
      keyed = subst IsKeyed (sym p) (merge_write-IsKeyed s.writes k x);
      held = λ w (v, c, h) n. inl (kept w v c h);
    }
      where
        merged_in :
            (w : DesiredDeviceWrite J)
            → (u : DesiredDeviceWrite J) × (find w.device.device_id (merge_write x s.writes)
                ≡ some u)
              × IsCovered w u
            → IsHeld w t
        merged_in w (u, e, c) = (u, c, inl (cc))

        of_new :
            (w v : DesiredDeviceWrite J)
            → IsCovered w v
            → v ≡ x
            → (u : DesiredDeviceWrite J) × (find x.device.device_id (merge_write x s.writes)
                ≡ some u)
              × IsCovered x u
            → IsHeld w t
        of_new w v c e (u, f, d) =
            let at : x.device.device_id ≡ w.device.device_id =
              ap (λ y. y.device.device_id) (sym e) ∙ c.same_device in
            (u, IsCovered-trans w v u c (subst (λ y. IsCovered y u) (sym e) d), inl (cc))

        kept :
            (w v : DesiredDeviceWrite J)
            → IsCovered w v
            → (find w.device.device_id s.writes ≡ some v) ⊎ (s.job ≡ write v)
            → IsHeld w t
        kept w v c (inl e) = merged_in w (merge_write_covers_old s.writes k x w v e c)
        kept w v c (inr e) = elim (j v e) [
          | inl f ↦ (v, c, inr f)
          | inr f ↦ of_new w v c f (merge_write_covers_new s.writes k x)
        ]

    taking_write :
        (ws : Map String (DesiredDeviceWrite J))
        → s.writes ≡ ws
        → s.job ≡ idle
        → IsKept s (take_write s ws) []
    unfolding take_write finish find
    taking_write [] p i =
        same_writes (take_write s []) [] (ground arith) (λ v e. absurd (ground arith))
    taking_write ((id, x) ∷ rest) p i = record {
      keyed = record {
        unique = here.unique.1;
        keyed = λ j v e. here.keyed j v (ground (arith, eq_iff id j, here.unique.0));
      };
      held = λ w (v, c, h) n. inl (v, c, moved w v h);
    }
      where
        here : IsKeyed ((id, x) ∷ rest)
        here = subst IsKeyed p k

        moved :
            (w v : DesiredDeviceWrite J)
            → (find w.device.device_id s.writes ≡ some v) ⊎ (s.job ≡ write v)
            → (find w.device.device_id rest ≡ some v) ⊎ (◌≡◌ {A = Job J} (write x) (write v))
        moved w v (inr e) = absurd (ground arith)
        moved w v (inl e) = elim (Bool-cases (id == w.device.device_id)) [
          | inl q ↦
              let there : find w.device.device_id ((id, x) ∷ rest) ≡ some v =
                subst (λ m. find w.device.device_id m ≡ some v) p e in
              inr (ground arith)
          | inr q ↦
              let there : find w.device.device_id ((id, x) ∷ rest) ≡ some v =
                subst (λ m. find w.device.device_id m ≡ some v) p e in
              inl (ground arith)
        ]

    taking_provision :
        (ps : Map String (ProvisionTask J)) → s.job ≡ idle → IsKept s (take_provision s ps) []
    unfolding take_provision
    taking_provision [] i = taking_write s.writes refl i
    taking_provision ((id, p) ∷ rest) i = same_writes _ [] refl (λ v e. absurd (ground arith))

    taking_command :
        (cs : List (ℕ × CommandDatabaseTask J)) → s.job ≡ idle → IsKept s (take_command s cs) []
    unfolding take_command
    taking_command [] i = taking_provision s.provisions i
    taking_command ((id, task) ∷ rest) i = same_writes _ [] refl (λ v e. absurd (ground arith))

    taking : (stop : Bool) (now : ℕ) → s.job ≡ idle → IsKept s (take stop now s) []
    unfolding take finish
    taking true now i = same_writes _ [] refl (λ v e. absurd (ground arith))
    taking false now i = elim (Bool-cases s.is_unavailable) [
      | inl e ↦ same_writes (take false now s) [] (ground arith) (λ v e. absurd (ground arith))
      | inr e ↦ subst (λ t. IsKept s t []) (sym (if_false _ _ e)) (taking_command s.commands i)
    ]

    pub take-IsKept :
        (stop : Bool) (now : ℕ) → IsKept s (if is_idle s.job then take stop now s else s) []
    take-IsKept stop now = elim (Bool-cases (is_idle s.job)) [
      | inl e ↦ subst (λ t. IsKept s t []) (sym (if_true _ _ e)) (taking stop now (ground arith))
      | inr e ↦ subst (λ t. IsKept s t []) (sym (if_false _ _ e)) (same_writes s [] refl (λ v e. e))
    ]

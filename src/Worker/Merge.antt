-- ===== src/Worker/Merge.antt =====
-- core/runtime/postgres_worker.cpp: what MergeWrite keeps of the writes it joins.
use cns_server.Base.{
  ◌∙◌, ◌≤◌, ◌≡◌, refl, String, true, some, ◌==◌, arith, string_eq, Option-cases, Bool-cases, inl,
  inr,
}
use cns_server.Base.Map.{Map, find, find-insert, IsUnique, insert-IsUnique}
use cns_server.Dirty.{DesiredDeviceWrite}
use cns_server.Worker.{merge_write, merge_into, merged}
use text.Mathlib.TextEquality.{eq_iff}

module _ {J : Type 0} where
  -- The second write does all that the first one asks for, at its revision or a later one.
  pub record IsCovered (w v : DesiredDeviceWrite J) : Type 0 where
    pub same_device : v.device.device_id ≡ w.device.device_id
    pub metadata : w.write_metadata ≡ true → v.write_metadata ≡ true
    pub status : w.write_status ≡ true → v.write_status ≡ true
    pub telemetry : w.write_telemetry ≡ true → v.write_telemetry ≡ true
    pub not_older : w.revision ≤ v.revision

  pub IsCovered-by_self : (w : DesiredDeviceWrite J) → IsCovered w w
  IsCovered-by_self w = record {
    same_device = refl;
    metadata = λ e. e;
    status = λ e. e;
    telemetry = λ e. e;
    not_older = omega arith;
  }

  pub IsCovered-trans :
      (a b c : DesiredDeviceWrite J) → IsCovered a b → IsCovered b c → IsCovered a c
  IsCovered-trans a b c p q = record {
    same_device = q.same_device ∙ p.same_device;
    metadata = λ e. q.metadata (p.metadata e);
    status = λ e. q.status (p.status e);
    telemetry = λ e. q.telemetry (p.telemetry e);
    not_older = omega (arith, p.not_older, q.not_older);
  }

  -- Every write waits under the id of its device, and under no other.
  pub record IsKeyed (m : Map String (DesiredDeviceWrite J)) : Type 0 where
    pub unique : IsUnique m
    pub keyed :
        (id : String) (v : DesiredDeviceWrite J) → find id m ≡ some v → v.device.device_id ≡ id

  into_new :
      (new current : DesiredDeviceWrite J)
      → current.device.device_id ≡ new.device.device_id
      → IsCovered new (merge_into new current)
  unfolding merge_into
  into_new new current e = record {
    same_device = ground arith;
    metadata = λ h. ground arith;
    status = λ h. ground arith;
    telemetry = λ h. ground arith;
    not_older = ground arith;
  }

  into_old :
      (w new current : DesiredDeviceWrite J)
      → current.device.device_id ≡ new.device.device_id
      → IsCovered w current
      → IsCovered w (merge_into new current)
  unfolding merge_into
  into_old w new current e c = record {
    same_device = ground (arith, c.same_device);
    metadata = λ h. ground (arith, c.metadata h);
    status = λ h. ground (arith, c.status h);
    telemetry = λ h. ground (arith, c.telemetry h);
    not_older = ground (arith, c.not_older);
  }

  module _ (m : Map String (DesiredDeviceWrite J)) (k : IsKeyed m)
      (new : DesiredDeviceWrite J) where
    merged_key : (merged new (find new.device.device_id m)).device.device_id ≡ new.device.device_id
    unfolding merged merge_into
    merged_key = elim (Option-cases (find new.device.device_id m)) [
      | inl e ↦ ground arith
      | inr (c, e) ↦ ground (arith, k.keyed new.device.device_id c e)
    ]

    pub merge_write-IsKeyed : IsKeyed (merge_write new m)
    unfolding merge_write
    merge_write-IsKeyed = record {
      unique =
          insert-IsUnique new.device.device_id (merged new (find new.device.device_id m)) m
            k.unique;
      keyed = λ id v e. ground (
        arith,
        merged_key,
        k.keyed id v,
        find-insert new.device.device_id id (merged new (find new.device.device_id m)) m,
        eq_iff new.device.device_id id,
      );
    }

    pub merge_write_covers_new :
        (v : DesiredDeviceWrite J) × (find new.device.device_id (merge_write new m) ≡ some v)
        × IsCovered new v
    unfolding merge_write merged
    merge_write_covers_new = elim (Option-cases (find new.device.device_id m)) [
      | inl e ↦ (
        new,
        ground (
          arith,
          find-insert new.device.device_id new.device.device_id
              (merged new (find new.device.device_id m)) m,
          eq_iff new.device.device_id new.device.device_id,
        ),
        IsCovered-by_self new,
      )
      | inr (c, e) ↦ (
        merge_into new c,
        ground (
          arith,
          find-insert new.device.device_id new.device.device_id
              (merged new (find new.device.device_id m)) m,
          eq_iff new.device.device_id new.device.device_id,
        ),
        into_new new c (k.keyed new.device.device_id c e),
      )
    ]

    -- MergeWrite keeps what a waiting write asks for: the map has, for its device, a write that
    -- covers it.
    pub merge_write_covers_old :
        (w v : DesiredDeviceWrite J)
        → find w.device.device_id m ≡ some v
        → IsCovered w v
        → (u : DesiredDeviceWrite J) × (find w.device.device_id (merge_write new m) ≡ some u)
          × IsCovered w u
    unfolding merge_write merged
    merge_write_covers_old w v e c =
        elim (Bool-cases (new.device.device_id == w.device.device_id)) [
          | inl same ↦
              let p : new.device.device_id ≡ w.device.device_id =
                (eq_iff new.device.device_id w.device.device_id).0 same in
              let there : find new.device.device_id m ≡ some v = cc in
              (
                merge_into new v,
                ground (
                  arith,
                  find-insert new.device.device_id w.device.device_id
                      (merged new (find new.device.device_id m)) m,
                ),
                into_old w new v (k.keyed new.device.device_id v there) c,
              )
          | inr other ↦ (
            v,
            ground (
              arith,
              find-insert new.device.device_id w.device.device_id
                  (merged new (find new.device.device_id m)) m,
            ),
            c,
          )
        ]

-- ===== src/Registry/Expire.antt =====
-- The scan for inactive devices.
use cns_server.Base.{
  ℕ, ◌+◌, ◌%◌, ◌^◌, ◌≤◌, ◌≡◌, ◌↔◌, ◌⊎◌, inl, inr, String, true, none, some, string_eq, In, collect,
  Made, In-collect_iff, Option-cases, arith, Bool-cases,
}
use cns_server.Base.Map.{find, values, find-map_values, In-values, find_of-In}
use cns_server.Device.{DeviceRecord, DeviceRegistry, Mutation, online, offline}
use cns_server.Registry.{
  is_inactive, seen_before, expire, expire_if, timeout_mutation, expire_inactive, find_device,
}
use cns_server.StateEvent.{activity_timeout}
use cns_server.Registry.Invariant.{IsConsistent}

-- The same device, offline under its next revision.
abbrev pub as_offline : {J : Type 0} → DeviceRecord J → DeviceRecord J
as_offline r = record r { status = offline; revision = (r.revision + 1) % 2 ^ 64 }

module _ {J : Type 0} (now timeout : ℕ) where
  -- The device is online and was last seen at least `timeout` ago.
  abbrev pub IsOverdue : DeviceRecord J → Type 0
  IsOverdue r =
      (seen : ℕ) × (r.status ≡ online) × (r.last_seen_at ≡ some seen) × (seen + timeout ≤ now)

  is_inactive-IsOverdue : (r : DeviceRecord J) → (is_inactive now timeout r ≡ true) ↔ IsOverdue r
  unfolding is_inactive seen_before
  is_inactive-IsOverdue r = elim (Option-cases r.last_seen_at) [
    | inl e ↦ (λ h. ground (arith, h, e), λ (seen, on, at, late). ground (arith, at, e))
    | inr (seen, e) ↦ (
      λ h. (seen, ground (arith, h, e), e, ground (arith, h, e)),
      λ (seen', on, at, late). ground (arith, on, at, late, e),
    )
  ]

  -- On a consistent directory, after the scan at `now`: under an id is exactly the device that was
  -- there, offline and under its next revision (which wraps at 2^64) if it was online and last seen at
  -- least `timeout` ago, and as it was otherwise; and a mutation is returned exactly when, for some
  -- such device, it carries the device as it then is, with the reason "activity timeout", the
  -- status as changed and no diagnostic.
  pub expire_inactive_exact :
      (d : DeviceRegistry J)
      → IsConsistent d
      → let (d', ms) = expire_inactive d now timeout in
        ((j : String) (r' : DeviceRecord J)
          → (find_device d' j ≡ some r') ↔ (
              (r : DeviceRecord J) × (find_device d j ≡ some r)
              × ((IsOverdue r × (r' ≡ as_offline r)) ⊎ ((¬ IsOverdue r) × (r' ≡ r)))))
        × ((m : Mutation J)
            → In m ms ↔ (
                (j : String) × (r : DeviceRecord J) × (find_device d j ≡ some r)
                × IsOverdue r
                × (m ≡ record {
                  device = as_offline r;
                  reason = activity_timeout;
                  status_changed = true;
                  diagnostic = none;
                })))
  unfolding expire_inactive find_device expire_if expire timeout_mutation
  expire_inactive_exact d v = (
    λ j r'. (
      λ h. elim (Option-cases (find j d.records)) [
        | inl e ↦ absurd (ground (arith, find-map_values step j d.records, h, e))
        | inr (r, e) ↦
            (r, e, (stepped r r').0 (ground (arith, find-map_values step j d.records, h, e)))
      ],
      λ (r, there, c).
          let p = (stepped r r').1 c in ground (arith, find-map_values step j d.records, there, p),
    ),
    λ m. (
      λ h.
          let (r, i, e, p) = (made m).0 h in
          let (j, there) = find_of-In r d.records v.unique i in
          (j, r, there, (is_inactive-IsOverdue r).0 e, p),
      λ (j, r, there, due, p).
          (made m).1 (r, In-values j r d.records there, (is_inactive-IsOverdue r).1 due, p),
    ),
  )
    where
      step : DeviceRecord J → DeviceRecord J
      step = expire_if now timeout

      stepped :
          (r r' : DeviceRecord J)
          → (step r ≡ r') ↔ ((IsOverdue r × (r' ≡ as_offline r)) ⊎ ((¬ IsOverdue r) × (r' ≡ r)))
      stepped r r' = elim (Bool-cases (is_inactive now timeout r)) [
        | inl e ↦ (
          λ h. inl ((is_inactive-IsOverdue r).0 e, ground (arith, h, e)),
          λ c. elim c [
            | inl (due, p) ↦ ground (arith, p, e)
            | inr (rest, p) ↦ absurd (rest ((is_inactive-IsOverdue r).0 e))
          ],
        )
        | inr e ↦ (
          λ h.
              inr (λ due. ground (arith, (is_inactive-IsOverdue r).1 due, e), ground (arith, h, e)),
          λ c. elim c [
            | inl (due, p) ↦ absurd (ground (arith, (is_inactive-IsOverdue r).1 due, e))
            | inr (rest, p) ↦ ground (arith, p, e)
          ],
        )
      ]

      made :
          (m : Mutation J)
          → In m (collect (is_inactive now timeout) timeout_mutation (values d.records))
            ↔ Made (is_inactive now timeout) timeout_mutation m (values d.records)
      made m = In-collect_iff (is_inactive now timeout) timeout_mutation m (values d.records)

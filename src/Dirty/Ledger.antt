-- ===== src/Dirty/Ledger.antt =====
-- No change that waits for the database is forgotten, whatever the order of the operations.
use mathlib.Core.Path.{subst}
use text.Mathlib.TextEquality.{eq_iff}
use cns_server.Base.{
  ℕ, max, ◌≤◌, ◌<◌, ◌≡◌, ◌≢◌, ◌∙◌, ap, sym, leb, eq_refl, String, Bool, true, List, [], ◌∷◌, none,
  some, if◌then◌else◌, string_eq, arith, Bool-cases, Option-cases, inl, inr, All,
}
use cns_server.Base.Map.{Map, find, insert, erase, find-insert, find-erase, find-map_values}
use cns_server.Dirty.{
  DesiredDeviceWrite, FieldState, Entry, mark_field, restore_field, complete_field, dispatch_field,
  has_work, entry_for, mark_entry, restore_entry, complete_entry, dispatch_entry, is_due, mark,
  restore, complete, take_matching, clear,
}

pub data Field : Type 0 where
  metadata status telemetry : Field

-- The newest revision of a field that is not in the database yet: waiting, or in flight.
abbrev pub outstanding : FieldState → ℕ
outstanding f = max f.dirty_revision f.in_flight_revision

module _ (v : ℕ) (f : FieldState) (b : Bool) (r : ℕ) (h : v ≤ outstanding f) where
  mark_field-keeps : v ≤ outstanding (mark_field f b r)
  unfolding mark_field
  mark_field-keeps = ground arith

  restore_field-keeps : v ≤ outstanding (restore_field f b r)
  unfolding restore_field
  restore_field-keeps = ground arith

  dispatch_field-keeps : v ≤ outstanding (dispatch_field f)
  unfolding dispatch_field
  dispatch_field-keeps = ground arith

  complete_field-keeps : (b ≡ true → r < v) → v ≤ outstanding (complete_field f b r)
  unfolding complete_field
  complete_field-keeps old = ground arith

module _ {J : Type 0} where
  abbrev pub state : Field → Entry J → FieldState
  state metadata e = e.metadata
  state status e = e.status
  state telemetry e = e.telemetry

  abbrev pub selects : Field → DesiredDeviceWrite J → Bool
  selects metadata w = w.write_metadata
  selects status w = w.write_status
  selects telemetry w = w.write_telemetry

  abbrev pub pending : Field → String → Map String (Entry J) → ℕ
  pending f id m = elim (find id m) [ none ↦ 0 | some e ↦ outstanding (state f e) ]

-- The calls that the device service makes.
pub data Call (J : Type 0) : Type 0 where
  marks restores : DesiredDeviceWrite J → ℕ → Call J
  takes : Bool → ℕ → ℕ → Bool → Call J
  completes : DesiredDeviceWrite J → Call J
  clears : Call J

module _ {J : Type 0} where
  unfoldable pub step : Map String (Entry J) → Call J → Map String (Entry J)
  step m (marks w now) = mark w now m
  step m (restores w now) = restore w now m
  step m (takes want_immediate now interval force) =
      (take_matching want_immediate now interval force m).0
  step m (completes w) = complete w m
  step m clears = clear m

  unfoldable pub run : Map String (Entry J) → List (Call J) → Map String (Entry J)
  run m [] = m
  run m (c ∷ cs) = run (step m c) cs

  -- The call reports revision `v` of this field of this device as written, or drops everything.
  abbrev pub Settles : Field → String → ℕ → Call J → Type 0
  Settles f id v (completes w) = (w.device.device_id ≡ id) × (selects f w ≡ true) × (v ≤ w.revision)
  Settles f id v clears = Unit
  Settles f id v _ = ⊥

  mark_entry-keeps :
      (f : Field) (v : ℕ) (w : DesiredDeviceWrite J) (now : ℕ) (e : Entry J)
      → v ≤ outstanding (state f e)
      → v ≤ outstanding (state f (mark_entry w now e))
  unfolding mark_entry
  mark_entry-keeps metadata v w now e h =
      mark_field-keeps v e.metadata w.write_metadata w.revision h
  mark_entry-keeps status v w now e h = mark_field-keeps v e.status w.write_status w.revision h
  mark_entry-keeps telemetry v w now e h =
      mark_field-keeps v e.telemetry w.write_telemetry w.revision h

  restore_entry-keeps :
      (f : Field) (v : ℕ) (w : DesiredDeviceWrite J) (e : Entry J)
      → v ≤ outstanding (state f e)
      → v ≤ outstanding (state f (restore_entry w e))
  unfolding restore_entry
  restore_entry-keeps metadata v w e h =
      restore_field-keeps v e.metadata w.write_metadata w.revision h
  restore_entry-keeps status v w e h = restore_field-keeps v e.status w.write_status w.revision h
  restore_entry-keeps telemetry v w e h =
      restore_field-keeps v e.telemetry w.write_telemetry w.revision h

  dispatch_entry-keeps :
      (f : Field) (v : ℕ) (e : Entry J)
      → v ≤ outstanding (state f e)
      → v ≤ outstanding (state f (dispatch_entry e))
  unfolding dispatch_entry
  dispatch_entry-keeps metadata v e h = dispatch_field-keeps v e.metadata true 0 h
  dispatch_entry-keeps status v e h = dispatch_field-keeps v e.status true 0 h
  dispatch_entry-keeps telemetry v e h = dispatch_field-keeps v e.telemetry true 0 h

  complete_entry-keeps :
      (f : Field) (v : ℕ) (w : DesiredDeviceWrite J) (e : Entry J)
      → v ≤ outstanding (state f e)
      → (selects f w ≡ true → w.revision < v)
      → v ≤ outstanding (state f (complete_entry w e))
  unfolding complete_entry
  complete_entry-keeps metadata v w e h old =
      complete_field-keeps v e.metadata w.write_metadata w.revision h old
  complete_entry-keeps status v w e h old =
      complete_field-keeps v e.status w.write_status w.revision h old
  complete_entry-keeps telemetry v w e h old =
      complete_field-keeps v e.telemetry w.write_telemetry w.revision h old

  state-entry_for :
      (f : Field) (w : DesiredDeviceWrite J) (now : ℕ) (e : Entry J)
      → state f (entry_for w now (some e)) ≡ state f e
  unfolding entry_for
  state-entry_for metadata w now e = ground arith
  state-entry_for status w now e = ground arith
  state-entry_for telemetry w now e = ground arith

  has_work_of :
      (f : Field) (v : ℕ) (e : Entry J) → 0 < v → v ≤ outstanding (state f e) → has_work e ≡ true
  unfolding has_work
  has_work_of metadata v e pos h = ground arith
  has_work_of status v e pos h = ground arith
  has_work_of telemetry v e pos h = ground arith

  module _ (f : Field) (id : String) (v : ℕ) (pos : 0 < v) where
    replaced :
        (m : Map String (Entry J)) (k : String) (x : Entry J)
        → v ≤ pending f id m
        → (k ≡ id → v ≤ outstanding (state f x))
        → v ≤ pending f id (insert k x m)
    replaced m k x h new = ground (arith, find-insert k id x m, eq_iff k id)

    erased :
        (m : Map String (Entry J)) (k : String)
        → v ≤ pending f id m
        → (k ≢ id)
        → v ≤ pending f id (erase k m)
    erased m k h other = ground (arith, find-erase k id m, eq_iff k id)

    entry_at :
        (m : Map String (Entry J))
        → v ≤ pending f id m
        → (e : Entry J) × (find id m ≡ some e) × (v ≤ outstanding (state f e))
    entry_at m h = elim (Option-cases (find id m)) [
      | inl e ↦ absurd (ground arith)
      | inr (x, e) ↦ (x, e, ground arith)
    ]

    module _ (m : Map String (Entry J)) (h : v ≤ pending f id m) where
      -- The entry that a write finds is the one with the outstanding field.
      found_entry :
          (w : DesiredDeviceWrite J) (now : ℕ)
          → w.device.device_id ≡ id
          → v ≤ outstanding (state f (entry_for w now (find w.device.device_id m)))
      found_entry w now same =
          let (e, there, le) = entry_at m h in
          subst (λ o. v ≤ outstanding (state f (entry_for w now o)))
            (sym (ap (λ k. find k m) same ∙ there)) (rw (state-entry_for f w now e) le)

      marks-keeps : (w : DesiredDeviceWrite J) (now : ℕ) → v ≤ pending f id (mark w now m)
      unfolding mark
      marks-keeps w now =
          replaced m w.device.device_id _ h
            (λ same. mark_entry-keeps f v w now _ (found_entry w now same))

      restores-keeps : (w : DesiredDeviceWrite J) (now : ℕ) → v ≤ pending f id (restore w now m)
      unfolding restore
      restores-keeps w now =
          replaced m w.device.device_id _ h
            (λ same. restore_entry-keeps f v w _ (found_entry w now same))

      takes-keeps :
          (i : Bool) (now interval : ℕ) (force : Bool)
          → v ≤ pending f id (take_matching i now interval force m).0
      unfolding take_matching
      takes-keeps i now interval force =
          let (e, there, le) = entry_at m h in
          ground (
            arith,
            find-map_values (λ x. if is_due i now interval force x then dispatch_entry x else x) id
                m,
            dispatch_entry-keeps f v e le,
          )

      completes-keeps :
          (w : DesiredDeviceWrite J)
          → ¬ Settles f id v (completes w)
          → v ≤ pending f id (complete w m)
      unfolding complete
      completes-keeps w unsettled = elim (Option-cases (find w.device.device_id m)) [
        | inl e ↦ rw (e, complete) h
        | inr (x, e) ↦
            rw (e, complete)
              (elim (Bool-cases (has_work (complete_entry w x))) [
                | inl busy ↦
                    rw busy (replaced m w.device.device_id (complete_entry w x) h (kept x e))
                | inr idle ↦ rw idle (
                    erased m w.device.device_id h (λ same.
                      ground (arith, has_work_of f v (complete_entry w x) pos (kept x e same))))
              ])
      ]
        where
          kept :
              (x : Entry J)
              → find w.device.device_id m ≡ some x
              → w.device.device_id ≡ id
              → v ≤ outstanding (state f (complete_entry w x))
          kept x e same =
              let (y, there, le) = entry_at m h in
              let agree : y ≡ x = ground arith in
              complete_entry-keeps f v w x (rw agree at le) (λ sel.
                elim (Bool-cases (leb v w.revision)) [
                  | inl le' ↦ absurd (unsettled (same, sel, ground arith))
                  | inr lt ↦ ground arith
                ])

      step-keeps : (c : Call J) → ¬ Settles f id v c → v ≤ pending f id (step m c)
      unfolding step
      step-keeps (marks w now) n = marks-keeps w now
      step-keeps (restores w now) n = restores-keeps w now
      step-keeps (takes i now interval force) n = takes-keeps i now interval force
      step-keeps (completes w) n = completes-keeps w n
      step-keeps clears n = absurd (n tt)

    run_keeps :
        (m : Map String (Entry J)) (cs : List (Call J))
        → v ≤ pending f id m
        → All (λ c. ¬ Settles f id v c) cs
        → v ≤ pending f id (run m cs)
    unfolding run
    run_keeps m [] h u = h
    run_keeps m (c ∷ cs) h u = run_keeps (step m c) cs (step-keeps m h c u.0) u.1

  mark_entry-marks :
      (f : Field) (w : DesiredDeviceWrite J) (now : ℕ) (e : Entry J)
      → selects f w ≡ true
      → w.revision ≤ outstanding (state f (mark_entry w now e))
  unfolding mark_entry mark_field
  mark_entry-marks metadata w now e s = ground arith
  mark_entry-marks status w now e s = ground arith
  mark_entry-marks telemetry w now e s = ground arith

  mark-pending :
      (f : Field) (w : DesiredDeviceWrite J) (now : ℕ) (m : Map String (Entry J))
      → selects f w ≡ true
      → w.revision ≤ pending f w.device.device_id (mark w now m)
  unfolding mark
  mark-pending f w now m sel = ground (
    arith,
    find-insert w.device.device_id w.device.device_id
        (mark_entry w now (entry_for w now (find w.device.device_id m))) m,
    eq_refl w.device.device_id,
    mark_entry-marks f w now (entry_for w now (find w.device.device_id m)) sel,
  )

  -- Once a write marks a field of a device under a positive revision, the field is waiting or in
  -- flight under this revision or a newer one, after any further calls of which none completes a
  -- write of this field of this device under this revision or a later one, and none drops all.
  pub mark-run_keeps :
      (f : Field) (w : DesiredDeviceWrite J) (now : ℕ) (m : Map String (Entry J))
      (cs : List (Call J))
      → 0 < w.revision
      → selects f w ≡ true
      → All (λ c. ¬ Settles f w.device.device_id w.revision c) cs
      → w.revision ≤ pending f w.device.device_id (run (mark w now m) cs)
  mark-run_keeps f w now m cs pos sel =
      run_keeps f w.device.device_id w.revision pos (mark w now m) cs (mark-pending f w now m sel)

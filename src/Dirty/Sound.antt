-- ===== src/Dirty/Sound.antt =====
-- The entries of the dirty state are well formed, whatever the order of the operations.
use text.Mathlib.TextEquality.{eq_iff}
use cns_server.Base.{
  ℕ, ◌≤◌, ◌≡◌, refl, String, Bool, true, false, List, [], ◌∷◌, some, ◌==◌, if◌then◌else◌, string_eq,
  arith, Bool-cases, Option-cases, inl, inr,
}
use cns_server.Base.Map.{
  Map, find, insert, erase, map_values, IsUnique, find-insert, find-erase, find-map_values,
  insert-IsUnique, erase-IsUnique, map_values-IsUnique,
}
use cns_server.Dirty.{
  DesiredDeviceWrite, FieldState, Entry, mark_field, restore_field, has_work, entry_for, mark_entry,
  restore_entry, complete_entry, dispatch_entry, is_due, mark, restore, complete, take_matching,
  clear,
}
use cns_server.Dirty.Ledger.{Call, marks, restores, takes, completes, clears, step, run}

-- A field's revisions are not above the entry's.
pub record IsBelow (n : ℕ) (f : FieldState) : Type 0 where
  pub dirty_below : f.dirty_revision ≤ n
  pub in_flight_below : f.in_flight_revision ≤ n

module _ {J : Type 0} where
  pub record IsSound (e : Entry J) : Type 0 where
    pub metadata_below : IsBelow e.revision e.metadata
    pub status_below : IsBelow e.revision e.status
    pub telemetry_below : IsBelow e.revision e.telemetry

  mark_entry-IsSound :
      (w : DesiredDeviceWrite J) (now : ℕ) (e : Entry J)
      → IsSound e
      → w.revision ≤ e.revision
      → IsSound (mark_entry w now e)
  unfolding mark_entry mark_field
  mark_entry-IsSound w now e s le = ground arith

  restore_entry-IsSound :
      (w : DesiredDeviceWrite J) (e : Entry J)
      → IsSound e
      → w.revision ≤ e.revision
      → IsSound (restore_entry w e)
  unfolding restore_entry restore_field
  restore_entry-IsSound w e s le = ground arith

  dispatch_entry-IsSound : (e : Entry J) → IsSound e → IsSound (dispatch_entry e)
  unfolding dispatch_entry
  dispatch_entry-IsSound e s = ground arith

  complete_entry-IsSound :
      (w : DesiredDeviceWrite J) (e : Entry J) → IsSound e → IsSound (complete_entry w e)
  unfolding complete_entry
  complete_entry-IsSound w e s = ground arith

  pub record IsWell (m : Map String (Entry J)) : Type 0 where
    pub unique : IsUnique m
    pub keyed : (id : String) (e : Entry J) → find id m ≡ some e → e.device.device_id ≡ id
    pub sound : (id : String) (e : Entry J) → find id m ≡ some e → IsSound e

  pub empty-IsWell : IsWell []
  unfolding find
  empty-IsWell = record { unique = tt; keyed = λ id e p. cc; sound = λ id e p. absurd (cc) }

  insert-IsWell :
      (m : Map String (Entry J)) (id : String) (e : Entry J)
      → IsWell m
      → e.device.device_id ≡ id
      → IsSound e
      → IsWell (insert id e m)
  insert-IsWell m id e v k s = record {
    unique = insert-IsUnique id e m v.unique;
    keyed = λ j x p. ground (arith, find-insert id j e m, eq_iff id j, v.keyed j x);
    sound = λ j x p. sound_at j x p;
  }
    where
      sound_at : (j : String) (x : Entry J) → find j (insert id e m) ≡ some x → IsSound x
      sound_at j x p = elim (Bool-cases (id == j)) [
        | inl same ↦ let q : e ≡ x = ground (arith, find-insert id j e m) in rw q at s
        | inr other ↦ v.sound j x (ground (arith, find-insert id j e m))
      ]

  entry_for-IsSound :
      (m : Map String (Entry J)) (w : DesiredDeviceWrite J) (now : ℕ)
      → IsWell m
      → let e = entry_for w now (find w.device.device_id m) in
        IsSound e × (w.revision ≤ e.revision) × (e.device.device_id ≡ w.device.device_id)
  unfolding entry_for
  entry_for-IsSound m w now v = elim (Option-cases (find w.device.device_id m)) [
    | inl e ↦ rw (e, entry_for) (ground arith)
    | inr (x, e) ↦
        let s = v.sound w.device.device_id x e in
        let k = v.keyed w.device.device_id x e in rw (e, entry_for) (ground arith)
  ]

  changed-IsWell :
      (m : Map String (Entry J)) (g : Entry J → Entry J)
      → ((e : Entry J) → IsSound e → IsSound (g e))
      → ((e : Entry J) → (g e).device ≡ e.device)
      → IsWell m
      → IsWell (map_values g m)
  changed-IsWell m g sound same v = record {
    unique = map_values-IsUnique g m v.unique;
    keyed = λ j x p. elim (Option-cases (find j m)) [
      | inl e ↦ ground (arith, find-map_values g j m)
      | inr (y, e) ↦ ground (arith, find-map_values g j m, v.keyed j y e, same y)
    ];
    sound = λ j x p. elim (Option-cases (find j m)) [
      | inl e ↦ absurd (ground (arith, find-map_values g j m))
      | inr (y, e) ↦
          let q : g y ≡ x = ground (arith, find-map_values g j m) in
          rw q at (sound y (v.sound j y e))
    ];
  }

  erase-IsWell : (m : Map String (Entry J)) (id : String) → IsWell m → IsWell (erase id m)
  erase-IsWell m id v = record {
    unique = erase-IsUnique id m v.unique;
    keyed = λ j x p. ground (arith, find-erase id j m, v.keyed j x);
    sound = λ j x p. v.sound j x (ground (arith, find-erase id j m));
  }

  complete-IsWell :
      (m : Map String (Entry J)) (w : DesiredDeviceWrite J) → IsWell m → IsWell (complete w m)
  unfolding complete
  complete-IsWell m w v = elim (Option-cases (find w.device.device_id m)) [
    | inl e ↦ rw (e, complete) v
    | inr (x, e) ↦
        rw (e, complete)
          (elim (Bool-cases (has_work (complete_entry w x))) [
            | inl busy ↦ rw busy (
                insert-IsWell m w.device.device_id (complete_entry w x) v
                  (unfold complete_entry in v.keyed w.device.device_id x e)
                  (complete_entry-IsSound w x (v.sound w.device.device_id x e)))
            | inr idle ↦ rw idle (erase-IsWell m w.device.device_id v)
          ])
  ]

  dispatch_if-IsSound :
      (b : Bool) (e : Entry J) → IsSound e → IsSound (if b then dispatch_entry e else e)
  dispatch_if-IsSound true e s = dispatch_entry-IsSound e s
  dispatch_if-IsSound false e s = s

  dispatch_if-device :
      (b : Bool) (e : Entry J) → (if b then dispatch_entry e else e).device ≡ e.device
  unfolding dispatch_entry
  dispatch_if-device true e = refl
  dispatch_if-device false e = refl

  step-IsWell : (m : Map String (Entry J)) (c : Call J) → IsWell m → IsWell (step m c)
  unfolding step mark restore take_matching clear find
  step-IsWell m (marks w now) v =
      let (s, le, k) = entry_for-IsSound m w now v in
      insert-IsWell m w.device.device_id _ v (unfold mark_entry in k)
        (mark_entry-IsSound w now _ s le)
  step-IsWell m (restores w now) v =
      let (s, le, k) = entry_for-IsSound m w now v in
      insert-IsWell m w.device.device_id _ v (unfold restore_entry in k)
        (restore_entry-IsSound w _ s le)
  step-IsWell m (takes i now interval force) v =
      changed-IsWell m _ (λ e. dispatch_if-IsSound (is_due i now interval force e) e)
        (λ e. dispatch_if-device (is_due i now interval force e) e) v
  step-IsWell m (completes w) v = complete-IsWell m w v
  step-IsWell m clears v = empty-IsWell

  pub run-IsWell : (m : Map String (Entry J)) (cs : List (Call J)) → IsWell m → IsWell (run m cs)
  unfolding run
  run-IsWell m [] v = v
  run-IsWell m (c ∷ cs) v = run-IsWell (step m c) cs (step-IsWell m c v)

-- ===== src/Dirty/Cycle.antt =====
-- One round of the persistence loop: what is taken, and what a completion or a failure leaves.
use mathlib.Core.Option
use cns_server.Base.{
  ℕ, ◌+◌, ◌≤◌, ◌≡◌, ◌≢◌, ◌↔◌, ◌⊎◌, String, Bool, true, false, none, some, if◌then◌else◌, string_eq,
  eq_refl, arith, In, collect, Made, In-collect_iff,
}
use cns_server.Base.Map.{
  Map, find, values, find-insert, find-erase, find-map_values, In-values, find_of-In,
}
use cns_server.Dirty.{
  DesiredDeviceWrite, FieldState, Entry, immediate, telemetry_batch, has_dirty, clean, is_dirty,
  has_work, entry_for, restore_entry, complete_entry, dispatch_entry, write_of, is_due, restore,
  complete, take_matching,
}
use cns_server.Dirty.Sound.{IsSound, IsWell}

abbrev redirty : ℕ → FieldState → FieldState
redirty n f = if is_dirty f then record { dirty_revision = n; in_flight_revision = 0 } else f

module _ {J : Type 0} where
  -- Some field is dirty, and the round asks for the entry: it is forced, or it takes the immediate
  -- ones, or it takes the others and the entry was marked at least `interval` ago.
  abbrev pub Due : Bool → ℕ → ℕ → Bool → Entry J → Type 0
  Due i now interval force e =
      ((e.metadata.dirty_revision ≢ 0)
        ⊎ ((e.status.dirty_revision ≢ 0) ⊎ (e.telemetry.dirty_revision ≢ 0)))
      × ((force ≡ true)
          ⊎ (((e.urgency ≡ immediate) × (i ≡ true))
              ⊎ ((e.urgency ≡ telemetry_batch) × (i ≡ false) × (e.marked_at + interval ≤ now))))

  -- The write has the entry's device, revision and urgency, and exactly its dirty fields.
  abbrev pub Writes : DesiredDeviceWrite J → Entry J → Type 0
  Writes w e =
      (w.device ≡ e.device)
      × (w.revision ≡ e.revision)
      × (w.urgency ≡ e.urgency)
      × ((w.write_metadata ≡ true) ↔ (e.metadata.dirty_revision ≢ 0))
      × ((w.write_status ≡ true) ↔ (e.status.dirty_revision ≢ 0))
      × ((w.write_telemetry ≡ true) ↔ (e.telemetry.dirty_revision ≢ 0))

  is_due-Due :
      (i : Bool) (now interval : ℕ) (force : Bool) (e : Entry J)
      → (is_due i now interval force e ≡ true) ↔ Due i now interval force e
  unfolding is_due has_dirty
  is_due-Due i now interval force e =
      (λ h. (ground arith, ground arith), λ (dirty, asked). ground arith)

  write_of-Writes : (w : DesiredDeviceWrite J) (e : Entry J) → (w ≡ write_of e) ↔ Writes w e
  unfolding write_of
  write_of-Writes w e = (λ h. ground arith, λ (d, r, u, a, b, c). ground arith)

  -- A dirty field is clean after its write, and dirty under the entry's revision after a failure.
  pub settled : Entry J → Entry J
  settled e = record e {
    metadata = if is_dirty e.metadata then clean else e.metadata;
    status = if is_dirty e.status then clean else e.status;
    telemetry = if is_dirty e.telemetry then clean else e.telemetry;
    urgency = telemetry_batch;
  }

  pub reverted : Entry J → Entry J
  reverted e = record e {
    metadata = redirty e.revision e.metadata;
    status = redirty e.revision e.status;
    telemetry = redirty e.revision e.telemetry;
  }

  complete_taken :
      (e : Entry J) → IsSound e → complete_entry (write_of e) (dispatch_entry e) ≡ settled e
  unfolding complete_entry dispatch_entry write_of settled
  complete_taken e s = ground arith

  restore_taken :
      (e : Entry J) → IsSound e → restore_entry (write_of e) (dispatch_entry e) ≡ reverted e
  unfolding restore_entry dispatch_entry write_of reverted
  restore_taken e s = ground arith

  completed :
      (e : Entry J) (m : Map String (Entry J))
      → find e.device.device_id m ≡ some (dispatch_entry e)
      → let x = complete_entry (write_of e) (dispatch_entry e) in
        find e.device.device_id (complete (write_of e) m) ≡ (if has_work x then some x else none)
  unfolding complete write_of
  completed e m there = ground (arith, find-insert id id x m, find-erase id id m, eq_refl id)
    where
      id : String
      id = e.device.device_id

      x : Entry J
      x = complete_entry (write_of e) (dispatch_entry e)

  restored :
      (e : Entry J) (m : Map String (Entry J)) (later : ℕ)
      → find e.device.device_id m ≡ some (dispatch_entry e)
      → find e.device.device_id (restore (write_of e) later m)
        ≡ some (restore_entry (write_of e) (dispatch_entry e))
  unfolding restore write_of entry_for dispatch_entry
  restored e m later there = ground (
    arith,
    find-insert e.device.device_id e.device.device_id
        (restore_entry (write_of e) (entry_for (write_of e) later (find e.device.device_id m))) m,
    eq_refl e.device.device_id,
  )

  module _ (m : Map String (Entry J)) (v : IsWell m) (i : Bool) (now interval : ℕ)
      (force : Bool) where
    after_take : Map String (Entry J)
    after_take = (take_matching i now interval force m).0

    find-after_take :
        (id : String)
        → find id after_take
          ≡ Option.map
              (λ e. if is_due i now interval force e then dispatch_entry e else e)
              (find id m)
    unfolding after_take take_matching
    find-after_take id =
        find-map_values (λ e. if is_due i now interval force e then dispatch_entry e else e) id m

    dispatched :
        (e : Entry J)
        → find e.device.device_id m ≡ some e
        → is_due i now interval force e ≡ true
        → find e.device.device_id after_take ≡ some (dispatch_entry e)
    dispatched e there due = ground (arith, find-after_take e.device.device_id)

    -- On a well-formed state: a write is taken exactly when it has the device, the revision and
    -- the urgency of an entry with some dirty field, and writes exactly the entry's dirty fields, and
    -- the round is forced, or takes the immediate entries and the entry is one, or takes the others
    -- and the entry is one that was marked at least `interval` ago.
    pub take_matching_exact :
        (w : DesiredDeviceWrite J)
        → In w (take_matching i now interval force m).1 ↔ (
            (id : String) × (e : Entry J) × (find id m ≡ some e)
            × Due i now interval force e
            × Writes w e)
    unfolding take_matching
    take_matching_exact w = (
      λ h.
          let (e, is_in, due, p) = made.0 h in
          let (id, there) = find_of-In e m v.unique is_in in
          (id, e, there, (is_due-Due i now interval force e).0 due, (write_of-Writes w e).0 p),
      λ (id, e, there, due, p). made.1 (
        e,
        In-values id e m there,
        (is_due-Due i now interval force e).1 due,
        (write_of-Writes w e).1 p,
      ),
    )
      where
        made :
            In w (collect (is_due i now interval force) write_of (values m))
            ↔ Made (is_due i now interval force) write_of w (values m)
        made = In-collect_iff (is_due i now interval force) write_of w (values m)

    -- For an entry that is due, when its write completes right after it was taken, the fields of
    -- the write are clean, a field that was not dirty keeps what it had in flight, and an entry
    -- without work left is gone; when the write fails and is restored instead, the fields of the
    -- write are dirty under the entry's revision with nothing in flight, the other fields and the
    -- urgency are as they were before it was taken.
    pub take_cycle :
        (e : Entry J) (later : ℕ)
        → find e.device.device_id m ≡ some e
        → is_due i now interval force e ≡ true
        → let m' = (take_matching i now interval force m).0 in
          (find e.device.device_id (complete (write_of e) m')
            ≡ (if has_work (settled e) then some (settled e) else none))
          × (find e.device.device_id (restore (write_of e) later m') ≡ some (reverted e))
    unfolding take_matching after_take
    take_cycle e later there due =
        let s = v.sound e.device.device_id e there in
        let flying = dispatched e there due in
        (
          rw (← complete_taken e s) (completed e after_take flying),
          rw (← restore_taken e s) (restored e after_take later flying),
        )

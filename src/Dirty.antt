-- ===== src/Dirty.antt =====
-- core/persistence/dirty_state.{hpp,cpp}: which fields of which devices wait for the database, and
-- which are in flight. Times are ticks of the steady clock; revision 0 means "none".
pub mod Ledger
pub mod Sound
pub mod Cycle
pub mod Tests
use cns_server.Base.{
  ℕ, suc, max, ◌+◌, ◌≡◌, String, Bool, true, false, not, ◌&&◌, ◌||◌, List, [], ◌∷◌, Option, none,
  some, ◌==◌, ltb, leb, nat_eq, if◌then◌else◌, is_some, string_eq, length, collect,
}
use cns_server.Base.Map.{Map, find, insert, erase, contains, values, map_values}
use cns_server.Device.{DeviceRecord}

pub data Urgency : Type 0 where
  immediate telemetry_batch : Urgency

pub record DesiredDeviceWrite (J : Type 0) : Type 0 where
  pub device : DeviceRecord J
  pub revision : ℕ
  pub write_metadata : Bool
  pub write_status : Bool
  pub write_telemetry : Bool
  pub urgency : Urgency

pub record FieldState : Type 0 where
  pub dirty_revision : ℕ
  pub in_flight_revision : ℕ

abbrev pub clean : FieldState
clean = record { dirty_revision = 0; in_flight_revision = 0 }

pub record Entry (J : Type 0) : Type 0 where
  pub device : DeviceRecord J
  pub revision : ℕ
  pub metadata : FieldState
  pub status : FieldState
  pub telemetry : FieldState
  pub urgency : Urgency
  pub marked_at : ℕ

abbrev is_immediate : Urgency → Bool
is_immediate immediate = true
is_immediate telemetry_batch = false

abbrev is_dirty : FieldState → Bool
is_dirty f = not (nat_eq f.dirty_revision 0)

unfoldable pub mark_field : FieldState → Bool → ℕ → FieldState
mark_field f selected revision =
    if selected then record f { dirty_revision = max f.dirty_revision revision } else f

unfoldable pub restore_field : FieldState → Bool → ℕ → FieldState
restore_field f selected revision =
    if selected
    then record {
      dirty_revision = max f.dirty_revision revision;
      in_flight_revision = if leb f.in_flight_revision revision then 0 else f.in_flight_revision;
    }
    else f

-- The lambda `complete` of Complete.
unfoldable pub complete_field : FieldState → Bool → ℕ → FieldState
complete_field f selected revision =
    if selected && not (nat_eq f.in_flight_revision 0) && leb f.in_flight_revision revision
    then record f { in_flight_revision = 0 }
    else f

-- The lambda `dispatch` of TakeMatching.
unfoldable pub dispatch_field : FieldState → FieldState
dispatch_field f = record {
  in_flight_revision = max f.in_flight_revision f.dirty_revision;
  dirty_revision = 0;
}

unfoldable pub field_has_work : FieldState → Bool
field_has_work f = not (nat_eq f.dirty_revision 0) || not (nat_eq f.in_flight_revision 0)

raise : Urgency → Urgency → Urgency
raise immediate _ = immediate
raise telemetry_batch old = old

module _ {J : Type 0} where
  unfoldable pub has_dirty : Entry J → Bool
  has_dirty e = is_dirty e.metadata || is_dirty e.status || is_dirty e.telemetry

  unfoldable pub has_work : Entry J → Bool
  unfolding field_has_work
  has_work e = field_has_work e.metadata || field_has_work e.status || field_has_work e.telemetry

  -- The entry that a write finds, or makes if there is none.
  new_entry : DesiredDeviceWrite J → ℕ → Entry J
  new_entry w now = record {
    device = w.device;
    revision = w.revision;
    metadata = clean;
    status = clean;
    telemetry = clean;
    urgency = telemetry_batch;
    marked_at = now;
  }

  refresh : DesiredDeviceWrite J → Entry J → Entry J
  refresh w e =
      if leb e.revision w.revision then record e { device = w.device; revision = w.revision } else e

  entry_for : DesiredDeviceWrite J → ℕ → Option (Entry J) → Entry J
  unfolding new_entry refresh
  entry_for w now none = new_entry w now
  entry_for w now (some e) = refresh w e

  unfoldable pub mark_entry : DesiredDeviceWrite J → ℕ → Entry J → Entry J
  unfolding mark_field raise
  mark_entry w now e = record e {
    metadata = mark_field e.metadata w.write_metadata w.revision;
    status = mark_field e.status w.write_status w.revision;
    telemetry = mark_field e.telemetry w.write_telemetry w.revision;
    marked_at = if w.write_telemetry && not (is_dirty e.telemetry) then now else e.marked_at;
    urgency = raise w.urgency e.urgency;
  }

  unfoldable pub mark : DesiredDeviceWrite J → ℕ → Map String (Entry J) → Map String (Entry J)
  unfolding entry_for mark_entry
  mark w now m =
      let id = w.device.device_id in insert id (mark_entry w now (entry_for w now (find id m))) m

  unfoldable pub restore_entry : DesiredDeviceWrite J → Entry J → Entry J
  unfolding restore_field raise
  restore_entry w e = record e {
    metadata = restore_field e.metadata w.write_metadata w.revision;
    status = restore_field e.status w.write_status w.revision;
    telemetry = restore_field e.telemetry w.write_telemetry w.revision;
    urgency = raise w.urgency e.urgency;
  }

  -- `now` is the clock reading that a new entry gets.
  unfoldable pub restore : DesiredDeviceWrite J → ℕ → Map String (Entry J) → Map String (Entry J)
  unfolding entry_for restore_entry
  restore w now m =
      let id = w.device.device_id in insert id (restore_entry w (entry_for w now (find id m))) m

  unfoldable pub complete_entry : DesiredDeviceWrite J → Entry J → Entry J
  unfolding complete_field
  complete_entry w e = record e {
    metadata = complete_field e.metadata w.write_metadata w.revision;
    status = complete_field e.status w.write_status w.revision;
    telemetry = complete_field e.telemetry w.write_telemetry w.revision;
  }

  unfoldable pub complete : DesiredDeviceWrite J → Map String (Entry J) → Map String (Entry J)
  unfolding complete_entry
  complete w m =
      let id = w.device.device_id in
      elim (find id m) [
        | none ↦ m
        | some e ↦ let e' = complete_entry w e in if has_work e' then insert id e' m else erase id m
      ]

  -- Which entries a call of TakeMatching takes.
  unfoldable pub is_due : Bool → ℕ → ℕ → Bool → Entry J → Bool
  unfolding has_dirty
  is_due want_immediate now interval force e =
      has_dirty e
      && (force
          || (if is_immediate e.urgency
              then want_immediate
              else not want_immediate && leb (e.marked_at + interval) now))

  unfoldable pub write_of : Entry J → DesiredDeviceWrite J
  write_of e = record {
    device = e.device;
    revision = e.revision;
    write_metadata = is_dirty e.metadata;
    write_status = is_dirty e.status;
    write_telemetry = is_dirty e.telemetry;
    urgency = e.urgency;
  }

  unfoldable pub dispatch_entry : Entry J → Entry J
  unfolding dispatch_field
  dispatch_entry e = record e {
    metadata = dispatch_field e.metadata;
    status = dispatch_field e.status;
    telemetry = dispatch_field e.telemetry;
    urgency = telemetry_batch;
  }

  unfoldable pub take_matching :
      Bool
      → ℕ
      → ℕ
      → Bool
      → Map String (Entry J)
      → Map String (Entry J) × List (DesiredDeviceWrite J)
  take_matching want_immediate now interval force m =
      let due = is_due want_immediate now interval force in
      (map_values (λ e. if due e then dispatch_entry e else e) m, collect due write_of (values m))

  unfoldable pub take_immediate :
      Map String (Entry J) → Map String (Entry J) × List (DesiredDeviceWrite J)
  unfolding take_matching
  take_immediate = take_matching true 0 0 false

  unfoldable pub take_telemetry_due :
      ℕ → ℕ → Map String (Entry J) → Map String (Entry J) × List (DesiredDeviceWrite J)
  unfolding take_matching
  take_telemetry_due now interval = take_matching false now interval false

  unfoldable pub take_all_dirty :
      Map String (Entry J) → Map String (Entry J) × List (DesiredDeviceWrite J)
  unfolding take_matching
  take_all_dirty = take_matching false 0 0 true

  unfoldable pub clear : Map String (Entry J) → Map String (Entry J)
  clear m = []

  unfoldable pub size : Map String (Entry J) → ℕ
  size m = length m

-- ===== src/Dirty/Tests.antt =====
-- The ledger of dirty fields at concrete inputs.
use text.Mathlib.TextEquality.{eq_iff}
use cns_server.Base.{
  ℕ, ◌≤◌, ◌≡◌, ◌↔◌, refl, String, true, false, List, [], ◌∷◌, none, some, All, In, arith, string_eq,
  if◌then◌else◌,
}
use cns_server.Base.Map.{Map, find, insert}
use cns_server.Protocol.{cns_box}
use cns_server.Device.{DeviceRecord, online}
use cns_server.Dirty.{
  DesiredDeviceWrite, Entry, immediate, mark, mark_entry, mark_field, entry_for, new_entry, refresh,
  raise, take_matching, complete, restore, clean, has_dirty, is_due, write_of, has_work,
}
use cns_server.Dirty.Ledger.{
  Call, marks, restores, takes, completes, run, step, status, pending, Settles, mark-run_keeps,
}
use cns_server.Dirty.Sound.{IsWell, empty-IsWell, run-IsWell}
use cns_server.Dirty.Cycle.{Due, Writes, settled, reverted, take_matching_exact, take_cycle}

abbrev device : String → ℕ → DeviceRecord ℕ
device id revision = record {
  device_id = id;
  school_id = 1;
  school_name = "north";
  dcdw_label = none;
  model_version = "1";
  status = online;
  last_seen_at = none;
  latest_telemetry = none;
  telemetry_received_at = none;
  revision = revision;
  device_type = cns_box;
  capabilities = none;
  product = none;
  version = none;
}

abbrev status_write : String → ℕ → DesiredDeviceWrite ℕ
status_write id revision = record {
  device = device id revision;
  revision = revision;
  write_metadata = false;
  write_status = true;
  write_telemetry = false;
  urgency = immediate;
}

-- Another device completes, and the write of this one fails.
abbrev later : List (Call ℕ)
later =
    takes true 3 1 false
    ∷ completes (status_write "b" 9)
    ∷ restores (status_write "a" 4) 5
    ∷ completes (status_write "a" 3)
    ∷ []

unsettled : All (λ c. Settles status "a" 4 c → ⊥) later
unsettled = (
  λ h. ground arith,
  (
    λ h. ground (arith, (eq_iff "b" "a").1 h.0),
    (λ h. ground arith, (λ h. ground (arith, h.2), tt)),
  ),
)

mark-run_keeps_example : 4 ≤ pending status "a" (run (mark (status_write "a" 4) 2 []) later)
mark-run_keeps_example =
    mark-run_keeps status (status_write "a" 4) 2 [] later (ground arith) refl unsettled

abbrev ledger : Map String (Entry ℕ)
ledger = run [] (marks (status_write "a" 4) 2 ∷ [])

ledger-IsWell : IsWell ledger
ledger-IsWell = run-IsWell [] _ empty-IsWell

run-IsWell_example : IsWell (run [] later)
run-IsWell_example = run-IsWell [] later empty-IsWell

take_matching_exact_example : In (status_write "a" 4) (take_matching true 3 1 false ledger).1 ↔ (
    (id : String) × (e : Entry ℕ) × (find id ledger ≡ some e)
    × Due true 3 1 false e
    × Writes (status_write "a" 4) e)
take_matching_exact_example =
    take_matching_exact ledger ledger-IsWell true 3 1 false (status_write "a" 4)

abbrev entry_a : Entry ℕ
entry_a = record {
  device = device "a" 4;
  revision = 4;
  metadata = clean;
  status = record { dirty_revision = 4; in_flight_revision = 0 };
  telemetry = clean;
  urgency = immediate;
  marked_at = 2;
}

there : find "a" ledger ≡ some entry_a
unfolding run step mark mark_entry mark_field entry_for new_entry refresh raise find insert
there = refl

due : is_due true 3 1 false entry_a ≡ true
unfolding is_due has_dirty
due = refl

take_cycle_example :
    let m' = (take_matching true 3 1 false ledger).0 in
    (find "a" (complete (write_of entry_a) m')
      ≡ (if has_work (settled entry_a) then some (settled entry_a) else none))
    × (find "a" (restore (write_of entry_a) 9 m') ≡ some (reverted entry_a))
take_cycle_example = take_cycle ledger ledger-IsWell true 3 1 false entry_a 9 there due

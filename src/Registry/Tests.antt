-- ===== src/Registry/Tests.antt =====
-- The directory at concrete inputs: two boxes of a school and one of another, JSON values being
-- numbers.
use text.Mathlib.TextEquality.{eq_iff}
use cns_server.Base.{
  ℕ, ◌≡◌, ◌≢◌, ◌↔◌, ◌⊎◌, refl, String, true, false, not, List, [], ◌∷◌, none, some, ◌==◌,
  if◌then◌else◌, ok, string_eq, In, u64, arith,
}
use cns_server.Base.Map.{find, insert, contains}
use cns_server.Protocol.{cns_box, Registration, RegistrationStatus, Telemetry, device_type_eq}
use cns_server.Device.{
  DeviceRecord, DeviceRegistry, Mutation, role_key_eq, named_role_key_eq, online, status_beq,
}
use cns_server.Device.Roles.{push_name, add_named_role}
use cns_server.Registry.{
  empty_registry, load, load_from, add_provisioned, provision, register, receive,
  apply_registration, apply_telemetry, device_type_differs, find_device, find_by_school_and_label,
  find_by_school_name_and_label, is_school_name_and_label_ambiguous, expire_inactive,
}
use cns_server.Registry.Invariant.{IsConsistent}
use cns_server.Registry.Runs.{registers, reports, expires, run, run-load-IsConsistent}
use cns_server.Registry.Lookup.{
  HasRole, IsOnly, IsShared, find_by_school_and_label_exact, find_by_school_name_and_label_exact,
}
use cns_server.Registry.Effects.{
  apply_telemetry_effect, apply_registration_effect, apply_registration_conflict,
}
use cns_server.Registry.Expire.{IsOverdue, as_offline, expire_inactive_exact}
use cns_server.StateEvent.{activity_timeout}

abbrev pub box : String → ℕ → String → String → DeviceRecord ℕ
box id school name label = record {
  device_id = id;
  school_id = school;
  school_name = name;
  dcdw_label = some label;
  model_version = "1";
  status = online;
  last_seen_at = some 100;
  latest_telemetry = none;
  telemetry_received_at = none;
  revision = 1;
  device_type = cns_box;
  capabilities = none;
  product = none;
  version = none;
}

abbrev pub boxes : List (DeviceRecord ℕ)
boxes = box "a" 1 "north" "L1" ∷ box "b" 1 "north" "L2" ∷ box "c" 2 "south" "L1" ∷ []

abbrev pub directory : DeviceRegistry ℕ
directory = record {
  records =
      ("a", box "a" 1 "north" "L1")
      ∷ ("b", box "b" 1 "north" "L2")
      ∷ ("c", box "c" 2 "south" "L1")
      ∷ [];
  roles =
      (record { school_id = 1; dcdw_label = "L1" }, "a")
      ∷ (record { school_id = 1; dcdw_label = "L2" }, "b")
      ∷ (record { school_id = 2; dcdw_label = "L1" }, "c")
      ∷ [];
  named_roles =
      (record { school_name = "north"; dcdw_label = "L1" }, "a" ∷ [])
      ∷ (record { school_name = "north"; dcdw_label = "L2" }, "b" ∷ [])
      ∷ (record { school_name = "south"; dcdw_label = "L1" }, "c" ∷ [])
      ∷ [];
}

loads : load (empty_registry {J = ℕ}) boxes ≡ ok directory
unfolding load load_from add_provisioned provision add_named_role push_name insert find contains
loads = refl

pub directory-IsConsistent : IsConsistent directory
unfolding run
directory-IsConsistent = run-load-IsConsistent empty_registry directory boxes [] loads

abbrev claim_of : String → String → Registration ℕ
claim_of id label = record {
  device_id = id;
  status = RegistrationStatus.online;
  school_name = none;
  dcdw_label = some label;
  device_type = cns_box;
  capabilities = none;
  product = some 7;
  version = none;
}

abbrev report : Telemetry ℕ
report = record { payload = 42; dcdw_label = some "L9"; device_type = some cns_box }

run-load-IsConsistent_example : IsConsistent (
    run directory (
      registers (claim_of "a" "L7") 200
      ∷ registers (claim_of "b" "L7") 210
      ∷ reports "c" report 220
      ∷ expires 500 60
      ∷ []))
run-load-IsConsistent_example = run-load-IsConsistent empty_registry directory boxes _ loads

find_by_school_and_label_exact_example :
    (find_by_school_and_label directory 1 "L2" ≡ some (box "b" 1 "north" "L2"))
    ↔ HasRole directory directory-IsConsistent (box "b" 1 "north" "L2") 1 "L2"
find_by_school_and_label_exact_example =
    find_by_school_and_label_exact directory directory-IsConsistent 1 "L2" (box "b" 1 "north" "L2")

find_by_school_name_and_label_exact_example :
    ((r : DeviceRecord ℕ)
      → (find_by_school_name_and_label directory "south" "L1" ≡ some r)
        ↔ IsOnly directory directory-IsConsistent "south" "L1" r)
    × ((is_school_name_and_label_ambiguous directory "south" "L1" ≡ true)
        ↔ IsShared directory directory-IsConsistent "south" "L1")
find_by_school_name_and_label_exact_example =
    find_by_school_name_and_label_exact directory directory-IsConsistent "south" "L1"

after_report : DeviceRegistry ℕ × Mutation ℕ
unfolding receive
after_report = receive directory (box "a" 1 "north" "L1") report 300

reported : apply_telemetry directory "a" report 300 ≡ ok after_report
unfolding after_report apply_telemetry find device_type_differs
reported = refl

has_a : find_device directory "a" ≡ some (box "a" 1 "north" "L1")
unfolding find_device find
has_a = refl

apply_telemetry_effect_example :
    ((j : String)
      → find_device after_report.0 j
        ≡ (if "a" == j then some after_report.1.device else find_device directory j))
    × (after_report.1.device.status ≡ online)
    × (after_report.1.device.last_seen_at ≡ some 300)
    × (after_report.1.device.telemetry_received_at ≡ some 300)
    × (after_report.1.device.latest_telemetry ≡ some 42)
    × (after_report.1.device.revision ≡ u64 2)
    × (after_report.1.device.school_id ≡ 1)
    × (after_report.1.device.device_type ≡ cns_box)
    × (after_report.1.status_changed ≡ false)
apply_telemetry_effect_example =
    apply_telemetry_effect directory directory-IsConsistent "a" report 300 (box "a" 1 "north" "L1")
      after_report.0 after_report.1 has_a reported

after_claim : DeviceRegistry ℕ × Mutation ℕ
unfolding register
after_claim = register directory (box "a" 1 "north" "L1") (claim_of "a" "L2") 300

claimed : apply_registration directory (claim_of "a" "L2") 300 ≡ ok after_claim
unfolding after_claim apply_registration find
claimed = refl

apply_registration_effect_example :
    ((j : String)
      → find_device after_claim.0 j
        ≡ (if "a" == j then some after_claim.1.device else find_device directory j))
    × ((after_claim.1.device.status ≡ online)
        ↔ (RegistrationStatus.online ≡ RegistrationStatus.online))
    × (after_claim.1.device.last_seen_at
        ≡ (if status_beq after_claim.1.device.status online then some 300 else some 100))
    × (after_claim.1.device.latest_telemetry ≡ none)
    × (after_claim.1.device.revision ≡ u64 2)
    × (after_claim.1.device.school_id ≡ 1)
    × (after_claim.1.device.device_type ≡ cns_box)
    × (after_claim.1.status_changed ≡ not (status_beq online after_claim.1.device.status))
apply_registration_effect_example =
    apply_registration_effect directory directory-IsConsistent (claim_of "a" "L2") 300
      (box "a" 1 "north" "L1") after_claim.0 after_claim.1 has_a claimed

b_has : HasRole directory directory-IsConsistent (box "b" 1 "north" "L2") 1 "L2"
unfolding find_device find
b_has = (refl, refl, refl)

other : ◌≢◌ {A = String} "b" "a"
other e = ground (arith, (eq_iff "b" "a").1 e)

apply_registration_conflict_example :
    (d' : DeviceRegistry ℕ) × (m : Mutation ℕ) × (apply_registration directory
        (claim_of "a" "L2")
        300
      ≡ ok (d', m))
    × (m.device.dcdw_label ≡ some "L1")
    × (m.diagnostic ≢ none)
apply_registration_conflict_example =
    apply_registration_conflict directory directory-IsConsistent (claim_of "a" "L2") 300
      (box "a" 1 "north" "L1") (box "b" 1 "north" "L2") "L2" has_a refl refl b_has other

expire_inactive_exact_example :
    let (d', ms) = expire_inactive directory 200 60 in
    ((j : String) (r' : DeviceRecord ℕ)
      → (find_device d' j ≡ some r') ↔ (
          (r : DeviceRecord ℕ) × (find_device directory j ≡ some r)
          × ((IsOverdue 200 60 r × (r' ≡ as_offline r)) ⊎ ((¬ IsOverdue 200 60 r) × (r' ≡ r)))))
    × ((m : Mutation ℕ)
        → In m ms ↔ (
            (j : String) × (r : DeviceRecord ℕ) × (find_device directory j ≡ some r)
            × IsOverdue 200 60 r
            × (m ≡ record {
              device = as_offline r;
              reason = activity_timeout;
              status_changed = true;
              diagnostic = none;
            })))
expire_inactive_exact_example = expire_inactive_exact 200 60 directory directory-IsConsistent

-- ===== src/Registry.antt =====
-- core/device/device_registry.cpp: the operations of the device directory. An error leaves the
-- directory as it was.
pub mod Invariant
pub mod Commit
pub mod Preserve
pub mod Runs
pub mod Lookup
pub mod Effects
pub mod Expire
pub mod Listing
pub mod Tests
use Prim.Native.String.{◌++◌ as str_append}
use cns_server.Base.{
  collect, ℕ, ◌+◌, String, Bool, true, false, not, ◌&&◌, List, [], ◌∷◌, Option, none, some, ◌==◌,
  ltb, leb, if◌then◌else◌, Expected, ok, unexpected, u64, length, ℕ_eq, string_eq, option_eq,
}
use cns_server.Base.Map.{find, insert, contains, values, map_values}
use cns_server.Protocol.{RegistrationStatus, DeviceType, Registration, Telemetry, device_type_eq}
use cns_server.StateEvent.{registration_online, registration_offline, telemetry, activity_timeout}
use cns_server.Device.{
  RoleKey, online, offline, status_beq, DeviceRecord, Mutation, DeviceRegistry, Error,
  unknown_device, duplicate_device_id, role_conflict, device_type_mismatch, role_key_eq,
  named_role_key_eq,
}
use cns_server.Device.Roles.{
  or_empty, RoleChange, registration_role, telemetry_role, commit, add_named_role, role_of,
}

-- AppendDiagnostic
append_diagnostic : Option String → String → Option String
append_diagnostic none message = some message
append_diagnostic (some d) message = some (str_append d (str_append "；" message))

abbrev registration_status_is_online : RegistrationStatus → Bool
registration_status_is_online RegistrationStatus.online = true
registration_status_is_online RegistrationStatus.offline = false

-- `if (update) field = update;`
abbrev or_else : {A : Type 0} → Option A → Option A → Option A
or_else none old = old
or_else (some new) old = some new

device_type_differs : Option DeviceType → DeviceType → Bool
device_type_differs none expected = false
device_type_differs (some actual) expected = not (actual == expected)

seen_before : Option ℕ → ℕ → ℕ → Bool
seen_before none now timeout = false
seen_before (some seen) now timeout = leb (seen + timeout) now

module _ {J : Type 0} where
  -- ApplyRegistration, past its two checks.
  register : DeviceRegistry J → DeviceRecord J → Registration J → ℕ → DeviceRegistry J × Mutation J
  unfolding append_diagnostic registration_role commit
  register d r reg received_at = (commit d r new_record change, mutation)
    where
      foreign_school : Option String
      foreign_school = elim reg.school_name [
        | none ↦ none
        | some name ↦ if name == r.school_name then none else append_diagnostic none "拒绝设备自动迁移学校"
      ]

      change : RoleChange
      change = registration_role d r reg.dcdw_label

      is_online : Bool
      is_online = registration_status_is_online reg.status

      new_record : DeviceRecord J
      new_record = record r {
        dcdw_label = change.label;
        capabilities = or_else reg.capabilities r.capabilities;
        product = or_else reg.product r.product;
        version = or_else reg.version r.version;
        status = if is_online then online else offline;
        last_seen_at = if is_online then some received_at else r.last_seen_at;
        revision = u64 (r.revision + 1);
      }

      mutation : Mutation J
      mutation = record {
        device = new_record;
        reason = if is_online then registration_online else registration_offline;
        status_changed = not (status_beq r.status new_record.status);
        diagnostic =
            if change.conflict
            then append_diagnostic foreign_school "拒绝同校冲突角色号"
            else foreign_school;
      }

  unfoldable pub apply_registration :
      DeviceRegistry J → Registration J → ℕ → Expected Error (DeviceRegistry J × Mutation J)
  unfolding register
  apply_registration d reg received_at = elim (find reg.device_id d.records) [
    | none ↦ unexpected (unknown_device reg.device_id)
    | some r ↦
        if r.device_type == reg.device_type
        then ok (register d r reg received_at)
        else unexpected device_type_mismatch
  ]

  -- ApplyTelemetry, past its two checks.
  receive : DeviceRegistry J → DeviceRecord J → Telemetry J → ℕ → DeviceRegistry J × Mutation J
  unfolding telemetry_role commit
  receive d r t received_at = (commit d r new_record change, mutation)
    where
      change : RoleChange
      change = telemetry_role d r t.dcdw_label

      new_record : DeviceRecord J
      new_record = record r {
        dcdw_label = change.label;
        status = online;
        last_seen_at = some received_at;
        latest_telemetry = some t.payload;
        telemetry_received_at = some received_at;
        revision = u64 (r.revision + 1);
      }

      mutation : Mutation J
      mutation = record {
        device = new_record;
        reason = telemetry;
        status_changed = not (status_beq r.status online);
        diagnostic = if change.conflict then some "拒绝同校冲突角色号" else none;
      }

  unfoldable pub apply_telemetry :
      DeviceRegistry J → String → Telemetry J → ℕ → Expected Error (DeviceRegistry J × Mutation J)
  unfolding receive device_type_differs
  apply_telemetry d device_id t received_at = elim (find device_id d.records) [
    | none ↦ unexpected (unknown_device device_id)
    | some r ↦
        if device_type_differs t.device_type r.device_type
        then unexpected device_type_mismatch
        else ok (receive d r t received_at)
  ]

  -- The test of ExpireInactive: online, and `now - last_seen_at` not below the timeout.
  unfoldable pub is_inactive : ℕ → ℕ → DeviceRecord J → Bool
  unfolding seen_before
  is_inactive now timeout r = status_beq r.status online && seen_before r.last_seen_at now timeout

  unfoldable pub expire : DeviceRecord J → DeviceRecord J
  expire r = record r { status = offline; revision = u64 (r.revision + 1) }

  expire_if : ℕ → ℕ → DeviceRecord J → DeviceRecord J
  expire_if now timeout r = if is_inactive now timeout r then expire r else r

  pub timeout_mutation : DeviceRecord J → Mutation J
  timeout_mutation r = record {
    device = expire r;
    reason = activity_timeout;
    status_changed = true;
    diagnostic = none;
  }

  unfoldable pub expire_inactive : DeviceRegistry J → ℕ → ℕ → DeviceRegistry J × List (Mutation J)
  unfolding expire_if
  expire_inactive d now timeout = (
    record d { records = map_values (expire_if now timeout) d.records },
    collect (is_inactive now timeout) timeout_mutation (values d.records),
  )

  -- AddProvisioned, past its first check: the role must be free. The index by name is written last.
  unfoldable pub provision :
      DeviceRegistry J → DeviceRecord J → Option RoleKey → Expected Error (DeviceRegistry J)
  provision d r none = ok (record d {
    records = insert r.device_id r d.records;
    named_roles = add_named_role r d.named_roles;
  })
  provision d r (some key) =
      if contains key d.roles
      then unexpected (role_conflict key.dcdw_label)
      else ok (record {
        records = insert r.device_id r d.records;
        roles = insert key r.device_id d.roles;
        named_roles = add_named_role r d.named_roles;
      })

  unfoldable pub add_provisioned :
      DeviceRegistry J → DeviceRecord J → Expected Error (DeviceRegistry J)
  unfolding provision
  add_provisioned d r =
      if contains r.device_id d.records
      then unexpected (duplicate_device_id r.device_id)
      else provision d r (role_of r)

  abbrev pub empty_registry : DeviceRegistry J
  empty_registry = record { records = []; roles = []; named_roles = [] }

  -- The loop of Load over the new maps: the first record that does not fit ends it.
  load_from : DeviceRegistry J → List (DeviceRecord J) → Expected Error (DeviceRegistry J)
  load_from d [] = ok d
  load_from d (r ∷ rs) = elim (add_provisioned d r) [
    | unexpected e ↦ unexpected e
    | ok d' ↦ load_from d' rs
  ]

  unfoldable pub load : DeviceRegistry J → List (DeviceRecord J) → Expected Error (DeviceRegistry J)
  unfolding load_from
  load d rs = load_from empty_registry rs

  unfoldable pub find_device : DeviceRegistry J → String → Option (DeviceRecord J)
  find_device d id = find id d.records

  unfoldable pub find_by_school_and_label : DeviceRegistry J → ℕ → String → Option (DeviceRecord J)
  find_by_school_and_label d school label =
      elim (find (record { school_id = school; dcdw_label = label }) d.roles) [
        | none ↦ none
        | some id ↦ find_device d id
      ]

  only : DeviceRegistry J → List String → Option (DeviceRecord J)
  only d (id ∷ []) = find_device d id
  only d _ = none

  unfoldable pub find_by_school_name_and_label :
      DeviceRegistry J → String → String → Option (DeviceRecord J)
  unfolding only
  find_by_school_name_and_label d school label =
      only d (or_empty (find (record { school_name = school; dcdw_label = label }) d.named_roles))

  unfoldable pub is_school_name_and_label_ambiguous : DeviceRegistry J → String → String → Bool
  is_school_name_and_label_ambiguous d school label =
      ltb 1 (
        length
          (or_empty (find (record { school_name = school; dcdw_label = label }) d.named_roles)))

-- ===== src/Registry/Effects.antt =====
-- What each operation of the directory does to the devices.
use text.Mathlib.TextEquality.{eq_iff}
use cns_server.Base.{
  ℕ, ◌+◌, ◌≡◌, ◌≢◌, ◌↔◌, String, true, none, some, ◌==◌, if◌then◌else◌, arith, ℕ_eq, string_eq,
  option_eq, option_beq_iff, u64, ok, not,
}
use cns_server.Base.Map.{find, find-insert}
use cns_server.Protocol.{Registration, RegistrationStatus, Telemetry, device_type_eq}
use cns_server.Device.{
  DeviceRecord, DeviceRegistry, Mutation, RoleKey, role_key_eq, online, status_beq,
}
use cns_server.Device.Roles.{
  RoleChange, commit, role_of, registration_role, telemetry_role, claim_role, claim_owned,
}
use cns_server.Registry.{
  append_diagnostic, register, receive, apply_registration, apply_telemetry, find_device,
}
use cns_server.Registry.Invariant.{IsConsistent, find_self}
use cns_server.Registry.Lookup.{HasRole}

module _ {J : Type 0} (d : DeviceRegistry J) (v : IsConsistent d) where
  find-commit :
      (r s : DeviceRecord J) (c : RoleChange) (j : String)
      → find_device (commit d r s c) j ≡ (if r.device_id == j then some s else find_device d j)
  unfolding commit find_device
  find-commit r s c j = find-insert r.device_id j s d.records

  -- Telemetry that is accepted for a device of the directory: the device it is reported for is
  -- replaced by the returned record, which is online, seen and reported at this time, with the
  -- payload, under the next revision, in the same school and of the same type; `status_changed`
  -- says whether it was offline before; and no other device changes.
  pub apply_telemetry_effect :
      (id : String) (t : Telemetry J) (now : ℕ) (r : DeviceRecord J) (d' : DeviceRegistry J)
      (m : Mutation J)
      → find_device d id ≡ some r
      → apply_telemetry d id t now ≡ ok (d', m)
      → ((j : String) → find_device d' j ≡ (if id == j then some m.device else find_device d j))
        × (m.device.status ≡ online)
        × (m.device.last_seen_at ≡ some now)
        × (m.device.telemetry_received_at ≡ some now)
        × (m.device.latest_telemetry ≡ some t.payload)
        × (m.device.revision ≡ u64 (r.revision + 1))
        × (m.device.school_id ≡ r.school_id)
        × (m.device.device_type ≡ r.device_type)
        × (m.status_changed ≡ not (status_beq r.status online))
  unfolding apply_telemetry find_device receive
  apply_telemetry_effect id t now r d' m here e = (
    λ j.
        ground
          (arith, find-commit r m.device (telemetry_role d r t.dcdw_label) j, v.keyed id r here),
    ground arith,
    ground arith,
    ground arith,
    ground arith,
    ground arith,
    ground arith,
    ground arith,
    ground arith,
  )

  -- A registration that is accepted for a device of the directory: the device is replaced by the
  -- returned record, under the next revision, in the same school and of the same type; it is online
  -- exactly when the registration says so, and only then is its last-seen time moved; what was
  -- last reported stays; and no other device changes.
  pub apply_registration_effect :
      (reg : Registration J) (now : ℕ) (r : DeviceRecord J) (d' : DeviceRegistry J) (m : Mutation J)
      → find_device d reg.device_id ≡ some r
      → apply_registration d reg now ≡ ok (d', m)
      → ((j : String)
          → find_device d' j ≡ (if reg.device_id == j then some m.device else find_device d j))
        × ((m.device.status ≡ online) ↔ (reg.status ≡ RegistrationStatus.online))
        × (m.device.last_seen_at
            ≡ (if status_beq m.device.status online then some now else r.last_seen_at))
        × (m.device.latest_telemetry ≡ r.latest_telemetry)
        × (m.device.revision ≡ u64 (r.revision + 1))
        × (m.device.school_id ≡ r.school_id)
        × (m.device.device_type ≡ r.device_type)
        × (m.status_changed ≡ not (status_beq r.status m.device.status))
  unfolding apply_registration find_device register
  apply_registration_effect reg now r d' m here e = (
    λ j. ground (
      arith,
      find-commit r m.device (registration_role d r reg.dcdw_label) j,
      v.keyed reg.device_id r here,
    ),
    (ground arith, ground arith),
    ground arith,
    ground arith,
    ground arith,
    ground arith,
    ground arith,
    ground arith,
  )

  role_taken :
      (r owner : DeviceRecord J) (label : String)
      → find_device d r.device_id ≡ some r
      → HasRole d v owner r.school_id label
      → owner.device_id ≢ r.device_id
      → registration_role d r (some label)
        ≡ record { label = r.dcdw_label; old_role = none; new_role = none; conflict = true }
  unfolding find_device registration_role claim_role claim_owned
  role_taken r owner label here (there, s, l) other = ground (
    arith,
    v.roles_exact key owner.device_id,
    v.roles_exact key r.device_id,
    option_beq_iff (find key d.roles) (some owner.device_id),
    option_beq_iff (find key d.roles) (some r.device_id),
    option_beq_iff (role_of owner) (some key),
    option_beq_iff (role_of r) (some key),
    option_beq_iff (some label) r.dcdw_label,
    eq_iff owner.device_id r.device_id,
  )
    where
      key : RoleKey
      key = record { school_id = r.school_id; dcdw_label = label }

  -- On a consistent directory, when a registration of a known device, of the type that it has, claims
  -- a label that another device of the same school has: the registration is accepted, its device
  -- keeps the label that it had, and the mutation has a diagnostic.
  pub apply_registration_conflict :
      (reg : Registration J) (now : ℕ) (r owner : DeviceRecord J) (label : String)
      → find_device d reg.device_id ≡ some r
      → r.device_type ≡ reg.device_type
      → reg.dcdw_label ≡ some label
      → HasRole d v owner r.school_id label
      → owner.device_id ≢ r.device_id
      → (d' : DeviceRegistry J) × (m : Mutation J) × (apply_registration d reg now ≡ ok (d', m))
        × (m.device.dcdw_label ≡ r.dcdw_label)
        × (m.diagnostic ≢ none)
  unfolding apply_registration find_device register append_diagnostic
  apply_registration_conflict reg now r owner label here type says has other =
      let self = find_self d reg.device_id r v here in
      (
        (register d r reg now).0,
        (register d r reg now).1,
        ground (arith, here, type),
        ground (arith, role_taken r owner label self has),
        ground (arith, role_taken r owner label self has),
      )

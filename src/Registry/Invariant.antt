-- ===== src/Registry/Invariant.antt =====
-- The indexes of the directory are exactly the roles of its records, and every operation keeps that.
use mathlib.Core.Path.{subst}
use cns_server.Base.{
  sym, ◌≡◌, ◌≢◌, refl, String, Bool, false, Option, none, some, ◌==◌, if◌then◌else◌, is_some, arith,
  ℕ_eq, string_eq, option_eq, option_beq, option_beq_iff, Bool-cases, inl, inr,
}
use cns_server.Base.Map.{Map, find, IsUnique}
use cns_server.Device.{
  DeviceRecord, DeviceRegistry, RoleKey, NamedRoleKey, role_key_eq, named_role_key_eq,
}
use cns_server.Device.Roles.{
  RoleChange, role_of, name_of, claim_role, claim_owned, registration_role, telemetry_role,
}
use cns_server.Device.Index.{count, ids_at}

module _ {J : Type 0} where
  -- Whether the records give the device a role, by school number and by school name.
  abbrev pub has_role : RoleKey → String → Map String (DeviceRecord J) → Bool
  has_role key id records = elim (find id records) [
    | none ↦ false
    | some r ↦ option_beq (role_of r) (some key)
  ]

  abbrev pub has_name : NamedRoleKey → String → Map String (DeviceRecord J) → Bool
  has_name key id records = elim (find id records) [
    | none ↦ false
    | some r ↦ option_beq (name_of r) (some key)
  ]

  pub record IsConsistent (d : DeviceRegistry J) : Type 0 where
    pub unique : IsUnique d.records
    pub keyed : (id : String) (r : DeviceRecord J) → find id d.records ≡ some r → r.device_id ≡ id
    pub roles_exact :
        (key : RoleKey) (id : String)
        → option_beq (find key d.roles) (some id) ≡ has_role key id d.records
    pub names_exact :
        (key : NamedRoleKey) (id : String)
        → count id (ids_at key d.named_roles) ≡ (if has_name key id d.records then 1 else 0)

  pub find_self :
      (d : DeviceRegistry J) (id : String) (r : DeviceRecord J)
      → IsConsistent d
      → find id d.records ≡ some r
      → find r.device_id d.records ≡ some r
  find_self d id r v e = subst (λ k. find k d.records ≡ some r) (sym (v.keyed id r e)) e

  -- The changes of role that the operations make: none, or to a free role.
  pub data Fits (d : DeviceRegistry J) (r : DeviceRecord J) (c : RoleChange) : Type 0 where
    stays : c.label ≡ r.dcdw_label → c.old_role ≡ none → c.new_role ≡ none → Fits d r c
    moves :
        (l : String)
        → c.label ≡ some l
        → r.dcdw_label ≢ some l
        → find (record { school_id = r.school_id; dcdw_label = l }) d.roles ≡ none
        → c.old_role ≡ role_of r
        → c.new_role ≡ some (record { school_id = r.school_id; dcdw_label = l })
        → Fits d r c

  module _ (d : DeviceRegistry J) (v : IsConsistent d) (r : DeviceRecord J)
      (here : find r.device_id d.records ≡ some r) where
    -- A free role: nobody can own the candidate if its owner is not another device.
    claim_role-Fits : (l : String) → r.dcdw_label ≢ some l → Fits d r (claim_role d r l)
    unfolding claim_role
    claim_role-Fits l differs = owner_case (find key d.roles) refl
      where
        key : RoleKey
        key = record { school_id = r.school_id; dcdw_label = l }

        owner_case : (o : Option String) → find key d.roles ≡ o → Fits d r (claim_owned r key o)
        owner_case none e = moves l (ground arith) differs e (ground arith) (ground arith)
        owner_case (some owner) e = elim (Bool-cases (owner == r.device_id)) [
          | inl same ↦ absurd (
              differs (
                ground (
                  arith,
                  v.roles_exact key r.device_id,
                  option_beq_iff (some owner) (some r.device_id),
                  option_beq_iff (role_of r) (some key),
                )))
          | inr other ↦
              stays (rw (other, claim_owned)) (rw (other, claim_owned)) (rw (other, claim_owned))
        ]

    pub registration_role-Fits : (o : Option String) → Fits d r (registration_role d r o)
    unfolding registration_role
    registration_role-Fits none = stays refl refl refl
    registration_role-Fits (some l) = elim (Bool-cases (some l == r.dcdw_label)) [
      | inl e ↦ rw (e, registration_role) (stays refl refl refl)
      | inr e ↦
          rw (e, registration_role)
            (claim_role-Fits l (λ p. ground (arith, option_beq_iff (some l) r.dcdw_label)))
    ]

    pub telemetry_role-Fits : (o : Option String) → Fits d r (telemetry_role d r o)
    unfolding telemetry_role
    telemetry_role-Fits none = stays refl refl refl
    telemetry_role-Fits (some l) = elim (Bool-cases (is_some r.dcdw_label)) [
      | inl e ↦ rw (e, telemetry_role) (stays refl refl refl)
      | inr e ↦ rw (e, telemetry_role) (claim_role-Fits l (λ p. ground arith))
    ]

-- ===== src/Registry/Preserve.antt =====
-- Every operation of the directory keeps it consistent.
use text.Mathlib.TextEquality.{eq_iff}
use cns_server.Base.{
  ℕ, ◌≡◌, refl, String, Bool, true, false, Option, none, some, ◌==◌, if◌then◌else◌, arith, ℕ_eq,
  string_eq, option_eq, Option-cases, inl, inr, Expected, ok, unexpected,
}
use cns_server.Base.Map.{
  find, insert, contains, find-insert, find-map_values, insert-IsUnique, map_values-IsUnique,
}
use cns_server.Protocol.{Registration, Telemetry, device_type_eq}
use cns_server.Device.{
  DeviceRecord, DeviceRegistry, RoleKey, NamedRoleKey, role_key_eq, named_role_key_eq, Error,
  device_type_mismatch,
}
use cns_server.Device.Roles.{role_of, add_named_role, registration_role, telemetry_role}
use cns_server.Device.Index.{count-push_name}
use cns_server.Registry.{
  register, receive, apply_registration, apply_telemetry, device_type_differs, expire, expire_if,
  expire_inactive, provision, add_provisioned,
}
use cns_server.Registry.Invariant.{
  IsConsistent, find_self, registration_role-Fits, telemetry_role-Fits,
}
use cns_server.Registry.Commit.{commit-IsConsistent}

module _ {J : Type 0} where
  register-IsConsistent :
      (d : DeviceRegistry J) (r : DeviceRecord J) (reg : Registration J) (t : ℕ)
      → IsConsistent d
      → find r.device_id d.records ≡ some r
      → IsConsistent (register d r reg t).0
  unfolding register
  register-IsConsistent d r reg t v here =
      commit-IsConsistent d v r _ here refl refl refl (registration_role d r reg.dcdw_label) refl
        (registration_role-Fits d v r here reg.dcdw_label)

  receive-IsConsistent :
      (d : DeviceRegistry J) (r : DeviceRecord J) (m : Telemetry J) (t : ℕ)
      → IsConsistent d
      → find r.device_id d.records ≡ some r
      → IsConsistent (receive d r m t).0
  unfolding receive
  receive-IsConsistent d r m t v here =
      commit-IsConsistent d v r _ here refl refl refl (telemetry_role d r m.dcdw_label) refl
        (telemetry_role-Fits d v r here m.dcdw_label)

  -- What an operation that may refuse leaves behind.
  abbrev pub Leaves :
      {A : Type 0}
      → (DeviceRegistry J → Type 0)
      → (A → DeviceRegistry J)
      → Expected Error A
      → Type 0
  Leaves P state (ok a) = P (state a)
  Leaves P state (unexpected e) = Unit

  Leaves-if :
      {A : Type 0} (b : Bool) (P : DeviceRegistry J → Type 0) (state : A → DeviceRegistry J)
      (x y : Expected Error A)
      → Leaves P state x
      → Leaves P state y
      → Leaves P state (if b then x else y)
  Leaves-if true P state x y l m = l
  Leaves-if false P state x y l m = m

  pub apply_registration-IsConsistent :
      (d : DeviceRegistry J) (reg : Registration J) (t : ℕ)
      → IsConsistent d
      → Leaves IsConsistent (λ p. p.0) (apply_registration d reg t)
  unfolding apply_registration
  apply_registration-IsConsistent d reg t v = elim (Option-cases (find reg.device_id d.records)) [
    | inl e ↦ rw (e, apply_registration) tt
    | inr (r, e) ↦
        rw (e, apply_registration)
          (Leaves-if (r.device_type == reg.device_type) IsConsistent (λ p. p.0)
            (ok (register d r reg t)) (unexpected device_type_mismatch)
            (register-IsConsistent d r reg t v (find_self d reg.device_id r v e)) tt)
  ]

  pub apply_telemetry-IsConsistent :
      (d : DeviceRegistry J) (id : String) (m : Telemetry J) (t : ℕ)
      → IsConsistent d
      → Leaves IsConsistent (λ p. p.0) (apply_telemetry d id m t)
  unfolding apply_telemetry
  apply_telemetry-IsConsistent d id m t v = elim (Option-cases (find id d.records)) [
    | inl e ↦ rw (e, apply_telemetry) tt
    | inr (r, e) ↦
        rw (e, apply_telemetry)
          (Leaves-if (device_type_differs m.device_type r.device_type) IsConsistent (λ p. p.0)
            (unexpected device_type_mismatch) (ok (receive d r m t)) tt
            (receive-IsConsistent d r m t v (find_self d id r v e)))
  ]

  expired_keyed :
      (d : DeviceRegistry J) (now timeout : ℕ) (v : IsConsistent d) (id : String)
      (r : DeviceRecord J)
      → find id (expire_inactive d now timeout).0.records ≡ some r
      → r.device_id ≡ id
  unfolding expire_inactive expire_if expire
  expired_keyed d now timeout v id r e = elim (Option-cases (find id d.records)) [
    | inl none_there ↦ ground (arith, find-map_values (expire_if now timeout) id d.records)
    | inr (old, there) ↦
        ground (arith, find-map_values (expire_if now timeout) id d.records, v.keyed id old there)
  ]

  pub expire_inactive-IsConsistent :
      (d : DeviceRegistry J) (now timeout : ℕ)
      → IsConsistent d
      → IsConsistent (expire_inactive d now timeout).0
  unfolding expire_inactive expire_if expire
  expire_inactive-IsConsistent d now timeout v = record {
    unique = map_values-IsUnique (expire_if now timeout) d.records v.unique;
    keyed = expired_keyed d now timeout v;
    roles_exact = λ key id.
        ground (arith, v.roles_exact key id, find-map_values (expire_if now timeout) id d.records);
    names_exact = λ key id.
        ground (arith, v.names_exact key id, find-map_values (expire_if now timeout) id d.records);
  }

  module _ (d : DeviceRegistry J) (r : DeviceRecord J) (v : IsConsistent d)
      (fresh : find r.device_id d.records ≡ none) where
    provisioned_unlabelled :
        r.dcdw_label ≡ none
        → IsConsistent (record d {
          records = insert r.device_id r d.records;
          named_roles = add_named_role r d.named_roles;
        })
    unfolding add_named_role
    provisioned_unlabelled e = record {
      unique = insert-IsUnique r.device_id r d.records v.unique;
      keyed = λ id s p.
          ground
            (arith, find-insert r.device_id id r d.records, eq_iff r.device_id id, v.keyed id s);
      roles_exact = λ key id. ground (
        arith,
        v.roles_exact key id,
        find-insert r.device_id id r d.records,
        eq_iff r.device_id id,
      );
      names_exact = λ key id. ground (
        arith,
        v.names_exact key id,
        find-insert r.device_id id r d.records,
        eq_iff r.device_id id,
      );
    }

    provisioned_labelled :
        (key : RoleKey)
        → role_of r ≡ some key
        → find key d.roles ≡ none
        → IsConsistent (record {
          records = insert r.device_id r d.records;
          roles = insert key r.device_id d.roles;
          named_roles = add_named_role r d.named_roles;
        })
    unfolding add_named_role
    provisioned_labelled role e free = record {
      unique = insert-IsUnique r.device_id r d.records v.unique;
      keyed = λ id s p.
          ground
            (arith, find-insert r.device_id id r d.records, eq_iff r.device_id id, v.keyed id s);
      roles_exact = λ key id. ground (
        arith,
        v.roles_exact key id,
        v.roles_exact key r.device_id,
        find-insert r.device_id id r d.records,
        find-insert role key r.device_id d.roles,
        role_key_eq.beq_iff role key,
        eq_iff r.device_id id,
      );
      names_exact = λ key id. ground (
        arith,
        v.names_exact key id,
        find-insert r.device_id id r d.records,
        count-push_name name key r.device_id id d.named_roles,
        named_role_key_eq.beq_iff name key,
        eq_iff r.device_id id,
      );
    }
      where
        name : NamedRoleKey
        name = record { school_name = r.school_name; dcdw_label = role.dcdw_label }

    provision-IsConsistent :
        (o : Option RoleKey) → role_of r ≡ o → Leaves IsConsistent (λ d'. d') (provision d r o)
    unfolding provision contains
    provision-IsConsistent none e = provisioned_unlabelled (ground arith)
    provision-IsConsistent (some key) e = elim (Option-cases (find key d.roles)) [
      | inl free ↦ rw (free, provision, contains) (provisioned_labelled key e free)
      | inr (owner, taken) ↦ rw (taken, provision, contains) tt
    ]

  pub add_provisioned-IsConsistent :
      (d : DeviceRegistry J) (r : DeviceRecord J)
      → IsConsistent d
      → Leaves IsConsistent (λ d'. d') (add_provisioned d r)
  unfolding add_provisioned contains
  add_provisioned-IsConsistent d r v = elim (Option-cases (find r.device_id d.records)) [
    | inl fresh ↦ rw (fresh, add_provisioned) (provision-IsConsistent d r v fresh (role_of r) refl)
    | inr (old, e) ↦ rw (e, add_provisioned) tt
  ]

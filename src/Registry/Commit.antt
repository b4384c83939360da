-- ===== src/Registry/Commit.antt =====
-- The writes that end a registration or a telemetry message keep the directory consistent.
use text.Mathlib.TextEquality.{eq_iff}
use cns_server.Base.{
  ◌≡◌, ◌≢◌, ◌∙◌, String, none, some, ◌==◌, if◌then◌else◌, arith, ℕ_eq, string_eq, option_eq,
  option_beq, option_beq_iff, Option-cases, inl, inr,
}
use cns_server.Base.Map.{find, insert, emplace, contains, find-insert, find-erase, insert-IsUnique}
use cns_server.Device.{
  DeviceRecord, DeviceRegistry, RoleKey, NamedRoleKey, role_key_eq, named_role_key_eq,
}
use cns_server.Device.Roles.{
  RoleChange, role_of, name_of, commit, add_named_role, remove_named_role, drop_name,
}
use cns_server.Device.Index.{count, ids_at, count-push_name, count-drop_name}
use cns_server.Registry.Invariant.{IsConsistent, has_role, has_name, Fits, stays, moves}

module _ {J : Type 0} (d : DeviceRegistry J) (v : IsConsistent d) (r s : DeviceRecord J)
    (here : find r.device_id d.records ≡ some r) (same_id : s.device_id ≡ r.device_id)
    (same_school : s.school_id ≡ r.school_id) (same_name : s.school_name ≡ r.school_name) where
  records-keyed :
      (id : String) (t : DeviceRecord J)
      → find id (insert r.device_id s d.records) ≡ some t
      → t.device_id ≡ id
  records-keyed id t e =
      ground (arith, find-insert r.device_id id s d.records, eq_iff r.device_id id, v.keyed id t)

  has_role-insert :
      (key : RoleKey) (id : String)
      → has_role key id (insert r.device_id s d.records) ≡ (
          if r.device_id == id
          then option_beq (role_of s) (some key)
          else has_role key id d.records)
  has_role-insert key id = rw (find-insert r.device_id id s d.records, has_role) (ground arith)

  has_name-insert :
      (key : NamedRoleKey) (id : String)
      → has_name key id (insert r.device_id s d.records) ≡ (
          if r.device_id == id
          then option_beq (name_of s) (some key)
          else has_name key id d.records)
  has_name-insert key id = rw (find-insert r.device_id id s d.records, has_name) (ground arith)

  commit_stays :
      (c : RoleChange)
      → s.dcdw_label ≡ r.dcdw_label
      → c.old_role ≡ none
      → c.new_role ≡ none
      → IsConsistent (commit d r s c)
  unfolding commit
  commit_stays c l o n = record {
    unique = insert-IsUnique r.device_id s d.records v.unique;
    keyed = records-keyed;
    roles_exact = λ key id.
        ground (arith, has_role-insert key id, v.roles_exact key id, eq_iff r.device_id id);
    names_exact = λ key id.
        ground (arith, has_name-insert key id, v.names_exact key id, eq_iff r.device_id id);
  }

  module _ (c : RoleChange) (l : String) (label : s.dcdw_label ≡ some l)
      (differs : r.dcdw_label ≢ some l)
      (free : find (record { school_id = r.school_id; dcdw_label = l }) d.roles ≡ none)
      (old : c.old_role ≡ role_of r)
      (new : c.new_role ≡ some (record { school_id = r.school_id; dcdw_label = l })) where
    candidate : RoleKey
    candidate = record { school_id = r.school_id; dcdw_label = l }

    moved_roles :
        (key : RoleKey) (id : String)
        → option_beq (find key (commit d r s c).roles) (some id)
          ≡ has_role key id (insert r.device_id s d.records)
    unfolding commit emplace contains candidate
    moved_roles key id = elim (Option-cases r.dcdw_label) [
      | inl e ↦ ground (
        arith,
        has_role-insert key id,
        v.roles_exact key id,
        v.roles_exact key r.device_id,
        find-insert candidate key r.device_id d.roles,
        role_key_eq.beq_iff candidate key,
        eq_iff r.device_id id,
      )
      | inr (o, e) ↦ ground (
        arith,
        has_role-insert key id,
        v.roles_exact key id,
        v.roles_exact key r.device_id,
        find-insert candidate key r.device_id d.roles,
        find-erase (record { school_id = r.school_id; dcdw_label = o }) key
            (insert candidate r.device_id d.roles),
        role_key_eq.beq_iff candidate key,
        role_key_eq.beq_iff (record { school_id = r.school_id; dcdw_label = o }) key,
        option_beq_iff (find key d.roles) (some id),
        option_beq_iff (find key d.roles) (some r.device_id),
        eq_iff r.device_id id,
      )
    ]

    named : NamedRoleKey
    named = record { school_name = r.school_name; dcdw_label = l }

    moved_names :
        (key : NamedRoleKey) (id : String)
        → count id (ids_at key (commit d r s c).named_roles)
          ≡ (if has_name key id (insert r.device_id s d.records) then 1 else 0)
    unfolding commit add_named_role remove_named_role named
    moved_names key id = elim (Option-cases r.dcdw_label) [
      | inl e ↦ ground (
        arith,
        has_name-insert key id,
        v.names_exact key id,
        count-push_name named key r.device_id id d.named_roles,
        named_role_key_eq.beq_iff named key,
        eq_iff r.device_id id,
      )
      | inr (o, e) ↦ ground (
        arith,
        has_name-insert key id,
        v.names_exact key id,
        count-push_name named key r.device_id id (drop_name (old_name o) r.device_id d.named_roles),
        count-drop_name (old_name o) key r.device_id id d.named_roles,
        named_role_key_eq.beq_iff named key,
        named_role_key_eq.beq_iff (old_name o) key,
        eq_iff r.device_id id,
      )
    ]
      where
        old_name : String → NamedRoleKey
        old_name o = record { school_name = r.school_name; dcdw_label = o }

    commit_moves : IsConsistent (commit d r s c)
    unfolding commit
    commit_moves = record {
      unique = insert-IsUnique r.device_id s d.records v.unique;
      keyed = records-keyed;
      roles_exact = moved_roles;
      names_exact = moved_names;
    }

  pub commit-IsConsistent :
      (c : RoleChange) → s.dcdw_label ≡ c.label → Fits d r c → IsConsistent (commit d r s c)
  commit-IsConsistent c e (stays l o n) = commit_stays c (e ∙ l) o n
  commit-IsConsistent c e (moves l label differs free old new) =
      commit_moves c l (e ∙ label) differs free old new

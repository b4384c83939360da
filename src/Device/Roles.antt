-- ===== src/Device/Roles.antt =====
-- core/device/device_registry.cpp: the two indexes by role label, and what a claimed label changes.
use cns_server.Base.{
  String, Bool, true, false, List, [], ◌∷◌, ◌++◌, Option, none, some, ◌==◌, if◌then◌else◌, is_some,
  ℕ_eq, string_eq, option_eq,
}
use cns_server.Base.Map.{Map, find, insert, erase, emplace}
use cns_server.Device.{
  DeviceRecord, DeviceRegistry, RoleKey, NamedRoleKey, role_key_eq, named_role_key_eq,
}

-- std::erase(ids, id)
unfoldable pub remove_id : String → List String → List String
remove_id id [] = []
remove_id id (x ∷ xs) = let rest = remove_id id xs in if x == id then rest else x ∷ rest

abbrev pub or_empty : Option (List String) → List String
or_empty none = []
or_empty (some ids) = ids

-- named_roles_[key].push_back(id), where `[]` makes an empty list for a new key
unfoldable pub push_name :
    NamedRoleKey → String → Map NamedRoleKey (List String) → Map NamedRoleKey (List String)
push_name key id m = insert key (or_empty (find key m) ++ id ∷ []) m

unfoldable pub put_names :
    NamedRoleKey → List String → Map NamedRoleKey (List String) → Map NamedRoleKey (List String)
put_names key [] m = erase key m
put_names key (id ∷ ids) m = insert key (id ∷ ids) m

unfoldable pub drop_name :
    NamedRoleKey → String → Map NamedRoleKey (List String) → Map NamedRoleKey (List String)
unfolding put_names
drop_name key id m = elim (find key m) [ none ↦ m | some ids ↦ put_names key (remove_id id ids) m ]

-- What a claimed label does to the record and to the index of roles.
pub record RoleChange : Type 0 where
  pub label : Option String
  pub old_role : Option RoleKey
  pub new_role : Option RoleKey
  pub conflict : Bool

module _ {J : Type 0} where
  -- The keys of a record in the two indexes.
  abbrev pub role_of : DeviceRecord J → Option RoleKey
  role_of r = elim r.dcdw_label [
    | none ↦ none
    | some l ↦ some (record { school_id = r.school_id; dcdw_label = l })
  ]

  abbrev pub name_of : DeviceRecord J → Option NamedRoleKey
  name_of r = elim r.dcdw_label [
    | none ↦ none
    | some l ↦ some (record { school_name = r.school_name; dcdw_label = l })
  ]

  -- AddNamedRole
  unfoldable pub add_named_role :
      DeviceRecord J → Map NamedRoleKey (List String) → Map NamedRoleKey (List String)
  add_named_role r m = elim (name_of r) [ none ↦ m | some key ↦ push_name key r.device_id m ]

  -- RemoveNamedRole
  unfoldable pub remove_named_role :
      DeviceRecord J → Map NamedRoleKey (List String) → Map NamedRoleKey (List String)
  remove_named_role r m = elim (name_of r) [ none ↦ m | some key ↦ drop_name key r.device_id m ]

  abbrev pub keep_role : DeviceRecord J → RoleChange
  keep_role r = record { label = r.dcdw_label; old_role = none; new_role = none; conflict = false }

  -- The inner `if (owner != roles_.end() && owner->second != record.device_id)`.
  unfoldable pub claim_owned : DeviceRecord J → RoleKey → Option String → RoleChange
  claim_owned r candidate none = record {
    label = some candidate.dcdw_label;
    old_role = role_of r;
    new_role = some candidate;
    conflict = false;
  }
  claim_owned r candidate (some owner) =
      if owner == r.device_id
      then record {
        label = some candidate.dcdw_label;
        old_role = role_of r;
        new_role = none;
        conflict = false;
      }
      else record { label = r.dcdw_label; old_role = none; new_role = none; conflict = true }

  unfoldable pub claim_role : DeviceRegistry J → DeviceRecord J → String → RoleChange
  unfolding claim_owned
  claim_role d r label =
      let candidate : RoleKey = record { school_id = r.school_id; dcdw_label = label } in
      claim_owned r candidate (find candidate d.roles)

  -- A registration may move a role; telemetry only gives one to a device without a role.
  unfoldable pub registration_role : DeviceRegistry J → DeviceRecord J → Option String → RoleChange
  unfolding claim_role
  registration_role d r none = keep_role r
  registration_role d r (some label) =
      if some label == r.dcdw_label then keep_role r else claim_role d r label

  unfoldable pub telemetry_role : DeviceRegistry J → DeviceRecord J → Option String → RoleChange
  unfolding claim_role
  telemetry_role d r none = keep_role r
  telemetry_role d r (some label) =
      if is_some r.dcdw_label then keep_role r else claim_role d r label

  -- The writes at the end of both operations, in their order. The old role is released from the
  -- index by name before the record is swapped, and from the index by school after it.
  unfoldable pub commit :
      DeviceRegistry J → DeviceRecord J → DeviceRecord J → RoleChange → DeviceRegistry J
  commit d r new_record change = record {
    records = insert r.device_id new_record d.records;
    roles = elim change.old_role [ none ↦ added_roles | some key ↦ erase key added_roles ];
    named_roles = if is_some change.new_role then add_named_role new_record dropped else dropped;
  }
    where
      added_roles : Map RoleKey String
      added_roles = elim change.new_role [
        | none ↦ d.roles
        | some key ↦ emplace key r.device_id d.roles
      ]

      dropped : Map NamedRoleKey (List String)
      dropped = if is_some change.old_role then remove_named_role r d.named_roles else d.named_roles

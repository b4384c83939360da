-- ===== src/Registry/Lookup.antt =====
-- What the lookups by role answer on a consistent directory.
use mathlib.Core.Path.{subst}
use text.Mathlib.TextEquality.{eq_iff}
use cns_server.Base.{
  sym, ℕ, ◌≤◌, ◌<◌, ◌≡◌, ◌≢◌, ◌↔◌, ◌∙◌, refl, String, true, List, [], ◌∷◌, some, arith, ℕ_eq,
  string_eq, option_eq, option_beq_iff, Option-cases, inl, inr,
}
use cns_server.Base.Map.{find}
use cns_server.Device.{
  DeviceRecord, DeviceRegistry, RoleKey, NamedRoleKey, role_key_eq, named_role_key_eq,
}
use cns_server.Device.Roles.{role_of, name_of}
use cns_server.Device.Index.{count, ids_at}
use cns_server.Registry.{
  find_device, find_by_school_and_label, find_by_school_name_and_label,
  is_school_name_and_label_ambiguous,
}
use cns_server.Registry.Invariant.{IsConsistent, find_self}

module _ {J : Type 0} (d : DeviceRegistry J) (v : IsConsistent d) where
  -- The device stands in the directory and has the role in the school.
  abbrev pub HasRole : DeviceRecord J → ℕ → String → Type 0
  HasRole r school label =
      (find_device d r.device_id ≡ some r) × (r.school_id ≡ school) × (r.dcdw_label ≡ some label)

  abbrev pub HasName : DeviceRecord J → String → String → Type 0
  HasName r school label =
      (find_device d r.device_id ≡ some r) × (r.school_name ≡ school) × (r.dcdw_label ≡ some label)

  found_role :
      (school : ℕ) (label : String) (r : DeviceRecord J)
      → find_by_school_and_label d school label ≡ some r
      → HasRole r school label
  unfolding find_by_school_and_label find_device
  found_role school label r e = elim (Option-cases (find key d.roles)) [
    | inl none_there ↦ ground arith
    | inr (id, there) ↦
        let at_id : find id d.records ≡ some r = ground arith in
        let self = find_self d id r v at_id in
        (
          self,
          ground (
            arith,
            v.roles_exact key id,
            option_beq_iff (some id) (some id),
            option_beq_iff (role_of r) (some key),
          ),
          ground (
            arith,
            v.roles_exact key id,
            option_beq_iff (some id) (some id),
            option_beq_iff (role_of r) (some key),
          ),
        )
  ]
    where
      key : RoleKey
      key = record { school_id = school; dcdw_label = label }

  finds_role :
      (school : ℕ) (label : String) (r : DeviceRecord J)
      → HasRole r school label
      → find_by_school_and_label d school label ≡ some r
  unfolding find_by_school_and_label find_device
  finds_role school label r (here, s, l) = ground (
    arith,
    v.roles_exact key r.device_id,
    option_beq_iff (find key d.roles) (some r.device_id),
    option_beq_iff (role_of r) (some key),
  )
    where
      key : RoleKey
      key = record { school_id = school; dcdw_label = label }

  -- On a consistent directory, the lookup by school number and label returns a device exactly when
  -- that device stands in the directory with this school and this label.
  pub find_by_school_and_label_exact :
      (school : ℕ) (label : String) (r : DeviceRecord J)
      → (find_by_school_and_label d school label ≡ some r) ↔ HasRole r school label
  find_by_school_and_label_exact school label r =
      (found_role school label r, finds_role school label r)

  module _ (school label : String) where
    name_key : NamedRoleKey
    name_key = record { school_name = school; dcdw_label = label }

    listed :
        (id : String)
        → 0 < count id (ids_at name_key d.named_roles)
        → (r : DeviceRecord J) × HasName r school label × (r.device_id ≡ id)
    unfolding find_device name_key
    listed id h = elim (Option-cases (find id d.records)) [
      | inl e ↦ absurd (ground (arith, v.names_exact name_key id))
      | inr (r, e) ↦ (
        r,
        (
          find_self d id r v e,
          ground (arith, v.names_exact name_key id, option_beq_iff (name_of r) (some name_key)),
          ground (arith, v.names_exact name_key id, option_beq_iff (name_of r) (some name_key)),
        ),
        v.keyed id r e,
      )
    ]

    lists :
        (r : DeviceRecord J)
        → HasName r school label
        → count r.device_id (ids_at name_key d.named_roles) ≡ 1
    unfolding find_device name_key
    lists r (here, s, l) =
        ground
          (arith, v.names_exact name_key r.device_id, option_beq_iff (name_of r) (some name_key))

    once : (id : String) → count id (ids_at name_key d.named_roles) ≤ 1
    once id = ground (arith, v.names_exact name_key id)

    -- What the list of ids means for the two lookups.
    data Named (ids : List String) : Type 0 where
      nobody : ids ≡ [] → ((s : DeviceRecord J) → ¬ HasName s school label) → Named ids
      single :
          (r : DeviceRecord J)
          → ids ≡ r.device_id ∷ []
          → HasName r school label
          → ((s : DeviceRecord J) → HasName s school label → s.device_id ≡ r.device_id)
          → Named ids
      several :
          (r s : DeviceRecord J) (rest : List String)
          → ids ≡ r.device_id ∷ s.device_id ∷ rest
          → HasName r school label
          → HasName s school label
          → r.device_id ≢ s.device_id
          → Named ids

    classify : (ids : List String) → ids_at name_key d.named_roles ≡ ids → Named ids
    unfolding count
    classify [] e = nobody refl (λ s h. ground (arith, lists s h))
    classify (x ∷ []) e =
        let (r, h, p) = listed x (ground (arith, eq_iff x x)) in
        single r (cc) h (λ s k. ground (arith, lists s k, eq_iff x s.device_id))
    classify (x ∷ y ∷ ids) e =
        let (r, h, p) = listed x (ground (arith, eq_iff x x)) in
        let (s, k, q) = listed y (ground (arith, eq_iff y y)) in
        several r s ids (cc) h k (λ same. ground (arith, once x, eq_iff x x, eq_iff y x))

    -- The device is the only one with this name and label.
    abbrev pub IsOnly : DeviceRecord J → Type 0
    IsOnly r =
        HasName r school label
        × ((s : DeviceRecord J) → HasName s school label → s.device_id ≡ r.device_id)

    by_name :
        (ids : List String)
        → ids_at name_key d.named_roles ≡ ids
        → Named ids
        → (r : DeviceRecord J) → (find_by_school_name_and_label d school label ≡ some r) ↔ IsOnly r
    unfolding find_by_school_name_and_label name_key
    by_name ids e (nobody p none_has) r = (λ f. absurd (ground arith), λ o. absurd (none_has r o.0))
    by_name ids e (single a p h unique) r = (
      λ f. subst IsOnly (single_found a (ground arith) f) (h, unique),
      λ o. ground (arith, unique r o.0),
    )
      where
        single_found :
            (a : DeviceRecord J)
            → find_by_school_name_and_label d school label ≡ some a
            → find_by_school_name_and_label d school label ≡ some r
            → a ≡ r
        single_found a g f = cc
    by_name ids e (several a b rest p h k ne) r =
        (λ f. absurd (ground arith), λ o. absurd (ne (o.1 a h ∙ sym (o.1 b k))))

    abbrev pub IsShared : Type 0
    IsShared =
        (r : DeviceRecord J) × (s : DeviceRecord J) × HasName r school label
        × HasName s school label
        × (r.device_id ≢ s.device_id)

    ambiguity :
        (ids : List String)
        → ids_at name_key d.named_roles ≡ ids
        → Named ids
        → (is_school_name_and_label_ambiguous d school label ≡ true) ↔ IsShared
    unfolding is_school_name_and_label_ambiguous name_key
    ambiguity ids e (nobody p none_has) =
        (λ h. absurd (ground arith), λ (r, s, h, k, ne). absurd (none_has r h))
    ambiguity ids e (single r p h unique) = (
      λ h. absurd (ground arith),
      λ (a, b, h, k, ne). absurd (ne (unique a h ∙ sym (unique b k))),
    )
    ambiguity ids e (several r s rest p h k ne) = (λ _. (r, s, h, k, ne), λ _. ground arith)

    -- On a consistent directory, the lookup by school name and label returns a device exactly when
    -- it is the only one with this name and label; and the name and label are reported ambiguous
    -- exactly when two different devices have them.
    pub find_by_school_name_and_label_exact :
        ((r : DeviceRecord J) → (find_by_school_name_and_label d school label ≡ some r) ↔ IsOnly r)
        × ((is_school_name_and_label_ambiguous d school label ≡ true) ↔ IsShared)
    find_by_school_name_and_label_exact =
        let ids = ids_at name_key d.named_roles in
        let named = classify ids refl in (by_name ids refl named, ambiguity ids refl named)

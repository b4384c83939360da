-- ===== src/Device/Index.antt =====
-- How the two indexes by role label answer after each of their writes.
use text.Mathlib.TextEquality.{eq_iff}
use cns_server.Base.{
  ℕ, ◌+◌, ◌≡◌, String, List, [], ◌∷◌, ◌++◌, ◌==◌, if◌then◌else◌, arith, ℕ_eq, string_eq,
  Option-cases, inl, inr,
}
use cns_server.Base.Map.{Map, find, find-insert, find-erase}
use cns_server.Device.{NamedRoleKey, role_key_eq, named_role_key_eq}
use cns_server.Device.Roles.{or_empty, remove_id, push_name, put_names, drop_name}

-- How often a device stands in a list of names.
unfoldable pub count : String → List String → ℕ
count id [] = 0
count id (x ∷ xs) = (if x == id then 1 else 0) + count id xs

pub count-append :
    (id : String) (xs : List String) (x : String)
    → count id (xs ++ x ∷ []) ≡ count id xs + (if x == id then 1 else 0)
unfolding count
count-append id [] x = omega arith
count-append id (y ∷ xs) x = omega (arith, count-append id xs x)

pub count-remove_id :
    (id j : String) (xs : List String)
    → count j (remove_id id xs) ≡ (if id == j then 0 else count j xs)
unfolding count remove_id
count-remove_id id j [] = ground arith
count-remove_id id j (x ∷ xs) =
    ground (arith, count-remove_id id j xs, eq_iff x id, eq_iff x j, eq_iff id j)

abbrev pub ids_at : NamedRoleKey → Map NamedRoleKey (List String) → List String
ids_at key m = or_empty (find key m)

module _ (key q : NamedRoleKey) (id j : String) (m : Map NamedRoleKey (List String)) where
  pub count-push_name : count j (ids_at q (push_name key id m)) ≡ (
      if key == q then count j (ids_at q m) + (if id == j then 1 else 0) else count j (ids_at q m))
  unfolding push_name
  count-push_name = ground (
    arith,
    find-insert key q (or_empty (find key m) ++ id ∷ []) m,
    count-append j (ids_at q m) id,
    named_role_key_eq.beq_iff key q,
  )

  count-put_names :
      (ids : List String)
      → count j (ids_at q (put_names key ids m))
        ≡ (if key == q then count j ids else count j (ids_at q m))
  unfolding put_names count
  count-put_names [] = ground (arith, find-erase key q m)
  count-put_names (x ∷ ids) = ground (arith, find-insert key q (x ∷ ids) m)

  pub count-drop_name :
      count j (ids_at q (drop_name key id m))
      ≡ (if key == q then (if id == j then 0 else count j (ids_at q m)) else count j (ids_at q m))
  unfolding drop_name count
  count-drop_name = elim (Option-cases (find key m)) [
    | inl e ↦ ground (arith, named_role_key_eq.beq_iff key q)
    | inr (ids, e) ↦
        rw (e, drop_name)
          (ground (
            arith,
            count-put_names (remove_id id ids),
            count-remove_id id j ids,
            named_role_key_eq.beq_iff key q,
          ))
  ]

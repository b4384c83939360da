-- ===== src/Base/Map.antt =====
-- `std::unordered_map` and `std::map` as association lists: `find` answers by key, writes replace
-- in place or append, and an iteration goes through the entries. The hash order is not modelled.
use cns_server.Base.Tests.{Eq, ◌==◌, if◌then◌else◌, eq_refl, is_some}
use cns_server.Base.Lists.{In}
use mathlib.Core.Path.{◌≡◌, refl}
use mathlib.Core.Bool.{Bool}
use mathlib.Core.Logic.{inl, inr}
use mathlib.Core.Option
use mathlib.Core.Option.{Option, none, some}
use mathlib.Core.List.{List, [], ◌∷◌}
use native.Mathlib.Omega.{arith}

abbrev pub Map {ℓ κ} : Type ℓ → Type κ → Type (ℓ ⊔ κ)
Map K V = List (K × V)

module _ {ℓ κ} {K : Type ℓ} {V : Type κ} ⦃e : Eq K⦄ where
  -- m.find(k)
  unfoldable pub find : K → Map K V → Option V
  find k [] = none
  find k ((j, v) ∷ m) = if j == k then some v else find k m

  -- m.insert_or_assign(k, v), and m[k] = v
  unfoldable pub insert : K → V → Map K V → Map K V
  insert k v [] = (k, v) ∷ []
  insert k v ((j, w) ∷ m) = if j == k then (j, v) ∷ m else (j, w) ∷ insert k v m

  -- m.erase(k)
  unfoldable pub erase : K → Map K V → Map K V
  erase k [] = []
  erase k ((j, w) ∷ m) = let rest = erase k m in if j == k then rest else (j, w) ∷ rest

  -- m.contains(k)
  unfoldable pub contains : K → Map K V → Bool
  contains k m = is_some (find k m)

  -- m.emplace(k, v), which keeps an entry that is there
  unfoldable pub emplace : K → V → Map K V → Map K V
  emplace k v m = if contains k m then m else insert k v m

  -- The values, in the order of an iteration.
  unfoldable pub values : Map K V → List V
  values [] = []
  values ((j, w) ∷ m) = w ∷ values m

  -- A loop `for (auto& [k, v] : m)` that replaces each value.
  unfoldable pub map_values : (V → V) → Map K V → Map K V
  map_values f [] = []
  map_values f ((j, w) ∷ m) = (j, f w) ∷ map_values f m

  pub find-map_values :
      (f : V → V) (k : K) (m : Map K V) → find k (map_values f m) ≡ Option.map f (find k m)
  unfolding find map_values
  find-map_values f k [] = refl
  find-map_values f k ((i, w) ∷ m) = ground (arith, find-map_values f k m)

  pub find-insert :
      (k j : K) (v : V) (m : Map K V)
      → find j (insert k v m) ≡ (if k == j then some v else find j m)
  unfolding find insert
  find-insert k j v [] = refl
  find-insert k j v ((i, w) ∷ m) =
      ground (arith, e.beq_iff k j, e.beq_iff i k, e.beq_iff i j, find-insert k j v m)

  pub find-erase :
      (k j : K) (m : Map K V) → find j (erase k m) ≡ (if k == j then none else find j m)
  unfolding find erase
  find-erase k j [] = ground arith
  find-erase k j ((i, w) ∷ m) =
      ground (arith, e.beq_iff k j, e.beq_iff i k, e.beq_iff i j, find-erase k j m)

  -- No key stands twice, as in a map.
  abbrev pub IsUnique : Map K V → Type κ
  IsUnique [] = Unit
  IsUnique ((k, v) ∷ m) = (find k m ≡ none) × IsUnique m

  pub insert-IsUnique : (k : K) (v : V) (m : Map K V) → IsUnique m → IsUnique (insert k v m)
  unfolding find insert
  insert-IsUnique k v [] u = (refl, tt)
  insert-IsUnique k v ((i, w) ∷ m) u =
      ground (arith, e.beq_iff i k, find-insert k i v m, e.beq_iff k i, insert-IsUnique k v m u.1)

  pub erase-IsUnique : (k : K) (m : Map K V) → IsUnique m → IsUnique (erase k m)
  unfolding find erase
  erase-IsUnique k [] u = tt
  erase-IsUnique k ((i, w) ∷ m) u = ground (arith, find-erase k i m, erase-IsUnique k m u.1)

  pub map_values-IsUnique : (f : V → V) (m : Map K V) → IsUnique m → IsUnique (map_values f m)
  unfolding find map_values
  map_values-IsUnique f [] u = tt
  map_values-IsUnique f ((i, w) ∷ m) u =
      ground (arith, find-map_values f i m, map_values-IsUnique f m u.1)

module _ {K V : Type 0} ⦃e : Eq K⦄ where
  pub In-values : (k : K) (v : V) (m : Map K V) → find k m ≡ some v → In v (values m)
  unfolding find values
  In-values k v [] h = cc
  In-values k v ((i, w) ∷ m) h = ground (arith, In-values k v m)

  pub find_of-In :
      (v : V) (m : Map K V) → IsUnique m → In v (values m) → (k : K) × (find k m ≡ some v)
  unfolding find values
  find_of-In v [] u h = elim h [ ]
  find_of-In v ((i, w) ∷ m) u (inl p) = (i, ground (arith, e.beq_iff i i))
  find_of-In v ((i, w) ∷ m) u (inr h) =
      let (k, p) = find_of-In v m u.1 h in (k, ground (arith, e.beq_iff i k))

pub ruleset map_laws = (find-insert, find-erase, eq_refl)

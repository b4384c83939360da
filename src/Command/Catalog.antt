-- ===== src/Command/Catalog.antt =====
-- core/command/command_router.cpp: what the catalog holds after a load.
use mathlib.Core.Path.{subst}
use cns_server.Base.{
  ◌≡◌, ◌≢◌, ◌↔◌, ◌⊎◌, inl, inr, refl, String, List, [], ◌∷◌, Option, none, some, ◌==◌, Expected, ok,
  unexpected, string_eq, arith, In, Bool-cases, Option-cases, if◌then◌else◌,
}
use cns_server.Base.Map.{Map, find, insert, contains, find-insert}
use cns_server.Command.Router.{
  CommandSource, is_device, source_error, load_sources, load_catalog, find_source,
}
use text.Mathlib.TextEquality.{eq_iff}

-- The source has an id; a device source is linked to the device of this id, another to none.
abbrev pub IsProper : CommandSource → Type 0
IsProper s =
    (s.source_id ≢ "") × (s.device_id ≡ (if is_device s.kind then some s.source_id else none))

proper : (s : CommandSource) → source_error s ≡ none → IsProper s
unfolding source_error
proper s e = (λ p. ground (arith, eq_iff s.source_id ""), linked s.device_id refl)
  where
    linked :
        (o : Option String)
        → s.device_id ≡ o
        → s.device_id ≡ (if is_device s.kind then some s.source_id else none)
    linked none p = ground arith
    linked (some d) p = ground (arith, eq_iff d s.source_id)

loaded_exact :
    (sources : List CommandSource) (loaded m : Map String CommandSource)
    → load_sources loaded sources ≡ ok m
    → ((id : String) (s : CommandSource)
        → (find id m ≡ some s) ↔ ((find id loaded ≡ some s) ⊎ (In s sources × (s.source_id ≡ id))))
      × ((s : CommandSource) → In s sources → IsProper s)
unfolding load_sources contains
loaded_exact [] loaded m h = (λ id s. (λ e. inl (cc), λ w. ground arith), λ s i. elim i [ ])
loaded_exact (x ∷ sources) loaded m h = elim (Option-cases (source_error x)) [
  | inr (message, e) ↦ absurd (ground arith)
  | inl e ↦ elim (Option-cases (find x.source_id loaded)) [
    | inr (y, f) ↦ absurd (ground arith)
    | inl f ↦
        let (exact, all) = loaded_exact sources (insert x.source_id x loaded) m (ground arith) in
        (
          λ id s. (λ g. entered id s f ((exact id s).0 g), λ w. (exact id s).1 (kept id s f w)),
          λ s i. proper_in s e all i,
        )
  ]
]
  where
    proper_in :
        (s : CommandSource)
        → source_error x ≡ none
        → ((s : CommandSource) → In s sources → IsProper s)
        → In s (x ∷ sources)
        → IsProper s
    proper_in s e all (inl p) = subst IsProper p (proper x e)
    proper_in s e all (inr i) = all s i

    entered :
        (id : String) (s : CommandSource)
        → find x.source_id loaded ≡ none
        → (find id (insert x.source_id x loaded) ≡ some s) ⊎ (In s sources × (s.source_id ≡ id))
        → (find id loaded ≡ some s) ⊎ (In s (x ∷ sources) × (s.source_id ≡ id))
    entered id s f (inr (i, p)) = inr (inr i, p)
    entered id s f (inl g) = elim (Bool-cases (x.source_id == id)) [
      | inl same ↦
          let q : x ≡ s = ground (arith, find-insert x.source_id id x loaded) in
          inr (inl q, ground (arith, eq_iff x.source_id id))
      | inr other ↦ inl (ground (arith, find-insert x.source_id id x loaded))
    ]

    kept :
        (id : String) (s : CommandSource)
        → find x.source_id loaded ≡ none
        → (find id loaded ≡ some s) ⊎ (In s (x ∷ sources) × (s.source_id ≡ id))
        → (find id (insert x.source_id x loaded) ≡ some s) ⊎ (In s sources × (s.source_id ≡ id))
    kept id s f (inr (inr i, p)) = inr (i, p)
    kept id s f (inr (inl q, p)) =
        let at : x.source_id ≡ id = cc in
        inl (ground (arith, find-insert x.source_id id x loaded, eq_iff x.source_id id))
    kept id s f (inl g) =
        inl (ground (arith, find-insert x.source_id id x loaded, eq_iff x.source_id id))

-- A load either reports an error and keeps the catalog, or the new catalog holds exactly the given
-- sources, each under its id, and each of them has an id and is linked to the device of this id
-- when it is a device, and to no device otherwise.
pub load_catalog_exact :
    (catalog : Map String CommandSource) (sources : List CommandSource)
    → let after = load_catalog catalog sources in
      ((after.1 ≢ none) × (after.0 ≡ catalog))
      ⊎ ((after.1 ≡ none)
          × ((id : String) (s : CommandSource)
              → (find_source after.0 id ≡ some s) ↔ (In s sources × (s.source_id ≡ id)))
          × ((s : CommandSource) → In s sources → IsProper s))
unfolding load_catalog find_source find
load_catalog_exact catalog sources = by_result (load_sources [] sources) refl
  where
    emptied :
        (id : String) (s : CommandSource)
        → (◌≡◌ {A = Option CommandSource} none (some s)) ⊎ (In s sources × (s.source_id ≡ id))
        → In s sources × (s.source_id ≡ id)
    emptied id s (inl e) = absurd (cc)
    emptied id s (inr w) = w

    by_result :
        (r : Expected String (Map String CommandSource))
        → load_sources [] sources ≡ r
        → let after = load_catalog catalog sources in
          ((after.1 ≢ none) × (after.0 ≡ catalog))
          ⊎ ((after.1 ≡ none)
              × ((id : String) (s : CommandSource)
                  → (find_source after.0 id ≡ some s) ↔ (In s sources × (s.source_id ≡ id)))
              × ((s : CommandSource) → In s sources → IsProper s))
    by_result (unexpected message) e = inl (λ h. ground arith, ground arith)
    by_result (ok m) e =
        let (exact, all) = loaded_exact sources [] m e in
        inr (
          ground arith,
          λ id s. (
            λ g. emptied id s ((exact id s).0 (ground arith)),
            λ w. let there = (exact id s).1 (inr w) in ground arith,
          ),
          all,
        )

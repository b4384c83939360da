-- ===== src/Base/Lists.antt =====
-- Lists measured by native numbers, and predicates on lists by recursion.
use Prim.Native.Nat.{ℕ, suc, ◌+◌}
use mathlib.Core.Path.{◌≡◌, refl, sym}
use mathlib.Core.List.{List, [], ◌∷◌, ◌++◌}
use mathlib.Core.Logic.{◌⊎◌, ◌↔◌, inl, inr}
use mathlib.Core.Bool.{Bool, true}
use cns_server.Base.Tests.{if◌then◌else◌, Bool-cases}
use native.Mathlib.Omega.{arith}

module _ {ℓ} {A : Type ℓ} where
  abbrev pub length : List A → ℕ
  length [] = 0
  length (x ∷ xs) = suc (length xs)

  pub length-append : (xs ys : List A) → length (xs ++ ys) ≡ length xs + length ys
  length-append [] ys = omega arith
  length-append (x ∷ xs) ys = omega (arith, length-append xs ys)

abbrev pub All {ℓ κ} : {A : Type ℓ} → (A → Type κ) → List A → Type κ
All P [] = Unit
All P (x ∷ xs) = P x × All P xs

module _ {A : Type 0} where
  -- Occurrence as a sum, which the tactics take apart.
  abbrev pub In : A → List A → Type 0
  In a [] = ⊥
  In a (x ∷ xs) = (x ≡ a) ⊎ In a xs

  pub In-append_left : (a : A) (xs ys : List A) → In a xs → In a (xs ++ ys)
  In-append_left a [] ys h = elim h [ ]
  In-append_left a (x ∷ xs) ys (inl e) = inl e
  In-append_left a (x ∷ xs) ys (inr h) = inr (In-append_left a xs ys h)

  pub In-append_right : (a : A) (xs ys : List A) → In a ys → In a (xs ++ ys)
  In-append_right a [] ys h = h
  In-append_right a (x ∷ xs) ys h = inr (In-append_right a xs ys h)

  pub All-In : (P : A → Type 0) {a : A} (xs : List A) → All P xs → In a xs → P a
  All-In P [] h m = elim m [ ]
  All-In P (x ∷ xs) h (inl e) = rw e at h.0
  All-In P (x ∷ xs) h (inr m) = All-In P xs h.1 m

-- A loop that skips the elements failing a test, and pushes a value for each other one.
unfoldable pub collect : {A B : Type 0} → (A → Bool) → (A → B) → List A → List B
collect test make [] = []
collect test make (x ∷ xs) =
    let rest = collect test make xs in if test x then make x ∷ rest else rest

module _ {A B : Type 0} (test : A → Bool) (make : A → B) (b : B) where
  -- The value is made from an element that passes the test.
  abbrev pub Made : List A → Type 0
  Made xs = (a : A) × In a xs × (test a ≡ true) × (b ≡ make a)

  later : (x : A) (xs : List A) → Made xs → Made (x ∷ xs)
  later x xs (a, i, t, p) = (a, inr i, t, p)

  In-collect : (xs : List A) → In b (collect test make xs) → Made xs
  unfolding collect
  In-collect [] h = elim h [ ]
  In-collect (x ∷ xs) h = elim (Bool-cases (test x)) [
    | inl e ↦ first (In-collect xs) e (rw (e, collect) at h)
    | inr e ↦ later x xs (In-collect xs (rw (e, collect) at h))
  ]
    where
      first :
          (In b (collect test make xs) → Made xs)
          → test x ≡ true
          → In b (make x ∷ collect test make xs)
          → Made (x ∷ xs)
      first ih e (inl p) = (x, inl refl, e, sym p)
      first ih e (inr i) = later x xs (ih i)

  collect-In : (xs : List A) → Made xs → In b (collect test make xs)
  unfolding collect
  collect-In [] (a, i, t, p) = elim i [ ]
  collect-In (x ∷ xs) (a, inl i, t, p) =
      let live : test x ≡ true = cc in let made : make x ≡ b = cc in rw (live, collect) (inl made)
  collect-In (x ∷ xs) (a, inr i, t, p) = ground (arith, collect-In xs (a, i, t, p))

  pub In-collect_iff : (xs : List A) → In b (collect test make xs) ↔ Made xs
  In-collect_iff xs = (In-collect xs, collect-In xs)

-- ===== src/RateLimiter.antt =====
-- core/runtime/rate_limiter.{hpp,cpp}: at most one emission per key and window. Times are ticks of the
-- steady clock; `now - last < window` is written without the subtraction.
pub mod Tests
use mathlib.Core.Path.{subst}
use cns_server.Base.{
  ap, ◌∙◌, ◌&&◌, ◌↔◌, ℕ, ◌+◌, ◌≤◌, ◌≡◌, refl, String, Bool, true, false, List, [], ◌∷◌, Option,
  none, some, ◌==◌, ltb, if◌then◌else◌, string_eq, arith, eq_refl, Bool-cases, inl, inr,
}
use cns_server.Base.Map.{Map, find, insert, find-insert}
use text.Mathlib.TextEquality.{eq_iff}

unfoldable pub emitted_within : ℕ → ℕ → Option ℕ → Bool
emitted_within window now none = false
emitted_within window now (some last) = ltb now (last + window)

-- ShouldEmit
unfoldable pub should_emit : ℕ → String → ℕ → Map String ℕ → Map String ℕ × Bool
unfolding emitted_within
should_emit window key now last_emissions =
    if emitted_within window now (find key last_emissions)
    then (last_emissions, false)
    else (insert key now last_emissions, true)

-- The state after a sequence of calls, and the times at which a key was let through.
unfoldable pub run_calls : ℕ → List (String × ℕ) → Map String ℕ → Map String ℕ
run_calls window [] s = s
run_calls window ((key, now) ∷ calls) s = run_calls window calls (should_emit window key now s).0

unfoldable pub emissions : ℕ → String → List (String × ℕ) → Map String ℕ → List ℕ
emissions window key [] s = []
emissions window key ((k, now) ∷ calls) s =
    let answer = should_emit window k now s in
    let rest = emissions window key calls answer.0 in
    if k == key then (if answer.1 then now ∷ rest else rest) else rest

-- Each time is a window or more after the one before it.
abbrev pub IsSpaced : ℕ → Option ℕ → List ℕ → Type 0
IsSpaced window last [] = Unit
IsSpaced window none (t ∷ ts) = IsSpaced window (some t) ts
IsSpaced window (some last) (t ∷ ts) = (last + window ≤ t) × IsSpaced window (some t) ts

abbrev pub last_of : Option ℕ → List ℕ → Option ℕ
last_of last [] = last
last_of last (t ∷ ts) = last_of (some t) ts

-- One call in front of a spaced sequence.
one_more :
    (window now : ℕ) (same emits : Bool) (old new last : Option ℕ) (rest : List ℕ)
    → new ≡ (if same && emits then some now else old)
    → (same ≡ true → emits ≡ true → (l : ℕ) → old ≡ some l → l + window ≤ now)
    → IsSpaced window new rest × (last ≡ last_of new rest)
    → let times = if same then (if emits then now ∷ rest else rest) else rest in
      IsSpaced window old times × (last ≡ last_of old times)
one_more window now true true none new last rest e gap (h, p) =
    (subst (λ o. IsSpaced window o rest) e h, p ∙ ap (λ o. last_of o rest) e)
one_more window now true true (some l) new last rest e gap (h, p) = (
  (gap refl refl l refl, subst (λ o. IsSpaced window o rest) e h),
  p ∙ ap (λ o. last_of o rest) e,
)
one_more window now true false old new last rest e gap (h, p) =
    (subst (λ o. IsSpaced window o rest) e h, p ∙ ap (λ o. last_of o rest) e)
one_more window now false emits old new last rest e gap (h, p) =
    (subst (λ o. IsSpaced window o rest) e h, p ∙ ap (λ o. last_of o rest) e)

module _ (window : ℕ) (key : String) where
  find-should_emit :
      (k : String) (now : ℕ) (s : Map String ℕ)
      → find key (should_emit window k now s).0
        ≡ (if k == key && (should_emit window k now s).1 then some now else find key s)
  unfolding should_emit
  find-should_emit k now s = ground (arith, find-insert k key now s, eq_iff k key)

  gap_before :
      (k : String) (now : ℕ) (s : Map String ℕ)
      → (k == key) ≡ true
      → (should_emit window k now s).1 ≡ true
      → (l : ℕ) → find key s ≡ some l
      → l + window ≤ now
  unfolding should_emit emitted_within
  gap_before k now s same e l there = ground (arith, eq_iff k key)

  spaced :
      (calls : List (String × ℕ)) (s : Map String ℕ)
      → IsSpaced window (find key s) (emissions window key calls s)
        × (find key (run_calls window calls s)
            ≡ last_of (find key s) (emissions window key calls s))
  unfolding emissions run_calls
  spaced [] s = (tt, refl)
  spaced ((k, now) ∷ calls) s =
      let answer = should_emit window k now s in
      one_more window now (k == key) answer.1 (find key s) (find key answer.0) _ _
        (find-should_emit k now s) (gap_before k now s) (spaced calls answer.0)

  -- In any sequence of calls on a new limiter, with any times, two emissions of a key that follow
  -- each other are at least a window apart, and a call for the key is let through afterwards
  -- exactly when there was no emission of it or the last one is at least a window ago.
  pub should_emit_exact :
      (calls : List (String × ℕ)) (now : ℕ)
      → let times = emissions window key calls [] in
        IsSpaced window none times
        × (((should_emit window key now (run_calls window calls [])).1 ≡ true)
            ↔ ((l : ℕ) → last_of none times ≡ some l → l + window ≤ now))
  unfolding should_emit emitted_within find
  should_emit_exact calls now =
      let (h, p) = spaced calls [] in
      (
        h,
        (
          λ e l q. ground (arith, gap_before key now (run_calls window calls []) (eq_refl key) e l),
          λ f. emits (last_of none (emissions window key calls [])) p f,
        ),
      )
    where
      emits :
          (o : Option ℕ)
          → find key (run_calls window calls []) ≡ o
          → ((l : ℕ) → o ≡ some l → l + window ≤ now)
          → (should_emit window key now (run_calls window calls [])).1 ≡ true
      emits none p f = ground arith
      emits (some l) p f = ground (arith, f l refl)

-- ===== src/Command/Lifecycle.antt =====
-- core/command/command_state.cpp: the histories that CanTransition allows a command.
use cns_server.Base.{◌≡◌, ◌⊎◌, inl, inr, refl, true, false, List, [], ◌∷◌, In, arith, ◌++◌, ◌≢◌}
use cns_server.Command.{
  CommandStatus, pending, dispatched, in_progress, succeeded, failed, timeout, delivery_uncertain,
  is_terminal, can_transition, command_status_eq,
}

-- The states after the first one, each reached by an allowed transition.
abbrev pub IsHistory : CommandStatus → List CommandStatus → Type 0
IsHistory from [] = Unit
IsHistory from (to ∷ rest) = (can_transition from to ≡ true) × IsHistory to rest

abbrev pub IsFirst : CommandStatus → List CommandStatus → Type 0
IsFirst s [] = ⊥
IsFirst s (x ∷ xs) = x ≡ s

absurd_bool : false ≡ true → ⊥
absurd_bool h = cc

-- Nothing follows an end state.
terminal_is_last :
    (t : CommandStatus) (zs : List CommandStatus) → is_terminal t ≡ true → IsHistory t zs → zs ≡ []
unfolding is_terminal can_transition
terminal_is_last t [] e h = refl
terminal_is_last pending (z ∷ zs) e h = elim (absurd_bool e) [ ]
terminal_is_last dispatched (z ∷ zs) e h = elim (absurd_bool e) [ ]
terminal_is_last in_progress (z ∷ zs) e h = elim (absurd_bool e) [ ]
terminal_is_last succeeded (z ∷ zs) e h = elim (absurd_bool h.0) [ ]
terminal_is_last failed (z ∷ zs) e h = elim (absurd_bool h.0) [ ]
terminal_is_last timeout (z ∷ zs) e h = elim (absurd_bool h.0) [ ]
terminal_is_last delivery_uncertain (z ∷ zs) e h = elim (absurd_bool h.0) [ ]

suffix :
    (from t : CommandStatus) (ys zs : List CommandStatus)
    → IsHistory from (ys ++ t ∷ zs)
    → IsHistory t zs
suffix from t [] zs h = h.1
suffix from t (y ∷ ys) zs h = suffix y t ys zs h.1

-- A command never returns to `pending`, and only `pending` leads to `dispatched`.
target_of :
    (from to : CommandStatus)
    → can_transition from to ≡ true
    → (to ≢ pending) × ((to ≡ dispatched) → from ≡ pending)
unfolding can_transition
target_of from to h = (ground arith, ground arith)

no_return :
    (from : CommandStatus) (xs : List CommandStatus) → IsHistory from xs → (In pending xs → ⊥)
no_return from [] h i = elim i [ ]
no_return from (x ∷ xs) h (inl e) = (target_of from x h.0).0 e
no_return from (x ∷ xs) h (inr i) = no_return x xs h.1 i

single_dispatch :
    (from : CommandStatus) (xs : List CommandStatus)
    → IsHistory from xs
    → from ≢ pending
    → (In dispatched xs → ⊥)
single_dispatch from [] h n i = elim i [ ]
single_dispatch from (x ∷ xs) h n (inl e) = n ((target_of from x h.0).1 e)
single_dispatch from (x ∷ xs) h n (inr i) = single_dispatch x xs h.1 (target_of from x h.0).0 i

alone :
    (t : CommandStatus) (xs : List CommandStatus)
    → xs ≡ []
    → (t ≢ in_progress) × (t ≢ succeeded)
    → (In in_progress (t ∷ xs) ⊎ In succeeded (t ∷ xs) → ⊥)
alone t [] p n w = ground arith
alone t (x ∷ xs) p n w = cc

ended :
    (t : CommandStatus) (xs : List CommandStatus)
    → is_terminal t ≡ true
    → IsHistory t xs
    → (t ≢ in_progress) × (t ≢ succeeded)
    → (In in_progress (t ∷ xs) ⊎ In succeeded (t ∷ xs) → ⊥)
ended t xs e h n w = let done = terminal_is_last t xs e h in alone t xs done n w

starts :
    (xs : List CommandStatus)
    → IsHistory pending xs
    → In in_progress xs ⊎ In succeeded xs
    → (rest : List CommandStatus) × (xs ≡ dispatched ∷ rest) × (In dispatched rest → ⊥)
unfolding can_transition is_terminal
starts [] h (inl i) = elim i [ ]
starts [] h (inr i) = elim i [ ]
starts (pending ∷ xs) h w = elim (absurd_bool h.0) [ ]
starts (dispatched ∷ xs) h w = (xs, refl, single_dispatch dispatched xs h.1 (λ e. cc))
starts (in_progress ∷ xs) h w = elim (absurd_bool h.0) [ ]
starts (succeeded ∷ xs) h w = elim (absurd_bool h.0) [ ]
starts (failed ∷ xs) h w = elim (ended failed xs refl h.1 (λ e. cc, λ e. cc) w) [ ]
starts (timeout ∷ xs) h w = elim (ended timeout xs refl h.1 (λ e. cc, λ e. cc) w) [ ]
starts (delivery_uncertain ∷ xs) h w =
    elim (ended delivery_uncertain xs refl h.1 (λ e. cc, λ e. cc) w) [ ]

-- A history of allowed transitions from `pending` that reaches `in_progress` or `succeeded` starts
-- with `dispatched`, which it never enters again; it never returns to `pending`; and nothing
-- follows an end state in it.
pub history_exact :
    (xs : List CommandStatus)
    → IsHistory pending xs
    → ((In in_progress xs ⊎ In succeeded xs)
        → (rest : List CommandStatus) × (xs ≡ dispatched ∷ rest) × (In dispatched rest → ⊥))
      × (In pending xs → ⊥)
      × ((t : CommandStatus) (ys zs : List CommandStatus)
          → xs ≡ ys ++ t ∷ zs
          → is_terminal t ≡ true
          → zs ≡ [])
history_exact xs h = (
  starts xs h,
  no_return pending xs h,
  λ t ys zs p e. terminal_is_last t zs e (suffix pending t ys zs (rw p at h)),
)

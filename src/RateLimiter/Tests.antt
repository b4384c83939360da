-- ===== src/RateLimiter/Tests.antt =====
-- The limiter at concrete calls, one of them with a time that goes back.
use cns_server.Base.{ℕ, ◌+◌, ◌≤◌, ◌≡◌, ◌↔◌, String, true, List, [], ◌∷◌, none, some}
use cns_server.RateLimiter.{should_emit, run_calls, emissions, IsSpaced, last_of, should_emit_exact}

abbrev calls : List (String × ℕ)
calls = ("k", 10) ∷ ("k", 12) ∷ ("j", 12) ∷ ("k", 15) ∷ ("k", 3) ∷ []

should_emit_exact_example :
    let times = emissions 5 "k" calls [] in
    IsSpaced 5 none times
    × (((should_emit 5 "k" 19 (run_calls 5 calls [])).1 ≡ true)
        ↔ ((l : ℕ) → last_of none times ≡ some l → l + 5 ≤ 19))
should_emit_exact_example = should_emit_exact 5 "k" calls 19

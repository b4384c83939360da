-- ===== src/Queue/Tests.antt =====
-- The queue at concrete inputs.
use cns_server.Base.{ℕ, ◌≡◌, ◌↔◌, ◌<◌, refl, true, false, List, [], ◌∷◌, some, arith}
use cns_server.Queue.{BoundedQueue, create, try_push, wait_pop, waits, size}
use cns_server.Queue.Fifo.{
  History, Call, push, pop, shut, run, start, pops, IsFifo, IsDrained, run-create-IsFifo, refusals,
  close_drains,
}

abbrev two : BoundedQueue ℕ
two = record { capacity = 2; queue = []; closed = false }

abbrev calls : List (Call ℕ)
calls = push 1 ∷ push 2 ∷ push 3 ∷ pop ∷ push 4 ∷ []

created : create 2 ≡ some two
unfolding create
created = refl

run-create-IsFifo_example : IsFifo 2 (run (start two) calls)
run-create-IsFifo_example = run-create-IsFifo 2 two calls created

abbrev full : BoundedQueue ℕ
full = record { capacity = 2; queue = 1 ∷ 2 ∷ []; closed = false }

refusals_example :
    ((try_push full 3).1 ≡ true ↔ ((full.closed ≡ false) × (size full < 2)))
    × ((try_push full 3).1 ≡ false → (try_push full 3).0 ≡ full)
    × ((wait_pop full).1 ≡ waits ↔ ((full.closed ≡ false) × (full.queue ≡ [])))
    × ((wait_pop full).1 ≡ waits → (wait_pop full).0 ≡ full)
refusals_example = refusals full 3

abbrev half_read : History ℕ
half_read = record { state = full; accepted = 9 ∷ 1 ∷ 2 ∷ []; popped = 9 ∷ [] }

half_read-IsFifo : IsFifo 2 half_read
half_read-IsFifo = record { in_order = refl; bounded = ground arith; capacity_kept = refl }

close_drains_example : IsDrained (9 ∷ 1 ∷ 2 ∷ []) (run half_read (shut ∷ pops 2))
close_drains_example = close_drains 2 2 half_read half_read-IsFifo (ground arith)

-- ===== src/Queue.antt =====
-- core/queue/bounded_queue.hpp. Each operation runs under the queue's mutex, so it is one function
-- from state to state; a schedule of the threads is a list of operations.
pub mod Fifo
pub mod Tests
use cns_server.Base.{
  ℕ, ◌≡◌, Bool, true, false, ◌||◌, List, [], ◌∷◌, ◌++◌, Option, none, some, length, leb, nat_eq,
  if◌then◌else◌,
}

pub record BoundedQueue (A : Type 0) : Type 0 where
  pub capacity : ℕ
  pub queue : List A
  pub closed : Bool

-- What a consumer sees: it sleeps on the condition variable, or it returns.
pub data Pop (A : Type 0) : Type 0 where
  waits : Pop A
  returns : Option A → Pop A

module _ {A : Type 0} where
  -- The constructor; `none` is std::invalid_argument.
  unfoldable pub create : ℕ → Option (BoundedQueue A)
  create capacity =
      if nat_eq capacity 0
      then none
      else some (record { capacity = capacity; queue = []; closed = false })

  unfoldable pub try_push : BoundedQueue A → A → BoundedQueue A × Bool
  try_push q value =
      if q.closed || leb q.capacity (length q.queue)
      then (q, false)
      else (record q { queue = q.queue ++ value ∷ [] }, true)

  pop_front : BoundedQueue A → List A → BoundedQueue A × Pop A
  pop_front q [] = if q.closed then (q, returns none) else (q, waits)
  pop_front q (value ∷ rest) = (record q { queue = rest }, returns (some value))

  unfoldable pub wait_pop : BoundedQueue A → BoundedQueue A × Pop A
  unfolding pop_front
  wait_pop q = pop_front q q.queue

  unfoldable pub close : BoundedQueue A → BoundedQueue A
  close q = record q { closed = true }

  unfoldable pub size : BoundedQueue A → ℕ
  size q = length q.queue

  unfoldable pub is_closed : BoundedQueue A → Bool
  is_closed q = q.closed

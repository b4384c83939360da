-- ===== src/Queue/Fifo.antt =====
-- The bounded queue under any schedule of producers, consumers and closers.
use mathlib.Core.List.{append_assoc, append-nil}
use cns_server.Base.{
  ℕ, zero, suc, ◌≤◌, ◌≡◌, ◌↔◌, ◌<◌, refl, Bool, true, false, List, [], ◌∷◌, ◌++◌, none, some,
  length, length-append, arith,
}
use cns_server.Queue.{BoundedQueue, Pop, waits, returns, create, try_push, wait_pop, close, size}

-- One call of one thread.
pub data Call (A : Type 0) : Type 0 where
  push : A → Call A
  pop : Call A
  shut : Call A

-- The queue with what producers were told was accepted, and what consumers got, in order.
pub record History (A : Type 0) : Type 0 where
  pub state : BoundedQueue A
  pub accepted : List A
  pub popped : List A

module _ {A : Type 0} where
  note_push : History A → A → BoundedQueue A × Bool → History A
  note_push h v (q, true) = record h { state = q; accepted = h.accepted ++ v ∷ [] }
  note_push h v (q, false) = record h { state = q }

  note_pop : History A → BoundedQueue A × Pop A → History A
  note_pop h (q, returns (some v)) = record h { state = q; popped = h.popped ++ v ∷ [] }
  note_pop h (q, _) = record h { state = q }

  unfoldable pub step : History A → Call A → History A
  unfolding note_push note_pop
  step h (push v) = note_push h v (try_push h.state v)
  step h pop = note_pop h (wait_pop h.state)
  step h shut = record h { state = close h.state }

  unfoldable pub run : History A → List (Call A) → History A
  run h [] = h
  run h (c ∷ cs) = run (step h c) cs

  unfoldable pub start : BoundedQueue A → History A
  start q = record { state = q; accepted = q.queue; popped = [] }

  -- Nothing is lost, doubled or reordered, and the capacity is kept.
  pub record IsFifo (n : ℕ) (h : History A) : Type 0 where
    pub in_order : h.accepted ≡ h.popped ++ h.state.queue
    pub bounded : length h.state.queue ≤ n
    pub capacity_kept : h.state.capacity ≡ n

  step-IsFifo : (n : ℕ) (h : History A) (c : Call A) → IsFifo n h → IsFifo n (step h c)
  unfolding step try_push wait_pop close
  step-IsFifo n h (push v) f =
      ground
        (arith, length-append h.state.queue (v ∷ []), append_assoc h.popped h.state.queue (v ∷ []))
  step-IsFifo n h pop f = pop_case h.state.queue refl
    where
      pop_case : (xs : List A) → h.state.queue ≡ xs → IsFifo n (step h pop)
      pop_case [] e = ground arith
      pop_case (x ∷ xs) e = ground (arith, append_assoc h.popped (x ∷ []) xs)
  step-IsFifo n h shut f = ground arith

  run-IsFifo : (n : ℕ) (h : History A) (cs : List (Call A)) → IsFifo n h → IsFifo n (run h cs)
  unfolding run
  run-IsFifo n h [] f = f
  run-IsFifo n h (c ∷ cs) f = run-IsFifo n (step h c) cs (step-IsFifo n h c f)

  -- For a queue that the constructor accepts with capacity `n`, and any schedule of calls: the
  -- values accepted are the values delivered followed by those still queued, in order, at most `n`
  -- values are queued, and the capacity is still `n`.
  pub run-create-IsFifo :
      (n : ℕ) (q : BoundedQueue A) (cs : List (Call A))
      → create n ≡ some q
      → IsFifo n (run (start q) cs)
  unfolding create start
  run-create-IsFifo n q cs e = run-IsFifo n (start q) cs (ground arith)

  pop_waits :
      (q : BoundedQueue A) (xs : List A)
      → q.queue ≡ xs
      → ((wait_pop q).1 ≡ waits ↔ ((q.closed ≡ false) × (q.queue ≡ [])))
        × ((wait_pop q).1 ≡ waits → (wait_pop q).0 ≡ q)
  unfolding wait_pop
  pop_waits q [] e = ((ground arith, ground arith), ground arith)
  pop_waits q (x ∷ xs) e = ((ground arith, ground arith), ground arith)

  -- A push is accepted exactly when the queue is open and has room, and a refused push changes
  -- nothing; a pop sleeps exactly on an open empty queue, and then changes nothing.
  pub refusals :
      (q : BoundedQueue A) (v : A)
      → ((try_push q v).1 ≡ true ↔ ((q.closed ≡ false) × (size q < q.capacity)))
        × ((try_push q v).1 ≡ false → (try_push q v).0 ≡ q)
        × ((wait_pop q).1 ≡ waits ↔ ((q.closed ≡ false) × (q.queue ≡ [])))
        × ((wait_pop q).1 ≡ waits → (wait_pop q).0 ≡ q)
  unfolding try_push wait_pop size
  refusals q v =
      let (sleeps, same) = pop_waits q q.queue refl in
      ((ground arith, ground arith), ground arith, sleeps, same)

  unfoldable pub pops : ℕ → List (Call A)
  pops zero = []
  pops (suc k) = pop ∷ pops k

  module _ (goal : List A) where
    -- All that was accepted has been delivered, and consumers no longer sleep.
    abbrev pub IsDrained : History A → Type 0
    IsDrained d = (d.popped ≡ goal) × (d.state.queue ≡ []) × ((wait_pop d.state).1 ≡ returns none)

    drained :
        (k : ℕ) (g : History A) (xs : List A)
        → g.state.queue ≡ xs
        → g.state.closed ≡ true
        → length xs ≤ k
        → goal ≡ g.popped ++ xs
        → IsDrained (run g (pops k))
    unfolding run pops step wait_pop
    drained zero g [] e c le a = ground (arith, append-nil g.popped)
    drained zero g (x ∷ xs) e c le a = absurd (omega arith)
    drained (suc k) g [] e c le a =
        drained k (step g pop) [] (ground arith) (ground arith) (omega arith) (ground arith)
    drained (suc k) g (x ∷ xs) e c le a =
        drained k (step g pop) xs (ground arith) (ground arith) (omega arith)
          (ground (arith, append_assoc g.popped (x ∷ []) xs))

  -- After `Close`, `k` pops with `k` at least the size deliver all that was accepted, in order,
  -- and the next pop returns the empty value instead of sleeping.
  pub close_drains :
      (n k : ℕ) (h : History A)
      → IsFifo n h
      → length h.state.queue ≤ k
      → IsDrained h.accepted (run h (shut ∷ pops k))
  unfolding run step close
  close_drains n k h f le = drained h.accepted k (step h shut) h.state.queue refl refl le f.in_order

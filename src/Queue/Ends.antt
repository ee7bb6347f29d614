-- ===== src/Queue/Ends.antt =====
-- Pushes that fail and the end of a closed queue, for `BoundedQueue` of src/native.rs.
use fulltext.Prelude.{ℕ, zero, suc, ◌≡◌, refl, ap, arith, true, List, [], ◌∷◌, Option, length}
use fulltext.Error.{Result, ok, ◌>>◌}
use fulltext.Queue.{
  Queued, QueueBudget, QueueView, Popped, taken, finished, waiting, check_capacity,
  validate_shared_capacity, validate_capacity, reserve_shared, try_push_tracked, finish_push,
  try_pop, take_item, pop, popped, remove, shutdown_after_drain, mark_closed,
}

module _ {ℓ} {V : Type ℓ} where
  after : Popped V → List (Queued V) → List (Queued V)
  after (taken item) items = item ∷ items
  after finished items = items
  after waiting items = items

  -- What a worker's loop takes in `n` rounds, and the queue that it leaves.
  unfoldable pub pop_each : ℕ → QueueView V → List (Queued V) × QueueView V
  unfolding pop after
  pop_each zero v = ([], v)
  pop_each (suc n) v =
      let (item, next) = pop v in let (items, last) = pop_each n next in (after item items, last)

  capacity-reserve :
      (r : Result (Unit {0})) (value : V) (bytes now : ℕ) (v : QueueView V) (b : Option QueueBudget)
      → (finish_push value bytes now v (r >> reserve_shared b bytes)).0
        ≡ (r >> validate_shared_capacity b bytes)
  unfolding finish_push reserve_shared validate_shared_capacity
  capacity-reserve r value bytes now v b = ground arith

  -- The capacity check that a caller makes ahead of a push, on the same queue, gives what the push
  -- gives where its own check passes: success, or the same error.
  pub try_push_tracked-check_capacity :
      (value : V) (bytes : ℕ) (accepted : V → ℕ → V) (now : ℕ) (v : QueueView V)
      → (try_push_tracked value bytes (ok tt) accepted now v).0 ≡ check_capacity v bytes
  unfolding try_push_tracked check_capacity
  try_push_tracked-check_capacity value bytes accepted now v =
      capacity-reserve (validate_capacity v.queue bytes) (accepted value now) bytes now v
        v.shared_budget

  pop_each-items :
      (items : List (Queued V)) (v : QueueView V)
      → v.queue.state.items ≡ items
      → v.queue.state.is_closed ≡ true
      → ((pop_each (length items) v).0 ≡ items) × ((pop (pop_each (length items) v).1).0 ≡ finished)
  unfolding pop_each pop popped after try_pop take_item remove
  pop_each-items [] v e c = (refl, rw (e, c) refl)
  pop_each-items (item ∷ items) v e c =
      let same : QueueView V = record v {
        queue = record (v.queue) { state = record (v.queue.state) { items = item ∷ items } };
      } in
      let rest = pop_each-items items (take_item item items same) refl c in
      rw e (ap (◌∷◌ item) rest.0, rest.1)

  -- After a queue is shut down its workers still take every command that was queued, in order, and
  -- are then told that it has ended.
  pub pop-shutdown_after_drain :
      (v : QueueView V)
      → let n = length v.queue.state.items in
        ((pop_each n (shutdown_after_drain v)).0 ≡ v.queue.state.items)
        × ((pop (pop_each n (shutdown_after_drain v)).1).0 ≡ finished)
  unfolding shutdown_after_drain mark_closed
  pop-shutdown_after_drain v = pop_each-items v.queue.state.items (shutdown_after_drain v) refl refl

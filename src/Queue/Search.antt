-- ===== src/Queue/Search.antt =====
-- The two queues of searches that `Runtime::start` of src/native.rs makes, and what the runtime's
-- threads do to them: each operation holds the lock of its queue, so that a run is a sequence of them.
use fulltext.Prelude.{ℕ, Bool, true, false, List, [], ◌∷◌, Option, none, some, leb, if◌then◌else◌}
use fulltext.Error.{Result, ok}
use fulltext.Queue.{
  Queued, BoundedQueue, QueueBudget, QueueWake, QueueView, new_budget, new_queue, try_push_tracked,
  try_pop, drain, close, shutdown_after_drain,
}
use fulltext.Queue.Expiry.{SearchCommand, inspect_and_take_expired}

pub record SearchQueues {ℓ} (C : Type ℓ) : Type ℓ where
  pub ordinary : BoundedQueue (SearchCommand C)
  pub expensive : Option (BoundedQueue (SearchCommand C))
  pub budget : Option QueueBudget
  pub wake : Option QueueWake

-- What a thread does to a queue: a push with the caller's check, what it notes in the command, and
-- the time; the rest with the times that are read.
pub data Operation {ℓ} (C : Type ℓ) : Type ℓ where
  push :
      (value : SearchCommand C)
      → (bytes : ℕ) → (admit : Result (Unit {0}))
      → (accepted : SearchCommand C → ℕ → SearchCommand C) → (now : ℕ) → Operation C
  take_one take_all close_all shut_down : Operation C
  take_expired : (clock : ℕ → ℕ) → Operation C

pub record Outcome {ℓ} (C : Type ℓ) : Type ℓ where
  pub removed : List (Queued (SearchCommand C))
  pub accepted : Result (Unit {0})

module _ {ℓ} {C : Type ℓ} where
  unfoldable pub start_queues : ℕ → ℕ → ℕ → SearchQueues C
  unfolding new_budget new_queue
  start_queues max_commands max_bytes search_threads =
      let shared = leb 2 search_threads in
      record {
        ordinary = new_queue max_commands max_bytes;
        expensive = if shared then some (new_queue max_commands max_bytes) else none;
        budget = if shared then some (new_budget max_commands max_bytes) else none;
        wake = if shared then some (record { generation = 0 }) else none;
      }

  unfoldable pub chosen :
      Bool
      → BoundedQueue (SearchCommand C)
      → Option (BoundedQueue (SearchCommand C))
      → BoundedQueue (SearchCommand C)
  chosen true ordinary (some expensive) = expensive
  chosen true ordinary none = ordinary
  chosen false ordinary expensive = ordinary

  -- `Runtime::search_queue`.
  unfoldable pub search_queue : Bool → SearchQueues C → QueueView (SearchCommand C)
  unfolding chosen
  search_queue is_expensive s = record {
    queue = chosen is_expensive s.ordinary s.expensive;
    shared_budget = s.budget;
    shared_wake = s.wake;
  }

  unfoldable pub stored :
      Bool
      → Option (BoundedQueue (SearchCommand C))
      → SearchQueues C
      → QueueView (SearchCommand C)
      → SearchQueues C
  stored true (some expensive) s v = record s {
    expensive = some v.queue;
    budget = v.shared_budget;
    wake = v.shared_wake;
  }
  stored true none s v = record s {
    ordinary = v.queue;
    budget = v.shared_budget;
    wake = v.shared_wake;
  }
  stored false expensive s v = record s {
    ordinary = v.queue;
    budget = v.shared_budget;
    wake = v.shared_wake;
  }

  unfoldable pub removed_one : Option (Queued (SearchCommand C)) → Outcome C
  removed_one none = record { removed = []; accepted = ok tt }
  removed_one (some item) = record { removed = item ∷ []; accepted = ok tt }

  -- An operation on one queue.
  unfoldable pub apply :
      Operation C → QueueView (SearchCommand C) → Outcome C × QueueView (SearchCommand C)
  unfolding try_push_tracked try_pop drain close shutdown_after_drain inspect_and_take_expired
      removed_one
  apply (push value bytes admit accepted now) v =
      let (r, rest) = try_push_tracked value bytes admit accepted now v in
      (record { removed = []; accepted = r }, rest)
  apply take_one v = let (item, rest) = try_pop v in (removed_one item, rest)
  apply take_all v =
      let (items, rest) = drain v in (record { removed = items; accepted = ok tt }, rest)
  apply close_all v =
      let (items, rest) = close v in (record { removed = items; accepted = ok tt }, rest)
  apply shut_down v = (record { removed = []; accepted = ok tt }, shutdown_after_drain v)
  apply (take_expired clock) v =
      let (items, minimum, rest) = inspect_and_take_expired clock v in
      (record { removed = items; accepted = ok tt }, rest)

  -- An operation on the queue that the runtime picks.
  unfoldable pub act : Bool → Operation C → SearchQueues C → Outcome C × SearchQueues C
  unfolding search_queue stored apply
  act is_expensive op s =
      let (outcome, v) = apply op (search_queue is_expensive s) in
      (outcome, stored is_expensive s.expensive s v)

  unfoldable pub run :
      List (Bool × Operation C) → SearchQueues C → List (Outcome C) × SearchQueues C
  unfolding act
  run [] s = ([], s)
  run ((is_expensive, op) ∷ ops) s =
      let (outcome, next) = act is_expensive op s in
      let (outcomes, last) = run ops next in (outcome ∷ outcomes, last)

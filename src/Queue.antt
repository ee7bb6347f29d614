-- ===== src/Queue.antt =====
-- `BoundedQueue`, `QueueBudget` and `QueueWake` of src/native.rs. An operation runs under the queue's
-- lock, so that it is a function on what it reaches: the queue, and the budget and the wake that other
-- queues share with it. Times are in nanoseconds. A `Condvar` only decides who runs next.
pub mod Expiry
pub mod Search
pub mod Accounts
pub mod Expired
pub mod Lanes
pub mod Refines
pub mod Runs
pub mod Ends
use fulltext.Prelude.{
  ℕ, ◌+◌, ◌-◌, ◌%◌, ◌^◌, Bool, true, false, ◌||◌, List, [], ◌∷◌, ◌++◌, Option, none, some, leb, ltb,
  if◌then◌else◌, length, saturating_add, wrapping_add, wrapping_sub, min, usize_max,
}
use fulltext.Error.{
  FulltextError, Result, ok, err, ◌>>◌, refuse_if, new, closed, queue_full, native_failure,
}

pub record Queued {ℓ} (V : Type ℓ) : Type ℓ where
  pub value : V
  pub bytes : ℕ
  pub enqueued : ℕ

pub record QueueState {ℓ} (V : Type ℓ) : Type ℓ where
  pub items : List (Queued V)
  pub bytes : ℕ
  pub is_closed : Bool

-- The pair behind the budget's lock is its commands and bytes.
pub record QueueBudget : Type 0 where
  pub commands : ℕ
  pub bytes : ℕ
  pub max_commands : ℕ
  pub max_bytes : ℕ

pub record QueueWake : Type 0 where
  pub generation : ℕ

pub record BoundedQueue {ℓ} (V : Type ℓ) : Type ℓ where
  pub state : QueueState V
  pub max_commands : ℕ
  pub max_bytes : ℕ
  pub queued_commands : ℕ
  pub queued_bytes : ℕ

-- A queue, with what its `shared_budget` and its `shared_wake` point to.
pub record QueueView {ℓ} (V : Type ℓ) : Type ℓ where
  pub queue : BoundedQueue V
  pub shared_budget : Option QueueBudget
  pub shared_wake : Option QueueWake

abbrev pub closed_error : FulltextError
closed_error = new closed "operation queue is closed" []

abbrev pub full_error : FulltextError
full_error = new queue_full "operation queue limits are exhausted" []

unfoldable pub new_budget : ℕ → ℕ → QueueBudget
new_budget max_commands max_bytes = record {
  commands = 0;
  bytes = 0;
  max_commands = max_commands;
  max_bytes = max_bytes;
}

unfoldable pub new_queue {ℓ} : {V : Type ℓ} → ℕ → ℕ → BoundedQueue V
new_queue max_commands max_bytes = record {
  state = record { items = []; bytes = 0; is_closed = false };
  max_commands = max_commands;
  max_bytes = max_bytes;
  queued_commands = 0;
  queued_bytes = 0;
}

-- `QueueBudget::validate`.
unfoldable pub validate : QueueBudget → ℕ → Result (Unit {0})
unfolding saturating_add
validate b bytes =
    refuse_if (leb b.max_commands b.commands || ltb b.max_bytes (saturating_add b.bytes bytes))
      full_error

unfoldable pub notify_shared : Option QueueWake → Option QueueWake
unfolding wrapping_add
notify_shared none = none
notify_shared (some w) = some (record { generation = wrapping_add w.generation 1 })

unfoldable pub validate_shared_capacity : Option QueueBudget → ℕ → Result (Unit {0})
unfolding validate
validate_shared_capacity none bytes = ok tt
validate_shared_capacity (some b) bytes = validate b bytes

unfoldable pub reserve_shared : Option QueueBudget → ℕ → Result (Option QueueBudget)
unfolding validate wrapping_add
reserve_shared none bytes = ok none
reserve_shared (some b) bytes = do
  validate b bytes
  ok (some (record b { commands = wrapping_add b.commands 1; bytes = wrapping_add b.bytes bytes }))

unfoldable pub release_shared : Option QueueBudget → ℕ → ℕ → Option QueueBudget
unfolding wrapping_sub
release_shared none commands bytes = none
release_shared (some b) commands bytes =
    some
      (record b { commands = wrapping_sub b.commands commands; bytes = wrapping_sub b.bytes bytes })

unfoldable pub refuse_shared : Option QueueBudget → Result (Unit {0})
refuse_shared none = ok tt
refuse_shared (some b) =
    err (new native_failure "forced queue admission cannot bypass a shared budget" [])

module _ {ℓ} {V : Type ℓ} where
  unfoldable pub validate_capacity : BoundedQueue V → ℕ → Result (Unit {0})
  unfolding saturating_add
  validate_capacity q bytes = do
    refuse_if q.state.is_closed closed_error
    refuse_if
        (leb q.max_commands (length q.state.items)
          || ltb q.max_bytes (saturating_add q.state.bytes bytes))
        full_error

  unfoldable pub check_capacity : QueueView V → ℕ → Result (Unit {0})
  unfolding validate_capacity validate_shared_capacity
  check_capacity v bytes = do
    validate_capacity v.queue bytes
    validate_shared_capacity v.shared_budget bytes

  -- The end of both pushes: the item is queued and counted, and the sleepers are notified.
  unfoldable pub push_back : V → ℕ → ℕ → QueueView V → QueueView V
  unfolding wrapping_add notify_shared
  push_back value bytes now v =
      let q = v.queue in
      let item : Queued V = record { value = value; bytes = bytes; enqueued = now } in
      record v {
        queue = record q {
          state = record (q.state) {
            items = q.state.items ++ (item ∷ []);
            bytes = wrapping_add q.state.bytes bytes;
          };
          queued_commands = wrapping_add q.queued_commands 1;
          queued_bytes = wrapping_add q.queued_bytes bytes;
        };
        shared_wake = notify_shared v.shared_wake;
      }

  -- What follows the checks of a push; an error leaves everything as it was.
  unfoldable pub finish_push :
      V → ℕ → ℕ → QueueView V → Result (Option QueueBudget) → Result (Unit {0}) × QueueView V
  unfolding push_back
  finish_push value bytes now v (err e) = (err e, v)
  finish_push value bytes now v (ok b) =
      (ok tt, push_back value bytes now (record v { shared_budget = b }))

  -- `admit` is what the caller's check says, `accepted` what the caller notes in the command.
  unfoldable pub try_push_tracked :
      V → ℕ → Result (Unit {0}) → (V → ℕ → V) → ℕ → QueueView V → Result (Unit {0}) × QueueView V
  unfolding validate_capacity reserve_shared finish_push
  try_push_tracked value bytes admit accepted now v =
      finish_push (accepted value now) bytes now v
        (admit >> (validate_capacity v.queue bytes >> reserve_shared v.shared_budget bytes))

  unfoldable pub push_force_tracked_if :
      V → ℕ → Result (Unit {0}) → (V → ℕ → V) → ℕ → QueueView V → Result (Unit {0}) × QueueView V
  unfolding refuse_shared push_back
  push_force_tracked_if value bytes admit accepted now v =
      elim (refuse_shared v.shared_budget
        >> refuse_if v.queue.state.is_closed closed_error
        >> admit) [
          | err e ↦ (err e, v)
          | ok _ ↦ (ok tt, push_back (accepted value now) bytes now v)
        ]

-- What a blocking `pop` finds under the lock: an item, the end of a closed queue, or that it must wait.
pub data Popped {ℓ} (V : Type ℓ) : Type ℓ where
  taken : Queued V → Popped V
  finished waiting : Popped V

-- The bytes of the queued items, summed up.
unfoldable pub total_bytes {ℓ} : {V : Type ℓ} → List (Queued V) → ℕ
total_bytes [] = 0
total_bytes (item ∷ items) = item.bytes + total_bytes items

module _ {ℓ} {V : Type ℓ} where
  -- `n` commands of `k` bytes leave the queue, and `rest` stays.
  unfoldable pub remove : ℕ → ℕ → List (Queued V) → BoundedQueue V → BoundedQueue V
  unfolding wrapping_sub
  remove n k rest q = record q {
    state = record (q.state) { items = rest; bytes = wrapping_sub q.state.bytes k };
    queued_commands = wrapping_sub q.queued_commands n;
    queued_bytes = wrapping_sub q.queued_bytes k;
  }

  unfoldable pub take_item : Queued V → List (Queued V) → QueueView V → QueueView V
  unfolding remove release_shared
  take_item item rest v = record v {
    queue = remove 1 item.bytes rest v.queue;
    shared_budget = release_shared v.shared_budget 1 item.bytes;
  }

  -- `take_front`, which is all that `try_pop` does.
  unfoldable pub try_pop : QueueView V → Option (Queued V) × QueueView V
  unfolding take_item
  try_pop v = elim v.queue.state.items [
    | [] ↦ (none, v)
    | item ∷ rest ↦ (some item, take_item item rest v)
  ]

  unfoldable pub popped : Option (Queued V) → Bool → Popped V
  popped (some item) is_closed = taken item
  popped none is_closed = if is_closed then finished else waiting

  unfoldable pub pop : QueueView V → Popped V × QueueView V
  unfolding try_pop popped
  pop v = let (item, rest) = try_pop v in (popped item rest.queue.state.is_closed, rest)

  unfoldable pub drain_queue : BoundedQueue V → BoundedQueue V
  drain_queue q = record q {
    state = record (q.state) { items = []; bytes = 0 };
    queued_commands = 0;
    queued_bytes = 0;
  }

  unfoldable pub drain : QueueView V → List (Queued V) × QueueView V
  unfolding drain_queue release_shared total_bytes notify_shared
  drain v =
      let items = v.queue.state.items in
      let rest : QueueView V = record {
        queue = drain_queue v.queue;
        shared_budget = release_shared v.shared_budget (length items) (total_bytes items % 2 ^ 64);
        shared_wake = notify_shared v.shared_wake;
      } in
      (items, rest)

  unfoldable pub mark_closed : BoundedQueue V → BoundedQueue V
  mark_closed q = record q { state = record (q.state) { is_closed = true } }

  unfoldable pub close : QueueView V → List (Queued V) × QueueView V
  unfolding mark_closed drain
  close v = drain (record v { queue = mark_closed v.queue })

  unfoldable pub shutdown_after_drain : QueueView V → QueueView V
  unfolding mark_closed notify_shared
  shutdown_after_drain v = record v {
    queue = mark_closed v.queue;
    shared_wake = notify_shared v.shared_wake;
  }

  unfoldable pub snapshot : ℕ → QueueView V → ℕ × ℕ × ℕ
  snapshot now v =
      let q = v.queue in
      (
        length q.state.items,
        q.state.bytes,
        elim q.state.items [ [] ↦ 0 | item ∷ rest ↦ min (now - item.enqueued) usize_max ],
      )

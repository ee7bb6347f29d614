-- ===== src/Queue/Accounts.antt =====
-- The accounts of a queue of src/native.rs and of the budget that it shares.
use fulltext.Prelude.{
  ℕ, ◌%◌, ◌^◌, ◌+◌, ◌≤◌, ◌≡◌, refl, arith, Bool, true, false, List, [], ◌∷◌, ◌++◌, Option, none,
  some, length, length-append, usize_max, wrapping_add_lem, wrapping_sub_lem, saturating_add, ◌<◌,
  leb, ltb, ◌||◌,
}
use fulltext.Error.{Result, ok, bind, refuse_if, ◌>>◌}
use fulltext.Queue.{
  Queued, BoundedQueue, QueueBudget, QueueView, total_bytes, validate, validate_capacity,
  reserve_shared, release_shared, remove, push_back, drain, closed_error, full_error,
}

-- The queue's counters are those of its items.
pub record IsCounted {ℓ} {V : Type ℓ} (max_commands max_bytes : ℕ) (q : BoundedQueue V)
    : Type 0 where
  pub commands : q.queued_commands ≡ length q.state.items
  pub bytes : q.queued_bytes ≡ total_bytes q.state.items
  pub state_bytes : q.state.bytes ≡ total_bytes q.state.items
  pub max_commands_kept : q.max_commands ≡ max_commands
  pub max_bytes_kept : q.max_bytes ≡ max_bytes

-- A budget that is shared holds what the queues together hold; without one there is one queue.
abbrev pub IsShared : Bool → ℕ → ℕ → ℕ → ℕ → ℕ → ℕ → Option QueueBudget → Type 0
IsShared is_shared max_commands max_bytes commands bytes others other_bytes none =
    (is_shared ≡ false) × (others ≡ 0) × (other_bytes ≡ 0)
IsShared is_shared max_commands max_bytes commands bytes others other_bytes (some b) =
    (is_shared ≡ true)
    × (b.commands ≡ commands + others)
    × (b.bytes ≡ bytes + other_bytes)
    × (b.max_commands ≡ max_commands)
    × (b.max_bytes ≡ max_bytes)

-- A queue beside others that hold `others` items of `other_bytes` bytes.
pub record IsView {ℓ} {V : Type ℓ} (is_shared : Bool)
    (max_commands max_bytes others other_bytes : ℕ) (q : BoundedQueue V) (b : Option QueueBudget)
    : Type 0 where
  pub counted : IsCounted max_commands max_bytes q
  pub shared :
      IsShared is_shared max_commands max_bytes
        (length q.state.items)
        (total_bytes q.state.items)
        others
        other_bytes
        b
  pub few : length q.state.items + others ≤ max_commands
  pub small : total_bytes q.state.items + other_bytes ≤ max_bytes

pub total_bytes-append {ℓ} :
    {V : Type ℓ} (xs ys : List (Queued V))
    → total_bytes (xs ++ ys) ≡ total_bytes xs + total_bytes ys
unfolding total_bytes
total_bytes-append [] ys = omega arith
total_bytes-append (x ∷ xs) ys = omega (arith, total_bytes-append xs ys)

-- What the queues together admit: an open queue, and what fits into the limits.
abbrev pub admission : ℕ → ℕ → Bool → ℕ → ℕ → Result (Unit {0})
admission max_commands max_bytes is_closed commands bytes =
    refuse_if is_closed closed_error
    >> refuse_if (leb max_commands commands || ltb max_bytes bytes) full_error

abbrev pub reserved : Option QueueBudget → ℕ → Option QueueBudget
reserved none bytes = none
reserved (some b) bytes = some (record b { commands = b.commands + 1; bytes = b.bytes + bytes })

module _ {ℓ} {V : Type ℓ} (max_commands max_bytes : ℕ) (commands_fit : max_commands ≤ usize_max)
    (bytes_fit : max_bytes < usize_max) (is_shared : Bool) (others other_bytes : ℕ) where
  -- The queue's check and the budget's reservation together.
  pub reserve_shared-admission :
      (q : BoundedQueue V) (b : Option QueueBudget) (bytes : ℕ)
      → IsCounted max_commands max_bytes q
      → IsShared is_shared max_commands max_bytes
          (length q.state.items)
          (total_bytes q.state.items)
          others
          other_bytes
          b
      → (validate_capacity q bytes >> reserve_shared b bytes)
        ≡ bind
            (admission max_commands max_bytes q.state.is_closed
              (length q.state.items + others)
              (total_bytes q.state.items + other_bytes + bytes))
            (λ _. ok (reserved b bytes))
  unfolding validate_capacity reserve_shared validate saturating_add
  reserve_shared-admission q none bytes h s =
      let e₁ = h.state_bytes in
      let e₂ = h.max_commands_kept in let e₃ = h.max_bytes_kept in ground (arith, e₁, e₂, e₃, s)
  reserve_shared-admission q (some b) bytes h s =
      let e₁ = h.state_bytes in
      let e₂ = h.max_commands_kept in
      let e₃ = h.max_bytes_kept in
      ground (arith, e₁, e₂, e₃, s, wrapping_add_lem b.commands 1, wrapping_add_lem b.bytes bytes)

  abbrev pub Views : QueueView V → Type 0
  Views v = IsView is_shared max_commands max_bytes others other_bytes v.queue v.shared_budget

  push_back-IsCounted :
      (value : V) (bytes now : ℕ) (v : QueueView V)
      → IsCounted max_commands max_bytes v.queue
      → length v.queue.state.items < max_commands
      → total_bytes v.queue.state.items + bytes ≤ max_bytes
      → IsCounted max_commands max_bytes (push_back value bytes now v).queue
  unfolding push_back total_bytes
  push_back-IsCounted value bytes now v h few small =
      let item : Queued V = record { value = value; bytes = bytes; enqueued = now } in
      let e₁ = total_bytes-append v.queue.state.items (item ∷ []) in
      let e₂ = length-append v.queue.state.items (item ∷ []) in
      let e₃ = h.commands in
      let e₄ = h.bytes in
      let e₅ = h.state_bytes in
      let e₆ = h.max_commands_kept in
      let e₇ = h.max_bytes_kept in
      let w₁ = wrapping_add_lem v.queue.queued_commands 1 (omega arith) in
      let w₂ = wrapping_add_lem v.queue.queued_bytes bytes (omega arith) in
      let w₃ = wrapping_add_lem v.queue.state.bytes bytes (omega arith) in
      record {
        commands = omega arith;
        bytes = omega arith;
        state_bytes = omega arith;
        max_commands_kept = e₆;
        max_bytes_kept = e₇;
      }

  reserved-IsShared :
      (value : V) (bytes now : ℕ) (items : List (Queued V)) (b : Option QueueBudget)
      → IsShared is_shared max_commands max_bytes
          (length items)
          (total_bytes items)
          others
          other_bytes
          b
      → IsShared is_shared max_commands max_bytes
          (length (items ++ (record { value = value; bytes = bytes; enqueued = now } ∷ [])))
          (total_bytes (items ++ (record { value = value; bytes = bytes; enqueued = now } ∷ [])))
          others
          other_bytes
          (reserved b bytes)
  unfolding total_bytes
  reserved-IsShared value bytes now items none h = h
  reserved-IsShared value bytes now items (some b) h =
      let item : Queued V = record { value = value; bytes = bytes; enqueued = now } in
      let e₁ = total_bytes-append items (item ∷ []) in
      let e₂ = length-append items (item ∷ []) in (h.0, omega arith, omega arith, h.3, h.4)

  pub push_back-Views :
      (value : V) (bytes now : ℕ) (v : QueueView V)
      → Views v
      → length v.queue.state.items + others < max_commands
      → total_bytes v.queue.state.items + other_bytes + bytes ≤ max_bytes
      → Views
          (push_back value bytes now (record v { shared_budget = reserved v.shared_budget bytes }))
  unfolding total_bytes push_back
  push_back-Views value bytes now v h few small =
      let item : Queued V = record { value = value; bytes = bytes; enqueued = now } in
      let e₁ = total_bytes-append v.queue.state.items (item ∷ []) in
      let e₂ = length-append v.queue.state.items (item ∷ []) in
      record {
        counted =
            push_back-IsCounted value bytes now
              (record v { shared_budget = reserved v.shared_budget bytes }) h.counted (omega arith)
              (omega arith);
        shared = reserved-IsShared value bytes now v.queue.state.items v.shared_budget h.shared;
        few = omega arith;
        small = omega arith;
      }

  -- Items of `n` commands and `k` bytes leave the queue, and the budget with them.
  release_shared-IsShared :
      (n k : ℕ) (items rest : List (Queued V)) (b : Option QueueBudget)
      → length items + others ≤ max_commands
      → total_bytes items + other_bytes ≤ max_bytes
      → length rest + n ≡ length items
      → total_bytes rest + k ≡ total_bytes items
      → IsShared is_shared max_commands max_bytes
          (length items)
          (total_bytes items)
          others
          other_bytes
          b
      → IsShared is_shared max_commands max_bytes
          (length rest)
          (total_bytes rest)
          others
          other_bytes
          (release_shared b n k)
  unfolding release_shared
  release_shared-IsShared n k items rest none few small e₁ e₂ h = h
  release_shared-IsShared n k items rest (some b) few small e₁ e₂ h =
      let e₃ = h.1 in
      let e₄ = h.2 in
      let w₁ = wrapping_sub_lem b.commands n (omega arith) (omega arith) in
      let w₂ = wrapping_sub_lem b.bytes k (omega arith) (omega arith) in
      (h.0, omega arith, omega arith, h.3, h.4)

  pub remove-IsCounted :
      (n k : ℕ) (rest : List (Queued V)) (q : BoundedQueue V)
      → IsCounted max_commands max_bytes q
      → length q.state.items ≤ max_commands
      → total_bytes q.state.items ≤ max_bytes
      → length rest + n ≡ length q.state.items
      → total_bytes rest + k ≡ total_bytes q.state.items
      → IsCounted max_commands max_bytes (remove n k rest q)
  unfolding remove
  remove-IsCounted n k rest q h few small e₁ e₂ =
      let e₃ = h.commands in
      let e₄ = h.bytes in
      let e₅ = h.state_bytes in
      let w₁ = wrapping_sub_lem q.queued_commands n (omega arith) (omega arith) in
      let w₂ = wrapping_sub_lem q.queued_bytes k (omega arith) (omega arith) in
      let w₃ = wrapping_sub_lem q.state.bytes k (omega arith) (omega arith) in
      record {
        commands = omega arith;
        bytes = omega arith;
        state_bytes = omega arith;
        max_commands_kept = h.max_commands_kept;
        max_bytes_kept = h.max_bytes_kept;
      }

  pub remove-IsView :
      (n k : ℕ) (rest : List (Queued V)) (q : BoundedQueue V) (b : Option QueueBudget)
      → IsView is_shared max_commands max_bytes others other_bytes q b
      → length rest + n ≡ length q.state.items
      → total_bytes rest + k ≡ total_bytes q.state.items
      → IsView is_shared max_commands max_bytes others other_bytes
          (remove n k rest q)
          (release_shared b n k)
  unfolding remove
  remove-IsView n k rest q b h e₁ e₂ =
      let f = h.few in
      let s = h.small in
      record {
        counted = remove-IsCounted n k rest q h.counted (omega arith) (omega arith) e₁ e₂;
        shared = release_shared-IsShared n k q.state.items rest b f s e₁ e₂ h.shared;
        few = omega arith;
        small = omega arith;
      }

  -- A queue that is emptied counts anew, whatever its counters were.
  pub drain-Views : (v : QueueView V) → Views v → Views ((drain v).1)
  unfolding drain total_bytes
  drain-Views v h =
      let f = h.few in
      let s = h.small in
      let kept = h.counted in
      let e : total_bytes v.queue.state.items % 2 ^ 64 ≡ total_bytes v.queue.state.items =
        omega arith in
      record {
        counted = record {
          commands = refl;
          bytes = refl;
          state_bytes = refl;
          max_commands_kept = kept.max_commands_kept;
          max_bytes_kept = kept.max_bytes_kept;
        };
        shared = rw e (
            release_shared-IsShared (length v.queue.state.items) (total_bytes v.queue.state.items)
              v.queue.state.items [] v.shared_budget f s (omega arith) (omega arith) h.shared);
        few = omega arith;
        small = omega arith;
      }

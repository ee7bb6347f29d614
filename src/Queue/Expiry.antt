-- ===== src/Queue/Expiry.antt =====
-- `inspect_and_take_expired` and `state_summary` of src/native.rs: the worker's look into the queue of
-- expensive searches.
use fulltext.Prelude.{
  ℕ, zero, suc, ◌-◌, ◌*◌, Bool, not, List, [], ◌∷◌, ◌++◌, Option, none, some, ◌==◌, if◌then◌else◌,
  length, wrapping_add, min, is_empty,
}
use fulltext.Error.{Result, ok, err}
use fulltext.Text.{Bytes}
use fulltext.Request.Header.{search_budget, trace_budget}
use fulltext.Queue.{Queued, QueueView, release_shared, remove}

pub data SearchOperation : Type 0 where
  search : (bytes : Bytes) → (expensive : Bool) → SearchOperation
  trace : Bytes → SearchOperation

-- The completion tells JavaScript of the end of the command.
pub record SearchCommand {ℓ} (Completion : Type ℓ) : Type ℓ where
  pub operation : SearchOperation
  pub completion : Completion

unwrap_or_zero : Result ℕ → ℕ
unwrap_or_zero (ok n) = n
unwrap_or_zero (err e) = 0

-- The milliseconds that a request asks for; a request that cannot be read has none.
unfoldable pub budget_milliseconds : SearchOperation → ℕ
unfolding unwrap_or_zero
budget_milliseconds (search bytes expensive) = unwrap_or_zero (search_budget bytes)
budget_milliseconds (trace bytes) = unwrap_or_zero (trace_budget bytes)

-- The nanoseconds that are left of the budget at `now`, at least 0.
unfoldable pub remaining_at {ℓ} : {C : Type ℓ} → ℕ → Queued (SearchCommand C) → ℕ
unfolding budget_milliseconds
remaining_at now queued =
    1000000 * budget_milliseconds queued.value.operation - (now - queued.enqueued)

unfoldable pub lower : Option ℕ → ℕ → ℕ
lower none remaining = remaining
lower (some minimum) remaining = min minimum remaining

-- The loop's variables, and the queue that it turns over once.
pub record Scan {ℓ} (C : Type ℓ) : Type ℓ where
  pub items : List (Queued (SearchCommand C))
  pub expired : List (Queued (SearchCommand C))
  pub minimum_remaining : Option ℕ
  pub expired_bytes : ℕ

module _ {ℓ} {C : Type ℓ} where
  -- One turn, `remaining` the time that the front item has left.
  unfoldable pub turn :
      Queued (SearchCommand C) → List (Queued (SearchCommand C)) → ℕ → Scan C → Scan C
  unfolding lower wrapping_add
  turn queued rest remaining s =
      if remaining == 0
      then record s {
        items = rest;
        expired = s.expired ++ (queued ∷ []);
        expired_bytes = wrapping_add s.expired_bytes queued.bytes;
      }
      else record s {
        items = rest ++ (queued ∷ []);
        minimum_remaining = some (lower s.minimum_remaining remaining);
      }

  -- The loop takes as many turns as there are items, so that `pop_front` finds one each time.
  unfoldable pub inspect_item : ℕ → List (Queued (SearchCommand C)) → Scan C → Scan C
  unfolding turn remaining_at
  inspect_item now [] s = s
  inspect_item now (queued ∷ rest) s = turn queued rest (remaining_at now queued) s

  -- The clock is read anew in each turn.
  unfoldable pub inspect_items : ℕ → (ℕ → ℕ) → Scan C → Scan C
  unfolding inspect_item
  inspect_items zero clock s = s
  inspect_items (suc n) clock s =
      inspect_items n (λ i. clock (suc i)) (inspect_item (clock 0) s.items s)

  unfoldable pub settle_expired : Scan C → QueueView (SearchCommand C) → QueueView (SearchCommand C)
  unfolding remove release_shared
  settle_expired s v = record v {
    queue = remove (length s.expired) s.expired_bytes s.items v.queue;
    shared_budget = release_shared v.shared_budget (length s.expired) s.expired_bytes;
  }

  -- The expired commands, the least time that a command left in the queue has, and the queue.
  unfoldable pub inspect_and_take_expired :
      (ℕ → ℕ)
      → QueueView (SearchCommand C)
      → List (Queued (SearchCommand C)) × Option ℕ × QueueView (SearchCommand C)
  unfolding inspect_items settle_expired
  inspect_and_take_expired clock v =
      let items = v.queue.state.items in
      let start : Scan C = record {
        items = items;
        expired = [];
        minimum_remaining = none;
        expired_bytes = 0;
      } in
      let s = inspect_items (length items) clock start in
      (s.expired, s.minimum_remaining, settle_expired s v)

  unfoldable pub state_summary : QueueView (SearchCommand C) → Bool × Bool
  unfolding is_empty
  state_summary v = (not (is_empty v.queue.state.items), v.queue.state.is_closed)

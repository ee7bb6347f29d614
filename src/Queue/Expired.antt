-- ===== src/Queue/Expired.antt =====
-- What `inspect_and_take_expired` of src/native.rs takes from the queue and what it leaves, read off
-- the items in their order.
use fulltext.Prelude.{
  ℕ, suc, ◌+◌, ◌≤◌, ◌≡◌, arith, List, [], ◌∷◌, ◌++◌, append_assoc, Option, none, some, ◌==◌,
  if◌then◌else◌, length, usize_max, wrapping_add_lem, Bool-cases, inl, inr,
}
use mathlib.Core.List.{append-nil}
use fulltext.Queue.{Queued, QueueView, total_bytes, remove, release_shared}
use fulltext.Queue.Expiry.{
  SearchCommand, remaining_at, lower, turn, inspect_item, inspect_items, inspect_and_take_expired,
  settle_expired,
}

module _ {ℓ} {C : Type ℓ} where
  -- The items that have no time left when the clock is read for them, `i`-th reading for the `i`-th.
  unfoldable pub expired :
      (ℕ → ℕ) → List (Queued (SearchCommand C)) → List (Queued (SearchCommand C))
  expired clock [] = []
  expired clock (q ∷ items) =
      let rest = expired (λ i. clock (suc i)) items in
      if remaining_at (clock 0) q == 0 then q ∷ rest else rest

  unfoldable pub kept : (ℕ → ℕ) → List (Queued (SearchCommand C)) → List (Queued (SearchCommand C))
  kept clock [] = []
  kept clock (q ∷ items) =
      let rest = kept (λ i. clock (suc i)) items in
      if remaining_at (clock 0) q == 0 then rest else q ∷ rest

  -- The least time that is left, `minimum` before the items.
  unfoldable pub least : (ℕ → ℕ) → Option ℕ → List (Queued (SearchCommand C)) → Option ℕ
  unfolding lower
  least clock minimum [] = minimum
  least clock minimum (q ∷ items) =
      let remaining = remaining_at (clock 0) q in
      least (λ i. clock (suc i))
        (if remaining == 0 then minimum else some (lower minimum remaining)) items

  pub length-expired :
      (clock : ℕ → ℕ) (items : List (Queued (SearchCommand C)))
      → length (kept clock items) + length (expired clock items) ≡ length items
  unfolding expired kept
  length-expired clock [] = omega arith
  length-expired clock (q ∷ items) = ground (arith, length-expired (λ i. clock (suc i)) items)

  pub total_bytes-expired :
      (clock : ℕ → ℕ) (items : List (Queued (SearchCommand C)))
      → total_bytes (kept clock items) + total_bytes (expired clock items) ≡ total_bytes items
  unfolding expired kept total_bytes
  total_bytes-expired clock [] = omega arith
  total_bytes-expired clock (q ∷ items) =
      ground (arith, total_bytes-expired (λ i. clock (suc i)) items)

  -- The loop turns the queue over once: what it keeps stands behind what it has not yet seen.
  inspect_items_lem :
      (clock : ℕ → ℕ) (items after gone : List (Queued (SearchCommand C))) (minimum : Option ℕ)
      (n : ℕ)
      → n + total_bytes items ≤ usize_max
      → inspect_items (length items) clock (record {
        items = items ++ after;
        expired = gone;
        minimum_remaining = minimum;
        expired_bytes = n;
      })
        ≡ record {
          items = after ++ kept clock items;
          expired = gone ++ expired clock items;
          minimum_remaining = least clock minimum items;
          expired_bytes = n + total_bytes (expired clock items);
        }
  unfolding inspect_items inspect_item turn kept expired least total_bytes
  inspect_items_lem clock [] after gone minimum n h = simp append-nil (ground arith)
  inspect_items_lem clock (q ∷ items) after gone minimum n h =
      let later : ℕ → ℕ = λ i. clock (suc i) in
      let e₁ = append_assoc gone (q ∷ []) (expired later items) in
      let e₂ = append_assoc after (q ∷ []) (kept later items) in
      let e₃ = append_assoc items after (q ∷ []) in
      let w = wrapping_add_lem n q.bytes (omega arith) in
      elim (Bool-cases (remaining_at (clock 0) q == 0)) [
        | inl e ↦ ground (
          arith,
          inspect_items_lem later items after (gone ++ (q ∷ [])) minimum (n + q.bytes)
              (omega arith),
        )
        | inr e ↦ ground (
          arith,
          inspect_items_lem later items (after ++ (q ∷ [])) gone
              (some (lower minimum (remaining_at (clock 0) q))) n (omega arith),
        )
      ]

  pub inspect_and_take_expired_lem :
      (clock : ℕ → ℕ) (v : QueueView (SearchCommand C))
      → total_bytes v.queue.state.items ≤ usize_max
      → inspect_and_take_expired clock v ≡ (
        expired clock v.queue.state.items,
        least clock none v.queue.state.items,
        record v {
          queue =
              remove
                (length (expired clock v.queue.state.items))
                (total_bytes (expired clock v.queue.state.items))
                (kept clock v.queue.state.items)
                v.queue;
          shared_budget =
              release_shared v.shared_budget
                (length (expired clock v.queue.state.items))
                (total_bytes (expired clock v.queue.state.items));
        },
      )
  unfolding inspect_and_take_expired settle_expired
  inspect_and_take_expired_lem clock v h =
      let items = v.queue.state.items in
      let e₁ = inspect_items_lem clock items [] [] none 0 (omega arith) in
      let e₂ = append-nil items in ground (arith, e₁, e₂)

-- ===== src/Queue/Runs.antt =====
-- A run of the search queues of src/native.rs is a run of their lanes, and keeps the accounts.
use fulltext.Prelude.{
  ℕ, ◌≤◌, ◌<◌, ◌≡◌, refl, ap, subst, arith, Bool, true, false, List, [], ◌∷◌, Option, none, some,
  length, usize_max, leb, Bool-cases, inl, inr,
}
use fulltext.Queue.{BoundedQueue, QueueBudget, QueueWake, total_bytes, new_queue, new_budget}
use fulltext.Queue.Accounts.{IsCounted, IsView}
use fulltext.Queue.Expiry.{SearchCommand}
use fulltext.Queue.Search.{
  SearchQueues, Operation, Outcome, apply, act, run, start_queues, search_queue, stored, chosen,
}
use fulltext.Queue.Lanes.{
  Lane, Lanes, lane, lanes, act_ordinary, act_expensive, lanes_act, lanes_run,
}
use fulltext.Queue.Refines.{apply-lane_apply}

-- The accounts of both queues and of the budget that they share; a queue alone has no budget.
abbrev pub IsAccounted {ℓ} :
    {C : Type ℓ}
    → ℕ
    → ℕ
    → BoundedQueue (SearchCommand C)
    → Option (BoundedQueue (SearchCommand C))
    → Option QueueBudget
    → Type 0
IsAccounted max_commands max_bytes q none b = IsView false max_commands max_bytes 0 0 q b
IsAccounted max_commands max_bytes q (some e) b =
    IsView true max_commands max_bytes (length e.state.items) (total_bytes e.state.items) q b
    × IsCounted max_commands max_bytes e

abbrev pub IsSearchQueues {ℓ} : {C : Type ℓ} → ℕ → ℕ → SearchQueues C → Type 0
IsSearchQueues max_commands max_bytes s =
    IsAccounted max_commands max_bytes s.ordinary s.expensive s.budget

-- The budget counts the queues in either order.
turn_over {ℓ} :
    {C : Type ℓ} (max_commands max_bytes : ℕ) (q e : BoundedQueue (SearchCommand C))
    (b : Option QueueBudget)
    → IsView true max_commands max_bytes (length e.state.items) (total_bytes e.state.items) q b
    → IsCounted max_commands max_bytes e
    → IsView true max_commands max_bytes (length q.state.items) (total_bytes q.state.items) e b
turn_over max_commands max_bytes q e none h k = let s = h.shared in let f = s.0 in absurd (cc)
turn_over max_commands max_bytes q e (some b) h k =
    let s = h.shared in
    let f = h.few in
    let g = h.small in
    record {
      counted = k;
      shared = (refl, omega arith, omega arith, s.3, s.4);
      few = omega arith;
      small = omega arith;
    }

module _ {ℓ} {C : Type ℓ} (max_commands max_bytes : ℕ) (commands_fit : max_commands ≤ usize_max)
    (bytes_fit : max_bytes < usize_max) where
  abbrev of : Lane C → Option (Lane C) → Lanes C
  of ordinary expensive = record { ordinary = ordinary; expensive = expensive }

  abbrev pub Matches : Outcome C × SearchQueues C → Outcome C × Lanes C → Type ℓ
  Matches r t = (r.0 ≡ t.0) × (lanes r.1 ≡ t.1) × IsSearchQueues max_commands max_bytes r.1

  act-ordinary :
      (is_expensive : Bool) (op : Operation C) (q : BoundedQueue (SearchCommand C))
      (b : Option QueueBudget) (w : Option QueueWake)
      → IsView false max_commands max_bytes 0 0 q b
      → Matches
          (act is_expensive op (record { ordinary = q; expensive = none; budget = b; wake = w }))
          (lanes_act max_commands max_bytes is_expensive op
            (record { ordinary = lane q; expensive = none }))
  unfolding act lanes_act search_queue stored chosen act_ordinary act_expensive
  act-ordinary true op q b w h =
      let r =
        apply-lane_apply max_commands max_bytes commands_fit bytes_fit false 0 0 op
          (record { queue = q; shared_budget = b; shared_wake = w }) h in
      (r.0, ap (λ (l : Lane C). of l none) r.1, r.2)
  act-ordinary false op q b w h =
      let r =
        apply-lane_apply max_commands max_bytes commands_fit bytes_fit false 0 0 op
          (record { queue = q; shared_budget = b; shared_wake = w }) h in
      (r.0, ap (λ (l : Lane C). of l none) r.1, r.2)

  act-shared :
      (is_expensive : Bool) (op : Operation C) (q e : BoundedQueue (SearchCommand C))
      (b : Option QueueBudget) (w : Option QueueWake)
      → IsAccounted max_commands max_bytes q (some e) b
      → Matches
          (act is_expensive op (record { ordinary = q; expensive = some e; budget = b; wake = w }))
          (lanes_act max_commands max_bytes is_expensive op
            (record { ordinary = lane q; expensive = some (lane e) }))
  unfolding act lanes_act search_queue stored chosen act_ordinary act_expensive
  act-shared true op q e b w h =
      let r =
        apply-lane_apply max_commands max_bytes commands_fit bytes_fit true (length q.state.items)
          (total_bytes q.state.items) op (record { queue = e; shared_budget = b; shared_wake = w })
          (turn_over max_commands max_bytes q e b h.0 h.1) in
      let v = (apply op (record { queue = e; shared_budget = b; shared_wake = w })).1 in
      let c = h.0.counted in
      let k = r.2.counted in
      (
        r.0,
        ap (λ (l : Lane C). of (lane q) (some l)) r.1,
        (turn_over max_commands max_bytes v.queue q v.shared_budget r.2 c, k),
      )
  act-shared false op q e b w h =
      let r =
        apply-lane_apply max_commands max_bytes commands_fit bytes_fit true (length e.state.items)
          (total_bytes e.state.items) op (record { queue = q; shared_budget = b; shared_wake = w })
          h.0 in
      (r.0, ap (λ (l : Lane C). of l (some (lane e))) r.1, (r.2, h.1))

  pub act-Matches :
      (is_expensive : Bool) (op : Operation C) (q : BoundedQueue (SearchCommand C))
      (e : Option (BoundedQueue (SearchCommand C))) (b : Option QueueBudget) (w : Option QueueWake)
      → IsAccounted max_commands max_bytes q e b
      → Matches
          (act is_expensive op (record { ordinary = q; expensive = e; budget = b; wake = w }))
          (lanes_act max_commands max_bytes is_expensive op
            (lanes (record { ordinary = q; expensive = e; budget = b; wake = w })))
  act-Matches is_expensive op q none b w h = act-ordinary is_expensive op q b w h
  act-Matches is_expensive op q (some e) b w h = act-shared is_expensive op q e b w h

  abbrev pub Follows : List (Outcome C) × SearchQueues C → List (Outcome C) × Lanes C → Type ℓ
  Follows r t = (r.0 ≡ t.0) × (lanes r.1 ≡ t.1) × IsSearchQueues max_commands max_bytes r.1

  run-Follows :
      (ops : List (Bool × Operation C)) (s : SearchQueues C)
      → IsSearchQueues max_commands max_bytes s
      → Follows (run ops s) (lanes_run max_commands max_bytes ops (lanes s))
  unfolding run lanes_run
  run-Follows [] s h = (refl, refl, h)
  run-Follows ((is_expensive, op) ∷ ops) s h =
      let m = act-Matches is_expensive op s.ordinary s.expensive s.budget s.wake h in
      let r = run-Follows ops (act is_expensive op s).1 m.2 in
      let outcome = act is_expensive op s in
      let spec = lanes_act max_commands max_bytes is_expensive op (lanes s) in
      let same : lanes_run max_commands max_bytes ops (lanes outcome.1)
          ≡ lanes_run max_commands max_bytes ops spec.1 =
        ap (λ (l : Lanes C). lanes_run max_commands max_bytes ops l) m.1 in
      subst
        (λ (t : List (Outcome C) × Lanes C).
          Follows (outcome.0 ∷ (run ops outcome.1).0, (run ops outcome.1).1) (spec.0 ∷ t.0, t.1))
        same (rw (m.0) (ap (◌∷◌ spec.0) r.0, r.1, r.2))

new_queue-IsCounted {ℓ} :
    {C : Type ℓ} (max_commands max_bytes : ℕ)
    → IsCounted max_commands max_bytes (new_queue {V = SearchCommand C} max_commands max_bytes)
unfolding new_queue total_bytes
new_queue-IsCounted max_commands max_bytes = record {
  commands = refl;
  bytes = refl;
  state_bytes = refl;
  max_commands_kept = refl;
  max_bytes_kept = refl;
}

start_queues-IsSearchQueues {ℓ} :
    (C : Type ℓ) (max_commands max_bytes search_threads : ℕ)
    → IsSearchQueues max_commands max_bytes
        (start_queues {C = C} max_commands max_bytes search_threads)
unfolding start_queues new_queue new_budget total_bytes
start_queues-IsSearchQueues C max_commands max_bytes n = elim (Bool-cases (leb 2 n)) [
  | inl e ↦ rw e (
    record {
      counted = new_queue-IsCounted max_commands max_bytes;
      shared = (refl, refl, refl, refl, refl);
      few = omega arith;
      small = omega arith;
    },
    new_queue-IsCounted max_commands max_bytes,
  )
  | inr e ↦ rw e (record {
    counted = new_queue-IsCounted max_commands max_bytes;
    shared = (refl, refl, refl);
    few = omega arith;
    small = omega arith;
  })
]

-- From the start of a runtime, whatever its threads do to the search queues and in whatever order, the
-- counters of each queue are the number and the bytes of its commands, the shared budget holds those
-- of both queues together, and these are within the limits; the command limit is a `usize`, the byte
-- limit less than the greatest one.
pub run-IsSearchQueues {ℓ} :
    {C : Type ℓ} (max_commands max_bytes search_threads : ℕ) (ops : List (Bool × Operation C))
    → max_commands ≤ usize_max
    → max_bytes < usize_max
    → IsSearchQueues max_commands max_bytes
        (run ops (start_queues max_commands max_bytes search_threads)).1
run-IsSearchQueues {C} max_commands max_bytes n ops h k =
    (run-Follows max_commands max_bytes h k ops (start_queues max_commands max_bytes n)
      (start_queues-IsSearchQueues C max_commands max_bytes n)).2

-- From the start of a runtime, a run of operations on the search queues returns and refuses what the
-- same run does on plain lists of commands, one for each queue, in which a push is refused exactly
-- where its list is closed or the commands of both lists, or their bytes with the new ones, exceed the
-- limits; and it leaves the same commands in the same order. The command limit is a `usize`, the byte
-- limit less than the greatest one.
pub run-lanes_run {ℓ} :
    {C : Type ℓ} (max_commands max_bytes search_threads : ℕ) (ops : List (Bool × Operation C))
    → max_commands ≤ usize_max
    → max_bytes < usize_max
    → let s = start_queues {C = C} max_commands max_bytes search_threads in
      ((run ops s).0 ≡ (lanes_run max_commands max_bytes ops (lanes s)).0)
      × (lanes (run ops s).1 ≡ (lanes_run max_commands max_bytes ops (lanes s)).1)
run-lanes_run {C} max_commands max_bytes n ops h k =
    let r =
      run-Follows max_commands max_bytes h k ops (start_queues max_commands max_bytes n)
        (start_queues-IsSearchQueues C max_commands max_bytes n) in
    (r.0, r.1)

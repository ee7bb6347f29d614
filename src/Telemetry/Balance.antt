-- ===== src/Telemetry/Balance.antt =====
-- The counters of src/telemetry.rs against the tickets that are live and those that are settled.
use fulltext.Prelude.{
  ℕ, ◌+◌, ◌%◌, ◌^◌, ◌≡◌, refl, arith, Bool, true, false, ◌&&◌, ◌||◌, not, Option, ◌==◌,
  if◌then◌else◌, wrapping_add, Bool-cases, inl, inr,
}
use fulltext.Telemetry.{
  Ticket, Metrics, is_at, on_actor, bind_worker, is_some, admit_request, arm_at, dispatch, start_at,
}

abbrev pub in_flight : ℕ → Option ℕ → Ticket → Bool
in_flight o w t = t.dispatched && is_at o w t

abbrev pub is_finished : ℕ → Option ℕ → Ticket → Bool
is_finished o w t = t.accepted && is_at o w t

abbrev pub is_accepted : ℕ → Ticket → Bool
is_accepted o t = t.accepted && t.operation == o

abbrev pub one_if : Bool → ℕ
one_if b = if b then 1 else 0

-- A ticket that is live: not settled, and dispatched only once it was accepted.
abbrev pub IsLive : Ticket → Type 0
IsLive t = (t.settled ≡ false) × (t.dispatched ≡ true → t.accepted ≡ true)

-- A step on one ticket moves the counters by what it changes of the ticket, beside `n` others.
abbrev pub Balances : (Ticket → Metrics → Ticket × Metrics) → Type 0
Balances f =
    (t : Ticket) (m : Metrics)
    → IsLive t
    → let (t', m') = f t m in
      IsLive t'
      × ((o : ℕ) (n : ℕ)
          → (m.admission o).accepted ≡ (one_if (is_accepted o t) + n) % 2 ^ 64
          → (m'.admission o).accepted ≡ (one_if (is_accepted o t') + n) % 2 ^ 64)
      × ((o : ℕ) (w : Option ℕ) (n : ℕ)
          → (m.actor o w).dispatched ≡ (one_if (in_flight o w t) + n) % 2 ^ 64
          → (m'.actor o w).dispatched ≡ (one_if (in_flight o w t') + n) % 2 ^ 64)
      × ((o : ℕ) (w : Option ℕ)
          → ((m'.actor o w).succeeded ≡ (m.actor o w).succeeded)
            × ((m'.actor o w).failed ≡ (m.actor o w).failed))

pub bind_worker-Balances : (worker : ℕ) → Balances (bind_worker worker)
unfolding bind_worker
bind_worker-Balances worker t m h =
    let s = h.0 in
    let d = h.1 in
    (
      (ground arith, (λ k. ground arith)),
      (λ o n e. ground arith),
      (λ o w n e. ground arith),
      (λ o w. (ground arith, ground arith)),
    )

pub arm_at-Balances : (now : ℕ) → Balances (arm_at now)
unfolding arm_at admit_request wrapping_add
arm_at-Balances now t m h =
    let s = h.0 in
    let d = h.1 in
    (
      (ground arith, (λ k. ground arith)),
      (λ o n e. ground arith),
      (λ o w n e. ground arith),
      (λ o w. (ground arith, ground arith)),
    )

pub dispatch-Balances : Balances dispatch
unfolding dispatch on_actor wrapping_add
dispatch-Balances t m h =
    let s = h.0 in
    let d = h.1 in
    (
      (ground arith, (λ k. ground arith)),
      (λ o n e. ground arith),
      (λ o w n e. ground arith),
      (λ o w. (ground arith, ground arith)),
    )

pub start_at-Balances : (now : ℕ) → Balances (start_at now)
unfolding start_at
start_at-Balances now t m h = elim (Bool-cases (not t.accepted || is_some t.started || t.settled)) [
  | inl e ↦ rw e (h, (λ o n k. k), (λ o w n k. k), (λ o w. (refl, refl)))
  | inr e ↦ rw e (dispatch-Balances t m h)
]

-- ===== src/Admission/Runs.antt =====
-- Runs of a process under the runtime budget of src/native.rs: the budget is never exceeded, and what
-- is decided of it stands.
use fulltext.Prelude.{pick, ℕ, zero, suc, ◌-◌, ◌≡◌, refl, arith, List, [], ◌∷◌}
use fulltext.Admission.Process.{
  RuntimeBudgetState, unconfigured, configured, opened_without_budget, drop_permit, on_budget,
}
use fulltext.Admission.Run.{
  Holder, Process, Event, configure, begin_open, confirm, retain, close, begin_expensive,
  end_expensive, start_process, confirm_holder, retain_holder, close_holder, finish_expensive, step,
  run_process,
}
use fulltext.Admission.Accounts.{pick-Picked}
use fulltext.Admission.Safe.{
  IsAdmitted, IsProcess, configure-IsAdmitted, open-IsAdmitted, at_holder-Keeps, confirm-Keeps,
}
use fulltext.Admission.Held.{retain-Keeps, close-Keeps, acquire-IsProcess, IsWithin-permits}

finish-IsProcess :
    (n : ℕ) (state : RuntimeBudgetState) (holders : List Holder) (permits : ℕ)
    → permits ≡ n
    → IsAdmitted state holders permits
    → IsProcess
        (finish_expensive n (record { state = state; holders = holders; permits = permits }))
unfolding finish_expensive on_budget drop_permit
finish-IsProcess zero state holders permits e h = h
finish-IsProcess (suc n) (unconfigured m) holders permits e h = let z = h.2 in absurd (omega arith)
finish-IsProcess (suc n) opened_without_budget holders permits e h =
    let z = h.1 in absurd (omega arith)
finish-IsProcess (suc n) (configured b) holders permits e h =
    let c = h.1.expensive in
    let f = h.1.expensive_fits in
    let d : b.expensive_searches - 1 ≡ n = omega arith in
    (h.0, rw d (IsWithin-permits b holders permits n (omega arith) h.1))

step-IsProcess : (e : Event) (p : Process) → IsProcess p → IsProcess (step e p)
unfolding step
step-IsProcess (configure limits) p h = configure-IsAdmitted limits p.state p.holders p.permits h
step-IsProcess (begin_open limits read_only) p h = open-IsAdmitted limits read_only p.state p h
step-IsProcess (confirm n) p h =
    at_holder-Keeps confirm_holder confirm-Keeps (pick n p.holders) p (pick-Picked n p.holders) h
step-IsProcess (retain n) p h =
    at_holder-Keeps retain_holder retain-Keeps (pick n p.holders) p (pick-Picked n p.holders) h
step-IsProcess (close n) p h =
    at_holder-Keeps close_holder close-Keeps (pick n p.holders) p (pick-Picked n p.holders) h
step-IsProcess (begin_expensive is_open is_still_open) p h =
    acquire-IsProcess is_open is_still_open p.state p refl h
step-IsProcess end_expensive p h = finish-IsProcess p.permits p.state p.holders p.permits refl h

kept_by_run : (events : List Event) (p : Process) → IsProcess p → IsProcess (run_process events p)
unfolding run_process
kept_by_run [] p h = h
kept_by_run (e ∷ events) p h = kept_by_run events (step e p) (step-IsProcess e p h)

-- Whatever the indexes of a process do, in whatever order: under a configured budget every index holds
-- a reservation, each counter of the budget is the sum of what the reservations use, retained ones
-- included, and within its limit, and so is the number of permits for expensive searches. Before, the
-- pending opens are counted; after an open without a budget no index holds a reservation.
pub run_process-IsProcess : (events : List Event) → IsProcess (run_process events start_process)
unfolding start_process
run_process-IsProcess events = kept_by_run events start_process (tt, refl, refl)

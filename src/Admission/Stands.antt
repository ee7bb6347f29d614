-- ===== src/Admission/Stands.antt =====
-- What is decided of the runtime budget of src/native.rs stands until the restart.
use fulltext.Prelude.{
  pick, ℕ, zero, suc, ◌≡◌, refl, ap, arith, Bool, true, false, List, [], ◌∷◌, Option, none, some,
  ◌∙◌, inl, inr,
}
use fulltext.Error.{Result, ok, err}
use fulltext.Config.{Limits, RuntimeBudgetLimits}
use fulltext.Admission.{RuntimeBudget, admit, drop_reservation}
use fulltext.Admission.Exact.{admit-charge}
use fulltext.Admission.Process.{
  RuntimeBudgetState, unconfigured, configured, opened_without_budget, RuntimeAdmission, budgeted,
  unbudgeted, configure_runtime_budget, admit_runtime, confirm_open, opened_if_pending,
  retain_until_restart, opened_if_unconfigured, drop_admission, fewer_pending,
  try_acquire_expensive, drop_permit, on_budget,
}
use fulltext.Admission.Run.{
  Holder, holding, retained, Process, Event, configure, begin_open, confirm, retain, close,
  begin_expensive, end_expensive, open_with, confirm_holder, retain_with, retain_holder,
  close_holder, at_holder, acquire, finish_expensive, step, run_process,
}

-- What a later state may be: a budget keeps its limits, and opening without one is for good.
abbrev pub Stands : RuntimeBudgetState → RuntimeBudgetState → Type 0
Stands (unconfigured n) later = Unit
Stands (configured b) (unconfigured n) = ⊥
Stands (configured b) (configured c) = c.limits ≡ b.limits
Stands (configured b) opened_without_budget = ⊥
Stands opened_without_budget (unconfigured n) = ⊥
Stands opened_without_budget (configured c) = ⊥
Stands opened_without_budget opened_without_budget = Unit

Stands-refl : (s : RuntimeBudgetState) → Stands s s
Stands-refl (unconfigured n) = tt
Stands-refl (configured b) = refl
Stands-refl opened_without_budget = tt

Stands-trans : (s t u : RuntimeBudgetState) → Stands s t → Stands t u → Stands s u
Stands-trans (unconfigured n) t u h k = tt
Stands-trans (configured b) (unconfigured n) u h k = absurd h
Stands-trans (configured b) (configured c) (unconfigured n) h k = absurd k
Stands-trans (configured b) (configured c) (configured d) h k = k ∙ h
Stands-trans (configured b) (configured c) opened_without_budget h k = absurd k
Stands-trans (configured b) opened_without_budget u h k = absurd h
Stands-trans opened_without_budget (unconfigured n) u h k = absurd h
Stands-trans opened_without_budget (configured c) u h k = absurd h
Stands-trans opened_without_budget opened_without_budget u h k = k

admit-limits :
    (limits : Limits) (read_only : Bool) (b : RuntimeBudget)
    → (admit limits read_only b).1.limits ≡ b.limits
admit-limits limits read_only b = elim (admit-charge limits read_only b) [
  | inl k ↦ rw (k.1) refl
  | inr k ↦ ap (λ (c : RuntimeBudget). c.limits) k.2
]

configure-Stands :
    (limits : RuntimeBudgetLimits) (s : RuntimeBudgetState)
    → Stands s (configure_runtime_budget limits s).1
unfolding configure_runtime_budget
configure-Stands limits (unconfigured n) = tt
configure-Stands limits (configured b) = refl
configure-Stands limits opened_without_budget = tt

admit_runtime-Stands :
    (limits : Limits) (read_only : Bool) (s : RuntimeBudgetState)
    → Stands s (admit_runtime limits read_only s).1
unfolding admit_runtime
admit_runtime-Stands limits read_only (unconfigured n) = tt
admit_runtime-Stands limits read_only (configured b) = admit-limits limits read_only b
admit_runtime-Stands limits read_only opened_without_budget = tt

open_with_state :
    (r : Result RuntimeAdmission) (s : RuntimeBudgetState) (p : Process)
    → (open_with r s p).state ≡ s
unfolding open_with
open_with_state (ok a) s p = refl
open_with_state (err e) s p = refl

on_budget-Stands :
    (f : RuntimeBudget → RuntimeBudget) (s : RuntimeBudgetState)
    → ((b : RuntimeBudget) → (f b).limits ≡ b.limits)
    → Stands s (on_budget f s)
unfolding on_budget
on_budget-Stands f (unconfigured n) h = tt
on_budget-Stands f (configured b) h = h b
on_budget-Stands f opened_without_budget h = tt

abbrev Standing : (Holder → List Holder → Process → Process) → Type 0
Standing f = (x : Holder) (rest : List Holder) (p : Process) → Stands p.state (f x rest p).state

at_holder-Stands :
    (f : Holder → List Holder → Process → Process)
    → Standing f
    → (o : Option (Holder × List Holder)) (p : Process) → Stands p.state (at_holder f o p).state
unfolding at_holder
at_holder-Stands f k none p = Stands-refl p.state
at_holder-Stands f k (some (x, rest)) p = k x rest p

pending-Stands : (s : RuntimeBudgetState) → Stands s (opened_if_pending s)
unfolding opened_if_pending
pending-Stands (unconfigured n) = tt
pending-Stands (configured b) = refl
pending-Stands opened_without_budget = tt

confirm-Stands : Standing confirm_holder
unfolding confirm_holder confirm_open
confirm-Stands (retained r) rest p = Stands-refl p.state
confirm-Stands (holding (budgeted r)) rest p = Stands-refl p.state
confirm-Stands (holding (unbudgeted false)) rest p = Stands-refl p.state
confirm-Stands (holding (unbudgeted true)) rest p = pending-Stands p.state

unconfigured-Stands : (s : RuntimeBudgetState) → Stands s (opened_if_unconfigured s)
unfolding opened_if_unconfigured
unconfigured-Stands (unconfigured n) = tt
unconfigured-Stands (configured b) = refl
unconfigured-Stands opened_without_budget = tt

retain-Stands : Standing retain_holder
unfolding retain_holder retain_until_restart retain_with
retain-Stands (retained r) rest p = Stands-refl p.state
retain-Stands (holding (budgeted r)) rest p = Stands-refl p.state
retain-Stands (holding (unbudgeted false)) rest p = Stands-refl p.state
retain-Stands (holding (unbudgeted true)) rest p = unconfigured-Stands p.state

fewer-Stands : (s : RuntimeBudgetState) → Stands s (fewer_pending s)
unfolding fewer_pending
fewer-Stands (unconfigured n) = tt
fewer-Stands (configured b) = refl
fewer-Stands opened_without_budget = tt

close-Stands : Standing close_holder
unfolding close_holder drop_admission drop_reservation
close-Stands (retained r) rest p = Stands-refl p.state
close-Stands (holding (budgeted r)) rest p =
    on_budget-Stands (drop_reservation r) p.state (λ b. refl)
close-Stands (holding (unbudgeted false)) rest p = Stands-refl p.state
close-Stands (holding (unbudgeted true)) rest p = fewer-Stands p.state

acquire-Stands :
    (is_open is_still_open : Bool) (s : RuntimeBudgetState) (p : Process)
    → p.state ≡ s
    → Stands p.state (acquire is_open is_still_open s p).state
unfolding acquire try_acquire_expensive
acquire-Stands is_open is_still_open (unconfigured n) p e = Stands-refl p.state
acquire-Stands is_open is_still_open opened_without_budget p e = Stands-refl p.state
acquire-Stands is_open is_still_open (configured b) p e = rw e (ground arith)

finish-Stands : (n : ℕ) (p : Process) → Stands p.state (finish_expensive n p).state
unfolding finish_expensive drop_permit
finish-Stands zero p = Stands-refl p.state
finish-Stands (suc n) p = on_budget-Stands drop_permit p.state (λ b. refl)

step-Stands : (e : Event) (p : Process) → Stands p.state (step e p).state
unfolding step
step-Stands (configure limits) p = configure-Stands limits p.state
step-Stands (begin_open limits read_only) p =
    rw
      (open_with_state (admit_runtime limits read_only p.state).0
        (admit_runtime limits read_only p.state).1 p)
      (admit_runtime-Stands limits read_only p.state)
step-Stands (confirm n) p = at_holder-Stands confirm_holder confirm-Stands (pick n p.holders) p
step-Stands (retain n) p = at_holder-Stands retain_holder retain-Stands (pick n p.holders) p
step-Stands (close n) p = at_holder-Stands close_holder close-Stands (pick n p.holders) p
step-Stands (begin_expensive is_open is_still_open) p =
    acquire-Stands is_open is_still_open p.state p refl
step-Stands end_expensive p = finish-Stands p.permits p

-- From any state of a process, whatever its indexes do: a configured budget stays configured, with the
-- same limits, and after an open without a budget none is ever configured.
pub run_process-Stands :
    (events : List Event) (p : Process) → Stands p.state (run_process events p).state
unfolding run_process
run_process-Stands [] p = Stands-refl p.state
run_process-Stands (e ∷ events) p =
    Stands-trans p.state (step e p).state (run_process events (step e p)).state (step-Stands e p)
      (run_process-Stands events (step e p))

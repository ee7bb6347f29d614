-- ===== src/Admission/Run.antt =====
-- What the indexes of a process do to the runtime budget of src/native.rs, one step after another.
use fulltext.Prelude.{
  pick, ℕ, zero, suc, ◌+◌, Bool, List, [], ◌∷◌, Option, none, some, if◌then◌else◌,
}
use fulltext.Error.{Result, ok, err}
use fulltext.Config.{Limits, RuntimeBudgetLimits}
use fulltext.Admission.{BudgetReservation}
use fulltext.Admission.Process.{
  RuntimeBudgetState, unconfigured, configured, opened_without_budget, RuntimeAdmission,
  configure_runtime_budget, admit_runtime, confirm_open, retain_until_restart, drop_admission,
  try_acquire_expensive, drop_permit, on_budget,
}

-- An index that holds its admission, or a reservation that was retained until the restart.
pub data Holder : Type 0 where
  holding : RuntimeAdmission → Holder
  retained : BudgetReservation → Holder

-- The state of the process, what its indexes hold, and its permits for expensive searches.
pub record Process : Type 0 where
  pub state : RuntimeBudgetState
  pub holders : List Holder
  pub permits : ℕ

-- Steps; a number picks a holder by its place.
pub data Event : Type 0 where
  configure : RuntimeBudgetLimits → Event
  begin_open : Limits → (read_only : Bool) → Event
  confirm retain close : ℕ → Event
  begin_expensive : (is_open is_still_open : Bool) → Event
  end_expensive : Event

unfoldable pub start_process : Process
start_process = record { state = unconfigured 0; holders = []; permits = 0 }

unfoldable pub open_with : Result RuntimeAdmission → RuntimeBudgetState → Process → Process
open_with (err e) state p = record p { state = state }
open_with (ok a) state p = record p { state = state; holders = holding a ∷ p.holders }

unfoldable pub confirm_holder : Holder → List Holder → Process → Process
unfolding confirm_open
confirm_holder (retained r) rest p = p
confirm_holder (holding a) rest p =
    let (kept, state) = confirm_open a p.state in
    record p { state = state; holders = holding kept ∷ rest }

unfoldable pub retain_with :
    Option BudgetReservation → RuntimeBudgetState → List Holder → Process → Process
retain_with none state rest p = record p { state = state; holders = rest }
retain_with (some r) state rest p = record p { state = state; holders = retained r ∷ rest }

unfoldable pub retain_holder : Holder → List Holder → Process → Process
unfolding retain_until_restart retain_with
retain_holder (retained r) rest p = p
retain_holder (holding a) rest p =
    let (kept, state) = retain_until_restart a p.state in retain_with kept state rest p

unfoldable pub close_holder : Holder → List Holder → Process → Process
unfolding drop_admission
close_holder (retained r) rest p = p
close_holder (holding a) rest p = record p { state = drop_admission a p.state; holders = rest }

unfoldable pub at_holder :
    (Holder → List Holder → Process → Process) → Option (Holder × List Holder) → Process → Process
at_holder f none p = p
at_holder f (some (h, rest)) p = f h rest p

unfoldable pub acquire : Bool → Bool → RuntimeBudgetState → Process → Process
unfolding try_acquire_expensive
acquire is_open is_still_open (configured b) p =
    let (given, next) = try_acquire_expensive is_open is_still_open b in
    record p { state = configured next; permits = if given then p.permits + 1 else p.permits }
acquire is_open is_still_open (unconfigured n) p = p
acquire is_open is_still_open opened_without_budget p = p

unfoldable pub finish_expensive : ℕ → Process → Process
unfolding drop_permit on_budget
finish_expensive zero p = p
finish_expensive (suc n) p = record p { state = on_budget drop_permit p.state; permits = n }

unfoldable pub step : Event → Process → Process
unfolding configure_runtime_budget admit_runtime pick open_with confirm_holder retain_holder
    close_holder at_holder acquire finish_expensive
step (configure limits) p = record p { state = (configure_runtime_budget limits p.state).1 }
step (begin_open limits read_only) p =
    let (r, state) = admit_runtime limits read_only p.state in open_with r state p
step (confirm n) p = at_holder confirm_holder (pick n p.holders) p
step (retain n) p = at_holder retain_holder (pick n p.holders) p
step (close n) p = at_holder close_holder (pick n p.holders) p
step (begin_expensive is_open is_still_open) p = acquire is_open is_still_open p.state p
step end_expensive p = finish_expensive p.permits p

unfoldable pub run_process : List Event → Process → Process
unfolding step
run_process [] p = p
run_process (e ∷ events) p = run_process events (step e p)

-- ===== src/Admission/Process.antt =====
-- The runtime budget of a process, `RuntimeBudgetState` of src/native.rs, and the admissions that its
-- indexes hold. What reads or changes that state runs under its lock, and what takes or gives back a
-- permit for an expensive search under the lock of that count. A reservation in the budget is dropped
-- under no lock: its counters are released one after another, and the model takes these releases
-- together as one step. Releases only make room, and opens run one at a time under the lock. So an open
-- that is refused while a reservation is being dropped is one that came before the drop, and an open that
-- is admitted then came after it; only the counter that a refusal names can differ.
use fulltext.Prelude.{
  ℕ, zero, suc, ◌+◌, ◌-◌, Bool, true, false, ◌&&◌, ◌||◌, not, String, [], Option, none, some, leb,
  ◌==◌, if◌then◌else◌, usize_max,
}
use fulltext.Error.{FulltextError, Result, ok, err, new, lock_busy, resource_limit}
use fulltext.Config.{Limits, RuntimeBudgetLimits}
use fulltext.Admission.{
  RuntimeBudget, BudgetReservation, new_runtime_budget, admit, drop_reservation,
}

pub data RuntimeBudgetState : Type 0 where
  unconfigured : (pending_opens : ℕ) → RuntimeBudgetState
  configured : RuntimeBudget → RuntimeBudgetState
  opened_without_budget : RuntimeBudgetState

-- `RuntimeAdmissionKind`, the only field of a `RuntimeAdmission`.
pub data RuntimeAdmission : Type 0 where
  budgeted : BudgetReservation → RuntimeAdmission
  unbudgeted : (pending : Bool) → RuntimeAdmission

unfoldable pub limits_eq : RuntimeBudgetLimits → RuntimeBudgetLimits → Bool
limits_eq a b =
    a.max_resident_indexes == b.max_resident_indexes
    && a.max_indexing_threads == b.max_indexing_threads
    && a.max_search_threads == b.max_search_threads
    && a.max_writer_memory_bytes == b.max_writer_memory_bytes
    && a.max_queued_bytes == b.max_queued_bytes
    && a.max_expensive_searches == b.max_expensive_searches

refused_by : String → FulltextError
refused_by message = new resource_limit message []

unfoldable pub configure_runtime_budget :
    RuntimeBudgetLimits → RuntimeBudgetState → Result (Unit {0}) × RuntimeBudgetState
unfolding new_runtime_budget limits_eq refused_by
configure_runtime_budget limits (unconfigured zero) =
    (ok tt, configured (new_runtime_budget limits))
configure_runtime_budget limits (unconfigured (suc n)) = (
  err (
      new lock_busy
        "the process-wide fulltext runtime budget cannot be configured while an index open is pending"
        []),
  unconfigured (suc n),
)
configure_runtime_budget limits (configured b) = (
  if limits_eq b.limits limits
      then ok tt
      else err
          (refused_by "the process-wide fulltext runtime budget is already configured differently"),
  configured b,
)
configure_runtime_budget limits opened_without_budget = (
  err (
      refused_by
        "the process-wide fulltext runtime budget cannot be configured after an unbudgeted open or unproven teardown; restart the process"),
  opened_without_budget,
)

unfoldable pub admitted : Result BudgetReservation → Result RuntimeAdmission
admitted (ok r) = ok (budgeted r)
admitted (err e) = err e

unfoldable pub admit_runtime :
    Limits → Bool → RuntimeBudgetState → Result RuntimeAdmission × RuntimeBudgetState
unfolding admit admitted refused_by
admit_runtime limits read_only (unconfigured n) =
    if leb usize_max n
    then (err (refused_by "too many pending index opens"), unconfigured n)
    else (ok (unbudgeted true), unconfigured (suc n))
admit_runtime limits read_only (configured b) =
    let (r, next) = admit limits read_only b in (admitted r, configured next)
admit_runtime limits read_only opened_without_budget =
    (ok (unbudgeted false), opened_without_budget)

-- `matches!(…, Unconfigured { pending_opens } if *pending_opens > 0)`
unfoldable pub opened_if_pending : RuntimeBudgetState → RuntimeBudgetState
opened_if_pending (unconfigured zero) = unconfigured zero
opened_if_pending (unconfigured (suc n)) = opened_without_budget
opened_if_pending (configured b) = configured b
opened_if_pending opened_without_budget = opened_without_budget

unfoldable pub confirm_open :
    RuntimeAdmission → RuntimeBudgetState → RuntimeAdmission × RuntimeBudgetState
unfolding opened_if_pending
confirm_open (budgeted r) state = (budgeted r, state)
confirm_open (unbudgeted false) state = (unbudgeted false, state)
confirm_open (unbudgeted true) state = (unbudgeted false, opened_if_pending state)

unfoldable pub opened_if_unconfigured : RuntimeBudgetState → RuntimeBudgetState
opened_if_unconfigured (unconfigured n) = opened_without_budget
opened_if_unconfigured (configured b) = configured b
opened_if_unconfigured opened_without_budget = opened_without_budget

-- The reservation that is never dropped, and the state.
unfoldable pub retain_until_restart :
    RuntimeAdmission → RuntimeBudgetState → Option BudgetReservation × RuntimeBudgetState
unfolding opened_if_unconfigured
retain_until_restart (budgeted r) state = (some r, state)
retain_until_restart (unbudgeted false) state = (none, state)
retain_until_restart (unbudgeted true) state = (none, opened_if_unconfigured state)

unfoldable pub on_budget : (RuntimeBudget → RuntimeBudget) → RuntimeBudgetState → RuntimeBudgetState
on_budget f (configured b) = configured (f b)
on_budget f (unconfigured n) = unconfigured n
on_budget f opened_without_budget = opened_without_budget

unfoldable pub fewer_pending : RuntimeBudgetState → RuntimeBudgetState
fewer_pending (unconfigured n) = unconfigured (n - 1)
fewer_pending (configured b) = configured b
fewer_pending opened_without_budget = opened_without_budget

-- `Drop for RuntimeAdmission`, and for the reservation in it, whose subtractions are one step here. Its
-- budget is the one of the process.
unfoldable pub drop_admission : RuntimeAdmission → RuntimeBudgetState → RuntimeBudgetState
unfolding on_budget drop_reservation fewer_pending
drop_admission (budgeted r) state = on_budget (drop_reservation r) state
drop_admission (unbudgeted false) state = state
drop_admission (unbudgeted true) state = fewer_pending state

-- Whether a permit is given; `is_open` and `is_still_open` are the loads of the runtime's state.
unfoldable pub try_acquire_expensive : Bool → Bool → RuntimeBudget → Bool × RuntimeBudget
try_acquire_expensive is_open is_still_open b =
    if not is_open
    then (false, b)
    else if leb b.limits.max_expensive_searches b.expensive_searches || not is_still_open
    then (false, b)
    else (true, record b { expensive_searches = b.expensive_searches + 1 })

-- `Drop for ExpensiveSearchPermit`.
unfoldable pub drop_permit : RuntimeBudget → RuntimeBudget
drop_permit b = record b { expensive_searches = b.expensive_searches - 1 }

-- ===== src/Admission.antt =====
-- `RuntimeBudget` and `BudgetReservation` of src/native.rs: what the open indexes of a process may use
-- together. An atomic counter is a number; `fetch_update` is one step on it.
pub mod Exact
pub mod Process
pub mod Run
pub mod Accounts
pub mod Safe
pub mod Held
pub mod Runs
pub mod Stands
use fulltext.Prelude.{
  ℕ, ◌+◌, ◌-◌, ◌*◌, ◌≤◌, ◌≡◌, String, Bool, true, false, ◌&&◌, ◌||◌, not, List, [], Option, none,
  some, leb, ltb, ◌==◌, if◌then◌else◌, usize_max,
}
use fulltext.Error.{FulltextError, Result, ok, err, new, resource_limit}
use fulltext.Config.{Limits, RuntimeBudgetLimits}

pub record RuntimeBudget : Type 0 where
  pub limits : RuntimeBudgetLimits
  pub resident_indexes : ℕ
  pub indexing_threads : ℕ
  pub search_threads : ℕ
  pub writer_memory_bytes : ℕ
  pub queued_bytes : ℕ
  pub expensive_searches : ℕ

pub record BudgetReservation : Type 0 where
  pub resident : Bool
  pub indexing_threads : ℕ
  pub search_threads : ℕ
  pub writer_memory_bytes : ℕ
  pub queued_bytes : ℕ

unfoldable pub new_runtime_budget : RuntimeBudgetLimits → RuntimeBudget
new_runtime_budget limits = record {
  limits = limits;
  resident_indexes = 0;
  indexing_threads = 0;
  search_threads = 0;
  writer_memory_bytes = 0;
  queued_bytes = 0;
  expensive_searches = 0;
}

exceeded : String → FulltextError
exceeded message = new resource_limit message []

-- The counter behind a reservation; a refused one keeps its value.
unfoldable pub reserve : ℕ → ℕ → ℕ → String → Result ℕ
unfolding exceeded
reserve counter amount maximum message =
    if leb (counter + amount) usize_max && leb (counter + amount) maximum
    then ok (counter + amount)
    else err (exceeded message)

unfoldable pub release : ℕ → ℕ → ℕ
release counter amount =
    if amount == 0 then counter else if leb amount counter then counter - amount else counter

-- `Drop for BudgetReservation`.
unfoldable pub drop_reservation : BudgetReservation → RuntimeBudget → RuntimeBudget
unfolding release
drop_reservation r b = record b {
  resident_indexes = if r.resident then release b.resident_indexes 1 else b.resident_indexes;
  indexing_threads = release b.indexing_threads r.indexing_threads;
  search_threads = release b.search_threads r.search_threads;
  writer_memory_bytes = release b.writer_memory_bytes r.writer_memory_bytes;
  queued_bytes = release b.queued_bytes r.queued_bytes;
}

-- An admission on its way: the budget, and the part of the reservation that is made.
pub record Progress : Type 0 where
  pub budget : RuntimeBudget
  pub admission : BudgetReservation

pub data Attempt : Type 0 where
  going : Progress → Attempt
  failed : FulltextError → Progress → Attempt

abbrev pub and_then : Attempt → (Progress → Attempt) → Attempt
and_then (going p) next = next p
and_then (failed e p) next = failed e p

infixl 5 ◌>>=◌
abbrev pub ◌>>=◌ : Attempt → (Progress → Attempt) → Attempt
m >>= next = and_then m next

-- `reserve(…)?`, with what follows a success.
unfoldable pub attempt : Progress → Result ℕ → (ℕ → Progress) → Attempt
attempt p (ok next) kept = going (kept next)
attempt p (err e) kept = failed e p

unfoldable pub reserve_resident : Progress → Attempt
unfolding reserve attempt
reserve_resident p =
    let b = p.budget in
    attempt p
      (reserve b.resident_indexes 1 b.limits.max_resident_indexes
        "process-wide resident indexes limit exceeded")
      (λ next. record {
        budget = record b { resident_indexes = next };
        admission = record (p.admission) { resident = true };
      })

unfoldable pub reserve_indexing_threads : ℕ → Progress → Attempt
unfolding reserve attempt
reserve_indexing_threads amount p =
    let b = p.budget in
    attempt p
      (reserve b.indexing_threads amount b.limits.max_indexing_threads
        "process-wide indexing threads limit exceeded")
      (λ next. record {
        budget = record b { indexing_threads = next };
        admission = record (p.admission) { indexing_threads = amount };
      })

unfoldable pub reserve_search_threads : ℕ → Progress → Attempt
unfolding reserve attempt
reserve_search_threads amount p =
    let b = p.budget in
    attempt p
      (reserve b.search_threads amount b.limits.max_search_threads
        "process-wide search threads limit exceeded")
      (λ next. record {
        budget = record b { search_threads = next };
        admission = record (p.admission) { search_threads = amount };
      })

unfoldable pub reserve_writer_memory : ℕ → Progress → Attempt
unfolding reserve attempt
reserve_writer_memory amount p =
    let b = p.budget in
    attempt p
      (reserve b.writer_memory_bytes amount b.limits.max_writer_memory_bytes
        "process-wide writer memory limit exceeded")
      (λ next. record {
        budget = record b { writer_memory_bytes = next };
        admission = record (p.admission) { writer_memory_bytes = amount };
      })

unfoldable pub reserve_queued_bytes : ℕ → Progress → Attempt
unfolding reserve attempt exceeded
reserve_queued_bytes amount p =
    let b = p.budget in
    if ltb usize_max amount
    then failed (exceeded "configured queue capacity overflows") p
    else attempt p
        (reserve b.queued_bytes amount b.limits.max_queued_bytes
          "process-wide queued bytes limit exceeded")
        (λ next. record {
          budget = record b { queued_bytes = next };
          admission = record (p.admission) { queued_bytes = amount };
        })

abbrev pub nothing_reserved : BudgetReservation
nothing_reserved = record {
  resident = false;
  indexing_threads = 0;
  search_threads = 0;
  writer_memory_bytes = 0;
  queued_bytes = 0;
}

-- An error drops the part of the reservation that was made.
unfoldable pub settle_attempt : Attempt → Result BudgetReservation × RuntimeBudget
unfolding drop_reservation
settle_attempt (going p) = (ok p.admission, p.budget)
settle_attempt (failed e p) = (err e, drop_reservation p.admission p.budget)

unless : Bool → (Progress → Attempt) → Progress → Attempt
unless true step p = going p
unless false step p = step p

-- `RuntimeBudget::admit`.
unfoldable pub admit : Limits → Bool → RuntimeBudget → Result BudgetReservation × RuntimeBudget
unfolding reserve_resident reserve_indexing_threads reserve_search_threads reserve_writer_memory
    reserve_queued_bytes settle_attempt unless
admit limits read_only budget = settle_attempt (
    reserve_resident (record { budget = budget; admission = nothing_reserved })
    >>= unless read_only (reserve_indexing_threads limits.indexing_threads)
    >>= reserve_search_threads limits.search_threads
    >>= unless read_only (reserve_writer_memory limits.writer_memory_bytes)
    >>= reserve_queued_bytes (limits.max_queued_bytes * (if read_only then 1 else 2)))

-- ===== src/Examples/Served.antt =====
-- The theorems on the search queues and on the runtime budget, applied at concrete inputs.
use fulltext.Prelude.{ℕ, ◌+◌, ◌≡◌, ◌⊎◌, refl, arith, Bool, true, false, List, [], ◌∷◌, none}
use fulltext.Error.{ok}
use fulltext.Config.{Limits, RuntimeBudgetLimits}
use fulltext.Queue.{
  Queued, QueueView, pop, finished, try_push_tracked, check_capacity, shutdown_after_drain,
}
use fulltext.Queue.Expiry.{SearchCommand, SearchOperation}
use fulltext.Queue.Search.{Operation, push, take_one, close_all, take_expired, run, start_queues}
use fulltext.Queue.Lanes.{lanes, lanes_run}
use fulltext.Queue.Runs.{IsSearchQueues, run-lanes_run, run-IsSearchQueues}
use fulltext.Queue.Ends.{pop_each, pop-shutdown_after_drain, try_push_tracked-check_capacity}
use fulltext.Admission.{RuntimeBudget, new_runtime_budget, admit}
use fulltext.Admission.Exact.{fits, demand, charge, IsRefused, admit-charge}
use fulltext.Admission.Process.{configured, budgeted}
use fulltext.Admission.Run.{
  holding, Process, Event, configure, begin_open, confirm, retain, close, begin_expensive,
  end_expensive, start_process, run_process,
}
use fulltext.Admission.Safe.{IsProcess}
use fulltext.Admission.Runs.{run_process-IsProcess}
use fulltext.Admission.Stands.{Stands, run_process-Stands}

-- A trace that cannot be read, so that it has no time left, from the caller with this number.
abbrev command : ℕ → SearchCommand ℕ
command n = record { operation = SearchOperation.trace (b'F' ∷ []); completion = n }

abbrev armed : SearchCommand ℕ → ℕ → SearchCommand ℕ
armed c now = record c { completion = now }

abbrev served : List (Bool × Operation ℕ)
served =
    (false, push (command 1) 3 (ok tt) armed 10)
    ∷ (true, push (command 2) 4 (ok tt) armed 20)
    ∷ (true, push (command 3) 9 (ok tt) armed 30)
    ∷ (true, take_expired (λ i. 40 + i))
    ∷ (false, take_one)
    ∷ (false, close_all)
    ∷ []

run-lanes_run_example :
    ((run served (start_queues 2 8 2)).0 ≡ (lanes_run 2 8 served (lanes (start_queues 2 8 2))).0)
    × (lanes (run served (start_queues 2 8 2)).1
        ≡ (lanes_run 2 8 served (lanes (start_queues 2 8 2))).1)
run-lanes_run_example = run-lanes_run 2 8 2 served (omega arith) (omega arith)

run-IsSearchQueues_example : IsSearchQueues 2 8 (run served (start_queues 2 8 2)).1
run-IsSearchQueues_example = run-IsSearchQueues 2 8 2 served (omega arith) (omega arith)

abbrev waiting_items : List (Queued ℕ)
waiting_items =
    record { value = 7; bytes = 2; enqueued = 1 }
    ∷ record { value = 8; bytes = 3; enqueued = 2 }
    ∷ []

abbrev full_view : QueueView ℕ
full_view = record {
  queue = record {
    state = record { items = waiting_items; bytes = 5; is_closed = false };
    max_commands = 2;
    max_bytes = 8;
    queued_commands = 2;
    queued_bytes = 5;
  };
  shared_budget = none;
  shared_wake = none;
}

pop-shutdown_after_drain_example :
    ((pop_each 2 (shutdown_after_drain full_view)).0 ≡ waiting_items)
    × ((pop (pop_each 2 (shutdown_after_drain full_view)).1).0 ≡ finished)
pop-shutdown_after_drain_example = pop-shutdown_after_drain full_view

try_push_tracked-check_capacity_example :
    (try_push_tracked 9 4 (ok tt) (λ v now. now) 5 full_view).0 ≡ check_capacity full_view 4
try_push_tracked-check_capacity_example =
    try_push_tracked-check_capacity 9 4 (λ v now. now) 5 full_view

abbrev budget_limits : RuntimeBudgetLimits
budget_limits = record {
  max_resident_indexes = 2;
  max_indexing_threads = 1;
  max_search_threads = 4;
  max_writer_memory_bytes = 16000000;
  max_queued_bytes = 4000000;
  max_expensive_searches = 1;
}

abbrev index_limits : Limits
index_limits = record {
  max_query_terms = 64;
  max_query_clauses = 256;
  indexing_threads = 1;
  search_threads = 2;
  writer_memory_bytes = 15000000;
  max_queued_commands = 16;
  max_queued_bytes = 1048576;
  max_batch_bytes = 65536;
}

admit-charge_example :
    let b = new_runtime_budget budget_limits in
    ((fits index_limits false b ≡ true)
      × (admit index_limits false b
          ≡ (ok (demand index_limits false), charge (demand index_limits false) b)))
    ⊎ ((fits index_limits false b ≡ false)
        × IsRefused (admit index_limits false b).0
        × ((admit index_limits false b).1 ≡ b))
admit-charge_example = admit-charge index_limits false (new_runtime_budget budget_limits)

abbrev day : List Event
day =
    configure budget_limits
    ∷ begin_open index_limits false
    ∷ begin_open index_limits false
    ∷ begin_open index_limits true
    ∷ confirm 0
    ∷ begin_expensive true true
    ∷ begin_expensive true true
    ∷ retain 1
    ∷ end_expensive
    ∷ close 0
    ∷ []

run_process-IsProcess_example : IsProcess (run_process day start_process)
run_process-IsProcess_example = run_process-IsProcess day

abbrev opened_budget : RuntimeBudget
opened_budget = (admit index_limits false (new_runtime_budget budget_limits)).1

-- Its budget is configured, and one index is open.
abbrev busy : Process
busy = record {
  state = configured opened_budget;
  holders = holding (budgeted (demand index_limits false)) ∷ [];
  permits = 0;
}

abbrev other_limits : RuntimeBudgetLimits
other_limits = record budget_limits { max_resident_indexes = 9 }

abbrev evening : List Event
evening =
    configure other_limits
    ∷ begin_open index_limits true
    ∷ confirm 0
    ∷ begin_expensive true true
    ∷ retain 1
    ∷ end_expensive
    ∷ close 0
    ∷ configure other_limits
    ∷ []

run_process-Stands_example : Stands (configured opened_budget) (run_process evening busy).state
run_process-Stands_example = run_process-Stands evening busy

-- There the statement says that the limits are the ones configured at first.
evening_keeps_limits :
    Stands (configured opened_budget) (run_process evening busy).state
    ≡ (budget_limits ≡ budget_limits)
unfolding run_process admit new_runtime_budget
evening_keeps_limits = refl

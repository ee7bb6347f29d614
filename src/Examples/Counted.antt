-- ===== src/Examples/Counted.antt =====
-- The theorems on the tickets of src/telemetry.rs and the panics of src/boundary.rs, applied at
-- concrete runs.
use fulltext.Prelude.{ℕ, ◌≡◌, List, [], ◌∷◌, true, false}
use fulltext.Boundary
use fulltext.Boundary.{returned, panicked, enter, leave, run_handle}
use fulltext.Boundary.Poisoned.{AreErrors, run_handle-panicked}
use fulltext.Telemetry.Ledger.{
  Event, begin, bind, arm, start, hand_over, finish, IsLedger, run_tickets, new_ledger,
}
use fulltext.Telemetry.Runs.{run_tickets-IsLedger}

-- Two searches, of which one is bound to a worker, and a commit that is refused before it is armed.
abbrev events : List Event
events =
    begin 5 12
    ∷ begin 5 20
    ∷ begin 1 0
    ∷ arm 1 100
    ∷ arm 2 110
    ∷ bind 0 1
    ∷ hand_over 0
    ∷ start 0 120
    ∷ finish 0 false
    ∷ finish 0 true
    ∷ []

run_tickets-IsLedger_example : IsLedger (run_tickets events (new_ledger 2))
run_tickets-IsLedger_example = run_tickets-IsLedger 2 events

-- The events that follow a panic: another operation returns, and a third is called.
abbrev after_panic : List (Boundary.Event ℕ)
after_panic = leave (returned 7) ∷ enter ∷ []

run_handle-panicked_example :
    let r =
      run_handle (leave panicked ∷ after_panic) (record { is_poisoned = false; running = 2 }) in
    AreErrors r.0 × (r.1.is_poisoned ≡ true)
run_handle-panicked_example = run_handle-panicked after_panic 1 false

-- ===== src/Telemetry/Ledger.antt =====
-- Runs of the tickets of src/telemetry.rs: no operation is lost or counted twice.
use fulltext.Prelude.{
  ℕ, zero, suc, ◌+◌, ◌%◌, ◌^◌, ◌≡◌, refl, arith, Bool, List, [], ◌∷◌, Option, none, some, pick,
}
use fulltext.Telemetry.{Ticket, Metrics, ticket, bind_worker, arm_at, dispatch, start_at, settle}
use fulltext.Telemetry.Balance.{in_flight, is_finished, is_accepted, one_if, IsLive}

-- Settling consumes a ticket, so that nothing is done to it after that.
pub record Ledger : Type 0 where
  pub metrics : Metrics
  pub live : List Ticket
  pub done : List Ticket

-- Steps; a number picks a live ticket by its place.
pub data Event : Type 0 where
  begin : (operation bytes : ℕ) → Event
  bind arm start : ℕ → ℕ → Event
  hand_over : ℕ → Event
  finish : ℕ → (is_error : Bool) → Event

unfoldable pub update :
    (Ticket → Metrics → Ticket × Metrics) → Option (Ticket × List Ticket) → Ledger → Ledger
update f none l = l
update f (some (t, rest)) l =
    let (t, m) = f t l.metrics in record l { metrics = m; live = t ∷ rest }

unfoldable pub finish_ticket : Bool → Option (Ticket × List Ticket) → Ledger → Ledger
unfolding settle
finish_ticket is_error none l = l
finish_ticket is_error (some (t, rest)) l =
    let (t, m) = settle is_error t l.metrics in
    record { metrics = m; live = rest; done = t ∷ l.done }

unfoldable pub step : Event → Ledger → Ledger
unfolding ticket update finish_ticket bind_worker arm_at dispatch start_at pick
step (begin operation bytes) l = record l { live = ticket operation bytes ∷ l.live }
step (bind n worker) l = update (bind_worker worker) (pick n l.live) l
step (arm n now) l = update (arm_at now) (pick n l.live) l
step (start n now) l = update (start_at now) (pick n l.live) l
step (hand_over n) l = update dispatch (pick n l.live) l
step (finish n is_error) l = finish_ticket is_error (pick n l.live) l

unfoldable pub run_tickets : List Event → Ledger → Ledger
unfolding step
run_tickets [] l = l
run_tickets (e ∷ events) l = run_tickets events (step e l)

unfoldable pub new_ledger : ℕ → Ledger
new_ledger workers = record {
  metrics = record {
    workers = workers;
    admission = λ operation. record { accepted = 0; request_bytes = 0 };
    actor = λ operation worker. record { dispatched = 0; succeeded = 0; failed = 0 };
  };
  live = [];
  done = [];
}

abbrev pub count : (Ticket → Bool) → List Ticket → ℕ
count p [] = 0
count p (t ∷ tickets) = one_if (p t) + count p tickets

abbrev pub AreLive : List Ticket → Type 0
AreLive [] = Unit
AreLive (t ∷ tickets) = IsLive t × AreLive tickets

-- A `u64` counts up to its wrap-around.
pub record IsLedger (l : Ledger) : Type 0 where
  pub live : AreLive l.live
  pub accepted :
      (o : ℕ)
      → (l.metrics.admission o).accepted
        ≡ (count (is_accepted o) l.live + count (is_accepted o) l.done) % 2 ^ 64
  pub dispatched :
      (o : ℕ) (w : Option ℕ)
      → (l.metrics.actor o w).dispatched ≡ count (in_flight o w) l.live % 2 ^ 64
  pub ended :
      (o : ℕ) (w : Option ℕ)
      → ((l.metrics.actor o w).succeeded + (l.metrics.actor o w).failed) % 2 ^ 64
        ≡ count (is_finished o w) l.done % 2 ^ 64

abbrev pub Picked : List Ticket → Option (Ticket × List Ticket) → Type 0
Picked tickets none = Unit
Picked tickets (some (t, rest)) =
    ((p : Ticket → Bool) → count p tickets ≡ one_if (p t) + count p rest)
    × (AreLive tickets → IsLive t × AreLive rest)

skip_ticket :
    (x : Ticket) (l : List Ticket) (o : Option (Ticket × List Ticket))
    → Picked l o
    → Picked (x ∷ l) (elim o [ none ↦ none | some p ↦ some (p.0, x ∷ p.1) ])
skip_ticket x l none h = tt
skip_ticket x l (some (t, rest)) h =
    ((λ p. let e = h.0 p in omega arith), (λ k. let r = h.1 k.1 in (r.0, (k.0, r.1))))

pub pick-Picked : (n : ℕ) (l : List Ticket) → Picked l (pick n l)
unfolding pick
pick-Picked n [] = tt
pick-Picked zero (x ∷ l) = ((λ p. refl), (λ k. k))
pick-Picked (suc n) (x ∷ l) = skip_ticket x l (pick n l) (pick-Picked n l)

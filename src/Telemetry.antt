-- ===== src/Telemetry.antt =====
-- `Ticket` of src/telemetry.rs: what the metrics count of an operation from its admission to its end.
-- Latencies, histograms and the counts of errors by code are left out.
pub mod Balance
pub mod Ledger
pub mod Runs
use fulltext.Prelude.{
  ℕ, zero, suc, ◌+◌, ◌-◌, Bool, true, false, ◌&&◌, ◌||◌, not, List, [], ◌∷◌, Option, none, some,
  ltb, leb, ◌==◌, if◌then◌else◌, wrapping_add, wrapping_sub,
}

pub record Ticket : Type 0 where
  pub operation : ℕ
  pub worker : Option ℕ
  pub bytes : ℕ
  pub accepted : Bool
  pub dispatched : Bool
  pub settled : Bool
  pub enqueued : Option ℕ
  pub started : Option ℕ

pub record ActorCounters : Type 0 where
  pub dispatched : ℕ
  pub succeeded : ℕ
  pub failed : ℕ

pub record Admission : Type 0 where
  pub accepted : ℕ
  pub request_bytes : ℕ

-- The counters of an operation's actor stand at no worker, those of the workers at each of them.
pub record Metrics : Type 0 where
  pub workers : ℕ
  pub admission : ℕ → Admission
  pub actor : ℕ → Option ℕ → ActorCounters

unfoldable pub same_worker : Option ℕ → Option ℕ → Bool
same_worker none none = true
same_worker none (some b) = false
same_worker (some a) none = false
same_worker (some a) (some b) = a == b

-- A ticket counts with the actor of its operation, or with its worker.
unfoldable pub is_at : ℕ → Option ℕ → Ticket → Bool
unfolding same_worker
is_at operation worker t = t.operation == operation && same_worker t.worker worker

unfoldable pub on_actor : Ticket → (ActorCounters → ActorCounters) → Metrics → Metrics
unfolding is_at
on_actor t f m = record m {
  actor = λ operation worker.
      if is_at operation worker t then f (m.actor operation worker) else m.actor operation worker;
}

-- `Metrics::ticket`.
unfoldable pub ticket : ℕ → ℕ → Ticket
ticket operation bytes = record {
  operation = operation;
  worker = none;
  bytes = bytes;
  accepted = false;
  dispatched = false;
  settled = false;
  enqueued = none;
  started = none;
}

unfoldable pub is_some : Option ℕ → Bool
is_some none = false
is_some (some n) = true

unfoldable pub bind_worker : ℕ → Ticket → Metrics → Ticket × Metrics
unfolding is_some
bind_worker worker t m = (
  if not (is_some t.worker)
        && not t.dispatched
        && not t.settled
        && (leb 5 t.operation && ltb t.operation 8)
        && ltb worker m.workers
      then record t { worker = some worker }
      else t,
  m,
)

unfoldable pub admit_request : Ticket → Metrics → Metrics
unfolding wrapping_add
admit_request t m = record m {
  admission = λ operation.
      let a = m.admission operation in
      if t.operation == operation
      then record {
        accepted = wrapping_add a.accepted 1;
        request_bytes = wrapping_add a.request_bytes t.bytes;
      }
      else a;
}

unfoldable pub arm_at : ℕ → Ticket → Metrics → Ticket × Metrics
unfolding admit_request
arm_at enqueued t m =
    if t.accepted
    then (t, m)
    else (record t { accepted = true; enqueued = some enqueued }, admit_request t m)

unfoldable pub dispatch : Ticket → Metrics → Ticket × Metrics
unfolding on_actor wrapping_add
dispatch t m =
    if t.accepted && not t.dispatched
    then (
      record t { dispatched = true },
      on_actor t (λ c. record c { dispatched = wrapping_add c.dispatched 1 }) m,
    )
    else (t, m)

unfoldable pub start_at : ℕ → Ticket → Metrics → Ticket × Metrics
unfolding dispatch is_some
start_at started t m =
    if not t.accepted || is_some t.started || t.settled
    then (t, m)
    else let (t, m) = dispatch t m in (record t { started = some started }, m)

-- The end of an accepted ticket; an error is one of any code.
unfoldable pub finish_actor : Ticket → Bool → ActorCounters → ActorCounters
unfolding wrapping_add wrapping_sub
finish_actor t is_error c = record {
  dispatched = if t.dispatched then wrapping_sub c.dispatched 1 else c.dispatched;
  succeeded = if is_error then c.succeeded else wrapping_add c.succeeded 1;
  failed = if is_error then wrapping_add c.failed 1 else c.failed;
}

unfoldable pub settle : Bool → Ticket → Metrics → Ticket × Metrics
unfolding on_actor finish_actor
settle is_error t m = if t.settled then (t, m) else (
  record t { settled = true },
  if t.accepted then on_actor t (finish_actor t is_error) m else m,
)

-- ===== src/Telemetry/Runs.antt =====
-- The ledger of src/telemetry.rs balances after every run.
use fulltext.Prelude.{
  ℕ, ◌+◌, ◌%◌, ◌^◌, ◌≡◌, refl, ap, arith, Bool, List, [], ◌∷◌, Option, none, some, wrapping_add,
  wrapping_sub, Bool-cases, inl, inr, pick,
}
use fulltext.Telemetry.{
  Ticket, Metrics, on_actor, ticket, bind_worker, arm_at, dispatch, start_at, finish_actor, settle,
}
use fulltext.Telemetry.Balance.{
  in_flight, is_finished, is_accepted, one_if, IsLive, Balances, bind_worker-Balances,
  arm_at-Balances, dispatch-Balances, start_at-Balances,
}
use fulltext.Telemetry.Ledger.{
  Ledger, Event, begin, bind, arm, start, hand_over, finish, update, finish_ticket, step,
  run_tickets, new_ledger, count, IsLedger, Picked, pick-Picked,
}

update-IsLedger :
    (f : Ticket → Metrics → Ticket × Metrics)
    → Balances f
    → (o : Option (Ticket × List Ticket)) (l : Ledger) → Picked l.live o
    → IsLedger l
    → IsLedger (update f o l)
unfolding update
update-IsLedger f k none l p h = h
update-IsLedger f k (some (t, rest)) l p h =
    let r = p.1 h.live in
    let b = k t l.metrics r.0 in
    record {
      live = (b.0, r.1);
      accepted = λ o.
          let e = h.accepted o in
          let c = p.0 (is_accepted o) in
          let u = b.1 o (count (is_accepted o) rest + count (is_accepted o) l.done) (omega arith) in
          omega arith;
      dispatched = λ o w.
          let e = h.dispatched o w in
          let c = p.0 (in_flight o w) in b.2 o w (count (in_flight o w) rest) (omega arith);
      ended = λ o w.
          let e = h.ended o w in let s = b.3 o w in let s₁ = s.0 in let s₂ = s.1 in omega arith;
    }

settle-dispatched :
    (is_error : Bool) (t : Ticket) (m : Metrics) (o : ℕ) (w : Option ℕ) (n : ℕ)
    → IsLive t
    → (m.actor o w).dispatched ≡ (one_if (in_flight o w t) + n) % 2 ^ 64
    → ((settle is_error t m).1.actor o w).dispatched ≡ n % 2 ^ 64
unfolding settle on_actor finish_actor wrapping_sub
settle-dispatched is_error t m o w n h e =
    let s = h.0 in
    let d = h.1 in
    elim (Bool-cases t.dispatched) [ inl f ↦ let a = d f in ground arith | inr f ↦ ground arith ]

settle-ended :
    (is_error : Bool) (t : Ticket) (m : Metrics) (o : ℕ) (w : Option ℕ) (n : ℕ)
    → IsLive t
    → ((m.actor o w).succeeded + (m.actor o w).failed) % 2 ^ 64 ≡ n % 2 ^ 64
    → (((settle is_error t m).1.actor o w).succeeded + ((settle is_error t m).1.actor o w).failed)
        % 2 ^ 64
      ≡ (one_if (is_finished o w (settle is_error t m).0) + n) % 2 ^ 64
unfolding settle on_actor finish_actor wrapping_add
settle-ended is_error t m o w n h e = let s = h.0 in ground arith

settle-accepted :
    (is_error : Bool) (t : Ticket) (m : Metrics) (o : ℕ)
    → IsLive t
    → (((settle is_error t m).1.admission o).accepted ≡ (m.admission o).accepted)
      × (is_accepted o (settle is_error t m).0 ≡ is_accepted o t)
unfolding settle on_actor
settle-accepted is_error t m o h = let s = h.0 in (ground arith, ground arith)

finish-IsLedger :
    (is_error : Bool) (o : Option (Ticket × List Ticket)) (l : Ledger)
    → Picked l.live o
    → IsLedger l
    → IsLedger (finish_ticket is_error o l)
unfolding finish_ticket
finish-IsLedger is_error none l p h = h
finish-IsLedger is_error (some (t, rest)) l p h =
    let r = p.1 h.live in
    record {
      live = r.1;
      accepted = λ o.
          let e = h.accepted o in
          let c = p.0 (is_accepted o) in
          let u = settle-accepted is_error t l.metrics o r.0 in
          let u₁ = u.0 in let u₂ = ap one_if u.1 in omega arith;
      dispatched = λ o w.
          let e = h.dispatched o w in
          let c = p.0 (in_flight o w) in
          settle-dispatched is_error t l.metrics o w (count (in_flight o w) rest) r.0 (omega arith);
      ended = λ o w.
          settle-ended is_error t l.metrics o w (count (is_finished o w) l.done) r.0 (h.ended o w);
    }

begin-IsLedger :
    (operation bytes : ℕ) (l : Ledger) → IsLedger l → IsLedger (step (begin operation bytes) l)
unfolding step ticket
begin-IsLedger operation bytes l h = record {
  live = ((refl, (λ k. absurd (cc))), h.live);
  accepted = λ o. let e = h.accepted o in omega arith;
  dispatched = λ o w. let e = h.dispatched o w in omega arith;
  ended = h.ended;
}

step-IsLedger : (e : Event) (l : Ledger) → IsLedger l → IsLedger (step e l)
unfolding step
step-IsLedger (begin operation bytes) l h = begin-IsLedger operation bytes l h
step-IsLedger (bind n worker) l h =
    update-IsLedger (bind_worker worker) (bind_worker-Balances worker) (pick n l.live) l
      (pick-Picked n l.live) h
step-IsLedger (arm n now) l h =
    update-IsLedger (arm_at now) (arm_at-Balances now) (pick n l.live) l (pick-Picked n l.live) h
step-IsLedger (start n now) l h =
    update-IsLedger (start_at now) (start_at-Balances now) (pick n l.live) l (pick-Picked n l.live)
      h
step-IsLedger (hand_over n) l h =
    update-IsLedger dispatch dispatch-Balances (pick n l.live) l (pick-Picked n l.live) h
step-IsLedger (finish n is_error) l h =
    finish-IsLedger is_error (pick n l.live) l (pick-Picked n l.live) h

kept_by_run : (events : List Event) (l : Ledger) → IsLedger l → IsLedger (run_tickets events l)
unfolding run_tickets
kept_by_run [] l h = h
kept_by_run (e ∷ events) l h = kept_by_run events (step e l) (step-IsLedger e l h)

-- Whatever is done to the tickets of a runtime before each is settled once: the accepted requests of an
-- operation are its accepted tickets, live and settled; what an actor has dispatched is its live
-- tickets that were dispatched; and its successes and failures are its accepted tickets that were
-- settled. Each count is taken up to the wrap-around of a `u64`.
pub run_tickets-IsLedger :
    (workers : ℕ) (events : List Event) → IsLedger (run_tickets events (new_ledger workers))
unfolding new_ledger
run_tickets-IsLedger workers events = kept_by_run events (new_ledger workers) (record {
  live = tt;
  accepted = λ o. omega arith;
  dispatched = λ o w. omega arith;
  ended = λ o w. omega arith;
})

-- ===== src/Admission/Safe.antt =====
-- The invariant of a process that runs under the runtime budget of src/native.rs.
use fulltext.Prelude.{
  ℕ, zero, suc, ◌≡◌, refl, sym, arith, Bool, true, false, List, [], ◌∷◌, Option, none, some,
  if◌then◌else◌, length, inl, inr, Bool-cases, leb, usize_max, ◌∙◌,
}
use fulltext.Error.{Result, ok, err}
use fulltext.Config.{Limits, RuntimeBudgetLimits}
use fulltext.Admission.{RuntimeBudget, BudgetReservation, new_runtime_budget, admit}
use fulltext.Admission.Exact.{admit-charge, IsRefused}
use fulltext.Admission.Process.{
  RuntimeBudgetState, unconfigured, configured, opened_without_budget, budgeted, unbudgeted,
  configure_runtime_budget, admit_runtime, admitted, confirm_open, opened_if_pending,
}
use fulltext.Admission.Run.{
  Holder, holding, retained, Process, open_with, confirm_holder, at_holder,
}
use fulltext.Admission.Accounts.{uses, total, All, IsWithin, IsPicked, Picked, charge-IsWithin}

abbrev pub IsBudgeted : Holder → Type 0
IsBudgeted (holding (budgeted r)) = Unit
IsBudgeted (holding (unbudgeted pending)) = ⊥
IsBudgeted (retained r) = Unit

abbrev pub IsPending : Holder → Type 0
IsPending (holding (budgeted r)) = ⊥
IsPending (holding (unbudgeted pending)) = pending ≡ true
IsPending (retained r) = ⊥

abbrev pub IsUnbudgeted : Holder → Type 0
IsUnbudgeted (holding (budgeted r)) = ⊥
IsUnbudgeted (holding (unbudgeted pending)) = Unit
IsUnbudgeted (retained r) = ⊥

-- Before the budget is configured every holder is an open that is pending, and these are counted. Under
-- a budget every holder has a reservation. Where an index was opened without one, none has.
abbrev pub IsAdmitted : RuntimeBudgetState → List Holder → ℕ → Type 0
IsAdmitted (unconfigured n) holders permits =
    All IsPending holders × (n ≡ length holders) × (permits ≡ 0)
IsAdmitted (configured b) holders permits = All IsBudgeted holders × IsWithin b holders permits
IsAdmitted opened_without_budget holders permits = All IsUnbudgeted holders × (permits ≡ 0)

abbrev pub IsProcess : Process → Type 0
IsProcess p = IsAdmitted p.state p.holders p.permits

pub pending-IsUnbudgeted :
    (holders : List Holder) → All IsPending holders → All IsUnbudgeted holders
pending-IsUnbudgeted [] h = tt
pending-IsUnbudgeted (holding (budgeted r) ∷ holders) h = absurd (h.0)
pending-IsUnbudgeted (holding (unbudgeted b) ∷ holders) h = (tt, pending-IsUnbudgeted holders h.1)
pending-IsUnbudgeted (retained r ∷ holders) h = absurd (h.0)

pub configure-IsAdmitted :
    (limits : RuntimeBudgetLimits) (state : RuntimeBudgetState) (holders : List Holder)
    (permits : ℕ)
    → IsAdmitted state holders permits
    → IsAdmitted (configure_runtime_budget limits state).1 holders permits
unfolding configure_runtime_budget new_runtime_budget
configure-IsAdmitted limits (unconfigured zero) [] permits h =
    let e = h.2 in
    (
      tt,
      record {
        resident = refl;
        indexing = refl;
        searching = refl;
        writing = refl;
        queued = refl;
        expensive = sym e;
        resident_fits = omega arith;
        indexing_fits = omega arith;
        searching_fits = omega arith;
        writing_fits = omega arith;
        queued_fits = omega arith;
        expensive_fits = omega arith;
      },
    )
configure-IsAdmitted limits (unconfigured zero) (x ∷ holders) permits h =
    let e = h.1 in absurd (omega arith)
configure-IsAdmitted limits (unconfigured (suc n)) holders permits h = h
configure-IsAdmitted limits (configured b) holders permits h = h
configure-IsAdmitted limits opened_without_budget holders permits h = h

refused-IsAdmitted :
    (r : Result BudgetReservation) (next b : RuntimeBudget) (p : Process)
    → IsRefused r
    → next ≡ b
    → IsAdmitted (configured b) p.holders p.permits
    → IsProcess (open_with (admitted r) (configured next) p)
unfolding open_with admitted
refused-IsAdmitted (ok r) next b p f e h = absurd f
refused-IsAdmitted (err x) next b p f e h = rw e h

pub open-IsAdmitted :
    (limits : Limits) (read_only : Bool) (state : RuntimeBudgetState) (p : Process)
    → IsAdmitted state p.holders p.permits
    → IsProcess (
        open_with
          (admit_runtime limits read_only state).0
          (admit_runtime limits read_only state).1
          p)
unfolding open_with admit_runtime admitted
open-IsAdmitted limits read_only (unconfigured n) p h =
    let e = h.1 in
    elim (Bool-cases (leb usize_max n)) [
      | inl t ↦ rw t h
      | inr t ↦ rw t ((refl, h.0), omega arith, h.2)
    ]
open-IsAdmitted limits read_only (configured b) p h = elim (admit-charge limits read_only b) [
  | inl k ↦ rw (k.1) ((tt, h.0), charge-IsWithin limits read_only b p.holders p.permits k.0 h.1)
  | inr k ↦
      refused-IsAdmitted (admit limits read_only b).0 (admit limits read_only b).1 b p k.1 k.2 h
]
open-IsAdmitted limits read_only opened_without_budget p h = ((tt, h.0), h.1)

-- A holder that was picked does one thing, and the process is as it should be again.
abbrev pub Keeps : (Holder → List Holder → Process → Process) → Type 1
Keeps f =
    (x : Holder) (rest : List Holder) (state : RuntimeBudgetState) (holders : List Holder)
    (permits : ℕ)
    → IsPicked holders x rest
    → IsAdmitted state holders permits
    → IsProcess (f x rest (record { state = state; holders = holders; permits = permits }))

pub at_holder-Keeps :
    (f : Holder → List Holder → Process → Process)
    → Keeps f
    → (o : Option (Holder × List Holder)) (p : Process) → Picked p.holders o
    → IsProcess p
    → IsProcess (at_holder f o p)
unfolding at_holder
at_holder-Keeps f k none p o h = h
at_holder-Keeps f k (some (x, rest)) p o h = k x rest p.state p.holders p.permits o h

-- The sums are the same where a holder that uses the same stands in the place of the one picked.
pub IsWithin-swap :
    (b : RuntimeBudget) (holders rest : List Holder) (x y : Holder) (permits : ℕ)
    → IsPicked holders x rest
    → uses y ≡ uses x
    → IsWithin b holders permits
    → IsWithin b (y ∷ rest) permits
IsWithin-swap b holders rest x y permits p e w =
    let s : (f : BudgetReservation → ℕ) → total f holders ≡ total f (y ∷ rest) =
      λ f. rw (e) (p.sums f) in
    record {
      resident = w.resident ∙ s (λ r. if r.resident then 1 else 0);
      indexing = w.indexing ∙ s (λ r. r.indexing_threads);
      searching = w.searching ∙ s (λ r. r.search_threads);
      writing = w.writing ∙ s (λ r. r.writer_memory_bytes);
      queued = w.queued ∙ s (λ r. r.queued_bytes);
      expensive = w.expensive;
      resident_fits = w.resident_fits;
      indexing_fits = w.indexing_fits;
      searching_fits = w.searching_fits;
      writing_fits = w.writing_fits;
      queued_fits = w.queued_fits;
      expensive_fits = w.expensive_fits;
    }

pub confirm-Keeps : Keeps confirm_holder
unfolding confirm_holder confirm_open opened_if_pending
confirm-Keeps (retained r) rest state holders permits k h = h
confirm-Keeps (holding (budgeted r)) rest (unconfigured n) holders permits k h =
    absurd ((k.every IsPending h.0).0)
confirm-Keeps (holding (budgeted r)) rest (configured b) holders permits k h =
    let q = k.every IsBudgeted h.0 in
    (
      q,
      IsWithin-swap b holders rest (holding (budgeted r)) (holding (budgeted r)) permits k refl h.1,
    )
confirm-Keeps (holding (budgeted r)) rest opened_without_budget holders permits k h =
    absurd ((k.every IsUnbudgeted h.0).0)
confirm-Keeps (holding (unbudgeted pending)) rest (configured b) holders permits k h =
    absurd ((k.every IsBudgeted h.0).0)
confirm-Keeps (holding (unbudgeted true)) rest (unconfigured zero) holders permits k h =
    let e = h.1 in let c = k.count in absurd (omega arith)
confirm-Keeps (holding (unbudgeted true)) rest (unconfigured (suc n)) holders permits k h =
    let q = k.every IsPending h.0 in ((tt, pending-IsUnbudgeted rest q.1), h.2)
confirm-Keeps (holding (unbudgeted true)) rest opened_without_budget holders permits k h =
    let q = k.every IsUnbudgeted h.0 in ((tt, q.1), h.1)
confirm-Keeps (holding (unbudgeted false)) rest (unconfigured n) holders permits k h =
    let q = k.every IsPending h.0 in let e = q.0 in absurd (cc)
confirm-Keeps (holding (unbudgeted false)) rest opened_without_budget holders permits k h =
    let q = k.every IsUnbudgeted h.0 in ((tt, q.1), h.1)

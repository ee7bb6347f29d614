-- ===== src/Admission/Held.antt =====
-- Every step of a process keeps its runtime budget's invariant, and so does every run: src/native.rs.
use fulltext.Prelude.{
  ℕ, ◌+◌, ◌≤◌, ◌≡◌, refl, sym, subst, arith, Bool, true, false, List, inl, inr, Bool-cases, leb,
  ◌||◌, not,
}
use fulltext.Admission.{RuntimeBudget}
use fulltext.Admission.Process.{
  RuntimeBudgetState, unconfigured, configured, opened_without_budget, budgeted, unbudgeted,
  retain_until_restart, opened_if_unconfigured, drop_admission, fewer_pending,
  try_acquire_expensive, on_budget,
}
use fulltext.Admission.Run.{
  Holder, holding, retained, Process, retain_with, retain_holder, close_holder, acquire,
}
use fulltext.Admission.Accounts.{IsWithin, drop_reservation-IsWithin}
use fulltext.Admission.Safe.{
  IsBudgeted, IsPending, IsUnbudgeted, IsAdmitted, IsProcess, Keeps, pending-IsUnbudgeted,
  IsWithin-swap,
}

pub retain-Keeps : Keeps retain_holder
unfolding retain_holder retain_until_restart retain_with opened_if_unconfigured
retain-Keeps (retained r) rest state holders permits k h = h
retain-Keeps (holding (budgeted r)) rest (unconfigured n) holders permits k h =
    absurd ((k.every IsPending h.0).0)
retain-Keeps (holding (budgeted r)) rest (configured b) holders permits k h =
    let q = k.every IsBudgeted h.0 in
    (q, IsWithin-swap b holders rest (holding (budgeted r)) (retained r) permits k refl h.1)
retain-Keeps (holding (budgeted r)) rest opened_without_budget holders permits k h =
    absurd ((k.every IsUnbudgeted h.0).0)
retain-Keeps (holding (unbudgeted pending)) rest (configured b) holders permits k h =
    absurd ((k.every IsBudgeted h.0).0)
retain-Keeps (holding (unbudgeted true)) rest (unconfigured n) holders permits k h =
    let q = k.every IsPending h.0 in (pending-IsUnbudgeted rest q.1, h.2)
retain-Keeps (holding (unbudgeted true)) rest opened_without_budget holders permits k h =
    let q = k.every IsUnbudgeted h.0 in (q.1, h.1)
retain-Keeps (holding (unbudgeted false)) rest (unconfigured n) holders permits k h =
    let q = k.every IsPending h.0 in let e = q.0 in absurd (cc)
retain-Keeps (holding (unbudgeted false)) rest opened_without_budget holders permits k h =
    let q = k.every IsUnbudgeted h.0 in (q.1, h.1)

pub close-Keeps : Keeps close_holder
unfolding close_holder drop_admission on_budget fewer_pending
close-Keeps (retained r) rest state holders permits k h = h
close-Keeps (holding (budgeted r)) rest (unconfigured n) holders permits k h =
    absurd ((k.every IsPending h.0).0)
close-Keeps (holding (budgeted r)) rest (configured b) holders permits k h =
    let q = k.every IsBudgeted h.0 in
    (q.1, drop_reservation-IsWithin b holders rest (holding (budgeted r)) permits k h.1)
close-Keeps (holding (budgeted r)) rest opened_without_budget holders permits k h =
    absurd ((k.every IsUnbudgeted h.0).0)
close-Keeps (holding (unbudgeted pending)) rest (configured b) holders permits k h =
    absurd ((k.every IsBudgeted h.0).0)
close-Keeps (holding (unbudgeted true)) rest (unconfigured n) holders permits k h =
    let q = k.every IsPending h.0 in let c = k.count in let e = h.1 in (q.1, omega arith, h.2)
close-Keeps (holding (unbudgeted true)) rest opened_without_budget holders permits k h =
    let q = k.every IsUnbudgeted h.0 in (q.1, h.1)
close-Keeps (holding (unbudgeted false)) rest (unconfigured n) holders permits k h =
    let q = k.every IsPending h.0 in let e = q.0 in absurd (cc)
close-Keeps (holding (unbudgeted false)) rest opened_without_budget holders permits k h =
    let q = k.every IsUnbudgeted h.0 in (q.1, h.1)

-- A count of permits in the budget and beside it.
pub IsWithin-permits :
    (b : RuntimeBudget) (holders : List Holder) (permits n : ℕ)
    → n ≤ b.limits.max_expensive_searches
    → IsWithin b holders permits
    → IsWithin (record b { expensive_searches = n }) holders n
IsWithin-permits b holders permits n h w = record {
  resident = w.resident;
  indexing = w.indexing;
  searching = w.searching;
  writing = w.writing;
  queued = w.queued;
  expensive = refl;
  resident_fits = w.resident_fits;
  indexing_fits = w.indexing_fits;
  searching_fits = w.searching_fits;
  writing_fits = w.writing_fits;
  queued_fits = w.queued_fits;
  expensive_fits = h;
}

pub acquire-IsProcess :
    (is_open is_still_open : Bool) (state : RuntimeBudgetState) (p : Process)
    → p.state ≡ state
    → IsProcess p
    → IsProcess (acquire is_open is_still_open state p)
unfolding acquire try_acquire_expensive
acquire-IsProcess is_open is_still_open (unconfigured n) p e h = h
acquire-IsProcess is_open is_still_open opened_without_budget p e h = h
acquire-IsProcess false is_still_open (configured b) p e h =
    subst (λ s. IsAdmitted s p.holders p.permits) e h
acquire-IsProcess true is_still_open (configured b) p e h =
    let h₁ : IsAdmitted (configured b) p.holders p.permits =
      subst (λ s. IsAdmitted s p.holders p.permits) e h in
    elim (Bool-cases
      (leb b.limits.max_expensive_searches b.expensive_searches || not is_still_open)) [
        | inl t ↦ rw t h₁
        | inr t ↦
            let c = h₁.1.expensive in
            rw (t, sym c)
              (
                h₁.0,
                IsWithin-permits b p.holders p.permits (b.expensive_searches + 1) (ground arith)
                    h₁.1,
              )
      ]

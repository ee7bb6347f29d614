-- ===== src/Admission/Accounts.antt =====
-- What the holders of src/native.rs's runtime budget use, summed up, and the budget's counters.
use fulltext.Prelude.{
  pick, ℕ, zero, suc, ◌+◌, ◌-◌, ◌≤◌, ◌≡◌, refl, arith, Bool, true, List, [], ◌∷◌, Option, none,
  some, if◌then◌else◌, length,
}
use fulltext.Admission.{
  RuntimeBudget, BudgetReservation, nothing_reserved, release, drop_reservation,
}
use fulltext.Admission.Exact.{charge, demand, fits}
use fulltext.Config.{Limits}
use fulltext.Admission.Process.{budgeted, unbudgeted}
use fulltext.Admission.Run.{Holder, holding, retained}

abbrev pub uses : Holder → BudgetReservation
uses (holding (budgeted r)) = r
uses (holding (unbudgeted pending)) = nothing_reserved
uses (retained r) = r

abbrev pub total : (BudgetReservation → ℕ) → List Holder → ℕ
total f [] = 0
total f (h ∷ holders) = f (uses h) + total f holders

abbrev pub All {ℓ κ} : {A : Type ℓ} → (A → Type κ) → List A → Type κ
All P [] = Unit
All P (x ∷ xs) = P x × All P xs

abbrev pub resident_count : BudgetReservation → ℕ
resident_count r = if r.resident then 1 else 0

-- Each counter is the sum of what the holders use, and within its limit; so is the count of permits.
pub record IsWithin (b : RuntimeBudget) (holders : List Holder) (permits : ℕ) : Type 0 where
  pub resident : b.resident_indexes ≡ total resident_count holders
  pub indexing : b.indexing_threads ≡ total (λ r. r.indexing_threads) holders
  pub searching : b.search_threads ≡ total (λ r. r.search_threads) holders
  pub writing : b.writer_memory_bytes ≡ total (λ r. r.writer_memory_bytes) holders
  pub queued : b.queued_bytes ≡ total (λ r. r.queued_bytes) holders
  pub expensive : b.expensive_searches ≡ permits
  pub resident_fits : b.resident_indexes ≤ b.limits.max_resident_indexes
  pub indexing_fits : b.indexing_threads ≤ b.limits.max_indexing_threads
  pub searching_fits : b.search_threads ≤ b.limits.max_search_threads
  pub writing_fits : b.writer_memory_bytes ≤ b.limits.max_writer_memory_bytes
  pub queued_fits : b.queued_bytes ≤ b.limits.max_queued_bytes
  pub expensive_fits : b.expensive_searches ≤ b.limits.max_expensive_searches

-- `holder` was taken out of `holders`, and `rest` is left.
pub record IsPicked (holders : List Holder) (holder : Holder) (rest : List Holder) : Type 1 where
  pub sums : (f : BudgetReservation → ℕ) → total f holders ≡ f (uses holder) + total f rest
  pub every : (P : Holder → Type 0) → All P holders → P holder × All P rest
  pub count : length holders ≡ suc (length rest)

abbrev pub Picked : List Holder → Option (Holder × List Holder) → Type 1
Picked holders none = Unit
Picked holders (some (h, rest)) = IsPicked holders h rest

skip_holder :
    (x : Holder) (l : List Holder) (o : Option (Holder × List Holder))
    → Picked l o
    → Picked (x ∷ l) (elim o [ none ↦ none | some p ↦ some (p.0, x ∷ p.1) ])
skip_holder x l none h = tt
skip_holder x l (some (y, rest)) h = record {
  sums = λ f. let e = h.sums f in omega arith;
  every = λ P k. let r = h.every P k.1 in (r.0, (k.0, r.1));
  count = let e = h.count in omega arith;
}

pub pick-Picked : (n : ℕ) (l : List Holder) → Picked l (pick n l)
unfolding pick
pick-Picked n [] = tt
pick-Picked zero (x ∷ l) = record { sums = λ f. refl; every = λ P k. k; count = refl }
pick-Picked (suc n) (x ∷ l) = skip_holder x l (pick n l) (pick-Picked n l)

release_lem : (counter amount : ℕ) → amount ≤ counter → release counter amount ≡ counter - amount
unfolding release
release_lem counter amount h = ground arith

resident-release :
    (r : BudgetReservation) (counter : ℕ)
    → resident_count r ≤ counter
    → (if r.resident then release counter 1 else counter) ≡ counter - resident_count r
unfolding release
resident-release r counter h = ground arith

pub drop_reservation-IsWithin :
    (b : RuntimeBudget) (holders rest : List Holder) (h : Holder) (permits : ℕ)
    → IsPicked holders h rest
    → IsWithin b holders permits
    → IsWithin (drop_reservation (uses h) b) rest permits
unfolding drop_reservation
drop_reservation-IsWithin b holders rest h permits p w =
    let r = uses h in
    let s₁ = p.sums resident_count in
    let s₂ = p.sums (λ q. q.indexing_threads) in
    let s₃ = p.sums (λ q. q.search_threads) in
    let s₄ = p.sums (λ q. q.writer_memory_bytes) in
    let s₅ = p.sums (λ q. q.queued_bytes) in
    let e₁ = w.resident in
    let e₂ = w.indexing in
    let e₃ = w.searching in
    let e₄ = w.writing in
    let e₅ = w.queued in
    let l₁ = w.resident_fits in
    let l₂ = w.indexing_fits in
    let l₃ = w.searching_fits in
    let l₄ = w.writing_fits in
    let l₅ = w.queued_fits in
    let d₁ = resident-release r b.resident_indexes (omega arith) in
    let d₂ = release_lem b.indexing_threads r.indexing_threads (omega arith) in
    let d₃ = release_lem b.search_threads r.search_threads (omega arith) in
    let d₄ = release_lem b.writer_memory_bytes r.writer_memory_bytes (omega arith) in
    let d₅ = release_lem b.queued_bytes r.queued_bytes (omega arith) in
    record {
      resident = rw d₁ (omega arith);
      indexing = rw d₂ (omega arith);
      searching = rw d₃ (omega arith);
      writing = rw d₄ (omega arith);
      queued = rw d₅ (omega arith);
      expensive = w.expensive;
      resident_fits = rw d₁ (omega arith);
      indexing_fits = rw d₂ (omega arith);
      searching_fits = rw d₃ (omega arith);
      writing_fits = rw d₄ (omega arith);
      queued_fits = rw d₅ (omega arith);
      expensive_fits = w.expensive_fits;
    }

pub charge-IsWithin :
    (limits : Limits) (read_only : Bool) (b : RuntimeBudget) (holders : List Holder) (permits : ℕ)
    → fits limits read_only b ≡ true
    → IsWithin b holders permits
    → IsWithin
        (charge (demand limits read_only) b)
        (holding (budgeted (demand limits read_only)) ∷ holders)
        permits
charge-IsWithin limits read_only b holders permits f w =
    let e₁ = w.resident in
    let e₂ = w.indexing in
    let e₃ = w.searching in
    let e₄ = w.writing in
    let e₅ = w.queued in
    let l₂ = w.indexing_fits in
    let l₄ = w.writing_fits in
    record {
      resident = omega arith;
      indexing = omega arith;
      searching = omega arith;
      writing = omega arith;
      queued = omega arith;
      expensive = w.expensive;
      resident_fits = ground arith;
      indexing_fits = ground arith;
      searching_fits = ground arith;
      writing_fits = ground arith;
      queued_fits = ground arith;
      expensive_fits = w.expensive_fits;
    }

-- ===== src/Admission/Exact.antt =====
-- `RuntimeBudget::admit` of src/native.rs is all or nothing.
use fulltext.Prelude.{
  ℕ, ◌+◌, ◌*◌, ◌≡◌, refl, arith, Bool, true, false, ◌&&◌, ◌||◌, leb, if◌then◌else◌, usize_max, ◌⊎◌,
  inl, inr, Bool-cases,
}
use fulltext.Error.{Result, ok, err, resource_limit}
use fulltext.Config.{Limits}
use fulltext.Admission.{
  RuntimeBudget, BudgetReservation, reserve, release, drop_reservation, attempt, admit,
  settle_attempt, exceeded, unless, reserve_resident, reserve_indexing_threads,
  reserve_search_threads, reserve_writer_memory, reserve_queued_bytes,
}

-- What an index with these limits uses; a reader has no writer.
abbrev pub demand : Limits → Bool → BudgetReservation
demand limits read_only = record {
  resident = true;
  indexing_threads = if read_only then 0 else limits.indexing_threads;
  search_threads = limits.search_threads;
  writer_memory_bytes = if read_only then 0 else limits.writer_memory_bytes;
  queued_bytes = limits.max_queued_bytes * (if read_only then 1 else 2);
}

-- The budget with a reservation charged to it.
abbrev pub charge : BudgetReservation → RuntimeBudget → RuntimeBudget
charge r b = record b {
  resident_indexes = b.resident_indexes + (if r.resident then 1 else 0);
  indexing_threads = b.indexing_threads + r.indexing_threads;
  search_threads = b.search_threads + r.search_threads;
  writer_memory_bytes = b.writer_memory_bytes + r.writer_memory_bytes;
  queued_bytes = b.queued_bytes + r.queued_bytes;
}

abbrev pub has_room : ℕ → ℕ → ℕ → Bool
has_room counter amount maximum = leb (counter + amount) usize_max && leb (counter + amount) maximum

-- There is room for the index in each of the counters that it uses.
abbrev pub fits : Limits → Bool → RuntimeBudget → Bool
fits limits read_only b =
    let d = demand limits read_only in
    let m = b.limits in
    has_room b.resident_indexes 1 m.max_resident_indexes
    && (read_only || has_room b.indexing_threads d.indexing_threads m.max_indexing_threads)
    && has_room b.search_threads d.search_threads m.max_search_threads
    && (read_only || has_room b.writer_memory_bytes d.writer_memory_bytes m.max_writer_memory_bytes)
    && has_room b.queued_bytes d.queued_bytes m.max_queued_bytes

release-charge : (counter amount : ℕ) → release (counter + amount) amount ≡ counter
unfolding release
release-charge counter amount = ground arith

resident-charge :
    (resident : Bool) (counter : ℕ)
    → (if resident
        then release (counter + (if resident then 1 else 0)) 1
        else counter + (if resident then 1 else 0))
      ≡ counter
unfolding release
resident-charge resident counter = ground arith

pub drop_reservation-charge :
    (r : BudgetReservation) (b : RuntimeBudget) → drop_reservation r (charge r b) ≡ b
unfolding drop_reservation
drop_reservation-charge r b =
    rw
      (
        resident-charge r.resident b.resident_indexes,
        release-charge b.indexing_threads r.indexing_threads,
        release-charge b.search_threads r.search_threads,
        release-charge b.writer_memory_bytes r.writer_memory_bytes,
        release-charge b.queued_bytes r.queued_bytes,
      )
      refl

admit-true :
    (limits : Limits) (read_only : Bool) (b : RuntimeBudget)
    → fits limits read_only b ≡ true
    → admit limits read_only b ≡ (ok (demand limits read_only), charge (demand limits read_only) b)
unfolding admit reserve_resident reserve_indexing_threads reserve_search_threads
    reserve_writer_memory reserve_queued_bytes settle_attempt unless reserve attempt
admit-true limits true b h = ground arith
admit-true limits false b h = ground arith

-- A refusal that says which limit is met.
abbrev pub IsRefused : Result BudgetReservation → Type 0
IsRefused (ok r) = ⊥
IsRefused (err e) = e.code ≡ resource_limit

admit-IsRefused :
    (limits : Limits) (read_only : Bool) (b : RuntimeBudget)
    → fits limits read_only b ≡ false
    → IsRefused (admit limits read_only b).0
unfolding admit reserve_resident reserve_indexing_threads reserve_search_threads
    reserve_writer_memory reserve_queued_bytes settle_attempt unless reserve attempt exceeded
admit-IsRefused limits true b h = ground arith
admit-IsRefused limits false b h = ground arith

-- A reservation as far as it has come.
abbrev reserving : Bool → ℕ → ℕ → ℕ → BudgetReservation
reserving resident indexing searching writing = record {
  resident = resident;
  indexing_threads = indexing;
  search_threads = searching;
  writer_memory_bytes = writing;
  queued_bytes = 0;
}

admit-false :
    (limits : Limits) (read_only : Bool) (b : RuntimeBudget)
    → fits limits read_only b ≡ false
    → (admit limits read_only b).1 ≡ b
unfolding admit reserve_resident reserve_indexing_threads reserve_search_threads
    reserve_writer_memory reserve_queued_bytes settle_attempt unless reserve attempt
admit-false limits true b h =
    let e₀ = drop_reservation-charge (reserving false 0 0 0) b in
    let e₁ = drop_reservation-charge (reserving true 0 0 0) b in
    let e₂ = drop_reservation-charge (reserving true 0 limits.search_threads 0) b in
    ground (arith, e₀, e₁, e₂)
admit-false limits false b h =
    let i = limits.indexing_threads in
    let s = limits.search_threads in
    let e₀ = drop_reservation-charge (reserving false 0 0 0) b in
    let e₁ = drop_reservation-charge (reserving true 0 0 0) b in
    let e₂ = drop_reservation-charge (reserving true i 0 0) b in
    let e₃ = drop_reservation-charge (reserving true i s 0) b in
    let e₄ = drop_reservation-charge (reserving true i s limits.writer_memory_bytes) b in
    ground (arith, e₀, e₁, e₂, e₃, e₄)

-- An index is admitted exactly where each counter that it uses has room for it: then it reserves all
-- that it uses, and the counters grow by as much. Otherwise the budget stays as it was, and the
-- refusal is a resource limit. A writer uses indexing threads, writer memory and two queues, a reader
-- none of the first two and one queue; room is a sum within the limit and within a `usize`.
pub admit-charge :
    (limits : Limits) (read_only : Bool) (b : RuntimeBudget)
    → ((fits limits read_only b ≡ true)
        × (admit limits read_only b
            ≡ (ok (demand limits read_only), charge (demand limits read_only) b)))
      ⊎ ((fits limits read_only b ≡ false)
          × IsRefused (admit limits read_only b).0
          × ((admit limits read_only b).1 ≡ b))
admit-charge limits read_only b = elim (Bool-cases (fits limits read_only b)) [
  | inl e ↦ inl (e, admit-true limits read_only b e)
  | inr e ↦ inr (e, admit-IsRefused limits read_only b e, admit-false limits read_only b e)
]

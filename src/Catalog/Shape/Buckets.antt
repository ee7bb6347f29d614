-- ===== src/Catalog/Shape/Buckets.antt =====
-- `check_aggregation_shape` of src/catalog.rs accepts exactly what stays within its limits.
use fulltext.Prelude.{
  ℕ, suc, ◌+◌, ◌*◌, ◌≤◌, ◌≡◌, ◌↔◌, ap, max, arith, ◌||◌, List, [], ◌∷◌, Option, none, some, ltb,
  length, usize_max,
}
use fulltext.Error.{ok, refuse_if, through_result}
use fulltext.Catalog.{terms, stats, histogram, range, Aggregations, aggregation, nil, cons}
use fulltext.Catalog.Validate.{enter}
use fulltext.Catalog.Shape.{
  max_aggregation_memory_bytes, max_aggregation_result_bytes, max_aggregation_buckets, range_count,
  walk, range_bucket_bound, bounded_below, bounded_above, charge_buckets, known_buckets,
  check_aggregation_shape,
}
use fulltext.Catalog.Shape.Exact.{
  own_memory, memory_of, response_of, IsShallow, walk-Walked, walk-memory_of, enter-IsShallow,
  bound_of, buckets_of,
}

bounded_above-le : (ranges : List (Option ℕ × Option ℕ)) → bounded_above ranges ≤ 1
unfolding bounded_above
bounded_above-le [] = omega arith
bounded_above-le ((from, some to) ∷ []) = omega arith
bounded_above-le ((from, none) ∷ []) = omega arith
bounded_above-le (first ∷ next ∷ ranges) = bounded_above-le (next ∷ ranges)

bounded_below-le : (ranges : List (Option ℕ × Option ℕ)) → bounded_below ranges ≤ 1
bounded_below-le [] = omega arith
bounded_below-le ((some from, to) ∷ ranges) = omega arith
bounded_below-le ((none, to) ∷ ranges) = omega arith

-- A list of ranges that fits into the memory is short.
range_bucket_bound-bound_of :
    (ranges : List (Option ℕ × Option ℕ))
    → length ranges * 128 ≤ max_aggregation_memory_bytes
    → range_bucket_bound ranges ≡ ok (bound_of ranges)
unfolding range_bucket_bound bound_of
range_bucket_bound-bound_of ranges h =
    ground (arith, bounded_above-le ranges, bounded_below-le ranges)

charge_buckets-fits :
    (ranges : List (Option ℕ × Option ℕ)) (parents total c t : ℕ)
    → length ranges * 128 ≤ max_aggregation_memory_bytes
    → charge_buckets ranges parents total ≡ ok (c, t)
    → (c ≡ parents * bound_of ranges)
      × (t ≡ total + parents * bound_of ranges)
      × (t ≤ max_aggregation_buckets)
unfolding charge_buckets
charge_buckets-fits ranges parents total c t s =
    rw (range_bucket_bound-bound_of ranges s) (λ h. ground arith)

charge_buckets-bound_of :
    (ranges : List (Option ℕ × Option ℕ)) (parents total : ℕ)
    → length ranges * 128 ≤ max_aggregation_memory_bytes
    → total + parents * bound_of ranges ≤ max_aggregation_buckets
    → charge_buckets ranges parents total
      ≡ ok (parents * bound_of ranges, total + parents * bound_of ranges)
unfolding charge_buckets
charge_buckets-bound_of ranges parents total s h =
    rw (range_bucket_bound-bound_of ranges s) (ground arith)

known_buckets-fits :
    (requests : Aggregations) (depth parents total t : ℕ)
    → memory_of requests ≤ max_aggregation_memory_bytes
    → known_buckets requests depth parents total ≡ ok t
    → (t ≡ total + buckets_of requests parents)
      × (total ≤ max_aggregation_buckets → t ≤ max_aggregation_buckets)
unfolding known_buckets buckets_of memory_of own_memory range_count
known_buckets-fits nil depth parents total t s = λ h. (ground arith, (λ k. ground arith))
known_buckets-fits (cons (aggregation name field (range ranges) below) rest) depth parents total t
      s =
    through_result (charge_buckets ranges parents total) _ λ (c, t₁) e₁.
      through_result (enter below (suc depth)) _ λ _ e₂.
        through_result (known_buckets below (suc depth) c t₁) _ λ t₂ e₃ e₄.
          let f = charge_buckets-fits ranges parents total c t₁ (omega arith) e₁ in
          let w = known_buckets-fits below (suc depth) c t₁ t₂ (omega arith) e₃ in
          let v = known_buckets-fits rest depth parents t₂ t (omega arith) e₄ in
          let g : buckets_of below c ≡ buckets_of below (parents * bound_of ranges) =
            ap (buckets_of below) f.0 in
          (omega arith, (λ _. v.1 (w.1 f.2)))
known_buckets-fits (cons (aggregation name field (terms size) below) rest) depth parents total t s =
    known_buckets-fits rest depth parents total t (omega arith)
known_buckets-fits (cons (aggregation name field stats below) rest) depth parents total t s =
    known_buckets-fits rest depth parents total t (omega arith)
known_buckets-fits (cons (aggregation name field (histogram n) below) rest) depth parents total t
      s =
    known_buckets-fits rest depth parents total t (omega arith)

known_buckets-buckets_of :
    (requests : Aggregations) (depth parents total : ℕ)
    → IsShallow depth requests
    → memory_of requests ≤ max_aggregation_memory_bytes
    → total + buckets_of requests parents ≤ max_aggregation_buckets
    → known_buckets requests depth parents total ≡ ok (total + buckets_of requests parents)
unfolding known_buckets buckets_of memory_of own_memory range_count
known_buckets-buckets_of nil depth parents total d s h = ground arith
known_buckets-buckets_of (cons (aggregation name field (range ranges) below) rest) depth parents
      total d s h =
    let c = parents * bound_of ranges in
    let e₁ = charge_buckets-bound_of ranges parents total (omega arith) (omega arith) in
    let e₂ = enter-IsShallow below (suc depth) d.1 in
    let e₃ =
      known_buckets-buckets_of below (suc depth) c (total + c) d.1 (omega arith) (omega arith) in
    let e₄ =
      known_buckets-buckets_of rest depth parents (total + c + buckets_of below c) d.2 (omega arith)
        (omega arith) in
    rw (e₁, e₂, e₃, e₄) (ground arith)
known_buckets-buckets_of (cons (aggregation name field (terms size) below) rest) depth parents total
      d s h =
    known_buckets-buckets_of rest depth parents total d.2 (omega arith) h
known_buckets-buckets_of (cons (aggregation name field stats below) rest) depth parents total d s
      h =
    known_buckets-buckets_of rest depth parents total d.2 (omega arith) h
known_buckets-buckets_of (cons (aggregation name field (histogram n) below) rest) depth parents
      total d s h =
    known_buckets-buckets_of rest depth parents total d.2 (omega arith) h

-- The requests are within the limits on depth, memory, response and buckets.
pub record IsShape (requests : Aggregations) (segments : ℕ) : Type 0 where
  pub shallow : IsShallow 1 requests
  pub memory : memory_of requests ≤ max_aggregation_memory_bytes
  pub response : response_of requests ≤ max_aggregation_result_bytes
  pub collectors : memory_of requests * max segments 1 ≤ max_aggregation_memory_bytes
  pub buckets : buckets_of requests 1 ≤ max_aggregation_buckets

check_aggregation_shape-IsShape :
    (requests : Aggregations) (segments n : ℕ)
    → check_aggregation_shape requests segments ≡ ok n
    → IsShape requests segments × (n ≡ memory_of requests * max segments 1)
unfolding check_aggregation_shape
check_aggregation_shape-IsShape requests segments n = through_result (enter requests 1) _ λ _ e₁.
    through_result (walk requests 1 0 0) _ λ (m, r) e₂.
      through_result
        (refuse_if
          (ltb usize_max (m * max segments 1)
            || ltb max_aggregation_memory_bytes (m * max segments 1))
          _)
        _
        λ _ e₃. through_result (enter requests 1) _ λ _ e₄.
          through_result (known_buckets requests 1 1 0) _ λ t e₅ e₆.
            let w = walk-Walked requests 1 0 0 m r e₁ e₂ in
            let b = known_buckets-fits requests 1 1 0 t (omega arith) e₅ in
            let same : m ≡ memory_of requests = omega (arith, w.0) in
            let product : m * max segments 1 ≡ memory_of requests * max segments 1 =
              ap (λ (k : ℕ). k * max segments 1) same in
            let few : m * max segments 1 ≤ max_aggregation_memory_bytes = ground arith in
            let small = w.3 (omega arith) in
            let short = w.4 (omega arith) in
            let within_limit = b.1 (omega arith) in
            let result : n ≡ m * max segments 1 = ground arith in
            (
              record {
                shallow = w.2;
                memory = omega arith;
                response = omega (arith, w.1);
                collectors = omega arith;
                buckets = omega (arith, b.0);
              },
              omega arith,
            )

IsShape-check_aggregation_shape :
    (requests : Aggregations) (segments : ℕ)
    → IsShape requests segments
    → check_aggregation_shape requests segments ≡ ok (memory_of requests * max segments 1)
unfolding check_aggregation_shape
IsShape-check_aggregation_shape requests segments h =
    let e₁ = enter-IsShallow requests 1 h.shallow in
    let m = h.memory in
    let s = h.response in
    let b = h.buckets in
    let e₂ : walk requests 1 0 0 ≡ ok (memory_of requests, response_of requests) =
      ground (arith, walk-memory_of requests 1 0 0 h.shallow (omega arith) (omega arith)) in
    let e₃ = known_buckets-buckets_of requests 1 1 0 h.shallow h.memory (omega arith) in
    let c = h.collectors in rw (e₁, e₂) (ground (arith, e₁, e₃))

-- The shape of requests is accepted exactly where no request lies deeper than 32 levels, and the memory
-- of one collector, that of the collectors of all segments, the least response, and the buckets that
-- range aggregations are known to have are within their limits; and the answer is the memory of the
-- collectors, of which there is at least one.
pub check_aggregation_shape_iff :
    (requests : Aggregations) (segments n : ℕ)
    → (check_aggregation_shape requests segments ≡ ok n)
      ↔ (IsShape requests segments × (n ≡ memory_of requests * max segments 1))
check_aggregation_shape_iff requests segments n = (
  check_aggregation_shape-IsShape requests segments n,
  λ h. let e = IsShape-check_aggregation_shape requests segments h.0 in let f = h.1 in cc,
)

-- ===== src/Catalog/Shape.antt =====
-- `check_aggregation_shape` of src/catalog.rs: the memory, the least response and the buckets that
-- aggregation requests need whatever the index holds, each bounded before anything is collected.
pub mod Exact
pub mod Buckets
use fulltext.Prelude.{
  ℕ, zero, suc, ◌+◌, ◌*◌, max, Bool, true, false, ◌||◌, String, List, [], ◌∷◌, Option, none, some,
  ltb, leb, if◌then◌else◌, length, usize_max,
}
use fulltext.Error.{Result, ok, err, bind, refuse_if, new, resource_limit, ◌>>=◌, ◌>>◌}
use fulltext.Text.{Bytes}
use fulltext.Catalog.{
  AggregationKind, terms, stats, histogram, range, Aggregations, aggregation, nil, cons,
}
use fulltext.Catalog.Validate.{enter}

abbrev pub max_aggregation_memory_bytes : ℕ
max_aggregation_memory_bytes = 16777216

abbrev pub max_aggregation_result_bytes : ℕ
max_aggregation_result_bytes = 8388608

abbrev pub max_aggregation_buckets : ℕ
max_aggregation_buckets = 1024

-- A `checked_add` or `checked_mul`, with the error that stands for its overflow.
abbrev pub checked : ℕ → String → Result ℕ
checked n message = if leb n usize_max then ok n else err (new resource_limit message [])

unfoldable pub range_count : AggregationKind → ℕ
range_count (range ranges) = length ranges
range_count (terms size) = 0
range_count stats = 0
range_count (histogram interval) = 0

-- The figures of one request, added to those before it.
unfoldable pub charge_shape : Bytes → Bytes → AggregationKind → ℕ → ℕ → Result (ℕ × ℕ)
unfolding range_count
charge_shape name field kind memory response =
    bind (checked (range_count kind * 128) "Aggregation construction memory budget exceeded") λ n.
      bind
        (checked (n + (1024 + length name + length field))
          "Aggregation construction memory budget exceeded")
        λ bytes.
          bind (checked (memory + bytes) "Aggregation construction memory budget exceeded")
            λ memory.
              bind
                (checked (response + (length name + 64))
                  "Aggregation minimum response byte budget exceeded")
                λ response.
                  bind
                    (refuse_if
                      (ltb max_aggregation_memory_bytes memory
                        || ltb max_aggregation_result_bytes response)
                      (new resource_limit
                        "Aggregation request shape exceeds memory or response byte budget" []))
                    λ _. ok (memory, response)

-- The loop of `walk`; `enter` is what each call of it does first.
unfoldable pub walk : Aggregations → ℕ → ℕ → ℕ → Result (ℕ × ℕ)
unfolding charge_shape enter
walk nil depth memory response = ok (memory, response)
walk (cons (aggregation name field kind below) rest) depth memory response =
    bind (charge_shape name field kind memory response) λ (memory, response).
      bind (enter below (suc depth)) λ _.
        bind (walk below (suc depth) memory response)
          λ (memory, response). walk rest depth memory response

abbrev pub bounded_below : List (Option ℕ × Option ℕ) → ℕ
bounded_below [] = 0
bounded_below ((some from, to) ∷ ranges) = 1
bounded_below ((none, to) ∷ ranges) = 0

unfoldable pub bounded_above : List (Option ℕ × Option ℕ) → ℕ
bounded_above [] = 0
bounded_above ((from, some to) ∷ []) = 1
bounded_above ((from, none) ∷ []) = 0
bounded_above (first ∷ next ∷ ranges) = bounded_above (next ∷ ranges)

-- A bucket for each range, and for what lies before the first and behind the last.
unfoldable pub range_bucket_bound : List (Option ℕ × Option ℕ) → Result ℕ
unfolding bounded_above
range_bucket_bound ranges =
    bind (checked (length ranges + bounded_below ranges) "Aggregation bucket budget exceeded")
      λ n. checked (n + bounded_above ranges) "Aggregation bucket budget exceeded"

-- The buckets of a range aggregation under each of `parents` buckets, and the total with them.
unfoldable pub charge_buckets : List (Option ℕ × Option ℕ) → ℕ → ℕ → Result (ℕ × ℕ)
unfolding range_bucket_bound
charge_buckets ranges parents total = bind (range_bucket_bound ranges) λ bound.
    bind (checked (parents * bound) "Aggregation result bucket limit exceeded") λ count.
      bind (checked (total + count) "Aggregation result bucket limit exceeded") λ total.
        bind
          (refuse_if (ltb max_aggregation_buckets total)
            (new resource_limit "Aggregation result bucket limit exceeded" []))
          λ _. ok (count, total)

unfoldable pub known_buckets : Aggregations → ℕ → ℕ → ℕ → Result ℕ
unfolding charge_buckets enter
known_buckets nil depth parents total = ok total
known_buckets (cons (aggregation name field (range ranges) below) rest) depth parents total =
    bind (charge_buckets ranges parents total) λ (count, total). bind (enter below (suc depth)) λ _.
      bind (known_buckets below (suc depth) count total)
        λ total. known_buckets rest depth parents total
known_buckets (cons (aggregation name field (terms size) below) rest) depth parents total =
    known_buckets rest depth parents total
known_buckets (cons (aggregation name field stats below) rest) depth parents total =
    known_buckets rest depth parents total
known_buckets (cons (aggregation name field (histogram interval) below) rest) depth parents total =
    known_buckets rest depth parents total

-- The memory that the collectors of all segments need.
unfoldable pub check_aggregation_shape : Aggregations → ℕ → Result ℕ
unfolding walk known_buckets enter
check_aggregation_shape requests segments = bind (enter requests 1) λ _.
    bind (walk requests 1 0 0) λ (memory, response).
      bind
        (refuse_if
          (ltb usize_max (memory * max segments 1)
            || ltb max_aggregation_memory_bytes (memory * max segments 1))
          (new resource_limit "Aggregation collector construction exceeds memory budget" []))
        λ _.
          bind (enter requests 1)
            λ _. bind (known_buckets requests 1 1 0) λ _. ok (memory * max segments 1)

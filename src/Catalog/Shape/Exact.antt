-- ===== src/Catalog/Shape/Exact.antt =====
-- The figures that `check_aggregation_shape` of src/catalog.rs bounds, read off the requests.
use fulltext.Prelude.{ℕ, suc, ◌+◌, ◌*◌, ◌≤◌, ◌≡◌, refl, arith, List, Option, length}
use fulltext.Error.{ok, through_result}
use fulltext.Text.{Bytes}
use fulltext.Catalog.{
  AggregationKind, terms, stats, histogram, range, Aggregations, aggregation, nil, cons,
}
use fulltext.Catalog.Validate.{enter, check_aggregation_depth}
use fulltext.Catalog.Shape.{
  max_aggregation_memory_bytes, max_aggregation_result_bytes, range_count, charge_shape, walk,
  bounded_below, bounded_above,
}

unfoldable pub own_memory : Bytes → Bytes → AggregationKind → ℕ
own_memory name field kind = range_count kind * 128 + (1024 + length name + length field)

-- Of all requests, at any depth.
unfoldable pub memory_of : Aggregations → ℕ
unfolding own_memory
memory_of nil = 0
memory_of (cons (aggregation name field kind below) rest) =
    own_memory name field kind + (memory_of below + memory_of rest)

unfoldable pub response_of : Aggregations → ℕ
response_of nil = 0
response_of (cons (aggregation name field kind below) rest) =
    length name + 64 + (response_of below + response_of rest)

-- No request lies deeper than 32 levels, the requests given lying at `depth`.
abbrev pub IsShallow : ℕ → Aggregations → Type 0
IsShallow depth nil = Unit
IsShallow depth (cons (aggregation name field kind below) rest) =
    (depth ≤ 32) × IsShallow (suc depth) below × IsShallow depth rest

charge_shape-fits :
    (name field : Bytes) (kind : AggregationKind) (memory response m r : ℕ)
    → charge_shape name field kind memory response ≡ ok (m, r)
    → (m ≡ memory + own_memory name field kind)
      × (r ≡ response + (length name + 64))
      × (m ≤ max_aggregation_memory_bytes)
      × (r ≤ max_aggregation_result_bytes)
unfolding charge_shape own_memory
charge_shape-fits name field kind memory response m r h = ground arith

charge_shape-own_memory :
    (name field : Bytes) (kind : AggregationKind) (memory response : ℕ)
    → memory + own_memory name field kind ≤ max_aggregation_memory_bytes
    → response + (length name + 64) ≤ max_aggregation_result_bytes
    → charge_shape name field kind memory response
      ≡ ok (memory + own_memory name field kind, response + (length name + 64))
unfolding charge_shape own_memory
charge_shape-own_memory name field kind memory response h k = ground arith

enter-le : (requests : Aggregations) (depth : ℕ) → depth ≤ 32 → enter requests depth ≡ ok tt
unfolding enter check_aggregation_depth
enter-le nil depth h = refl
enter-le (cons a rest) depth h = ground arith

le-enter :
    (name field : Bytes) (kind : AggregationKind) (below rest : Aggregations) (depth : ℕ)
    {u : Unit {0}}
    → enter (cons (aggregation name field kind below) rest) depth ≡ ok u
    → depth ≤ 32
unfolding enter check_aggregation_depth
le-enter name field kind below rest depth h = ground arith

pub enter-IsShallow :
    (requests : Aggregations) (depth : ℕ) → IsShallow depth requests → enter requests depth ≡ ok tt
unfolding enter check_aggregation_depth
enter-IsShallow nil depth h = refl
enter-IsShallow (cons (aggregation name field kind below) rest) depth h =
    let d = h.0 in ground arith

-- What a walk that succeeds has found.
abbrev pub Walked : Aggregations → ℕ → ℕ → ℕ → ℕ → ℕ → Type 0
Walked requests depth memory response m r =
    (m ≡ memory + memory_of requests)
    × (r ≡ response + response_of requests)
    × IsShallow depth requests
    × (memory ≤ max_aggregation_memory_bytes → m ≤ max_aggregation_memory_bytes)
    × (response ≤ max_aggregation_result_bytes → r ≤ max_aggregation_result_bytes)

pub walk-Walked :
    (requests : Aggregations) (depth memory response m r : ℕ) {u : Unit {0}}
    → enter requests depth ≡ ok u
    → walk requests depth memory response ≡ ok (m, r)
    → Walked requests depth memory response m r
unfolding walk memory_of response_of
walk-Walked nil depth memory response m r e =
    λ h. (ground arith, ground arith, tt, (λ k. ground arith), (λ k. ground arith))
walk-Walked (cons (aggregation name field kind below) rest) depth memory response m r e =
    through_result (charge_shape name field kind memory response) _ λ (m₁, r₁) e₁.
      through_result (enter below (suc depth)) _ λ _ e₂.
        through_result (walk below (suc depth) m₁ r₁) _ λ (m₂, r₂) e₃ e₄.
          let d = le-enter name field kind below rest depth e in
          let f = charge_shape-fits name field kind memory response m₁ r₁ e₁ in
          let w = walk-Walked below (suc depth) m₁ r₁ m₂ r₂ e₂ e₃ in
          let v = walk-Walked rest depth m₂ r₂ m r (enter-le rest depth d) e₄ in
          (omega arith, omega arith, (d, w.2, v.2), (λ _. v.3 (w.3 f.2)), (λ _. v.4 (w.4 f.3)))

pub walk-memory_of :
    (requests : Aggregations) (depth memory response : ℕ)
    → IsShallow depth requests
    → memory + memory_of requests ≤ max_aggregation_memory_bytes
    → response + response_of requests ≤ max_aggregation_result_bytes
    → walk requests depth memory response
      ≡ ok (memory + memory_of requests, response + response_of requests)
unfolding walk memory_of response_of
walk-memory_of nil depth memory response s h k = ground arith
walk-memory_of (cons (aggregation name field kind below) rest) depth memory response s h k =
    let e₁ = charge_shape-own_memory name field kind memory response (omega arith) (omega arith) in
    let m₁ = memory + own_memory name field kind in
    let r₁ = response + (length name + 64) in
    let e₂ = enter-IsShallow below (suc depth) s.1 in
    let e₃ = walk-memory_of below (suc depth) m₁ r₁ s.1 (omega arith) (omega arith) in
    let e₄ =
      walk-memory_of rest depth (m₁ + memory_of below) (r₁ + response_of below) s.2 (omega arith)
        (omega arith) in
    rw (e₁, e₂, e₃, e₄) (ground arith)

-- The bound of a range aggregation, without its overflow.
unfoldable pub bound_of : List (Option ℕ × Option ℕ) → ℕ
bound_of ranges = length ranges + bounded_below ranges + bounded_above ranges

-- The buckets of range aggregations below `parents` buckets; other kinds have buckets of their own.
unfoldable pub buckets_of : Aggregations → ℕ → ℕ
unfolding bound_of
buckets_of nil parents = 0
buckets_of (cons (aggregation name field (range ranges) below) rest) parents =
    parents * bound_of ranges
    + (buckets_of below (parents * bound_of ranges) + buckets_of rest parents)
buckets_of (cons (aggregation name field (terms size) below) rest) parents = buckets_of rest parents
buckets_of (cons (aggregation name field stats below) rest) parents = buckets_of rest parents
buckets_of (cons (aggregation name field (histogram interval) below) rest) parents =
    buckets_of rest parents

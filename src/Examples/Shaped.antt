-- ===== src/Examples/Shaped.antt =====
-- The theorem on the shape of aggregations of src/catalog.rs, applied at a concrete request.
use fulltext.Prelude.{◌*◌, ◌≡◌, ◌↔◌, max, [], ◌∷◌, none, some}
use fulltext.Error.{ok}
use fulltext.Catalog.{Aggregations, aggregation, range, terms, nil, cons}
use fulltext.Catalog.Shape.{check_aggregation_shape}
use fulltext.Catalog.Shape.Exact.{memory_of}
use fulltext.Catalog.Shape.Buckets.{IsShape, check_aggregation_shape_iff}

-- The terms of each of two price ranges, the first open below.
abbrev prices : Aggregations
prices =
    cons
      (aggregation (b'p' ∷ []) (b'f' ∷ []) (range ((none, some 5) ∷ (some 5, some 9) ∷ []))
        (cons (aggregation (b't' ∷ []) (b'g' ∷ []) (terms 10) nil) nil))
      nil

check_aggregation_shape_iff_example :
    (check_aggregation_shape prices 3 ≡ ok 6924)
    ↔ (IsShape prices 3 × (6924 ≡ memory_of prices * max 3 1))
check_aggregation_shape_iff_example = check_aggregation_shape_iff prices 3 6924

-- ===== src/Catalog/Validate.antt =====
-- `validate_requests` of src/catalog.rs: sorts and aggregations against the schema's filter fields.
use fulltext.Prelude.{
  ℕ, ◌+◌, ◌*◌, ◌^◌, Bool, true, false, ◌&&◌, ◌||◌, not, List, [], ◌∷◌, Option, none, some, ltb, leb,
  ◌==◌, if◌then◌else◌, is_empty, length,
}
use fulltext.Error.{
  Result, ok, err, new, invalid, invalid_with, resource_limit, text, refuse_if, ◌>>=◌, ◌>>◌,
}
use fulltext.Float.{f64_is_finite, f64_ge, f64_eq, f64_not_positive}
use fulltext.Text.{Bytes, text_eq, contains}
use fulltext.Filter.{FilterFieldConfig, FilterFieldType}
use fulltext.Catalog.{
  SortRequest, AggregationKind, Aggregations, aggregation, terms, stats, histogram, range, nil,
  cons, has_children, max_aggregation_depth,
}

abbrev pub Fields : Type 0
Fields = List FilterFieldConfig

-- The type of the first field of a name.
unfoldable pub field : Bytes → Fields → Result FilterFieldType
field name [] = err (invalid_with "Unknown filter field: {name}" (text name ∷ []))
field name (f ∷ fields) = if text_eq f.name name then ok f.field_type else field name fields

unfoldable pub is_text : FilterFieldType → Bool
is_text FilterFieldType.text = true
is_text _ = false

unfoldable pub is_number : FilterFieldType → Bool
is_number FilterFieldType.number = true
is_number _ = false

unfoldable pub is_boolean : FilterFieldType → Bool
is_boolean FilterFieldType.boolean = true
is_boolean _ = false

unfoldable pub validate_sorts : List SortRequest → List Bytes → Fields → Result (Unit {0})
unfolding is_boolean
validate_sorts [] seen fields = ok tt
validate_sorts (s ∷ sorts) seen fields =
    refuse_if (contains seen s.field) (invalid "Sort fields must be unique")
    >> (field s.field fields >>= λ type.
        refuse_if (is_boolean type) (invalid "Sorting requires a string or number field"))
    >> validate_sorts sorts (s.field ∷ seen) fields

unfoldable pub validate_sort : Option (List SortRequest) → Fields → Result (Unit {0})
unfolding validate_sorts
validate_sort none fields = ok tt
validate_sort (some sorts) fields =
    refuse_if (is_empty sorts) (invalid "Sorting requires at least one field")
    >> validate_sorts sorts [] fields

unfoldable pub check_aggregation_depth : ℕ → Result (Unit {0})
check_aggregation_depth depth =
    refuse_if (ltb max_aggregation_depth depth)
      (new resource_limit "Aggregation nesting exceeds stack safety depth budget" [])

-- `checked_mul` in 32 bits.
unfoldable pub terms_segment_size : ℕ → Result ℕ
terms_segment_size size =
    refuse_if (leb (2 ^ 32) (size * 10))
      (new resource_limit "Terms oversampling exceeds native representable resource budget" [])
    >> ok (size * 10)

is_infinite : Option ℕ → Bool
is_infinite none = false
is_infinite (some value) = not (f64_is_finite value)

is_descending : Option ℕ → Option ℕ → Bool
is_descending (some a) (some b) = f64_ge a b
is_descending _ _ = false

bound_eq : Option ℕ → Option ℕ → Bool
bound_eq none none = true
bound_eq (some a) (some b) = f64_eq a b
bound_eq _ _ = false

is_open : Option ℕ → Bool
is_open none = true
is_open (some value) = false

-- `i > 0 && (from.is_none() || *from != ranges[i - 1].1)`: nothing stands before the first range.
is_detached : Option (Option ℕ) → Option ℕ → Bool
unfolding is_open bound_eq
is_detached none from = false
is_detached (some before) from = is_open from || not (bound_eq from before)

unfoldable pub validate_ranges : Option (Option ℕ) → List (Option ℕ × Option ℕ) → Result (Unit {0})
unfolding is_infinite is_descending is_open is_detached
validate_ranges before [] = ok tt
validate_ranges before ((from, to) ∷ ranges) =
    refuse_if
      (is_infinite from
        || is_infinite to
        || is_descending from to
        || is_detached before from
        || not (is_empty ranges) && is_open to)
      (invalid "Ranges must be finite, ascending, contiguous, and nonoverlapping")
    >> validate_ranges (some to) ranges

unfoldable pub validate_kind : AggregationKind → FilterFieldType → Aggregations → Result (Unit {0})
unfolding is_text is_number
validate_kind (terms size) type subs =
    refuse_if (not (is_text type) || size == 0)
      (invalid "Terms requires a string field and positive size")
    >> (terms_segment_size size >>= λ _. ok tt)
validate_kind stats type subs =
    refuse_if (not (is_number type)) (invalid "Numeric aggregations require a number field")
    >> refuse_if (has_children subs) (invalid "Stats aggregations cannot contain sub-aggregations")
validate_kind (histogram interval) type subs =
    refuse_if (not (is_number type)) (invalid "Numeric aggregations require a number field")
    >> refuse_if (not (f64_is_finite interval) || f64_not_positive interval)
        (invalid "Histogram interval must be finite and positive")
validate_kind (range ranges) type subs =
    refuse_if (not (is_number type)) (invalid "Numeric aggregations require a number field")
    >> refuse_if (is_empty ranges) (invalid "Range requires at least one contiguous range")
    >> validate_ranges none ranges

unfoldable pub enter : Aggregations → ℕ → Result (Unit {0})
enter nil depth = ok tt
enter (cons a more) depth = check_aggregation_depth depth

-- The loop over the requests of one level, with the names seen so far.
unfoldable pub validate_level : Aggregations → List Bytes → Fields → ℕ → Result (Unit {0})
unfolding enter
validate_level nil seen fields depth = ok tt
validate_level (cons (aggregation name source kind subs) rest) seen fields depth =
    refuse_if (is_empty name || ltb 128 (length name) || contains seen name)
      (invalid "Aggregation names must be unique and contain from 1 through 128 UTF-8 bytes")
    >> (field source fields >>= λ type. validate_kind kind type subs)
    >> enter subs (depth + 1)
    >> validate_level subs [] fields (depth + 1)
    >> validate_level rest (name ∷ seen) fields depth

unfoldable pub validate_aggregations : Aggregations → Fields → ℕ → Result (Unit {0})
unfolding enter
validate_aggregations aggs fields depth = enter aggs depth >> validate_level aggs [] fields depth

unfoldable pub validate_requests :
    Option (List SortRequest) → Aggregations → Fields → Result (Unit {0})
validate_requests sort aggs fields =
    validate_sort sort fields >> validate_aggregations aggs fields 1

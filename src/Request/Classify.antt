-- ===== src/Request/Classify.antt =====
-- `classify_search` of src/protocol.rs: it scans a packed search for the signs of an expensive one.
use fulltext.Prelude.{
  ℕ, ◌/◌, Bool, false, ◌||◌, not, Option, none, some, ltb, if◌then◌else◌, length,
}
use fulltext.Error.{Result, ok, bind, invalid}
use fulltext.Text.{Bytes}
use fulltext.Cursor.{
  Parser, new, pure, lift, reject_if, ◌>>=◌, ◌>>◌, u32, boolean, byte_string, remaining, repeat,
}
use fulltext.Query.{max_query_terms, max_query_clauses, max_fields, validate_query_limits}
use fulltext.Query.Wire.{expression_fuel}
use fulltext.Query.Scan.{SearchCost, scan_search_expression}
use fulltext.Filter.Scan.{scan_filter_expression}
use fulltext.Catalog.Scan.{scan_catalog}
use fulltext.Config.{EngineConfig}
use fulltext.Request.{max_candidate_ids}
use fulltext.Request.Wire.{candidate_count, decode_search_traversal, filter_fuel, search_magic}

abbrev max_cheap_filter_clauses : ℕ
max_cheap_filter_clauses = 16

unfoldable pub check_scanned_candidates : ℕ → Parser (Unit {0})
check_scanned_candidates count c =
    reject_if (ltb max_candidate_ids count || ltb (remaining c / 4) count)
      (invalid "candidate ID count exceeds its packed request") c

unfoldable pub scan_candidates : Parser (Unit {0})
unfolding check_scanned_candidates
scan_candidates = do
  has_candidates ← boolean
  count ← candidate_count has_candidates
  check_scanned_candidates count
  _ ← repeat count byte_string
  pure tt

unfoldable pub scan_filter : Bool → Parser Bool
scan_filter filtered =
    if filtered
    then (do
      (expensive, clauses) ← scan_filter_expression filter_fuel 0 0
      pure (expensive || ltb max_cheap_filter_clauses clauses))
    else pure false

-- The bounds are asked of the scanner where a limit is above the default one.
unfoldable pub raised_profile_fields : ℕ → ℕ → ℕ → Option ℕ
raised_profile_fields schema_fields terms clauses =
    if ltb max_query_terms terms || ltb max_query_clauses clauses then some schema_fields else none

unfoldable pub is_over_default : Option ℕ → SearchCost → Bool
is_over_default none cost = false
is_over_default (some fields) cost =
    ltb max_query_terms cost.terms_upper || ltb max_query_clauses cost.construction_upper

unfoldable pub scan_search : Option ℕ → ℕ → ℕ → Parser Bool
unfolding scan_candidates scan_filter is_over_default
scan_search raised schema_fields clauses = do
  structure ← lift (fulltext.Query.Structure.new clauses schema_fields)
  (cost, _) ← scan_search_expression raised expression_fuel 0 structure
  scan_candidates
  filtered ← boolean
  filter_is_expensive ← scan_filter filtered
  catalog_is_expensive ← scan_catalog
  _ ← u32
  _ ← u32
  exact_total ← boolean
  (traversal, _) ← decode_search_traversal
  pure (
      traversal
      || catalog_is_expensive
      || is_over_default raised cost
      || cost.has_expensive_mode
      || not cost.has_positive_anchor
      || filter_is_expensive
      || exact_total)

unfoldable pub classify_search : Bytes → ℕ → ℕ → ℕ → Result Bool
unfolding scan_search
classify_search bytes schema_fields terms clauses = bind (validate_query_limits terms clauses) λ _.
    bind (new bytes search_magic) λ c.
      bind (scan_search (raised_profile_fields schema_fields terms clauses) schema_fields clauses c)
        λ (expensive, _). ok expensive

unfoldable pub search_is_expensive : Bytes → Result Bool
search_is_expensive bytes = classify_search bytes max_fields max_query_terms max_query_clauses

unfoldable pub search_is_expensive_for_config : Bytes → EngineConfig → Result Bool
search_is_expensive_for_config bytes config =
    classify_search bytes (length config.identity.fields) config.limits.max_query_terms
      config.limits.max_query_clauses

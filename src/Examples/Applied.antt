-- ===== src/Examples/Applied.antt =====
-- The theorems applied at concrete inputs.
use fulltext.Prelude.{
  ℕ, ◌≡◌, ◌↔◌, ◌≤◌, ◌+◌, refl, ◌||◌, none, arith, saturating_add, is_empty, get_range,
}
use fulltext.Error.{ok}
use fulltext.Text.{text_eq, is_utf8, contains}
use fulltext.Cursor.{
  Cursor, u8, u16, u32, boolean, take_bytes, byte_string, string, from_utf8, from_le_bytes, repeat,
  remaining,
}
use fulltext.Query
use fulltext.Query.{
  max_fields, validate_query_limits, validate_options, is_fuzzy, max_configured_query_clauses,
  max_expression_depth, max_query_text_bytes,
}
use fulltext.Query.Structure.{
  SearchStructureBudget, check_depth, leaf, visit, validate_search_structure,
}
use fulltext.Query.Structure
use fulltext.Query.Structure.Bounds.{
  IsWellFormed, height, weight, text_size, validate_search_structure_iff,
}
use fulltext.Query.Wire.{
  decode_search_expression, decode_node, decode_clause, decode_search_mode, decode_query_options,
  expression_fuel,
}
use fulltext.Query.Scan.{scan_search_expression}
use fulltext.Query.Cost.{cost_of}
use fulltext.Query.Agree.{scan-decode}
use fulltext.Query.Decoded.{visit-decode_search_expression}
use fulltext.Query.Fuel.{decode_search_expression-enough}
use fulltext.Filter.{
  decode_filter_expression, decode_filter_node, decode_filter_clause, decode_comparator,
  expected_values, wants_values, differs, decode_filter_value, decode_tagged_value,
}
use fulltext.Filter.Cost.{is_expensive, clause_count}
use fulltext.Filter.Scan.{scan_filter_expression}
use fulltext.Filter.Agree.{scan_filter-decode_filter}
use fulltext.Catalog
use fulltext.Catalog.{
  is_some, has_children, decode_catalog, catalog_count, check_count, decode_sort, decode_direction,
  decode_missing, decode_aggregations, decode_aggregation, decode_kind, is_stats,
}
use fulltext.Catalog.Scan.{scan_catalog}
use fulltext.Catalog.Validate.{
  validate_requests, validate_sort, validate_sorts, validate_aggregations, validate_level,
  validate_kind, enter, field, is_text, is_boolean, check_aggregation_depth, terms_segment_size,
}
use fulltext.Catalog.Agree.{NamesFit, scan_catalog-decode_catalog, requests-NamesFit}
use fulltext.Request.{validate_search_admission}
use fulltext.Request.Accepted.{IsAdmissible, validate_search_admission_iff}
use fulltext.Request.Classify.{classify_search, raised_profile_fields}
use fulltext.Request.Agree.{search_is_costly, classify_search-decode_search}
use fulltext.Request.Header.{search_budget}
use fulltext.Request.Budget.{search_budget-decode_search}
use fulltext.Examples.{
  packed_search, request, query, filter_expression, sorts, aggregations, filter_fields,
  packed_search_decodes,
}

abbrev at : ℕ → Cursor
at n = record { bytes = packed_search; offset = n }

abbrev budget : ℕ → ℕ → ℕ → SearchStructureBudget
budget clauses fields bytes = record {
  limit = clauses;
  remaining = clauses;
  text_bytes = bytes;
  fields = fields;
}

names_fit : NamesFit aggregations
unfolding NamesFit is_empty
names_fit = (refl, tt, tt)

query_fits : validate_search_structure query 256 1 ≡ ok tt
unfolding validate_search_structure fulltext.Query.Structure.new validate_query_limits visit
    check_depth leaf saturating_add
query_fits = refl

limits_valid : validate_query_limits 64 256 ≡ ok tt
unfolding validate_query_limits
limits_valid = refl

classify_search-decode_search_example :
    classify_search packed_search 1 64 256
    ≡ ok (search_is_costly (raised_profile_fields 1 64 256) request)
classify_search-decode_search_example =
    classify_search-decode_search packed_search 1 64 256 request packed_search_decodes limits_valid
      (omega arith) query_fits names_fit

validate_search_structure_iff_example : (validate_search_structure query 256 1 ≡ ok tt) ↔ (
    (1 ≤ 256)
    × (256 ≤ max_configured_query_clauses)
    × IsWellFormed 1 query
    × (height query ≤ max_expression_depth)
    × (weight query ≤ 256)
    × (text_size query ≤ max_query_text_bytes))
validate_search_structure_iff_example = validate_search_structure_iff query 256 1

validate_search_admission_iff_example :
    (validate_search_admission request ≡ ok tt) ↔ IsAdmissible request
validate_search_admission_iff_example = validate_search_admission_iff request

query_decodes :
    decode_search_expression expression_fuel 0 (budget 4096 1024 0) (at 6)
    ≡ ok ((query, budget 4096 1024 2), at 18)
unfolding decode_search_expression check_depth u8 take_bytes get_range decode_node decode_clause
    byte_string u32 decode_search_mode decode_query_options boolean validate_options is_fuzzy u16
    leaf saturating_add from_utf8 is_utf8 repeat string from_le_bytes
query_decodes = refl

query_visited : visit query 0 (budget 256 1 0) ≡ ok (budget 256 1 2)
unfolding visit check_depth leaf saturating_add
query_visited = refl

scan-decode_example :
    scan_search_expression none expression_fuel 0 (budget 256 1 0) (at 6)
    ≡ ok ((cost_of none query, budget 256 1 2), at 18)
scan-decode_example =
    scan-decode none expression_fuel 0 (budget 4096 1024 0) (budget 4096 1024 2) (budget 256 1 0)
      (budget 256 1 2) (at 6) (at 18) query query_decodes query_visited (omega arith) (omega arith)

visit-decode_search_expression_example :
    visit query 0 (budget 4096 1024 0) ≡ ok (budget 4096 1024 2)
visit-decode_search_expression_example =
    visit-decode_search_expression expression_fuel 0 (budget 4096 1024 0) (budget 4096 1024 2)
      (at 6) (at 18) query query_decodes

decode_search_expression-enough_example :
    decode_search_expression (5 + expression_fuel) 0 ≡ decode_search_expression expression_fuel 0
decode_search_expression-enough_example = decode_search_expression-enough 5

filter_decodes : decode_filter_expression 10 0 0 (at 27) ≡ ok ((filter_expression, 1), at 38)
unfolding decode_filter_expression decode_filter_node decode_filter_clause decode_comparator
    expected_values wants_values differs decode_filter_value decode_tagged_value u8 u16 u32
    take_bytes get_range from_le_bytes boolean byte_string string from_utf8 is_utf8 repeat remaining
filter_decodes = refl

scan_filter-decode_filter_example :
    (scan_filter_expression 10 0 0 (at 27) ≡ ok ((is_expensive filter_expression, 1), at 38))
    × (1 ≡ 0 + clause_count filter_expression)
scan_filter-decode_filter_example =
    scan_filter-decode_filter 10 0 0 1 (at 27) (at 38) filter_expression filter_decodes
      (omega arith)

catalog_decodes : decode_catalog (at 38) ≡ ok ((sorts, aggregations), at 72)
unfolding decode_catalog catalog_count check_count decode_sort decode_direction decode_missing
    decode_aggregations decode_aggregation decode_kind is_stats has_children
    fulltext.Catalog.from_list u8 u32 take_bytes get_range from_le_bytes byte_string string
    from_utf8 is_utf8 repeat remaining is_empty
catalog_decodes = refl

scan_catalog-decode_catalog_example :
    scan_catalog (at 38) ≡ ok (is_some sorts || has_children aggregations, at 72)
scan_catalog-decode_catalog_example =
    scan_catalog-decode_catalog (at 38) (at 72) sorts aggregations catalog_decodes names_fit

requests_valid : validate_requests sorts aggregations filter_fields ≡ ok tt
unfolding validate_requests validate_sort validate_sorts validate_aggregations validate_level
    validate_kind enter field is_text is_boolean check_aggregation_depth terms_segment_size text_eq
    contains is_empty
requests_valid = refl

requests-NamesFit_example : NamesFit aggregations
requests-NamesFit_example = requests-NamesFit sorts aggregations filter_fields requests_valid

search_budget-decode_search_example : search_budget packed_search ≡ ok 1000
search_budget-decode_search_example =
    search_budget-decode_search packed_search request packed_search_decodes

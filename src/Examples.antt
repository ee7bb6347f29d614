-- ===== src/Examples.antt =====
-- One packed search and the request that it holds: the input of the tests.
mod Applied
mod Opened
mod Served
mod Stored
mod Matched
mod Shaped
mod Counted
use fulltext.Catalog
use fulltext.Query.Structure
use fulltext.Prelude.{
  get_range, saturating_add, is_empty, ℕ, ◌≡◌, ◌↔◌, ◌≤◌, refl, Bool, true, false, List, [], ◌∷◌,
  ◌++◌, Option, none, some, arith, ◌+◌, ◌*◌, length,
}
use fulltext.Error.{ok}
use fulltext.Text.{Bytes, is_utf8, text_eq}
use fulltext.Cursor.{
  Cursor, new, u8, u16, u32, boolean, take_bytes, byte_string, string, from_utf8, from_le_bytes,
  repeat, repeat_with, record_id, validate_record_id, remaining, finish,
}
use fulltext.Query.{
  SearchMode, SearchExpression, Expressions, validate_query_limits, validate_options, is_fuzzy,
  is_prefix,
}
use fulltext.Query.Wire.{
  decode_search_expression, decode_node, decode_clause, decode_search_mode, decode_query_options,
}
use fulltext.Query.Options.{validate_expression_options}
use fulltext.Query.Structure.{
  SearchStructureBudget, check_depth, leaf, visit, validate_search_structure,
}
use fulltext.Filter.{
  FilterExpression, FilterComparator, FilterValue, FilterFieldConfig, FilterFieldType,
  decode_filter_expression, decode_filter_node, decode_filter_clause, decode_comparator,
  expected_values, wants_values, differs, decode_filter_value, decode_tagged_value,
}
use fulltext.Catalog.{
  SortRequest, SortDirection, MissingOrder, Aggregations, AggregationRequest, AggregationKind,
  decode_catalog, catalog_count, check_count, decode_sort, decode_direction, decode_missing,
  decode_aggregations, decode_aggregation, decode_kind, is_stats, has_children,
}
use fulltext.Request.{
  SearchRequest, validate_search_admission, validate_search_window, check_window,
  validate_candidates, validate_candidate_ids, validate_prefix_window, validate_boundary,
}
use fulltext.Request.Wire.{
  decode_search, search_magic, read_search, decode_candidates, candidate_count,
  check_candidate_count, read_candidate, decode_filter, decode_search_traversal,
  decode_traversal_flag, boolean_if, read_budget,
}

-- A clause for "ab" in every field.
abbrev packed_clause : Bytes
packed_clause = 0 ∷ 2 ∷ 0 ∷ 0 ∷ 0 ∷ b'a' ∷ b'b' ∷ 0 ∷ 1 ∷ 1 ∷ 0 ∷ 0 ∷ []

abbrev query : SearchExpression
query = SearchExpression.clause (record {
  text = b'a' ∷ b'b' ∷ [];
  mode = SearchMode.any;
  options = record { fuzzy_distance = 1; fuzzy_transpositions = true };
  fields = [];
})

-- One candidate, "x".
abbrev packed_candidates : Bytes
packed_candidates = 1 ∷ 1 ∷ 0 ∷ 1 ∷ 0 ∷ 0 ∷ 0 ∷ b'x' ∷ []

-- The field "f" equals true.
abbrev packed_filter : Bytes
packed_filter = 0 ∷ 1 ∷ 0 ∷ 0 ∷ 0 ∷ b'f' ∷ 0 ∷ 1 ∷ 0 ∷ 2 ∷ 1 ∷ []

abbrev filter_expression : FilterExpression
filter_expression =
    FilterExpression.clause (b'f' ∷ []) FilterComparator.equals (FilterValue.boolean true ∷ [])

-- Sorted by "f", with one terms aggregation "a" over "f".
abbrev packed_catalog : Bytes
packed_catalog =
    (1 ∷ 0 ∷ 0 ∷ 0 ∷ 1 ∷ 0 ∷ 0 ∷ 0 ∷ b'f' ∷ 0 ∷ 1 ∷ [])
    ++ (1 ∷ 0 ∷ 0 ∷ 0 ∷ 1 ∷ 0 ∷ 0 ∷ 0 ∷ b'a' ∷ 1 ∷ 0 ∷ 0 ∷ 0 ∷ b'f' ∷ 0 ∷ 10 ∷ 0 ∷ 0 ∷ 0 ∷ [])
    ++ (0 ∷ 0 ∷ 0 ∷ 0 ∷ [])

abbrev sorts : Option (List SortRequest)
sorts =
    some (
      record { field = b'f' ∷ []; direction = SortDirection.asc; missing = MissingOrder.last } ∷ [])

abbrev aggregations : Aggregations
aggregations =
    Aggregations.cons
      (AggregationRequest.aggregation (b'a' ∷ []) (b'f' ∷ []) (AggregationKind.terms 10)
        Aggregations.nil)
      Aggregations.nil

-- The field "f" holds strings.
abbrev filter_fields : List FilterFieldConfig
filter_fields = record { name = b'f' ∷ []; field_type = FilterFieldType.text } ∷ []

-- Offset 0, limit 10, no exact total, no traversal, 1000 milliseconds.
abbrev packed_search : Bytes
packed_search =
    search_magic
    ++ (8 ∷ 0 ∷ [])
    ++ packed_clause
    ++ packed_candidates
    ++ (1 ∷ [])
    ++ packed_filter
    ++ packed_catalog
    ++ (0 ∷ 0 ∷ 0 ∷ 0 ∷ 10 ∷ 0 ∷ 0 ∷ 0 ∷ 0 ∷ 0 ∷ 232 ∷ 3 ∷ 0 ∷ 0 ∷ [])

abbrev request : SearchRequest
request = record {
  sort = sorts;
  aggregations = aggregations;
  expression = query;
  candidate_ids = some ((b'x' ∷ []) ∷ []);
  filter = some filter_expression;
  offset = 0;
  limit = 10;
  exact_total = false;
  budget_milliseconds = 1000;
  traversal = false;
  after = none;
}

packed_search_decodes : decode_search packed_search ≡ ok request
unfolding decode_search new get_range read_search fulltext.Query.Structure.new validate_query_limits
    decode_search_expression check_depth u8 take_bytes decode_node decode_clause byte_string u32
    decode_search_mode decode_query_options boolean validate_options is_fuzzy u16 leaf
    saturating_add from_utf8 is_utf8 repeat string from_le_bytes text_eq remaining decode_candidates
    candidate_count check_candidate_count repeat_with read_candidate record_id validate_record_id
    is_empty decode_filter decode_filter_expression decode_filter_node decode_filter_clause
    decode_comparator expected_values wants_values differs decode_filter_value decode_tagged_value
    decode_catalog catalog_count check_count decode_sort decode_direction decode_missing
    decode_aggregations decode_aggregation decode_kind is_stats has_children
    fulltext.Catalog.from_list decode_search_traversal decode_traversal_flag boolean_if read_budget
    finish validate_search_admission validate_search_window check_window validate_candidates
    validate_candidate_ids validate_search_structure visit validate_expression_options
    validate_prefix_window validate_boundary is_prefix
packed_search_decodes = refl

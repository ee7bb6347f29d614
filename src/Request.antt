-- ===== src/Request.antt =====
-- Search requests of src/protocol.rs, and the admission of src/request_validation.rs that every
-- request passes.
pub mod Wire
pub mod Classify
pub mod Header
pub mod Agree
pub mod Accepted
pub mod Budget
use fulltext.Prelude.{
  ℕ, zero, suc, ◌+◌, ◌^◌, Bool, true, false, ◌&&◌, ◌||◌, not, List, [], ◌∷◌, Option, none, some,
  ltb, ◌==◌, if◌then◌else◌, length, all, usize_max, saturating_add, String,
}
use fulltext.Error.{Result, ok, err, bind, invalid, refuse_if, ◌>>=◌, ◌>>◌}
use fulltext.Float.{f32_is_finite}
use fulltext.Text.{Bytes, is_ascii_digit, within}
use fulltext.Cursor.{validate_record_id}
use fulltext.Query.{SearchExpression, max_configured_query_clauses, max_fields}
use fulltext.Query.Structure.{validate_search_structure}
use fulltext.Query.Options.{validate_expression_options}
use fulltext.Filter.{FilterExpression}
use fulltext.Catalog.{SortRequest, Aggregations, is_some, has_children}

abbrev pub max_candidate_ids : ℕ
max_candidate_ids = 1024

abbrev pub max_candidate_bytes : ℕ
max_candidate_bytes = 2 ^ 20

abbrev pub max_search_window : ℕ
max_search_window = 10000

abbrev pub max_search_page_size : ℕ
max_search_page_size = 10000

abbrev pub max_autocomplete_results : ℕ
max_autocomplete_results = 100

abbrev pub max_search_request_bytes : ℕ
max_search_request_bytes = 2 ^ 23

abbrev pub max_search_budget_milliseconds : ℕ
max_search_budget_milliseconds = 30000

pub record SearchBoundary : Type 0 where
  pub snapshot : Bytes
  pub score : ℕ
  pub id : Bytes

pub record SearchRequest : Type 0 where
  pub sort : Option (List SortRequest)
  pub aggregations : Aggregations
  pub expression : SearchExpression
  pub candidate_ids : Option (List Bytes)
  pub filter : Option FilterExpression
  pub offset : ℕ
  pub limit : ℕ
  pub exact_total : Bool
  pub budget_milliseconds : ℕ
  pub traversal : Bool
  pub after : Option SearchBoundary

-- Where the source gives up on `offset + limit` by `checked_add`, the sum is past the window too.
unfoldable pub check_window : Bool → ℕ → ℕ → Bool → Result (Unit {0})
check_window true offset limit has_catalog =
    refuse_if (not (offset == 0) || ltb max_search_page_size limit) (
      invalid
        "searchPage requires offset zero and limit at most 10000; reduce page size, not total traversal results")
check_window false offset limit has_catalog =
    refuse_if (ltb usize_max (offset + limit) || ltb max_search_window (offset + limit)) (
      invalid (
        if has_catalog
        then "offset + limit must not exceed 10000; metadata continuation is not supported"
        else "offset + limit must not exceed 10000; use searchPage for deeper results"))

unfoldable pub validate_search_window : ℕ → ℕ → Bool → Bool → Result (Unit {0})
unfolding check_window
validate_search_window offset limit traversal has_catalog =
    refuse_if (limit == 0) (invalid "search limit must be greater than zero")
    >> check_window traversal offset limit has_catalog

-- The loop over the candidates, with the bytes counted so far.
unfoldable pub validate_candidate_ids : List Bytes → ℕ → Result (Unit {0})
validate_candidate_ids [] bytes = ok tt
validate_candidate_ids (id ∷ ids) bytes =
    validate_record_id id
    >> refuse_if (ltb max_candidate_bytes (saturating_add bytes (length id)))
        (invalid "candidate IDs exceed 1048576 UTF-8 bytes")
    >> validate_candidate_ids ids (saturating_add bytes (length id))

unfoldable pub validate_candidates : Option (List Bytes) → Result (Unit {0})
unfolding validate_candidate_ids
validate_candidates none = ok tt
validate_candidates (some ids) =
    refuse_if (ltb max_candidate_ids (length ids)) (invalid "candidate ID count exceeds 1024")
    >> validate_candidate_ids ids 0

-- `byte.is_ascii_digit() || (b'a'..=b'f').contains(&byte)`.
unfoldable pub is_lower_hex : ℕ → Bool
is_lower_hex byte = is_ascii_digit byte || within b'a' b'f' byte

unfoldable pub is_snapshot : Bytes → Bool
unfolding is_lower_hex
is_snapshot snapshot = length snapshot == 64 && all is_lower_hex snapshot

unfoldable pub validate_boundary : Option SearchBoundary → Result (Unit {0})
unfolding is_snapshot
validate_boundary none = ok tt
validate_boundary (some after) =
    validate_record_id after.id
    >> refuse_if (not (f32_is_finite after.score) || not (is_snapshot after.snapshot))
        (invalid "invalid search continuation boundary")

abbrev pub has_catalog : SearchRequest → Bool
has_catalog r = is_some r.sort || has_children r.aggregations

unfoldable pub validate_prefix_window : Bool → SearchRequest → Result (Unit {0})
validate_prefix_window contains_prefix r =
    refuse_if
      (contains_prefix
        && not r.traversal
        && (not (r.offset == 0) || ltb max_autocomplete_results r.limit))
      (invalid (
        if has_catalog r
        then "prefix search with sort or aggregations requires offset zero and a limit no greater than 100; metadata continuation is not supported"
        else "prefix search requires offset zero and a limit no greater than 100; use searchPage for subsequent matches"))

unfoldable pub validate_search_admission : SearchRequest → Result (Unit {0})
unfolding validate_search_window validate_candidates validate_prefix_window validate_boundary
validate_search_admission r = do
  validate_search_window r.offset r.limit r.traversal (has_catalog r)
  validate_candidates r.candidate_ids
  validate_search_structure r.expression max_configured_query_clauses max_fields
  contains_prefix ← validate_expression_options r.expression
  validate_prefix_window contains_prefix r
  validate_boundary r.after

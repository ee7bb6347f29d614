-- ===== src/Request/Wire.antt =====
-- `decode_search` and `decode_search_traversal` of src/protocol.rs.
use fulltext.Prelude.{
  ℕ, ◌+◌, ◌/◌, Bool, false, ◌||◌, not, List, [], ◌∷◌, Option, none, some, ltb, ◌==◌, if◌then◌else◌,
  length, usize_max,
}
use fulltext.Error.{Result, ok, bind, invalid}
use fulltext.Float.{f32_is_finite}
use fulltext.Text.{Bytes}
use fulltext.Cursor.{
  Parser, new, pure, lift, reject_if, ◌>>=◌, ◌>>◌, u16, u32, f32, boolean, string, record_id,
  remaining, repeat_with, finish,
}
use fulltext.Query.{SearchExpression, max_configured_query_clauses, max_fields}
use fulltext.Query.Wire.{decode_search_expression, expression_fuel}
use fulltext.Filter.{FilterExpression, decode_filter_expression}
use fulltext.Catalog.{decode_catalog}
use fulltext.Request.{
  SearchBoundary, SearchRequest, is_snapshot, max_candidate_ids, max_candidate_bytes,
  max_search_budget_milliseconds, validate_search_admission,
}

unfoldable pub decode_boundary : Parser (Option SearchBoundary)
decode_boundary = do
  snapshot ← string
  score ← f32
  id ← record_id
  reject_if (not (is_snapshot snapshot) || not (f32_is_finite score))
      (invalid "invalid search continuation boundary")
  pure (some (record { snapshot = snapshot; score = score; id = id }))

-- `cursor.remaining() > 4 && cursor.boolean()?`: the flag is there if more than the budget is.
unfoldable pub decode_traversal_flag : Parser Bool
decode_traversal_flag c = if ltb 4 (remaining c) then boolean c else ok (false, c)

unfoldable pub boolean_if : Bool → Parser Bool
boolean_if wanted = if wanted then boolean else pure false

unfoldable pub decode_search_traversal : Parser (Bool × Option SearchBoundary)
unfolding decode_boundary decode_traversal_flag boolean_if
decode_search_traversal = do
  traversal ← decode_traversal_flag
  bounded ← boolean_if traversal
  after ← (if bounded then decode_boundary else pure none)
  pure (traversal, after)

-- One candidate, with the bytes of those before it.
unfoldable pub read_candidate : ℕ → Parser (Bytes × ℕ)
read_candidate candidate_bytes = do
  id ← record_id
  reject_if (ltb usize_max (candidate_bytes + length id))
      (invalid "candidate ID byte count overflow")
  reject_if (ltb max_candidate_bytes (candidate_bytes + length id))
      (invalid "candidate IDs exceed 1048576 UTF-8 bytes")
  pure (id, candidate_bytes + length id)

unfoldable pub candidate_count : Bool → Parser ℕ
candidate_count has_candidates = if has_candidates then u16 else pure 0

unfoldable pub check_candidate_count : ℕ → Parser (Unit {0})
check_candidate_count count c =
    reject_if (ltb (remaining c / 4) count)
      (invalid "candidate ID count exceeds the packed request length") c

unfoldable pub decode_candidates : Parser (Option (List Bytes))
unfolding read_candidate candidate_count check_candidate_count
decode_candidates = do
  has_candidates ← boolean
  count ← candidate_count has_candidates
  reject_if (ltb max_candidate_ids count) (invalid "candidate ID count exceeds 1024")
  check_candidate_count count
  (ids, _) ← repeat_with count read_candidate 0
  pure (if has_candidates then some ids else none)

-- Enough for nine levels, the last of which is refused.
abbrev pub filter_fuel : ℕ
filter_fuel = 10

unfoldable pub decode_filter : Bool → Parser (Option FilterExpression)
decode_filter filtered =
    if filtered
    then (do (filter, _) ← decode_filter_expression filter_fuel 0 0; pure (some filter))
    else pure none

-- The budget ends the request.
unfoldable pub read_budget : Parser ℕ
read_budget = do
  budget_milliseconds ← u32
  finish
  reject_if (budget_milliseconds == 0 || ltb max_search_budget_milliseconds budget_milliseconds)
      (invalid "search budget must be between 1 and 30000 milliseconds")
  pure budget_milliseconds

unfoldable pub read_search : Parser SearchRequest
unfolding decode_candidates decode_filter decode_search_traversal read_budget
read_search = do
  structure ← lift (fulltext.Query.Structure.new max_configured_query_clauses max_fields)
  (expression, _) ← decode_search_expression expression_fuel 0 structure
  candidate_ids ← decode_candidates
  filtered ← boolean
  filter ← decode_filter filtered
  (sort, aggregations) ← decode_catalog
  offset ← u32
  limit ← u32
  exact_total ← boolean
  (traversal, after) ← decode_search_traversal
  budget_milliseconds ← read_budget
  pure (record {
    sort = sort;
    aggregations = aggregations;
    expression = expression;
    candidate_ids = candidate_ids;
    filter = filter;
    offset = offset;
    limit = limit;
    exact_total = exact_total;
    budget_milliseconds = budget_milliseconds;
    traversal = traversal;
    after = after;
  })

-- "FTSQ"
abbrev pub search_magic : Bytes
search_magic = b'F' ∷ b'T' ∷ b'S' ∷ b'Q' ∷ []

unfoldable pub decode_search : Bytes → Result SearchRequest
unfolding read_search
decode_search bytes = bind (new bytes search_magic) λ c.
    bind (read_search c) λ (request, _). bind (validate_search_admission request) λ _. ok request

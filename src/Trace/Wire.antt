-- ===== src/Trace/Wire.antt =====
-- `decode_trace` of src/protocol.rs.
use fulltext.Prelude.{
  ℕ, ◌/◌, Bool, false, ◌||◌, List, Option, none, some, ltb, ◌==◌, if◌then◌else◌, length,
  saturating_add, String,
}
use fulltext.Error.{Result, ok, bind, invalid}
use fulltext.Text.{Bytes, starts_with}
use fulltext.Cursor.{
  Parser, new, pure, lift, reject_if, ◌>>=◌, ◌>>◌, u8, u16, u32, boolean, string, record_id,
  remaining, repeat, repeat_with, finish,
}
use fulltext.Query.{
  SearchExpression, clause, max_query_text_bytes, max_configured_query_clauses, max_fields,
}
use fulltext.Query.Wire.{
  decode_search_mode, decode_query_options, decode_search_expression, expression_fuel,
}
use fulltext.Catalog.{Aggregations}
use fulltext.Request.{max_candidate_ids, max_candidate_bytes, max_search_budget_milliseconds}
use fulltext.Request.Wire.{candidate_count}
use fulltext.Request.Header.{recovery_magic, boolean_magic, trace_magic}
use fulltext.Trace.{
  TraceRecord, TraceRequest, max_trace_records, max_trace_source_bytes, validate_trace_admission,
}

unfoldable pub check_packed : String → ℕ → ℕ → ℕ → Parser (Unit {0})
check_packed message limit minimum_bytes count c =
    reject_if (ltb limit count || ltb (remaining c / minimum_bytes) count) (invalid message) c

unfoldable pub decode_trace_clause : Parser SearchExpression
unfolding check_packed
decode_trace_clause = do
  text ← string
  reject_if (ltb max_query_text_bytes (length text))
      (invalid "search text exceeds 65536 UTF-8 bytes")
  mode ← (do value ← u8; lift (decode_search_mode value))
  options ← decode_query_options mode
  field_count ← u16
  check_packed "trace field count exceeds its packed request" max_fields 4 field_count
  fields ← repeat field_count string
  pure (clause (record { text = text; mode = mode; options = options; fields = fields }))

unfoldable pub decode_trace_structure : Parser SearchExpression
decode_trace_structure = do
  structure ← lift (fulltext.Query.Structure.new max_configured_query_clauses max_fields)
  (expression, _) ← decode_search_expression expression_fuel 0 structure
  pure expression

unfoldable pub decode_trace_candidate : ℕ → Parser (Bytes × ℕ)
decode_trace_candidate candidate_bytes = do
  id ← record_id
  reject_if (ltb max_candidate_bytes (saturating_add candidate_bytes (length id)))
      (invalid "candidate IDs exceed 1048576 UTF-8 bytes")
  pure (id, saturating_add candidate_bytes (length id))

unfoldable pub decode_trace_candidates : Parser (Option (List Bytes))
unfolding check_packed decode_trace_candidate
decode_trace_candidates = do
  has_candidates ← boolean
  count ← candidate_count has_candidates
  check_packed "trace candidate count exceeds its packed request" max_candidate_ids 4 count
  (ids, _) ← repeat_with count decode_trace_candidate 0
  pure (if has_candidates then some ids else none)

-- The bytes of the texts are counted on, over all records.
unfoldable pub decode_trace_value : ℕ → Parser (Bytes × ℕ)
decode_trace_value source_bytes = do
  value ← string
  reject_if (ltb max_trace_source_bytes (saturating_add source_bytes (length value)))
      (invalid "trace source text exceeds 1048576 UTF-8 bytes")
  pure (value, saturating_add source_bytes (length value))

unfoldable pub check_value_count : ℕ → Parser (Unit {0})
check_value_count count c =
    reject_if (ltb (remaining c / 4) count) (invalid "trace value count exceeds its packed request")
      c

unfoldable pub decode_trace_field : ℕ → Parser ((Bytes × List Bytes) × ℕ)
unfolding decode_trace_value check_value_count
decode_trace_field source_bytes = do
  name ← string
  count ← u16
  check_value_count count
  (values, counted) ← repeat_with count decode_trace_value source_bytes
  pure ((name, values), counted)

unfoldable pub decode_trace_record : ℕ → Parser (TraceRecord × ℕ)
unfolding check_packed decode_trace_field
decode_trace_record source_bytes = do
  id ← record_id
  count ← u16
  check_packed "trace record field count exceeds its packed request" max_fields 6 count
  (fields, counted) ← repeat_with count decode_trace_field source_bytes
  pure (record { id = id; fields = fields }, counted)

unfoldable pub read_trace : Bool → Bool → Parser TraceRequest
unfolding decode_trace_structure decode_trace_clause decode_trace_candidates decode_trace_record
read_trace recovery boolean = do
  expression ← (if boolean then decode_trace_structure else decode_trace_clause)
  candidate_ids ← decode_trace_candidates
  record_count ← u16
  check_packed "trace record count exceeds its packed request" max_trace_records 6 record_count
  (records, _) ← repeat_with record_count decode_trace_record 0
  budget_milliseconds ← u32
  finish
  reject_if (budget_milliseconds == 0 || ltb max_search_budget_milliseconds budget_milliseconds)
      (invalid "trace budget must be between 1 and 30000 milliseconds")
  pure (record {
    recovery = recovery;
    search = record {
      sort = none;
      aggregations = Aggregations.nil;
      expression = expression;
      candidate_ids = candidate_ids;
      filter = none;
      offset = 0;
      limit = record_count;
      exact_total = false;
      budget_milliseconds = budget_milliseconds;
      traversal = false;
      after = none;
    };
    records = records;
  })

unfoldable pub decode_trace : Bytes → Result TraceRequest
unfolding read_trace
decode_trace bytes =
    let recovery = starts_with bytes recovery_magic in
    let boolean = recovery || starts_with bytes boolean_magic in
    bind (new bytes (trace_magic bytes)) λ c.
      bind (read_trace recovery boolean c) λ (request, _).
        bind (validate_trace_admission request.search request.records) λ _. ok request

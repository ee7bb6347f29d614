-- ===== src/Trace.antt =====
-- Match traces: their requests in src/protocol.rs and the admission of src/request_validation.rs.
pub mod Wire
pub mod Evaluate
pub mod Sound
pub mod Leaves
use fulltext.Prelude.{ℕ, zero, suc, ◌+◌, ◌^◌, Bool, List, [], ◌∷◌, ltb, length, saturating_add}
use fulltext.Error.{Result, ok, bind, invalid, invalid_with, text, refuse_if, ◌>>=◌, ◌>>◌}
use fulltext.Text.{Bytes, contains}
use fulltext.Cursor.{validate_record_id}
use fulltext.Query.{max_configured_query_clauses, max_fields}
use fulltext.Query.Structure.{validate_search_structure}
use fulltext.Query.Options.{validate_expression_options}
use fulltext.Request.{SearchRequest, validate_candidates}

abbrev pub max_trace_records : ℕ
max_trace_records = 100

abbrev pub max_trace_source_bytes : ℕ
max_trace_source_bytes = 2 ^ 20

abbrev u16_max : ℕ
u16_max = 65535

pub record TraceRecord : Type 0 where
  pub id : Bytes
  pub fields : List (Bytes × List Bytes)

pub record TraceRequest : Type 0 where
  pub recovery : Bool
  pub search : SearchRequest
  pub records : List TraceRecord

-- The bytes of the values are counted on, over all records.
unfoldable pub validate_trace_values : List Bytes → ℕ → Result ℕ
validate_trace_values [] source_bytes = ok source_bytes
validate_trace_values (value ∷ values) source_bytes =
    refuse_if (ltb max_trace_source_bytes (saturating_add source_bytes (length value)))
      (invalid "trace source text exceeds 1048576 UTF-8 bytes")
    >> validate_trace_values values (saturating_add source_bytes (length value))

unfoldable pub validate_trace_fields : List (Bytes × List Bytes) → List Bytes → ℕ → Result ℕ
unfolding validate_trace_values
validate_trace_fields [] seen source_bytes = ok source_bytes
validate_trace_fields ((name, values) ∷ fields) seen source_bytes =
    refuse_if (contains seen name) (invalid_with "duplicate trace field {name}" (text name ∷ []))
    >> refuse_if (ltb u16_max (length values)) (invalid "trace value count exceeds 65535")
    >> (validate_trace_values values source_bytes >>= λ counted.
        validate_trace_fields fields (name ∷ seen) counted)

unfoldable pub validate_trace_records : List TraceRecord → List Bytes → ℕ → Result (Unit {0})
unfolding validate_trace_fields
validate_trace_records [] seen source_bytes = ok tt
validate_trace_records (r ∷ records) seen source_bytes =
    validate_record_id r.id
    >> refuse_if (contains seen r.id) (invalid_with "duplicate trace record {}" (text r.id ∷ []))
    >> refuse_if (ltb max_fields (length r.fields))
        (invalid "trace record field count exceeds 1024 fields")
    >> (validate_trace_fields r.fields [] source_bytes >>= λ counted.
        validate_trace_records records (r.id ∷ seen) counted)

unfoldable pub validate_trace_admission : SearchRequest → List TraceRecord → Result (Unit {0})
unfolding validate_trace_records
validate_trace_admission request records = do
  validate_candidates request.candidate_ids
  validate_search_structure request.expression max_configured_query_clauses max_fields
  _ ← validate_expression_options request.expression
  refuse_if (ltb max_trace_records (length records)) (invalid "trace record count exceeds 100")
  validate_trace_records records [] 0

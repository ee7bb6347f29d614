-- ===== src/Request/Header.antt =====
-- What src/protocol.rs reads of a packed request before it decodes it: its header and its budget.
use fulltext.Prelude.{ℕ, ◌-◌, not, ◌||◌, [], ◌∷◌, ltb, ◌==◌, if◌then◌else◌, length, drop}
use fulltext.Error.{Result, ok, bind, invalid, refuse_if, FulltextError}
use fulltext.Text.{Bytes, starts_with}
use fulltext.Cursor.{new, from_le_bytes}
use fulltext.Request.{max_search_request_bytes, max_search_budget_milliseconds}
use fulltext.Request.Wire.{search_magic}

-- "FTBR", "FTBT" and "FTTM"
abbrev pub recovery_magic : Bytes
recovery_magic = b'F' ∷ b'T' ∷ b'B' ∷ b'R' ∷ []

abbrev pub boolean_magic : Bytes
boolean_magic = b'F' ∷ b'T' ∷ b'B' ∷ b'T' ∷ []

abbrev pub text_magic : Bytes
text_magic = b'F' ∷ b'T' ∷ b'T' ∷ b'M' ∷ []

unfoldable pub trace_magic : Bytes → Bytes
trace_magic bytes =
    if starts_with bytes recovery_magic
    then recovery_magic
    else if starts_with bytes boolean_magic
    then boolean_magic
    else text_magic

unfoldable pub validate_search_header : Bytes → Result (Unit {0})
validate_search_header bytes =
    bind
      (refuse_if (ltb max_search_request_bytes (length bytes))
        (invalid "packed search request exceeds 8388608 bytes"))
      λ _. bind (new bytes search_magic) λ _. ok tt

unfoldable pub validate_trace_header : Bytes → Result (Unit {0})
unfolding trace_magic
validate_trace_header bytes =
    bind
      (refuse_if (ltb max_search_request_bytes (length bytes))
        (invalid "packed trace request exceeds 8388608 bytes"))
      λ _. bind (new bytes (trace_magic bytes)) λ _. ok tt

-- The last four bytes; `saturating_sub` is the subtraction that stops at 0.
unfoldable pub packed_budget : Bytes → Bytes → FulltextError → Result ℕ
packed_budget bytes magic out_of_range =
    let budget_bytes = drop (length bytes - 4) bytes in
    let budget = from_le_bytes budget_bytes in
    bind (new bytes magic) λ _.
      bind (refuse_if (not (length budget_bytes == 4)) (invalid "packed request is truncated")) λ _.
        bind (refuse_if (budget == 0 || ltb max_search_budget_milliseconds budget) out_of_range)
          λ _. ok budget

unfoldable pub search_budget : Bytes → Result ℕ
unfolding packed_budget
search_budget bytes =
    packed_budget bytes search_magic
      (invalid "search budget must be between 1 and 30000 milliseconds")

unfoldable pub trace_budget : Bytes → Result ℕ
unfolding packed_budget trace_magic
trace_budget bytes =
    packed_budget bytes (trace_magic bytes)
      (invalid "trace budget must be between 1 and 30000 milliseconds")

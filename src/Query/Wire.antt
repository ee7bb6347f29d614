-- ===== src/Query/Wire.antt =====
-- `decode_search_expression` of src/protocol.rs, and the readers that it calls.
pub mod Moves
use fulltext.Prelude.{ℕ, zero, suc, ◌+◌, ◌||◌, ◌==◌, if◌then◌else◌, length}
use fulltext.Error.{Result, ok, err, FulltextError, invalid}
use fulltext.Cursor.{
  Parser, pure, lift, reject, ◌>>=◌, ◌>>◌, u8, boolean, u16, f32, byte_string, string, from_utf8,
  repeat, repeat_with,
}
use fulltext.Query.{
  SearchMode, QueryOptions, SearchClause, SearchExpression, clause, and, or, negate, boost,
  optional, from_list, validate_options, validate_query_boost,
}
use fulltext.Query.Structure.{
  SearchStructureBudget, check_depth, charge, children, optional_children, leaf,
}

unfoldable pub decode_search_mode : ℕ → Result SearchMode
decode_search_mode value =
    if value == 0
    then ok SearchMode.any
    else if value == 1
    then ok SearchMode.all
    else if value == 2
    then ok SearchMode.phrase
    else if value == 3
    then ok SearchMode.prefix
    else if value == 4
    then ok SearchMode.fuzzy
    else if value == 5
    then ok SearchMode.fuzzy_prefix
    else err (invalid "unknown search mode")

unfoldable pub decode_query_options : SearchMode → Parser QueryOptions
decode_query_options mode = do
  distance ← u8
  transpositions ← boolean
  let options : QueryOptions = record {
    fuzzy_distance = distance;
    fuzzy_transpositions = transpositions;
  }
  lift (validate_options options mode)
  pure options

-- A reader of one expression: the budget goes in, and what is left comes out beside the value.
abbrev pub Reader : Type 0 → Type 0
Reader A = SearchStructureBudget → Parser (A × SearchStructureBudget)

unfoldable pub decode_clause : Reader SearchExpression
decode_clause s = do
  text_bytes ← byte_string
  mode ← (do value ← u8; lift (decode_search_mode value))
  options ← decode_query_options mode
  field_count ← u16
  s₁ ← lift (leaf (length text_bytes) field_count s)
  text ← lift (from_utf8 text_bytes)
  fields ← repeat field_count string
  pure (clause (record { text = text; mode = mode; options = options; fields = fields }), s₁)

-- The groups take the reader of their children, one level down.
unfoldable pub decode_group : ℕ → Reader SearchExpression → Reader SearchExpression
decode_group kind child s = do
  count ← u16
  s₁ ← lift (children count s)
  (es, s₂) ← repeat_with count child s₁
  pure (if kind == 1 then and (from_list es) else or (from_list es), s₂)

unfoldable pub decode_not : Reader SearchExpression → Reader SearchExpression
decode_not child s = do s₁ ← lift (charge 2 s); (e, s₂) ← child s₁; pure (negate e, s₂)

unfoldable pub decode_boost : Reader SearchExpression → Reader SearchExpression
decode_boost child s = do
  value ← f32
  lift (validate_query_boost value)
  s₁ ← lift (charge 1 s)
  (e, s₂) ← child s₁
  pure (boost value e, s₂)

unfoldable pub decode_optional : Reader SearchExpression → Reader SearchExpression
decode_optional child s = do
  count ← u16
  s₁ ← lift (optional_children count s)
  s₂ ← lift (charge 1 s₁)
  (required, s₃) ← child s₂
  (es, s₄) ← repeat_with count child s₃
  pure (optional required (from_list es), s₄)

unfoldable pub decode_node : ℕ → Reader SearchExpression → Reader SearchExpression
decode_node kind child s =
    if kind == 0
    then decode_clause s
    else if kind == 1 || kind == 2
    then decode_group kind child s
    else if kind == 3
    then decode_not child s
    else if kind == 4
    then decode_boost child s
    else if kind == 5
    then decode_optional child s
    else reject (invalid "unknown search expression type")

-- What the recursion answers when its fuel is spent, which has no counterpart in the program.
abbrev pub out_of_fuel : FulltextError
out_of_fuel = invalid "out of fuel"

-- Each level of nesting costs one unit of fuel.
unfoldable pub decode_search_expression : ℕ → ℕ → Reader SearchExpression
decode_search_expression zero depth s = reject out_of_fuel
decode_search_expression (suc fuel) depth s = do
  lift (check_depth depth)
  kind ← u8
  decode_node kind (decode_search_expression fuel (depth + 1)) s

-- Enough for every depth that the check lets through, and the level that it refuses.
abbrev pub expression_fuel : ℕ
expression_fuel = 10

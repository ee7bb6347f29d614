-- ===== src/Filter.antt =====
-- Structured filters of src/protocol.rs: their types, `decode_filter_value` and
-- `decode_filter_expression`.
pub mod Scan
pub mod Cost
pub mod Agree
use fulltext.Prelude.{
  ℕ, zero, suc, ◌+◌, Bool, not, ◌&&◌, ◌||◌, List, [], ◌∷◌, Option, none, some, ltb, ◌==◌, length,
  if◌then◌else◌,
}
use fulltext.Error.{Result, ok, err, invalid}
use fulltext.Float.{f64_is_finite}
use fulltext.Text.{Bytes}
use fulltext.Cursor.{
  Parser, pure, lift, reject, reject_if, ◌>>=◌, ◌>>◌, u8, u16, f64, boolean as bool, string, repeat,
  repeat_with,
}
use fulltext.Query.{max_query_clauses, max_expression_depth}
use fulltext.Query.Wire.{out_of_fuel}

pub data FilterFieldType : Type 0 where
  text number boolean : FilterFieldType

pub record FilterFieldConfig : Type 0 where
  pub name : Bytes
  pub field_type : FilterFieldType

-- A number is the bit pattern of an `f64`.
pub data FilterValue : Type 0 where
  text : Bytes → FilterValue
  number : ℕ → FilterValue
  boolean : Bool → FilterValue

pub data FilterComparator : Type 0 where
  equals one_of lt le gt ge between exists missing : FilterComparator

mutual
  pub data FilterExpression : Type 0 where
    clause : Bytes → FilterComparator → List FilterValue → FilterExpression
    and or : Filters → FilterExpression
    negate : FilterExpression → FilterExpression

  pub data Filters : Type 0 where
    nil : Filters
    cons : FilterExpression → Filters → Filters

unfoldable pub from_list : List FilterExpression → Filters
from_list [] = nil
from_list (e ∷ es) = cons e (from_list es)

unfoldable pub decode_number : Parser FilterValue
decode_number = do
  value ← f64
  reject_if (not (f64_is_finite value)) (invalid "filter numbers must be finite")
  pure (FilterValue.number value)

unfoldable pub decode_tagged_value : ℕ → Parser FilterValue
unfolding decode_number
decode_tagged_value tag =
    if tag == 0
    then (do value ← string; pure (FilterValue.text value))
    else if tag == 1
    then decode_number
    else if tag == 2
    then (do value ← bool; pure (FilterValue.boolean value))
    else reject (invalid "unknown filter value type")

unfoldable pub decode_filter_value : Parser FilterValue
unfolding decode_tagged_value
decode_filter_value = do tag ← u8; decode_tagged_value tag

unfoldable pub decode_comparator : ℕ → Result FilterComparator
decode_comparator value =
    if value == 0
    then ok equals
    else if value == 1
    then ok one_of
    else if value == 2
    then ok lt
    else if value == 3
    then ok le
    else if value == 4
    then ok gt
    else if value == 5
    then ok ge
    else if value == 6
    then ok between
    else if value == 7
    then ok exists
    else if value == 8
    then ok missing
    else err (invalid "unknown filter comparator")

-- How many values a comparator takes; nothing where any positive number will do.
unfoldable pub expected_values : FilterComparator → Option ℕ
expected_values one_of = none
expected_values between = some 2
expected_values exists = some 0
expected_values missing = some 0
expected_values _ = some 1

-- `expected.is_some_and(|expected| expected != count)`.
unfoldable pub differs : Option ℕ → ℕ → Bool
differs none count = Bool.false
differs (some expected) count = not (expected == count)

-- `expected != Some(0)`.
unfoldable pub wants_values : Option ℕ → Bool
wants_values none = Bool.true
wants_values (some expected) = not (expected == 0)

-- A reader of one filter: the number of clauses so far goes in, and comes out counted on.
abbrev pub Reader : Type 0 → Type 0
Reader A = ℕ → Parser (A × ℕ)

unfoldable pub decode_filter_clause : Reader FilterExpression
unfolding differs wants_values
decode_filter_clause clauses = do
  let counted = clauses + 1
  reject_if (ltb max_query_clauses counted) (invalid "filter expression exceeds 256 clauses")
  field ← string
  comparator ← (do value ← u8; lift (decode_comparator value))
  count ← u16
  let expected = expected_values comparator
  reject_if
      (count == 0 && wants_values expected || ltb max_query_clauses count || differs expected count)
      (invalid "invalid filter value count")
  values ← repeat count decode_filter_value
  pure (clause field comparator values, counted)

unfoldable pub decode_filter_group : ℕ → Reader FilterExpression → Reader FilterExpression
decode_filter_group kind child clauses = do
  count ← u16
  reject_if (count == 0 || ltb max_query_clauses count)
      (invalid "filter boolean expression requires 1 to 256 children")
  (es, counted) ← repeat_with count child clauses
  pure (if kind == 1 then and (from_list es) else or (from_list es), counted)

unfoldable pub decode_filter_not : Reader FilterExpression → Reader FilterExpression
decode_filter_not child clauses = do (e, counted) ← child clauses; pure (negate e, counted)

unfoldable pub decode_filter_node : ℕ → Reader FilterExpression → Reader FilterExpression
decode_filter_node kind child clauses =
    if kind == 0
    then decode_filter_clause clauses
    else if kind == 1 || kind == 2
    then decode_filter_group kind child clauses
    else if kind == 3
    then decode_filter_not child clauses
    else reject (invalid "unknown filter expression type")

unfoldable pub decode_filter_expression : ℕ → ℕ → Reader FilterExpression
decode_filter_expression zero depth clauses = reject out_of_fuel
decode_filter_expression (suc fuel) depth clauses = do
  reject_if (ltb max_expression_depth depth) (invalid "filter expression nesting exceeds 8 levels")
  kind ← u8
  decode_filter_node kind (decode_filter_expression fuel (depth + 1)) clauses

-- ===== src/Filter/Scan.antt =====
-- `scan_filter_value` and `scan_filter_expression` of src/protocol.rs.
use fulltext.Prelude.{
  ℕ, zero, suc, ◌+◌, ◌/◌, Bool, true, false, not, ◌&&◌, ◌||◌, Option, none, some, ltb, leb, ◌==◌,
  if◌then◌else◌,
}
use fulltext.Error.{invalid}
use fulltext.Float.{f64_is_finite}
use fulltext.Cursor.{
  Parser, pure, reject, reject_if, ◌>>=◌, ◌>>◌, u8, u16, f64, boolean, byte_string, repeat, iterate,
  remaining,
}
use fulltext.Query.{max_query_clauses, max_expression_depth}
use fulltext.Query.Wire.{out_of_fuel}
use fulltext.Filter.{Reader, differs}

unfoldable pub scan_number : Parser (Unit {0})
scan_number = do
  value ← f64
  reject_if (not (f64_is_finite value)) (invalid "filter numbers must be finite")

unfoldable pub scan_tagged_value : ℕ → Parser (Unit {0})
unfolding scan_number
scan_tagged_value tag =
    if tag == 0
    then (do _ ← byte_string; pure tt)
    else if tag == 1
    then scan_number
    else if tag == 2
    then (do _ ← boolean; pure tt)
    else reject (invalid "unknown filter value type")

unfoldable pub scan_filter_value : Parser (Unit {0})
unfolding scan_tagged_value
scan_filter_value = do tag ← u8; scan_tagged_value tag

unfoldable pub scan_expected : ℕ → Option ℕ
scan_expected comparator =
    if comparator == 1
    then none
    else if comparator == 6
    then some 2
    else if comparator == 7 || comparator == 8
    then some 0
    else some 1

-- The cursor that the check reads is the one behind the count.
unfoldable pub check_value_count : ℕ → ℕ → Parser (Unit {0})
unfolding scan_expected differs
check_value_count comparator count c =
    reject_if
      (count == 0 && ltb comparator 7
        || differs (scan_expected comparator) count
        || ltb max_query_clauses count
        || ltb (remaining c / 2) count)
      (invalid "invalid filter value count") c

unfoldable pub scan_filter_clause : Reader Bool
scan_filter_clause clauses = do
  let counted = clauses + 1
  reject_if (ltb max_query_clauses counted) (invalid "filter expression exceeds 256 clauses")
  _ ← byte_string
  comparator ← u8
  reject_if (ltb 8 comparator) (invalid "unknown filter comparator")
  count ← u16
  check_value_count comparator count
  _ ← repeat count scan_filter_value
  pure (leb 2 comparator || ltb 16 count, counted)

unfoldable pub scan_filter_child : Reader Bool → Bool × ℕ → Parser (Bool × ℕ)
scan_filter_child child (expensive, clauses) = do
  (more, counted) ← child clauses
  pure (expensive || more, counted)

unfoldable pub scan_filter_group : Reader Bool → Reader Bool
unfolding scan_filter_child
scan_filter_group child clauses = do
  count ← u16
  reject_if (count == 0 || ltb max_query_clauses count)
      (invalid "filter boolean expression requires 1 to 256 children")
  iterate count (scan_filter_child child) (false, clauses)

unfoldable pub scan_filter_not : Reader Bool → Reader Bool
scan_filter_not child clauses = do (_, counted) ← child clauses; pure (true, counted)

unfoldable pub scan_filter_node : ℕ → Reader Bool → Reader Bool
scan_filter_node kind child clauses =
    if kind == 0
    then scan_filter_clause clauses
    else if kind == 1 || kind == 2
    then scan_filter_group child clauses
    else if kind == 3
    then scan_filter_not child clauses
    else reject (invalid "unknown filter expression type")

unfoldable pub scan_filter_expression : ℕ → ℕ → Reader Bool
scan_filter_expression zero depth clauses = reject out_of_fuel
scan_filter_expression (suc fuel) depth clauses = do
  reject_if (ltb max_expression_depth depth) (invalid "filter expression nesting exceeds 8 levels")
  kind ← u8
  scan_filter_node kind (scan_filter_expression fuel (depth + 1)) clauses

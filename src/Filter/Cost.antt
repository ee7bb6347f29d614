-- ===== src/Filter/Cost.antt =====
-- When a filter is expensive, read off the filter itself: an independent account of what the
-- scanner of src/protocol.rs answers.
use fulltext.Prelude.{ℕ, ◌+◌, Bool, true, false, ◌||◌, ltb, length}
use fulltext.Filter.{
  FilterExpression, Filters, FilterComparator, clause, and, or, negate, nil, cons, equals, one_of,
}

-- Anything but an equality or a membership.
unfoldable pub is_range : FilterComparator → Bool
is_range equals = false
is_range one_of = false
is_range _ = true

-- A negation, a range test, or a comparison with more than 16 values.
unfoldable mutual
  pub is_expensive : FilterExpression → Bool
  is_expensive (clause field comparator values) = is_range comparator || ltb 16 (length values)
  is_expensive (and es) = any_expensive es
  is_expensive (or es) = any_expensive es
  is_expensive (negate e) = true

  pub any_expensive : Filters → Bool
  any_expensive nil = false
  any_expensive (cons e es) = is_expensive e || any_expensive es

unfoldable mutual
  pub clause_count : FilterExpression → ℕ
  clause_count (clause field comparator values) = 1
  clause_count (and es) = clause_count_all es
  clause_count (or es) = clause_count_all es
  clause_count (negate e) = clause_count e

  pub clause_count_all : Filters → ℕ
  clause_count_all nil = 0
  clause_count_all (cons e es) = clause_count e + clause_count_all es

-- ===== src/Filter/Agree.antt =====
-- The two walks of src/protocol.rs over a packed filter, `decode_filter_expression` and
-- `scan_filter_expression`, agree.
pub mod Clause
use fulltext.Prelude.{
  ℕ, zero, suc, ◌+◌, ◌*◌, ◌/◌, ◌≤◌, ◌≡◌, refl, ap, Bool, true, false, ◌||◌, ◌&&◌, not, List, [],
  ◌∷◌, Option, arith, length, ltb, leb, le→ltb, ◌==◌, if◌then◌else◌,
}
use fulltext.Error.{Result, ok, err, FulltextError, invalid}
use fulltext.Text.{Bytes}
use fulltext.Cursor.{
  Cursor, Parser, pure, lift, reject, reject_if, ◌>>=◌, u8, u16, f64, boolean, byte_string,
  from_utf8, string, repeat, repeat_with, iterate, remaining, through, through_lift, through_check,
}
use fulltext.Cursor.Reads.{
  Reads, Advances, Reads-bind, Moves-bind, Reads-lift, Reads-pure, Reads-if, Reads-reject,
  Reads-weaken, Reads-reject_if, repeat-Reads, repeat_with-Moves, u8-Reads, u16-Reads,
  boolean-Reads, f64-Reads, string-Reads, byte_string-Reads, IsInside, Reads-IsInside,
  string-byte_string,
}
use fulltext.Query.{max_query_clauses, max_expression_depth}
use fulltext.Filter.{
  FilterExpression, Filters, FilterValue, FilterComparator, Reader, clause, and, or, negate, nil,
  cons, from_list, one_of, equals, decode_comparator, decode_number, decode_tagged_value,
  decode_filter_value, decode_filter_clause, decode_filter_group, decode_filter_not,
  decode_filter_node, decode_filter_expression, expected_values, differs, wants_values,
}
use fulltext.Filter.Cost.{is_range, is_expensive, any_expensive, clause_count, clause_count_all}
use fulltext.Filter.Scan.{
  scan_number, scan_tagged_value, scan_filter_value, scan_filter_clause, scan_filter_child,
  scan_filter_group, scan_filter_not, scan_filter_node, scan_filter_expression, check_value_count,
  scan_expected,
}
use Clause.{decode_filter_value-Reads, comparator-Reads, filter_clause_agree}

-- A filter's reader only moves forward, whatever kind of node it meets.
decode_filter_clause-Moves : (clauses : ℕ) → Reads 0 (decode_filter_clause clauses)
unfolding decode_filter_clause
decode_filter_clause-Moves clauses = Moves-bind (Reads-reject_if _ _) λ _.
    Moves-bind string-Reads λ field. Moves-bind comparator-Reads λ comparator.
      Moves-bind u16-Reads λ n. Moves-bind (Reads-reject_if _ _) λ _.
        Moves-bind (repeat-Reads n 2 decode_filter_value decode_filter_value-Reads)
          λ values. Reads-pure _

module _ (child : Reader FilterExpression) (moves : (n : ℕ) → Reads 0 (child n)) (clauses : ℕ) where
  decode_filter_group-Moves : (kind : ℕ) → Reads 0 (decode_filter_group kind child clauses)
  unfolding decode_filter_group
  decode_filter_group-Moves kind = Moves-bind u16-Reads λ n.
      Moves-bind (Reads-reject_if _ _)
        λ _. Moves-bind (repeat_with-Moves n child clauses moves) λ (es, m). Reads-pure _

  decode_filter_not-Moves : Reads 0 (decode_filter_not child clauses)
  unfolding decode_filter_not
  decode_filter_not-Moves = Moves-bind (moves clauses) λ (e, m). Reads-pure _

  decode_filter_node-Moves : (kind : ℕ) → Reads 0 (decode_filter_node kind child clauses)
  unfolding decode_filter_node
  decode_filter_node-Moves kind = Reads-if 0 (kind == 0) _ _ (decode_filter_clause-Moves clauses) (
      Reads-if 0 (kind == 1 || kind == 2) _ _ (decode_filter_group-Moves kind)
        (Reads-if 0 (kind == 3) _ _ decode_filter_not-Moves (Reads-reject _ 0)))

pub decode_filter_expression-Moves :
    (fuel depth clauses : ℕ) → Reads 0 (decode_filter_expression fuel depth clauses)
unfolding decode_filter_expression
decode_filter_expression-Moves zero depth clauses = Reads-reject _ 0
decode_filter_expression-Moves (suc fuel) depth clauses = Moves-bind (Reads-reject_if _ _) λ _.
    Moves-bind u8-Reads λ kind.
      decode_filter_node-Moves _ (decode_filter_expression-Moves fuel (depth + 1)) clauses kind

or_false : (b : Bool) → b ≡ (b || false)
or_false b = ground arith

or_assoc : (a b c : Bool) → (a || (b || c)) ≡ ((a || b) || c)
or_assoc a b c = ground arith

-- The readers of the children agree, from the same count of clauses.
record Agrees (dec : Reader FilterExpression) (scan : Reader Bool) : Type 0 where
  moves : (clauses : ℕ) → Reads 0 (dec clauses)
  at :
      (clauses counted : ℕ) (c d : Cursor) (e : FilterExpression)
      → dec clauses c ≡ ok ((e, counted), d)
      → IsInside c
      → (scan clauses c ≡ ok ((is_expensive e, counted), d)) × (counted ≡ clauses + clause_count e)

module _ {dec : Reader FilterExpression} {scan : Reader Bool} (child : Agrees dec scan) where
  filter_loop_agree :
      (n clauses counted : ℕ) (c d : Cursor) (es : List FilterExpression) (expensive : Bool)
      → repeat_with n dec clauses c ≡ ok ((es, counted), d)
      → IsInside c
      → (iterate n (scan_filter_child scan) (expensive, clauses) c
          ≡ ok ((expensive || any_expensive (from_list es), counted), d))
        × (counted ≡ clauses + clause_count_all (from_list es))
  unfolding repeat_with iterate scan_filter_child from_list is_expensive clause_count
  filter_loop_agree zero clauses counted c d es expensive =
      λ h inside. (ground (arith, or_false expensive), ground arith)
  filter_loop_agree (suc n) clauses counted c d es expensive =
      through (dec clauses c) _ λ (e, k) c₁ e₁.
        through (repeat_with n dec k c₁) _ λ (more, m) c₂ e₂ h inside.
          let listed : es ≡ e ∷ more = cc in
          let first = child.at clauses k c c₁ e e₁ inside in
          let inside₁ = Reads-IsInside (child.moves clauses) c (e, k) c₁ e₁ inside in
          let rest = filter_loop_agree n k m c₁ c₂ more (expensive || is_expensive e) e₂ inside₁ in
          rw (listed, first.0)
            (
              rw (or_assoc expensive (is_expensive e) (any_expensive (from_list more))) (cc rest.0),
              ground (arith, rest.1, first.1),
            )

  filter_group_agree :
      (kind clauses counted : ℕ) (c d : Cursor) (e : FilterExpression)
      → decode_filter_group kind dec clauses c ≡ ok ((e, counted), d)
      → IsInside c
      → (scan_filter_group scan clauses c ≡ ok ((is_expensive e, counted), d))
        × (counted ≡ clauses + clause_count e)
  unfolding decode_filter_group scan_filter_group is_expensive clause_count
  filter_group_agree kind clauses counted c d e = through (u16 c) _ λ n c₁ e₁.
      through_check (n == 0 || ltb max_query_clauses n) _ _ _ λ sized.
        through (repeat_with n dec clauses c₁) _ λ (es, m) c₂ e₂ h inside.
          let inside₁ = Reads-IsInside u16-Reads c n c₁ e₁ inside in
          let loop = filter_loop_agree n clauses m c₁ c₂ es false e₂ inside₁ in
          rw (e₁, sized, loop.0) (ground (arith, loop.1))

  filter_not_agree :
      (clauses counted : ℕ) (c d : Cursor) (e : FilterExpression)
      → decode_filter_not dec clauses c ≡ ok ((e, counted), d)
      → IsInside c
      → (scan_filter_not scan clauses c ≡ ok ((is_expensive e, counted), d))
        × (counted ≡ clauses + clause_count e)
  unfolding decode_filter_not scan_filter_not is_expensive clause_count
  filter_not_agree clauses counted c d e = through (dec clauses c) _ λ (b, m) c₁ e₁ h inside.
      let first = child.at clauses m c c₁ b e₁ inside in rw first.0 (ground (arith, first.1))

  filter_node_agree :
      (kind clauses counted : ℕ) (c d : Cursor) (e : FilterExpression)
      → decode_filter_node kind dec clauses c ≡ ok ((e, counted), d)
      → IsInside c
      → (scan_filter_node kind scan clauses c ≡ ok ((is_expensive e, counted), d))
        × (counted ≡ clauses + clause_count e)
  unfolding decode_filter_node scan_filter_node
  filter_node_agree zero clauses counted c d e = filter_clause_agree clauses counted c d e
  filter_node_agree (suc zero) clauses counted c d e = filter_group_agree 1 clauses counted c d e
  filter_node_agree (suc (suc zero)) clauses counted c d e =
      filter_group_agree 2 clauses counted c d e
  filter_node_agree (suc (suc (suc zero))) clauses counted c d e =
      filter_not_agree clauses counted c d e
  filter_node_agree (suc (suc (suc (suc kind)))) clauses counted c d e = λ h. absurd (ground arith)

filter-Agrees :
    (fuel depth : ℕ)
    → Agrees (decode_filter_expression fuel depth) (scan_filter_expression fuel depth)
unfolding decode_filter_expression scan_filter_expression
filter-Agrees zero depth = record {
  moves = decode_filter_expression-Moves zero depth;
  at = λ clauses counted c d e h. absurd (cc);
}
filter-Agrees (suc fuel) depth = record {
  moves = decode_filter_expression-Moves (suc fuel) depth;
  at = λ clauses counted c d e. through_check (ltb max_expression_depth depth) _ _ _ λ shallow.
      through (u8 c) _ λ kind c₁ e₁ h inside.
        rw (shallow, e₁)
          (filter_node_agree (filter-Agrees fuel (depth + 1)) kind clauses counted c₁ d e h
            (Reads-IsInside u8-Reads c kind c₁ e₁ inside));
}

-- Where a filter decodes at a cursor inside its bytes, the scanner reads exactly the same bytes and answers whether the decoded
-- filter is expensive, and both count its clauses on.
pub scan_filter-decode_filter :
    (fuel depth clauses counted : ℕ) (c d : Cursor) (e : FilterExpression)
    → decode_filter_expression fuel depth clauses c ≡ ok ((e, counted), d)
    → IsInside c
    → (scan_filter_expression fuel depth clauses c ≡ ok ((is_expensive e, counted), d))
      × (counted ≡ clauses + clause_count e)
scan_filter-decode_filter fuel depth = (filter-Agrees fuel depth).at

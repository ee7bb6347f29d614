-- ===== src/Query/Structure.antt =====
-- `SearchStructureBudget` and `validate_search_structure` of src/protocol.rs.
pub mod Steps
pub mod Bounds
use fulltext.Prelude.{
  ℕ, zero, suc, ◌+◌, ◌-◌, Bool, true, false, List, [], ◌∷◌, ltb, ◌==◌, if◌then◌else◌,
  saturating_add, length,
}
use fulltext.Error.{Result, ok, err, bind, invalid, invalid_with, number, refuse_if, ◌>>=◌, ◌>>◌}
use fulltext.Query.{
  SearchExpression, Expressions, SearchClause, clause, and, or, negate, boost, optional, nil, cons,
  count, max_query_terms, max_query_text_bytes, max_expression_depth, validate_query_limits,
  validate_query_boost,
}

pub record SearchStructureBudget : Type 0 where
  pub limit : ℕ
  pub remaining : ℕ
  pub text_bytes : ℕ
  pub fields : ℕ

unfoldable pub new : ℕ → ℕ → Result SearchStructureBudget
unfolding validate_query_limits
new limit fields = do
  validate_query_limits max_query_terms limit
  ok (record { limit = limit; remaining = limit; text_bytes = 0; fields = fields })

unfoldable pub check_depth : ℕ → Result (Unit {0})
check_depth depth =
    refuse_if (ltb max_expression_depth depth)
      (invalid "search expression nesting exceeds 8 levels")

-- `checked_sub`: a cost above what remains is refused.
unfoldable pub charge : ℕ → SearchStructureBudget → Result SearchStructureBudget
charge cost b = do
  refuse_if (ltb b.remaining cost)
      (invalid_with "search structure exceeds {} compiled clauses" (number b.limit ∷ []))
  ok (record b { remaining = b.remaining - cost })

unfoldable pub children : ℕ → SearchStructureBudget → Result SearchStructureBudget
unfolding charge
children count b = do
  refuse_if (count == 0) (invalid "boolean search expressions require at least one child")
  charge count b

unfoldable pub optional_children : ℕ → SearchStructureBudget → Result SearchStructureBudget
unfolding charge
optional_children count b = do
  refuse_if (count == 0) (invalid "optional scoring requires at least one optional clause")
  charge count b

unfoldable pub leaf : ℕ → ℕ → SearchStructureBudget → Result SearchStructureBudget
leaf text_bytes fields b = do
  let total = saturating_add b.text_bytes text_bytes
  refuse_if (ltb max_query_text_bytes total) (invalid "search text exceeds 65536 UTF-8 bytes")
  refuse_if (ltb b.fields fields)
      (invalid_with "search field count exceeds {} fields" (number b.fields ∷ []))
  ok (record b { text_bytes = total })

-- The inner `visit`: the depth of the node, and the budget that it leaves.
unfoldable mutual
  pub visit : SearchExpression → ℕ → SearchStructureBudget → Result SearchStructureBudget
  visit (clause c) depth b = check_depth depth >> leaf (length c.text) (length c.fields) b
  visit (and es) depth b =
      check_depth depth >> (children (count es) b >>= λ b₁. visit_all es (depth + 1) b₁)
  visit (or es) depth b =
      check_depth depth >> (children (count es) b >>= λ b₁. visit_all es (depth + 1) b₁)
  visit (negate e) depth b = check_depth depth >> (charge 2 b >>= λ b₁. visit e (depth + 1) b₁)
  visit (boost value e) depth b =
      check_depth depth
      >> validate_query_boost value
      >> (charge 1 b >>= λ b₁. visit e (depth + 1) b₁)
  visit (optional required es) depth b =
      check_depth depth
      >> (optional_children (count es) b >>= λ b₁.
          charge 1 b₁ >>= λ b₂. visit required (depth + 1) b₂ >>= λ b₃. visit_all es (depth + 1) b₃)

  pub visit_all : Expressions → ℕ → SearchStructureBudget → Result SearchStructureBudget
  visit_all nil depth b = ok b
  visit_all (cons e es) depth b = visit e depth b >>= λ b₁. visit_all es depth b₁

unfoldable pub validate_search_structure : SearchExpression → ℕ → ℕ → Result (Unit {0})
unfolding new
validate_search_structure e clauses fields = do b ← new clauses fields; _ ← visit e 0 b; ok tt

-- ===== src/Query/Fuel.antt =====
-- The fuel of `decode_search_expression` of src/protocol.rs is enough:
-- the check of the depth ends the recursion first.
use fulltext.Prelude.{
  ℕ, zero, suc, ◌+◌, ◌≤◌, ◌≡◌, refl, ap, ◌∙◌, arith, ltb, Bool-cases, inl, inr, fun_ext,
}
use fulltext.Cursor.{◌>>=◌, ◌>>◌, lift, u8}
use fulltext.Query.{SearchExpression, max_expression_depth}
use fulltext.Query.Structure.{check_depth}
use fulltext.Query.Wire.{Reader, decode_node, decode_search_expression, expression_fuel}

-- One unit more changes nothing where the fuel reaches the level that is refused.
decode_more :
    (fuel depth : ℕ)
    → 1 ≤ fuel
    → max_expression_depth + 2 ≤ fuel + depth
    → decode_search_expression (suc fuel) depth ≡ decode_search_expression fuel depth
unfolding decode_search_expression check_depth
decode_more zero depth some_fuel enough = absurd (omega arith)
decode_more (suc fuel) depth some_fuel enough = elim (Bool-cases (ltb max_expression_depth depth)) [
  | inl deep ↦ fun_ext λ s. fun_ext λ c. rw deep refl
  | inr shallow ↦
      let level : Reader SearchExpression → Reader SearchExpression =
        λ child s. (do lift (check_depth depth); kind ← u8; decode_node kind child s) in
      ap level (decode_more fuel (depth + 1) (ground arith) (omega arith))
]

-- At the root, any fuel beyond the fixed one decodes every expression alike.
pub decode_search_expression-enough :
    (extra : ℕ)
    → decode_search_expression (extra + expression_fuel) 0
      ≡ decode_search_expression expression_fuel 0
decode_search_expression-enough zero = refl
decode_search_expression-enough (suc extra) =
    let shifted : suc extra + expression_fuel ≡ suc (extra + expression_fuel) = omega arith in
    rw shifted (
      decode_more (extra + expression_fuel) 0 (omega arith) (omega arith)
      ∙ decode_search_expression-enough extra)

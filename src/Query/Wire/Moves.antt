-- ===== src/Query/Wire/Moves.antt =====
-- The readers of a packed expression (src/protocol.rs) only move forward, within their bytes.
use fulltext.Prelude.{ℕ, zero, suc, ◌+◌, ◌==◌, ◌||◌, length}
use fulltext.Cursor.{◌>>=◌, lift, u8, string, from_utf8}
use fulltext.Cursor.Reads.{
  Reads, Reads-bind, Moves-bind, Reads-bind_lift, Reads-lift, Reads-pure, Reads-if, Reads-reject,
  repeat-Reads, repeat_with-Moves, string-Reads, byte_string-Reads, u8-Reads, boolean-Reads,
  u16-Reads, f32-Reads,
}
use fulltext.Query.{SearchMode, SearchExpression, validate_query_boost}
use fulltext.Query.Structure.{
  SearchStructureBudget, check_depth, charge, children, optional_children, leaf,
}
use fulltext.Query.Wire.{
  Reader, decode_search_mode, decode_query_options, decode_clause, decode_group, decode_not,
  decode_boost, decode_optional, decode_node, decode_search_expression,
}

pub search_mode-Reads : Reads 1 (u8 >>= λ value. lift (decode_search_mode value))
search_mode-Reads = Reads-bind u8-Reads λ v. Reads-lift _

pub decode_query_options-Reads : (mode : SearchMode) → Reads 2 (decode_query_options mode)
unfolding decode_query_options
decode_query_options-Reads mode =
    Reads-bind u8-Reads
      λ v. Reads-bind boolean-Reads λ b. Moves-bind (Reads-lift _) λ _. Reads-pure _

-- A reader that only moves forward, whatever kind of node it meets.
decode_clause-Moves : (s : SearchStructureBudget) → Reads 0 (decode_clause s)
unfolding decode_clause
decode_clause-Moves s = Moves-bind byte_string-Reads λ bytes. Moves-bind search_mode-Reads λ mode.
    Moves-bind (decode_query_options-Reads mode) λ options. Moves-bind u16-Reads λ n.
      Reads-bind_lift (leaf (length bytes) n s) λ s₁.
        Reads-bind_lift (from_utf8 bytes)
          λ text. Moves-bind (repeat-Reads n 4 string string-Reads) λ fields. Reads-pure _

module _ (child : Reader SearchExpression) (moves : (s : SearchStructureBudget) → Reads 0 (child s))
    (s : SearchStructureBudget) where
  decode_group-Moves : (kind : ℕ) → Reads 0 (decode_group kind child s)
  unfolding decode_group
  decode_group-Moves kind = Moves-bind u16-Reads λ n.
      Reads-bind_lift (children n s)
        λ s₁. Moves-bind (repeat_with-Moves n child s₁ moves) λ (es, s₂). Reads-pure _

  decode_not-Moves : Reads 0 (decode_not child s)
  unfolding decode_not
  decode_not-Moves =
      Reads-bind_lift (charge 2 s) λ s₁. Moves-bind (moves s₁) λ (e, s₂). Reads-pure _

  decode_boost-Moves : Reads 0 (decode_boost child s)
  unfolding decode_boost
  decode_boost-Moves = Moves-bind f32-Reads λ value.
      Reads-bind_lift (validate_query_boost value)
        λ _. Reads-bind_lift (charge 1 s) λ s₁. Moves-bind (moves s₁) λ (e, s₂). Reads-pure _

  decode_optional-Moves : Reads 0 (decode_optional child s)
  unfolding decode_optional
  decode_optional-Moves = Moves-bind u16-Reads λ n. Reads-bind_lift (optional_children n s) λ s₁.
      Reads-bind_lift (charge 1 s₁) λ s₂.
        Moves-bind (moves s₂)
          λ (e, s₃). Moves-bind (repeat_with-Moves n child s₃ moves) λ (es, s₄). Reads-pure _

  decode_node-Moves : (kind : ℕ) → Reads 0 (decode_node kind child s)
  unfolding decode_node
  decode_node-Moves kind = Reads-if 0 (kind == 0) _ _ (decode_clause-Moves s) (
      Reads-if 0 (kind == 1 || kind == 2) _ _ (decode_group-Moves kind) (
        Reads-if 0 (kind == 3) _ _ decode_not-Moves (
          Reads-if 0 (kind == 4) _ _ decode_boost-Moves
            (Reads-if 0 (kind == 5) _ _ decode_optional-Moves (Reads-reject _ 0)))))

pub decode_search_expression-Moves :
    (fuel depth : ℕ) (s : SearchStructureBudget) → Reads 0 (decode_search_expression fuel depth s)
unfolding decode_search_expression
decode_search_expression-Moves zero depth s = Reads-reject _ 0
decode_search_expression-Moves (suc fuel) depth s = Reads-bind_lift (check_depth depth) λ _.
    Moves-bind u8-Reads
      λ kind. decode_node-Moves _ (decode_search_expression-Moves fuel (depth + 1)) s kind

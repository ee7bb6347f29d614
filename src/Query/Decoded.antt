-- ===== src/Query/Decoded.antt =====
-- An expression that `decode_search_expression` of src/protocol.rs builds passes the structure check,
-- which spends what the decoder spent.
use fulltext.Prelude.{ℕ, zero, suc, ◌+◌, ◌≡◌, List, ◌∷◌, arith, length}
use fulltext.Error.{ok}
use fulltext.Cursor.{
  Cursor, Parser, ◌>>=◌, lift, u8, u16, f32, byte_string, string, from_utf8, repeat, repeat_with,
  through, through_lift,
}
use fulltext.Query.{
  SearchExpression, clause, and, or, negate, boost, optional, from_list, count,
  validate_query_boost,
}
use fulltext.Query.Structure.{
  SearchStructureBudget, check_depth, charge, children, optional_children, leaf, visit, visit_all,
}
use fulltext.Query.Wire.{
  Reader, decode_search_mode, decode_query_options, decode_clause, decode_group, decode_not,
  decode_boost, decode_optional, decode_node, decode_search_expression,
}

pub repeat-length {ℓ} :
    {A : Type ℓ} (n : ℕ) (read : Parser A) (c d : Cursor) (vs : List A)
    → repeat n read c ≡ ok (vs, d)
    → length vs ≡ n
unfolding repeat
repeat-length zero read c d vs = λ h. ground arith
repeat-length (suc n) read c d vs = through (read c) _ λ v c₁ e₁.
    through (repeat n read c₁) _ λ ws c₂ e₂ h. ground (arith, repeat-length n read c₁ c₂ ws e₂)

clause_built :
    (depth : ℕ) (s s' : SearchStructureBudget) (c d : Cursor) (e : SearchExpression)
    → check_depth depth ≡ ok tt
    → decode_clause s c ≡ ok ((e, s'), d)
    → visit e depth s ≡ ok s'
unfolding decode_clause visit from_utf8
clause_built depth s s' c d e deep = through (byte_string c) _ λ t c₁ e₁.
    through (◌>>=◌ u8 (λ value. lift (decode_search_mode value)) c₁) _ λ mode c₂ e₂.
      through (decode_query_options mode c₂) _ λ options c₃ e₃. through (u16 c₃) _ λ n c₄ e₄.
        through_lift (leaf (length t) n s) c₄ _ λ s₁ l. through_lift (from_utf8 t) c₄ _ λ text u.
          through (repeat n string c₄) _ λ fields c₅ e₅ h.
            let read : t ≡ text = ground arith in
            let fields_read = repeat-length n string c₄ c₅ fields e₅ in
            let built : e
                ≡ clause (record { text = text; mode = mode; options = options; fields = fields }) =
              cc in
            let left : s₁ ≡ s' = cc in rw (built, deep, ← read, fields_read, l) (cc left)

-- The reader of the children builds expressions that pass the check at their depth.
record Builds (depth : ℕ) (child : Reader SearchExpression) : Type 0 where
  at :
      (s s' : SearchStructureBudget) (c d : Cursor) (e : SearchExpression)
      → child s c ≡ ok ((e, s'), d)
      → visit e depth s ≡ ok s'

module _ (depth : ℕ) (child : Reader SearchExpression) (built : Builds (depth + 1) child) where
  list_built :
      (n : ℕ) (s s' : SearchStructureBudget) (c d : Cursor) (es : List SearchExpression)
      → repeat_with n child s c ≡ ok ((es, s'), d)
      → (visit_all (from_list es) (depth + 1) s ≡ ok s') × (count (from_list es) ≡ n)
  unfolding repeat_with visit from_list count
  list_built zero s s' c d es = λ h. (ground arith, ground arith)
  list_built (suc n) s s' c d es = through (child s c) _ λ (e, s₁) c₁ e₁.
      through (repeat_with n child s₁ c₁) _ λ (more, s₂) c₂ e₂ h.
        let listed : es ≡ e ∷ more = cc in
        let rest = list_built n s₁ s₂ c₁ c₂ more e₂ in
        (rw (listed, built.at s s₁ c c₁ e e₁, rest.0) (cc), rw listed (cc (rest.1)))

  module _ (deep : check_depth depth ≡ ok tt) where
    and_built :
        (s s' : SearchStructureBudget) (c d : Cursor) (e : SearchExpression)
        → decode_group 1 child s c ≡ ok ((e, s'), d)
        → visit e depth s ≡ ok s'
    unfolding decode_group visit
    and_built s s' c d e = through (u16 c) _ λ n c₁ e₁. through_lift (children n s) c₁ _ λ s₁ l.
        through (repeat_with n child s₁ c₁) _ λ (es, s₂) c₂ e₂ h.
          let rest = list_built n s₁ s₂ c₁ c₂ es e₂ in
          let made : e ≡ and (from_list es) = ground arith in
          rw (made, deep, rest.1, l, rest.0) (ground arith)

    or_built :
        (s s' : SearchStructureBudget) (c d : Cursor) (e : SearchExpression)
        → decode_group 2 child s c ≡ ok ((e, s'), d)
        → visit e depth s ≡ ok s'
    unfolding decode_group visit
    or_built s s' c d e = through (u16 c) _ λ n c₁ e₁. through_lift (children n s) c₁ _ λ s₁ l.
        through (repeat_with n child s₁ c₁) _ λ (es, s₂) c₂ e₂ h.
          let rest = list_built n s₁ s₂ c₁ c₂ es e₂ in
          let made : e ≡ or (from_list es) = ground arith in
          rw (made, deep, rest.1, l, rest.0) (ground arith)

    not_built :
        (s s' : SearchStructureBudget) (c d : Cursor) (e : SearchExpression)
        → decode_not child s c ≡ ok ((e, s'), d)
        → visit e depth s ≡ ok s'
    unfolding decode_not visit
    not_built s s' c d e = through_lift (charge 2 s) c _ λ s₁ l.
        through (child s₁ c) _ λ (b, s₂) c₁ e₁ h.
          let made : e ≡ negate b = ground arith in
          rw (made, deep, l, built.at s₁ s₂ c c₁ b e₁) (ground arith)

    boost_built :
        (s s' : SearchStructureBudget) (c d : Cursor) (e : SearchExpression)
        → decode_boost child s c ≡ ok ((e, s'), d)
        → visit e depth s ≡ ok s'
    unfolding decode_boost visit
    boost_built s s' c d e = through (f32 c) _ λ value c₁ e₁.
        through_lift (validate_query_boost value) c₁ _ λ _ v. through_lift (charge 1 s) c₁ _ λ s₁ l.
          through (child s₁ c₁) _ λ (b, s₂) c₂ e₂ h.
            let made : e ≡ boost value b = ground arith in
            rw (made, deep, v, l, built.at s₁ s₂ c₁ c₂ b e₂) (ground arith)

    optional_built :
        (s s' : SearchStructureBudget) (c d : Cursor) (e : SearchExpression)
        → decode_optional child s c ≡ ok ((e, s'), d)
        → visit e depth s ≡ ok s'
    unfolding decode_optional visit
    optional_built s s' c d e = through (u16 c) _ λ n c₁ e₁.
        through_lift (optional_children n s) c₁ _ λ s₁ l. through_lift (charge 1 s₁) c₁ _ λ s₂ k.
          through (child s₂ c₁) _ λ (b, s₃) c₂ e₂.
            through (repeat_with n child s₃ c₂) _ λ (es, s₄) c₃ e₃ h.
              let rest = list_built n s₃ s₄ c₂ c₃ es e₃ in
              let made : e ≡ optional b (from_list es) = ground arith in
              rw (made, deep, rest.1, l, k, built.at s₂ s₃ c₁ c₂ b e₂, rest.0) (ground arith)

    node_built :
        (kind : ℕ) (s s' : SearchStructureBudget) (c d : Cursor) (e : SearchExpression)
        → decode_node kind child s c ≡ ok ((e, s'), d)
        → visit e depth s ≡ ok s'
    unfolding decode_node
    node_built zero s s' c d e = clause_built depth s s' c d e deep
    node_built (suc zero) s s' c d e = and_built s s' c d e
    node_built (suc (suc zero)) s s' c d e = or_built s s' c d e
    node_built (suc (suc (suc zero))) s s' c d e = not_built s s' c d e
    node_built (suc (suc (suc (suc zero)))) s s' c d e = boost_built s s' c d e
    node_built (suc (suc (suc (suc (suc zero))))) s s' c d e = optional_built s s' c d e
    node_built (suc (suc (suc (suc (suc (suc kind)))))) s s' c d e = λ h. absurd (ground arith)

expression-Builds : (fuel depth : ℕ) → Builds depth (decode_search_expression fuel depth)
unfolding decode_search_expression
expression-Builds zero depth = record { at = λ s s' c d e h. absurd (cc) }
expression-Builds (suc fuel) depth = record {
  at = λ s s' c d e. through_lift (check_depth depth) c _ λ _ deep. through (u8 c) _ λ kind c₁ e₁.
      node_built depth (decode_search_expression fuel (depth + 1))
        (expression-Builds fuel (depth + 1)) deep kind s s' c₁ d e;
}

-- Where an expression decodes under a budget, the structure check accepts it under the same budget
-- and leaves of the budget what the decoder left.
pub visit-decode_search_expression :
    (fuel depth : ℕ) (s s' : SearchStructureBudget) (c d : Cursor) (e : SearchExpression)
    → decode_search_expression fuel depth s c ≡ ok ((e, s'), d)
    → visit e depth s ≡ ok s'
visit-decode_search_expression fuel depth = (expression-Builds fuel depth).at

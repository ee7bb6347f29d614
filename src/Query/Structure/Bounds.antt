-- ===== src/Query/Structure/Bounds.antt =====
-- What `validate_search_structure` of src/protocol.rs lets through, measured on the expression.
use fulltext.Prelude.{
  ℕ, suc, ◌+◌, ◌-◌, ◌≤◌, ◌≡◌, ◌↔◌, ◌≢◌, refl, arith, max, saturating_add, length,
}
use fulltext.Error.{ok, bind-eq-ok}
use fulltext.Query.{
  SearchExpression, Expressions, clause, and, or, negate, boost, optional, nil, cons, count,
  max_query_text_bytes, max_expression_depth, validate_query_limits, validate_query_boost,
  max_configured_query_clauses,
}
use fulltext.Query.Structure.Steps.{charged, visit-and, visit-or, visit-optional}
use fulltext.Query.Structure.{
  SearchStructureBudget, new, check_depth, charge, children, optional_children, leaf, visit,
  visit_all, validate_search_structure,
}

-- Levels below the root.
unfoldable mutual
  pub height : SearchExpression → ℕ
  height (clause c) = 0
  height (and es) = suc (height_all es)
  height (or es) = suc (height_all es)
  height (negate e) = suc (height e)
  height (boost value e) = suc (height e)
  height (optional required es) = suc (max (height required) (height_all es))

  pub height_all : Expressions → ℕ
  height_all nil = 0
  height_all (cons e es) = max (height e) (height_all es)

-- Compiled clauses.
unfoldable mutual
  pub weight : SearchExpression → ℕ
  weight (clause c) = 0
  weight (and es) = count es + weight_all es
  weight (or es) = count es + weight_all es
  weight (negate e) = 2 + weight e
  weight (boost value e) = 1 + weight e
  weight (optional required es) = count es + 1 + (weight required + weight_all es)

  pub weight_all : Expressions → ℕ
  weight_all nil = 0
  weight_all (cons e es) = weight e + weight_all es

-- UTF-8 bytes of query text.
unfoldable mutual
  pub text_size : SearchExpression → ℕ
  text_size (clause c) = length c.text
  text_size (and es) = text_size_all es
  text_size (or es) = text_size_all es
  text_size (negate e) = text_size e
  text_size (boost value e) = text_size e
  text_size (optional required es) = text_size required + text_size_all es

  pub text_size_all : Expressions → ℕ
  text_size_all nil = 0
  text_size_all (cons e es) = text_size e + text_size_all es

-- No group is empty, every boost is valid, and no clause names more than `fields` fields.
unfoldable mutual
  pub IsWellFormed : ℕ → SearchExpression → Type 0
  IsWellFormed fields (clause c) = length c.fields ≤ fields
  IsWellFormed fields (and es) = (count es ≢ 0) × AllWellFormed fields es
  IsWellFormed fields (or es) = (count es ≢ 0) × AllWellFormed fields es
  IsWellFormed fields (negate e) = IsWellFormed fields e
  IsWellFormed fields (boost value e) = (validate_query_boost value ≡ ok tt) × IsWellFormed fields e
  IsWellFormed fields (optional required es) =
      (count es ≢ 0) × IsWellFormed fields required × AllWellFormed fields es

  pub AllWellFormed : ℕ → Expressions → Type 0
  AllWellFormed fields nil = Unit
  AllWellFormed fields (cons e es) = IsWellFormed fields e × AllWellFormed fields es

-- The budget that is left when `weight` clauses and `text` bytes are spent.
abbrev pub spent : ℕ → ℕ → SearchStructureBudget → SearchStructureBudget
spent clauses text b = record b {
  remaining = b.remaining - clauses;
  text_bytes = b.text_bytes + text;
}

-- Whether an expression at a depth fits a budget.
pub record Fits (weight text height depth : ℕ) (b : SearchStructureBudget) : Type 0 where
  pub shallow : depth + height ≤ max_expression_depth
  pub affordable : weight ≤ b.remaining
  pub short : b.text_bytes + text ≤ max_query_text_bytes

mutual
  unfolding visit height weight text_size IsWellFormed check_depth charge children optional_children
      leaf saturating_add

  pub visit_complete :
      (e : SearchExpression) (depth : ℕ) (b : SearchStructureBudget)
      → IsWellFormed b.fields e
      → Fits (weight e) (text_size e) (height e) depth b
      → visit e depth b ≡ ok (spent (weight e) (text_size e) b)
  visit_complete (clause c) depth b w f = ground arith
  visit_complete (and es) depth b w f =
      ground
        (arith, visit_all_complete es (depth + 1) (record b { remaining = b.remaining - count es }))
  visit_complete (or es) depth b w f =
      ground
        (arith, visit_all_complete es (depth + 1) (record b { remaining = b.remaining - count es }))
  visit_complete (negate e) depth b w f =
      ground (arith, visit_complete e (depth + 1) (record b { remaining = b.remaining - 2 }))
  visit_complete (boost value e) depth b w f =
      ground (arith, visit_complete e (depth + 1) (record b { remaining = b.remaining - 1 }))
  visit_complete (optional required es) depth b w f =
      let b₁ : SearchStructureBudget = record b { remaining = b.remaining - count es - 1 } in
      ground (
        arith,
        visit_complete required (depth + 1) b₁,
        visit_all_complete es (depth + 1) (spent (weight required) (text_size required) b₁),
      )

  visit_all_complete :
      (es : Expressions) (depth : ℕ) (b : SearchStructureBudget)
      → AllWellFormed b.fields es
      → Fits (weight_all es) (text_size_all es) (height_all es) depth b
      → visit_all es depth b ≡ ok (spent (weight_all es) (text_size_all es) b)
  visit_all_complete nil depth b w f = ground arith
  visit_all_complete (cons e es) depth b w f = ground (
    arith,
    visit_complete e depth b,
    visit_all_complete es depth (spent (weight e) (text_size e) b),
  )

-- What a budget admits, and what it leaves.
pub record Admitted (weight text height depth : ℕ) (b b' : SearchStructureBudget) : Type 0 where
  pub fits : Fits weight text height depth b
  pub left : b' ≡ spent weight text b

-- One expression after another, at one depth.
Admitted-join :
    {w₁ w₂ t₁ t₂ h₁ h₂ depth : ℕ} {b b₁ b₂ : SearchStructureBudget}
    → Admitted w₁ t₁ h₁ depth b b₁
    → Admitted w₂ t₂ h₂ depth b₁ b₂
    → Admitted (w₁ + w₂) (t₁ + t₂) (max h₁ h₂) depth b b₂
Admitted-join p q = ground (arith, p.left, q.left)

-- A budget that admitted something is within the limits on depth and text.
within_limits :
    {w t h depth : ℕ} {b b' : SearchStructureBudget}
    → Admitted w t h depth b b'
    → (depth ≤ max_expression_depth)
      × (b'.text_bytes ≤ max_query_text_bytes)
      × (b'.fields ≡ b.fields)
within_limits p = ground (arith, p.left)

-- A level up, the charge counted in.
Admitted-up :
    {w t h depth : ℕ} (n : ℕ) {b b' : SearchStructureBudget}
    → n ≤ b.remaining
    → Admitted w t h (depth + 1) (charged n b) b'
    → Admitted (n + w) t (suc h) depth b b'
Admitted-up n fits p = ground (arith, p.left)

mutual
  unfolding visit count height weight text_size IsWellFormed check_depth charge leaf saturating_add

  pub visit_sound :
      (e : SearchExpression) (depth : ℕ) (b b' : SearchStructureBudget)
      → visit e depth b ≡ ok b'
      → IsWellFormed b.fields e × Admitted (weight e) (text_size e) (height e) depth b b'
  visit_sound (clause c) depth b b' h = ground arith
  visit_sound (and nil) depth b b' h = absurd ((visit-and nil depth b b' h).0 refl)
  visit_sound (or nil) depth b b' h = absurd ((visit-or nil depth b b' h).0 refl)
  visit_sound (and (cons e es)) depth b b' h =
      let n = count (cons e es) in
      let s = visit-and (cons e es) depth b b' h in
      let t = bind-eq-ok (visit e (depth + 1) (charged n b)) _ s.3 in
      let p = visit_sound e (depth + 1) (charged n b) t.0 t.1 in
      let r = within_limits p.1 in
      let q = visit_all_sound es (depth + 1) t.0 b' r.0 r.1 t.2 in
      ((s.0, (p.0, rw (← r.2) q.0)), Admitted-up n s.1 (Admitted-join p.1 q.1))
  visit_sound (or (cons e es)) depth b b' h =
      let n = count (cons e es) in
      let s = visit-or (cons e es) depth b b' h in
      let t = bind-eq-ok (visit e (depth + 1) (charged n b)) _ s.3 in
      let p = visit_sound e (depth + 1) (charged n b) t.0 t.1 in
      let r = within_limits p.1 in
      let q = visit_all_sound es (depth + 1) t.0 b' r.0 r.1 t.2 in
      ((s.0, (p.0, rw (← r.2) q.0)), Admitted-up n s.1 (Admitted-join p.1 q.1))
  visit_sound (negate e) depth b b' h =
      ground (arith, visit_sound e (depth + 1) (record b { remaining = b.remaining - 2 }) b')
  visit_sound (boost value e) depth b b' h =
      ground (arith, visit_sound e (depth + 1) (record b { remaining = b.remaining - 1 }) b')
  visit_sound (optional required es) depth b b' h =
      let n = count es + 1 in
      let s = visit-optional es depth b b' required h in
      let t = bind-eq-ok (visit required (depth + 1) (charged n b)) _ s.4 in
      let p = visit_sound required (depth + 1) (charged n b) t.0 t.1 in
      let r = within_limits p.1 in
      let q = visit_all_sound es (depth + 1) t.0 b' r.0 r.1 t.2 in
      ((s.0, p.0, rw (← r.2) q.0), Admitted-up n s.1 (Admitted-join p.1 q.1))

  -- The rest of a group whose first child was admitted.
  visit_all_sound :
      (es : Expressions) (depth : ℕ) (b b' : SearchStructureBudget)
      → depth ≤ max_expression_depth
      → b.text_bytes ≤ max_query_text_bytes
      → visit_all es depth b ≡ ok b'
      → AllWellFormed b.fields es
        × Admitted (weight_all es) (text_size_all es) (height_all es) depth b b'
  visit_all_sound nil depth b b' d t h = ground arith
  visit_all_sound (cons e es) depth b b' d t h =
      let s = bind-eq-ok (visit e depth b) _ h in
      let p = visit_sound e depth b s.0 s.1 in
      let r = within_limits p.1 in
      let q = visit_all_sound es depth s.0 b' r.0 r.1 s.2 in
      ((p.0, rw (← r.2) q.0), Admitted-join p.1 q.1)

-- The budget that a search starts with.
abbrev pub initial : ℕ → ℕ → SearchStructureBudget
initial clauses fields = record {
  limit = clauses;
  remaining = clauses;
  text_bytes = 0;
  fields = fields;
}

pub new-eq-ok :
    (clauses fields : ℕ) (b : SearchStructureBudget)
    → new clauses fields ≡ ok b
    → (1 ≤ clauses) × (clauses ≤ max_configured_query_clauses) × (b ≡ initial clauses fields)
unfolding new validate_query_limits
new-eq-ok clauses fields b h = ground arith

validate_sound :
    (e : SearchExpression) (clauses fields : ℕ)
    → validate_search_structure e clauses fields ≡ ok tt
    → (1 ≤ clauses)
      × (clauses ≤ max_configured_query_clauses)
      × IsWellFormed fields e
      × (height e ≤ max_expression_depth)
      × (weight e ≤ clauses)
      × (text_size e ≤ max_query_text_bytes)
unfolding validate_search_structure
validate_sound e clauses fields h =
    let n = bind-eq-ok (new clauses fields) _ h in
    let i = new-eq-ok clauses fields n.0 n.1 in
    let v = bind-eq-ok (visit e 0 n.0) _ n.2 in
    let p = visit_sound e 0 (initial clauses fields) v.0 (rw (← i.2) v.1) in
    (i.0, i.1, p.0, ground arith, ground arith, ground arith)

-- The whole check: an expression passes exactly when the clause limit is a valid one, the expression
-- is well formed for the field limit, nests at most 8 levels below its root, compiles to at most
-- `clauses` clauses, and holds at most 65536 bytes of text.
pub validate_search_structure_iff :
    (e : SearchExpression) (clauses fields : ℕ)
    → (validate_search_structure e clauses fields ≡ ok tt) ↔ (
        (1 ≤ clauses)
        × (clauses ≤ max_configured_query_clauses)
        × IsWellFormed fields e
        × (height e ≤ max_expression_depth)
        × (weight e ≤ clauses)
        × (text_size e ≤ max_query_text_bytes))
unfolding validate_search_structure new validate_query_limits
validate_search_structure_iff e clauses fields = (
  validate_sound e clauses fields,
  λ w. ground (arith, visit_complete e 0 (initial clauses fields)),
)

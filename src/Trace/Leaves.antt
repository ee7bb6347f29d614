-- ===== src/Trace/Leaves.antt =====
-- The leaves that `TraceExpression::evaluate` of src/engine.rs shows for a record, beside a description
-- of them from the root down: the leaves below no negation all of whose enclosing expressions hold.
use fulltext.Prelude.{
  ℕ, ◌≡◌, refl, sym, ap, ◌∙◌, arith, Bool, true, false, not, ◌&&◌, ◌||◌, List, [], ◌∷◌, ◌++◌,
  Option, none, some, if◌then◌else◌,
}
use fulltext.Trace.Evaluate.{
  TraceExpression, TraceExpressions, leaf, and, or, negated, optional, nil, cons, TraceDecision,
  is_decided, matched_leaves, decide_group, decide_leaf, negate, extend_leaves, evaluate,
  evaluate_each, group_matched,
}
use fulltext.Trace.Sound.{joined, group_matched-cons, matched-extend_leaves}

unfoldable pub is_known : Bool → Option Bool → Bool
is_known verdict none = false
is_known verdict (some b) = if verdict then b else not b

-- Whether the leaves that are known give an expression this verdict. A negation asks for the other
-- one, and a group asks either all of its children or one of them.
unfoldable mutual
  unfolding is_known

  pub decides : Bool → (ℕ → Option Bool) → TraceExpression → Bool
  decides verdict membership (leaf index) = is_known verdict (membership index)
  decides verdict membership (negated child) = decides (not verdict) membership child
  decides verdict membership (and children) = decides_group verdict verdict membership children
  decides verdict membership (or children) = decides_group (not verdict) verdict membership children
  decides verdict membership (optional required others) = decides verdict membership required

  pub decides_group : Bool → Bool → (ℕ → Option Bool) → TraceExpressions → Bool
  decides_group every verdict membership nil = every
  decides_group every verdict membership (cons child children) =
      if every
      then decides verdict membership child && decides_group every verdict membership children
      else decides verdict membership child || decides_group every verdict membership children

-- From the root down, `above` says that all enclosing expressions hold. Only leaves are dropped.
unfoldable mutual
  unfolding decides

  pub shown : (ℕ → Option Bool) → Bool → TraceExpression → List ℕ
  shown membership above (leaf index) =
      if above && decides true membership (leaf index) then index ∷ [] else []
  shown membership above (negated child) = []
  shown membership above (and children) =
      shown_each membership (above && decides true membership (and children)) children
  shown membership above (or children) =
      shown_each membership (above && decides true membership (or children)) children
  shown membership above (optional required others) =
      shown membership (above && decides true membership required) required
      ++ shown_each membership (above && decides true membership required) others

  pub shown_each : (ℕ → Option Bool) → Bool → TraceExpressions → List ℕ
  shown_each membership above nil = []
  shown_each membership above (cons child children) =
      shown membership above child ++ shown_each membership above children

-- A group's verdict, item by item.
is_decided-joined :
    (is_and verdict : Bool) (o rest : Option Bool) (x y : Bool)
    → is_decided verdict o ≡ x
    → is_decided verdict rest ≡ y
    → is_decided verdict (joined is_and o rest)
      ≡ (if (if is_and then verdict else not verdict) then x && y else x || y)
unfolding is_decided
is_decided-joined true true o rest x y h k = ground arith
is_decided-joined true false o rest x y h k = ground arith
is_decided-joined false true o rest x y h k = ground arith
is_decided-joined false false o rest x y h k = ground arith

is_decided-is_known : (verdict : Bool) (o : Option Bool) → is_decided verdict o ≡ is_known verdict o
unfolding is_decided is_known
is_decided-is_known true none = refl
is_decided-is_known true (some b) = refl
is_decided-is_known false none = refl
is_decided-is_known false (some b) = refl

is_decided-negate :
    (verdict : Bool) (o : Option Bool) → is_decided verdict (negate o) ≡ is_decided (not verdict) o
unfolding is_decided negate
is_decided-negate true none = refl
is_decided-negate true (some b) = refl
is_decided-negate false none = refl
is_decided-negate false (some b) = ground arith

is_decided-none :
    (is_and verdict : Bool)
    → is_decided verdict (some is_and) ≡ (if is_and then verdict else not verdict)
unfolding is_decided
is_decided-none true true = refl
is_decided-none true false = refl
is_decided-none false true = refl
is_decided-none false false = refl

mutual
  unfolding evaluate evaluate_each decides decides_group decide_leaf decide_group

  verdict-evaluate :
      (verdict : Bool) (m : ℕ → Option Bool) (e : TraceExpression)
      → is_decided verdict (evaluate m e).matched ≡ decides verdict m e
  verdict-evaluate verdict m (leaf index) = is_decided-is_known verdict (m index)
  verdict-evaluate verdict m (negated child) =
      is_decided-negate verdict (evaluate m child).matched ∙ verdict-evaluate (not verdict) m child
  verdict-evaluate true m (and children) = verdict-group true true m children
  verdict-evaluate false m (and children) = verdict-group true false m children
  verdict-evaluate true m (or children) = verdict-group false true m children
  verdict-evaluate false m (or children) = verdict-group false false m children
  verdict-evaluate verdict m (optional required others) =
      ap (is_decided verdict) (matched-extend_leaves (evaluate m required) (evaluate_each m others))
      ∙ verdict-evaluate verdict m required

  verdict-group :
      (is_and verdict : Bool) (m : ℕ → Option Bool) (es : TraceExpressions)
      → is_decided verdict (group_matched is_and (evaluate_each m es))
        ≡ decides_group (if is_and then verdict else not verdict) verdict m es
  verdict-group is_and verdict m nil = is_decided-none is_and verdict
  verdict-group is_and verdict m (cons child children) =
      let d = evaluate m child in
      let ds = evaluate_each m children in
      ap (is_decided verdict) (group_matched-cons is_and d ds d.matched refl)
      ∙ is_decided-joined is_and verdict d.matched (group_matched is_and ds)
          (decides verdict m child)
          (decides_group (if is_and then verdict else not verdict) verdict m children)
          (verdict-evaluate verdict m child) (verdict-group is_and verdict m children)

-- Where something above does not hold, nothing is shown.
mutual
  unfolding shown shown_each

  hidden : (m : ℕ → Option Bool) (e : TraceExpression) → shown m false e ≡ []
  hidden m (leaf index) = refl
  hidden m (negated child) = refl
  hidden m (and children) = hidden_each m children
  hidden m (or children) = hidden_each m children
  hidden m (optional required others) = rw (hidden m required, hidden_each m others) refl

  hidden_each : (m : ℕ → Option Bool) (es : TraceExpressions) → shown_each m false es ≡ []
  hidden_each m nil = refl
  hidden_each m (cons child children) = rw (hidden m child, hidden_each m children) refl

-- An expression that does not hold shows nothing.
shown_unless :
    (m : ℕ → Option Bool) (e : TraceExpression) → decides true m e ≡ false → shown m true e ≡ []
unfolding shown decides
shown_unless m (leaf index) h = rw h refl
shown_unless m (negated child) h = refl
shown_unless m (and children) h = rw h (hidden_each m children)
shown_unless m (or children) h = rw h (hidden_each m children)
shown_unless m (optional required others) h =
    rw h (rw (hidden m required, hidden_each m others) refl)

shown_each-if :
    (m : ℕ → Option Bool) (b c : Bool) (es : TraceExpressions) (leaves : List ℕ)
    → b ≡ c
    → leaves ≡ shown_each m true es
    → (if b then leaves else []) ≡ shown_each m c es
shown_each-if m b true es leaves h k = rw h k
shown_each-if m b false es leaves h k = rw h (sym (hidden_each m es))

shown-if :
    (m : ℕ → Option Bool) (b c : Bool) (e : TraceExpression) (leaves : List ℕ)
    → b ≡ c
    → decides true m e ≡ c
    → leaves ≡ shown m true e
    → (if b then leaves else []) ≡ shown m true e
shown-if m b true e leaves h d k = rw h k
shown-if m b false e leaves h d k = rw h (sym (shown_unless m e d))

leaves-extend_leaves :
    (m : ℕ → Option Bool) (required : TraceExpression) (others : TraceExpressions)
    (d : TraceDecision) (ds : List TraceDecision) (c : Bool)
    → decides true m required ≡ c
    → is_decided true d.matched ≡ c
    → d.leaves ≡ shown m true required
    → matched_leaves ds ≡ shown_each m true others
    → (extend_leaves d ds).leaves ≡ shown m c required ++ shown_each m c others
unfolding extend_leaves
leaves-extend_leaves m required others d ds true h v k l = rw (v, k, l) refl
leaves-extend_leaves m required others d ds false h v k l =
    rw (v, k, shown_unless m required h, hidden m required, hidden_each m others) refl

mutual
  unfolding evaluate evaluate_each decide_leaf decide_group matched_leaves shown shown_each decides

  leaves-evaluate :
      (m : ℕ → Option Bool) (e : TraceExpression) → (evaluate m e).leaves ≡ shown m true e
  leaves-evaluate m (leaf index) = rw (is_decided-is_known true (m index)) refl
  leaves-evaluate m (negated child) = refl
  leaves-evaluate m (and children) =
      let ds = evaluate_each m children in
      shown_each-if m (is_decided true (group_matched true ds)) (decides true m (and children))
        children (matched_leaves ds) (verdict-evaluate true m (and children))
        (leaves-each m children)
  leaves-evaluate m (or children) =
      let ds = evaluate_each m children in
      shown_each-if m (is_decided true (group_matched false ds)) (decides true m (or children))
        children (matched_leaves ds) (verdict-evaluate true m (or children))
        (leaves-each m children)
  leaves-evaluate m (optional required others) =
      leaves-extend_leaves m required others (evaluate m required) (evaluate_each m others)
        (decides true m required) refl (verdict-evaluate true m required)
        (leaves-evaluate m required) (leaves-each m others)

  leaves-each :
      (m : ℕ → Option Bool) (es : TraceExpressions)
      → matched_leaves (evaluate_each m es) ≡ shown_each m true es
  leaves-each m nil = refl
  leaves-each m (cons child children) =
      let d = evaluate m child in
      rw
        (
          shown-if m (is_decided true d.matched) (decides true m child) child d.leaves
              (verdict-evaluate true m child) refl (leaves-evaluate m child),
          leaves-each m children,
        )
        refl

-- What is decided of a record is what the known leaves decide of the expression, where a negation asks
-- for the other verdict, and a group asks all of its children or one of them. The leaves shown for it,
-- in their order, are the expression's leaves below no negation that are known to match and all of
-- whose enclosing expressions are decided to hold; those that are optional count where the required
-- one beside them holds.
pub evaluate-shown :
    (membership : ℕ → Option Bool) (e : TraceExpression)
    → ((verdict : Bool)
        → is_decided verdict (evaluate membership e).matched ≡ decides verdict membership e)
      × ((evaluate membership e).leaves ≡ shown membership true e)
evaluate-shown membership e =
    (λ verdict. verdict-evaluate verdict membership e, leaves-evaluate membership e)

-- ===== src/Trace/Evaluate.antt =====
-- `TraceExpression::evaluate` of src/engine.rs: whether a record matches, as far as the leaves that were
-- analysed say, and the leaves that its matches are shown for.
use fulltext.Prelude.{
  ℕ, Bool, true, false, not, ◌||◌, List, [], ◌∷◌, ◌++◌, Option, none, some, if◌then◌else◌,
}

mutual
  pub data TraceExpression : Type 0 where
    leaf : ℕ → TraceExpression
    and or : TraceExpressions → TraceExpression
    negated : TraceExpression → TraceExpression
    optional : TraceExpression → TraceExpressions → TraceExpression

  pub data TraceExpressions : Type 0 where
    nil : TraceExpressions
    cons : TraceExpression → TraceExpressions → TraceExpressions

pub record TraceDecision : Type 0 where
  pub matched : Option Bool
  pub leaves : List ℕ

-- `decision.matched == Some(value)`
unfoldable pub is_decided : Bool → Option Bool → Bool
is_decided value none = false
is_decided true (some b) = b
is_decided false (some b) = not b

unfoldable pub any_decided : Bool → List TraceDecision → Bool
unfolding is_decided
any_decided value [] = false
any_decided value (d ∷ decisions) = is_decided value d.matched || any_decided value decisions

unfoldable pub any_unknown : List TraceDecision → Bool
any_unknown [] = false
any_unknown (d ∷ decisions) =
    (elim d.matched [ none ↦ true | some b ↦ false ]) || any_unknown decisions

-- The leaves of the decisions that matched.
unfoldable pub matched_leaves : List TraceDecision → List ℕ
unfolding is_decided
matched_leaves [] = []
matched_leaves (d ∷ decisions) =
    (if is_decided true d.matched then d.leaves else []) ++ matched_leaves decisions

unfoldable pub group_matched : Bool → List TraceDecision → Option Bool
unfolding any_decided any_unknown
group_matched is_and decisions =
    if any_decided (not is_and) decisions
    then some (not is_and)
    else if any_unknown decisions
    then none
    else some is_and

unfoldable pub decide_group : Bool → List TraceDecision → TraceDecision
unfolding group_matched matched_leaves is_decided
decide_group is_and decisions =
    let matched = group_matched is_and decisions in
    record {
      matched = matched;
      leaves = if is_decided true matched then matched_leaves decisions else [];
    }

unfoldable pub decide_leaf : ℕ → Option Bool → TraceDecision
unfolding is_decided
decide_leaf index matched = record {
  matched = matched;
  leaves = if is_decided true matched then index ∷ [] else [];
}

unfoldable pub negate : Option Bool → Option Bool
negate none = none
negate (some b) = some (not b)

unfoldable pub extend_leaves : TraceDecision → List TraceDecision → TraceDecision
unfolding is_decided matched_leaves
extend_leaves d others =
    if is_decided true d.matched then record d { leaves = d.leaves ++ matched_leaves others } else d

-- A membership is known or not; the slice of memberships has one for each leaf.
unfoldable mutual
  unfolding decide_leaf decide_group negate extend_leaves

  pub evaluate : (ℕ → Option Bool) → TraceExpression → TraceDecision
  evaluate membership (leaf index) = decide_leaf index (membership index)
  evaluate membership (negated child) = record {
    matched = negate (evaluate membership child).matched;
    leaves = [];
  }
  evaluate membership (and children) = decide_group true (evaluate_each membership children)
  evaluate membership (or children) = decide_group false (evaluate_each membership children)
  evaluate membership (optional required others) =
      extend_leaves (evaluate membership required) (evaluate_each membership others)

  pub evaluate_each : (ℕ → Option Bool) → TraceExpressions → List TraceDecision
  evaluate_each membership nil = []
  evaluate_each membership (cons child children) =
      evaluate membership child ∷ evaluate_each membership children

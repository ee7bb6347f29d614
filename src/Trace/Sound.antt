-- ===== src/Trace/Sound.antt =====
-- What `TraceExpression::evaluate` of src/engine.rs says of a record holds whatever the leaves not yet
-- analysed turn out to be.
use fulltext.Prelude.{
  ℕ, ◌≡◌, refl, sym, ◌∙◌, arith, Bool, true, false, not, ◌&&◌, ◌||◌, List, ◌∷◌, Option, none, some,
  if◌then◌else◌,
}
use fulltext.Trace.Evaluate.{
  TraceExpression, TraceExpressions, leaf, and, or, negated, optional, nil, cons, TraceDecision,
  is_decided, any_decided, any_unknown, group_matched, decide_group, decide_leaf, negate,
  extend_leaves, evaluate, evaluate_each,
}

-- Whether the expression holds where each leaf is known; what is optional decides nothing.
unfoldable mutual
  pub holds : (ℕ → Bool) → TraceExpression → Bool
  holds known (leaf index) = known index
  holds known (negated child) = not (holds known child)
  holds known (and children) = holds_group true known children
  holds known (or children) = holds_group false known children
  holds known (optional required others) = holds known required

  pub holds_group : Bool → (ℕ → Bool) → TraceExpressions → Bool
  holds_group is_and known nil = is_and
  holds_group is_and known (cons child children) =
      if is_and
      then holds known child && holds_group is_and known children
      else holds known child || holds_group is_and known children

-- A membership that is known is the one that will be.
abbrev pub Completes : (ℕ → Bool) → (ℕ → Option Bool) → Type 0
Completes known membership = (i : ℕ) (b : Bool) → membership i ≡ some b → known i ≡ b

-- What a group's answer is made of, item by item.
abbrev pub joined : Bool → Option Bool → Option Bool → Option Bool
joined is_and (some b) rest = if is_decided (not is_and) (some b) then some (not is_and) else rest
joined is_and none rest = if is_decided (not is_and) rest then rest else none

pub group_matched-cons :
    (is_and : Bool) (d : TraceDecision) (decisions : List TraceDecision) (o : Option Bool)
    → d.matched ≡ o
    → group_matched is_and (d ∷ decisions) ≡ joined is_and o (group_matched is_and decisions)
unfolding group_matched any_decided any_unknown is_decided
group_matched-cons true d decisions none e = ground arith
group_matched-cons true d decisions (some b) e = ground arith
group_matched-cons false d decisions none e = ground arith
group_matched-cons false d decisions (some b) e = ground arith

-- A group's answer and its items', from their answers one by one.
joined-holds :
    (is_and : Bool) (o rest : Option Bool) (x y b : Bool)
    → ((c : Bool) → o ≡ some c → x ≡ c)
    → ((c : Bool) → rest ≡ some c → y ≡ c)
    → joined is_and o rest ≡ some b
    → (if is_and then x && y else x || y) ≡ b
unfolding is_decided
joined-holds true (some c) (some d) x y b h k e = ground (arith, h c refl, k d refl)
joined-holds true (some c) none x y b h k e = ground (arith, h c refl)
joined-holds true none (some d) x y b h k e = ground (arith, k d refl)
joined-holds true none none x y b h k e = ground arith
joined-holds false (some c) (some d) x y b h k e = ground (arith, h c refl, k d refl)
joined-holds false (some c) none x y b h k e = ground (arith, h c refl)
joined-holds false none (some d) x y b h k e = ground (arith, k d refl)
joined-holds false none none x y b h k e = ground arith

joined_known :
    (is_and x y : Bool) (rest : Option Bool)
    → rest ≡ some y
    → joined is_and (some x) rest ≡ some (if is_and then x && y else x || y)
unfolding is_decided
joined_known true true y rest e = e
joined_known true false y rest e = refl
joined_known false true y rest e = refl
joined_known false false y rest e = e

negate-holds :
    (o : Option Bool) (x b : Bool)
    → ((c : Bool) → o ≡ some c → x ≡ c)
    → negate o ≡ some b
    → not x ≡ b
unfolding negate
negate-holds none x b h e = ground arith
negate-holds (some c) x b h e = ground (arith, h c refl)

pub matched-extend_leaves :
    (d : TraceDecision) (others : List TraceDecision) → (extend_leaves d others).matched ≡ d.matched
unfolding extend_leaves
matched-extend_leaves d others = ground arith

mutual
  unfolding evaluate evaluate_each holds holds_group decide_leaf decide_group

  evaluate-holds :
      (known : ℕ → Bool) (membership : ℕ → Option Bool)
      → Completes known membership
      → (e : TraceExpression) (b : Bool) → (evaluate membership e).matched ≡ some b
      → holds known e ≡ b
  evaluate-holds known membership h (leaf index) b m = h index b m
  evaluate-holds known membership h (negated child) b m =
      negate-holds (evaluate membership child).matched (holds known child) b
        (evaluate-holds known membership h child) m
  evaluate-holds known membership h (and children) b m =
      group-holds known membership h true children b m
  evaluate-holds known membership h (or children) b m =
      group-holds known membership h false children b m
  evaluate-holds known membership h (optional required others) b m =
      evaluate-holds known membership h required b (
        sym (matched-extend_leaves (evaluate membership required) (evaluate_each membership others))
        ∙ m)

  group-holds :
      (known : ℕ → Bool) (membership : ℕ → Option Bool)
      → Completes known membership
      → (is_and : Bool) (es : TraceExpressions) (b : Bool)
      → group_matched is_and (evaluate_each membership es) ≡ some b
      → holds_group is_and known es ≡ b
  group-holds known membership h is_and nil b m = ground arith
  group-holds known membership h is_and (cons child children) b m =
      let d = evaluate membership child in
      let ds = evaluate_each membership children in
      joined-holds is_and d.matched (group_matched is_and ds) (holds known child)
        (holds_group is_and known children) b (evaluate-holds known membership h child)
        (group-holds known membership h is_and children)
        (sym (group_matched-cons is_and d ds d.matched refl) ∙ m)

mutual
  unfolding evaluate evaluate_each holds holds_group decide_leaf decide_group negate

  complete-holds :
      (known : ℕ → Bool) (e : TraceExpression)
      → (evaluate (λ i. some (known i)) e).matched ≡ some (holds known e)
  complete-holds known (leaf index) = refl
  complete-holds known (negated child) = rw (complete-holds known child) refl
  complete-holds known (and children) = complete-group known true children
  complete-holds known (or children) = complete-group known false children
  complete-holds known (optional required others) =
      matched-extend_leaves (evaluate (λ i. some (known i)) required)
        (evaluate_each (λ i. some (known i)) others)
      ∙ complete-holds known required

  complete-group :
      (known : ℕ → Bool) (is_and : Bool) (es : TraceExpressions)
      → group_matched is_and (evaluate_each (λ i. some (known i)) es)
        ≡ some (holds_group is_and known es)
  complete-group known true nil = refl
  complete-group known false nil = refl
  complete-group known is_and (cons child children) =
      let m : ℕ → Option Bool = λ i. some (known i) in
      let d = evaluate m child in
      let ds = evaluate_each m children in
      let h = complete-holds known child in
      let k = complete-group known is_and children in
      group_matched-cons is_and d ds (some (holds known child)) h
      ∙ joined_known is_and (holds known child) (holds_group is_and known children)
          (group_matched is_and ds) k

-- What is decided of a record from the leaves that are known holds whatever the other leaves turn out
-- to be; and where each leaf is known the record is decided.
pub holds-evaluate :
    (known : ℕ → Bool) (membership : ℕ → Option Bool) (e : TraceExpression)
    → Completes known membership
    → ((b : Bool) → (evaluate membership e).matched ≡ some b → holds known e ≡ b)
      × ((evaluate (λ i. some (known i)) e).matched ≡ some (holds known e))
holds-evaluate known membership e h = (evaluate-holds known membership h e, complete-holds known e)

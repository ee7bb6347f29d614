-- ===== src/Examples/Matched.antt =====
-- The theorems on terms and on the evaluation of traces of src/engine.rs, applied at concrete inputs.
use fulltext.Prelude.{
  ℕ, ◌≡◌, refl, arith, Bool, true, [], ◌∷◌, Option, none, some, ◌==◌, ltb, if◌then◌else◌,
}
use fulltext.Text.{Bytes, starts_with}
use fulltext.Terms.{prefix_end}
use fulltext.Terms.Prefix.{in_range, in_range-prefix_end}
use fulltext.Trace.Evaluate.{
  TraceExpression, leaf, and, or, negated, optional, nil, cons, is_decided, evaluate,
}
use fulltext.Trace.Sound.{holds, holds-evaluate}
use fulltext.Trace.Leaves.{decides, shown, evaluate-shown}

abbrev prefix : Bytes
prefix = b'a' ∷ 255 ∷ []

abbrev term : Bytes
term = b'a' ∷ 255 ∷ b'z' ∷ []

in_range-prefix_end_example : in_range prefix (prefix_end prefix) term ≡ starts_with term prefix
in_range-prefix_end_example =
    in_range-prefix_end prefix term (omega arith, (omega arith, (omega arith, tt)))

abbrev known : ℕ → Bool
known i = ltb i 2

-- The third leaf is not analysed yet.
abbrev membership : ℕ → Option Bool
membership i = if i == 2 then none else some (known i)

abbrev expression : TraceExpression
expression =
    optional
      (and (
        cons (leaf 0)
          (cons (or (cons (leaf 1) (cons (leaf 2) nil))) (cons (negated (leaf 3)) nil))))
      (cons (leaf 2) nil)

completes : (i : ℕ) (b : Bool) → membership i ≡ some b → known i ≡ b
completes i b h = ground arith

holds-evaluate_example :
    ((b : Bool) → (evaluate membership expression).matched ≡ some b → holds known expression ≡ b)
    × ((evaluate (λ i. some (known i)) expression).matched ≡ some (holds known expression))
holds-evaluate_example = holds-evaluate known membership expression completes

evaluate-shown_example :
    ((verdict : Bool)
      → is_decided verdict (evaluate membership expression).matched
        ≡ decides verdict membership expression)
    × ((evaluate membership expression).leaves ≡ shown membership true expression)
evaluate-shown_example = evaluate-shown membership expression

-- The leaf that is not analysed and the one below the negation are not shown.
shown_for_expression : shown membership true expression ≡ 0 ∷ 1 ∷ []
unfolding shown
shown_for_expression = refl

-- A group that does not hold shows none of its leaves.
shown_for_unmet : shown membership true (and (cons (leaf 0) (cons (leaf 2) nil))) ≡ []
unfolding shown
shown_for_unmet = refl

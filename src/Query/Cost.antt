-- ===== src/Query/Cost.antt =====
-- What an expression costs, read off the expression itself: an independent account of the figures
-- that the scanner of src/protocol.rs computes from the packed bytes. Sums are exact here.
use fulltext.Prelude.{
  ℕ, ◌+◌, ◌*◌, Bool, true, false, ◌&&◌, ◌||◌, Option, min, max, usize_max, length,
}
use fulltext.Query.{
  SearchExpression, Expressions, clause, and, or, negate, boost, optional, nil, cons, count,
  is_expensive,
}
use fulltext.Query.Scan.{SearchCost, clause_terms, clause_fields}

-- The most terms that one clause can have; the profile is raised where a field count is given.
unfoldable mutual
  pub max_terms : Option ℕ → SearchExpression → ℕ
  max_terms raised (clause c) = clause_terms raised c.text
  max_terms raised (and es) = max_terms_all raised es
  max_terms raised (or es) = max_terms_all raised es
  max_terms raised (negate e) = max_terms raised e
  max_terms raised (boost value e) = max_terms raised e
  max_terms raised (optional required es) =
      max (max_terms raised required) (max_terms_all raised es)

  pub max_terms_all : Option ℕ → Expressions → ℕ
  max_terms_all raised nil = 0
  max_terms_all raised (cons e es) = max (max_terms raised e) (max_terms_all raised es)

-- A clause for each term in each field; a group one for each child; a negation two, a boost one.
unfoldable mutual
  pub construction : Option ℕ → SearchExpression → ℕ
  construction raised (clause c) =
      clause_terms raised c.text * clause_fields raised (length c.fields)
  construction raised (and es) = count es + construction_all raised es
  construction raised (or es) = count es + construction_all raised es
  construction raised (negate e) = construction raised e + 2
  construction raised (boost value e) = construction raised e + 1
  construction raised (optional required es) =
      construction raised required + (count es + 1) + construction_all raised es

  pub construction_all : Option ℕ → Expressions → ℕ
  construction_all raised nil = 0
  construction_all raised (cons e es) = construction raised e + construction_all raised es

-- Whether some clause has an expensive mode.
unfoldable mutual
  pub has_expensive : SearchExpression → Bool
  has_expensive (clause c) = is_expensive c.mode
  has_expensive (and es) = any_expensive es
  has_expensive (or es) = any_expensive es
  has_expensive (negate e) = has_expensive e
  has_expensive (boost value e) = has_expensive e
  has_expensive (optional required es) = has_expensive required || any_expensive es

  pub any_expensive : Expressions → Bool
  any_expensive nil = false
  any_expensive (cons e es) = has_expensive e || any_expensive es

-- Whether every match satisfies some clause that is not negated.
unfoldable mutual
  pub is_anchored : SearchExpression → Bool
  is_anchored (clause c) = true
  is_anchored (and es) = any_anchored es
  is_anchored (or es) = all_anchored es
  is_anchored (negate e) = false
  is_anchored (boost value e) = is_anchored e
  is_anchored (optional required es) = is_anchored required

  pub any_anchored : Expressions → Bool
  any_anchored nil = false
  any_anchored (cons e es) = is_anchored e || any_anchored es

  pub all_anchored : Expressions → Bool
  all_anchored nil = true
  all_anchored (cons e es) = is_anchored e && all_anchored es

-- The scanner's figures: its sums stop at `usize::MAX`.
abbrev pub cost_of : Option ℕ → SearchExpression → SearchCost
cost_of raised e = record {
  terms_upper = max_terms raised e;
  construction_upper = min (construction raised e) usize_max;
  has_expensive_mode = has_expensive e;
  has_positive_anchor = is_anchored e;
}

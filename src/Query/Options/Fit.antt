-- ===== src/Query/Options/Fit.antt =====
-- What `validate_expression_options` of src/request_validation.rs accepts, and what it answers.
use fulltext.Prelude.{◌≤◌, ◌≡◌, refl, Bool, true, false, ◌||◌, arith}
use fulltext.Error.{ok, bind-eq-ok}
use fulltext.Query.{
  SearchExpression, Expressions, QueryOptions, SearchMode, clause, and, or, negate, boost, optional,
  nil, cons, validate_options, is_prefix, is_fuzzy, max_fuzzy_distance,
}
use fulltext.Query.Options.{validate_expression_options, validate_all_options}

-- Options other than the default ones stand in a fuzzy clause only.
pub record OptionsFit (o : QueryOptions) (mode : SearchMode) : Type 0 where
  pub near : o.fuzzy_distance ≤ max_fuzzy_distance
  pub fuzzy : (is_fuzzy mode ≡ false) → (o.fuzzy_distance ≡ 1) × (o.fuzzy_transpositions ≡ true)

unfoldable mutual
  pub AllOptionsFit : SearchExpression → Type 0
  AllOptionsFit (clause c) = OptionsFit c.options c.mode
  AllOptionsFit (and es) = EachFits es
  AllOptionsFit (or es) = EachFits es
  AllOptionsFit (negate e) = AllOptionsFit e
  AllOptionsFit (boost value e) = AllOptionsFit e
  AllOptionsFit (optional required es) = AllOptionsFit required × EachFits es

  pub EachFits : Expressions → Type 0
  EachFits nil = Unit {0}
  EachFits (cons e es) = AllOptionsFit e × EachFits es

-- Whether some clause asks for the completions of a prefix.
unfoldable mutual
  pub has_prefix : SearchExpression → Bool
  has_prefix (clause c) = is_prefix c.mode
  has_prefix (and es) = any_prefix es
  has_prefix (or es) = any_prefix es
  has_prefix (negate e) = has_prefix e
  has_prefix (boost value e) = has_prefix e
  has_prefix (optional required es) = has_prefix required || any_prefix es

  pub any_prefix : Expressions → Bool
  any_prefix nil = false
  any_prefix (cons e es) = has_prefix e || any_prefix es

pub OptionsFit-validate_options :
    (o : QueryOptions) (mode : SearchMode) → OptionsFit o mode → validate_options o mode ≡ ok tt
unfolding validate_options
OptionsFit-validate_options o mode f = ground (arith, f.near, f.fuzzy)

pub validate_options-OptionsFit :
    (o : QueryOptions) (mode : SearchMode) → validate_options o mode ≡ ok tt → OptionsFit o mode
unfolding validate_options
validate_options-OptionsFit o mode h = record { near = ground arith; fuzzy = λ plain. ground arith }

or_shift : (a b c : Bool) → (a || (b || c)) ≡ ((a || b) || c)
or_shift a b c = ground arith

mutual
  unfolding validate_expression_options AllOptionsFit has_prefix

  pub options_complete :
      (e : SearchExpression) → AllOptionsFit e → validate_expression_options e ≡ ok (has_prefix e)
  options_complete (clause c) f = rw (OptionsFit-validate_options c.options c.mode f) refl
  options_complete (and es) f = all_complete es false f
  options_complete (or es) f = all_complete es false f
  options_complete (negate e) f = options_complete e f
  options_complete (boost value e) f = options_complete e f
  options_complete (optional required es) f =
      rw (options_complete required f.0) (all_complete es (has_prefix required) f.1)

  all_complete :
      (es : Expressions) (b : Bool)
      → EachFits es
      → validate_all_options es b ≡ ok (b || any_prefix es)
  all_complete nil b f = ground arith
  all_complete (cons e es) b f =
      rw (options_complete e f.0, or_shift b (has_prefix e) (any_prefix es))
        (all_complete es (b || has_prefix e) f.1)

mutual
  unfolding validate_expression_options AllOptionsFit

  pub options_sound :
      (e : SearchExpression) (p : Bool) → validate_expression_options e ≡ ok p → AllOptionsFit e
  options_sound (clause c) p h =
      validate_options-OptionsFit c.options c.mode
        (bind-eq-ok (validate_options c.options c.mode) _ h).1
  options_sound (and es) p h = all_sound es false p h
  options_sound (or es) p h = all_sound es false p h
  options_sound (negate e) p h = options_sound e p h
  options_sound (boost value e) p h = options_sound e p h
  options_sound (optional required es) p h =
      let r = bind-eq-ok (validate_expression_options required) _ h in
      (options_sound required r.0 r.1, all_sound es r.0 p r.2)

  all_sound : (es : Expressions) (b p : Bool) → validate_all_options es b ≡ ok p → EachFits es
  all_sound nil b p h = tt
  all_sound (cons e es) b p h =
      let r = bind-eq-ok (validate_expression_options e) _ h in
      (options_sound e r.0 r.1, all_sound es (b || r.0) p r.2)

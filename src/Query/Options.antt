-- ===== src/Query/Options.antt =====
-- `validate_expression_options` of src/request_validation.rs: the fuzzy options of every clause,
-- and whether a clause asks for a prefix.
pub mod Fit
use fulltext.Prelude.{Bool, false, ◌||◌}
use fulltext.Error.{Result, ok, ◌>>=◌, ◌>>◌}
use fulltext.Query.{
  SearchExpression, Expressions, clause, and, or, negate, boost, optional, nil, cons,
  validate_options, is_prefix,
}

unfoldable mutual
  pub validate_expression_options : SearchExpression → Result Bool
  validate_expression_options (clause c) =
      validate_options c.options c.mode >> ok (is_prefix c.mode)
  validate_expression_options (and es) = validate_all_options es false
  validate_expression_options (or es) = validate_all_options es false
  validate_expression_options (negate e) = validate_expression_options e
  validate_expression_options (boost value e) = validate_expression_options e
  validate_expression_options (optional required es) =
      validate_expression_options required >>= λ contains_prefix.
      validate_all_options es contains_prefix

  pub validate_all_options : Expressions → Bool → Result Bool
  validate_all_options nil contains_prefix = ok contains_prefix
  validate_all_options (cons e es) contains_prefix =
      validate_expression_options e >>= λ child. validate_all_options es (contains_prefix || child)

-- ===== src/Query.antt =====
-- The query language of src/protocol.rs: modes, fuzzy options, expressions, and the limits on them.
pub mod Structure
pub mod Options
pub mod Wire
pub mod Cost
pub mod Decoded
pub mod Fuel
pub mod Scan
pub mod Agree
use fulltext.Prelude.{
  ℕ, zero, suc, ◌+◌, ◌^◌, ◌≡◌, refl, Bool, true, false, ◌&&◌, ◌||◌, not, List, [], ◌∷◌, ltb, ◌==◌,
}
use fulltext.Error.{Result, ok, err, invalid, invalid_with, number, refuse_if, ◌>>◌}
use fulltext.Float.{f32_is_finite, f32_is_sign_negative, f32_gt_hundred}
use fulltext.Text.{Bytes}

abbrev pub max_fields : ℕ
max_fields = 1024

abbrev pub max_query_text_bytes : ℕ
max_query_text_bytes = 65536

abbrev pub max_query_terms : ℕ
max_query_terms = 64

abbrev pub max_query_clauses : ℕ
max_query_clauses = 256

abbrev pub max_configured_query_terms : ℕ
max_configured_query_terms = 1024

abbrev pub max_configured_query_clauses : ℕ
max_configured_query_clauses = 4096

abbrev pub max_expression_depth : ℕ
max_expression_depth = 8

abbrev pub max_fuzzy_distance : ℕ
max_fuzzy_distance = 2

pub data SearchMode : Type 0 where
  any all phrase prefix fuzzy fuzzy_prefix : SearchMode

unfoldable pub is_expensive : SearchMode → Bool
is_expensive SearchMode.any = false
is_expensive SearchMode.all = false
is_expensive SearchMode.phrase = true
is_expensive SearchMode.prefix = true
is_expensive SearchMode.fuzzy = true
is_expensive SearchMode.fuzzy_prefix = true

unfoldable pub is_fuzzy : SearchMode → Bool
is_fuzzy SearchMode.fuzzy = true
is_fuzzy SearchMode.fuzzy_prefix = true
is_fuzzy _ = false

unfoldable pub is_prefix : SearchMode → Bool
is_prefix SearchMode.prefix = true
is_prefix SearchMode.fuzzy_prefix = true
is_prefix _ = false

pub record QueryOptions : Type 0 where
  pub fuzzy_distance : ℕ
  pub fuzzy_transpositions : Bool

unfoldable pub default_options : QueryOptions
default_options = record { fuzzy_distance = 1; fuzzy_transpositions = true }

-- `QueryOptions::validate`.
unfoldable pub validate_options : QueryOptions → SearchMode → Result (Unit {0})
unfolding is_fuzzy
validate_options o mode = do
  refuse_if (ltb max_fuzzy_distance o.fuzzy_distance)
      (invalid "fuzzy distance must be between 0 and 2")
  refuse_if (not (is_fuzzy mode) && (not (o.fuzzy_distance == 1) || not o.fuzzy_transpositions))
      (invalid "fuzzy options require fuzzy or fuzzy-prefix mode")

pub record SearchClause : Type 0 where
  pub text : Bytes
  pub mode : SearchMode
  pub options : QueryOptions
  pub fields : List Bytes

-- `Expressions` is the `Vec` of the groups.
mutual
  pub data SearchExpression : Type 0 where
    clause : SearchClause → SearchExpression
    and or : Expressions → SearchExpression
    negate : SearchExpression → SearchExpression
    boost : ℕ → SearchExpression → SearchExpression
    optional : SearchExpression → Expressions → SearchExpression

  pub data Expressions : Type 0 where
    nil : Expressions
    cons : SearchExpression → Expressions → Expressions

unfoldable pub from_list : List SearchExpression → Expressions
from_list [] = nil
from_list (e ∷ es) = cons e (from_list es)

unfoldable pub count : Expressions → ℕ
count nil = 0
count (cons e es) = suc (count es)

unfoldable pub validate_query_limits : ℕ → ℕ → Result (Unit {0})
validate_query_limits terms clauses = do
  refuse_if (terms == 0 || ltb max_configured_query_terms terms)
      (invalid "maxQueryTerms must be between 1 and 1024")
  refuse_if (clauses == 0 || ltb max_configured_query_clauses clauses)
      (invalid "maxQueryClauses must be between 1 and 4096")

-- A boost is the bit pattern of an `f32`.
unfoldable pub validate_query_boost : ℕ → Result (Unit {0})
validate_query_boost value =
    refuse_if (not (f32_is_finite value) || f32_is_sign_negative value || f32_gt_hundred value)
      (invalid "boost must be finite between 0 and 100 without negative zero")

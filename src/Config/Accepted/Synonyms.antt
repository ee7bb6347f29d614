-- ===== src/Config/Accepted/Synonyms.antt =====
-- Synonym rules that `validate_identity_config` of src/protocol.rs accepts, and their bytes.
use fulltext.Prelude.{
  ℕ, ◌+◌, ◌≤◌, ◌≡◌, false, ◌||◌, List, [], ◌∷◌, arith, ltb, length, is_empty, saturating_add,
}
use fulltext.Error.{ok, invalid, refuse_if, through_result}
use fulltext.Text.{Bytes}
use fulltext.Config.{
  SynonymRule, replacement_bytes, synonym_bytes, max_synonym_replacements, max_synonym_bytes,
}

unfoldable pub replacement_total : List Bytes → ℕ
replacement_total [] = 0
replacement_total (r ∷ replacements) = length r + replacement_total replacements

unfoldable pub synonym_total : List SynonymRule → ℕ
unfolding replacement_total
synonym_total [] = 0
synonym_total (rule ∷ rules) =
    length rule.source + replacement_total rule.replacements + synonym_total rules

unfoldable pub AreRules : List SynonymRule → Type 0
AreRules [] = Unit {0}
AreRules (rule ∷ rules) =
    (is_empty rule.source ≡ false)
    × (is_empty rule.replacements ≡ false)
    × (length rule.replacements ≤ max_synonym_replacements)
    × AreRules rules

replacement_bytes-eq-ok :
    (rs : List Bytes) (t n : ℕ)
    → replacement_bytes rs t ≡ ok n
    → n ≤ max_synonym_bytes
    → n ≡ t + replacement_total rs
unfolding replacement_bytes replacement_total saturating_add
replacement_bytes-eq-ok [] t n h few = ground arith
replacement_bytes-eq-ok (r ∷ rs) t n h few =
    through_result (refuse_if (is_empty r) (invalid "synonym replacements must not be empty")) _
      (λ _ e rest.
        let k = replacement_bytes-eq-ok rs (saturating_add t (length r)) n rest few in
        ground (arith, k))
      h

pub synonym_bytes-eq-ok :
    (rules : List SynonymRule) (t n : ℕ)
    → synonym_bytes rules t ≡ ok n
    → n ≤ max_synonym_bytes
    → AreRules rules × (n ≡ t + synonym_total rules)
unfolding synonym_bytes synonym_total AreRules saturating_add
synonym_bytes-eq-ok [] t n h few = (tt, ground arith)
synonym_bytes-eq-ok (rule ∷ rules) t n h few =
    through_result
      (refuse_if
        (is_empty rule.source
          || is_empty rule.replacements
          || ltb max_synonym_replacements (length rule.replacements))
        (invalid "synonym rules require a source and between 1 and 16 replacements"))
      _
      (λ _ e.
        through_result (replacement_bytes rule.replacements (saturating_add t (length rule.source)))
          _
          λ m f rest.
            let (valid, total) = synonym_bytes-eq-ok rules m n rest few in
            let counted =
              replacement_bytes-eq-ok rule.replacements (saturating_add t (length rule.source)) m f
                (omega (arith, total, few)) in
            ((ground arith, ground arith, ground arith, valid), ground (arith, total, counted)))
      h

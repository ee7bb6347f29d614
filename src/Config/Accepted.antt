-- ===== src/Config/Accepted.antt =====
-- What `validate_identity_config` and `validate_config` of src/protocol.rs accept.
pub mod Names
pub mod Synonyms
use fulltext.Prelude.{
  ℕ, zero, suc, ◌+◌, ◌*◌, ◌/◌, ◌≤◌, ◌<◌, ◌≡◌, ◌≢◌, refl, ap, Bool, true, false, ◌||◌, not, List, [],
  ◌∷◌, map, arith, ltb, leb, ◌==◌, length, is_empty,
}
use fulltext.Error.{Result, ok, err, invalid, refuse_if, through_result, ◌>>=◌, ◌>>◌}
use fulltext.Text.{Bytes, text_eq}
use fulltext.Query.{max_configured_query_terms, max_configured_query_clauses, validate_query_limits}
use fulltext.Config.{
  EngineIdentityConfig, EngineConfig, Limits, field_name, filter_field_name, synonym_bytes,
  validate_names, validate_identity_config, validate_config, max_synonym_rules, max_synonym_bytes,
  u32_max, english, min_mutation_batch_bytes,
}
use Names.{AreNames, validate_names-AreNames}
use Synonyms.{AreRules, synonym_total, synonym_bytes-eq-ok}

pub record IsIdentity (c : EngineIdentityConfig) : Type 0 where
  pub index_id : (1 ≤ length c.index_id) × (length c.index_id ≤ 4096)
  pub generation : (1 ≤ length c.generation) × (length c.generation ≤ 4096)
  pub analyzer : text_eq c.analyzer english ≡ true
  pub rules : (length c.synonyms ≤ max_synonym_rules) × AreRules c.synonyms
  pub rule_bytes : synonym_total c.synonyms ≤ max_synonym_bytes
  pub fields : AreNames (map field_name c.fields)
  pub filter_fields : AreNames (map filter_field_name c.filter_fields)

nonempty : (b : Bytes) → is_empty b ≡ false → 1 ≤ length b
unfolding is_empty
nonempty [] h = absurd (cc)
nonempty (x ∷ b) h = omega arith

identity_fields :
    (i g : Bytes)
    → (is_empty i || is_empty g) ≡ false
    → (ltb 4096 (length i) || ltb 4096 (length g)) ≡ false
    → ((1 ≤ length i) × (length i ≤ 4096)) × ((1 ≤ length g) × (length g ≤ 4096))
identity_fields i g h k = ground (arith, nonempty i, nonempty g)

pub validate_identity_config-IsIdentity :
    (c : EngineIdentityConfig) → validate_identity_config c ≡ ok tt → IsIdentity c
unfolding validate_identity_config
validate_identity_config-IsIdentity c =
    through_result
      (refuse_if (is_empty c.index_id || is_empty c.generation)
        (invalid "indexId and generation must not be empty"))
      _
      λ _ e₁.
        through_result
          (refuse_if (ltb 4096 (length c.index_id) || ltb 4096 (length c.generation))
            (invalid "indexId and generation must not exceed 4096 UTF-8 bytes"))
          _
          λ _ e₂.
            through_result
              (refuse_if (not (text_eq c.analyzer english))
                (invalid "only analyzer english@2 is supported"))
              _
              λ _ e₃.
                through_result
                  (refuse_if (ltb max_synonym_rules (length c.synonyms))
                    (invalid "synonyms must not contain more than 1024 rules"))
                  _
                  λ _ e₄. through_result (synonym_bytes c.synonyms 0) _ λ bytes e₅.
                    through_result
                      (refuse_if (ltb max_synonym_bytes bytes)
                        (invalid "synonyms must not exceed 1048576 UTF-8 bytes"))
                      _
                      λ _ e₆.
                        through_result
                          (validate_names
                            "field names must be non-empty, unique, and outside the reserved __fulltext_ namespace"
                            (map field_name c.fields) [])
                          _
                          λ _ e₇ e₈.
                            let ids =
                              identity_fields c.index_id c.generation (ground arith)
                                (ground arith) in
                            let few : bytes ≤ max_synonym_bytes = ground arith in
                            let (rules, total) = synonym_bytes-eq-ok c.synonyms 0 bytes e₅ few in
                            record {
                              index_id = ids.0;
                              generation = ids.1;
                              analyzer = ground arith;
                              rules = (ground arith, rules);
                              rule_bytes = omega (arith, few, total);
                              fields = validate_names-AreNames _ _ [] e₇;
                              filter_fields = validate_names-AreNames _ _ [] e₈;
                            }

-- Limits that the engine can be opened with.
pub record AreLimits (l : Limits) : Type 0 where
  pub terms : (1 ≤ l.max_query_terms) × (l.max_query_terms ≤ max_configured_query_terms)
  pub clauses : (1 ≤ l.max_query_clauses) × (l.max_query_clauses ≤ max_configured_query_clauses)
  pub indexing : (1 ≤ l.indexing_threads) × (l.indexing_threads ≤ 64)
  pub searching : (1 ≤ l.search_threads) × (l.search_threads ≤ 64)
  pub commands : 1 ≤ l.max_queued_commands
  pub memory :
      (15000000 ≤ l.writer_memory_bytes / l.indexing_threads)
      × (l.writer_memory_bytes / l.indexing_threads < u32_max)
  pub batch :
      (min_mutation_batch_bytes ≤ l.max_batch_bytes) × (l.max_batch_bytes ≤ l.max_queued_bytes)

pub record IsConfig (c : EngineConfig) : Type 0 where
  pub identity : IsIdentity c.identity
  pub limits : AreLimits c.limits

query_limits_sound :
    (terms clauses : ℕ)
    → validate_query_limits terms clauses ≡ ok tt
    → ((1 ≤ terms) × (terms ≤ max_configured_query_terms))
      × ((1 ≤ clauses) × (clauses ≤ max_configured_query_clauses))
unfolding validate_query_limits
query_limits_sound terms clauses h = ground arith

-- Where a configuration is accepted, it comes back as it was, its identity is well formed, and its
-- limits are in their ranges.
pub validate_config-IsConfig :
    (c d : EngineConfig) → validate_config c ≡ ok d → (d ≡ c) × IsConfig d
unfolding validate_config
validate_config-IsConfig c d =
    let l = c.limits in
    through_result (validate_identity_config c.identity) _ λ _ e₁.
      through_result (validate_query_limits l.max_query_terms l.max_query_clauses) _ λ _ e₂ h.
        let same : d ≡ c = ground arith in
        let queries = query_limits_sound l.max_query_terms l.max_query_clauses e₂ in
        let limits : AreLimits l = record {
          terms = queries.0;
          clauses = queries.1;
          indexing = ground arith;
          searching = ground arith;
          commands = ground arith;
          memory = ground arith;
          batch = ground arith;
        } in
        (
          same,
          rw same (record {
            identity = validate_identity_config-IsIdentity c.identity e₁;
            limits = limits;
          }),
        )

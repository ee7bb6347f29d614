-- ===== src/Config.antt =====
-- The configuration of src/protocol.rs: the types of an index's identity and limits, and
-- `validate_identity_config` and `validate_config`, which every configuration passes.
pub mod Wire
pub mod Accepted
pub mod Opened
use fulltext.Prelude.{
  ℕ, zero, suc, ◌+◌, ◌/◌, ◌^◌, Bool, true, false, ◌||◌, not, List, [], ◌∷◌, map, ltb, leb, ◌==◌,
  String, length, is_empty, saturating_add,
}
use fulltext.Error.{Result, ok, invalid, invalid_with, number, refuse_if, ◌>>=◌, ◌>>◌}
use fulltext.Text.{Bytes, text_eq, starts_with, contains}
use fulltext.Filter.{FilterFieldConfig}
use fulltext.Query.{validate_query_limits}

abbrev pub max_synonym_rules : ℕ
max_synonym_rules = 1024

abbrev pub max_synonym_replacements : ℕ
max_synonym_replacements = 16

abbrev pub max_synonym_bytes : ℕ
max_synonym_bytes = 2 ^ 20

abbrev pub mutation_batch_header_bytes : ℕ
mutation_batch_header_bytes = 14

abbrev pub min_mutation_batch_bytes : ℕ
min_mutation_batch_bytes = mutation_batch_header_bytes + 10

abbrev pub u32_max : ℕ
u32_max = 4294967295

-- A weight is the bit pattern of an `f32`.
pub record FieldConfig : Type 0 where
  pub name : Bytes
  pub weight : ℕ

pub record Limits : Type 0 where
  pub max_query_terms : ℕ
  pub max_query_clauses : ℕ
  pub indexing_threads : ℕ
  pub search_threads : ℕ
  pub writer_memory_bytes : ℕ
  pub max_queued_commands : ℕ
  pub max_queued_bytes : ℕ
  pub max_batch_bytes : ℕ

pub record RuntimeBudgetLimits : Type 0 where
  pub max_resident_indexes : ℕ
  pub max_indexing_threads : ℕ
  pub max_search_threads : ℕ
  pub max_writer_memory_bytes : ℕ
  pub max_queued_bytes : ℕ
  pub max_expensive_searches : ℕ

pub record SynonymRule : Type 0 where
  pub source : Bytes
  pub replacements : List Bytes

pub record EngineIdentityConfig : Type 0 where
  pub index_id : Bytes
  pub generation : Bytes
  pub fields : List FieldConfig
  pub analyzer : Bytes
  pub stop_words : Bool
  pub positions : Bool
  pub surface_terms : Bool
  pub synonyms : List SynonymRule
  pub filter_fields : List FilterFieldConfig

pub record EngineConfig : Type 0 where
  pub identity : EngineIdentityConfig
  pub limits : Limits

-- "english@2"
abbrev pub english : Bytes
english = b'e' ∷ b'n' ∷ b'g' ∷ b'l' ∷ b'i' ∷ b's' ∷ b'h' ∷ b'@' ∷ b'2' ∷ []

-- "__fulltext_"
abbrev pub reserved : Bytes
reserved = b'_' ∷ b'_' ∷ b'f' ∷ b'u' ∷ b'l' ∷ b'l' ∷ b't' ∷ b'e' ∷ b'x' ∷ b't' ∷ b'_' ∷ []

unfoldable pub replacement_bytes : List Bytes → ℕ → Result ℕ
replacement_bytes [] total = ok total
replacement_bytes (r ∷ replacements) total =
    refuse_if (is_empty r) (invalid "synonym replacements must not be empty")
    >> replacement_bytes replacements (saturating_add total (length r))

-- The loop over the rules, with the bytes counted so far.
unfoldable pub synonym_bytes : List SynonymRule → ℕ → Result ℕ
unfolding replacement_bytes
synonym_bytes [] total = ok total
synonym_bytes (rule ∷ rules) total =
    refuse_if
      (is_empty rule.source
        || is_empty rule.replacements
        || ltb max_synonym_replacements (length rule.replacements))
      (invalid "synonym rules require a source and between 1 and 16 replacements")
    >> (replacement_bytes rule.replacements (saturating_add total (length rule.source))
        >>= λ counted. synonym_bytes rules counted)

-- The loop over names, of text and of filter fields, with the set of names seen.
unfoldable pub validate_names : String → List Bytes → List Bytes → Result (Unit {0})
validate_names message [] seen = ok tt
validate_names message (name ∷ names) seen =
    refuse_if (is_empty name || starts_with name reserved || contains seen name) (invalid message)
    >> validate_names message names (name ∷ seen)

abbrev pub field_name : FieldConfig → Bytes
field_name f = f.name

abbrev pub filter_field_name : FilterFieldConfig → Bytes
filter_field_name f = f.name

unfoldable pub validate_identity_config : EngineIdentityConfig → Result (Unit {0})
unfolding synonym_bytes validate_names
validate_identity_config config = do
  refuse_if (is_empty config.index_id || is_empty config.generation)
      (invalid "indexId and generation must not be empty")
  refuse_if (ltb 4096 (length config.index_id) || ltb 4096 (length config.generation))
      (invalid "indexId and generation must not exceed 4096 UTF-8 bytes")
  refuse_if (not (text_eq config.analyzer english)) (invalid "only analyzer english@2 is supported")
  refuse_if (ltb max_synonym_rules (length config.synonyms))
      (invalid "synonyms must not contain more than 1024 rules")
  bytes ← synonym_bytes config.synonyms 0
  refuse_if (ltb max_synonym_bytes bytes) (invalid "synonyms must not exceed 1048576 UTF-8 bytes")
  validate_names
      "field names must be non-empty, unique, and outside the reserved __fulltext_ namespace"
      (map field_name config.fields) []
  validate_names
      "filter field names must be non-empty, unique, and outside the reserved __fulltext_ namespace"
      (map filter_field_name config.filter_fields) []

-- The division follows the check that there is a thread.
unfoldable pub validate_config : EngineConfig → Result EngineConfig
unfolding validate_identity_config
validate_config config = do
  validate_identity_config config.identity
  let limits = config.limits
  validate_query_limits limits.max_query_terms limits.max_query_clauses
  refuse_if
      (limits.indexing_threads == 0
        || limits.search_threads == 0
        || limits.max_queued_commands == 0)
      (invalid "thread and queue command limits must be greater than zero")
  refuse_if (ltb 64 limits.indexing_threads || ltb 64 limits.search_threads)
      (invalid "thread limits must not exceed 64")
  let per_thread = limits.writer_memory_bytes / limits.indexing_threads
  refuse_if (ltb per_thread 15000000 || leb u32_max per_thread) (
      invalid_with
        "writerMemoryBytes/indexingThreads is {per_thread}; Tantivy requires 15000000..4294967295"
        (number per_thread ∷ []))
  refuse_if
      (ltb limits.max_batch_bytes min_mutation_batch_bytes
        || ltb limits.max_queued_bytes limits.max_batch_bytes)
      (invalid "maxBatchBytes must hold at least one upsert and be no larger than maxQueuedBytes")
  ok config

-- ===== src/Config/Wire.antt =====
-- The packed configurations of src/protocol.rs: `decode_open`, `decode_inspect`, `decode_reset`,
-- `decode_runtime_budget`, and the readers that they call.
use fulltext.Prelude.{ℕ, ◌||◌, not, [], ◌∷◌, ltb, ◌==◌, if◌then◌else◌, is_empty}
use fulltext.Error.{Result, ok, err, bind, invalid, refuse_if}
use fulltext.Float.{f32_is_finite, f32_not_positive}
use fulltext.Text.{Bytes}
use fulltext.Cursor.{
  Parser, new, pure, lift, reject_if, ◌>>=◌, ◌>>◌, u8, u16, u32, u64_usize, f32, boolean, string,
  string_with_budget, remaining, repeat, repeat_with, finish,
}
use fulltext.Query.{max_fields, max_query_terms, max_query_clauses}
use fulltext.Filter.{FilterFieldConfig, FilterFieldType}
use fulltext.Config.{
  FieldConfig, Limits, RuntimeBudgetLimits, SynonymRule, EngineIdentityConfig, EngineConfig,
  max_synonym_rules, max_synonym_replacements, max_synonym_bytes, validate_identity_config,
  validate_config,
}

pub record NativeOpenConfig : Type 0 where
  pub path : Bytes
  pub engine : EngineConfig

pub record NativeInspectConfig : Type 0 where
  pub path : Bytes
  pub identity : EngineIdentityConfig

pub record NativeResetConfig : Type 0 where
  pub path : Bytes
  pub index_id : Bytes

unfoldable pub validate_path : Bytes → Result Bytes
validate_path path =
    bind (refuse_if (is_empty path) (invalid "path must not be empty")) λ _. ok path

-- The budget of the rules' bytes goes in, and what is left of it comes out.
unfoldable pub decode_synonym : ℕ → Parser (SynonymRule × ℕ)
decode_synonym budget = do
  (source, b₁) ← string_with_budget budget
  count ← u16
  reject_if (count == 0 || ltb max_synonym_replacements count)
      (invalid "each synonym rule must contain between 1 and 16 replacements")
  (replacements, b₂) ← repeat_with count string_with_budget b₁
  pure (record { source = source; replacements = replacements }, b₂)

unfoldable pub decode_field : Parser FieldConfig
decode_field = do
  name ← string
  weight ← f32
  reject_if (not (f32_is_finite weight) || f32_not_positive weight)
      (invalid "field weights must be finite and greater than zero")
  pure (record { name = name; weight = weight })

unfoldable pub decode_field_type : ℕ → Result FilterFieldType
decode_field_type value =
    if value == 0
    then ok FilterFieldType.text
    else if value == 1
    then ok FilterFieldType.number
    else if value == 2
    then ok FilterFieldType.boolean
    else err (invalid "unknown filter field type")

unfoldable pub decode_filter_field : Parser FilterFieldConfig
unfolding decode_field_type
decode_filter_field = do
  name ← string
  tag ← u8
  field_type ← lift (decode_field_type tag)
  pure (record { name = name; field_type = field_type })

unfoldable pub decode_engine_identity_config : Parser EngineIdentityConfig
unfolding decode_synonym decode_field decode_filter_field
decode_engine_identity_config = do
  index_id ← string
  generation ← string
  analyzer ← string
  stop_words ← boolean
  positions ← boolean
  surface_terms ← boolean
  synonym_count ← u16
  reject_if (ltb max_synonym_rules synonym_count)
      (invalid "synonyms must not contain more than 1024 rules")
  (synonyms, _) ← repeat_with synonym_count decode_synonym max_synonym_bytes
  field_count ← u16
  reject_if (field_count == 0 || ltb max_fields field_count)
      (invalid "fields must contain between 1 and 1024 entries")
  fields ← repeat field_count decode_field
  filter_field_count ← u16
  reject_if (ltb max_fields filter_field_count)
      (invalid "filterFields must not contain more than 1024 entries")
  filter_fields ← repeat filter_field_count decode_filter_field
  pure (record {
    index_id = index_id;
    generation = generation;
    fields = fields;
    analyzer = analyzer;
    stop_words = stop_words;
    positions = positions;
    surface_terms = surface_terms;
    synonyms = synonyms;
    filter_fields = filter_fields;
  })

-- Query limits that end the request are optional.
unfoldable pub decode_query_limits : Limits → Parser Limits
decode_query_limits limits c =
    let raised : Parser Limits = (do
      terms ← u32
      clauses ← u32
      pure (record limits { max_query_terms = terms; max_query_clauses = clauses })) in
    if not (remaining c == 0) then raised c else ok (limits, c)

unfoldable pub decode_engine_config : Parser EngineConfig
unfolding decode_query_limits
decode_engine_config = do
  identity ← decode_engine_identity_config
  indexing_threads ← u16
  search_threads ← u16
  writer_memory_bytes ← u64_usize
  max_queued_commands ← u32
  max_queued_bytes ← u64_usize
  max_batch_bytes ← u64_usize
  limits ← decode_query_limits (record {
    max_query_terms = max_query_terms;
    max_query_clauses = max_query_clauses;
    indexing_threads = indexing_threads;
    search_threads = search_threads;
    writer_memory_bytes = writer_memory_bytes;
    max_queued_commands = max_queued_commands;
    max_queued_bytes = max_queued_bytes;
    max_batch_bytes = max_batch_bytes;
  })
  lift (validate_config (record { identity = identity; limits = limits }))

-- "FTOP"
abbrev pub open_magic : Bytes
open_magic = b'F' ∷ b'T' ∷ b'O' ∷ b'P' ∷ []

unfoldable pub open_body : Parser NativeOpenConfig
open_body = do
  text ← string
  path ← lift (validate_path text)
  engine ← decode_engine_config
  finish
  pure (record { path = path; engine = engine })

unfoldable pub decode_open : Bytes → Result NativeOpenConfig
decode_open bytes = bind (new bytes open_magic) λ c. bind (open_body c) λ (config, _). ok config

unfoldable pub decode_inspect : Bytes → Result NativeInspectConfig
unfolding validate_path
decode_inspect bytes =
    let body : Parser NativeInspectConfig = (do
      text ← string
      path ← lift (validate_path text)
      identity ← decode_engine_identity_config
      finish
      lift (validate_identity_config identity)
      pure (record { path = path; identity = identity })) in
    bind (new bytes (b'F' ∷ b'T' ∷ b'I' ∷ b'P' ∷ [])) λ c. bind (body c) λ (config, _). ok config

unfoldable pub decode_reset : Bytes → Result NativeResetConfig
unfolding validate_path
decode_reset bytes =
    let body : Parser NativeResetConfig = (do
      text ← string
      path ← lift (validate_path text)
      index_id ← string
      finish
      reject_if (is_empty index_id) (invalid "indexId must not be empty")
      pure (record { path = path; index_id = index_id })) in
    bind (new bytes (b'F' ∷ b'T' ∷ b'R' ∷ b'X' ∷ [])) λ c. bind (body c) λ (config, _). ok config

unfoldable pub read_runtime_budget : Parser RuntimeBudgetLimits
read_runtime_budget = do
  max_resident_indexes ← u32
  max_indexing_threads ← u32
  max_search_threads ← u32
  max_writer_memory_bytes ← u64_usize
  max_queued_bytes ← u64_usize
  max_expensive_searches ← u32
  finish
  reject_if
      (max_resident_indexes == 0
        || max_indexing_threads == 0
        || max_search_threads == 0
        || max_writer_memory_bytes == 0
        || max_queued_bytes == 0
        || max_expensive_searches == 0)
      (invalid "runtime budget limits must be greater than zero")
  pure (record {
    max_resident_indexes = max_resident_indexes;
    max_indexing_threads = max_indexing_threads;
    max_search_threads = max_search_threads;
    max_writer_memory_bytes = max_writer_memory_bytes;
    max_queued_bytes = max_queued_bytes;
    max_expensive_searches = max_expensive_searches;
  })

unfoldable pub decode_runtime_budget : Bytes → Result RuntimeBudgetLimits
unfolding read_runtime_budget
decode_runtime_budget bytes =
    bind (new bytes (b'F' ∷ b'T' ∷ b'G' ∷ b'C' ∷ []))
      λ c. bind (read_runtime_budget c) λ (limits, _). ok limits

-- ===== src/Examples/Opened.antt =====
-- The theorems on packed configurations and batches, applied at concrete inputs.
use fulltext.Prelude.{
  ◌≡◌, ◌≤◌, ◌+◌, ◌*◌, refl, true, false, [], ◌∷◌, ◌++◌, none, length, is_empty, get_range,
}
use fulltext.Error.{ok}
use fulltext.Text.{Bytes, text_eq, is_utf8, starts_with, contains}
use fulltext.Cursor.{
  new, u8, u16, u32, boolean, take_bytes, byte_string, string, from_utf8, from_le_bytes, repeat,
  record_id, validate_record_id, remaining, finish,
}
use fulltext.Query.{validate_query_limits}
use fulltext.Config.{
  EngineConfig, validate_config, validate_identity_config, synonym_bytes, replacement_bytes,
  validate_names, english,
}
use fulltext.Config.Accepted.{IsConfig, validate_config-IsConfig}
use fulltext.Batch.{
  MutationBatch, decode_batch, read_batch, check_counts, decode_upsert, decode_version,
  check_remaining,
}
use fulltext.Batch.Size.{decode_batch-length}
use fulltext.Cursor.{u64, u64_usize, f32, repeat_with}
use fulltext.Float.{f32_is_finite, f32_not_positive}
use fulltext.Config.Wire.{
  NativeOpenConfig, decode_open, open_body, open_magic, validate_path, decode_engine_config,
  decode_engine_identity_config, decode_query_limits, decode_synonym, decode_field,
  decode_filter_field, decode_field_type,
}
use fulltext.Config.Opened.{decode_open-IsConfig}
use fulltext.Examples.{filter_fields}

abbrev config : EngineConfig
config = record {
  identity = record {
    index_id = b'i' ∷ [];
    generation = b'g' ∷ [];
    fields = record { name = b't' ∷ []; weight = 1065353216 } ∷ [];
    analyzer = english;
    stop_words = true;
    positions = true;
    surface_terms = false;
    synonyms = [];
    filter_fields = filter_fields;
  };
  limits = record {
    max_query_terms = 64;
    max_query_clauses = 256;
    indexing_threads = 1;
    search_threads = 2;
    writer_memory_bytes = 15000000;
    max_queued_commands = 16;
    max_queued_bytes = 1048576;
    max_batch_bytes = 65536;
  };
}

config_accepted : validate_config config ≡ ok config
unfolding validate_config validate_identity_config synonym_bytes replacement_bytes validate_names
    validate_query_limits text_eq starts_with contains is_empty
config_accepted = refl

validate_config-IsConfig_example : (config ≡ config) × IsConfig config
validate_config-IsConfig_example = validate_config-IsConfig config config config_accepted

-- One upsert and one delete, as small as they can be.
abbrev packed_batch : Bytes
packed_batch =
    (b'F' ∷ b'T' ∷ b'M' ∷ b'B' ∷ 8 ∷ 0 ∷ 1 ∷ 0 ∷ 0 ∷ 0 ∷ 1 ∷ 0 ∷ 0 ∷ 0 ∷ [])
    ++ (1 ∷ 0 ∷ 0 ∷ 0 ∷ b'a' ∷ 0 ∷ 0 ∷ 0 ∷ 0 ∷ 0 ∷ [])
    ++ (1 ∷ 0 ∷ 0 ∷ 0 ∷ b'b' ∷ [])

abbrev batch : MutationBatch
batch = record {
  upserts = record { id = b'a' ∷ []; version = none; fields = []; filters = [] } ∷ [];
  deletes = (b'b' ∷ []) ∷ [];
}

batch_decodes : decode_batch packed_batch ≡ ok batch
unfolding decode_batch new read_batch check_counts decode_upsert decode_version check_remaining u8
    u16 u32 take_bytes get_range from_le_bytes boolean byte_string string from_utf8 is_utf8
    record_id validate_record_id is_empty repeat remaining finish text_eq
batch_decodes = refl

decode_batch-length_example :
    14 + length batch.upserts * 10 + length batch.deletes * 5 ≤ length packed_batch
decode_batch-length_example = decode_batch-length packed_batch batch batch_decodes

-- The configuration above at the path "p", without query limits.
abbrev packed_open : Bytes
packed_open =
    open_magic
    ++ (8 ∷ 0 ∷ 1 ∷ 0 ∷ 0 ∷ 0 ∷ b'p' ∷ 1 ∷ 0 ∷ 0 ∷ 0 ∷ b'i' ∷ 1 ∷ 0 ∷ 0 ∷ 0 ∷ b'g' ∷ 9 ∷ 0 ∷ 0 ∷ 0
        ∷ [])
    ++ english
    ++ (1 ∷ 1 ∷ 0 ∷ 0 ∷ 0 ∷ 1 ∷ 0 ∷ 1 ∷ 0 ∷ 0 ∷ 0 ∷ b't' ∷ 0 ∷ 0 ∷ 128 ∷ 63 ∷ [])
    ++ (1 ∷ 0 ∷ 1 ∷ 0 ∷ 0 ∷ 0 ∷ b'f' ∷ 0 ∷ 1 ∷ 0 ∷ 2 ∷ 0 ∷ [])
    ++ (192 ∷ 225 ∷ 228 ∷ 0 ∷ 0 ∷ 0 ∷ 0 ∷ 0 ∷ 16 ∷ 0 ∷ 0 ∷ 0 ∷ [])
    ++ (0 ∷ 0 ∷ 16 ∷ 0 ∷ 0 ∷ 0 ∷ 0 ∷ 0 ∷ 0 ∷ 0 ∷ 1 ∷ 0 ∷ 0 ∷ 0 ∷ 0 ∷ 0 ∷ [])

abbrev open_config : NativeOpenConfig
open_config = record { path = b'p' ∷ []; engine = config }

open_decodes : decode_open packed_open ≡ ok open_config
unfolding decode_open open_body validate_path decode_engine_config decode_engine_identity_config
    decode_query_limits decode_synonym decode_field decode_filter_field decode_field_type
    f32_is_finite f32_not_positive validate_config validate_identity_config synonym_bytes
    replacement_bytes validate_names validate_query_limits starts_with contains u8 u16 u32 u64
    u64_usize f32 take_bytes get_range from_le_bytes boolean byte_string string from_utf8 is_utf8
    repeat repeat_with remaining finish text_eq new is_empty
open_decodes = refl

decode_open-IsConfig_example : (1 ≤ length open_config.path) × IsConfig open_config.engine
decode_open-IsConfig_example = decode_open-IsConfig packed_open open_config open_decodes

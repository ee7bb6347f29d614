-- ===== src/Batch.antt =====
-- Mutation batches of src/protocol.rs: `validate_batch_header` and `decode_batch`.
pub mod Size
use fulltext.Cursor
use fulltext.Prelude.{
  ℕ, zero, suc, ◌+◌, ◌*◌, ◌/◌, Bool, true, false, ◌||◌, List, [], ◌∷◌, Option, none, some, ltb,
  length, String, if◌then◌else◌, usize_max,
}
use fulltext.Error.{Result, ok, err, bind, new, invalid, batch_too_large, number, refuse_if}
use fulltext.Text.{Bytes}
use fulltext.Cursor.{
  Cursor, Parser, pure, reject_if, ◌>>=◌, ◌>>◌, u16, u32, boolean, string, record_id, remaining,
  repeat, finish, max_record_version_bytes,
}
use fulltext.Query.{max_fields}
use fulltext.Filter.{FilterValue, decode_filter_value}

pub record Upsert : Type 0 where
  pub id : Bytes
  pub version : Option Bytes
  pub fields : List (Bytes × List Bytes)
  pub filters : List (Bytes × List FilterValue)

pub record MutationBatch : Type 0 where
  pub upserts : List Upsert
  pub deletes : List Bytes

-- "FTMB"
abbrev pub batch_magic : Bytes
batch_magic = b'F' ∷ b'T' ∷ b'M' ∷ b'B' ∷ []

unfoldable pub validate_batch_header : Bytes → ℕ → Result (Unit {0})
validate_batch_header bytes max_batch_bytes =
    let body : Parser (Unit {0}) = (do _ ← u32; _ ← u32; pure tt) in
    bind
      (refuse_if (ltb max_batch_bytes (length bytes)) (
        new batch_too_large "mutation batch is {} bytes; maximum is {max_batch_bytes}"
          (number (length bytes) ∷ number max_batch_bytes ∷ [])))
      λ _. bind (fulltext.Cursor.new bytes batch_magic) λ c. bind (body c) λ _. ok tt

-- The test of a count against the bytes that are left, beside its own limit.
unfoldable pub check_remaining : String → Bool → ℕ → ℕ → Parser (Unit {0})
check_remaining message over count minimum_bytes c =
    reject_if (over || ltb (remaining c / minimum_bytes) count) (invalid message) c

unfoldable pub decode_version : Bool → Parser (Option Bytes)
decode_version present =
    if present
    then (do
      version ← string
      reject_if (ltb max_record_version_bytes (length version))
          (invalid "record versions must not exceed 4096 UTF-8 bytes")
      pure (some version))
    else pure none

unfoldable pub decode_field_values : Parser (Bytes × List Bytes)
unfolding check_remaining
decode_field_values = do
  name ← string
  count ← u16
  check_remaining "value count exceeds the packed batch length" false count 4
  values ← repeat count string
  pure (name, values)

unfoldable pub decode_filter_values : Parser (Bytes × List FilterValue)
unfolding check_remaining
decode_filter_values = do
  name ← string
  count ← u16
  check_remaining "filter value count exceeds the packed batch length" false count 2
  values ← repeat count decode_filter_value
  pure (name, values)

unfoldable pub decode_upsert : Parser Upsert
unfolding decode_version decode_field_values decode_filter_values
decode_upsert = do
  id ← record_id
  present ← boolean
  version ← decode_version present
  field_count ← u16
  reject_if (ltb max_fields field_count) (invalid "upsert field count exceeds 1024")
  check_remaining "upsert field count exceeds the packed batch length" false field_count 6
  fields ← repeat field_count decode_field_values
  filter_count ← u16
  check_remaining "upsert filter count exceeds the packed batch length"
      (ltb max_fields filter_count) filter_count 6
  filters ← repeat filter_count decode_filter_values
  pure (record { id = id; version = version; fields = fields; filters = filters })

-- `checked_mul` and `checked_add`, and what must be left behind the counts.
unfoldable pub check_counts : ℕ → ℕ → Parser (Unit {0})
check_counts upserts deletes c =
    let check : Parser (Unit {0}) = (do
      reject_if
          (ltb usize_max (upserts * 6)
            || ltb usize_max (deletes * 4)
            || ltb usize_max (upserts * 6 + deletes * 4))
          (invalid "mutation count overflow")
      reject_if (ltb (remaining c) (upserts * 6 + deletes * 4))
          (invalid "mutation counts exceed the packed batch length")) in
    check c

unfoldable pub read_batch : Parser MutationBatch
unfolding check_counts decode_upsert
read_batch = do
  upsert_count ← u32
  delete_count ← u32
  check_counts upsert_count delete_count
  upserts ← repeat upsert_count decode_upsert
  check_remaining "delete count exceeds the packed batch length" false delete_count 4
  deletes ← repeat delete_count record_id
  finish
  pure (record { upserts = upserts; deletes = deletes })

unfoldable pub decode_batch : Bytes → Result MutationBatch
unfolding read_batch
decode_batch bytes =
    bind (fulltext.Cursor.new bytes batch_magic) λ c. bind (read_batch c) λ (batch, _). ok batch

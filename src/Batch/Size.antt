-- ===== src/Batch/Size.antt =====
-- How small a packed mutation batch can be: the bound that src/protocol.rs puts on `maxBatchBytes`.
use fulltext.Prelude.{
  ℕ, ◌+◌, ◌*◌, ◌≤◌, ◌≡◌, ap, Bool, false, [], ◌∷◌, arith, ◌||◌, length, ltb, String, usize_max,
  is_empty,
}
use fulltext.Error.{ok, invalid, through_result}
use fulltext.Text.{Bytes}
use fulltext.Cursor.{
  Cursor, new, through, through_lift, through_check, u32, string, byte_string, record_id,
  validate_record_id, remaining, repeat, finish, max_string_bytes,
}
use fulltext.Cursor.Reads.{
  Reads, Advances_trans, Reads-bind, Moves-bind, Reads-pure, Reads-if, Reads-weaken,
  Reads-reject_if, repeat-Reads, u16-Reads, u32-Reads, boolean-Reads, string-Reads, record_id-Reads,
  take_bytes-eq-ok, string-byte_string,
}
use fulltext.Filter.Agree.Clause.{decode_filter_value-Reads}
use fulltext.Query.{max_fields}
use fulltext.Filter.{decode_filter_value}
use fulltext.Query.Decoded.{repeat-length}
use fulltext.Batch.{
  MutationBatch, decode_version, check_remaining, decode_field_values, decode_filter_values,
  decode_upsert, check_counts, read_batch, decode_batch, batch_magic,
}
use fulltext.Config.{mutation_batch_header_bytes}

-- A byte string takes its own bytes and four for their count.
byte_string-length :
    (c d : Cursor) (v : Bytes) → byte_string c ≡ ok (v, d) → c.offset + 4 + length v ≤ d.offset
unfolding byte_string
byte_string-length c d v = through (u32 c) _ λ n c₁ e₁.
    through_check (ltb max_string_bytes n) (invalid "packed byte string exceeds 1 MiB") c₁ _ λ _ h.
      let moved = (u32-Reads.at c n c₁ e₁).forward in
      let (ended, _, size) = take_bytes-eq-ok n c₁ d v h in
      omega (arith, moved, size, ap (λ (q : Cursor). q.offset) ended)

nonempty : (v : Bytes) → validate_record_id v ≡ ok tt → 1 ≤ length v
unfolding validate_record_id is_empty
nonempty [] h = absurd (ground arith)
nonempty (b ∷ v) h = omega arith

id_moves : (c : Cursor) (v : Bytes) (d : Cursor) → record_id c ≡ ok (v, d) → c.offset + 5 ≤ d.offset
unfolding record_id
id_moves c v d = through (string c) _ λ w c₁ e₁.
    through_lift (validate_record_id w) c₁ _ λ _ valid h.
      let end : c₁ ≡ d = cc in
      omega (
        arith,
        byte_string-length c c₁ w (string-byte_string c c₁ w e₁),
        nonempty w valid,
        ap (λ (q : Cursor). q.offset) end,
      )

-- A record ID is not empty, so that it takes five bytes at least.
record_id-Reads_five : Reads 5 record_id
unfolding record_id validate_record_id is_empty
record_id-Reads_five = record {
  at = λ c v d h.
      let wide = record_id-Reads.at c v d h in
      record { same = wide.same; inside = wide.inside; forward = id_moves c v d h };
}

check_remaining-Reads : (m : String) (over : Bool) (n k : ℕ) → Reads 0 (check_remaining m over n k)
unfolding check_remaining
check_remaining-Reads m over n k = record { at = λ c a d h. (Reads-reject_if _ _).at c a d h }

decode_version-Reads : (present : Bool) → Reads 0 (decode_version present)
unfolding decode_version
decode_version-Reads present =
    Reads-if 0 present _ _
      (Moves-bind string-Reads λ v. Moves-bind (Reads-reject_if _ _) λ _. Reads-pure _)
      (Reads-pure _)

field_values-Reads : Reads 6 decode_field_values
unfolding decode_field_values
field_values-Reads = Reads-bind string-Reads λ name. Reads-bind u16-Reads λ n.
    Moves-bind (check_remaining-Reads "value count exceeds the packed batch length" false n 4)
      λ _. Moves-bind (repeat-Reads n 4 string string-Reads) λ values. Reads-pure (name, values)

filter_values-Reads : Reads 6 decode_filter_values
unfolding decode_filter_values
filter_values-Reads = Reads-bind string-Reads λ name. Reads-bind u16-Reads λ n.
    Moves-bind
      (check_remaining-Reads "filter value count exceeds the packed batch length" false n 2)
      λ _.
        Moves-bind (repeat-Reads n 2 decode_filter_value decode_filter_value-Reads)
          λ values. Reads-pure (name, values)

upsert-Reads : Reads 10 decode_upsert
unfolding decode_upsert
upsert-Reads = Reads-bind record_id-Reads_five λ id. Reads-bind boolean-Reads λ present.
    Reads-bind (decode_version-Reads present) λ version. Reads-bind u16-Reads λ n.
      Reads-bind (Reads-reject_if (ltb max_fields n) (invalid "upsert field count exceeds 1024"))
        λ _.
          Reads-bind
            (check_remaining-Reads "upsert field count exceeds the packed batch length" false n 6)
            λ _.
              Reads-bind
                (Reads-weaken 0 (omega arith)
                  (repeat-Reads n 6 decode_field_values field_values-Reads))
                λ fields. Reads-bind u16-Reads λ m.
                  Moves-bind
                    (check_remaining-Reads "upsert filter count exceeds the packed batch length"
                      (ltb max_fields m) m 6)
                    λ _.
                      Moves-bind (repeat-Reads m 6 decode_filter_values filter_values-Reads)
                        λ filters. Reads-pure (record {
                          id = id;
                          version = version;
                          fields = fields;
                          filters = filters;
                        })

new-offset :
    (bytes magic : Bytes) (c : Cursor) → new bytes magic ≡ ok c → (c.bytes ≡ bytes) × (c.offset ≡ 6)
unfolding new
new-offset bytes magic c h = ground arith

check_counts-Reads : (n m : ℕ) → Reads 0 (check_counts n m)
unfolding check_counts
check_counts-Reads n m = record {
  at = λ c a d h.
      (Moves-bind
          (Reads-reject_if
            (ltb usize_max (n * 6) || ltb usize_max (m * 4) || ltb usize_max (n * 6 + m * 4))
            (invalid "mutation count overflow"))
          λ _.
            Reads-reject_if (ltb (remaining c) (n * 6 + m * 4))
              (invalid "mutation counts exceed the packed batch length")).at
        c a d h;
}

-- The counts of the header are the lengths of the lists, and every entry takes its bytes.
read_batch-length :
    (c d : Cursor) (b : MutationBatch)
    → read_batch c ≡ ok (b, d)
    → c.offset ≡ 6
    → mutation_batch_header_bytes + length b.upserts * 10 + length b.deletes * 5 ≤ length c.bytes
unfolding read_batch finish
read_batch-length c d b = through (u32 c) _ λ n c₁ e₁. through (u32 c₁) _ λ m c₂ e₂.
    through (check_counts n m c₂) _ λ _ c₃ e₃.
      through (repeat n decode_upsert c₃) _ λ upserts c₄ e₄.
        through (check_remaining "delete count exceeds the packed batch length" false m 4 c₄) _
          λ _ c₅ e₅. through (repeat m record_id c₅) _ λ deletes c₆ e₆.
            through (finish c₆) _ λ _ c₇ e₇ h start.
              let read = Advances_trans (u32-Reads.at c n c₁ e₁) (
                Advances_trans (u32-Reads.at c₁ m c₂ e₂) (
                  Advances_trans ((check_counts-Reads n m).at c₂ tt c₃ e₃) (
                    Advances_trans
                      ((repeat-Reads n 10 decode_upsert upsert-Reads).at c₃ upserts c₄ e₄)
                      (Advances_trans
                        ((check_remaining-Reads "delete count exceeds the packed batch length" false
                            m 4).at
                          c₄ tt c₅ e₅)
                        ((repeat-Reads m 5 record_id record_id-Reads_five).at c₅ deletes c₆
                          e₆))))) in
              let us = repeat-length n decode_upsert c₃ c₄ upserts e₄ in
              let ds = repeat-length m record_id c₅ c₆ deletes e₆ in
              let built : b ≡ record { upserts = upserts; deletes = deletes } = ground arith in
              let ended : c₆.offset ≡ length c₆.bytes = ground arith in
              rw built (omega (arith, read.forward, ap length read.same, us, ds, ended, start))

-- A packed batch that decodes has ten bytes for each upsert and five for each delete, besides its
-- header of fourteen bytes.
pub decode_batch-length :
    (bytes : Bytes) (batch : MutationBatch)
    → decode_batch bytes ≡ ok batch
    → mutation_batch_header_bytes + length batch.upserts * 10 + length batch.deletes * 5
      ≤ length bytes
unfolding decode_batch read_batch check_counts check_remaining finish
decode_batch-length bytes batch = through_result (new bytes batch_magic) _ λ c e₀.
    through (read_batch c) _ λ b d h e.
      let same : b ≡ batch = ground arith in
      let (whole, start) = new-offset bytes batch_magic c e₀ in
      rw (← same, ← whole) (read_batch-length c d b h start)

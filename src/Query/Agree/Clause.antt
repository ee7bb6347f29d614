-- ===== src/Query/Agree/Clause.antt =====
-- Where a clause decodes, the scanner of src/protocol.rs reads it too, and charges what it costs.
use fulltext.Prelude.{ℕ, zero, suc, ◌*◌, ◌≤◌, ◌≡◌, List, Option, arith, length, saturating_mul}
use fulltext.Error.{ok}
use fulltext.Text.{Bytes}
use fulltext.Cursor.{
  Cursor, lift, ◌>>=◌, u8, u16, byte_string, from_utf8, string, repeat, remaining, through,
  through_lift,
}
use fulltext.Cursor.Reads.{
  Advances, repeat-Reads, string-Reads, byte_string-Reads, u16-Reads, IsInside, Reads-IsInside,
  string-byte_string,
}
use fulltext.Query.{SearchExpression, SearchClause, clause, max_fields}
use fulltext.Query.Structure.{SearchStructureBudget, leaf, visit, check_depth}
use fulltext.Query.Wire.Moves.{search_mode-Reads, decode_query_options-Reads}
use fulltext.Query.Wire.{decode_clause, decode_query_options, decode_search_mode}
use fulltext.Query.Scan.{scan_clause, check_field_count, clause_terms, clause_fields}
use fulltext.Query.Cost.{cost_of, max_terms, construction, has_expensive, is_anchored}

from_utf8-eq : (bytes text : Bytes) → from_utf8 bytes ≡ ok text → text ≡ bytes
unfolding from_utf8
from_utf8-eq bytes text h = ground arith

strings :
    (n : ℕ) (c d : Cursor) (vs : List Bytes)
    → repeat n string c ≡ ok (vs, d)
    → (repeat n byte_string c ≡ ok (vs, d)) × (length vs ≡ n)
unfolding repeat
strings zero c d vs = λ h. ground arith
strings (suc n) c d vs = through (string c) _ λ v c₁ e₁.
    through (repeat n string c₁) _
      λ ws c₂ e₂ h. ground (arith, string-byte_string c c₁ v e₁, strings n c₁ c₂ ws e₂)

visit-leaf :
    (r : SearchClause) (depth : ℕ) (t t' : SearchStructureBudget)
    → visit (clause r) depth t ≡ ok t'
    → leaf (length r.text) (length r.fields) t ≡ ok t'
unfolding visit check_depth
visit-leaf r depth t t' h = ground arith

leaf-fields :
    (n k : ℕ) (t t' : SearchStructureBudget)
    → leaf n k t ≡ ok t'
    → (k ≤ t.fields) × (t'.fields ≡ t.fields)
unfolding leaf
leaf-fields n k t t' h = ground arith

-- Fields that were read leave the scanner's check of their count satisfied.
check_field_count-eq-ok :
    (n : ℕ) (c d : Cursor)
    → n ≤ max_fields
    → c.offset ≤ length c.bytes
    → Advances (n * 4) c d
    → check_field_count n c ≡ ok (tt, c)
unfolding check_field_count remaining
check_field_count-eq-ok n c d fit start read = ground (arith, read.inside start, read.forward)

pub clause_agree :
    (raised : Option ℕ) (depth : ℕ) (s s' t t' : SearchStructureBudget) (c d : Cursor)
    (e : SearchExpression)
    → decode_clause s c ≡ ok ((e, s'), d)
    → visit e depth t ≡ ok t'
    → t.fields ≤ max_fields
    → IsInside c
    → scan_clause raised t c ≡ ok ((cost_of raised e, t'), d)
unfolding decode_clause scan_clause max_terms construction has_expensive is_anchored clause_terms
    clause_fields saturating_mul
clause_agree raised depth s s' t t' c d e = through (byte_string c) _ λ bytes c₁ e₁.
    through (◌>>=◌ u8 (λ value. lift (decode_search_mode value)) c₁) _ λ mode c₂ e₂.
      through (decode_query_options mode c₂) _ λ options c₃ e₃.
        through (u16 c₃) _ λ field_count c₄ e₄.
          through_lift (leaf (length bytes) field_count s) _ _ λ s₁ e₅.
            through_lift (from_utf8 bytes) _ _ λ text e₆.
              through (repeat field_count string c₄) _ λ fields c₅ e₇ h v fit start.
                let w = strings field_count c₄ c₅ fields e₇ in
                let same = from_utf8-eq bytes text e₆ in
                let read = (repeat-Reads field_count 4 string string-Reads).at c₄ fields c₅ e₇ in
                let r : SearchClause = record {
                  text = text;
                  mode = mode;
                  options = options;
                  fields = fields;
                } in
                let is_clause : e ≡ clause r = cc in
                let leafed = visit-leaf r depth t t' (rw is_clause at v) in
                let small = leaf-fields _ _ t t' leafed in
                let leafed' : leaf (length bytes) field_count t ≡ ok t' =
                  rw (← same, ← w.1) leafed in
                let inside = Reads-IsInside u16-Reads c₃ field_count c₄ e₄ (
                  Reads-IsInside (decode_query_options-Reads mode) c₂ options c₃ e₃ (
                    Reads-IsInside search_mode-Reads c₁ mode c₂ e₂
                      (Reads-IsInside byte_string-Reads c bytes c₁ e₁ start))) in
                let checked =
                  check_field_count-eq-ok field_count c₄ c₅ (omega (arith, small.0, w.1)) inside
                    read in
                rw (e₁, e₂, e₃, e₄, checked, leafed', w.0, scan_clause)
                  (rw (is_clause, same, w.1) (cc))

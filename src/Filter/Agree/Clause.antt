-- ===== src/Filter/Agree/Clause.antt =====
-- Where a filter clause decodes, the scanner of src/protocol.rs reads it too.
use fulltext.Prelude.{
  ℕ, zero, suc, ◌+◌, ◌*◌, ◌≤◌, ◌≡◌, Bool, false, ◌||◌, ◌&&◌, List, [], ◌∷◌, Option, arith, length,
  ltb, leb, le→ltb, ◌==◌,
}
use fulltext.Error.{Result, ok, err}
use fulltext.Cursor.{
  Cursor, lift, ◌>>=◌, u8, u16, from_utf8, string, repeat, remaining, through, through_check,
}
use fulltext.Cursor.Reads.{
  Reads, Advances, Reads-bind, Moves-bind, Reads-lift, Reads-pure, Reads-if, Reads-reject,
  Reads-weaken, Reads-reject_if, repeat-Reads, u8-Reads, u16-Reads, boolean-Reads, f64-Reads,
  string-Reads, IsInside, Reads-IsInside, string-byte_string,
}
use fulltext.Query.{max_query_clauses}
use fulltext.Filter.{
  FilterExpression, FilterValue, FilterComparator, clause, decode_comparator, decode_tagged_value,
  decode_filter_value, decode_filter_clause, expected_values, differs, wants_values,
}
use fulltext.Filter.Cost.{is_range, is_expensive, clause_count}
use fulltext.Filter.Scan.{
  scan_tagged_value, scan_filter_value, scan_filter_clause, check_value_count, scan_expected,
}

-- Every value takes two bytes at least.
decode_tagged_value-Reads : (tag : ℕ) → Reads 1 (decode_tagged_value tag)
unfolding decode_tagged_value
decode_tagged_value-Reads tag =
    Reads-if 1 (tag == 0) _ _
      (Reads-weaken 1 (omega arith) (Reads-bind string-Reads λ v. Reads-pure _))
      (Reads-if 1 (tag == 1) _ _
        (Reads-weaken 1 (omega arith)
          (Reads-bind f64-Reads λ v. Moves-bind (Reads-reject_if _ _) λ _. Reads-pure _))
        (Reads-if 1 (tag == 2) _ _ (Reads-bind boolean-Reads λ v. Reads-pure _) (Reads-reject _ 1)))

pub decode_filter_value-Reads : Reads 2 decode_filter_value
unfolding decode_filter_value
decode_filter_value-Reads = Reads-bind u8-Reads decode_tagged_value-Reads

tagged_value_agree :
    (tag : ℕ) (c d : Cursor) (v : FilterValue)
    → decode_tagged_value tag c ≡ ok (v, d)
    → scan_tagged_value tag c ≡ ok (tt, d)
unfolding decode_tagged_value scan_tagged_value string from_utf8
tagged_value_agree tag c d v h = ground arith

value_agree :
    (c d : Cursor) (v : FilterValue)
    → decode_filter_value c ≡ ok (v, d)
    → scan_filter_value c ≡ ok (tt, d)
unfolding decode_filter_value scan_filter_value
value_agree c d v = through (u8 c) _ λ tag c₁ e₁ h. rw e₁ (tagged_value_agree tag c₁ d v h)

values_agree :
    (n : ℕ) (c d : Cursor) (vs : List FilterValue)
    → repeat n decode_filter_value c ≡ ok (vs, d)
    → (us : List (Unit {0})) × (repeat n scan_filter_value c ≡ ok (us, d)) × (length vs ≡ n)
unfolding repeat
values_agree zero c d vs = λ h. ([], ground arith, ground arith)
values_agree (suc n) c d vs = through (decode_filter_value c) _ λ v c₁ e₁.
    through (repeat n decode_filter_value c₁) _ λ ws c₂ e₂ h.
      let (us, r, l) = values_agree n c₁ c₂ ws e₂ in
      (tt ∷ us, ground (arith, value_agree c c₁ v e₁, r), ground (arith, l))

-- The comparator's byte and its meaning ask for as many values, and are expensive alike.
comparator_agree :
    (k : ℕ) (comparator : FilterComparator)
    → decode_comparator k ≡ ok comparator
    → (k ≤ 8)
      × (scan_expected k ≡ expected_values comparator)
      × (ltb k 7 ≡ wants_values (expected_values comparator))
      × (leb 2 k ≡ is_range comparator)
unfolding decode_comparator scan_expected expected_values wants_values is_range
comparator_agree k comparator h = ground arith

-- The test of the decoder on the number of values.
abbrev miscounted : Option ℕ → ℕ → Bool
miscounted expected n =
    n == 0 && wants_values expected || ltb max_query_clauses n || differs expected n

-- Values that were read leave the scanner's check of their count satisfied.
check_value_count-eq-ok :
    (k n : ℕ) (expected : Option ℕ) (c d : Cursor)
    → miscounted expected n ≡ false
    → scan_expected k ≡ expected
    → ltb k 7 ≡ wants_values expected
    → IsInside c
    → Advances (n * 2) c d
    → check_value_count k n c ≡ ok (tt, c)
unfolding check_value_count remaining
check_value_count-eq-ok k n expected c d h e w inside read =
    ground (arith, read.inside inside, read.forward)

lifted {ℓ} :
    {A : Type ℓ} (r : Result A) (c d : Cursor) (a : A) → lift r c ≡ ok (a, d) → (r ≡ ok a) × (c ≡ d)
lifted (ok b) c d a h = (cc, cc)
lifted (err e) c d a h = absurd (cc)

pub comparator-Reads : Reads 1 (u8 >>= λ value. lift (decode_comparator value))
comparator-Reads = Reads-bind u8-Reads λ v. Reads-lift _

pub filter_clause_agree :
    (clauses counted : ℕ) (c d : Cursor) (e : FilterExpression)
    → decode_filter_clause clauses c ≡ ok ((e, counted), d)
    → IsInside c
    → (scan_filter_clause clauses c ≡ ok ((is_expensive e, counted), d))
      × (counted ≡ clauses + clause_count e)
unfolding decode_filter_clause scan_filter_clause is_expensive clause_count
filter_clause_agree clauses counted c d e =
    through_check (ltb max_query_clauses (clauses + 1)) _ _ _ λ few.
      through (string c) _ λ field c₁ e₁.
        through (◌>>=◌ u8 (λ value. lift (decode_comparator value)) c₁) _ λ comparator c₂ e₂.
          through (u16 c₂) _ λ n c₃ e₃.
            through_check (miscounted (expected_values comparator) n) _ _ _ λ counts.
              through (repeat n decode_filter_value c₃) _ λ values c₄ e₄ h inside.
                through (u8 c₁) _
                  (λ k k₂ f₁ f₂.
                    let (f, ended) = lifted (decode_comparator k) k₂ c₂ comparator f₂ in
                    let (small, wanted, some_wanted, costly) = comparator_agree k comparator f in
                    let inside₁ = Reads-IsInside string-Reads c field c₁ e₁ inside in
                    let inside₂ = Reads-IsInside comparator-Reads c₁ comparator c₂ e₂ inside₁ in
                    let inside₃ = Reads-IsInside u16-Reads c₂ n c₃ e₃ inside₂ in
                    let read =
                      (repeat-Reads n 2 decode_filter_value decode_filter_value-Reads).at c₃ values
                        c₄ e₄ in
                    let checked =
                      check_value_count-eq-ok k n (expected_values comparator) c₃ c₄ counts wanted
                        some_wanted inside₃ read in
                    let (us, scanned, all) = values_agree n c₃ c₄ values e₄ in
                    let is_clause : e ≡ clause field comparator values = cc in
                    rw
                      (
                        few,
                        string-byte_string c c₁ field e₁,
                        f₁,
                        le→ltb 8 k small,
                        ended,
                        e₃,
                        checked,
                        scanned,
                        is_clause,
                        costly,
                        all,
                      )
                      (cc, ground arith))
                  e₂

-- ===== src/Request/Budget.antt =====
-- The budget that `search_budget` of src/protocol.rs reads off the end of a packed search, against
-- the one that `decode_search` reads.
use fulltext.Prelude.{
  ℕ, zero, suc, ◌+◌, ◌-◌, ◌≤◌, ◌≡◌, refl, ap, Bool, true, false, ◌||◌, not, List, [], ◌∷◌, none,
  arith, ltb, ◌==◌, if◌then◌else◌, length, take, drop, get_range, length-drop,
}
use fulltext.Error.{ok, invalid, through_result}
use fulltext.Float.{f32_is_finite}
use fulltext.Text.{Bytes}
use fulltext.Cursor.{
  Cursor, pure, new, through, through_lift, through_check, u32, boolean, finish, take_bytes,
  from_le_bytes, remaining,
}
use fulltext.Cursor.Reads.{
  Reads, Advances, Moves-bind, Reads-pure, Reads-if, Reads-weaken, Reads-reject_if, u32-Reads,
  f32-Reads, boolean-Reads, string-Reads, record_id-Reads, take_bytes-eq-ok,
}
use fulltext.Query.Wire.{decode_search_expression, expression_fuel}
use fulltext.Query.Wire.Moves.{decode_search_expression-Moves}
use fulltext.Query.{max_configured_query_clauses, max_fields}
use fulltext.Query.Structure
use fulltext.Filter.Agree.{decode_filter_expression-Moves}
use fulltext.Catalog.{decode_catalog}
use fulltext.Catalog.Moves.{catalog-Moves}
use fulltext.Request.{
  SearchRequest, max_search_budget_milliseconds, is_snapshot, validate_search_admission,
}
use fulltext.Request.Wire.{
  decode_boundary, decode_traversal_flag, boolean_if, decode_search_traversal, decode_filter,
  filter_fuel, decode_candidates, read_budget, read_search, decode_search, search_magic,
}
use fulltext.Request.Agree.{decode_candidates-Moves}
use fulltext.Request.Header.{search_budget}

filter-Moves : (filtered : Bool) → Reads 0 (decode_filter filtered)
unfolding decode_filter
filter-Moves filtered =
    Reads-if 0 filtered _ _
      (Moves-bind (decode_filter_expression-Moves filter_fuel 0 0) λ (e, n). Reads-pure _)
      (Reads-pure _)

boundary-Moves : Reads 0 decode_boundary
unfolding decode_boundary
boundary-Moves = Moves-bind string-Reads λ s. Moves-bind f32-Reads λ x.
    Moves-bind record_id-Reads λ id.
      Moves-bind
        (Reads-reject_if (not (is_snapshot s) || not (f32_is_finite x))
          (invalid "invalid search continuation boundary"))
        λ _. Reads-pure _

-- The flag is read or taken to be false; the cursor moves forward either way.
flag_advances :
    (present : Bool) (c : Cursor) (a : Bool) (d : Cursor)
    → (if present then boolean c else ok (false, c)) ≡ ok (a, d)
    → Advances 0 c d
flag_advances true c a d h = (Reads-weaken 0 (omega arith) boolean-Reads).at c a d h
flag_advances false c a d h = (Reads-pure false).at c a d h

flag-Moves : Reads 0 decode_traversal_flag
unfolding decode_traversal_flag
flag-Moves = record { at = λ c a d h. flag_advances (ltb 4 (remaining c)) c a d h }

traversal-Moves : Reads 0 decode_search_traversal
unfolding decode_search_traversal boolean_if
traversal-Moves = Moves-bind flag-Moves λ t.
    Moves-bind
      (Reads-if 0 t boolean (pure false) (Reads-weaken 0 (omega arith) boolean-Reads)
        (Reads-pure false))
      λ b. Moves-bind (Reads-if 0 b _ _ boundary-Moves (Reads-pure none)) λ after. Reads-pure _

take-all {ℓ} : {A : Type ℓ} (n : ℕ) (xs : List A) → length xs ≤ n → take n xs ≡ xs
unfolding take
take-all zero [] h = refl
take-all zero (x ∷ xs) h = absurd (omega arith)
take-all (suc n) [] h = refl
take-all (suc n) (x ∷ xs) h = ap (λ ys. x ∷ ys) (take-all n xs (omega arith))

-- What `take` returns is the range of the bytes at the cursor.
take_bytes-get_range :
    (n : ℕ) (c d : Cursor) (v : Bytes)
    → take_bytes n c ≡ ok (v, d)
    → v ≡ take (c.offset + n - c.offset) (drop c.offset c.bytes)
unfolding take_bytes get_range
take_bytes-get_range n c d v h = ground arith

-- A number of 32 bits that ends the bytes is made of the last four.
last_four :
    (c d : Cursor) (n : ℕ)
    → u32 c ≡ ok (n, d)
    → d.offset ≡ length d.bytes
    → (from_le_bytes (drop (length c.bytes - 4) c.bytes) ≡ n)
      × (length (drop (length c.bytes - 4) c.bytes) ≡ 4)
unfolding u32
last_four c d n = through (take_bytes 4 c) _ λ v c₁ e₁ h ended.
    let (moved, _, _) = take_bytes-eq-ok 4 c c₁ v e₁ in
    let same : c₁ ≡ d = cc in
    let start : c.offset ≡ length c.bytes - 4 = omega (
      arith,
      ap (λ (q : Cursor). q.offset) moved,
      ap (λ (q : Cursor). length q.bytes) moved,
      ap (λ (q : Cursor). q.offset) same,
      ap (λ (q : Cursor). length q.bytes) same,
      ended,
    ) in
    let inside : 4 ≤ length c.bytes = omega (
      arith,
      ap (λ (q : Cursor). q.offset) moved,
      ap (λ (q : Cursor). length q.bytes) moved,
      ap (λ (q : Cursor). q.offset) same,
      ap (λ (q : Cursor). length q.bytes) same,
      ended,
    ) in
    let four : length (drop (length c.bytes - 4) c.bytes) ≡ 4 =
      omega (arith, length-drop (length c.bytes - 4) c.bytes, inside) in
    let whole : v ≡ take 4 (drop c.offset c.bytes) =
      (let size : c.offset + 4 - c.offset ≡ 4 = omega arith in
        rw (← size) (take_bytes-get_range 4 c c₁ v e₁)) in
    let read : v ≡ drop (length c.bytes - 4) c.bytes =
      cc (whole, start, take-all 4 (drop (length c.bytes - 4) c.bytes) (omega (arith, four))) in
    (ground (arith, read), four)

-- The reading ends with the budget: the last four bytes, in range.
budget_ends :
    (c d : Cursor) (n : ℕ)
    → read_budget c ≡ ok (n, d)
    → (from_le_bytes (drop (length c.bytes - 4) c.bytes) ≡ n)
      × (length (drop (length c.bytes - 4) c.bytes) ≡ 4)
      × ((n == 0 || ltb max_search_budget_milliseconds n) ≡ false)
unfolding read_budget finish
budget_ends c d n = through (u32 c) _ λ m c₁ e₁. through (finish c₁) _ λ _ c₂ e₂.
    through_check (m == 0 || ltb max_search_budget_milliseconds m)
      (invalid "search budget must be between 1 and 30000 milliseconds") c₂ _
      λ sized h.
        let same : m ≡ n = ground arith in
        let ended : c₁.offset ≡ length c₁.bytes = ground arith in
        let (read, four) = last_four c c₁ m e₁ ended in (cc (read, same), four, rw (← same) sized)

-- The budget of a search that was read is made of the last four bytes.
search_ends :
    (c d : Cursor) (r : SearchRequest)
    → read_search c ≡ ok (r, d)
    → (from_le_bytes (drop (length c.bytes - 4) c.bytes) ≡ r.budget_milliseconds)
      × (length (drop (length c.bytes - 4) c.bytes) ≡ 4)
      × ((r.budget_milliseconds == 0 || ltb max_search_budget_milliseconds r.budget_milliseconds)
          ≡ false)
unfolding read_search
search_ends c d r =
    through_lift (fulltext.Query.Structure.new max_configured_query_clauses max_fields) c _ λ s _.
      through (decode_search_expression expression_fuel 0 s c) _ λ e c₁ e₁.
        through (decode_candidates c₁) _ λ ids c₂ e₂. through (boolean c₂) _ λ filtered c₃ e₃.
          through (decode_filter filtered c₃) _ λ filter c₄ e₄.
            through (decode_catalog c₄) _ λ cat c₅ e₅. through (u32 c₅) _ λ offset c₆ e₆.
              through (u32 c₆) _ λ limit c₇ e₇. through (boolean c₇) _ λ exact c₈ e₈.
                through (decode_search_traversal c₈) _ λ t c₉ e₉.
                  through (read_budget c₉) _ λ n c₁₀ e₁₀ h.
                    let same : n ≡ r.budget_milliseconds = ground arith in
                    let bytes : c₉.bytes ≡ c.bytes = cc (
                      ((decode_search_expression-Moves expression_fuel 0 s).at c e c₁ e₁).same,
                      (decode_candidates-Moves.at c₁ ids c₂ e₂).same,
                      (boolean-Reads.at c₂ filtered c₃ e₃).same,
                      ((filter-Moves filtered).at c₃ filter c₄ e₄).same,
                      (catalog-Moves.at c₄ cat c₅ e₅).same,
                      (u32-Reads.at c₅ offset c₆ e₆).same,
                      (u32-Reads.at c₆ limit c₇ e₇).same,
                      (boolean-Reads.at c₇ exact c₈ e₈).same,
                      (traversal-Moves.at c₈ t c₉ e₉).same,
                    ) in
                    rw (← same, ← bytes) (budget_ends c₉ c₁₀ n e₁₀)

new-bytes : (bytes magic : Bytes) (c : Cursor) → new bytes magic ≡ ok c → c.bytes ≡ bytes
unfolding new
new-bytes bytes magic c h = ground arith

-- Where a packed search decodes, the budget read off its end beforehand succeeds, and it is the
-- budget of the request.
pub search_budget-decode_search :
    (bytes : Bytes) (r : SearchRequest)
    → decode_search bytes ≡ ok r
    → search_budget bytes ≡ ok r.budget_milliseconds
unfolding decode_search search_budget
search_budget-decode_search bytes r = through_result (new bytes search_magic) _ λ c e.
    through (read_search c) _ λ q d f. through_result (validate_search_admission q) _ λ _ _ h.
      let same : q ≡ r = ground arith in
      let (read, four, sized) = search_ends c d r (rw (← same) f) in
      let source = new-bytes bytes search_magic c e in
      let last : from_le_bytes (drop (length bytes - 4) bytes) ≡ r.budget_milliseconds =
        rw (← source) read in
      let short : length (drop (length bytes - 4) bytes) ≡ 4 = rw (← source) four in
      rw (e, short, last, sized) refl

-- ===== src/Request/Agree.antt =====
-- The classification of a packed search, `classify_search` of src/protocol.rs, against the request
-- that `decode_search` makes of it.
use fulltext.Prelude.{
  ℕ, zero, suc, ◌+◌, ◌/◌, ◌≤◌, ◌≡◌, refl, ap, Bool, true, false, ◌||◌, not, List, [], ◌∷◌, Option,
  none, some, arith, ltb, length, usize_max,
}
use fulltext.Error.{Result, ok, bind, invalid, through_result}
use fulltext.Text.{Bytes}
use fulltext.Cursor.{
  Cursor, new, through, through_lift, through_check, u32, boolean, byte_string, string, record_id,
  repeat, repeat_with, remaining,
}
use fulltext.Cursor.Reads.{
  Reads, Moves-bind, Reads-if, Reads-pure, Reads-reject_if, Reads-weaken, boolean-Reads, u16-Reads,
  record_id-Reads, repeat_with-Moves, IsInside, Reads-IsInside, string-byte_string,
}
use fulltext.Query.{
  SearchExpression, validate_query_limits, max_fields, max_query_clauses, max_query_terms,
  max_configured_query_clauses,
}
use fulltext.Query.Structure.{SearchStructureBudget, validate_search_structure, visit}
use fulltext.Query.Structure
use fulltext.Query.Structure.Bounds.{new-eq-ok}
use fulltext.Query.Wire.{decode_search_expression, expression_fuel}
use fulltext.Query.Wire.Moves.{decode_search_expression-Moves}
use fulltext.Query.Scan.{scan_search_expression}
use fulltext.Query.Cost.{cost_of}
use fulltext.Query.Agree.{scan-decode}
use fulltext.Filter.{FilterExpression, decode_filter_expression}
use fulltext.Filter.Cost.{is_expensive, clause_count}
use fulltext.Filter.Agree.{scan_filter-decode_filter}
use fulltext.Catalog.{decode_catalog}
use fulltext.Catalog.Agree.{NamesFit, scan_catalog-decode_catalog}
use fulltext.Request.{
  SearchRequest, max_candidate_ids, max_candidate_bytes, has_catalog, validate_search_admission,
}
use fulltext.Request.Wire.{
  decode_candidates, candidate_count, check_candidate_count, read_candidate, decode_filter,
  filter_fuel, decode_search_traversal, read_budget, read_search, decode_search, search_magic,
}
use fulltext.Request.Classify.{
  scan_candidates, check_scanned_candidates, scan_filter, raised_profile_fields, is_over_default,
  scan_search, classify_search,
}

-- What makes a search expensive, read off the request.
pub filter_is_expensive : Option FilterExpression → Bool
filter_is_expensive none = false
filter_is_expensive (some e) = is_expensive e || ltb 16 (clause_count e)

pub search_is_costly : Option ℕ → SearchRequest → Bool
unfolding filter_is_expensive
search_is_costly raised r =
    let cost = cost_of raised r.expression in
    r.traversal
    || has_catalog r
    || is_over_default raised cost
    || cost.has_expensive_mode
    || not cost.has_positive_anchor
    || filter_is_expensive r.filter
    || r.exact_total

record_id-byte_string :
    (c d : Cursor) (v : Bytes) → record_id c ≡ ok (v, d) → byte_string c ≡ ok (v, d)
unfolding record_id
record_id-byte_string c d v =
    through (string c) _ λ w c₁ e₁ h. let read = string-byte_string c c₁ w e₁ in ground arith

candidates_loop_agree :
    (n t t' : ℕ) (c d : Cursor) (ids : List Bytes)
    → repeat_with n read_candidate t c ≡ ok ((ids, t'), d)
    → (us : List Bytes) × (repeat n byte_string c ≡ ok (us, d))
unfolding repeat_with repeat read_candidate
candidates_loop_agree zero t t' c d ids = λ h. ([], ground arith)
candidates_loop_agree (suc n) t t' c d ids = through (read_candidate t c) _ λ (id, k) c₁ e₁.
    through (repeat_with n read_candidate k c₁) _ λ (more, m) c₂ e₂ h.
      let (us, r) = candidates_loop_agree n k m c₁ c₂ more e₂ in
      let read =
        through (record_id c) _ (λ v c' e g. record_id-byte_string c c₁ id (ground arith)) e₁ in
      (id ∷ us, rw (read, r) (cc))

read_candidate-Moves : (t : ℕ) → Reads 0 (read_candidate t)
unfolding read_candidate
read_candidate-Moves t = Moves-bind record_id-Reads λ id.
    Moves-bind
      (Reads-reject_if (ltb usize_max (t + length id)) (invalid "candidate ID byte count overflow"))
      λ _.
        Moves-bind
          (Reads-reject_if (ltb max_candidate_bytes (t + length id))
            (invalid "candidate IDs exceed 1048576 UTF-8 bytes"))
          λ _. Reads-pure (id, t + length id)

check_candidate_count-Moves : (n : ℕ) → Reads 0 (check_candidate_count n)
unfolding check_candidate_count
check_candidate_count-Moves n = record { at = λ c a d h. (Reads-reject_if _ _).at c a d h }

candidate_count-Moves : (has : Bool) → Reads 0 (candidate_count has)
unfolding candidate_count
candidate_count-Moves has =
    Reads-if 0 has _ _ (Reads-weaken 0 (omega arith) u16-Reads) (Reads-pure 0)

pub decode_candidates-Moves : Reads 0 decode_candidates
unfolding decode_candidates
decode_candidates-Moves = Moves-bind boolean-Reads λ has.
    Moves-bind (candidate_count-Moves has) λ n. Moves-bind (Reads-reject_if _ _) λ _.
      Moves-bind (check_candidate_count-Moves n) λ _.
        Moves-bind (repeat_with-Moves n read_candidate 0 read_candidate-Moves)
          λ (ids, t). Reads-pure _

candidates_agree :
    (c d : Cursor) (ids : Option (List Bytes))
    → decode_candidates c ≡ ok (ids, d)
    → scan_candidates c ≡ ok (tt, d)
unfolding decode_candidates scan_candidates check_candidate_count check_scanned_candidates
candidates_agree c d ids = through (boolean c) _ λ has c₁ e₁.
    through (candidate_count has c₁) _ λ n c₂ e₂.
      through_check (ltb max_candidate_ids n) _ _ _ λ few.
        through_check (ltb (remaining c₂ / 4) n) _ c₂ _ λ enough.
          through (repeat_with n read_candidate 0 c₂) _ λ (read, t) c₃ e₃ h.
            let (us, r) = candidates_loop_agree n 0 t c₂ c₃ read e₃ in
            rw (e₁, e₂, few, enough, r) (cc)

filter_agree :
    (filtered : Bool) (c d : Cursor) (filter : Option FilterExpression)
    → decode_filter filtered c ≡ ok (filter, d)
    → IsInside c
    → scan_filter filtered c ≡ ok (filter_is_expensive filter, d)
unfolding decode_filter scan_filter filter_is_expensive
filter_agree false c d filter = λ h inside. ground arith
filter_agree true c d filter =
    through (decode_filter_expression filter_fuel 0 0 c) _ λ (e, n) c₁ e₁ h inside.
      let both = scan_filter-decode_filter filter_fuel 0 0 n c c₁ e e₁ inside in
      rw both.0 (ground (arith, both.1))

request_of :
    {c d : Cursor} {q r : SearchRequest}
    → ◌≡◌ {A = Result (SearchRequest × Cursor)} (ok (q, c)) (ok (r, d))
    → q ≡ r
request_of h = cc

new-IsInside : (bytes magic : Bytes) (c : Cursor) → new bytes magic ≡ ok c → IsInside c
unfolding new
new-IsInside bytes magic c h = ground arith

-- Where the two walks are before and behind the parts that both read.
module _ (raised : Option ℕ) (schema_fields clauses : ℕ) (few : schema_fields ≤ max_fields) where
  expression_agree :
      (c d : Cursor) (s s' : SearchStructureBudget) (e : SearchExpression)
      → decode_search_expression expression_fuel 0 s c ≡ ok ((e, s'), d)
      → validate_search_structure e clauses schema_fields ≡ ok tt
      → IsInside c
      → (t t' : SearchStructureBudget) × (fulltext.Query.Structure.new clauses schema_fields ≡ ok t)
        × (scan_search_expression raised expression_fuel 0 t c ≡ ok ((cost_of raised e, t'), d))
  unfolding validate_search_structure
  expression_agree c d s s' e h v inside =
      through_result (fulltext.Query.Structure.new clauses schema_fields) _
        (λ t n. through_result (visit e 0 t) _ λ t' w _.
          let fields : t.fields ≤ max_fields = omega (
            arith,
            ap (λ (b : SearchStructureBudget). b.fields) (new-eq-ok clauses schema_fields t n).2,
            few,
          ) in
          (t, t', n, scan-decode raised expression_fuel 0 s s' t t' c d e h w fields inside))
        v

  search_agree :
      (c d : Cursor) (r : SearchRequest)
      → read_search c ≡ ok (r, d)
      → validate_search_structure r.expression clauses schema_fields ≡ ok tt
      → NamesFit r.aggregations
      → IsInside c
      → bind (scan_search raised schema_fields clauses c) (λ (expensive, _). ok expensive)
        ≡ ok (search_is_costly raised r)
  unfolding read_search scan_search search_is_costly
  search_agree c d r =
      through_lift (fulltext.Query.Structure.new max_configured_query_clauses max_fields) c _
        λ s e₀. through (decode_search_expression expression_fuel 0 s c) _ λ (e, s') c₁ e₁.
          through (decode_candidates c₁) _ λ ids c₂ e₂. through (boolean c₂) _ λ filtered c₃ e₃.
            through (decode_filter filtered c₃) _ λ filter c₄ e₄.
              through (decode_catalog c₄) _ λ (sort, aggregations) c₅ e₅.
                through (u32 c₅) _ λ offset c₆ e₆. through (u32 c₆) _ λ limit c₇ e₇.
                  through (boolean c₇) _ λ exact c₈ e₈.
                    through (decode_search_traversal c₈) _ λ (traversal, after) c₉ e₉.
                      let read : ℕ → SearchRequest = λ budget. record {
                        sort = sort;
                        aggregations = aggregations;
                        expression = e;
                        candidate_ids = ids;
                        filter = filter;
                        offset = offset;
                        limit = limit;
                        exact_total = exact;
                        budget_milliseconds = budget;
                        traversal = traversal;
                        after = after;
                      } in
                      through (read_budget c₉) (λ (budget, rest). ok (read budget, rest))
                        λ budget c₁₀ e₁₀ h valid named inside.
                          let same : read budget ≡ r = request_of h in
                          let (t, t', n, scanned) =
                            expression_agree c c₁ s s' e e₁
                              (rw (ap (λ (q : SearchRequest). q.expression) same) valid) inside in
                          let inside₁ =
                            Reads-IsInside (decode_search_expression-Moves expression_fuel 0 s) c
                              (e, s') c₁ e₁ inside in
                          let inside₂ =
                            Reads-IsInside decode_candidates-Moves c₁ ids c₂ e₂ inside₁ in
                          let inside₃ = Reads-IsInside boolean-Reads c₂ filtered c₃ e₃ inside₂ in
                          let names : NamesFit aggregations =
                            rw (ap (λ (q : SearchRequest). q.aggregations) same) named in
                          rw
                            (
                              n,
                              scanned,
                              candidates_agree c₁ c₂ ids e₂,
                              e₃,
                              filter_agree filtered c₃ c₄ filter e₄ inside₃,
                              scan_catalog-decode_catalog c₄ c₅ sort aggregations e₅ names,
                              e₆,
                              e₇,
                              e₈,
                              e₉,
                            )
                            (ap (λ q. ok (search_is_costly raised q)) same)

-- Where a packed search decodes, the query limits are valid and the schema has at most 1024 fields, the
-- expression fits both, and the names of the aggregations are in order, the classification succeeds,
-- and its answer is read off the request.
pub classify_search-decode_search :
    (bytes : Bytes) (schema_fields terms clauses : ℕ) (r : SearchRequest)
    → decode_search bytes ≡ ok r
    → validate_query_limits terms clauses ≡ ok tt
    → schema_fields ≤ max_fields
    → validate_search_structure r.expression clauses schema_fields ≡ ok tt
    → NamesFit r.aggregations
    → classify_search bytes schema_fields terms clauses
      ≡ ok (search_is_costly (raised_profile_fields schema_fields terms clauses) r)
unfolding decode_search classify_search
classify_search-decode_search bytes schema_fields terms clauses r =
    through_result (new bytes search_magic) _ λ c e. through (read_search c) _ λ q d f.
      through_result (validate_search_admission q) _ λ _ _ h limits few valid named.
        let same : q ≡ r = ground arith in
        let scanned =
          search_agree (raised_profile_fields schema_fields terms clauses) schema_fields clauses few
            c d r (rw (← same) f) valid named (new-IsInside bytes search_magic c e) in
        rw (limits, e, scanned) refl

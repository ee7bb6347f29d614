-- ===== src/Request/Accepted.antt =====
-- What `validate_search_admission` of src/request_validation.rs accepts.
use fulltext.Prelude.{
  ℕ, ◌+◌, ◌≤◌, ◌≡◌, ◌↔◌, refl, Bool, true, false, List, [], ◌∷◌, Option, none, some, arith, ltb,
  is_empty, length, saturating_add,
}
use fulltext.Error.{ok, bind-eq-ok, through_result, refuse_if, invalid}
use fulltext.Float.{f32_is_finite}
use fulltext.Text.{Bytes}
use fulltext.Cursor.{validate_record_id, max_record_id_bytes}
use fulltext.Query.{max_configured_query_clauses, max_fields}
use fulltext.Query.Structure.{validate_search_structure}
use fulltext.Query.Options.{validate_expression_options}
use fulltext.Query.Options.Fit.{AllOptionsFit, has_prefix, options_complete, options_sound}
use fulltext.Request.{
  SearchRequest, SearchBoundary, validate_search_window, check_window, validate_candidates,
  validate_candidate_ids, validate_boundary, is_snapshot, validate_prefix_window,
  validate_search_admission, has_catalog, max_candidate_ids, max_candidate_bytes, max_search_window,
  max_search_page_size, max_autocomplete_results,
}

-- A page of a traversal starts at its boundary; other searches see a window of the results.
pub record IsWindow (offset limit : ℕ) (traversal : Bool) : Type 0 where
  pub positive : 1 ≤ limit
  pub page : traversal ≡ true → (offset ≡ 0) × (limit ≤ max_search_page_size)
  pub window : traversal ≡ false → offset + limit ≤ max_search_window

window_complete :
    (offset limit : ℕ) (traversal has : Bool)
    → IsWindow offset limit traversal
    → validate_search_window offset limit traversal has ≡ ok tt
unfolding validate_search_window check_window
window_complete offset limit true has w = let p = w.page refl in ground (arith, w.positive)
window_complete offset limit false has w = let p = w.window refl in ground (arith, w.positive)

validate_search_window-IsWindow :
    (offset limit : ℕ) (traversal has : Bool)
    → validate_search_window offset limit traversal has ≡ ok tt
    → IsWindow offset limit traversal
unfolding validate_search_window check_window
validate_search_window-IsWindow offset limit true has h = record {
  positive = ground arith;
  page = λ _. ground arith;
  window = λ b. absurd (cc);
}
validate_search_window-IsWindow offset limit false has h = record {
  positive = ground arith;
  page = λ b. absurd (cc);
  window = λ _. ground arith;
}

-- The bytes of all candidates.
unfoldable pub total_bytes : List Bytes → ℕ
total_bytes [] = 0
total_bytes (id ∷ ids) = length id + total_bytes ids

unfoldable pub AreRecordIds : List Bytes → Type 0
AreRecordIds [] = Unit {0}
AreRecordIds (id ∷ ids) = (1 ≤ length id) × (length id ≤ max_record_id_bytes) × AreRecordIds ids

pub record_id_complete :
    (id : Bytes) → 1 ≤ length id → length id ≤ max_record_id_bytes → validate_record_id id ≡ ok tt
unfolding validate_record_id is_empty
record_id_complete [] some_byte few = absurd (omega arith)
record_id_complete (b ∷ id) some_byte few = ground arith

pub record_id_sound :
    (id : Bytes)
    → validate_record_id id ≡ ok tt
    → (1 ≤ length id) × (length id ≤ max_record_id_bytes)
unfolding validate_record_id is_empty
record_id_sound [] h = absurd (cc)
record_id_sound (b ∷ id) h = ground arith

candidate_ids_complete :
    (ids : List Bytes) (bytes : ℕ)
    → AreRecordIds ids
    → bytes + total_bytes ids ≤ max_candidate_bytes
    → validate_candidate_ids ids bytes ≡ ok tt
unfolding validate_candidate_ids AreRecordIds total_bytes saturating_add
candidate_ids_complete [] bytes valid few = refl
candidate_ids_complete (id ∷ ids) bytes (some_byte, short, valid) few =
    rw (record_id_complete id some_byte short)
      (ground (arith, candidate_ids_complete ids (bytes + length id) valid))

candidate_ids_sound :
    (ids : List Bytes) (bytes : ℕ)
    → bytes ≤ max_candidate_bytes
    → validate_candidate_ids ids bytes ≡ ok tt
    → AreRecordIds ids × (bytes + total_bytes ids ≤ max_candidate_bytes)
unfolding validate_candidate_ids AreRecordIds total_bytes saturating_add
candidate_ids_sound [] bytes few = λ h. (tt, ground arith)
candidate_ids_sound (id ∷ ids) bytes few =
    λ h. ground (arith, record_id_sound id, candidate_ids_sound ids (bytes + length id))

unfoldable pub AreCandidates : Option (List Bytes) → Type 0
AreCandidates none = Unit {0}
AreCandidates (some ids) =
    (length ids ≤ max_candidate_ids) × AreRecordIds ids × (total_bytes ids ≤ max_candidate_bytes)

candidates_complete :
    (ids : Option (List Bytes)) → AreCandidates ids → validate_candidates ids ≡ ok tt
unfolding AreCandidates validate_candidates
candidates_complete none w = refl
candidates_complete (some ids) (few, valid, short) =
    ground (arith, few, candidate_ids_complete ids 0 valid (omega (arith, short)))

candidates_sound : (ids : Option (List Bytes)) → validate_candidates ids ≡ ok tt → AreCandidates ids
unfolding AreCandidates validate_candidates
candidates_sound none = λ h. tt
candidates_sound (some ids) =
    through_result
      (refuse_if (ltb max_candidate_ids (length ids)) (invalid "candidate ID count exceeds 1024")) _
      λ _ few rest.
        let (valid, short) = candidate_ids_sound ids 0 (omega arith) rest in
        (ground arith, valid, omega (arith, short))

-- A continuation is after a record, at a finite score, of a snapshot named in lower-case hex.
unfoldable pub IsBoundary : Option SearchBoundary → Type 0
IsBoundary none = Unit {0}
IsBoundary (some after) =
    (1 ≤ length after.id)
    × (length after.id ≤ max_record_id_bytes)
    × (f32_is_finite after.score ≡ true)
    × (is_snapshot after.snapshot ≡ true)

boundary_complete :
    (after : Option SearchBoundary) → IsBoundary after → validate_boundary after ≡ ok tt
unfolding IsBoundary validate_boundary
boundary_complete none w = refl
boundary_complete (some after) (some_byte, short, finite, named) =
    rw (record_id_complete after.id some_byte short, finite, named) refl

validate_boundary-IsBoundary :
    (after : Option SearchBoundary) → validate_boundary after ≡ ok tt → IsBoundary after
unfolding IsBoundary validate_boundary
validate_boundary-IsBoundary none = λ h. tt
validate_boundary-IsBoundary (some after) = λ h.
    let (_, e, rest) = bind-eq-ok (validate_record_id after.id) _ h in
    let (some_byte, short) = record_id_sound after.id e in
    (some_byte, short, ground arith, ground arith)

-- Every request that the engine admits, and no other.
pub record IsAdmissible (r : SearchRequest) : Type 0 where
  pub window : IsWindow r.offset r.limit r.traversal
  pub candidates : AreCandidates r.candidate_ids
  pub structure :
      validate_search_structure r.expression max_configured_query_clauses max_fields ≡ ok tt
  pub options : AllOptionsFit r.expression
  pub prefix :
      has_prefix r.expression ≡ true
      → r.traversal ≡ false
      → (r.offset ≡ 0) × (r.limit ≤ max_autocomplete_results)
  pub boundary : IsBoundary r.after

prefix_complete :
    (p : Bool) (r : SearchRequest)
    → (p ≡ true → r.traversal ≡ false → (r.offset ≡ 0) × (r.limit ≤ max_autocomplete_results))
    → validate_prefix_window p r ≡ ok tt
unfolding validate_prefix_window
prefix_complete p r f = ground (arith, f)

prefix_sound :
    (p : Bool) (r : SearchRequest)
    → validate_prefix_window p r ≡ ok tt
    → p ≡ true
    → r.traversal ≡ false
    → (r.offset ≡ 0) × (r.limit ≤ max_autocomplete_results)
unfolding validate_prefix_window
prefix_sound p r h asked plain = ground arith

admission_complete : (r : SearchRequest) → IsAdmissible r → validate_search_admission r ≡ ok tt
unfolding validate_search_admission
admission_complete r a =
    rw
      (
        window_complete r.offset r.limit r.traversal (has_catalog r) a.window,
        candidates_complete r.candidate_ids a.candidates,
        a.structure,
        options_complete r.expression a.options,
        prefix_complete (has_prefix r.expression) r a.prefix,
      )
      (boundary_complete r.after a.boundary)

admission_sound : (r : SearchRequest) → validate_search_admission r ≡ ok tt → IsAdmissible r
unfolding validate_search_admission
admission_sound r =
    through_result (validate_search_window r.offset r.limit r.traversal (has_catalog r)) _ λ _ w.
      through_result (validate_candidates r.candidate_ids) _ λ _ c.
        through_result
          (validate_search_structure r.expression max_configured_query_clauses max_fields) _
          λ _ s. through_result (validate_expression_options r.expression) _ λ p o.
            through_result (validate_prefix_window p r) _ λ _ q b.
              let fit = options_sound r.expression p o in
              let asked : p ≡ has_prefix r.expression = cc (o, options_complete r.expression fit) in
              record {
                window =
                    validate_search_window-IsWindow r.offset r.limit r.traversal (has_catalog r) w;
                candidates = candidates_sound r.candidate_ids c;
                structure = s;
                options = fit;
                prefix = prefix_sound (has_prefix r.expression) r (rw (← asked) q);
                boundary = validate_boundary-IsBoundary r.after b;
              }

-- A search request is admitted exactly where its window is in range, its candidates are few, short
-- and record IDs, the structure and the options of its expression are in order, a search for a
-- prefix asks for the first results only, and its continuation is well formed.
pub validate_search_admission_iff :
    (r : SearchRequest) → (validate_search_admission r ≡ ok tt) ↔ IsAdmissible r
validate_search_admission_iff r = (admission_sound r, admission_complete r)

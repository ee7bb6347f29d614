-- ===== src/Catalog/Agree.antt =====
-- The two walks of src/protocol.rs over packed sorts and aggregations, `decode_catalog` and
-- `scan_catalog`, agree on what `validate_requests` of src/catalog.rs accepts.
use fulltext.Prelude.{
  ℕ, zero, suc, ◌+◌, ◌≡◌, refl, false, ◌&&◌, ◌||◌, List, [], ◌∷◌, Option, arith, subst, ltb, ◌==◌,
  length, is_empty,
}
use fulltext.Error.{
  Result, ok, err, invalid, refuse_if-eq-ok, through_result, refuse_if, ◌>>=◌, ◌>>◌,
}
use fulltext.Text.{Bytes, contains}
use fulltext.Cursor.{Cursor, Parser, repeat, through, through_check, u8, string, from_utf8}
use fulltext.Cursor.Reads.{string-byte_string}
use fulltext.Catalog.{
  SortRequest, AggregationKind, AggregationRequest, Aggregations, aggregation, nil, cons, from_list,
  count, has_children, is_some, is_stats, catalog_count, decode_direction, decode_missing,
  decode_sort, decode_bound, decode_range, decode_ranges, decode_kind, decode_aggregation,
  decode_aggregations, decode_catalog, max_aggregation_depth, aggregation_fuel,
}
use fulltext.Catalog.Scan.{
  scan_sort, scan_bound, scan_range, scan_ranges, scan_kind, scan_aggregation, scan_aggregations,
  scan_catalog,
}
use fulltext.Catalog.Validate.{
  Fields, enter, validate_aggregations, validate_level, validate_requests, field, validate_kind,
  validate_sort,
}

sort_agree : (c d : Cursor) (s : SortRequest) → decode_sort c ≡ ok (s, d) → scan_sort c ≡ ok (tt, d)
unfolding decode_sort scan_sort decode_direction decode_missing string from_utf8
sort_agree c d s h = ground arith

-- A loop of one reader runs as a loop of another that answers less.
module _ {ℓ} {A : Type ℓ} {read : Parser A} {scan : Parser (Unit {0})}
    (one : (c d : Cursor) (a : A) → read c ≡ ok (a, d) → scan c ≡ ok (tt, d)) where
  loop_agree :
      (n : ℕ) (c d : Cursor) (vs : List A)
      → repeat n read c ≡ ok (vs, d)
      → (us : List (Unit {0})) × (repeat n scan c ≡ ok (us, d)) × (length vs ≡ n)
  unfolding repeat
  loop_agree zero c d vs = λ h. ([], ground arith, ground arith)
  loop_agree (suc n) c d vs = through (read c) _ λ v c₁ e₁.
      through (repeat n read c₁) _ λ ws c₂ e₂ h.
        let (us, r, l) = loop_agree n c₁ c₂ ws e₂ in
        (tt ∷ us, ground (arith, one c c₁ v e₁, r), ground (arith, l))

bound_agree : (c d : Cursor) (v : Option ℕ) → decode_bound c ≡ ok (v, d) → scan_bound c ≡ ok (tt, d)
unfolding decode_bound scan_bound
bound_agree c d v h = ground arith

range_agree :
    (c d : Cursor) (v : Option ℕ × Option ℕ)
    → decode_range c ≡ ok (v, d)
    → scan_range c ≡ ok (tt, d)
unfolding decode_range scan_range
range_agree c d v = through (decode_bound c) _ λ from c₁ e₁.
    through (decode_bound c₁) _
      λ to c₂ e₂ h. rw (bound_agree c c₁ from e₁, bound_agree c₁ c₂ to e₂) (cc)

ranges_agree :
    (c d : Cursor) (k : AggregationKind)
    → decode_ranges c ≡ ok (k, d)
    → (scan_ranges c ≡ ok (tt, d)) × (is_stats k ≡ false)
unfolding decode_ranges scan_ranges is_stats
ranges_agree c d k = through (catalog_count 2 c) _ λ n c₁ e₁.
    through_check (n == 0) _ _ _ λ positive. through (repeat n decode_range c₁) _ λ rs c₂ e₂ h.
      let (us, r, _) = loop_agree range_agree n c₁ c₂ rs e₂ in
      (rw (e₁, positive, r) (cc), ground arith)

kind_agree :
    (tag : ℕ) (c d : Cursor) (k : AggregationKind)
    → decode_kind tag c ≡ ok (k, d)
    → (scan_kind tag c ≡ ok (tt, d)) × (is_stats k ≡ (tag == 1))
unfolding decode_kind scan_kind is_stats
kind_agree zero c d k h = ground arith
kind_agree (suc zero) c d k h = ground arith
kind_agree (suc (suc zero)) c d k h = ground arith
kind_agree (suc (suc (suc zero))) c d k h = ranges_agree c d k h
kind_agree (suc (suc (suc (suc tag)))) c d k h = absurd (ground arith)

-- Names of 1 to 128 bytes at every level, as the scanner and the validation ask for.
unfoldable pub NamesFit : Aggregations → Type 0
NamesFit nil = Unit {0}
NamesFit (cons (aggregation name source kind subs) rest) =
    ((is_empty name || ltb 128 (length name)) ≡ false) × NamesFit subs × NamesFit rest

children_count : (subs : Aggregations) → has_children subs ≡ ltb 0 (count subs)
unfolding has_children count
children_count nil = ground arith
children_count (cons a more) = ground arith

module _ {below : Parser Aggregations} {scan : Parser ℕ}
    (child : (c d : Cursor) (subs : Aggregations)
      → below c ≡ ok (subs, d)
      → NamesFit subs
      → scan c ≡ ok (count subs, d)) where
  aggregation_agree :
      (c d : Cursor) (a : AggregationRequest)
      → decode_aggregation below c ≡ ok (a, d)
      → (rest : Aggregations) → NamesFit (cons a rest)
      → (scan_aggregation scan c ≡ ok (tt, d)) × NamesFit rest
  unfolding decode_aggregation scan_aggregation NamesFit
  aggregation_agree c d (aggregation name source kind subs) = through (string c) _ λ v c₁ e₁.
      through (string c₁) _ λ w c₂ e₂. through (u8 c₂) _ λ tag c₃ e₃.
        through (decode_kind tag c₃) _ λ k c₄ e₄. through (below c₄) _ λ as_read c₅ e₅.
          through_check (is_stats k && has_children as_read) _ _ _
            λ allowed h rest (named, nested, others).
              let v_name : v ≡ name = ground arith in
              let subs_read : as_read ≡ subs = ground arith in
              let scanned = child c₄ c₅ subs (cc) nested in
              let kinds = kind_agree tag c₃ c₄ k e₄ in
              (
                rw
                    (
                      string-byte_string c c₁ v e₁,
                      v_name,
                      named,
                      string-byte_string c₁ c₂ w e₂,
                      e₃,
                      kinds.0,
                      scanned,
                    )
                    (ground (arith, kinds.1, children_count subs)),
                others,
              )

  level_agree :
      (n : ℕ) (c d : Cursor) (requests : List AggregationRequest)
      → repeat n (decode_aggregation below) c ≡ ok (requests, d)
      → NamesFit (from_list requests)
      → (us : List (Unit {0})) × (repeat n (scan_aggregation scan) c ≡ ok (us, d))
        × (count (from_list requests) ≡ n)
  unfolding repeat from_list count
  level_agree zero c d requests = λ h fit. ([], ground arith, ground arith)
  level_agree (suc n) c d requests = through (decode_aggregation below c) _ λ a c₁ e₁.
      through (repeat n (decode_aggregation below) c₁) _ λ more c₂ e₂ h fit.
        let listed : requests ≡ a ∷ more = cc in
        let fits : NamesFit (cons a (from_list more)) =
          subst (λ r. NamesFit (from_list r)) listed fit in
        let first = aggregation_agree c c₁ a e₁ (from_list more) fits in
        let (us, r, l) = level_agree n c₁ c₂ more e₂ first.1 in
        (tt ∷ us, rw (first.0, r) (cc), rw listed (ground (arith, l)))

aggregations_agree :
    (fuel depth : ℕ) (c d : Cursor) (requests : Aggregations)
    → decode_aggregations fuel depth c ≡ ok (requests, d)
    → NamesFit requests
    → scan_aggregations fuel depth c ≡ ok (count requests, d)
unfolding decode_aggregations scan_aggregations
aggregations_agree zero depth c d requests = λ h. absurd (cc)
aggregations_agree (suc fuel) depth c d requests = through (catalog_count 13 c) _ λ n c₁ e₁.
    through_check (ltb 0 n && ltb max_aggregation_depth depth) _ _ _ λ shallow.
      through (repeat n (decode_aggregation (decode_aggregations fuel (depth + 1))) c₁) _
        λ rs c₂ e₂ h fit.
          let listed : requests ≡ from_list rs = cc in
          let (us, r, l) =
            level_agree (aggregations_agree fuel (depth + 1)) n c₁ c₂ rs e₂
              (subst NamesFit listed fit) in
          rw (e₁, shallow, r, listed) (cc (l))

-- The steps of one turn of the validation's loop that the names are about.
turn :
    (named known entered below others : Result (Unit {0}))
    → (named >> known >> entered >> below >> others) ≡ ok tt
    → (named ≡ ok tt) × (below ≡ ok tt) × (others ≡ ok tt)
turn (ok u) (ok v) (ok w) (ok x) others h = (refl, refl, h)
turn (ok u) (ok v) (ok w) (err e) others h = absurd (cc)
turn (ok u) (ok v) (err e) below others h = absurd (cc)
turn (ok u) (err e) entered below others h = absurd (cc)
turn (err e) known entered below others h = absurd (cc)

level-NamesFit :
    (requests : Aggregations) (seen : List Bytes) (fields : Fields) (depth : ℕ)
    → validate_level requests seen fields depth ≡ ok tt
    → NamesFit requests
unfolding validate_level NamesFit
level-NamesFit nil seen fields depth = λ h. tt
level-NamesFit (cons (aggregation name source kind subs) rest) seen fields depth = λ h.
    let (named, below, others) =
      turn
        (refuse_if (is_empty name || ltb 128 (length name) || contains seen name)
          (invalid "Aggregation names must be unique and contain from 1 through 128 UTF-8 bytes"))
        (field source fields >>= λ type. validate_kind kind type subs) (enter subs (depth + 1))
        (validate_level subs [] fields (depth + 1)) (validate_level rest (name ∷ seen) fields depth)
        h in
    (
      ground (arith, refuse_if-eq-ok _ _ named),
      level-NamesFit subs [] fields (depth + 1) below,
      level-NamesFit rest (name ∷ seen) fields depth others,
    )

-- Sorts and aggregations that `validate_requests` accepts, against any filter fields, have names that
-- the scanner takes: every aggregation, at every level, is named by 1 to 128 bytes.
pub requests-NamesFit :
    (sort : Option (List SortRequest)) (requests : Aggregations) (fields : Fields)
    → validate_requests sort requests fields ≡ ok tt
    → NamesFit requests
unfolding validate_requests validate_aggregations
requests-NamesFit sort requests fields =
    through_result (validate_sort sort fields) _
      λ _ _. through_result (enter requests 1) _ λ _ _ h. level-NamesFit requests [] fields 1 h

-- Where sorts and aggregations decode, and the names of the aggregations are in order, the scanner
-- reads exactly the same bytes and answers whether there is a sort or an aggregation.
pub scan_catalog-decode_catalog :
    (c d : Cursor) (sort : Option (List SortRequest)) (requests : Aggregations)
    → decode_catalog c ≡ ok ((sort, requests), d)
    → NamesFit requests
    → scan_catalog c ≡ ok (is_some sort || has_children requests, d)
unfolding decode_catalog scan_catalog is_some is_empty
scan_catalog-decode_catalog c d sort requests = through (catalog_count 6 c) _ λ n c₁ e₁.
    through (repeat n decode_sort c₁) _ λ sorts c₂ e₂.
      through (decode_aggregations aggregation_fuel 1 c₂) _ λ below c₃ e₃ h fit.
        let read : below ≡ requests = ground arith in
        let (us, r, l) = loop_agree sort_agree n c₁ c₂ sorts e₂ in
        let scanned = aggregations_agree aggregation_fuel 1 c₂ d requests (cc) fit in
        let sorted : is_some sort ≡ ltb 0 n = ground (arith, l) in
        rw (e₁, r, scanned, children_count requests, sorted) refl

-- ===== src/Query/Scan.antt =====
-- `scan_search_expression` of src/protocol.rs: it walks the packed expression without building it.
use fulltext.Prelude.{
  ℕ, zero, suc, ◌+◌, ◌/◌, Bool, true, false, ◌&&◌, ◌||◌, not, [], ◌∷◌, Option, none, some, max, ltb,
  if◌then◌else◌, saturating_add, saturating_mul, usize_max, length, ◌==◌,
}
use fulltext.Error.{invalid}
use fulltext.Text.{Bytes, is_ascii, is_ascii_alphanumeric}
use fulltext.Cursor.{
  Parser, pure, lift, reject, reject_if, ◌>>=◌, ◌>>◌, u8, u16, f32, byte_string, remaining, repeat,
  iterate,
}
use fulltext.Query.{is_expensive, max_fields, validate_query_boost}
use fulltext.Query.Structure.{
  SearchStructureBudget, check_depth, charge, children, optional_children, leaf,
}
use fulltext.Query.Wire.{Reader, decode_search_mode, decode_query_options, out_of_fuel}

pub record SearchCost : Type 0 where
  pub terms_upper : ℕ
  pub construction_upper : ℕ
  pub has_expensive_mode : Bool
  pub has_positive_anchor : Bool

count_terms : Bytes → ℕ → Bool → Option ℕ
count_terms [] terms in_term = some terms
count_terms (byte ∷ text) terms in_term =
    let alphanumeric = is_ascii_alphanumeric byte in
    let more =
      count_terms text (if alphanumeric && not in_term then terms + 1 else terms) alphanumeric in
    if is_ascii byte then more else none

-- The runs of ASCII letters and digits; nothing for a text that is not ASCII.
unfoldable pub ascii_query_term_upper : Bytes → Option ℕ
unfolding count_terms
ascii_query_term_upper text = count_terms text 0 false

-- The bounds are computed under a raised profile only, which gives the schema's field count.
unfoldable pub clause_terms : Option ℕ → Bytes → ℕ
clause_terms none text = 0
clause_terms (some schema_fields) text = elim (ascii_query_term_upper text) [
  | none ↦ usize_max
  | some terms ↦ terms
]

unfoldable pub clause_fields : Option ℕ → ℕ → ℕ
clause_fields raised field_count =
    if field_count == 0 then elim raised [ none ↦ 0 | some n ↦ n ] else field_count

-- The cursor that the check reads is the one behind the count.
unfoldable pub check_field_count : ℕ → Parser (Unit {0})
check_field_count field_count c =
    reject_if (ltb max_fields field_count || ltb (remaining c / 4) field_count)
      (invalid "search field count exceeds its packed request") c

unfoldable pub scan_clause : Option ℕ → Reader SearchCost
unfolding check_field_count
scan_clause raised s = do
  text ← byte_string
  mode ← (do value ← u8; lift (decode_search_mode value))
  _ ← decode_query_options mode
  field_count ← u16
  check_field_count field_count
  s₁ ← lift (leaf (length text) field_count s)
  _ ← repeat field_count byte_string
  let cost : SearchCost = record {
    terms_upper = clause_terms raised text;
    construction_upper =
        saturating_mul (clause_terms raised text) (clause_fields raised field_count);
    has_expensive_mode = is_expensive mode;
    has_positive_anchor = true;
  }
  pure (cost, s₁)

-- What a child adds to its group, in a conjunction (1) and in a disjunction (2).
unfoldable pub absorb : ℕ → SearchCost → SearchCost → SearchCost
absorb kind total child = record {
  terms_upper = max total.terms_upper child.terms_upper;
  construction_upper = saturating_add total.construction_upper child.construction_upper;
  has_expensive_mode = total.has_expensive_mode || child.has_expensive_mode;
  has_positive_anchor =
      if kind == 1
      then total.has_positive_anchor || child.has_positive_anchor
      else total.has_positive_anchor && child.has_positive_anchor;
}

-- A scoring clause says nothing of the anchor.
unfoldable pub absorb_optional : SearchCost → SearchCost → SearchCost
absorb_optional total child = record {
  terms_upper = max total.terms_upper child.terms_upper;
  construction_upper = saturating_add total.construction_upper child.construction_upper;
  has_expensive_mode = total.has_expensive_mode || child.has_expensive_mode;
  has_positive_anchor = total.has_positive_anchor;
}

-- One round of a group's loop.
unfoldable pub scan_child :
    (SearchCost → SearchCost → SearchCost)
    → Reader SearchCost
    → SearchCost × SearchStructureBudget
    → Parser (SearchCost × SearchStructureBudget)
scan_child fold child (total, s) = do (cost, s₁) ← child s; pure (fold total cost, s₁)

unfoldable pub scan_group : ℕ → Reader SearchCost → Reader SearchCost
unfolding absorb scan_child
scan_group kind child s = do
  count ← u16
  s₁ ← lift (children count s)
  let start : SearchCost = record {
    terms_upper = 0;
    construction_upper = count;
    has_expensive_mode = false;
    has_positive_anchor = kind == 2;
  }
  iterate count (scan_child (absorb kind) child) (start, s₁)

unfoldable pub scan_not : Reader SearchCost → Reader SearchCost
scan_not child s = do
  s₁ ← lift (charge 2 s)
  (cost, s₂) ← child s₁
  pure (
    record cost {
      construction_upper = saturating_add cost.construction_upper 2;
      has_positive_anchor = false;
    },
    s₂,
  )

unfoldable pub scan_boost : Reader SearchCost → Reader SearchCost
scan_boost child s = do
  value ← f32
  lift (validate_query_boost value)
  s₁ ← lift (charge 1 s)
  (cost, s₂) ← child s₁
  pure (record cost { construction_upper = saturating_add cost.construction_upper 1 }, s₂)

unfoldable pub scan_optional : Reader SearchCost → Reader SearchCost
unfolding absorb_optional scan_child
scan_optional child s = do
  count ← u16
  s₁ ← lift (optional_children count s)
  s₂ ← lift (charge 1 s₁)
  (required, s₃) ← child s₂
  let start : SearchCost = record required {
    construction_upper = saturating_add required.construction_upper (count + 1);
  }
  iterate count (scan_child absorb_optional child) (start, s₃)

unfoldable pub scan_node : Option ℕ → ℕ → Reader SearchCost → Reader SearchCost
scan_node raised kind child s =
    if kind == 0
    then scan_clause raised s
    else if kind == 1 || kind == 2
    then scan_group kind child s
    else if kind == 3
    then scan_not child s
    else if kind == 4
    then scan_boost child s
    else if kind == 5
    then scan_optional child s
    else reject (invalid "unknown search expression type")

unfoldable pub scan_search_expression : Option ℕ → ℕ → ℕ → Reader SearchCost
scan_search_expression raised zero depth s = reject out_of_fuel
scan_search_expression raised (suc fuel) depth s = do
  lift (check_depth depth)
  kind ← u8
  scan_node raised kind (scan_search_expression raised fuel (depth + 1)) s

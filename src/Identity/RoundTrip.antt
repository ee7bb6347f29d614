-- ===== src/Identity/RoundTrip.antt =====
-- `persisted_index_id` of src/engine.rs gives back the id that `identity_bytes` wrote.
use fulltext.Prelude.{
  ℕ, ◌+◌, ◌^◌, ◌≤◌, ◌<◌, ◌≡◌, refl, ap, subst, arith, Bool, true, ◌||◌, not, List, [], ◌∷◌, ◌++◌,
  Option, some, leb, ◌==◌, length, get_range, usize_max, is_empty, Bool-cases, inl, inr,
}
use mathlib.Core.List.{append-nil}
use fulltext.Text.{Bytes, text_eq}
use fulltext.Config.{EngineIdentityConfig, SynonymRule, FieldConfig}
use fulltext.Filter.{FilterFieldConfig, FilterFieldType, text, number, boolean}
use fulltext.Identity.{
  Reader, ◌>>=◌, pure, to_le_bytes, push_string, push_each, bit, version, any_text, push_rule,
  type_tag, push_filter_field, push_filter_fields, magic, identity_bytes, take_range, take_string,
  when_read, any_above, accept, read_each, read_rule, read_filter_field, read_flags, read_identity,
  known_version, is_magic, whole, identity_of, persisted_index_id,
}
use fulltext.Identity.Reads.{
  Reads, Reads-bind, pure-Reads, take_range-Reads, take_string-Reads, read_each-Reads,
  get_range-append, IsText, All,
}

abbrev pub AreTexts : List Bytes → Type 0
AreTexts values = (length values < 2 ^ 16) × All IsText values

-- The texts of a configuration are UTF-8 and short enough for the format, and so are its lists.
pub record IsStorable (c : EngineIdentityConfig) : Type 0 where
  pub index_id : IsText c.index_id
  pub generation : IsText c.generation
  pub analyzer : IsText c.analyzer
  pub rules :
      (length c.synonyms < 2 ^ 16)
      × All (λ rule. IsText rule.source × AreTexts rule.replacements) c.synonyms
  pub fields : (length c.fields < 2 ^ 16) × All (λ f. IsText f.name) c.fields
  pub filter_fields : (length c.filter_fields < 2 ^ 16) × All (λ f. IsText f.name) c.filter_fields
  pub fits : length (identity_bytes c) ≤ usize_max

read_rule-Reads :
    (rule : SynonymRule)
    → IsText rule.source × AreTexts rule.replacements
    → Reads read_rule (push_rule rule) tt
unfolding read_rule push_rule
read_rule-Reads rule h =
    Reads-bind take_string (λ _. read_each take_string) (push_string rule.source)
      (to_le_bytes 2 (length rule.replacements) ++ push_each push_string rule.replacements)
      rule.source tt (take_string-Reads rule.source h.0)
      (read_each-Reads IsText take_string push_string (λ v. v) take_string-Reads rule.replacements
        h.1.0 h.1.1)

tag_fits : (t : FilterFieldType) → accept (not (any_above 2 (type_tag t ∷ []))) ≡ pure tt
unfolding accept any_above type_tag
tag_fits text = refl
tag_fits number = refl
tag_fits boolean = refl

read_filter_field-Reads :
    (f : FilterFieldConfig) → IsText f.name → Reads read_filter_field (push_filter_field f) tt
unfolding read_filter_field push_filter_field
read_filter_field-Reads f h =
    Reads-bind take_string (λ _. take_range 1 >>= λ tag. accept (not (any_above 2 tag)))
      (push_string f.name) (type_tag f.field_type ∷ []) f.name tt (take_string-Reads f.name h)
      (λ before rest fits.
        let xs : Bytes = type_tag f.field_type ∷ [] in
        rw (take_range-Reads xs before rest fits) (
          ap (λ (r : Reader (Unit {0})). r (before ++ (xs ++ rest)) (length before + 1))
            (tag_fits f.field_type)))

bits_fit : (a b c : Bool) → accept (not (any_above 1 (bit a ∷ bit b ∷ bit c ∷ []))) ≡ pure tt
unfolding accept any_above
bits_fit a b c = ground arith

read_flags-Reads : (a b c : Bool) → Reads read_flags (bit a ∷ bit b ∷ bit c ∷ []) tt
unfolding read_flags
read_flags-Reads a b c before rest fits =
    let xs : Bytes = bit a ∷ bit b ∷ bit c ∷ [] in
    rw (take_range-Reads xs before rest fits) (
      ap (λ (r : Reader (Unit {0})). r (before ++ (xs ++ rest)) (length before + 3))
        (bits_fit a b c))

filters-Reads :
    (fields : List FilterFieldConfig)
    → length fields < 2 ^ 16
    → All (λ f. IsText f.name) fields
    → Reads
        (when_read
          (version fields == 5 || version fields == 7 || version fields == 8)
          (read_each read_filter_field))
        (push_filter_fields fields)
        tt
unfolding when_read version is_empty push_filter_fields
filters-Reads [] n h = pure-Reads tt
filters-Reads (f ∷ fields) n h =
    let r =
      read_each-Reads (λ (f : FilterFieldConfig). IsText f.name) read_filter_field push_filter_field
        (λ _. tt) read_filter_field-Reads (f ∷ fields) n h in
    elim (Bool-cases (any_text (f ∷ fields))) [ inl e ↦ rw e r | inr e ↦ rw e r ]

knows_version :
    (fields : List FilterFieldConfig)
    → (leb 3 (version fields) ≡ true)
      × (known_version (some (version fields ∷ 0 ∷ [])) ≡ some (version fields))
unfolding version is_empty known_version
knows_version [] = (refl, refl)
knows_version (f ∷ fields) = elim (Bool-cases (any_text (f ∷ fields))) [
  | inl e ↦ rw e (refl, refl)
  | inr e ↦ rw e (refl, refl)
]

-- What stands behind the magic and the version.
abbrev body : EngineIdentityConfig → Bytes
body c =
    push_string c.index_id
    ++ (push_string c.generation
        ++ (push_string c.analyzer
            ++ ((bit c.stop_words ∷ bit c.positions ∷ bit c.surface_terms ∷ [])
                ++ ((to_le_bytes 2 (length c.synonyms) ++ push_each push_rule c.synonyms)
                    ++ ((to_le_bytes 2 (length c.fields)
                          ++ push_each (λ f. push_string f.name) c.fields)
                        ++ push_filter_fields c.filter_fields)))))

keep-Reads {ℓ κ} :
    {A : Type ℓ} {B : Type κ} (r : Reader A) (xs : Bytes) (a : A) (b : B)
    → Reads r xs a
    → Reads (r >>= λ _. pure b) xs b
keep-Reads r xs a b h before rest fits = rw (h before rest fits) refl

read_identity-Reads :
    (c : EngineIdentityConfig)
    → IsStorable c
    → Reads (read_identity (version c.filter_fields)) (body c) c.index_id
unfolding read_identity
read_identity-Reads c h =
    let v = version c.filter_fields in
    let i = push_string c.index_id in
    let g = push_string c.generation in
    let a = push_string c.analyzer in
    let b : Bytes = bit c.stop_words ∷ bit c.positions ∷ bit c.surface_terms ∷ [] in
    let s = to_le_bytes 2 (length c.synonyms) ++ push_each push_rule c.synonyms in
    let f = to_le_bytes 2 (length c.fields) ++ push_each (λ f. push_string f.name) c.fields in
    let x = push_filter_fields c.filter_fields in
    let filters = when_read (v == 5 || v == 7 || v == 8) (read_each read_filter_field) in
    let rules : Reads (when_read (leb 3 v) (read_each read_rule)) s tt =
      rw ((knows_version c.filter_fields).0) (
        read_each-Reads (λ (rule : SynonymRule). IsText rule.source × AreTexts rule.replacements)
          read_rule push_rule (λ _. tt) read_rule-Reads c.synonyms h.rules.0 h.rules.1) in
    let names =
      read_each-Reads (λ (f : FieldConfig). IsText f.name) take_string (λ f. push_string f.name)
        (λ f. f.name) (λ f k. take_string-Reads f.name k) c.fields h.fields.0 h.fields.1 in
    let q₆ : Reader Bytes = filters >>= λ _. pure c.index_id in
    let q₅ : Reader Bytes = read_each take_string >>= λ _. q₆ in
    let q₄ : Reader Bytes = when_read (leb 3 v) (read_each read_rule) >>= λ _. q₅ in
    let q₃ : Reader Bytes = read_flags >>= λ _. q₄ in
    let q₂ : Reader Bytes = take_string >>= λ _. q₃ in
    let n = c.index_id in
    let r₆ =
      keep-Reads filters x tt n
        (filters-Reads c.filter_fields h.filter_fields.0 h.filter_fields.1) in
    let r₅ = Reads-bind (read_each take_string) (λ _. q₆) f x tt n names r₆ in
    let r₄ =
      Reads-bind (when_read (leb 3 v) (read_each read_rule)) (λ _. q₅) s (f ++ x) tt n rules r₅ in
    let r₃ =
      Reads-bind read_flags (λ _. q₄) b (s ++ (f ++ x)) tt n
        (read_flags-Reads c.stop_words c.positions c.surface_terms) r₄ in
    let r₂ =
      Reads-bind take_string (λ _. q₃) a (b ++ (s ++ (f ++ x))) c.analyzer n
        (take_string-Reads c.analyzer h.analyzer) r₃ in
    let r₁ =
      Reads-bind take_string (λ _. q₂) g (a ++ (b ++ (s ++ (f ++ x)))) c.generation n
        (take_string-Reads c.generation h.generation) r₂ in
    Reads-bind take_string
      (λ index_id. take_string >>= λ _. take_string >>= λ _. read_flags >>= λ _.
        when_read (leb 3 v) (read_each read_rule) >>= λ _.
        read_each take_string >>= λ _. filters >>= λ _. pure index_id)
      i (g ++ (a ++ (b ++ (s ++ (f ++ x))))) n n (take_string-Reads n h.index_id) r₁

persisted_index_id-append :
    (v : ℕ) (xs index_id : Bytes)
    → known_version (some (v ∷ 0 ∷ [])) ≡ some v
    → Reads (read_identity v) xs index_id
    → length (magic ++ (v ∷ 0 ∷ xs)) ≤ usize_max
    → persisted_index_id (magic ++ (v ∷ 0 ∷ xs)) ≡ some index_id
unfolding persisted_index_id identity_of whole is_magic text_eq
persisted_index_id-append v xs index_id k h fits =
    let head : Bytes = v ∷ 0 ∷ [] in
    let all : Bytes = magic ++ (v ∷ 0 ∷ xs) in
    let e₁ : get_range all 0 4 ≡ some magic = get_range-append [] magic (head ++ xs) in
    let e₂ : get_range all 4 6 ≡ some head = get_range-append magic head xs in
    let n = append-nil xs in
    let fits₁ : length (magic ++ (v ∷ 0 ∷ (xs ++ []))) ≤ usize_max = rw n fits in
    let r : read_identity v (magic ++ (v ∷ 0 ∷ (xs ++ []))) 6 ≡ some (index_id, 6 + length xs) =
      h (magic ++ head) [] fits₁ in
    let r₁ : read_identity v all 6 ≡ some (index_id, 6 + length xs) =
      subst
        (λ (ys : Bytes). read_identity v (magic ++ (v ∷ 0 ∷ ys)) 6 ≡ some (index_id, 6 + length xs))
        n r in
    let e₃ : (6 + length xs == length all) ≡ true = ground arith in
    let p : (o : Option Bytes) → o ≡ some magic → is_magic o ≡ true = λ o e. rw e refl in
    let q : known_version (get_range all 4 6) ≡ some v = rw e₂ k in
    let w : identity_of all (some v) ≡ some index_id = rw (r₁, e₃) refl in
    rw (p (get_range all 0 4) e₁, q) w

-- Where the texts of a configuration are UTF-8 and, like its lists, short enough for the format, the
-- identity that is written for it names its index when it is read again.
pub persisted_index_id-identity_bytes :
    (c : EngineIdentityConfig)
    → IsStorable c
    → persisted_index_id (identity_bytes c) ≡ some c.index_id
unfolding identity_bytes
persisted_index_id-identity_bytes c h =
    persisted_index_id-append (version c.filter_fields) (body c) c.index_id
      (knows_version c.filter_fields).1 (read_identity-Reads c h) h.fits

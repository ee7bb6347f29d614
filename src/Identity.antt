-- ===== src/Identity.antt =====
-- The identity of an index, which src/engine.rs writes beside it: `identity_bytes` and, for a reset,
-- `persisted_index_id`, which reads the files of older versions too.
pub mod Reads
pub mod RoundTrip
use fulltext.Prelude.{
  ℕ, zero, suc, ◌+◌, ◌/◌, ◌%◌, Bool, true, false, ◌||◌, ◌&&◌, not, List, [], ◌∷◌, ◌++◌, Option,
  none, some, ltb, leb, ◌==◌, if◌then◌else◌, length, get_range, take, is_empty, usize_max,
}
use fulltext.Text.{Bytes, text_eq, is_utf8, within}
use fulltext.Cursor.{from_le_bytes}
use fulltext.Config.{EngineIdentityConfig, SynonymRule, FieldConfig}
use fulltext.Filter.{FilterFieldConfig, FilterFieldType, text, number, boolean}

-- `to_le_bytes` of a number of `width` bytes.
unfoldable pub to_le_bytes : ℕ → ℕ → Bytes
to_le_bytes zero n = []
to_le_bytes (suc width) n = (n % 256) ∷ to_le_bytes width (n / 256)

unfoldable pub push_string : Bytes → Bytes
unfolding to_le_bytes
push_string value = to_le_bytes 4 (length value) ++ value

unfoldable pub push_each {ℓ} : {A : Type ℓ} → (A → Bytes) → List A → Bytes
push_each push [] = []
push_each push (x ∷ xs) = push x ++ push_each push xs

-- `b as u8`
abbrev pub bit : Bool → ℕ
bit b = if b then 1 else 0

unfoldable pub is_text : FilterFieldConfig → Bool
is_text f = elim f.field_type [ text ↦ true | number ↦ false | boolean ↦ false ]

unfoldable pub any_text : List FilterFieldConfig → Bool
unfolding is_text
any_text [] = false
any_text (f ∷ fields) = is_text f || any_text fields

unfoldable pub version : List FilterFieldConfig → ℕ
unfolding any_text is_empty
version fields = if is_empty fields then 6 else if any_text fields then 8 else 7

unfoldable pub push_rule : SynonymRule → Bytes
unfolding push_string push_each to_le_bytes
push_rule rule =
    push_string rule.source
    ++ (to_le_bytes 2 (length rule.replacements) ++ push_each push_string rule.replacements)

unfoldable pub type_tag : FilterFieldType → ℕ
type_tag text = 0
type_tag number = 1
type_tag boolean = 2

unfoldable pub push_filter_field : FilterFieldConfig → Bytes
unfolding push_string type_tag
push_filter_field f = push_string f.name ++ (type_tag f.field_type ∷ [])

unfoldable pub push_filter_fields : List FilterFieldConfig → Bytes
unfolding push_each push_filter_field to_le_bytes
push_filter_fields [] = []
push_filter_fields (f ∷ fields) =
    to_le_bytes 2 (length (f ∷ fields)) ++ push_each push_filter_field (f ∷ fields)

abbrev pub magic : Bytes
magic = b'H' ∷ b'T' ∷ b'F' ∷ b'I' ∷ []

unfoldable pub identity_bytes : EngineIdentityConfig → Bytes
unfolding version push_string push_rule push_each push_filter_fields to_le_bytes
identity_bytes c =
    (magic ++ (version c.filter_fields ∷ 0 ∷ []))
    ++ (push_string c.index_id
        ++ (push_string c.generation
            ++ (push_string c.analyzer
                ++ ((bit c.stop_words ∷ bit c.positions ∷ bit c.surface_terms ∷ [])
                    ++ ((to_le_bytes 2 (length c.synonyms) ++ push_each push_rule c.synonyms)
                        ++ ((to_le_bytes 2 (length c.fields)
                              ++ push_each (λ f. push_string f.name) c.fields)
                            ++ push_filter_fields c.filter_fields))))))

-- A reader takes the bytes and an offset, and returns a value and the offset behind it.
abbrev pub Reader {ℓ} : Type ℓ → Type ℓ
Reader A = Bytes → ℕ → Option (A × ℕ)

abbrev pub then_read {ℓ κ} :
    {A : Type ℓ} {B : Type κ} → Option (A × ℕ) → (A → ℕ → Option (B × ℕ)) → Option (B × ℕ)
then_read none next = none
then_read (some (a, offset)) next = next a offset

module _ {ℓ κ} {A : Type ℓ} {B : Type κ} where
  infixl 1 ◌>>=◌
  abbrev pub ◌>>=◌ : Reader A → (A → Reader B) → Reader B
  r >>= f = λ bytes offset. then_read (r bytes offset) (λ a next. f a bytes next)

abbrev pub pure {ℓ} : {A : Type ℓ} → A → Reader A
pure a bytes offset = some (a, offset)

abbrev pub refuse {ℓ} : {A : Type ℓ} → Reader A
refuse bytes offset = none

found : ℕ → Option Bytes → Option (Bytes × ℕ)
found end none = none
found end (some value) = some (value, end)

-- `bytes.get(offset..offset.checked_add(n)?)?`, and the step behind it.
unfoldable pub take_range : ℕ → Reader Bytes
unfolding get_range found
take_range n bytes offset =
    if ltb usize_max (offset + n)
    then none
    else found (offset + n) (get_range bytes offset (offset + n))

unfoldable pub take_number : ℕ → Reader ℕ
unfolding take_range from_le_bytes
take_number width = take_range width >>= λ value. pure (from_le_bytes value)

unfoldable pub text_of : Bytes → Reader Bytes
text_of value bytes offset = if is_utf8 value then some (value, offset) else none

unfoldable pub take_string : Reader Bytes
unfolding take_number take_range text_of
take_string = take_number 4 >>= λ n. take_range n >>= text_of

-- `for _ in 0..count { …?; }`
unfoldable pub repeat_read {ℓ} : {A : Type ℓ} → ℕ → Reader A → Reader (Unit {0})
repeat_read zero r = pure tt
repeat_read (suc n) r = r >>= λ _. repeat_read n r

unfoldable pub when_read : Bool → Reader (Unit {0}) → Reader (Unit {0})
when_read true r = r
when_read false r = pure tt

unfoldable pub any_above : ℕ → Bytes → Bool
any_above limit [] = false
any_above limit (b ∷ bytes) = ltb limit b || any_above limit bytes

unfoldable pub accept : Bool → Reader (Unit {0})
accept ok bytes offset = if ok then some (tt, offset) else none

-- `count` and as many items.
unfoldable pub read_each {ℓ} : {A : Type ℓ} → Reader A → Reader (Unit {0})
unfolding take_number repeat_read
read_each r = take_number 2 >>= λ count. repeat_read count r

unfoldable pub read_rule : Reader (Unit {0})
unfolding take_string read_each
read_rule = take_string >>= λ _. read_each take_string

unfoldable pub read_filter_field : Reader (Unit {0})
unfolding take_string take_range any_above accept
read_filter_field = take_string >>= λ _. take_range 1 >>= λ tag. accept (not (any_above 2 tag))

unfoldable pub read_flags : Reader (Unit {0})
unfolding take_range any_above accept
read_flags = take_range 3 >>= λ flags. accept (not (any_above 1 flags))

unfoldable pub read_identity : ℕ → Reader Bytes
unfolding take_string read_flags when_read read_each read_rule read_filter_field
read_identity v = take_string >>= λ index_id. take_string >>= λ _. take_string >>= λ _.
    read_flags >>= λ _. when_read (leb 3 v) (read_each read_rule) >>= λ _.
    read_each take_string >>= λ _.
    when_read (v == 5 || v == 7 || v == 8) (read_each read_filter_field) >>= λ _. pure index_id

-- The low byte of a version that is known.
unfoldable pub known_version : Option Bytes → Option ℕ
known_version none = none
known_version (some []) = none
known_version (some (low ∷ [])) = none
known_version (some (low ∷ high ∷ [])) = if within 1 8 low && high == 0 then some low else none
known_version (some (low ∷ high ∷ more ∷ bytes)) = none

unfoldable pub is_magic : Option Bytes → Bool
unfolding text_eq
is_magic none = false
is_magic (some bytes) = text_eq bytes magic

unfoldable pub whole : ℕ → Option (Bytes × ℕ) → Option Bytes
whole end none = none
whole end (some (index_id, offset)) = if offset == end then some index_id else none

unfoldable pub identity_of : Bytes → Option ℕ → Option Bytes
unfolding read_identity whole
identity_of bytes none = none
identity_of bytes (some v) = whole (length bytes) (read_identity v bytes 6)

unfoldable pub persisted_index_id : Bytes → Option Bytes
unfolding get_range known_version is_magic identity_of
persisted_index_id bytes =
    if is_magic (get_range bytes 0 4)
    then identity_of bytes (known_version (get_range bytes 4 6))
    else none

-- ===== src/Cursor.antt =====
-- `Cursor` of src/protocol.rs: the reader of a packed request.
pub mod Reads
use fulltext.Prelude.{
  ℕ, zero, suc, ◌+◌, ◌-◌, ◌*◌, ◌^◌, ◌≤◌, ◌≡◌, refl, Bool, true, false, ◌&&◌, ◌||◌, not, List, [],
  ◌∷◌, Option, none, some, ltb, ◌==◌, if◌then◌else◌, usize_max, length, take, get_range, is_empty,
}
use fulltext.Error.{FulltextError, Result, ok, err, bind, refuse_if, invalid, invalid_with, number}
use fulltext.Text.{Bytes, is_utf8, text_eq}

abbrev pub protocol_version : ℕ
protocol_version = 8

abbrev pub max_string_bytes : ℕ
max_string_bytes = 2 ^ 20

abbrev pub max_record_id_bytes : ℕ
max_record_id_bytes = 4096

abbrev pub max_record_version_bytes : ℕ
max_record_version_bytes = 4096

pub record Cursor : Type 0 where
  pub bytes : Bytes
  pub offset : ℕ

-- An operation on `&mut Cursor` that may fail: every caller passes its error on, so the cursor
-- that a failure leaves is never read.
abbrev pub Parser {ℓ} : Type ℓ → Type ℓ
Parser A = Cursor → Result (A × Cursor)

module _ {ℓ} {A : Type ℓ} where
  abbrev pub pure : A → Parser A
  pure a c = ok (a, c)

  abbrev pub lift : Result A → Parser A
  lift r c = bind r (λ a. ok (a, c))

module _ {ℓ κ} {A : Type ℓ} {B : Type κ} where
  infixl 1 ◌>>=◌
  abbrev pub ◌>>=◌ : Parser A → (A → Parser B) → Parser B
  p >>= f = λ c. bind (p c) λ (a, rest). f a rest

module _ {ℓ} {B : Type ℓ} where
  infixl 1 ◌>>◌
  abbrev pub ◌>>◌ : Parser (Unit {0}) → Parser B → Parser B
  p >> q = p >>= λ _. q

-- `if refused { return Err(error); }` in a function over the cursor.
abbrev pub reject_if : Bool → FulltextError → Parser (Unit {0})
reject_if refused e c = if refused then err e else ok (tt, c)

abbrev pub reject {ℓ} : {A : Type ℓ} → FulltextError → Parser A
reject e c = err e

abbrev truncated : FulltextError
truncated = invalid "packed request is truncated"

abbrev not_utf8 : FulltextError
not_utf8 = invalid "packed string is not valid UTF-8"

-- Little-endian numbers of any width.
unfoldable pub from_le_bytes : Bytes → ℕ
from_le_bytes [] = 0
from_le_bytes (b ∷ bytes) = b + 256 * from_le_bytes bytes

unfoldable pub new : Bytes → Bytes → Result Cursor
unfolding from_le_bytes take text_eq
new bytes magic =
    let version = from_le_bytes (elim (get_range bytes 4 6) [ none ↦ [] | some v ↦ v ]) in
    if ltb (length bytes) 6 || not (text_eq (take 4 bytes) magic)
    then err (invalid "invalid packed request magic")
    else if version == protocol_version
    then ok (record { bytes = bytes; offset = 6 })
    else err (invalid_with "unsupported packed request version {version}" (number version ∷ []))

read_range : Cursor → ℕ → Option Bytes → Result (Bytes × Cursor)
read_range c end none = err truncated
read_range c end (some value) = ok (value, record c { offset = end })

-- `Cursor::take`.
unfoldable pub take_bytes : ℕ → Parser Bytes
unfolding get_range read_range
take_bytes length c =
    let end = c.offset + length in
    if ltb usize_max end
    then err (invalid "packed request length overflow")
    else read_range c end (get_range c.bytes c.offset end)

unfoldable pub remaining : Cursor → ℕ
remaining c = length c.bytes - c.offset

unfoldable pub u8 : Parser ℕ
unfolding from_le_bytes
u8 = do value ← take_bytes 1; pure (from_le_bytes value)

unfoldable pub boolean : Parser Bool
boolean = do
  value ← u8
  lift (
      if value == 0
      then ok false
      else if value == 1
      then ok true
      else err (invalid "packed boolean must be zero or one"))

unfoldable pub u16 : Parser ℕ
unfolding from_le_bytes
u16 = do value ← take_bytes 2; pure (from_le_bytes value)

unfoldable pub u32 : Parser ℕ
unfolding from_le_bytes
u32 = do value ← take_bytes 4; pure (from_le_bytes value)

unfoldable pub u64 : Parser ℕ
unfolding from_le_bytes
u64 = do value ← take_bytes 8; pure (from_le_bytes value)

unfoldable pub u64_usize : Parser ℕ
u64_usize = do
  value ← u64
  reject_if (ltb usize_max value) (invalid "numeric limit exceeds usize")
  pure value

unfoldable pub byte_string : Parser Bytes
byte_string = do
  length ← u32
  reject_if (ltb max_string_bytes length) (invalid "packed byte string exceeds 1 MiB")
  take_bytes length

-- Floats are their bit patterns.
unfoldable pub f32 : Parser ℕ
unfolding from_le_bytes
f32 = do value ← take_bytes 4; pure (from_le_bytes value)

unfoldable pub f64 : Parser ℕ
unfolding from_le_bytes
f64 = do value ← take_bytes 8; pure (from_le_bytes value)

unfoldable pub from_utf8 : Bytes → Result Bytes
from_utf8 bytes = if is_utf8 bytes then ok bytes else err not_utf8

unfoldable pub string : Parser Bytes
string = do bytes ← byte_string; lift (from_utf8 bytes)

-- The budget that is left comes back beside the text.
unfoldable pub string_with_budget : ℕ → Parser (Bytes × ℕ)
string_with_budget budget = do
  length ← u32
  reject_if (ltb budget length || ltb max_string_bytes length)
      (invalid "encoded synonyms must not exceed 1048576 bytes")
  bytes ← take_bytes length
  text ← lift (from_utf8 bytes)
  pure (text, budget - length)

unfoldable pub validate_record_id : Bytes → Result (Unit {0})
validate_record_id id = bind (refuse_if (is_empty id) (invalid "record IDs must not be empty")) λ _.
    refuse_if (ltb max_record_id_bytes (length id))
      (invalid "record IDs must not exceed 4096 UTF-8 bytes")

unfoldable pub record_id : Parser Bytes
record_id = do id ← string; lift (validate_record_id id); pure id

unfoldable pub finish : Parser (Unit {0})
finish c =
    if c.offset == length c.bytes
    then ok (tt, c)
    else err (invalid "packed request has trailing bytes")

-- `for _ in 0..count { values.push(read()?) }`.
unfoldable pub repeat {ℓ} : {A : Type ℓ} → ℕ → Parser A → Parser (List A)
repeat zero read = pure []
repeat (suc n) read = do a ← read; more ← repeat n read; pure (a ∷ more)

-- The same loop over a state that the body updates.
unfoldable pub repeat_with {ℓ κ} :
    {S : Type ℓ} {A : Type κ} → ℕ → (S → Parser (A × S)) → S → Parser (List A × S)
repeat_with zero read s = pure ([], s)
repeat_with (suc n) read s = do
  (a, s₁) ← read s
  (more, s₂) ← repeat_with n read s₁
  pure (a ∷ more, s₂)

-- A loop whose body updates a state and keeps no value.
unfoldable pub iterate {ℓ} : {S : Type ℓ} → ℕ → (S → Parser S) → S → Parser S
iterate zero body s = pure s
iterate (suc n) body s = do s₁ ← body s; iterate n body s₁

-- A successful step of a parser, taken apart: what it read and where it left the cursor.
pub through {ℓ κ ι} :
    {A : Type ℓ} {B : Type κ} {P : Type ι} (m : Result (A × Cursor)) (f : A × Cursor → Result B)
    {b : B}
    → ((a : A) (d : Cursor) → m ≡ ok (a, d) → f (a, d) ≡ ok b → P)
    → bind m f ≡ ok b
    → P
through (ok (a, d)) f k h = k a d refl h
through (err e) f k h = absurd (cc)

-- The same for a check, and for a step that leaves the cursor alone.
pub through_check {ℓ κ} :
    {B : Type ℓ} {P : Type κ} (refused : Bool) (e : FulltextError) (c : Cursor)
    (f : Unit {0} × Cursor → Result B) {b : B}
    → (refused ≡ false → f (tt, c) ≡ ok b → P)
    → bind (reject_if refused e c) f ≡ ok b
    → P
through_check true e c f k h = absurd (cc)
through_check false e c f k h = k refl h

pub through_lift {ℓ κ ι} :
    {A : Type ℓ} {B : Type κ} {P : Type ι} (r : Result A) (c : Cursor) (f : A × Cursor → Result B)
    {b : B}
    → ((a : A) → r ≡ ok a → f (a, c) ≡ ok b → P)
    → bind (lift r c) f ≡ ok b
    → P
through_lift (ok a) c f k h = k a refl h
through_lift (err e) c f k h = absurd (cc)

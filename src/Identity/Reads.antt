-- ===== src/Identity/Reads.antt =====
-- What the readers of src/engine.rs's identity read of what was pushed before some other bytes.
use fulltext.Prelude.{
  ℕ, zero, suc, ◌+◌, ◌-◌, ◌*◌, ◌/◌, ◌^◌, ◌≤◌, ◌<◌, ◌≡◌, refl, sym, ap, ◌∙◌, arith, true, List, [],
  ◌∷◌, ◌++◌, append_assoc, some, length, length-append, get_range, take-append, drop-append,
  usize_max,
}
use native.Mathlib.Numerals.{unary_clauses}
use fulltext.Text.{Bytes, is_utf8}
use fulltext.Cursor.{from_le_bytes}
use fulltext.Identity.{
  Reader, ◌>>=◌, pure, to_le_bytes, push_string, push_each, take_range, found, take_number, text_of,
  take_string, repeat_read, read_each,
}

-- Before whatever bytes, the reader takes just these, and returns this value.
abbrev pub Reads {ℓ} : {A : Type ℓ} → Reader A → Bytes → A → Type ℓ
Reads r pushed a =
    (before rest : Bytes)
    → length (before ++ (pushed ++ rest)) ≤ usize_max
    → r (before ++ (pushed ++ rest)) (length before) ≡ some (a, length before + length pushed)

pub Reads-bind {ℓ κ} :
    {A : Type ℓ} {B : Type κ} (r : Reader A) (f : A → Reader B) (xs ys : Bytes) (a : A) (b : B)
    → Reads r xs a
    → Reads (f a) ys b
    → Reads (r >>= f) (xs ++ ys) b
Reads-bind r f xs ys a b h k before rest fits =
    let e₁ = append_assoc xs ys rest in
    let e₂ = append_assoc before xs (ys ++ rest) in
    let l₁ = length-append before xs in
    let l₂ = length-append xs ys in
    let fits₁ : length (before ++ (xs ++ (ys ++ rest))) ≤ usize_max = rw (sym e₁) fits in
    let fits₂ : length ((before ++ xs) ++ (ys ++ rest)) ≤ usize_max = rw e₂ fits₁ in
    let k₁ = k (before ++ xs) rest fits₂ in
    rw (e₁, h before (ys ++ rest) fits₁) (ground (arith, k₁, e₂, l₁, l₂))

pub get_range-append :
    (before xs rest : Bytes)
    → get_range (before ++ (xs ++ rest)) (length before) (length before + length xs) ≡ some xs
unfolding get_range
get_range-append before xs rest =
    let l₁ = length-append before (xs ++ rest) in
    let l₂ = length-append xs rest in
    let d = drop-append before (xs ++ rest) in
    let t = take-append xs rest in
    let n : length before + length xs - length before ≡ length xs = omega arith in
    rw (n, d, t) (ground (arith, l₁, l₂))

pub take_range-Reads : (xs : Bytes) → Reads (take_range (length xs)) xs xs
unfolding take_range found
take_range-Reads xs before rest fits =
    let l₁ = length-append before (xs ++ rest) in
    let l₂ = length-append xs rest in ground (arith, l₁, l₂, get_range-append before xs rest)

pub from_le_bytes-to_le_bytes :
    (width n : ℕ) → n < 256 ^ width → from_le_bytes (to_le_bytes width n) ≡ n
unfolding from_le_bytes to_le_bytes
from_le_bytes-to_le_bytes zero n h = omega arith
from_le_bytes-to_le_bytes (suc width) n h =
    let p = 256 ^ width in
    let e : 256 ^ suc width ≡ 256 * 256 ^ width = simp unary_clauses (omega arith) in
    let ih = from_le_bytes-to_le_bytes width (n / 256) (omega arith) in omega arith

length-to_le_bytes : (width n : ℕ) → length (to_le_bytes width n) ≡ width
unfolding to_le_bytes
length-to_le_bytes zero n = refl
length-to_le_bytes (suc width) n = ap suc (length-to_le_bytes width (n / 256))

pub pure-Reads {ℓ} : {A : Type ℓ} (a : A) → Reads (pure a) [] a
pure-Reads a before rest fits = ground arith

pub take_number-Reads :
    (width n : ℕ) → n < 256 ^ width → Reads (take_number width) (to_le_bytes width n) n
unfolding take_number
take_number-Reads width n h before rest fits =
    let xs = to_le_bytes width n in
    let l = length-to_le_bytes width n in
    let e = from_le_bytes-to_le_bytes width n h in
    let all = before ++ (xs ++ rest) in
    let r =
      ap (λ (w : ℕ). take_range w all (length before)) (sym l)
      ∙ take_range-Reads xs before rest fits in
    rw (r, e) refl

-- A text that fits into the format: its length has 32 bits.
abbrev pub IsText : Bytes → Type 0
IsText value = (is_utf8 value ≡ true) × (length value < 2 ^ 32)

pub take_string-Reads : (value : Bytes) → IsText value → Reads take_string (push_string value) value
unfolding take_string push_string text_of
take_string-Reads value h =
    Reads-bind (take_number 4) (λ n. take_range n >>= text_of) (to_le_bytes 4 (length value)) value
      (length value) value (take_number-Reads 4 (length value) h.1)
      (λ before rest fits. rw (take_range-Reads value before rest fits, h.0) refl)

abbrev pub All {ℓ κ} : {A : Type ℓ} → (A → Type κ) → List A → Type κ
All P [] = Unit
All P (x ∷ xs) = P x × All P xs

pub repeat_read-Reads {ℓ κ ι} :
    {A : Type ℓ} {B : Type κ} (P : A → Type ι) (r : Reader B) (push : A → Bytes) (value : A → B)
    → ((x : A) → P x → Reads r (push x) (value x))
    → (xs : List A) → All P xs
    → Reads (repeat_read (length xs) r) (push_each push xs) tt
unfolding repeat_read push_each
repeat_read-Reads P r push value k [] h = pure-Reads tt
repeat_read-Reads P r push value k (x ∷ xs) h =
    Reads-bind r (λ _. repeat_read (length xs) r) (push x) (push_each push xs) (value x) tt
      (k x h.0) (repeat_read-Reads P r push value k xs h.1)

pub read_each-Reads {ℓ κ ι} :
    {A : Type ℓ} {B : Type κ} (P : A → Type ι) (r : Reader B) (push : A → Bytes) (value : A → B)
    → ((x : A) → P x → Reads r (push x) (value x))
    → (xs : List A) → length xs < 2 ^ 16
    → All P xs
    → Reads (read_each r) (to_le_bytes 2 (length xs) ++ push_each push xs) tt
unfolding read_each
read_each-Reads P r push value k xs n h =
    Reads-bind (take_number 2) (λ count. repeat_read count r) (to_le_bytes 2 (length xs))
      (push_each push xs) (length xs) tt (take_number-Reads 2 (length xs) n)
      (repeat_read-Reads P r push value k xs h)

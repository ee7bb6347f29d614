-- ===== src/Text.antt =====
-- Texts as their UTF-8 bytes: what `String::from_utf8` accepts, and the byte classes that the
-- protocol of src/protocol.rs tests.
use fulltext.Prelude.{
  ℕ, ◌≡◌, refl, Bool, true, false, ◌&&◌, ◌||◌, List, [], ◌∷◌, Option, none, some, leb, ◌==◌,
  if◌then◌else◌,
}

abbrev pub Bytes : Type 0
Bytes = List ℕ

abbrev pub within : ℕ → ℕ → ℕ → Bool
within low high b = leb low b && leb b high

-- The ranges of the bytes that must follow a lead byte, in the table of well-formed sequences of
-- the Unicode standard; nothing if the byte leads no sequence.
following : ℕ → Option (List (ℕ × ℕ))
following b =
    let tail : ℕ × ℕ = (0x80, 0xbf) in
    if leb b 0x7f
    then some []
    else if within 0xc2 0xdf b
    then some (tail ∷ [])
    else if b == 0xe0
    then some ((0xa0, 0xbf) ∷ tail ∷ [])
    else if b == 0xed
    then some ((0x80, 0x9f) ∷ tail ∷ [])
    else if within 0xe1 0xef b
    then some (tail ∷ tail ∷ [])
    else if b == 0xf0
    then some ((0x90, 0xbf) ∷ tail ∷ tail ∷ [])
    else if within 0xf1 0xf3 b
    then some (tail ∷ tail ∷ tail ∷ [])
    else if b == 0xf4
    then some ((0x80, 0x8f) ∷ tail ∷ tail ∷ [])
    else none

-- `pending` holds the ranges that the sequence begun still wants.
is_utf8_after : List (ℕ × ℕ) → Bytes → Bool
unfolding following
is_utf8_after [] [] = true
is_utf8_after [] (b ∷ rest) = elim (following b) [
  | none ↦ false
  | some pending ↦ is_utf8_after pending rest
]
is_utf8_after (r ∷ pending) [] = false
is_utf8_after ((low, high) ∷ pending) (b ∷ rest) = within low high b && is_utf8_after pending rest

unfoldable pub is_utf8 : Bytes → Bool
unfolding is_utf8_after
is_utf8 bytes = is_utf8_after [] bytes

unfoldable pub is_ascii_digit : ℕ → Bool
is_ascii_digit = within b'0' b'9'

unfoldable pub is_ascii : ℕ → Bool
is_ascii b = leb b 0x7f

unfoldable pub is_ascii_alphanumeric : ℕ → Bool
unfolding is_ascii_digit
is_ascii_alphanumeric b = is_ascii_digit b || within b'a' b'z' b || within b'A' b'Z' b

-- `text.starts_with(prefix)`.
unfoldable pub starts_with : Bytes → Bytes → Bool
starts_with text [] = true
starts_with [] (p ∷ prefix) = false
starts_with (b ∷ text) (p ∷ prefix) = b == p && starts_with text prefix

-- Equality of texts.
unfoldable pub text_eq : Bytes → Bytes → Bool
text_eq [] [] = true
text_eq [] (c ∷ cs) = false
text_eq (b ∷ bs) [] = false
text_eq (b ∷ bs) (c ∷ cs) = b == c && text_eq bs cs

-- Whether a name is already in the set of names seen.
unfoldable pub contains : List Bytes → Bytes → Bool
unfolding text_eq
contains [] name = false
contains (seen ∷ more) name = text_eq seen name || contains more name

-- "é€😀" is text; a lone continuation byte, an overlong form and a surrogate are not.
is_utf8_accepts : is_utf8 (0xc3 ∷ 0xa9 ∷ 0xe2 ∷ 0x82 ∷ 0xac ∷ 0xf0 ∷ 0x9f ∷ 0x98 ∷ 0x80 ∷ []) ≡ true
unfolding is_utf8
is_utf8_accepts = refl

is_utf8_rejects :
    (is_utf8 (0x80 ∷ []) ≡ false)
    × (is_utf8 (0xc0 ∷ 0x80 ∷ []) ≡ false)
    × (is_utf8 (0xed ∷ 0xa0 ∷ 0x80 ∷ []) ≡ false)
unfolding is_utf8
is_utf8_rejects = (refl, refl, refl)

-- ===== src/Config/Accepted/Names.antt =====
-- Names that `validate_identity_config` of src/protocol.rs accepts: none is empty, reserved, or
-- there twice.
use fulltext.Prelude.{
  ◌≡◌, refl, ap, true, false, ◌||◌, List, [], ◌∷◌, arith, String, is_empty, Bool-cases, inl, inr,
}
use fulltext.Error.{ok, invalid, refuse_if, through_result}
use fulltext.Text.{Bytes, text_eq, starts_with, contains}
use fulltext.Config.{validate_names, reserved}

unfoldable pub AreNames : List Bytes → Type 0
AreNames [] = Unit {0}
AreNames (name ∷ names) =
    (is_empty name ≡ false)
    × (starts_with name reserved ≡ false)
    × (contains names name ≡ false)
    × AreNames names

text_eq-eq : (a b : Bytes) → text_eq a b ≡ true → a ≡ b
unfolding text_eq
text_eq-eq [] [] h = refl
text_eq-eq [] (c ∷ b) h = absurd (cc)
text_eq-eq (x ∷ a) [] h = absurd (cc)
text_eq-eq (x ∷ a) (c ∷ b) h =
    let rest : text_eq a b ≡ true = ground arith in
    let first : x ≡ c = ground arith in cc (first, text_eq-eq a b rest)

text_eq_refl : (a : Bytes) → text_eq a a ≡ true
unfolding text_eq
text_eq_refl [] = refl
text_eq_refl (x ∷ a) = ground (arith, text_eq_refl a)

-- What was seen is not met again.
apart :
    (message : String) (names seen : List Bytes) (m : Bytes)
    → validate_names message names seen ≡ ok tt
    → contains seen m ≡ true
    → contains names m ≡ false
unfolding validate_names contains
apart message [] seen m h known = refl
apart message (n ∷ names) seen m h known =
    through_result
      (refuse_if (is_empty n || starts_with n reserved || contains seen n) (invalid message)) _
      (λ _ e rest.
        let other : contains names m ≡ false =
          apart message names (n ∷ seen) m rest (ground arith) in
        let fresh : contains seen n ≡ false = ground arith in
        elim (Bool-cases (text_eq n m)) [
          | inl same ↦
              let equal = text_eq-eq n m same in absurd (ground (arith, ap (contains seen) equal))
          | inr differ ↦ rw (differ, other) refl
        ])
      h

pub validate_names-AreNames :
    (message : String) (names seen : List Bytes)
    → validate_names message names seen ≡ ok tt
    → AreNames names
unfolding validate_names AreNames contains
validate_names-AreNames message [] seen h = tt
validate_names-AreNames message (n ∷ names) seen h =
    through_result
      (refuse_if (is_empty n || starts_with n reserved || contains seen n) (invalid message)) _
      (λ _ e rest. (
        ground arith,
        ground arith,
        apart message names (n ∷ seen) n rest (ground (arith, text_eq_refl n)),
        validate_names-AreNames message names (n ∷ seen) rest,
      ))
      h

-- ===== src/Terms/Prefix.antt =====
-- The terms of the range that ends at `prefix_end` of src/engine.rs are those with the prefix.
use fulltext.Prelude.{
  ℕ, ◌+◌, ◌≤◌, ◌≡◌, refl, ap, arith, Bool, true, false, ◌||◌, ◌&&◌, not, [], ◌∷◌, ◌++◌, Option,
  none, some, ltb, ◌==◌, if◌then◌else◌, Bool-cases, inl, inr,
}
use mathlib.Core.List.{reverse, reverse-reverse, reverse-cons}
use fulltext.Text.{Bytes, starts_with}
use fulltext.Terms.{raise_last, prefix_end}

-- The order of byte strings, in which an index stores its terms.
unfoldable pub before : Bytes → Bytes → Bool
before [] [] = false
before [] (y ∷ ys) = true
before (x ∷ xs) [] = false
before (x ∷ xs) (y ∷ ys) = ltb x y || (x == y && before xs ys)

-- A term lies in the range from `start`, included, to `end`, excluded, where there is an end.
unfoldable pub in_range : Bytes → Option Bytes → Bytes → Bool
unfolding before
in_range start none term = not (before term start)
in_range start (some end) term = not (before term start) && before term end

-- The end of the range, read from the front.
prefix_end_front : Bytes → Option Bytes
prefix_end_front [] = none
prefix_end_front (b ∷ bytes) = elim (prefix_end_front bytes) [
  | some end ↦ some (b ∷ end)
  | none ↦ if b == 255 then none else some ((b + 1) ∷ [])
]

nothing_before : (term : Bytes) → before term [] ≡ false
unfolding before
nothing_before [] = refl
nothing_before (x ∷ term) = refl

abbrev pub AreBytes : Bytes → Type 0
AreBytes [] = Unit
AreBytes (b ∷ bytes) = (b ≤ 255) × AreBytes bytes

abbrev raised : ℕ → Option Bytes → Option Bytes
raised b (some end) = some (b ∷ end)
raised b none = if b == 255 then none else some ((b + 1) ∷ [])

in_range-cons :
    (b x : ℕ) (bytes term : Bytes) (o : Option Bytes)
    → x ≤ 255
    → in_range bytes o term ≡ starts_with term bytes
    → in_range (b ∷ bytes) (raised b o) (x ∷ term) ≡ starts_with (x ∷ term) (b ∷ bytes)
unfolding in_range before starts_with
in_range-cons b x bytes term (some end) h e = ground arith
in_range-cons b x bytes term none h e = ground (arith, nothing_before term)

in_range-nil :
    (b : ℕ) (bytes : Bytes) (o : Option Bytes) → in_range (b ∷ bytes) (raised b o) [] ≡ false
unfolding in_range before
in_range-nil b bytes (some end) = refl
in_range-nil b bytes none = ground arith

in_range-front :
    (prefix term : Bytes)
    → AreBytes term
    → in_range prefix (prefix_end_front prefix) term ≡ starts_with term prefix
unfolding prefix_end_front starts_with in_range
in_range-front [] term h = rw (nothing_before term) refl
in_range-front (b ∷ prefix) [] h = in_range-nil b prefix (prefix_end_front prefix)
in_range-front (b ∷ prefix) (x ∷ term) h =
    in_range-cons b x prefix term (prefix_end_front prefix) h.0 (in_range-front prefix term h.1)

prefix_end_front-append :
    (bytes : Bytes) (last : ℕ)
    → prefix_end_front (bytes ++ (last ∷ []))
      ≡ (if last == 255 then prefix_end_front bytes else some (bytes ++ ((last + 1) ∷ [])))
unfolding prefix_end_front
prefix_end_front-append [] last = refl
prefix_end_front-append (b ∷ bytes) last =
    let ih = prefix_end_front-append bytes last in
    elim (Bool-cases (last == 255)) [ inl e ↦ rw (ih, e) refl | inr e ↦ rw (ih, e) refl ]

raise_last-reverse : (bytes : Bytes) → raise_last bytes ≡ prefix_end_front (reverse bytes)
unfolding raise_last
raise_last-reverse [] = unfold prefix_end_front in refl
raise_last-reverse (last ∷ bytes) =
    let ih = raise_last-reverse bytes in
    let a = prefix_end_front-append (reverse bytes) last in
    let r₁ = reverse-cons last bytes in
    let r₂ = reverse-cons (last + 1) bytes in
    elim (Bool-cases (last == 255)) [
      | inl e ↦ rw (r₁, a, e) ih
      | inr e ↦ rw (r₁, a, e) (ap some r₂)
    ]

-- A term of bytes lies between a prefix, included, and the end that is computed for it, excluded,
-- exactly where it starts with the prefix; with no end, all from the prefix on do.
pub in_range-prefix_end :
    (prefix term : Bytes)
    → AreBytes term
    → in_range prefix (prefix_end prefix) term ≡ starts_with term prefix
unfolding prefix_end
in_range-prefix_end prefix term h =
    let e = raise_last-reverse (reverse prefix) in
    let r = reverse-reverse prefix in rw (e, r) (in_range-front prefix term h)

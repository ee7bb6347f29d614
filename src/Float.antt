-- ===== src/Float.antt =====
-- IEEE 754 numbers as their bit patterns, with the tests that the protocol makes on them. Two
-- patterns of one sign are ordered as the numbers that they stand for.
use fulltext.Prelude.{ℕ, ◌/◌, ◌%◌, ◌^◌, Bool, ◌&&◌, ◌||◌, not, ltb, leb, ◌==◌, if◌then◌else◌}

-- A finite number's exponent field is not all ones.
unfoldable pub f32_is_finite : ℕ → Bool
f32_is_finite bits = ltb (bits / 2 ^ 23 % 2 ^ 8) 255

unfoldable pub f64_is_finite : ℕ → Bool
f64_is_finite bits = ltb (bits / 2 ^ 52 % 2 ^ 11) 2047

unfoldable pub f32_is_sign_negative : ℕ → Bool
f32_is_sign_negative bits = bits / 2 ^ 31 % 2 == 1

-- The pattern of 100.0 is 0x42c8_0000.
unfoldable pub f32_gt_hundred : ℕ → Bool
unfolding f32_is_sign_negative
f32_gt_hundred bits = not (f32_is_sign_negative bits) && ltb 0x42c8_0000 bits

-- At or below zero, for a number that is finite: either zero, or negative.
unfoldable pub f32_not_positive : ℕ → Bool
unfolding f32_is_sign_negative
f32_not_positive bits = f32_is_sign_negative bits || bits == 0

-- Sign and magnitude of an `f64`; the two zeros have the magnitude 0.
abbrev f64_is_negative : ℕ → Bool
f64_is_negative bits = leb (2 ^ 63) bits

abbrev f64_magnitude : ℕ → ℕ
f64_magnitude bits = bits % 2 ^ 63

-- `a >= b`, for numbers that are finite.
unfoldable pub f64_ge : ℕ → ℕ → Bool
f64_ge a b =
    if f64_is_negative a
    then (if f64_is_negative b
        then leb (f64_magnitude a) (f64_magnitude b)
        else f64_magnitude a == 0 && f64_magnitude b == 0)
    else f64_is_negative b || leb (f64_magnitude b) (f64_magnitude a)

-- `a == b`, for numbers that are finite.
unfoldable pub f64_eq : ℕ → ℕ → Bool
f64_eq a b = a == b || f64_magnitude a == 0 && f64_magnitude b == 0

-- At or below zero, for a number that is finite.
unfoldable pub f64_not_positive : ℕ → Bool
f64_not_positive bits = f64_is_negative bits || f64_magnitude bits == 0

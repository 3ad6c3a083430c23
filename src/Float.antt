-- ===== src/Float.antt =====
-- `f32` (IEEE 754 binary32), the type of scores and confidences in src/contract.rs and
-- src/capture.rs. A finite value is an exact multiple of 2^-149, so order and `min` are exact; the
-- two zeros, which no comparison tells apart, are one value.
use opencode_native_memory.Prelude.{ℕ, ◌*◌, ◌^◌, ◌≡◌, Bool, true, false, ◌&&◌, arith, if◌then◌else◌}
use opencode_native_memory.Prelude.Int.{ℤ, pos, leb_ℤ, ltb_ℤ}

pub data F32 : Type 0 where
  nan : F32
  infinity neg_infinity : F32
  finite : ℤ → F32

-- The non-negative number `n * 2 ^ k / 2 ^ 149`, and whole numbers.
abbrev pub scaled : ℕ → ℕ → F32
scaled n k = finite (pos (n * 2 ^ k))

abbrev pub whole : ℕ → F32
whole n = scaled n 149

abbrev pub is_finite : F32 → Bool
is_finite (finite _) = true
is_finite nan = false
is_finite infinity = false
is_finite neg_infinity = false

-- `a < b` and `a <= b`: false where either is NaN
unfoldable pub flt : F32 → F32 → Bool
flt (finite a) (finite b) = ltb_ℤ a b
flt (finite a) infinity = true
flt neg_infinity (finite b) = true
flt neg_infinity infinity = true
flt _ _ = false

unfoldable pub fle : F32 → F32 → Bool
fle (finite a) (finite b) = leb_ℤ a b
fle (finite a) infinity = true
fle infinity infinity = true
fle neg_infinity (finite b) = true
fle neg_infinity infinity = true
fle neg_infinity neg_infinity = true
fle _ _ = false

-- `f32::min`: the other argument where one is NaN
unfoldable pub fmin : F32 → F32 → F32
unfolding flt
fmin nan b = b
fmin infinity b = elim b [ nan ↦ infinity | x ↦ x ]
fmin neg_infinity b = neg_infinity
fmin (finite a) nan = finite a
fmin (finite a) infinity = finite a
fmin (finite a) neg_infinity = neg_infinity
fmin (finite a) (finite b) = if ltb_ℤ b a then finite b else finite a

-- `(0.0..=1.0).contains(&v)`
unfoldable pub in_unit : F32 → Bool
unfolding fle
in_unit v = fle (whole 0) v && fle v (whole 1)

pub fmin-le_right : (a b : F32) → in_unit b ≡ true → in_unit a ≡ true → fle (fmin a b) b ≡ true
unfolding fmin in_unit
fmin-le_right nan b hb ha = cc
fmin-le_right infinity b hb ha = cc
fmin-le_right neg_infinity b hb ha = cc
fmin-le_right (finite a) nan hb ha = cc
fmin-le_right (finite a) infinity hb ha = cc
fmin-le_right (finite a) neg_infinity hb ha = cc
fmin-le_right (finite a) (finite b) hb ha = ground arith

pub fmin-in_unit : (a b : F32) → in_unit a ≡ true → in_unit b ≡ true → in_unit (fmin a b) ≡ true
unfolding fmin in_unit
fmin-in_unit nan b ha hb = cc
fmin-in_unit infinity b ha hb = cc
fmin-in_unit neg_infinity b ha hb = cc
fmin-in_unit (finite a) nan ha hb = cc
fmin-in_unit (finite a) infinity ha hb = cc
fmin-in_unit (finite a) neg_infinity ha hb = cc
fmin-in_unit (finite a) (finite b) ha hb = ground arith

-- `f64` (IEEE 754 binary64), in units of 2^-1074
pub data F64 : Type 0 where
  nan64 : F64
  infinity64 neg_infinity64 : F64
  finite64 : ℤ → F64

abbrev pub scaled64 : ℕ → ℕ → F64
scaled64 n k = finite64 (pos (n * 2 ^ k))

abbrev pub is_finite64 : F64 → Bool
is_finite64 (finite64 _) = true
is_finite64 nan64 = false
is_finite64 infinity64 = false
is_finite64 neg_infinity64 = false

-- `(low..=high).contains(&v)` for finite bounds
unfoldable pub within64 : ℤ → ℤ → F64 → Bool
within64 low high (finite64 v) = leb_ℤ low v && leb_ℤ v high
within64 low high nan64 = false
within64 low high infinity64 = false
within64 low high neg_infinity64 = false

unfoldable pub flt64 : F64 → F64 → Bool
flt64 (finite64 a) (finite64 b) = ltb_ℤ a b
flt64 (finite64 a) infinity64 = true
flt64 neg_infinity64 (finite64 b) = true
flt64 neg_infinity64 infinity64 = true
flt64 _ _ = false

abbrev pub is_nan64 : F64 → Bool
is_nan64 nan64 = true
is_nan64 (finite64 _) = false
is_nan64 infinity64 = false
is_nan64 neg_infinity64 = false

-- `f64::max`: the other argument where one is NaN
unfoldable pub fmax64 : F64 → F64 → F64
unfolding flt64
fmax64 a b = if is_nan64 a then b else if is_nan64 b then a else if flt64 a b then b else a

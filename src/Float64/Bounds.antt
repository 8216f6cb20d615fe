-- ===== src/Float64/Bounds.antt =====
-- Which results of float64 arithmetic are finite, and which are numbers that are not negative.
use qbitx_pool.Base.{
  ℕ, ◌+◌, ◌*◌, ◌^◌, ◌≤◌, ◌<◌, ◌==◌, ltb, ◌≡◌, refl, inl, inr, Bool, true, false, Bool-cases, ℤ, pos,
  negsuc, ◌+ℤ◌, IsInt64, arith,
}
use qbitx_pool.Float64.{
  Float64, finite, inf, nan, one_units, bit_length, round_ratio, pack, magnitude, is_negative,
  signed, of_int64, add, mul, div, lt, le, zero_f,
}
use native.Mathlib.Nat.{div-one}
use qbitx_pool.Float64.Rounding.{round_ratio_pos, round_ratio_le}

abbrev pub IsFinite : Float64 → Type 0
IsFinite (finite z) = Unit
IsFinite (inf s) = ⊥
IsFinite nan = ⊥

-- Above 0.
abbrev IsPositive : Float64 → Type 0
IsPositive (finite (pos n)) = 1 ≤ n
IsPositive (finite (negsuc n)) = ⊥
IsPositive (inf true) = ⊥
IsPositive (inf false) = Unit
IsPositive nan = ⊥

-- Every float64 but NaN.
abbrev pub IsNumber : Float64 → Type 0
IsNumber (finite z) = Unit
IsNumber (inf s) = Unit
IsNumber nan = ⊥

pub le_refl : (a : Float64) → IsNumber a → le a a ≡ true
unfolding le
le_refl (finite z) h = ground arith
le_refl (inf true) h = refl
le_refl (inf false) h = refl
le_refl nan h = absurd h

-- Of two numbers, one that is not below the other is at least the other.
pub lt-le : (a b : Float64) → IsNumber a → IsNumber b → lt a b ≡ false → le b a ≡ true
unfolding lt le
lt-le (finite a) (finite b) m n h = ground arith
lt-le (finite a) (inf true) m n h = refl
lt-le (finite a) (inf false) m n h = ground arith
lt-le (inf true) (finite b) m n h = ground arith
lt-le (inf false) (finite b) m n h = refl
lt-le (inf true) (inf true) m n h = refl
lt-le (inf true) (inf false) m n h = ground arith
lt-le (inf false) (inf true) m n h = refl
lt-le (inf false) (inf false) m n h = refl
lt-le nan b m n h = absurd m
lt-le (finite a) nan m n h = absurd n
lt-le (inf a) nan m n h = absurd n

pub lt-IsNumber : (a b : Float64) → lt a b ≡ true → IsNumber b
unfolding lt
lt-IsNumber (finite a) (finite b) h = tt
lt-IsNumber (finite a) (inf s) h = tt
lt-IsNumber (finite a) nan h = ground arith
lt-IsNumber (inf s) (finite b) h = tt
lt-IsNumber (inf s) (inf t) h = tt
lt-IsNumber (inf s) nan h = ground arith
lt-IsNumber nan b h = ground arith

below_lem : (n m : ℕ) → n < m → ltb n m ≡ true
below_lem n m h = ground arith

pack-IsFinite : (s : Bool) (n : ℕ) → n < 2 ^ 2098 → IsFinite (pack s n)
pack-IsFinite s n h = rw (below_lem n (2 ^ 2098) h) tt

pack-IsNumber : (s : Bool) (n : ℕ) → IsNumber (pack s n)
pack-IsNumber s n = elim (Bool-cases (ltb n (2 ^ 2098))) [ inl h ↦ rw h tt | inr h ↦ rw h tt ]

magnitude_le : (v : ℤ) → IsInt64 v → magnitude v ≤ 2 ^ 63
magnitude_le (pos n) h = omega (arith, h)
magnitude_le (negsuc n) h = omega (arith, h)

-- The float64 of a positive int64 is positive.
pub of_int64_pos : (n : ℕ) → 1 ≤ n → le (of_int64 (pos n)) zero_f ≡ false
unfolding of_int64 one_units le zero_f
of_int64_pos n h =
    packed (round_ratio (n * one_units) 1) (round_ratio_pos (n * one_units) (omega arith))
  where
    packed : (m : ℕ) → 1 ≤ m → le (pack false m) (finite (pos 0)) ≡ false
    packed m h = elim (Bool-cases (ltb m (2 ^ 2098))) [
      | inl small ↦ rw small (ground arith)
      | inr big ↦ rw big refl
    ]

pub of_int64-IsNumber : (v : ℤ) → IsNumber (of_int64 v)
unfolding of_int64
of_int64-IsNumber v = pack-IsNumber _ _

pub of_int64-IsFinite : (v : ℤ) → IsInt64 v → IsFinite (of_int64 v)
unfolding of_int64 one_units
of_int64-IsFinite v h = pack-IsFinite (is_negative v) (round_ratio (magnitude v * one_units) 1) (
    omega (
      arith,
      round_ratio_le (magnitude v * one_units) 1 (omega arith),
      div-one (magnitude v * one_units),
      magnitude_le v h,
    ))

pub mul-IsNumber : (a b : Float64) → IsFinite a → IsFinite b → IsNumber (mul a b)
unfolding mul
mul-IsNumber (finite a) (finite b) h k = pack-IsNumber _ _
mul-IsNumber (inf s) b h k = absurd h
mul-IsNumber nan b h k = absurd h
mul-IsNumber (finite a) (inf s) h k = absurd k
mul-IsNumber (finite a) nan h k = absurd k

-- A quotient is a number where the first is finite and the second is above 0 or infinite.
pub div-IsNumber :
    (a b : Float64) → IsFinite a → IsNumber b → le b zero_f ≡ false → IsNumber (div a b)
unfolding div le zero_f
div-IsNumber (finite a) (finite (pos n)) h k p = elim (Bool-cases (n == 0)) [
  | inl z ↦ ground arith
  | inr some' ↦ rw some' (pack-IsNumber _ _)
]
div-IsNumber (finite a) (finite (negsuc n)) h k p = ground arith
div-IsNumber (finite a) (inf s) h k p = tt
div-IsNumber (finite a) nan h k p = absurd k
div-IsNumber (inf s) b h k p = absurd h
div-IsNumber nan b h k p = absurd h

-- Finite, with a magnitude of at most `n` units.
abbrev Within : ℕ → Float64 → Type 0
Within n (finite z) = magnitude z ≤ n
Within n (inf s) = ⊥
Within n nan = ⊥

Within-IsFinite : (n : ℕ) (a : Float64) → Within n a → IsFinite a
Within-IsFinite n (finite z) h = tt
Within-IsFinite n (inf s) h = absurd h
Within-IsFinite n nan h = absurd h

magnitude-signed : (s : Bool) (n : ℕ) → magnitude (signed s n) ≡ n
magnitude-signed true n = ground arith
magnitude-signed false n = refl

pack-Within : (s : Bool) (n m : ℕ) → n ≤ m → n < 2 ^ 2098 → Within m (pack s n)
pack-Within s n m k h = rw (below_lem n (2 ^ 2098) h, magnitude-signed s n) k

of_int64-Within : (n : ℕ) → n < 2 ^ 63 → Within (2 ^ 1140) (of_int64 (pos n))
unfolding of_int64 one_units
of_int64-Within n h =
    let r = round_ratio_le (n * one_units) 1 (omega arith) in
    pack-Within false (round_ratio (n * one_units) 1) (2 ^ 1140)
      (omega (arith, r, div-one (n * one_units))) (omega (arith, r, div-one (n * one_units)))

billion : of_int64 (pos (10 ^ 9)) ≡ finite (pos (10 ^ 9 * 2 ^ 1074))
unfolding of_int64 one_units round_ratio bit_length
billion = refl

div-Within :
    (a : Float64) → Within (2 ^ 1140) a → Within (2 ^ 1142) (div a (of_int64 (pos (10 ^ 9))))
unfolding div one_units
div-Within (finite z) h =
    let r = round_ratio_le (magnitude z * one_units) (10 ^ 9 * 2 ^ 1074) (omega arith) in
    rw billion (
      pack-Within _ (round_ratio (magnitude z * one_units) (10 ^ 9 * 2 ^ 1074)) (2 ^ 1142)
        (omega (arith, r, h)) (omega (arith, r, h)))
div-Within (inf s) h = absurd h
div-Within nan h = absurd h

magnitude-+ℤ : (a b : ℤ) → magnitude (a +ℤ b) ≤ magnitude a + magnitude b
unfolding ◌+ℤ◌
magnitude-+ℤ (pos a) (pos b) = ground arith
magnitude-+ℤ (pos a) (negsuc b) = ground arith
magnitude-+ℤ (negsuc a) (pos b) = ground arith
magnitude-+ℤ (negsuc a) (negsuc b) = ground arith

add-Within : (a b : Float64) → Within (2 ^ 1140) a → Within (2 ^ 1142) b → IsFinite (add a b)
unfolding add
add-Within (finite a) (finite b) h k =
    let r = round_ratio_le (magnitude (a +ℤ b)) 1 (omega arith) in
    pack-IsFinite (is_negative (a +ℤ b)) (round_ratio (magnitude (a +ℤ b)) 1)
      (omega (arith, r, div-one (magnitude (a +ℤ b)), magnitude-+ℤ a b, h, k))
add-Within (finite a) (inf s) h k = absurd k
add-Within (finite a) nan h k = absurd k
add-Within (inf s) b h k = absurd h
add-Within nan b h k = absurd h

-- What Duration.Seconds computes is finite, for every duration that is not negative.
pub seconds-IsFinite :
    (n m : ℕ)
    → n < 2 ^ 63
    → m < 2 ^ 63
    → IsFinite (add (of_int64 (pos n)) (div (of_int64 (pos m)) (of_int64 (pos (10 ^ 9)))))
seconds-IsFinite n m h k =
    add-Within (of_int64 (pos n)) (div (of_int64 (pos m)) (of_int64 (pos (10 ^ 9))))
      (of_int64-Within n h) (div-Within (of_int64 (pos m)) (of_int64-Within m k))

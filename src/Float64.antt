-- ===== src/Float64.antt =====
-- Go's float64, for the code that computes with difficulties, weights and percentages. Every finite
-- double is a whole multiple of 2 ^ -1074, so it is kept exactly, as that integer; arithmetic is the
-- exact result rounded to 53 significant bits, ties to even, as IEEE 754 has it. The two zeros are
-- one value: only a division by zero could tell them apart, and none here divides by a negative
-- zero.
pub mod Rounding
pub mod Bounds
use qbitx_pool.Base.{
  ℕ, zero, suc, ◌+◌, ◌-◌, ◌*◌, ◌/◌, ◌%◌, ◌^◌, ltb, leb, ◌==◌, if◌then◌else◌, Bool, true, false, not,
  ◌&&◌, ◌||◌, ℤ, pos, negsuc, sub_ℕ, ◌+ℤ◌, ltb_ℤ, leb_ℤ,
}

-- exclusive or, of two signs
abbrev pub xor : Bool → Bool → Bool
xor true b = not b
xor false b = b

pub data Float64 : Type 0 where
  -- in units of 2 ^ -1074
  finite : ℤ → Float64
  -- `inf true` is the negative infinity
  inf : Bool → Float64
  nan : Float64

-- How many units make 1.
unfoldable pub one_units : ℕ
one_units = 2 ^ 1074

-- The number of bits of `n`, for `n` below 2 ^ (2 ^ k): is the upper half in use, then count on in
-- the half that decides.
unfoldable pub bit_length : ℕ → ℕ → ℕ
bit_length zero n = if n == 0 then 0 else 1
bit_length (suc k) n =
    let half = 2 ^ k in
    let upper = leb (2 ^ half) n in
    (if upper then half else 0) + bit_length k (if upper then n / 2 ^ half else n)

-- `p / q` rounded to a multiple of `step`, ties to even.
abbrev pub nearest : ℕ → ℕ → ℕ → ℕ
nearest p q step =
    let d = q * step in
    let k = p / d in
    let r = p % d in
    (if ltb (2 * r) d then k else if ltb d (2 * r) then k + 1 else k + k % 2) * step

-- A product of two doubles has fewer than 4,200 bits, so 2 ^ 13 are enough.
unfoldable pub round_ratio : ℕ → ℕ → ℕ
unfolding bit_length
round_ratio p q = nearest p q (2 ^ (bit_length 13 (p / q) - 53))

abbrev pub magnitude : ℤ → ℕ
magnitude (pos n) = n
magnitude (negsuc n) = suc n

abbrev pub is_negative : ℤ → Bool
is_negative (pos n) = false
is_negative (negsuc n) = true

abbrev pub signed : Bool → ℕ → ℤ
signed true n = sub_ℕ 0 n
signed false n = pos n

-- A magnitude with its sign; from 2 ^ 1024 on it is infinite.
abbrev pub pack : Bool → ℕ → Float64
pack neg n = if ltb n (2 ^ 2098) then finite (signed neg n) else inf neg

-- The double nearest to `p / q`: how a decimal literal of the configuration is read.
unfoldable pub of_ratio : ℕ → ℕ → Float64
unfolding round_ratio one_units
of_ratio p q = pack false (round_ratio (p * one_units) q)

-- float64(v) of an int64.
unfoldable pub of_int64 : ℤ → Float64
unfolding round_ratio one_units
of_int64 v = pack (is_negative v) (round_ratio (magnitude v * one_units) 1)

unfoldable pub neg : Float64 → Float64
neg (finite a) = finite (signed (not (is_negative a)) (magnitude a))
neg (inf s) = inf (not s)
neg nan = nan

unfoldable pub add : Float64 → Float64 → Float64
unfolding round_ratio ◌+ℤ◌
add (finite a) (finite b) = pack (is_negative (a +ℤ b)) (round_ratio (magnitude (a +ℤ b)) 1)
add (finite a) (inf s) = inf s
add (finite a) nan = nan
add (inf s) (finite b) = inf s
add (inf s) (inf t) = if xor s t then nan else inf s
add (inf s) nan = nan
add nan b = nan

unfoldable pub sub : Float64 → Float64 → Float64
unfolding add neg
sub a b = add a (neg b)

abbrev pub infinite : Bool → ℤ → Float64
infinite s a = if magnitude a == 0 then nan else inf (xor s (is_negative a))

unfoldable pub mul : Float64 → Float64 → Float64
unfolding round_ratio one_units
mul (finite a) (finite b) =
    pack (xor (is_negative a) (is_negative b)) (round_ratio (magnitude a * magnitude b) one_units)
mul (finite a) (inf s) = infinite s a
mul (finite a) nan = nan
mul (inf s) (finite b) = infinite s b
mul (inf s) (inf t) = inf (xor s t)
mul (inf s) nan = nan
mul nan b = nan

unfoldable pub div : Float64 → Float64 → Float64
unfolding round_ratio one_units
div (finite a) (finite b) =
    if magnitude b == 0
    then infinite false a
    else pack (xor (is_negative a) (is_negative b))
        (round_ratio (magnitude a * one_units) (magnitude b))
div (finite a) (inf s) = finite (pos 0)
div (finite a) nan = nan
div (inf s) (finite b) = inf (xor s (is_negative b))
div (inf s) (inf t) = nan
div (inf s) nan = nan
div nan b = nan

-- The order; a comparison with NaN is false.
unfoldable pub lt : Float64 → Float64 → Bool
lt (finite a) (finite b) = ltb_ℤ a b
lt (finite a) (inf s) = not s
lt (finite a) nan = false
lt (inf s) (finite b) = s
lt (inf s) (inf t) = s && not t
lt (inf s) nan = false
lt nan b = false

unfoldable pub le : Float64 → Float64 → Bool
le (finite a) (finite b) = leb_ℤ a b
le (finite a) (inf s) = not s
le (finite a) nan = false
le (inf s) (finite b) = s
le (inf s) (inf t) = s || not t
le (inf s) nan = false
le nan b = false

unfoldable pub eq : Float64 → Float64 → Bool
unfolding le
eq a b = le a b && le b a

unfoldable pub abs : Float64 → Float64
abs (finite a) = finite (pos (magnitude a))
abs (inf s) = inf false
abs nan = nan

-- math.Floor, math.Trunc (the first result of math.Modf) and math.Round (halves away from zero).
unfoldable pub floor : Float64 → Float64
unfolding one_units
floor (finite (pos n)) = finite (pos (n / one_units * one_units))
floor (finite (negsuc n)) = finite (sub_ℕ 0 ((n / one_units + 1) * one_units))
floor (inf s) = inf s
floor nan = nan

unfoldable pub trunc : Float64 → Float64
unfolding one_units
trunc (finite a) = finite (signed (is_negative a) (magnitude a / one_units * one_units))
trunc (inf s) = inf s
trunc nan = nan

unfoldable pub round : Float64 → Float64
unfolding one_units
round (finite a) =
    finite (signed (is_negative a) ((magnitude a + one_units / 2) / one_units * one_units))
round (inf s) = inf s
round nan = nan

-- int64(v): the integer part. Out of range the language leaves the value to the implementation; this
-- is the one of amd64.
unfoldable pub to_int64 : Float64 → ℤ
unfolding one_units
to_int64 (finite a) =
    let n = magnitude a / one_units in
    if ltb n (2 ^ 63) then signed (is_negative a) n else negsuc (2 ^ 63 - 1)
to_int64 (inf s) = negsuc (2 ^ 63 - 1)
to_int64 nan = negsuc (2 ^ 63 - 1)

-- The literals that the program compares with.
unfoldable pub zero_f : Float64
zero_f = finite (pos 0)

unfoldable pub one_f : Float64
unfolding one_units
one_f = finite (pos one_units)

unfoldable pub hundred : Float64
unfolding one_units
hundred = finite (pos (100 * one_units))

-- 1e-9
unfoldable pub nano : Float64
unfolding of_ratio
nano = of_ratio 1 (10 ^ 9)

-- An `unfolding` line that names this opens every operation, for a run on concrete numbers.
unfoldable pub operations : Unit {0}
unfolding of_ratio of_int64 neg add sub mul div lt le eq abs floor trunc round to_int64 one_units
    zero_f one_f hundred nano
operations = tt

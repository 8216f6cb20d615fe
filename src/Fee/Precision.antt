-- ===== src/Fee/Precision.antt =====
-- Percentages with two decimals, as the configuration gives them: which of the two fee functions
-- keeps the intended number of basis points through floating point.
use qbitx_pool.Base.{
  ℕ, ◌*◌, ◌/◌, ◌^◌, ◌≤◌, ◌<◌, ◌≡◌, refl, ℤ, pos, ◌⊎◌, arith, Bool, true, false, ◌&&◌, ◌||◌, not,
  ◌==◌, negsuc, all_below, all_below_sound,
}
use qbitx_pool.Float64.{
  Float64, lt, le, mul, sub, abs, trunc, round, to_int64, of_ratio, zero_f, hundred, nano,
  operations,
}
use qbitx_pool.Fee.{calc_developer_fee, calc_fee_sat}
use qbitx_pool.Fee.Bounds.{capped_fee_exact}

abbrev is_int : ℤ → ℕ → Bool
is_int (pos m) n = m == n
is_int (negsuc m) n = false

is_int→eq : (z : ℤ) (n : ℕ) → is_int z n ≡ true → z ≡ pos n
is_int→eq (pos m) n h = ground arith
is_int→eq (negsuc m) n h = cc

-- The literal of n hundredths.
abbrev pub percent : ℕ → Float64
percent n = of_ratio n 100

-- What calcFeeSat tests and rounds, at the literal of n hundredths.
abbrev rounds_right : ℕ → Bool
rounds_right n =
    n == 0
    || (not (le (percent n) zero_f)
        && not (le hundred (percent n))
        && is_int (to_int64 (round (mul (percent n) hundred))) n)

-- What calcDeveloperFee tests: it drops the fee, or has the right basis points.
abbrev truncates_right : ℕ → Bool
truncates_right n =
    n == 0
    || (not (le (percent n) zero_f)
        && not (le hundred (percent n))
        && (lt nano (abs (sub (mul (percent n) hundred) (trunc (mul (percent n) hundred))))
            || is_int (to_int64 (trunc (mul (percent n) hundred))) n))

rounds_right_table : all_below 1000 rounds_right ≡ true
unfolding all_below operations
rounds_right_table = refl

truncates_right_table : all_below 1000 truncates_right ≡ true
unfolding all_below operations
truncates_right_table = refl

-- Every developer or pool fee of two decimals below 10 % is deducted from the reward as exactly its
-- share, rounded down: floating point loses nothing. Conditions: the amount and the fee are
-- positive, and their product fits an int64.
pub calc_fee_sat_exact :
    (t n : ℕ)
    → 1 ≤ t
    → 1 ≤ n
    → n < 1000
    → t * n < 2 ^ 63
    → calc_fee_sat (pos t) (percent n) ≡ pos (t * n / 10000)
unfolding calc_fee_sat
calc_fee_sat_exact t n ht hn h fits = ground (
  arith,
  all_below_sound 1000 rounds_right rounds_right_table n h,
  is_int→eq (to_int64 (round (mul (percent n) hundred))) n,
  capped_fee_exact t n,
)

-- At the percentages of two decimals below 10 % the coinbase transaction pays the developer exactly
-- the share, rounded down, or nothing. Conditions: the amount and the fee are positive, and their
-- product fits an int64.
calc_developer_fee_exact :
    (t n : ℕ)
    → 1 ≤ t
    → 1 ≤ n
    → n < 1000
    → t * n < 2 ^ 63
    → (calc_developer_fee (pos t) (percent n) ≡ pos (t * n / 10000))
      ⊎ (calc_developer_fee (pos t) (percent n) ≡ pos 0)
unfolding calc_developer_fee
calc_developer_fee_exact t n ht hn h fits = ground (
  arith,
  all_below_sound 1000 truncates_right truncates_right_table n h,
  is_int→eq (to_int64 (trunc (mul (percent n) hundred))) n,
  capped_fee_exact t n,
)

percent_29 :
    (le (percent 29) zero_f ≡ false)
    × (le hundred (percent 29) ≡ false)
    × (lt nano (abs (sub (mul (percent 29) hundred) (trunc (mul (percent 29) hundred)))) ≡ true)
unfolding operations
percent_29 = (refl, refl, refl)

-- At 0.29 % the two functions part: from 345 satoshi on the ledger deducts a positive developer
-- fee, which the coinbase transaction does not pay. Condition: the product fits an int64.
pub developer_fee_dropped :
    (t : ℕ)
    → 345 ≤ t
    → t * 29 < 2 ^ 63
    → (calc_developer_fee (pos t) (percent 29) ≡ pos 0)
      × (calc_fee_sat (pos t) (percent 29) ≡ pos (t * 29 / 10000))
      × (1 ≤ t * 29 / 10000)
unfolding calc_developer_fee
developer_fee_dropped t lo hi = (
  ground (arith, percent_29),
  calc_fee_sat_exact t 29 (omega arith) (omega arith) (omega arith) hi,
  omega arith,
)

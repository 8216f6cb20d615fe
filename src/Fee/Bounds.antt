-- ===== src/Fee/Bounds.antt =====
-- No fee is negative or more than what it is taken from, also where the product wraps around.
use qbitx_pool.Base.{
  ℕ, ◌*◌, ◌/◌, ◌^◌, ◌≤◌, ◌<◌, ◌≡◌, ℤ, pos, ◌≤ℤ◌, ◌*ℤ◌, arith, Bool-cases, leb_ℤ, if◌then◌else◌,
  quot, wrap64, wrap64_id, inl, inr,
}
use qbitx_pool.Float64.{Float64, to_int64, round, trunc, mul, hundred}
use qbitx_pool.Fee.{corrected, capped_fee, calc_developer_fee, calc_fee_sat}

corrected_bounds :
    (t : ℕ) (fee : ℤ) → (pos 0 ≤ℤ corrected (pos t) fee) × (corrected (pos t) fee ≤ℤ pos t)
corrected_bounds t fee = ground arith

pub capped_fee_bounds :
    (t : ℕ) (bps : ℤ) → (pos 0 ≤ℤ capped_fee (pos t) bps) × (capped_fee (pos t) bps ≤ℤ pos t)
unfolding capped_fee
capped_fee_bounds t bps = elim (Bool-cases (leb_ℤ bps (pos 0))) [
  | inl h ↦ rw h (omega arith)
  | inr h ↦ rw h (corrected_bounds t (quot (wrap64 (pos t *ℤ bps)) 10000))
]

*ℤ-pos : (a b : ℕ) → pos a *ℤ pos b ≡ pos (a * b)
unfolding ◌*ℤ◌
*ℤ-pos a b = ground arith

-- Where the product fits an int64 the fee is the exact share, rounded down.
pub capped_fee_exact :
    (t b : ℕ)
    → 1 ≤ b
    → b ≤ 10000
    → t * b < 2 ^ 63
    → capped_fee (pos t) (pos b) ≡ pos (t * b / 10000)
unfolding capped_fee
capped_fee_exact t b lo hi h =
    rw (*ℤ-pos t b, wrap64_id (pos (t * b)) (omega arith)) (exact t b (t * b) lo (grind arith))
  where
    exact :
        (t b p : ℕ)
        → 1 ≤ b
        → p / 10000 ≤ t
        → (if leb_ℤ (pos b) (pos 0) then pos 0 else corrected (pos t) (pos (p / 10000)))
          ≡ pos (p / 10000)
    exact t b p lo h = ground arith

-- The deduction of the ledger is at least 0 and at most the amount it is taken from, which is not
-- negative, at any percentage.
pub calc_fee_sat_bounds :
    (t : ℕ) (percent : Float64)
    → (pos 0 ≤ℤ calc_fee_sat (pos t) percent) × (calc_fee_sat (pos t) percent ≤ℤ pos t)
unfolding calc_fee_sat
calc_fee_sat_bounds t percent =
    ground (arith, capped_fee_bounds t (to_int64 (round (mul percent hundred))))

-- The developer's output of the coinbase transaction is at least 0 and at most the coinbase value,
-- which is not negative, at any percentage.
pub calc_developer_fee_bounds :
    (t : ℕ) (percent : Float64)
    → (pos 0 ≤ℤ calc_developer_fee (pos t) percent) × (calc_developer_fee (pos t) percent ≤ℤ pos t)
unfolding calc_developer_fee
calc_developer_fee_bounds t percent =
    ground (arith, capped_fee_bounds t (to_int64 (trunc (mul percent hundred))))

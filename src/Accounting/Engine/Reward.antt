-- ===== src/Accounting/Engine/Reward.antt =====
-- The reward that the miners of a block share.
use qbitx_pool.Base.{
  ℕ, ◌≤◌, ◌<◌, ◌^◌, ◌≡◌, ◌-◌, ℤ, pos, negsuc, ◌≤ℤ◌, ◌-ℤ◌, wrap64, wrap64_id, leb_ℤ, arith,
  if◌then◌else◌,
}
use qbitx_pool.Base.Results.{ok, err}
use qbitx_pool.Float64.{Float64}
use qbitx_pool.Fee.{calc_fee_sat}
use qbitx_pool.Fee.Bounds.{calc_fee_sat_bounds}
use qbitx_pool.Accounting.Session.{
  bad_reward, no_reward_after_developer_fee, no_reward_after_pool_fee,
}
use qbitx_pool.Accounting.Engine.{PayoutConfig, miner_reward}

sub_pos : (t f : ℕ) → f ≤ t → pos t -ℤ pos f ≡ pos (t - f)
unfolding ◌-ℤ◌
sub_pos t f h = ground arith

-- What a deduction leaves of an int64 that is not negative.
deduct_lem :
    (t : ℕ) (percent : Float64)
    → t < 2 ^ 63
    → (n : ℕ) × (wrap64 (pos t -ℤ calc_fee_sat (pos t) percent) ≡ pos n) × (n ≤ t)
deduct_lem t percent fits = go (calc_fee_sat (pos t) percent) (calc_fee_sat_bounds t percent)
  where
    go :
        (fee : ℤ)
        → (pos 0 ≤ℤ fee) × (fee ≤ℤ pos t)
        → (n : ℕ) × (wrap64 (pos t -ℤ fee) ≡ pos n) × (n ≤ t)
    go (pos f) (lo, hi) =
        (t - f, rw (sub_pos t f (omega arith)) (wrap64_id (pos (t - f)) (omega arith)), omega arith)
    go (negsuc f) (lo, hi) = ground arith

-- The three tests of the code, on rewards that are known.
tests_lem :
    (t n k : ℕ) (reward : ℤ)
    → k ≤ n
    → n ≤ t
    → (if leb_ℤ (pos t) (pos 0)
        then err bad_reward
        else if leb_ℤ (pos n) (pos 0)
        then err no_reward_after_developer_fee
        else if leb_ℤ (pos k) (pos 0)
        then err no_reward_after_pool_fee
        else ok (pos k))
      ≡ ok reward
    → (reward ≡ pos k) × (1 ≤ k) × (k ≤ t)
tests_lem t n k reward a b h = ground arith

-- Whenever the two deductions leave a reward, it is at least 1 and at most the reward of the
-- configuration, which is not negative and below 2^63.
pub miner_reward_bounds :
    (cfg : PayoutConfig) (t : ℕ) (reward : ℤ)
    → cfg.reward ≡ pos t
    → t < 2 ^ 63
    → miner_reward cfg ≡ ok reward
    → (n : ℕ) × (reward ≡ pos n) × (1 ≤ n) × (n ≤ t)
unfolding miner_reward
miner_reward_bounds cfg t reward is fits h =
    let (n, after_dev, le_t) = deduct_lem t cfg.developer_fee_percent fits in
    let (k, miners, le_n) = deduct_lem n cfg.pool_fee_percent (omega arith) in
    let (e, lo, hi) = tests_lem t n k reward le_n le_t (rw (is, after_dev, miners) at h) in
    (k, e, lo, hi)

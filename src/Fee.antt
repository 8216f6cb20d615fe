-- ===== src/Fee.antt =====
-- The two fee computations: calcDeveloperFee of internal/mining/mining.go, which decides what the
-- coinbase transaction pays out, and calcFeeSat of internal/accounting/payout.go, by which the
-- ledger deducts the same fee from the reward.
pub mod Bounds
pub mod Precision
mod Tests
use qbitx_pool.Base.{
  ◌*◌, ◌^◌, ltb, if◌then◌else◌, Bool, ◌||◌, ℤ, pos, quot, wrap64, ◌*ℤ◌, ltb_ℤ, leb_ℤ,
}
use qbitx_pool.Float64.{
  Float64, lt, le, mul, sub, abs, trunc, round, to_int64, zero_f, hundred, nano,
}

-- `if fee < 0 { return 0 }; if fee > total { return total }; return fee`
abbrev pub corrected : ℤ → ℤ → ℤ
corrected total fee = if ltb_ℤ fee (pos 0) then pos 0 else if ltb_ℤ total fee then total else fee

-- What both functions do once they have the basis points: an int64 product that may wrap, the
-- division that truncates, and the two corrections.
unfoldable pub capped_fee : ℤ → ℤ → ℤ
unfolding ◌*ℤ◌
capped_fee total bps =
    if leb_ℤ bps (pos 0) then pos 0 else corrected total (quot (wrap64 (total *ℤ bps)) 10000)

unfoldable pub calc_developer_fee : ℤ → Float64 → ℤ
unfolding capped_fee
calc_developer_fee coinbase_value developer_fee_percent =
    if leb_ℤ coinbase_value (pos 0) || le developer_fee_percent zero_f
    then pos 0
    else if le hundred developer_fee_percent
    then coinbase_value
    else let scaled = mul developer_fee_percent hundred in
      let int_part = trunc scaled in
      let frac_part = sub scaled int_part in
      if lt nano (abs frac_part) then pos 0 else capped_fee coinbase_value (to_int64 int_part)

unfoldable pub calc_fee_sat : ℤ → Float64 → ℤ
unfolding capped_fee
calc_fee_sat total percent =
    if leb_ℤ total (pos 0) || le percent zero_f
    then pos 0
    else if le hundred percent
    then total
    else capped_fee total (to_int64 (round (mul percent hundred)))

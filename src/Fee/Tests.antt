-- ===== src/Fee/Tests.antt =====
-- The fees of internal/mining/mining_test.go, and runs of the floating-point model.
use qbitx_pool.Base.{pos, ◌≡◌, ◌≤◌, refl, arith}
use qbitx_pool.Float64.{of_ratio, mul, hundred, trunc, to_int64, operations}
use qbitx_pool.Fee.{calc_developer_fee, calc_fee_sat}
use qbitx_pool.Fee.Precision.{percent, calc_fee_sat_exact, developer_fee_dropped}

one_and_a_half : calc_developer_fee (pos 1250000000) (of_ratio 15 10) ≡ pos 18750000
unfolding calc_developer_fee operations
one_and_a_half = refl

twenty_nine : to_int64 (trunc (mul (of_ratio 29 100) hundred)) ≡ pos 28
unfolding calc_developer_fee operations
twenty_nine = refl

calc_fee_sat_exact_example : calc_fee_sat (pos 5000) (percent 150) ≡ pos 75
calc_fee_sat_exact_example =
    calc_fee_sat_exact 5000 150 (omega arith) (omega arith) (omega arith) (omega arith)

developer_fee_dropped_example :
    (calc_developer_fee (pos 5000000) (percent 29) ≡ pos 0)
    × (calc_fee_sat (pos 5000000) (percent 29) ≡ pos 14500)
    × (1 ≤ 14500)
developer_fee_dropped_example = developer_fee_dropped 5000000 (omega arith) (omega arith)

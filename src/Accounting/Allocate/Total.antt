-- ===== src/Accounting/Allocate/Total.antt =====
-- allocateByWeight gives out the whole amount, no satoshi more or less.
use qbitx_pool.Base.{
  ℕ, zero, suc, ◌+◌, ◌-◌, ◌^◌, ◌≤◌, ◌<◌, ◌≡◌, refl, sym, ap, ◌∙◌, ◌==◌, leb_ℤ, false, ◌||◌, some,
  List, [], ◌∷◌, length, ℤ, pos, ◌-ℤ◌, int_laws, wrap64, wrap64_id, arith,
}
use mathlib.Core.List.{Permᴰ}
use qbitx_pool.Float64.{zero_f, le}
use qbitx_pool.Accounting.Allocate.{
  Weights, Amounts, FracPart, weight_sum, base_loop, sort_parts, remainder_loop, give_remainder,
  empty_bases, allocate_by_weight,
}
use qbitx_pool.Accounting.Allocate.Sums.{total_of, NonNegative, DistinctKeys, remainder_loop_lem}
use qbitx_pool.Accounting.Allocate.Floors.{BasesFit, AllAbsent, base_loop_lem}
use qbitx_pool.Accounting.Allocate.Parts.{
  positive_nonempty, some_positive, has_positive-perm, parts_exist, length-sort_parts,
}

-- The remainder goes out whole, if there is a part to give it to.
give_remainder_lem :
    (r : ℕ) (parts : List FracPart) (m : Amounts)
    → 1 ≤ length parts
    → NonNegative m
    → total_of m + r < 2 ^ 63
    → (result : Amounts) × (give_remainder (pos r) parts m ≡ some result)
      × NonNegative result
      × (total_of result ≡ total_of m + r)
give_remainder_lem zero parts m h nn fits = (m, refl, nn, omega arith)
give_remainder_lem (suc r) [] m h nn fits = absurd (omega arith)
give_remainder_lem (suc r) (p ∷ ps) m h nn fits =
    let (nn', t) = remainder_loop_lem (suc r) 0 p ps m nn fits in
    (remainder_loop (suc r) 0 p ps m, refl, nn', t)

rest_lem :
    (t final : ℕ) (z : ℤ)
    → t < 2 ^ 63
    → final ≤ t
    → z ≡ pos final
    → wrap64 (pos t -ℤ z) ≡ pos (t - final)
rest_lem t final z ht le e =
    let d : pos t -ℤ pos final ≡ pos (t - final) = omega int_laws in
    rw (e, d) (wrap64_id (pos (t - final)) (omega arith))

-- The run of the function past its early returns.
allocate_run :
    (t : ℕ) (summed weights : Weights)
    → 1 ≤ t
    → 1 ≤ length weights
    → le (weight_sum zero_f summed) zero_f ≡ false
    → let b = base_loop (pos t) (weight_sum zero_f summed) weights empty_bases in
      allocate_by_weight (pos t) summed weights
      ≡ give_remainder (wrap64 (pos t -ℤ b.allocated)) (sort_parts b.parts) b.result
unfolding allocate_by_weight ◌-ℤ◌
allocate_run t summed weights lo n positive =
    let early : (leb_ℤ (pos t) (pos 0) || length weights == 0) ≡ false = ground arith in
    rw (allocate_by_weight, early, positive)

all_absent : (ws : Weights) → AllAbsent ws []
all_absent [] = tt
all_absent (e ∷ ws) = (tt, all_absent ws)

-- A positive amount is shared out exactly: the function returns, no worker gets a negative amount,
-- and the amounts add up to the total, whatever floating point did to the fractions. Conditions: the
-- two loops range over one map with distinct keys, its float sum is positive, and the rounded-down
-- shares are numbers that together do not exceed the total.
pub allocate_by_weight_total :
    (t : ℕ) (summed weights : Weights)
    → 1 ≤ t
    → t < 2 ^ 63
    → Permᴰ summed weights
    → DistinctKeys weights
    → le (weight_sum zero_f summed) zero_f ≡ false
    → BasesFit (pos t) (weight_sum zero_f summed) t 0 weights
    → (result : Amounts) × (allocate_by_weight (pos t) summed weights ≡ some result)
      × NonNegative result
      × (total_of result ≡ t)
allocate_by_weight_total t summed weights lo hi perm d positive fits =
    let sum = weight_sum zero_f summed in
    let b = base_loop (pos t) sum weights empty_bases in
    let some' = sym (has_positive-perm perm) ∙ some_positive summed positive in
    let (final, le', (nn, tot, alloc)) =
      base_loop_lem (pos t) sum t 0 weights empty_bases hi d (all_absent weights) fits
        (tt, refl, refl) in
    let (result, e, nn', tot') =
      give_remainder_lem (t - final) (sort_parts b.parts) b.result
        (omega
          (arith, length-sort_parts b.parts, parts_exist (pos t) sum weights empty_bases some'))
        nn (omega arith) in
    (
      result,
      allocate_run t summed weights lo (positive_nonempty weights some') positive
          ∙ ap (λ z. give_remainder z (sort_parts b.parts) b.result)
              (rest_lem t final b.allocated hi le' alloc)
          ∙ e,
      nn',
      omega arith,
    )

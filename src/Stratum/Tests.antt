-- ===== src/Stratum/Tests.antt =====
-- Runs of pickStartDiff.
use qbitx_pool.Base.{◌≡◌, refl, codes}
use qbitx_pool.Float64.{of_ratio, operations}
use qbitx_pool.Stratum.{DifficultyConfig, pick_start_diff}

abbrev cfg : DifficultyConfig
cfg = record {
  start = of_ratio 4 1;
  min = of_ratio 1 1;
  max = of_ratio 64 1;
  gpu_start = of_ratio 0 1;
  asic_start = of_ratio 1000 1;
}

asic_start : pick_start_diff cfg (codes "wallet.ASIC1") ≡ of_ratio 64 1
unfolding pick_start_diff operations
asic_start = refl

gpu_start : pick_start_diff cfg (codes "wallet.gpu") ≡ of_ratio 10 1
unfolding pick_start_diff operations
gpu_start = refl

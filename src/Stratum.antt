-- ===== src/Stratum.antt =====
-- The difficulty that internal/stratum/server.go assigns to a connection.
pub mod Message
pub mod Conn
pub mod Submit
pub mod History
pub mod Retarget
pub mod Server
pub mod Bounds
mod Tests
mod ServerTests
mod JobTests
use qbitx_pool.Base.{
  ℕ, ◌+◌, ltb, ◌==◌, if◌then◌else◌, Bool, true, false, ◌&&◌, ◌||◌, List, [], ◌∷◌, map, Text, codes,
}
use qbitx_pool.Float64.{Float64, zero_f, one_f, of_ratio, le, lt}

-- `if v <= 0 { v = 1 }`
abbrev pub at_least_one : Float64 → Float64
at_least_one v = if le v zero_f then one_f else v

-- `if min > 0 && v < min { v = min }`
abbrev pub raise_to : Float64 → Float64 → Float64
raise_to min v = if lt zero_f min && lt v min then min else v

-- `if max > 0 && v > max { v = max }`
abbrev pub lower_to : Float64 → Float64 → Float64
lower_to max v = if lt zero_f max && lt max v then max else v

unfoldable pub clamp_diff : Float64 → Float64 → Float64 → Float64
clamp_diff v min max = lower_to max (raise_to min (at_least_one v))

-- The fields of the difficulty section of the configuration that pickStartDiff reads.
pub record DifficultyConfig : Type 0 where
  pub start : Float64
  pub min : Float64
  pub max : Float64
  pub gpu_start : Float64
  pub asic_start : Float64

-- strings.ToLower, of ASCII letters.
abbrev pub lower : ℕ → ℕ
lower c = if ltb 64 c && ltb c 91 then c + 32 else c

unfoldable pub has_prefix : Text → Text → Bool
has_prefix [] s = true
has_prefix (p ∷ ps) [] = false
has_prefix (p ∷ ps) (c ∷ s) = p == c && has_prefix ps s

-- strings.Contains
unfoldable pub contains : Text → Text → Bool
unfolding has_prefix
contains [] p = has_prefix p []
contains (c ∷ s) p = has_prefix p (c ∷ s) || contains s p

abbrev pub or_start : Float64 → Float64 → Float64
or_start wanted other = if lt zero_f wanted then wanted else other

-- The difficulty that pickStartDiff clamps.
unfoldable pub wanted_start : DifficultyConfig → Text → Float64
unfolding contains
wanted_start cfg worker =
    let w = map lower worker in
    if contains w (codes "gpu")
    then or_start cfg.gpu_start (of_ratio 10 1)
    else if contains w (codes "asic")
    then or_start cfg.asic_start cfg.start
    else cfg.start

unfoldable pub pick_start_diff : DifficultyConfig → Text → Float64
unfolding clamp_diff wanted_start
pick_start_diff cfg worker = clamp_diff (wanted_start cfg worker) cfg.min cfg.max

-- ===== src/Stratum/Bounds.antt =====
-- An assigned difficulty lies between the configured bounds.
use qbitx_pool.Base.{false, arith, ◌≡◌, true, Bool-cases, inl, inr, Text, codes, map}
use qbitx_pool.Float64.{Float64, finite, inf, nan, zero_f, one_f, of_ratio, operations, le, lt}
use qbitx_pool.Float64.Bounds.{IsNumber, IsFinite, le_refl, lt-le, lt-IsNumber}
use qbitx_pool.Stratum.{
  at_least_one, raise_to, lower_to, clamp_diff, DifficultyConfig, lower, contains, or_start,
  wanted_start, pick_start_diff,
}

one-IsNumber : IsNumber one_f
unfolding one_f
one-IsNumber = tt

at_least_one-IsNumber : (v : Float64) → IsNumber v → IsNumber (at_least_one v)
at_least_one-IsNumber v n = elim (Bool-cases (le v zero_f)) [
  | inl low ↦ rw low one-IsNumber
  | inr high ↦ rw high n
]

raise_to_lem :
    (min v : Float64)
    → lt zero_f min ≡ true
    → IsNumber v
    → IsNumber (raise_to min v) × (le min (raise_to min v) ≡ true)
raise_to_lem min v m n = elim (Bool-cases (lt v min)) [
  | inl below ↦ rw (m, below) (lt-IsNumber zero_f min m, le_refl min (lt-IsNumber zero_f min m))
  | inr above ↦ rw (m, above) (n, lt-le v min n (lt-IsNumber zero_f min m) above)
]

-- An assigned difficulty is at least the configured minimum and at most the configured maximum.
-- Conditions: the wanted difficulty is not NaN, and the two bounds are positive and in order.
clamp_diff_bounds :
    (v min max : Float64)
    → IsNumber v
    → lt zero_f min ≡ true
    → lt zero_f max ≡ true
    → le min max ≡ true
    → (le min (clamp_diff v min max) ≡ true) × (le (clamp_diff v min max) max ≡ true)
unfolding clamp_diff
clamp_diff_bounds v min max n m k order =
    let (r, above) = raise_to_lem min (at_least_one v) m (at_least_one-IsNumber v n) in
    bounded (raise_to min (at_least_one v)) r above
  where
    bounded :
        (w : Float64)
        → IsNumber w
        → le min w ≡ true
        → (le min (lower_to max w) ≡ true) × (le (lower_to max w) max ≡ true)
    bounded w r above = elim (Bool-cases (lt max w)) [
      | inl over ↦ rw (k, over) (order, le_refl max (lt-IsNumber zero_f max k))
      | inr under ↦ rw (k, under) (above, lt-le max w (lt-IsNumber zero_f max k) r under)
    ]

ten-IsNumber : IsNumber (of_ratio 10 1)
unfolding operations
ten-IsNumber = tt

or_start-IsNumber : (a b : Float64) → IsNumber a → IsNumber b → IsNumber (or_start a b)
or_start-IsNumber a b m n = elim (Bool-cases (lt zero_f a)) [
  | inl set ↦ rw set m
  | inr unset ↦ rw unset n
]

wanted-IsNumber :
    (cfg : DifficultyConfig) (worker : Text)
    → IsNumber cfg.start
    → IsNumber cfg.gpu_start
    → IsNumber cfg.asic_start
    → IsNumber (wanted_start cfg worker)
unfolding wanted_start
wanted-IsNumber cfg worker s g a = elim (Bool-cases (contains (map lower worker) (codes "gpu"))) [
  | inl gpu ↦ rw gpu (or_start-IsNumber cfg.gpu_start (of_ratio 10 1) g ten-IsNumber)
  | inr other ↦ rw other (elim (Bool-cases (contains (map lower worker) (codes "asic"))) [
    | inl asic ↦ rw asic (or_start-IsNumber cfg.asic_start cfg.start a s)
    | inr neither ↦ rw neither s
  ])
]

-- The difficulty a connection starts with is within the configured bounds, whatever the worker is
-- called. Conditions: no start difficulty is NaN, and the two bounds are positive and in order.
pick_start_diff_bounds :
    (cfg : DifficultyConfig) (worker : Text)
    → IsNumber cfg.start
    → IsNumber cfg.gpu_start
    → IsNumber cfg.asic_start
    → lt zero_f cfg.min ≡ true
    → lt zero_f cfg.max ≡ true
    → le cfg.min cfg.max ≡ true
    → (le cfg.min (pick_start_diff cfg worker) ≡ true)
      × (le (pick_start_diff cfg worker) cfg.max ≡ true)
unfolding pick_start_diff
pick_start_diff_bounds cfg worker s g a m k order =
    clamp_diff_bounds (wanted_start cfg worker) cfg.min cfg.max (wanted-IsNumber cfg worker s g a) m
      k order

-- What the configuration file has to say for difficulties to make sense; Load checks none of it.
pub record Sound (cfg : DifficultyConfig) : Type 0 where
  pub start : IsNumber cfg.start
  pub gpu_start : IsNumber cfg.gpu_start
  pub asic_start : IsNumber cfg.asic_start
  pub min_finite : IsFinite cfg.min
  pub max_finite : IsFinite cfg.max
  pub min_positive : lt zero_f cfg.min ≡ true
  pub max_positive : lt zero_f cfg.max ≡ true
  pub ordered : le cfg.min cfg.max ≡ true

-- A finite difficulty within the configured bounds.
pub record InRange (cfg : DifficultyConfig) (d : Float64) : Type 0 where
  pub is_finite : IsFinite d
  pub above : le cfg.min d ≡ true
  pub below : le d cfg.max ≡ true

between-IsFinite :
    (a d b : Float64) → IsFinite a → IsFinite b → le a d ≡ true → le d b ≡ true → IsFinite d
unfolding le
between-IsFinite a (finite d) b h k m n = tt
between-IsFinite (finite a) (inf true) b h k m n = ground arith
between-IsFinite a (inf false) (finite b) h k m n = ground arith
between-IsFinite (finite a) nan b h k m n = ground arith
between-IsFinite (inf s) d b h k m n = absurd h
between-IsFinite nan d b h k m n = absurd h
between-IsFinite a d (inf s) h k m n = absurd k
between-IsFinite a d nan h k m n = absurd k

pub clamp_diff-InRange :
    (cfg : DifficultyConfig) (v : Float64)
    → Sound cfg
    → IsNumber v
    → InRange cfg (clamp_diff v cfg.min cfg.max)
clamp_diff-InRange cfg v s n =
    let (above, below) =
      clamp_diff_bounds v cfg.min cfg.max n s.min_positive s.max_positive s.ordered in
    record {
      is_finite = between-IsFinite cfg.min _ cfg.max s.min_finite s.max_finite above below;
      above = above;
      below = below;
    }

pub pick_start_diff-InRange :
    (cfg : DifficultyConfig) (worker : Text) → Sound cfg → InRange cfg (pick_start_diff cfg worker)
unfolding pick_start_diff
pick_start_diff-InRange cfg worker s =
    clamp_diff-InRange cfg (wanted_start cfg worker) s
      (wanted-IsNumber cfg worker s.start s.gpu_start s.asic_start)

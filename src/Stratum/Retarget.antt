-- ===== src/Stratum/Retarget.antt =====
-- retarget of internal/stratum/server.go: what it keeps and which difficulty it sets.
use qbitx_pool.Base.{
  ℕ, ◌+◌, ◌/◌, ◌%◌, ◌^◌, ◌≤◌, ◌<◌, ltb, leb, if◌then◌else◌, ◌≡◌, refl, ◌⊎◌, inl, inr, Bool, true,
  false, Bool-cases, Option, none, some, [], ◌∷◌, ◌++◌, length, ℤ, pos, negsuc, ◌*ℤ◌, IsInt64,
  wrap64-IsInt64, arith,
}
use qbitx_pool.Float64.{
  Float64, finite, inf, nan, of_ratio, of_int64, zero_f, lt, le, sub, abs, mul, div, operations,
}
use qbitx_pool.Float64.Bounds.{
  IsNumber, IsFinite, of_int64-IsFinite, of_int64-IsNumber, of_int64_pos, mul-IsNumber,
  div-IsNumber, seconds-IsFinite,
}
use qbitx_pool.Stratum.{DifficultyConfig, clamp_diff}
use qbitx_pool.Stratum.Bounds.{Sound, InRange, clamp_diff-InRange}
use qbitx_pool.Stratum.Conn.{
  Conn, RetargetConfig, target_seconds, second, at_least_30s, interval, seconds, keep_after,
  bound_factor, next_diff, base_diff, is_small, adjust, adjust_after, retarget,
}

interval_lem : (z : ℤ) → IsInt64 z → at_least_30s z < 2 ^ 63
interval_lem (pos n) h = ground arith
interval_lem (negsuc n) h = omega arith

interval_lt : (rc : RetargetConfig) → interval rc < 2 ^ 63
unfolding ◌*ℤ◌
interval_lt rc = interval_lem _ (wrap64-IsInt64 (rc.retarget_interval *ℤ pos second))

seconds-interval-IsFinite : (rc : RetargetConfig) → IsFinite (seconds (interval rc))
seconds-interval-IsFinite rc =
    seconds-IsFinite (interval rc / second) (interval rc % second) (omega (arith, interval_lt rc))
      (omega arith)

target-IsFinite : (rc : RetargetConfig) → IsInt64 rc.target_time → IsFinite (target_seconds rc)
unfolding operations
target-IsFinite rc h = elim (Bool-cases (le (of_int64 rc.target_time) zero_f)) [
  | inl unset ↦ rw unset tt
  | inr set ↦ rw set (of_int64-IsFinite rc.target_time h)
]

clip-IsFinite :
    (high low f : Float64)
    → IsFinite high
    → IsFinite low
    → IsNumber f
    → IsFinite (let x = if lt high f then high else f in if lt x low then low else x)
unfolding lt
clip-IsFinite (finite h) (finite l) (inf true) p q n = tt
clip-IsFinite (finite h) (finite l) (inf false) p q n = clipped (lt (finite h) (finite l))
  where
    clipped : (b : Bool) → IsFinite (if b then finite l else finite h)
    clipped true = tt
    clipped false = tt
clip-IsFinite (finite h) (finite l) (finite z) p q n = clipped (lt (finite h) (finite z)) _
  where
    clipped : (a b : Bool) → IsFinite (if b then finite l else if a then finite h else finite z)
    clipped a true = tt
    clipped true false = tt
    clipped false false = tt
clip-IsFinite high low nan p q n = absurd n
clip-IsFinite (inf s) low f p q n = absurd p
clip-IsFinite nan low f p q n = absurd p
clip-IsFinite high (inf s) f p q n = absurd q
clip-IsFinite high nan f p q n = absurd q

factor-IsFinite : (f : Float64) → IsNumber f → IsFinite (bound_factor f)
unfolding operations
factor-IsFinite f n = clip-IsFinite (of_ratio 4 1) (of_ratio 1 4) f tt tt n

next_diff-InRange :
    (cfg : DifficultyConfig) (target actual d : Float64)
    → Sound cfg
    → IsFinite target
    → IsNumber actual
    → le actual zero_f ≡ false
    → IsFinite d
    → InRange cfg (next_diff cfg target actual d)
unfolding clamp_diff
next_diff-InRange cfg target actual d s t a p f =
    clamp_diff-InRange cfg (mul d (bound_factor (div target actual))) s (
      mul-IsNumber d (bound_factor (div target actual)) f
        (factor-IsFinite (div target actual) (div-IsNumber target actual t a p)))

-- Only the difficulty and the two fields on times may change.
abbrev pub Same : Conn → Conn → Type 0
Same c d =
    (d.en1_hex ≡ c.en1_hex)
    × (d.worker ≡ c.worker)
    × (d.authorized ≡ c.authorized)
    × (d.current_job ≡ c.current_job)
    × (d.submitted ≡ c.submitted)

same : (c : Conn) → Same c c
same c = (refl, refl, refl, refl, refl)

-- What a run of retarget gives: no change, or a difficulty in range that differs by a tenth or more.
abbrev pub Retargeted : DifficultyConfig → Conn → Conn × Option Float64 → Type 0
Retargeted cfg c o =
    Same c o.0
    × (((o.1 ≡ none) × (o.0.diff ≡ c.diff))
        ⊎ ((o.1 ≡ some o.0.diff)
            × InRange cfg o.0.diff
            × (lt (div (abs (sub o.0.diff (base_diff c.diff))) (base_diff c.diff)) (of_ratio 1 10)
                ≡ false)))

abbrev Keeps : Conn → Conn × Option Float64 → Type 0
Keeps c o = Same c o.0

adjust-Keeps :
    (c : Conn) (now : ℕ) (d : Float64) (a b : Bool)
    → Keeps c (
        if a
        then (record c { last_adjust = some now }, none)
        else if b
        then (record c { accepted_at = []; last_adjust = some now }, none)
        else (record c { accepted_at = []; last_adjust = some now; diff = d }, some d))
adjust-Keeps c now d true b = same c
adjust-Keeps c now d false true = same c
adjust-Keeps c now d false false = same c

after-Keeps :
    (cfg : DifficultyConfig) (rc : RetargetConfig) (now : ℕ) (c : Conn) (last : Option ℕ)
    → Keeps c (adjust_after cfg rc now last c)
after-Keeps cfg rc now c none = same c
after-Keeps cfg rc now c (some last) = elim (Bool-cases (ltb now (last + interval rc))) [
  | inl early ↦ rw early (same c)
  | inr due ↦
      rw due (elim (Bool-cases (leb (length (keep_after now (interval rc) c.accepted_at)) 0)) [
        | inl empty ↦ rw empty (same c)
        | inr full ↦ rw full (
            adjust-Keeps (record c { accepted_at = keep_after now (interval rc) c.accepted_at }) now
              _ _ _)
      ])
]

-- Whatever the configuration is, retarget leaves the worker, the job and the keys as they are.
pub retarget-Same :
    (cfg : DifficultyConfig) (rc : RetargetConfig) (now : ℕ) (c : Conn)
    → Same c (retarget cfg rc now c).0
unfolding retarget
retarget-Same cfg rc now c =
    after-Keeps cfg rc now (record c { accepted_at = c.accepted_at ++ now ∷ [] }) c.last_adjust

module _ (cfg : DifficultyConfig) (rc : RetargetConfig) (now : ℕ) (sound : Sound cfg)
    (target : IsInt64 rc.target_time) where
  actual-IsNumber : (n : ℕ) → 1 ≤ n → IsNumber (div (seconds (interval rc)) (of_int64 (pos n)))
  actual-IsNumber n h =
      div-IsNumber (seconds (interval rc)) (of_int64 (pos n)) (seconds-interval-IsFinite rc)
        (of_int64-IsNumber (pos n)) (of_int64_pos n h)

  decided :
      (c : Conn) (d : Float64) (a b : Bool)
      → (a ≡ false → InRange cfg d)
      → is_small (base_diff c.diff) d ≡ b
      → Retargeted cfg c (
          if a
          then (record c { last_adjust = some now }, none)
          else if b
          then (record c { accepted_at = []; last_adjust = some now }, none)
          else (record c { accepted_at = []; last_adjust = some now; diff = d }, some d))
  decided c d true b h k = (same c, inl (refl, refl))
  decided c d false true h k = (same c, inl (refl, refl))
  decided c d false false h k = (same c, inr (refl, h refl, k))

  adjust_lem :
      (c : Conn)
      → 1 ≤ length c.accepted_at
      → IsFinite c.diff
      → Retargeted cfg c (adjust cfg (target_seconds rc) (interval rc) now c)
  adjust_lem c h f =
      let actual = div (seconds (interval rc)) (of_int64 (pos (length c.accepted_at))) in
      decided c (next_diff cfg (target_seconds rc) actual c.diff) (le actual zero_f) _
        (λ p.
          next_diff-InRange cfg (target_seconds rc) actual c.diff sound (target-IsFinite rc target)
            (actual-IsNumber (length c.accepted_at) h) p f)
        refl

  after_lem :
      (c : Conn) (last : Option ℕ)
      → IsFinite c.diff
      → Retargeted cfg c (adjust_after cfg rc now last c)
  after_lem c none f = (same c, inl (refl, refl))
  after_lem c (some last) f = elim (Bool-cases (ltb now (last + interval rc))) [
    | inl early ↦ rw early (same c, inl (refl, refl))
    | inr due ↦
        rw due (elim (Bool-cases (leb (length (keep_after now (interval rc) c.accepted_at)) 0)) [
          | inl empty ↦ rw empty (same c, inl (refl, refl))
          | inr full ↦ rw full (
              adjust_lem (record c { accepted_at = keep_after now (interval rc) c.accepted_at })
                (ground arith) f)
        ])
  ]

  -- retarget changes the difficulty of a connection, and nothing else but its times, and it sends a
  -- new difficulty exactly where it set one: a finite one within the configured bounds that differs
  -- from the old by a tenth or more. Conditions: the difficulty configuration is sound, the target
  -- time is an int64, and the old difficulty is finite.
  pub retarget_lem : (c : Conn) → IsFinite c.diff → Retargeted cfg c (retarget cfg rc now c)
  unfolding retarget
  retarget_lem c f =
      after_lem (record c { accepted_at = c.accepted_at ++ now ∷ [] }) c.last_adjust f

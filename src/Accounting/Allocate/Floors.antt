-- ===== src/Accounting/Allocate/Floors.antt =====
-- The second loop of allocateByWeight: the rounded-down shares.
use qbitx_pool.Base.{
  ℕ, ◌+◌, ◌^◌, ◌≤◌, ◌<◌, ◌≡◌, ap, ◌∙◌, if◌then◌else◌, true, false, List, [], ◌∷◌, ◌++◌, Text,
  text_eq, ℤ, pos, ◌+ℤ◌, int_laws, wrap64, wrap64_id, arith, All, Bool-cases, inl, inr,
}
use qbitx_pool.Float64.{Float64, zero_f, le}
use qbitx_pool.Accounting.Allocate.{Weights, Amounts, put, base_share, Bases, add_base, base_loop}
use qbitx_pool.Accounting.Allocate.Sums.{
  total_of, NonNegative, Absent, DistinctKeys, put_lem, append_total,
}

-- What the second loop does with one entry: a weight that is not positive gets nothing.
unfoldable pub share_of : ℤ → Float64 → Float64 → ℤ
share_of total sum w = if le w zero_f then pos 0 else base_share total sum w

-- The rounded-down shares of the entries are numbers, and together with `acc` at most `t`.
abbrev pub BasesFit : ℤ → Float64 → ℕ → ℕ → Weights → Type 0
BasesFit total sum t acc [] = acc ≤ t
BasesFit total sum t acc (e ∷ rest) =
    (n : ℕ) × (share_of total sum e.1 ≡ pos n) × BasesFit total sum t (acc + n) rest

-- What holds between the entries of the second loop.
abbrev pub Balanced : ℕ → Bases → Type 0
Balanced acc b = NonNegative b.result × (total_of b.result ≡ acc) × (b.allocated ≡ pos acc)

pub Absent-append :
    {V : Type 0} (k j : Text) (v : V) (m : List (Text × V))
    → Absent k m
    → text_eq j k ≡ false
    → Absent k (m ++ ((j, v) ∷ []))
Absent-append k j v [] a h = (h, tt)
Absent-append k j v (e ∷ m) a h = (a.0, Absent-append k j v m a.1 h)

-- Every key of the entries to come is absent from the result so far.
abbrev pub AllAbsent : Weights → Amounts → Type 0
AllAbsent [] m = Unit
AllAbsent ((k, w) ∷ rest) m = Absent k m × AllAbsent rest m

pub AllAbsent-append :
    (ws : Weights) (m : Amounts) (j : Text) (v : ℤ)
    → AllAbsent ws m
    → All (λ e. text_eq j e.0 ≡ false) ws
    → AllAbsent ws (m ++ ((j, v) ∷ []))
AllAbsent-append [] m j v a h = tt
AllAbsent-append ((k, w) ∷ ws) m j v a h =
    (Absent-append k j v m a.0 h.0, AllAbsent-append ws m j v a.1 h.1)

pub fits_le :
    (total : ℤ) (sum : Float64) (t acc : ℕ) (ws : Weights) → BasesFit total sum t acc ws → acc ≤ t
fits_le total sum t acc [] h = h
fits_le total sum t acc (e ∷ ws) (n, s, h) = omega (arith, fits_le total sum t (acc + n) ws h)

pub sum_wrap :
    (a n : ℕ) (z y : ℤ) → z ≡ pos a → y ≡ pos n → a + n < 2 ^ 63 → wrap64 (z +ℤ y) ≡ pos (a + n)
sum_wrap a n z y ez ey h =
    let e : pos a +ℤ pos n ≡ pos (a + n) = omega int_laws in
    rw (ez, ey, e) (wrap64_id (pos (a + n)) (omega arith))

pub add_base-Balanced :
    (total : ℤ) (sum w : Float64) (k : Text) (acc n : ℕ) (b : Bases)
    → Absent k b.result
    → base_share total sum w ≡ pos n
    → acc + n < 2 ^ 63
    → Balanced acc b
    → Balanced (acc + n) (add_base total sum k w b)
      × ((add_base total sum k w b).result ≡ b.result ++ ((k, pos n) ∷ []))
unfolding add_base
add_base-Balanced total sum w k acc n b a e fits h =
    let appended = ap (λ s. put k s b.result) e ∙ put_lem k n b.result a h.0 in
    let (nn, t) = append_total b.result k n h.0 in
    (
      (
        rw appended nn,
        rw appended (omega (arith, t, h.1)),
        sum_wrap acc n b.allocated (base_share total sum w) h.2 e fits,
      ),
      appended,
    )

pub base_loop_skip :
    (total : ℤ) (sum : Float64) (k : Text) (w : Float64) (ws : Weights) (b : Bases)
    → le w zero_f ≡ true
    → base_loop total sum ((k, w) ∷ ws) b ≡ base_loop total sum ws b
unfolding base_loop
base_loop_skip total sum k w ws b h =
    ap (λ c. base_loop total sum ws (if c then b else add_base total sum k w b)) h

pub base_loop_count :
    (total : ℤ) (sum : Float64) (k : Text) (w : Float64) (ws : Weights) (b : Bases)
    → le w zero_f ≡ false
    → base_loop total sum ((k, w) ∷ ws) b ≡ base_loop total sum ws (add_base total sum k w b)
unfolding base_loop
base_loop_count total sum k w ws b h =
    ap (λ c. base_loop total sum ws (if c then b else add_base total sum k w b)) h

pub base_loop_lem :
    (total : ℤ) (sum : Float64) (t acc : ℕ) (ws : Weights) (b : Bases)
    → t < 2 ^ 63
    → DistinctKeys ws
    → AllAbsent ws b.result
    → BasesFit total sum t acc ws
    → Balanced acc b
    → (final : ℕ) × (final ≤ t) × Balanced final (base_loop total sum ws b)
unfolding share_of
base_loop_lem total sum t acc [] b ht d a fits h = (acc, fits, unfold base_loop in h)
base_loop_lem total sum t acc ((k, w) ∷ ws) b ht d a (n, s, fits) h =
    elim (Bool-cases (le w zero_f)) [
      | inl skipped ↦
          let none_added : acc + n ≡ acc = ground arith in
          rw (base_loop_skip total sum k w ws b skipped)
            (base_loop_lem total sum t acc ws b ht d.1 a.1 (rw none_added at fits) h)
      | inr counted ↦
          let e : base_share total sum w ≡ pos n = ground arith in
          let (balanced, appended) =
            add_base-Balanced total sum w k acc n b a.0 e
              (omega (arith, fits_le total sum t (acc + n) ws fits)) h in
          rw (base_loop_count total sum k w ws b counted) (
            base_loop_lem total sum t (acc + n) ws (add_base total sum k w b) ht d.1
              (rw appended (AllAbsent-append ws b.result k (pos n) a.1 d.0)) fits balanced)
    ]

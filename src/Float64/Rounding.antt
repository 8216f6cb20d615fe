-- ===== src/Float64/Rounding.antt =====
-- How far the rounding of a ratio to 53 bits is from the ratio.
use qbitx_pool.Base.{
  ℕ, zero, suc, ◌+◌, ◌-◌, ◌*◌, ◌/◌, ◌%◌, ◌^◌, ◌≤◌, ◌==◌, ltb, leb, if◌then◌else◌, ◌≡◌, refl, inl,
  inr, Bool, true, false, Bool-cases, arith,
}
use qbitx_pool.Float64.{bit_length, nearest, round_ratio}
use native.Mathlib.Numerals.{unary_clauses}
use native.Mathlib.Nat.{
  one-le-pow, le-div_iff_mul-le, one-mul, one-le-mul, pow-suc, mul_comm, zero-add, div-one, add-mul,
  mul-one, mul_assoc, mul-le-mul_left, mul-div-le, mul-le-mul_right, div-mul-le_self,
  pow-le-pow_right,
}

pow_add : (n a b : ℕ) → n ^ (a + b) ≡ n ^ a * n ^ b
pow_add n a zero = simp unary_clauses (rw (mul-one (n ^ a)) refl)
pow_add n a (suc b) = simp unary_clauses (rw (pow_add n a b) (mul_assoc (n ^ a) (n ^ b) n))

half_lem : (h n b : ℕ) → 2 ^ b ≤ 2 * (n / 2 ^ h) → 2 ^ (h + b) ≤ 2 * n
half_lem h n b rest =
    rw (pow_add 2 h b) (grind (arith, mul-le-mul_left (2 ^ h) rest, mul-div-le n (2 ^ h)))

bit_length_lem : (k n : ℕ) → 1 ≤ n → 2 ^ bit_length k n ≤ 2 * n
unfolding bit_length
bit_length_lem zero n h = elim (Bool-cases (n == 0)) [
  | inl none ↦ absurd (ground arith)
  | inr some' ↦ rw some' (omega arith)
]
bit_length_lem (suc k) n h = elim (Bool-cases (leb (2 ^ 2 ^ k) n)) [
  | inl above ↦ rw above (
      half_lem (2 ^ k) n (bit_length k (n / 2 ^ 2 ^ k)) (
        bit_length_lem k (n / 2 ^ 2 ^ k)
          ((le-div_iff_mul-le (one-le-pow (2 ^ k) 2 (omega arith))).1 (ground arith))))
  | inr below ↦ rw (below, zero-add (bit_length k n)) (bit_length_lem k n h)
]

choice_le : (a b c d k : ℕ) → (if ltb a b then k else if ltb c d then k + 1 else k + k % 2) ≤ k + 1
choice_le a b c d k = ground arith

floor_le : (p q step : ℕ) → 1 ≤ q → 1 ≤ step → p / (q * step) * step ≤ p / q
floor_le p q step h k =
    let d = p / (q * step) in
    (le-div_iff_mul-le {k = q} h).1
      (omega (arith, div-mul-le_self p (q * step), mul_assoc d step q, mul_comm step q))

nearest_le : (p q step : ℕ) → 1 ≤ q → 1 ≤ step → nearest p q step ≤ p / q + step
nearest_le p q step h k =
    let d = q * step in
    let r = p % d in
    omega (
      arith,
      mul-le-mul_right step (choice_le (2 * r) d d (2 * r) (p / d)),
      floor_le p q step h k,
      add-mul (p / d) 1 step,
      one-mul step,
    )

pow_pos : (n : ℕ) → 1 ≤ 2 ^ n
pow_pos n = one-le-pow n 2 (omega arith)

halved : (b n : ℕ) → 1 ≤ b → 2 ^ b ≤ 2 * n → 2 ^ (b - 1) ≤ n
halved zero n h k = absurd (omega arith)
halved (suc b) n h k = omega (
  arith,
  pow-suc 2 b,
  pow-le-pow_right {n = 2} (omega arith) {i = suc b - 1} {j = b} (omega arith),
)

step_pos_le : (n : ℕ) → 1 ≤ n → 2 ^ (bit_length 13 n - 53) ≤ n
step_pos_le n h = sized n (bit_length 13 n) h (bit_length_lem 13 n h)
  where
    sized : (n b : ℕ) → 1 ≤ n → 2 ^ b ≤ 2 * n → 2 ^ (b - 53) ≤ n
    sized n zero h k = omega arith
    sized n (suc b) h k = omega (
      arith,
      halved (suc b) n (omega arith) k,
      pow-le-pow_right {n = 2} (omega arith) {i = suc b - 53} {j = suc b - 1} (omega arith),
    )

step_le : (n : ℕ) → 2 ^ (bit_length 13 n - 53) ≤ n + 1
unfolding bit_length
step_le zero = omega arith
step_le (suc m) = omega (arith, step_pos_le (suc m) (omega arith))

nearest_pos : (p step : ℕ) → 1 ≤ step → step ≤ p → 1 ≤ nearest p 1 step
nearest_pos p step h k = one-le-mul (above (p / (1 * step)) _ _ (div_pos p step h k)) h
  where
    div_pos : (p step : ℕ) → 1 ≤ step → step ≤ p → 1 ≤ p / (1 * step)
    div_pos p step h k = rw (one-mul step) ((le-div_iff_mul-le h).1 (omega (arith, one-mul step)))

    above : (k : ℕ) (a b : Bool) → 1 ≤ k → 1 ≤ (if a then k else if b then k + 1 else k + k % 2)
    above k true b h = h
    above k false true h = omega arith
    above k false false h = omega arith

pub round_ratio_pos : (p : ℕ) → 1 ≤ p → 1 ≤ round_ratio p 1
unfolding round_ratio
round_ratio_pos p h =
    nearest_pos p (2 ^ (bit_length 13 (p / 1) - 53)) (pow_pos (bit_length 13 (p / 1) - 53))
      (omega (arith, step_pos_le (p / 1) (omega (arith, div-one p)), div-one p))

-- Rounding adds no more than the number itself.
pub round_ratio_le : (p q : ℕ) → 1 ≤ q → round_ratio p q ≤ 2 * (p / q) + 1
unfolding round_ratio
round_ratio_le p q h = omega (
  arith,
  nearest_le p q (2 ^ (bit_length 13 (p / q) - 53)) h (pow_pos (bit_length 13 (p / q) - 53)),
  step_le (p / q),
)

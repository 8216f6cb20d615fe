-- ===== src/Share/Target.antt =====
-- The numbers that Validate compares: the hash as a number, and the target of the compact bits.
use qbitx_pool.Base.{
  ℕ, zero, suc, ◌+◌, ◌-◌, ◌*◌, ◌/◌, ◌%◌, ◌^◌, ◌≡◌, refl, leb, if◌then◌else◌, List, [], ◌∷◌, ◌++◌,
  reverse, le_value, arith, false, false,
}
use mathlib.Core.List.{reverse-cons}
use native.Mathlib.Numerals.{unary_clauses}
use qbitx_pool.Mining.Reverse.{reverse_bytes-reverse}
use qbitx_pool.Share.{set_bytes, hash_to_big, target_from_bits}

set_bytes-append : (n : ℕ) (bs cs : List ℕ) → set_bytes n (bs ++ cs) ≡ set_bytes (set_bytes n bs) cs
unfolding set_bytes
set_bytes-append n [] cs = refl
set_bytes-append n (b ∷ bs) cs = set_bytes-append (n * 256 + b) bs cs

pub set_bytes-reverse : (bs : List ℕ) → set_bytes 0 (reverse bs) ≡ le_value bs
unfolding set_bytes le_value
set_bytes-reverse [] = refl
set_bytes-reverse (b ∷ bs) =
    rw (reverse-cons b bs, set_bytes-append 0 (reverse bs) (b ∷ []), set_bytes-reverse bs)
      (omega arith)

-- The number that is compared with the target is the hash read with the least significant byte first.
pub hash_to_big_lem : (h : List ℕ) → hash_to_big h ≡ le_value h
unfolding hash_to_big
hash_to_big_lem h = rw (reverse_bytes-reverse h) (set_bytes-reverse h)

pow_eight : (k : ℕ) → 2 ^ (8 * k) ≡ 256 ^ k
pow_eight zero = refl
pow_eight (suc k) =
    let e : 8 * suc k ≡ suc (suc (suc (suc (suc (suc (suc (suc (8 * k)))))))) = omega arith in
    rw e (simp unary_clauses (omega (arith, pow_eight k)))

shifted : (man k : ℕ) → man * 2 ^ (8 * k) ≡ man * 256 ^ (suc (suc (suc k))) / 2 ^ 24
shifted man k = rw (pow_eight k) (simp unary_clauses (cancel man (256 ^ k) _ (grind arith)))
  where
    cancel : (m p n : ℕ) → n ≡ 2 ^ 24 * (m * p) → m * p ≡ n / 2 ^ 24
    cancel m p n h = rw h (omega arith)

-- The target of compact bits is their mantissa of 23 bits times 256 to the exponent less 3, rounded
-- down.
pub target_from_bits_lem :
    (bits : ℕ) → target_from_bits bits ≡ (bits % 2 ^ 23) * 256 ^ (bits / 2 ^ 24) / 2 ^ 24
unfolding target_from_bits
target_from_bits_lem bits = cases_lem (bits % 2 ^ 23) (bits / 2 ^ 24)
  where
    cases_lem :
        (man exp : ℕ)
        → (if leb exp 3 then man / 2 ^ (8 * (3 - exp)) else man * 2 ^ (8 * (exp - 3)))
          ≡ man * 256 ^ exp / 2 ^ 24
    cases_lem man zero = omega arith
    cases_lem man (suc zero) = omega arith
    cases_lem man (suc (suc zero)) = omega arith
    cases_lem man (suc (suc (suc zero))) = omega arith
    cases_lem man (suc (suc (suc (suc k)))) =
        let e : suc (suc (suc (suc k))) - 3 ≡ suc k = omega arith in
        let big : leb (suc (suc (suc (suc k)))) 3 ≡ false = ground arith in
        rw (big, e) (shifted man (suc k))

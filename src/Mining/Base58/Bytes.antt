-- ===== src/Mining/Base58/Bytes.antt =====
-- What base58Decode and buildPayoutScript return are bytes, and a script is short.
use qbitx_pool.Base.{
  ℕ, zero, suc, ◌+◌, ◌-◌, ◌*◌, ◌/◌, ◌%◌, ◌≤◌, ◌≡◌, ltb, some, List, [], ◌∷◌, ◌++◌, length,
  length-append, take, drop, length-take_le, replicate, Text, arith, Bool-cases, Option-cases, inl,
  inr, All, All-append, IsByte, reverse,
}
use mathlib.Core.List.{reverse-cons}
use qbitx_pool.Mining.Reverse.{reverse_bytes, reverse_bytes-reverse}
use qbitx_pool.Mining.Base58.{
  alphabet, index_of, mul_add, carry_loop, add_digit, digits_loop, leading_ones, strip_checksum,
  base58_decode, script_of, build_payout_script,
}

pub All-reverse : (xs : List ℕ) → All IsByte xs → All IsByte (reverse xs)
All-reverse [] h = tt
All-reverse (x ∷ xs) h =
    rw (reverse-cons x xs) (All-append IsByte (reverse xs) (x ∷ []) (All-reverse xs h.1) (h.0, tt))

All-take : (n : ℕ) (xs : List ℕ) → All IsByte xs → All IsByte (take n xs)
All-take zero xs h = tt
All-take (suc n) [] h = tt
All-take (suc n) (x ∷ xs) h = (h.0, All-take n xs h.1)

All-drop : (n : ℕ) (xs : List ℕ) → All IsByte xs → All IsByte (drop n xs)
All-drop zero xs h = h
All-drop (suc n) [] h = tt
All-drop (suc n) (x ∷ xs) h = All-drop n xs h.1

zeros-IsByte : (k : ℕ) → All IsByte (replicate k 0)
zeros-IsByte zero = tt
zeros-IsByte (suc k) = (omega arith, zeros-IsByte k)

mul_add-IsByte : (bs : List ℕ) (carry : ℕ) → All IsByte (mul_add bs carry).0
unfolding mul_add
mul_add-IsByte [] carry = tt
mul_add-IsByte (b ∷ bs) carry = (omega arith, mul_add-IsByte bs ((carry + b * 58) / 256))

carry_loop-IsByte :
    (fuel : ℕ) (r : List ℕ) (carry : ℕ) → All IsByte r → All IsByte (carry_loop fuel r carry)
unfolding carry_loop
carry_loop-IsByte zero r carry h = h
carry_loop-IsByte (suc fuel) r carry h = elim (Bool-cases (ltb 0 carry)) [
  | inl more ↦ rw more (
      carry_loop-IsByte fuel (r ++ ((carry % 256) ∷ [])) (carry / 256)
        (All-append IsByte r ((carry % 256) ∷ []) h (omega arith)))
  | inr done ↦ rw done h
]

add_digit-IsByte : (r : List ℕ) (d : ℕ) → All IsByte (add_digit r d)
unfolding add_digit
add_digit-IsByte r d =
    carry_loop-IsByte (mul_add r d).1 (mul_add r d).0 (mul_add r d).1 (mul_add-IsByte r d)

digits_loop-IsByte :
    (s : Text) (r out : List ℕ) → All IsByte r → digits_loop s r ≡ some out → All IsByte out
unfolding digits_loop
digits_loop-IsByte [] r out h e = let same : r ≡ out = cc in rw same at h
digits_loop-IsByte (c ∷ s) r out h e = elim (Option-cases (index_of c 0 alphabet)) [
  | inl foreign ↦ cc
  | inr (d, k) ↦ digits_loop-IsByte s (add_digit r d) out (add_digit-IsByte r d) (cc)
]

strip_checksum-IsByte :
    (full out : List ℕ) → All IsByte full → strip_checksum full ≡ some out → All IsByte out
strip_checksum-IsByte full out h e = elim (Bool-cases (ltb (length full) 4)) [
  | inl short ↦ ground arith
  | inr long ↦
      let same : take (length full - 4) full ≡ out = ground arith in
      rw same at (All-take (length full - 4) full h)
]

base58_decode-IsByte : (s : Text) (out : List ℕ) → base58_decode s ≡ some out → All IsByte out
unfolding base58_decode
base58_decode-IsByte s out e = elim (Option-cases (digits_loop s [])) [
  | inl k ↦ cc
  | inr (r, k) ↦
      let full = reverse_bytes (r ++ replicate (leading_ones s) 0) in
      strip_checksum-IsByte full out
        (rw (reverse_bytes-reverse (r ++ replicate (leading_ones s) 0)) (
          All-reverse (r ++ replicate (leading_ones s) 0) (
            All-append IsByte r (replicate (leading_ones s) 0) (digits_loop-IsByte s [] r tt k)
              (zeros-IsByte (leading_ones s)))))
        (cc)
]

script_of_shape :
    (out : List ℕ)
    → All IsByte out
    → All IsByte (script_of (some out)) × (length (script_of (some out)) ≤ 25)
script_of_shape out h = elim (Bool-cases (ltb (length out) 21)) [
  | inl short ↦ rw short (omega arith)
  | inr long ↦ rw long (
      let hash = take 20 (drop 1 out) in
      let end : List ℕ = 0x88 ∷ 0xac ∷ [] in
      let bytes =
        All-append IsByte hash end (All-take 20 (drop 1 out) (All-drop 1 out h)) (omega arith) in
      (
        (omega arith, (omega arith, (omega arith, bytes))),
        omega (arith, length-append hash end, length-take_le 20 (drop 1 out)),
      ))
]

-- The script for any address, good or bad, is 25 bytes at most.
pub build_payout_script_shape :
    (address : Text)
    → All IsByte (build_payout_script address) × (length (build_payout_script address) ≤ 25)
unfolding build_payout_script
build_payout_script_shape address = elim (Option-cases (base58_decode address)) [
  | inl e ↦ rw e (omega arith)
  | inr (out, e) ↦ rw e (script_of_shape out (base58_decode-IsByte address out e))
]

-- ===== src/Mining/Base58.antt =====
-- base58Decode and buildPayoutScript of internal/mining/mining.go.
pub mod Value
pub mod Script
pub mod Bytes
use qbitx_pool.Base.{
  ℕ, zero, suc, ◌+◌, ◌-◌, ◌*◌, ◌/◌, ◌%◌, ltb, ◌==◌, if◌then◌else◌, Option, none, some, List, [],
  ◌∷◌, ◌++◌, length, take, drop, replicate, Text, codes,
}
use qbitx_pool.Mining.Reverse.{reverse_bytes}

abbrev pub alphabet : Text
alphabet = codes "123456789ABCDEFGHJKLMNPQRSTUVWXYZabcdefghijkmnopqrstuvwxyz"

-- The inner search: the place of `c` from place `i` on; `none` is the -1 that the code starts from.
unfoldable pub index_of : ℕ → ℕ → Text → Option ℕ
index_of c i [] = none
index_of c i (a ∷ rest) = if a == c then some i else index_of c (i + 1) rest

-- `for i := range result { carry += int(result[i]) * 58; result[i] = byte(carry & 0xff); carry >>= 8 }`,
-- with the carry that is left.
unfoldable pub mul_add : List ℕ → ℕ → List ℕ × ℕ
mul_add [] carry = ([], carry)
mul_add (b ∷ bs) carry =
    let t = carry + b * 58 in let r = mul_add bs (t / 256) in ((t % 256) ∷ r.0, r.1)

-- `for carry > 0 { result = append(result, byte(carry & 0xff)); carry >>= 8 }`. Every round makes the
-- carry smaller, so the carry itself bounds the rounds.
unfoldable pub carry_loop : ℕ → List ℕ → ℕ → List ℕ
carry_loop zero result carry = result
carry_loop (suc fuel) result carry =
    let rest = carry_loop fuel (result ++ ((carry % 256) ∷ [])) (carry / 256) in
    if ltb 0 carry then rest else result

-- One character of the outer loop.
unfoldable pub add_digit : List ℕ → ℕ → List ℕ
unfolding mul_add carry_loop
add_digit result digit = let r = mul_add result digit in carry_loop r.1 r.0 r.1

abbrev pub next_digits : Option ℕ → (ℕ → Option (List ℕ)) → Option (List ℕ)
next_digits none k = none
next_digits (some d) k = k d

-- The outer loop; `none` is the early `return nil` at a character outside the alphabet.
unfoldable pub digits_loop : Text → List ℕ → Option (List ℕ)
unfolding add_digit index_of
digits_loop [] result = some result
digits_loop (c ∷ s) result =
    next_digits (index_of c 0 alphabet) (λ d. digits_loop s (add_digit result d))

-- How many times the loop over the leading '1' characters appends a zero.
unfoldable pub leading_ones : Text → ℕ
leading_ones [] = 0
leading_ones (c ∷ s) = if c == b'1' then suc (leading_ones s) else 0

abbrev pub strip_checksum : List ℕ → Option (List ℕ)
strip_checksum full = if ltb (length full) 4 then none else some (take (length full - 4) full)

abbrev pub finish : Text → Option (List ℕ) → Option (List ℕ)
finish s none = none
finish s (some result) = strip_checksum (reverse_bytes (result ++ replicate (leading_ones s) 0))

unfoldable pub base58_decode : Text → Option (List ℕ)
unfolding digits_loop leading_ones reverse_bytes
base58_decode s = finish s (digits_loop s [])

-- The script that replaces an address which does not decode: OP_RETURN with the bytes of "pool".
abbrev pub fallback_script : List ℕ
fallback_script = 0x6a ∷ 0x04 ∷ codes "pool"

abbrev pub script_of : Option (List ℕ) → List ℕ
script_of none = fallback_script
script_of (some decoded) =
    if ltb (length decoded) 21
    then fallback_script
    else 0x76 ∷ 0xa9 ∷ 0x14 ∷ (take 20 (drop 1 decoded) ++ (0x88 ∷ 0xac ∷ []))

unfoldable pub build_payout_script : Text → List ℕ
unfolding base58_decode
build_payout_script address = script_of (base58_decode address)

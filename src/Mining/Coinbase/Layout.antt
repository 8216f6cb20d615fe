-- ===== src/Mining/Coinbase/Layout.antt =====
-- The two halves with extra nonces between them are the bytes of one transaction, given here field
-- by field.
use qbitx_pool.Base.{
  ℕ, ◌+◌, ◌-◌, ◌^◌, ◌≤◌, ◌<◌, ◌≡◌, refl, ltb, if◌then◌else◌, List, [], ◌∷◌, ◌++◌, length,
  length-append, replicate, ℤ, pos, pos_part, ◌-ℤ◌, int_laws, ◌≤ℤ◌, wrap64, wrap64_id, arith,
  le_bytes, ap, Bool-cases, inl, inr, negsuc, ◌%◌,
}
use mathlib.Core.List.{append_assoc, append-nil}
use native.Mathlib.Nat.{add-zero}
use qbitx_pool.Fee.{calc_developer_fee}
use qbitx_pool.Fee.Bounds.{calc_developer_fee_bounds}
use qbitx_pool.Mining.Wire.{encode_var_int, append_le32, append_le64}
use qbitx_pool.Mining.Base58.{build_payout_script}
use qbitx_pool.Mining.Transaction.{Input, Output, Transaction}
use qbitx_pool.Mining.Transaction.Read.{input_bytes, output_bytes, many_bytes, transaction_bytes}
use qbitx_pool.Mining.Coinbase.{
  CoinbaseArgs, script_sig_prefix, coinbase1, coinbase2, main_pk_script, dev_fee_value,
  append_output, second_half,
}

-- The one input: no previous output, and the prefix with the extra nonces behind it.
unfoldable pub coinbase_input : CoinbaseArgs → List ℕ → Input
coinbase_input c extra = record {
  previous_hash = replicate 32 0;
  previous_index = 0xffffffff;
  script_sig = script_sig_prefix c ++ extra;
  sequence = 0xffffffff;
}

-- The outputs for a value, a developer's share and the two scripts.
unfoldable pub outputs_of : ℕ → ℕ → List ℕ → List ℕ → List Output
outputs_of v dev main_script dev_script =
    record { value = v - dev; script = main_script }
    ∷ (if ltb 0 dev then record { value = dev; script = dev_script } ∷ [] else [])

-- The pool's output, and the developer's if there is a fee.
unfoldable pub coinbase_outputs : CoinbaseArgs → List Output
unfolding outputs_of
coinbase_outputs c =
    outputs_of (pos_part c.coinbase_value) (pos_part (dev_fee_value c)) (main_pk_script c)
      (build_payout_script c.developer_fee_address)

unfoldable pub coinbase_transaction : CoinbaseArgs → List ℕ → Transaction
unfolding coinbase_input coinbase_outputs
coinbase_transaction c extra = record {
  version = 1;
  inputs = coinbase_input c extra ∷ [];
  outputs = coinbase_outputs c;
  locktime = 0;
}

-- The developer's share is a number between 0 and the coinbase value.
pub dev_fee_value_lem :
    (c : CoinbaseArgs) {v : ℕ}
    → c.coinbase_value ≡ pos v
    → (dev : ℕ) × (dev_fee_value c ≡ pos dev) × (dev ≤ v)
unfolding dev_fee_value
dev_fee_value_lem c {v} e = rw e (
    as_number (calc_developer_fee (pos v) c.developer_fee_percent)
      (calc_developer_fee_bounds v c.developer_fee_percent))
  where
    as_number : (z : ℤ) → (pos 0 ≤ℤ z) × (z ≤ℤ pos v) → (dev : ℕ) × (z ≡ pos dev) × (dev ≤ v)
    as_number (pos n) h = (n, refl, omega arith)
    as_number (negsuc n) h = absurd (omega arith)

main_value_lem : (v dev : ℕ) → v < 2 ^ 63 → dev ≤ v → wrap64 (pos v -ℤ pos dev) ≡ pos (v - dev)
main_value_lem v dev hv hd =
    let e : pos v -ℤ pos dev ≡ pos (v - dev) = omega int_laws in
    rw e (wrap64_id (pos (v - dev)) (omega arith))

small : (n : ℕ) → n < 0xfd → encode_var_int n ≡ n ∷ []
unfolding encode_var_int
small n h = ground arith

output_lem :
    (dst : List ℕ) (value : ℕ) (script : List ℕ)
    → value < 2 ^ 63
    → append_output dst (pos value) script
      ≡ dst ++ output_bytes (record { value = value; script = script })
unfolding append_le64 output_bytes
output_lem dst value script h = rw (pattern_id value h) (simp append_assoc)
  where
    pattern_id : (n : ℕ) → n < 2 ^ 63 → n % 2 ^ 64 ≡ n
    pattern_id n h = omega arith

outputs_bytes : List Output → List ℕ
unfolding output_bytes many_bytes
outputs_bytes os =
    le_bytes 4 0xffffffff
    ++ (encode_var_int (length os) ++ (many_bytes output_bytes os ++ le_bytes 4 0))

same_test : (dev : ℕ) → ltb 0 (dev + 0) ≡ ltb 0 dev
same_test dev = ap (ltb 0) (add-zero dev)

second_half_lem :
    (v dev : ℕ) (ms ds : List ℕ)
    → v < 2 ^ 63
    → dev ≤ v
    → second_half (pos (v - dev)) (pos dev) ms ds ≡ outputs_bytes (outputs_of v dev ms ds)
unfolding second_half outputs_bytes outputs_of append_le32
second_half_lem v dev ms ds hv hd = elim (Bool-cases (ltb 0 dev)) [
  | inl paid ↦
      rw (same_test dev, paid)
        (simp (
          output_lem _ (v - dev) ms (omega arith),
          output_lem _ dev ds (omega arith),
          small 2 (omega arith),
          append_assoc,
        ))
  | inr unpaid ↦
      rw (same_test dev, unpaid)
        (simp (output_lem _ (v - dev) ms (omega arith), small 1 (omega arith), append_assoc))
]

-- The second half for integers that are known to be numbers.
second_half_of :
    (z y : ℤ) (ms ds : List ℕ) {v dev : ℕ}
    → z ≡ pos v
    → y ≡ pos dev
    → v < 2 ^ 63
    → dev ≤ v
    → second_half (wrap64 (z -ℤ y)) y ms ds
      ≡ outputs_bytes (outputs_of (pos_part z) (pos_part y) ms ds)
second_half_of z y ms ds {v} {dev} ez ey h le =
    rw (ez, ey, main_value_lem v dev h le) (second_half_lem v dev ms ds h le)

coinbase2_lem :
    (c : CoinbaseArgs) {v : ℕ}
    → c.coinbase_value ≡ pos v
    → v < 2 ^ 63
    → coinbase2 c ≡ outputs_bytes (coinbase_outputs c)
unfolding coinbase2 coinbase_outputs
coinbase2_lem c {v} e h =
    let (dev, d, le) = dev_fee_value_lem c e in
    second_half_of c.coinbase_value (dev_fee_value c) (main_pk_script c)
      (build_payout_script c.developer_fee_address) e d h le

script_length :
    (p en1 en2 : List ℕ)
    → length en1 ≡ 4
    → length en2 ≡ 4
    → length (p ++ (en1 ++ en2)) ≡ length p + 4 + 4
script_length p en1 en2 h1 h2 = omega (arith, length-append p (en1 ++ en2), length-append en1 en2)

-- What Validate glues together is the transaction above, byte for byte.
pub coinbase_bytes :
    (c : CoinbaseArgs) (en1 en2 : List ℕ) {v : ℕ}
    → c.coinbase_value ≡ pos v
    → v < 2 ^ 63
    → length en1 ≡ 4
    → length en2 ≡ 4
    → ((coinbase1 c ++ en1) ++ en2) ++ coinbase2 c
      ≡ transaction_bytes (coinbase_transaction c (en1 ++ en2))
unfolding coinbase1 coinbase_transaction transaction_bytes input_bytes many_bytes append_le32
coinbase_bytes c en1 en2 e h h1 h2 =
    rw (coinbase2_lem c e h, script_length (script_sig_prefix c) en1 en2 h1 h2)
      (unfold outputs_bytes in simp (small 1 (omega arith), append_assoc, append-nil))

-- The sum of the values of outputs.
pub total_value : List Output → ℕ
total_value [] = 0
total_value (o ∷ os) = o.value + total_value os

outputs_of_total : (v dev : ℕ) (ms ds : List ℕ) → dev ≤ v → total_value (outputs_of v dev ms ds) ≡ v
unfolding outputs_of total_value
outputs_of_total v dev ms ds h = ground arith

outputs_of_number :
    (z y : ℤ) (ms ds : List ℕ) {v dev : ℕ}
    → z ≡ pos v
    → y ≡ pos dev
    → dev ≤ v
    → total_value (outputs_of (pos_part z) (pos_part y) ms ds) ≡ v
outputs_of_number z y ms ds {v} {dev} ez ey h = rw (ez, ey) (outputs_of_total v dev ms ds h)

-- The outputs of the coinbase transaction share out the coinbase value, no satoshi more or less.
-- Condition: the value is not negative.
pub total_value-coinbase_outputs :
    (c : CoinbaseArgs) {v : ℕ} → c.coinbase_value ≡ pos v → total_value (coinbase_outputs c) ≡ v
unfolding coinbase_outputs
total_value-coinbase_outputs c e =
    let (dev, d, le) = dev_fee_value_lem c e in
    outputs_of_number c.coinbase_value (dev_fee_value c) (main_pk_script c)
      (build_payout_script c.developer_fee_address) e d le

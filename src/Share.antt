-- ===== src/Share.antt =====
-- internal/share/validator.go. math/big is part of the language's standard library: a big.Int that is
-- not negative is a number, and a big.Float quotient is rounded to the precision of its operands.
pub mod Target
pub mod Judge
mod Tests
use qbitx_pool.Base.{
  ℕ, zero, suc, ◌+◌, ◌-◌, ◌*◌, ◌/◌, ◌%◌, ◌^◌, ltb, leb, ◌==◌, if◌then◌else◌, Bool, true, false,
  Option, none, some, List, [], ◌∷◌, ◌++◌, map, length, take, replicate, Text, ℤ, pos,
}
use qbitx_pool.Float64.{Float64, bit_length, of_ratio, zero_f, one_f, lt}
use qbitx_pool.Hex
use qbitx_pool.Mining.Wire.{encode_var_int}
use qbitx_pool.Mining.Reverse.{reverse_bytes}
use qbitx_pool.Mining.Merkle.{double_sha256, merkle_root, build_block_header, hash_to_string}
use qbitx_pool.Job.{Job, extra_nonce1_size, extra_nonce2_size}

pub record Submission : Type 0 where
  pub extra_nonce1 : Text
  pub extra_nonce2 : Text
  pub n_time : Text
  pub nonce : Text

-- The errors of Validate, by their messages.
pub data ShareError : Type 0 where
  no_current_job bad_extranonce1 bad_extranonce2 bad_coinbase1 bad_coinbase2 bad_ntime bad_nonce :
      ShareError
  below_minimum : Float64 → ShareError

pub record ShareResult : Type 0 where
  pub error : Option ShareError
  pub is_block : Bool
  pub hash : Text
  pub diff : Float64
  pub height : ℤ

-- SetBytes, and the big-endian reading of Uint32.
unfoldable pub set_bytes : ℕ → List ℕ → ℕ
set_bytes n [] = n
set_bytes n (b ∷ bs) = set_bytes (n * 256 + b) bs

-- What hex.DecodeString returns without an error.
abbrev pub clean : List ℕ × Option Hex.HexError → Option (List ℕ)
clean (b, none) = some b
clean (b, some e) = none

abbrev pub of_size : ℕ → Option (List ℕ) → Option (List ℕ)
of_size n none = none
of_size n (some b) = if length b == n then some b else none

abbrev number_of : Option (List ℕ) → Option ℕ
number_of none = none
number_of (some b) = some (set_bytes 0 b)

unfoldable pub parse_hex32 : Text → Option ℕ
unfolding set_bytes
parse_hex32 s = number_of (of_size 4 (clean (Hex.decode s)))

unfoldable pub hash_to_big : List ℕ → ℕ
unfolding set_bytes
hash_to_big h = set_bytes 0 (reverse_bytes h)

unfoldable pub target_from_bits : ℕ → ℕ
target_from_bits bits =
    let exp = bits / 2 ^ 24 in
    let man = bits % 2 ^ 23 in
    if leb exp 3 then man / 2 ^ (8 * (3 - exp)) else man * 2 ^ (8 * (exp - 3))

-- 0xffff followed by 26 zero bytes.
abbrev pub diff1_target : ℕ
diff1_target = 0xffff * 2 ^ 208

abbrev larger : ℕ → ℕ → ℕ
larger a b = if ltb a b then b else a

-- `p / q` to the nearest integer, ties to even.
abbrev pub half_even : ℕ → ℕ → ℕ
half_even p q =
    let k = p / q in
    let r = p % q in if ltb (2 * r) q then k else if ltb q (2 * r) then k + 1 else k + k % 2

-- The float64 of the quotient, which is first rounded to the larger precision of the two numbers, at
-- least 64 bits: `m / 2 ^ s` with `m` of that many bits.
unfoldable pub quo : ℕ → ℕ → Float64
quo d h =
    let prec = larger 64 (larger (bit_length 9 d) (bit_length 9 h)) in
    let s = prec + bit_length 9 h - bit_length 9 d in
    let s' = if leb (2 ^ prec * h) (d * 2 ^ s) then s - 1 else s in
    of_ratio (half_even (d * 2 ^ s') h) (2 ^ s')

unfoldable pub diff_from_hash : ℕ → Float64
unfolding quo
diff_from_hash h = if h == 0 then zero_f else quo diff1_target h

unfoldable pub concat_all : List (List ℕ) → List ℕ
concat_all [] = []
concat_all (b ∷ bs) = b ++ concat_all bs

-- The bytes of the block, behind buildBlockHex.
unfoldable pub block_bytes : List ℕ → List ℕ → Job → List ℕ
unfolding concat_all
block_bytes header coinbase_tx j =
    ((header ++ encode_var_int (1 + length j.raw_tx_data)) ++ coinbase_tx)
    ++ concat_all j.raw_tx_data

unfoldable pub build_block_hex : List ℕ → List ℕ → Job → Text
unfolding block_bytes
build_block_hex header coinbase_tx j = Hex.encode (block_bytes header coinbase_tx j)

-- `copy(branchBytes[i][:], b)` into 32 zero bytes.
abbrev pub copy32 : List ℕ → List ℕ
copy32 b = take 32 (b ++ replicate (32 - length b) 0)

abbrev branch_of : List Text → List (List ℕ)
branch_of l = map (λ s. copy32 (Hex.decode s).0) l

abbrev pub rejected : ShareError → ShareResult × List Text
rejected e =
    (record { error = some e; is_block = false; hash = []; diff = zero_f; height = pos 0 }, [])

abbrev pub accepted : Job → Bool → List ℕ → Float64 → ShareResult
accepted j is_block header_hash diff = record {
  error = none;
  is_block = is_block;
  hash = hash_to_string header_hash;
  diff = diff;
  height = j.height;
}

-- The two comparisons of step 6, and the block that is handed to SubmitBlock, whose answer is only
-- logged.
unfoldable pub compare_hash : Job → List ℕ → List ℕ → ℕ → ℕ → Float64 → ShareResult × List Text
compare_hash j coinbase_tx header hash_big target_big diff =
    if leb hash_big target_big
    then (accepted j true (double_sha256 header) diff, build_block_hex header coinbase_tx j ∷ [])
    else if lt diff one_f
    then rejected (below_minimum diff)
    else (accepted j false (double_sha256 header) diff, [])

-- Step 6 with the hash of the header.
abbrev pub judge : Job → List ℕ → List ℕ → ShareResult × List Text
judge j coinbase_tx header =
    let hash_big = hash_to_big (double_sha256 header) in
    compare_hash j coinbase_tx header hash_big (target_from_bits j.bits_uint)
      (diff_from_hash hash_big)

-- Steps 2 to 5.
abbrev pub header_of : Job → List ℕ → ℕ → ℕ → List ℕ
header_of j coinbase_tx ntime nonce =
    build_block_header j.version_int j.prev_hash_bytes
      (merkle_root (double_sha256 coinbase_tx) (branch_of j.merkle_branch)) ntime j.bits_uint nonce

infixl 5 ◌or◌
-- An early return with the error.
abbrev pub ◌or◌ :
    {A : Type 0} → Option A → ShareError → (A → ShareResult × List Text) → ShareResult × List Text
(none or e) k = rejected e
(some a or e) k = k a

abbrev pub validate_job : Job → Submission → ShareResult × List Text
validate_job j sub =
    (of_size extra_nonce1_size (clean (Hex.decode sub.extra_nonce1)) or bad_extranonce1) (λ en1.
      (of_size extra_nonce2_size (clean (Hex.decode sub.extra_nonce2)) or bad_extranonce2) (λ en2.
        (clean (Hex.decode j.coinbase1) or bad_coinbase1) (λ cb1.
          (clean (Hex.decode j.coinbase2) or bad_coinbase2) (λ cb2.
            let coinbase_tx = ((cb1 ++ en1) ++ en2) ++ cb2 in
            (parse_hex32 sub.n_time or bad_ntime) (λ ntime.
              (parse_hex32 sub.nonce or bad_nonce)
                (λ nonce. judge j coinbase_tx (header_of j coinbase_tx ntime nonce)))))))

-- The result, and the blocks that are submitted to the daemon.
unfoldable pub validate : Option Job → Submission → ShareResult × List Text
unfolding parse_hex32 compare_hash hash_to_big target_from_bits diff_from_hash build_block_hex
validate none sub = rejected no_current_job
validate (some j) sub = validate_job j sub

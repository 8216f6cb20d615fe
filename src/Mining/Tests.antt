-- ===== src/Mining/Tests.antt =====
-- The theorems on internal/mining at concrete inputs, and runs of its functions.
use qbitx_pool.Base.{
  ℕ, ◌≡◌, ◌≢◌, refl, ap, none, some, List, [], ◌∷◌, ◌++◌, length, replicate, Text, codes, pos,
  arith, le_bytes, le_value, pattern64, take,
}
use qbitx_pool.Float64.{of_ratio}
use qbitx_pool.Hex
use qbitx_pool.Sha256.{sum256}
use qbitx_pool.Hex.RoundTrip.{decode-encode}
use qbitx_pool.Mining.Wire.{encode_var_int, encode_height}
use qbitx_pool.Mining.Wire.Read.{read_var_int, read_var_int-encode_var_int}
use qbitx_pool.Mining.Wire.Height.{read_height, read_height-encode_height}
use qbitx_pool.Mining.Base58.{base58_decode, build_payout_script, fallback_script, index_of}
use qbitx_pool.Mining.Base58.Value.{number, be_value, base58_decode_lem}
use qbitx_pool.Mining.Base58.Script.{build_payout_script-foreign}
use qbitx_pool.Mining.Transaction.{Transaction, read_transaction}
use qbitx_pool.Mining.Coinbase.{CoinbaseArgs, coinbase1, coinbase2}
use qbitx_pool.Mining.Coinbase.Layout.{total_value, coinbase_transaction}
use qbitx_pool.Mining.Coinbase.Output.{read_transaction-coinbase, total_value-read_transaction}
use qbitx_pool.Mining.Merkle.{merkle_root, merkle_branch, double_sha256, build_block_header}
use qbitx_pool.Mining.Merkle.Branch.{
  pair_hash, block_root, coinbase_branch, merkle_branch_one, merkle_branch_second,
}
use qbitx_pool.Mining.Merkle.Header.{field, build_block_header_fields}

decode-encode_example : Hex.decode (Hex.encode (0xde ∷ 0xad ∷ [])) ≡ (0xde ∷ 0xad ∷ [], none)
decode-encode_example = decode-encode (0xde ∷ 0xad ∷ []) (omega arith)

read_var_int-encode_var_int_example :
    read_var_int (encode_var_int 70000 ++ (7 ∷ [])) ≡ some (70000, 7 ∷ [])
read_var_int-encode_var_int_example = read_var_int-encode_var_int 70000 (7 ∷ []) (omega arith)

read_height-encode_height_example :
    read_height (encode_height (pos 40000) ++ (7 ∷ [])) ≡ some (pos 40000, 7 ∷ [])
read_height-encode_height_example =
    read_height-encode_height 40000 (7 ∷ []) (omega arith) (omega arith)

abbrev address : Text
address = codes "MWnxrbCdBdtUP2M5NZ7v5bYrbZ78ZsMBzh"

abbrev mistyped : Text
mistyped = codes "MWnxrbCdBdtUP2M5NZ7v5bYrbZ78ZsMBz0"

-- The 21 bytes of the address in internal/mining/mining_test.go.
abbrev decoded : List ℕ
decoded =
    50 ∷ 251 ∷ 30 ∷ 230 ∷ 141 ∷ 70 ∷ 191 ∷ 182 ∷ 25 ∷ 28 ∷ 15 ∷ 182 ∷ 130 ∷ 136 ∷ 57 ∷ 250 ∷ 14
    ∷ 182 ∷ 63 ∷ 197 ∷ 203 ∷ []

address_decodes : base58_decode address ≡ some decoded
unfolding base58_decode
address_decodes = refl

ones_decode : base58_decode (codes "11" ++ address) ≡ some (0 ∷ 0 ∷ decoded)
unfolding base58_decode
ones_decode = refl

base58_decode_lem_example :
    (check : List ℕ) × (length check ≡ 4)
    × (number (codes "11" ++ address) 0 ≡ some (be_value ((0 ∷ 0 ∷ decoded) ++ check)))
    × (take 2 ((0 ∷ 0 ∷ decoded) ++ check) ≡ replicate 2 0)
base58_decode_lem_example = base58_decode_lem 2 address (0 ∷ 0 ∷ decoded) ones_decode

mistyped_foreign : number mistyped 0 ≡ none
unfolding number index_of
mistyped_foreign = refl

build_payout_script-foreign_example : build_payout_script mistyped ≡ fallback_script
build_payout_script-foreign_example = build_payout_script-foreign mistyped mistyped_foreign

-- The checksum is not looked at: another last character still makes a script that pays somebody.
abbrev other_checksum : Text
other_checksum = codes "MWnxrbCdBdtUP2M5NZ7v5bYrbZ78ZsMBzj"

checksum_ignored : build_payout_script other_checksum ≡ build_payout_script address
unfolding build_payout_script
checksum_ignored = refl

-- The coinbase of TestBuildCoinbaseTx_DeveloperFeeOutput.
abbrev args : CoinbaseArgs
args = record {
  height = pos 100;
  coinbase_value = pos 1250000000;
  address = address;
  tag = codes "QBXPOOL";
  payout_spk_hex = [];
  developer_fee_percent = of_ratio 15 10;
  developer_fee_address = address;
}

read_transaction-coinbase_example :
    read_transaction
      (((coinbase1 args ++ (0 ∷ 0 ∷ 0 ∷ 1 ∷ [])) ++ (0 ∷ 0 ∷ 0 ∷ 2 ∷ [])) ++ coinbase2 args)
    ≡ some (coinbase_transaction args ((0 ∷ 0 ∷ 0 ∷ 1 ∷ []) ++ (0 ∷ 0 ∷ 0 ∷ 2 ∷ [])), [])
read_transaction-coinbase_example =
    read_transaction-coinbase args (0 ∷ 0 ∷ 0 ∷ 1 ∷ []) (0 ∷ 0 ∷ 0 ∷ 2 ∷ []) refl (omega arith) refl
      refl (omega arith)

total_value-read_transaction_example :
    (t : Transaction) × (read_transaction
        (((coinbase1 args ++ (0 ∷ 0 ∷ 0 ∷ 1 ∷ [])) ++ (0 ∷ 0 ∷ 0 ∷ 2 ∷ [])) ++ coinbase2 args)
      ≡ some (t, []))
    × (total_value t.outputs ≡ 1250000000)
total_value-read_transaction_example =
    total_value-read_transaction args (0 ∷ 0 ∷ 0 ∷ 1 ∷ []) (0 ∷ 0 ∷ 0 ∷ 2 ∷ []) refl (omega arith)
      refl refl (omega arith)

abbrev hash_a : List ℕ
hash_a = replicate 32 0xaa

abbrev hash_b : List ℕ
hash_b = replicate 32 0xbb

abbrev hash_c : List ℕ
hash_c = replicate 32 0xcc

merkle_branch_one_example :
    (merkle_root hash_a (merkle_branch (hash_b ∷ []))
      ≡ pair_hash (block_root hash_a (hash_b ∷ [])) (pair_hash hash_b hash_b))
    × (coinbase_branch (hash_b ∷ []) ≡ hash_b ∷ [])
merkle_branch_one_example = merkle_branch_one hash_a hash_b

merkle_branch_second_example :
    ((more : List (List ℕ)) × (merkle_branch (hash_b ∷ hash_c ∷ hash_a ∷ [])
        ≡ hash_b ∷ pair_hash hash_b hash_c ∷ more))
    × ((more : List (List ℕ)) × (coinbase_branch (hash_b ∷ hash_c ∷ hash_a ∷ [])
          ≡ hash_b ∷ pair_hash hash_c hash_a ∷ more))
merkle_branch_second_example = merkle_branch_second hash_b hash_c (hash_a ∷ [])

-- With the real hash function the two roots of a block with one transaction differ.
abbrev first_byte : List ℕ → ℕ
first_byte [] = 0
first_byte (b ∷ bs) = b

pool_root : first_byte (merkle_root hash_a (merkle_branch (hash_b ∷ []))) ≡ 39
unfolding merkle_root merkle_branch double_sha256 sum256 le_bytes
pool_root = refl

true_root : first_byte (block_root hash_a (hash_b ∷ [])) ≡ 73
unfolding block_root pair_hash sum256 le_bytes
true_root = refl

build_block_header_fields_example :
    let header = build_block_header (pos 0x20000000) hash_a hash_b 1700000000 0x1d00ffff 42 in
    (length header ≡ 80)
    × (field 0 4 header ≡ le_bytes 4 (pattern64 (pos 0x20000000)))
    × (field 4 32 header ≡ hash_a)
    × (field 36 32 header ≡ hash_b)
    × (le_value (field 68 4 header) ≡ 1700000000)
    × (le_value (field 72 4 header) ≡ 0x1d00ffff)
    × (le_value (field 76 4 header) ≡ 42)
build_block_header_fields_example =
    build_block_header_fields (pos 0x20000000) hash_a hash_b 1700000000 0x1d00ffff 42 refl refl
      (omega arith) (omega arith) (omega arith)

roots_differ : merkle_root hash_a (merkle_branch (hash_b ∷ [])) ≢ block_root hash_a (hash_b ∷ [])
roots_differ e = omega (arith, ap first_byte e, pool_root, true_root)

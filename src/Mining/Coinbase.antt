-- ===== src/Mining/Coinbase.antt =====
-- BuildCoinbaseTx of internal/mining/mining.go: the two halves of the coinbase transaction, between
-- which the stratum server's and the miner's extra nonces go.
pub mod Layout
pub mod Output
use qbitx_pool.Base.{
  ℕ, ◌+◌, ltb_ℤ, if◌then◌else◌, List, [], ◌∷◌, ◌++◌, length, replicate, Text, ℤ, pos, ◌-ℤ◌, wrap64,
}
use qbitx_pool.Float64.{Float64}
use qbitx_pool.Fee.{calc_developer_fee}
use qbitx_pool.Hex
use qbitx_pool.Mining.Wire.{encode_var_int, append_le32, append_le64, encode_height}
use qbitx_pool.Mining.Base58.{build_payout_script}

-- The arguments of BuildCoinbaseTx, in its order.
pub record CoinbaseArgs : Type 0 where
  pub height : ℤ
  pub coinbase_value : ℤ
  pub address : Text
  pub tag : Text
  pub payout_spk_hex : Text
  pub developer_fee_percent : Float64
  pub developer_fee_address : Text

unfoldable pub script_sig_prefix : CoinbaseArgs → List ℕ
script_sig_prefix c = encode_height c.height ++ c.tag

-- The first half; the length that it announces counts 4 + 4 bytes of extra nonces.
unfoldable pub coinbase1 : CoinbaseArgs → List ℕ
unfolding script_sig_prefix
coinbase1 c =
    let prefix = script_sig_prefix c in
    let version = append_le32 [] 1 in
    let outpoint = append_le32 ((version ++ (0x01 ∷ [])) ++ replicate 32 0) 0xffffffff in
    (outpoint ++ encode_var_int (length prefix + 4 + 4)) ++ prefix

abbrev pub or_else : List ℕ → List ℕ → List ℕ
or_else [] d = d
or_else (b ∷ bs) d = b ∷ bs

-- The configured output script, whose decoding error is ignored, or else that of the address.
unfoldable pub main_pk_script : CoinbaseArgs → List ℕ
main_pk_script c = or_else (Hex.decode c.payout_spk_hex).0 (build_payout_script c.address)

unfoldable pub dev_fee_value : CoinbaseArgs → ℤ
dev_fee_value c = calc_developer_fee c.coinbase_value c.developer_fee_percent

abbrev pub append_output : List ℕ → ℤ → List ℕ → List ℕ
append_output dst value script = (append_le64 dst value ++ encode_var_int (length script)) ++ script

-- The second half from the two values and their scripts: the sequence, the count, the outputs and
-- the lock time.
unfoldable pub second_half : ℤ → ℤ → List ℕ → List ℕ → List ℕ
second_half main_value dev main_script dev_script =
    let paid = ltb_ℤ (pos 0) dev in
    let counted = append_le32 [] 0xffffffff ++ ((if paid then 2 else 1) ∷ []) in
    let main = append_output counted main_value main_script in
    append_le32 (if paid then append_output main dev dev_script else main) 0

unfoldable pub coinbase2 : CoinbaseArgs → List ℕ
unfolding second_half main_pk_script dev_fee_value
coinbase2 c =
    second_half (wrap64 (c.coinbase_value -ℤ dev_fee_value c)) (dev_fee_value c) (main_pk_script c)
      (build_payout_script c.developer_fee_address)

unfoldable pub build_coinbase_tx : CoinbaseArgs → Text × Text
unfolding coinbase1 coinbase2
build_coinbase_tx c = (Hex.encode (coinbase1 c), Hex.encode (coinbase2 c))

-- ===== src/Mining/Coinbase/Output.antt =====
-- The transaction that a miner's extra nonces complete: it is well formed, whatever the
-- configuration, and its hexadecimal halves decode to it.
use qbitx_pool.Base.{
  ℕ, ◌+◌, ◌^◌, ◌≤◌, ◌<◌, ◌≡◌, none, some, List, [], ◌∷◌, ◌++◌, length, length-append,
  le_bytes-IsByte, replicate, ℤ, pos, pos_part, pattern64, le_bytes, arith, ap, ◌∙◌, sym, All,
  All-append, IsByte, ltb_ℤ, Bool-cases, inl, inr,
}
use mathlib.Core.List.{append-nil}
use qbitx_pool.Hex
use qbitx_pool.Hex.RoundTrip.{decode-encode, decode-IsByte, length-decode}
use qbitx_pool.Mining.Wire.{encode_var_int, append_le32, append_le64, encode_height}
use qbitx_pool.Mining.Wire.Read.{encode_var_int-IsByte}
use qbitx_pool.Mining.Wire.Height.{encode_height_shape}
use qbitx_pool.Mining.Base58.{build_payout_script}
use qbitx_pool.Mining.Base58.Bytes.{build_payout_script_shape}
use qbitx_pool.Mining.Transaction.{Transaction, read_transaction}
use qbitx_pool.Mining.Transaction.Read.{
  TransactionFits, OutputFits, read_transaction-bytes, transaction_bytes,
}
use qbitx_pool.Mining.Coinbase.{
  CoinbaseArgs, script_sig_prefix, coinbase1, coinbase2, main_pk_script, or_else, dev_fee_value,
  append_output, second_half, build_coinbase_tx,
}
use qbitx_pool.Mining.Coinbase.Layout.{
  total_value, total_value-coinbase_outputs, outputs_of, coinbase_transaction, coinbase_bytes,
  dev_fee_value_lem,
}

or_else_shape :
    (bs d : List ℕ) (n : ℕ)
    → All IsByte bs × (length bs ≤ n)
    → All IsByte d × (length d ≤ 25)
    → All IsByte (or_else bs d) × (length (or_else bs d) ≤ n + 25)
or_else_shape [] d n h k = (k.0, omega arith)
or_else_shape (b ∷ bs) d n h k = (h.0, omega arith)

main_pk_script_shape :
    (c : CoinbaseArgs)
    → All IsByte (main_pk_script c) × (length (main_pk_script c) ≤ length c.payout_spk_hex + 25)
unfolding main_pk_script
main_pk_script_shape c =
    or_else_shape (Hex.decode c.payout_spk_hex).0 (build_payout_script c.address)
      (length c.payout_spk_hex) (decode-IsByte c.payout_spk_hex, length-decode c.payout_spk_hex)
      (build_payout_script_shape c.address)

outputs_of-fit :
    (v dev : ℕ) (ms ds : List ℕ)
    → v < 2 ^ 63
    → dev ≤ v
    → length ms < 2 ^ 64
    → length ds ≤ 25
    → (length (outputs_of v dev ms ds) ≤ 2) × All OutputFits (outputs_of v dev ms ds)
unfolding outputs_of
outputs_of-fit v dev ms ds hv hd hm hs = ground arith

-- The configured texts are not absurdly long.
abbrev pub TextsFit : CoinbaseArgs → Type 0
TextsFit c = (length c.tag < 2 ^ 63) × (length c.payout_spk_hex < 2 ^ 63)

coinbase_transaction-fits :
    (c : CoinbaseArgs) (extra : List ℕ) {v : ℕ}
    → c.coinbase_value ≡ pos v
    → v < 2 ^ 63
    → length extra ≡ 8
    → TextsFit c
    → TransactionFits (coinbase_transaction c extra)
unfolding coinbase_transaction script_sig_prefix
coinbase_transaction-fits c extra {v} e h hx fits =
    let (dev, d, le) = dev_fee_value_lem c e in
    let outs = outputs_fit c.coinbase_value (dev_fee_value c) e d h le in
    (
      omega arith,
      omega arith,
      (
        (
          omega arith,
          omega arith,
          omega (
            arith,
            length-append (encode_height c.height ++ c.tag) extra,
            length-append (encode_height c.height) c.tag,
            encode_height_shape c.height,
          ),
          omega arith,
        ),
        tt,
      ),
      omega (arith, outs),
      outs.1,
      omega arith,
    )
  where
    outputs_fit :
        (z y : ℤ) {v dev : ℕ}
        → z ≡ pos v
        → y ≡ pos dev
        → v < 2 ^ 63
        → dev ≤ v
        → (length (
              outputs_of
                (pos_part z)
                (pos_part y)
                (main_pk_script c)
                (build_payout_script c.developer_fee_address))
            ≤ 2)
          × All OutputFits (
              outputs_of
                (pos_part z)
                (pos_part y)
                (main_pk_script c)
                (build_payout_script c.developer_fee_address))
    outputs_fit z y {v} {dev} ez ey hv hd =
        rw (ez, ey)
          (outputs_of-fit v dev (main_pk_script c) (build_payout_script c.developer_fee_address) hv
            hd (omega (arith, main_pk_script_shape c))
            (build_payout_script_shape c.developer_fee_address).1)

-- The halves with four and four bytes of extra nonces between them are read back as one coinbase
-- transaction: one input without a previous output, whose script is the height, the tag and the
-- extra nonces, and the outputs of `coinbase_outputs`. Conditions: the value is a non-negative int64
-- and the configured texts are shorter than 2 ^ 63.
pub read_transaction-coinbase :
    (c : CoinbaseArgs) (en1 en2 : List ℕ) {v : ℕ}
    → c.coinbase_value ≡ pos v
    → v < 2 ^ 63
    → length en1 ≡ 4
    → length en2 ≡ 4
    → TextsFit c
    → read_transaction (((coinbase1 c ++ en1) ++ en2) ++ coinbase2 c)
      ≡ some (coinbase_transaction c (en1 ++ en2), [])
read_transaction-coinbase c en1 en2 e h h1 h2 fits =
    let t = coinbase_transaction c (en1 ++ en2) in
    ap read_transaction
      (coinbase_bytes c en1 en2 e h h1 h2 ∙ sym (append-nil (transaction_bytes t)))
    ∙ read_transaction-bytes t []
        (coinbase_transaction-fits c (en1 ++ en2) e h (omega (arith, length-append en1 en2)) fits)

-- Read back by the reader of transactions, the coinbase transaction has outputs whose values add up
-- to the coinbase value, no satoshi more or less. Conditions: the value is a non-negative int64 and
-- the configured texts are shorter than 2 ^ 63.
pub total_value-read_transaction :
    (c : CoinbaseArgs) (en1 en2 : List ℕ) {v : ℕ}
    → c.coinbase_value ≡ pos v
    → v < 2 ^ 63
    → length en1 ≡ 4
    → length en2 ≡ 4
    → TextsFit c
    → (t : Transaction) × (read_transaction (((coinbase1 c ++ en1) ++ en2) ++ coinbase2 c)
        ≡ some (t, []))
      × (total_value t.outputs ≡ v)
unfolding coinbase_transaction
total_value-read_transaction c en1 en2 e h h1 h2 fits = (
  coinbase_transaction c (en1 ++ en2),
  read_transaction-coinbase c en1 en2 e h h1 h2 fits,
  total_value-coinbase_outputs c e,
)

append_output-IsByte :
    (dst script : List ℕ) (value : ℤ)
    → All IsByte dst
    → All IsByte script
    → All IsByte (append_output dst value script)
unfolding append_le64
append_output-IsByte dst script value h k =
    let amount = dst ++ le_bytes 8 (pattern64 value) in
    All-append IsByte (amount ++ encode_var_int (length script)) script
      (All-append IsByte amount (encode_var_int (length script))
        (All-append IsByte dst (le_bytes 8 (pattern64 value)) h
          (le_bytes-IsByte 8 (pattern64 value)))
        (encode_var_int-IsByte (length script)))
      k

append_le32-IsByte : (dst : List ℕ) (v : ℕ) → All IsByte dst → All IsByte (append_le32 dst v)
unfolding append_le32
append_le32-IsByte dst v h = All-append IsByte dst (le_bytes 4 v) h (le_bytes-IsByte 4 v)

pub coinbase1-IsByte : (c : CoinbaseArgs) → All IsByte c.tag → All IsByte (coinbase1 c)
unfolding coinbase1
coinbase1-IsByte c h =
    let prefix = encode_height c.height ++ c.tag in
    let prefix_bytes =
      All-append IsByte (encode_height c.height) c.tag (encode_height_shape c.height).0 h in
    let opening = append_le32 [] 1 ++ (0x01 ∷ []) in
    let opening_bytes =
      All-append IsByte (append_le32 [] 1) (0x01 ∷ []) (append_le32-IsByte [] 1 tt) (omega arith) in
    let hash_bytes = All-append IsByte opening (replicate 32 0) opening_bytes (omega arith) in
    let outpoint = append_le32 (opening ++ replicate 32 0) 0xffffffff in
    All-append IsByte (outpoint ++ encode_var_int (length prefix + 4 + 4)) prefix
      (All-append IsByte outpoint (encode_var_int (length prefix + 4 + 4))
        (append_le32-IsByte (opening ++ replicate 32 0) 0xffffffff hash_bytes)
        (encode_var_int-IsByte (length prefix + 4 + 4)))
      prefix_bytes

counted-IsByte : (n : ℕ) → n < 3 → All IsByte (append_le32 [] 0xffffffff ++ (n ∷ []))
counted-IsByte n h =
    All-append IsByte (append_le32 [] 0xffffffff) (n ∷ []) (append_le32-IsByte [] 0xffffffff tt)
      (omega arith)

second_half-IsByte :
    (z y : ℤ) (ms ds : List ℕ) → All IsByte ms → All IsByte ds → All IsByte (second_half z y ms ds)
unfolding second_half
second_half-IsByte z y ms ds hm hd = elim (Bool-cases (ltb_ℤ (pos 0) y)) [
  | inl paid ↦ rw paid (
      let counted = append_le32 [] 0xffffffff ++ (2 ∷ []) in
      append_le32-IsByte (append_output (append_output counted z ms) y ds) 0 (
        append_output-IsByte (append_output counted z ms) ds y
          (append_output-IsByte counted ms z (counted-IsByte 2 (omega arith)) hm) hd))
  | inr unpaid ↦ rw unpaid (
      let counted = append_le32 [] 0xffffffff ++ (1 ∷ []) in
      append_le32-IsByte (append_output counted z ms) 0
        (append_output-IsByte counted ms z (counted-IsByte 1 (omega arith)) hm))
]

pub coinbase2-IsByte : (c : CoinbaseArgs) → All IsByte (coinbase2 c)
unfolding coinbase2
coinbase2-IsByte c =
    second_half-IsByte _ _ (main_pk_script c) (build_payout_script c.developer_fee_address)
      (main_pk_script_shape c).0 (build_payout_script_shape c.developer_fee_address).0

-- The two hexadecimal strings that BuildCoinbaseTx returns decode, without an error, to the halves.
-- Condition: the tag is made of bytes.
decode-build_coinbase_tx :
    (c : CoinbaseArgs)
    → All IsByte c.tag
    → (Hex.decode (build_coinbase_tx c).0 ≡ (coinbase1 c, none))
      × (Hex.decode (build_coinbase_tx c).1 ≡ (coinbase2 c, none))
unfolding build_coinbase_tx
decode-build_coinbase_tx c h = (
  decode-encode (coinbase1 c) (coinbase1-IsByte c h),
  decode-encode (coinbase2 c) (coinbase2-IsByte c),
)

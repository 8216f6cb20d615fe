-- ===== src/Job/Template.antt =====
-- buildJob of internal/job/job.go: a job from a block template of the daemon.
use qbitx_pool.Base.{
  ℕ, zero, suc, ◌+◌, ◌*◌, ◌/◌, ◌%◌, ◌^◌, ltb, ◌==◌, if◌then◌else◌, Bool, ◌||◌, Option, none, some,
  List, [], ◌∷◌, ◌++◌, map, Text, ℤ, pattern64,
}
use qbitx_pool.Base.Results.{Result, ok, err, ◌>>=◌, map_err}
use qbitx_pool.Float64.{Float64}
use qbitx_pool.Hex
use qbitx_pool.Hex.{HexError, digit, nibble, digits32}
use qbitx_pool.Mining.Coinbase.{CoinbaseArgs, build_coinbase_tx}
use qbitx_pool.Mining.Merkle.{HashError, hex_to_hash32, hex_to_hash32_rev, merkle_branch}
use qbitx_pool.Job.{Job}

-- GBTTx and BlockTemplate of internal/daemon/rpc.go, by the fields that are read.
pub record GbtTx : Type 0 where
  pub data_hex : Text
  pub txid : Text

pub record BlockTemplate : Type 0 where
  pub version : ℤ
  pub previous_block_hash : Text
  pub transactions : List GbtTx
  pub coinbase_value : ℤ
  pub target : Text
  pub cur_time : ℤ
  pub bits : Text
  pub height : ℤ

-- The section `coinbase` of the configuration, without the reward, which the payout engine reads.
pub record CoinbaseConfig : Type 0 where
  pub address : Text
  pub tag : Text
  pub payout_spk_hex : Text
  pub developer_fee_percent : Float64
  pub developer_fee_address : Text

pub data BuildError : Type 0 where
  parse_txid : HashError → BuildError
  decode_tx_data : HexError → BuildError
  parse_prevhash : HashError → BuildError

-- fmt.Sprintf with "%x", of a number below 16 ^ fuel.
unfoldable pub hex_text : ℕ → ℕ → Text
unfolding digit
hex_text zero n = []
hex_text (suc fuel) n =
    let rest = hex_text fuel (n / 16) in
    if ltb n 16 then digit n ∷ [] else rest ++ digit (n % 16) ∷ []

-- The id of the job with this number; an int64 has 16 digits at most.
unfoldable pub job_id : ℕ → Text
unfolding hex_text
job_id n = hex_text 16 n

-- The hexadecimal digits that a text begins with.
unfoldable pub digit_prefix : Text → List ℕ
unfolding nibble
digit_prefix [] = []
digit_prefix (c ∷ cs) =
    let rest = digit_prefix cs in elim (nibble c) [ none ↦ [] | some d ↦ d ∷ rest ]

unfoldable pub digits_value : ℕ → List ℕ → ℕ
digits_value n [] = n
digits_value n (d ∷ ds) = digits_value (n * 16 + d) ds

-- The spaces that Sscanf passes over; after a line feed it gives up, as without a digit.
abbrev pub is_space : ℕ → Bool
is_space c = c == 32 || c == 9 || c == 11 || c == 12 || c == 13

unfoldable pub skip_spaces : Text → Text
skip_spaces [] = []
skip_spaces (c ∷ cs) = if is_space c then skip_spaces cs else c ∷ cs

-- fmt.Sscanf with "%x" into a uint32, which stays 0 where there is no digit or too many.
unfoldable pub parse_bits_hex : Text → ℕ
unfolding skip_spaces digit_prefix digits_value
parse_bits_hex s =
    let v = digits_value 0 (digit_prefix (skip_spaces s)) in if ltb v (2 ^ 32) then v else 0

-- A conversion to uint32.
abbrev pub uint32 : ℤ → ℕ
uint32 z = pattern64 z % 2 ^ 32

abbrev pub coinbase_args : CoinbaseConfig → BlockTemplate → CoinbaseArgs
coinbase_args cfg tpl = record {
  height = tpl.height;
  coinbase_value = tpl.coinbase_value;
  address = cfg.address;
  tag = cfg.tag;
  payout_spk_hex = cfg.payout_spk_hex;
  developer_fee_percent = cfg.developer_fee_percent;
  developer_fee_address = cfg.developer_fee_address;
}

-- hex.DecodeString, with its error.
abbrev pub decoded : List ℕ × Option HexError → Result HexError (List ℕ)
decoded (b, none) = ok b
decoded (b, some e) = err e

-- The hash and the bytes of a transaction.
unfoldable pub parse_tx : GbtTx → Result BuildError (List ℕ × List ℕ)
unfolding hex_to_hash32
parse_tx tx = map_err parse_txid (hex_to_hash32 tx.txid) >>= λ h.
    map_err decode_tx_data (decoded (Hex.decode tx.data_hex)) >>= λ raw. ok (h, raw)

unfoldable pub parse_txs : List GbtTx → Result BuildError (List (List ℕ × List ℕ))
unfolding parse_tx
parse_txs [] = ok []
parse_txs (tx ∷ txs) = parse_tx tx >>= λ p. parse_txs txs >>= λ ps. ok (p ∷ ps)

-- The job, once everything is parsed.
abbrev pub job_of :
    CoinbaseConfig → Text → BlockTemplate → Bool → List (List ℕ × List ℕ) → List ℕ → Job
job_of cfg id tpl clean txs prev_hash =
    let halves = build_coinbase_tx (coinbase_args cfg tpl) in
    record {
      id = id;
      prev_hash = Hex.encode prev_hash;
      coinbase1 = halves.0;
      coinbase2 = halves.1;
      merkle_branch = map Hex.encode (merkle_branch (map (λ p. p.0) txs));
      version = digits32 (uint32 tpl.version);
      bits = tpl.bits;
      time = digits32 (uint32 tpl.cur_time);
      clean_jobs = clean;
      height = tpl.height;
      coinbase_value = tpl.coinbase_value;
      target = tpl.target;
      prev_hash_bytes = prev_hash;
      bits_uint = parse_bits_hex tpl.bits;
      version_int = tpl.version;
      time_uint = uint32 tpl.cur_time;
      tx_hashes = map (λ p. p.0) txs;
      raw_tx_data = map (λ p. p.1) txs;
    }

unfoldable pub build_job : CoinbaseConfig → Text → BlockTemplate → Bool → Result BuildError Job
unfolding parse_txs hex_to_hash32_rev parse_bits_hex build_coinbase_tx merkle_branch
build_job cfg id tpl clean = parse_txs tpl.transactions >>= λ txs.
    map_err parse_prevhash (hex_to_hash32_rev tpl.previous_block_hash) >>= λ prev_hash.
    ok (job_of cfg id tpl clean txs prev_hash)

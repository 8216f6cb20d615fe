-- ===== src/Job/Tests.antt =====
-- The theorems on jobs at concrete inputs, and runs of the maker.
use qbitx_pool.Base.{
  ℕ, ◌^◌, ◌<◌, zero, suc, ◌≡◌, refl, Bool, true, none, some, List, [], ◌∷◌, ◌++◌, map, replicate,
  reverse, All, Text, codes, text_eq, pos, arith,
}
use qbitx_pool.Base.Results.{ok, err}
use qbitx_pool.Float64.{zero_f}
use qbitx_pool.Hex
use qbitx_pool.Hex.{digits32, encode, decode}
use qbitx_pool.Mining.Coinbase.{coinbase1, coinbase2}
use qbitx_pool.Mining.Merkle.{hash_to_string, merkle_branch, bad_length}
use qbitx_pool.Mining.Reverse.{reverse_bytes}
use qbitx_pool.Job.{Job}
use qbitx_pool.Job.Template.{
  GbtTx, BlockTemplate, CoinbaseConfig, parse_prevhash, parse_txid, job_of, coinbase_args,
  build_job, job_id, parse_bits_hex,
}
use qbitx_pool.Job.Build.{validate-build_job}
use qbitx_pool.Job.Order.{build_job_order}
use qbitx_pool.Job.Maker.{new_maker, MakerStep, polled, subscribed, received, maker_run}
use qbitx_pool.Job.Maker.Channels.{ids, taken, taken-Distinct}
use qbitx_pool.Share.{validate, header_of}
use qbitx_pool.Share.Judge.{Judged}
use qbitx_pool.Stratum.History.Once.{Distinct, IsPlain}

abbrev cfg : CoinbaseConfig
cfg = record {
  address = codes "1BoatSLRHtKNngkdXEeobR76b53LETtpyT";
  tag = codes "/pool/";
  payout_spk_hex = [];
  developer_fee_percent = zero_f;
  developer_fee_address = [];
}

abbrev previous : List ℕ
previous = 1 ∷ replicate 31 0

abbrev leaf : List ℕ
leaf = 2 ∷ replicate 31 0

abbrev template : Text → List GbtTx → BlockTemplate
template prev txs = record {
  version = pos 0x20000000;
  previous_block_hash = prev;
  transactions = txs;
  coinbase_value = pos 5000000000;
  target = [];
  cur_time = pos 1700000000;
  bits = codes "1d00ffff";
  height = pos 100;
}

abbrev tx : GbtTx
tx = record { data_hex = codes "0102"; txid = hash_to_string leaf }

abbrev good : BlockTemplate
good = template (hash_to_string previous) (tx ∷ [])

abbrev built : Text → Bool → Job
built id clean = job_of cfg id good clean ((reverse leaf, 1 ∷ 2 ∷ []) ∷ []) previous

bits : parse_bits_hex (codes "1d00ffff") ≡ 0x1d00ffff
unfolding parse_bits_hex
bits = refl

ids_of_jobs : (job_id 1 ≡ codes "1") × (job_id 255 ≡ codes "ff")
unfolding job_id
ids_of_jobs = (refl, refl)

good-builds : (id : Text) (clean : Bool) → build_job cfg id good clean ≡ ok (built id clean)
unfolding build_job hash_to_string decode encode reverse_bytes
good-builds id clean = refl

tag-IsByte : All (λ b. b < 256) cfg.tag
tag-IsByte =
    (omega arith, (omega arith, (omega arith, (omega arith, (omega arith, (omega arith, tt))))))

abbrev nonce4 : List ℕ
nonce4 = 1 ∷ 2 ∷ 3 ∷ 4 ∷ []

nonce4-IsByte : All (λ b. b < 256) nonce4
nonce4-IsByte = (omega arith, (omega arith, (omega arith, (omega arith, tt))))

validate-build_job_example :
    (let a = coinbase_args cfg good in
      let c = ((coinbase1 a ++ nonce4) ++ nonce4) ++ coinbase2 a in
      Judged (built (codes "1") true) c (header_of (built (codes "1") true) c 1700000000 42) (
        validate (some (built (codes "1") true)) (record {
          extra_nonce1 = Hex.encode nonce4;
          extra_nonce2 = Hex.encode nonce4;
          n_time = digits32 1700000000;
          nonce = digits32 42;
        })))
validate-build_job_example =
    validate-build_job cfg (codes "1") good true (built (codes "1") true) nonce4 nonce4 1700000000
      42 (good-builds (codes "1") true) tag-IsByte nonce4-IsByte nonce4-IsByte refl refl
      (omega arith) (omega arith)

zeros-IsByte : (n : ℕ) → All (λ c. c < 256) (replicate n 0)
zeros-IsByte zero = tt
zeros-IsByte (suc n) = (omega arith, zeros-IsByte n)

leaf-IsHash : (b : ℕ) → b < 256 → All (λ c. c < 256) (b ∷ replicate 31 0)
leaf-IsHash b h = (h, zeros-IsByte 31)

build_job_order_example :
    ((built (codes "1") true).prev_hash_bytes ≡ previous)
    × ((built (codes "1") true).tx_hashes ≡ map reverse (leaf ∷ []))
    × ((built (codes "1") true).merkle_branch
        ≡ map Hex.encode (merkle_branch (map reverse (leaf ∷ []))))
build_job_order_example =
    build_job_order cfg (codes "1") good true (built (codes "1") true) previous (leaf ∷ [])
      (good-builds (codes "1") true) (leaf-IsHash 1 (omega arith), refl)
      ((leaf-IsHash 2 (omega arith), refl), tt) refl refl

-- A hash of the previous block that is too short.
abbrev short : BlockTemplate
short = template (codes "00") []

-- A transaction id that is too short.
abbrev broken : BlockTemplate
broken = template (hash_to_string previous) (record tx { txid = codes "00" } ∷ [])

abbrev steps : List MakerStep
steps =
    subscribed
    ∷ polled (some good)
    ∷ polled none
    ∷ received 0
    ∷ polled (some short)
    ∷ polled (some good)
    ∷ received 0
    ∷ []

short-fails : build_job cfg (codes "2") short true ≡ err (parse_prevhash (bad_length 1))
unfolding build_job decode
short-fails = refl

-- The subscriber takes the first and the third job.
two_jobs : ids (taken cfg 0 steps new_maker) ≡ codes "1" ∷ codes "3" ∷ []
unfolding maker_run job_id text_eq hash_to_string decode encode reverse_bytes
two_jobs = refl

few : (maker_run cfg steps new_maker).seq < 16 ^ 16
unfolding maker_run hash_to_string decode encode reverse_bytes
few = omega arith

taken-Distinct_example :
    Distinct (ids (taken cfg 0 steps new_maker)) × All IsPlain (ids (taken cfg 0 steps new_maker))
taken-Distinct_example = taken-Distinct cfg 0 steps few

broken-fails : build_job cfg (job_id 1) broken true ≡ err (parse_txid (bad_length 1))
unfolding build_job decode
broken-fails = refl

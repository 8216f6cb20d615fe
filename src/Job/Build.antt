-- ===== src/Job/Build.antt =====
-- A job that buildJob makes is one that Validate can work with.
use qbitx_pool.Base.{ℕ, ◌^◌, ◌<◌, ◌≡◌, ap, sym, Bool, List, ◌++◌, length, All, IsByte, Text, some}
use qbitx_pool.Base.Results.{ok, map_err, >>=_ok, ok_injective}
use qbitx_pool.Hex
use qbitx_pool.Hex.{digits32}
use qbitx_pool.Mining.Coinbase.{coinbase1, coinbase2, build_coinbase_tx}
use qbitx_pool.Mining.Coinbase.Output.{coinbase1-IsByte, coinbase2-IsByte}
use qbitx_pool.Mining.Merkle.{hex_to_hash32_rev}
use qbitx_pool.Job.{Job}
use qbitx_pool.Job.Template.{
  BlockTemplate, CoinbaseConfig, parse_prevhash, parse_txs, job_of, coinbase_args, build_job,
}
use qbitx_pool.Share.{validate, header_of}
use qbitx_pool.Share.Judge.{Judged, validate_well_formed}

-- A job is made of parsed transactions and a parsed hash.
pub build_job_ok :
    (cfg : CoinbaseConfig) (id : Text) (tpl : BlockTemplate) (clean : Bool) (j : Job)
    → build_job cfg id tpl clean ≡ ok j
    → (txs : List (List ℕ × List ℕ)) × (prev : List ℕ) × (parse_txs tpl.transactions ≡ ok txs)
      × (map_err parse_prevhash (hex_to_hash32_rev tpl.previous_block_hash) ≡ ok prev)
      × (job_of cfg id tpl clean txs prev ≡ j)
unfolding build_job
build_job_ok cfg id tpl clean j e =
    let (txs, p, f) = >>=_ok (parse_txs tpl.transactions) _ j e in
    let (prev, q, g) =
      >>=_ok (map_err parse_prevhash (hex_to_hash32_rev tpl.previous_block_hash)) _ j f in
    (txs, prev, p, q, ok_injective (job_of cfg id tpl clean txs prev) j g)

build_job_halves :
    (cfg : CoinbaseConfig) (id : Text) (tpl : BlockTemplate) (clean : Bool) (j : Job)
    → build_job cfg id tpl clean ≡ ok j
    → (j.coinbase1 ≡ Hex.encode (coinbase1 (coinbase_args cfg tpl)))
      × (j.coinbase2 ≡ Hex.encode (coinbase2 (coinbase_args cfg tpl)))
unfolding build_coinbase_tx
build_job_halves cfg id tpl clean j e =
    let (txs, prev, p, q, made) = build_job_ok cfg id tpl clean j e in
    (sym (ap (λ k. k.coinbase1) made), sym (ap (λ k. k.coinbase2) made))

-- What a miner returns for a job is judged by the block that it completes: Validate takes the job
-- that buildJob made of a template apart into the two halves of the coinbase transaction of that
-- template, and judges the header over that transaction with the miner's nonces in it. Conditions:
-- the tag of the configuration is made of bytes, the extra nonces are four bytes each in
-- hexadecimal, and time and nonce are 32-bit numbers in eight digits.
pub validate-build_job :
    (cfg : CoinbaseConfig) (id : Text) (tpl : BlockTemplate) (clean : Bool) (j : Job)
    (en1 en2 : List ℕ) (ntime nonce : ℕ)
    → build_job cfg id tpl clean ≡ ok j
    → All IsByte cfg.tag
    → All IsByte en1
    → All IsByte en2
    → length en1 ≡ 4
    → length en2 ≡ 4
    → ntime < 2 ^ 32
    → nonce < 2 ^ 32
    → (let a = coinbase_args cfg tpl in
        let tx = ((coinbase1 a ++ en1) ++ en2) ++ coinbase2 a in
        Judged j tx (header_of j tx ntime nonce) (
          validate (some j) (record {
            extra_nonce1 = Hex.encode en1;
            extra_nonce2 = Hex.encode en2;
            n_time = digits32 ntime;
            nonce = digits32 nonce;
          })))
validate-build_job cfg id tpl clean j en1 en2 ntime nonce e tag n1 n2 l1 l2 t n =
    let a = coinbase_args cfg tpl in
    let (h1, h2) = build_job_halves cfg id tpl clean j e in
    validate_well_formed j (coinbase1 a) (coinbase2 a) en1 en2 ntime nonce (coinbase1-IsByte a tag)
      (coinbase2-IsByte a) n1 n2 h1 h2 l1 l2 t n

-- ===== src/Share/Tests.antt =====
-- The theorems on internal/share at concrete inputs, and runs of its functions.
use qbitx_pool.Base.{◌/◌, ◌≡◌, refl, some, List, ℕ, [], ◌∷◌, ◌++◌, arith, replicate, pos, false}
use qbitx_pool.Float64.{operations, of_ratio}
use qbitx_pool.Hex
use qbitx_pool.Job.{Job}
use qbitx_pool.Share.{
  Submission, validate, header_of, target_from_bits, diff_from_hash, diff1_target,
}
use qbitx_pool.Hex.{digits32}
use qbitx_pool.Share.Judge.{Judged, Consistent, validate_well_formed, validate-Consistent}

abbrev job : Job
job = record {
  id = [];
  prev_hash = [];
  coinbase1 = Hex.encode (1 ∷ 2 ∷ []);
  coinbase2 = Hex.encode (3 ∷ []);
  merkle_branch = [];
  version = [];
  bits = [];
  time = [];
  clean_jobs = false;
  height = pos 7;
  coinbase_value = pos 50;
  target = [];
  prev_hash_bytes = replicate 32 0;
  bits_uint = 0x1d00ffff;
  version_int = pos 2;
  time_uint = 0;
  tx_hashes = [];
  raw_tx_data = [];
}

abbrev nonces : List ℕ
nonces = 0 ∷ 0 ∷ 0 ∷ 1 ∷ []

abbrev coinbase : List ℕ
coinbase = (((1 ∷ 2 ∷ []) ++ nonces) ++ nonces) ++ (3 ∷ [])

abbrev submission : Submission
submission = record {
  extra_nonce1 = Hex.encode nonces;
  extra_nonce2 = Hex.encode nonces;
  n_time = digits32 1700000000;
  nonce = digits32 42;
}

validate_well_formed_example :
    Judged job coinbase (header_of job coinbase 1700000000 42) (validate (some job) submission)
validate_well_formed_example =
    validate_well_formed job (1 ∷ 2 ∷ []) (3 ∷ []) nonces nonces 1700000000 42 (omega arith)
      (omega arith) (omega arith) (omega arith) refl refl refl refl (omega arith) (omega arith)

validate-Consistent_example : Consistent (validate (some job) submission)
validate-Consistent_example = validate-Consistent (some job) submission

bits_of_one : target_from_bits 0x1d00ffff ≡ diff1_target
unfolding target_from_bits
bits_of_one = refl

difficulty_two : diff_from_hash (diff1_target / 2) ≡ of_ratio 2 1
unfolding diff_from_hash operations
difficulty_two = refl

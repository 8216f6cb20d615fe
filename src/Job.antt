-- ===== src/Job.antt =====
-- The data of internal/job/job.go; its operations are in Job/Template and
-- Job/Maker.
pub mod Template
pub mod Maker
pub mod Build
pub mod Order
mod Tests
use qbitx_pool.Base.{ℕ, Bool, List, Text, ℤ}

-- The two sizes of extra nonces, in bytes.
abbrev pub extra_nonce1_size : ℕ
extra_nonce1_size = 4

abbrev pub extra_nonce2_size : ℕ
extra_nonce2_size = 4

pub record Job : Type 0 where
  pub id : Text
  pub prev_hash : Text
  pub coinbase1 : Text
  pub coinbase2 : Text
  pub merkle_branch : List Text
  pub version : Text
  pub bits : Text
  pub time : Text
  pub clean_jobs : Bool
  pub height : ℤ
  pub coinbase_value : ℤ
  pub target : Text
  pub prev_hash_bytes : List ℕ
  pub bits_uint : ℕ
  pub version_int : ℤ
  pub time_uint : ℕ
  pub tx_hashes : List (List ℕ)
  pub raw_tx_data : List (List ℕ)

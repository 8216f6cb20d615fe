-- ===== src/Accounting/Engine.antt =====
-- The parts of PayoutEngine in internal/accounting/payout.go: its configuration, the daemon behind
-- the interface DaemonSender, and what the Go runtime and the database driver choose.
pub mod Reward
use qbitx_pool.Base.{
  ℕ, ◌-◌, ◌≡◌, Bool, Text, codes, text_eq, leb_ℤ, ltb_ℤ, if◌then◌else◌, ℤ, pos, ◌-ℤ◌, wrap64, List,
  ◌||◌, not, refl, false, true,
}
use qbitx_pool.Base.Results.{Result, ok, err}
use qbitx_pool.Float64.{Float64}
use qbitx_pool.Fee.{calc_fee_sat}
use qbitx_pool.Accounting.Allocate.{Weights}
use qbitx_pool.Accounting.Database.{Status, found, immature, mature, orphan}
use qbitx_pool.Accounting.Session.{
  Error, bad_reward, no_reward_after_developer_fee, no_reward_after_pool_fee,
}

-- The interface that internal/daemon implements. A block is known with its confirmations, or not.
pub record DaemonSender : Type 0 where
  pub send_many : List (Text × Float64) → Result Text Text
  pub lookup_block_confirmations : Text → Result Text (ℤ × Bool)

-- The fields of config.Config that the engine reads.
pub record PayoutConfig : Type 0 where
  pub reward : ℤ
  pub developer_fee_percent : Float64
  pub pool_fee_percent : Float64
  pub scheme : Text
  pub min_payout_sat : ℤ
  pub block_maturity : ℤ

pub record Engine : Type 0 where
  pub pool_id : Text
  pub cfg : PayoutConfig
  pub sender : DaemonSender
  -- the orders in which three loops visit the map of weights
  pub total_order : Weights → Weights
  pub sum_order : Weights → Weights
  pub share_order : Weights → Weights
  -- whether the driver takes a statement on a connection with open rows
  pub pipelined : Bool

-- What syncBlockStates makes of an answer of the daemon.
unfoldable pub next_status : ℤ → ℤ → Bool → Status
next_status maturity confirmations exists =
    if not exists || ltb_ℤ confirmations (pos 0)
    then orphan
    else if leb_ℤ maturity confirmations
    then mature
    else if ltb_ℤ (pos 0) confirmations
    then immature
    else found

-- The reward that settleNextBlock shares out among the miners.
unfoldable pub miner_reward : PayoutConfig → Result Error ℤ
miner_reward cfg =
    if leb_ℤ cfg.reward (pos 0)
    then err bad_reward
    else let after_dev = wrap64 (cfg.reward -ℤ calc_fee_sat cfg.reward cfg.developer_fee_percent) in
      if leb_ℤ after_dev (pos 0)
      then err no_reward_after_developer_fee
      else let miners = wrap64 (after_dev -ℤ calc_fee_sat after_dev cfg.pool_fee_percent) in
        if leb_ℤ miners (pos 0) then err no_reward_after_pool_fee else ok miners

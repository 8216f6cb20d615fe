-- ===== src/Accounting/Settle.antt =====
-- settleNextBlock and settleAllBlocks of internal/accounting/payout.go.
pub mod Credits
pub mod Effect
pub mod Outcome
pub mod Safety
pub mod Loop
use qbitx_pool.Base.{
  ℕ, zero, suc, ◌+◌, leb, ltb, ◌==◌, leb_ℤ, if◌then◌else◌, Bool, true, false, not, ◌&&◌, ◌||◌,
  Option, none, some, List, [], ◌∷◌, ◌++◌, length, Text, codes, text_eq, ℤ, pos, negsuc,
}
use qbitx_pool.Base.Results.{Result, ok, err}
use qbitx_pool.Float64.{Float64, zero_f, add, le, lt}
use qbitx_pool.Accounting.Allocate.{Weights, Amounts, allocate_by_weight}
use qbitx_pool.Accounting.Worker.{payout_address_from_worker}
use qbitx_pool.Accounting.Database.{
  Database, Share, BlockState, Settlement, Status, settled, is_block, is_mature, select, exists,
  update, order_by, credit, with_balances,
}
use qbitx_pool.Accounting.Session.{
  World, M, Error, invalid_winner, no_valid_shares, unsupported_scheme, empty_allocation, panic,
  ◌>>=◌, ◌>>◌, pure, fail, from_result, begin, commit, tx_exec, tx_query, begin_settle,
  select_unsettled_block, load_previous_block, load_round_shares, upsert_balance,
  insert_block_settlement, mark_block_settled, commit_settle,
}
use qbitx_pool.Accounting.Engine.{Engine, PayoutConfig, miner_reward}
use qbitx_pool.Accounting.Sync.{this_state}

-- The WHERE of the first SELECT: a mature block of the pool that is not settled.
abbrev pub to_settle : Text → Database → Share → Bool
to_settle pool d s =
    text_eq s.pool_id pool
    && (is_block s.share_type
        && (exists (λ b. this_state s.id pool b && is_mature b.status) d.block_states
            && not
                (exists (λ t. t.block_share_id == s.id && text_eq t.pool_id pool) d.settlements)))

abbrev pub first_of {ℓ} : {A : Type ℓ} → List A → Option A
first_of [] = none
first_of (a ∷ as') = some a

-- `ORDER BY s.id ASC LIMIT 1`
unfoldable pub next_block : Text → Database → Option Share
unfolding select exists order_by
next_block pool d = first_of (order_by (λ s t. leb s.id t.id) (select (to_settle pool d) d.shares))

abbrev pub later_id : ℕ → ℕ → ℕ
later_id a b = if ltb a b then b else a

-- `COALESCE(MAX(id), 0)`
unfoldable pub max_id : List Share → ℕ
max_id [] = 0
max_id (s ∷ ss) = later_id (max_id ss) s.id

-- The last block of the pool before the given one.
unfoldable pub previous_block : Text → ℕ → Database → ℕ
unfolding max_id select
previous_block pool id d =
    max_id (select (λ s. is_block s.share_type && (text_eq s.pool_id pool && ltb s.id id)) d.shares)

-- The shares of the round, behind the last block and up to this one.
unfoldable pub round_shares : Text → ℕ → ℕ → Database → List Share
unfolding select order_by
round_shares pool from to d =
    order_by (λ s t. leb s.id t.id)
      (select (λ s. text_eq s.pool_id pool && (ltb from s.id && leb s.id to)) d.shares)

-- `weights[address] += diff`; a new entry starts at 0.
unfoldable pub add_weight : Text → Float64 → Weights → Weights
add_weight k diff [] = (k, add zero_f diff) ∷ []
add_weight k diff ((j, w) ∷ m) =
    if text_eq j k then (j, add w diff) ∷ m else (j, w) ∷ add_weight k diff m

abbrev pub counts_not : Share → Bool
counts_not s = text_eq (payout_address_from_worker s.worker) [] || le s.diff zero_f

-- The loop over the rows: the weights, and how many shares counted.
unfoldable pub weigh : List Share → Weights × ℕ → Weights × ℕ
unfolding add_weight
weigh [] acc = acc
weigh (s ∷ ss) (m, n) = weigh ss (
    if counts_not s
    then (m, n)
    else (add_weight (payout_address_from_worker s.worker) s.diff m, n + 1))

unfoldable pub sum_weights : Float64 → Weights → Float64
sum_weights total [] = total
sum_weights total ((k, w) ∷ m) = sum_weights (add total w) m

-- What the switch on the scheme leaves in the variables.
pub record Allocation : Type 0 where
  pub alloc : Amounts
  pub round_start_share_id : ℕ
  pub round_end_share_id : ℕ
  pub shares_count : ℕ
  pub total_weight : Float64

abbrev pub is_empty {ℓ} : {A : Type ℓ} → List A → Bool
is_empty [] = true
is_empty (a ∷ as') = false

abbrev pub or_panic : {A : Type 0} → Option A → M A
or_panic none = fail panic
or_panic (some a) = pure a

module _ (e : Engine) where
  abbrev pub solo : ℤ → Share → M Allocation
  solo reward block =
      let winner = payout_address_from_worker block.worker in
      if text_eq winner []
      then fail invalid_winner
      else pure (record {
        alloc = (winner, reward) ∷ [];
        round_start_share_id = block.id;
        round_end_share_id = block.id;
        shares_count = 1;
        total_weight = if lt zero_f block.diff then block.diff else zero_f;
      })

  -- The end of the `lprop` case, from the weights on.
  abbrev pub proportional : ℤ → Share → ℕ → Weights × ℕ → M Allocation
  proportional reward block previous (weights, count) =
      if is_empty weights
      then fail no_valid_shares
      else (or_panic (allocate_by_weight reward (e.sum_order weights) (e.share_order weights))
          >>= λ amounts. pure (record {
            alloc = amounts;
            round_start_share_id = previous + 1;
            round_end_share_id = block.id;
            shares_count = count;
            total_weight = sum_weights zero_f (e.total_order weights);
          }))

  abbrev pub lprop : ℤ → Share → M Allocation
  lprop reward block = do
    previous ← tx_query load_previous_block (previous_block e.pool_id block.id)
    rows ← tx_query load_round_shares (round_shares e.pool_id previous block.id)
    proportional reward block previous (weigh rows ([], 0))

  abbrev pub by_scheme : ℤ → Share → M Allocation
  by_scheme reward block =
      if text_eq e.cfg.scheme (codes "solo")
      then solo reward block
      else if text_eq e.cfg.scheme (codes "lprop")
      then lprop reward block
      else fail unsupported_scheme

  -- The upsert of one amount; one that is not positive is skipped.
  abbrev pub credit_row : Text → ℤ → M (Unit {0})
  credit_row worker (negsuc n) = pure tt
  credit_row worker (pos zero) = pure tt
  credit_row worker (pos (suc n)) =
      tx_exec e.pipelined upsert_balance (with_balances (credit e.pool_id worker (suc n)))

  unfoldable pub credit_all : Amounts → M (Unit {0})
  unfolding credit
  credit_all [] = pure tt
  credit_all ((worker, amount) ∷ rest) = credit_row worker amount >> credit_all rest

  -- The row of block_settlements.
  abbrev pub settlement : Share → ℤ → Allocation → Settlement
  settlement block reward a = record {
    block_share_id = block.id;
    pool_id = e.pool_id;
    block_submission_key = block.submission_key;
    reward_sat = e.cfg.reward;
    miner_reward_sat = reward;
    pplns_window = 0;
    round_start_share_id = a.round_start_share_id;
    round_end_share_id = a.round_end_share_id;
    shares_count = a.shares_count;
    total_weight = a.total_weight;
  }

  -- The primary key of block_settlements, and its unique submission key.
  abbrev pub clashes : Settlement → Settlement → Bool
  clashes s t =
      t.block_share_id == s.block_share_id
      || (text_eq t.pool_id s.pool_id && text_eq t.block_submission_key s.block_submission_key)

  abbrev pub insert_settlement : Settlement → Database → Option Database
  insert_settlement s d =
      if exists (clashes s) d.settlements
      then none
      else some (record d { settlements = d.settlements ++ (s ∷ []) })

  abbrev pub mark_settled : ℕ → Database → Option Database
  mark_settled id d = some (record d {
    block_states =
        update (this_state id e.pool_id) (λ b. record b { status = settled }) d.block_states;
  })

  -- The writes of the transaction, and its commit.
  unfoldable pub write_settlement : Share → ℤ → Allocation → M Bool
  unfolding credit_all exists update
  write_settlement block reward a = if is_empty a.alloc then fail empty_allocation else do
    credit_all a.alloc
    tx_exec e.pipelined insert_block_settlement (insert_settlement (settlement block reward a))
    tx_exec e.pipelined mark_block_settled (mark_settled block.id)
    commit commit_settle
    pure true

  abbrev pub settle_block : Option Share → M Bool
  settle_block none = pure false
  settle_block (some block) = do
    reward ← from_result (miner_reward e.cfg)
    a ← by_scheme reward block
    write_settlement block reward a

  unfoldable pub settle_next_block : M Bool
  unfolding write_settlement next_block previous_block round_shares weigh sum_weights miner_reward
  settle_next_block = do
    begin begin_settle
    block ← tx_query select_unsettled_block (next_block e.pool_id)
    settle_block block

  -- The loop of settleAllBlocks, on a number of rounds.
  unfoldable pub settle_rounds : ℕ → ℕ → M ℕ
  unfolding settle_next_block
  settle_rounds zero count = pure count
  settle_rounds (suc fuel) count = settle_next_block >>= λ done. elim done [
    | true ↦ settle_rounds fuel (count + 1)
    | false ↦ pure count
  ]

  unfoldable pub settle_all_blocks : M ℕ
  unfolding settle_rounds
  settle_all_blocks w = settle_rounds (suc (length w.db.block_states)) 0 w

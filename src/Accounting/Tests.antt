-- ===== src/Accounting/Tests.antt =====
-- The theorems on internal/accounting at concrete inputs.
use mathlib.Core.List.{Permᴰ}
use qbitx_pool.Base.{
  inl, ℕ, ◌+◌, ◌≡◌, ◌≤◌, ◌-ℤ◌, refl, none, some, [], ◌∷◌, Text, codes, text_eq, pos, arith, true,
  false, Bool,
}
use qbitx_pool.Base.Results.{ok, err}
use qbitx_pool.Float64.{zero_f, one_f, le, of_ratio, operations}
use qbitx_pool.Fee.{calc_fee_sat}
use qbitx_pool.Accounting.Allocate.{Weights, Amounts, weight_sum, allocate_by_weight, base_share}
use qbitx_pool.Accounting.Allocate.Sums.{total_of, NonNegative, DistinctKeys}
use qbitx_pool.Accounting.Allocate.Floors.{BasesFit, share_of}
use qbitx_pool.Accounting.Allocate.Total.{allocate_by_weight_total}
use qbitx_pool.Accounting.Worker.{truncate, payout_address_from_worker}
use qbitx_pool.Accounting.Database.{
  Database, Share, BlockState, block, mature, orphan, put_balances,
}
use qbitx_pool.Accounting.Session.{World}
use qbitx_pool.Accounting.Session.Rules.{Post, Keeps}
use qbitx_pool.Accounting.Engine.{Engine, PayoutConfig, miner_reward}
use qbitx_pool.Accounting.Owed.{owed, SameAccounts}
use qbitx_pool.Accounting.Settle.{
  to_settle, settle_next_block, settle_all_blocks, next_block, round_shares, previous_block, weigh,
}
use qbitx_pool.Accounting.Settle.Outcome.{Outcome, round_weights}
use qbitx_pool.Accounting.Settle.Safety.{
  settle_next_block-once, settle_next_block-solo, settle_next_block-lprop,
}
use qbitx_pool.Accounting.Settle.Loop.{Settled, Interrupted, settle_all_blocks_lem}
use qbitx_pool.Accounting.Sync.{sync_block_states}
use qbitx_pool.Accounting.Sync.Closed.{Has, sync_block_states-closed}
use qbitx_pool.Accounting.Payout.{batch_items, finish_failed, mark_batch_failed_and_refund}
use qbitx_pool.Accounting.Payout.Refund.{
  mark_batch_failed_and_refund_lem, mark_batch_failed_and_refund-refused,
}
use qbitx_pool.Accounting.Payout.Stakes.{HaveBalances, row_count, paid_sum}

abbrev cfg : Text → PayoutConfig
cfg scheme = record {
  reward = pos 1000;
  developer_fee_percent = zero_f;
  pool_fee_percent = zero_f;
  scheme = scheme;
  min_payout_sat = pos 10;
  block_maturity = pos 100;
}

abbrev engine : Text → Bool → Engine
engine scheme pipelined = record {
  pool_id = codes "p";
  cfg = cfg scheme;
  sender = record {
    send_many = λ amounts. err (codes "down");
    lookup_block_confirmations = λ hash. ok (pos 100, true);
  };
  total_order = λ m. m;
  sum_order = λ m. m;
  share_order = λ m. m;
  pipelined = pipelined;
}

abbrev won : Share
won = record {
  id = 1;
  pool_id = codes "p";
  worker = codes "a.rig";
  diff = one_f;
  share_type = block;
  submission_key = codes "k";
  block_hash = some (codes "h");
}

-- One mature block, an account with 500, and a batch with one item.
abbrev db : Database
db = record {
  shares = won ∷ [];
  block_states =
      record {
        block_share_id = 1;
        pool_id = codes "p";
        block_hash = codes "h";
        status = mature;
        confirmations = pos 100;
        last_error = none;
      }
      ∷ [];
  settlements = [];
  balances = record { pool_id = codes "p"; worker = codes "a"; amount_sat = 500 } ∷ [];
  batches = [];
  items = record { pool_id = codes "p"; batch_id = 1; worker = codes "a"; amount_sat = 7 } ∷ [];
  next_batch = 2;
}

abbrev world : World
world = record { db = db; work = db; rows_open = false; faults = [] }

won_is_due : next_block (codes "p") db ≡ some won
unfolding next_block text_eq
won_is_due = refl

whole_reward : (scheme : Text) → miner_reward (cfg scheme) ≡ ok (pos 1000)
unfolding miner_reward calc_fee_sat operations ◌-ℤ◌
whole_reward scheme = refl

settle_next_block-once_example :
    Post
      (λ done w'. to_settle (codes "p") w'.db won ≡ false)
      (Keeps world)
      (settle_next_block (engine (codes "solo") false) world)
settle_next_block-once_example =
    settle_next_block-once (engine (codes "solo") false) world won won_is_due

settle_next_block-solo_example :
    Post
      (λ done w'.
        (n : ℕ) × (miner_reward (cfg (codes "solo")) ≡ ok (pos n))
        × (1 ≤ n)
        × (owed w'.db.balances ≡ owed world.db.balances + n))
      (Keeps world)
      (settle_next_block (engine (codes "solo") false) world)
settle_next_block-solo_example =
    settle_next_block-solo (engine (codes "solo") false) world won 1000 won_is_due refl refl
      (omega arith)

abbrev weights : Weights
weights = (codes "a", one_f) ∷ []

round_is : (round_weights (engine (codes "lprop") false) won db).0 ≡ weights
unfolding round_shares previous_block weigh payout_address_from_worker text_eq operations
round_is = refl

weight_is_positive : le (weight_sum zero_f weights) zero_f ≡ false
unfolding weight_sum operations
weight_is_positive = refl

weights_fit : BasesFit (pos 1000) (weight_sum zero_f weights) 1000 0 weights
unfolding weight_sum operations base_share share_of
weights_fit = (1000, refl, omega arith)

settle_next_block-lprop_example :
    Post
      (λ done w'. owed w'.db.balances ≡ owed world.db.balances + 1000)
      (Keeps world)
      (settle_next_block (engine (codes "lprop") false) world)
settle_next_block-lprop_example =
    settle_next_block-lprop (engine (codes "lprop") false) world won 1000 weights weights won_is_due
      refl (whole_reward (codes "lprop")) (omega arith) (omega arith) round_is round_is
      (Permᴰ.cons refl Permᴰ.nil) (tt, tt) weight_is_positive weights_fit

settle_all_blocks_lem_example :
    Post
      (λ n w'. Settled (engine (codes "solo") false) world n w')
      (λ w'. Interrupted (engine (codes "solo") false) world w')
      (settle_all_blocks (engine (codes "solo") false) world)
settle_all_blocks_lem_example = settle_all_blocks_lem (engine (codes "solo") false) world

one_item : batch_items (codes "p") 1 db ≡ (codes "a", 7) ∷ []
unfolding batch_items text_eq
one_item = refl

has_balance : HaveBalances (codes "p") (batch_items (codes "p") 1 db) db.balances
unfolding batch_items row_count text_eq
has_balance = (refl, tt)

mark_batch_failed_and_refund_lem_example :
    Post
      (λ u w'.
        (owed w'.db.balances ≡ owed db.balances + paid_sum (batch_items (codes "p") 1 db))
        × SameAccounts db.balances w'.db.balances
        × (w'.db
            ≡ finish_failed 1
                (codes "p")
                (truncate (codes "down") 1024)
                (put_balances db w'.db.balances)))
      (Keeps world)
      (mark_batch_failed_and_refund (engine (codes "solo") true) 1 (codes "down") world)
mark_batch_failed_and_refund_lem_example =
    mark_batch_failed_and_refund_lem (engine (codes "solo") true) 1 (codes "down") world has_balance

mark_batch_failed_and_refund-refused_example :
    Post
      (λ u w'. ⊥)
      (Keeps world)
      (mark_batch_failed_and_refund (engine (codes "solo") false) 1 (codes "down") world)
mark_batch_failed_and_refund-refused_example =
    mark_batch_failed_and_refund-refused (engine (codes "solo") false) 1 (codes "down") world
      (codes "a", 7) [] refl one_item

-- The weights of internal/accounting/payout_test.go.
abbrev three : Weights
three = (codes "a", of_ratio 1 1) ∷ (codes "b", of_ratio 2 1) ∷ (codes "c", of_ratio 3 1) ∷ []

three_are_positive : le (weight_sum zero_f three) zero_f ≡ false
unfolding weight_sum operations
three_are_positive = refl

three_fit : BasesFit (pos 100) (weight_sum zero_f three) 100 0 three
unfolding weight_sum operations base_share share_of
three_fit = (16, refl, (33, refl, (50, refl, omega arith)))

three_differ : DistinctKeys three
unfolding text_eq
three_differ = ((refl, (refl, tt)), ((refl, tt), (tt, tt)))

allocate_by_weight_total_example :
    (result : Amounts) × (allocate_by_weight (pos 100) three three ≡ some result)
    × NonNegative result
    × (total_of result ≡ 100)
allocate_by_weight_total_example =
    allocate_by_weight_total 100 three three (omega arith) (omega arith)
      (Permᴰ.cons refl (Permᴰ.cons refl (Permᴰ.cons refl Permᴰ.nil))) three_differ
      three_are_positive three_fit

abbrev closed : BlockState
closed = record {
  block_share_id = 9;
  pool_id = codes "p";
  block_hash = codes "h9";
  status = orphan;
  confirmations = pos 0;
  last_error = none;
}

abbrev closed_world : World
closed_world = record world { db = record db { block_states = closed ∷ db.block_states } }

stands : Has closed closed_world.db.block_states
unfolding Has
stands = inl refl

sync_block_states-closed_example :
    Post
      (λ u w'. Has closed w'.db.block_states)
      (λ w'. Has closed w'.db.block_states)
      (sync_block_states (engine (codes "solo") false) closed_world)
sync_block_states-closed_example =
    sync_block_states-closed (engine (codes "solo") false) closed_world closed stands
      (refl, (refl, tt))

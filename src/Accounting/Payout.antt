-- ===== src/Accounting/Payout.antt =====
-- trySendPayoutBatch, markBatchFailedAndRefund and runCycle of internal/accounting/payout.go. The
-- rows of a SELECT without an order come in the order of the table, and none is locked by others.
pub mod Blocked
pub mod Stakes
pub mod Refund
pub mod Debit
pub mod Send
use qbitx_pool.Base.{
  ℕ, zero, suc, ◌+◌, leb, ltb, ◌==◌, leb_ℤ, if◌then◌else◌, Bool, true, false, ◌&&◌, Option, none,
  some, List, [], ◌∷◌, ◌++◌, map, Text, text_eq, ℤ, pos, ◌+ℤ◌, wrap64,
}
use qbitx_pool.Base.Results.{ok, err}
use qbitx_pool.Float64.{Float64, of_int64, of_ratio, div}
use qbitx_pool.Accounting.Worker.{truncate}
use qbitx_pool.Accounting.Database.{
  Database, Balance, Batch, BatchStatus, Item, pending, sent, failed, select, update, order_by,
  debit, refund, with_balances,
}
use qbitx_pool.Accounting.Session.{
  M, sendmany, sendmany_and_refund, ◌>>=◌, ◌>>◌, pure, fail, begin, commit, tx_exec, tx_query,
  tx_open, close_rows, reach, exec, begin_payout, select_payout_balances, insert_payout_batch,
  insert_payout_item, debit_balance, commit_payout, mark_batch_sent, begin_refund, load_batch_items,
  refund_worker, mark_batch_failed, commit_refund,
}
use qbitx_pool.Accounting.Engine.{Engine}
use qbitx_pool.Accounting.Sync.{sync_block_states}
use qbitx_pool.Accounting.Settle.{settle_all_blocks, is_empty}

-- satToCoin
unfoldable pub sat_to_coin : ℕ → Float64
sat_to_coin n = div (of_int64 (pos n)) (of_ratio 100000000 1)

-- The type `item` of the source.
abbrev pub Selected : Type 0
Selected = Text × ℕ

abbrev pub coin_amount : Selected → Text × Float64
coin_amount (worker, n) = (worker, sat_to_coin n)

-- The rows of the first SELECT, the highest amount first, without the amounts of 0.
abbrev pub due : Text → ℤ → Balance → Bool
due pool min b = text_eq b.pool_id pool && leb_ℤ min (pos b.amount_sat)

abbrev pub selected_of : Balance → Selected
selected_of b = (b.worker, b.amount_sat)

unfoldable pub due_balances : Text → ℤ → Database → List Selected
unfolding select order_by
due_balances pool min d = map selected_of (
    select (λ b. ltb 0 b.amount_sat)
      (order_by (λ a b. leb b.amount_sat a.amount_sat) (select (due pool min) d.balances)))

-- The sum in an int64.
unfoldable pub total_due : ℤ → List Selected → ℤ
total_due total [] = total
total_due total ((worker, n) ∷ rest) = total_due (wrap64 (total +ℤ pos n)) rest

abbrev pub new_batch : Text → ℤ → Database → Database
new_batch pool total d = record d {
  batches =
      d.batches
      ++ (record {
        id = d.next_batch;
        pool_id = pool;
        status = pending;
        total_sat = total;
        txid = none;
        error = none;
      }
          ∷ []);
  next_batch = d.next_batch + 1;
}

-- The primary key of payout_batch_items is the batch with the worker; the workers of a batch differ.
abbrev pub insert_item : Text → ℕ → Text → ℕ → Database → Database
insert_item pool batch worker n d = record d {
  items =
      d.items
      ++ (record { pool_id = pool; batch_id = batch; worker = worker; amount_sat = n } ∷ []);
}

abbrev pub this_batch : ℕ → Text → Batch → Bool
this_batch id pool b = b.id == id && text_eq b.pool_id pool

unfoldable pub finish_sent : ℕ → Text → Text → Database → Database
unfolding update
finish_sent id pool txid d = record d {
  batches =
      update (this_batch id pool) (λ b. record b { status = sent; txid = some txid }) d.batches;
}

unfoldable pub finish_failed : ℕ → Text → Text → Database → Database
unfolding update
finish_failed id pool reason d = record d {
  batches =
      update (this_batch id pool) (λ b. record b { status = failed; error = some reason })
        d.batches;
}

abbrev pub in_batch : Text → ℕ → Item → Bool
in_batch pool batch i = text_eq i.pool_id pool && i.batch_id == batch

abbrev pub selected_item : Item → Selected
selected_item i = (i.worker, i.amount_sat)

unfoldable pub batch_items : Text → ℕ → Database → List Selected
unfolding select
batch_items pool batch d = map selected_item (select (in_batch pool batch) d.items)

module _ (e : Engine) where
  -- The loop over the rows of the batch, which are still open.
  unfoldable pub refund_rows : List Selected → M (Unit {0})
  unfolding refund
  refund_rows [] = pure tt
  refund_rows ((worker, n) ∷ rest) =
      tx_exec e.pipelined refund_worker (with_balances (refund e.pool_id worker n))
      >> refund_rows rest

  unfoldable pub mark_batch_failed_and_refund : ℕ → Text → M (Unit {0})
  unfolding refund_rows finish_failed batch_items truncate
  mark_batch_failed_and_refund batch reason = do
    begin begin_refund
    rows ← tx_open load_batch_items (batch_items e.pool_id batch)
    refund_rows rows
    close_rows
    tx_exec e.pipelined mark_batch_failed
        (λ d. some (finish_failed batch e.pool_id (truncate reason 1024) d))
    commit commit_refund

  -- The two writes for each payment.
  unfoldable pub debit_all : ℕ → List Selected → M (Unit {0})
  unfolding debit
  debit_all batch [] = pure tt
  debit_all batch ((worker, n) ∷ rest) = do
    tx_exec e.pipelined insert_payout_item (λ d. some (insert_item e.pool_id batch worker n d))
    tx_exec e.pipelined debit_balance (with_balances (debit e.pool_id worker n))
    debit_all batch rest

  abbrev pub insert_batch : ℤ → M ℕ
  insert_batch total = do
    batch ← tx_query insert_payout_batch (λ d. d.next_batch)
    (λ w. (ok tt, record w { work = new_batch e.pool_id total w.work }))
    pure batch

  -- After the commit: the call of the daemon, and what follows it.
  unfoldable pub send_batch : ℕ → List Selected → M Bool
  unfolding mark_batch_failed_and_refund finish_sent sat_to_coin
  send_batch batch selected = elim (e.sender.send_many (map coin_amount selected)) [
    | err reason ↦ (λ w.
        let (r, w') = mark_batch_failed_and_refund batch reason w in
        elim r [
          | ok u ↦ (err (sendmany reason), w')
          | err refund_error ↦ (err (sendmany_and_refund reason refund_error), w')
        ])
    | ok txid ↦ exec mark_batch_sent (λ d. some (finish_sent batch e.pool_id txid d)) >> pure true
  ]

  -- The payments that were selected, in the open transaction.
  abbrev pub pay : List Selected → M Bool
  pay [] = pure false
  pay (s ∷ rest) = do
    batch ← insert_batch (total_due (pos 0) (s ∷ rest))
    debit_all batch (s ∷ rest)
    commit commit_payout
    send_batch batch (s ∷ rest)

  unfoldable pub try_send_payout_batch : M Bool
  unfolding due_balances total_due debit_all send_batch
  try_send_payout_batch = do
    begin begin_payout
    selected ← tx_query select_payout_balances (due_balances e.pool_id e.cfg.min_payout_sat)
    pay selected

  -- One tick of Run.
  unfoldable pub run_cycle : M (Unit {0})
  unfolding sync_block_states settle_all_blocks try_send_payout_batch
  run_cycle = do
    sync_block_states e
    settled_count ← settle_all_blocks e
    was_sent ← try_send_payout_batch
    pure tt

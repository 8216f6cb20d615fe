-- ===== src/Accounting/Payout/Send.antt =====
-- trySendPayoutBatch: no satoshi is paid that was not owed, and none is lost while a batch is open.
use qbitx_pool.Base.{ℕ, ◌≡◌, ◌⊎◌, Bool, true, false, List, []}
use qbitx_pool.Accounting.Database.{Database}
use qbitx_pool.Accounting.Session.{World}
use qbitx_pool.Accounting.Engine.{Engine}
use qbitx_pool.Accounting.Owed.{owed}
use qbitx_pool.Accounting.Payout.{Selected, due_balances}
use qbitx_pool.Accounting.Payout.Debit.{Debited}

-- What a call commits: nothing where no balance is due; and otherwise the debits of what is due.
abbrev pub Sent : Engine → Database → Bool → Database → Type 0
Sent e d false d' = (due_balances e.pool_id e.cfg.min_payout_sat d ≡ []) × (d' ≡ d)
Sent e d true d' =
    Debited e.pool_id d.next_batch (due_balances e.pool_id e.cfg.min_payout_sat d) d d'

-- What a call that fails leaves: what is owed as it was, or the debits recorded in an open batch.
abbrev pub Unsent : Engine → Database → Database → Type 0
Unsent e d d' =
    (owed d'.balances ≡ owed d.balances)
    ⊎ Debited e.pool_id d.next_batch (due_balances e.pool_id e.cfg.min_payout_sat d) d d'

abbrev Open : Engine → ℕ → List Selected → Database → World → Type 0
Open e batch l d w = (owed w.db.balances ≡ owed d.balances) ⊎ Debited e.pool_id batch l d w.db

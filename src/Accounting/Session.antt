-- ===== src/Accounting/Session.antt =====
-- How internal/accounting talks to the database: transactions whose uncommitted work is dropped by
-- the deferred rollback, statements that may fail at any time, and a connection whose rows are
-- still being read. What fails is chosen from outside, by the list `faults`.
pub mod Rules
use qbitx_pool.Base.{
  Bool, true, false, not, ◌&&◌, if◌then◌else◌, Option, none, some, List, [], ◌∷◌, Text,
}
use qbitx_pool.Base.Results.{Result, ok, err}
use qbitx_pool.Accounting.Database.{Database}

-- The statements, as the error messages of internal/accounting/payout.go name them.
pub data Stage : Type 0 where
  insert_block_states load_block_states update_block_state_error update_block_state : Stage
  begin_settle select_unsettled_block load_previous_block load_round_shares : Stage
  upsert_balance insert_block_settlement mark_block_settled commit_settle : Stage
  begin_payout select_payout_balances insert_payout_batch insert_payout_item : Stage
  debit_balance commit_payout mark_batch_sent : Stage
  begin_refund load_batch_items refund_worker mark_batch_failed commit_refund : Stage

pub data Error : Type 0 where
  -- a statement that the database refuses, or that does not reach it
  database : Stage → Error
  -- a statement on a connection whose rows are still open
  conn_busy : Stage → Error
  bad_reward no_reward_after_developer_fee no_reward_after_pool_fee : Error
  invalid_winner no_valid_shares unsupported_scheme empty_allocation : Error
  sendmany : Text → Error
  sendmany_and_refund : Text → Error → Error
  -- a panic of the process
  panic : Error

pub record World : Type 0 where
  -- what is committed
  pub db : Database
  -- what the open transaction sees
  pub work : Database
  -- whether its connection has rows that are not read to the end
  pub rows_open : Bool
  -- whether the next statement fails, and the one after it; at the end none does
  pub faults : List Bool

abbrev pub M : Type 0 → Type 0
M A = World → Result Error A × World

infixl 5 ◌>>=◌ ◌>>◌
abbrev pub ◌>>=◌ : {A B : Type 0} → M A → (A → M B) → M B
◌>>=◌ m f w = let (r, w') = m w in elim r [ ok a ↦ f a w' | err e ↦ (err e, w') ]

abbrev pub ◌>>◌ : {A B : Type 0} → M A → M B → M B
m >> k = m >>= λ _. k

abbrev pub pure : {A : Type 0} → A → M A
pure a w = (ok a, w)

abbrev pub fail : {A : Type 0} → Error → M A
fail e w = (err e, w)

abbrev pub from_result : {A : Type 0} → Result Error A → M A
from_result r w = (r, w)

abbrev pub fails : List Bool → Bool
fails [] = false
fails (f ∷ rest) = f

abbrev pub later : List Bool → List Bool
later [] = []
later (f ∷ rest) = rest

-- A round trip to the database.
abbrev pub reach : {A : Type 0} → Stage → M A → M A
reach stage m w =
    let w' : World = record w { faults = later w.faults } in
    if fails w.faults then (err (database stage), w') else m w'

abbrev pub begin : Stage → M (Unit {0})
begin stage = reach stage (λ w. (ok tt, record w { work = w.db; rows_open = false }))

abbrev pub commit : Stage → M (Unit {0})
commit stage = reach stage (λ w. (ok tt, record w { db = w.work }))

abbrev pub write_work : Stage → Option Database → M (Unit {0})
write_work stage none w = (err (database stage), w)
write_work stage (some d) w = (ok tt, record w { work = d })

abbrev pub write_db : Stage → Option Database → M (Unit {0})
write_db stage none w = (err (database stage), w)
write_db stage (some d) w = (ok tt, record w { db = d })

-- tx.Exec. `pipelined` says whether the driver takes a statement while rows are open.
abbrev pub tx_exec : Bool → Stage → (Database → Option Database) → M (Unit {0})
tx_exec pipelined stage f w =
    if w.rows_open && not pipelined
    then (err (conn_busy stage), w)
    else reach stage (λ w'. write_work stage (f w'.work) w') w

-- tx.Query or tx.QueryRow, with its rows read to the end.
abbrev pub tx_query : {A : Type 0} → Stage → (Database → A) → M A
tx_query stage g = reach stage (λ w. (ok (g w.work), w))

-- tx.Query whose rows are read one by one while other statements run.
abbrev pub tx_open : {A : Type 0} → Stage → (Database → A) → M A
tx_open stage g = reach stage (λ w. (ok (g w.work), record w { rows_open = true }))

abbrev pub close_rows : M (Unit {0})
close_rows w = (ok tt, record w { rows_open = false })

-- pool.Exec and pool.Query, each a transaction of its own.
abbrev pub exec : Stage → (Database → Option Database) → M (Unit {0})
exec stage f = reach stage (λ w. write_db stage (f w.db) w)

abbrev pub query : {A : Type 0} → Stage → (Database → A) → M A
query stage g = reach stage (λ w. (ok (g w.db), w))

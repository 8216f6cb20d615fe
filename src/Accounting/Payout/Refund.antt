-- ===== src/Accounting/Payout/Refund.antt =====
-- markBatchFailedAndRefund: what the refunds of a batch do to the balances.
use mathlib.Core.Option.{some-injective}
use qbitx_pool.Base.{
  ℕ, ◌+◌, ◌≡◌, refl, sym, ap, ◌∙◌, true, false, Option, some, List, [], ◌∷◌, Text, arith,
}
use qbitx_pool.Accounting.Database.{Database, refund, put_balances, with_balances}
use qbitx_pool.Accounting.Session.{
  World, M, ◌>>=◌, begin, commit, tx_exec, tx_open, close_rows, begin_refund, load_batch_items,
  refund_worker, mark_batch_failed, commit_refund,
}
use qbitx_pool.Accounting.Session.Rules.{
  Post, Post-bind, Post-weaken_both, Keeps, begin_lem, commit_lem, tx_open_lem, tx_exec_lem,
  tx_exec_busy,
}
use qbitx_pool.Accounting.Worker.{truncate}
use qbitx_pool.Accounting.Engine.{Engine}
use qbitx_pool.Accounting.Owed.{
  owed, owed-refund, SameAccounts, SameAccounts-refl, SameAccounts-trans,
}
use qbitx_pool.Accounting.Settle.Credits.{map_balances}
use qbitx_pool.Accounting.Payout.{
  Selected, batch_items, finish_failed, refund_rows, mark_batch_failed_and_refund,
}
use qbitx_pool.Accounting.Payout.Stakes.{
  stakes, stakes-SameAccounts, HaveBalances, paid_sum, stakes-paid_sum,
}

-- Only the balances differ: they owe more by the payments.
abbrev pub Refunded : Text → List Selected → Database → Database → Type 0
Refunded pool l d d' =
    (d' ≡ put_balances d d'.balances)
    × (owed d'.balances ≡ owed d.balances + stakes pool l d.balances)
    × SameAccounts d.balances d'.balances

refund_rows_lem :
    (e : Engine) (l : List Selected) (w : World)
    → Post
        (λ u w'. Refunded e.pool_id l w.work w'.work × (w'.db ≡ w.db))
        (Keeps w)
        (refund_rows e l w)
unfolding refund_rows stakes
refund_rows_lem e [] w = record {
  holds = ((refl, omega arith, SameAccounts-refl w.work.balances), refl);
}
refund_rows_lem e ((worker, n) ∷ rest) w =
    Post-bind (tx_exec e.pipelined refund_worker (with_balances (refund e.pool_id worker n)))
      (λ u. refund_rows e rest) w
      (tx_exec_lem e.pipelined refund_worker (with_balances (refund e.pool_id worker n)) w)
      (λ u w1 (q, k1).
        let (c, b) = map_balances w.work w1.work (refund e.pool_id worker n w.work.balances) q in
        let (o, s) = owed-refund e.pool_id worker n w.work.balances w1.work.balances c in
        Post-weaken_both (refund_rows_lem e rest w1)
          (λ v w2 ((b2, o2, s2), k2). (
            (
              b2 ∙ ap (λ d. put_balances d w2.work.balances) b,
              omega (arith, stakes-SameAccounts e.pool_id rest w.work.balances w1.work.balances s),
              SameAccounts-trans w.work.balances w1.work.balances w2.work.balances s s2,
            ),
            k2 ∙ k1,
          ))
          (λ w2 k2. k2 ∙ k1))

-- What the whole of the refund commits.
pub record Refunds (e : Engine) (batch : ℕ) (reason : Text) (d d' : Database) : Type 0 where
  pub owes :
      owed d'.balances
      ≡ owed d.balances + stakes e.pool_id (batch_items e.pool_id batch d) d.balances
  pub accounts : SameAccounts d.balances d'.balances
  pub changed :
      d' ≡ finish_failed batch e.pool_id (truncate reason 1024) (put_balances d d'.balances)

abbrev mark_step : Engine → ℕ → Text → Database → Option Database
mark_step e batch reason d = some (finish_failed batch e.pool_id (truncate reason 1024) d)

-- The statements behind the SELECT of the batch's rows, in a transaction that began on `d`.
abbrev after_rows : Engine → ℕ → Text → List Selected → M (Unit {0})
after_rows e batch reason rows = refund_rows e rows >>= λ u. close_rows >>= λ u.
    tx_exec e.pipelined mark_batch_failed (mark_step e batch reason) >>= λ u. commit commit_refund

after_rows_lem :
    (e : Engine) (batch : ℕ) (reason : Text) (d : Database) (w : World)
    → w.work ≡ d
    → w.db ≡ d
    → Post
        (λ u w'. Refunds e batch reason d w'.db)
        (λ w'. w'.db ≡ d)
        (after_rows e batch reason (batch_items e.pool_id batch d) w)
unfolding finish_failed
after_rows_lem e batch reason d w work db =
    Post-bind (refund_rows e (batch_items e.pool_id batch d))
      (λ u. close_rows >>= λ u.
        tx_exec e.pipelined mark_batch_failed (mark_step e batch reason) >>= λ u.
        commit commit_refund)
      w
      (Post-weaken_both (refund_rows_lem e (batch_items e.pool_id batch d) w) (λ u w1 q. q)
        (λ w1 k. k ∙ db))
      (λ u w1 ((b, o, s), k1).
        Post-bind (tx_exec e.pipelined mark_batch_failed (mark_step e batch reason))
          (λ u. commit commit_refund) (record w1 { rows_open = false })
          (Post-weaken_both
            (tx_exec_lem e.pipelined mark_batch_failed (mark_step e batch reason)
              (record w1 { rows_open = false }))
            (λ u w2 q. q) (λ w2 k. k ∙ k1 ∙ db))
          (λ u w2 (m, k2).
            Post-weaken_both (commit_lem commit_refund w2)
              (λ u w3 c.
                refunds w1 w2 w3 (rw work at b) (rw work at o) (rw work at s)
                  (c ∙ sym (some-injective _ w2.work m)))
              (λ w3 k3. k3 ∙ k2 ∙ k1 ∙ db)))
  where
    refunds :
        (w1 w2 w3 : World)
        → w1.work ≡ put_balances d w1.work.balances
        → owed w1.work.balances
          ≡ owed d.balances + stakes e.pool_id (batch_items e.pool_id batch d) d.balances
        → SameAccounts d.balances w1.work.balances
        → w3.db ≡ finish_failed batch e.pool_id (truncate reason 1024) w1.work
        → Refunds e batch reason d w3.db
    refunds w1 w2 w3 b o s c =
        let same : w3.db.balances ≡ w1.work.balances = ap (λ x. x.balances) c in
        record {
          owes = ap owed same ∙ o;
          accounts = rw same s;
          changed =
              c
              ∙ ap (finish_failed batch e.pool_id (truncate reason 1024))
                  (b ∙ ap (put_balances d) (sym same));
        }

-- Whatever statements fail, a refund that succeeds raises the balances by each item on each row of
-- its account.
pub mark_batch_failed_and_refund-Refunds :
    (e : Engine) (batch : ℕ) (reason : Text) (w : World)
    → Post
        (λ u w'. Refunds e batch reason w.db w'.db)
        (Keeps w)
        (mark_batch_failed_and_refund e batch reason w)
unfolding mark_batch_failed_and_refund
mark_batch_failed_and_refund-Refunds e batch reason w =
    Post-bind (begin begin_refund)
      (λ u. tx_open load_batch_items (batch_items e.pool_id batch) >>= λ rows.
        after_rows e batch reason rows)
      w (begin_lem begin_refund w)
      (λ u w1 (work, db).
        Post-bind (tx_open load_batch_items (batch_items e.pool_id batch))
          (λ rows. after_rows e batch reason rows) w1
          (Post-weaken_both (tx_open_lem load_batch_items (batch_items e.pool_id batch) w1)
            (λ rows w2 q. q) (λ w2 k. k ∙ db))
          (λ rows w2 (r, s, k, o).
            rw (r, work) (after_rows_lem e batch reason w.db w2 (s ∙ work) (k ∙ db))))

-- The refund of a batch whose payment failed, whatever statements fail: if it succeeds, the balances
-- owe more by exactly the sum of the recorded items of the batch, on the same accounts, nothing else
-- changed but the batch, which is marked as failed with the reason, cut to 1024 bytes; otherwise
-- every table stays as it was. Condition: each worker of an item has one balance in the pool.
pub mark_batch_failed_and_refund_lem :
    (e : Engine) (batch : ℕ) (reason : Text) (w : World)
    → HaveBalances e.pool_id (batch_items e.pool_id batch w.db) w.db.balances
    → Post
        (λ u w'.
          (owed w'.db.balances ≡ owed w.db.balances + paid_sum (batch_items e.pool_id batch w.db))
          × SameAccounts w.db.balances w'.db.balances
          × (w'.db
              ≡ finish_failed batch e.pool_id
                  (truncate reason 1024)
                  (put_balances w.db w'.db.balances)))
        (Keeps w)
        (mark_batch_failed_and_refund e batch reason w)
mark_batch_failed_and_refund_lem e batch reason w have =
    Post-weaken_both (mark_batch_failed_and_refund-Refunds e batch reason w)
      (λ u w' r. (
        r.owes
            ∙ ap (λ n. owed w.db.balances + n)
                (stakes-paid_sum e.pool_id (batch_items e.pool_id batch w.db) w.db.balances have),
        r.accounts,
        r.changed,
      ))
      (λ w' k. k)

-- With a driver that refuses statements while rows are open, as pgx does, the refund of a batch with
-- an item never succeeds and leaves every table as it was: the payments stay debited.
pub mark_batch_failed_and_refund-refused :
    (e : Engine) (batch : ℕ) (reason : Text) (w : World) (item : Selected) (rest : List Selected)
    → e.pipelined ≡ false
    → batch_items e.pool_id batch w.db ≡ item ∷ rest
    → Post (λ u w'. ⊥) (Keeps w) (mark_batch_failed_and_refund e batch reason w)
unfolding mark_batch_failed_and_refund refund_rows
mark_batch_failed_and_refund-refused e batch reason w item rest busy items =
    Post-bind (begin begin_refund)
      (λ u. tx_open load_batch_items (batch_items e.pool_id batch) >>= λ rows.
        after_rows e batch reason rows)
      w (begin_lem begin_refund w)
      (λ u w1 (work, db).
        Post-bind (tx_open load_batch_items (batch_items e.pool_id batch))
          (λ rows. after_rows e batch reason rows) w1
          (Post-weaken_both (tx_open_lem load_batch_items (batch_items e.pool_id batch) w1)
            (λ rows w2 q. q) (λ w2 k. k ∙ db))
          (λ rows w2 (r, s, k, o). rw (r, work, items) (refused item w2 (k ∙ db) o)))
  where
    refused :
        (item : Selected) (w2 : World)
        → w2.db ≡ w.db
        → w2.rows_open ≡ true
        → Post (λ u w'. ⊥) (Keeps w) (after_rows e batch reason (item ∷ rest) w2)
    refused (worker, n) w2 db o =
        Post-bind (refund_rows e ((worker, n) ∷ rest))
          (λ u. close_rows >>= λ u.
            tx_exec e.pipelined mark_batch_failed (mark_step e batch reason) >>= λ u.
            commit commit_refund)
          w2
          (Post-bind (tx_exec e.pipelined refund_worker (with_balances (refund e.pool_id worker n)))
            (λ u. refund_rows e rest) w2
            (rw
              (tx_exec_busy e.pipelined refund_worker (with_balances (refund e.pool_id worker n)) w2
                busy o)
              (record { holds = db }))
            (λ u w3 none. absurd none))
          (λ u w3 none. absurd none)

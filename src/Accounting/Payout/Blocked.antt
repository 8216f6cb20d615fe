-- ===== src/Accounting/Payout/Blocked.antt =====
-- The payout engine over the daemon's client: DaemonSender of internal/accounting/payout.go as
-- internal/daemon/rpc.go implements it.
use qbitx_pool.Base.{
  ℕ, pos, ◌≡◌, ◌∙◌, sym, ap, refl, Bool, true, none, some, List, [], ◌∷◌, map, Text,
}
use qbitx_pool.Base.Results.{ok-err, none-some, Result, ok, err, map_err}
use qbitx_pool.Float64.{Float64}
use qbitx_pool.Daemon.{
  CallError, invalid_payout_address, Client, Answers, first_invalid, send_many,
  lookup_block_confirmations,
}
use qbitx_pool.Accounting.Session.{
  exec, pure, ◌>>◌, mark_batch_sent, M, World, Error, sendmany, sendmany_and_refund, ◌>>=◌, begin,
  commit, tx_query, begin_payout, commit_payout, select_payout_balances,
}
use qbitx_pool.Accounting.Session.Rules.{Post, Post-bind, Post-weaken_both, begin_lem, tx_query_lem}
use qbitx_pool.Accounting.Engine.{Engine, DaemonSender}
use qbitx_pool.Accounting.Payout.{
  finish_sent, Selected, coin_amount, due_balances, total_due, insert_batch, debit_all, send_batch,
  pay, mark_batch_failed_and_refund, try_send_payout_batch,
}

-- The client as the engine sees it; `text` is the message of an error.
abbrev pub sender_of : (CallError → Text) → Answers → Client → DaemonSender
sender_of text answers c = record {
  send_many = λ amounts. map_err text (send_many answers amounts c).1;
  lookup_block_confirmations = λ hash. map_err text (lookup_block_confirmations answers hash c).1;
}

-- It does not succeed.
abbrev pub Fails : {A : Type 0} → Result Error A × World → Type 0
Fails r = Post (λ a w'. ⊥) (λ w'. Unit) r

any_end : {A : Type 0} (r : Result Error A × World) → Post (λ a w'. Unit) (λ w'. Unit) r
any_end (ok a, w) = record { holds = tt }
any_end (err e, w) = record { holds = tt }

-- A first step that may end in any way.
Fails-after :
    {A B : Type 0} (m : M A) (f : A → M B) (w : World)
    → ((a : A) (w' : World) → Fails (f a w'))
    → Fails ((m >>= f) w)
Fails-after m f w h = Post-bind m f w (any_end (m w)) (λ a w' q. h a w')

nothing : first_invalid [] ≡ none
unfolding first_invalid
nothing = refl

refund_ends :
    (reason : Text) (x : Result Error (Unit {0}) × World)
    → Fails {A = Bool} (
        let (r, w) = x in
        elim r [
          | ok u ↦ (err (sendmany reason), w)
          | err refund_error ↦ (err (sendmany_and_refund reason refund_error), w)
        ])
refund_ends reason (ok u, w) = record { holds = tt }
refund_ends reason (err e, w) = record { holds = tt }

module _ (e : Engine) where
  send_batch-Fails :
      (reason : Text) (batch : ℕ) (l : List Selected) (w : World)
      → e.sender.send_many (map coin_amount l) ≡ err reason
      → Fails (send_batch e batch l w)
  unfolding send_batch
  send_batch-Fails reason batch l w r = answered (e.sender.send_many (map coin_amount l)) r
    where
      answered :
          (x : Result Text Text)
          → x ≡ err reason
          → Fails (
              (elim x as (λ x. M Bool) [
                | err reason ↦ (λ w.
                    let (r, w') = mark_batch_failed_and_refund e batch reason w in
                    elim r [
                      | ok u ↦ (err (sendmany reason), w')
                      | err refund_error ↦ (err (sendmany_and_refund reason refund_error), w')
                    ])
                | ok txid ↦
                    exec mark_batch_sent (λ d. some (finish_sent batch e.pool_id txid d))
                    >> pure true
              ])
                w)
      answered (err why) q = refund_ends why (mark_batch_failed_and_refund e batch why w)
      answered (ok txid) q = absurd (ok-err q)

  pay-Fails :
      (reason : Text) (s : Selected) (l : List Selected) (w : World)
      → e.sender.send_many (map coin_amount (s ∷ l)) ≡ err reason
      → Fails (pay e (s ∷ l) w)
  pay-Fails reason s l w r =
      Fails-after (insert_batch e (total_due (pos 0) (s ∷ l))) _ w (λ batch w1.
        Fails-after (debit_all e batch (s ∷ l)) _ w1 (λ u w2.
          Fails-after (commit commit_payout) _ w2
            (λ v w3. send_batch-Fails reason batch (s ∷ l) w3 r)))

-- The client refuses a batch with an address that is not valid.
refused :
    (text : CallError → Text) (answers : Answers) (c : Client) (amounts : List (Text × Float64))
    (a : Text)
    → first_invalid amounts ≡ some a
    → (sender_of text answers c).send_many amounts ≡ err (text (invalid_payout_address a))
unfolding send_many
refused text answers c amounts a h = rw h refl

-- While one balance that is due is of a worker whose name is no valid address, no payment is sent to
-- anyone: no call of trySendPayoutBatch succeeds, whatever the other balances are and whatever
-- statements fail. Condition: the engine sends through the daemon's client.
pub try_send_payout_batch_blocked :
    (e : Engine) (text : CallError → Text) (answers : Answers) (c : Client) (w : World) (a : Text)
    → e.sender ≡ sender_of text answers c
    → first_invalid (map coin_amount (due_balances e.pool_id e.cfg.min_payout_sat w.db)) ≡ some a
    → Fails (try_send_payout_batch e w)
unfolding try_send_payout_batch
try_send_payout_batch_blocked e text answers c w a h bad =
    Post-bind (begin begin_payout) _ w
      (Post-weaken_both (begin_lem begin_payout w) (λ u w1 q. q) (λ w1 k. tt))
      (λ u w1 (work, db).
        Post-bind (tx_query select_payout_balances (due_balances e.pool_id e.cfg.min_payout_sat))
          (λ l. pay e l) w1
          (Post-weaken_both
            (tx_query_lem select_payout_balances (due_balances e.pool_id e.cfg.min_payout_sat) w1)
            (λ l w2 q. q) (λ w2 k. tt))
          (λ l w2 (q, s, k). paid l w2 (q ∙ ap (due_balances e.pool_id e.cfg.min_payout_sat) work)))
  where
    paid :
        (l : List Selected) (w2 : World)
        → l ≡ due_balances e.pool_id e.cfg.min_payout_sat w.db
        → Fails (pay e l w2)
    paid [] w2 q =
        absurd (none-some (sym nothing ∙ ap (λ l. first_invalid (map coin_amount l)) q ∙ bad))
    paid (s ∷ l) w2 q = pay-Fails e (text (invalid_payout_address a)) s l w2 (
        ap (λ d. d.send_many (map coin_amount (s ∷ l))) h
        ∙ refused text answers c _ a (ap (λ l. first_invalid (map coin_amount l)) q ∙ bad))

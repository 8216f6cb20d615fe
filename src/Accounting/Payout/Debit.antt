-- ===== src/Accounting/Payout/Debit.antt =====
-- The debits of a batch, and their record as its items.
use mathlib.Core.Option.{some-injective}
use qbitx_pool.Base.{
  ℕ, ◌+◌, ◌≡◌, refl, sym, ap, ◌∙◌, inl, inr, true, Bool-cases, ◌&&◌, ◌==◌, some, List, [], ◌∷◌,
  ◌++◌, map, Text, text_eq, text_eq_iff, arith,
}
use qbitx_pool.Accounting.Database.{Database, Item, select, debit, with_balances}
use qbitx_pool.Accounting.Session.{World, ◌>>=◌, tx_exec, insert_payout_item, debit_balance}
use qbitx_pool.Accounting.Session.Rules.{Post, Post-bind, Post-weaken_both, Keeps, tx_exec_lem}
use qbitx_pool.Accounting.Engine.{Engine}
use qbitx_pool.Accounting.Owed.{
  owed, owed-debit, stake, SameAccounts, SameAccounts-refl, SameAccounts-trans,
}
use qbitx_pool.Accounting.Settle.Credits.{map_balances}
use qbitx_pool.Accounting.Payout.{
  Selected, in_batch, selected_item, batch_items, insert_item, debit_all,
}
use qbitx_pool.Accounting.Payout.Stakes.{stakes, stakes-SameAccounts}

pub in_batch_self :
    (pool worker : Text) (batch n : ℕ) → (text_eq pool pool && batch == batch) ≡ true
in_batch_self pool worker batch n = rw ((text_eq_iff pool pool).1 refl) (ground arith)

pub recorded :
    (pool : Text) (batch : ℕ) (worker : Text) (n : ℕ) (items : List Item)
    → map selected_item (
        select (in_batch pool batch) (
          items
          ++ (record { pool_id = pool; batch_id = batch; worker = worker; amount_sat = n } ∷ [])))
      ≡ map selected_item (select (in_batch pool batch) items) ++ ((worker, n) ∷ [])
unfolding select
recorded pool batch worker n [] = rw (in_batch_self pool worker batch n) refl
recorded pool batch worker n (i ∷ is) = elim (Bool-cases (in_batch pool batch i)) [
  | inl hit ↦ rw hit (ap (λ r. selected_item i ∷ r) (recorded pool batch worker n is))
  | inr miss ↦ rw miss (recorded pool batch worker n is)
]

pub append_one :
    {A : Type 0} (as' : List A) (b : A) (cs : List A) → (as' ++ (b ∷ [])) ++ cs ≡ as' ++ (b ∷ cs)
append_one [] b cs = refl
append_one (a ∷ as') b cs = ap (λ r. a ∷ r) (append_one as' b cs)

pub append_nil : {A : Type 0} (as' : List A) → as' ≡ as' ++ []
append_nil [] = refl
append_nil (a ∷ as') = ap (λ r. a ∷ r) (append_nil as')

-- The payments `l` are debited, and recorded as items of the batch.
pub record Debited (pool : Text) (batch : ℕ) (l : List Selected) (d d' : Database) : Type 0 where
  pub owes : owed d'.balances + stakes pool l d.balances ≡ owed d.balances
  pub accounts : SameAccounts d.balances d'.balances
  pub items : batch_items pool batch d' ≡ batch_items pool batch d ++ l

pub debit_step :
    (e : Engine) (batch : ℕ) (worker : Text) (n : ℕ) (rest : List Selected) (d d1 d2 d3 : Database)
    → some (insert_item e.pool_id batch worker n d) ≡ some d1
    → with_balances (debit e.pool_id worker n) d1 ≡ some d2
    → Debited e.pool_id batch rest d2 d3
    → Debited e.pool_id batch ((worker, n) ∷ rest) d d3
unfolding batch_items stakes
debit_step e batch worker n rest d d1 d2 d3 i q r =
    let one = some-injective (insert_item e.pool_id batch worker n d) d1 i in
    let (c, b) = map_balances d1 d2 (debit e.pool_id worker n d1.balances) q in
    let (o, s) = owed-debit e.pool_id worker n d1.balances d2.balances c in
    let s' : SameAccounts d.balances d2.balances = rw (ap (λ x. x.balances) one) s in
    let o' : owed d2.balances + stake e.pool_id worker n d.balances ≡ owed d.balances =
      rw (ap (λ x. x.balances) one) o in
    record {
      owes =
          omega (arith, o', r.owes, stakes-SameAccounts e.pool_id rest d.balances d2.balances s');
      accounts = SameAccounts-trans d.balances d2.balances d3.balances s' r.accounts;
      items =
          r.items
          ∙ ap (λ x. batch_items e.pool_id batch x ++ rest) b
          ∙ ap (λ x. batch_items e.pool_id batch x ++ rest) (sym one)
          ∙ ap (λ x. x ++ rest) (recorded e.pool_id batch worker n d.items)
          ∙ append_one (batch_items e.pool_id batch d) (worker, n) rest;
    }

pub none_paid : (pool : Text) (batch : ℕ) (d : Database) → Debited pool batch [] d d
unfolding stakes
none_paid pool batch d = record {
  owes = omega arith;
  accounts = SameAccounts-refl d.balances;
  items = append_nil (batch_items pool batch d);
}

pub debit_all_lem :
    (e : Engine) (batch : ℕ) (l : List Selected) (w : World)
    → Post
        (λ u w'. Debited e.pool_id batch l w.work w'.work × (w'.db ≡ w.db))
        (Keeps w)
        (debit_all e batch l w)
unfolding debit_all
debit_all_lem e batch [] w = record { holds = (none_paid e.pool_id batch w.work, refl) }
debit_all_lem e batch ((worker, n) ∷ rest) w =
    Post-bind
      (tx_exec e.pipelined insert_payout_item (λ d. some (insert_item e.pool_id batch worker n d)))
      (λ u. tx_exec e.pipelined debit_balance (with_balances (debit e.pool_id worker n)) >>= λ u.
        debit_all e batch rest)
      w
      (tx_exec_lem e.pipelined insert_payout_item
        (λ d. some (insert_item e.pool_id batch worker n d)) w)
      (λ u w1 (i, k1).
        Post-bind (tx_exec e.pipelined debit_balance (with_balances (debit e.pool_id worker n)))
          (λ u. debit_all e batch rest) w1
          (Post-weaken_both
            (tx_exec_lem e.pipelined debit_balance (with_balances (debit e.pool_id worker n)) w1)
            (λ u w2 q. q) (λ w2 k. k ∙ k1))
          (λ u w2 (q, k2).
            Post-weaken_both (debit_all_lem e batch rest w2)
              (λ u w3 (r, k3). (
                debit_step e batch worker n rest w.work w1.work w2.work w3.work i q r,
                k3 ∙ k2 ∙ k1,
              ))
              (λ w3 k3. k3 ∙ k2 ∙ k1)))

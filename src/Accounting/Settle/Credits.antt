-- ===== src/Accounting/Settle/Credits.antt =====
-- What the credits of a settlement do to the open transaction.
use mathlib.Core.Option
use mathlib.Core.Option.{some-injective}
use qbitx_pool.Base.{
  ℕ, zero, suc, ◌+◌, ◌≡◌, refl, sym, ap, ◌∙◌, Option, none, some, List, [], ◌∷◌, Text, ℤ, pos,
  negsuc, pos_part, arith,
}
use qbitx_pool.Accounting.Database.{Database, Balance, credit, put_balances, with_balances}
use qbitx_pool.Accounting.Session.{World, upsert_balance}
use qbitx_pool.Accounting.Session.Rules.{
  Post, Post-bind, Post-weaken, Post-weaken_both, Keeps, tx_exec_lem,
}
use qbitx_pool.Accounting.Engine.{Engine}
use qbitx_pool.Accounting.Allocate.{Amounts}
use qbitx_pool.Accounting.Allocate.Sums.{total_of}
use qbitx_pool.Accounting.Owed.{owed, owed-credit}
use qbitx_pool.Accounting.Settle.{credit_row, credit_all}

-- Only the balances differ, and they owe more by `n`.
abbrev pub Raised : ℕ → Database → Database → Type 0
Raised n d d' = (d' ≡ put_balances d d'.balances) × (owed d'.balances ≡ owed d.balances + n)

pub map_balances :
    (d d' : Database) (r : Option (List Balance))
    → Option.map (put_balances d) r ≡ some d'
    → (r ≡ some d'.balances) × (d' ≡ put_balances d d'.balances)
map_balances d d' none h = ground arith
map_balances d d' (some bs) h = (
  ap some (ap (λ x. x.balances) (taken bs d d' h)),
  sym (taken bs d d' h) ∙ ap (put_balances d) (ap (λ x. x.balances) (taken bs d d' h)),
)
  where
    taken :
        (bs : List Balance) (d d' : Database)
        → some (put_balances d bs) ≡ some d'
        → put_balances d bs ≡ d'
    taken bs d d' h = some-injective (put_balances d bs) d' h

Raised-trans : (m n : ℕ) (a b c : Database) → Raised m a b → Raised n b c → Raised (m + n) a c
Raised-trans m n a b c (e, p) (f, q) = (f ∙ ap (λ d. put_balances d c.balances) e, omega arith)

-- The conclusion on a part of the transaction: `n` was credited, and nothing is committed.
abbrev pub Credited : ℕ → World → World → Type 0
Credited n w w' = Raised n w.work w'.work × (w'.db ≡ w.db)

credit_row_lem :
    (e : Engine) (worker : Text) (amount : ℤ) (w : World)
    → Post (λ u w'. Credited (pos_part amount) w w') (Keeps w) (credit_row e worker amount w)
credit_row_lem e worker (negsuc n) w = record { holds = ((refl, omega arith), refl) }
credit_row_lem e worker (pos zero) w = record { holds = ((refl, omega arith), refl) }
credit_row_lem e worker (pos (suc n)) w =
    Post-weaken
      (tx_exec_lem e.pipelined upsert_balance (with_balances (credit e.pool_id worker (suc n))) w)
      (λ u w' (q, k).
        let (c, b) =
          map_balances w.work w'.work (credit e.pool_id worker (suc n) w.work.balances) q in
        ((b, owed-credit e.pool_id worker (suc n) w.work.balances w'.work.balances c), k))

-- The credits raise what is owed by the sum of the amounts.
pub credit_all_lem :
    (e : Engine) (amounts : Amounts) (w : World)
    → Post (λ u w'. Credited (total_of amounts) w w') (Keeps w) (credit_all e amounts w)
unfolding credit_all
credit_all_lem e [] w = record { holds = ((refl, omega arith), refl) }
credit_all_lem e ((worker, amount) ∷ rest) w =
    Post-bind (credit_row e worker amount) (λ u. credit_all e rest) w
      (credit_row_lem e worker amount w)
      (λ u w' (r, k).
        Post-weaken_both (credit_all_lem e rest w')
          (λ v w'' (r', k'). (Raised-trans _ _ _ _ _ r r', k' ∙ k)) (λ w'' k'. k' ∙ k))

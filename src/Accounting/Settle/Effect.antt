-- ===== src/Accounting/Settle/Effect.antt =====
-- What settleNextBlock commits, and what it leaves when it fails.
use mathlib.Core.Option.{some-injective}
use qbitx_pool.Base.{
  ℕ, ◌+◌, ◌≡◌, refl, sym, ap, ◌∙◌, true, false, Bool-cases, inl, inr, none, some, List, [], ◌∷◌,
  ◌++◌, Text, ℤ, arith,
}
use qbitx_pool.Accounting.Database.{Database, Share, Settlement, Balance, exists, update, settled}
use qbitx_pool.Accounting.Session.{
  World, ◌>>=◌, pure, commit, tx_exec, insert_block_settlement, mark_block_settled, commit_settle,
}
use qbitx_pool.Accounting.Session.Rules.{
  Post, Post-bind, Post-weaken_both, Keeps, commit_lem, tx_exec_lem,
}
use qbitx_pool.Accounting.Engine.{Engine}
use qbitx_pool.Accounting.Allocate.Sums.{total_of}
use qbitx_pool.Accounting.Owed.{owed}
use qbitx_pool.Accounting.Settle.{
  Allocation, is_empty, clashes, credit_all, settlement, insert_settlement, mark_settled,
  write_settlement,
}
use qbitx_pool.Accounting.Sync.{this_state}
use qbitx_pool.Accounting.Settle.Credits.{Raised, credit_all_lem}

-- The tables of `d` with one settlement more, the block's state marked, and the balances `bs`.
abbrev pub settled_tables : Text → ℕ → Settlement → Database → List Balance → Database
settled_tables pool block s d bs = record d {
  balances = bs;
  settlements = d.settlements ++ (s ∷ []);
  block_states = update (this_state block pool) (λ b. record b { status = settled }) d.block_states;
}

-- The database after the settlement of a block: the balances owe more by the sum of the amounts,
-- one settlement is new, which clashed with none, and the state of the block is marked.
pub record Settles (e : Engine) (block : Share) (reward : ℤ) (a : Allocation) (d d' : Database)
    : Type 0 where
  pub owes : owed d'.balances ≡ owed d.balances + total_of a.alloc
  pub unsettled : exists (clashes e (settlement e block reward a)) d.settlements ≡ false
  pub changed : d' ≡ settled_tables e.pool_id block.id (settlement e block reward a) d d'.balances

abbrev marked : Text → ℕ → Database → Database
marked pool block d = record d {
  block_states = update (this_state block pool) (λ b. record b { status = settled }) d.block_states;
}

insert_lem :
    (e : Engine) (s : Settlement) (d d' : Database)
    → insert_settlement e s d ≡ some d'
    → (exists (clashes e s) d.settlements ≡ false)
      × (d' ≡ record d { settlements = d.settlements ++ (s ∷ []) })
insert_lem e s d d' h = elim (Bool-cases (exists (clashes e s) d.settlements)) [
  | inl clash ↦ absurd (refuse (rw clash at h))
  | inr new ↦ (
    new,
    sym (some-injective (record d { settlements = d.settlements ++ (s ∷ []) }) d' (rw new at h)),
  )
]
  where
    refuse : {d' : Database} → none ≡ some d' → ⊥
    refuse h = ground arith

settles_lem :
    (e : Engine) (block : Share) (reward : ℤ) (a : Allocation) (d d1 d2 d3 : Database)
    → Raised (total_of a.alloc) d d1
    → insert_settlement e (settlement e block reward a) d1 ≡ some d2
    → mark_settled e block.id d2 ≡ some d3
    → Settles e block reward a d d3
settles_lem e block reward a d d1 d2 d3 (b, o) i m =
    let (new, two) = insert_lem e (settlement e block reward a) d1 d2 i in
    let three : d3
        ≡ settled_tables e.pool_id block.id (settlement e block reward a) d1 d1.balances =
      sym (some-injective (marked e.pool_id block.id d2) d3 m)
      ∙ ap (marked e.pool_id block.id) two in
    let same : d3.balances ≡ d1.balances = ap (λ x. x.balances) three in
    record {
      owes = ap owed same ∙ o;
      unsettled =
          ap (λ x. exists (clashes e (settlement e block reward a)) x.settlements) (sym b) ∙ new;
      changed =
          three
          ∙ ap (λ x. settled_tables e.pool_id block.id (settlement e block reward a) x x.balances) b
          ∙ ap (settled_tables e.pool_id block.id (settlement e block reward a) d) (sym same);
    }

-- The statements behind the credits, of a transaction that began on the tables `d`.
finish_lem :
    (e : Engine) (block : Share) (reward : ℤ) (a : Allocation) (d c : Database) (w : World)
    → Raised (total_of a.alloc) d w.work
    → w.db ≡ c
    → Post
        (λ done w'. (done ≡ true) × Settles e block reward a d w'.db)
        (λ w'. w'.db ≡ c)
        ((tx_exec e.pipelined insert_block_settlement
              (insert_settlement e (settlement e block reward a))
            >>= λ u. tx_exec e.pipelined mark_block_settled (mark_settled e block.id) >>= λ u.
                commit commit_settle >>= λ u. pure true)
          w)
finish_lem e block reward a d c w raised k =
    Post-bind
      (tx_exec e.pipelined insert_block_settlement
        (insert_settlement e (settlement e block reward a)))
      (λ u. tx_exec e.pipelined mark_block_settled (mark_settled e block.id) >>= λ u.
        commit commit_settle >>= λ u. pure true)
      w
      (Post-weaken_both
        (tx_exec_lem e.pipelined insert_block_settlement
          (insert_settlement e (settlement e block reward a)) w)
        (λ u w1 q. q) (λ w1 q. q ∙ k))
      (λ u w1 (inserted, k1).
        Post-bind (tx_exec e.pipelined mark_block_settled (mark_settled e block.id))
          (λ u. commit commit_settle >>= λ u. pure true) w1
          (Post-weaken_both
            (tx_exec_lem e.pipelined mark_block_settled (mark_settled e block.id) w1) (λ u w2 q. q)
            (λ w2 q. q ∙ k1 ∙ k))
          (λ u w2 (marked', k2).
            Post-bind (commit commit_settle) (λ u. pure true) w2
              (Post-weaken_both (commit_lem commit_settle w2) (λ u w3 q. q)
                (λ w3 q. q ∙ k2 ∙ k1 ∙ k))
              (λ u w3 done. record {
                holds = (
                  refl,
                  rw done (
                      settles_lem e block reward a d w.work w1.work w2.work raised inserted
                        marked'),
                );
              })))

pub write_settlement_lem :
    (e : Engine) (block : Share) (reward : ℤ) (a : Allocation) (w : World)
    → Post
        (λ done w'. (done ≡ true) × Settles e block reward a w.work w'.db)
        (Keeps w)
        (write_settlement e block reward a w)
unfolding write_settlement
write_settlement_lem e block reward a w = elim (Bool-cases (is_empty a.alloc)) [
  | inl nothing ↦ rw nothing (record { holds = refl })
  | inr filled ↦ rw filled (
      Post-bind (credit_all e a.alloc)
        (λ u.
          tx_exec e.pipelined insert_block_settlement
            (insert_settlement e (settlement e block reward a))
          >>= λ u. tx_exec e.pipelined mark_block_settled (mark_settled e block.id) >>= λ u.
              commit commit_settle >>= λ u. pure true)
        w (credit_all_lem e a.alloc w)
        (λ u w1 (raised, k). finish_lem e block reward a w.work w.db w1 raised k))
]

-- ===== src/Accounting/Settle/Outcome.antt =====
-- settleNextBlock as a whole: what one call commits on each of its ways out.
use qbitx_pool.Base.{
  ℕ, ◌≡◌, refl, sym, ap, ◌∙◌, ◌⊎◌, Bool, true, false, Bool-cases, inl, inr, Option, none, some, [],
  ◌∷◌, codes, text_eq, ℤ, Option-cases,
}
use qbitx_pool.Base.Results.{Result, ok, err}
use qbitx_pool.Accounting.Database.{Database, Share}
use qbitx_pool.Accounting.Session.{
  World, Error, ◌>>=◌, from_result, begin, tx_query, begin_settle, select_unsettled_block,
  load_previous_block, load_round_shares,
}
use qbitx_pool.Accounting.Session.Rules.{
  Post, Post-bind, Post-weaken, Post-weaken_both, Keeps, begin_lem, tx_query_lem,
}
use qbitx_pool.Accounting.Engine.{Engine, miner_reward}
use qbitx_pool.Accounting.Allocate.{Weights, allocate_by_weight}
use qbitx_pool.Accounting.Worker.{payout_address_from_worker}
use qbitx_pool.Accounting.Settle.{
  Allocation, is_empty, previous_block, round_shares, weigh, solo, proportional, lprop, by_scheme,
  write_settlement, settle_block, settle_next_block, next_block,
}
use qbitx_pool.Accounting.Settle.Effect.{Settles, write_settlement_lem}

-- The weights of a block's round.
abbrev pub round_weights : Engine → Share → Database → Weights × ℕ
round_weights e block d =
    weigh (round_shares e.pool_id (previous_block e.pool_id block.id d) block.id d) ([], 0)

-- The whole reward for the winner of a block.
abbrev pub IsSolo : ℤ → Share → Allocation → Type 0
IsSolo reward block a = a.alloc ≡ (payout_address_from_worker block.worker, reward) ∷ []

-- The reward by the weights of the round.
abbrev pub IsProportional : Engine → ℤ → Share → Database → Allocation → Type 0
IsProportional e reward block d a =
    let weights = (round_weights e block d).0 in
    allocate_by_weight reward (e.sum_order weights) (e.share_order weights) ≡ some a.alloc

abbrev pub Follows : Engine → ℤ → Share → Database → Allocation → Type 0
Follows e reward block d a =
    ((text_eq e.cfg.scheme (codes "solo") ≡ true) × IsSolo reward block a)
    ⊎ ((text_eq e.cfg.scheme (codes "lprop") ≡ true) × IsProportional e reward block d a)

abbrev Stays : World → World → Type 0
Stays w w' = (w'.work ≡ w.work) × (w'.db ≡ w.db)

solo_lem :
    (e : Engine) (reward : ℤ) (block : Share) (w : World)
    → Post (λ a w'. IsSolo reward block a × Stays w w') (Keeps w) (solo e reward block w)
solo_lem e reward block w =
    elim (Bool-cases (text_eq (payout_address_from_worker block.worker) [])) [
      | inl anonymous ↦ rw anonymous (record { holds = refl })
      | inr named ↦ rw named (record { holds = (refl, (refl, refl)) })
    ]

allocate_lem :
    (e : Engine) (reward : ℤ) (block : Share) (previous : ℕ) (weights : Weights) (n : ℕ) (w : World)
    → Post
        (λ a w'.
          (allocate_by_weight reward (e.sum_order weights) (e.share_order weights) ≡ some a.alloc)
          × Stays w w')
        (Keeps w)
        (proportional e reward block previous (weights, n) w)
allocate_lem e reward block previous weights n w = elim (Bool-cases (is_empty weights)) [
  | inl nothing ↦ rw nothing (record { holds = refl })
  | inr filled ↦
      rw filled
        (elim (Option-cases
          (allocate_by_weight reward (e.sum_order weights) (e.share_order weights))) [
            | inl stuck ↦ rw stuck (record { holds = refl })
            | inr (amounts, found') ↦ rw found' (record { holds = (refl, (refl, refl)) })
          ])
]

lprop_lem :
    (e : Engine) (reward : ℤ) (block : Share) (w : World)
    → Post
        (λ a w'. IsProportional e reward block w.work a × Stays w w')
        (Keeps w)
        (lprop e reward block w)
lprop_lem e reward block w =
    Post-bind (tx_query load_previous_block (previous_block e.pool_id block.id))
      (λ previous. tx_query load_round_shares (round_shares e.pool_id previous block.id) >>= λ rows.
        proportional e reward block previous (weigh rows ([], 0)))
      w (tx_query_lem load_previous_block (previous_block e.pool_id block.id) w)
      (λ previous w1 (p, s1, k1).
        Post-bind (tx_query load_round_shares (round_shares e.pool_id previous block.id))
          (λ rows. proportional e reward block previous (weigh rows ([], 0))) w1
          (Post-weaken_both
            (tx_query_lem load_round_shares (round_shares e.pool_id previous block.id) w1)
            (λ rows w2 q. q) (λ w2 q. q ∙ k1))
          (λ rows w2 (r, s2, k2).
            Post-weaken_both
              (allocate_lem e reward block previous (weigh rows ([], 0)).0 (weigh rows ([], 0)).1
                w2)
              (λ a w3 (h, (s3, k3)). (rw (← p, ← s1, ← r) h, (s3 ∙ s2 ∙ s1, k3 ∙ k2 ∙ k1)))
              (λ w3 k3. k3 ∙ k2 ∙ k1)))

by_scheme_lem :
    (e : Engine) (reward : ℤ) (block : Share) (w : World)
    → Post
        (λ a w'. Follows e reward block w.work a × Stays w w')
        (Keeps w)
        (by_scheme e reward block w)
by_scheme_lem e reward block w = elim (Bool-cases (text_eq e.cfg.scheme (codes "solo"))) [
  | inl one ↦ rw one (Post-weaken (solo_lem e reward block w) (λ a w' (h, s). (inl (refl, h), s)))
  | inr other ↦ rw other (elim (Bool-cases (text_eq e.cfg.scheme (codes "lprop"))) [
    | inl many ↦
        rw many (Post-weaken (lprop_lem e reward block w) (λ a w' (h, s). (inr (refl, h), s)))
    | inr neither ↦ rw neither (record { holds = refl })
  ])
]

-- What a call commits: nothing where no block is due, and otherwise the settlement of the due block.
abbrev pub Outcome : Engine → Database → Bool → Database → Type 0
Outcome e d false d' = (next_block e.pool_id d ≡ none) × (d' ≡ d)
Outcome e d true d' =
    (block : Share) × (reward : ℤ) × (a : Allocation) × (next_block e.pool_id d ≡ some block)
    × (miner_reward e.cfg ≡ ok reward)
    × Follows e reward block d a
    × Settles e block reward a d d'

due_lem :
    (e : Engine) (d : Database) (block : Share) (w : World)
    → next_block e.pool_id d ≡ some block
    → w.work ≡ d
    → w.db ≡ d
    → Post (λ done w'. Outcome e d done w'.db) (λ w'. w'.db ≡ d) (settle_block e (some block) w)
due_lem e d block w due work db = go (miner_reward e.cfg) refl
  where
    go :
        (r : Result Error ℤ)
        → miner_reward e.cfg ≡ r
        → Post
            (λ done w'. Outcome e d done w'.db)
            (λ w'. w'.db ≡ d)
            ((from_result r >>= λ reward.
                by_scheme e reward block >>= λ a. write_settlement e block reward a)
              w)
    go (err x) paid = record { holds = db }
    go (ok reward) paid =
        Post-bind (by_scheme e reward block) (λ a. write_settlement e block reward a) w
          (Post-weaken_both (by_scheme_lem e reward block w) (λ a w1 q. q) (λ w1 k. k ∙ db))
          (λ a w1 (follows, (s1, k1)).
            Post-weaken_both (write_settlement_lem e block reward a w1)
              (λ done w2 (all, settles).
                rw all
                  (block, reward, a, due, paid, rw (← work) follows, rw (← work, ← s1) settles))
              (λ w2 k2. k2 ∙ k1 ∙ db))

pub settle_next_block_lem :
    (e : Engine) (w : World)
    → Post (λ done w'. Outcome e w.db done w'.db) (Keeps w) (settle_next_block e w)
unfolding settle_next_block
settle_next_block_lem e w =
    Post-bind (begin begin_settle)
      (λ u.
        tx_query select_unsettled_block (next_block e.pool_id) >>= λ block. settle_block e block)
      w (begin_lem begin_settle w)
      (λ u w1 (work, db).
        Post-bind (tx_query select_unsettled_block (next_block e.pool_id))
          (λ block. settle_block e block) w1
          (Post-weaken_both (tx_query_lem select_unsettled_block (next_block e.pool_id) w1)
            (λ b w2 q. q) (λ w2 k. k ∙ db))
          (λ block w2 (b, s, k). chosen block w2 (b ∙ ap' work) (s ∙ work) (k ∙ db)))
  where
    ap' : {d' d : Database} → d' ≡ d → next_block e.pool_id d' ≡ next_block e.pool_id d
    ap' h = ap (next_block e.pool_id) h

    chosen :
        (o : Option Share) (w2 : World)
        → o ≡ next_block e.pool_id w.db
        → w2.work ≡ w.db
        → w2.db ≡ w.db
        → Post (λ done w'. Outcome e w.db done w'.db) (Keeps w) (settle_block e o w2)
    chosen none w2 b work db = record { holds = (sym b, db) }
    chosen (some block) w2 b work db = due_lem e w.db block w2 (sym b) work db

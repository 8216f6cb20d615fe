-- ===== src/Accounting/Settle/Safety.antt =====
-- What settleNextBlock guarantees: a block is paid once, and its reward is given out whole.
use qbitx_pool.Base.{
  ℕ, ◌+◌, ◌^◌, ◌≤◌, ◌<◌, ◌≡◌, refl, sym, ap, ◌∙◌, ◌==◌, Bool, true, false, ◌&&◌, ◌||◌, inl, inr,
  some, List, [], ◌∷◌, ◌++◌, Text, codes, text_eq, text_eq_iff, ℤ, pos, arith,
}
use mathlib.Core.Option.{some-injective, some-ne-none}
use qbitx_pool.Base.Results.{Result, ok}
use qbitx_pool.Accounting.Sync.{this_state}
use qbitx_pool.Accounting.Database.{is_block, is_mature, Database, Share, exists}
use qbitx_pool.Accounting.Session.{World, Error}
use qbitx_pool.Accounting.Session.Rules.{Post, Post-weaken, Keeps}
use qbitx_pool.Accounting.Engine.{Engine, miner_reward}
use qbitx_pool.Accounting.Engine.Reward.{miner_reward_bounds}
use qbitx_pool.Accounting.Owed.{owed}
use mathlib.Core.List.{Permᴰ}
use qbitx_pool.Float64.{zero_f, le}
use qbitx_pool.Accounting.Allocate.{Weights, weight_sum}
use qbitx_pool.Accounting.Allocate.Sums.{DistinctKeys}
use qbitx_pool.Accounting.Allocate.Floors.{BasesFit}
use qbitx_pool.Accounting.Allocate.Total.{allocate_by_weight_total}
use qbitx_pool.Accounting.Settle.{Allocation, to_settle, settlement, settle_next_block, next_block}
use qbitx_pool.Accounting.Settle.Effect.{Settles}
use qbitx_pool.Accounting.Settle.Outcome.{Outcome, round_weights, settle_next_block_lem}

exists-append :
    {A : Type 0} (p : A → Bool) (as' : List A) (a : A)
    → p a ≡ true
    → exists p (as' ++ (a ∷ [])) ≡ true
unfolding exists
exists-append p [] a h = rw h refl
exists-append p (b ∷ bs) a h = rw (exists-append p bs a h) (or_true (p b))
  where
    or_true : (x : Bool) → x || true ≡ true
    or_true x = ground arith

abbrev has_settlement : Text → Database → Share → Bool
has_settlement pool d s =
    exists (λ t. t.block_share_id == s.id && text_eq t.pool_id pool) d.settlements

not_due : (a b c : Bool) → (a && (b && (c && false))) ≡ false
not_due a b c = ground arith

to_settle-has_settlement :
    (pool : Text) (d : Database) (s : Share)
    → has_settlement pool d s ≡ true
    → to_settle pool d s ≡ false
to_settle-has_settlement pool d s h = rw h (
    not_due (text_eq s.pool_id pool) (is_block s.share_type)
      (exists (λ b. this_state s.id pool b && is_mature b.status) d.block_states))

same_key : (id : ℕ) (pool : Text) → (id == id && text_eq pool pool) ≡ true
same_key id pool = rw ((text_eq_iff pool pool).1 refl) (ground arith)

-- A settled block is not to be settled any more.
pub to_settle-Settles :
    (e : Engine) (block : Share) (reward : ℤ) (a : Allocation) (d d' : Database)
    → Settles e block reward a d d'
    → to_settle e.pool_id d' block ≡ false
to_settle-Settles e block reward a d d' s = to_settle-has_settlement e.pool_id d' block (
    rw s.changed (
      exists-append (λ t. t.block_share_id == block.id && text_eq t.pool_id e.pool_id) d.settlements
        (settlement e block reward a) (same_key block.id e.pool_id)))

-- A block is settled once: when a block is due and the call succeeds, whatever statements could
-- fail, that block is no more due afterwards.
pub settle_next_block-once :
    (e : Engine) (w : World) (block : Share)
    → next_block e.pool_id w.db ≡ some block
    → Post (λ done w'. to_settle e.pool_id w'.db block ≡ false) (Keeps w) (settle_next_block e w)
settle_next_block-once e w block due =
    Post-weaken (settle_next_block_lem e w) (λ done w' h. once done w' h)
  where
    once :
        (done : Bool) (w' : World)
        → Outcome e w.db done w'.db
        → to_settle e.pool_id w'.db block ≡ false
    once false w' (nothing, h) = absurd (some-ne-none block (sym due ∙ nothing))
    once true w' (b, reward, a, due', paid, follows, s) =
        rw (some-injective block b (sym due ∙ due')) (to_settle-Settles e b reward a w.db w'.db s)

not_lprop : text_eq (codes "solo") (codes "lprop") ≡ true → ⊥
unfolding text_eq
not_lprop h = ground arith

ok-injective : {a b : ℤ} → Path (Result Error ℤ) (ok a) (ok b) → a ≡ b
ok-injective h = ground arith

-- In the solo scheme the reward is credited whole: when a block is due, a call that succeeds raises
-- the sum of all balances by exactly the miners' reward, which is at least 1. Conditions: the scheme is
-- solo, and the configured reward is an int64 that is not negative.
pub settle_next_block-solo :
    (e : Engine) (w : World) (block : Share) (t : ℕ)
    → next_block e.pool_id w.db ≡ some block
    → e.cfg.scheme ≡ codes "solo"
    → e.cfg.reward ≡ pos t
    → t < 2 ^ 63
    → Post
        (λ done w'.
          (n : ℕ) × (miner_reward e.cfg ≡ ok (pos n))
          × (1 ≤ n)
          × (owed w'.db.balances ≡ owed w.db.balances + n))
        (Keeps w)
        (settle_next_block e w)
settle_next_block-solo e w block t due scheme is fits =
    Post-weaken (settle_next_block_lem e w) (λ done w' h. paid_out done w' h)
  where
    paid_out :
        (done : Bool) (w' : World)
        → Outcome e w.db done w'.db
        → (n : ℕ) × (miner_reward e.cfg ≡ ok (pos n))
          × (1 ≤ n)
          × (owed w'.db.balances ≡ owed w.db.balances + n)
    paid_out false w' (nothing, h) = absurd (some-ne-none block (sym due ∙ nothing))
    paid_out true w' (b, reward, a, due', paid, inl (solo', all), s) =
        let (n, r, lo, hi) = miner_reward_bounds e.cfg t reward is fits paid in
        (n, paid ∙ ap ok r, lo, s.owes ∙ rw (all, r) (omega arith))
    paid_out true w' (b, reward, a, due', paid, inr (many, all), s) =
        absurd (not_lprop (ap (λ x. text_eq x (codes "lprop")) (sym scheme) ∙ many))

not_solo : text_eq (codes "lprop") (codes "solo") ≡ true → ⊥
unfolding text_eq
not_solo h = ground arith

-- In the lprop scheme the balances together take the whole reward: when a block is due, a call that
-- succeeds raises the sum of all balances by exactly the miners' reward `n`, although the shares are
-- computed in floating point. Conditions: the scheme is lprop; the two loops over the map of weights
-- visit one map with distinct keys; the sum of the weights is positive; and the rounded-down shares
-- are numbers that together do not exceed `n`.
pub settle_next_block-lprop :
    (e : Engine) (w : World) (block : Share) (n : ℕ) (summed weights : Weights)
    → next_block e.pool_id w.db ≡ some block
    → e.cfg.scheme ≡ codes "lprop"
    → miner_reward e.cfg ≡ ok (pos n)
    → 1 ≤ n
    → n < 2 ^ 63
    → e.sum_order (round_weights e block w.db).0 ≡ summed
    → e.share_order (round_weights e block w.db).0 ≡ weights
    → Permᴰ summed weights
    → DistinctKeys weights
    → le (weight_sum zero_f summed) zero_f ≡ false
    → BasesFit (pos n) (weight_sum zero_f summed) n 0 weights
    → Post
        (λ done w'. owed w'.db.balances ≡ owed w.db.balances + n)
        (Keeps w)
        (settle_next_block e w)
settle_next_block-lprop e w block n summed weights due scheme is lo hi sums shares perm keys
      positive fits =
    Post-weaken (settle_next_block_lem e w) (λ done w' h. paid_out done w' h)
  where
    paid_out :
        (done : Bool) (w' : World)
        → Outcome e w.db done w'.db
        → owed w'.db.balances ≡ owed w.db.balances + n
    paid_out false w' (nothing, h) = absurd (some-ne-none block (sym due ∙ nothing))
    paid_out true w' (b, reward, a, due', paid, inl (solo', all), s) =
        absurd (not_solo (ap (λ x. text_eq x (codes "solo")) (sym scheme) ∙ solo'))
    paid_out true w' (b, reward, a, due', paid, inr (many, all), s) =
        let (result, e', nn, tot) =
          allocate_by_weight_total n summed weights lo hi perm keys positive fits in
        let same : block ≡ b = some-injective block b (sym due ∙ due') in
        let reward_is : pos n ≡ reward = ok-injective (sym is ∙ paid) in
        let alloc_is : result ≡ a.alloc =
          some-injective result a.alloc (sym e' ∙ rw (← sums, ← shares, same, reward_is) all) in
        s.owes ∙ ap (λ x. owed w.db.balances + x) (rw (← alloc_is) tot)

-- ===== src/Accounting/Settle/Loop.antt =====
-- settleAllBlocks goes on until no block is due.
use mathlib.Core.Option.{some-injective, none-ne-some}
use qbitx_pool.Base.{
  ℕ, zero, suc, ◌+◌, ◌≤◌, ◌<◌, ◌≡◌, refl, sym, Bool, true, false, ◌&&◌, Bool-cases, inl, inr,
  if◌then◌else◌, none, some, List, [], ◌∷◌, length, length-append, All, Text, text_eq, arith,
}
use qbitx_pool.Accounting.Database.{
  Database, BlockState, Share, settled, is_block, is_mature, exists, update,
}
use qbitx_pool.Accounting.Database.Rows.{All-select, All-order_by}
use native.Mathlib.Nat.{zero-add}
use qbitx_pool.Base.Results.{Result, ok, err}
use qbitx_pool.Accounting.Session.{World, M, Error, pure}
use qbitx_pool.Accounting.Session.Rules.{Post, Post-weaken_both, Keeps}
use qbitx_pool.Accounting.Sync.{this_state}
use qbitx_pool.Accounting.Engine.{Engine}
use qbitx_pool.Accounting.Settle.{
  to_settle, first_of, next_block, settle_next_block, settle_rounds, settle_all_blocks,
}
use qbitx_pool.Accounting.Settle.Outcome.{Outcome, settle_next_block_lem}

All-first_of :
    {A : Type 0} (P : A → Type 0) (as' : List A) (a : A) → All P as' → first_of as' ≡ some a → P a
All-first_of P [] a h e = absurd (none-ne-some a e)
All-first_of P (b ∷ bs) a h e = rw (sym (some-injective b a e)) h.0

-- The block that is due satisfies the conditions of the query.
pub to_settle-next_block :
    (pool : Text) (d : Database) (block : Share)
    → next_block pool d ≡ some block
    → to_settle pool d block ≡ true
unfolding next_block
to_settle-next_block pool d block h =
    All-first_of (λ s. to_settle pool d s ≡ true) _ block
      (All-order_by (λ s. to_settle pool d s ≡ true) _ _ (All-select (to_settle pool d) d.shares)) h

-- How many blocks are mature.
unfoldable pub matures : List BlockState → ℕ
matures [] = 0
matures (b ∷ bs) = (if is_mature b.status then 1 else 0) + matures bs

matures-length : (bs : List BlockState) → matures bs ≤ length bs
unfolding matures
matures-length [] = omega arith
matures-length (b ∷ bs) = ground (arith, matures-length bs)

abbrev mark : BlockState → BlockState
mark b = record b { status = settled }

matures-update :
    (p : BlockState → Bool) (bs : List BlockState) → matures (update p mark bs) ≤ matures bs
unfolding matures update
matures-update p [] = omega arith
matures-update p (b ∷ bs) = elim (Bool-cases (p b)) [
  | inl yes' ↦ rw yes' (omega (arith, matures-update p bs))
  | inr no' ↦ rw no' (omega (arith, matures-update p bs))
]

matures-update_less :
    (p : BlockState → Bool) (bs : List BlockState)
    → exists (λ b. p b && is_mature b.status) bs ≡ true
    → matures (update p mark bs) + 1 ≤ matures bs
unfolding matures update exists
matures-update_less p [] h = ground arith
matures-update_less p (b ∷ bs) h = elim (Bool-cases (p b)) [
  | inl hit ↦ elim (Bool-cases (is_mature b.status)) [
    | inl ripe ↦ rw (hit, ripe) (omega (arith, matures-update p bs))
    | inr unripe ↦
        rw (hit, unripe) (omega (arith, matures-update_less p bs (rw (hit, unripe) at h)))
  ]
  | inr miss ↦ rw miss (omega (arith, matures-update_less p bs (rw miss at h)))
]

conditions : (a b c d : Bool) → (a && (b && (c && d))) ≡ true → c ≡ true
conditions a b c d h = ground arith

-- A settlement takes one block from the mature ones, and adds one row.
settled_tables_less :
    (e : Engine) (d d' : Database)
    → Outcome e d true d'
    → (matures d'.block_states + 1 ≤ matures d.block_states)
      × (length d'.settlements ≡ length d.settlements + 1)
settled_tables_less e d d' (block, reward, a, due, paid, follows, s) = (
  rw s.changed (matures-update_less (this_state block.id e.pool_id) d.block_states ripe),
  rw s.changed (length-append d.settlements _),
)
  where
    ripe : exists (λ b. this_state block.id e.pool_id b && is_mature b.status) d.block_states ≡ true
    ripe =
        conditions (text_eq block.pool_id e.pool_id) (is_block block.share_type)
          (exists (λ b. this_state block.id e.pool_id b && is_mature b.status) d.block_states) _
          (to_settle-next_block e.pool_id d block due)

-- Calls of settleNextBlock that settled a block, one after the other.
pub data Rounds (e : Engine) : World → ℕ → World → Type 0 where
  no_more : (w : World) → Rounds e w 0 w
  one_more :
      (w w1 w2 : World) (n : ℕ)
      → settle_next_block e w ≡ (ok true, w1)
      → Outcome e w.db true w1.db
      → Rounds e w1 n w2
      → Rounds e w (suc n) w2

-- The loop ended after `n` settlements, each of which is committed, by a call that found no block
-- due; or by a call that failed, and the tables are those after the last settlement.
pub record Settled (e : Engine) (w : World) (n : ℕ) (w' : World) : Type 0 where
  pub last : World
  pub rounds : Rounds e w n last
  pub call : settle_next_block e last ≡ (ok false, w')
  pub tables : w'.db ≡ last.db
  pub none_due : next_block e.pool_id w'.db ≡ none

pub record Interrupted (e : Engine) (w w' : World) : Type 0 where
  pub count : ℕ
  pub last : World
  pub rounds : Rounds e w count last
  pub failure : Error
  pub call : settle_next_block e last ≡ (err failure, w')
  pub tables : w'.db ≡ last.db

-- What the loop returns counts on from `count`.
abbrev Ended : Engine → ℕ → World → Result Error ℕ × World → Type 0
Ended e count w r =
    Post (λ m w'. (n : ℕ) × (m ≡ count + n) × Settled e w n w') (λ w'. Interrupted e w w') r

Ended-suc :
    (e : Engine) (count : ℕ) (w w1 : World) (r : Result Error ℕ × World)
    → settle_next_block e w ≡ (ok true, w1)
    → Outcome e w.db true w1.db
    → Ended e (count + 1) w1 r
    → Ended e count w r
Ended-suc e count w w1 r q o h =
    Post-weaken_both h
      (λ m w' (n, p, s). (
        suc n,
        omega (arith, p),
        record {
          last = s.last;
          rounds = one_more w w1 s.last n q o s.rounds;
          call = s.call;
          tables = s.tables;
          none_due = s.none_due;
        },
      ))
      (λ w' s. record {
        count = suc s.count;
        last = s.last;
        rounds = one_more w w1 s.last s.count q o s.rounds;
        failure = s.failure;
        call = s.call;
        tables = s.tables;
      })

rounds_lem :
    (e : Engine) (fuel count : ℕ) (w : World)
    → matures w.db.block_states < fuel
    → Ended e count w (settle_rounds e fuel count w)
unfolding settle_rounds
rounds_lem e zero count w h = ground arith
rounds_lem e (suc fuel) count w h =
    continue (settle_next_block e w) refl (settle_next_block_lem e w)
      (λ w1 less. rounds_lem e fuel (count + 1) w1 less)
  where
    continue :
        (r : Result Error Bool × World)
        → settle_next_block e w ≡ r
        → Post (λ done w1. Outcome e w.db done w1.db) (Keeps w) r
        → ((w1 : World)
            → matures w1.db.block_states < fuel
            → Ended e (count + 1) w1 (settle_rounds e fuel (count + 1) w1))
        → Ended e count w (
            let (x, w') = r in
            elim x [
              | ok done ↦
                  (elim done as (λ x. M ℕ) [
                    | true ↦ settle_rounds e fuel (count + 1)
                    | false ↦ pure count
                  ])
                    w'
              | err f ↦ (err f, w')
            ])
    continue (ok true, w1) q o ih =
        Ended-suc e count w w1 _ q o.holds
          (ih w1 (let (fewer, longer) = settled_tables_less e w.db w1.db o.holds in omega arith))
    continue (ok false, w1) q o ih = record {
      holds = (
        0,
        omega arith,
        record {
          last = w;
          rounds = no_more w;
          call = q;
          tables = o.holds.1;
          none_due = rw o.holds.1 o.holds.0;
        },
      );
    }
    continue (err f, w1) q o ih = record {
      holds = record {
        count = 0;
        last = w;
        rounds = no_more w;
        failure = f;
        call = q;
        tables = o.holds;
      };
    }

-- settleAllBlocks never stops early: when it succeeds, whatever statements could fail, it is that
-- many calls of settleNextBlock, each of which committed the settlement of one block, and no block is
-- due any more. When it fails, it is calls that committed a settlement each, and one that failed,
-- and the tables are those after the last settlement.
pub settle_all_blocks_lem :
    (e : Engine) (w : World)
    → Post (λ n w'. Settled e w n w') (λ w'. Interrupted e w w') (settle_all_blocks e w)
unfolding settle_all_blocks
settle_all_blocks_lem e w =
    Post-weaken_both
      (rounds_lem e (suc (length w.db.block_states)) 0 w
        (omega (arith, matures-length w.db.block_states)))
      (λ m w' (n, p, s). rw (p, zero-add n) s) (λ w' s. s)

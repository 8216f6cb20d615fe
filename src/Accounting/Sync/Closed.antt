-- ===== src/Accounting/Sync/Closed.antt =====
-- syncBlockStates never reopens a block that is settled or orphaned.
use mathlib.Core.Option.{some-injective}
use qbitx_pool.Base.{
  ℕ, ◌≡◌, refl, sym, ap, ◌⊎◌, inl, inr, Bool, true, false, not, ◌&&◌, ◌||◌, ◌==◌, some, List, [],
  ◌∷◌, ◌++◌, All, All-append, Text, text_eq, ℤ, arith,
}
use qbitx_pool.Base.Results.{Result, ok, err}
use qbitx_pool.Accounting.Worker.{truncate}
use qbitx_pool.Accounting.Database.{
  Database, Share, BlockState, is_open, is_block, has_hash, exists, update,
}
use qbitx_pool.Accounting.Database.Rows.{
  All-order_by, All-select, All-select_both, All-map, All-weaken,
}
use qbitx_pool.Accounting.Session.{
  World, ◌>>=◌, exec, query, insert_block_states, load_block_states, update_block_state_error,
  update_block_state,
}
use qbitx_pool.Accounting.Session.Rules.{Post, Post-bind, Post-weaken_both, exec_lem, query_lem}
use qbitx_pool.Accounting.Engine.{Engine, next_status}
use qbitx_pool.Accounting.Sync.{
  is_new_block, new_state, insert_states, open_blocks, this_state, record_error, record_status,
  write_answer, check_blocks, sync_block_states,
}

-- The row `b` stands in the table.
unfoldable pub Has : BlockState → List BlockState → Type 0
Has b [] = ⊥
Has b (c ∷ cs) = (c ≡ b) ⊎ Has b cs

Has-append : (b : BlockState) (cs ds : List BlockState) → Has b cs → Has b (cs ++ ds)
unfolding Has
Has-append b [] ds h = absurd h
Has-append b (c ∷ cs) ds (inl e) = inl e
Has-append b (c ∷ cs) ds (inr h) = inr (Has-append b cs ds h)

Has-update :
    (p : BlockState → Bool) (f : BlockState → BlockState) (b : BlockState) (cs : List BlockState)
    → p b ≡ false
    → Has b cs
    → Has b (update p f cs)
unfolding Has update
Has-update p f b [] miss h = absurd h
Has-update p f b (c ∷ cs) miss (inl e) = inl (rw e (rw miss refl))
Has-update p f b (c ∷ cs) miss (inr h) = inr (Has-update p f b cs miss h)

-- A row that is open has another share than `b`.
abbrev pub Apart : BlockState → BlockState → Type 0
Apart b o = (o.block_share_id == b.block_share_id && is_open o.status) ≡ false

abbrev Other : BlockState → BlockState → Type 0
Other b o = (b.block_share_id == o.block_share_id) ≡ false

Apart-open : (b o : BlockState) (x : Bool) → Apart b o → (x && is_open o.status) ≡ true → Other b o
Apart-open b o x h k = ground arith

neither : (x y : Bool) → (x || y) ≡ false → (x ≡ false) × (y ≡ false)
neither true y h = ground arith
neither false y h = (refl, h)

Has-exists :
    (b : BlockState) (id : ℕ) (cs : List BlockState)
    → Has b cs
    → exists (λ c. c.block_share_id == id) cs ≡ false
    → (b.block_share_id == id) ≡ false
unfolding Has exists
Has-exists b id [] h k = absurd h
Has-exists b id (c ∷ cs) (inl e) k =
    rw (sym e) (neither (c.block_share_id == id) (exists (λ c. c.block_share_id == id) cs) k).0
Has-exists b id (c ∷ cs) (inr h) k =
    Has-exists b id cs h
      (neither (c.block_share_id == id) (exists (λ c. c.block_share_id == id) cs) k).1

-- A new row is apart from every row that stood in the table.
new-Apart :
    (pool : Text) (b : BlockState) (cs : List BlockState) (s : Share)
    → Has b cs
    → is_new_block pool cs s ≡ true
    → Apart b (new_state pool s)
new-Apart pool b cs s h k = flip (s.id) (b.block_share_id) (
    Has-exists b s.id cs h (
      absent (text_eq s.pool_id pool) (is_block s.share_type) (has_hash s.block_hash)
        (exists (λ c. c.block_share_id == s.id) cs) k))
  where
    absent : (x y z u : Bool) → (x && (y && (z && not u))) ≡ true → u ≡ false
    absent x y z u k = ground arith

    flip : (m n : ℕ) → (n == m) ≡ false → (m == n && true) ≡ false
    flip m n k = ground arith

insert_states_lem :
    (pool : Text) (b : BlockState) (d : Database)
    → Has b d.block_states
    → All (Apart b) d.block_states
    → Has b (insert_states pool d).block_states × All (Apart b) (insert_states pool d).block_states
unfolding insert_states
insert_states_lem pool b d h apart = (
  Has-append b d.block_states _ h,
  All-append (Apart b) d.block_states _ apart (
      All-map (λ s. is_new_block pool d.block_states s ≡ true) (Apart b) (new_state pool) _
        (λ s k. new-Apart pool b d.block_states s h k)
        (All-select (is_new_block pool d.block_states) d.shares)),
)

open_blocks_lem :
    (pool : Text) (b : BlockState) (d : Database)
    → All (Apart b) d.block_states
    → All (Other b) (open_blocks pool d)
unfolding open_blocks
open_blocks_lem pool b d apart = All-order_by (Other b) _ _ (
    All-weaken (λ o. Apart b o × ((text_eq o.pool_id pool && is_open o.status) ≡ true)) (Other b) _
      (λ o (a, k). Apart-open b o (text_eq o.pool_id pool) a k)
      (All-select_both (Apart b) (λ o. text_eq o.pool_id pool && is_open o.status) d.block_states
        apart))

abbrev Stands : BlockState → World → Type 0
Stands b w = Has b w.db.block_states

missed :
    (b : BlockState) (id : ℕ) (pool : Text)
    → (b.block_share_id == id) ≡ false
    → this_state id pool b ≡ false
missed b id pool h = rw h refl

write_answer_lem :
    (e : Engine) (b : BlockState) (id : ℕ) (r : Result Text (ℤ × Bool)) (w : World)
    → (b.block_share_id == id) ≡ false
    → Stands b w
    → Post (λ u w'. Stands b w') (Stands b) (write_answer e id r w)
unfolding record_error record_status
write_answer_lem e b id (err reason) w other h =
    Post-weaken_both
      (exec_lem update_block_state_error
        (λ d. some (record_error id e.pool_id (truncate reason 1024) d)) w)
      (λ u w' q. rw (sym (ap (λ d. d.block_states) (some-injective _ w'.db q))) (
        Has-update (this_state id e.pool_id) _ b w.db.block_states (missed b id e.pool_id other) h))
      (λ w' k. rw k h)
write_answer_lem e b id (ok (confirmations, known)) w other h =
    Post-weaken_both
      (exec_lem update_block_state
        (λ d. some (
          record_status id e.pool_id (next_status e.cfg.block_maturity confirmations known)
            confirmations d))
        w)
      (λ u w' q. rw (sym (ap (λ d. d.block_states) (some-injective _ w'.db q))) (
        Has-update (this_state id e.pool_id) _ b w.db.block_states (missed b id e.pool_id other) h))
      (λ w' k. rw k h)

check_blocks_lem :
    (e : Engine) (b : BlockState) (rows : List BlockState) (w : World)
    → All (Other b) rows
    → Stands b w
    → Post (λ u w'. Stands b w') (Stands b) (check_blocks e rows w)
unfolding check_blocks
check_blocks_lem e b [] w other h = record { holds = h }
check_blocks_lem e b (o ∷ rows) w other h =
    Post-bind (write_answer e o.block_share_id (e.sender.lookup_block_confirmations o.block_hash))
      (λ u. check_blocks e rows) w
      (write_answer_lem e b o.block_share_id (e.sender.lookup_block_confirmations o.block_hash) w
        other.0 h)
      (λ u w1 h1. check_blocks_lem e b rows w1 other.1 h1)

-- A block that is settled or orphaned stays so: a row of the table keeps its place, unchanged, over a
-- run of syncBlockStates, whatever statements fail and whatever the daemon answers. Condition: no
-- open row has the row's share, as for a closed row under the primary key.
pub sync_block_states-closed :
    (e : Engine) (w : World) (b : BlockState)
    → Has b w.db.block_states
    → All (Apart b) w.db.block_states
    → Post
        (λ u w'. Has b w'.db.block_states)
        (λ w'. Has b w'.db.block_states)
        (sync_block_states e w)
unfolding sync_block_states
sync_block_states-closed e w b h apart =
    let (h1, apart1) = insert_states_lem e.pool_id b w.db h apart in
    Post-bind (exec insert_block_states (λ d. some (insert_states e.pool_id d)))
      (λ u. query load_block_states (open_blocks e.pool_id) >>= λ rows. check_blocks e rows) w
      (Post-weaken_both (exec_lem insert_block_states (λ d. some (insert_states e.pool_id d)) w)
        (λ u w1 q. some-injective (insert_states e.pool_id w.db) w1.db q) (λ w1 k. rw k h))
      (λ u w1 done.
        Post-bind (query load_block_states (open_blocks e.pool_id)) (λ rows. check_blocks e rows) w1
          (Post-weaken_both (query_lem load_block_states (open_blocks e.pool_id) w1)
            (λ rows w2 q. q) (λ w2 k. rw (k, sym done) h1))
          (λ rows w2 (r, k). rw r (
            check_blocks_lem e b (open_blocks e.pool_id w1.db) w2
              (open_blocks_lem e.pool_id b w1.db (rw (sym done) apart1)) (rw (k, sym done) h1))))

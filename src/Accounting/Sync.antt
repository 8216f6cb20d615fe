-- ===== src/Accounting/Sync.antt =====
-- syncBlockStates of internal/accounting/payout.go.
pub mod Closed
use qbitx_pool.Base.{
  ℕ, leb, ◌==◌, Bool, not, ◌&&◌, none, some, List, [], ◌∷◌, ◌++◌, map, Text, text_eq, ℤ, pos,
}
use qbitx_pool.Base.Results.{Result, ok, err}
use qbitx_pool.Accounting.Worker.{truncate}
use qbitx_pool.Accounting.Database.{
  Database, Share, BlockState, Status, found, is_block, is_open, has_hash, hash_of, select, exists,
  update, order_by,
}
use qbitx_pool.Accounting.Session.{
  M, ◌>>=◌, ◌>>◌, pure, exec, query, insert_block_states, load_block_states,
  update_block_state_error, update_block_state,
}
use qbitx_pool.Accounting.Engine.{Engine, next_status}

-- The rows that the first INSERT selects.
abbrev pub is_new_block : Text → List BlockState → Share → Bool
is_new_block pool states s =
    text_eq s.pool_id pool
    && (is_block s.share_type
        && (has_hash s.block_hash && not (exists (λ b. b.block_share_id == s.id) states)))

abbrev pub new_state : Text → Share → BlockState
new_state pool s = record {
  block_share_id = s.id;
  pool_id = pool;
  block_hash = hash_of s.block_hash;
  status = found;
  confirmations = pos 0;
  last_error = none;
}

unfoldable pub insert_states : Text → Database → Database
unfolding select exists
insert_states pool d = record d {
  block_states =
      d.block_states ++ map (new_state pool) (select (is_new_block pool d.block_states) d.shares);
}

-- The rows of the SELECT, by ascending share.
unfoldable pub open_blocks : Text → Database → List BlockState
unfolding select order_by
open_blocks pool d =
    order_by (λ a b. leb a.block_share_id b.block_share_id)
      (select (λ b. text_eq b.pool_id pool && is_open b.status) d.block_states)

abbrev pub this_state : ℕ → Text → BlockState → Bool
this_state id pool b = b.block_share_id == id && text_eq b.pool_id pool

unfoldable pub record_error : ℕ → Text → Text → Database → Database
unfolding update
record_error id pool reason d = record d {
  block_states =
      update (this_state id pool) (λ b. record b { last_error = some reason }) d.block_states;
}

unfoldable pub record_status : ℕ → Text → Status → ℤ → Database → Database
unfolding update
record_status id pool status confirmations d = record d {
  block_states =
      update (this_state id pool)
        (λ b. record b { status = status; confirmations = confirmations; last_error = none })
        d.block_states;
}

module _ (e : Engine) where
  -- What one answer of the daemon writes.
  abbrev pub write_answer : ℕ → Result Text (ℤ × Bool) → M (Unit {0})
  write_answer id (err reason) =
      exec update_block_state_error (λ d. some (record_error id e.pool_id (truncate reason 1024) d))
  write_answer id (ok (confirmations, known)) = exec update_block_state (λ d. some (
      record_status id e.pool_id (next_status e.cfg.block_maturity confirmations known)
        confirmations d))

  unfoldable pub check_blocks : List BlockState → M (Unit {0})
  unfolding record_error record_status truncate next_status
  check_blocks [] = pure tt
  check_blocks (b ∷ bs) =
      write_answer b.block_share_id (e.sender.lookup_block_confirmations b.block_hash)
      >> check_blocks bs

  unfoldable pub sync_block_states : M (Unit {0})
  unfolding insert_states open_blocks check_blocks
  sync_block_states = do
    exec insert_block_states (λ d. some (insert_states e.pool_id d))
    blocks ← query load_block_states (open_blocks e.pool_id)
    check_blocks blocks

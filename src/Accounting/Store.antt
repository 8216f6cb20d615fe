-- ===== src/Accounting/Store.antt =====
-- internal/accounting/store.go, and PostgresStore of internal/accounting/postgres_store.go with the
-- constraints of the table `shares` (migrations/0001, 0004 and 0005).
pub mod Unique
use qbitx_pool.Base.{
  ℕ, ◌+◌, if◌then◌else◌, Bool, true, false, ◌&&◌, ◌||◌, Option, none, some, List, [], ◌∷◌, ◌++◌,
  Text, codes, text_eq,
}
use qbitx_pool.Float64.{Float64, zero_f, le}
use qbitx_pool.Accounting.Database.{Share, share, block, exists}

-- `Time` only goes into a column of times, and is left out.
pub record ShareRecord : Type 0 where
  pub worker : Text
  pub diff : Float64
  pub share_type : Text
  pub submission_key : Text
  pub block_hash : Text

-- Why the statement fails: a check or a unique index of the table, or the connection.
pub data InsertError : Type 0 where
  violates_check violates_unique unavailable : InsertError

-- The errors of InsertAcceptedShare; `rejected_insert` has what the database answered.
pub data StoreError : Type 0 where
  invalid_share_type : Text → StoreError
  invalid_diff : Float64 → StoreError
  rejected_insert : InsertError → StoreError

-- The interface ShareStore, over the states of an implementation. Close is not called while
-- connections are served.
pub record ShareStore (S : Type 0) : Type 0 where
  pub insert_accepted_share : ShareRecord → S → S × Option StoreError

-- The table `shares` with the sequence behind its `id`, the pool of the store, and whether the
-- database answers.
pub record Postgres : Type 0 where
  pub pool_id : Text
  pub shares : List Share
  pub next_share : ℕ
  pub reachable : Bool

-- The checks on `share_type` and `diff`.
abbrev pub type_of : Text → Option Bool
type_of t =
    if text_eq t (codes "share")
    then some false
    else if text_eq t (codes "block")
    then some true
    else none

-- `blockHashPtr`
abbrev pub nullable : Text → Option Text
nullable s = if text_eq s [] then none else some s

-- The unique indexes of migrations/0005: of a pool, no two rows have one submission key, nor one
-- block hash that is not null.
abbrev pub same_hash : Option Text → Option Text → Bool
same_hash none h = false
same_hash (some g) none = false
same_hash (some g) (some h) = text_eq g h

abbrev pub clashes : Share → Share → Bool
clashes r s =
    text_eq s.pool_id r.pool_id
    && (text_eq s.submission_key r.submission_key || same_hash s.block_hash r.block_hash)

abbrev pub row_of : ℕ → Text → Bool → ShareRecord → Share
row_of id pool is_block r = record {
  id = id;
  pool_id = pool;
  worker = r.worker;
  diff = r.diff;
  share_type = if is_block then block else share;
  submission_key = r.submission_key;
  block_hash = nullable r.block_hash;
}

-- The statement `INSERT INTO shares`; to PostgreSQL a NaN is above 0 as well. The sequence counts on also where it fails.
unfoldable pub insert_row : Bool → ShareRecord → Postgres → Postgres × Option InsertError
unfolding exists
insert_row is_block r s =
    let row = row_of s.next_share s.pool_id is_block r in
    let counted = record s { next_share = s.next_share + 1 } in
    if s.reachable
    then if le r.diff zero_f
      then (counted, some violates_check)
      else if exists (clashes row) s.shares
      then (counted, some violates_unique)
      else (record counted { shares = s.shares ++ row ∷ [] }, none)
    else (s, some unavailable)

abbrev pub wrap_insert : Postgres × Option InsertError → Postgres × Option StoreError
wrap_insert (s, none) = (s, none)
wrap_insert (s, some e) = (s, some (rejected_insert e))

abbrev pub insert_typed : Option Bool → ShareRecord → Postgres → Postgres × Option StoreError
insert_typed none r s = (s, some (invalid_share_type r.share_type))
insert_typed (some is_block) r s =
    if le r.diff zero_f
    then (s, some (invalid_diff r.diff))
    else wrap_insert (insert_row is_block r s)

unfoldable pub insert_accepted_share : ShareRecord → Postgres → Postgres × Option StoreError
unfolding insert_row
insert_accepted_share r s = insert_typed (type_of r.share_type) r s

abbrev pub postgres_store : ShareStore Postgres
postgres_store = record { insert_accepted_share = insert_accepted_share }

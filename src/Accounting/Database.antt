-- ===== src/Accounting/Database.antt =====
-- The tables of migrations/ as the payout engine and the share store use them, and the SQL
-- statements of internal/accounting as functions on them. Columns that only record times and
-- widths of columns other than the amounts are left out. An empty result of an update is a violated
-- constraint.
pub mod Rows
use qbitx_pool.Base.{
  ℕ, ◌+◌, ◌-◌, ◌^◌, ltb, if◌then◌else◌, Bool, true, false, not, ◌&&◌, ◌||◌, Option, none, some,
  List, [], ◌∷◌, Text, text_eq, ℤ,
}
use mathlib.Core.Option
use qbitx_pool.Float64.{Float64}

-- The `share_type` column, and the enum `block_status`.
pub data ShareType : Type 0 where
  share block : ShareType

pub data Status : Type 0 where
  found immature mature orphan settled : Status

pub data BatchStatus : Type 0 where
  pending sent failed : BatchStatus

pub record Share : Type 0 where
  pub id : ℕ
  pub pool_id : Text
  pub worker : Text
  pub diff : Float64
  pub share_type : ShareType
  pub submission_key : Text
  pub block_hash : Option Text

pub record BlockState : Type 0 where
  pub block_share_id : ℕ
  pub pool_id : Text
  pub block_hash : Text
  pub status : Status
  pub confirmations : ℤ
  pub last_error : Option Text

pub record Settlement : Type 0 where
  pub block_share_id : ℕ
  pub pool_id : Text
  pub block_submission_key : Text
  pub reward_sat : ℤ
  pub miner_reward_sat : ℤ
  pub pplns_window : ℕ
  pub round_start_share_id : ℕ
  pub round_end_share_id : ℕ
  pub shares_count : ℕ
  pub total_weight : Float64

pub record Balance : Type 0 where
  pub pool_id : Text
  pub worker : Text
  pub amount_sat : ℕ

pub record Batch : Type 0 where
  pub id : ℕ
  pub pool_id : Text
  pub status : BatchStatus
  pub total_sat : ℤ
  pub txid : Option Text
  pub error : Option Text

pub record Item : Type 0 where
  pub pool_id : Text
  pub batch_id : ℕ
  pub worker : Text
  pub amount_sat : ℕ

pub record Database : Type 0 where
  pub shares : List Share
  pub block_states : List BlockState
  pub settlements : List Settlement
  pub balances : List Balance
  pub batches : List Batch
  pub items : List Item
  -- the sequence behind `payout_batches.id`
  pub next_batch : ℕ

-- `WHERE`, in the order of the table.
unfoldable pub select {ℓ} : {A : Type ℓ} → (A → Bool) → List A → List A
select p [] = []
select p (a ∷ as') = if p a then a ∷ select p as' else select p as'

unfoldable pub exists {ℓ} : {A : Type ℓ} → (A → Bool) → List A → Bool
exists p [] = false
exists p (a ∷ as') = p a || exists p as'

-- `UPDATE … WHERE`
unfoldable pub update {ℓ} : {A : Type ℓ} → (A → Bool) → (A → A) → List A → List A
update p f [] = []
update p f (a ∷ as') = (if p a then f a else a) ∷ update p f as'

-- `ORDER BY`, by a test that puts the second behind the first.
unfoldable pub order_insert {ℓ} : {A : Type ℓ} → (A → A → Bool) → A → List A → List A
order_insert before a [] = a ∷ []
order_insert before a (b ∷ bs) = if before a b then a ∷ b ∷ bs else b ∷ order_insert before a bs

unfoldable pub order_by {ℓ} : {A : Type ℓ} → (A → A → Bool) → List A → List A
unfolding order_insert
order_by before [] = []
order_by before (a ∷ as') = order_insert before a (order_by before as')

abbrev pub is_block : ShareType → Bool
is_block share = false
is_block block = true

abbrev pub is_mature : Status → Bool
is_mature mature = true
is_mature _ = false

-- `status IN ('found', 'immature', 'mature')`
abbrev pub is_open : Status → Bool
is_open found = true
is_open immature = true
is_open mature = true
is_open orphan = false
is_open settled = false

abbrev pub has_hash : Option Text → Bool
has_hash none = false
has_hash (some h) = not (text_eq h [])

abbrev pub hash_of : Option Text → Text
hash_of none = []
hash_of (some h) = h

-- The statements on `balances`. `amount_sat` is a BIGINT that a check keeps at 0 or more.
abbrev pub account : Text → Text → Balance → Bool
account pool worker b = text_eq b.pool_id pool && text_eq b.worker worker

abbrev pub add_amount : ℕ → Balance → Option Balance
add_amount n b =
    if ltb (b.amount_sat + n) (2 ^ 63)
    then some (record b { amount_sat = b.amount_sat + n })
    else none

abbrev pub cons_to : {A : Type 0} → Option A → Option (List A) → Option (List A)
cons_to none r = none
cons_to (some a) none = none
cons_to (some a) (some r) = some (a ∷ r)

-- `INSERT … ON CONFLICT (pool_id, worker) DO UPDATE SET amount_sat = balances.amount_sat + EXCLUDED.amount_sat`
unfoldable pub credit : Text → Text → ℕ → List Balance → Option (List Balance)
credit pool worker n [] = some (record { pool_id = pool; worker = worker; amount_sat = n } ∷ [])
credit pool worker n (b ∷ bs) =
    if account pool worker b
    then cons_to (add_amount n b) (some bs)
    else cons_to (some b) (credit pool worker n bs)

-- `UPDATE balances SET amount_sat = amount_sat - $3 WHERE pool_id = $1 AND worker = $2`
unfoldable pub debit : Text → Text → ℕ → List Balance → Option (List Balance)
debit pool worker n [] = some []
debit pool worker n (b ∷ bs) =
    if account pool worker b
    then (if ltb b.amount_sat n
        then none
        else cons_to (some (record b { amount_sat = b.amount_sat - n })) (debit pool worker n bs))
    else cons_to (some b) (debit pool worker n bs)

-- `UPDATE balances SET amount_sat = amount_sat + $3 WHERE pool_id = $1 AND worker = $2`
unfoldable pub refund : Text → Text → ℕ → List Balance → Option (List Balance)
refund pool worker n [] = some []
refund pool worker n (b ∷ bs) =
    if account pool worker b
    then cons_to (add_amount n b) (refund pool worker n bs)
    else cons_to (some b) (refund pool worker n bs)

-- A statement on `balances`, as one on the database.
abbrev pub put_balances : Database → List Balance → Database
put_balances d bs = record d { balances = bs }

abbrev pub with_balances : (List Balance → Option (List Balance)) → Database → Option Database
with_balances f d = Option.map (put_balances d) (f d.balances)

-- ===== src/Mining/Transaction.antt =====
-- Bitcoin's transaction format, without witnesses, written from its description and not from the
-- program: what BuildCoinbaseTx is measured against.
pub mod Read
use qbitx_pool.Base.{
  ℕ, zero, suc, ◌+◌, ◌^◌, ◌<◌, leb, ◌≡◌, if◌then◌else◌, Option, none, some, List, [], ◌∷◌, ◌++◌,
  length, take, drop, le_bytes, Bool,
}
use qbitx_pool.Mining.Wire.{encode_var_int}
use qbitx_pool.Mining.Wire.Read.{read_le, read_var_int}

pub record Input : Type 0 where
  pub previous_hash : List ℕ
  pub previous_index : ℕ
  pub script_sig : List ℕ
  pub sequence : ℕ

pub record Output : Type 0 where
  pub value : ℕ
  pub script : List ℕ

pub record Transaction : Type 0 where
  pub version : ℕ
  pub inputs : List Input
  pub outputs : List Output
  pub locktime : ℕ

abbrev pub Reader : Type 0 → Type 0
Reader A = List ℕ → Option (A × List ℕ)

infixl 5 ◌>>=◌
abbrev pub ◌>>=◌ : {A B : Type 0} → Reader A → (A → Reader B) → Reader B
◌>>=◌ m f bs = elim (m bs) [ none ↦ none | some (a, rest) ↦ f a rest ]

abbrev pub pure : {A : Type 0} → A → Reader A
pure a bs = some (a, bs)

unfoldable pub read_bytes : ℕ → Reader (List ℕ)
read_bytes n bs = if leb n (length bs) then some (take n bs, drop n bs) else none

unfoldable pub read_script : Reader (List ℕ)
read_script = do n ← read_var_int; read_bytes n

unfoldable pub read_input : Reader Input
read_input = do
  hash ← read_bytes 32
  index ← read_le 4
  script ← read_script
  sequence ← read_le 4
  pure (record {
    previous_hash = hash;
    previous_index = index;
    script_sig = script;
    sequence = sequence;
  })

unfoldable pub read_output : Reader Output
read_output = do
  value ← read_le 8
  script ← read_script
  pure (record { value = value; script = script })

-- A given number of items, one after the other.
unfoldable pub read_many : {A : Type 0} → ℕ → Reader A → Reader (List A)
read_many zero item = pure []
read_many (suc n) item = do a ← item; rest ← read_many n item; pure (a ∷ rest)

unfoldable pub read_transaction : Reader Transaction
read_transaction = do
  version ← read_le 4
  inputs ← (read_var_int >>= λ n. read_many n read_input)
  outputs ← (read_var_int >>= λ n. read_many n read_output)
  locktime ← read_le 4
  pure (record { version = version; inputs = inputs; outputs = outputs; locktime = locktime })

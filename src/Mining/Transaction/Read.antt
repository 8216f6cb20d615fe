-- ===== src/Mining/Transaction/Read.antt =====
-- The bytes of a transaction, and that the reader reads them back.
use qbitx_pool.Base.{
  ℕ, suc, ◌^◌, ◌<◌, ◌≡◌, refl, some, List, [], ◌∷◌, ◌++◌, length, length-append, take-length,
  drop-length, le_bytes, arith, All, ap, ◌∙◌,
}
use mathlib.Core.List.{append_assoc}
use qbitx_pool.Mining.Wire.{encode_var_int}
use qbitx_pool.Mining.Wire.Read.{
  read_le, read_var_int, read_le-le_bytes, read_var_int-encode_var_int,
}
use qbitx_pool.Mining.Transaction.{
  Input, Output, Transaction, Reader, ◌>>=◌, read_bytes, read_script, read_input, read_output,
  read_many, read_transaction,
}

unfoldable pub script_bytes : List ℕ → List ℕ
script_bytes script = encode_var_int (length script) ++ script

unfoldable pub input_bytes : Input → List ℕ
unfolding script_bytes
input_bytes i =
    i.previous_hash
    ++ (le_bytes 4 i.previous_index ++ (script_bytes i.script_sig ++ le_bytes 4 i.sequence))

unfoldable pub output_bytes : Output → List ℕ
unfolding script_bytes
output_bytes o = le_bytes 8 o.value ++ script_bytes o.script

unfoldable pub many_bytes : {A : Type 0} → (A → List ℕ) → List A → List ℕ
many_bytes f [] = []
many_bytes f (a ∷ as') = f a ++ many_bytes f as'

unfoldable pub transaction_bytes : Transaction → List ℕ
unfolding input_bytes output_bytes many_bytes
transaction_bytes t =
    le_bytes 4 t.version
    ++ (encode_var_int (length t.inputs)
        ++ (many_bytes input_bytes t.inputs
            ++ (encode_var_int (length t.outputs)
                ++ (many_bytes output_bytes t.outputs ++ le_bytes 4 t.locktime))))

-- The ranges that the format's fields have.
abbrev pub InputFits : Input → Type 0
InputFits i =
    (length i.previous_hash ≡ 32)
    × (i.previous_index < 2 ^ 32)
    × (length i.script_sig < 2 ^ 64)
    × (i.sequence < 2 ^ 32)

abbrev pub OutputFits : Output → Type 0
OutputFits o = (o.value < 2 ^ 64) × (length o.script < 2 ^ 64)

abbrev pub TransactionFits : Transaction → Type 0
TransactionFits t =
    (t.version < 2 ^ 32)
    × (length t.inputs < 2 ^ 64)
    × All InputFits t.inputs
    × (length t.outputs < 2 ^ 64)
    × All OutputFits t.outputs
    × (t.locktime < 2 ^ 32)

read_bytes-append : (xs rest : List ℕ) → read_bytes (length xs) (xs ++ rest) ≡ some (xs, rest)
unfolding read_bytes
read_bytes-append xs rest =
    rw (take-length xs rest, drop-length xs rest) (ground (arith, length-append xs rest))

-- A reader that succeeds hands its result and its rest to what follows.
bind_some :
    {A B : Type 0} (m : Reader A) (f : A → Reader B) (bs : List ℕ) {a : A} {rest : List ℕ}
    → m bs ≡ some (a, rest)
    → (m >>= f) bs ≡ f a rest
bind_some m f bs h = rw (h, ◌>>=◌)

read_script-bytes :
    (s rest : List ℕ) → length s < 2 ^ 64 → read_script (script_bytes s ++ rest) ≡ some (s, rest)
unfolding read_script script_bytes
read_script-bytes s rest h =
    ap read_script (append_assoc (encode_var_int (length s)) s rest)
    ∙ bind_some read_var_int read_bytes _ (read_var_int-encode_var_int (length s) (s ++ rest) h)
    ∙ read_bytes-append s rest

read_output-bytes :
    (o : Output) (rest : List ℕ)
    → OutputFits o
    → read_output (output_bytes o ++ rest) ≡ some (o, rest)
unfolding read_output output_bytes
read_output-bytes o rest h =
    ap read_output (append_assoc (le_bytes 8 o.value) (script_bytes o.script) rest)
    ∙ bind_some (read_le 8) _ _
        (read_le-le_bytes 8 o.value (script_bytes o.script ++ rest) (omega arith))
    ∙ bind_some read_script _ _ (read_script-bytes o.script rest h.1)

read_bytes_32 : (xs rest : List ℕ) → length xs ≡ 32 → read_bytes 32 (xs ++ rest) ≡ some (xs, rest)
read_bytes_32 xs rest h = rw h at (read_bytes-append xs rest)

read_input-bytes :
    (i : Input) (rest : List ℕ) → InputFits i → read_input (input_bytes i ++ rest) ≡ some (i, rest)
unfolding read_input input_bytes
read_input-bytes i rest h =
    let tail = le_bytes 4 i.sequence ++ rest in
    let index = script_bytes i.script_sig ++ tail in
    ap read_input (simp append_assoc)
    ∙ bind_some (read_bytes 32) _ (i.previous_hash ++ (le_bytes 4 i.previous_index ++ index))
        (read_bytes_32 i.previous_hash (le_bytes 4 i.previous_index ++ index) h.0)
    ∙ bind_some (read_le 4) _ (le_bytes 4 i.previous_index ++ index)
        (read_le-le_bytes 4 i.previous_index index (omega arith))
    ∙ bind_some read_script _ index (read_script-bytes i.script_sig tail h.2)
    ∙ bind_some (read_le 4) _ tail (read_le-le_bytes 4 i.sequence rest (omega arith))

module _ {A : Type 0} (item : Reader A) (bytes : A → List ℕ) (Fits : A → Type 0)
    (reads : (a : A) (rest : List ℕ) → Fits a → item (bytes a ++ rest) ≡ some (a, rest)) where
  read_many-bytes :
      (l : List A) (rest : List ℕ)
      → All Fits l
      → read_many (length l) item (many_bytes bytes l ++ rest) ≡ some (l, rest)
  unfolding read_many many_bytes
  read_many-bytes [] rest h = refl
  read_many-bytes (a ∷ l) rest h =
      ap (read_many (suc (length l)) item) (append_assoc (bytes a) (many_bytes bytes l) rest)
      ∙ bind_some item _ _ (reads a (many_bytes bytes l ++ rest) h.0)
      ∙ bind_some (read_many (length l) item) _ _ (read_many-bytes l rest h.1)

  read_counted :
      (l : List A) (rest : List ℕ)
      → length l < 2 ^ 64
      → All Fits l
      → (read_var_int >>= λ n. read_many n item)
          (encode_var_int (length l) ++ (many_bytes bytes l ++ rest))
        ≡ some (l, rest)
  read_counted l rest fits h =
      bind_some read_var_int _ _
        (read_var_int-encode_var_int (length l) (many_bytes bytes l ++ rest) fits)
      ∙ read_many-bytes l rest h

-- Every transaction whose fields are in range is read back from its bytes.
pub read_transaction-bytes :
    (t : Transaction) (rest : List ℕ)
    → TransactionFits t
    → read_transaction (transaction_bytes t ++ rest) ≡ some (t, rest)
unfolding read_transaction transaction_bytes
read_transaction-bytes t rest h =
    let lock = le_bytes 4 t.locktime ++ rest in
    let outs = encode_var_int (length t.outputs) ++ (many_bytes output_bytes t.outputs ++ lock) in
    let ins = encode_var_int (length t.inputs) ++ (many_bytes input_bytes t.inputs ++ outs) in
    ap read_transaction (simp append_assoc)
    ∙ bind_some (read_le 4) _ (le_bytes 4 t.version ++ ins)
        (read_le-le_bytes 4 t.version ins (omega arith))
    ∙ bind_some (read_var_int >>= λ n. read_many n read_input) _ ins (
        read_counted read_input input_bytes InputFits read_input-bytes t.inputs outs (omega arith)
          h.2)
    ∙ bind_some (read_var_int >>= λ n. read_many n read_output) _ outs (
        read_counted read_output output_bytes OutputFits read_output-bytes t.outputs lock
          (omega arith) h.4)
    ∙ bind_some (read_le 4) _ lock (read_le-le_bytes 4 t.locktime rest (omega arith))

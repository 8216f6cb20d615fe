-- ===== src/Mining/Wire/Read.antt =====
-- A reader of Bitcoin's CompactSize numbers, written from the format's description, and what it
-- reads from what encodeVarInt wrote.
use qbitx_pool.Base.{
  ℕ, zero, suc, ◌+◌, ◌*◌, ◌/◌, ◌%◌, ◌^◌, ◌<◌, ◌≡◌, ltb, ◌==◌, if◌then◌else◌, Option, none, some,
  List, [], ◌∷◌, ◌++◌, length, le_bytes, length-le_bytes, All, IsByte, le_bytes-IsByte, arith,
}
use qbitx_pool.Mining.Wire.{encode_var_int}

abbrev pub push_byte : ℕ → Option (ℕ × List ℕ) → Option (ℕ × List ℕ)
push_byte b none = none
push_byte b (some (v, rest)) = some (b + 256 * v, rest)

-- A little-endian number of a given width.
unfoldable pub read_le : ℕ → List ℕ → Option (ℕ × List ℕ)
read_le zero bs = some (0, bs)
read_le (suc n) [] = none
read_le (suc n) (b ∷ bs) = push_byte b (read_le n bs)

unfoldable pub read_var_int : List ℕ → Option (ℕ × List ℕ)
unfolding read_le
read_var_int [] = none
read_var_int (b ∷ bs) =
    if ltb b 0xfd
    then some (b, bs)
    else if b == 0xfd
    then read_le 2 bs
    else if b == 0xfe
    then read_le 4 bs
    else read_le 8 bs

pub read_le-le_bytes :
    (n v : ℕ) (rest : List ℕ) → v < 256 ^ n → read_le n (le_bytes n v ++ rest) ≡ some (v, rest)
unfolding read_le le_bytes
read_le-le_bytes zero v rest h = ground arith
read_le-le_bytes (suc n) v rest h = ground (arith, read_le-le_bytes n (v / 256) rest (div_lt n v h))
  where
    div_lt : (n v : ℕ) → v < 256 ^ suc n → v / 256 < 256 ^ n
    div_lt n v h = omega arith

-- Every uint64 is read back from its encoding, whatever follows it.
pub read_var_int-encode_var_int :
    (v : ℕ) (rest : List ℕ) → v < 2 ^ 64 → read_var_int (encode_var_int v ++ rest) ≡ some (v, rest)
unfolding read_var_int encode_var_int
read_var_int-encode_var_int v rest h = ground (
  arith,
  read_le-le_bytes 2 (v % 2 ^ 16) rest (omega arith),
  read_le-le_bytes 4 (v % 2 ^ 32) rest (omega arith),
  read_le-le_bytes 8 v rest (omega arith),
)

-- The encoding is the shortest of the format's four: its width is given by the size of the number.
pub length-encode_var_int :
    (v : ℕ)
    → length (encode_var_int v)
      ≡ (if ltb v 0xfd then 1 else if ltb v (2 ^ 16) then 3 else if ltb v (2 ^ 32) then 5 else 9)
unfolding encode_var_int
length-encode_var_int v =
    ground
      (arith, length-le_bytes 2 (v % 2 ^ 16), length-le_bytes 4 (v % 2 ^ 32), length-le_bytes 8 v)

pub encode_var_int-IsByte : (v : ℕ) → All IsByte (encode_var_int v)
unfolding encode_var_int
encode_var_int-IsByte v =
    ground
      (arith, le_bytes-IsByte 2 (v % 2 ^ 16), le_bytes-IsByte 4 (v % 2 ^ 32), le_bytes-IsByte 8 v)

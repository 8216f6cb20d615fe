-- ===== src/Mining/Wire.antt =====
-- The byte encodings of internal/mining/mining.go: encodeVarInt, appendLE32, appendLE64 and
-- encodeHeight. A uint64 is a number below 2 ^ 64, an int64 an integer with its pattern.
pub mod Read
pub mod Height
use qbitx_pool.Base.{
  ℕ, zero, suc, ◌+◌, ◌/◌, ◌%◌, ◌^◌, ltb, leb, ◌==◌, if◌then◌else◌, Bool, true, false, List, [], ◌∷◌,
  ◌++◌, ℤ, pos, negsuc, ◌+ℤ◌, leb_ℤ, pattern64, le_bytes, length,
}

-- `binary.LittleEndian.PutUint16(b[1:], uint16(v))` keeps the low bytes of `v`, as `le_bytes` does.
unfoldable pub encode_var_int : ℕ → List ℕ
encode_var_int v =
    if ltb v 0xfd
    then (v % 256) ∷ []
    else if leb v 0xffff
    then 0xfd ∷ le_bytes 2 (v % 2 ^ 16)
    else if leb v 0xffffffff
    then 0xfe ∷ le_bytes 4 (v % 2 ^ 32)
    else 0xff ∷ le_bytes 8 v

unfoldable pub append_le32 : List ℕ → ℕ → List ℕ
append_le32 dst v = dst ++ le_bytes 4 v

-- `uint64(v)` is the bit pattern of an int64.
unfoldable pub append_le64 : List ℕ → ℤ → List ℕ
append_le64 dst v = dst ++ le_bytes 8 (pattern64 v)

-- `for v > 0 { buf = append(buf, byte(v&0xff)); v >>= 8 }`. An int64 is below 256 ^ 8, so eight
-- rounds are enough.
unfoldable pub height_loop : ℕ → List ℕ → ℕ → List ℕ
height_loop zero buf v = buf
height_loop (suc fuel) buf v =
    let rest = height_loop fuel (buf ++ ((v % 256) ∷ [])) (v / 256) in if ltb 0 v then rest else buf

-- `buf[len(buf)-1]&0x80 != 0`
abbrev pub last_has_sign : List ℕ → Bool
last_has_sign [] = false
last_has_sign (b ∷ []) = leb 128 (b % 256)
last_has_sign (a ∷ b ∷ bs) = last_has_sign (b ∷ bs)

abbrev pub close_height : List ℕ → List ℕ
close_height buf = if last_has_sign buf then buf ++ (0 ∷ []) else buf

abbrev pub height_push : List ℕ → List ℕ
height_push buf = (length buf % 256) ∷ buf

abbrev pub height_digits : ℤ → ℕ
height_digits (pos n) = n
height_digits (negsuc n) = 0

-- `byte(0x50 + h)` for the heights up to 16, else a push of the little-endian digits.
unfoldable pub encode_height : ℤ → List ℕ
unfolding height_loop ◌+ℤ◌
encode_height h =
    if leb_ℤ h (pos 16)
    then (pattern64 (pos 0x50 +ℤ h) % 256) ∷ []
    else height_push (close_height (height_loop 8 [] (height_digits h)))

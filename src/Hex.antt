-- ===== src/Hex.antt =====
-- encoding/hex, as internal/mining, internal/share and internal/job call it: EncodeToString, and
-- DecodeString, which returns the bytes it decoded before an error together with the error.
pub mod RoundTrip
use qbitx_pool.Base.{
  ℕ, ◌+◌, ◌-◌, ◌*◌, ◌/◌, ◌%◌, ltb, leb, if◌then◌else◌, ◌&&◌, Option, none, some, List, [], ◌∷◌,
  Text, reverse, le_bytes,
}

pub data HexError : Type 0 where
  odd_length : HexError
  invalid_byte : ℕ → HexError

unfoldable pub digit : ℕ → ℕ
digit n = if ltb n 10 then 48 + n else 87 + n

unfoldable pub nibble : ℕ → Option ℕ
nibble c =
    if leb b'0' c && leb c b'9'
    then some (c - 48)
    else if leb b'a' c && leb c b'f'
    then some (c - 87)
    else if leb b'A' c && leb c b'F'
    then some (c - 55)
    else none

unfoldable pub encode : List ℕ → Text
unfolding digit
encode [] = []
encode (b ∷ bs) = digit (b / 16) ∷ digit (b % 16) ∷ encode bs

-- What two hexadecimal characters add to the rest of a decoded string.
abbrev pub decode_pair :
    ℕ → ℕ → Option ℕ → Option ℕ → List ℕ × Option HexError → List ℕ × Option HexError
decode_pair a b none y rest = ([], some (invalid_byte a))
decode_pair a b (some x) none rest = ([], some (invalid_byte b))
decode_pair a b (some x) (some y) rest = ((x * 16 + y) ∷ rest.0, rest.1)

abbrev last_error : ℕ → Option ℕ → Option HexError
last_error a none = some (invalid_byte a)
last_error a (some x) = some odd_length

unfoldable pub decode : Text → List ℕ × Option HexError
unfolding nibble
decode [] = ([], none)
decode (a ∷ []) = ([], last_error a (nibble a))
decode (a ∷ b ∷ r) = decode_pair a b (nibble a) (nibble b) (decode r)

-- fmt.Sprintf of a uint32 with "%08x": eight digits, the most significant first.
unfoldable pub digits32 : ℕ → Text
unfolding encode
digits32 n = encode (reverse (le_bytes 4 n))

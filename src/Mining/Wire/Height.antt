-- ===== src/Mining/Wire/Height.antt =====
-- The BIP 34 push that encodeHeight writes, against a reader of pushed script numbers.
use qbitx_pool.Base.{
  All-append, leb_ℤ, ℕ, zero, suc, ◌+◌, ◌-◌, ◌*◌, ◌/◌, ◌%◌, ◌^◌, ◌≤◌, ◌<◌, ◌≡◌, refl, ltb, leb,
  ◌&&◌, if◌then◌else◌, Option, none, some, false, List, [], ◌∷◌, ◌++◌, length, length-append, take,
  drop, take-length, drop-length, le_value, All, IsByte, arith, ℤ, pos, sub_ℕ, ap, inl, inr, ◌∙◌,
  Bool-cases, sym,
}
use native.Mathlib.Nat.{pow-suc}
use mathlib.Core.List.{append_assoc, append-nil}
use qbitx_pool.Mining.Wire.{
  height_loop, height_digits, encode_height, last_has_sign, close_height, height_push,
}

-- A script number: little-endian, the top bit of the last byte is the sign.
unfoldable pub script_num : List ℕ → ℤ
script_num bs =
    if leb (256 ^ length bs) (2 * le_value bs)
    then sub_ℕ 0 (le_value bs - 256 ^ length bs / 2)
    else pos (le_value bs)

abbrev pushed : ℕ → List ℕ → Option (ℤ × List ℕ)
pushed n bs = if leb n (length bs) then some (script_num (take n bs), drop n bs) else none

-- The first push of a scriptSig: one of the opcodes for 1 to 16, or a count and that many bytes.
unfoldable pub read_height : List ℕ → Option (ℤ × List ℕ)
unfolding script_num
read_height [] = none
read_height (b ∷ bs) =
    if leb 0x51 b && leb b 0x60
    then some (pos (b - 0x50), bs)
    else if leb b 75
    then pushed b bs
    else none

-- The digits that the loop appends, by recursion on the rounds.
digits : ℕ → ℕ → List ℕ
digits zero v = []
digits (suc k) v = let rest = digits k (v / 256) in if ltb 0 v then (v % 256) ∷ rest else []

height_loop-digits : (k : ℕ) (buf : List ℕ) (v : ℕ) → height_loop k buf v ≡ buf ++ digits k v
unfolding height_loop digits
height_loop-digits zero buf v = sym (append-nil buf)
height_loop-digits (suc k) buf v = elim (Bool-cases (ltb 0 v)) [
  | inl more ↦ rw more (
      height_loop-digits k (buf ++ ((v % 256) ∷ [])) (v / 256)
      ∙ append_assoc buf ((v % 256) ∷ []) (digits k (v / 256)))
  | inr done ↦ rw done (sym (append-nil buf))
]

le_value-digits : (k v : ℕ) → v < 256 ^ k → le_value (digits k v) ≡ v
unfolding le_value digits
le_value-digits zero v h = omega arith
le_value-digits (suc k) v h = ground (arith, le_value-digits k (v / 256) (omega arith))

digits-IsByte : (k v : ℕ) → All IsByte (digits k v)
unfolding digits
digits-IsByte zero v = tt
digits-IsByte (suc k) v = ground (arith, digits-IsByte k (v / 256))

length-digits : (k v : ℕ) → length (digits k v) ≤ k
unfolding digits
length-digits zero v = omega arith
length-digits (suc k) v = ground (arith, length-digits k (v / 256))

le_value-lt : (bs : List ℕ) → All IsByte bs → le_value bs < 256 ^ length bs
unfolding le_value
le_value-lt [] h = omega arith
le_value-lt (b ∷ bs) h = omega (arith, le_value-lt bs h.1, pow-suc 256 (length bs))

-- Without the sign bit on its last byte a byte string is less than half of its range.
last_has_sign_lem :
    (bs : List ℕ) → All IsByte bs → last_has_sign bs ≡ false → 2 * le_value bs < 256 ^ length bs
unfolding le_value
last_has_sign_lem [] h e = omega arith
last_has_sign_lem (b ∷ []) h e = ground arith
last_has_sign_lem (a ∷ b ∷ bs) h e = omega (
  arith,
  last_has_sign_lem (b ∷ bs) h.1 e,
  pow-suc 256 (length (b ∷ bs)),
  pow-suc 256 (length bs),
)

le_value-zero : (bs : List ℕ) → le_value (bs ++ (0 ∷ [])) ≡ le_value bs
unfolding le_value
le_value-zero [] = refl
le_value-zero (b ∷ bs) = omega (arith, le_value-zero bs)

length-zero : (bs : List ℕ) → length (bs ++ (0 ∷ [])) ≡ suc (length bs)
length-zero bs = omega (arith, length-append bs (0 ∷ []))

-- Closing a height leaves its value, and the number that a script reads is not negative.
close_height_lem :
    (bs : List ℕ)
    → All IsByte bs
    → (le_value (close_height bs) ≡ le_value bs)
      × (2 * le_value (close_height bs) < 256 ^ length (close_height bs))
      × (length (close_height bs) ≤ suc (length bs))
close_height_lem bs h = elim (Bool-cases (last_has_sign bs)) [
  | inl s ↦
      rw (s, le_value-zero bs, length-zero bs)
        (refl, omega (arith, le_value-lt bs h, pow-suc 256 (length bs)), omega arith)
  | inr s ↦ rw s (refl, last_has_sign_lem bs h s, omega arith)
]

script_num-close_height :
    (bs : List ℕ) → All IsByte bs → script_num (close_height bs) ≡ pos (le_value bs)
unfolding script_num
script_num-close_height bs h = ground (arith, close_height_lem bs h)

pushed-append : (xs ys : List ℕ) → pushed (length xs) (xs ++ ys) ≡ some (script_num xs, ys)
pushed-append xs ys =
    rw (take-length xs ys, drop-length xs ys) (ground (arith, length-append xs ys))

abbrev long_push : ℕ → List ℕ
long_push h = close_height (height_loop 8 [] h)

long_push_lem :
    (h : ℕ) → h < 2 ^ 63 → (length (long_push h) ≤ 9) × (script_num (long_push h) ≡ pos h)
long_push_lem h hi = rw (height_loop-digits 8 [] h) (
  omega (arith, length-digits 8 h, close_height_lem (digits 8 h) (digits-IsByte 8 h)),
  script_num-close_height (digits 8 h) (digits-IsByte 8 h)
      ∙ ap pos (le_value-digits 8 h (omega arith)),
)

read_long :
    (bs rest : List ℕ)
    → length bs ≤ 9
    → read_height (height_push bs ++ rest) ≡ some (script_num bs, rest)
unfolding read_height
read_long bs rest h = ground (arith, pushed-append bs rest)

-- A block height of 1 or more, whatever int64 it is, is read back from the bytes that
-- encodeHeight writes, and the reader goes on behind them.
pub read_height-encode_height :
    (h : ℕ) (rest : List ℕ)
    → 1 ≤ h
    → h < 2 ^ 63
    → read_height (encode_height (pos h) ++ rest) ≡ some (pos h, rest)
unfolding encode_height
read_height-encode_height h rest lo hi = elim (Bool-cases (leb (h + 0) (16 + 0))) [
  | inl short ↦ rw short (unfold read_height in ground arith)
  | inr long ↦
      rw long
        (ground (arith, read_long (long_push h) rest (long_push_lem h hi).0, long_push_lem h hi))
]

pub encode_height_shape : (h : ℤ) → All IsByte (encode_height h) × (length (encode_height h) ≤ 10)
unfolding encode_height
encode_height_shape h = elim (Bool-cases (leb_ℤ h (pos 16))) [
  | inl short ↦ rw short (omega arith)
  | inr long ↦ rw long (
      let buf = height_loop 8 [] (height_digits h) in
      push_shape (close_height buf) (close_shape buf (loop_shape (height_digits h))))
]
  where
    loop_shape : (v : ℕ) → All IsByte (height_loop 8 [] v) × (length (height_loop 8 [] v) ≤ 8)
    loop_shape v = rw (height_loop-digits 8 [] v) (digits-IsByte 8 v, length-digits 8 v)

    close_shape :
        (bs : List ℕ)
        → All IsByte bs × (length bs ≤ 8)
        → All IsByte (close_height bs) × (length (close_height bs) ≤ 9)
    close_shape bs h = elim (Bool-cases (last_has_sign bs)) [
      | inl s ↦
          rw (s, length-zero bs) (All-append IsByte bs (0 ∷ []) h.0 (omega arith), omega arith)
      | inr s ↦ rw s (h.0, omega arith)
    ]

    push_shape :
        (bs : List ℕ)
        → All IsByte bs × (length bs ≤ 9)
        → All IsByte (height_push bs) × (length (height_push bs) ≤ 10)
    push_shape bs h = ((omega arith, h.0), omega arith)

-- ===== src/Hex/RoundTrip.antt =====
-- What DecodeString reads from what EncodeToString wrote, and how both change the length.
use qbitx_pool.Base.{
  Option-cases, inl, inr, IsByte, Text, ◌≤◌, ℕ, ◌*◌, ◌/◌, ◌%◌, ◌<◌, ◌≡◌, refl, none, some, List, [],
  ◌∷◌, length, All, arith,
}
use qbitx_pool.Hex.{digit, nibble, encode, decode}

pub nibble-digit : (n : ℕ) → n < 16 → nibble (digit n) ≡ some n
unfolding nibble digit
nibble-digit n h = ground arith

-- Decoding the encoding of any bytes gives them back, with no error.
pub decode-encode : (bs : List ℕ) → All (λ b. b < 256) bs → decode (encode bs) ≡ (bs, none)
unfolding decode encode
decode-encode [] h = refl
decode-encode (b ∷ bs) h = ground (
  arith,
  nibble-digit (b / 16) (omega arith),
  nibble-digit (b % 16) (omega arith),
  decode-encode bs h.1,
)

pub length-encode : (bs : List ℕ) → length (encode bs) ≡ 2 * length bs
unfolding encode
length-encode [] = refl
length-encode (b ∷ bs) = omega (arith, length-encode bs)

nibble-lt : (c x : ℕ) → nibble c ≡ some x → x < 16
unfolding nibble
nibble-lt c x e = ground arith

-- Whatever DecodeString is given, it returns bytes, and not more than it was given characters.
pub decode-IsByte : (s : Text) → All IsByte (decode s).0
unfolding decode
decode-IsByte [] = tt
decode-IsByte (a ∷ []) = tt
decode-IsByte (a ∷ b ∷ r) = elim (Option-cases (nibble a)) [
  | inl e ↦ rw e tt
  | inr (x, e) ↦ elim (Option-cases (nibble b)) [
    | inl k ↦ rw (e, k) tt
    | inr (y, k) ↦ rw (e, k) (omega (arith, nibble-lt a x e, nibble-lt b y k), decode-IsByte r)
  ]
]

pub length-decode : (s : Text) → length (decode s).0 ≤ length s
unfolding decode
length-decode [] = omega arith
length-decode (a ∷ []) = omega arith
length-decode (a ∷ b ∷ r) = elim (Option-cases (nibble a)) [
  | inl e ↦ rw e (omega arith)
  | inr (x, e) ↦ elim (Option-cases (nibble b)) [
    | inl k ↦ rw (e, k) (omega arith)
    | inr (y, k) ↦ rw (e, k) (omega (arith, length-decode r))
  ]
]

-- ===== src/Mining/Merkle/Header.antt =====
-- The block header and the display form of hashes.
use qbitx_pool.Base.{
  ℕ, ◌+◌, ◌^◌, ◌<◌, ◌≡◌, refl, List, [], ◌∷◌, ◌++◌, length, length-append, take, drop, take-length,
  le_bytes, length-le_bytes, le_value, le_value-le_bytes, ℤ, pattern64, arith, All, IsByte, reverse,
  ap, ◌∙◌, sym,
}
use native.Mathlib.Nat.{zero-add, suc-add}
use mathlib.Core.List.{reverse-reverse, reverse-cons, append-nil}
use qbitx_pool.Base.Results.{ok, ◌>>=◌}
use qbitx_pool.Hex
use qbitx_pool.Hex.RoundTrip.{decode-encode}
use qbitx_pool.Mining.Reverse.{reverse_bytes, reverse_bytes-reverse}
use qbitx_pool.Mining.Base58.Bytes.{All-reverse}
use qbitx_pool.Mining.Merkle.{
  sized, hash_to_string, hex_to_hash32, hex_to_hash32_rev, build_block_header,
}

-- The field of a header at an offset.
unfoldable pub field : ℕ → ℕ → List ℕ → List ℕ
field offset width header = take width (drop offset header)

-- A field behind bytes that are skipped, and one at the front.
field_skip :
    (xs r : List ℕ) (m n off k : ℕ)
    → length xs ≡ n
    → m ≡ n + off
    → field m k (xs ++ r) ≡ field off k r
unfolding field
field_skip xs r m n off k hx hm =
    ap (take k) (ap (λ i. drop i (xs ++ r)) (hm ∙ ap (λ i. i + off) (sym hx)) ∙ drop_past xs r off)
  where
    drop_past : (xs r : List ℕ) (off : ℕ) → drop (length xs + off) (xs ++ r) ≡ drop off r
    drop_past [] r off = rw zero-add
    drop_past (x ∷ xs) r off = rw suc-add (drop_past xs r off)

field_front : (ys zs : List ℕ) (k : ℕ) → length ys ≡ k → field 0 k (ys ++ zs) ≡ ys
unfolding field
field_front ys zs k hy = rw (← hy) (take-length ys zs)

field_end : (ys : List ℕ) (k : ℕ) → length ys ≡ k → field 0 k ys ≡ ys
field_end ys k hy = ap (field 0 k) (sym (append-nil ys)) ∙ field_front ys [] k hy

-- A header is 80 bytes, and every field stands at its offset: the version at 0, the two hashes at 4
-- and 36, the time at 68, the bits at 72 and the nonce at 76.
-- Conditions: the hashes are 32 bytes, and time, bits and nonce are 32-bit numbers.
pub build_block_header_fields :
    (version : ℤ) (prev root : List ℕ) (timestamp bits nonce : ℕ)
    → length prev ≡ 32
    → length root ≡ 32
    → timestamp < 2 ^ 32
    → bits < 2 ^ 32
    → nonce < 2 ^ 32
    → let header = build_block_header version prev root timestamp bits nonce in
      (length header ≡ 80)
      × (field 0 4 header ≡ le_bytes 4 (pattern64 version))
      × (field 4 32 header ≡ prev)
      × (field 36 32 header ≡ root)
      × (le_value (field 68 4 header) ≡ timestamp)
      × (le_value (field 72 4 header) ≡ bits)
      × (le_value (field 76 4 header) ≡ nonce)
unfolding build_block_header
build_block_header_fields version prev root timestamp bits nonce hp hr ht hb hn =
    let v = le_bytes 4 (pattern64 version) in
    let t = le_bytes 4 timestamp in
    let b = le_bytes 4 bits in
    let n = le_bytes 4 nonce in
    let at4 = prev ++ (root ++ (t ++ (b ++ n))) in
    let at36 = root ++ (t ++ (b ++ n)) in
    let at68 = t ++ (b ++ n) in
    let past4 = λ (m off k : ℕ) (e : m ≡ 4 + off).
      field_skip v at4 m 4 off k (length-le_bytes 4 (pattern64 version)) e in
    let past36 = λ (m off k : ℕ) (e : m ≡ 32 + off). field_skip prev at36 m 32 off k hp e in
    let past68 = λ (m off k : ℕ) (e : m ≡ 32 + off). field_skip root at68 m 32 off k hr e in
    let past72 = λ (m off k : ℕ) (e : m ≡ 4 + off).
      field_skip t (b ++ n) m 4 off k (length-le_bytes 4 timestamp) e in
    (
      unfold le_bytes in omega (arith, length-append prev at36, length-append root at68),
      field_front v at4 4 (length-le_bytes 4 (pattern64 version)),
      past4 4 0 32 refl ∙ field_front prev at36 32 hp,
      past4 36 32 32 refl ∙ past36 32 0 32 refl ∙ field_front root at68 32 hr,
      ap le_value (
            past4 68 64 4 refl
            ∙ past36 64 32 4 refl
            ∙ past68 32 0 4 refl
            ∙ field_front t (b ++ n) 4 (length-le_bytes 4 timestamp))
          ∙ le_value-le_bytes 4 timestamp (omega arith),
      ap le_value (
            past4 72 68 4 refl
            ∙ past36 68 36 4 refl
            ∙ past68 36 4 4 refl
            ∙ past72 4 0 4 refl
            ∙ field_front b n 4 (length-le_bytes 4 bits))
          ∙ le_value-le_bytes 4 bits (omega arith),
      ap le_value (
            past4 76 72 4 refl
            ∙ past36 72 40 4 refl
            ∙ past68 40 8 4 refl
            ∙ past72 8 4 4 refl
            ∙ field_skip b n 4 4 0 4 (length-le_bytes 4 bits) refl
            ∙ field_end n 4 (length-le_bytes 4 nonce))
          ∙ le_value-le_bytes 4 nonce (omega arith),
    )

pub length-reverse : (xs : List ℕ) → length (reverse xs) ≡ length xs
length-reverse [] = refl
length-reverse (x ∷ xs) =
    ap length (reverse-cons x xs)
    ∙ omega (arith, length-append (reverse xs) (x ∷ []), length-reverse xs)

-- Reading back the display form of a hash of 32 bytes gives the hash.
pub hex_to_hash32_rev-hash_to_string :
    (h : List ℕ) → All IsByte h → length h ≡ 32 → hex_to_hash32_rev (hash_to_string h) ≡ ok h
unfolding hex_to_hash32_rev hash_to_string
hex_to_hash32_rev-hash_to_string h hb hl =
    ap (λ d. sized d >>= λ h. ok (reverse_bytes h))
      (ap (λ r. Hex.decode (Hex.encode r)) (reverse_bytes-reverse h)
        ∙ decode-encode (reverse h) (All-reverse h hb))
    ∙ rw (length-reverse h ∙ hl) (ap ok (reverse_bytes-reverse (reverse h) ∙ reverse-reverse h))

-- HexToHash32 gives the bytes in the order in which they are displayed.
pub hex_to_hash32-hash_to_string :
    (h : List ℕ) → All IsByte h → length h ≡ 32 → hex_to_hash32 (hash_to_string h) ≡ ok (reverse h)
unfolding hex_to_hash32 hash_to_string
hex_to_hash32-hash_to_string h hb hl =
    ap sized (
      ap (λ r. Hex.decode (Hex.encode r)) (reverse_bytes-reverse h)
      ∙ decode-encode (reverse h) (All-reverse h hb))
    ∙ rw (length-reverse h ∙ hl) refl

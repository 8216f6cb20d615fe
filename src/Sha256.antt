-- ===== src/Sha256.antt =====
-- crypto/sha256 of the Go standard library, which internal/mining/mining.go hashes with: FIPS 180-4
-- over 32-bit words, so that the hashes of the model can be computed.
mod Words
mod Tests
use qbitx_pool.Base.{
  ℕ, zero, suc, ◌+◌, ◌-◌, ◌*◌, ◌/◌, ◌%◌, ◌^◌, ◌≡◌, refl, List, [], ◌∷◌, ◌++◌, length, take, drop,
  replicate, reverse, le_bytes, length-le_bytes, length-append, ap, ◌∙◌, arith, All, IsByte,
  le_bytes-IsByte, All-append,
}
use qbitx_pool.Sha256.Words.{add32, rotr, not32, and32, xor32, shr, round_constants}

-- The eight working variables.
pub record State : Type 0 where
  pub a : ℕ
  pub b : ℕ
  pub c : ℕ
  pub d : ℕ
  pub e : ℕ
  pub f : ℕ
  pub g : ℕ
  pub h : ℕ

initial : State
initial = record {
  a = 0x6a09e667;
  b = 0xbb67ae85;
  c = 0x3c6ef372;
  d = 0xa54ff53a;
  e = 0x510e527f;
  f = 0x9b05688c;
  g = 0x1f83d9ab;
  h = 0x5be0cd19;
}

-- One round, with a word of the schedule and a constant.
round : State → ℕ → ℕ → State
unfolding add32 rotr not32 and32 xor32
round s w k =
    let s1 = xor32 (xor32 (rotr 6 s.e) (rotr 11 s.e)) (rotr 25 s.e) in
    let ch = xor32 (and32 s.e s.f) (and32 (not32 s.e) s.g) in
    let t1 = add32 (add32 (add32 (add32 s.h s1) ch) k) w in
    let s0 = xor32 (xor32 (rotr 2 s.a) (rotr 13 s.a)) (rotr 22 s.a) in
    let maj = xor32 (xor32 (and32 s.a s.b) (and32 s.a s.c)) (and32 s.b s.c) in
    record {
      a = add32 t1 (add32 s0 maj);
      b = s.a;
      c = s.b;
      d = s.c;
      e = add32 s.d t1;
      f = s.e;
      g = s.f;
      h = s.g;
    }

abbrev at : List ℕ → ℕ → ℕ
at [] i = 0
at (x ∷ xs) zero = x
at (x ∷ xs) (suc i) = at xs i

-- The word that follows sixteen words of the schedule.
next_word : List ℕ → ℕ
unfolding add32 rotr xor32 shr
next_word w =
    let s0 = xor32 (xor32 (rotr 7 (at w 1)) (rotr 18 (at w 1))) (shr 3 (at w 1)) in
    let s1 = xor32 (xor32 (rotr 17 (at w 14)) (rotr 19 (at w 14))) (shr 10 (at w 14)) in
    add32 (add32 (add32 (at w 0) s0) (at w 9)) s1

-- The rounds over the constants, with the sixteen words that are due.
rounds : List ℕ → List ℕ → State → State
unfolding round next_word
rounds [] w s = s
rounds (k ∷ ks) w s = rounds ks (drop 1 w ++ (next_word w ∷ [])) (round s (at w 0) k)

add_state : State → State → State
unfolding add32
add_state s t = record {
  a = add32 s.a t.a;
  b = add32 s.b t.b;
  c = add32 s.c t.c;
  d = add32 s.d t.d;
  e = add32 s.e t.e;
  f = add32 s.f t.f;
  g = add32 s.g t.g;
  h = add32 s.h t.h;
}

-- Big-endian words of a block.
words : List ℕ → List ℕ
words (x ∷ y ∷ z ∷ w ∷ rest) = (((x * 256 + y) * 256 + z) * 256 + w) ∷ words rest
words _ = []

compress : State → List ℕ → State
unfolding rounds add_state words round_constants
compress s block = add_state s (rounds round_constants (words block) s)

-- `n` blocks of 64 bytes.
blocks : ℕ → List ℕ → State → State
unfolding compress
blocks zero bytes s = s
blocks (suc n) bytes s = blocks n (drop 64 bytes) (compress s (take 64 bytes))

be_bytes : ℕ → ℕ → List ℕ
be_bytes n v = reverse (le_bytes n v)

-- A one bit, zeros up to 56 modulo 64, and the length in bits.
pad : List ℕ → List ℕ
unfolding be_bytes
pad m =
    m ++ (0x80 ∷ (replicate ((119 - length m % 64) % 64) 0 ++ be_bytes 8 (length m * 8 % 2 ^ 64)))

digest : State → List ℕ
unfolding be_bytes
digest s =
    be_bytes 4 s.a
    ++ (be_bytes 4 s.b
        ++ (be_bytes 4 s.c
            ++ (be_bytes 4 s.d
                ++ (be_bytes 4 s.e ++ (be_bytes 4 s.f ++ (be_bytes 4 s.g ++ be_bytes 4 s.h))))))

unfoldable pub sum256 : List ℕ → List ℕ
unfolding blocks initial pad digest
sum256 m = digest (blocks (length (pad m) / 64) (pad m) initial)

be_bytes_shape : (v : ℕ) → (length (be_bytes 4 v) ≡ 4) × All IsByte (be_bytes 4 v)
unfolding be_bytes le_bytes
be_bytes_shape v = (refl, omega arith)

-- A digest is 32 bytes.
pub sum256_shape : (m : List ℕ) → (length (sum256 m) ≡ 32) × All IsByte (sum256 m)
unfolding sum256 le_bytes
sum256_shape m = digest_shape (blocks (length (pad m) / 64) (pad m) initial)
  where
    digest_shape : (s : State) → (length (digest s) ≡ 32) × All IsByte (digest s)
    digest_shape s = (refl, omega arith)

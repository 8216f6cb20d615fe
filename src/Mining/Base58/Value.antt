-- ===== src/Mining/Base58/Value.antt =====
-- base58Decode as arithmetic: the bytes that it returns, with the four it strips, write the number
-- that the characters write in base 58.
use qbitx_pool.Base.{
  ℕ, zero, suc, ◌+◌, ◌-◌, ◌*◌, ◌/◌, ◌%◌, ◌^◌, ◌≤◌, ◌≡◌, refl, ltb, if◌then◌else◌, Option, none,
  some, List, [], ◌∷◌, ◌++◌, length, length-append, take, drop, take-append-drop, length-take,
  replicate, Text, le_value, le_value-append, reverse, arith, Bool-cases, Option-cases, inl, inr,
  ap, sym, Bool, ◌∙◌,
}
use mathlib.Core.List.{reverse-reverse, reverse-cons, reverse-append}
use mathlib.Core.Option
use native.Mathlib.Nat.{pow-suc, div-add-mod}
use native.Mathlib.Numerals.{add-one}
use qbitx_pool.Mining.Reverse.{reverse_bytes, reverse_bytes-reverse}
use qbitx_pool.Mining.Base58.{
  alphabet, index_of, mul_add, carry_loop, add_digit, digits_loop, leading_ones, strip_checksum,
  finish, base58_decode,
}

abbrev times58 : Option ℕ → (ℕ → Option ℕ) → Option ℕ
times58 none k = none
times58 (some d) k = k d

-- The number that a text writes in base 58 behind the number `n`; `none` at a foreign character.
unfoldable pub number : Text → ℕ → Option ℕ
number [] n = some n
number (c ∷ s) n = times58 (index_of c 0 alphabet) (λ d. number s (n * 58 + d))

mul_add_lem :
    (bs : List ℕ) (carry : ℕ)
    → le_value (mul_add bs carry).0 + 256 ^ length (mul_add bs carry).0 * (mul_add bs carry).1
      ≡ le_value bs * 58 + carry
unfolding mul_add le_value
mul_add_lem [] carry = omega arith
mul_add_lem (b ∷ bs) carry =
    let t = carry + b * 58 in
    omega (
      arith,
      mul_add_lem bs (t / 256),
      ap (λ (p : ℕ). p * (mul_add bs (t / 256)).1) (pow-suc 256 (length (mul_add bs (t / 256)).0)),
    )

pow_snoc : (r : List ℕ) (x : ℕ) → 256 ^ length (r ++ (x ∷ [])) ≡ 256 ^ length r * 256
pow_snoc r x = rw (length-append r (x ∷ []), add-one) (pow-suc 256 (length r))

le_value-snoc : (r : List ℕ) (x : ℕ) → le_value (r ++ (x ∷ [])) ≡ le_value r + 256 ^ length r * x
le_value-snoc r x = le_value-append r (x ∷ []) ∙ unfold le_value in omega arith

carry_loop_lem :
    (fuel : ℕ) (r : List ℕ) (carry : ℕ)
    → carry ≤ fuel
    → le_value (carry_loop fuel r carry) ≡ le_value r + 256 ^ length r * carry
unfolding carry_loop
carry_loop_lem zero r carry h = let e : carry ≡ 0 = omega arith in rw e (omega arith)
carry_loop_lem (suc fuel) r carry h = elim (Bool-cases (ltb 0 carry)) [
  | inl more ↦ rw more (
      omega (
        arith,
        carry_loop_lem fuel (r ++ ((carry % 256) ∷ [])) (carry / 256) (ground arith),
        le_value-snoc r (carry % 256),
        ap (λ (p : ℕ). p * (carry / 256)) (pow_snoc r (carry % 256)),
        ap (λ (c : ℕ). 256 ^ length r * c) (div-add-mod carry 256),
      ))
  | inr done ↦ rw done (let e : carry ≡ 0 = ground arith in rw e (omega arith))
]

-- One character multiplies the number by 58 and adds its digit.
add_digit_lem : (r : List ℕ) (d : ℕ) → le_value (add_digit r d) ≡ le_value r * 58 + d
unfolding add_digit
add_digit_lem r d = omega (
  arith,
  mul_add_lem r d,
  carry_loop_lem (mul_add r d).1 (mul_add r d).0 (mul_add r d).1 (omega arith),
)

digits_loop_lem :
    (s : Text) (r : List ℕ) → Option.map le_value (digits_loop s r) ≡ number s (le_value r)
unfolding digits_loop number
digits_loop_lem [] r = refl
digits_loop_lem (c ∷ s) r = elim (Option-cases (index_of c 0 alphabet)) [
  | inl foreign ↦ rw foreign
  | inr (d, e) ↦ rw e (digits_loop_lem s (add_digit r d) ∙ ap (number s) (add_digit_lem r d))
]

-- The number that bytes write with the most significant first.
unfoldable pub be_value : List ℕ → ℕ
be_value bs = le_value (reverse bs)

abbrev pub zeros : ℕ → List ℕ
zeros k = replicate k 0

zeros_snoc : (k : ℕ) → zeros k ++ (0 ∷ []) ≡ 0 ∷ zeros k
zeros_snoc zero = refl
zeros_snoc (suc k) = ap (λ (r : List ℕ). 0 ∷ r) (zeros_snoc k)

reverse-zeros : (k : ℕ) → reverse (zeros k) ≡ zeros k
reverse-zeros zero = refl
reverse-zeros (suc k) =
    reverse-cons 0 (zeros k) ∙ ap (λ r. r ++ (0 ∷ [])) (reverse-zeros k) ∙ zeros_snoc k

le_value-zeros : (k : ℕ) → le_value (zeros k) ≡ 0
unfolding le_value
le_value-zeros zero = refl
le_value-zeros (suc k) = omega (arith, le_value-zeros k)

abbrev full_of : ℕ → List ℕ → List ℕ
full_of k r = reverse_bytes (r ++ zeros k)

be_value-full : (k : ℕ) (r : List ℕ) → be_value (full_of k r) ≡ le_value r
unfolding be_value
be_value-full k r =
    rw
      (
        reverse_bytes-reverse (r ++ zeros k),
        reverse-reverse (r ++ zeros k),
        le_value-append r (zeros k),
        le_value-zeros k,
      )
      (omega arith)

take-zeros : (k : ℕ) (xs : List ℕ) → take k (zeros k ++ xs) ≡ zeros k
take-zeros zero xs = refl
take-zeros (suc k) xs = ap (λ (r : List ℕ). 0 ∷ r) (take-zeros k xs)

take-full : (k : ℕ) (r : List ℕ) → take k (full_of k r) ≡ zeros k
take-full k r =
    rw (reverse_bytes-reverse (r ++ zeros k), reverse-append r (zeros k), reverse-zeros k)
      (take-zeros k (reverse r))

-- What a successful decoding says of the text: its bytes, followed by the four that are dropped.
abbrev pub Decodes : Text → List ℕ → List ℕ → Type 0
Decodes s out check =
    (length check ≡ 4)
    × (number s 0 ≡ some (be_value (out ++ check)))
    × (take (leading_ones s) (out ++ check) ≡ zeros (leading_ones s))

strip_lem :
    (s : Text) (full out : List ℕ)
    → number s 0 ≡ some (be_value full)
    → take (leading_ones s) full ≡ zeros (leading_ones s)
    → strip_checksum full ≡ some out
    → (check : List ℕ) × Decodes s out check
strip_lem s full out hn ht e = elim (Bool-cases (ltb (length full) 4)) [
  | inl short ↦ cc (ap (λ (b : Bool). if b then none else some (take (length full - 4) full)) short)
  | inr long ↦
      let n = length full - 4 in
      let cut : take n full ++ drop n full ≡ full = take-append-drop n full in
      let o : take n full ≡ out = ground arith in
      (
        drop n full,
        (
          ground (
            arith,
            ap length cut,
            length-append (take n full) (drop n full),
            length-take n full (ground arith),
          ),
          rw (← o, cut) hn,
          rw (← o, cut) ht,
        ),
      )
]

finish_lem :
    (s : Text) (r : Option (List ℕ)) (out : List ℕ)
    → Option.map le_value r ≡ number s 0
    → finish s r ≡ some out
    → (check : List ℕ) × Decodes s out check
finish_lem s none out hn e = cc
finish_lem s (some r) out hn e =
    strip_lem s (full_of (leading_ones s) r) out
      (sym hn ∙ ap some (sym (be_value-full (leading_ones s) r))) (take-full (leading_ones s) r) e

pub base58_decode-Decodes :
    (s : Text) (out : List ℕ) → base58_decode s ≡ some out → (check : List ℕ) × Decodes s out check
unfolding base58_decode
base58_decode-Decodes s out e =
    finish_lem s (digits_loop s []) out (digits_loop_lem s [] ∙ unfold le_value in refl) e

leading_ones-replicate :
    (k : ℕ) (s : Text) → (m : ℕ) × (leading_ones (replicate k b'1' ++ s) ≡ m + k)
unfolding leading_ones
leading_ones-replicate zero s = (leading_ones s, omega arith)
leading_ones-replicate (suc k) s = let (m, e) = leading_ones-replicate k s in (m, omega (arith, e))

nil-cons : {b : ℕ} {bs : List ℕ} → [] ≡ b ∷ bs → ⊥
nil-cons h = cc

cons_cons : {a b : ℕ} {as' bs : List ℕ} → a ∷ as' ≡ b ∷ bs → (a ≡ b) × (as' ≡ bs)
cons_cons h = (cc, cc)

take_fewer : (k n : ℕ) (bs : List ℕ) → k ≤ n → take n bs ≡ zeros n → take k bs ≡ zeros k
take_fewer zero n bs l h = refl
take_fewer (suc k) zero bs l h = absurd (omega (arith, l))
take_fewer (suc k) (suc n) [] l h = absurd (nil-cons h)
take_fewer (suc k) (suc n) (b ∷ bs) l h =
    let (e, q) = cons_cons h in rw (e, take_fewer k n bs (omega (arith, l)) q) refl

-- A decoded address is right: together with four more bytes the result writes, in base 256, the
-- number that the address writes in base 58, and where the address begins with `k` characters '1', it
-- begins with `k` zero bytes.
pub base58_decode_lem :
    (k : ℕ) (s : Text) (out : List ℕ)
    → base58_decode (replicate k b'1' ++ s) ≡ some out
    → (check : List ℕ) × (length check ≡ 4)
      × (number (replicate k b'1' ++ s) 0 ≡ some (be_value (out ++ check)))
      × (take k (out ++ check) ≡ replicate k 0)
base58_decode_lem k s out e =
    let (check, (four, value, ones)) = base58_decode-Decodes (replicate k b'1' ++ s) out e in
    let (m, q) = leading_ones-replicate k s in
    (check, four, value, take_fewer k _ (out ++ check) (omega (arith, q)) ones)

finish_foreign : (s : Text) (r : Option (List ℕ)) → Option.map le_value r ≡ none → finish s r ≡ none
finish_foreign s none h = refl
finish_foreign s (some r) h = cc

-- A text with a character outside the alphabet does not decode.
pub base58_decode_foreign : (s : Text) → number s 0 ≡ none → base58_decode s ≡ none
unfolding base58_decode
base58_decode_foreign s h =
    finish_foreign s (digits_loop s []) (digits_loop_lem s [] ∙ unfold le_value in h)

-- ===== src/Share/Judge.antt =====
-- Validate on a submission that is well formed: the whole way from the texts to the judgement.
use qbitx_pool.Base.{
  ℕ, ◌*◌, ◌/◌, ◌%◌, ◌^◌, ◌≤◌, ◌<◌, ◌≡◌, refl, ◌⊎◌, inl, inr, leb, Bool, true, false, Bool-cases,
  Option-cases, if◌then◌else◌, Option, some, none, List, [], ◌∷◌, ◌++◌, reverse, length, All, Text,
  IsByte, le_bytes, le_value, le_bytes-IsByte, le_value-le_bytes, arith,
}
use qbitx_pool.Float64.{one_f, lt}
use qbitx_pool.Hex
use qbitx_pool.Hex.{digits32}
use qbitx_pool.Hex.RoundTrip.{decode-encode}
use qbitx_pool.Mining.Merkle.{double_sha256}
use qbitx_pool.Mining.Base58.Bytes.{All-reverse}
use qbitx_pool.Job.{Job}
use qbitx_pool.Share.{
  Submission, ShareResult, rejected, accepted, below_minimum, clean, of_size, parse_hex32,
  diff_from_hash, build_block_hex, compare_hash, judge, header_of, validate,
}
use qbitx_pool.Share.Target.{hash_to_big_lem, target_from_bits_lem, set_bytes-reverse}

-- The target that compact bits stand for.
abbrev pub target_of : ℕ → ℕ
target_of bits = (bits % 2 ^ 23) * 256 ^ (bits / 2 ^ 24) / 2 ^ 24

pub sized_lem :
    (n : ℕ) (b : List ℕ)
    → All IsByte b
    → length b ≡ n
    → of_size n (clean (Hex.decode (Hex.encode b))) ≡ some b
sized_lem n b h e = rw (decode-encode b h) (ground (arith, e))

pub eight_digits : (n : ℕ) → length (reverse (le_bytes 4 n)) ≡ 4
unfolding le_bytes
eight_digits n = refl

pub parse_hex32-digits32 : (n : ℕ) → n < 2 ^ 32 → parse_hex32 (digits32 n) ≡ some n
unfolding parse_hex32 digits32
parse_hex32-digits32 n h =
    rw
      (
        sized_lem 4 (reverse (le_bytes 4 n)) (All-reverse (le_bytes 4 n) (le_bytes-IsByte 4 n))
            (eight_digits n),
        set_bytes-reverse (le_bytes 4 n),
        le_value-le_bytes 4 n (omega arith),
      )
      refl

-- What Validate makes of a header: a block where the hash meets the target, a share where it does
-- not and the difficulty is 1 or more, and otherwise an error.
abbrev pub Judged : Job → List ℕ → List ℕ → ShareResult × List Text → Type 0
Judged j coinbase_tx header r =
    let h = double_sha256 header in
    let diff = diff_from_hash (le_value h) in
    ((le_value h ≤ target_of j.bits_uint)
      × (r ≡ (accepted j true h diff, build_block_hex header coinbase_tx j ∷ [])))
    ⊎ ((target_of j.bits_uint < le_value h)
        × (lt diff one_f ≡ false)
        × (r ≡ (accepted j false h diff, [])))
    ⊎ ((target_of j.bits_uint < le_value h)
        × (lt diff one_f ≡ true)
        × (r ≡ rejected (below_minimum diff)))

compare_hash_lem :
    {A : Type 0} (n t : ℕ) (b : Bool) (x y z : A)
    → ((n ≤ t) × ((if leb n t then x else if b then y else z) ≡ x))
      ⊎ ((t < n) × (b ≡ false) × ((if leb n t then x else if b then y else z) ≡ z))
      ⊎ ((t < n) × (b ≡ true) × ((if leb n t then x else if b then y else z) ≡ y))
compare_hash_lem n t b x y z = elim (Bool-cases (leb n t)) [
  | inl met ↦ rw met (inl (ground arith, refl))
  | inr missed ↦ rw missed (elim (Bool-cases b) [
    | inl low ↦ rw low (inr (inr (ground arith, refl, refl)))
    | inr high ↦ rw high (inr (inl (ground arith, refl, refl)))
  ])
]

judge_lem :
    (j : Job) (coinbase_tx header : List ℕ)
    → Judged j coinbase_tx header (judge j coinbase_tx header)
unfolding compare_hash
judge_lem j coinbase_tx header =
    rw (hash_to_big_lem (double_sha256 header), target_from_bits_lem j.bits_uint)
      (compare_hash_lem (le_value (double_sha256 header)) (target_of j.bits_uint)
        (lt (diff_from_hash (le_value (double_sha256 header))) one_f) _ _ _)

-- A well-formed submission for a job is judged by the hash of the header that it completes: the
-- coinbase transaction is the job's two halves around the two extra nonces, and the block is
-- submitted exactly where the hash, read with the least significant byte first, is at most the
-- target of the job's bits. Conditions: the halves and the extra nonces are bytes in hexadecimal,
-- the extra nonces four of them each, and time and nonce are 32-bit numbers in eight digits.
pub validate_well_formed :
    (j : Job) (c1 c2 en1 en2 : List ℕ) (ntime nonce : ℕ)
    → All IsByte c1
    → All IsByte c2
    → All IsByte en1
    → All IsByte en2
    → j.coinbase1 ≡ Hex.encode c1
    → j.coinbase2 ≡ Hex.encode c2
    → length en1 ≡ 4
    → length en2 ≡ 4
    → ntime < 2 ^ 32
    → nonce < 2 ^ 32
    → Judged j (((c1 ++ en1) ++ en2) ++ c2) (header_of j (((c1 ++ en1) ++ en2) ++ c2) ntime nonce) (
        validate (some j) (record {
          extra_nonce1 = Hex.encode en1;
          extra_nonce2 = Hex.encode en2;
          n_time = digits32 ntime;
          nonce = digits32 nonce;
        }))
unfolding validate
validate_well_formed j c1 c2 en1 en2 ntime nonce b1 b2 n1 n2 e1 e2 l1 l2 ht hn =
    rw
      (
        sized_lem 4 en1 n1 l1,
        sized_lem 4 en2 n2 l2,
        e1,
        e2,
        decode-encode c1 b1,
        decode-encode c2 b2,
        parse_hex32-digits32 ntime ht,
        parse_hex32-digits32 nonce hn,
      )
      (judge_lem j (((c1 ++ en1) ++ en2) ++ c2)
        (header_of j (((c1 ++ en1) ++ en2) ++ c2) ntime nonce))

-- One block is handed to the daemon, and reported as a block without an error; or none is, and none
-- is reported.
abbrev pub Consistent : ShareResult × List Text → Type 0
Consistent r =
    ((r.0.is_block ≡ false) × (r.1 ≡ []))
    ⊎ ((r.0.is_block ≡ true) × (r.0.error ≡ none) × (length r.1 ≡ 1))

judge-Consistent : (j : Job) (coinbase_tx header : List ℕ) → Consistent (judge j coinbase_tx header)
judge-Consistent j coinbase_tx header = elim (judge_lem j coinbase_tx header) [
  | inl (met, e) ↦ rw e (inr (refl, refl, refl))
  | inr (inl (missed, high, e)) ↦ rw e (inl (refl, refl))
  | inr (inr (missed, low, e)) ↦ rw e (inl (refl, refl))
]

-- Whatever is submitted, for whatever job: a block is handed to the daemon only once, and exactly
-- where the result reports a block, which then has no error.
pub validate-Consistent : (o : Option Job) (sub : Submission) → Consistent (validate o sub)
unfolding validate
validate-Consistent none sub = inl (refl, refl)
validate-Consistent (some j) sub =
    elim (Option-cases (of_size 4 (clean (Hex.decode sub.extra_nonce1)))) [
      | inl bad0 ↦ rw bad0 (inl (refl, refl))
      | inr (en1, good0) ↦
          rw good0 (elim (Option-cases (of_size 4 (clean (Hex.decode sub.extra_nonce2)))) [
            | inl bad1 ↦ rw bad1 (inl (refl, refl))
            | inr (en2, good1) ↦ rw good1 (elim (Option-cases (clean (Hex.decode j.coinbase1))) [
              | inl bad2 ↦ rw bad2 (inl (refl, refl))
              | inr (cb1, good2) ↦ rw good2 (elim (Option-cases (clean (Hex.decode j.coinbase2))) [
                | inl bad3 ↦ rw bad3 (inl (refl, refl))
                | inr (cb2, good3) ↦ rw good3 (elim (Option-cases (parse_hex32 sub.n_time)) [
                  | inl bad4 ↦ rw bad4 (inl (refl, refl))
                  | inr (ntime, good4) ↦ rw good4 (elim (Option-cases (parse_hex32 sub.nonce)) [
                    | inl bad5 ↦ rw bad5 (inl (refl, refl))
                    | inr (nonce, good5) ↦ rw good5 (
                        judge-Consistent j (((cb1 ++ en1) ++ en2) ++ cb2)
                          (header_of j (((cb1 ++ en1) ++ en2) ++ cb2) ntime nonce))
                  ])
                ])
              ])
            ])
          ])
    ]

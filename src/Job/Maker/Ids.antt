-- ===== src/Job/Maker/Ids.antt =====
-- The ids of jobs: no two numbers have the same one, and none has a separator in it.
use qbitx_pool.Base.{
  ℕ, zero, suc, ◌+◌, ◌*◌, ◌/◌, ◌%◌, ◌^◌, ◌<◌, ◌==◌, ltb, ◌≡◌, refl, ap, sym, ◌∙◌, inl, inr, false,
  Bool-cases, Option, none, some, [], ◌∷◌, ◌++◌, All, All-append, Text, arith,
}
use qbitx_pool.Hex.{digit, nibble}
use qbitx_pool.Hex.RoundTrip.{nibble-digit}
use qbitx_pool.Job.Template.{hex_text, job_id}

-- The number that a text of digits stands for.
abbrev value_step : ℕ → Option ℕ → ℕ
value_step n none = n
value_step n (some d) = n * 16 + d

unfoldable text_value : ℕ → Text → ℕ
text_value n [] = n
text_value n (c ∷ cs) = text_value (value_step n (nibble c)) cs

text_value-append : (n : ℕ) (s t : Text) → text_value n (s ++ t) ≡ text_value (text_value n s) t
unfolding text_value
text_value-append n [] t = refl
text_value-append n (c ∷ cs) t = text_value-append (value_step n (nibble c)) cs t

text_value-hex_text : (fuel n : ℕ) → n < 16 ^ fuel → text_value 0 (hex_text fuel n) ≡ n
unfolding text_value hex_text
text_value-hex_text zero n h = omega arith
text_value-hex_text (suc fuel) n h = elim (Bool-cases (ltb n 16)) [
  | inl small ↦ rw (small, nibble-digit n (ground arith)) (omega arith)
  | inr large ↦
      rw
        (
          large,
          text_value-append 0 (hex_text fuel (n / 16)) (digit (n % 16) ∷ []),
          text_value-hex_text fuel (n / 16) (quotient fuel n h),
          nibble-digit (n % 16) (omega arith),
        )
        (omega arith)
]
  where
    quotient : (fuel n : ℕ) → n < 16 ^ suc fuel → n / 16 < 16 ^ fuel
    quotient fuel n h = omega arith

pub job_id_injective : (n m : ℕ) → n < 16 ^ 16 → m < 16 ^ 16 → job_id n ≡ job_id m → n ≡ m
unfolding job_id
job_id_injective n m h k e =
    sym (text_value-hex_text 16 n h) ∙ ap (text_value 0) e ∙ text_value-hex_text 16 m k

digit_plain : (n : ℕ) → n < 16 → (digit n == b'|') ≡ false
unfolding digit
digit_plain n h = ground arith

pub hex_text_plain : (fuel n : ℕ) → All (λ b. (b == b'|') ≡ false) (hex_text fuel n)
unfolding hex_text
hex_text_plain zero n = tt
hex_text_plain (suc fuel) n = elim (Bool-cases (ltb n 16)) [
  | inl small ↦ rw small (digit_plain n (ground arith), tt)
  | inr large ↦ rw large (
      All-append _ (hex_text fuel (n / 16)) (digit (n % 16) ∷ []) (hex_text_plain fuel (n / 16))
        (digit_plain (n % 16) (omega arith), tt))
]

-- ===== src/Accounting/Allocate/Sums.antt =====
-- Amounts as maps from workers to satoshis, and the loop of allocateByWeight over the remainder.
use qbitx_pool.Base.{
  ℕ, zero, suc, ◌+◌, ◌%◌, ◌^◌, ◌<◌, ◌≡◌, refl, ap, false, List, [], ◌∷◌, ◌++◌, length, Text,
  text_eq, ℤ, pos, negsuc, pos_part, ◌+ℤ◌, int_laws, wrap64, wrap64_id, get_or, arith, All,
  Bool-cases, inl, inr,
}
use qbitx_pool.Accounting.Allocate.{Amounts, put, increment, FracPart, remainder_loop}

-- The sum of the amounts, and that none of them is negative.
abbrev pub total_of : Amounts → ℕ
total_of [] = 0
total_of ((k, v) ∷ m) = pos_part v + total_of m

abbrev pub NonNegative : Amounts → Type 0
NonNegative m = All (λ e. e.1 ≡ pos (pos_part e.1)) m

abbrev pub Absent : {V : Type 0} → Text → List (Text × V) → Type 0
Absent k m = All (λ e. text_eq e.0 k ≡ false) m

-- The keys of a map are distinct.
abbrev pub DistinctKeys : {V : Type 0} → List (Text × V) → Type 0
DistinctKeys [] = Unit
DistinctKeys ((k, v) ∷ m) = All (λ e. text_eq k e.0 ≡ false) m × DistinctKeys m

pub put_lem :
    (k : Text) (n : ℕ) (m : Amounts)
    → Absent k m
    → NonNegative m
    → (put k (pos n) m ≡ m ++ ((k, pos n) ∷ []))
unfolding put
put_lem k n [] a h = refl
put_lem k n ((j, v) ∷ m) a h = rw a.0 (ap (λ r. (j, v) ∷ r) (put_lem k n m a.1 h.1))

pub append_total :
    (m : Amounts) (k : Text) (n : ℕ)
    → NonNegative m
    → NonNegative (m ++ ((k, pos n) ∷ [])) × (total_of (m ++ ((k, pos n) ∷ [])) ≡ total_of m + n)
append_total [] k n h = ((refl, tt), omega arith)
append_total ((j, v) ∷ m) k n h = let (nn, t) = append_total m k n h.1 in ((h.0, nn), omega arith)

pub plus_one :
    (v : ℤ)
    → v ≡ pos (pos_part v)
    → pos_part v + 1 < 2 ^ 63
    → wrap64 (v +ℤ pos 1) ≡ pos (pos_part v + 1)
plus_one (negsuc n) h fits = cc
plus_one (pos n) h fits =
    let e : pos n +ℤ pos 1 ≡ pos (n + 1) = omega int_laws in
    rw e (wrap64_id (pos (n + 1)) (omega arith))

pub increment_lem :
    (k : Text) (m : Amounts)
    → NonNegative m
    → total_of m + 1 < 2 ^ 63
    → NonNegative (increment k m) × (total_of (increment k m) ≡ total_of m + 1)
unfolding increment
increment_lem k [] h fits = ((refl, tt), omega arith)
increment_lem k ((j, v) ∷ m) h fits = elim (Bool-cases (text_eq j k)) [
  | inl here ↦ rw (here, plus_one v h.0 (omega arith)) ((refl, h.1), omega arith)
  | inr there ↦
      rw there (let (nn, t) = increment_lem k m h.1 (omega arith) in ((h.0, nn), omega arith))
]

pub remainder_loop_lem :
    (left i : ℕ) (p : FracPart) (ps : List FracPart) (m : Amounts)
    → NonNegative m
    → total_of m + left < 2 ^ 63
    → NonNegative (remainder_loop left i p ps m)
      × (total_of (remainder_loop left i p ps m) ≡ total_of m + left)
unfolding remainder_loop
remainder_loop_lem zero i p ps m h fits = (h, omega arith)
remainder_loop_lem (suc left) i p ps m h fits =
    let k = FracPart.worker (get_or (p ∷ ps) (i % suc (length ps)) p) in
    let (nn, t) = increment_lem k m h (omega arith) in
    let (nn', t') = remainder_loop_lem left (i + 1) p ps (increment k m) nn (omega arith) in
    (nn', omega arith)

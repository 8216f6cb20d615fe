-- ===== src/Mining/Reverse.antt =====
-- The in-place reversal that ReverseBytes, HashToString and base58Decode of
-- internal/mining/mining.go share, against the library's `reverse`.
use qbitx_pool.Base.{
  ℕ, zero, suc, ◌+◌, ◌-◌, ◌≤◌, ◌<◌, ◌≡◌, refl, ltb, true, if◌then◌else◌, List, [], ◌∷◌, ◌++◌,
  reverse, length, length-append, get_or, set, arith, ap, sym, ◌∙◌,
}
use native.Mathlib.Nat.{zero-add, suc-add}
use mathlib.Core.List.{append_assoc, append-nil, reverse-append, reverse-cons}

-- `b[i], b[j] = b[j], b[i]`
abbrev swap : List ℕ → ℕ → ℕ → List ℕ
swap b i j = set (set b i (get_or b j 0)) j (get_or b i 0)

-- `for i, j := 0, len(b)-1; i < j; i, j = i+1, j-1 { swap }`. Each round raises `i`, so as many rounds as
-- there are bytes are enough.
unfoldable pub swap_loop : ℕ → ℕ → ℕ → List ℕ → List ℕ
swap_loop zero i j b = b
swap_loop (suc fuel) i j b =
    let rest = swap_loop fuel (i + 1) (j - 1) (swap b i j) in if ltb i j then rest else b

-- `len(b)-1` of an empty slice is -1, and the loop is not entered; here it is 0, to the same effect.
unfoldable pub reverse_bytes : List ℕ → List ℕ
unfolding swap_loop
reverse_bytes b = swap_loop (length b) 0 (length b - 1) b

get_or_append : (xs ys : List ℕ) (y d : ℕ) → get_or (xs ++ (y ∷ ys)) (length xs) d ≡ y
get_or_append [] ys y d = refl
get_or_append (x ∷ xs) ys y d = get_or_append xs ys y d

set_append : (xs ys : List ℕ) (y v : ℕ) → set (xs ++ (y ∷ ys)) (length xs) v ≡ xs ++ (v ∷ ys)
set_append [] ys y v = refl
set_append (x ∷ xs) ys y v = ap (λ r. x ∷ r) (set_append xs ys y v)

-- A list of two or more is a first, a middle and a last.
data Ends : List ℕ → Type 0 where
  empty : Ends []
  single : (a : ℕ) → Ends (a ∷ [])
  both : (a : ℕ) (m : List ℕ) (z : ℕ) → Ends (a ∷ (m ++ (z ∷ [])))

Ends-cons : (a : ℕ) {m : List ℕ} → Ends m → Ends (a ∷ m)
Ends-cons a empty = single a
Ends-cons a (single b) = both a [] b
Ends-cons a (both b m z) = both a (b ∷ m) z

ends : (m : List ℕ) → Ends m
ends [] = empty
ends (a ∷ m) = Ends-cons a (ends m)

get_or_shift : (xs r : List ℕ) (k d : ℕ) → get_or (xs ++ r) (length xs + k) d ≡ get_or r k d
get_or_shift [] r k d = rw zero-add
get_or_shift (x ∷ xs) r k d = rw suc-add (get_or_shift xs r k d)

set_shift : (xs r : List ℕ) (k v : ℕ) → set (xs ++ r) (length xs + k) v ≡ xs ++ set r k v
set_shift [] r k v = rw zero-add
set_shift (x ∷ xs) r k v = rw suc-add (ap (λ r. x ∷ r) (set_shift xs r k v))

-- One round on the two ends of the part that is still to be reversed.
swap_ends :
    (xs m ys : List ℕ) (a z : ℕ)
    → swap (xs ++ (a ∷ (m ++ (z ∷ ys)))) (length xs) (length xs + suc (length m))
      ≡ xs ++ (z ∷ (m ++ (a ∷ ys)))
swap_ends xs m ys a z = rw (
  get_or_shift xs (a ∷ (m ++ (z ∷ ys))) (suc (length m)) 0,
  get_or_append m ys z 0,
  get_or_append xs (m ++ (z ∷ ys)) a 0,
  set_append xs (m ++ (z ∷ ys)) a z,
  set_shift xs (z ∷ (m ++ (z ∷ ys))) (suc (length m)) a,
  set_append m ys z a,
)

-- Putting the ends back round a reversed middle.
reverse_ends :
    (xs m ys : List ℕ) (a z : ℕ)
    → (xs ++ (z ∷ [])) ++ (reverse m ++ (a ∷ ys)) ≡ xs ++ (reverse (a ∷ (m ++ (z ∷ []))) ++ ys)
reverse_ends xs m ys a z = simp (reverse-append, append_assoc, reverse-cons)

reassoc :
    (xs m ys : List ℕ) (a z : ℕ) → xs ++ (z ∷ (m ++ (a ∷ ys))) ≡ (xs ++ (z ∷ [])) ++ (m ++ (a ∷ ys))
reassoc xs m ys a z = simp append_assoc

round_ends :
    (fuel : ℕ) (xs m ys : List ℕ) (a z i j : ℕ)
    → i ≡ length xs
    → j ≡ length xs + suc (length m)
    → swap_loop (suc fuel) i j (xs ++ (a ∷ (m ++ (z ∷ ys))))
      ≡ swap_loop fuel (i + 1) (j - 1) ((xs ++ (z ∷ [])) ++ (m ++ (a ∷ ys)))
unfolding swap_loop
round_ends fuel xs m ys a z i j hi hj = rw (ltb_true i j (omega arith)) (
    ap (swap_loop fuel (i + 1) (j - 1)) (rw (hi, hj) (swap_ends xs m ys a z ∙ reassoc xs m ys a z)))
  where
    ltb_true : (i j : ℕ) → i < j → ltb i j ≡ true
    ltb_true i j h = ground arith

stops : (fuel i j : ℕ) (b : List ℕ) → j ≤ i → swap_loop (suc fuel) i j b ≡ b
unfolding swap_loop
stops fuel i j b h = ground arith

-- With `i` at the first and `j` at the last place of the middle part, the loop reverses that part.
swap_loop-middle :
    (fuel : ℕ) (xs : List ℕ) {m : List ℕ} (e : Ends m) (ys : List ℕ) (i j : ℕ)
    → length m ≤ fuel
    → i ≡ length xs
    → j ≡ length xs + length m - 1
    → swap_loop fuel i j (xs ++ (m ++ ys)) ≡ xs ++ (reverse m ++ ys)
swap_loop-middle zero xs empty ys i j h hi hj = unfold swap_loop in refl
swap_loop-middle zero xs (single a) ys i j h hi hj = absurd (omega arith)
swap_loop-middle zero xs (both a m z) ys i j h hi hj = absurd (omega arith)
swap_loop-middle (suc fuel) xs empty ys i j h hi hj = stops fuel i j (xs ++ ys) (omega arith)
swap_loop-middle (suc fuel) xs (single a) ys i j h hi hj =
    stops fuel i j (xs ++ (a ∷ ys)) (omega arith)
swap_loop-middle (suc fuel) xs (both a m z) ys i j h hi hj =
    ap (λ r. swap_loop (suc fuel) i j (xs ++ (a ∷ r))) (append_assoc m (z ∷ []) ys)
    ∙ round_ends fuel xs m ys a z i j hi (omega (arith, length-append m (z ∷ [])))
    ∙ swap_loop-middle fuel (xs ++ (z ∷ [])) (ends m) (a ∷ ys) (i + 1) (j - 1)
        (omega (arith, length-append m (z ∷ []))) (omega (arith, length-append xs (z ∷ [])))
        (omega (arith, length-append m (z ∷ []), length-append xs (z ∷ [])))
    ∙ reverse_ends xs m ys a z

-- The swaps of ReverseBytes reverse the slice, whatever its length.
pub reverse_bytes-reverse : (b : List ℕ) → reverse_bytes b ≡ reverse b
unfolding reverse_bytes
reverse_bytes-reverse b =
    ap (swap_loop (length b) 0 (length b - 1)) (sym (append-nil b))
    ∙ swap_loop-middle (length b) [] (ends b) [] 0 (length b - 1) (omega arith) refl (omega arith)
    ∙ append-nil (reverse b)

-- ===== src/Accounting/Allocate.antt =====
-- allocateByWeight of internal/accounting/payout.go. A Go map is the list of its entries in the order
-- of an iteration; every `range` may take another order.
pub mod Sums
pub mod Floors
pub mod Parts
pub mod Total
use qbitx_pool.Base.{
  ℕ, zero, suc, ◌+◌, ◌%◌, ◌==◌, leb_ℤ, if◌then◌else◌, Bool, ◌||◌, Option, none, some, List, [], ◌∷◌,
  ◌++◌, length, Text, text_eq, text_lt, ℤ, pos, negsuc, ◌+ℤ◌, ◌-ℤ◌, wrap64, get_or,
}
use qbitx_pool.Float64.{Float64, zero_f, add, sub, mul, div, lt, le, eq, floor, to_int64, of_int64}

abbrev pub Weights : Type 0
Weights = List (Text × Float64)

abbrev pub Amounts : Type 0
Amounts = List (Text × ℤ)

-- `result[worker] = base`
unfoldable pub put : Text → ℤ → Amounts → Amounts
put k v [] = (k, v) ∷ []
put k v ((j, w) ∷ m) = if text_eq j k then (j, v) ∷ m else (j, w) ∷ put k v m

-- `result[p.worker]++`
unfoldable pub increment : Text → Amounts → Amounts
unfolding ◌+ℤ◌
increment k [] = (k, pos 1) ∷ []
increment k ((j, v) ∷ m) =
    if text_eq j k then (j, wrap64 (v +ℤ pos 1)) ∷ m else (j, v) ∷ increment k m

-- `type fracPart struct`
pub record FracPart : Type 0 where
  pub worker : Text
  pub frac : Float64

-- The first loop: the sum of the positive weights.
unfoldable pub weight_sum : Float64 → Weights → Float64
weight_sum sum [] = sum
weight_sum sum ((k, w) ∷ rest) = weight_sum (if lt zero_f w then add sum w else sum) rest

-- `exact := float64(total) * (w / sum)` and its floor.
unfoldable pub exact_share : ℤ → Float64 → Float64 → Float64
exact_share total sum w = mul (of_int64 total) (div w sum)

unfoldable pub base_share : ℤ → Float64 → Float64 → ℤ
unfolding exact_share
base_share total sum w = to_int64 (floor (exact_share total sum w))

pub record Bases : Type 0 where
  pub result : Amounts
  pub parts : List FracPart
  pub allocated : ℤ

-- The body of the second loop at a positive weight.
unfoldable pub add_base : ℤ → Float64 → Text → Float64 → Bases → Bases
unfolding base_share ◌+ℤ◌ put
add_base total sum worker w b =
    let base = base_share total sum w in
    record {
      result = put worker base b.result;
      parts =
          b.parts
          ++ (record { worker = worker; frac = sub (exact_share total sum w) (of_int64 base) }
              ∷ []);
      allocated = wrap64 (b.allocated +ℤ base);
    }

unfoldable pub base_loop : ℤ → Float64 → Weights → Bases → Bases
unfolding add_base
base_loop total sum [] b = b
base_loop total sum ((k, w) ∷ rest) b =
    base_loop total sum rest (if le w zero_f then b else add_base total sum k w b)

-- The order of `sort.Slice`: the larger fraction first, equal ones by name.
unfoldable pub before : FracPart → FracPart → Bool
before p q = if eq p.frac q.frac then text_lt p.worker q.worker else lt q.frac p.frac

unfoldable pub insert_part : FracPart → List FracPart → List FracPart
unfolding before
insert_part p [] = p ∷ []
insert_part p (q ∷ qs) = if before q p then q ∷ insert_part p qs else p ∷ q ∷ qs

unfoldable pub sort_parts : List FracPart → List FracPart
unfolding insert_part
sort_parts [] = []
sort_parts (p ∷ ps) = insert_part p (sort_parts ps)

-- `for i := int64(0); i < rem; i++ { p := parts[int(i)%len(parts)]; result[p.worker]++ }` over one part or
-- more, with `i` counting up and the first argument the rounds left.
unfoldable pub remainder_loop : ℕ → ℕ → FracPart → List FracPart → Amounts → Amounts
unfolding increment
remainder_loop zero i p ps result = result
remainder_loop (suc left) i p ps result =
    remainder_loop left (i + 1) p ps
      (increment (FracPart.worker (get_or (p ∷ ps) (i % suc (length ps)) p)) result)

-- With no parts the modulus is 0 and the loop panics, which is `none`.
abbrev pub give_remainder : ℤ → List FracPart → Amounts → Option Amounts
give_remainder (negsuc n) parts result = some result
give_remainder (pos zero) parts result = some result
give_remainder (pos (suc n)) [] result = none
give_remainder (pos (suc n)) (p ∷ ps) result = some (remainder_loop (suc n) 0 p ps result)

abbrev pub empty_bases : Bases
empty_bases = record { result = []; parts = []; allocated = pos 0 }

-- `summed` and `weights` are the orders in which the two loops visit the map.
unfoldable pub allocate_by_weight : ℤ → Weights → Weights → Option Amounts
unfolding weight_sum base_loop sort_parts remainder_loop ◌-ℤ◌
allocate_by_weight total summed weights =
    if leb_ℤ total (pos 0) || length weights == 0
    then some []
    else let sum = weight_sum zero_f summed in
      if le sum zero_f
      then some []
      else let b = base_loop total sum weights empty_bases in
        give_remainder (wrap64 (total -ℤ b.allocated)) (sort_parts b.parts) b.result

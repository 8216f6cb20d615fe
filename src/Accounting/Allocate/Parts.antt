-- ===== src/Accounting/Allocate/Parts.antt =====
-- Which entries of the weights count, and how many parts they leave.
use qbitx_pool.Base.{
  suc, ◌≤◌, ◌≡◌, refl, ap, ◌∙◌, Bool, true, false, ◌||◌, List, [], ◌∷◌, length, length-append, Text,
  ℤ, arith, Bool-cases, inl, inr,
}
use mathlib.Core.List.{Permᴰ}
use qbitx_pool.Float64.{Float64, zero_f, lt, le}
use qbitx_pool.Accounting.Allocate.{
  Weights, FracPart, weight_sum, Bases, add_base, base_loop, insert_part, sort_parts,
}
use qbitx_pool.Accounting.Allocate.Floors.{base_loop_skip, base_loop_count}

-- Some entry counts in the sum.
pub has_positive : Weights → Bool
has_positive [] = false
has_positive ((k, w) ∷ ws) = lt zero_f w || has_positive ws

pub weight_sum_none : (s : Float64) (ws : Weights) → has_positive ws ≡ false → weight_sum s ws ≡ s
unfolding weight_sum has_positive
weight_sum_none s [] h = refl
weight_sum_none s ((k, w) ∷ ws) h = ground (arith, weight_sum_none s ws)

pub zero_not_above : le zero_f zero_f ≡ true
unfolding le zero_f
zero_not_above = refl

pub some_positive :
    (ws : Weights) → le (weight_sum zero_f ws) zero_f ≡ false → has_positive ws ≡ true
some_positive ws h = elim (Bool-cases (has_positive ws)) [
  | inl yes' ↦ yes'
  | inr no' ↦ ground (arith, weight_sum_none zero_f ws no', zero_not_above)
]

pub has_positive-perm : {ws vs : Weights} → Permᴰ ws vs → has_positive ws ≡ has_positive vs
unfolding has_positive
has_positive-perm Permᴰ.nil = refl
has_positive-perm (Permᴰ.cons e p) = cc (e, has_positive-perm p)
has_positive-perm (Permᴰ.swap {a} {b} {a'} {b'} {l} e f) =
    rw (e, f) (swapped (lt zero_f b'.1) (lt zero_f a'.1) (has_positive l))
  where
    swapped : (x y z : Bool) → (x || (y || z)) ≡ (y || (x || z))
    swapped x y z = ground arith
has_positive-perm (Permᴰ.trans p q) = has_positive-perm p ∙ has_positive-perm q

pub positive_counts : (w : Float64) → lt zero_f w ≡ true → le w zero_f ≡ false
unfolding lt le zero_f
positive_counts w h = ground arith

pub one_part :
    (total : ℤ) (sum : Float64) (k : Text) (w : Float64) (b : Bases)
    → length (add_base total sum k w b).parts ≡ suc (length b.parts)
unfolding add_base
one_part total sum k w b = rw (length-append b.parts _) (omega arith)

pub parts_grow :
    (total : ℤ) (sum : Float64) (ws : Weights) (b : Bases)
    → length b.parts ≤ length (base_loop total sum ws b).parts
parts_grow total sum [] b = unfold base_loop in omega arith
parts_grow total sum ((k, w) ∷ ws) b = elim (Bool-cases (le w zero_f)) [
  | inl skipped ↦ rw (base_loop_skip total sum k w ws b skipped) (parts_grow total sum ws b)
  | inr counted ↦
      rw (base_loop_count total sum k w ws b counted) (
        omega (arith, parts_grow total sum ws (add_base total sum k w b), one_part total sum k w b))
]

pub parts_exist :
    (total : ℤ) (sum : Float64) (ws : Weights) (b : Bases)
    → has_positive ws ≡ true
    → 1 ≤ length (base_loop total sum ws b).parts
unfolding has_positive
parts_exist total sum [] b h = cc
parts_exist total sum ((k, w) ∷ ws) b h = elim (Bool-cases (le w zero_f)) [
  | inl skipped ↦
      rw (base_loop_skip total sum k w ws b skipped)
        (parts_exist total sum ws b (ground (arith, positive_counts w)))
  | inr counted ↦
      rw (base_loop_count total sum k w ws b counted) (
        omega (arith, parts_grow total sum ws (add_base total sum k w b), one_part total sum k w b))
]

pub length-insert_part :
    (p : FracPart) (l : List FracPart) → length (insert_part p l) ≡ suc (length l)
unfolding insert_part
length-insert_part p [] = refl
length-insert_part p (q ∷ l) = ground (arith, length-insert_part p l)

pub length-sort_parts : (l : List FracPart) → length (sort_parts l) ≡ length l
unfolding sort_parts
length-sort_parts [] = refl
length-sort_parts (p ∷ l) = length-insert_part p (sort_parts l) ∙ ap suc (length-sort_parts l)

pub positive_nonempty : (ws : Weights) → has_positive ws ≡ true → 1 ≤ length ws
unfolding has_positive
positive_nonempty [] h = cc
positive_nonempty (e ∷ ws) h = omega arith

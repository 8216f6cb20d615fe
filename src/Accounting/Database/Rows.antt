-- ===== src/Accounting/Database/Rows.antt =====
-- What WHERE and ORDER BY keep of the rows of a table.
use qbitx_pool.Base.{Bool, true, Bool-cases, ◌≡◌, inl, inr, List, [], ◌∷◌, map, All}
use qbitx_pool.Accounting.Database.{select, order_insert, order_by}

pub All-select : {A : Type 0} (p : A → Bool) (as' : List A) → All (λ a. p a ≡ true) (select p as')
unfolding select
All-select p [] = tt
All-select p (a ∷ as') = elim (Bool-cases (p a)) [
  | inl yes' ↦ rw yes' (yes', All-select p as')
  | inr no' ↦ rw no' (All-select p as')
]

pub All-order_insert :
    {A : Type 0} (P : A → Type 0) (before : A → A → Bool) (a : A) (bs : List A)
    → P a
    → All P bs
    → All P (order_insert before a bs)
unfolding order_insert
All-order_insert P before a [] h hs = (h, tt)
All-order_insert P before a (b ∷ bs) h hs = elim (Bool-cases (before a b)) [
  | inl yes' ↦ rw yes' (h, hs)
  | inr no' ↦ rw no' (hs.0, All-order_insert P before a bs h hs.1)
]

pub All-order_by :
    {A : Type 0} (P : A → Type 0) (before : A → A → Bool) (as' : List A)
    → All P as'
    → All P (order_by before as')
unfolding order_by
All-order_by P before [] h = tt
All-order_by P before (a ∷ as') h =
    All-order_insert P before a (order_by before as') h.0 (All-order_by P before as' h.1)

-- A selected row satisfies the condition, and what the rows of the table satisfy.
pub All-select_both :
    {A : Type 0} (P : A → Type 0) (p : A → Bool) (as' : List A)
    → All P as'
    → All (λ a. P a × (p a ≡ true)) (select p as')
unfolding select
All-select_both P p [] h = tt
All-select_both P p (a ∷ as') h = elim (Bool-cases (p a)) [
  | inl yes' ↦ rw yes' ((h.0, yes'), All-select_both P p as' h.1)
  | inr no' ↦ rw no' (All-select_both P p as' h.1)
]

pub All-map :
    {A B : Type 0} (P : A → Type 0) (Q : B → Type 0) (f : A → B) (as' : List A)
    → ((a : A) → P a → Q (f a))
    → All P as'
    → All Q (map f as')
All-map P Q f [] h hs = tt
All-map P Q f (a ∷ as') h hs = (h a hs.0, All-map P Q f as' h hs.1)

pub All-weaken :
    {A : Type 0} (P Q : A → Type 0) (as' : List A) → ((a : A) → P a → Q a) → All P as' → All Q as'
All-weaken P Q [] h hs = tt
All-weaken P Q (a ∷ as') h hs = (h a hs.0, All-weaken P Q as' h hs.1)

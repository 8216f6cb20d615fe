-- ===== src/Accounting/Owed.antt =====
-- What the pool owes: the sum of the `balances`, and how the statements change it.
use mathlib.Core.Option.{some-injective, none-ne-some}
use qbitx_pool.Base.{
  ℕ, ◌+◌, ◌-◌, ◌^◌, ◌≤◌, ◌≡◌, ltb, if◌then◌else◌, Bool-cases, inl, inr, arith, refl, sym, ◌∙◌,
  Option, none, some, List, [], ◌∷◌, Text,
}
use qbitx_pool.Accounting.Database.{Balance, account, add_amount, cons_to, credit, debit, refund}

unfoldable pub owed : List Balance → ℕ
owed [] = 0
owed (b ∷ bs) = b.amount_sat + owed bs

owed-add_amount :
    (n : ℕ) (b : Balance) (bs bs' : List Balance)
    → cons_to (add_amount n b) (some bs) ≡ some bs'
    → owed bs' ≡ owed (b ∷ bs) + n
unfolding owed
owed-add_amount n b bs bs' h = ground arith

owed-cons_to :
    (b : Balance) (r : Option (List Balance)) (n : ℕ) (bs bs' : List Balance)
    → ((cs : List Balance) → r ≡ some cs → owed cs ≡ owed bs + n)
    → cons_to (some b) r ≡ some bs'
    → owed bs' ≡ owed (b ∷ bs) + n
unfolding owed
owed-cons_to b none n bs bs' ih h = ground arith
owed-cons_to b (some cs) n bs bs' ih h = ground (arith, ih cs refl)

-- A credit that is not refused raises what is owed by its amount.
pub owed-credit :
    (pool worker : Text) (n : ℕ) (bs bs' : List Balance)
    → credit pool worker n bs ≡ some bs'
    → owed bs' ≡ owed bs + n
unfolding credit owed
owed-credit pool worker n [] bs' h = ground arith
owed-credit pool worker n (b ∷ bs) bs' h = elim (Bool-cases (account pool worker b)) [
  | inl hit ↦ owed-add_amount n b bs bs' (rw hit at h)
  | inr miss ↦
      owed-cons_to b (credit pool worker n bs) n bs bs' (λ cs e. owed-credit pool worker n bs cs e)
        (rw miss at h)
]

-- What `n` for each row of an account comes to; an account has one row or none.
unfoldable pub stake : Text → Text → ℕ → List Balance → ℕ
stake pool worker n [] = 0
stake pool worker n (b ∷ bs) = (if account pool worker b then n else 0) + stake pool worker n bs

-- The rows of `bs'` are those of `bs` with other amounts.
unfoldable pub SameAccounts : List Balance → List Balance → Type 0
SameAccounts [] [] = Unit
SameAccounts [] (b ∷ bs) = ⊥
SameAccounts (a ∷ as') [] = ⊥
SameAccounts (a ∷ as') (b ∷ bs) =
    (b.pool_id ≡ a.pool_id) × (b.worker ≡ a.worker) × SameAccounts as' bs

pub SameAccounts-refl : (bs : List Balance) → SameAccounts bs bs
unfolding SameAccounts
SameAccounts-refl [] = tt
SameAccounts-refl (b ∷ bs) = (refl, refl, SameAccounts-refl bs)

pub SameAccounts-trans :
    (as' bs cs : List Balance) → SameAccounts as' bs → SameAccounts bs cs → SameAccounts as' cs
unfolding SameAccounts
SameAccounts-trans [] [] [] h k = tt
SameAccounts-trans [] [] (c ∷ cs) h k = absurd k
SameAccounts-trans [] (b ∷ bs) cs h k = absurd h
SameAccounts-trans (a ∷ as') [] cs h k = absurd h
SameAccounts-trans (a ∷ as') (b ∷ bs) [] h k = absurd k
SameAccounts-trans (a ∷ as') (b ∷ bs) (c ∷ cs) h k =
    (k.0 ∙ h.0, k.1 ∙ h.1, SameAccounts-trans as' bs cs h.2 k.2)

pub stake-SameAccounts :
    (pool worker : Text) (n : ℕ) (as' bs : List Balance)
    → SameAccounts as' bs
    → stake pool worker n bs ≡ stake pool worker n as'
unfolding SameAccounts stake
stake-SameAccounts pool worker n [] [] h = refl
stake-SameAccounts pool worker n [] (b ∷ bs) h = absurd h
stake-SameAccounts pool worker n (a ∷ as') [] h = absurd h
stake-SameAccounts pool worker n (a ∷ as') (b ∷ bs) h =
    rw (h.0, h.1, stake-SameAccounts pool worker n as' bs h.2) refl

cons_to_lem :
    {A : Type 0} (o : Option A) (r : Option (List A)) (l : List A)
    → cons_to o r ≡ some l
    → (a : A) × (as' : List A) × (o ≡ some a) × (r ≡ some as') × (l ≡ a ∷ as')
cons_to_lem none r l h = absurd (none-ne-some l h)
cons_to_lem (some a) none l h = absurd (none-ne-some l h)
cons_to_lem (some a) (some as') l h = (a, as', refl, refl, sym (some-injective (a ∷ as') l h))

-- An amount lowered by `n`, or refused.
debit_row_lem :
    (b : Balance) (n : ℕ) (r : Option (List Balance)) (l : List Balance)
    → (if ltb b.amount_sat n
        then none
        else cons_to (some (record b { amount_sat = b.amount_sat - n })) r)
      ≡ some l
    → (n ≤ b.amount_sat)
      × ((bs : List Balance) × (r ≡ some bs)
          × (l ≡ record b { amount_sat = b.amount_sat - n } ∷ bs))
debit_row_lem b n r l h = elim (Bool-cases (ltb b.amount_sat n)) [
  | inl low ↦ absurd (none-ne-some l (rw low at h))
  | inr enough ↦
      let (a, bs, e, q, c) =
        cons_to_lem (some (record b { amount_sat = b.amount_sat - n })) r l (rw enough at h) in
      (
        ground arith,
        (bs, q, rw (sym (some-injective (record b { amount_sat = b.amount_sat - n }) a e)) at c),
      )
]

-- A debit that is not refused lowers what is owed by its amount on each row of the account.
pub owed-debit :
    (pool worker : Text) (n : ℕ) (bs bs' : List Balance)
    → debit pool worker n bs ≡ some bs'
    → (owed bs' + stake pool worker n bs ≡ owed bs) × SameAccounts bs bs'
unfolding debit owed stake SameAccounts
owed-debit pool worker n [] bs' h = rw (sym (some-injective [] bs' h)) (omega arith, tt)
owed-debit pool worker n (b ∷ bs) bs' h = elim (Bool-cases (account pool worker b)) [
  | inl hit ↦
      let (le_n, (cs, q, e)) = debit_row_lem b n (debit pool worker n bs) bs' (rw hit at h) in
      let (o, s) = owed-debit pool worker n bs cs q in rw (hit, e) (omega arith, (refl, refl, s))
  | inr miss ↦
      let (a, cs, f, q, e) = cons_to_lem (some b) (debit pool worker n bs) bs' (rw miss at h) in
      let (o, s) = owed-debit pool worker n bs cs q in
      rw (miss, e, sym (some-injective b a f)) (omega arith, (refl, refl, s))
]

add_amount_lem :
    (n : ℕ) (b a : Balance)
    → add_amount n b ≡ some a
    → a ≡ record b { amount_sat = b.amount_sat + n }
add_amount_lem n b a h = elim (Bool-cases (ltb (b.amount_sat + n) (2 ^ 63))) [
  | inl fits ↦ sym (some-injective (record b { amount_sat = b.amount_sat + n }) a (rw fits at h))
  | inr wraps ↦ absurd (none-ne-some a (rw wraps at h))
]

-- A refund that is not refused raises what is owed by its amount on each row of the account.
pub owed-refund :
    (pool worker : Text) (n : ℕ) (bs bs' : List Balance)
    → refund pool worker n bs ≡ some bs'
    → (owed bs' ≡ owed bs + stake pool worker n bs) × SameAccounts bs bs'
unfolding refund owed stake SameAccounts
owed-refund pool worker n [] bs' h = rw (sym (some-injective [] bs' h)) (omega arith, tt)
owed-refund pool worker n (b ∷ bs) bs' h = elim (Bool-cases (account pool worker b)) [
  | inl hit ↦
      let (a, cs, f, q, e) =
        cons_to_lem (add_amount n b) (refund pool worker n bs) bs' (rw hit at h) in
      let (o, s) = owed-refund pool worker n bs cs q in
      rw (hit, e, add_amount_lem n b a f) (omega arith, (refl, refl, s))
  | inr miss ↦
      let (a, cs, f, q, e) = cons_to_lem (some b) (refund pool worker n bs) bs' (rw miss at h) in
      let (o, s) = owed-refund pool worker n bs cs q in
      rw (miss, e, sym (some-injective b a f)) (omega arith, (refl, refl, s))
]

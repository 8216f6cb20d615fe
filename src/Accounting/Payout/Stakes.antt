-- ===== src/Accounting/Payout/Stakes.antt =====
-- What payments come to: on the rows of their accounts, and as a sum.
use qbitx_pool.Base.{
  ◌*◌, if◌then◌else◌, Bool-cases, inl, inr, ℕ, ◌+◌, ◌≡◌, refl, List, [], ◌∷◌, Text, arith,
}
use qbitx_pool.Accounting.Database.{Balance, account}
use qbitx_pool.Accounting.Owed.{stake, stake-SameAccounts, SameAccounts}
use qbitx_pool.Accounting.Payout.{Selected}

-- What the payments come to on the rows of their accounts.
unfoldable pub stakes : Text → List Selected → List Balance → ℕ
unfolding stake
stakes pool [] bs = 0
stakes pool ((worker, n) ∷ rest) bs = stake pool worker n bs + stakes pool rest bs

pub stakes-SameAccounts :
    (pool : Text) (l : List Selected) (as' bs : List Balance)
    → SameAccounts as' bs
    → stakes pool l bs ≡ stakes pool l as'
unfolding stakes
stakes-SameAccounts pool [] as' bs h = refl
stakes-SameAccounts pool ((worker, n) ∷ rest) as' bs h =
    rw (stake-SameAccounts pool worker n as' bs h, stakes-SameAccounts pool rest as' bs h) refl

-- How many rows of the balances are of an account.
unfoldable pub row_count : Text → Text → List Balance → ℕ
row_count pool worker [] = 0
row_count pool worker (b ∷ bs) = (if account pool worker b then 1 else 0) + row_count pool worker bs

stake-row_count :
    (pool worker : Text) (n : ℕ) (bs : List Balance)
    → stake pool worker n bs ≡ n * row_count pool worker bs
unfolding stake row_count
stake-row_count pool worker n [] = omega arith
stake-row_count pool worker n (b ∷ bs) = elim (Bool-cases (account pool worker b)) [
  | inl hit ↦ rw hit (omega (arith, stake-row_count pool worker n bs))
  | inr miss ↦ rw miss (omega (arith, stake-row_count pool worker n bs))
]

-- Each worker that is paid has one balance.
abbrev pub HaveBalances : Text → List Selected → List Balance → Type 0
HaveBalances pool [] bs = Unit
HaveBalances pool ((worker, n) ∷ rest) bs =
    (row_count pool worker bs ≡ 1) × HaveBalances pool rest bs

-- The sum of the payments.
unfoldable pub paid_sum : List Selected → ℕ
paid_sum [] = 0
paid_sum ((worker, n) ∷ rest) = n + paid_sum rest

pub stakes-paid_sum :
    (pool : Text) (l : List Selected) (bs : List Balance)
    → HaveBalances pool l bs
    → stakes pool l bs ≡ paid_sum l
unfolding stakes paid_sum
stakes-paid_sum pool [] bs h = refl
stakes-paid_sum pool ((worker, n) ∷ rest) bs h =
    rw (stake-row_count pool worker n bs, h.0, stakes-paid_sum pool rest bs h.1) (omega arith)

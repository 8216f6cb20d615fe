-- ===== src/Accounting/Worker.antt =====
-- payoutAddressFromWorker and truncate of internal/accounting/payout.go. Worker names are taken to be
-- ASCII, where strings.TrimSpace cuts the six ASCII space characters.
use qbitx_pool.Base.{ℕ, leb, ◌==◌, if◌then◌else◌, Bool, ◌||◌, [], ◌∷◌, reverse, length, take, Text}

unfoldable pub is_space : ℕ → Bool
is_space c = c == 9 || (c == 10 || (c == 11 || (c == 12 || (c == 13 || c == 32))))

unfoldable pub trim_left : Text → Text
unfolding is_space
trim_left [] = []
trim_left (c ∷ s) = if is_space c then trim_left s else c ∷ s

unfoldable pub trim_space : Text → Text
unfolding trim_left
trim_space s = reverse (trim_left (reverse (trim_left s)))

-- `strings.SplitN(worker, ".", 2)[0]`: what stands before the first dot.
unfoldable pub before_dot : Text → Text
before_dot [] = []
before_dot (c ∷ s) = if c == b'.' then [] else c ∷ before_dot s

abbrev address_part : Text → Text
address_part [] = []
address_part (c ∷ s) = trim_space (before_dot (c ∷ s))

unfoldable pub payout_address_from_worker : Text → Text
unfolding trim_space before_dot
payout_address_from_worker worker = address_part (trim_space worker)

unfoldable pub truncate : Text → ℕ → Text
truncate s max = if leb (length s) max then s else take max s

-- ===== src/Daemon/Payments.antt =====
-- SendMany and isValidAddress of internal/daemon/rpc.go.
use qbitx_pool.Base.{
  ◌+◌, ◌≡◌, ◌≢◌, refl, ◌⊎◌, inl, inr, true, false, Bool-cases, none, some, List, [], ◌∷◌, All, Text,
  text_eq, eq→text_eq, text_eq_refl, codes, arith,
}
use qbitx_pool.Base.Results.{Result, ok, err, ◌>>=◌}
use qbitx_pool.Float64.{Float64}
use qbitx_pool.Daemon.{
  RpcRequest, RpcResult, string, number, template, block, null, other, CallError, parse,
  invalid_payout_address, empty_txid, payments, Client, Answers, response, call, to_txid,
  is_valid_address, first_invalid, send_many,
}

-- Some amount goes to the address.
unfoldable pub Pays : Text → List (Text × Float64) → Type 0
Pays a [] = ⊥
Pays a ((b, amount) ∷ rest) = (b ≡ a) ⊎ Pays a rest

first_invalid_cases :
    (amounts : List (Text × Float64))
    → ((first_invalid amounts ≡ none) × All (λ p. is_valid_address p.0 ≡ true) amounts)
      ⊎ ((a : Text) × (first_invalid amounts ≡ some a)
          × Pays a amounts
          × (is_valid_address a ≡ false))
unfolding first_invalid Pays
first_invalid_cases [] = inl (refl, tt)
first_invalid_cases ((b, n) ∷ rest) = elim (Bool-cases (is_valid_address b)) [
  | inr bad ↦ rw bad (inr (b, refl, inl refl, bad))
  | inl good ↦ rw good (elim (first_invalid_cases rest) [
    | inl (none', all) ↦ inl (none', (refl, all))
    | inr (a, e, p, bad) ↦ inr (a, e, inr p, bad)
  ])
]

abbrev pub request_of : List (Text × Float64) → Client → RpcRequest
request_of amounts c = record {
  id = c.next_id + 1;
  method = codes "sendmany";
  params = payments amounts;
}

-- The two ways of SendMany: it names a bad address and sends nothing, or it sends the one request and
-- gives the string that the daemon answers, if there is one and it is not empty.
abbrev pub Sent : Answers → List (Text × Float64) → Client → Client × Result CallError Text → Type 0
Sent answers amounts c o =
    ((a : Text) × Pays a amounts
      × (is_valid_address a ≡ false)
      × (o ≡ (c, err (invalid_payout_address a))))
    ⊎ (All (λ p. is_valid_address p.0 ≡ true) amounts
        × (o.0.requests ≡ request_of amounts c ∷ c.requests)
        × (((txid : Text) × (txid ≢ [])
              × (response (answers (request_of amounts c)) ≡ ok (string txid))
              × (o.1 ≡ ok txid))
            ⊎ ((e : CallError) × (o.1 ≡ err e))))

txid_cases :
    (r : Result CallError RpcResult)
    → ((txid : Text) × (txid ≢ []) × (r ≡ ok (string txid)) × ((r >>= to_txid) ≡ ok txid))
      ⊎ ((e : CallError) × ((r >>= to_txid) ≡ err e))
txid_cases (err e) = inr (e, refl)
txid_cases (ok (string s)) = elim (Bool-cases (text_eq s [])) [
  | inl empty ↦ rw empty (inr (empty_txid, refl))
  | inr full ↦ rw full (inl (s, (λ e. ground (arith, eq→text_eq s [] e, full)), refl, refl))
]
txid_cases (ok null) = inr (empty_txid, rw (text_eq_refl []) refl)
txid_cases (ok (number n)) = inr (parse, refl)
txid_cases (ok (template t)) = inr (parse, refl)
txid_cases (ok (block n)) = inr (parse, refl)
txid_cases (ok other) = inr (parse, refl)

-- SendMany either finds an address that is not valid and sends nothing, or sends one request with all
-- amounts; it succeeds only with a transaction id that is not empty and that the daemon answered
-- without an error.
pub send_many_lem :
    (answers : Answers) (amounts : List (Text × Float64)) (c : Client)
    → Sent answers amounts c (send_many answers amounts c)
unfolding send_many call
send_many_lem answers amounts c = elim (first_invalid_cases amounts) [
  | inr (a, e, p, bad) ↦ rw e (inl (a, p, bad, refl))
  | inl (e, all) ↦ rw e (inr (all, refl, txid_cases (response (answers (request_of amounts c)))))
]

-- ===== src/Daemon/Tests.antt =====
-- The theorem on SendMany at a concrete input, and runs of the client.
use qbitx_pool.Base.{◌≡◌, refl, true, false, none, some, [], ◌∷◌, Text, codes, pos, negsuc}
use qbitx_pool.Base.Results.{ok, err}
use qbitx_pool.Float64.{one_f}
use qbitx_pool.Daemon.{
  string, null, block_rejected, Client, Answers, is_valid_address, send_many, submit_block,
  lookup_block_confirmations,
}
use qbitx_pool.Daemon.Payments.{Sent, send_many_lem}

abbrev client : Client
client = record { next_id = 0; requests = [] }

abbrev address : Text
address = codes "1BoatSLRHtKNngkdXEeobR76b53LETtpyT"

-- A daemon that answers everything with the same string.
abbrev says : Text → Answers
says s r = some (record { result = string s; error = none })

abbrev unknown : Answers
unknown r = some (record {
  result = null;
  error = some (record { code = negsuc 4; message = codes "Block not found" });
})

valid : is_valid_address address ≡ true
unfolding is_valid_address
valid = refl

-- A segwit address has 42 characters.
too_long : is_valid_address (codes "bc1qw508d6qejxtdg4y5r3zarvary0c5xw7kv8f3t4") ≡ false
unfolding is_valid_address
too_long = refl

send_many_lem_example :
    Sent
      (says (codes "t"))
      ((address, one_f) ∷ [])
      client
      (send_many (says (codes "t")) ((address, one_f) ∷ []) client)
send_many_lem_example = send_many_lem (says (codes "t")) ((address, one_f) ∷ []) client

rejected :
    (submit_block (says (codes "high-hash")) (codes "00") client).1
    ≡ err (block_rejected (codes "high-hash"))
unfolding submit_block
rejected = refl

not_found : (lookup_block_confirmations unknown (codes "h") client).1 ≡ ok (pos 0, false)
unfolding lookup_block_confirmations
not_found = refl

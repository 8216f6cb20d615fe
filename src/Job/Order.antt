-- ===== src/Job/Order.antt =====
-- The order of the bytes of the hashes in a job.
use qbitx_pool.Base.{
  arith, ℕ, ◌≡◌, refl, ap, sym, ◌∙◌, Bool, List, [], ◌∷◌, map, reverse, length, All, IsByte, Text,
}
use qbitx_pool.Base.Results.{ok, map_err, >>=_ok, ok_injective}
use qbitx_pool.Hex
use qbitx_pool.Mining.Merkle.{hash_to_string, hex_to_hash32, hex_to_hash32_rev, merkle_branch}
use qbitx_pool.Mining.Merkle.Header.{hex_to_hash32-hash_to_string, hex_to_hash32_rev-hash_to_string}
use qbitx_pool.Job.{Job}
use qbitx_pool.Job.Template.{
  GbtTx, BlockTemplate, CoinbaseConfig, parse_txid, decode_tx_data, parse_prevhash, decoded,
  parse_tx, parse_txs, build_job,
}
use qbitx_pool.Job.Build.{build_job_ok}

abbrev pub IsHash : List ℕ → Type 0
IsHash h = All IsByte h × (length h ≡ 32)

-- The ids of the transactions of a template.
abbrev pub txids : List GbtTx → List Text
txids [] = []
txids (tx ∷ txs) = tx.txid ∷ txids txs

parse_tx_hash :
    (tx : GbtTx) (h : List ℕ) (p : List ℕ × List ℕ)
    → IsHash h
    → tx.txid ≡ hash_to_string h
    → parse_tx tx ≡ ok p
    → p.0 ≡ reverse h
unfolding parse_tx
parse_tx_hash tx h p (b, l) e q =
    let (g, a, f) = >>=_ok (map_err parse_txid (hex_to_hash32 tx.txid)) _ p q in
    let (raw, c, d) = >>=_ok (map_err decode_tx_data (decoded (Hex.decode tx.data_hex))) _ p f in
    sym (ap (λ x. x.0) (ok_injective (g, raw) p d))
    ∙ ok_injective g (reverse h)
        (sym a ∙ ap (map_err parse_txid) (ap hex_to_hash32 e ∙ hex_to_hash32-hash_to_string h b l))

cons_head : {A : Type 0} (a b : A) (as' bs : List A) → a ∷ as' ≡ b ∷ bs → a ≡ b
cons_head a b as' bs e = grind (arith, e)

cons_tail : {A : Type 0} (a b : A) (as' bs : List A) → a ∷ as' ≡ b ∷ bs → as' ≡ bs
cons_tail a b as' bs e = grind (arith, e)

parse_txs_hashes :
    (txs : List GbtTx) (hs : List (List ℕ)) (ps : List (List ℕ × List ℕ))
    → All IsHash hs
    → txids txs ≡ map hash_to_string hs
    → parse_txs txs ≡ ok ps
    → map (λ p. p.0) ps ≡ map reverse hs
unfolding parse_txs
parse_txs_hashes [] [] ps a e q = sym (ap (map (λ p. p.0)) (ok_injective [] ps q))
parse_txs_hashes [] (h ∷ hs) ps a e q = absurd (grind (arith, e))
parse_txs_hashes (tx ∷ txs) [] ps a e q = absurd (grind (arith, e))
parse_txs_hashes (tx ∷ txs) (h ∷ hs) ps a e q =
    let (p, c, f) = >>=_ok (parse_tx tx) _ ps q in
    let (rest, d, g) = >>=_ok (parse_txs txs) _ ps f in
    sym (ap (map (λ x. x.0)) (ok_injective (p ∷ rest) ps g))
    ∙ rw
        (
          parse_tx_hash tx h p a.0 (cons_head _ _ _ _ e) c,
          parse_txs_hashes txs hs rest a.1 (cons_tail _ _ _ _ e) d,
        )
        refl

-- The hash of the previous block is kept in a job with the least significant byte first, as blocks
-- have it, but the hashes of the transactions, over which the branch is built, stay in the order in
-- which the daemon displays them. Conditions: the job is built from a template whose hashes are those
-- of 32 bytes in display form.
pub build_job_order :
    (cfg : CoinbaseConfig) (id : Text) (tpl : BlockTemplate) (clean : Bool) (j : Job)
    (prev : List ℕ) (hs : List (List ℕ))
    → build_job cfg id tpl clean ≡ ok j
    → IsHash prev
    → All IsHash hs
    → tpl.previous_block_hash ≡ hash_to_string prev
    → txids tpl.transactions ≡ map hash_to_string hs
    → (j.prev_hash_bytes ≡ prev)
      × (j.tx_hashes ≡ map reverse hs)
      × (j.merkle_branch ≡ map Hex.encode (merkle_branch (map reverse hs)))
build_job_order cfg id tpl clean j prev hs e (b, l) a p t =
    let (txs, prev', d, f, made) = build_job_ok cfg id tpl clean j e in
    let leaves = parse_txs_hashes tpl.transactions hs txs a t d in
    (
      sym (ap (λ k. k.prev_hash_bytes) made)
          ∙ ok_injective prev' prev (
              sym f
              ∙ ap (map_err parse_prevhash)
                  (ap hex_to_hash32_rev p ∙ hex_to_hash32_rev-hash_to_string prev b l)),
      sym (ap (λ k. k.tx_hashes) made) ∙ leaves,
      sym (ap (λ k. k.merkle_branch) made) ∙ ap (λ h. map Hex.encode (merkle_branch h)) leaves,
    )

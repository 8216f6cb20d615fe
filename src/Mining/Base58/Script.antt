-- ===== src/Mining/Base58/Script.antt =====
-- The output scripts that buildPayoutScript makes.
use qbitx_pool.Base.{
  ℕ, ◌≤◌, ◌≡◌, ltb, none, some, List, [], ◌∷◌, ◌++◌, length, take-append-drop, length-take,
  Bool-cases, take, drop, Text, arith, Option-cases, inl, inr, ◌⊎◌,
}
use qbitx_pool.Mining.Base58.{base58_decode, fallback_script, script_of, build_payout_script}
use qbitx_pool.Mining.Base58.Value.{number, base58_decode_foreign, Decodes, base58_decode-Decodes}

-- The pay-to-public-key-hash script of a 20-byte hash.
unfoldable pub pay_to_hash : List ℕ → List ℕ
pay_to_hash hash = 0x76 ∷ 0xa9 ∷ 0x14 ∷ (hash ++ (0x88 ∷ 0xac ∷ []))

-- An address with a foreign character pays nobody: its output is the OP_RETURN script.
pub build_payout_script-foreign :
    (address : Text) → number address 0 ≡ none → build_payout_script address ≡ fallback_script
unfolding build_payout_script
build_payout_script-foreign address h = rw (base58_decode_foreign address h)

-- The script pays the hash that the address holds behind its version byte.
abbrev pub PaysAddress : Text → List ℕ → Type 0
PaysAddress address script =
    (version : ℕ) × (hash : List ℕ) × (more : List ℕ) × (check : List ℕ) × (script
      ≡ pay_to_hash hash)
    × (length hash ≡ 20)
    × Decodes address (version ∷ (hash ++ more)) check

script_of_long :
    (address : Text) (out : List ℕ)
    → base58_decode address ≡ some out
    → 21 ≤ length out
    → PaysAddress address (script_of (some out))
unfolding pay_to_hash
script_of_long address [] e h = elim h [ ]
script_of_long address (v ∷ r) e h =
    let (check, decodes) = base58_decode-Decodes address (v ∷ r) e in
    let cut : take 20 r ++ drop 20 r ≡ r = take-append-drop 20 r in
    (v, take 20 r, drop 20 r, check, ground arith, length-take 20 r (omega arith), rw cut decodes)

-- Either the output is the OP_RETURN script, or it pays the 20 bytes that the address holds.
build_payout_script_cases :
    (address : Text)
    → (build_payout_script address ≡ fallback_script)
      ⊎ PaysAddress address (build_payout_script address)
unfolding build_payout_script
build_payout_script_cases address = elim (Option-cases (base58_decode address)) [
  | inl e ↦ inl (rw e)
  | inr (out, e) ↦ elim (Bool-cases (ltb (length out) 21)) [
    | inl short ↦ inl (rw (e, short))
    | inr long ↦ inr (rw e (script_of_long address out e (ground arith)))
  ]
]

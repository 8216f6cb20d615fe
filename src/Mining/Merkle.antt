-- ===== src/Mining/Merkle.antt =====
-- DoubleSHA256, MerkleBranch, MerkleRoot, BuildBlockHeader and the hash conversions of
-- internal/mining/mining.go. A [32]byte is a list of 32 bytes.
pub mod Branch
pub mod Header
use qbitx_pool.Base.{
  ℕ, zero, suc, ◌+◌, ◌%◌, ◌^◌, ◌==◌, if◌then◌else◌, Option, none, some, List, [], ◌∷◌, ◌++◌, length,
  Text, ℤ, pattern64, le_bytes, take, drop, replicate,
}
use qbitx_pool.Base.Results.{Result, ok, err, ◌>>=◌}
use qbitx_pool.Hex
use qbitx_pool.Sha256.{sum256}
use qbitx_pool.Mining.Reverse.{reverse_bytes}

unfoldable pub double_sha256 : List ℕ → List ℕ
double_sha256 data_bytes = sum256 (sum256 data_bytes)

-- `DoubleSHA256(append(left[:], right[:]...))`
unfoldable pub combine : List ℕ → List ℕ → List ℕ
combine left right = double_sha256 (left ++ right)

-- `for i := 0; i < len(current); i += 2`: neighbours are combined, a last one without a neighbour with itself.
unfoldable pub next_level : List (List ℕ) → List (List ℕ)
next_level [] = []
next_level (left ∷ []) = combine left left ∷ []
next_level (left ∷ right ∷ rest) = combine left right ∷ next_level rest

-- `for len(current) > 0`. The level gets shorter each round, so as many rounds as there are hashes,
-- and one, are enough.
unfoldable pub branch_loop : ℕ → List (List ℕ) → List (List ℕ) → List (List ℕ)
unfolding next_level
branch_loop zero current branch = branch
branch_loop (suc fuel) [] branch = branch
branch_loop (suc fuel) (first ∷ others) branch =
    let next = next_level (first ∷ others) in
    let stop = (branch ++ (first ∷ [])) ++ next in
    let go = branch_loop fuel next (branch ++ (first ∷ [])) in if length next == 1 then stop else go

unfoldable pub merkle_branch : List (List ℕ) → List (List ℕ)
unfolding branch_loop
merkle_branch tx_hashes = branch_loop (suc (length tx_hashes)) tx_hashes []

unfoldable pub merkle_root : List ℕ → List (List ℕ) → List ℕ
unfolding combine
merkle_root coinbase_hash [] = coinbase_hash
merkle_root coinbase_hash (b ∷ branch) = merkle_root (combine coinbase_hash b) branch

-- HashToString: the bytes in display order, in hexadecimal.
unfoldable pub hash_to_string : List ℕ → Text
hash_to_string h = Hex.encode (reverse_bytes h)

pub data HashError : Type 0 where
  bad_hex : Hex.HexError → HashError
  -- "expected 32 bytes, got %d"
  bad_length : ℕ → HashError

abbrev pub sized : List ℕ × Option Hex.HexError → Result HashError (List ℕ)
sized (b, some e) = err (bad_hex e)
sized (b, none) = if length b == 32 then ok b else err (bad_length (length b))

unfoldable pub hex_to_hash32 : Text → Result HashError (List ℕ)
hex_to_hash32 s = sized (Hex.decode s)

unfoldable pub hex_to_hash32_rev : Text → Result HashError (List ℕ)
unfolding hex_to_hash32
hex_to_hash32_rev s = hex_to_hash32 s >>= λ h. ok (reverse_bytes h)

-- BuildBlockHeader: the fields at 0, 4, 36, 68, 72 and 76 of 80 bytes. `version` is an int32 and the
-- three numbers are uint32.
unfoldable pub build_block_header : ℤ → List ℕ → List ℕ → ℕ → ℕ → ℕ → List ℕ
build_block_header version prev_hash merkle_root timestamp bits nonce =
    le_bytes 4 (pattern64 version)
    ++ (prev_hash
        ++ (merkle_root ++ (le_bytes 4 timestamp ++ (le_bytes 4 bits ++ le_bytes 4 nonce))))

-- ===== src/Mining/Merkle/Branch.antt =====
-- The Merkle tree of a block as Bitcoin defines it, against MerkleBranch and MerkleRoot.
use qbitx_pool.Base.{
  ℕ, zero, suc, ◌+◌, ◌/◌, ◌<◌, ◌≡◌, refl, ◌==◌, List, [], ◌∷◌, ◌++◌, length, arith, Bool-cases, inl,
  inr, ◌∙◌, sym,
}
use mathlib.Core.List.{append_assoc, append-nil}
use qbitx_pool.Sha256.{sum256}
use qbitx_pool.Mining.Merkle.{
  double_sha256, combine, next_level, branch_loop, merkle_branch, merkle_root,
}

-- How Bitcoin hashes a pair, and the level above a level: a last hash without a neighbour is paired
-- with itself.
unfoldable pub pair_hash : List ℕ → List ℕ → List ℕ
pair_hash left right = sum256 (sum256 (left ++ right))

unfoldable pub level_above : List (List ℕ) → List (List ℕ)
unfolding pair_hash
level_above [] = []
level_above (x ∷ []) = pair_hash x x ∷ []
level_above (x ∷ y ∷ rest) = pair_hash x y ∷ level_above rest

-- The root of a list of hashes: levels are combined until one hash is left. The rounds bound the levels.
unfoldable pub tree_root : ℕ → List ℕ → List (List ℕ) → List ℕ
tree_root zero first others = first
tree_root (suc fuel) first [] = first
tree_root (suc fuel) first (second ∷ others) =
    tree_root fuel (pair_hash first second) (level_above others)

-- The root of a block with a coinbase transaction and others.
unfoldable pub block_root : List ℕ → List (List ℕ) → List ℕ
unfolding tree_root
block_root coinbase_hash tx_hashes = tree_root (length tx_hashes) coinbase_hash tx_hashes

-- The branch of the coinbase transaction: its neighbour on each level. The first hash of a level is the
-- coinbase side itself and does not count among the others.
unfoldable pub neighbours : ℕ → List (List ℕ) → List (List ℕ)
neighbours zero others = []
neighbours (suc fuel) [] = []
neighbours (suc fuel) (second ∷ others) = second ∷ neighbours fuel (level_above others)

unfoldable pub coinbase_branch : List (List ℕ) → List (List ℕ)
unfolding neighbours
coinbase_branch tx_hashes = neighbours (length tx_hashes) tx_hashes

root_along :
    (fuel : ℕ) (h : List ℕ) (others : List (List ℕ))
    → merkle_root h (neighbours fuel others) ≡ tree_root fuel h others
unfolding merkle_root neighbours tree_root pair_hash combine double_sha256
root_along zero h others = refl
root_along (suc fuel) h [] = refl
root_along (suc fuel) h (second ∷ others) =
    root_along fuel (pair_hash h second) (level_above others)

-- MerkleRoot, given the branch of the coinbase transaction, gives the root of the block, for any
-- number of transactions.
merkle_root-coinbase_branch :
    (h : List ℕ) (tx_hashes : List (List ℕ))
    → merkle_root h (coinbase_branch tx_hashes) ≡ block_root h tx_hashes
unfolding coinbase_branch block_root
merkle_root-coinbase_branch h tx_hashes = root_along (length tx_hashes) h tx_hashes

-- With one transaction besides the coinbase, whose branch is that transaction alone, the pool's
-- branch makes MerkleRoot hash the right root with one more element, the transaction's pair with
-- itself.
pub merkle_branch_one :
    (h t : List ℕ)
    → (merkle_root h (merkle_branch (t ∷ [])) ≡ pair_hash (block_root h (t ∷ [])) (pair_hash t t))
      × (coinbase_branch (t ∷ []) ≡ t ∷ [])
unfolding merkle_root merkle_branch block_root coinbase_branch pair_hash double_sha256
merkle_branch_one h t = (refl, refl)

-- Half of a level, rounded up.
length-next_level : (l : List (List ℕ)) → length (next_level l) ≡ (length l + 1) / 2
unfolding next_level
length-next_level [] = omega arith
length-next_level (x ∷ []) = omega arith
length-next_level (x ∷ y ∷ l) = omega (arith, length-next_level l)

-- A level of two or more gets shorter, and the loop stops at one: more rounds change nothing.
branch_loop_fuel :
    (fuel : ℕ) (current branch : List (List ℕ))
    → length current < fuel
    → branch_loop fuel current branch ≡ branch_loop (suc fuel) current branch
unfolding branch_loop
branch_loop_fuel zero current branch h = absurd (omega arith)
branch_loop_fuel (suc fuel) [] branch h = refl
branch_loop_fuel (suc fuel) (x ∷ others) branch h =
    elim (Bool-cases (length (next_level (x ∷ others)) == 1)) [
      | inl stop ↦ rw stop
      | inr go ↦ rw go (
          branch_loop_fuel fuel (next_level (x ∷ others)) (branch ++ (x ∷ []))
            (ground (arith, length-next_level (x ∷ others))))
    ]

-- The loop only appends.
branch_loop_prefix :
    (fuel : ℕ) (current branch : List (List ℕ))
    → (more : List (List ℕ)) × (branch_loop fuel current branch ≡ branch ++ more)
unfolding branch_loop
branch_loop_prefix zero current branch = ([], sym (append-nil branch))
branch_loop_prefix (suc fuel) [] branch = ([], sym (append-nil branch))
branch_loop_prefix (suc fuel) (x ∷ others) branch =
    elim (Bool-cases (length (next_level (x ∷ others)) == 1)) [
      | inl stop ↦ (
        x ∷ next_level (x ∷ others),
        rw stop (append_assoc branch (x ∷ []) (next_level (x ∷ others))),
      )
      | inr go ↦
          let (more, e) = branch_loop_prefix fuel (next_level (x ∷ others)) (branch ++ (x ∷ [])) in
          (x ∷ more, rw go (e ∙ append_assoc branch (x ∷ []) more))
    ]

-- The hash that a level pairs with `t`: the one behind it, or itself.
abbrev pub paired_with : List ℕ → List (List ℕ) → List ℕ
paired_with t [] = t
paired_with t (u ∷ rest) = u

level_above_head :
    (t : List ℕ) (rest : List (List ℕ))
    → (more : List (List ℕ)) × (level_above (t ∷ rest) ≡ pair_hash t (paired_with t rest) ∷ more)
unfolding level_above
level_above_head t [] = ([], refl)
level_above_head t (u ∷ rest) = (level_above rest, refl)

branch_loop_head :
    (fuel : ℕ) (x : List ℕ) (others branch : List (List ℕ))
    → (more : List (List ℕ)) × (branch_loop (suc fuel) (x ∷ others) branch
        ≡ (branch ++ (x ∷ [])) ++ more)
unfolding branch_loop
branch_loop_head fuel x others branch = elim (Bool-cases (length (next_level (x ∷ others)) == 1)) [
  | inl stop ↦ (next_level (x ∷ others), rw stop)
  | inr go ↦
      let (more, e) = branch_loop_prefix fuel (next_level (x ∷ others)) (branch ++ (x ∷ [])) in
      (more, rw go e)
]

pool_second :
    (t u : List ℕ) (rest : List (List ℕ))
    → (more : List (List ℕ)) × (merkle_branch (t ∷ u ∷ rest) ≡ t ∷ pair_hash t u ∷ more)
unfolding merkle_branch pair_hash combine double_sha256
pool_second t u rest = elim (Bool-cases (suc (length (next_level rest)) == 1)) [
  | inl stop ↦ (next_level rest, rw stop)
  | inr go ↦
      let (more, e) =
        branch_loop_head (suc (length rest)) (combine t u) (next_level rest) (t ∷ []) in
      (more, rw go (unfold branch_loop in e))
]

right_second :
    (t u : List ℕ) (rest : List (List ℕ))
    → (more : List (List ℕ)) × (coinbase_branch (t ∷ u ∷ rest)
        ≡ t ∷ pair_hash u (paired_with u rest) ∷ more)
unfolding coinbase_branch
right_second t u rest =
    let (more, e) = level_above_head u rest in (neighbours (length rest) (level_above more), rw e)

-- With two transactions or more the second elements part: the pool combines the first transaction
-- with the second, but the neighbour of the coinbase's side is the second with its own neighbour.
pub merkle_branch_second :
    (t u : List ℕ) (rest : List (List ℕ))
    → ((more : List (List ℕ)) × (merkle_branch (t ∷ u ∷ rest) ≡ t ∷ pair_hash t u ∷ more))
      × ((more : List (List ℕ)) × (coinbase_branch (t ∷ u ∷ rest)
            ≡ t ∷ pair_hash u (paired_with u rest) ∷ more))
merkle_branch_second t u rest = (pool_second t u rest, right_second t u rest)

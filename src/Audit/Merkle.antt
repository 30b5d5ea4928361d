-- ===== src/Audit/Merkle.antt =====
-- internal/audit/merkle.go: the root of a list of entry hashes.
use payment_platform.Common.{ℕ, suc, zero, ◌+◌, List, [], ◌∷◌, ◌++◌, length}
use payment_platform.Common.Bytes.{utf8, big_endian}

module _ (sha256 : List ℕ → ℕ) where
  -- An internal node: the domain, both children and the index of the pair.
  unfoldable pub node : ℕ → ℕ → ℕ → ℕ
  node left right index = sha256 (
      utf8 "payment-platform/merkle-node/v1\0"
      ++ (big_endian 32 left ++ (big_endian 32 right ++ big_endian 8 index)))

  -- The next level, its pairs numbered from `index`; an odd last node is paired with itself.
  unfoldable pub pair_up : ℕ → List ℕ → List ℕ
  pair_up index [] = []
  pair_up index (a ∷ []) = node a a index ∷ []
  pair_up index (a ∷ b ∷ rest) = node a b index ∷ pair_up (index + 1) rest

  -- The loop over the levels, on fuel.
  unfoldable pub climb : ℕ → List ℕ → ℕ
  climb rounds [] = 0
  climb rounds (a ∷ []) = a
  climb zero (a ∷ b ∷ rest) = a
  climb (suc rounds) (a ∷ b ∷ rest) = climb rounds (pair_up 0 (a ∷ b ∷ rest))

  -- A level is at most as long as the list of leaves, and each round shortens it.
  unfoldable pub merkle_root : List ℕ → ℕ
  merkle_root [] = sha256 (utf8 "payment-platform/merkle-empty/v1\0")
  merkle_root (leaf ∷ leaves) = climb (length (leaf ∷ leaves)) (leaf ∷ leaves)

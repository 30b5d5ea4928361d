-- ===== src/Audit/Roots.antt =====
-- What `MerkleRoot` of internal/audit/merkle.go computes.
use payment_platform.Common.Bytes.{utf8, big_endian, length-big_endian}
use payment_platform.Common.{
  ◌⊎◌, inl, inr, bytes_cases, append_inj, All, ℕ, suc, zero, ◌+◌, ◌≤◌, ◌<◌, List, [], ◌∷◌, ◌++◌,
  length, ◌≡◌, refl, ap, arith, sym, ◌∙◌,
}
use payment_platform.Audit.Collisions.{IsDigest, big_endian_inj, IsCollision, IsCollision-imp}
use payment_platform.Audit.Merkle.{node, pair_up, climb, merkle_root}

-- The text that an internal node is the digest of.
abbrev pub node_text : ℕ → ℕ → ℕ → List ℕ
node_text left right index =
    utf8 "payment-platform/merkle-node/v1\0"
    ++ (big_endian 32 left ++ (big_endian 32 right ++ big_endian 8 index))

-- The texts of the nodes above one level, its pairs numbered from `index`.
pub data IsPairText (text : List ℕ) : ℕ → List ℕ → Type 0 where
  odd : {a index : ℕ} → text ≡ node_text a a index → IsPairText text index (a ∷ [])
  even :
      {a b index : ℕ} {rest : List ℕ}
      → text ≡ node_text a b index
      → IsPairText text index (a ∷ b ∷ rest)
  onward :
      {a b index : ℕ} {rest : List ℕ}
      → IsPairText text (index + 1) rest
      → IsPairText text index (a ∷ b ∷ rest)

module _ (sha256 : List ℕ → ℕ) where
  -- The levels from the leaves to the root, without a bound.
  pub data IsRoot : List ℕ → ℕ → Type 0 where
    top : {a : ℕ} → IsRoot (a ∷ []) a
    level :
        {a b r : ℕ} {rest : List ℕ}
        → IsRoot (pair_up sha256 0 (a ∷ b ∷ rest)) r
        → IsRoot (a ∷ b ∷ rest) r

  -- A level of two or more nodes is shortened.
  length-pair_up :
      (index : ℕ) (nodes : List ℕ)
      → (length (pair_up sha256 index nodes) ≤ length nodes)
        × (2 ≤ length nodes → length (pair_up sha256 index nodes) < length nodes)
        × (1 ≤ length nodes → 1 ≤ length (pair_up sha256 index nodes))
  unfolding pair_up
  length-pair_up index [] = (ground arith, λ h. ground arith, λ h. ground arith)
  length-pair_up index (a ∷ []) = (ground arith, λ h. ground arith, λ h. ground arith)
  length-pair_up index (a ∷ b ∷ rest) =
      let shorter = (length-pair_up (index + 1) rest).0 in
      (omega (arith, shorter), λ h. omega (arith, shorter), λ h. omega arith)

  climb-IsRoot :
      (rounds : ℕ) (nodes : List ℕ)
      → 1 ≤ length nodes
      → length nodes ≤ rounds + 1
      → IsRoot nodes (climb sha256 rounds nodes)
  unfolding climb
  climb-IsRoot rounds [] h k = ground arith
  climb-IsRoot rounds (a ∷ []) h k = top
  climb-IsRoot zero (a ∷ b ∷ rest) h k = ground arith
  climb-IsRoot (suc rounds) (a ∷ b ∷ rest) h k =
      let (shorter, strictly, some_left) = length-pair_up 0 (a ∷ b ∷ rest) in
      level (
        climb-IsRoot rounds (pair_up sha256 0 (a ∷ b ∷ rest)) (some_left h)
          (omega (arith, strictly (omega arith))))

  -- The rounds that are given suffice: the root of one leaf or more is the top of its levels.
  pub merkle_root-IsRoot :
      (leaf : ℕ) (leaves : List ℕ) → IsRoot (leaf ∷ leaves) (merkle_root sha256 (leaf ∷ leaves))
  unfolding merkle_root
  merkle_root-IsRoot leaf leaves =
      climb-IsRoot (length (leaf ∷ leaves)) (leaf ∷ leaves) (omega arith) (omega arith)

  -- The texts that are hashed on the way from the leaves to the root.
  pub data IsNodeText : List ℕ → List ℕ → Type 0 where
    here :
        {a b : ℕ} {rest text : List ℕ}
        → IsPairText text 0 (a ∷ b ∷ rest)
        → IsNodeText (a ∷ b ∷ rest) text
    above :
        {a b : ℕ} {rest text : List ℕ}
        → IsNodeText (pair_up sha256 0 (a ∷ b ∷ rest)) text
        → IsNodeText (a ∷ b ∷ rest) text

  -- Nodes at one index with one digest have the same children, or their texts collide.
  node-cases :
      (a b c d index : ℕ)
      → IsDigest a
      → IsDigest b
      → IsDigest c
      → IsDigest d
      → node sha256 a b index ≡ node sha256 c d index
      → ((a ≡ c) × (b ≡ d))
        ⊎ IsCollision sha256 (λ t. t ≡ node_text a b index) (λ t. t ≡ node_text c d index)
  unfolding node
  node-cases a b c d index ha hb hc hd e =
      elim (bytes_cases (node_text a b index) (node_text c d index)) [
        | inr differ ↦ inr (record {
          first_text = node_text a b index;
          second_text = node_text c d index;
          first_hashed = refl;
          second_hashed = refl;
          differ = differ;
          same_digest = e;
        })
        | inl same ↦
            let (_, tail) = append_inj domain domain _ _ refl same in
            let (left, tail') =
              append_inj (big_endian 32 a) (big_endian 32 c) _ _ (same_length a c) tail in
            let (right, _) =
              append_inj (big_endian 32 b) (big_endian 32 d) _ _ (same_length b d) tail' in
            inl (big_endian_inj 32 a c ha hc left, big_endian_inj 32 b d hb hd right)
      ]
    where
      domain : List ℕ
      domain = utf8 "payment-platform/merkle-node/v1\0"

      same_length : (x y : ℕ) → length (big_endian 32 x) ≡ length (big_endian 32 y)
      same_length x y = length-big_endian 32 x ∙ sym (length-big_endian 32 y)

  pair_up-cases :
      (index : ℕ) (xs ys : List ℕ)
      → length xs ≡ length ys
      → All IsDigest xs
      → All IsDigest ys
      → pair_up sha256 index xs ≡ pair_up sha256 index ys
      → (xs ≡ ys) ⊎ IsCollision sha256 (λ t. IsPairText t index xs) (λ t. IsPairText t index ys)
  unfolding pair_up
  pair_up-cases index [] [] n h k e = inl refl
  pair_up-cases index [] (y ∷ ys) n h k e = ground arith
  pair_up-cases index (x ∷ xs) [] n h k e = ground arith
  pair_up-cases index (x ∷ []) (y ∷ []) n h k e =
      elim (node-cases x x y y index h.0 h.0 k.0 k.0 cc) [
        | inl same ↦ inl (ap (λ a. a ∷ []) same.0)
        | inr hit ↦ inr (IsCollision-imp (λ t. odd) (λ t. odd) hit)
      ]
  pair_up-cases index (x ∷ []) (y ∷ z ∷ ys) n h k e = ground arith
  pair_up-cases index (x ∷ z ∷ xs) (y ∷ []) n h k e = ground arith
  pair_up-cases index (a ∷ b ∷ xs) (c ∷ d ∷ ys) n h k e =
      elim (node-cases a b c d index h.0 h.1.0 k.0 k.1.0 cc) [
        | inr hit ↦ inr (IsCollision-imp (λ t. even) (λ t. even) hit)
        | inl same ↦ elim (pair_up-cases (index + 1) xs ys (omega (arith, n)) h.1.1 k.1.1 cc) [
          | inr hit ↦ inr (IsCollision-imp (λ t. onward) (λ t. onward) hit)
          | inl rest ↦ inl (ground (arith, same, rest))
        ]
      ]

  same_length-pair_up :
      (index : ℕ) (xs ys : List ℕ)
      → length xs ≡ length ys
      → length (pair_up sha256 index xs) ≡ length (pair_up sha256 index ys)
  unfolding pair_up
  same_length-pair_up index [] [] n = refl
  same_length-pair_up index [] (y ∷ ys) n = ground arith
  same_length-pair_up index (x ∷ xs) [] n = ground arith
  same_length-pair_up index (x ∷ []) (y ∷ []) n = refl
  same_length-pair_up index (x ∷ []) (y ∷ z ∷ ys) n = ground arith
  same_length-pair_up index (x ∷ z ∷ xs) (y ∷ []) n = ground arith
  same_length-pair_up index (a ∷ b ∷ xs) (c ∷ d ∷ ys) n =
      omega (arith, same_length-pair_up (index + 1) xs ys (omega (arith, n)))

  module _ (digests : (x : List ℕ) → IsDigest (sha256 x)) where
    All-pair_up : (index : ℕ) (xs : List ℕ) → All IsDigest (pair_up sha256 index xs)
    unfolding pair_up node
    All-pair_up index [] = tt
    All-pair_up index (x ∷ []) = (digests _, tt)
    All-pair_up index (a ∷ b ∷ xs) = (digests _, All-pair_up (index + 1) xs)

    climb-cases :
        (rounds : ℕ) (xs ys : List ℕ)
        → length xs ≡ length ys
        → length xs ≤ rounds + 1
        → All IsDigest xs
        → All IsDigest ys
        → climb sha256 rounds xs ≡ climb sha256 rounds ys
        → (xs ≡ ys) ⊎ IsCollision sha256 (IsNodeText xs) (IsNodeText ys)
    unfolding climb
    climb-cases rounds [] [] n l h k e = inl refl
    climb-cases rounds [] (y ∷ ys) n l h k e = ground arith
    climb-cases rounds (x ∷ xs) [] n l h k e = ground arith
    climb-cases rounds (x ∷ []) (y ∷ []) n l h k e = inl (ap (λ a. a ∷ []) e)
    climb-cases rounds (x ∷ []) (y ∷ z ∷ ys) n l h k e = ground arith
    climb-cases rounds (x ∷ z ∷ xs) (y ∷ []) n l h k e = ground arith
    climb-cases zero (a ∷ b ∷ xs) (c ∷ d ∷ ys) n l h k e = ground arith
    climb-cases (suc rounds) (a ∷ b ∷ xs) (c ∷ d ∷ ys) n l h k e =
        elim (climb-cases rounds (pair_up sha256 0 (a ∷ b ∷ xs)) (pair_up sha256 0 (c ∷ d ∷ ys))
          (same_length-pair_up 0 (a ∷ b ∷ xs) (c ∷ d ∷ ys) n)
          (omega (arith, (length-pair_up 0 (a ∷ b ∷ xs)).1 (omega arith), l))
          (All-pair_up 0 (a ∷ b ∷ xs)) (All-pair_up 0 (c ∷ d ∷ ys)) e) [
            | inr hit ↦ inr (IsCollision-imp (λ t. above) (λ t. above) hit)
            | inl same ↦ elim (pair_up-cases 0 (a ∷ b ∷ xs) (c ∷ d ∷ ys) n h k same) [
              | inr hit ↦ inr (IsCollision-imp (λ t. here) (λ t. here) hit)
              | inl leaves ↦ inl leaves
            ]
          ]

    -- The root binds the leaves: two lists of as many 32-byte leaves with one root are the same list, or
    -- two different texts that are hashed on the way to the one root and to the other have one digest, where
    -- digests have 32 bytes.
    pub merkle_root-cases :
        (xs ys : List ℕ)
        → length xs ≡ length ys
        → All IsDigest xs
        → All IsDigest ys
        → merkle_root sha256 xs ≡ merkle_root sha256 ys
        → (xs ≡ ys) ⊎ IsCollision sha256 (IsNodeText xs) (IsNodeText ys)
    unfolding merkle_root
    merkle_root-cases [] [] n h k e = inl refl
    merkle_root-cases [] (y ∷ ys) n h k e = ground arith
    merkle_root-cases (x ∷ xs) [] n h k e = ground arith
    merkle_root-cases (x ∷ xs) (y ∷ ys) n h k e =
        climb-cases (length (x ∷ xs)) (x ∷ xs) (y ∷ ys) n (omega arith) h k
          (e ∙ ap (λ m. climb sha256 m (y ∷ ys)) (sym n))

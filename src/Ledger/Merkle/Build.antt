-- ===== src/Ledger/Merkle/Build.antt =====
-- The levels of a Merkle tree (legacy/worker/src/daemon/credit_ledger.py, `MerkleTree._build_tree`).
use distrib_ai.Base.{ℕ, zero, suc, ◌+◌, ◌/◌, ◌≤◌, ◌≡◌, refl, List, [], ◌∷◌, some, length, arith}
use distrib_ai.Ledger.Types.{Platform}
use distrib_ai.Ledger.Merkle.{MerkleNode, next_level, build_from, build_tree}

module _ (p : Platform) where
  -- The next level of a level of n nodes has (n + 1) / 2 nodes.
  pub next_level-length :
      (nodes : List MerkleNode) → length (next_level p nodes) ≡ (length nodes + 1) / 2
  unfolding next_level
  next_level-length [] = refl
  next_level-length (x ∷ []) = refl
  next_level-length (x ∷ (y ∷ nodes)) = omega (arith, next_level-length nodes)

  build_from-some :
      (fuel : ℕ) (x : MerkleNode) (nodes : List MerkleNode)
      → length nodes ≤ fuel
      → (top : MerkleNode) × (build_from p fuel (x ∷ nodes) ≡ some top)
  unfolding build_from
  build_from-some fuel x [] h = (x, refl)
  build_from-some zero x (y ∷ nodes) h = absurd (omega arith)
  build_from-some (suc fuel) x (y ∷ nodes) h =
      unfold next_level in
      build_from-some fuel _ (next_level p nodes) (omega (arith, next_level-length nodes))

  -- Every list of nodes that is not empty has a tree: the levels get shorter until one node is left.
  pub build_tree_total :
      (x : MerkleNode) (nodes : List MerkleNode)
      → (top : MerkleNode) × (build_tree p (x ∷ nodes) ≡ some top)
  unfolding build_tree
  build_tree_total x nodes = build_from-some (length (x ∷ nodes)) x nodes (omega arith)

-- ===== src/Ledger/Merkle.antt =====
-- `MerkleTree` (legacy/worker/src/daemon/credit_ledger.py). A node is a leaf, with a hash alone, or
-- has two children and a hash; `==` of nodes compares them whole, as dataclasses do. The recursions
-- on levels and parents take fuel: Merkle/Build.antt is about it.
pub mod Build
use distrib_ai.Base.{
  ℕ, zero, suc, ◌+◌, ◌/◌, ◌%◌, ◌^◌, Bool, true, false, ◌&&◌, ◌||◌, ◌==◌, List, [], ◌∷◌, ◌++◌,
  Option, none, some, if◌then◌else◌, length, map, get_elem?,
}
use distrib_ai.Ledger.Types.{Bytes, same_bytes, Platform}

pub data MerkleNode : Type 0 where
  leaf : (hash : Bytes) → MerkleNode
  branch : (left right : MerkleNode) (hash : Bytes) → MerkleNode

abbrev pub hash_of : MerkleNode → Bytes
hash_of (leaf h) = h
hash_of (branch l r h) = h

-- `a == b` of two nodes.
pub same_node : MerkleNode → MerkleNode → Bool
same_node (leaf h) (leaf k) = same_bytes h k
same_node (branch l r h) (branch l' r' k) = same_node l l' && (same_node r r' && same_bytes h k)
same_node _ _ = false

-- `_find_parent`: the first node, depth first, that has the node as a child.
pub find_parent : MerkleNode → MerkleNode → Option MerkleNode
unfolding same_node
find_parent (leaf h) node = none
find_parent (branch l r h) node =
    let in_left = find_parent l node in
    let in_right = find_parent r node in
    if same_node (branch l r h) node
    then none
    else if same_node l node || same_node r node
    then some (branch l r h)
    else elim in_left [ some parent ↦ some parent | none ↦ in_right ]

module _ (p : Platform) where
  -- The next level: pairs, the last node of an odd level with itself.
  pub next_level : List MerkleNode → List MerkleNode
  next_level [] = []
  next_level (x ∷ []) = branch x x (p.sha256 (hash_of x ++ hash_of x)) ∷ []
  next_level (x ∷ (y ∷ nodes)) = branch x y (p.sha256 (hash_of x ++ hash_of y)) ∷ next_level nodes

  pub build_from : ℕ → List MerkleNode → Option MerkleNode
  unfolding next_level
  build_from fuel [] = none
  build_from fuel (x ∷ []) = some x
  build_from zero (x ∷ (y ∷ nodes)) = none
  build_from (suc fuel) (x ∷ (y ∷ nodes)) = build_from fuel (next_level (x ∷ (y ∷ nodes)))

  -- `_build_tree`: a level more than one node long is longer than the next one.
  pub build_tree : List MerkleNode → Option MerkleNode
  unfolding build_from
  build_tree nodes = build_from (length nodes) nodes

  -- `MerkleTree(data_hashes).root` and `root_hash()`.
  abbrev pub root : List Bytes → Option MerkleNode
  root hashes = build_tree (map leaf hashes)

  unfoldable pub root_hash : List Bytes → Bytes
  unfolding build_tree
  root_hash hashes = elim (root hashes) [ none ↦ [] | some r ↦ hash_of r ]

  -- The `while` loop of `get_proof`: the siblings on the way from a node to the root.
  pub climb : ℕ → MerkleNode → MerkleNode → List Bytes
  unfolding find_parent
  climb zero top node = []
  climb (suc fuel) top node = if same_node node top then [] else elim (find_parent top node) [
    | none ↦ []
    | some (leaf h) ↦ []
    | some (branch l r h) ↦
        (if same_node l node then hash_of r else hash_of l) ∷ climb fuel top (branch l r h)
  ]

  -- `MerkleTree(data_hashes).get_proof(index)`, for an index that is not negative.
  pub get_proof : List Bytes → ℕ → List Bytes
  unfolding climb build_tree
  get_proof hashes index = elim (get_elem? hashes index) [
    | none ↦ []
    | some h ↦ elim (root hashes) [ none ↦ [] | some top ↦ climb (length hashes) top (leaf h) ]
  ]

  -- The loop of `verify_proof`: `(index >> i) & 1` chooses the order.
  fold_proof : Bytes → List Bytes → ℕ → ℕ → Bytes
  fold_proof hash [] index i = hash
  fold_proof hash (sibling ∷ proof) index i =
      fold_proof (p.sha256 (if index / 2 ^ i % 2 == 0 then hash ++ sibling else sibling ++ hash))
        proof index (i + 1)

  pub verify_proof : Bytes → Bytes → List Bytes → ℕ → Bool
  unfolding fold_proof
  verify_proof expected content proof index =
      same_bytes (fold_proof (p.sha256 content) proof index 0) expected

-- ===== src/Examples/Trees.antt =====
-- The trees' theorems at concrete trees.
use darknyx_capstone_project.Base.{
  ◌+◌, get_or_past, ℕ, refl, true, arith, ◌⊎◌, ◌≡◌, replicate, List, [], ◌∷◌, length,
}
use darknyx_capstone_project.LatestLeaf.RightPath.{append_walk-IsRightPath, IsRightPath}
use darknyx_capstone_project.Shadow.Witness.{witness_verifies, witness-witness_of, witness_of}
use darknyx_capstone_project.Shadow.Root.{
  compute_root-tree_root, append-tree_root, placed, leaf_at, IsTree,
}
use darknyx_capstone_project.Merkle.{path_bits, tree_root}
use darknyx_capstone_project.LatestLeaf.Agreement.{append-append_walk, prior_right_path-witness}
use darknyx_capstone_project.Inclusion.Proofs.{inclusion_complete, inclusion_binding, Collision}
use darknyx_capstone_project.Shadow.{
  tree_depth, init_zero, witness, compute_root, append, MerkleWitness, MerkleShadow,
}
use darknyx_capstone_project.LatestLeaf.{
  compute_zero_subtree_roots, append_walk, right_path_after, witness_from_prior_right_path,
}
use darknyx_capstone_project.Merkle.Path.{fold_path}
use darknyx_capstone_project.Inclusion.{
  compute_inclusion_path, equal_bytes, compute_inclusion_root, sha256_hash, InclusionPath,
  verify_inclusion_path,
}
use darknyx_capstone_project.Examples.{toy_sha256, leaf_of, toy_hash}
use darknyx_capstone_project.Errors.{ok}
use darknyx_capstone_project.Bytes.{zeros, Bytes}

abbrev sample_tree : MerkleShadow
sample_tree = record {
  leaf_count = 3;
  leaves = leaf_of 1 ∷ leaf_of 2 ∷ leaf_of 3 ∷ [];
  zero_subtree_roots = init_zero toy_hash 20 (zeros 32);
}

sample_tree-IsTree : IsTree toy_hash sample_tree
sample_tree-IsTree = record { counted = refl; zero_roots = refl }

abbrev sample_right_path : List Bytes
sample_right_path = replicate 20 (zeros 32)

prior_right_path-witness_example :
    witness_from_prior_right_path toy_hash
      (leaf_of 4)
      3
      (right_path_after toy_hash sample_right_path 0 sample_tree.leaves)
    ≡ witness toy_hash (append toy_hash sample_tree (leaf_of 4)).0 3
prior_right_path-witness_example =
    prior_right_path-witness toy_hash sample_tree (leaf_of 4) sample_right_path sample_tree-IsTree
      refl refl (omega arith)

append-append_walk_example :
    (append toy_hash sample_tree (leaf_of 4)).1
    ≡ ok
        (append_walk toy_hash
          (compute_zero_subtree_roots toy_hash)
          (right_path_after toy_hash sample_right_path 0 sample_tree.leaves)
          3
          (leaf_of 4)).1
append-append_walk_example =
    append-append_walk toy_hash sample_tree (leaf_of 4) sample_right_path sample_tree-IsTree refl
      (omega arith)

witness_verifies_example :
    (w : MerkleWitness) × (witness toy_hash sample_tree 1 ≡ ok w)
    × (compute_root toy_hash sample_tree ≡ ok w.root)
    × (fold_path toy_hash (leaf_of 2) 1 w.siblings ≡ w.root)
    × (length w.siblings ≡ tree_depth)
    × (w.indices ≡ path_bits tree_depth 1)
witness_verifies_example =
    witness_verifies toy_hash sample_tree 1 sample_tree-IsTree (omega arith) (omega arith)

witness-witness_of_example :
    witness toy_hash sample_tree 2
    ≡ ok (witness_of toy_hash (leaf_at (zeros 32) sample_tree.leaves) tree_depth 2)
witness-witness_of_example =
    witness-witness_of toy_hash sample_tree 2 sample_tree-IsTree (omega arith) (omega arith)

compute_root-tree_root_example :
    compute_root toy_hash sample_tree
    ≡ ok (tree_root toy_hash (leaf_at (zeros 32) sample_tree.leaves) tree_depth)
compute_root-tree_root_example = compute_root-tree_root toy_hash sample_tree sample_tree-IsTree

append-tree_root_example :
    IsTree toy_hash (append toy_hash sample_tree (leaf_of 4)).0
    × ((append toy_hash sample_tree (leaf_of 4)).0.leaf_count ≡ sample_tree.leaf_count + 1)
    × ((i : ℕ)
        → leaf_at (zeros 32) (append toy_hash sample_tree (leaf_of 4)).0.leaves i
          ≡ placed (leaf_at (zeros 32) sample_tree.leaves) sample_tree.leaf_count (leaf_of 4) i)
    × ((append toy_hash sample_tree (leaf_of 4)).1
        ≡ ok (
            tree_root toy_hash
              (placed (leaf_at (zeros 32) sample_tree.leaves) sample_tree.leaf_count (leaf_of 4))
              tree_depth))
append-tree_root_example = append-tree_root toy_hash sample_tree (leaf_of 4) sample_tree-IsTree

inclusion_complete_example :
    (root : Bytes) × (path : InclusionPath) × (compute_inclusion_root toy_sha256 sample_tree.leaves
      ≡ ok root)
    × (compute_inclusion_path toy_sha256 sample_tree.leaves 2 ≡ ok path)
    × (verify_inclusion_path toy_sha256 (leaf_of 3) 2 path.siblings root ≡ true)
inclusion_complete_example = inclusion_complete toy_sha256 sample_tree.leaves 2 (omega arith)

-- The toy digest is the message's length: two leaves open one root.
inclusion_binding_example : (leaf_of 1 ≡ leaf_of 2) ⊎ Collision toy_sha256
unfolding verify_inclusion_path sha256_hash equal_bytes
inclusion_binding_example =
    inclusion_binding toy_sha256 (λ message. refl) (leaf_of 1) (leaf_of 2) (leaf_of 64) 0
      (leaf_of 3 ∷ []) (leaf_of 4 ∷ []) refl refl refl (refl, tt) (refl, tt) refl refl

abbrev two_leaves : ℕ → Bytes
two_leaves = leaf_at (zeros 32) (leaf_of 1 ∷ leaf_of 2 ∷ [])

append_walk-IsRightPath_example :
    IsRightPath toy_hash two_leaves 2 1
      (append_walk toy_hash
        (init_zero toy_hash 2 (zeros 32))
        (leaf_of 1 ∷ zeros 32 ∷ [])
        1
        (leaf_of 2)).0
    × IsRightPath toy_hash two_leaves 2 2
        (append_walk toy_hash
          (init_zero toy_hash 2 (zeros 32))
          (leaf_of 1 ∷ zeros 32 ∷ [])
          1
          (leaf_of 2)).0
append_walk-IsRightPath_example =
    append_walk-IsRightPath toy_hash 2 1 (zeros 32) two_leaves (leaf_of 1 ∷ zeros 32 ∷ [])
      (λ odd. refl, (λ odd. absurd (omega arith), tt))
      (λ i lt. get_or_past (leaf_of 1 ∷ leaf_of 2 ∷ []) i (zeros 32) lt)

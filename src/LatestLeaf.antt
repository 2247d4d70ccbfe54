-- ===== src/LatestLeaf.antt =====
-- apps/demo/src/lib/dapp/merkle-witness.ts: the witness of the newest leaf, from the vault's
-- `right_path` as it was before the append; and the loop of the vault's own `append_leaf`
-- (programs/vault/src/merkle.rs), whose `right_path` the code is handed. `bigint` leaf indices are
-- natural numbers, and the cache of the zero roots is the function that it caches.
pub mod RightPath
pub mod Agreement
use darknyx_capstone_project.Base.{
  ℕ, zero, suc, ◌/◌, ◌%◌, List, [], ◌∷◌, ◌==◌, if◌then◌else◌, length, not,
}
use darknyx_capstone_project.Errors.{Result, ok, other_error, ◌>>◌, throw_if}
use darknyx_capstone_project.Bytes.{Bytes, zeros}
use darknyx_capstone_project.Shadow.{MerkleWitness}

abbrev pub merkle_depth : ℕ
merkle_depth = 20

module _ (poseidon_pair : Bytes → Bytes → Bytes) where
  zero_roots_loop : ℕ → Bytes → List Bytes
  zero_roots_loop zero cur = []
  zero_roots_loop (suc n) cur = cur ∷ zero_roots_loop n (poseidon_pair cur cur)

  unfoldable pub compute_zero_subtree_roots : List Bytes
  unfolding zero_roots_loop
  compute_zero_subtree_roots = zero_roots_loop merkle_depth (zeros 32)

  -- The loop of `witnessFromPriorRightPath` over `zeros` and `priorRightPath`, which are of one
  -- length there; `idx` is `leafIndex >> d`.
  unfoldable pub walk : List Bytes → List Bytes → ℕ → Bytes → MerkleWitness
  walk [] rights idx cur = record { root = cur; siblings = []; indices = [] }
  walk (z ∷ zs) [] idx cur = record { root = cur; siblings = []; indices = [] }
  walk (z ∷ zs) (r ∷ rights) idx cur =
      let rest =
        walk zs rights (idx / 2)
          (if idx % 2 == 0 then poseidon_pair cur z else poseidon_pair r cur) in
      record {
        root = rest.root;
        siblings = (if idx % 2 == 0 then z else r) ∷ rest.siblings;
        indices = (idx % 2) ∷ rest.indices;
      }

  unfoldable pub witness_from_prior_right_path : Bytes → ℕ → List Bytes → Result MerkleWitness
  unfolding compute_zero_subtree_roots walk
  witness_from_prior_right_path leaf leaf_index prior_right_path = do
    throw_if (not (length leaf == 32)) other_error
    throw_if (not (length prior_right_path == merkle_depth)) other_error
    ok (walk compute_zero_subtree_roots prior_right_path leaf_index leaf)

  -- The level loop of the vault's `append_leaf`: the right path after it, and the new root.
  unfoldable pub append_walk : List Bytes → List Bytes → ℕ → Bytes → List Bytes × Bytes
  append_walk [] rights idx cur = ([], cur)
  append_walk (z ∷ zs) [] idx cur = ([], cur)
  append_walk (z ∷ zs) (r ∷ rights) idx cur =
      let rest =
        append_walk zs rights (idx / 2)
          (if idx % 2 == 0 then poseidon_pair cur z else poseidon_pair r cur) in
      ((if idx % 2 == 0 then cur else r) ∷ rest.0, rest.1)

  -- The vault's right path after the leaves are appended in order, the first at index `count`.
  unfoldable pub right_path_after : List Bytes → ℕ → List Bytes → List Bytes
  unfolding append_walk compute_zero_subtree_roots
  right_path_after rights count [] = rights
  right_path_after rights count (leaf ∷ leaves) =
      right_path_after (append_walk compute_zero_subtree_roots rights count leaf).0 (suc count)
        leaves

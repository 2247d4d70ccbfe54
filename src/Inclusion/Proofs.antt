-- ===== src/Inclusion/Proofs.antt =====
-- packages/sdk/src/batch/inclusion-proof.ts: completeness and binding of inclusion paths.
use mathlib.Core.List.{◌++◌}
use darknyx_capstone_project.Base.{
  ℕ, zero, suc, ◌<◌, ◌≤◌, List, [], ◌∷◌, true, false, leb, ◌==◌, length, get_or, take, drop, ◌≡◌,
  ◌≢◌, ◌⊎◌, refl, sym, ap, ◌∙◌, subst, arith, Bool-cases, inl, inr, eq→==, take-append, drop-append,
}
use darknyx_capstone_project.Errors.{ok, err, other_error}
use darknyx_capstone_project.Bytes.{Bytes}
use darknyx_capstone_project.Bytes.Words.{same_bytes_iff, same_bytes_refl}
use darknyx_capstone_project.Merkle.{tree_root, auth_path, path_bits, pow2}
use darknyx_capstone_project.Merkle.Path.{fold_path, fold_path-auth_path}
use darknyx_capstone_project.Merkle.Levels.{tabulate, length-tabulate}
use darknyx_capstone_project.Merkle.Binding.{All, PairCollision, fold_path_binding}
use darknyx_capstone_project.Inclusion.{
  InclusionPath, padded, sha256_hash, root_loop, path_loop, compute_inclusion_root,
  compute_inclusion_path, verify_inclusion_path, equal_bytes, last_leaf,
}
use darknyx_capstone_project.Inclusion.Loops.{
  padded_at, padded-tabulate, suc-le-pow2, root_loop-tree_root, path_loop-auth_path,
}
use native.Mathlib.Decide.{ℕ_discrete}

pub Bytes-discrete : Discrete Bytes
Bytes-discrete = hlevel ℕ_discrete

equal_bytes_refl : (b : Bytes) → equal_bytes b b ≡ true
unfolding equal_bytes
equal_bytes_refl b = rw (eq→== (length b) (length b) refl) (same_bytes_refl b)

equal_bytes→eq : (a b : Bytes) → equal_bytes a b ≡ true → a ≡ b
unfolding equal_bytes
equal_bytes→eq a b h = elim (Bool-cases (length a == length b)) [
  | inl same ↦ same_bytes_iff a b (rw same at h)
  | inr other ↦ absurd (ground arith)
]

-- Two messages with one digest.
pub record Collision (sha256 : Bytes → Bytes) : Type 0 where
  pub message : Bytes
  pub message' : Bytes
  pub same_digest : sha256 message ≡ sha256 message'
  pub differ : message ≢ message'

abbrev pub Is32 : Bytes → Type 0
Is32 b = length b ≡ 32

module _ (sha256 : Bytes → Bytes) where
  -- The loops run on the padded leaves and do not fail.
  in_tree :
      (leaves : List Bytes)
      → (k : ℕ) × (padded leaves ≡ tabulate (padded_at leaves) (pow2 k))
        × (length leaves ≤ pow2 k)
        × (k < length (padded leaves))
  in_tree leaves =
      let (k, e, fits) = padded-tabulate leaves in
      (k, e, fits, rw e (rw length-tabulate (suc-le-pow2 k)))

  root_of_padded :
      (x : Bytes) (l : List Bytes) (k : ℕ)
      → padded (x ∷ l) ≡ tabulate (padded_at (x ∷ l)) (pow2 k)
      → k < length (padded (x ∷ l))
      → compute_inclusion_root sha256 (x ∷ l)
        ≡ ok (tree_root (sha256_hash sha256) (padded_at (x ∷ l)) k)
  unfolding compute_inclusion_root
  root_of_padded x l k e fuel =
      ap (root_loop sha256 (length (padded (x ∷ l)))) e
      ∙ root_loop-tree_root sha256 k (length (padded (x ∷ l))) (padded_at (x ∷ l)) fuel

  path_of_padded :
      (leaves : List Bytes) (k index : ℕ)
      → padded leaves ≡ tabulate (padded_at leaves) (pow2 k)
      → k < length (padded leaves)
      → index < length leaves
      → index < pow2 k
      → compute_inclusion_path sha256 leaves index
        ≡ ok (record {
          siblings = auth_path (sha256_hash sha256) (padded_at leaves) k index;
          path_indices = path_bits k index;
        })
  unfolding compute_inclusion_path
  path_of_padded leaves k index e fuel lt small =
      let inside : leb (length leaves) index ≡ false = ground arith in
      rw inside (
        ap (λ level. path_loop sha256 (length (padded leaves)) level index) e
        ∙ path_loop-auth_path sha256 k (length (padded leaves)) index (padded_at leaves) fuel small)

  -- For every leaf of a batch the root and the path are computed without an error, and the path
  -- verifies that leaf at its index against that root.
  pub inclusion_complete :
      (leaves : List Bytes) (index : ℕ)
      → index < length leaves
      → (root : Bytes) × (path : InclusionPath) × (compute_inclusion_root sha256 leaves ≡ ok root)
        × (compute_inclusion_path sha256 leaves index ≡ ok path)
        × (verify_inclusion_path sha256 (get_or leaves index []) index path.siblings root ≡ true)
  unfolding verify_inclusion_path
  inclusion_complete [] index lt = absurd (omega arith)
  inclusion_complete (x ∷ l) index lt =
      let (k, e, fits, fuel) = in_tree (x ∷ l) in
      let small : index < pow2 k = omega arith in
      let hash = sha256_hash sha256 in
      let f = padded_at (x ∷ l) in
      (
        tree_root hash f k,
        record { siblings = auth_path hash f k index; path_indices = path_bits k index },
        root_of_padded x l k e fuel,
        path_of_padded (x ∷ l) k index e fuel lt small,
        subst
            (λ leaf.
              equal_bytes (fold_path hash leaf index (auth_path hash f k index))
                (tree_root hash f k)
              ≡ true)
            (same_leaf (x ∷ l) index lt)
            (subst (λ r. equal_bytes r (tree_root hash f k) ≡ true)
              (sym (fold_path-auth_path hash f k index small))
              (equal_bytes_refl (tree_root hash f k))),
      )
    where
      same_leaf :
          (leaves : List Bytes) (i : ℕ)
          → i < length leaves
          → padded_at leaves i ≡ get_or leaves i []
      same_leaf leaves i h = either_filler leaves i (last_leaf leaves) [] h
        where
          either_filler :
              (xs : List Bytes) (j : ℕ) (d d' : Bytes)
              → j < length xs
              → get_or xs j d ≡ get_or xs j d'
          either_filler [] j d d' p = absurd (omega arith)
          either_filler (y ∷ ys) zero d d' p = refl
          either_filler (y ∷ ys) (suc j) d d' p = either_filler ys j d d' (omega arith)

  -- An index past the last leaf is refused.
  pub inclusion_out_of_range :
      (leaves : List Bytes) (index : ℕ)
      → length leaves ≤ index
      → compute_inclusion_path sha256 leaves index ≡ err other_error
  unfolding compute_inclusion_path
  inclusion_out_of_range leaves index h =
      let outside : leb (length leaves) index ≡ true = ground arith in rw outside

  message-Collision : PairCollision Is32 (sha256_hash sha256) → Collision sha256
  unfolding sha256_hash
  message-Collision c = record {
    message = c.left ++ c.right;
    message' = c.left' ++ c.right';
    same_digest = c.same_hash;
    differ = λ e. elim c.differ [
      | inl left ↦ left (
          sym (take-append 32 c.left c.right c.left_sized)
          ∙ ap (take 32) e
          ∙ take-append 32 c.left' c.right' c.left_sized')
      | inr right ↦ right (
          sym (drop-append 32 c.left c.right c.left_sized)
          ∙ ap (drop 32) e
          ∙ drop-append 32 c.left' c.right' c.left_sized')
    ];
  }

  -- Two paths of one length and of 32-byte entries, which verify two 32-byte leaves at one index
  -- against one root: the leaves are equal, or two messages with one SHA-256 digest are exhibited.
  -- SHA-256 digests have 32 bytes.
  pub inclusion_binding :
      ((message : Bytes) → Is32 (sha256 message))
      → (leaf leaf' root : Bytes) (index : ℕ) (siblings siblings' : List Bytes)
      → length siblings ≡ length siblings'
      → Is32 leaf
      → Is32 leaf'
      → All Is32 siblings
      → All Is32 siblings'
      → verify_inclusion_path sha256 leaf index siblings root ≡ true
      → verify_inclusion_path sha256 leaf' index siblings' root ≡ true
      → (leaf ≡ leaf') ⊎ Collision sha256
  unfolding verify_inclusion_path
  inclusion_binding digest leaf leaf' root index siblings siblings' n h h' s s' v v' =
      let hash = sha256_hash sha256 in
      let opened : fold_path hash leaf index siblings ≡ fold_path hash leaf' index siblings' =
        equal_bytes→eq _ root v ∙ sym (equal_bytes→eq _ root v') in
      elim (fold_path_binding hash Is32 Bytes-discrete
        (unfold sha256_hash in λ a b. digest (a ++ b)) index leaf leaf' siblings siblings' n h h' s
        s' opened) [ inl same ↦ inl same | inr collision ↦ inr (message-Collision collision) ]

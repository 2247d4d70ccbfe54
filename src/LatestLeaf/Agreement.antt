-- ===== src/LatestLeaf/Agreement.antt =====
-- apps/demo/src/lib/dapp/merkle-witness.ts against apps/demo/src/lib/dapp/merkle-shadow.ts and the
-- append loop of programs/vault/src/merkle.rs.
use darknyx_capstone_project.Base.{
  ◌^◌, ℕ, zero, suc, ◌+◌, ◌-◌, ◌/◌, ◌%◌, ◌<◌, ◌≤◌, List, [], ◌∷◌, ◌++◌, ◌==◌, if◌then◌else◌, length,
  ◌≡◌, refl, sym, ap, subst, ◌∙◌, arith, Bool-cases, inl, inr, eq→==, length-append, append_assoc,
  get_or-append_left, get_or-append_last, get_or_past, append-nil,
}
use darknyx_capstone_project.Errors.{ok}
use darknyx_capstone_project.Bytes.{Bytes, zeros}
use darknyx_capstone_project.Merkle.{parents, pow2, pow2-suc, pow2-eq, sibling_of}
use darknyx_capstone_project.Shadow.{
  MerkleWitness, MerkleShadow, tree_depth, init_zero, append, witness,
}
use darknyx_capstone_project.Shadow.Root.{leaf_at, IsTree, append-IsTree, compute_root-tree_root}
use darknyx_capstone_project.Shadow.Witness.{witness_of, witness-witness_of}
use darknyx_capstone_project.LatestLeaf.{
  zero_roots_loop, compute_zero_subtree_roots, walk, witness_from_prior_right_path, append_walk,
  right_path_after,
}
use darknyx_capstone_project.LatestLeaf.RightPath.{
  IsRightPath, IsRightPath-agree, IsRightPath-zero, length-IsRightPath, next_node, empty_above,
  append_walk-IsRightPath,
}

module _ (hash : Bytes → Bytes → Bytes) where
  zero_roots_loop-init_zero : (n : ℕ) (z : Bytes) → zero_roots_loop hash n z ≡ init_zero hash n z
  unfolding zero_roots_loop init_zero
  zero_roots_loop-init_zero zero z = refl
  zero_roots_loop-init_zero (suc n) z = ap (λ t. z ∷ t) (zero_roots_loop-init_zero n (hash z z))

  zero_subtree_roots-init_zero :
      compute_zero_subtree_roots hash ≡ init_zero hash tree_depth (zeros 32)
  unfolding compute_zero_subtree_roots
  zero_subtree_roots-init_zero = zero_roots_loop-init_zero tree_depth (zeros 32)

  next_sibling :
      (f : ℕ → Bytes) (n : ℕ) (r z : Bytes)
      → (n % 2 ≡ 1 → r ≡ f (n - 1))
      → f (n + 1) ≡ z
      → (if n % 2 == 0 then z else r) ≡ f (sibling_of n)
  next_sibling f n r z h past = elim (Bool-cases (n % 2 == 0)) [
    | inl even ↦ rw even (sym past)
    | inr odd ↦ rw odd (h (ground arith))
  ]

  -- From a right path for the nodes before it, the loop finds the witness of node `n`.
  walk-witness_of :
      (k n : ℕ) (z : Bytes) (f : ℕ → Bytes) (rights : List Bytes)
      → n < pow2 k
      → IsRightPath hash f k n rights
      → ((i : ℕ) → n < i → f i ≡ z)
      → walk hash (init_zero hash k z) rights n (f n) ≡ witness_of hash f k n
  unfolding walk init_zero
  walk-witness_of zero n z f [] lt h past = let first : n ≡ 0 = omega (arith, pow2-eq 0) in rw first
  walk-witness_of zero n z f (r ∷ rights) lt h past = absurd h
  walk-witness_of (suc k) n z f [] lt h past = absurd h
  walk-witness_of (suc k) n z f (r ∷ rights) lt h past =
      let node = next_node hash f n r z h.0 (past (n + 1) (omega arith)) in
      let sib = next_sibling f n r z h.0 (past (n + 1) (omega arith)) in
      let ih =
        walk-witness_of k (n / 2) (hash z z) (parents hash f) rights (omega (arith, pow2-suc k)) h.1
          (empty_above hash f n z past) in
      let above = ap (walk hash (init_zero hash k (hash z z)) rights (n / 2)) node ∙ ih in
      λ i. record {
        root = (above i).root;
        siblings = sib i ∷ (above i).siblings;
        indices = (n % 2) ∷ (above i).indices;
      }

  -- The vault's loop and the client's compute one root.
  append_walk-walk :
      (zs rights : List Bytes) (idx : ℕ) (cur : Bytes)
      → (append_walk hash zs rights idx cur).1 ≡ (walk hash zs rights idx cur).root
  unfolding append_walk walk
  append_walk-walk [] rights idx cur = refl
  append_walk-walk (z ∷ zs) [] idx cur = refl
  append_walk-walk (z ∷ zs) (r ∷ rights) idx cur = append_walk-walk zs rights (idx / 2) _

  -- Node `length l` of the leaves with one more behind them, and the empty nodes after it.
  newest : (l : List Bytes) (leaf : Bytes) → leaf_at (zeros 32) (l ++ leaf ∷ []) (length l) ≡ leaf
  newest l leaf = get_or-append_last l leaf (zeros 32)

  beyond :
      (l : List Bytes) (leaf : Bytes) (i : ℕ)
      → length l < i
      → leaf_at (zeros 32) (l ++ leaf ∷ []) i ≡ zeros 32
  beyond l leaf i h =
      get_or_past (l ++ leaf ∷ []) i (zeros 32) (omega (arith, length-append l (leaf ∷ [])))

  earlier :
      (l : List Bytes) (leaf : Bytes) (i : ℕ)
      → i < length l
      → leaf_at (zeros 32) l i ≡ leaf_at (zeros 32) (l ++ leaf ∷ []) i
  earlier l leaf i h = sym (get_or-append_left l (leaf ∷ []) i (zeros 32) h)

  append_one :
      (k : ℕ) (l : List Bytes) (leaf : Bytes) (rights : List Bytes)
      → IsRightPath hash (leaf_at (zeros 32) l) k (length l) rights
      → IsRightPath hash
          (leaf_at (zeros 32) (l ++ leaf ∷ []))
          k
          (suc (length l))
          (append_walk hash (init_zero hash k (zeros 32)) rights (length l) leaf).0
  append_one k l leaf rights h =
      subst
        (λ x.
          IsRightPath hash (leaf_at (zeros 32) (l ++ leaf ∷ [])) k (suc (length l))
            (append_walk hash (init_zero hash k (zeros 32)) rights (length l) x).0)
        (newest l leaf)
        (append_walk-IsRightPath hash k (length l) (zeros 32) (leaf_at (zeros 32) (l ++ leaf ∷ []))
          rights (IsRightPath-agree hash k (length l) _ _ rights (earlier l leaf) h)
          (beyond l leaf)).1

  -- Appending leaves one by one keeps the right path of all the leaves so far.
  right_path_after-IsRightPath :
      (l todo rights : List Bytes)
      → IsRightPath hash (leaf_at (zeros 32) l) tree_depth (length l) rights
      → IsRightPath hash
          (leaf_at (zeros 32) (l ++ todo))
          tree_depth
          (length (l ++ todo))
          (right_path_after hash rights (length l) todo)
  unfolding right_path_after
  right_path_after-IsRightPath l [] rights h = rw append-nil h
  right_path_after-IsRightPath l (leaf ∷ todo) rights h =
      let count : length (l ++ leaf ∷ []) ≡ suc (length l) =
        omega (arith, length-append l (leaf ∷ [])) in
      let one : List Bytes =
        (append_walk hash (compute_zero_subtree_roots hash) rights (length l) leaf).0 in
      let step : IsRightPath hash (leaf_at (zeros 32) (l ++ leaf ∷ [])) tree_depth (suc (length l))
          one =
        subst
          (λ zs.
            IsRightPath hash (leaf_at (zeros 32) (l ++ leaf ∷ [])) tree_depth (suc (length l))
              (append_walk hash zs rights (length l) leaf).0)
          (sym zero_subtree_roots-init_zero) (append_one tree_depth l leaf rights h) in
      let counted =
        subst (λ n. IsRightPath hash (leaf_at (zeros 32) (l ++ leaf ∷ [])) tree_depth n one)
          (sym count) step in
      let rest = right_path_after-IsRightPath (l ++ leaf ∷ []) todo one counted in
      subst
        (λ n.
          IsRightPath hash (leaf_at (zeros 32) (l ++ leaf ∷ todo)) tree_depth
            (length (l ++ leaf ∷ todo)) (right_path_after hash one n todo))
        count
        (subst
          (λ m.
            IsRightPath hash (leaf_at (zeros 32) m) tree_depth (length m)
              (right_path_after hash one (length (l ++ leaf ∷ [])) todo))
          (append_assoc l (leaf ∷ []) todo) rest)

  -- The right path of a vault that has taken the leaves `l`, from an empty tree of any contents.
  vault-IsRightPath :
      (l rights : List Bytes)
      → length rights ≡ tree_depth
      → IsRightPath hash
          (leaf_at (zeros 32) l)
          tree_depth
          (length l)
          (right_path_after hash rights 0 l)
  vault-IsRightPath l rights h =
      right_path_after-IsRightPath [] l rights
        (IsRightPath-zero hash tree_depth (leaf_at (zeros 32) []) rights h)

  newest_witness :
      (k : ℕ) (l : List Bytes) (leaf : Bytes) (rights : List Bytes)
      → length l < pow2 k
      → IsRightPath hash (leaf_at (zeros 32) l) k (length l) rights
      → walk hash (init_zero hash k (zeros 32)) rights (length l) leaf
        ≡ witness_of hash (leaf_at (zeros 32) (l ++ leaf ∷ [])) k (length l)
  newest_witness k l leaf rights lt h =
      ap (walk hash (init_zero hash k (zeros 32)) rights (length l)) (sym (newest l leaf))
      ∙ walk-witness_of k (length l) (zeros 32) (leaf_at (zeros 32) (l ++ leaf ∷ [])) rights lt
          (IsRightPath-agree hash k (length l) _ _ rights (earlier l leaf) h) (beyond l leaf)

  vault_walk :
      (l : List Bytes) (leaf : Bytes) (rights : List Bytes)
      → length rights ≡ tree_depth
      → length l < 2 ^ 20
      → walk hash
          (compute_zero_subtree_roots hash)
          (right_path_after hash rights 0 l)
          (length l)
          leaf
        ≡ witness_of hash (leaf_at (zeros 32) (l ++ leaf ∷ [])) tree_depth (length l)
  vault_walk l leaf rights h lt =
      ap (λ zs. walk hash zs (right_path_after hash rights 0 l) (length l) leaf)
        zero_subtree_roots-init_zero
      ∙ newest_witness tree_depth l leaf (right_path_after hash rights 0 l)
          (subst (λ n. length l < n) (sym (pow2-eq tree_depth)) lt) (vault-IsRightPath l rights h)

  -- The vault's right path before the append gives the newest leaf the same witness as the shadow
  -- tree that holds all the leaves. The vault has appended the leaves of a well-formed shadow tree,
  -- fewer than 2 ^ 20, from a right path of 20 entries; the new leaf has 32 bytes.
  pub prior_right_path-witness :
      (t : MerkleShadow) (leaf : Bytes) (rights : List Bytes)
      → IsTree hash t
      → length rights ≡ tree_depth
      → length leaf ≡ 32
      → length t.leaves < 2 ^ 20
      → witness_from_prior_right_path hash leaf
          (length t.leaves)
          (right_path_after hash rights 0 t.leaves)
        ≡ witness hash (append hash t leaf).0 (length t.leaves)
  unfolding witness_from_prior_right_path append
  prior_right_path-witness t leaf rights h hr h32 lt =
      let entries : length (right_path_after hash rights 0 t.leaves) ≡ 20 =
        length-IsRightPath hash tree_depth (length t.leaves) (leaf_at (zeros 32) t.leaves)
          (right_path_after hash rights 0 t.leaves) (vault-IsRightPath t.leaves rights hr) in
      let more : length (t.leaves ++ leaf ∷ []) ≡ length t.leaves + 1 =
        length-append t.leaves (leaf ∷ []) in
      let few : length (t.leaves ++ leaf ∷ []) ≤ 2 ^ 20 = omega (arith, more) in
      let there : length t.leaves < length (t.leaves ++ leaf ∷ []) = omega (arith, more) in
      rw (eq→== (length leaf) 32 h32, eq→== _ 20 entries)
        (ap ok (vault_walk t.leaves leaf rights hr lt)
          ∙ sym (
              witness-witness_of hash (append hash t leaf).0 (length t.leaves)
                (append-IsTree hash t leaf h) few there))

  -- The root that the vault's loop computes for a new leaf is the root that the shadow tree's
  -- `append` returns, for a vault that has appended the leaves of a well-formed shadow tree, fewer
  -- than 2 ^ 20, from a right path of 20 entries.
  pub append-append_walk :
      (t : MerkleShadow) (leaf : Bytes) (rights : List Bytes)
      → IsTree hash t
      → length rights ≡ tree_depth
      → length t.leaves < 2 ^ 20
      → (append hash t leaf).1
        ≡ ok
            (append_walk hash
              (compute_zero_subtree_roots hash)
              (right_path_after hash rights 0 t.leaves)
              (length t.leaves)
              leaf).1
  unfolding append
  append-append_walk t leaf rights h hr lt =
      let zs = compute_zero_subtree_roots hash in
      let rp = right_path_after hash rights 0 t.leaves in
      compute_root-tree_root hash (append hash t leaf).0 (append-IsTree hash t leaf h)
      ∙ sym (
          ap ok (
            append_walk-walk zs rp (length t.leaves) leaf
            ∙ ap (λ (w : MerkleWitness). w.root) (vault_walk t.leaves leaf rights hr lt)))

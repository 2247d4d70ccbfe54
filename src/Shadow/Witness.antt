-- ===== src/Shadow/Witness.antt =====
-- apps/demo/src/lib/dapp/merkle-shadow.ts: `witness` against the specification: root, authentication
-- path and sides of the depth-20 tree.
use darknyx_capstone_project.Base.{
  ◌^◌, ℕ, zero, suc, ◌+◌, ◌-◌, ◌*◌, ◌/◌, ◌<◌, ◌≤◌, List, ◌∷◌, ◌++◌, length, get_or, replicate, ltb,
  leb, ◌≡◌, refl, sym, subst, ap, ◌∙◌, arith, Bool-cases, inl, inr, true, false, get_or_past,
}
use darknyx_capstone_project.Errors.{ok, err, other_error}
use darknyx_capstone_project.Bytes.{Bytes, zeros}
use darknyx_capstone_project.Merkle.{
  parents, tree_root, auth_path, path_bits, double, double-eq, pow2, pow2_pos, pow2-suc, pow2-eq,
  sibling_of,
}
use darknyx_capstone_project.Merkle.Path.{fold_path, fold_path-auth_path, length-auth_path}
use darknyx_capstone_project.Merkle.Levels.{
  tabulate, get_elem?-tabulate, append-replicate, pair_up-tabulate,
}
use darknyx_capstone_project.Shadow.{
  MerkleWitness, MerkleShadow, tree_depth, small_depth_loop, small_depth, init_zero, extend, climb,
  witness, compute_root,
}
use darknyx_capstone_project.Shadow.Root.{leaf_at, IsTree, compute_root-tree_root}

pow2_mono : (a b : ℕ) → pow2 a < pow2 b → a < b
unfolding pow2
pow2_mono zero zero h = absurd (omega arith)
pow2_mono zero (suc b) h = omega arith
pow2_mono (suc a) zero h = absurd (omega (arith, pow2_pos a, double-eq (pow2 a)))
pow2_mono (suc a) (suc b) h =
    let ih : pow2 a < pow2 b → a < b = pow2_mono a b in
    let less : a < b = ih (omega (arith, double-eq (pow2 a), double-eq (pow2 b))) in omega arith

-- With enough fuel the loop stops at a depth whose subtree holds `n` leaves, and never above the
-- first depth `k` that does.
small_depth_loop_lem :
    (fuel n depth k : ℕ)
    → n ≤ pow2 depth + fuel
    → n ≤ pow2 k
    → depth ≤ k
    → (n ≤ pow2 (small_depth_loop fuel n (pow2 depth) depth))
      × (small_depth_loop fuel n (pow2 depth) depth ≤ k)
unfolding small_depth_loop
small_depth_loop_lem zero n depth k h hk hd = (omega arith, hd)
small_depth_loop_lem (suc fuel) n depth k h hk hd = elim (Bool-cases (ltb (pow2 depth) n)) [
  | inl more ↦
      let lt : pow2 depth < n = ground arith in
      let shift : pow2 depth * 2 ≡ pow2 (suc depth) = omega (arith, pow2-suc depth) in
      let next : depth + 1 ≡ suc depth = omega arith in
      let below : depth < k = pow2_mono depth k (omega arith) in
      rw (more, shift, next)
        (small_depth_loop_lem fuel n (suc depth) k (omega (arith, pow2-suc depth, pow2_pos depth))
          hk below)
  | inr done ↦ rw done (ground arith, hd)
]

small_depth_lem : (n k : ℕ) → 1 ≤ k → n ≤ pow2 k → (n ≤ pow2 (small_depth n)) × (small_depth n ≤ k)
unfolding small_depth
small_depth_lem n k pos h =
    at_least_one _ (rw one at (small_depth_loop_lem n n 0 k fuel h (omega arith)))
  where
    one : pow2 0 ≡ 1
    one = pow2-eq 0

    fuel : n ≤ pow2 0 + n
    fuel = omega arith

    at_least_one :
        (d : ℕ)
        → (n ≤ pow2 d) × (d ≤ k)
        → (n ≤ pow2 (elim d [ zero ↦ 1 | suc e ↦ suc e ]))
          × (elim d [ zero ↦ 1 | suc e ↦ suc e ] ≤ k)
    at_least_one zero p = (omega (arith, p.0, pow2-eq 0, pow2-eq 1), pos)
    at_least_one (suc d) p = p

module _ (poseidon2 : Bytes → Bytes → Bytes) where
  -- The witness of leaf `idx` in the perfect tree of depth `n`.
  abbrev pub witness_of : (ℕ → Bytes) → ℕ → ℕ → MerkleWitness
  witness_of f n idx = record {
    root = tree_root poseidon2 f n;
    siblings = auth_path poseidon2 f n idx;
    indices = path_bits n idx;
  }

  extend-witness_of :
      (n : ℕ) (z : Bytes) (f : ℕ → Bytes)
      → ((i : ℕ) → 0 < i → f i ≡ z)
      → extend poseidon2 (init_zero poseidon2 n z) (f 0) ≡ witness_of f n 0
  unfolding extend init_zero
  extend-witness_of zero z f h = refl
  extend-witness_of (suc n) z f h =
      let sib : f 1 ≡ z = h 1 (omega arith) in
      let up : (i : ℕ) → 0 < i → parents poseidon2 f i ≡ poseidon2 z z =
        λ i lt. cc (h (double i) (omega (arith, double-eq i)), h (suc (double i)) (omega arith)) in
      let rest = extend-witness_of n (poseidon2 z z) (parents poseidon2 f) up in
      let cur : poseidon2 (f 0) z ≡ parents poseidon2 f 0 = ap (poseidon2 (f 0)) (sym sib) in
      let step = ap (extend poseidon2 (init_zero poseidon2 n (poseidon2 z z))) cur ∙ rest in
      let sib' = sym sib in
      λ i. record {
        root = (step i).root;
        siblings = (sib' i) ∷ (step i).siblings;
        indices = 0 ∷ (step i).indices;
      }

  -- The seed of the climb: `s` levels by hand, then `m` by the zero roots.
  climb-witness_of :
      (s n idx : ℕ) (z : Bytes) (f : ℕ → Bytes)
      → s ≤ n
      → idx < pow2 s
      → ((i : ℕ) → pow2 s ≤ i → f i ≡ z)
      → climb poseidon2 s (init_zero poseidon2 n z) (tabulate f (pow2 s)) idx
        ≡ ok (witness_of f n idx)
  unfolding climb pow2 init_zero
  climb-witness_of zero n idx z f le lt h =
      let first : idx ≡ 0 = omega arith in
      rw first (ap ok (extend-witness_of n z f (λ i pos. h i pos)))
  climb-witness_of (suc s) zero idx z f le lt h = absurd (omega arith)
  climb-witness_of (suc s) (suc n) idx z f le lt h =
      let size = double-eq (pow2 s) in
      let up : (i : ℕ) → pow2 s ≤ i → parents poseidon2 f i ≡ poseidon2 z z = λ i past. cc (
        h (double i) (omega (arith, double-eq i, size)),
        h (suc (double i)) (omega (arith, double-eq i, size)),
      ) in
      let near : sibling_of idx < double (pow2 s) = ground arith in
      rw (get_elem?-tabulate f (double (pow2 s)) (sibling_of idx) near, climb)
        (rw (pair_up-tabulate poseidon2 f (pow2 s), climb)
          (rw (
            climb-witness_of s n (idx / 2) (poseidon2 z z) (parents poseidon2 f) (omega arith)
                (omega (arith, size)) up,
            climb,
          )))

  small_level :
      (l : List Bytes) (s : ℕ)
      → length l ≤ pow2 s
      → l ++ replicate (2 ^ s - length l) (zeros 32) ≡ tabulate (leaf_at (zeros 32) l) (pow2 s)
  small_level l s h = append-replicate l (zeros 32) _ (pow2 s) (omega (arith, pow2-eq s))

  -- `witness` in a tree of any depth `k`.
  witness_at :
      (t : MerkleShadow) (target k : ℕ)
      → t.zero_subtree_roots ≡ init_zero poseidon2 k (zeros 32)
      → 1 ≤ k
      → length t.leaves ≤ pow2 k
      → target < length t.leaves
      → witness poseidon2 t target ≡ ok (witness_of (leaf_at (zeros 32) t.leaves) k target)
  unfolding witness
  witness_at t target k h pos few lt =
      let depth = small_depth_lem (length t.leaves) k pos few in
      let s = small_depth (length t.leaves) in
      let inside : leb (length t.leaves) target ≡ false = ground arith in
      rw (inside, small_level t.leaves s depth.0, h)
        (climb-witness_of s k target (zeros 32) (leaf_at (zeros 32) t.leaves) depth.1
          (omega (arith, depth.0))
          (λ i past. get_or_past t.leaves i (zeros 32) (omega (arith, depth.0))))

  -- For a leaf of a well-formed tree of at most 2 ^ 20 leaves, `witness` returns the root, the
  -- authentication path and the sides that the depth-20 tree over the zero-padded leaves has.
  pub witness-witness_of :
      (t : MerkleShadow) (target : ℕ)
      → IsTree poseidon2 t
      → length t.leaves ≤ 2 ^ 20
      → target < length t.leaves
      → witness poseidon2 t target ≡ ok (witness_of (leaf_at (zeros 32) t.leaves) tree_depth target)
  witness-witness_of t target h few lt =
      witness_at t target tree_depth h.zero_roots (omega arith)
        (subst (λ n. length t.leaves ≤ n) (sym (pow2-eq tree_depth)) few) lt

  -- The witness of a stored leaf, in a well-formed tree of at most 2 ^ 20 leaves, carries the root
  -- that `computeRoot` returns, and its siblings fold from that leaf to that root.
  pub witness_verifies :
      (t : MerkleShadow) (target : ℕ)
      → IsTree poseidon2 t
      → length t.leaves ≤ 2 ^ 20
      → target < length t.leaves
      → (w : MerkleWitness) × (witness poseidon2 t target ≡ ok w)
        × (compute_root poseidon2 t ≡ ok w.root)
        × (fold_path poseidon2 (get_or t.leaves target (zeros 32)) target w.siblings ≡ w.root)
        × (length w.siblings ≡ tree_depth)
        × (w.indices ≡ path_bits tree_depth target)
  witness_verifies t target h few lt =
      let f = leaf_at (zeros 32) t.leaves in
      (
        witness_of f tree_depth target,
        witness-witness_of t target h few lt,
        compute_root-tree_root poseidon2 t h,
        fold_path-auth_path poseidon2 f tree_depth target
            (subst (λ n. target < n) (sym (pow2-eq tree_depth)) (omega arith)),
        length-auth_path poseidon2 f tree_depth target,
        refl,
      )

  -- An index past the last leaf is refused, whatever the tree.
  pub witness_out_of_range :
      (t : MerkleShadow) (target : ℕ)
      → length t.leaves ≤ target
      → witness poseidon2 t target ≡ err other_error
  unfolding witness
  witness_out_of_range t target h =
      let outside : leb (length t.leaves) target ≡ true = ground arith in rw outside

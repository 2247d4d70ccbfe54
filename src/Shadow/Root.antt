-- ===== src/Shadow/Root.antt =====
-- apps/demo/src/lib/dapp/merkle-shadow.ts: well-formed trees, and `computeRoot` against the
-- specification.
use darknyx_capstone_project.Base.{
  ◌==◌, ◌++◌, ◌+◌, if◌then◌else◌, Bool-cases, inl, inr, ==_iff, sym, ltb, ltb→lt, get_or_past,
  get_or-append_left, get_or-append_last, ℕ, zero, suc, List, [], ◌∷◌, length, get_or, ◌≡◌, refl,
  ap, ◌∙◌, fun_ext, arith, length-append,
}
use darknyx_capstone_project.Errors.{ok}
use darknyx_capstone_project.Bytes.{Bytes, zeros}
use darknyx_capstone_project.Merkle.{parents, tree_root}
use darknyx_capstone_project.Shadow.{
  MerkleShadow, tree_depth, init_zero, create, next_level, zero_climb, root_loop, compute_root,
  append,
}

-- The leaves as a function: a zero filler behind the last.
abbrev pub leaf_at : Bytes → List Bytes → ℕ → Bytes
leaf_at z l i = get_or l i z

-- The leaves after one more is set at a position.
abbrev pub placed : (ℕ → Bytes) → ℕ → Bytes → ℕ → Bytes
placed leaf position new i = if i == position then new else leaf i

leaf_at-append :
    (z : Bytes) (l : List Bytes) (new : Bytes) (i : ℕ)
    → leaf_at z (l ++ new ∷ []) i ≡ placed (leaf_at z l) (length l) new i
leaf_at-append z l new i = elim (Bool-cases (i == length l)) [
  | inl here ↦
      let e : i ≡ length l = (==_iff i (length l)).0 here in
      rw here (ap (λ k. get_or (l ++ new ∷ []) k z) e ∙ get_or-append_last l new z)
  | inr other ↦ rw other (elim (Bool-cases (ltb i (length l))) [
    | inl before ↦ get_or-append_left l (new ∷ []) i z (ltb→lt i (length l) before)
    | inr behind ↦
        get_or_past (l ++ new ∷ []) i z (ground (arith, length-append l (new ∷ [])))
        ∙ sym (get_or_past l i z (ground arith))
  ])
]

module _ (poseidon2 : Bytes → Bytes → Bytes) where
  -- What `create` and `append` maintain.
  pub record IsTree (t : MerkleShadow) : Type 0 where
    pub counted : t.leaf_count ≡ length t.leaves
    pub zero_roots : t.zero_subtree_roots ≡ init_zero poseidon2 tree_depth (zeros 32)

  pub create-IsTree : IsTree (create poseidon2)
  unfolding create
  create-IsTree = record { counted = refl; zero_roots = refl }

  -- `append` keeps a tree well-formed: its count is the number of its leaves, its zero roots are those
  -- of an empty tree.
  pub append-IsTree :
      (t : MerkleShadow) (leaf : Bytes) → IsTree t → IsTree (append poseidon2 t leaf).0
  unfolding append
  append-IsTree t leaf h = record {
    counted = omega (arith, h.counted, length-append t.leaves (leaf ∷ []));
    zero_roots = h.zero_roots;
  }

  next_level-get_or :
      (z : Bytes) (l : List Bytes) (i : ℕ)
      → get_or (next_level poseidon2 z l) i (poseidon2 z z) ≡ parents poseidon2 (leaf_at z l) i
  unfolding next_level
  next_level-get_or z [] i = refl
  next_level-get_or z (x ∷ []) zero = refl
  next_level-get_or z (x ∷ []) (suc i) = refl
  next_level-get_or z (x ∷ y ∷ l) zero = refl
  next_level-get_or z (x ∷ y ∷ l) (suc i) = next_level-get_or z l i

  -- A level's next level stands for the parents of what the level stands for.
  pub next_level-parents :
      (z : Bytes) (l : List Bytes)
      → leaf_at (poseidon2 z z) (next_level poseidon2 z l) ≡ parents poseidon2 (leaf_at z l)
  next_level-parents z l = fun_ext (next_level-get_or z l)

  zero_climb-tree_root :
      (n : ℕ) (z c : Bytes)
      → zero_climb poseidon2 z (init_zero poseidon2 n c) ≡ tree_root poseidon2 (λ _. z) n
  unfolding zero_climb init_zero
  zero_climb-tree_root zero z c = refl
  zero_climb-tree_root (suc n) z c = zero_climb-tree_root n (poseidon2 z z) (poseidon2 c c)

  root_loop-tree_root :
      (n : ℕ) (z x : Bytes) (l : List Bytes)
      → root_loop poseidon2 (init_zero poseidon2 n z) (x ∷ l)
        ≡ ok (tree_root poseidon2 (leaf_at z (x ∷ l)) n)
  unfolding root_loop init_zero
  root_loop-tree_root zero z x l = refl
  root_loop-tree_root (suc n) z x [] =
      root_loop-tree_root n (poseidon2 z z) (poseidon2 x z) []
      ∙ ap (λ f. ok (tree_root poseidon2 f n)) (next_level-parents z (x ∷ []))
  root_loop-tree_root (suc n) z x (y ∷ l) =
      root_loop-tree_root n (poseidon2 z z) (poseidon2 x y) (next_level poseidon2 z l)
      ∙ ap (λ f. ok (tree_root poseidon2 f n)) (next_level-parents z (x ∷ y ∷ l))

  root_loop_empty :
      (n : ℕ) (z : Bytes)
      → root_loop poseidon2 (init_zero poseidon2 (suc n) z) []
        ≡ ok (tree_root poseidon2 (leaf_at z []) (suc n))
  unfolding root_loop init_zero
  root_loop_empty n z = ap ok (zero_climb-tree_root n (poseidon2 z z) (poseidon2 z z))

  -- On a well-formed tree, empty or not, `computeRoot` returns the root of the perfect tree of
  -- depth 20 whose first leaves are the tree's and whose other leaves are 32 zero bytes.
  pub compute_root-tree_root :
      (t : MerkleShadow)
      → IsTree t
      → compute_root poseidon2 t ≡ ok (tree_root poseidon2 (leaf_at (zeros 32) t.leaves) tree_depth)
  unfolding compute_root
  compute_root-tree_root t h =
      ap (λ zs. root_loop poseidon2 zs t.leaves) h.zero_roots ∙ by_leaves t.leaves
    where
      by_leaves :
          (l : List Bytes)
          → root_loop poseidon2 (init_zero poseidon2 tree_depth (zeros 32)) l
            ≡ ok (tree_root poseidon2 (leaf_at (zeros 32) l) tree_depth)
      by_leaves [] = root_loop_empty 19 (zeros 32)
      by_leaves (x ∷ l) = root_loop-tree_root tree_depth (zeros 32) x l

  -- `append` on a well-formed tree of n leaves gives a well-formed tree that holds the n leaves and
  -- behind them the new one, and the root of the perfect tree of depth 20 in which position n holds
  -- the new leaf and every other position what it held before.
  pub append-tree_root :
      (t : MerkleShadow) (leaf : Bytes)
      → IsTree t
      → IsTree (append poseidon2 t leaf).0
        × ((append poseidon2 t leaf).0.leaf_count ≡ t.leaf_count + 1)
        × ((i : ℕ)
            → leaf_at (zeros 32) (append poseidon2 t leaf).0.leaves i
              ≡ placed (leaf_at (zeros 32) t.leaves) t.leaf_count leaf i)
        × ((append poseidon2 t leaf).1
            ≡ ok (
                tree_root poseidon2
                  (placed (leaf_at (zeros 32) t.leaves) t.leaf_count leaf)
                  tree_depth))
  unfolding append
  append-tree_root t leaf h =
      let kept = append-IsTree t leaf h in
      let same : (i : ℕ)
          → leaf_at (zeros 32) (t.leaves ++ leaf ∷ []) i
            ≡ placed (leaf_at (zeros 32) t.leaves) t.leaf_count leaf i =
        λ i.
          leaf_at-append (zeros 32) t.leaves leaf i
          ∙ ap (λ n. placed (leaf_at (zeros 32) t.leaves) n leaf i) (sym h.counted) in
      (
        kept,
        refl,
        same,
        compute_root-tree_root (append poseidon2 t leaf).0 kept
            ∙ ap (λ f. ok (tree_root poseidon2 f tree_depth)) (fun_ext same),
      )

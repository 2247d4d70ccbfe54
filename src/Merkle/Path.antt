-- ===== src/Merkle/Path.antt =====
-- Folding an authentication path from its leaf.
use darknyx_capstone_project.Base.{
  ℕ, zero, suc, ◌/◌, ◌%◌, ◌<◌, List, [], ◌∷◌, ◌==◌, if◌then◌else◌, ◌≡◌, refl, ap, ◌∙◌, arith,
  Bool-cases, inl, inr, ==_iff, length,
}
use darknyx_capstone_project.Merkle.{
  double-eq, pow2, sibling_of, parents, tree_root, auth_path, parents_left, parents_right,
}

module _ {ℓ} {A : Type ℓ} (hash : A → A → A) where
  -- The fold of `verifyInclusionPath`: the index decides the side, level by level.
  abbrev pub fold_path : A → ℕ → List A → A
  fold_path cur idx [] = cur
  fold_path cur idx (sib ∷ sibs) =
      fold_path (if idx % 2 == 0 then hash cur sib else hash sib cur) (idx / 2) sibs

  fold_step :
      (f : ℕ → A) (idx : ℕ)
      → (if idx % 2 == 0
          then hash (f idx) (f (sibling_of idx))
          else hash (f (sibling_of idx)) (f idx))
        ≡ parents hash f (idx / 2)
  fold_step f idx = elim (Bool-cases (idx % 2 == 0)) [
    | inl even ↦ rw even (parents_left hash f idx ((==_iff _ _).0 even))
    | inr odd ↦ rw odd (parents_right hash f idx (ground arith))
  ]

  pub fold_path-auth_path :
      (f : ℕ → A) (k idx : ℕ)
      → idx < pow2 k
      → fold_path (f idx) idx (auth_path hash f k idx) ≡ tree_root hash f k
  unfolding pow2
  fold_path-auth_path f zero idx h = let e : idx ≡ 0 = omega arith in ap f e
  fold_path-auth_path f (suc k) idx h =
      ap (λ cur. fold_path cur (idx / 2) (auth_path hash (parents hash f) k (idx / 2)))
        (fold_step f idx)
      ∙ fold_path-auth_path (parents hash f) k (idx / 2) (omega (arith, double-eq (pow2 k)))

  pub length-auth_path : (f : ℕ → A) (k idx : ℕ) → length (auth_path hash f k idx) ≡ k
  length-auth_path f zero idx = refl
  length-auth_path f (suc k) idx = ap suc (length-auth_path (parents hash f) k (idx / 2))

-- ===== src/Merkle/Binding.antt =====
-- Two openings of one root at one index, and collisions of the hash. `Sized` is what is known of
-- every node that a path names.
use darknyx_capstone_project.Base.{
  ℕ, ◌/◌, ◌%◌, List, [], ◌∷◌, ◌==◌, if◌then◌else◌, ◌≡◌, ◌≢◌, ◌⊎◌, inl, inr, length, arith,
  Bool-cases,
}
use darknyx_capstone_project.Merkle.Path.{fold_path}

abbrev pub All {ℓ} : {A : Type ℓ} → (A → Type 0) → List A → Type 0
All P [] = Unit
All P (sibling ∷ rest) = P sibling × All P rest

pub record PairCollision {ℓ} {A : Type ℓ} (Sized : A → Type 0) (hash : A → A → A) : Type ℓ where
  pub left : A
  pub right : A
  pub left' : A
  pub right' : A
  pub left_sized : Sized left
  pub right_sized : Sized right
  pub left_sized' : Sized left'
  pub right_sized' : Sized right'
  pub same_hash : hash left right ≡ hash left' right'
  pub differ : (left ≢ left') ⊎ (right ≢ right')

module _ {ℓ} {A : Type ℓ} (hash : A → A → A) (Sized : A → Type 0) (discrete : Discrete A)
    (hash_sized : (a b : A) → Sized (hash a b)) where
  -- One level: equal parents have equal children, or the two pairs collide.
  level_binding :
      (even : ℕ) (cur cur' sib sib' : A)
      → Sized cur
      → Sized cur'
      → Sized sib
      → Sized sib'
      → (if even == 0 then hash cur sib else hash sib cur)
        ≡ (if even == 0 then hash cur' sib' else hash sib' cur')
      → (cur ≡ cur') ⊎ PairCollision Sized hash
  level_binding even cur cur' sib sib' c c' s s' e = elim (discrete cur cur') [
    | yes same ↦ inl same
    | no other ↦ elim (Bool-cases (even == 0)) [
      | inl left ↦ inr (record {
        left = cur;
        right = sib;
        left' = cur';
        right' = sib';
        left_sized = c;
        right_sized = s;
        left_sized' = c';
        right_sized' = s';
        same_hash = rw left at e;
        differ = inl other;
      })
      | inr right ↦ inr (record {
        left = sib;
        right = cur;
        left' = sib';
        right' = cur';
        left_sized = s;
        right_sized = c;
        left_sized' = s';
        right_sized' = c';
        same_hash = rw right at e;
        differ = inr other;
      })
    ]
  ]

  side-Sized : (even : ℕ) (cur sib : A) → Sized (if even == 0 then hash cur sib else hash sib cur)
  side-Sized even cur sib = elim (Bool-cases (even == 0)) [
    | inl left ↦ rw left (hash_sized cur sib)
    | inr right ↦ rw right (hash_sized sib cur)
  ]

  pub fold_path_binding :
      (idx : ℕ) (cur cur' : A) (sibs sibs' : List A)
      → length sibs ≡ length sibs'
      → Sized cur
      → Sized cur'
      → All Sized sibs
      → All Sized sibs'
      → fold_path hash cur idx sibs ≡ fold_path hash cur' idx sibs'
      → (cur ≡ cur') ⊎ PairCollision Sized hash
  fold_path_binding idx cur cur' [] [] n c c' s s' e = inl e
  fold_path_binding idx cur cur' [] (sib' ∷ sibs') n c c' s s' e = absurd (omega arith)
  fold_path_binding idx cur cur' (sib ∷ sibs) [] n c c' s s' e = absurd (omega arith)
  fold_path_binding idx cur cur' (sib ∷ sibs) (sib' ∷ sibs') n c c' s s' e =
      let up : A = if idx % 2 == 0 then hash cur sib else hash sib cur in
      let up' : A = if idx % 2 == 0 then hash cur' sib' else hash sib' cur' in
      let above : (up ≡ up') ⊎ PairCollision Sized hash =
        fold_path_binding (idx / 2) up up' sibs sibs' (omega arith) (side-Sized (idx % 2) cur sib)
          (side-Sized (idx % 2) cur' sib') s.1 s'.1 e in
      elim above [
        | inl same ↦ level_binding (idx % 2) cur cur' sib sib' c c' s.0 s'.0 same
        | inr collision ↦ inr collision
      ]

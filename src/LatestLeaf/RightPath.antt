-- ===== src/LatestLeaf/RightPath.antt =====
-- The vault's right path as a predicate: at each level where the count of nodes is odd it holds the
-- last of them, the left sibling that the next leaf will need.
use darknyx_capstone_project.Base.{
  ℕ, zero, suc, ◌+◌, ◌-◌, ◌/◌, ◌%◌, ◌<◌, List, [], ◌∷◌, ◌==◌, if◌then◌else◌, length, ◌≡◌, refl, sym,
  ap, ◌∙◌, arith, Bool-cases, inl, inr, ==_iff,
}
use darknyx_capstone_project.Bytes.{Bytes}
use darknyx_capstone_project.Merkle.{parents, double, double-eq, parents_left, parents_right}
use darknyx_capstone_project.Shadow.{init_zero}
use darknyx_capstone_project.LatestLeaf.{append_walk}

module _ (hash : Bytes → Bytes → Bytes) where
  -- `rights` serves `k` levels over the nodes `f`, `n` of which are there.
  abbrev pub IsRightPath : (ℕ → Bytes) → ℕ → ℕ → List Bytes → Type 0
  IsRightPath f zero n [] = Unit
  IsRightPath f zero n (r ∷ rights) = ⊥
  IsRightPath f (suc k) n [] = ⊥
  IsRightPath f (suc k) n (r ∷ rights) =
      (n % 2 ≡ 1 → r ≡ f (n - 1)) × IsRightPath (parents hash f) k (n / 2) rights

  -- Only the nodes that are there matter.
  pub IsRightPath-agree :
      (k n : ℕ) (f g : ℕ → Bytes) (rights : List Bytes)
      → ((i : ℕ) → i < n → f i ≡ g i)
      → IsRightPath f k n rights
      → IsRightPath g k n rights
  IsRightPath-agree zero n f g [] e h = tt
  IsRightPath-agree zero n f g (r ∷ rights) e h = h
  IsRightPath-agree (suc k) n f g [] e h = h
  IsRightPath-agree (suc k) n f g (r ∷ rights) e h = (
    λ odd. h.0 odd ∙ e (n - 1) (omega arith),
    IsRightPath-agree k (n / 2) (parents hash f) (parents hash g) rights
        (λ i lt. cc (
          e (double i) (omega (arith, double-eq i)),
          e (suc (double i)) (omega (arith, double-eq i)),
        ))
        h.1,
  )

  -- An empty tree asks nothing of the right path but its length.
  pub IsRightPath-zero :
      (k : ℕ) (f : ℕ → Bytes) (rights : List Bytes) → length rights ≡ k → IsRightPath f k 0 rights
  IsRightPath-zero zero f [] h = tt
  IsRightPath-zero zero f (r ∷ rights) h = absurd (omega arith)
  IsRightPath-zero (suc k) f [] h = absurd (omega arith)
  IsRightPath-zero (suc k) f (r ∷ rights) h =
      (λ odd. absurd (omega arith), IsRightPath-zero k (parents hash f) rights (omega arith))

  pub length-IsRightPath :
      (k n : ℕ) (f : ℕ → Bytes) (rights : List Bytes) → IsRightPath f k n rights → length rights ≡ k
  length-IsRightPath zero n f [] h = refl
  length-IsRightPath zero n f (r ∷ rights) h = absurd h
  length-IsRightPath (suc k) n f [] h = absurd h
  length-IsRightPath (suc k) n f (r ∷ rights) h =
      ap suc (length-IsRightPath k (n / 2) (parents hash f) rights h.1)

  -- The node above the new one, on either side.
  pub next_node :
      (f : ℕ → Bytes) (n : ℕ) (r z : Bytes)
      → (n % 2 ≡ 1 → r ≡ f (n - 1))
      → f (n + 1) ≡ z
      → (if n % 2 == 0 then hash (f n) z else hash r (f n)) ≡ parents hash f (n / 2)
  next_node f n r z h past = elim (Bool-cases (n % 2 == 0)) [
    | inl even ↦ rw even (ap (hash (f n)) (sym past) ∙ parents_left hash f n ((==_iff _ _).0 even))
    | inr odd ↦
        rw odd (ap (λ x. hash x (f n)) (h (ground arith)) ∙ parents_right hash f n (ground arith))
  ]

  pub empty_above :
      (f : ℕ → Bytes) (n : ℕ) (z : Bytes)
      → ((i : ℕ) → n < i → f i ≡ z)
      → (i : ℕ) → n / 2 < i
      → parents hash f i ≡ hash z z
  empty_above f n z h i past =
      cc
        (h (double i) (omega (arith, double-eq i)), h (suc (double i)) (omega (arith, double-eq i)))

  -- The append's loop turns a right path for `n` nodes into one for `n + 1`, and what it writes at
  -- the levels above is still a right path for `n`.
  pub append_walk-IsRightPath :
      (k n : ℕ) (z : Bytes) (f : ℕ → Bytes) (rights : List Bytes)
      → IsRightPath f k n rights
      → ((i : ℕ) → n < i → f i ≡ z)
      → IsRightPath f k n (append_walk hash (init_zero hash k z) rights n (f n)).0
        × IsRightPath f k (suc n) (append_walk hash (init_zero hash k z) rights n (f n)).0
  unfolding append_walk init_zero
  append_walk-IsRightPath zero n z f [] h past = (tt, tt)
  append_walk-IsRightPath zero n z f (r ∷ rights) h past = absurd h
  append_walk-IsRightPath (suc k) n z f [] h past = absurd h
  append_walk-IsRightPath (suc k) n z f (r ∷ rights) h past =
      let above = parents hash f in
      let ih =
        append_walk-IsRightPath k (n / 2) (hash z z) above rights h.1 (empty_above f n z past) in
      rw (next_node f n r z h.0 (past (n + 1) (omega arith))) (elim (Bool-cases (n % 2 == 0)) [
        | inl even ↦
            let low : n % 2 ≡ 0 = (==_iff _ _).0 even in
            let same : suc n / 2 ≡ n / 2 = omega arith in
            let last : suc n - 1 ≡ n = omega arith in
            rw (even, same) ((λ odd. absurd (omega arith), ih.0), (λ odd. ap f (sym last), ih.0))
        | inr odd ↦
            let low : n % 2 ≡ 1 = ground arith in
            let more : suc n / 2 ≡ suc (n / 2) = omega arith in
            rw (odd, more) ((λ _. h.0 low, ih.0), (λ odd'. absurd (omega arith), ih.1))
      ])

-- ===== src/Merkle/Levels.antt =====
-- One level of a tree as a list, and the loops that hash a level into the next.
use darknyx_capstone_project.Base.{
  ℕ, zero, suc, ◌+◌, ◌<◌, List, [], ◌∷◌, ◌++◌, ◌≡◌, refl, ap, arith, Option, none, some, length,
  get_elem?, get_or, replicate,
}
use darknyx_capstone_project.Merkle.{double, parents}

module _ {ℓ} {A : Type ℓ} where
  -- The nodes `f 0` to `f (n - 1)`.
  abbrev pub tabulate : (ℕ → A) → ℕ → List A
  tabulate f zero = []
  tabulate f (suc n) = f 0 ∷ tabulate (λ i. f (suc i)) n

  pub length-tabulate : (f : ℕ → A) (n : ℕ) → length (tabulate f n) ≡ n
  length-tabulate f zero = refl
  length-tabulate f (suc n) = ap suc (length-tabulate (λ i. f (suc i)) n)

  pub get_elem?-tabulate : (f : ℕ → A) (n i : ℕ) → i < n → get_elem? (tabulate f n) i ≡ some (f i)
  get_elem?-tabulate f zero i h = absurd (omega arith)
  get_elem?-tabulate f (suc n) zero h = refl
  get_elem?-tabulate f (suc n) (suc i) h = get_elem?-tabulate (λ j. f (suc j)) n i (omega arith)

  -- A list and `m` copies of a filler, as a function.
  pub append-replicate :
      (l : List A) (d : A) (m n : ℕ)
      → n ≡ length l + m
      → l ++ replicate m d ≡ tabulate (λ i. get_or l i d) n
  append-replicate [] d zero zero h = refl
  append-replicate [] d zero (suc n) h = absurd (omega arith)
  append-replicate [] d (suc m) zero h = absurd (omega arith)
  append-replicate [] d (suc m) (suc n) h =
      ap (λ t. d ∷ t) (append-replicate [] d m n (omega arith))
  append-replicate (x ∷ l) d m zero h = absurd (omega arith)
  append-replicate (x ∷ l) d m (suc n) h = ap (λ t. x ∷ t) (append-replicate l d m n (omega arith))

module _ {ℓ} {A : Type ℓ} (hash : A → A → A) where
  -- `for (i = 0; i < level.length; i += 2) next.push(hash(level[i], level[i + 1]))`. `none` stands
  -- for the `TypeError` on the `undefined` that an odd level would read.
  unfoldable pub pair_up : List A → Option (List A)
  pair_up [] = some []
  pair_up (x ∷ []) = none
  pair_up (x ∷ y ∷ level) = elim (pair_up level) [
    | none ↦ none
    | some next ↦ some (hash x y ∷ next)
  ]

  pub pair_up-tabulate :
      (f : ℕ → A) (n : ℕ) → pair_up (tabulate f (double n)) ≡ some (tabulate (parents hash f) n)
  unfolding pair_up
  pair_up-tabulate f zero = refl
  pair_up-tabulate f (suc n) = rw (pair_up-tabulate (λ i. f (suc (suc i))) n, pair_up)

-- ===== src/Inclusion/Loops.antt =====
-- The loops of the inclusion tree against the specification of Merkle.
use darknyx_capstone_project.Base.{
  ℕ, zero, suc, ◌+◌, ◌-◌, ◌*◌, ◌/◌, ◌<◌, ◌≤◌, List, [], ◌∷◌, ◌++◌, true, ltb, length, get_or,
  replicate, ◌≡◌, refl, sym, ap, ◌∙◌, arith, Bool-cases, inl, inr, length-append,
  get_or-append_last, append_assoc, append-nil,
}
use darknyx_capstone_project.Errors.{ok}
use darknyx_capstone_project.Bytes.{Bytes}
use darknyx_capstone_project.Merkle.{
  parents, tree_root, auth_path, path_bits, double, double-eq, pow2, pow2_pos, pow2-suc, pow2-eq,
  sibling_of,
}
use darknyx_capstone_project.Merkle.Levels.{
  tabulate, get_elem?-tabulate, append-replicate, length-tabulate, pair_up-tabulate,
}
use darknyx_capstone_project.Inclusion.{
  target_loop, last_leaf, pad_loop, padded, sha256_hash, root_loop, path_loop,
}

-- The padded leaves as a function: the last leaf again and again.
abbrev pub padded_at : List Bytes → ℕ → Bytes
padded_at leaves i = get_or leaves i (last_leaf leaves)

target_loop_lem :
    (fuel n d : ℕ)
    → n ≤ pow2 d + fuel
    → (k : ℕ) × (target_loop fuel n (pow2 d) ≡ pow2 k) × (n ≤ pow2 k)
unfolding target_loop
target_loop_lem zero n d h = (d, refl, omega arith)
target_loop_lem (suc fuel) n d h = elim (Bool-cases (ltb (pow2 d) n)) [
  | inl more ↦
      let shift : pow2 d * 2 ≡ pow2 (suc d) = omega (arith, pow2-suc d) in
      rw (more, shift) (target_loop_lem fuel n (suc d) (omega (arith, pow2-suc d, pow2_pos d)))
  | inr done ↦ rw done (d, refl, ground arith)
]

last_leaf-append : (l : List Bytes) (x : Bytes) → last_leaf (l ++ x ∷ []) ≡ x
last_leaf-append l x =
    let e : length (l ++ x ∷ []) - 1 ≡ length l = omega (arith, length-append l (x ∷ [])) in
    ap (λ i. get_or (l ++ x ∷ []) i []) e ∙ get_or-append_last l x []

pad_loop-replicate : (m : ℕ) (l : List Bytes) → pad_loop m l ≡ l ++ replicate m (last_leaf l)
unfolding pad_loop
pad_loop-replicate zero l = sym (append-nil l)
pad_loop-replicate (suc m) l =
    pad_loop-replicate m (l ++ last_leaf l ∷ [])
    ∙ ap (λ x. (l ++ last_leaf l ∷ []) ++ replicate m x) (last_leaf-append l (last_leaf l))
    ∙ append_assoc l (last_leaf l ∷ []) (replicate m (last_leaf l))

-- Padding fills the level up to a power of two with the last leaf.
pub padded-tabulate :
    (l : List Bytes) → (k : ℕ) × (padded l ≡ tabulate (padded_at l) (pow2 k)) × (length l ≤ pow2 k)
unfolding padded
padded-tabulate l =
    let one : pow2 0 ≡ 1 = pow2-eq 0 in
    let (k, e, fits) = target_loop_lem (length l) (length l) 0 (omega arith) in
    let target : target_loop (length l) (length l) 1 ≡ pow2 k =
      ap (target_loop (length l) (length l)) (sym one) ∙ e in
    (
      k,
      pad_loop-replicate (target_loop (length l) (length l) 1 - length l) l
          ∙ append-replicate l (last_leaf l) (target_loop (length l) (length l) 1 - length l)
              (pow2 k) (omega arith),
      fits,
    )

pub suc-le-pow2 : (k : ℕ) → k < pow2 k
suc-le-pow2 zero = pow2_pos 0
suc-le-pow2 (suc k) = omega (arith, suc-le-pow2 k, pow2-suc k)

module _ (sha256 : Bytes → Bytes) where
  pub root_loop-tree_root :
      (k fuel : ℕ) (f : ℕ → Bytes)
      → k < fuel
      → root_loop sha256 fuel (tabulate f (pow2 k)) ≡ ok (tree_root (sha256_hash sha256) f k)
  unfolding root_loop pow2
  root_loop-tree_root zero zero f h = absurd (omega arith)
  root_loop-tree_root zero (suc fuel) f h = refl
  root_loop-tree_root (suc k) zero f h = absurd (omega arith)
  root_loop-tree_root (suc k) (suc fuel) f h =
      let long : ltb 1 (length (tabulate f (double (pow2 k)))) ≡ true =
        ground (arith, length-tabulate f (double (pow2 k)), double-eq (pow2 k), pow2_pos k) in
      rw (long, root_loop)
        (rw (pair_up-tabulate (sha256_hash sha256) f (pow2 k), root_loop)
          (root_loop-tree_root k fuel (parents (sha256_hash sha256) f) (omega arith)))

  pub path_loop-auth_path :
      (k fuel idx : ℕ) (f : ℕ → Bytes)
      → k < fuel
      → idx < pow2 k
      → path_loop sha256 fuel (tabulate f (pow2 k)) idx
        ≡ ok (record {
          siblings = auth_path (sha256_hash sha256) f k idx;
          path_indices = path_bits k idx;
        })
  unfolding path_loop pow2
  path_loop-auth_path zero zero idx f h lt = absurd (omega arith)
  path_loop-auth_path zero (suc fuel) idx f h lt = refl
  path_loop-auth_path (suc k) zero idx f h lt = absurd (omega arith)
  path_loop-auth_path (suc k) (suc fuel) idx f h lt =
      let size = double-eq (pow2 k) in
      let long : ltb 1 (length (tabulate f (double (pow2 k)))) ≡ true =
        ground (arith, length-tabulate f (double (pow2 k)), size, pow2_pos k) in
      let near : sibling_of idx < double (pow2 k) = ground arith in
      rw (long, path_loop)
        (rw (get_elem?-tabulate f (double (pow2 k)) (sibling_of idx) near, path_loop)
          (rw (pair_up-tabulate (sha256_hash sha256) f (pow2 k), path_loop)
            (rw (
              path_loop-auth_path k fuel (idx / 2) (parents (sha256_hash sha256) f) (omega arith)
                  (omega (arith, size)),
              path_loop,
            ))))

-- ===== src/Inclusion.antt =====
-- packages/sdk/src/batch/inclusion-proof.ts, the Merkle part: the SHA-256 inclusion tree over the
-- orders of a batch. `sha256` is a parameter (node:crypto). A read of `undefined`, which makes
-- `createHash` throw, and a loop that runs out of fuel end in `other_error`.
-- Array indices are natural numbers, so the test for a negative index is gone.
pub mod Loops
pub mod Proofs
use darknyx_capstone_project.Base.{
  ℕ, zero, suc, ◌+◌, ◌-◌, ◌*◌, ◌/◌, ◌%◌, List, [], ◌∷◌, ◌++◌, Bool, true, false, none, some, ltb,
  leb, ◌==◌, if◌then◌else◌, length, get_elem?, get_or,
}
use darknyx_capstone_project.Errors.{Result, ok, err, other_error}
use darknyx_capstone_project.Bytes.{Bytes, zeros, same_bytes}
use darknyx_capstone_project.Merkle.Path.{fold_path}
use darknyx_capstone_project.Merkle.Levels.{pair_up}

pub record InclusionPath : Type 0 where
  pub siblings : List Bytes
  pub path_indices : List ℕ

-- `while (target < level.length) target *= 2`.
unfoldable pub target_loop : ℕ → ℕ → ℕ → ℕ
target_loop zero n target = target
target_loop (suc fuel) n target =
    let rest = target_loop fuel n (target * 2) in if ltb target n then rest else target

-- `level[level.length - 1]`, of a level that is not empty.
abbrev pub last_leaf : List Bytes → Bytes
last_leaf level = get_or level (length level - 1) []

-- `while (level.length < target) level.push(level[level.length - 1])`, by the rounds left.
unfoldable pub pad_loop : ℕ → List Bytes → List Bytes
pad_loop zero level = level
pad_loop (suc rounds) level = pad_loop rounds (level ++ last_leaf level ∷ [])

unfoldable pub padded : List Bytes → List Bytes
unfolding target_loop pad_loop
padded leaves = pad_loop (target_loop (length leaves) (length leaves) 1 - length leaves) leaves

-- `equalBytes`: the lengths first, then the bytes.
unfoldable pub equal_bytes : Bytes → Bytes → Bool
equal_bytes a b = if length a == length b then same_bytes a b else false

module _ (sha256 : Bytes → Bytes) where
  unfoldable pub sha256_hash : Bytes → Bytes → Bytes
  sha256_hash a b = sha256 (a ++ b)

  -- `while (level.length > 1)`; a level is at least as long as the tree is deep, and one more.
  unfoldable pub root_loop : ℕ → List Bytes → Result Bytes
  root_loop zero level = err other_error
  root_loop (suc fuel) level = elim (ltb 1 (length level)) [
    | true ↦ elim (pair_up sha256_hash level) [
      | none ↦ err other_error
      | some next ↦ root_loop fuel next
    ]
    | false ↦ elim (get_elem? level 0) [ none ↦ err other_error | some root ↦ ok root ]
  ]

  unfoldable pub compute_inclusion_root : List Bytes → Result Bytes
  unfolding padded root_loop
  compute_inclusion_root [] = ok (zeros 32)
  compute_inclusion_root (l ∷ leaves) =
      let level = padded (l ∷ leaves) in root_loop (length level) level

  unfoldable pub path_loop : ℕ → List Bytes → ℕ → Result InclusionPath
  path_loop zero level idx = err other_error
  path_loop (suc fuel) level idx = elim (ltb 1 (length level)) [
    | true ↦ elim (get_elem? level (if idx % 2 == 0 then idx + 1 else idx - 1)) [
      | none ↦ err other_error
      | some sib ↦ elim (pair_up sha256_hash level) [
        | none ↦ err other_error
        | some next ↦ elim (path_loop fuel next (idx / 2)) [
          | err e ↦ err e
          | ok rest ↦ ok (record {
            siblings = sib ∷ rest.siblings;
            path_indices = (idx % 2) ∷ rest.path_indices;
          })
        ]
      ]
    ]
    | false ↦ ok (record { siblings = []; path_indices = [] })
  ]

  unfoldable pub compute_inclusion_path : List Bytes → ℕ → Result InclusionPath
  unfolding padded path_loop
  compute_inclusion_path leaves index =
      let level = padded leaves in
      let path = path_loop (length level) level index in
      if leb (length leaves) index then err other_error else path

  unfoldable pub verify_inclusion_path : Bytes → ℕ → List Bytes → Bytes → Bool
  unfolding equal_bytes
  verify_inclusion_path leaf index siblings root =
      equal_bytes (fold_path sha256_hash leaf index siblings) root

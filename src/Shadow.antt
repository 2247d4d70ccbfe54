-- ===== src/Shadow.antt =====
-- apps/demo/src/lib/dapp/merkle-shadow.ts: the shadow of the vault's note tree. `poseidon2` is a
-- parameter (`Field.poseidon2` is the code's own), the `async` calls are plain calls, and an entry
-- that JavaScript would read as `undefined` ends in `other_error`.
pub mod Root
pub mod Witness
use darknyx_capstone_project.Base.{
  ◌^◌, ℕ, zero, suc, ◌+◌, ◌-◌, ◌*◌, ◌/◌, ◌%◌, List, [], ◌∷◌, ◌++◌, Option, none, some, ltb, leb,
  if◌then◌else◌, length, get_elem?, replicate,
}
use darknyx_capstone_project.Errors.{Result, ok, err, other_error}
use darknyx_capstone_project.Bytes.{Bytes, zeros}
use darknyx_capstone_project.Merkle.{sibling_of}
use darknyx_capstone_project.Merkle.Levels.{pair_up}

abbrev pub tree_depth : ℕ
tree_depth = 20

pub record MerkleWitness : Type 0 where
  pub root : Bytes
  pub siblings : List Bytes
  pub indices : List ℕ

pub record MerkleShadow : Type 0 where
  pub leaf_count : ℕ
  pub leaves : List Bytes
  pub zero_subtree_roots : List Bytes

-- An array read whose `undefined` ends in an exception.
abbrev pub found {ℓ} : {A : Type ℓ} → Option A → Result A
found none = err other_error
found (some a) = ok a

-- The loop that finds the depth of the witnessed subtree: `while (small < n)` doubles `small`,
-- which stays exact below 2 ^ 31. Each round doubles, so `n` rounds of fuel are enough.
pub small_depth_loop : ℕ → ℕ → ℕ → ℕ → ℕ
small_depth_loop zero n small depth = depth
small_depth_loop (suc fuel) n small depth =
    let rest = small_depth_loop fuel n (small * 2) (depth + 1) in
    if ltb small n then rest else depth

unfoldable pub small_depth : ℕ → ℕ
unfolding small_depth_loop
small_depth n = let depth = small_depth_loop n n 1 0 in elim depth [ zero ↦ 1 | suc d ↦ suc d ]

module _ (poseidon2 : Bytes → Bytes → Bytes) where
  -- `initZero`: `n` rounds from `cur`.
  unfoldable pub init_zero : ℕ → Bytes → List Bytes
  init_zero zero cur = []
  init_zero (suc n) cur = cur ∷ init_zero n (poseidon2 cur cur)

  unfoldable pub create : MerkleShadow
  create = record {
    leaf_count = 0;
    leaves = [];
    zero_subtree_roots = init_zero tree_depth (zeros 32);
  }

  -- One level of `computeRoot`: a last node without a partner is paired with the level's zero root.
  unfoldable pub next_level : Bytes → List Bytes → List Bytes
  next_level z [] = []
  next_level z (l ∷ []) = poseidon2 l z ∷ []
  next_level z (l ∷ r ∷ level) = poseidon2 l r ∷ next_level z level

  -- `for (e = d; e < TREE_DEPTH; e++) z = poseidon2(z, z)`, a round for each level that is left.
  unfoldable pub zero_climb : Bytes → List Bytes → Bytes
  zero_climb z [] = z
  zero_climb z (_ ∷ rest) = zero_climb (poseidon2 z z) rest

  -- The loop over the levels, its list argument the zero roots from level `d` on.
  unfoldable pub root_loop : List Bytes → List Bytes → Result Bytes
  unfolding next_level zero_climb
  root_loop [] level = found (get_elem? level 0)
  root_loop (z ∷ zs) level = elim (next_level z level) [
    | [] ↦ ok (zero_climb z (z ∷ zs))
    | n ∷ next ↦ root_loop zs (n ∷ next)
  ]

  unfoldable pub compute_root : MerkleShadow → Result Bytes
  unfolding root_loop
  compute_root t = root_loop t.zero_subtree_roots t.leaves

  unfoldable pub append : MerkleShadow → Bytes → MerkleShadow × Result Bytes
  unfolding compute_root
  append t leaf =
      let t' : MerkleShadow = record t {
        leaves = t.leaves ++ leaf ∷ [];
        leaf_count = t.leaf_count + 1;
      } in
      (t', compute_root t')

  -- The second loop of `witness`: above the small subtree every sibling is a zero root.
  unfoldable pub extend : List Bytes → Bytes → MerkleWitness
  extend [] current = record { root = current; siblings = []; indices = [] }
  extend (z ∷ zs) current =
      let rest = extend zs (poseidon2 current z) in
      record { root = rest.root; siblings = z ∷ rest.siblings; indices = 0 ∷ rest.indices }

  -- The first loop, `s` levels of it; the zero roots are carried along for the second.
  unfoldable pub climb : ℕ → List Bytes → List Bytes → ℕ → Result MerkleWitness
  unfolding extend
  climb zero zs level idx = elim (get_elem? level 0) [
    | none ↦ err other_error
    | some current ↦ ok (extend zs current)
  ]
  climb (suc s) zs level idx = elim (get_elem? level (sibling_of idx)) [
    | none ↦ err other_error
    | some sib ↦ elim (pair_up poseidon2 level) [
      | none ↦ err other_error
      | some next ↦ elim (climb s (elim zs [ [] ↦ [] | _ ∷ r ↦ r ]) next (idx / 2)) [
        | err e ↦ err e
        | ok rest ↦ ok (record {
          root = rest.root;
          siblings = sib ∷ rest.siblings;
          indices = (idx % 2) ∷ rest.indices;
        })
      ]
    ]
  ]

  -- `witness(targetIndex)`; the index is a natural number, so the test for a negative one is gone.
  unfoldable pub witness : MerkleShadow → ℕ → Result MerkleWitness
  unfolding climb small_depth
  witness t target =
      let n = length t.leaves in
      let s = small_depth n in
      let padded = t.leaves ++ replicate (2 ^ s - n) (zeros 32) in
      if leb n target then err other_error else climb s t.zero_subtree_roots padded target

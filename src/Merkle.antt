-- ===== src/Merkle.antt =====
-- Perfect binary trees over an abstract pair hash: the specification that the Merkle code of
-- packages/sdk/src/batch/inclusion-proof.ts, apps/demo/src/lib/dapp/merkle-shadow.ts and
-- apps/demo/src/lib/dapp/merkle-witness.ts is compared with. A tree is its leaf function, so that
-- padding is a property of the function and not of a list.
pub mod Path
pub mod Binding
pub mod Levels
use native.Mathlib.Nat.{pow-suc}
use darknyx_capstone_project.Base.{
  ◌^◌, ℕ, zero, suc, ◌+◌, ◌*◌, ◌/◌, ◌%◌, ◌<◌, ◌-◌, List, [], ◌∷◌, ◌==◌, if◌then◌else◌, ◌≡◌, refl,
  fun_ext, ◌≢◌, arith,
}

abbrev pub double : ℕ → ℕ
double zero = 0
double (suc n) = suc (suc (double n))

unfoldable pub pow2 : ℕ → ℕ
pow2 zero = 1
pow2 (suc k) = double (pow2 k)

pub double-eq : (n : ℕ) → double n ≡ 2 * n
double-eq zero = refl
double-eq (suc n) = omega (arith, double-eq n)

pub pow2_pos : (k : ℕ) → 0 < pow2 k
unfolding pow2
pow2_pos zero = omega arith
pow2_pos (suc k) = omega (arith, pow2_pos k, double-eq (pow2 k))

pub pow2-suc : (k : ℕ) → pow2 (suc k) ≡ 2 * pow2 k
unfolding pow2
pow2-suc k = double-eq (pow2 k)

pub pow2-eq : (k : ℕ) → pow2 k ≡ 2 ^ k
unfolding pow2
pow2-eq zero = refl
pow2-eq (suc k) = omega (arith, double-eq (pow2 k), pow2-eq k, pow-suc 2 k)

-- `idx ^ 1` of the source: the other child of the same parent.
abbrev pub sibling_of : ℕ → ℕ
sibling_of idx = if idx % 2 == 0 then idx + 1 else idx - 1

module _ {ℓ} {A : Type ℓ} (hash : A → A → A) where
  -- The level above: node `i` has the children `2 i` and `2 i + 1`.
  abbrev pub parents : (ℕ → A) → ℕ → A
  parents f i = hash (f (double i)) (f (suc (double i)))

  -- The root of the tree of depth `k` over the leaves `f 0`, `f 1`, …
  abbrev pub tree_root : (ℕ → A) → ℕ → A
  tree_root f zero = f 0
  tree_root f (suc k) = tree_root (parents f) k

  -- The authentication path of leaf `idx`, bottom-up.
  abbrev pub auth_path : (ℕ → A) → ℕ → ℕ → List A
  auth_path f zero idx = []
  auth_path f (suc k) idx = f (sibling_of idx) ∷ auth_path (parents f) k (idx / 2)

-- The side of the path at each level: 1 where the node is a right child.
abbrev pub path_bits : ℕ → ℕ → List ℕ
path_bits zero idx = []
path_bits (suc k) idx = (idx % 2) ∷ path_bits k (idx / 2)

module _ {ℓ} {A : Type ℓ} (hash : A → A → A) where
  -- A node's parent, found from its own side.
  pub parents_left :
      (f : ℕ → A) (idx : ℕ) → idx % 2 ≡ 0 → hash (f idx) (f (idx + 1)) ≡ parents hash f (idx / 2)
  parents_left f idx h =
      let e : idx ≡ double (idx / 2) = omega (arith, double-eq (idx / 2)) in
      let e' : idx + 1 ≡ suc (double (idx / 2)) = omega (arith, double-eq (idx / 2)) in cc (e, e')

  pub parents_right :
      (f : ℕ → A) (idx : ℕ) → idx % 2 ≢ 0 → hash (f (idx - 1)) (f idx) ≡ parents hash f (idx / 2)
  parents_right f idx h =
      let e : idx - 1 ≡ double (idx / 2) = omega (arith, double-eq (idx / 2)) in
      let e' : idx ≡ suc (double (idx / 2)) = omega (arith, double-eq (idx / 2)) in cc (e, e')

  -- One empty leaf, repeated, gives one hash at each level.
  pub parents_const : (z : A) → parents hash (λ _. z) ≡ (λ _. hash z z)
  parents_const z = refl

  pub tree_root_ext :
      (f g : ℕ → A) (k : ℕ) → ((i : ℕ) → f i ≡ g i) → tree_root hash f k ≡ tree_root hash g k
  tree_root_ext f g k h = rw (fun_ext h)

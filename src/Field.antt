-- ===== src/Field.antt =====
-- packages/sdk/src/utxo/note.ts and the field encoding of packages/sdk/src/keys/key-generators.ts:
-- big-endian field elements, the halves of a public key, note commitments and nullifiers. Poseidon
-- (circomlibjs) is a parameter, with the range of its results.
pub mod Encoding
pub mod Binding
use darknyx_capstone_project.Base.{
  ℕ, zero, suc, ◌/◌, ◌%◌, ◌<◌, List, [], ◌∷◌, ◌++◌, not, ◌==◌, ◌||◌, if◌then◌else◌, length, take,
  drop,
}
use darknyx_capstone_project.Base.Int.{ℤ, pos, pos_part, ltb_ℤ, leb_ℤ}
use darknyx_capstone_project.Errors.{Result, ok, err, other_error, throw_if, ◌>>=◌, ◌>>◌}
use darknyx_capstone_project.Bytes.{Bytes, be_value}

-- The BN254 scalar field modulus.
abbrev pub bn254_r : ℕ
bn254_r = 21888242871839275222246405745257275088548364400416034343698204186575808495617

-- `toObject(poseidon(inputs))`, a canonical field element.
pub record Poseidon : Type 0 where
  pub hash : List ℤ → ℕ
  pub in_field : (inputs : List ℤ) → hash inputs < bn254_r

-- The loop of `bigintToBE32`, from the last byte to the first: the bytes, and what is left of `x`.
unfoldable pub be_loop : ℕ → ℕ → Bytes × ℕ
be_loop zero x = ([], x)
be_loop (suc w) x = let rest = be_loop w (x / 256) in (rest.0 ++ (x % 256) ∷ [], rest.1)

unfoldable pub bigint_to_be32 : ℕ → Result Bytes
unfolding be_loop
bigint_to_be32 n = let out = be_loop 32 n in if out.1 == 0 then ok out.0 else err other_error

unfoldable pub bn254_to_be32 : ℤ → Result Bytes
unfolding bigint_to_be32
bn254_to_be32 x = do
  throw_if (ltb_ℤ x (pos 0) || leb_ℤ (pos bn254_r) x) other_error
  bigint_to_be32 (pos_part x)

-- `[lo, hi]`: the last and the first sixteen bytes, big-endian.
unfoldable pub pubkey_to_fr_pair : Bytes → Result (ℕ × ℕ)
pubkey_to_fr_pair pk = do
  throw_if (not (length pk == 32)) other_error
  ok (be_value (take 16 (drop 16 pk)), be_value (take 16 pk))

pub record Note : Type 0 where
  pub token_mint : Bytes
  pub amount : ℤ
  pub owner_commitment : ℤ
  pub nonce : ℤ
  pub blinding_r : ℤ

module _ (p : Poseidon) where
  unfoldable pub poseidon_hash_bytes_be : List ℤ → Result Bytes
  unfolding bn254_to_be32
  poseidon_hash_bytes_be inputs = bn254_to_be32 (pos (p.hash inputs))

  unfoldable pub note_commitment : Note → Result Bytes
  unfolding pubkey_to_fr_pair poseidon_hash_bytes_be
  note_commitment note = do
    mint ← pubkey_to_fr_pair note.token_mint
    poseidon_hash_bytes_be (
        pos mint.0
        ∷ pos mint.1
        ∷ note.amount
        ∷ note.owner_commitment
        ∷ note.nonce
        ∷ note.blinding_r
        ∷ [])

  unfoldable pub owner_commitment : ℤ → ℤ → ℤ
  owner_commitment spending_key blinding = pos (p.hash (spending_key ∷ blinding ∷ []))

  unfoldable pub nullifier : ℤ → Bytes → Result Bytes
  unfolding bn254_to_be32
  nullifier spending_key commitment_be = do
    throw_if (not (length commitment_be == 32)) other_error
    bn254_to_be32 (pos (p.hash (spending_key ∷ pos (be_value commitment_be) ∷ [])))

  -- `poseidon2(a, b)` of two byte arrays: the 32 bytes of the hash of their numbers.
  unfoldable pub poseidon2 : Bytes → Bytes → Bytes
  unfolding be_loop
  poseidon2 a b = (be_loop 32 (p.hash (pos (be_value a) ∷ pos (be_value b) ∷ []))).0

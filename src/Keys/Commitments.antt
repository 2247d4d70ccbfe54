-- ===== src/Keys/Commitments.antt =====
-- packages/sdk/src/keys/viewing-keys.ts and packages/sdk/src/keys/user-commitment.ts: viewing keys of a
-- pair and a month, and the user commitment.
use darknyx_capstone_project.Errors.{other_error, ok, Result, ◌>>=◌, ◌>>◌, throw_if}
use darknyx_capstone_project.Base.{◌==◌, length, not, ℕ, [], ◌∷◌}
use darknyx_capstone_project.Field.{bn254_to_be32, pubkey_to_fr_pair, Poseidon}
use darknyx_capstone_project.Base.Int.{pos, ℤ}
use darknyx_capstone_project.Bytes.{Bytes}

-- `deriveViewingKeyForPair` and `deriveMonthlyViewingKey`.
module _ (p : Poseidon) where
  unfoldable pub derive_viewing_key_for_pair : ℤ → Bytes → Bytes → Result ℕ
  unfolding pubkey_to_fr_pair
  derive_viewing_key_for_pair mvk base_mint quote_mint = do
    base ← pubkey_to_fr_pair base_mint
    quote ← pubkey_to_fr_pair quote_mint
    ok (p.hash (mvk ∷ pos base.0 ∷ pos base.1 ∷ pos quote.0 ∷ pos quote.1 ∷ []))

  unfoldable pub derive_monthly_viewing_key : ℤ → ℤ → ℤ → ℕ
  derive_monthly_viewing_key pair_vk year month =
      p.hash (pos (p.hash (pair_vk ∷ year ∷ [])) ∷ month ∷ [])

pub record UserCommitmentInputs : Type 0 where
  pub root_key_pubkey : Bytes
  pub spending_key : ℤ
  pub viewing_key : ℤ
  pub r0 : ℤ
  pub r1 : ℤ
  pub r2 : ℤ

module _ (p : Poseidon) where
  unfoldable pub user_commitment_from_keys : UserCommitmentInputs → Result Bytes
  unfolding pubkey_to_fr_pair bn254_to_be32
  user_commitment_from_keys inputs = do
    throw_if (not (length inputs.root_key_pubkey == 32)) other_error
    root ← pubkey_to_fr_pair inputs.root_key_pubkey
    let root_hash = p.hash (pos root.0 ∷ pos root.1 ∷ inputs.r0 ∷ [])
    let spend_hash = p.hash (inputs.spending_key ∷ inputs.r1 ∷ [])
    let view_hash = p.hash (inputs.viewing_key ∷ inputs.r2 ∷ [])
    let leaf_pair = p.hash (pos root_hash ∷ pos spend_hash ∷ [])
    bn254_to_be32 (pos (p.hash (pos leaf_pair ∷ pos view_hash ∷ [])))

-- ===== src/Withdraw.antt =====
-- packages/sdk/src/utxo/withdraw.ts: the withdrawal pipeline. The Merkle path of a note comes from a
-- provider and the proof from the prover; what either throws is thrown again with its stage.
pub mod Layout
pub mod Bound
pub mod Staged
use darknyx_capstone_project.Base.{ℕ, length, map, not, ◌==◌, ◌&&◌, [], ◌∷◌, Bool, false}
use darknyx_capstone_project.Base.Int.{ℤ, pos, negsuc, leb_ℤ}
use darknyx_capstone_project.Bytes.{Bytes, be_value}
use darknyx_capstone_project.Errors.{
  dark_pool_error, parameter, merkle_proof_fetch, proof_generation, transaction_send,
}
use darknyx_capstone_project.Exec.{Exec, ◌>>=◌, ◌>>◌, pure, lift, throw_unless}
use darknyx_capstone_project.Solana.{Runtime, PublicKey, TransactionInstruction}
use darknyx_capstone_project.Keys.{Crypto}
use darknyx_capstone_project.Field.{Poseidon, Note, note_commitment, nullifier, pubkey_to_fr_pair}
use darknyx_capstone_project.VaultClient.{build_withdraw_instruction}
use darknyx_capstone_project.Client.{
  ClientState, DarkPoolClient, TransactionCallbacks, ResolvedKeys, InclusionProof, SpendInputs,
  Groth16ProofBytes, get_resolved_keys, outside, attempt,
}

-- The token program stands after its default.
pub record WithdrawParams : Type 0 where
  pub payer : PublicKey
  pub token_mint : Bytes
  pub amount : ℤ
  pub destination_token_account : PublicKey
  pub note_plaintext : Note
  pub leaf_index : ℤ
  pub token_program_id : PublicKey

pub record WithdrawReceipt : Type 0 where
  pub signature : Bytes
  pub nullifier : Bytes
  pub merkle_root : Bytes

abbrev pub same_ℤ : ℤ → ℤ → Bool
same_ℤ (pos a) (pos b) = a == b
same_ℤ (negsuc a) (negsuc b) = a == b
same_ℤ (pos a) (negsuc b) = false
same_ℤ (negsuc a) (pos b) = false

abbrev pub spend_inputs :
    WithdrawParams → ResolvedKeys → InclusionProof → Bytes → ℕ × ℕ → SpendInputs
spend_inputs params keys m_proof nullifier_bytes mint = record {
  merkle_root = be_value m_proof.root;
  nullifier = be_value nullifier_bytes;
  token_mint = mint;
  amount = params.amount;
  spending_key = keys.spending_key;
  owner_commitment_blinding = keys.owner_blinding;
  nonce = params.note_plaintext.nonce;
  blinding_r = params.note_plaintext.blinding_r;
  merkle_path = map be_value m_proof.siblings;
  merkle_indices = m_proof.path_indices;
}

module _ {W : Type 0} (rt : Runtime) (p : Poseidon) (c : Crypto) (client : DarkPoolClient W) where
  unfoldable pub check_withdraw : WithdrawParams → Exec (ClientState W) (Unit {0})
  check_withdraw params = do
    throw_unless (not (leb_ℤ params.amount (pos 0))) (dark_pool_error parameter)
    throw_unless (same_ℤ params.amount params.note_plaintext.amount) (dark_pool_error parameter)

  unfoldable pub fetch_path : ℤ → Exec (ClientState W) InclusionProof
  fetch_path leaf_index = do
    m_proof ← attempt merkle_proof_fetch (outside (client.get_inclusion_proof leaf_index))
    throw_unless (length m_proof.siblings == 20 && length m_proof.path_indices == 20)
        (dark_pool_error merkle_proof_fetch)
    pure m_proof

  -- The body of the `try` around the prover.
  abbrev pub run_prover :
      WithdrawParams
      → ResolvedKeys
      → ResolvedKeys
      → InclusionProof
      → Bytes
      → Exec (ClientState W) Groth16ProofBytes
  run_prover params keys again m_proof nullifier_bytes = do
    mint ← lift (pubkey_to_fr_pair params.token_mint)
    outside (
        client.spend_prove (
          spend_inputs params (record keys { owner_blinding = again.owner_blinding }) m_proof
            nullifier_bytes mint))

  abbrev pub withdraw_args :
      WithdrawParams
      → InclusionProof
      → Bytes
      → Bytes
      → Groth16ProofBytes
      → darknyx_capstone_project.VaultClient.WithdrawParams
  withdraw_args params m_proof commitment nullifier_bytes proof = record {
    payer = params.payer;
    token_mint = params.token_mint;
    destination_token_account = params.destination_token_account;
    token_program_id = params.token_program_id;
    note_commitment = commitment;
    nullifier = nullifier_bytes;
    merkle_root = m_proof.root;
    amount = params.amount;
    proof = record { pi_a = proof.pi_a; pi_b = proof.pi_b; pi_c = proof.pi_c };
  }

  -- Everything before the stage "transaction-send": the instruction, and what the receipt needs.
  unfoldable pub prepare_withdraw :
      TransactionCallbacks W
      → WithdrawParams
      → Exec (ClientState W) (TransactionInstruction × Bytes × Bytes)
  unfolding check_withdraw fetch_path
  prepare_withdraw callbacks params = do
    check_withdraw params
    keys ← get_resolved_keys c client
    callbacks.pre "merkle-proof-fetch"
    m_proof ← fetch_path params.leaf_index
    callbacks.pre "note-build"
    commitment ← lift (note_commitment p params.note_plaintext)
    nullifier_bytes ← lift (nullifier p keys.spending_key commitment)
    callbacks.pre "proof-generation"
    again ← get_resolved_keys c client
    proof ← attempt proof_generation (run_prover params keys again m_proof nullifier_bytes)
    callbacks.pre "instruction-build"
    ix ← lift (
        build_withdraw_instruction rt client.program_id
          (withdraw_args params m_proof commitment nullifier_bytes proof))
    callbacks.pre "transaction-send"
    pure (ix, nullifier_bytes, m_proof.root)

  unfoldable pub withdraw :
      TransactionCallbacks W → WithdrawParams → Exec (ClientState W) WithdrawReceipt
  unfolding prepare_withdraw
  withdraw callbacks params = do
    ready ← prepare_withdraw callbacks params
    signature ← attempt transaction_send (outside (client.send_and_confirm (ready.0 ∷ [])))
    callbacks.post "transaction-send" signature
    pure (record { signature = signature; nullifier = ready.1; merkle_root = ready.2 })

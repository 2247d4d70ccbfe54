-- ===== src/VaultClient.antt =====
-- packages/sdk/src/idl/vault-client.ts: addresses and instructions of the vault program.
use Prim.Native.String.{String}
use darknyx_capstone_project.Base.{List, [], ◌∷◌, ◌++◌, not, ◌==◌, ◌||◌, length}
use darknyx_capstone_project.Base.Int.{ℤ, pos, pos_part, ltb_ℤ}
use darknyx_capstone_project.Errors.{Result, ok, other_error, throw_if, ◌>>=◌, ◌>>◌}
use darknyx_capstone_project.Bytes.{Bytes}
use darknyx_capstone_project.Solana.{
  Runtime, PublicKey, TransactionInstruction, AccountMeta, text_bytes, signer_writable,
  signer_readonly, writable, readonly,
}
use darknyx_capstone_project.Wire.{
  WireField, fixed, u64_le, u16_le, raw, cat_fields, anchor_discriminator,
}

pub record Groth16OnChainProof : Type 0 where
  pub pi_a : Bytes
  pub pi_b : Bytes
  pub pi_c : Bytes

-- The arguments of `cat` in `serializeProof`.
abbrev pub proof_fields : Groth16OnChainProof → List WireField
proof_fields p = fixed p.pi_a 64 ∷ fixed p.pi_b 128 ∷ fixed p.pi_c 64 ∷ []

module _ (rt : Runtime) (program : PublicKey) where
  unfoldable pub vault_config_pda : PublicKey
  vault_config_pda = (rt.find_program_address (text_bytes "vault_config" ∷ []) program).0

  -- An address derived from a tag and 32 bytes; `fixed32` throws on another length.
  unfoldable pub keyed_pda : String → Bytes → Result PublicKey
  unfolding cat_fields
  keyed_pda tag key = do
    k ← cat_fields (fixed key 32 ∷ [])
    ok (rt.find_program_address (text_bytes tag ∷ k ∷ []) program).0

  abbrev pub wallet_entry_pda : Bytes → Result PublicKey
  wallet_entry_pda commitment = keyed_pda "wallet" commitment

  abbrev pub nullifier_entry_pda : Bytes → Result PublicKey
  nullifier_entry_pda nullifier = keyed_pda "nullifier" nullifier

  abbrev pub note_lock_pda : Bytes → Result PublicKey
  note_lock_pda commitment = keyed_pda "note_lock" commitment

  abbrev pub consumed_note_pda : Bytes → Result PublicKey
  consumed_note_pda commitment = keyed_pda "consumed_note" commitment

  unfoldable pub vault_token_account_pda : PublicKey → PublicKey
  vault_token_account_pda mint =
      (rt.find_program_address (text_bytes "vault_token" ∷ mint ∷ []) program).0

  -- An instruction of the program: discriminator and arguments, the accounts in order.
  abbrev pub instruction :
      String → List WireField → List AccountMeta → Result TransactionInstruction
  instruction name args keys = do
    body ← cat_fields args
    ok (record {
      program_id = program;
      keys = keys;
      instruction_data = anchor_discriminator rt name ++ body;
    })

  unfoldable pub build_initialize_instruction :
      PublicKey → PublicKey → PublicKey → Result TransactionInstruction
  unfolding cat_fields anchor_discriminator vault_config_pda
  build_initialize_instruction admin tee_pubkey root_key =
      instruction "initialize" (raw tee_pubkey ∷ raw root_key ∷ [])
        (signer_writable admin ∷ writable vault_config_pda ∷ readonly rt.system_program ∷ [])

  -- The fee rate is a number, which may be out of range.
  unfoldable pub build_set_protocol_config_instruction :
      PublicKey → Bytes → ℤ → Result TransactionInstruction
  unfolding cat_fields anchor_discriminator vault_config_pda
  build_set_protocol_config_instruction admin protocol_owner_commitment fee_rate_bps = do
    throw_if (ltb_ℤ fee_rate_bps (pos 0) || ltb_ℤ (pos 10000) fee_rate_bps) other_error
    instruction "set_protocol_config"
        (fixed protocol_owner_commitment 32 ∷ u16_le (pos_part fee_rate_bps) ∷ [])
        (signer_readonly admin ∷ writable vault_config_pda ∷ [])

  unfoldable pub build_reset_merkle_tree_instruction : PublicKey → Result TransactionInstruction
  unfolding cat_fields anchor_discriminator vault_config_pda
  build_reset_merkle_tree_instruction admin =
      instruction "reset_merkle_tree" [] (signer_readonly admin ∷ writable vault_config_pda ∷ [])

  unfoldable pub build_rotate_root_key_instruction :
      PublicKey → PublicKey → Result TransactionInstruction
  unfolding cat_fields anchor_discriminator vault_config_pda
  build_rotate_root_key_instruction current_root_key new_root_key =
      instruction "rotate_root_key" (raw new_root_key ∷ [])
        (signer_readonly current_root_key ∷ writable vault_config_pda ∷ [])

  unfoldable pub build_create_wallet_instruction :
      PublicKey → Bytes → Groth16OnChainProof → Result TransactionInstruction
  unfolding cat_fields anchor_discriminator vault_config_pda keyed_pda
  build_create_wallet_instruction owner commitment proof = do
    wallet ← wallet_entry_pda commitment
    instruction "create_wallet" (fixed commitment 32 ∷ proof_fields proof) (
        signer_writable owner
        ∷ readonly vault_config_pda
        ∷ writable wallet
        ∷ readonly rt.system_program
        ∷ [])

pub record DepositAccounts : Type 0 where
  pub depositor : PublicKey
  pub token_mint : PublicKey
  pub depositor_token_account : PublicKey
  pub token_program_id : PublicKey

abbrev pub deposit_fields : ℤ → Bytes → Bytes → Bytes → List WireField
deposit_fields amount owner_commitment nonce blinding_r =
    u64_le amount ∷ fixed owner_commitment 32 ∷ fixed nonce 32 ∷ fixed blinding_r 32 ∷ []

pub record WithdrawParams : Type 0 where
  pub payer : PublicKey
  pub token_mint : PublicKey
  pub destination_token_account : PublicKey
  pub token_program_id : PublicKey
  pub note_commitment : Bytes
  pub nullifier : Bytes
  pub merkle_root : Bytes
  pub amount : ℤ
  pub proof : Groth16OnChainProof

module _ (rt : Runtime) (program : PublicKey) where
  abbrev pub deposit_keys : DepositAccounts → List AccountMeta
  deposit_keys a =
      signer_writable a.depositor
      ∷ writable (vault_config_pda rt program)
      ∷ readonly a.token_mint
      ∷ writable a.depositor_token_account
      ∷ writable (vault_token_account_pda rt program a.token_mint)
      ∷ readonly a.token_program_id
      ∷ readonly rt.system_program
      ∷ readonly rt.rent_sysvar
      ∷ []

  unfoldable pub build_deposit_instruction :
      DepositAccounts → ℤ → Bytes → Bytes → Bytes → Result TransactionInstruction
  build_deposit_instruction a amount owner_commitment nonce blinding_r =
      instruction rt program "deposit" (deposit_fields amount owner_commitment nonce blinding_r)
        (deposit_keys a)

  unfoldable pub build_lock_note_instruction :
      PublicKey → Bytes → Bytes → ℤ → ℤ → Result TransactionInstruction
  unfolding cat_fields anchor_discriminator vault_config_pda keyed_pda
  build_lock_note_instruction tee_authority commitment order_id expiry_slot amount = do
    note_lock ← note_lock_pda rt program commitment
    throw_if (not (length order_id == 16)) other_error
    instruction rt program "lock_note"
        (fixed commitment 32 ∷ raw order_id ∷ u64_le expiry_slot ∷ u64_le amount ∷ [])
        (signer_writable tee_authority
          ∷ readonly (vault_config_pda rt program)
          ∷ writable note_lock
          ∷ readonly rt.system_program
          ∷ [])

  unfoldable pub build_withdraw_instruction : WithdrawParams → Result TransactionInstruction
  unfolding cat_fields anchor_discriminator vault_config_pda keyed_pda vault_token_account_pda
  build_withdraw_instruction p = do
    consumed ← consumed_note_pda rt program p.note_commitment
    note_lock ← note_lock_pda rt program p.note_commitment
    entry ← nullifier_entry_pda rt program p.nullifier
    instruction rt program "withdraw"
        (fixed p.note_commitment 32
          ∷ fixed p.nullifier 32
          ∷ fixed p.merkle_root 32
          ∷ u64_le p.amount
          ∷ proof_fields p.proof)
        (signer_writable p.payer
          ∷ writable (vault_config_pda rt program)
          ∷ readonly p.token_mint
          ∷ writable (vault_token_account_pda rt program p.token_mint)
          ∷ writable p.destination_token_account
          ∷ readonly consumed
          ∷ readonly note_lock
          ∷ writable entry
          ∷ readonly p.token_program_id
          ∷ readonly rt.system_program
          ∷ [])

-- ===== src/Deposit.antt =====
-- packages/sdk/src/utxo/deposit.ts: the deposit pipeline. An account of the vault is read for the
-- next leaf index; the note, its commitment and the instruction are built, and the instruction sent.
pub mod Replayed
pub mod Refused
use darknyx_capstone_project.Base.{
  if◌then◌else◌, Option, none, some, ℕ, length, not, ltb, ◌==◌, [], ◌∷◌,
}
use darknyx_capstone_project.Base.Int.{ℤ, pos, leb_ℤ}
use darknyx_capstone_project.Bytes.{Bytes, slice, le_value}
use darknyx_capstone_project.Errors.{
  Result, ok, err, dark_pool_error, parameter, merkle_position_fetch,
}
use darknyx_capstone_project.Exec.{Exec, ◌>>=◌, ◌>>◌, pure, lift, throw_unless}
use darknyx_capstone_project.Solana.{Runtime, PublicKey}
use darknyx_capstone_project.Keys.{Crypto, derive_blinding_factor}
use darknyx_capstone_project.Field.{
  Poseidon, Note, note_commitment, owner_commitment, bn254_to_be32,
}
use darknyx_capstone_project.VaultClient.{
  DepositAccounts, build_deposit_instruction, vault_config_pda,
}
use darknyx_capstone_project.Client.{
  AccountInfo, ClientState, DarkPoolClient, TransactionCallbacks, ResolvedKeys, get_resolved_keys,
  outside,
}

-- The token program stands after its default.
pub record DepositParams : Type 0 where
  pub depositor : PublicKey
  pub token_mint : Bytes
  pub amount : ℤ
  pub depositor_token_account : PublicKey
  pub nonce : ℤ
  pub token_program_id : PublicKey

pub record DepositReceipt : Type 0 where
  pub signature : Bytes
  pub leaf_index : ℕ
  pub note_commitment : Bytes
  pub note_plaintext : Note

-- The note's numbers as the instruction carries them, and its commitment.
pub record BuiltNote : Type 0 where
  pub nonce_bytes : Bytes
  pub blinding_bytes : Bytes
  pub owner_bytes : Bytes
  pub commitment : Bytes

abbrev pub deposit_accounts : DepositParams → DepositAccounts
deposit_accounts p = record {
  depositor = p.depositor;
  token_mint = p.token_mint;
  depositor_token_account = p.depositor_token_account;
  token_program_id = p.token_program_id;
}

-- `leaf_count` of the vault's configuration account.
unfoldable pub read_leaf_index : Option AccountInfo → Result ℕ
read_leaf_index none = err (dark_pool_error merkle_position_fetch)
read_leaf_index (some info) =
    if ltb (length info.account_data) 112
    then err (dark_pool_error merkle_position_fetch)
    else ok (le_value (slice 104 8 info.account_data))

module _ {W : Type 0} (rt : Runtime) (p : Poseidon) (c : Crypto) (client : DarkPoolClient W) where
  abbrev pub plaintext : DepositParams → ResolvedKeys → ℕ → Note
  plaintext params keys leaf_index = record {
    token_mint = params.token_mint;
    amount = params.amount;
    owner_commitment = owner_commitment p keys.spending_key keys.owner_blinding;
    nonce = params.nonce;
    blinding_r = pos (derive_blinding_factor c keys.master_seed (pos leaf_index));
  }

  unfoldable pub check_deposit : DepositParams → Exec (ClientState W) (Unit {0})
  check_deposit params = do
    throw_unless (not (leb_ℤ params.amount (pos 0))) (dark_pool_error parameter)
    throw_unless (length params.token_mint == 32) (dark_pool_error parameter)

  abbrev pub fetch_leaf_index : Exec (ClientState W) ℕ
  fetch_leaf_index = do
    info ← outside (client.get_account_info (vault_config_pda rt client.program_id))
    lift (read_leaf_index info)

  unfoldable pub build_note : Note → Exec (ClientState W) BuiltNote
  build_note note = do
    nonce_bytes ← lift (bn254_to_be32 note.nonce)
    blinding_bytes ← lift (bn254_to_be32 note.blinding_r)
    owner_bytes ← lift (bn254_to_be32 note.owner_commitment)
    commitment ← lift (note_commitment p note)
    pure (record {
      nonce_bytes = nonce_bytes;
      blinding_bytes = blinding_bytes;
      owner_bytes = owner_bytes;
      commitment = commitment;
    })

  unfoldable pub deposit :
      TransactionCallbacks W → DepositParams → Exec (ClientState W) DepositReceipt
  unfolding check_deposit build_note
  deposit callbacks params = do
    check_deposit params
    keys ← get_resolved_keys c client
    callbacks.pre "merkle-position-fetch"
    leaf_index ← fetch_leaf_index
    callbacks.pre "note-build"
    let note = plaintext params keys leaf_index
    built ← build_note note
    callbacks.pre "instruction-build"
    ix ← lift (
        build_deposit_instruction rt client.program_id (deposit_accounts params) params.amount
          built.owner_bytes built.nonce_bytes built.blinding_bytes)
    callbacks.pre "transaction-send"
    signature ← outside (client.send_and_confirm (ix ∷ []))
    callbacks.post "transaction-send" signature
    pure (record {
      signature = signature;
      leaf_index = leaf_index;
      note_commitment = built.commitment;
      note_plaintext = note;
    })

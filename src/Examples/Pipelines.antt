-- ===== src/Examples/Pipelines.antt =====
-- The theorems on the client and on the pipelines at a concrete client, whose world counts the
-- instructions that were sent.
use darknyx_capstone_project.Examples.Replays.{deposit_disc_size}
use darknyx_capstone_project.Withdraw.Staged.{withdraw-unsent, withdraw-parameter, IsUnsent}
use darknyx_capstone_project.Withdraw.Bound.{withdraw-SpendsNote, SpendsNote}
use darknyx_capstone_project.Deposit.Replayed.{deposit-process_ix_data}
use darknyx_capstone_project.Withdraw.{WithdrawParams, withdraw, WithdrawReceipt}
use darknyx_capstone_project.Base.{
  inr, ◌++◌, ◌⊎◌, Option, take, ◌+◌, ◌%◌, length, ◌≡◌, refl, arith, replicate, none, some, ℕ, [],
  ◌∷◌,
}
use darknyx_capstone_project.Errors.{
  transaction_send, parameter, merkle_proof_fetch, dark_pool_error, Result, other_error, ok, err,
}
use darknyx_capstone_project.History.Deposits.{account_keys}
use darknyx_capstone_project.Examples.{toy_runtime, toy_poseidon, leaf_of, from_ok}
use darknyx_capstone_project.Bytes.{Bytes}
use darknyx_capstone_project.Client.{
  Groth16ProofBytes, SpendInputs, seed_of, get_resolved_keys, TransactionCallbacks, DarkPoolClient,
  ClientState,
}
use darknyx_capstone_project.History.{process_ix_data}
use darknyx_capstone_project.Wire.{anchor_discriminator, cat_fields}
use darknyx_capstone_project.VaultClient.{build_withdraw_instruction, build_deposit_instruction}
use darknyx_capstone_project.Solana.{TransactionInstruction}
use darknyx_capstone_project.Client.Keeping.{Keeps}
use darknyx_capstone_project.Deposit.{
  build_note, check_deposit, deposit, DepositReceipt, DepositParams, read_leaf_index,
}
use darknyx_capstone_project.Keys.Seeds.{resolve_master_seed, wallet_signature}
use darknyx_capstone_project.Field.{
  nullifier, bn254_to_be32, owner_commitment, note_commitment, Note,
}
use darknyx_capstone_project.Keys.{derive_blinding_factor, Crypto}
use darknyx_capstone_project.Base.Int.{pos}

abbrev pub toy_crypto : Crypto
toy_crypto = record {
  hmac = λ key message. replicate 32 (length message % 256);
  shake256 = λ message n. replicate n (length message % 256);
  sha512 = λ message. replicate 64 5;
}

abbrev pub toy_client : DarkPoolClient ℕ
toy_client = record {
  program_id = leaf_of 20;
  seed_mode = wallet_signature (λ message w. (ok (leaf_of 1), w)) none;
  trading_offset = pos 0;
  owner_blinding = pos 3;
  get_account_info =
      λ key w. (ok (some (record { account_data = replicate 120 0; owner = leaf_of 20 })), w);
  send_and_confirm = λ ixs w. (ok (leaf_of 9), w + length ixs);
  get_inclusion_proof = λ i w. (
    ok (record {
      root = leaf_of 4;
      siblings = replicate 20 (leaf_of 5);
      path_indices = replicate 20 0;
    }),
    w,
  );
  spend_prove = λ inputs w. (
    ok (record {
      pi_a = replicate 64 1;
      pi_b = replicate 128 2;
      pi_c = replicate 64 3;
      public_inputs = [];
    }),
    w,
  );
  random_seed = λ w. (ok (replicate 64 6), w);
}

-- A client whose proof provider fails.
abbrev pathless_client : DarkPoolClient ℕ
pathless_client = record toy_client { get_inclusion_proof = λ i w. (err other_error, w) }

abbrev silent : TransactionCallbacks ℕ
silent = record { pre = λ step s. (ok tt, s); post = λ step sig s. (ok tt, s) }

abbrev pub fresh_state : ClientState ℕ
fresh_state = record { world = 0; resolved_seed = none }

abbrev sample_deposit : DepositParams
sample_deposit = record {
  depositor = leaf_of 30;
  token_mint = leaf_of 31;
  amount = pos 500;
  depositor_token_account = leaf_of 32;
  nonce = pos 42;
  token_program_id = leaf_of 33;
}

abbrev pub sample_note : Note
sample_note = record {
  token_mint = leaf_of 31;
  amount = pos 500;
  owner_commitment = pos 7;
  nonce = pos 42;
  blinding_r = pos 11;
}

abbrev no_receipt : DepositReceipt
no_receipt = record {
  signature = [];
  leaf_index = 0;
  note_commitment = [];
  note_plaintext = sample_note;
}

abbrev deposited : Result DepositReceipt × ClientState ℕ
unfolding deposit check_deposit build_note get_resolved_keys seed_of
deposited = deposit toy_runtime toy_poseidon toy_crypto toy_client silent sample_deposit fresh_state

deposited_lem :
    deposit toy_runtime toy_poseidon toy_crypto toy_client silent sample_deposit fresh_state
    ≡ (ok (from_ok no_receipt deposited.0), deposited.1)
unfolding deposited deposit check_deposit build_note get_resolved_keys seed_of resolve_master_seed
    read_leaf_index bn254_to_be32 derive_blinding_factor owner_commitment note_commitment
    build_deposit_instruction cat_fields
deposited_lem = refl

abbrev receipt : DepositReceipt
receipt = from_ok no_receipt deposited.0

withdraw_disc_size : length (anchor_discriminator toy_runtime "withdraw") ≡ 8
unfolding anchor_discriminator
withdraw_disc_size = refl

deposit-process_ix_data_example :
    (ix : TransactionInstruction) × (w : ℕ) × (w' : ℕ) × (toy_client.send_and_confirm (ix ∷ []) w
      ≡ (ok receipt.signature, w'))
    × (ix.program_id ≡ leaf_of 20)
    × (note_commitment toy_poseidon receipt.note_plaintext ≡ ok receipt.note_commitment)
    × (process_ix_data toy_runtime toy_poseidon [] ix.instruction_data (account_keys ix.keys)
        ≡ ok ([] ++ receipt.note_commitment ∷ []))
deposit-process_ix_data_example =
    deposit-process_ix_data toy_runtime toy_poseidon toy_crypto toy_client silent sample_deposit
      receipt fresh_state deposited.1 [] deposit_disc_size (omega arith) deposited_lem

abbrev sample_withdrawal : WithdrawParams
sample_withdrawal = record {
  payer = leaf_of 30;
  token_mint = leaf_of 31;
  amount = pos 500;
  destination_token_account = leaf_of 32;
  note_plaintext = sample_note;
  leaf_index = pos 6;
  token_program_id = leaf_of 33;
}

abbrev no_withdrawal : WithdrawReceipt
no_withdrawal = record { signature = []; nullifier = []; merkle_root = [] }

abbrev withdrawn : Result WithdrawReceipt × ClientState ℕ
withdrawn =
    withdraw toy_runtime toy_poseidon toy_crypto toy_client silent sample_withdrawal fresh_state

abbrev withdrawal : WithdrawReceipt
withdrawal = from_ok no_withdrawal withdrawn.0

withdrawn_lem :
    withdraw toy_runtime toy_poseidon toy_crypto toy_client silent sample_withdrawal fresh_state
    ≡ (ok (from_ok no_withdrawal withdrawn.0), withdrawn.1)
unfolding withdraw get_resolved_keys resolve_master_seed note_commitment nullifier
    build_withdraw_instruction
withdrawn_lem = refl

withdraw-SpendsNote_example :
    (ix : TransactionInstruction) × (inputs : SpendInputs) × (proof : Groth16ProofBytes) × ((w : ℕ)
      × (w' : ℕ) × (toy_client.spend_prove inputs w ≡ (ok proof, w')))
    × ((w : ℕ) × (w' : ℕ) × (toy_client.send_and_confirm (ix ∷ []) w
          ≡ (ok withdrawal.signature, w')))
    × SpendsNote toy_poseidon sample_note inputs proof withdrawal ix.instruction_data
withdraw-SpendsNote_example =
    withdraw-SpendsNote toy_runtime toy_poseidon toy_crypto toy_client silent sample_withdrawal
      withdrawal fresh_state withdrawn.1 withdraw_disc_size (omega arith) withdrawn_lem

-- Nothing was sent.
abbrev NothingSent : ClientState ℕ → Type 0
NothingSent s = s.world ≡ 0

failed_lem :
    withdraw toy_runtime toy_poseidon toy_crypto pathless_client silent sample_withdrawal
      fresh_state
    ≡ (
      err (dark_pool_error merkle_proof_fetch),
      record { world = 0; resolved_seed = some (take 64 (replicate 64 5)) },
    )
unfolding withdraw get_resolved_keys resolve_master_seed
failed_lem = refl

get_resolved_keys-NothingSent : Keeps NothingSent (get_resolved_keys toy_crypto pathless_client)
unfolding get_resolved_keys seed_of resolve_master_seed
get_resolved_keys-NothingSent s h = by_seed s.resolved_seed h
  where
    by_seed :
        (r : Option Bytes)
        → s.world ≡ 0
        → NothingSent
            (get_resolved_keys toy_crypto pathless_client
              (record { world = s.world; resolved_seed = r })).1
    by_seed (some seed) k = k
    by_seed none k = k

pathless-IsUnsent : IsUnsent toy_runtime toy_poseidon toy_crypto pathless_client silent NothingSent
pathless-IsUnsent = record {
  by_keys = get_resolved_keys-NothingSent;
  by_pre = λ step s h. h;
  by_path = λ i s h. h;
  by_prover = λ inputs s h. h;
}

withdraw-unsent_example :
    NothingSent (record { world = 0; resolved_seed = some (take 64 (replicate 64 5)) })
    ⊎ (dark_pool_error merkle_proof_fetch ≡ dark_pool_error transaction_send)
withdraw-unsent_example =
    withdraw-unsent toy_runtime toy_poseidon toy_crypto pathless_client silent sample_withdrawal
      NothingSent fresh_state
      (record { world = 0; resolved_seed = some (take 64 (replicate 64 5)) })
      (dark_pool_error merkle_proof_fetch) pathless-IsUnsent (λ sig s1. refl) refl failed_lem

withdraw-parameter_example :
    withdraw toy_runtime toy_poseidon toy_crypto toy_client silent
      (record sample_withdrawal { amount = pos 499 })
      fresh_state
    ≡ (err (dark_pool_error parameter), fresh_state)
withdraw-parameter_example =
    withdraw-parameter toy_runtime toy_poseidon toy_crypto toy_client silent
      (record sample_withdrawal { amount = pos 499 }) fresh_state (inr refl)

-- ===== src/Examples/Replays.antt =====
-- The theorems on instructions and on the replay at concrete instructions and a concrete connection.
use darknyx_capstone_project.Base.{
  some, ◌≡◌, arith, get_or, ◌++◌, ap, ◌≢◌, replicate, none, refl, ℕ, [], ◌∷◌, length,
}
use darknyx_capstone_project.Settlement.Ed25519.{build_ed25519_verify_ix-header, u16_at}
use darknyx_capstone_project.Settlement.{
  build_ed25519_verify_ix, serialize_payload, tagged_pda, build_settle_ix,
}
use darknyx_capstone_project.Bytes.{slice, Bytes}
use darknyx_capstone_project.History.Deposits.{
  process_ix_data-build_deposit_instruction, note_of_deposit, account_keys,
}
use darknyx_capstone_project.Errors.{◌>>=◌, ok}
use darknyx_capstone_project.Examples.{sample_payload, from_ok, toy_poseidon, toy_runtime, leaf_of}
use darknyx_capstone_project.Base.Int.{pos}
use darknyx_capstone_project.Field.{note_commitment}
use darknyx_capstone_project.History.Instructions.{process_ix_data-build_settle_ix}
use darknyx_capstone_project.History.Pages.{fetch_signatures_paginated-ends}
use darknyx_capstone_project.History.Leaves.{settle_leaves}
use darknyx_capstone_project.History.{
  fetch_signatures_paginated, process_ix_data, fetch_loop, Connection,
}
use darknyx_capstone_project.Wire.{write_field, cat_fields, anchor_discriminator}
use darknyx_capstone_project.VaultClient.{build_deposit_instruction, DepositAccounts}
use darknyx_capstone_project.Solana.{TransactionInstruction}

abbrev no_instruction : TransactionInstruction
no_instruction = record { program_id = []; keys = []; instruction_data = [] }

abbrev sample_settle_ix : TransactionInstruction
unfolding build_settle_ix tagged_pda serialize_payload cat_fields write_field anchor_discriminator
sample_settle_ix =
    from_ok no_instruction (build_settle_ix toy_runtime (leaf_of 20) (leaf_of 21) sample_payload)

sample_settle_ix_lem :
    build_settle_ix toy_runtime (leaf_of 20) (leaf_of 21) sample_payload ≡ ok sample_settle_ix
unfolding sample_settle_ix build_settle_ix tagged_pda serialize_payload cat_fields write_field
    anchor_discriminator
sample_settle_ix_lem = refl

pub deposit_disc_size : length (anchor_discriminator toy_runtime "deposit") ≡ 8
unfolding anchor_discriminator
deposit_disc_size = refl

pub settle_disc_size : length (anchor_discriminator toy_runtime "tee_forced_settle") ≡ 8
unfolding anchor_discriminator
settle_disc_size = refl

pub discs_differ :
    anchor_discriminator toy_runtime "tee_forced_settle"
    ≢ anchor_discriminator toy_runtime "deposit"
unfolding anchor_discriminator
discs_differ e = let first : ◌≡◌ {A = ℕ} 24 14 = ap (λ (b : Bytes). get_or b 0 0) e in omega arith

process_ix_data-build_settle_ix_example :
    process_ix_data toy_runtime toy_poseidon (leaf_of 1 ∷ []) sample_settle_ix.instruction_data []
    ≡ ok (leaf_of 1 ∷ [] ++ settle_leaves sample_payload)
process_ix_data-build_settle_ix_example =
    process_ix_data-build_settle_ix toy_runtime toy_poseidon (leaf_of 20) (leaf_of 21)
      sample_payload sample_settle_ix (leaf_of 1 ∷ []) [] deposit_disc_size settle_disc_size
      discs_differ sample_settle_ix_lem

abbrev sample_accounts : DepositAccounts
sample_accounts = record {
  depositor = leaf_of 30;
  token_mint = leaf_of 31;
  depositor_token_account = leaf_of 32;
  token_program_id = leaf_of 33;
}

abbrev sample_deposit_ix : TransactionInstruction
unfolding build_deposit_instruction cat_fields write_field
sample_deposit_ix = from_ok no_instruction (
    build_deposit_instruction toy_runtime (leaf_of 20) sample_accounts (pos 500) (leaf_of 1)
      (leaf_of 2) (leaf_of 3))

sample_deposit_ix_lem :
    build_deposit_instruction toy_runtime
      (leaf_of 20)
      sample_accounts
      (pos 500)
      (leaf_of 1)
      (leaf_of 2)
      (leaf_of 3)
    ≡ ok sample_deposit_ix
unfolding sample_deposit_ix build_deposit_instruction cat_fields write_field
sample_deposit_ix_lem = refl

process_ix_data-build_deposit_instruction_example :
    process_ix_data toy_runtime toy_poseidon [] sample_deposit_ix.instruction_data
      (account_keys sample_deposit_ix.keys)
    ≡ (note_commitment toy_poseidon
          (note_of_deposit (leaf_of 31) (pos 500) (leaf_of 1) (leaf_of 2) (leaf_of 3))
        >>= λ leaf. ok ([] ++ leaf ∷ []))
process_ix_data-build_deposit_instruction_example =
    process_ix_data-build_deposit_instruction toy_runtime toy_poseidon (leaf_of 20) sample_accounts
      (pos 500) (leaf_of 1) (leaf_of 2) (leaf_of 3) sample_deposit_ix [] deposit_disc_size
      (omega arith) sample_deposit_ix_lem

-- A server that has one signature, and repeats it.
abbrev repeating : Connection
repeating = record {
  get_transaction = λ sig. ok none;
  get_signatures = λ limit before. ok (replicate limit "sig");
  bs58_decode = λ text. ok [];
  parse_public_key = λ text. ok [];
}

fetch_signatures_paginated-ends_example :
    fetch_loop repeating 3 9 [] none ≡ some (fetch_signatures_paginated repeating 3)
fetch_signatures_paginated-ends_example =
    fetch_signatures_paginated-ends repeating 3 9 (omega arith)

abbrev sample_verify_ix : TransactionInstruction
unfolding build_ed25519_verify_ix cat_fields write_field
sample_verify_ix =
    from_ok no_instruction
      (build_ed25519_verify_ix toy_runtime (leaf_of 1) (replicate 64 2) (leaf_of 3))

sample_verify_ix_lem :
    build_ed25519_verify_ix toy_runtime (leaf_of 1) (replicate 64 2) (leaf_of 3)
    ≡ ok sample_verify_ix
unfolding sample_verify_ix build_ed25519_verify_ix cat_fields write_field
sample_verify_ix_lem = refl

build_ed25519_verify_ix-header_example :
    (slice (u16_at 6 sample_verify_ix.instruction_data) 32 sample_verify_ix.instruction_data
      ≡ leaf_of 1)
    × (slice (u16_at 2 sample_verify_ix.instruction_data) 64 sample_verify_ix.instruction_data
        ≡ replicate 64 2)
    × (slice
          (u16_at 10 sample_verify_ix.instruction_data)
          (u16_at 12 sample_verify_ix.instruction_data)
          sample_verify_ix.instruction_data
        ≡ leaf_of 3)
build_ed25519_verify_ix-header_example =
    build_ed25519_verify_ix-header toy_runtime (leaf_of 1) (replicate 64 2) (leaf_of 3)
      sample_verify_ix (omega arith) sample_verify_ix_lem

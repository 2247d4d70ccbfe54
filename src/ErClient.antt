-- ===== src/ErClient.antt =====
-- packages/sdk/src/idl/er-client.ts: delegation to the ephemeral rollup: addresses, instructions, and the
-- wait for an account of L1 to change, over a world with a clock. The ids of the delegation program, of
-- the magic program and of its context are parameters; so are the connection and the timer.
pub mod Waiting
use darknyx_capstone_project.Errors.{Result, other_error, ok, err}
use Prim.Native.String.{String}
use darknyx_capstone_project.Base.{
  ℕ, zero, suc, ◌+◌, List, [], ◌∷◌, ◌++◌, Option, none, some, ltb, if◌then◌else◌,
}
use darknyx_capstone_project.Bytes.{Bytes, same_bytes}
use darknyx_capstone_project.Exec.{Exec}
use darknyx_capstone_project.Solana.{
  Runtime, PublicKey, TransactionInstruction, AccountMeta, text_bytes, signer_writable, writable,
  readonly,
}
use darknyx_capstone_project.Wire.{anchor_discriminator}
use darknyx_capstone_project.MatchingEngine.Market.{
  dark_clob_pda, matching_config_pda, batch_results_pda,
}
use darknyx_capstone_project.Client.{AccountInfo}

pub record Rollup : Type 0 where
  pub delegation_program : PublicKey
  pub magic_program : PublicKey
  pub magic_context : PublicKey

pub record DelegationPdas : Type 0 where
  pub buffer : PublicKey
  pub delegation_record : PublicKey
  pub metadata : PublicKey

pub record DelegateMarketPdaParams : Type 0 where
  pub program_id : PublicKey
  pub payer : PublicKey
  pub market : PublicKey

module _ (rt : Runtime) (er : Rollup) where
  unfoldable pub delegation_pdas : PublicKey → PublicKey → DelegationPdas
  delegation_pdas owner_program delegated_pda = record {
    buffer = (rt.find_program_address (text_bytes "buffer" ∷ delegated_pda ∷ []) owner_program).0;
    delegation_record =
        (rt.find_program_address (text_bytes "delegation" ∷ delegated_pda ∷ [])
          er.delegation_program).0;
    metadata =
        (rt.find_program_address (text_bytes "delegation-metadata" ∷ delegated_pda ∷ [])
          er.delegation_program).0;
  }

  unfoldable pub build_delegate_pda_ix :
      DelegateMarketPdaParams → String → PublicKey → TransactionInstruction
  unfolding delegation_pdas anchor_discriminator
  build_delegate_pda_ix params ix_name pda =
      let pdas = delegation_pdas params.program_id pda in
      record {
        program_id = params.program_id;
        keys =
            signer_writable params.payer
            ∷ writable pdas.buffer
            ∷ writable pdas.delegation_record
            ∷ writable pdas.metadata
            ∷ writable pda
            ∷ readonly params.program_id
            ∷ readonly er.delegation_program
            ∷ readonly rt.system_program
            ∷ [];
        instruction_data = anchor_discriminator rt ix_name ++ params.market;
      }

  unfoldable pub build_delegate_dark_clob_instruction :
      DelegateMarketPdaParams → TransactionInstruction
  unfolding build_delegate_pda_ix
  build_delegate_dark_clob_instruction p =
      build_delegate_pda_ix p "delegate_dark_clob" (dark_clob_pda rt p.program_id p.market)

  unfoldable pub build_delegate_matching_config_instruction :
      DelegateMarketPdaParams → TransactionInstruction
  unfolding build_delegate_pda_ix
  build_delegate_matching_config_instruction p =
      build_delegate_pda_ix p "delegate_matching_config"
        (matching_config_pda rt p.program_id p.market)

  unfoldable pub build_delegate_batch_results_instruction :
      DelegateMarketPdaParams → TransactionInstruction
  unfolding build_delegate_pda_ix
  build_delegate_batch_results_instruction p =
      build_delegate_pda_ix p "delegate_batch_results" (batch_results_pda rt p.program_id p.market)

  -- The accounts of `commit_market_state` and `undelegate_market`.
  abbrev pub commit_market_state_accounts : DelegateMarketPdaParams → List AccountMeta
  commit_market_state_accounts p =
      signer_writable p.payer
      ∷ writable (dark_clob_pda rt p.program_id p.market)
      ∷ writable (matching_config_pda rt p.program_id p.market)
      ∷ writable (batch_results_pda rt p.program_id p.market)
      ∷ readonly er.magic_program
      ∷ writable er.magic_context
      ∷ []

  unfoldable pub build_commit_market_state_instruction :
      DelegateMarketPdaParams → TransactionInstruction
  unfolding anchor_discriminator
  build_commit_market_state_instruction p = record {
    program_id = p.program_id;
    keys = commit_market_state_accounts p;
    instruction_data = anchor_discriminator rt "commit_market_state";
  }

  unfoldable pub build_undelegate_market_instruction :
      DelegateMarketPdaParams → TransactionInstruction
  unfolding anchor_discriminator
  build_undelegate_market_instruction p = record {
    program_id = p.program_id;
    keys = commit_market_state_accounts p;
    instruction_data = anchor_discriminator rt "undelegate_market";
  }

pub record TimedConnection (W : Type 0) : Type 0 where
  -- `Date.now()`, in milliseconds.
  pub now : W → ℕ
  pub get_account_info : PublicKey → Exec W (Option AccountInfo)
  -- `setTimeout`, awaited.
  pub sleep : ℕ → W → W

-- The data of an account that is there and differs from `initial`; the texts that the source compares are
-- the data in hexadecimal, and `null` differs from all.
abbrev pub changed_data : Option Bytes → Option AccountInfo → Option Bytes
changed_data initial none = none
changed_data none (some account) = some account.account_data
changed_data (some before) (some account) =
    if same_bytes account.account_data before then none else some account.account_data

module _ {W : Type 0} (l1 : TimedConnection W) (pubkey : PublicKey) (initial : Option Bytes) where
  -- What follows a read: the exception that it threw, the changed data, or a pause and the rounds
  -- behind. `none` is a wait that has not ended.
  abbrev pub after_read :
      (W → Option (Result Bytes × W)) → ℕ → Option Bytes → W → Option (Result Bytes × W)
  after_read rest interval (some account) w = some (ok account, w)
  after_read rest interval none w = rest (l1.sleep interval w)

  abbrev pub by_account :
      (W → Option (Result Bytes × W))
      → ℕ
      → Result (Option AccountInfo) × W
      → Option (Result Bytes × W)
  by_account rest interval (err thrown, w) = some (err thrown, w)
  by_account rest interval (ok acct, w) = after_read rest interval (changed_data initial acct) w

  -- The loop of `waitForL1AccountChange`, and its exit; without fuel it has not ended.
  unfoldable pub wait_loop : ℕ → ℕ → ℕ → W → Option (Result Bytes × W)
  wait_loop zero interval deadline w = none
  wait_loop (suc fuel) interval deadline w =
      let rest = wait_loop fuel interval deadline in
      if ltb (l1.now w) deadline
      then by_account rest interval (l1.get_account_info pubkey w)
      else some (err other_error, w)

  -- A round takes a millisecond or more, so that `timeout` rounds reach the deadline; the round behind
  -- them throws.
  unfoldable pub wait_for_l1_account_change : ℕ → ℕ → W → Option (Result Bytes × W)
  unfolding wait_loop
  wait_for_l1_account_change timeout interval w =
      wait_loop (suc timeout) interval (l1.now w + timeout) w

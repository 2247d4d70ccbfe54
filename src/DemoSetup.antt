-- ===== src/DemoSetup.antt =====
-- apps/demo/src/lib/dapp/ensure-zero-fee.ts, ensure-market-delegated.ts and persona-client.ts: what the
-- demo's server does before a trade, over a connection to L1 with one signer.
pub mod ConfigLayout
pub mod ZeroFee
use Prim.Native.String.{String}
use darknyx_capstone_project.Base.{
  ℕ, ◌+◌, ◌*◌, List, [], ◌∷◌, Bool, true, false, not, Option, none, some, ltb, ◌==◌, if◌then◌else◌,
  length,
}
use darknyx_capstone_project.Base.Int.{ℤ, pos}
use darknyx_capstone_project.Bytes.{Bytes, slice, le_value, same_bytes}
use darknyx_capstone_project.Errors.{Result, ok, err, other_error}
use darknyx_capstone_project.Exec.{Exec, ◌>>=◌, ◌>>◌, pure, lift, raise, throw_unless}
use darknyx_capstone_project.Solana.{Runtime, PublicKey, TransactionInstruction}
use darknyx_capstone_project.VaultClient.{vault_config_pda, build_set_protocol_config_instruction}
use darknyx_capstone_project.MatchingEngine.Market.{dark_clob_pda}
use darknyx_capstone_project.ErClient.{
  Rollup, DelegateMarketPdaParams, build_delegate_dark_clob_instruction,
  build_delegate_matching_config_instruction, build_delegate_batch_results_instruction,
}
use darknyx_capstone_project.Client.{AccountInfo, DarkPoolClient}
use darknyx_capstone_project.Keys.Seeds.{csprng}
use darknyx_capstone_project.ChangeNote.{actor_seed}

pub record L1Connection (W : Type 0) : Type 0 where
  pub get_account_info : PublicKey → Exec W (Option AccountInfo)
  pub send_and_confirm : List TransactionInstruction → Exec W Bytes

pub record EnsureZeroFeeOutcome : Type 0 where
  pub observed_fee_bps : ℕ
  pub zeroed : Bool
  pub signature : Option Bytes

abbrev pub protocol_owner_commitment_offset : ℕ
protocol_owner_commitment_offset = 8 + 32 + 32 + 32 + 8 + 32 + 32 * 32 + 20 * 32 + 20 * 32 + 1 + 1

abbrev pub fee_rate_bps_offset : ℕ
fee_rate_bps_offset = protocol_owner_commitment_offset + 32

pub data Persona : Type 0 where
  taker maker : Persona

abbrev pub persona_name : Persona → String
persona_name taker = "taker"
persona_name maker = "maker"

abbrev pub persona_blinding : Persona → ℤ
persona_blinding taker = pos 1111
persona_blinding maker = pos 2222

-- The data of an account that must be there.
abbrev pub existing : Option AccountInfo → Result AccountInfo
existing none = err other_error
existing (some account) = ok account

module _ {W : Type 0} (rt : Runtime) (l1 : L1Connection W) where
  -- What follows the read of the fee.
  unfoldable pub zero_fee : PublicKey → PublicKey → Bytes → ℕ → Exec W EnsureZeroFeeOutcome
  zero_fee program admin account observed =
      if observed == 0
      then pure (record { observed_fee_bps = 0; zeroed = false; signature = none })
      else do
        ix ← lift (
            build_set_protocol_config_instruction rt program admin
              (slice protocol_owner_commitment_offset 32 account) (pos 0))
        sig ← l1.send_and_confirm (ix ∷ [])
        pure (record { observed_fee_bps = observed; zeroed = true; signature = some sig })

  unfoldable pub ensure_zero_protocol_fee : PublicKey → PublicKey → Exec W EnsureZeroFeeOutcome
  unfolding zero_fee
  ensure_zero_protocol_fee program admin = do
    info ← l1.get_account_info (vault_config_pda rt program)
    account ← lift (existing info)
    throw_unless (not (ltb (length account.account_data) (fee_rate_bps_offset + 2))) other_error
    zero_fee program admin account.account_data
        (le_value (slice fee_rate_bps_offset 2 account.account_data))

  unfoldable pub ensure_market_delegated_on_l1 :
      Rollup → PublicKey → PublicKey → PublicKey → Exec W (Unit {0})
  ensure_market_delegated_on_l1 er me_program market funder = do
    info ← l1.get_account_info (dark_clob_pda rt me_program market)
    clob ← lift (existing info)
    let params : DelegateMarketPdaParams = record {
      program_id = me_program;
      payer = funder;
      market = market;
    }
    if same_bytes clob.owner er.delegation_program then pure tt else (do
      sig ← l1.send_and_confirm (
          build_delegate_dark_clob_instruction rt er params
          ∷ build_delegate_matching_config_instruction rt er params
          ∷ build_delegate_batch_results_instruction rt er params
          ∷ [])
      pure tt)

  -- The client of a demo persona: its seed is derived, and it has neither proofs nor a prover.
  unfoldable pub make_persona_dark_pool_client : PublicKey → Bytes → Persona → DarkPoolClient W
  unfolding actor_seed
  make_persona_dark_pool_client vault_program public_key role =
      let seed = actor_seed rt (persona_name role) public_key in
      record {
        program_id = vault_program;
        seed_mode = csprng (pure (some seed)) (λ stored. pure tt);
        trading_offset = pos 0;
        owner_blinding = persona_blinding role;
        get_account_info = l1.get_account_info;
        send_and_confirm = l1.send_and_confirm;
        get_inclusion_proof = λ leaf_index. raise other_error;
        spend_prove = λ inputs. raise other_error;
        random_seed = pure seed;
      }

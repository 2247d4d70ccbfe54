-- ===== src/MatchingEngine/Market.antt =====
-- packages/sdk/src/idl/matching-engine-client.ts: the instructions that set up a market, its access
-- list and its order slots, and those that run it. The permission and the delegation program are
-- constants of the deployment and come as parameters.
use darknyx_capstone_project.Solana.{
  signer_readonly, readonly, text_bytes, Runtime, PublicKey, writable, signer_writable,
  TransactionInstruction,
}
use darknyx_capstone_project.Errors.{other_error, throw_if, Result, ◌>>=◌, ◌>>◌}
use darknyx_capstone_project.Base.{map, length, Bool, if◌then◌else◌, List, [], ◌∷◌, ◌++◌}
use darknyx_capstone_project.Wire.{u32_le, anchor_discriminator, raw, cat_fields, WireField, u64_le}
use darknyx_capstone_project.MatchingEngine.{bad_slot, pending_order_pda, to_uint8}
use darknyx_capstone_project.VaultClient.{instruction, vault_config_pda}
use darknyx_capstone_project.Base.Int.{ℤ}

module _ (rt : Runtime) (program : PublicKey) where
  unfoldable pub dark_clob_pda : PublicKey → PublicKey
  dark_clob_pda market = (rt.find_program_address (text_bytes "dark_clob" ∷ market ∷ []) program).0

  unfoldable pub matching_config_pda : PublicKey → PublicKey
  matching_config_pda market =
      (rt.find_program_address (text_bytes "matching_config" ∷ market ∷ []) program).0

  unfoldable pub batch_results_pda : PublicKey → PublicKey
  batch_results_pda market =
      (rt.find_program_address (text_bytes "batch_results" ∷ market ∷ []) program).0

pub record InitMarketArgs : Type 0 where
  pub vault_program_id : PublicKey
  pub payer : PublicKey
  pub market : PublicKey
  pub base_mint : PublicKey
  pub quote_mint : PublicKey
  pub pyth_account : PublicKey
  pub batch_interval_slots : ℤ
  pub circuit_breaker_bps : ℤ
  pub tick_size : ℤ
  pub min_order_size : ℤ

-- A member's flags are a number, of which an element of a `Uint8Array` keeps a byte.
pub record MemberArg : Type 0 where
  pub flags : ℤ
  pub member_key : PublicKey

abbrev pub member_fields : List MemberArg → List WireField
member_fields [] = []
member_fields (m ∷ ms) = raw (to_uint8 m.flags ∷ []) ∷ raw m.member_key ∷ member_fields ms

module _ (rt : Runtime) (program : PublicKey) where
  unfoldable pub build_init_market_instruction : InitMarketArgs → Result TransactionInstruction
  unfolding cat_fields anchor_discriminator vault_config_pda dark_clob_pda matching_config_pda
      batch_results_pda
  build_init_market_instruction p =
      instruction rt program "init_market"
        (raw p.market
          ∷ raw p.base_mint
          ∷ raw p.quote_mint
          ∷ raw p.pyth_account
          ∷ u64_le p.batch_interval_slots
          ∷ u64_le p.circuit_breaker_bps
          ∷ u64_le p.tick_size
          ∷ u64_le p.min_order_size
          ∷ [])
        (signer_writable p.payer
          ∷ readonly (vault_config_pda rt p.vault_program_id)
          ∷ writable (dark_clob_pda rt program p.market)
          ∷ writable (matching_config_pda rt program p.market)
          ∷ writable (batch_results_pda rt program p.market)
          ∷ readonly rt.system_program
          ∷ [])

  -- The members as Borsh writes a vector: a `u32` count, then the elements.
  unfoldable pub build_configure_access_instruction :
      PublicKey
      → PublicKey
      → PublicKey
      → List MemberArg
      → Bool
      → PublicKey
      → Result TransactionInstruction
  unfolding cat_fields anchor_discriminator dark_clob_pda matching_config_pda
  build_configure_access_instruction permission_program root_key market members is_update
        permission_pda =
      instruction rt program "configure_access"
        (raw market
          ∷ u32_le (length members)
          ∷ (member_fields members ++ raw ((if is_update then 1 else 0) ∷ []) ∷ []))
        (signer_writable root_key
          ∷ writable (dark_clob_pda rt program market)
          ∷ readonly (matching_config_pda rt program market)
          ∷ writable permission_pda
          ∷ readonly permission_program
          ∷ readonly rt.system_program
          ∷ [])

  unfoldable pub build_init_pending_order_slot_instruction :
      PublicKey → PublicKey → ℤ → Result TransactionInstruction
  unfolding cat_fields anchor_discriminator pending_order_pda
  build_init_pending_order_slot_instruction trading_key market slot_idx = do
    throw_if (bad_slot slot_idx) other_error
    pda ← pending_order_pda rt program market trading_key slot_idx
    instruction rt program "init_pending_order_slot"
        (raw market ∷ raw (to_uint8 slot_idx ∷ []) ∷ [])
        (signer_writable trading_key ∷ writable pda.0 ∷ readonly rt.system_program ∷ [])

  unfoldable pub build_delegate_pending_order_instruction :
      PublicKey → PublicKey → PublicKey → PublicKey → ℤ → Result TransactionInstruction
  unfolding cat_fields anchor_discriminator pending_order_pda
  build_delegate_pending_order_instruction delegation_program payer trading_key market slot_idx = do
    throw_if (bad_slot slot_idx) other_error
    pda ← pending_order_pda rt program market trading_key slot_idx
    let buffer_pda = rt.find_program_address (text_bytes "buffer" ∷ pda.0 ∷ []) program
    let record_pda =
        rt.find_program_address (text_bytes "delegation" ∷ pda.0 ∷ []) delegation_program
    let metadata_pda =
        rt.find_program_address (text_bytes "delegation-metadata" ∷ pda.0 ∷ []) delegation_program
    instruction rt program "delegate_pending_order" (raw market ∷ raw (to_uint8 slot_idx ∷ []) ∷ [])
        (signer_writable payer
          ∷ signer_readonly trading_key
          ∷ writable buffer_pda.0
          ∷ writable record_pda.0
          ∷ writable metadata_pda.0
          ∷ writable pda.0
          ∷ readonly program
          ∷ readonly delegation_program
          ∷ readonly rt.system_program
          ∷ [])

  unfoldable pub build_run_batch_instruction :
      PublicKey → PublicKey → PublicKey → PublicKey → List PublicKey → Result TransactionInstruction
  unfolding cat_fields anchor_discriminator matching_config_pda batch_results_pda vault_config_pda
  build_run_batch_instruction vault_program_id tee_authority market pyth_account
        pending_order_pdas =
      instruction rt program "run_batch" (raw market ∷ []) (
        (signer_writable tee_authority
          ∷ readonly (matching_config_pda rt program market)
          ∷ writable (batch_results_pda rt program market)
          ∷ readonly (vault_config_pda rt vault_program_id)
          ∷ readonly pyth_account
          ∷ [])
        ++ map writable pending_order_pdas)

  unfoldable pub build_init_mock_oracle_instruction :
      PublicKey → PublicKey → ℤ → Result TransactionInstruction
  unfolding cat_fields anchor_discriminator
  build_init_mock_oracle_instruction payer mock_oracle twap =
      instruction rt program "init_mock_oracle" (u64_le twap ∷ [])
        (signer_writable payer ∷ signer_writable mock_oracle ∷ readonly rt.system_program ∷ [])

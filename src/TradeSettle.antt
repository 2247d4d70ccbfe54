-- ===== src/TradeSettle.antt =====
-- apps/demo/src/lib/dapp/run-trade-l1-settle.ts: the settlement of a match on L1, over a world `W`: the
-- match is read from BatchResults, the input notes are locked, the match is settled under the TEE's
-- signature, and the vault's history is replayed to compare. The connection, the signature and the
-- compute-budget instruction are parameters.
pub mod Trade
pub mod Outputs
pub mod Settled
use darknyx_capstone_project.TradeSettle.Trade.{
  compare_replay, caught, build_trade, leaf_count_of, required, Warning, TradeL1SettleResult,
  find_match, TradeL1SettleContext,
}
use darknyx_capstone_project.Errors.{other_error, ok, Result}
use darknyx_capstone_project.Base.Int.{pos, ℤ}
use darknyx_capstone_project.Base.{◌&&◌, [], ◌∷◌, ◌==◌, ℕ, List, Option}
use darknyx_capstone_project.Settlement.{
  MatchResultPayload, canonical_payload_hash, build_ed25519_verify_ix, build_settle_ix,
}
use darknyx_capstone_project.History.{Connection}
use darknyx_capstone_project.BatchResults.{MatchResultRecord, decode_batch_results}
use darknyx_capstone_project.Solana.{TransactionInstruction, Runtime, PublicKey}
use darknyx_capstone_project.Bytes.{Bytes}
use darknyx_capstone_project.Keys.{Crypto}
use darknyx_capstone_project.Field.{Poseidon}
use darknyx_capstone_project.Exec.{Exec, ◌>>=◌, ◌>>◌, pure, lift, throw_unless}
use darknyx_capstone_project.VaultClient.{build_lock_note_instruction, vault_config_pda}
use darknyx_capstone_project.Client.{AccountInfo}

pub record TradeConnection (W : Type 0) : Type 0 where
  pub get_account_info : PublicKey → Exec W (Option AccountInfo)
  pub send_and_confirm : List TransactionInstruction → Exec W Bytes
  -- The history that the replay sees.
  pub history : W → Connection
  pub sign_detached : Bytes → Bytes → Bytes
  pub set_compute_unit_limit : ℕ → TransactionInstruction

module _ {W : Type 0} (rt : Runtime) (p : Poseidon) (c : Crypto) (l1 : TradeConnection W) where
  abbrev pub account_data_of : PublicKey → Exec W Bytes
  account_data_of key = do
    info ← l1.get_account_info key
    account ← lift (required info)
    pure account.account_data

  -- The match of this run, with no fees.
  unfoldable pub read_match : TradeL1SettleContext → Exec W MatchResultRecord
  unfolding find_match decode_batch_results
  read_match ctx = do
    batch ← account_data_of ctx.batch_pda
    view ← lift (decode_batch_results batch)
    mr ← lift (
        required (find_match ctx.user_quote_note_commitment ctx.maker_note_commitment view.results))
    throw_unless (mr.buyer_fee_amt == 0 && mr.seller_fee_amt == 0) other_error
    pure mr

  abbrev pub lock_ix : TradeL1SettleContext → Bytes → Bytes → ℤ → ℕ → Result TransactionInstruction
  lock_ix ctx note order_id expiry amount =
      build_lock_note_instruction rt ctx.vault_program_id ctx.tee.public_key note order_id expiry
        (pos amount)

  unfoldable pub lock_notes : TradeL1SettleContext → MatchResultRecord → Exec W Bytes
  lock_notes ctx mr = do
    lock_a ←
        lift (lock_ix ctx mr.note_buyer ctx.user_order_id ctx.user_expiry_slot mr.buyer_note_value)
    lock_b ←
        lift
          (lock_ix ctx mr.note_seller ctx.maker_order_id ctx.maker_expiry_slot mr.seller_note_value)
    l1.send_and_confirm (l1.set_compute_unit_limit 400000 ∷ lock_a ∷ lock_b ∷ [])

  unfoldable pub settle_trade : TradeL1SettleContext → MatchResultPayload → Bytes → Exec W Bytes
  settle_trade ctx payload msg = do
    verify ← lift (
        build_ed25519_verify_ix rt ctx.tee.public_key (l1.sign_detached msg ctx.tee.secret_key) msg)
    settle ← lift (build_settle_ix rt ctx.vault_program_id ctx.tee.public_key payload)
    l1.send_and_confirm (l1.set_compute_unit_limit 1400000 ∷ verify ∷ settle ∷ [])

  -- The replay reads the network and changes nothing.
  abbrev pub replay_warnings : PublicKey → ℕ → ℕ → Bytes → Bytes → Exec W (List Warning)
  replay_warnings program leaf_after leaf_before account commitment w = (
    ok (
        caught
          (compare_replay rt p (l1.history w) program leaf_after leaf_before account commitment)),
    w,
  )

  unfoldable pub run_trade_l1_settle : TradeL1SettleContext → Exec W TradeL1SettleResult
  unfolding read_match lock_notes settle_trade
  run_trade_l1_settle ctx = do
    mr ← read_match ctx
    pre ← account_data_of (vault_config_pda rt ctx.vault_program_id)
    leaf_before ← lift (leaf_count_of pre)
    trade ← lift (build_trade rt p c ctx mr)
    msg ← lift (canonical_payload_hash rt trade.1)
    lock_sig ← lock_notes ctx mr
    settle_sig ← settle_trade ctx trade.1 msg
    post ← account_data_of (vault_config_pda rt ctx.vault_program_id)
    leaf_after ← lift (leaf_count_of post)
    warnings ← replay_warnings ctx.vault_program_id leaf_after leaf_before post trade.0.commitment
    pure (record {
      lock_signature = lock_sig;
      settle_signature = settle_sig;
      buyer_base_note = record {
        match_id = mr.match_id;
        leaf_index = leaf_before;
        amount = mr.base_amt;
        nonce = trade.0.nonce;
        blinding_r = trade.0.blinding;
        commitment = trade.0.commitment;
        token_mint = ctx.base_mint;
        vault_leaf_count_after = leaf_after;
      };
      warnings = warnings;
    })

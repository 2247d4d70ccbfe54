-- ===== src/Examples/Trades.antt =====
-- The settlement run at a concrete connection, whose world counts the transactions sent.
use darknyx_capstone_project.DemoSetup.ZeroFee.{ensure_zero_protocol_fee-IsZeroed, IsZeroed}
use darknyx_capstone_project.Base.{
  ◌⊎◌, length, false, List, ◌+◌, if◌then◌else◌, ◌≡◌, refl, arith, replicate, none, some, ℕ, [], ◌∷◌,
  ◌++◌,
}
use darknyx_capstone_project.DemoSetup.{
  fee_rate_bps_offset, ensure_zero_protocol_fee, L1Connection, EnsureZeroFeeOutcome,
}
use darknyx_capstone_project.ErClient.Waiting.{wait_for_l1_account_change-Ends, IsTicking, Ends}
use darknyx_capstone_project.Bytes.{slice, le_value, same_bytes, zeros, Bytes}
use darknyx_capstone_project.ErClient.{wait_for_l1_account_change, TimedConnection}
use darknyx_capstone_project.Wire.{anchor_discriminator}
use darknyx_capstone_project.Client.{AccountInfo}
use darknyx_capstone_project.TradeSettle.Settled.{
  run_trade_l1_settle-IsSettlement, handed_note, IsSettlement,
}
use darknyx_capstone_project.History.{process_ix_data, Connection}
use darknyx_capstone_project.Solana.{TransactionInstruction}
use darknyx_capstone_project.Examples.{toy_runtime, toy_poseidon, leaf_of, from_ok}
use darknyx_capstone_project.Settlement.{
  MatchResultPayload, canonical_payload_hash, build_ed25519_verify_ix, build_settle_ix,
}
use darknyx_capstone_project.Errors.{ok, Result}
use darknyx_capstone_project.VaultClient.{
  build_set_protocol_config_instruction, vault_config_pda, build_lock_note_instruction,
}
use darknyx_capstone_project.TradeSettle.Trade.{
  build_trade, TradeL1SettleResult, TradeL1SettleContext,
}
use darknyx_capstone_project.Field.{nullifier, note_commitment}
use darknyx_capstone_project.ChangeNote.{match_id_to_payload_bytes}
use darknyx_capstone_project.Examples.Replays.{deposit_disc_size, settle_disc_size, discs_differ}
use darknyx_capstone_project.BatchResults.RoundTrip.{record_chunks}
use darknyx_capstone_project.Bytes.Chunks.{cat}
use darknyx_capstone_project.TradeSettle.{run_trade_l1_settle, TradeConnection}
use darknyx_capstone_project.BatchResults.{MatchResultRecord}
use darknyx_capstone_project.Base.Int.{pos}
use darknyx_capstone_project.Examples.Pipelines.{toy_crypto}

abbrev filled : MatchResultRecord
filled = record {
  note_buyer = leaf_of 1;
  note_seller = leaf_of 2;
  note_e_commitment = leaf_of 0;
  note_f_commitment = leaf_of 0;
  owner_buyer = leaf_of 5;
  owner_seller = leaf_of 6;
  user_commitment_buyer = leaf_of 7;
  user_commitment_seller = leaf_of 8;
  buyer_note_value = 100;
  seller_note_value = 200;
  base_amt = 10;
  quote_amt = 20;
  buyer_change_amt = 0;
  seller_change_amt = 0;
  buyer_fee_amt = 0;
  seller_fee_amt = 0;
  buyer_relock_order_id = replicate 16 0;
  buyer_relock_expiry = 0;
  seller_relock_order_id = replicate 16 0;
  seller_relock_expiry = 0;
  price = 2;
  pyth_at_match = 2;
  batch_slot = 3;
  match_id = 4;
  status = 1;
}

abbrev batch_account : Bytes
batch_account = zeros 128 ++ (cat (record_chunks filled) ++ zeros 6288)

abbrev toy_history : Connection
toy_history = record {
  get_transaction = λ sig. ok none;
  get_signatures = λ limit before. ok [];
  bs58_decode = λ text. ok [];
  parse_public_key = λ text. ok [];
}

abbrev toy_l1 : TradeConnection ℕ
toy_l1 = record {
  get_account_info = λ key w. (
    ok (
        some (record {
          account_data = if same_bytes key (leaf_of 40) then batch_account else zeros 200;
          owner = leaf_of 20;
        })),
    w,
  );
  send_and_confirm = λ ixs w. (ok (leaf_of 9), w + 1);
  history = λ w. toy_history;
  sign_detached = λ m k. replicate 64 6;
  set_compute_unit_limit =
      λ units. record { program_id = leaf_of 50; keys = []; instruction_data = [] };
}

abbrev sample_context : TradeL1SettleContext
sample_context = record {
  vault_program_id = leaf_of 20;
  base_mint = leaf_of 31;
  quote_mint = leaf_of 32;
  batch_pda = leaf_of 40;
  tee = record { public_key = leaf_of 41; secret_key = leaf_of 42 };
  maker = record { public_key = leaf_of 43; secret_key = leaf_of 44 };
  user_master_seed = replicate 64 5;
  user_quote_note_commitment = leaf_of 1;
  user_order_id = replicate 16 1;
  user_expiry_slot = pos 100;
  maker_note_commitment = leaf_of 2;
  maker_order_id = replicate 16 2;
  maker_expiry_slot = pos 100;
}

abbrev no_trade : TradeL1SettleResult
no_trade = record {
  lock_signature = [];
  settle_signature = [];
  buyer_base_note = record {
    match_id = 0;
    leaf_index = 0;
    amount = 0;
    nonce = 0;
    blinding_r = 0;
    commitment = [];
    token_mint = [];
    vault_leaf_count_after = 0;
  };
  warnings = [];
}

abbrev traded : Result TradeL1SettleResult × ℕ
traded = run_trade_l1_settle toy_runtime toy_poseidon toy_crypto toy_l1 sample_context 0

traded_lem :
    run_trade_l1_settle toy_runtime toy_poseidon toy_crypto toy_l1 sample_context 0
    ≡ (ok (from_ok no_trade traded.0), traded.1)
unfolding run_trade_l1_settle vault_config_pda build_trade nullifier note_commitment
    canonical_payload_hash match_id_to_payload_bytes build_lock_note_instruction
    build_ed25519_verify_ix build_settle_ix
traded_lem = refl

abbrev trade_result : TradeL1SettleResult
trade_result = from_ok no_trade traded.0

run_trade_l1_settle-IsSettlement_example :
    (payload : MatchResultPayload) × (verify : TransactionInstruction)
    × (settle : TransactionInstruction) × IsSettlement toy_runtime toy_poseidon toy_crypto toy_l1
        sample_context payload verify settle
    × ((w1 : ℕ) × (w2 : ℕ) × (toy_l1.send_and_confirm
            (toy_l1.set_compute_unit_limit 1400000 ∷ verify ∷ settle ∷ [])
            w1
          ≡ (ok trade_result.settle_signature, w2)))
    × ((owner : ℕ) × (note_commitment toy_poseidon (handed_note owner trade_result.buyer_base_note)
          ≡ ok trade_result.buyer_base_note.commitment))
    × ((behind : List Bytes) × (process_ix_data toy_runtime toy_poseidon [] settle.instruction_data
            []
          ≡ ok ([] ++ trade_result.buyer_base_note.commitment ∷ behind)))
run_trade_l1_settle-IsSettlement_example =
    run_trade_l1_settle-IsSettlement toy_runtime toy_poseidon toy_crypto toy_l1 sample_context
      trade_result 0 traded.1 [] [] deposit_disc_size settle_disc_size discs_differ traded_lem

abbrev toy_timer : TimedConnection ℕ
toy_timer = record {
  now = λ w. w;
  get_account_info = λ key w. (ok (some (record { account_data = leaf_of w; owner = key })), w);
  sleep = λ interval w. w + 1;
}

toy_timer-IsTicking : IsTicking toy_timer 750
toy_timer-IsTicking = record { moves = λ w. omega arith; stays = λ key w. omega arith }

wait_for_l1_account_change-Ends_example :
    Ends toy_timer
      (leaf_of 1)
      (some (leaf_of 0))
      (toy_timer.now 0 + 5)
      (wait_for_l1_account_change toy_timer (leaf_of 1) (some (leaf_of 0)) 5 750 0)
wait_for_l1_account_change-Ends_example =
    wait_for_l1_account_change-Ends toy_timer (leaf_of 1) (some (leaf_of 0)) 5 750 0
      toy_timer-IsTicking

waited_once :
    wait_for_l1_account_change toy_timer (leaf_of 1) (some (leaf_of 0)) 5 750 0
    ≡ some (ok (leaf_of 1), 1)
unfolding wait_for_l1_account_change
waited_once = refl

-- A configuration with a fee of 257.
abbrev config_account : AccountInfo
config_account = record { account_data = replicate 3000 1; owner = leaf_of 20 }

abbrev toy_setup : L1Connection ℕ
toy_setup = record {
  get_account_info = λ key w. (ok (some config_account), w);
  send_and_confirm = λ ixs w. (ok (leaf_of 9), w + 1);
}

abbrev zeroed_fee : Result EnsureZeroFeeOutcome × ℕ
zeroed_fee = ensure_zero_protocol_fee toy_runtime toy_setup (leaf_of 20) (leaf_of 21) 0

abbrev zeroed_outcome : EnsureZeroFeeOutcome
zeroed_outcome =
    from_ok (record { observed_fee_bps = 0; zeroed = false; signature = none }) zeroed_fee.0

zeroed_fee_lem :
    ensure_zero_protocol_fee toy_runtime toy_setup (leaf_of 20) (leaf_of 21) 0
    ≡ (ok zeroed_outcome, zeroed_fee.1)
unfolding ensure_zero_protocol_fee build_set_protocol_config_instruction
zeroed_fee_lem = refl

config_disc_size : length (anchor_discriminator toy_runtime "set_protocol_config") ≡ 8
unfolding anchor_discriminator
config_disc_size = refl

ensure_zero_protocol_fee-IsZeroed_example :
    (account : AccountInfo) × (w1 : ℕ) × (toy_setup.get_account_info
        (vault_config_pda toy_runtime (leaf_of 20))
        0
      ≡ (ok (some account), w1))
    × (((le_value (slice fee_rate_bps_offset 2 account.account_data) ≡ 0)
          × (zeroed_outcome.zeroed ≡ false)
          × (zeroed_fee.1 ≡ w1))
        ⊎ ((ix : TransactionInstruction) × (sig : Bytes) × (toy_setup.send_and_confirm (ix ∷ []) w1
              ≡ (ok sig, zeroed_fee.1))
            × (zeroed_outcome.signature ≡ some sig)
            × IsZeroed toy_runtime toy_setup (leaf_of 20) account.account_data ix))
ensure_zero_protocol_fee-IsZeroed_example =
    ensure_zero_protocol_fee-IsZeroed toy_runtime toy_setup (leaf_of 20) (leaf_of 21) zeroed_outcome
      0 zeroed_fee.1 config_disc_size zeroed_fee_lem

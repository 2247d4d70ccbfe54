-- ===== src/BatchResults.antt =====
-- packages/sdk/src/batch/inclusion-proof.ts, the decoder of the matching engine's `BatchResults`
-- account. A `u64` is a natural number. `readU64` throws beyond the buffer and a byte there is
-- `undefined`; the one length test of `decodeBatchResults` excludes both, so the reads are total here.
pub mod RoundTrip
use darknyx_capstone_project.Errors.{ok, other_error, Result, ◌>>◌, throw_if}
use darknyx_capstone_project.Base.{
  ◌==◌, length, not, ◌*◌, get_or, Bool, ◌+◌, zero, suc, ℕ, List, [], ◌∷◌,
}
use darknyx_capstone_project.Bytes.{slice, le_value, Bytes}

abbrev pub batch_results_capacity : ℕ
batch_results_capacity = 16

abbrev pub fee_accumulator_count : ℕ
fee_accumulator_count = 2

abbrev pub fee_accumulator_size : ℕ
fee_accumulator_size = 80

abbrev pub match_result_size : ℕ
match_result_size = 408

pub record MatchResultRecord : Type 0 where
  pub note_buyer : Bytes
  pub note_seller : Bytes
  pub note_e_commitment : Bytes
  pub note_f_commitment : Bytes
  pub owner_buyer : Bytes
  pub owner_seller : Bytes
  pub user_commitment_buyer : Bytes
  pub user_commitment_seller : Bytes
  pub buyer_note_value : ℕ
  pub seller_note_value : ℕ
  pub base_amt : ℕ
  pub quote_amt : ℕ
  pub buyer_change_amt : ℕ
  pub seller_change_amt : ℕ
  pub buyer_fee_amt : ℕ
  pub seller_fee_amt : ℕ
  pub buyer_relock_order_id : Bytes
  pub buyer_relock_expiry : ℕ
  pub seller_relock_order_id : Bytes
  pub seller_relock_expiry : ℕ
  pub price : ℕ
  pub pyth_at_match : ℕ
  pub batch_slot : ℕ
  pub match_id : ℕ
  pub status : ℕ

pub record FeeAccumulatorRecord : Type 0 where
  pub token_mint : Bytes
  pub accumulated_fees : ℕ
  pub batch_slot : ℕ
  pub flushed_commitment : Bytes

pub record BatchResultsView : Type 0 where
  pub market : Bytes
  pub last_inclusion_root : Bytes
  pub last_batch_slot : ℕ
  pub last_match_count : ℕ
  pub last_clearing_price : ℕ
  pub last_pyth_twap : ℕ
  pub last_circuit_breaker_tripped : Bool
  pub write_cursor : ℕ
  pub next_match_id : ℕ
  pub results : List MatchResultRecord
  pub fee_accumulators : List FeeAccumulatorRecord
  pub bump : ℕ

-- `readU64` and `readBytes`.
abbrev pub read_u64 : Bytes → ℕ → ℕ
read_u64 buf off = le_value (slice off 8 buf)

abbrev pub read_bytes : Bytes → ℕ → ℕ → Bytes
read_bytes buf off len = slice off len buf

unfoldable pub decode_match_result : Bytes → ℕ → MatchResultRecord
decode_match_result buf off = record {
  note_buyer = read_bytes buf (off + 0) 32;
  note_seller = read_bytes buf (off + 32) 32;
  note_e_commitment = read_bytes buf (off + 64) 32;
  note_f_commitment = read_bytes buf (off + 96) 32;
  owner_buyer = read_bytes buf (off + 128) 32;
  owner_seller = read_bytes buf (off + 160) 32;
  user_commitment_buyer = read_bytes buf (off + 192) 32;
  user_commitment_seller = read_bytes buf (off + 224) 32;
  buyer_note_value = read_u64 buf (off + 256);
  seller_note_value = read_u64 buf (off + 264);
  base_amt = read_u64 buf (off + 272);
  quote_amt = read_u64 buf (off + 280);
  buyer_change_amt = read_u64 buf (off + 288);
  seller_change_amt = read_u64 buf (off + 296);
  buyer_fee_amt = read_u64 buf (off + 304);
  seller_fee_amt = read_u64 buf (off + 312);
  buyer_relock_order_id = read_bytes buf (off + 320) 16;
  buyer_relock_expiry = read_u64 buf (off + 336);
  seller_relock_order_id = read_bytes buf (off + 344) 16;
  seller_relock_expiry = read_u64 buf (off + 360);
  price = read_u64 buf (off + 368);
  pyth_at_match = read_u64 buf (off + 376);
  batch_slot = read_u64 buf (off + 384);
  match_id = read_u64 buf (off + 392);
  status = get_or buf (off + 400) 0;
}

unfoldable pub decode_fee_accumulator : Bytes → ℕ → FeeAccumulatorRecord
decode_fee_accumulator buf off = record {
  token_mint = read_bytes buf (off + 0) 32;
  accumulated_fees = read_u64 buf (off + 32);
  batch_slot = read_u64 buf (off + 40);
  flushed_commitment = read_bytes buf (off + 48) 32;
}

-- The two loops: `n` records from `off` on.
unfoldable pub results_loop : ℕ → Bytes → ℕ → List MatchResultRecord
unfolding decode_match_result
results_loop zero buf off = []
results_loop (suc n) buf off =
    decode_match_result buf off ∷ results_loop n buf (off + match_result_size)

unfoldable pub fees_loop : ℕ → Bytes → ℕ → List FeeAccumulatorRecord
unfolding decode_fee_accumulator
fees_loop zero buf off = []
fees_loop (suc n) buf off =
    decode_fee_accumulator buf off ∷ fees_loop n buf (off + fee_accumulator_size)

abbrev pub expected_length : ℕ
expected_length =
    8
    + 32
    + 32
    + 8
    + 8
    + 8
    + 8
    + 1
    + 7
    + 8
    + 8
    + match_result_size * batch_results_capacity
    + fee_accumulator_size * fee_accumulator_count
    + 1
    + 7

-- What `decodeBatchResults` reads after its length test.
unfoldable pub read_view : Bytes → BatchResultsView
unfolding results_loop fees_loop
read_view account_data = record {
  market = read_bytes account_data 8 32;
  last_inclusion_root = read_bytes account_data 40 32;
  last_batch_slot = read_u64 account_data 72;
  last_match_count = read_u64 account_data 80;
  last_clearing_price = read_u64 account_data 88;
  last_pyth_twap = read_u64 account_data 96;
  last_circuit_breaker_tripped = get_or account_data 104 0 == 1;
  write_cursor = read_u64 account_data 112;
  next_match_id = read_u64 account_data 120;
  results = results_loop batch_results_capacity account_data 128;
  fee_accumulators = fees_loop fee_accumulator_count account_data 6656;
  bump = get_or account_data 6816 0;
}

unfoldable pub decode_batch_results : Bytes → Result BatchResultsView
unfolding read_view
decode_batch_results account_data = do
  throw_if (not (length account_data == expected_length)) other_error
  ok (read_view account_data)

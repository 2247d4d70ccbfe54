-- ===== src/Examples/Accounts.antt =====
-- The decoder's theorem at a concrete account.
use darknyx_capstone_project.BatchResults.RoundTrip.{
  decode_batch_results-results, encode_records, IsRecord, AllRecords,
}
use darknyx_capstone_project.Errors.{ok}
use darknyx_capstone_project.Base.{◌≡◌, ◌++◌, replicate, arith, refl, ℕ, zero, suc}
use darknyx_capstone_project.BatchResults.{
  decode_batch_results, MatchResultRecord, BatchResultsView,
}

abbrev sample_record : MatchResultRecord
sample_record = record {
  note_buyer = replicate 32 0;
  note_seller = replicate 32 1;
  note_e_commitment = replicate 32 2;
  note_f_commitment = replicate 32 3;
  owner_buyer = replicate 32 4;
  owner_seller = replicate 32 5;
  user_commitment_buyer = replicate 32 6;
  user_commitment_seller = replicate 32 7;
  buyer_note_value = 108;
  seller_note_value = 109;
  base_amt = 110;
  quote_amt = 111;
  buyer_change_amt = 112;
  seller_change_amt = 113;
  buyer_fee_amt = 114;
  seller_fee_amt = 115;
  buyer_relock_order_id = replicate 16 16;
  buyer_relock_expiry = 117;
  seller_relock_order_id = replicate 16 18;
  seller_relock_expiry = 119;
  price = 120;
  pyth_at_match = 121;
  batch_slot = 122;
  match_id = 123;
  status = 1;
}

sample_record-IsRecord : IsRecord sample_record
sample_record-IsRecord = record {
  note_buyer_size = refl;
  note_seller_size = refl;
  note_e_commitment_size = refl;
  note_f_commitment_size = refl;
  owner_buyer_size = refl;
  owner_seller_size = refl;
  user_commitment_buyer_size = refl;
  user_commitment_seller_size = refl;
  buyer_note_value_u64 = omega arith;
  seller_note_value_u64 = omega arith;
  base_amt_u64 = omega arith;
  quote_amt_u64 = omega arith;
  buyer_change_amt_u64 = omega arith;
  seller_change_amt_u64 = omega arith;
  buyer_fee_amt_u64 = omega arith;
  seller_fee_amt_u64 = omega arith;
  buyer_relock_order_id_size = refl;
  buyer_relock_expiry_u64 = omega arith;
  seller_relock_order_id_size = refl;
  seller_relock_expiry_u64 = omega arith;
  price_u64 = omega arith;
  pyth_at_match_u64 = omega arith;
  batch_slot_u64 = omega arith;
  match_id_u64 = omega arith;
}

copies-AllRecords : (n : ℕ) → AllRecords (replicate n sample_record)
copies-AllRecords zero = tt
copies-AllRecords (suc n) = (sample_record-IsRecord, copies-AllRecords n)

decode_batch_results-results_example :
    (v : BatchResultsView) × (decode_batch_results
        (replicate 128 0 ++ (encode_records (replicate 16 sample_record) ++ replicate 168 0))
      ≡ ok v)
    × (v.results ≡ replicate 16 sample_record)
decode_batch_results-results_example =
    decode_batch_results-results (replicate 128 0) (replicate 168 0) (replicate 16 sample_record)
      refl refl refl (copies-AllRecords 16)

-- ===== src/BatchResults/RoundTrip.antt =====
-- The layout of the match results that `decodeBatchResults` in
-- packages/sdk/src/batch/inclusion-proof.ts reads, as an encoder.
use darknyx_capstone_project.Base.{
  eq→==, ◌*◌, ap₂, length-append, append_assoc, ap, ◌+◌, get_or, ◌≡◌, ◌<◌, length, zero, suc, refl,
  sym, ◌∙◌, arith, ℕ, List, [], ◌∷◌, ◌++◌,
}
use darknyx_capstone_project.BatchResults.{
  expected_length, BatchResultsView, read_view, decode_batch_results, read_u64, results_loop,
  decode_match_result, MatchResultRecord,
}
use darknyx_capstone_project.Errors.{ok}
use darknyx_capstone_project.Bytes.{le_value, zeros, base_pow, le_bytes, Bytes, slice}
use darknyx_capstone_project.Bytes.Words.{le_value-le_bytes}
use darknyx_capstone_project.Bytes.Chunks.{slice-cat, slice-append, offset, length-cat, Sized, cat}

-- Every field has its size; `status` is a byte.
pub record IsRecord (r : MatchResultRecord) : Type 0 where
  pub note_buyer_size : length r.note_buyer ≡ 32
  pub note_seller_size : length r.note_seller ≡ 32
  pub note_e_commitment_size : length r.note_e_commitment ≡ 32
  pub note_f_commitment_size : length r.note_f_commitment ≡ 32
  pub owner_buyer_size : length r.owner_buyer ≡ 32
  pub owner_seller_size : length r.owner_seller ≡ 32
  pub user_commitment_buyer_size : length r.user_commitment_buyer ≡ 32
  pub user_commitment_seller_size : length r.user_commitment_seller ≡ 32
  pub buyer_note_value_u64 : r.buyer_note_value < base_pow 8
  pub seller_note_value_u64 : r.seller_note_value < base_pow 8
  pub base_amt_u64 : r.base_amt < base_pow 8
  pub quote_amt_u64 : r.quote_amt < base_pow 8
  pub buyer_change_amt_u64 : r.buyer_change_amt < base_pow 8
  pub seller_change_amt_u64 : r.seller_change_amt < base_pow 8
  pub buyer_fee_amt_u64 : r.buyer_fee_amt < base_pow 8
  pub seller_fee_amt_u64 : r.seller_fee_amt < base_pow 8
  pub buyer_relock_order_id_size : length r.buyer_relock_order_id ≡ 16
  pub buyer_relock_expiry_u64 : r.buyer_relock_expiry < base_pow 8
  pub seller_relock_order_id_size : length r.seller_relock_order_id ≡ 16
  pub seller_relock_expiry_u64 : r.seller_relock_expiry < base_pow 8
  pub price_u64 : r.price < base_pow 8
  pub pyth_at_match_u64 : r.pyth_at_match < base_pow 8
  pub batch_slot_u64 : r.batch_slot < base_pow 8
  pub match_id_u64 : r.match_id < base_pow 8

-- The layout: the fields in order, `u64` little-endian, the status and seven bytes of padding.
abbrev pub record_chunks : MatchResultRecord → List Bytes
record_chunks r =
    r.note_buyer
    ∷ r.note_seller
    ∷ r.note_e_commitment
    ∷ r.note_f_commitment
    ∷ r.owner_buyer
    ∷ r.owner_seller
    ∷ r.user_commitment_buyer
    ∷ r.user_commitment_seller
    ∷ le_bytes 8 r.buyer_note_value
    ∷ le_bytes 8 r.seller_note_value
    ∷ le_bytes 8 r.base_amt
    ∷ le_bytes 8 r.quote_amt
    ∷ le_bytes 8 r.buyer_change_amt
    ∷ le_bytes 8 r.seller_change_amt
    ∷ le_bytes 8 r.buyer_fee_amt
    ∷ le_bytes 8 r.seller_fee_amt
    ∷ r.buyer_relock_order_id
    ∷ le_bytes 8 r.buyer_relock_expiry
    ∷ r.seller_relock_order_id
    ∷ le_bytes 8 r.seller_relock_expiry
    ∷ le_bytes 8 r.price
    ∷ le_bytes 8 r.pyth_at_match
    ∷ le_bytes 8 r.batch_slot
    ∷ le_bytes 8 r.match_id
    ∷ (r.status ∷ [])
    ∷ zeros 7
    ∷ []

abbrev record_sizes : List ℕ
record_sizes =
    32 ∷ 32 ∷ 32 ∷ 32 ∷ 32 ∷ 32 ∷ 32 ∷ 32 ∷ 8 ∷ 8 ∷ 8 ∷ 8 ∷ 8 ∷ 8 ∷ 8 ∷ 8 ∷ 16 ∷ 8 ∷ 16 ∷ 8 ∷ 8 ∷ 8
    ∷ 8 ∷ 8 ∷ 1 ∷ 7 ∷ []

record_chunks-Sized : (r : MatchResultRecord) → IsRecord r → Sized record_sizes (record_chunks r)
record_chunks-Sized r h = omega arith

-- A field behind a prefix of any contents.
read_behind :
    (pre rest : Bytes) (r : MatchResultRecord) (i : ℕ)
    → IsRecord r
    → i < 26
    → slice
        (length pre + offset record_sizes i)
        (get_or record_sizes i 0)
        (pre ++ (cat (record_chunks r) ++ rest))
      ≡ get_or (record_chunks r) i []
read_behind pre rest r i h lt =
    slice-append (length pre) (offset record_sizes i) (get_or record_sizes i 0) pre
      (cat (record_chunks r) ++ rest) refl
    ∙ slice-cat record_sizes (record_chunks r) rest i (record_chunks-Sized r h) lt

read_u64_behind :
    (buf : Bytes) (off v : ℕ)
    → v < base_pow 8
    → slice off 8 buf ≡ le_bytes 8 v
    → read_u64 buf off ≡ v
read_u64_behind buf off v h e = ap le_value e ∙ le_value-le_bytes 8 v h

pub get_or-slice : (buf : Bytes) (off b : ℕ) → slice off 1 buf ≡ b ∷ [] → get_or buf off 0 ≡ b
get_or-slice [] zero b e = cc
get_or-slice [] (suc off) b e = cc
get_or-slice (x ∷ buf) zero b e = cc
get_or-slice (x ∷ buf) (suc off) b e = get_or-slice buf off b e

decode_match_result-record_chunks :
    (pre rest : Bytes) (r : MatchResultRecord)
    → IsRecord r
    → decode_match_result (pre ++ (cat (record_chunks r) ++ rest)) (length pre) ≡ r
unfolding decode_match_result
decode_match_result-record_chunks pre rest r h =
    let buf : Bytes = pre ++ (cat (record_chunks r) ++ rest) in
    let off : ℕ = length pre in
    let at_note_buyer : slice (off + 0) 32 buf ≡ r.note_buyer =
      read_behind pre rest r 0 h (omega arith) in
    let at_note_seller : slice (off + 32) 32 buf ≡ r.note_seller =
      read_behind pre rest r 1 h (omega arith) in
    let at_note_e_commitment : slice (off + 64) 32 buf ≡ r.note_e_commitment =
      read_behind pre rest r 2 h (omega arith) in
    let at_note_f_commitment : slice (off + 96) 32 buf ≡ r.note_f_commitment =
      read_behind pre rest r 3 h (omega arith) in
    let at_owner_buyer : slice (off + 128) 32 buf ≡ r.owner_buyer =
      read_behind pre rest r 4 h (omega arith) in
    let at_owner_seller : slice (off + 160) 32 buf ≡ r.owner_seller =
      read_behind pre rest r 5 h (omega arith) in
    let at_user_commitment_buyer : slice (off + 192) 32 buf ≡ r.user_commitment_buyer =
      read_behind pre rest r 6 h (omega arith) in
    let at_user_commitment_seller : slice (off + 224) 32 buf ≡ r.user_commitment_seller =
      read_behind pre rest r 7 h (omega arith) in
    let at_buyer_note_value : read_u64 buf (off + 256) ≡ r.buyer_note_value =
      read_u64_behind buf (off + 256) r.buyer_note_value h.buyer_note_value_u64
        (read_behind pre rest r 8 h (omega arith)) in
    let at_seller_note_value : read_u64 buf (off + 264) ≡ r.seller_note_value =
      read_u64_behind buf (off + 264) r.seller_note_value h.seller_note_value_u64
        (read_behind pre rest r 9 h (omega arith)) in
    let at_base_amt : read_u64 buf (off + 272) ≡ r.base_amt =
      read_u64_behind buf (off + 272) r.base_amt h.base_amt_u64
        (read_behind pre rest r 10 h (omega arith)) in
    let at_quote_amt : read_u64 buf (off + 280) ≡ r.quote_amt =
      read_u64_behind buf (off + 280) r.quote_amt h.quote_amt_u64
        (read_behind pre rest r 11 h (omega arith)) in
    let at_buyer_change_amt : read_u64 buf (off + 288) ≡ r.buyer_change_amt =
      read_u64_behind buf (off + 288) r.buyer_change_amt h.buyer_change_amt_u64
        (read_behind pre rest r 12 h (omega arith)) in
    let at_seller_change_amt : read_u64 buf (off + 296) ≡ r.seller_change_amt =
      read_u64_behind buf (off + 296) r.seller_change_amt h.seller_change_amt_u64
        (read_behind pre rest r 13 h (omega arith)) in
    let at_buyer_fee_amt : read_u64 buf (off + 304) ≡ r.buyer_fee_amt =
      read_u64_behind buf (off + 304) r.buyer_fee_amt h.buyer_fee_amt_u64
        (read_behind pre rest r 14 h (omega arith)) in
    let at_seller_fee_amt : read_u64 buf (off + 312) ≡ r.seller_fee_amt =
      read_u64_behind buf (off + 312) r.seller_fee_amt h.seller_fee_amt_u64
        (read_behind pre rest r 15 h (omega arith)) in
    let at_buyer_relock_order_id : slice (off + 320) 16 buf ≡ r.buyer_relock_order_id =
      read_behind pre rest r 16 h (omega arith) in
    let at_buyer_relock_expiry : read_u64 buf (off + 336) ≡ r.buyer_relock_expiry =
      read_u64_behind buf (off + 336) r.buyer_relock_expiry h.buyer_relock_expiry_u64
        (read_behind pre rest r 17 h (omega arith)) in
    let at_seller_relock_order_id : slice (off + 344) 16 buf ≡ r.seller_relock_order_id =
      read_behind pre rest r 18 h (omega arith) in
    let at_seller_relock_expiry : read_u64 buf (off + 360) ≡ r.seller_relock_expiry =
      read_u64_behind buf (off + 360) r.seller_relock_expiry h.seller_relock_expiry_u64
        (read_behind pre rest r 19 h (omega arith)) in
    let at_price : read_u64 buf (off + 368) ≡ r.price =
      read_u64_behind buf (off + 368) r.price h.price_u64
        (read_behind pre rest r 20 h (omega arith)) in
    let at_pyth_at_match : read_u64 buf (off + 376) ≡ r.pyth_at_match =
      read_u64_behind buf (off + 376) r.pyth_at_match h.pyth_at_match_u64
        (read_behind pre rest r 21 h (omega arith)) in
    let at_batch_slot : read_u64 buf (off + 384) ≡ r.batch_slot =
      read_u64_behind buf (off + 384) r.batch_slot h.batch_slot_u64
        (read_behind pre rest r 22 h (omega arith)) in
    let at_match_id : read_u64 buf (off + 392) ≡ r.match_id =
      read_u64_behind buf (off + 392) r.match_id h.match_id_u64
        (read_behind pre rest r 23 h (omega arith)) in
    let at_status : get_or buf (off + 400) 0 ≡ r.status =
      get_or-slice buf (off + 400) r.status (read_behind pre rest r 24 h (omega arith)) in
    λ i. record {
      note_buyer = at_note_buyer i;
      note_seller = at_note_seller i;
      note_e_commitment = at_note_e_commitment i;
      note_f_commitment = at_note_f_commitment i;
      owner_buyer = at_owner_buyer i;
      owner_seller = at_owner_seller i;
      user_commitment_buyer = at_user_commitment_buyer i;
      user_commitment_seller = at_user_commitment_seller i;
      buyer_note_value = at_buyer_note_value i;
      seller_note_value = at_seller_note_value i;
      base_amt = at_base_amt i;
      quote_amt = at_quote_amt i;
      buyer_change_amt = at_buyer_change_amt i;
      seller_change_amt = at_seller_change_amt i;
      buyer_fee_amt = at_buyer_fee_amt i;
      seller_fee_amt = at_seller_fee_amt i;
      buyer_relock_order_id = at_buyer_relock_order_id i;
      buyer_relock_expiry = at_buyer_relock_expiry i;
      seller_relock_order_id = at_seller_relock_order_id i;
      seller_relock_expiry = at_seller_relock_expiry i;
      price = at_price i;
      pyth_at_match = at_pyth_at_match i;
      batch_slot = at_batch_slot i;
      match_id = at_match_id i;
      status = at_status i;
    }

abbrev pub AllRecords : List MatchResultRecord → Type 0
AllRecords [] = Unit
AllRecords (r ∷ rs) = IsRecord r × AllRecords rs

abbrev pub encode_records : List MatchResultRecord → Bytes
encode_records [] = []
encode_records (r ∷ rs) = cat (record_chunks r) ++ encode_records rs

-- Match results laid out one behind the other, at any place of the account, are read back.
results_loop-encode_records :
    (rs : List MatchResultRecord) (pre rest : Bytes)
    → AllRecords rs
    → results_loop (length rs) (pre ++ (encode_records rs ++ rest)) (length pre) ≡ rs
unfolding results_loop
results_loop-encode_records [] pre rest h = refl
results_loop-encode_records (r ∷ rs) pre rest h =
    let one : Bytes = cat (record_chunks r) in
    let size : length one ≡ 408 =
      length-cat record_sizes (record_chunks r) (record_chunks-Sized r h.0) in
    let regroup : pre ++ ((one ++ encode_records rs) ++ rest)
        ≡ (pre ++ one) ++ (encode_records rs ++ rest) =
      ap (λ t. pre ++ t) (append_assoc one (encode_records rs) rest)
      ∙ sym (append_assoc pre one (encode_records rs ++ rest)) in
    let next : length pre + 408 ≡ length (pre ++ one) =
      omega (arith, length-append pre one, size) in
    ap₂ (λ x xs. x ∷ xs)
      (ap (λ t. decode_match_result (pre ++ t) (length pre))
          (append_assoc one (encode_records rs) rest)
        ∙ decode_match_result-record_chunks pre (encode_records rs ++ rest) r h.0)
      (ap₂ (λ b n. results_loop (length rs) b n) regroup next
        ∙ results_loop-encode_records rs (pre ++ one) rest h.1)

length-encode_records :
    (rs : List MatchResultRecord) → AllRecords rs → length (encode_records rs) ≡ length rs * 408
length-encode_records [] h = refl
length-encode_records (r ∷ rs) h = omega (
  arith,
  length-append (cat (record_chunks r)) (encode_records rs),
  length-cat record_sizes (record_chunks r) (record_chunks-Sized r h.0),
  length-encode_records rs h.1,
)

-- An account of 128 bytes, sixteen match results laid out in order, each with fields of the declared
-- sizes and `u64` numbers below 2 ^ 64, and 168 bytes is decoded without an exception, and the
-- view's results are those sixteen.
pub decode_batch_results-results :
    (pre tail : Bytes) (rs : List MatchResultRecord)
    → length pre ≡ 128
    → length rs ≡ 16
    → length tail ≡ 168
    → AllRecords rs
    → (v : BatchResultsView) × (decode_batch_results (pre ++ (encode_records rs ++ tail)) ≡ ok v)
      × (v.results ≡ rs)
unfolding decode_batch_results read_view
decode_batch_results-results pre tail rs hp hr ht h =
    let account : Bytes = pre ++ (encode_records rs ++ tail) in
    let size : length account ≡ expected_length = omega (
      arith,
      length-append pre (encode_records rs ++ tail),
      length-append (encode_records rs) tail,
      length-encode_records rs h,
    ) in
    (
      read_view account,
      rw (eq→== (length account) expected_length size),
      ap₂ (λ n off. results_loop n account off) (sym hr) (sym hp)
          ∙ results_loop-encode_records rs pre tail h,
    )

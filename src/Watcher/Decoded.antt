-- ===== src/Watcher/Decoded.antt =====
-- The layout that `decodeTradeSettled` of packages/sdk/src/settlement/settlement-watcher.ts documents,
-- as an encoder.
use darknyx_capstone_project.BatchResults.RoundTrip.{get_or-slice}
use darknyx_capstone_project.Base.{
  true, false, Bool, eq→==, ◌==◌, Bool, ℕ, List, [], ◌∷◌, length, get_or, ◌≡◌, ◌<◌, sym, ap, ◌∙◌,
  arith, append-nil,
}
use darknyx_capstone_project.Watcher.{
  u64_at, read_trade_settled, decode_trade_settled, TradeSettledEvent,
}
use darknyx_capstone_project.Errors.{ok}
use darknyx_capstone_project.Bytes.Words.{le_value-le_bytes}
use darknyx_capstone_project.Bytes.{Bytes, le_bytes, base_pow, slice, le_value}
use darknyx_capstone_project.Bytes.Chunks.{cat, Sized, offset, slice-cat, length-cat}

-- Every field has its size, the numbers are `u64`.
pub record IsEvent (ev : TradeSettledEvent) : Type 0 where
  pub match_id_size : length ev.match_id ≡ 16
  pub clearing_price_u64 : ev.clearing_price < base_pow 8
  pub base_amount_u64 : ev.base_amount < base_pow 8
  pub quote_amount_u64 : ev.quote_amount < base_pow 8
  pub buyer_change_amt_u64 : ev.buyer_change_amt < base_pow 8
  pub seller_change_amt_u64 : ev.seller_change_amt < base_pow 8
  pub buyer_fee_amt_u64 : ev.buyer_fee_amt < base_pow 8
  pub seller_fee_amt_u64 : ev.seller_fee_amt < base_pow 8
  pub note_c_leaf_u64 : ev.note_c_leaf < base_pow 8
  pub note_d_leaf_u64 : ev.note_d_leaf < base_pow 8
  pub note_e_leaf_u64 : ev.note_e_leaf < base_pow 8
  pub note_f_leaf_u64 : ev.note_f_leaf < base_pow 8
  pub note_fee_leaf_u64 : ev.note_fee_leaf < base_pow 8
  pub new_root_size : length ev.new_root ≡ 32

-- A `bool` in Borsh: a byte.
abbrev pub bool_byte : Bool → ℕ
bool_byte true = 1
bool_byte false = 0

abbrev pub event_chunks : TradeSettledEvent → List Bytes
event_chunks ev =
    ev.match_id
    ∷ le_bytes 8 ev.clearing_price
    ∷ le_bytes 8 ev.base_amount
    ∷ le_bytes 8 ev.quote_amount
    ∷ le_bytes 8 ev.buyer_change_amt
    ∷ le_bytes 8 ev.seller_change_amt
    ∷ le_bytes 8 ev.buyer_fee_amt
    ∷ le_bytes 8 ev.seller_fee_amt
    ∷ le_bytes 8 ev.note_c_leaf
    ∷ le_bytes 8 ev.note_d_leaf
    ∷ le_bytes 8 ev.note_e_leaf
    ∷ le_bytes 8 ev.note_f_leaf
    ∷ le_bytes 8 ev.note_fee_leaf
    ∷ (bool_byte ev.buyer_relock_active ∷ [])
    ∷ (bool_byte ev.seller_relock_active ∷ [])
    ∷ ev.new_root
    ∷ []

abbrev event_sizes : List ℕ
event_sizes = 16 ∷ 8 ∷ 8 ∷ 8 ∷ 8 ∷ 8 ∷ 8 ∷ 8 ∷ 8 ∷ 8 ∷ 8 ∷ 8 ∷ 8 ∷ 1 ∷ 1 ∷ 32 ∷ []

event_chunks-Sized : (ev : TradeSettledEvent) → IsEvent ev → Sized event_sizes (event_chunks ev)
event_chunks-Sized ev h = omega arith

read_field :
    (ev : TradeSettledEvent) (i : ℕ)
    → IsEvent ev
    → i < 16
    → slice (offset event_sizes i) (get_or event_sizes i 0) (cat (event_chunks ev))
      ≡ get_or (event_chunks ev) i []
read_field ev i h lt =
    ap (slice (offset event_sizes i) (get_or event_sizes i 0))
      (sym (append-nil (cat (event_chunks ev))))
    ∙ slice-cat event_sizes (event_chunks ev) [] i (event_chunks-Sized ev h) lt

read_number :
    (buf : Bytes) (off v : ℕ) → v < base_pow 8 → slice off 8 buf ≡ le_bytes 8 v → u64_at buf off ≡ v
read_number buf off v h e = ap le_value e ∙ le_value-le_bytes 8 v h

read_flag :
    (buf : Bytes) (off : ℕ) (b : Bool)
    → slice off 1 buf ≡ bool_byte b ∷ []
    → (get_or buf off 0 == 1) ≡ b
read_flag buf off true e = rw (get_or-slice buf off 1 e)
read_flag buf off false e = rw (get_or-slice buf off 0 e)

read_trade_settled-event_chunks :
    (ev : TradeSettledEvent) → IsEvent ev → read_trade_settled (cat (event_chunks ev)) ≡ ev
unfolding read_trade_settled
read_trade_settled-event_chunks ev h =
    let buf : Bytes = cat (event_chunks ev) in
    let at_match_id : slice 0 16 buf ≡ ev.match_id = read_field ev 0 h (omega arith) in
    let at_clearing_price : u64_at buf 16 ≡ ev.clearing_price =
      read_number buf 16 ev.clearing_price h.clearing_price_u64 (read_field ev 1 h (omega arith)) in
    let at_base_amount : u64_at buf 24 ≡ ev.base_amount =
      read_number buf 24 ev.base_amount h.base_amount_u64 (read_field ev 2 h (omega arith)) in
    let at_quote_amount : u64_at buf 32 ≡ ev.quote_amount =
      read_number buf 32 ev.quote_amount h.quote_amount_u64 (read_field ev 3 h (omega arith)) in
    let at_buyer_change_amt : u64_at buf 40 ≡ ev.buyer_change_amt =
      read_number buf 40 ev.buyer_change_amt h.buyer_change_amt_u64
        (read_field ev 4 h (omega arith)) in
    let at_seller_change_amt : u64_at buf 48 ≡ ev.seller_change_amt =
      read_number buf 48 ev.seller_change_amt h.seller_change_amt_u64
        (read_field ev 5 h (omega arith)) in
    let at_buyer_fee_amt : u64_at buf 56 ≡ ev.buyer_fee_amt =
      read_number buf 56 ev.buyer_fee_amt h.buyer_fee_amt_u64 (read_field ev 6 h (omega arith)) in
    let at_seller_fee_amt : u64_at buf 64 ≡ ev.seller_fee_amt =
      read_number buf 64 ev.seller_fee_amt h.seller_fee_amt_u64 (read_field ev 7 h (omega arith)) in
    let at_note_c_leaf : u64_at buf 72 ≡ ev.note_c_leaf =
      read_number buf 72 ev.note_c_leaf h.note_c_leaf_u64 (read_field ev 8 h (omega arith)) in
    let at_note_d_leaf : u64_at buf 80 ≡ ev.note_d_leaf =
      read_number buf 80 ev.note_d_leaf h.note_d_leaf_u64 (read_field ev 9 h (omega arith)) in
    let at_note_e_leaf : u64_at buf 88 ≡ ev.note_e_leaf =
      read_number buf 88 ev.note_e_leaf h.note_e_leaf_u64 (read_field ev 10 h (omega arith)) in
    let at_note_f_leaf : u64_at buf 96 ≡ ev.note_f_leaf =
      read_number buf 96 ev.note_f_leaf h.note_f_leaf_u64 (read_field ev 11 h (omega arith)) in
    let at_note_fee_leaf : u64_at buf 104 ≡ ev.note_fee_leaf =
      read_number buf 104 ev.note_fee_leaf h.note_fee_leaf_u64 (read_field ev 12 h (omega arith)) in
    let at_buyer : (get_or buf 112 0 == 1) ≡ ev.buyer_relock_active =
      read_flag buf 112 ev.buyer_relock_active (read_field ev 13 h (omega arith)) in
    let at_seller : (get_or buf 113 0 == 1) ≡ ev.seller_relock_active =
      read_flag buf 113 ev.seller_relock_active (read_field ev 14 h (omega arith)) in
    let at_root : slice 114 32 buf ≡ ev.new_root = read_field ev 15 h (omega arith) in
    λ i. record {
      match_id = at_match_id i;
      clearing_price = at_clearing_price i;
      base_amount = at_base_amount i;
      quote_amount = at_quote_amount i;
      buyer_change_amt = at_buyer_change_amt i;
      seller_change_amt = at_seller_change_amt i;
      buyer_fee_amt = at_buyer_fee_amt i;
      seller_fee_amt = at_seller_fee_amt i;
      note_c_leaf = at_note_c_leaf i;
      note_d_leaf = at_note_d_leaf i;
      note_e_leaf = at_note_e_leaf i;
      note_f_leaf = at_note_f_leaf i;
      note_fee_leaf = at_note_fee_leaf i;
      buyer_relock_active = at_buyer i;
      seller_relock_active = at_seller i;
      new_root = at_root i;
    }

-- An event with fields of the declared sizes and `u64` numbers, laid out in the documented order, is
-- decoded to itself.
pub decode_trade_settled-event_chunks :
    (ev : TradeSettledEvent) → IsEvent ev → decode_trade_settled (cat (event_chunks ev)) ≡ ok ev
unfolding decode_trade_settled
decode_trade_settled-event_chunks ev h =
    let size : length (cat (event_chunks ev)) ≡ 146 =
      length-cat event_sizes (event_chunks ev) (event_chunks-Sized ev h) in
    rw (eq→== (length (cat (event_chunks ev))) 146 size)
      (ap ok (read_trade_settled-event_chunks ev h))

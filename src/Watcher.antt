-- ===== src/Watcher.antt =====
-- packages/sdk/src/settlement/settlement-watcher.ts: the `TradeSettled` event of the vault, its
-- decoder, and the notification of each side.
pub mod Decoded
use darknyx_capstone_project.Base.{
  ℕ, Bool, Option, none, some, ltb, ◌==◌, not, length, if◌then◌else◌, get_or, ◌-◌, ◌^◌,
}
use darknyx_capstone_project.Bytes.{Bytes, slice, le_value}
use darknyx_capstone_project.Errors.{Result, ok, other_error, throw_if, ◌>>=◌, ◌>>◌}

pub record TradeSettledEvent : Type 0 where
  pub match_id : Bytes
  pub clearing_price : ℕ
  pub base_amount : ℕ
  pub quote_amount : ℕ
  pub buyer_change_amt : ℕ
  pub seller_change_amt : ℕ
  pub buyer_fee_amt : ℕ
  pub seller_fee_amt : ℕ
  pub note_c_leaf : ℕ
  pub note_d_leaf : ℕ
  pub note_e_leaf : ℕ
  pub note_f_leaf : ℕ
  pub note_fee_leaf : ℕ
  pub buyer_relock_active : Bool
  pub seller_relock_active : Bool
  pub new_root : Bytes

abbrev pub u64_max : ℕ
u64_max = 2 ^ 64 - 1

pub data Side : Type 0 where
  buyer seller : Side

pub record MatchNotification : Type 0 where
  pub match_id : Bytes
  pub side : Side
  pub is_partial_fill : Bool
  pub trade_leaf : ℕ
  pub change_leaf : Option ℕ
  pub fee_leaf : Option ℕ
  pub fee_paid : ℕ
  pub relock_active : Bool
  pub base_amount : ℕ
  pub quote_amount : ℕ
  pub clearing_price : ℕ
  pub new_root : Bytes

-- `leaf === U64_MAX ? null : leaf`.
abbrev pub leaf_or_null : ℕ → Option ℕ
leaf_or_null leaf = if leaf == u64_max then none else some leaf

unfoldable pub buyer_notification : TradeSettledEvent → MatchNotification
buyer_notification ev = record {
  match_id = ev.match_id;
  side = buyer;
  is_partial_fill = ltb 0 ev.buyer_change_amt;
  trade_leaf = ev.note_c_leaf;
  change_leaf = leaf_or_null ev.note_e_leaf;
  fee_leaf = leaf_or_null ev.note_fee_leaf;
  fee_paid = ev.buyer_fee_amt;
  relock_active = ev.buyer_relock_active;
  base_amount = ev.base_amount;
  quote_amount = ev.quote_amount;
  clearing_price = ev.clearing_price;
  new_root = ev.new_root;
}

unfoldable pub seller_notification : TradeSettledEvent → MatchNotification
seller_notification ev = record {
  match_id = ev.match_id;
  side = seller;
  is_partial_fill = ltb 0 ev.seller_change_amt;
  trade_leaf = ev.note_d_leaf;
  change_leaf = leaf_or_null ev.note_f_leaf;
  fee_leaf = leaf_or_null ev.note_fee_leaf;
  fee_paid = ev.seller_fee_amt;
  relock_active = ev.seller_relock_active;
  base_amount = ev.base_amount;
  quote_amount = ev.quote_amount;
  clearing_price = ev.clearing_price;
  new_root = ev.new_root;
}

-- `dv.getBigUint64(off, true)`.
abbrev pub u64_at : Bytes → ℕ → ℕ
u64_at buf off = le_value (slice off 8 buf)

-- The reads of `decodeTradeSettled`, each at the offset that the ones before it leave.
unfoldable pub read_trade_settled : Bytes → TradeSettledEvent
read_trade_settled event_data = record {
  match_id = slice 0 16 event_data;
  clearing_price = u64_at event_data 16;
  base_amount = u64_at event_data 24;
  quote_amount = u64_at event_data 32;
  buyer_change_amt = u64_at event_data 40;
  seller_change_amt = u64_at event_data 48;
  buyer_fee_amt = u64_at event_data 56;
  seller_fee_amt = u64_at event_data 64;
  note_c_leaf = u64_at event_data 72;
  note_d_leaf = u64_at event_data 80;
  note_e_leaf = u64_at event_data 88;
  note_f_leaf = u64_at event_data 96;
  note_fee_leaf = u64_at event_data 104;
  buyer_relock_active = get_or event_data 112 0 == 1;
  seller_relock_active = get_or event_data 113 0 == 1;
  new_root = slice 114 32 event_data;
}

unfoldable pub decode_trade_settled : Bytes → Result TradeSettledEvent
unfolding read_trade_settled
decode_trade_settled event_data = do
  throw_if (not (length event_data == 146)) other_error
  ok (read_trade_settled event_data)

-- ===== src/MatchingEngine.antt =====
-- packages/sdk/src/idl/matching-engine-client.ts: addresses and instructions of the matching engine;
-- the market's own instructions stand in MatchingEngine/Market. A `number` whose sign the
-- code tests is an integer; `Uint8Array.of(n)` keeps a number modulo 256.
pub mod Market
use darknyx_capstone_project.Base.{
  ◌&&◌, not, ◌==◌, ℕ, ◌-◌, ◌%◌, List, [], ◌∷◌, ◌++◌, Bool, ◌||◌, ◌&&◌, not, ◌==◌,
}
use darknyx_capstone_project.Base.Int.{ℤ, pos, negsuc, ltb_ℤ, leb_ℤ}
use darknyx_capstone_project.Errors.{Result, ok, other_error, throw_if, ◌>>=◌, ◌>>◌}
use darknyx_capstone_project.Bytes.{Bytes, zeros}
use darknyx_capstone_project.Solana.{
  Runtime, PublicKey, TransactionInstruction, text_bytes, signer_writable, writable,
}
use darknyx_capstone_project.Wire.{WireField, fixed, u64_le, raw, cat_fields, anchor_discriminator}

abbrev pub max_pending_slots_per_user : ℤ
max_pending_slots_per_user = pos 4

pub data OrderType : Type 0 where
  limit_order ioc_order fok_order : OrderType

abbrev pub order_type_code : OrderType → ℕ
order_type_code limit_order = 0
order_type_code ioc_order = 1
order_type_code fok_order = 2

-- An element of a `Uint8Array` set to a number.
abbrev pub to_uint8 : ℤ → ℕ
to_uint8 (pos n) = n % 256
to_uint8 (negsuc n) = 255 - n % 256

-- `slotIdx < 0 || slotIdx >= MAX_PENDING_SLOTS_PER_USER`.
abbrev pub bad_slot : ℤ → Bool
bad_slot slot = ltb_ℤ slot (pos 0) || leb_ℤ max_pending_slots_per_user slot

unfoldable pub pending_order_pda :
    Runtime → PublicKey → PublicKey → PublicKey → ℤ → Result (PublicKey × ℕ)
pending_order_pda rt program market trading_key slot = do
  throw_if (ltb_ℤ slot (pos 0) || ltb_ℤ (pos 255) slot) other_error
  ok (
      rt.find_program_address
        (text_bytes "pending_order" ∷ market ∷ trading_key ∷ (to_uint8 slot ∷ []) ∷ []) program)

-- The type and the least fill stand after their defaults, `Limit` and 0.
pub record SubmitOrderArgs : Type 0 where
  pub program_id : PublicKey
  pub trading_key : PublicKey
  pub market : PublicKey
  pub slot_idx : ℤ
  pub side : ℕ
  pub amount : ℤ
  pub price_limit : ℤ
  pub note_amount : ℤ
  pub expiry_slot : ℤ
  pub order_id : Bytes
  pub note_commitment : Bytes
  pub user_commitment : Bytes
  pub order_type : OrderType
  pub min_fill_qty : ℤ

abbrev pub submit_order_fields : SubmitOrderArgs → List WireField
submit_order_fields p =
    raw p.market
    ∷ raw (to_uint8 p.slot_idx ∷ [])
    ∷ raw ((p.side % 256) ∷ [])
    ∷ raw (order_type_code p.order_type ∷ [])
    ∷ raw (zeros 5)
    ∷ u64_le p.amount
    ∷ u64_le p.min_fill_qty
    ∷ u64_le p.price_limit
    ∷ u64_le p.note_amount
    ∷ u64_le p.expiry_slot
    ∷ fixed p.order_id 16
    ∷ fixed p.note_commitment 32
    ∷ fixed p.user_commitment 32
    ∷ []

-- The instruction, and the address of the slot that it writes.
unfoldable pub build_submit_order_instruction :
    Runtime → SubmitOrderArgs → Result (TransactionInstruction × PublicKey)
unfolding pending_order_pda cat_fields anchor_discriminator
build_submit_order_instruction rt p = do
  throw_if (bad_slot p.slot_idx) other_error
  throw_if (not (p.side == 0) && not (p.side == 1)) other_error
  slot ← pending_order_pda rt p.program_id p.market p.trading_key p.slot_idx
  args ← cat_fields (submit_order_fields p)
  ok (
    record {
      program_id = p.program_id;
      keys = signer_writable p.trading_key ∷ writable slot.0 ∷ [];
      instruction_data = anchor_discriminator rt "submit_order" ++ args;
    },
    slot.0,
  )

unfoldable pub build_cancel_order_instruction :
    Runtime → PublicKey → PublicKey → PublicKey → ℤ → Result TransactionInstruction
unfolding pending_order_pda anchor_discriminator
build_cancel_order_instruction rt program trading_key market slot_idx = do
  throw_if (bad_slot slot_idx) other_error
  slot ← pending_order_pda rt program market trading_key slot_idx
  ok (record {
    program_id = program;
    keys = signer_writable trading_key ∷ writable slot.0 ∷ [];
    instruction_data = anchor_discriminator rt "cancel_order" ++ (market ++ to_uint8 slot_idx ∷ []);
  })

-- ===== src/Settlement.antt =====
-- packages/sdk/src/settlement/settle-builder.ts: the settlement payload, its serialisation, the hash
-- that the TEE signs, the Ed25519 instruction and the settle instruction. `bigint` amounts are
-- integers, which `u64LE` wraps modulo 2 ^ 64.
pub mod Payload
pub mod Binding
pub mod Ed25519
use darknyx_capstone_project.Base.{ℕ, List, [], ◌∷◌, ◌++◌, ◌%◌, ◌^◌, Option, none, some, length}
use darknyx_capstone_project.Base.Int.{ℤ, pos}
use darknyx_capstone_project.Errors.{Result, ok, ◌>>=◌}
use darknyx_capstone_project.Bytes.{Bytes, zeros, le_bytes}
use darknyx_capstone_project.Solana.{
  Runtime, PublicKey, TransactionInstruction, text_bytes, signer_writable, writable, readonly,
}
use darknyx_capstone_project.Wire.{WireField, fixed, u64_le, raw, cat_fields, anchor_discriminator}

abbrev pub zero_commitment : Bytes
zero_commitment = zeros 32

abbrev pub relock_order_id_none : Bytes
relock_order_id_none = zeros 16

pub record MatchResultPayload : Type 0 where
  pub match_id : Bytes
  pub note_a_commitment : Bytes
  pub note_b_commitment : Bytes
  pub note_c_commitment : Bytes
  pub note_d_commitment : Bytes
  pub note_e_commitment : Bytes
  pub note_f_commitment : Bytes
  pub nullifier_a : Bytes
  pub nullifier_b : Bytes
  pub order_id_a : Bytes
  pub order_id_b : Bytes
  pub base_amount : ℤ
  pub quote_amount : ℤ
  pub buyer_change_amt : ℤ
  pub seller_change_amt : ℤ
  pub buyer_fee_amt : ℤ
  pub seller_fee_amt : ℤ
  pub note_fee_commitment : Bytes
  pub buyer_relock_order_id : Bytes
  pub buyer_relock_expiry : ℤ
  pub seller_relock_order_id : Bytes
  pub seller_relock_expiry : ℤ
  pub clearing_price : ℤ
  pub batch_slot : ℤ

-- The arguments of `cat` in `serializePayload`, in order.
abbrev pub payload_fields : MatchResultPayload → List WireField
payload_fields p =
    fixed p.match_id 16
    ∷ fixed p.note_a_commitment 32
    ∷ fixed p.note_b_commitment 32
    ∷ fixed p.note_c_commitment 32
    ∷ fixed p.note_d_commitment 32
    ∷ fixed p.note_e_commitment 32
    ∷ fixed p.note_f_commitment 32
    ∷ fixed p.nullifier_a 32
    ∷ fixed p.nullifier_b 32
    ∷ fixed p.order_id_a 16
    ∷ fixed p.order_id_b 16
    ∷ u64_le p.base_amount
    ∷ u64_le p.quote_amount
    ∷ u64_le p.buyer_change_amt
    ∷ u64_le p.seller_change_amt
    ∷ u64_le p.buyer_fee_amt
    ∷ u64_le p.seller_fee_amt
    ∷ fixed p.note_fee_commitment 32
    ∷ fixed p.buyer_relock_order_id 16
    ∷ u64_le p.buyer_relock_expiry
    ∷ fixed p.seller_relock_order_id 16
    ∷ u64_le p.seller_relock_expiry
    ∷ u64_le p.clearing_price
    ∷ u64_le p.batch_slot
    ∷ []

unfoldable pub serialize_payload : MatchResultPayload → Result Bytes
unfolding cat_fields
serialize_payload p = cat_fields (payload_fields p)

-- What `canonicalPayloadHash` feeds to the hash, in order: the domain tag and the fields, the fee
-- note before the nullifiers.
abbrev pub canonical_fields : MatchResultPayload → List WireField
canonical_fields p =
    raw (text_bytes "nyx-match-v5")
    ∷ fixed p.match_id 16
    ∷ fixed p.note_a_commitment 32
    ∷ fixed p.note_b_commitment 32
    ∷ fixed p.note_c_commitment 32
    ∷ fixed p.note_d_commitment 32
    ∷ fixed p.note_e_commitment 32
    ∷ fixed p.note_f_commitment 32
    ∷ fixed p.note_fee_commitment 32
    ∷ fixed p.nullifier_a 32
    ∷ fixed p.nullifier_b 32
    ∷ fixed p.order_id_a 16
    ∷ fixed p.order_id_b 16
    ∷ u64_le p.base_amount
    ∷ u64_le p.quote_amount
    ∷ u64_le p.buyer_change_amt
    ∷ u64_le p.seller_change_amt
    ∷ u64_le p.buyer_fee_amt
    ∷ u64_le p.seller_fee_amt
    ∷ fixed p.buyer_relock_order_id 16
    ∷ u64_le p.buyer_relock_expiry
    ∷ fixed p.seller_relock_order_id 16
    ∷ u64_le p.seller_relock_expiry
    ∷ u64_le p.clearing_price
    ∷ u64_le p.batch_slot
    ∷ []

unfoldable pub canonical_payload_hash : Runtime → MatchResultPayload → Result Bytes
unfolding cat_fields
canonical_payload_hash rt p = do m ← cat_fields (canonical_fields p); ok (rt.sha256 m)

-- `setUint16(off, v, true)`.
abbrev pub set_uint16 : ℕ → Bytes
set_uint16 v = le_bytes 2 (v % 2 ^ 16)

-- The 16-byte header: one signature, its offset, the key's, the message's and its length; 0xffff
-- says that the bytes stand in this instruction.
abbrev pub ed25519_header : ℕ → Bytes
ed25519_header size =
    (1 ∷ 0 ∷ [])
    ++ (set_uint16 48
        ++ (set_uint16 0xffff
            ++ (set_uint16 16
                ++ (set_uint16 0xffff
                    ++ (set_uint16 112 ++ (set_uint16 size ++ set_uint16 0xffff))))))

unfoldable pub build_ed25519_verify_ix :
    Runtime → PublicKey → Bytes → Bytes → Result TransactionInstruction
unfolding cat_fields
build_ed25519_verify_ix rt tee_pubkey signature message = do
  body ← cat_fields (
      raw (ed25519_header (length message))
      ∷ fixed tee_pubkey 32
      ∷ fixed signature 64
      ∷ raw message
      ∷ [])
  ok (record { program_id = rt.ed25519_program; keys = []; instruction_data = body })

-- `noteLockPda`, `consumedNotePda` and `nullifierEntryPda`: a tag and 32 bytes.
unfoldable pub tagged_pda : Runtime → PublicKey → Bytes → Bytes → Result PublicKey
unfolding cat_fields
tagged_pda rt program tag key = do
  k ← cat_fields (fixed key 32 ∷ [])
  ok (rt.find_program_address (tag ∷ k ∷ []) program).0

unfoldable pub build_settle_ix :
    Runtime → PublicKey → PublicKey → MatchResultPayload → Result TransactionInstruction
unfolding serialize_payload tagged_pda anchor_discriminator
build_settle_ix rt program tee_authority p = do
  let vault_config = (rt.find_program_address (text_bytes "vault_config" ∷ []) program).0
  lock_a ← tagged_pda rt program (text_bytes "note_lock") p.note_a_commitment
  lock_b ← tagged_pda rt program (text_bytes "note_lock") p.note_b_commitment
  consumed_a ← tagged_pda rt program (text_bytes "consumed_note") p.note_a_commitment
  consumed_b ← tagged_pda rt program (text_bytes "consumed_note") p.note_b_commitment
  null_a ← tagged_pda rt program (text_bytes "nullifier") p.nullifier_a
  null_b ← tagged_pda rt program (text_bytes "nullifier") p.nullifier_b
  lock_e ← tagged_pda rt program (text_bytes "note_lock") p.note_e_commitment
  lock_f ← tagged_pda rt program (text_bytes "note_lock") p.note_f_commitment
  body ← serialize_payload p
  ok (record {
    program_id = program;
    keys =
        signer_writable tee_authority
        ∷ writable vault_config
        ∷ writable lock_a
        ∷ writable lock_b
        ∷ writable consumed_a
        ∷ writable consumed_b
        ∷ writable null_a
        ∷ writable null_b
        ∷ writable lock_e
        ∷ writable lock_f
        ∷ readonly rt.instructions_sysvar
        ∷ readonly rt.system_program
        ∷ [];
    instruction_data = anchor_discriminator rt "tee_forced_settle" ++ body;
  })

pub record ExactFillArgs : Type 0 where
  pub match_id : Bytes
  pub note_a_commitment : Bytes
  pub note_b_commitment : Bytes
  pub note_c_commitment : Bytes
  pub note_d_commitment : Bytes
  pub nullifier_a : Bytes
  pub nullifier_b : Bytes
  pub order_id_a : Bytes
  pub order_id_b : Bytes
  pub base_amount : ℤ
  pub quote_amount : ℤ
  pub clearing_price : Option ℤ
  pub batch_slot : Option ℤ

abbrev pub or_zero : Option ℤ → ℤ
or_zero none = pos 0
or_zero (some v) = v

unfoldable pub exact_fill_payload : ExactFillArgs → MatchResultPayload
exact_fill_payload args = record {
  match_id = args.match_id;
  note_a_commitment = args.note_a_commitment;
  note_b_commitment = args.note_b_commitment;
  note_c_commitment = args.note_c_commitment;
  note_d_commitment = args.note_d_commitment;
  note_e_commitment = zero_commitment;
  note_f_commitment = zero_commitment;
  nullifier_a = args.nullifier_a;
  nullifier_b = args.nullifier_b;
  order_id_a = args.order_id_a;
  order_id_b = args.order_id_b;
  base_amount = args.base_amount;
  quote_amount = args.quote_amount;
  buyer_change_amt = pos 0;
  seller_change_amt = pos 0;
  buyer_fee_amt = pos 0;
  seller_fee_amt = pos 0;
  note_fee_commitment = zero_commitment;
  buyer_relock_order_id = relock_order_id_none;
  buyer_relock_expiry = pos 0;
  seller_relock_order_id = relock_order_id_none;
  seller_relock_expiry = pos 0;
  clearing_price = or_zero args.clearing_price;
  batch_slot = or_zero args.batch_slot;
}

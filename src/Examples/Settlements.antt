-- ===== src/Examples/Settlements.antt =====
-- The settlement's and the field encoding's theorems at concrete inputs.
use darknyx_capstone_project.Examples.{toy_sha256, toy_runtime, from_ok, sample_payload, leaf_of}
use darknyx_capstone_project.Settlement.{
  MatchResultPayload, serialize_payload, canonical_payload_hash,
}
use darknyx_capstone_project.Errors.{ok}
use darknyx_capstone_project.Settlement.Binding.{
  canonical_payload_hash_binding, serialize_payload_injective, IsInRange,
}
use darknyx_capstone_project.Settlement.Payload.{
  serialize_payload_iff, serialize_payload-cat, payload_chunks, IsWellFormed,
}
use darknyx_capstone_project.Inclusion.Proofs.{Collision}
use darknyx_capstone_project.Field.{pubkey_to_fr_pair}
use darknyx_capstone_project.Base.{refl, ◌⊎◌, drop, ◌≡◌, take, arith, ℕ, [], length}
use darknyx_capstone_project.Wire.{write_field, cat_fields}
use darknyx_capstone_project.Base.Int.{pos}
use darknyx_capstone_project.Bytes.Chunks.{cat}
use darknyx_capstone_project.Bytes.{be_value, IsBytes, Bytes}

sample_payload-IsWellFormed : IsWellFormed sample_payload
sample_payload-IsWellFormed = record {
  match_id_size = refl;
  note_a_commitment_size = refl;
  note_b_commitment_size = refl;
  note_c_commitment_size = refl;
  note_d_commitment_size = refl;
  note_e_commitment_size = refl;
  note_f_commitment_size = refl;
  nullifier_a_size = refl;
  nullifier_b_size = refl;
  order_id_a_size = refl;
  order_id_b_size = refl;
  note_fee_commitment_size = refl;
  buyer_relock_order_id_size = refl;
  seller_relock_order_id_size = refl;
}

sample_payload-IsInRange : IsInRange sample_payload
sample_payload-IsInRange = record {
  base_amount_u64 = omega arith;
  quote_amount_u64 = omega arith;
  buyer_change_amt_u64 = omega arith;
  seller_change_amt_u64 = omega arith;
  buyer_fee_amt_u64 = omega arith;
  seller_fee_amt_u64 = omega arith;
  buyer_relock_expiry_u64 = omega arith;
  seller_relock_expiry_u64 = omega arith;
  clearing_price_u64 = omega arith;
  batch_slot_u64 = omega arith;
}

abbrev sample_bytes : Bytes
sample_bytes = cat (payload_chunks sample_payload)

serialize_payload_injective_example : sample_payload ≡ sample_payload
serialize_payload_injective_example =
    serialize_payload_injective sample_payload sample_payload sample_bytes sample_payload-IsInRange
      sample_payload-IsInRange (serialize_payload-cat sample_payload sample_payload-IsWellFormed)
      (serialize_payload-cat sample_payload sample_payload-IsWellFormed)

serialize_payload_iff_example :
    (IsWellFormed sample_payload
      → (b : Bytes) × (serialize_payload sample_payload ≡ ok b) × (length b ≡ 448))
    × ((b : Bytes) → serialize_payload sample_payload ≡ ok b → IsWellFormed sample_payload)
serialize_payload_iff_example = serialize_payload_iff sample_payload

-- The fee note's field.

abbrev sample_digest : Bytes
unfolding canonical_payload_hash cat_fields write_field
sample_digest = from_ok [] (canonical_payload_hash toy_runtime sample_payload)

sample_digest_lem : canonical_payload_hash toy_runtime sample_payload ≡ ok sample_digest
unfolding canonical_payload_hash cat_fields write_field sample_digest
sample_digest_lem = refl

-- Another payload, which the toy digest does not tell apart.
abbrev other_payload : MatchResultPayload
other_payload = record sample_payload { clearing_price = pos 99 }

other_payload-IsInRange : IsInRange other_payload
other_payload-IsInRange = record {
  base_amount_u64 = omega arith;
  quote_amount_u64 = omega arith;
  buyer_change_amt_u64 = omega arith;
  seller_change_amt_u64 = omega arith;
  buyer_fee_amt_u64 = omega arith;
  seller_fee_amt_u64 = omega arith;
  buyer_relock_expiry_u64 = omega arith;
  seller_relock_expiry_u64 = omega arith;
  clearing_price_u64 = omega arith;
  batch_slot_u64 = omega arith;
}

other_digest_lem : canonical_payload_hash toy_runtime other_payload ≡ ok sample_digest
unfolding canonical_payload_hash cat_fields write_field sample_digest
other_digest_lem = refl

canonical_payload_hash_binding_example : (sample_payload ≡ other_payload) ⊎ Collision toy_sha256
canonical_payload_hash_binding_example =
    canonical_payload_hash_binding toy_runtime sample_payload other_payload sample_digest
      sample_payload-IsInRange other_payload-IsInRange sample_digest_lem other_digest_lem

abbrev sample_halves : ℕ × ℕ
sample_halves = (be_value (take 16 (drop 16 (leaf_of 9))), be_value (take 16 (leaf_of 9)))

sample_halves_lem : pubkey_to_fr_pair (leaf_of 9) ≡ ok sample_halves
unfolding pubkey_to_fr_pair
sample_halves_lem = refl

leaf_of_nine-IsBytes : IsBytes (leaf_of 9)
leaf_of_nine-IsBytes = omega arith

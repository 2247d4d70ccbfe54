-- ===== src/Settlement/Binding.antt =====
-- packages/sdk/src/settlement/settle-builder.ts: what a serialised payload and the signed hash
-- determine.
use darknyx_capstone_project.Base.{
  ℕ, List, [], map, get_or, ◌≡◌, ◌⊎◌, inl, inr, refl, sym, ap, ◌∙◌, arith,
}
use darknyx_capstone_project.Errors.{ok_injective, Result, ok, err, ◌>>=◌}
use darknyx_capstone_project.Bytes.{Bytes, IsU64}
use darknyx_capstone_project.Bytes.Chunks.{cat, cat_injective}
use darknyx_capstone_project.Inclusion.Proofs.{Collision, Bytes-discrete}
use darknyx_capstone_project.Solana.{Runtime}
use darknyx_capstone_project.Wire.{cat_fields}
use darknyx_capstone_project.Wire.Layout.{
  AllFit, field_bytes, field_size, cat_fields-cat, cat_fields-AllFit, fields-Sized,
  u64_le_injective,
}
use darknyx_capstone_project.Settlement.{
  MatchResultPayload, serialize_payload, canonical_fields, canonical_payload_hash,
}
use darknyx_capstone_project.Settlement.Payload.{
  IsWellFormed, payload_chunks, payload_sizes, payload-Sized, serialize_payload-cat,
  serialize_payload_iff,
}

-- Every amount is a `u64`.
pub record IsInRange (p : MatchResultPayload) : Type 0 where
  pub base_amount_u64 : IsU64 p.base_amount
  pub quote_amount_u64 : IsU64 p.quote_amount
  pub buyer_change_amt_u64 : IsU64 p.buyer_change_amt
  pub seller_change_amt_u64 : IsU64 p.seller_change_amt
  pub buyer_fee_amt_u64 : IsU64 p.buyer_fee_amt
  pub seller_fee_amt_u64 : IsU64 p.seller_fee_amt
  pub buyer_relock_expiry_u64 : IsU64 p.buyer_relock_expiry
  pub seller_relock_expiry_u64 : IsU64 p.seller_relock_expiry
  pub clearing_price_u64 : IsU64 p.clearing_price
  pub batch_slot_u64 : IsU64 p.batch_slot

-- Payloads in range are determined by the bytes of their fields.
payload_of_chunks :
    (p q : MatchResultPayload)
    → IsInRange p
    → IsInRange q
    → payload_chunks p ≡ payload_chunks q
    → p ≡ q
unfolding payload_chunks
payload_of_chunks p q hp hq e =
    let at : (k : ℕ) → get_or (payload_chunks p) k [] ≡ get_or (payload_chunks q) k [] =
      λ k. ap (λ cs. get_or cs k []) e in
    let e_match_id = at 0 in
    let e_note_a_commitment = at 1 in
    let e_note_b_commitment = at 2 in
    let e_note_c_commitment = at 3 in
    let e_note_d_commitment = at 4 in
    let e_note_e_commitment = at 5 in
    let e_note_f_commitment = at 6 in
    let e_nullifier_a = at 7 in
    let e_nullifier_b = at 8 in
    let e_order_id_a = at 9 in
    let e_order_id_b = at 10 in
    let e_base_amount =
      u64_le_injective p.base_amount q.base_amount hp.base_amount_u64 hq.base_amount_u64 (at 11) in
    let e_quote_amount =
      u64_le_injective p.quote_amount q.quote_amount hp.quote_amount_u64 hq.quote_amount_u64
        (at 12) in
    let e_buyer_change_amt =
      u64_le_injective p.buyer_change_amt q.buyer_change_amt hp.buyer_change_amt_u64
        hq.buyer_change_amt_u64 (at 13) in
    let e_seller_change_amt =
      u64_le_injective p.seller_change_amt q.seller_change_amt hp.seller_change_amt_u64
        hq.seller_change_amt_u64 (at 14) in
    let e_buyer_fee_amt =
      u64_le_injective p.buyer_fee_amt q.buyer_fee_amt hp.buyer_fee_amt_u64 hq.buyer_fee_amt_u64
        (at 15) in
    let e_seller_fee_amt =
      u64_le_injective p.seller_fee_amt q.seller_fee_amt hp.seller_fee_amt_u64 hq.seller_fee_amt_u64
        (at 16) in
    let e_note_fee_commitment = at 17 in
    let e_buyer_relock_order_id = at 18 in
    let e_buyer_relock_expiry =
      u64_le_injective p.buyer_relock_expiry q.buyer_relock_expiry hp.buyer_relock_expiry_u64
        hq.buyer_relock_expiry_u64 (at 19) in
    let e_seller_relock_order_id = at 20 in
    let e_seller_relock_expiry =
      u64_le_injective p.seller_relock_expiry q.seller_relock_expiry hp.seller_relock_expiry_u64
        hq.seller_relock_expiry_u64 (at 21) in
    let e_clearing_price =
      u64_le_injective p.clearing_price q.clearing_price hp.clearing_price_u64 hq.clearing_price_u64
        (at 22) in
    let e_batch_slot =
      u64_le_injective p.batch_slot q.batch_slot hp.batch_slot_u64 hq.batch_slot_u64 (at 23) in
    λ i. record {
      match_id = e_match_id i;
      note_a_commitment = e_note_a_commitment i;
      note_b_commitment = e_note_b_commitment i;
      note_c_commitment = e_note_c_commitment i;
      note_d_commitment = e_note_d_commitment i;
      note_e_commitment = e_note_e_commitment i;
      note_f_commitment = e_note_f_commitment i;
      nullifier_a = e_nullifier_a i;
      nullifier_b = e_nullifier_b i;
      order_id_a = e_order_id_a i;
      order_id_b = e_order_id_b i;
      base_amount = e_base_amount i;
      quote_amount = e_quote_amount i;
      buyer_change_amt = e_buyer_change_amt i;
      seller_change_amt = e_seller_change_amt i;
      buyer_fee_amt = e_buyer_fee_amt i;
      seller_fee_amt = e_seller_fee_amt i;
      note_fee_commitment = e_note_fee_commitment i;
      buyer_relock_order_id = e_buyer_relock_order_id i;
      buyer_relock_expiry = e_buyer_relock_expiry i;
      seller_relock_order_id = e_seller_relock_order_id i;
      seller_relock_expiry = e_seller_relock_expiry i;
      clearing_price = e_clearing_price i;
      batch_slot = e_batch_slot i;
    }

-- Two payloads in range with one serialisation are one payload.
pub serialize_payload_injective :
    (p q : MatchResultPayload) (b : Bytes)
    → IsInRange p
    → IsInRange q
    → serialize_payload p ≡ ok b
    → serialize_payload q ≡ ok b
    → p ≡ q
serialize_payload_injective p q b hp hq ep eq =
    let wp : IsWellFormed p = (serialize_payload_iff p).1 b ep in
    let wq : IsWellFormed q = (serialize_payload_iff q).1 b eq in
    payload_of_chunks p q hp hq (
      cat_injective payload_sizes (payload_chunks p) (payload_chunks q) (payload-Sized p wp)
        (payload-Sized q wq)
        (ok_injective
          (sym (serialize_payload-cat p wp) ∙ ep ∙ sym eq ∙ serialize_payload-cat q wq)))

canonical_chunks : MatchResultPayload → List Bytes
canonical_chunks p = map field_bytes (canonical_fields p)

canonical_fits : (p : MatchResultPayload) → IsWellFormed p → AllFit (canonical_fields p)
canonical_fits p h = (tt, omega arith)

canonical-IsWellFormed : (p : MatchResultPayload) → AllFit (canonical_fields p) → IsWellFormed p
canonical-IsWellFormed p h = omega arith

payload_of_canonical_chunks :
    (p q : MatchResultPayload)
    → IsInRange p
    → IsInRange q
    → canonical_chunks p ≡ canonical_chunks q
    → p ≡ q
unfolding canonical_chunks
payload_of_canonical_chunks p q hp hq e =
    let at : (k : ℕ) → get_or (canonical_chunks p) k [] ≡ get_or (canonical_chunks q) k [] =
      λ k. ap (λ cs. get_or cs k []) e in
    let e_match_id = at 1 in
    let e_note_a_commitment = at 2 in
    let e_note_b_commitment = at 3 in
    let e_note_c_commitment = at 4 in
    let e_note_d_commitment = at 5 in
    let e_note_e_commitment = at 6 in
    let e_note_f_commitment = at 7 in
    let e_note_fee_commitment = at 8 in
    let e_nullifier_a = at 9 in
    let e_nullifier_b = at 10 in
    let e_order_id_a = at 11 in
    let e_order_id_b = at 12 in
    let e_base_amount =
      u64_le_injective p.base_amount q.base_amount hp.base_amount_u64 hq.base_amount_u64 (at 13) in
    let e_quote_amount =
      u64_le_injective p.quote_amount q.quote_amount hp.quote_amount_u64 hq.quote_amount_u64
        (at 14) in
    let e_buyer_change_amt =
      u64_le_injective p.buyer_change_amt q.buyer_change_amt hp.buyer_change_amt_u64
        hq.buyer_change_amt_u64 (at 15) in
    let e_seller_change_amt =
      u64_le_injective p.seller_change_amt q.seller_change_amt hp.seller_change_amt_u64
        hq.seller_change_amt_u64 (at 16) in
    let e_buyer_fee_amt =
      u64_le_injective p.buyer_fee_amt q.buyer_fee_amt hp.buyer_fee_amt_u64 hq.buyer_fee_amt_u64
        (at 17) in
    let e_seller_fee_amt =
      u64_le_injective p.seller_fee_amt q.seller_fee_amt hp.seller_fee_amt_u64 hq.seller_fee_amt_u64
        (at 18) in
    let e_buyer_relock_order_id = at 19 in
    let e_buyer_relock_expiry =
      u64_le_injective p.buyer_relock_expiry q.buyer_relock_expiry hp.buyer_relock_expiry_u64
        hq.buyer_relock_expiry_u64 (at 20) in
    let e_seller_relock_order_id = at 21 in
    let e_seller_relock_expiry =
      u64_le_injective p.seller_relock_expiry q.seller_relock_expiry hp.seller_relock_expiry_u64
        hq.seller_relock_expiry_u64 (at 22) in
    let e_clearing_price =
      u64_le_injective p.clearing_price q.clearing_price hp.clearing_price_u64 hq.clearing_price_u64
        (at 23) in
    let e_batch_slot =
      u64_le_injective p.batch_slot q.batch_slot hp.batch_slot_u64 hq.batch_slot_u64 (at 24) in
    λ i. record {
      match_id = e_match_id i;
      note_a_commitment = e_note_a_commitment i;
      note_b_commitment = e_note_b_commitment i;
      note_c_commitment = e_note_c_commitment i;
      note_d_commitment = e_note_d_commitment i;
      note_e_commitment = e_note_e_commitment i;
      note_f_commitment = e_note_f_commitment i;
      nullifier_a = e_nullifier_a i;
      nullifier_b = e_nullifier_b i;
      order_id_a = e_order_id_a i;
      order_id_b = e_order_id_b i;
      base_amount = e_base_amount i;
      quote_amount = e_quote_amount i;
      buyer_change_amt = e_buyer_change_amt i;
      seller_change_amt = e_seller_change_amt i;
      buyer_fee_amt = e_buyer_fee_amt i;
      seller_fee_amt = e_seller_fee_amt i;
      note_fee_commitment = e_note_fee_commitment i;
      buyer_relock_order_id = e_buyer_relock_order_id i;
      buyer_relock_expiry = e_buyer_relock_expiry i;
      seller_relock_order_id = e_seller_relock_order_id i;
      seller_relock_expiry = e_seller_relock_expiry i;
      clearing_price = e_clearing_price i;
      batch_slot = e_batch_slot i;
    }

-- The message that is hashed.
hashed :
    (rt : Runtime) (p : MatchResultPayload) (digest : Bytes)
    → canonical_payload_hash rt p ≡ ok digest
    → IsWellFormed p × (rt.sha256 (cat (canonical_chunks p)) ≡ digest)
unfolding canonical_payload_hash canonical_chunks
hashed rt p digest e = by_result (cat_fields (canonical_fields p)) refl e
  where
    by_result :
        (r : Result Bytes)
        → cat_fields (canonical_fields p) ≡ r
        → (r >>= λ m. ok (rt.sha256 m)) ≡ ok digest
        → IsWellFormed p × (rt.sha256 (cat (map field_bytes (canonical_fields p))) ≡ digest)
    by_result (err x) s k = cc
    by_result (ok m) s k =
        let fit : AllFit (canonical_fields p) = cat_fields-AllFit (canonical_fields p) m s in
        let same : cat (map field_bytes (canonical_fields p)) ≡ m =
          ok_injective (sym (cat_fields-cat (canonical_fields p) fit) ∙ s) in
        (canonical-IsWellFormed p fit, ap rt.sha256 same ∙ ok_injective k)

-- A hash that the TEE signs binds every field: two payloads in range with one canonical hash are
-- one payload, or two messages with one SHA-256 digest are exhibited.
pub canonical_payload_hash_binding :
    (rt : Runtime) (p q : MatchResultPayload) (digest : Bytes)
    → IsInRange p
    → IsInRange q
    → canonical_payload_hash rt p ≡ ok digest
    → canonical_payload_hash rt q ≡ ok digest
    → (p ≡ q) ⊎ Collision rt.sha256
canonical_payload_hash_binding rt p q digest hp hq ep eq =
    let (wp, dp) = hashed rt p digest ep in
    let (wq, dq) = hashed rt q digest eq in
    elim (Bytes-discrete (cat (canonical_chunks p)) (cat (canonical_chunks q))) [
      | yes same ↦ inl (payload_of_canonical_chunks p q hp hq (one_message p q wp wq same))
      | no other ↦ inr (record {
        message = cat (canonical_chunks p);
        message' = cat (canonical_chunks q);
        same_digest = dp ∙ sym dq;
        differ = other;
      })
    ]
  where
    one_message :
        (x y : MatchResultPayload)
        → IsWellFormed x
        → IsWellFormed y
        → cat (canonical_chunks x) ≡ cat (canonical_chunks y)
        → canonical_chunks x ≡ canonical_chunks y
    one_message x y hx hy e =
        cat_injective (map field_size (canonical_fields x)) (canonical_chunks x)
          (canonical_chunks y)
          (unfold canonical_chunks in fields-Sized (canonical_fields x) (canonical_fits x hx))
          (unfold canonical_chunks in fields-Sized (canonical_fields y) (canonical_fits y hy)) e

-- ===== src/Settlement/Payload.antt =====
-- packages/sdk/src/settlement/settle-builder.ts: acceptance, size and layout of `serializePayload`.
use darknyx_capstone_project.Base.{
  ◌∷◌, ◌∙◌, ap, append-nil, [], sym, get_or, ◌<◌, ℕ, List, length, map, ◌≡◌, arith,
}
use darknyx_capstone_project.Bytes.Chunks.{offset, slice-cat, length-cat, Sized, cat}
use darknyx_capstone_project.Bytes.{slice, Bytes}
use darknyx_capstone_project.Wire.Layout.{
  fields-Sized, cat_fields-AllFit, AllFit, field_bytes, cat_fields-cat,
}
use darknyx_capstone_project.Errors.{ok, ok_injective}
use darknyx_capstone_project.Settlement.{MatchResultPayload, payload_fields, serialize_payload}

-- Every byte field has its length.
pub record IsWellFormed (p : MatchResultPayload) : Type 0 where
  pub match_id_size : length p.match_id ≡ 16
  pub note_a_commitment_size : length p.note_a_commitment ≡ 32
  pub note_b_commitment_size : length p.note_b_commitment ≡ 32
  pub note_c_commitment_size : length p.note_c_commitment ≡ 32
  pub note_d_commitment_size : length p.note_d_commitment ≡ 32
  pub note_e_commitment_size : length p.note_e_commitment ≡ 32
  pub note_f_commitment_size : length p.note_f_commitment ≡ 32
  pub nullifier_a_size : length p.nullifier_a ≡ 32
  pub nullifier_b_size : length p.nullifier_b ≡ 32
  pub order_id_a_size : length p.order_id_a ≡ 16
  pub order_id_b_size : length p.order_id_b ≡ 16
  pub note_fee_commitment_size : length p.note_fee_commitment ≡ 32
  pub buyer_relock_order_id_size : length p.buyer_relock_order_id ≡ 16
  pub seller_relock_order_id_size : length p.seller_relock_order_id ≡ 16

pub payload_fits : (p : MatchResultPayload) → IsWellFormed p → AllFit (payload_fields p)
payload_fits p h = omega arith

pub payload-IsWellFormed : (p : MatchResultPayload) → AllFit (payload_fields p) → IsWellFormed p
payload-IsWellFormed p h = omega arith

-- The serialised payload, as chunks.
unfoldable pub payload_chunks : (p : MatchResultPayload) → List Bytes
unfolding serialize_payload
payload_chunks p = map field_bytes (payload_fields p)

pub serialize_payload-cat :
    (p : MatchResultPayload) → IsWellFormed p → serialize_payload p ≡ ok (cat (payload_chunks p))
unfolding serialize_payload payload_chunks
serialize_payload-cat p h = cat_fields-cat (payload_fields p) (payload_fits p h)

-- The sizes of the 24 fields: 16 and 32 bytes for byte arrays, 8 for a `u64`.
abbrev pub payload_sizes : List ℕ
payload_sizes =
    16 ∷ 32 ∷ 32 ∷ 32 ∷ 32 ∷ 32 ∷ 32 ∷ 32 ∷ 32 ∷ 16 ∷ 16 ∷ 8 ∷ 8 ∷ 8 ∷ 8 ∷ 8 ∷ 8 ∷ 32 ∷ 16 ∷ 8 ∷ 16
    ∷ 8 ∷ 8 ∷ 8 ∷ []

pub payload-Sized :
    (p : MatchResultPayload) → IsWellFormed p → Sized payload_sizes (payload_chunks p)
unfolding payload_chunks
payload-Sized p h = fields-Sized (payload_fields p) (payload_fits p h)

-- Serialisation accepts the payloads whose byte fields have their lengths, and no other; what it
-- returns has 448 bytes.
pub serialize_payload_iff :
    (p : MatchResultPayload)
    → (IsWellFormed p → (b : Bytes) × (serialize_payload p ≡ ok b) × (length b ≡ 448))
      × ((b : Bytes) → serialize_payload p ≡ ok b → IsWellFormed p)
serialize_payload_iff p = (
  λ h. (
    cat (payload_chunks p),
    serialize_payload-cat p h,
    length-cat payload_sizes (payload_chunks p) (payload-Sized p h),
  ),
  λ b e.
      payload-IsWellFormed p (unfold serialize_payload in cat_fields-AllFit (payload_fields p) b e),
)

-- Field `i` of a serialised payload lies at the offset that the sizes before it add up to.
pub payload_slice :
    (p : MatchResultPayload) (b : Bytes) (i : ℕ)
    → serialize_payload p ≡ ok b
    → i < 24
    → slice (offset payload_sizes i) (get_or payload_sizes i 0) b ≡ get_or (payload_chunks p) i []
payload_slice p b i e lt =
    let h : IsWellFormed p = (serialize_payload_iff p).1 b e in
    let whole : b ≡ cat (payload_chunks p) = ok_injective (sym e ∙ serialize_payload-cat p h) in
    ap (slice (offset payload_sizes i) (get_or payload_sizes i 0))
      (whole ∙ sym (append-nil (cat (payload_chunks p))))
    ∙ slice-cat payload_sizes (payload_chunks p) [] i (payload-Sized p h) lt

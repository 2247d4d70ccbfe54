-- ===== src/Settlement/Ed25519.antt =====
-- packages/sdk/src/settlement/settle-builder.ts: the layout of `buildEd25519VerifyIx`.
use darknyx_capstone_project.Wire.Layout.{
  cat_fields-cat, cat_fields-AllFit, fields-Sized, field_bytes, AllFit,
}
use darknyx_capstone_project.Settlement.{ed25519_header, build_ed25519_verify_ix}
use darknyx_capstone_project.Wire.{cat_fields, fixed, raw, WireField}
use darknyx_capstone_project.Errors.{ok, ok_injective, bind-ok}
use darknyx_capstone_project.Solana.{TransactionInstruction, Runtime}
use darknyx_capstone_project.Bytes.Chunks.{slice-cat, offset, Sized, cat}
use darknyx_capstone_project.Base.{
  append-nil, ap, get_or, subst, ◌^◌, map, ◌<◌, ◌≡◌, length, sym, ◌∙◌, arith, ℕ, List, [], ◌∷◌,
}
use darknyx_capstone_project.Bytes.{le_value, Bytes, slice}

-- The `u16` at an offset.
abbrev pub u16_at : ℕ → Bytes → ℕ
u16_at off buf = le_value (slice off 2 buf)

abbrev verify_fields : Bytes → Bytes → Bytes → List WireField
verify_fields pubkey signature message =
    raw (ed25519_header (length message)) ∷ fixed pubkey 32 ∷ fixed signature 64 ∷ raw message ∷ []

-- What a verify instruction carries.
build_ed25519_verify_ix-data :
    (rt : Runtime) (pubkey signature message : Bytes) (ix : TransactionInstruction)
    → build_ed25519_verify_ix rt pubkey signature message ≡ ok ix
    → AllFit (verify_fields pubkey signature message)
      × (ix.instruction_data ≡ cat (map field_bytes (verify_fields pubkey signature message)))
unfolding build_ed25519_verify_ix
build_ed25519_verify_ix-data rt pubkey signature message ix e =
    let fields = verify_fields pubkey signature message in
    let (b, body, e1) = bind-ok (cat_fields fields) _ ix e in
    let fit : AllFit fields = cat_fields-AllFit fields b body in
    (
      fit,
      ap (λ (i : TransactionInstruction). i.instruction_data) (sym (ok_injective e1))
          ∙ ok_injective (sym body ∙ cat_fields-cat fields fit),
    )

-- Where the offsets of the header point in the bytes of a verify instruction.
header_points :
    (pubkey signature message : Bytes)
    → AllFit (verify_fields pubkey signature message)
    → length message < 2 ^ 16
    → let d : Bytes = cat (map field_bytes (verify_fields pubkey signature message)) in
      (slice (u16_at 6 d) 32 d ≡ pubkey)
      × (slice (u16_at 2 d) 64 d ≡ signature)
      × (slice (u16_at 10 d) (u16_at 12 d) d ≡ message)
header_points pubkey signature message fit short =
    let chunks = map field_bytes (verify_fields pubkey signature message) in
    let d : Bytes = cat chunks in
    let sizes : List ℕ = 16 ∷ 32 ∷ 64 ∷ length message ∷ [] in
    let sized : Sized sizes chunks = fields-Sized (verify_fields pubkey signature message) fit in
    let at : (i : ℕ) → i < 4 → slice (offset sizes i) (get_or sizes i 0) d ≡ get_or chunks i [] =
      λ i lt.
        ap (slice (offset sizes i) (get_or sizes i 0)) (sym (append-nil d))
        ∙ slice-cat sizes chunks [] i sized lt in
    let size : u16_at 12 d ≡ length message = omega (arith, short) in
    (at 1 (omega arith), at 2 (omega arith), ap (λ n. slice 112 n d) size ∙ at 3 (omega arith))

-- In a verify instruction that `buildEd25519VerifyIx` made, for a message below 2 ^ 16 bytes, the
-- header's offsets point at the public key and the signature, and its offset and size at the message.
pub build_ed25519_verify_ix-header :
    (rt : Runtime) (pubkey signature message : Bytes) (ix : TransactionInstruction)
    → length message < 2 ^ 16
    → build_ed25519_verify_ix rt pubkey signature message ≡ ok ix
    → (slice (u16_at 6 ix.instruction_data) 32 ix.instruction_data ≡ pubkey)
      × (slice (u16_at 2 ix.instruction_data) 64 ix.instruction_data ≡ signature)
      × (slice (u16_at 10 ix.instruction_data) (u16_at 12 ix.instruction_data) ix.instruction_data
          ≡ message)
build_ed25519_verify_ix-header rt pubkey signature message ix short e =
    let (fit, carried) = build_ed25519_verify_ix-data rt pubkey signature message ix e in
    subst
      (λ (d : Bytes).
        (slice (u16_at 6 d) 32 d ≡ pubkey)
        × (slice (u16_at 2 d) 64 d ≡ signature)
        × (slice (u16_at 10 d) (u16_at 12 d) d ≡ message))
      (sym carried) (header_points pubkey signature message fit short)

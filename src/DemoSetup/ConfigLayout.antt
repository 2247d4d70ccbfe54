-- ===== src/DemoSetup/ConfigLayout.antt =====
-- The data of `buildSetProtocolConfigInstruction` of packages/sdk/src/idl/vault-client.ts for a fee of 0.
use darknyx_capstone_project.Bytes.Chunks.{slice-cat, cat, Sized}
use darknyx_capstone_project.Wire.Layout.{
  cat_fields-cat, fields-Sized, field_bytes, cat_fields-AllFit, AllFit,
}
use darknyx_capstone_project.Bytes.{le_value, slice, Bytes}
use darknyx_capstone_project.Base.Int.{pos}
use darknyx_capstone_project.Wire.{cat_fields, anchor_discriminator, u16_le, fixed, WireField}
use darknyx_capstone_project.Solana.{TransactionInstruction, PublicKey, Runtime}
use darknyx_capstone_project.VaultClient.{build_set_protocol_config_instruction}
use darknyx_capstone_project.Base.{
  ◌≡◌, ap, sym, ◌∙◌, length, arith, append-nil, List, [], ◌∷◌, ◌++◌, map,
}
use darknyx_capstone_project.Errors.{bind-ok_then, ok, ok_injective}

abbrev config_fields : Bytes → List WireField
config_fields owner = fixed owner 32 ∷ u16_le 0 ∷ []

-- It carries the owner's commitment at 8 and the fee at 40.
pub zero_config-slices :
    (rt : Runtime) (program admin : PublicKey) (owner : Bytes) (ix : TransactionInstruction)
    → length (anchor_discriminator rt "set_protocol_config") ≡ 8
    → build_set_protocol_config_instruction rt program admin owner (pos 0) ≡ ok ix
    → (ix.program_id ≡ program)
      × (slice 8 32 ix.instruction_data ≡ owner)
      × (le_value (slice 40 2 ix.instruction_data) ≡ 0)
unfolding build_set_protocol_config_instruction
zero_config-slices rt program admin owner ix hd e =
    bind-ok_then (cat_fields (config_fields owner)) _ e λ body e1 r1.
      let fit : AllFit (config_fields owner) = cat_fields-AllFit (config_fields owner) body e1 in
      let disc : Bytes = anchor_discriminator rt "set_protocol_config" in
      let chunks : List Bytes = disc ∷ map field_bytes (config_fields owner) in
      let sized : Sized (8 ∷ 32 ∷ 2 ∷ []) chunks = (hd, fields-Sized (config_fields owner) fit) in
      let made = ok_injective r1 in
      let same : body ≡ cat (map field_bytes (config_fields owner)) =
        ok_injective (sym e1 ∙ cat_fields-cat (config_fields owner) fit) in
      let carried : ix.instruction_data ≡ cat chunks ++ [] =
        ap (λ (i : TransactionInstruction). i.instruction_data) (sym made)
        ∙ ap (λ b. disc ++ b) same
        ∙ sym (append-nil (cat chunks)) in
      (
        ap (λ (i : TransactionInstruction). i.program_id) (sym made),
        ap (slice 8 32) carried ∙ slice-cat (8 ∷ 32 ∷ 2 ∷ []) chunks [] 1 sized (omega arith),
        ap (λ b. le_value (slice 40 2 b)) carried
            ∙ ap le_value (slice-cat (8 ∷ 32 ∷ 2 ∷ []) chunks [] 2 sized (omega arith)),
      )

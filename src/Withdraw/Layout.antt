-- ===== src/Withdraw/Layout.antt =====
-- The data of `buildWithdrawInstruction` of packages/sdk/src/idl/vault-client.ts, field by field.
use darknyx_capstone_project.VaultClient.{
  nullifier_entry_pda, note_lock_pda, consumed_note_pda, proof_fields, WithdrawParams,
  build_withdraw_instruction,
}
use darknyx_capstone_project.Bytes.Chunks.{slice-cat, Sized, offset, cat}
use darknyx_capstone_project.Wire.Layout.{
  cat_fields-cat, cat_fields-AllFit, fields-Sized, field_bytes, AllFit,
}
use darknyx_capstone_project.Base.{
  append-nil, sym, ◌∙◌, ap, get_or, map, ◌<◌, ◌++◌, length, [], ◌∷◌, ℕ, List, ◌≡◌,
}
use darknyx_capstone_project.Bytes.{slice}
use darknyx_capstone_project.Wire.{cat_fields, u64_le, anchor_discriminator, fixed, WireField}
use darknyx_capstone_project.Errors.{ok_injective, ok, bind-ok_then}
use darknyx_capstone_project.Solana.{TransactionInstruction, PublicKey, Runtime}

abbrev pub withdraw_fields : WithdrawParams → List WireField
withdraw_fields q =
    fixed q.note_commitment 32
    ∷ fixed q.nullifier 32
    ∷ fixed q.merkle_root 32
    ∷ u64_le q.amount
    ∷ proof_fields q.proof

abbrev withdraw_sizes : List ℕ
withdraw_sizes = 8 ∷ 32 ∷ 32 ∷ 32 ∷ 8 ∷ 64 ∷ 128 ∷ 64 ∷ []

build_withdraw_instruction-data :
    (rt : Runtime) (program : PublicKey) (q : WithdrawParams) (ix : TransactionInstruction)
    → build_withdraw_instruction rt program q ≡ ok ix
    → AllFit (withdraw_fields q)
      × (ix.instruction_data
          ≡ anchor_discriminator rt "withdraw" ++ cat (map field_bytes (withdraw_fields q)))
unfolding build_withdraw_instruction
build_withdraw_instruction-data rt program q ix e =
    bind-ok_then (consumed_note_pda rt program q.note_commitment) _ e λ consumed e1 r1.
      bind-ok_then (note_lock_pda rt program q.note_commitment) _ r1 λ note_lock e2 r2.
        bind-ok_then (nullifier_entry_pda rt program q.nullifier) _ r2 λ entry e3 r3.
          bind-ok_then (cat_fields (withdraw_fields q)) _ r3 λ body e4 r4.
            let fit : AllFit (withdraw_fields q) = cat_fields-AllFit (withdraw_fields q) body e4 in
            let same : body ≡ cat (map field_bytes (withdraw_fields q)) =
              ok_injective (sym e4 ∙ cat_fields-cat (withdraw_fields q) fit) in
            (
              fit,
              ap (λ (i : TransactionInstruction). i.instruction_data) (sym (ok_injective r4))
                  ∙ ap (λ b. anchor_discriminator rt "withdraw" ++ b) same,
            )

-- Field `i` of the data, the discriminator counted as field 0.
pub withdraw_slice :
    (rt : Runtime) (program : PublicKey) (q : WithdrawParams) (ix : TransactionInstruction) (i : ℕ)
    → length (anchor_discriminator rt "withdraw") ≡ 8
    → build_withdraw_instruction rt program q ≡ ok ix
    → i < 8
    → slice (offset withdraw_sizes i) (get_or withdraw_sizes i 0) ix.instruction_data
      ≡ get_or (anchor_discriminator rt "withdraw" ∷ map field_bytes (withdraw_fields q)) i []
withdraw_slice rt program q ix i hd e lt =
    let (fit, carried) = build_withdraw_instruction-data rt program q ix e in
    let chunks = anchor_discriminator rt "withdraw" ∷ map field_bytes (withdraw_fields q) in
    let sized : Sized withdraw_sizes chunks = (hd, fields-Sized (withdraw_fields q) fit) in
    ap (slice (offset withdraw_sizes i) (get_or withdraw_sizes i 0))
      (carried ∙ sym (append-nil (cat chunks)))
    ∙ slice-cat withdraw_sizes chunks [] i sized lt

-- ===== src/DemoSetup/ZeroFee.antt =====
-- apps/demo/src/lib/dapp/ensure-zero-fee.ts: what is sent keeps the protocol owner and sets the fee to 0.
use darknyx_capstone_project.DemoSetup.ConfigLayout.{zero_config-slices}
use darknyx_capstone_project.DemoSetup.{
  zero_fee, existing, fee_rate_bps_offset, protocol_owner_commitment_offset, EnsureZeroFeeOutcome,
  ensure_zero_protocol_fee, L1Connection,
}
use darknyx_capstone_project.Base.Int.{pos}
use darknyx_capstone_project.VaultClient.{build_set_protocol_config_instruction, vault_config_pda}
use darknyx_capstone_project.Errors.{Result, other_error, ok, ok_injective, err-ok, Thrown}
use darknyx_capstone_project.Exec.{throw_unless, lift, bind-ok_then, outcome_value}
use darknyx_capstone_project.Bytes.{le_value, slice, Bytes}
use darknyx_capstone_project.Client.{AccountInfo}
use darknyx_capstone_project.Solana.{TransactionInstruction, PublicKey, Runtime}
use darknyx_capstone_project.Base.{
  sym, ==_iff, ◌==◌, ap₂, ◌∙◌, Bool-cases, ℕ, ap, Option, Bool, ◌+◌, ltb, not, [], ◌∷◌, ◌⊎◌, length,
  ◌≡◌, false, true, none, some, inl, inr,
}
use darknyx_capstone_project.Wire.{anchor_discriminator}

existing-some :
    (info : Option AccountInfo) (account : AccountInfo)
    → existing info ≡ ok account
    → info ≡ some account
existing-some none account e = absurd (err-ok e)
existing-some (some a) account e = ap (λ x. some x) (ok_injective e)

throw_unless_state :
    {W : Type 0} (b : Bool) (t : Thrown) (w w' : W) (d : Unit {0})
    → throw_unless b t w ≡ (ok d, w')
    → w ≡ w'
throw_unless_state {W} true t w w' d e = ap (λ (q : Result (Unit {0}) × W). q.1) e
throw_unless_state false t w w' d e = absurd (err-ok (outcome_value e))

module _ {W : Type 0} (rt : Runtime) (l1 : L1Connection W) where
  -- The configuration account that was read, and what the run did about its fee.
  pub record IsZeroed (program : PublicKey) (account : Bytes) (ix : TransactionInstruction)
      : Type 0 where
    pub to_vault : ix.program_id ≡ program
    pub owner_kept :
        slice 8 32 ix.instruction_data ≡ slice protocol_owner_commitment_offset 32 account
    pub fee_zeroed : le_value (slice 40 2 ix.instruction_data) ≡ 0

  zero_fee-IsZeroed :
      (program admin : PublicKey) (account : Bytes) (observed : ℕ) (out : EnsureZeroFeeOutcome)
      (w w' : W)
      → length (anchor_discriminator rt "set_protocol_config") ≡ 8
      → zero_fee rt l1 program admin account observed w ≡ (ok out, w')
      → ((observed ≡ 0) × (out.zeroed ≡ false) × (w' ≡ w))
        ⊎ ((ix : TransactionInstruction) × (sig : Bytes) × (l1.send_and_confirm (ix ∷ []) w
              ≡ (ok sig, w'))
            × (out.signature ≡ some sig)
            × IsZeroed program account ix)
  unfolding zero_fee
  zero_fee-IsZeroed program admin account observed out w w' hd e =
      elim (Bool-cases (observed == 0)) [
        | inl nought ↦
            let done : ◌≡◌ {A = Result EnsureZeroFeeOutcome × W}
                (ok (record { observed_fee_bps = 0; zeroed = false; signature = none }), w)
                (ok out, w') =
              rw nought at e in
            inl (
              (==_iff observed 0).0 nought,
              ap (λ (o : EnsureZeroFeeOutcome). o.zeroed) (sym (ok_injective (outcome_value done))),
              ap (λ (q : Result EnsureZeroFeeOutcome × W). q.1) (sym done),
            )
        | inr more ↦
            let owner : Bytes = slice protocol_owner_commitment_offset 32 account in
            bind-ok_then
              (lift (build_set_protocol_config_instruction rt program admin owner (pos 0))) _
              (rw more at e)
              λ ix s1 e1 r1. bind-ok_then (l1.send_and_confirm (ix ∷ [])) _ r1 λ sig s2 e2 r2.
                let (to_vault, kept, zeroed) =
                  zero_config-slices rt program admin owner ix hd (outcome_value e1) in
                inr (
                  ix,
                  sig,
                  ap (l1.send_and_confirm (ix ∷ []))
                        (ap (λ (q : Result TransactionInstruction × W). q.1) e1)
                      ∙ e2
                      ∙ ap (λ (q : Result EnsureZeroFeeOutcome × W). (ok sig, q.1)) r2,
                  ap (λ (o : EnsureZeroFeeOutcome). o.signature)
                      (sym (ok_injective (outcome_value r2))),
                  record { to_vault = to_vault; owner_kept = kept; fee_zeroed = zeroed },
                )
      ]

  -- With a discriminator of eight bytes, a run that returns read the vault's configuration, and either
  -- its fee is 0 and nothing was sent, or the run sent, with the outcome's signature, the instruction
  -- that keeps the protocol owner's commitment of that account and sets the fee to 0.
  pub ensure_zero_protocol_fee-IsZeroed :
      (program admin : PublicKey) (out : EnsureZeroFeeOutcome) (w w' : W)
      → length (anchor_discriminator rt "set_protocol_config") ≡ 8
      → ensure_zero_protocol_fee rt l1 program admin w ≡ (ok out, w')
      → (account : AccountInfo) × (w1 : W) × (l1.get_account_info (vault_config_pda rt program) w
          ≡ (ok (some account), w1))
        × (((le_value (slice fee_rate_bps_offset 2 account.account_data) ≡ 0)
              × (out.zeroed ≡ false)
              × (w' ≡ w1))
            ⊎ ((ix : TransactionInstruction) × (sig : Bytes) × (l1.send_and_confirm (ix ∷ []) w1
                  ≡ (ok sig, w'))
                × (out.signature ≡ some sig)
                × IsZeroed program account.account_data ix))
  unfolding ensure_zero_protocol_fee
  ensure_zero_protocol_fee-IsZeroed program admin out w w' hd e =
      bind-ok_then (l1.get_account_info (vault_config_pda rt program)) _ e λ info s1 e1 r1.
        bind-ok_then (lift (existing info)) _ r1 λ account s2 e2 r2.
          bind-ok_then
            (throw_unless (not (ltb (length account.account_data) (fee_rate_bps_offset + 2)))
              other_error)
            _ r2
            λ d s3 e3 r3.
              let same : s1 ≡ s3 =
                ap (λ (q : Result AccountInfo × W). q.1) e2
                ∙ throw_unless_state _ other_error s2 s3 d e3 in
              (
                account,
                s3,
                e1 ∙ ap₂ (λ i s. (ok i, s)) (existing-some info account (outcome_value e2)) same,
                zero_fee-IsZeroed program admin account.account_data
                    (le_value (slice fee_rate_bps_offset 2 account.account_data)) out s3 w' hd r3,
              )

-- ===== src/TradeSettle/Settled.antt =====
-- apps/demo/src/lib/dapp/run-trade-l1-settle.ts against the leaf replay of
-- apps/demo/src/lib/dapp/vault-leaf-history.ts.
use darknyx_capstone_project.History.Instructions.{process_ix_data-build_settle_ix}
use darknyx_capstone_project.Base.{
  drop, subst, ◌∙◌, ap, ◌++◌, [], ◌∷◌, ◌≢◌, length, Option, List, ℕ, ◌≡◌,
}
use darknyx_capstone_project.TradeSettle.Outputs.{build_trade-committed}
use darknyx_capstone_project.Errors.{Result, ok_injective, ok}
use darknyx_capstone_project.History.Leaves.{settle_leaves}
use darknyx_capstone_project.TradeSettle.{
  settle_trade, lock_notes, account_data_of, read_match, run_trade_l1_settle, TradeConnection,
}
use darknyx_capstone_project.TradeSettle.Trade.{
  build_trade, leaf_count_of, TradeL1SettleResult, TradeL1SettleContext, BuyerBaseNote,
}
use darknyx_capstone_project.VaultClient.{vault_config_pda}
use darknyx_capstone_project.Settlement.{
  build_settle_ix, build_ed25519_verify_ix, canonical_payload_hash, MatchResultPayload,
}
use darknyx_capstone_project.Bytes.{Bytes}
use darknyx_capstone_project.Exec.{lift, bind-ok_then, outcome_value}
use darknyx_capstone_project.History.{process_ix_data}
use darknyx_capstone_project.Wire.{anchor_discriminator}
use darknyx_capstone_project.Solana.{PublicKey, TransactionInstruction, Runtime}
use darknyx_capstone_project.Base.Int.{pos}
use darknyx_capstone_project.Keys.{Crypto}
use darknyx_capstone_project.Field.{note_commitment, Note, Poseidon}

-- The note that is handed on, as a note.
abbrev pub handed_note : ℕ → BuyerBaseNote → Note
handed_note owner note = record {
  token_mint = note.token_mint;
  amount = pos note.amount;
  owner_commitment = pos owner;
  nonce = pos note.nonce;
  blinding_r = pos note.blinding_r;
}

module _ {W : Type 0} (rt : Runtime) (p : Poseidon) (c : Crypto) (l1 : TradeConnection W) where
  -- What a settlement transaction carries: the TEE's signature of the payload's hash, then the payload.
  pub record IsSettlement (ctx : TradeL1SettleContext) (payload : MatchResultPayload)
      (verify settle : TransactionInstruction) : Type 0 where
    pub msg : Bytes
    pub hashed : canonical_payload_hash rt payload ≡ ok msg
    pub signed :
        build_ed25519_verify_ix rt ctx.tee.public_key (l1.sign_detached msg ctx.tee.secret_key) msg
        ≡ ok verify
    pub settled : build_settle_ix rt ctx.vault_program_id ctx.tee.public_key payload ≡ ok settle

  settle_trade-IsSettlement :
      (ctx : TradeL1SettleContext) (payload : MatchResultPayload) (msg sig : Bytes) (w w' : W)
      → canonical_payload_hash rt payload ≡ ok msg
      → settle_trade rt p c l1 ctx payload msg w ≡ (ok sig, w')
      → (verify : TransactionInstruction) × (settle : TransactionInstruction) × IsSettlement ctx
          payload verify settle
        × (l1.send_and_confirm (l1.set_compute_unit_limit 1400000 ∷ verify ∷ settle ∷ []) w
            ≡ (ok sig, w'))
  unfolding settle_trade
  settle_trade-IsSettlement ctx payload msg sig w w' hashed e =
      bind-ok_then
        (lift (
          build_ed25519_verify_ix rt ctx.tee.public_key (l1.sign_detached msg ctx.tee.secret_key)
            msg))
        _ e
        λ verify w1 e1 r1.
          bind-ok_then (lift (build_settle_ix rt ctx.vault_program_id ctx.tee.public_key payload)) _
            r1
            λ settle w2 e2 r2.
              let first : w ≡ w1 = ap (λ (q : Result TransactionInstruction × W). q.1) e1 in
              let second : w1 ≡ w2 = ap (λ (q : Result TransactionInstruction × W). q.1) e2 in
              (
                verify,
                settle,
                record {
                  msg = msg;
                  hashed = hashed;
                  signed = outcome_value e1;
                  settled = outcome_value e2;
                },
                ap (l1.send_and_confirm (l1.set_compute_unit_limit 1400000 ∷ verify ∷ settle ∷ []))
                      (first ∙ second)
                    ∙ r2,
              )

  -- A settlement run that returns sent one transaction with the TEE's signature of a payload's hash and
  -- the settlement of that payload, with the receipt's signature. With discriminators of eight bytes
  -- that differ, the leaf replay reads from that settlement the commitment of the note that the run
  -- hands to the buyer as its first leaf, and that commitment is the one of the handed note, under
  -- some owner commitment.
  pub run_trade_l1_settle-IsSettlement :
      (ctx : TradeL1SettleContext) (result : TradeL1SettleResult) (w w' : W) (leaves : List Bytes)
      (keys : List (Option PublicKey))
      → length (anchor_discriminator rt "deposit") ≡ 8
      → length (anchor_discriminator rt "tee_forced_settle") ≡ 8
      → anchor_discriminator rt "tee_forced_settle" ≢ anchor_discriminator rt "deposit"
      → run_trade_l1_settle rt p c l1 ctx w ≡ (ok result, w')
      → (payload : MatchResultPayload) × (verify : TransactionInstruction)
        × (settle : TransactionInstruction) × IsSettlement ctx payload verify settle
        × ((w1 : W) × (w2 : W) × (l1.send_and_confirm
                (l1.set_compute_unit_limit 1400000 ∷ verify ∷ settle ∷ [])
                w1
              ≡ (ok result.settle_signature, w2)))
        × ((owner : ℕ) × (note_commitment p (handed_note owner result.buyer_base_note)
              ≡ ok result.buyer_base_note.commitment))
        × ((behind : List Bytes) × (process_ix_data rt p leaves settle.instruction_data keys
              ≡ ok (leaves ++ result.buyer_base_note.commitment ∷ behind)))
  unfolding run_trade_l1_settle settle_leaves
  run_trade_l1_settle-IsSettlement ctx result w w' leaves keys hd hs differ e =
      bind-ok_then (read_match rt p c l1 ctx) _ e λ mr s1 e1 r1.
        bind-ok_then (account_data_of rt p c l1 (vault_config_pda rt ctx.vault_program_id)) _ r1
          λ pre s2 e2 r2. bind-ok_then (lift (leaf_count_of pre)) _ r2 λ leaf_before s3 e3 r3.
            bind-ok_then (lift (build_trade rt p c ctx mr)) _ r3 λ trade s4 e4 r4.
              bind-ok_then (lift (canonical_payload_hash rt trade.1)) _ r4 λ msg s5 e5 r5.
                bind-ok_then (lock_notes rt p c l1 ctx mr) _ r5 λ lock_sig s6 e6 r6.
                  bind-ok_then (settle_trade rt p c l1 ctx trade.1 msg) _ r6 λ settle_sig s7 e7 r7.
                    bind-ok_then
                      (account_data_of rt p c l1 (vault_config_pda rt ctx.vault_program_id)) _ r7
                      λ post s8 e8 r8.
                        bind-ok_then (lift (leaf_count_of post)) _ r8 λ leaf_after s9 e9 r9.
                          let made = ok_injective (outcome_value r9) in
                          let (owner, committed, carried) =
                            build_trade-committed rt p c ctx mr trade (outcome_value e4) in
                          let (verify, settle, sent_by, sent) =
                            settle_trade-IsSettlement ctx trade.1 msg settle_sig s6 s7
                              (outcome_value e5) e7 in
                          let hashed = outcome_value e5 in
                          (
                            trade.1,
                            verify,
                            settle,
                            sent_by,
                            (
                              s6,
                              s7,
                              sent
                                  ∙ ap (λ (r : TradeL1SettleResult). (ok r.settle_signature, s7))
                                      made,
                            ),
                            (
                              owner,
                              subst
                                  (λ (r : TradeL1SettleResult).
                                    note_commitment p (handed_note owner r.buyer_base_note)
                                    ≡ ok r.buyer_base_note.commitment)
                                  made committed,
                            ),
                            (
                              drop 1 (settle_leaves trade.1),
                              process_ix_data-build_settle_ix rt p ctx.vault_program_id
                                    ctx.tee.public_key trade.1 settle leaves keys hd hs differ
                                    sent_by.settled
                                  ∙ ap
                                      (λ leaf. ok (leaves ++ leaf ∷ drop 1 (settle_leaves trade.1)))
                                      (carried
                                        ∙ ap
                                            (λ (r : TradeL1SettleResult).
                                              r.buyer_base_note.commitment)
                                            made),
                            ),
                          )

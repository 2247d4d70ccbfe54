-- ===== src/Deposit/Replayed.antt =====
-- packages/sdk/src/utxo/deposit.ts against apps/demo/src/lib/dapp/vault-leaf-history.ts: the
-- deposited note as the leaf replay sees it.
use darknyx_capstone_project.Base.{subst, ◌++◌, [], ◌∷◌, List, ◌≡◌, ap, sym, ◌∙◌, length}
use darknyx_capstone_project.History.Deposits.{
  build_deposit_instruction-program_id, process_ix_data-committed, note_of_deposit, account_keys,
}
use darknyx_capstone_project.Client.{
  outside, get_resolved_keys, ClientState, TransactionCallbacks, DarkPoolClient,
}
use darknyx_capstone_project.Deposit.{
  deposit_accounts, plaintext, fetch_leaf_index, check_deposit, note_commitment, DepositReceipt,
  DepositParams, BuiltNote, deposit, build_note,
}
use darknyx_capstone_project.VaultClient.{build_deposit_instruction}
use darknyx_capstone_project.Errors.{Result, ok, ok_injective}
use darknyx_capstone_project.Field.{bn254_to_be32, Note, Poseidon}
use darknyx_capstone_project.Solana.{TransactionInstruction, Runtime}
use darknyx_capstone_project.Bytes.{Bytes, IsU64, be_value}
use darknyx_capstone_project.Base.Int.{pos}
use darknyx_capstone_project.Field.Encoding.{bn254_to_be32_inverse}
use darknyx_capstone_project.Exec.{outcome_value, bind-ok_then, lift}
use darknyx_capstone_project.History.{process_ix_data}
use darknyx_capstone_project.Wire.{anchor_discriminator}
use darknyx_capstone_project.Keys.{Crypto}

module _ {W : Type 0} (rt : Runtime) (p : Poseidon) (c : Crypto) (client : DarkPoolClient W) where
  build_note-bytes :
      (note : Note) (built : BuiltNote) (s s' : ClientState W)
      → build_note rt p c client note s ≡ (ok built, s')
      → (pos (be_value built.nonce_bytes) ≡ note.nonce)
        × (pos (be_value built.blinding_bytes) ≡ note.blinding_r)
        × (pos (be_value built.owner_bytes) ≡ note.owner_commitment)
        × (note_commitment p note ≡ ok built.commitment)
  unfolding build_note
  build_note-bytes note built s s' e =
      bind-ok_then (lift (bn254_to_be32 note.nonce)) _ e λ nonce_bytes s1 e1 r1.
        bind-ok_then (lift (bn254_to_be32 note.blinding_r)) _ r1 λ blinding_bytes s2 e2 r2.
          bind-ok_then (lift (bn254_to_be32 note.owner_commitment)) _ r2 λ owner_bytes s3 e3 r3.
            bind-ok_then (lift (note_commitment p note)) _ r3 λ commitment s4 e4 r4.
              let made = ok_injective (outcome_value r4) in
              (
                ap (λ (b : BuiltNote). pos (be_value b.nonce_bytes)) (sym made)
                    ∙ bn254_to_be32_inverse note.nonce nonce_bytes (outcome_value e1),
                ap (λ (b : BuiltNote). pos (be_value b.blinding_bytes)) (sym made)
                    ∙ bn254_to_be32_inverse note.blinding_r blinding_bytes (outcome_value e2),
                ap (λ (b : BuiltNote). pos (be_value b.owner_bytes)) (sym made)
                    ∙ bn254_to_be32_inverse note.owner_commitment owner_bytes (outcome_value e3),
                outcome_value e4 ∙ ap (λ (b : BuiltNote). ok b.commitment) made,
              )

  -- A deposit that returns sent one instruction of the vault, its receipt carries the signature that
  -- the forwarder gave for it and the commitment of the note that it describes, and with an amount of
  -- 64 bits and a discriminator of eight bytes the leaf replay reads from that instruction exactly
  -- the receipt's commitment.
  pub deposit-process_ix_data :
      (callbacks : TransactionCallbacks W) (params : DepositParams) (receipt : DepositReceipt)
      (s s' : ClientState W) (leaves : List Bytes)
      → length (anchor_discriminator rt "deposit") ≡ 8
      → IsU64 params.amount
      → deposit rt p c client callbacks params s ≡ (ok receipt, s')
      → (ix : TransactionInstruction) × (w : W) × (w' : W) × (client.send_and_confirm (ix ∷ []) w
          ≡ (ok receipt.signature, w'))
        × (ix.program_id ≡ client.program_id)
        × (note_commitment p receipt.note_plaintext ≡ ok receipt.note_commitment)
        × (process_ix_data rt p leaves ix.instruction_data (account_keys ix.keys)
            ≡ ok (leaves ++ receipt.note_commitment ∷ []))
  unfolding deposit note_of_deposit
  deposit-process_ix_data callbacks params receipt s s' leaves disc in_range e =
      bind-ok_then (check_deposit rt p c client params) _ e λ done s1 e1 r1.
        bind-ok_then (get_resolved_keys c client) _ r1 λ keys s2 e2 r2.
          bind-ok_then (callbacks.pre "merkle-position-fetch") _ r2 λ done' s3 e3 r3.
            bind-ok_then (fetch_leaf_index rt p c client) _ r3 λ leaf_index s4 e4 r4.
              bind-ok_then (callbacks.pre "note-build") _ r4 λ d1 s5 e5 r5.
                let note = plaintext rt p c client params keys leaf_index in
                bind-ok_then (build_note rt p c client note) _ r5 λ built s6 e6 r6.
                  bind-ok_then (callbacks.pre "instruction-build") _ r6 λ d2 s7 e7 r7.
                    bind-ok_then
                      (lift (
                        build_deposit_instruction rt client.program_id (deposit_accounts params)
                          params.amount built.owner_bytes built.nonce_bytes built.blinding_bytes))
                      _ r7
                      λ ix s8 e8 r8.
                        bind-ok_then (callbacks.pre "transaction-send") _ r8 λ d3 s9 e9 r9.
                          bind-ok_then (outside (client.send_and_confirm (ix ∷ []))) _ r9
                            λ signature s10 e10 r10.
                              bind-ok_then (callbacks.post "transaction-send" signature) _ r10
                                λ d4 s11 e11 r11.
                                  let made = ok_injective (outcome_value r11) in
                                  let (at_nonce, at_blinding, at_owner, committed) =
                                    build_note-bytes note built s5 s6 e6 in
                                  let built_ix = outcome_value e8 in
                                  let same : note_of_deposit params.token_mint params.amount
                                        built.owner_bytes built.nonce_bytes built.blinding_bytes
                                      ≡ note =
                                    λ i. record {
                                      token_mint = params.token_mint;
                                      amount = params.amount;
                                      owner_commitment = at_owner i;
                                      nonce = at_nonce i;
                                      blinding_r = at_blinding i;
                                    } in
                                  let replayed =
                                    process_ix_data-committed rt p client.program_id
                                      (deposit_accounts params) params.amount built.owner_bytes
                                      built.nonce_bytes built.blinding_bytes ix leaves note
                                      built.commitment disc in_range built_ix same committed in
                                  (
                                    ix,
                                    s9.world,
                                    s10.world,
                                    ap (λ (q : Result Bytes × ClientState W). (q.0, q.1.world)) e10
                                        ∙ ap (λ (r : DepositReceipt). (ok r.signature, s10.world))
                                            made,
                                    build_deposit_instruction-program_id rt client.program_id
                                        (deposit_accounts params) params.amount built.owner_bytes
                                        built.nonce_bytes built.blinding_bytes ix built_ix,
                                    subst
                                        (λ (r : DepositReceipt).
                                          note_commitment p r.note_plaintext ≡ ok r.note_commitment)
                                        made committed,
                                    replayed
                                        ∙ ap
                                            (λ (r : DepositReceipt).
                                              ok (leaves ++ r.note_commitment ∷ []))
                                            made,
                                  )

-- ===== src/Withdraw/Bound.antt =====
-- packages/sdk/src/utxo/withdraw.ts: the instruction that is sent, against what was proved.
use darknyx_capstone_project.Bytes.Words.{wrap64-IsU64}
use darknyx_capstone_project.Base.{refl, sym, arith, ◌∙◌, [], ◌∷◌, subst, ap, length, ℕ, ◌≡◌}
use darknyx_capstone_project.Bytes.{wrap64, le_bytes, IsU64, le_value, be_value, slice, Bytes}
use darknyx_capstone_project.Withdraw.Layout.{withdraw_slice}
use darknyx_capstone_project.Withdraw.{
  withdraw_args, withdraw, run_prover, fetch_path, spend_inputs, check_withdraw, WithdrawReceipt,
  WithdrawParams, prepare_withdraw,
}
use darknyx_capstone_project.VaultClient.{build_withdraw_instruction}
use darknyx_capstone_project.Base.Int.{pos}
use darknyx_capstone_project.Client.{
  outside, get_resolved_keys, InclusionProof, attempt, ResolvedKeys, TransactionCallbacks,
  Groth16ProofBytes, ClientState, SpendInputs, DarkPoolClient,
}
use darknyx_capstone_project.Errors.{
  transaction_send, dark_pool_error, err-ok, err, ok_injective, Result, proof_generation, ok,
  DarkPoolErrorStage,
}
use darknyx_capstone_project.Wire.{anchor_discriminator}
use darknyx_capstone_project.Exec.{restaged, lift, bind-ok_then, outcome_value}
use darknyx_capstone_project.Field.{pubkey_to_fr_pair, nullifier, note_commitment, Note, Poseidon}
use darknyx_capstone_project.Solana.{TransactionInstruction, Runtime}
use darknyx_capstone_project.Keys.{Crypto}

-- What an instruction's data and a receipt say of a note, as the inputs of the proof say it.
pub record SpendsNote (p : Poseidon) (note : Note) (inputs : SpendInputs)
    (proof : Groth16ProofBytes) (receipt : WithdrawReceipt) (data' : Bytes) : Type 0 where
  -- The commitment is the note's, and the nullifier is the commitment's under the proved key.
  pub committed : note_commitment p note ≡ ok (slice 8 32 data')
  pub nullified : nullifier p inputs.spending_key (slice 8 32 data') ≡ ok (slice 40 32 data')
  pub nullifier_proved : be_value (slice 40 32 data') ≡ inputs.nullifier
  pub root_proved : be_value (slice 72 32 data') ≡ inputs.merkle_root
  pub amount_proved : pos (le_value (slice 104 8 data')) ≡ inputs.amount
  pub pi_a_carried : slice 112 64 data' ≡ proof.pi_a
  pub pi_b_carried : slice 176 128 data' ≡ proof.pi_b
  pub pi_c_carried : slice 304 64 data' ≡ proof.pi_c
  pub nullifier_received : slice 40 32 data' ≡ receipt.nullifier
  pub root_received : slice 72 32 data' ≡ receipt.merkle_root

module _ {W : Type 0} (rt : Runtime) (p : Poseidon) (c : Crypto) (client : DarkPoolClient W) where
  -- What the steps before the sending leave behind.
  pub record Prepared (params : WithdrawParams) (ready : TransactionInstruction × Bytes × Bytes)
      : Type 0 where
    pub keys : ResolvedKeys
    pub m_proof : InclusionProof
    pub commitment : Bytes
    pub mint : ℕ × ℕ
    pub proof : Groth16ProofBytes
    pub before : W
    pub after : W
    pub committed : note_commitment p params.note_plaintext ≡ ok commitment
    pub nullified : nullifier p keys.spending_key commitment ≡ ok ready.1
    pub proved :
        client.spend_prove (spend_inputs params keys m_proof ready.1 mint) before
        ≡ (ok proof, after)
    pub built :
        build_withdraw_instruction rt client.program_id
          (withdraw_args rt p c client params m_proof commitment ready.1 proof)
        ≡ ok ready.0
    pub root_kept : m_proof.root ≡ ready.2

  restaged_value :
      {A : Type 0} (stage : DarkPoolErrorStage) (r : Result A × ClientState W) (a : A)
      (s1 : ClientState W)
      → ◌≡◌ {A = Result A × ClientState W} (restaged stage r.0, r.1) (ok a, s1)
      → r ≡ (ok a, s1)
  restaged_value stage (ok x, s) a s1 e = e
  restaged_value stage (err t, s) a s1 e =
      absurd (err-ok {t = dark_pool_error stage} (outcome_value e))

  prepare_withdraw-Prepared :
      (callbacks : TransactionCallbacks W) (params : WithdrawParams)
      (ready : TransactionInstruction × Bytes × Bytes) (s s' : ClientState W)
      → prepare_withdraw rt p c client callbacks params s ≡ (ok ready, s')
      → Prepared params ready
  unfolding prepare_withdraw
  prepare_withdraw-Prepared callbacks params ready s s' e =
      bind-ok_then (check_withdraw rt p c client params) _ e λ d1 s1 e1 r1.
        bind-ok_then (get_resolved_keys c client) _ r1 λ keys s2 e2 r2.
          bind-ok_then (callbacks.pre "merkle-proof-fetch") _ r2 λ d3 s3 e3 r3.
            bind-ok_then (fetch_path rt p c client params.leaf_index) _ r3 λ m_proof s4 e4 r4.
              bind-ok_then (callbacks.pre "note-build") _ r4 λ d5 s5 e5 r5.
                bind-ok_then (lift (note_commitment p params.note_plaintext)) _ r5
                  λ commitment s6 e6 r6.
                    bind-ok_then (lift (nullifier p keys.spending_key commitment)) _ r6
                      λ nullifier_bytes s7 e7 r7.
                        bind-ok_then (callbacks.pre "proof-generation") _ r7 λ d8 s8 e8 r8.
                          bind-ok_then (get_resolved_keys c client) _ r8 λ again s9 e9 r9.
                            bind-ok_then
                              (attempt proof_generation (
                                run_prover rt p c client params keys again m_proof nullifier_bytes))
                              _ r9
                              λ proof s10 e10 r10.
                                bind-ok_then (callbacks.pre "instruction-build") _ r10
                                  λ d11 s11 e11 r11.
                                    bind-ok_then
                                      (lift (
                                        build_withdraw_instruction rt client.program_id (
                                          withdraw_args rt p c client params m_proof commitment
                                            nullifier_bytes proof)))
                                      _ r11
                                      λ ix s12 e12 r12.
                                        bind-ok_then (callbacks.pre "transaction-send") _ r12
                                          λ d13 s13 e13 r13.
                                            let used : ResolvedKeys = record keys {
                                              owner_blinding = again.owner_blinding;
                                            } in
                                            let proved =
                                              restaged_value proof_generation
                                                (run_prover rt p c client params keys again m_proof
                                                  nullifier_bytes s9)
                                                proof s10 e10 in
                                            bind-ok_then
                                              (lift (pubkey_to_fr_pair params.token_mint)) _ proved
                                              λ mint s0 e0 r0.
                                                let made : (ix, nullifier_bytes, m_proof.root)
                                                    ≡ ready =
                                                  ok_injective (outcome_value r13) in
                                                let found : Prepared params
                                                    (ix, nullifier_bytes, m_proof.root) =
                                                  record {
                                                    keys = used;
                                                    m_proof = m_proof;
                                                    commitment = commitment;
                                                    mint = mint;
                                                    proof = proof;
                                                    before = s0.world;
                                                    after = s10.world;
                                                    committed = outcome_value e6;
                                                    nullified = outcome_value e7;
                                                    proved =
                                                        ap
                                                          (λ (q : Result Groth16ProofBytes
                                                            × ClientState W).
                                                            (q.0, q.1.world))
                                                          r0;
                                                    built = outcome_value e12;
                                                    root_kept = refl;
                                                  } in
                                                subst (Prepared params) made found

  Prepared-SpendsNote :
      (params : WithdrawParams) (ready : TransactionInstruction × Bytes × Bytes) (signature : Bytes)
      (done : Prepared params ready)
      → length (anchor_discriminator rt "withdraw") ≡ 8
      → IsU64 params.amount
      → SpendsNote p params.note_plaintext
          (spend_inputs params done.keys done.m_proof ready.1 done.mint)
          done.proof
          (record { signature = signature; nullifier = ready.1; merkle_root = ready.2 })
          ready.0.instruction_data
  Prepared-SpendsNote params ready signature done hd in_range =
      let data' : Bytes = ready.0.instruction_data in
      let q = withdraw_args rt p c client params done.m_proof done.commitment ready.1 done.proof in
      let at_commitment : slice 8 32 data' ≡ done.commitment =
        withdraw_slice rt client.program_id q ready.0 1 hd done.built (omega arith) in
      let at_nullifier : slice 40 32 data' ≡ ready.1 =
        withdraw_slice rt client.program_id q ready.0 2 hd done.built (omega arith) in
      let at_root : slice 72 32 data' ≡ done.m_proof.root =
        withdraw_slice rt client.program_id q ready.0 3 hd done.built (omega arith) in
      let at_amount : slice 104 8 data' ≡ le_bytes 8 (wrap64 params.amount) =
        withdraw_slice rt client.program_id q ready.0 4 hd done.built (omega arith) in
      record {
        committed = done.committed ∙ ap ok (sym at_commitment);
        nullified =
            ap (nullifier p done.keys.spending_key) at_commitment
            ∙ done.nullified
            ∙ ap ok (sym at_nullifier);
        nullifier_proved = ap be_value at_nullifier;
        root_proved = ap be_value at_root;
        amount_proved = ap (λ b. pos (le_value b)) at_amount ∙ wrap64-IsU64 params.amount in_range;
        pi_a_carried = withdraw_slice rt client.program_id q ready.0 5 hd done.built (omega arith);
        pi_b_carried = withdraw_slice rt client.program_id q ready.0 6 hd done.built (omega arith);
        pi_c_carried = withdraw_slice rt client.program_id q ready.0 7 hd done.built (omega arith);
        nullifier_received = at_nullifier;
        root_received = at_root ∙ done.root_kept;
      }

  -- A withdrawal that returns, with an amount of 64 bits and a discriminator of eight bytes, had the
  -- prover prove exactly what the instruction that it sent says: the instruction's root, nullifier and
  -- amount are the proof's public inputs and the receipt's, its commitment is the note's, its
  -- nullifier is that commitment's under the proved spending key, and it carries the prover's proof.
  -- The receipt's signature is the forwarder's for this instruction.
  pub withdraw-SpendsNote :
      (callbacks : TransactionCallbacks W) (params : WithdrawParams) (receipt : WithdrawReceipt)
      (s s' : ClientState W)
      → length (anchor_discriminator rt "withdraw") ≡ 8
      → IsU64 params.amount
      → withdraw rt p c client callbacks params s ≡ (ok receipt, s')
      → (ix : TransactionInstruction) × (inputs : SpendInputs) × (proof : Groth16ProofBytes)
        × ((w : W) × (w' : W) × (client.spend_prove inputs w ≡ (ok proof, w')))
        × ((w : W) × (w' : W) × (client.send_and_confirm (ix ∷ []) w ≡ (ok receipt.signature, w')))
        × SpendsNote p params.note_plaintext inputs proof receipt ix.instruction_data
  unfolding withdraw
  withdraw-SpendsNote callbacks params receipt s s' hd in_range e =
      bind-ok_then (prepare_withdraw rt p c client callbacks params) _ e λ ready s1 e1 r1.
        bind-ok_then (attempt transaction_send (outside (client.send_and_confirm (ready.0 ∷ [])))) _
          r1
          λ signature s2 e2 r2.
            bind-ok_then (callbacks.post "transaction-send" signature) _ r2 λ d3 s3 e3 r3.
              let made = ok_injective (outcome_value r3) in
              let done = prepare_withdraw-Prepared callbacks params ready s s1 e1 in
              let sent =
                restaged_value transaction_send
                  (outside (client.send_and_confirm (ready.0 ∷ [])) s1) signature s2 e2 in
              (
                ready.0,
                spend_inputs params done.keys done.m_proof ready.1 done.mint,
                done.proof,
                (done.before, done.after, done.proved),
                (
                  s1.world,
                  s2.world,
                  ap (λ (q : Result Bytes × ClientState W). (q.0, q.1.world)) sent
                      ∙ ap (λ (r : WithdrawReceipt). (ok r.signature, s2.world)) made,
                ),
                subst
                    (λ (r : WithdrawReceipt).
                      SpendsNote p params.note_plaintext
                        (spend_inputs params done.keys done.m_proof ready.1 done.mint) done.proof r
                        ready.0.instruction_data)
                    made (Prepared-SpendsNote params ready signature done hd in_range),
              )

-- ===== src/Withdraw/Staged.antt =====
-- packages/sdk/src/utxo/withdraw.ts: which failures leave the network untouched.
use Prim.Native.String.{String}
use darknyx_capstone_project.Errors.{
  err_injective, proof_generation, merkle_proof_fetch, err-ok, Result, parameter, transaction_send,
  dark_pool_error, err, ok, Thrown,
}
use darknyx_capstone_project.Withdraw.{
  withdraw_args, spend_inputs, run_prover, WithdrawReceipt, same_ℤ, fetch_path, check_withdraw,
  WithdrawParams, withdraw, prepare_withdraw,
}
use darknyx_capstone_project.VaultClient.{build_withdraw_instruction}
use darknyx_capstone_project.Exec.{lift, throw_unless, restaged, ◌>>◌, ◌>>=◌, pure, continue}
use darknyx_capstone_project.Base.Int.{ℤ, pos, leb_ℤ}
use darknyx_capstone_project.Bytes.{Bytes}
use darknyx_capstone_project.Base.{
  ◌&&◌, ◌==◌, not, length, subst, [], ◌∷◌, sym, ap, Bool-cases, inr, inl, false, ◌⊎◌, true, ◌≡◌,
}
use darknyx_capstone_project.Field.{nullifier, note_commitment, pubkey_to_fr_pair, Poseidon}
use darknyx_capstone_project.Client.{
  attempt, SpendInputs, outside, get_resolved_keys, ClientState, TransactionCallbacks,
  DarkPoolClient,
}
use darknyx_capstone_project.Client.Keeping.{throw_unless-Keeps, continue-Keeps, Keeps}
use darknyx_capstone_project.Keys.{Crypto}
use darknyx_capstone_project.Solana.{TransactionInstruction, Runtime}

module _ {W : Type 0} (rt : Runtime) (p : Poseidon) (c : Crypto) (client : DarkPoolClient W) where
  -- A withdrawal of no positive amount, or of another amount than its note's, is refused with stage
  -- "parameter" before a key is resolved, a callback called or the network used: the state is left as
  -- it was.
  pub withdraw-parameter :
      (callbacks : TransactionCallbacks W) (params : WithdrawParams) (s : ClientState W)
      → (leb_ℤ params.amount (pos 0) ≡ true)
        ⊎ (same_ℤ params.amount params.note_plaintext.amount ≡ false)
      → withdraw rt p c client callbacks params s ≡ (err (dark_pool_error parameter), s)
  unfolding withdraw prepare_withdraw check_withdraw
  withdraw-parameter callbacks params s (inl h) = rw h
  withdraw-parameter callbacks params s (inr h) = elim (Bool-cases (leb_ℤ params.amount (pos 0))) [
    | inl bad ↦ rw bad
    | inr good ↦ rw (good, h)
  ]

  -- A property of states that every call but the forwarder's leaves as it is.
  pub record IsUnsent (callbacks : TransactionCallbacks W) (P : ClientState W → Type 0)
      : Type 0 where
    pub by_keys : Keeps P (get_resolved_keys c client)
    pub by_pre : (step : String) → Keeps P (callbacks.pre step)
    pub by_path : (i : ℤ) → Keeps P (outside (client.get_inclusion_proof i))
    pub by_prover : (inputs : SpendInputs) → Keeps P (outside (client.spend_prove inputs))

  check_withdraw-Keeps :
      (params : WithdrawParams) (P : ClientState W → Type 0)
      → Keeps P (check_withdraw rt p c client params)
  unfolding check_withdraw
  check_withdraw-Keeps params P =
      continue-Keeps P
        (throw_unless (not (leb_ℤ params.amount (pos 0))) (dark_pool_error parameter)) _
        (throw_unless-Keeps P _ _)
        (λ d. throw_unless-Keeps P (same_ℤ params.amount params.note_plaintext.amount) _)

  fetch_path-Keeps :
      (i : ℤ) (P : ClientState W → Type 0)
      → Keeps P (outside (client.get_inclusion_proof i))
      → Keeps P (fetch_path rt p c client i)
  unfolding fetch_path
  fetch_path-Keeps i P kept =
      continue-Keeps P (attempt merkle_proof_fetch (outside (client.get_inclusion_proof i))) _ kept
        λ m_proof.
          continue-Keeps P
            (throw_unless (length m_proof.siblings == 20 && length m_proof.path_indices == 20)
              (dark_pool_error merkle_proof_fetch))
            _ (throw_unless-Keeps P _ _) λ d. λ s h. h

  prepare_withdraw-Keeps :
      (callbacks : TransactionCallbacks W) (params : WithdrawParams) (P : ClientState W → Type 0)
      → IsUnsent callbacks P
      → Keeps P (prepare_withdraw rt p c client callbacks params)
  unfolding prepare_withdraw
  prepare_withdraw-Keeps callbacks params P u =
      continue-Keeps P (check_withdraw rt p c client params) _ (check_withdraw-Keeps params P) λ d1.
        continue-Keeps P (get_resolved_keys c client) _ u.by_keys λ keys.
          continue-Keeps P (callbacks.pre "merkle-proof-fetch") _ (u.by_pre _) λ d2.
            continue-Keeps P (fetch_path rt p c client params.leaf_index) _
              (fetch_path-Keeps params.leaf_index P (u.by_path params.leaf_index))
              λ m_proof. continue-Keeps P (callbacks.pre "note-build") _ (u.by_pre _) λ d3.
                continue-Keeps P (lift (note_commitment p params.note_plaintext)) _ (λ s h. h)
                  λ commitment.
                    continue-Keeps P (lift (nullifier p keys.spending_key commitment)) _ (λ s h. h)
                      λ nullifier_bytes.
                        continue-Keeps P (callbacks.pre "proof-generation") _ (u.by_pre _) λ d4.
                          continue-Keeps P (get_resolved_keys c client) _ u.by_keys λ again.
                            continue-Keeps P
                              (attempt proof_generation (
                                run_prover rt p c client params keys again m_proof nullifier_bytes))
                              _
                              (continue-Keeps P (lift (pubkey_to_fr_pair params.token_mint)) _
                                (λ s h. h)
                                (λ mint. u.by_prover (
                                  spend_inputs params
                                    (record keys { owner_blinding = again.owner_blinding }) m_proof
                                    nullifier_bytes mint)))
                              λ proof.
                                continue-Keeps P (callbacks.pre "instruction-build") _ (u.by_pre _)
                                  λ d5.
                                    continue-Keeps P
                                      (lift (
                                        build_withdraw_instruction rt client.program_id (
                                          withdraw_args rt p c client params m_proof commitment
                                            nullifier_bytes proof)))
                                      _ (λ s h. h)
                                      λ ix.
                                        continue-Keeps P (callbacks.pre "transaction-send") _
                                          (u.by_pre _) λ d6. λ s h. h

  -- A failed withdrawal whose exception is not of stage "transaction-send" was not sent: what every
  -- call but the forwarder's leaves as it is holds as before, as long as the `post` callback does not
  -- throw.
  pub withdraw-unsent :
      (callbacks : TransactionCallbacks W) (params : WithdrawParams) (P : ClientState W → Type 0)
      (s s' : ClientState W) (t : Thrown)
      → IsUnsent callbacks P
      → ((sig : Bytes) (s1 : ClientState W) → (callbacks.post "transaction-send" sig s1).0 ≡ ok tt)
      → P s
      → withdraw rt p c client callbacks params s ≡ (err t, s')
      → P s' ⊎ (t ≡ dark_pool_error transaction_send)
  unfolding withdraw
  withdraw-unsent callbacks params P s s' t u quiet h e =
      by_prepared (prepare_withdraw rt p c client callbacks params s)
        (prepare_withdraw-Keeps callbacks params P u s h) e
    where
      receipt_of : TransactionInstruction × Bytes × Bytes → Bytes → WithdrawReceipt
      receipt_of ready signature = record {
        signature = signature;
        nullifier = ready.1;
        merkle_root = ready.2;
      }

      finished :
          (ready : TransactionInstruction × Bytes × Bytes) (signature : Bytes)
          (r : Result (Unit {0}) × ClientState W)
          → r.0 ≡ ok tt
          → continue r.0 (λ _. pure (receipt_of ready signature)) r.1 ≡ (err t, s')
          → ⊥
      finished ready signature (ok x, s1) q k =
          err-ok (ap (λ (o : Result WithdrawReceipt × ClientState W). o.0) (sym k))
      finished ready signature (err x, s1) q k = err-ok {t = x} q

      by_sent :
          (ready : TransactionInstruction × Bytes × Bytes) (r : Result Bytes × ClientState W)
          → continue
              (restaged transaction_send r.0)
              (λ signature.
                callbacks.post "transaction-send" signature >> pure (receipt_of ready signature))
              r.1
            ≡ (err t, s')
          → t ≡ dark_pool_error transaction_send
      by_sent ready (err x, s1) k =
          err_injective (ap (λ (o : Result WithdrawReceipt × ClientState W). o.0) (sym k))
      by_sent ready (ok signature, s1) k = absurd (
          finished ready signature (callbacks.post "transaction-send" signature s1)
            (quiet signature s1) k)

      by_prepared :
          (r : Result (TransactionInstruction × Bytes × Bytes) × ClientState W)
          → P r.1
          → continue r.0
              (λ ready.
                attempt transaction_send (outside (client.send_and_confirm (ready.0 ∷ [])))
                >>= λ signature.
                    callbacks.post "transaction-send" signature
                    >> pure (receipt_of ready signature))
              r.1
            ≡ (err t, s')
          → P s' ⊎ (t ≡ dark_pool_error transaction_send)
      by_prepared (err x, s1) k q =
          inl (subst P (ap (λ (o : Result WithdrawReceipt × ClientState W). o.1) q) k)
      by_prepared (ok ready, s1) k q =
          inr (by_sent ready (outside (client.send_and_confirm (ready.0 ∷ [])) s1) q)

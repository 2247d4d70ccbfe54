-- ===== src/Orders/Traffic.antt =====
-- packages/sdk/src/orders/submit-order.ts and packages/sdk/src/orders/cancel-order.ts: what the order
-- functions send through a session.
use darknyx_capstone_project.Base.{
  ℕ, ◌+◌, ◌≤◌, Bool, true, false, Option, none, some, ◌≡◌, refl, arith, not, ◌||◌,
}
use darknyx_capstone_project.Base.Int.{pos, ltb_ℤ}
use darknyx_capstone_project.Errors.{
  Result, ok, err, dark_pool_error, other_error, auth_token_fetch, attestation_verify,
  instruction_build,
}
use darknyx_capstone_project.Bytes.{Bytes}
use darknyx_capstone_project.Exec.{
  Exec, continue, ◌>>=◌, ◌>>◌, pure, throw_unless, lift, with_stage, restaged,
}
use darknyx_capstone_project.Solana.{Runtime, PublicKey, TransactionInstruction}
use darknyx_capstone_project.Session.{
  PerSessionManager, Environment, Session, get_token, send_instruction, live_manager,
}
use darknyx_capstone_project.Session.Tokens.{
  submissions, Submits, Submits-get_token, Submits-send_instruction,
}
use darknyx_capstone_project.MatchingEngine.{
  bad_slot, build_submit_order_instruction, build_cancel_order_instruction,
}
use darknyx_capstone_project.Orders.Params.{OrderParams, validate_order}
use darknyx_capstone_project.Orders.{
  OrderReceipt, submit_order, cancel_order, authorise, send_with_retry, retry_send, submit_args,
}

module _ {S : Type 0} (rt : Runtime) (m : PerSessionManager S) where
  -- A slot index from 4 to 255 passes `cancelOrder`'s own check and is refused by the instruction
  -- builder: once a token was had, an exception that is no `DarkPoolError` ends the call, in the
  -- session that authorisation left.
  pub cancel_order_unstaged :
      (program trading_key market jwt : Bytes) (slot : ℕ) (s : S)
      → 4 ≤ slot
      → slot ≤ 255
      → (authorise rt m s).0 ≡ ok jwt
      → cancel_order rt m (some program) trading_key market (pos slot) s
        ≡ (err other_error, (authorise rt m s).1)
  unfolding cancel_order
  cancel_order_unstaged program trading_key market jwt slot s lo hi had =
      let own : not (ltb_ℤ (pos slot) (pos 0) || ltb_ℤ (pos 255) (pos slot)) ≡ true =
        ground arith in
      let builder : build_cancel_order_instruction rt program trading_key market (pos slot)
          ≡ err other_error =
        unfold build_cancel_order_instruction in
        rw (let bad : bad_slot (pos slot) ≡ true = ground arith in bad) in
      rw own (rw had (rw builder))

-- `m` adds at most `n` submissions.
record SubmitsAtMost {A : Type 0} (n : ℕ) (m : Exec Session A) : Type 0 where
  bound : (s : Session) → submissions (m s).1.sent ≤ submissions s.sent + n

module _ {A B : Type 0} where
  AtMost-bind :
      (n : ℕ) (m : Exec Session A) (f : A → Exec Session B)
      → Submits 0 m
      → ((a : A) → SubmitsAtMost n (f a))
      → SubmitsAtMost n (m >>= f)
  AtMost-bind n m f h k = record { bound = λ s. omega (arith, h.at s, by_result (m s).0 (m s).1) }
    where
      by_result :
          (r : Result A) (s' : Session)
          → submissions (continue r f s').1.sent ≤ submissions s'.sent + n
      by_result (ok a) s' = (k a).bound s'
      by_result (err e) s' = omega arith

  AtMost-lift :
      (n : ℕ) (r : Result A) (f : A → Exec Session B)
      → ((a : A) → SubmitsAtMost n (f a))
      → SubmitsAtMost n (lift r >>= f)
  AtMost-lift n r f k = AtMost-bind n (lift r) f (record { at = λ s. omega arith }) k

module _ (rt : Runtime) (env : Environment) where
  Submits-authorise : Submits 0 (authorise rt (live_manager env))
  unfolding authorise
  Submits-authorise = record { at = λ s. after_check s (env.attestation_verifier s.sent) }
    where
      after_check :
          (s : Session) (answer : Result Bool)
          → submissions
              (continue answer
                (λ attest_ok. do
                  throw_unless attest_ok (dark_pool_error attestation_verify)
                  with_stage auth_token_fetch (get_token env))
                s).1.sent
            ≡ submissions s.sent + 0
      after_check s (err e) = omega arith
      after_check s (ok false) = omega arith
      after_check s (ok true) = (Submits-get_token env).at s

  AtMost-retry_send :
      (ix : TransactionInstruction) (r : Result Bytes)
      → SubmitsAtMost 1 (retry_send rt (live_manager env) ix r)
  unfolding retry_send
  AtMost-retry_send ix (ok signature) = record { bound = λ s. omega arith }
  AtMost-retry_send ix (err other_error) = record { bound = λ s. omega arith }
  AtMost-retry_send ix (err (dark_pool_error auth_token_fetch)) =
      AtMost-bind 1 (get_token env) (send_instruction env ix) (Submits-get_token env)
        (λ jwt2. record { bound = λ s. omega (arith, (Submits-send_instruction env ix jwt2).at s) })
  AtMost-retry_send ix (err (dark_pool_error _)) = record { bound = λ s. omega arith }

  AtMost-send_with_retry :
      (ix : TransactionInstruction) (jwt : Bytes)
      → SubmitsAtMost 2 (send_with_retry rt (live_manager env) ix jwt)
  unfolding send_with_retry
  AtMost-send_with_retry ix jwt = record {
    bound = λ s.
        let first = send_instruction env ix jwt s in
        omega (
          arith,
          (Submits-send_instruction env ix jwt).at s,
          (AtMost-retry_send ix first.0).bound first.1,
        );
  }

  -- A call of `submitOrder` over the live manager submits at most twice, whatever the server, the
  -- signer and the attestation verifier do, and whether the call returns or throws.
  pub submit_order_at_most_twice :
      (program : Option PublicKey) (p : OrderParams) (s : Session)
      → submissions (submit_order rt (live_manager env) program p s).1.sent ≤ submissions s.sent + 2
  unfolding submit_order
  submit_order_at_most_twice none p s = omega arith
  submit_order_at_most_twice (some program) p s =
      (AtMost-lift 2 (validate_order p) _ λ _.
          AtMost-bind 2 (authorise rt (live_manager env)) _ Submits-authorise λ jwt.
            AtMost-lift 2
              (restaged instruction_build
                (build_submit_order_instruction rt (submit_args program p)))
              _
              λ built. record {
                bound = λ s'. omega (
                  arith,
                  (AtMost-send_with_retry built.0 jwt).bound s',
                  receipt (send_with_retry rt (live_manager env) built.0 jwt s') built.1,
                );
              }).bound
        s
    where
      receipt :
          (r : Result Bytes × Session) (pda : PublicKey)
          → submissions
              (continue {B = OrderReceipt} r.0
                (λ sig. pure (record { signature = sig; pending_order_pda = pda }))
                r.1).1.sent
            ≡ submissions r.1.sent
      receipt (ok sig, s') pda = refl
      receipt (err e, s') pda = refl

-- ===== src/Orders.antt =====
-- packages/sdk/src/orders/submit-order.ts and packages/sdk/src/orders/cancel-order.ts, over any
-- session manager. The client is its matching-engine program id, which may be missing.
pub mod Params
pub mod Validation
pub mod Traffic
pub mod Attested
pub mod Retried
use darknyx_capstone_project.Base.{Option, none, some, not, ◌||◌}
use darknyx_capstone_project.Base.Int.{ℤ, pos, ltb_ℤ}
use darknyx_capstone_project.Errors.{
  Result, ok, err, dark_pool_error, other_error, parameter, attestation_verify, auth_token_fetch,
  instruction_build, transaction_send,
}
use darknyx_capstone_project.Bytes.{Bytes}
use darknyx_capstone_project.Solana.{Runtime, PublicKey, TransactionInstruction}
use darknyx_capstone_project.Exec.{
  Exec, ◌>>=◌, ◌>>◌, pure, raise, lift, throw_unless, with_stage, restaged,
}
use darknyx_capstone_project.Session.{PerSessionManager}
use darknyx_capstone_project.MatchingEngine.{
  SubmitOrderArgs, build_submit_order_instruction, build_cancel_order_instruction,
}
use darknyx_capstone_project.Orders.Params.{
  OrderParams, side_code, min_fill, order_kind, validate_order,
}

pub record OrderReceipt : Type 0 where
  pub signature : Bytes
  pub pending_order_pda : PublicKey

abbrev pub submit_args : PublicKey → OrderParams → SubmitOrderArgs
submit_args program p = record {
  program_id = program;
  trading_key = p.trading_key;
  market = p.market;
  slot_idx = p.slot_idx;
  side = side_code p.side;
  amount = p.amount;
  price_limit = p.price_limit;
  note_amount = p.note_amount;
  expiry_slot = p.expiry_slot;
  order_id = p.order_id;
  note_commitment = p.note_commitment;
  user_commitment = p.user_commitment;
  order_type = order_kind p;
  min_fill_qty = min_fill p;
}

module _ {S : Type 0} (rt : Runtime) (m : PerSessionManager S) where
  -- The `try` around the first send, and the one retry that its `catch` makes after an
  -- "auth-token-fetch": what the retry throws is not caught.
  unfoldable pub retry_send : TransactionInstruction → Result Bytes → Exec S Bytes
  retry_send ix (ok signature) = pure signature
  retry_send ix (err other_error) = raise (dark_pool_error transaction_send)
  retry_send ix (err (dark_pool_error auth_token_fetch)) = do
    jwt2 ← m.get_token
    m.send_instruction ix jwt2
  retry_send ix (err (dark_pool_error stage)) = raise (dark_pool_error stage)

  unfoldable pub send_with_retry : TransactionInstruction → Bytes → Exec S Bytes
  unfolding retry_send
  send_with_retry ix jwt s =
      let first = m.send_instruction ix jwt s in retry_send ix first.0 first.1

  -- Stages 1 and 2: attestation, then the token.
  unfoldable pub authorise : Exec S Bytes
  authorise = do
    attest_ok ← m.verify_attestation
    throw_unless attest_ok (dark_pool_error attestation_verify)
    with_stage auth_token_fetch m.get_token

  unfoldable pub submit_order : Option PublicKey → OrderParams → Exec S OrderReceipt
  unfolding authorise send_with_retry validate_order build_submit_order_instruction
  submit_order none p = raise (dark_pool_error parameter)
  submit_order (some program) p = do
    lift (validate_order p)
    jwt ← authorise
    built ←
        lift
          (restaged instruction_build (build_submit_order_instruction rt (submit_args program p)))
    signature ← send_with_retry built.0 jwt
    pure (record { signature = signature; pending_order_pda = built.1 })

  -- `buildCancelOrderInstruction` is called outside every `try`.
  unfoldable pub cancel_order : Option PublicKey → PublicKey → PublicKey → ℤ → Exec S Bytes
  unfolding authorise send_with_retry build_cancel_order_instruction
  cancel_order none trading_key market slot_idx = raise (dark_pool_error parameter)
  cancel_order (some program) trading_key market slot_idx = do
    throw_unless (not (ltb_ℤ slot_idx (pos 0) || ltb_ℤ (pos 255) slot_idx))
        (dark_pool_error parameter)
    jwt ← authorise
    ix ← lift (build_cancel_order_instruction rt program trading_key market slot_idx)
    send_with_retry ix jwt

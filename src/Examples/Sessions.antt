-- ===== src/Examples/Sessions.antt =====
-- The order functions' theorems at concrete orders, managers and servers.
use darknyx_capstone_project.Orders.Retried.{send_with_retry-IsSent, IsFirst, IsRetried}
use darknyx_capstone_project.Bytes.{same_bytes}
use darknyx_capstone_project.Orders.Attested.{attested_or_IsRefused, IsRefused}
use darknyx_capstone_project.Orders.Traffic.{cancel_order_unstaged, submit_order_at_most_twice}
use darknyx_capstone_project.Base.{
  if◌then◌else◌, ◌≤◌, ◌+◌, replicate, ◌≡◌, none, false, ◌⊎◌, true, some, arith, Bool, refl, ℕ, [],
  ◌∷◌,
}
use darknyx_capstone_project.Session.{
  challenge, token_exchange, get_token, submit_ix, send_instruction, live_manager,
  PerSessionManager, Session, Reply, Environment,
}
use darknyx_capstone_project.Orders.Validation.{submit_order_checks, IsValidOrder}
use darknyx_capstone_project.Errors.{Result, parameter, other_error, dark_pool_error, err, ok}
use darknyx_capstone_project.Examples.{toy_runtime, leaf_of}
use darknyx_capstone_project.Orders.Params.{bid, OrderParams}
use darknyx_capstone_project.Orders.{cancel_order, submit_order, send_with_retry, authorise}
use darknyx_capstone_project.Base.Int.{pos}
use darknyx_capstone_project.Solana.{TransactionInstruction}
use darknyx_capstone_project.Session.Tokens.{submissions}

abbrev sample_order : OrderParams
sample_order = record {
  trading_key = leaf_of 1;
  market = leaf_of 2;
  slot_idx = pos 3;
  user_commitment = leaf_of 4;
  note_commitment = leaf_of 5;
  amount = pos 10;
  price_limit = pos 20;
  side = bid;
  note_amount = pos 200;
  expiry_slot = pos 1000;
  order_id = replicate 16 6;
  order_type = none;
  min_fill_qty = some (pos 10);
}

sample_order-IsValidOrder : IsValidOrder sample_order
sample_order-IsValidOrder = record {
  note_size = refl;
  user_size = refl;
  id_size = refl;
  amount_positive = omega arith;
  price_positive = omega arith;
  slot_in_range = omega arith;
  note_covers = omega arith;
  fill_in_range = omega arith;
}

-- The note covers less than the order's notional.
abbrev uncovered_order : OrderParams
uncovered_order = record sample_order { note_amount = pos 199 }

-- A manager whose state counts its calls, with a given answer to the attestation check.
abbrev counting_manager : Bool → PerSessionManager ℕ
counting_manager attested = record {
  verify_attestation = λ s. (ok attested, s + 1);
  get_token = λ s. (ok (leaf_of 7), s + 1);
  send_instruction = λ ix jwt s. (ok (leaf_of 8), s + 1);
}

-- A server that refuses every token.
abbrev refusal : Reply
refusal = record {
  status = 401;
  parses = true;
  nonce = leaf_of 1;
  token = none;
  rpc_error = false;
  rpc_result = none;
}

abbrev refusing : Environment
refusing = record {
  server = λ sent req. some refusal;
  sign_nonce = λ nonce. ok nonce;
  attestation_verifier = λ sent. ok true;
}

abbrev cached_session : Session
cached_session = record { cached_token = some (leaf_of 9); sent = [] }

abbrev sample_ix : TransactionInstruction
sample_ix = record { program_id = leaf_of 3; keys = []; instruction_data = 1 ∷ 2 ∷ [] }

submit_order_at_most_twice_example :
    submissions
      (submit_order toy_runtime
        (live_manager refusing)
        (some (leaf_of 3))
        sample_order
        cached_session).1.sent
    ≤ submissions cached_session.sent + 2
submit_order_at_most_twice_example =
    submit_order_at_most_twice toy_runtime refusing (some (leaf_of 3)) sample_order cached_session

submit_order_checks_example :
    IsValidOrder uncovered_order
    ⊎ (submit_order toy_runtime (counting_manager true) (some (leaf_of 3)) uncovered_order 0
        ≡ (err (dark_pool_error parameter), 0))
submit_order_checks_example =
    submit_order_checks toy_runtime (counting_manager true) (leaf_of 3) uncovered_order 0

attested_or_IsRefused_example :
    (◌≡◌ {A = Result Bool} (ok false) (ok true))
    ⊎ (IsRefused toy_runtime
          (counting_manager false)
          0
          (submit_order toy_runtime (counting_manager false) (some (leaf_of 3)) sample_order 0)
        × IsRefused toy_runtime (counting_manager false) 0 (
            cancel_order toy_runtime
              (counting_manager false)
              (some (leaf_of 3))
              (leaf_of 1)
              (leaf_of 2)
              (pos 2)
              0))
attested_or_IsRefused_example =
    attested_or_IsRefused toy_runtime (counting_manager false) (some (leaf_of 3)) sample_order
      (leaf_of 1) (leaf_of 2) (pos 2) 0

cancel_order_unstaged_example :
    cancel_order toy_runtime
      (counting_manager true)
      (some (leaf_of 3))
      (leaf_of 1)
      (leaf_of 2)
      (pos 4)
      0
    ≡ (err other_error, 2)
unfolding authorise
cancel_order_unstaged_example =
    cancel_order_unstaged toy_runtime (counting_manager true) (leaf_of 3) (leaf_of 1) (leaf_of 2)
      (leaf_of 7) 4 0 (omega arith) (omega arith) refl

-- A server that has expired the token `leaf_of 9`, issues `leaf_of 7` and accepts it.
abbrev accepting : Reply
accepting = record {
  status = 200;
  parses = true;
  nonce = leaf_of 1;
  token = some (leaf_of 7);
  rpc_error = false;
  rpc_result = some (leaf_of 8);
}

abbrev expiring : Environment
expiring = record {
  server = λ sent req. elim req [
    | challenge ↦ some accepting
    | token_exchange nonce signature ↦ some accepting
    | submit_ix body jwt ↦ (if same_bytes jwt (leaf_of 9) then some refusal else some accepting)
  ];
  sign_nonce = λ nonce. ok nonce;
  attestation_verifier = λ sent. ok true;
}

abbrev retried_session : Session
retried_session =
    (send_with_retry toy_runtime (live_manager expiring) sample_ix (leaf_of 9) cached_session).1

sent_lem :
    send_with_retry toy_runtime (live_manager expiring) sample_ix (leaf_of 9) cached_session
    ≡ (ok (leaf_of 8), retried_session)
unfolding send_with_retry send_instruction get_token
sent_lem = refl

send_with_retry-IsSent_example :
    IsFirst toy_runtime expiring sample_ix (leaf_of 9) (leaf_of 8) cached_session retried_session
    ⊎ IsRetried toy_runtime expiring sample_ix
        (leaf_of 9)
        (leaf_of 8)
        cached_session
        retried_session
send_with_retry-IsSent_example =
    send_with_retry-IsSent toy_runtime expiring sample_ix (leaf_of 9) (leaf_of 8) cached_session
      retried_session sent_lem

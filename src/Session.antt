-- ===== src/Session.antt =====
-- packages/sdk/src/per/session-manager.ts and packages/sdk/src/per/attestation.ts: the manager's
-- interface, and `LivePerSessionManager` over an HTTP server that answers as it likes. The state of
-- a session is the cached token and the requests that were sent, oldest first.
pub mod Tokens
pub mod Steps
pub mod Outcomes
use darknyx_capstone_project.Base.{
  ℕ, List, [], ◌∷◌, ◌++◌, Bool, true, false, Option, none, some, ltb, leb, ◌==◌, ◌&&◌,
  if◌then◌else◌, length, get_or,
}
use darknyx_capstone_project.Errors.{
  Result, ok, err, dark_pool_error, other_error, auth_token_fetch, transaction_send,
}
use darknyx_capstone_project.Bytes.{Bytes}
use darknyx_capstone_project.Exec.{Exec, ◌>>=◌, ◌>>◌, pure, raise, lift, throw_unless}
use darknyx_capstone_project.Solana.{TransactionInstruction}

-- `IPerSessionManager`, over the manager's own state. A token and a signature are texts.
pub record PerSessionManager (S : Type 0) : Type 0 where
  pub verify_attestation : Exec S Bool
  pub get_token : Exec S Bytes
  pub send_instruction : TransactionInstruction → Bytes → Exec S Bytes

pub data Request : Type 0 where
  challenge : Request
  token_exchange : Bytes → Bytes → Request
  submit_ix : Bytes → Bytes → Request

-- An answer: the status, whether the body parses, and what the code reads of the body; a missing
-- and an empty text are `none`.
pub record Reply : Type 0 where
  pub status : ℕ
  pub parses : Bool
  pub nonce : Bytes
  pub token : Option Bytes
  pub rpc_error : Bool
  pub rpc_result : Option Bytes

-- The world: the server, which sees the requests so far and may fail to answer, the user's
-- `signNonce`, and the injected `attestationVerifier`.
pub record Environment : Type 0 where
  pub server : List Request → Request → Option Reply
  pub sign_nonce : Bytes → Result Bytes
  pub attestation_verifier : List Request → Result Bool

pub record Session : Type 0 where
  pub cached_token : Option Bytes
  pub sent : List Request

-- `res.ok`.
abbrev pub is_success : Reply → Bool
is_success r = leb 200 r.status && leb r.status 299

-- `defaultAttestationVerifier`, after the fetch: the status, the quote's size, its first byte.
unfoldable pub default_attestation : Bool → Bytes → Bool
default_attestation res_ok quote =
    if res_ok then (if ltb (length quote) 64 then false else get_or quote 0 0 == 4) else false

-- `await res.json()`.
abbrev pub parsed : Reply → Exec Session Reply
parsed r = do throw_unless r.parses other_error; pure r

unfoldable pub invalidate_token : Exec Session (Unit {0})
invalidate_token s = (ok tt, record s { cached_token = none })

abbrev pub the_token : Option Bytes → Exec Session Bytes
the_token none = raise (dark_pool_error auth_token_fetch)
the_token (some t) = pure t

-- `this.cachedToken = token`.
abbrev pub cache : Bytes → Exec Session Bytes
cache t s = (ok t, record s { cached_token = some t })

abbrev pub the_result : Option Bytes → Exec Session Bytes
the_result none = raise (dark_pool_error transaction_send)
the_result (some sig) = pure sig

-- What `sendInstruction` does with an answer that is not 401.
abbrev pub read_result : Reply → Exec Session Bytes
read_result res = do
  throw_unless (is_success res) (dark_pool_error transaction_send)
  json ← parsed res
  throw_unless (if json.rpc_error then false else true) (dark_pool_error transaction_send)
  the_result json.rpc_result

module _ (env : Environment) where
  -- `fetch`: it throws where there is no answer.
  unfoldable pub fetch : Request → Exec Session Reply
  fetch req s =
      let s' : Session = record s { sent = s.sent ++ req ∷ [] } in
      elim (env.server s.sent req) [ none ↦ (err other_error, s') | some reply ↦ (ok reply, s') ]

  unfoldable pub fetch_new_token : Exec Session Bytes
  unfolding fetch
  fetch_new_token = do
    nonce_res ← fetch challenge
    throw_unless (is_success nonce_res) (dark_pool_error auth_token_fetch)
    nonce_json ← parsed nonce_res
    sig ← lift (env.sign_nonce nonce_json.nonce)
    tok_res ← fetch (token_exchange nonce_json.nonce sig)
    throw_unless (is_success tok_res) (dark_pool_error auth_token_fetch)
    tok_json ← parsed tok_res
    the_token tok_json.token

  -- `getToken`, by the cached token.
  unfoldable pub token_or_fetch : Option Bytes → Exec Session Bytes
  unfolding fetch_new_token
  token_or_fetch (some t) = pure t
  token_or_fetch none = do t ← fetch_new_token; cache t

  unfoldable pub get_token : Exec Session Bytes
  unfolding token_or_fetch
  get_token s = token_or_fetch s.cached_token s

  unfoldable pub send_instruction : TransactionInstruction → Bytes → Exec Session Bytes
  unfolding fetch invalidate_token
  send_instruction ix jwt = do
    res ← fetch (submit_ix (ix.program_id ++ ix.instruction_data) jwt)
    if res.status == 401
        then (do invalidate_token; raise (dark_pool_error auth_token_fetch))
        else read_result res

  abbrev pub live_manager : PerSessionManager Session
  live_manager = record {
    verify_attestation = λ s. (env.attestation_verifier s.sent, s);
    get_token = get_token;
    send_instruction = send_instruction;
  }

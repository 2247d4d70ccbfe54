-- ===== src/Session/Tokens.antt =====
-- packages/sdk/src/per/session-manager.ts: the submissions that the live manager's methods make.
use darknyx_capstone_project.Session.{
  token_or_fetch, Environment, Session, Request, Reply, challenge, token_exchange, submit_ix, fetch,
  invalidate_token, fetch_new_token, get_token, cache, send_instruction, read_result, the_token,
  the_result, is_success, parsed,
}
use darknyx_capstone_project.Base.{
  ℕ, suc, ◌+◌, List, [], ◌∷◌, ◌++◌, Bool, true, false, Option, none, some, ◌==◌, if◌then◌else◌, ◌≡◌,
  refl, ap, ◌∙◌, arith, inl, inr, Bool-cases,
}
use darknyx_capstone_project.Errors.{
  Result, ok, err, dark_pool_error, other_error, auth_token_fetch, transaction_send, Thrown,
}
use darknyx_capstone_project.Bytes.{Bytes}
use darknyx_capstone_project.Exec.{Exec, continue, ◌>>=◌, ◌>>◌, raise, pure, throw_unless, lift}
use darknyx_capstone_project.Solana.{TransactionInstruction}

-- The submissions among the requests.
abbrev pub submissions : List Request → ℕ
submissions [] = 0
submissions (challenge ∷ sent) = submissions sent
submissions (token_exchange nonce sig ∷ sent) = submissions sent
submissions (submit_ix body jwt ∷ sent) = suc (submissions sent)

pub submissions-append :
    (xs ys : List Request) → submissions (xs ++ ys) ≡ submissions xs + submissions ys
submissions-append [] ys = omega arith
submissions-append (challenge ∷ xs) ys = submissions-append xs ys
submissions-append (token_exchange nonce sig ∷ xs) ys = submissions-append xs ys
submissions-append (submit_ix body jwt ∷ xs) ys = omega (arith, submissions-append xs ys)

-- `m` adds `n` submissions, whether it returns or throws.
pub record Submits {A : Type 0} (n : ℕ) (m : Exec Session A) : Type 0 where
  pub at : (s : Session) → submissions (m s).1.sent ≡ submissions s.sent + n

module _ {A B : Type 0} where
  pub Submits-continue :
      (n : ℕ) (r : Result A) (f : A → Exec Session B)
      → n ≡ 0
      → ((a : A) → Submits n (f a))
      → Submits n (λ s. continue r f s)
  Submits-continue n (ok a) f z h = h a
  Submits-continue n (err e) f z h = record { at = λ s. omega arith }

  pub Submits-bind :
      (m : Exec Session A) (f : A → Exec Session B)
      → Submits 0 m
      → ((a : A) → Submits 0 (f a))
      → Submits 0 (m >>= f)
  Submits-bind m f h k = record {
    at = λ s.
        let rest = (Submits-continue 0 (m s).0 f refl k).at (m s).1 in omega (arith, rest, h.at s);
  }

module _ {A : Type 0} where
  pub Submits-raise : (e : Thrown) → Submits {A = A} 0 (raise e)
  Submits-raise e = record { at = λ s. omega arith }

  pub Submits-pure : (a : A) → Submits 0 (pure {S = Session} a)
  Submits-pure a = record { at = λ s. omega arith }

  pub Submits-lift : (r : Result A) → Submits 0 (lift {S = Session} r)
  Submits-lift r = record { at = λ s. omega arith }

Submits-throw_unless : (b : Bool) (e : Thrown) → Submits 0 (throw_unless {S = Session} b e)
Submits-throw_unless true e = record { at = λ s. omega arith }
Submits-throw_unless false e = record { at = λ s. omega arith }

Submits-the_token : (t : Option Bytes) → Submits 0 (λ (s : Session). the_token t s)
Submits-the_token none = Submits-raise _
Submits-the_token (some t) = Submits-pure t

Submits-the_result : (t : Option Bytes) → Submits 0 (λ (s : Session). the_result t s)
Submits-the_result none = Submits-raise _
Submits-the_result (some t) = Submits-pure t

Submits-parsed : (r : Reply) → Submits 0 (parsed r)
Submits-parsed r =
    Submits-bind (throw_unless r.parses other_error) (λ _. pure r)
      (Submits-throw_unless r.parses other_error) (λ _. Submits-pure r)

Submits-read_result : (r : Reply) → Submits 0 (read_result r)
Submits-read_result r =
    Submits-bind (throw_unless (is_success r) (dark_pool_error transaction_send)) _
      (Submits-throw_unless _ _)
      λ _. Submits-bind (parsed r) _ (Submits-parsed r) λ json.
        Submits-bind
          (throw_unless (if json.rpc_error then false else true) (dark_pool_error transaction_send))
          _ (Submits-throw_unless _ _) λ _. Submits-the_result json.rpc_result

module _ (env : Environment) where
  Submits-fetch : (req : Request) (n : ℕ) → submissions (req ∷ []) ≡ n → Submits n (fetch env req)
  unfolding fetch
  Submits-fetch req n h = record { at = λ s. by_answer s (env.server s.sent req) }
    where
      by_answer :
          (s : Session) (answer : Option Reply)
          → submissions
              (let s' : Session = record s { sent = s.sent ++ req ∷ [] } in
                let outcome : Result Reply × Session = elim answer [
                  | none ↦ (err other_error, s')
                  | some reply ↦ (ok reply, s')
                ] in
                outcome).1.sent
            ≡ submissions s.sent + n
      by_answer s none = submissions-append s.sent (req ∷ []) ∙ ap (λ k. submissions s.sent + k) h
      by_answer s (some reply) =
          submissions-append s.sent (req ∷ []) ∙ ap (λ k. submissions s.sent + k) h

  Submits-fetch_new_token : Submits 0 (fetch_new_token env)
  unfolding fetch_new_token
  Submits-fetch_new_token =
      Submits-bind (fetch env challenge) _ (Submits-fetch challenge 0 refl) λ nonce_res.
        Submits-bind (throw_unless (is_success nonce_res) _) _ (Submits-throw_unless _ _) λ _.
          Submits-bind (parsed nonce_res) _ (Submits-parsed nonce_res) λ nonce_json.
            Submits-bind (lift (env.sign_nonce nonce_json.nonce)) _ (Submits-lift _) λ sig.
              Submits-bind (fetch env (token_exchange nonce_json.nonce sig)) _
                (Submits-fetch (token_exchange nonce_json.nonce sig) 0 refl)
                λ tok_res.
                  Submits-bind (throw_unless (is_success tok_res) _) _ (Submits-throw_unless _ _)
                    λ _.
                      Submits-bind (parsed tok_res) _ (Submits-parsed tok_res)
                        λ tok_json. Submits-the_token tok_json.token

  Submits-token_or_fetch : (cached : Option Bytes) → Submits 0 (token_or_fetch env cached)
  unfolding token_or_fetch
  Submits-token_or_fetch (some t) = Submits-pure t
  Submits-token_or_fetch none =
      Submits-bind (fetch_new_token env) cache Submits-fetch_new_token
        (λ t. record { at = λ s. omega arith })

  -- Fetching a token, cached or new, submits nothing.
  pub Submits-get_token : Submits 0 (get_token env)
  unfolding get_token
  Submits-get_token = record { at = λ s. (Submits-token_or_fetch s.cached_token).at s }

  -- `sendInstruction` submits exactly once, whatever the answer.
  pub Submits-send_instruction :
      (ix : TransactionInstruction) (jwt : Bytes) → Submits 1 (send_instruction env ix jwt)
  unfolding send_instruction
  Submits-send_instruction ix jwt = record {
    at = λ s.
        let req = submit_ix (ix.program_id ++ ix.instruction_data) jwt in
        let after = (Submits-fetch req 1 refl).at s in
        omega (arith, after, (rest (fetch env req s).0).at (fetch env req s).1);
  }
    where
      rest :
          (r : Result Reply)
          → Submits 0 (λ (s : Session).
            continue {B = Bytes} r
              (λ res.
                if res.status == 401
                then (do invalidate_token; raise (dark_pool_error auth_token_fetch))
                else read_result res)
              s)
      rest (err e) = Submits-raise e
      rest (ok res) = elim (Bool-cases (res.status == 401)) [
        | inl expired ↦ rw expired (record { at = λ s. omega arith })
        | inr other ↦ rw other (Submits-read_result res)
      ]

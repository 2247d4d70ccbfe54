-- ===== src/Session/Outcomes.antt =====
-- packages/sdk/src/per/session-manager.ts: what the server answered where a method of the live manager
-- returned, or threw an "auth-token-fetch".
use darknyx_capstone_project.Base.{
  List, [], ◌∷◌, ◌++◌, true, false, Option, none, some, ◌==◌, ==_iff, if◌then◌else◌, Bool-cases,
  ◌≡◌, ◌≢◌, refl, sym, ap, ◌∙◌, subst, inl, inr,
}
use darknyx_capstone_project.Errors.{
  Result, ok, err, Thrown, dark_pool_error, other_error, auth_token_fetch, transaction_send,
  ok_injective, err_injective, err-ok,
}
use darknyx_capstone_project.Bytes.{Bytes}
use darknyx_capstone_project.Exec.{throw_unless, lift, bind-ok_then, outcome_value}
use darknyx_capstone_project.Solana.{TransactionInstruction}
use darknyx_capstone_project.Session.{
  Environment, Session, Request, Reply, challenge, token_exchange, submit_ix, is_success, parsed,
  cache, invalidate_token, read_result, fetch, fetch_new_token, token_or_fetch, get_token,
  send_instruction,
}
use darknyx_capstone_project.Session.Steps.{
  bind-err_then, throw_unless-ok, throw_unless-err, parsed-ok, the_token-ok, the_result-ok,
  the_result-err,
}

abbrev pub submission : TransactionInstruction → Bytes → Request
submission ix jwt = submit_ix (ix.program_id ++ ix.instruction_data) jwt

module _ (env : Environment) where
  -- The server, after the requests `sent`, answers the submission of `ix` under `jwt` with `signature`.
  pub record IsAccepted (sent : List Request) (ix : TransactionInstruction) (jwt signature : Bytes)
      : Type 0 where
    pub reply : Reply
    pub answered : env.server sent (submission ix jwt) ≡ some reply
    pub not_expired : (reply.status == 401) ≡ false
    pub success : is_success reply ≡ true
    pub result : reply.rpc_result ≡ some signature

  pub record IsExpired (sent : List Request) (ix : TransactionInstruction) (jwt : Bytes)
      : Type 0 where
    pub reply : Reply
    pub answered : env.server sent (submission ix jwt) ≡ some reply
    pub expired : reply.status ≡ 401

  -- A challenge and its exchange: the server gave `token` for the user's signature of its nonce.
  pub record IsIssued (sent : List Request) (token : Bytes) (after : List Request) : Type 0 where
    pub nonce_reply : Reply
    pub token_reply : Reply
    pub signature : Bytes
    pub nonce_answered : env.server sent challenge ≡ some nonce_reply
    pub signed : env.sign_nonce nonce_reply.nonce ≡ ok signature
    pub token_answered :
        env.server (sent ++ challenge ∷ []) (token_exchange nonce_reply.nonce signature)
        ≡ some token_reply
    pub issued : token_reply.token ≡ some token
    pub requests :
        after ≡ (sent ++ challenge ∷ []) ++ token_exchange nonce_reply.nonce signature ∷ []

  fetch-ok :
      (req : Request) (s s' : Session) (reply : Reply)
      → fetch env req s ≡ (ok reply, s')
      → (env.server s.sent req ≡ some reply) × (s' ≡ record s { sent = s.sent ++ req ∷ [] })
  unfolding fetch
  fetch-ok req s s' reply e = by_answer (env.server s.sent req) refl e
    where
      by_answer :
          (answer : Option Reply)
          → env.server s.sent req ≡ answer
          → ◌≡◌ {A = Result Reply × Session}
              (elim answer [
                | none ↦ (err other_error, record s { sent = s.sent ++ req ∷ [] })
                | some r ↦ (ok r, record s { sent = s.sent ++ req ∷ [] })
              ])
              (ok reply, s')
          → (env.server s.sent req ≡ some reply) × (s' ≡ record s { sent = s.sent ++ req ∷ [] })
      by_answer none p h = absurd (err-ok (outcome_value h))
      by_answer (some r) p h = (
        p ∙ ap some (ok_injective (outcome_value h)),
        sym (ap (λ (q : Result Reply × Session). q.1) h),
      )

  fetch-err :
      (req : Request) (s s' : Session) (t : Thrown)
      → fetch env req s ≡ (err t, s')
      → t ≡ other_error
  unfolding fetch
  fetch-err req s s' t e = by_answer (env.server s.sent req) e
    where
      by_answer :
          (answer : Option Reply)
          → ◌≡◌ {A = Result Reply × Session}
              (elim answer [
                | none ↦ (err other_error, record s { sent = s.sent ++ req ∷ [] })
                | some r ↦ (ok r, record s { sent = s.sent ++ req ∷ [] })
              ])
              (err t, s')
          → t ≡ other_error
      by_answer none h = sym (err_injective (ap (λ (q : Result Reply × Session). q.0) h))
      by_answer (some r) h = absurd (err-ok (sym (ap (λ (q : Result Reply × Session). q.0) h)))

  fetch_new_token-IsIssued :
      (token : Bytes) (s s' : Session)
      → fetch_new_token env s ≡ (ok token, s')
      → IsIssued s.sent token s'.sent
  unfolding fetch_new_token
  fetch_new_token-IsIssued token s s' e =
      bind-ok_then (fetch env challenge) _ e λ nonce_res s1 e1 r1.
        bind-ok_then (throw_unless (is_success nonce_res) (dark_pool_error auth_token_fetch)) _ r1
          λ u s2 e2 r2. bind-ok_then (parsed nonce_res) _ r2 λ nonce_json s3 e3 r3.
            bind-ok_then (lift (env.sign_nonce nonce_json.nonce)) _ r3 λ sig s4 e4 r4.
              bind-ok_then (fetch env (token_exchange nonce_json.nonce sig)) _ r4
                λ tok_res s5 e5 r5.
                  bind-ok_then
                    (throw_unless (is_success tok_res) (dark_pool_error auth_token_fetch)) _ r5
                    λ v s6 e6 r6. bind-ok_then (parsed tok_res) _ r6 λ tok_json s7 e7 r7.
                      let first = fetch-ok challenge s s1 nonce_res e1 in
                      let kept2 = (throw_unless-ok _ _ s1 s2 e2).1 in
                      let json3 = parsed-ok nonce_res nonce_json s2 s3 e3 in
                      let kept4 : s4 ≡ s3 = sym (ap (λ (q : Result Bytes × Session). q.1) e4) in
                      let second =
                        fetch-ok (token_exchange nonce_json.nonce sig) s4 s5 tok_res e5 in
                      let kept6 = (throw_unless-ok _ _ s5 s6 e6).1 in
                      let json7 = parsed-ok tok_res tok_json s6 s7 e7 in
                      let end = the_token-ok tok_json.token token s7 s' r7 in
                      let sent4 : s4.sent ≡ s.sent ++ challenge ∷ [] =
                        ap (λ (x : Session). x.sent) (kept4 ∙ json3.1 ∙ kept2 ∙ first.1) in
                      record {
                        nonce_reply = nonce_res;
                        token_reply = tok_res;
                        signature = sig;
                        nonce_answered = first.0;
                        signed =
                            ap (λ (r : Reply). env.sign_nonce r.nonce) (sym json3.0)
                            ∙ outcome_value e4;
                        token_answered = cc;
                        issued = ap (λ (r : Reply). r.token) (sym json7.0) ∙ end.0;
                        requests =
                            ap (λ (x : Session). x.sent) (end.1 ∙ json7.1 ∙ kept6 ∙ second.1) ∙ cc;
                      }

  -- A token that was got without one in the cache was issued for a challenge, and is cached.
  pub get_token-IsIssued :
      (token : Bytes) (s s' : Session)
      → s.cached_token ≡ none
      → get_token env s ≡ (ok token, s')
      → IsIssued s.sent token s'.sent × (s'.cached_token ≡ some token)
  unfolding get_token token_or_fetch
  get_token-IsIssued token s s' empty e =
      bind-ok_then (fetch_new_token env) cache
        (subst (λ (o : Option Bytes). token_or_fetch env o s ≡ (ok token, s')) empty e)
        λ t s1 e1 r1.
          let same : t ≡ token = ok_injective (outcome_value r1) in
          let end : record s1 { cached_token = some t } ≡ s' =
            ap (λ (q : Result Bytes × Session). q.1) r1 in
          (
            subst (λ (x : Session). IsIssued s.sent token x.sent) end
                (subst (λ x. IsIssued s.sent x s1.sent) same (fetch_new_token-IsIssued t s s1 e1)),
            sym (ap (λ (x : Session). x.cached_token) end) ∙ ap some same,
          )

  -- Where `sendInstruction` returns, the server accepted the submission, and the token stays.
  pub send_instruction-IsAccepted :
      (ix : TransactionInstruction) (jwt signature : Bytes) (s s' : Session)
      → send_instruction env ix jwt s ≡ (ok signature, s')
      → IsAccepted s.sent ix jwt signature
        × (s' ≡ record s { sent = s.sent ++ submission ix jwt ∷ [] })
  unfolding send_instruction
  send_instruction-IsAccepted ix jwt signature s s' e =
      bind-ok_then (fetch env (submission ix jwt)) _ e λ res s1 e1 r1.
        elim (Bool-cases (res.status == 401)) [
          | inl expired ↦ absurd (err-ok (outcome_value (rw expired at r1)))
          | inr live ↦
              bind-ok_then (throw_unless (is_success res) (dark_pool_error transaction_send)) _
                (rw live at r1)
                λ u s2 e2 r2. bind-ok_then (parsed res) _ r2 λ json s3 e3 r3.
                  bind-ok_then
                    (throw_unless (if json.rpc_error then false else true)
                      (dark_pool_error transaction_send))
                    _ r3
                    λ v s4 e4 r4.
                      let first = fetch-ok (submission ix jwt) s s1 res e1 in
                      let kept2 = throw_unless-ok _ _ s1 s2 e2 in
                      let json3 = parsed-ok res json s2 s3 e3 in
                      let kept4 = throw_unless-ok _ _ s3 s4 e4 in
                      let end = the_result-ok json.rpc_result signature s4 s' r4 in
                      (
                        record {
                          reply = res;
                          answered = first.0;
                          not_expired = live;
                          success = kept2.0;
                          result = ap (λ (r : Reply). r.rpc_result) (sym json3.0) ∙ end.0;
                        },
                        end.1 ∙ kept4.1 ∙ json3.1 ∙ kept2.1 ∙ first.1,
                      )
        ]

  read_result-err :
      (res : Reply) (t : Thrown) (s s' : Session)
      → read_result res s ≡ (err t, s')
      → t ≢ dark_pool_error auth_token_fetch
  read_result-err res t s s' e same =
      bind-err_then (throw_unless (is_success res) (dark_pool_error transaction_send)) _ e
        (λ s1 e1. let x = throw_unless-err _ _ t s s1 e1 in cc)
        λ u s2 e2 r2.
          bind-err_then (parsed res) _ r2
            (λ s3 e3.
              bind-err_then (throw_unless res.parses other_error) _ e3
                (λ s4 e4. let x = throw_unless-err _ _ t s2 s4 e4 in cc)
                (λ v s4 e4 r4. err-ok (sym (ap (λ (q : Result Reply × Session). q.0) r4))))
            λ json s3 e3 r3.
              bind-err_then
                (throw_unless (if json.rpc_error then false else true)
                  (dark_pool_error transaction_send))
                _ r3 (λ s4 e4. let x = throw_unless-err _ _ t s3 s4 e4 in cc)
                (λ v s4 e4 r4. let x = the_result-err json.rpc_result t s4 s' r4 in cc)

  -- Where `sendInstruction` throws an "auth-token-fetch", the server refused the token, which is cached
  -- no more.
  pub send_instruction-IsExpired :
      (ix : TransactionInstruction) (jwt : Bytes) (s s' : Session)
      → send_instruction env ix jwt s ≡ (err (dark_pool_error auth_token_fetch), s')
      → IsExpired s.sent ix jwt
        × (s' ≡ record { cached_token = none; sent = s.sent ++ submission ix jwt ∷ [] })
  unfolding send_instruction invalidate_token
  send_instruction-IsExpired ix jwt s s' e =
      bind-err_then (fetch env (submission ix jwt)) _ e
        (λ s1 e1. let x = fetch-err (submission ix jwt) s s1 _ e1 in absurd (cc))
        λ res s1 e1 r1. elim (Bool-cases (res.status == 401)) [
          | inl expired ↦
              let first = fetch-ok (submission ix jwt) s s1 res e1 in
              let end : record s1 { cached_token = none } ≡ s' =
                ap (λ (q : Result Bytes × Session). q.1) (rw expired at r1) in
              (
                record {
                  reply = res;
                  answered = first.0;
                  expired = (==_iff res.status 401).0 expired;
                },
                sym end ∙ ap (λ (x : Session). record x { cached_token = none }) first.1,
              )
          | inr live ↦ absurd (read_result-err res _ s1 s' (rw live at r1) refl)
        ]

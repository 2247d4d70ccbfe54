-- ===== src/Orders/Retried.antt =====
-- packages/sdk/src/orders/submit-order.ts: the requests behind a signature that a send with one retry
-- returns.
use darknyx_capstone_project.Base.{
  List, [], ◌∷◌, ◌++◌, none, some, ◌≡◌, refl, sym, ap, ◌∙◌, subst, ◌⊎◌, inl, inr,
}
use darknyx_capstone_project.Errors.{
  Result, ok, err, dark_pool_error, other_error, auth_token_fetch, ok_injective, err-ok,
}
use darknyx_capstone_project.Bytes.{Bytes}
use darknyx_capstone_project.Exec.{bind-ok_then, outcome_value}
use darknyx_capstone_project.Solana.{Runtime, TransactionInstruction}
use darknyx_capstone_project.Session.{
  Environment, Session, Request, send_instruction, get_token, live_manager,
}
use darknyx_capstone_project.Session.Outcomes.{
  submission, IsAccepted, IsExpired, IsIssued, get_token-IsIssued, send_instruction-IsAccepted,
  send_instruction-IsExpired,
}
use darknyx_capstone_project.Orders.{retry_send, send_with_retry}

module _ (rt : Runtime) (env : Environment) (ix : TransactionInstruction) where
  -- The server accepted the first submission; the cached token is the one before.
  pub record IsFirst (jwt signature : Bytes) (s s' : Session) : Type 0 where
    pub accepted : IsAccepted env s.sent ix jwt signature
    pub kept : s'.cached_token ≡ s.cached_token
    pub requests : s'.sent ≡ s.sent ++ submission ix jwt ∷ []

  -- The server answered the first submission with 401, issued a new token for a challenge after it, and
  -- accepted a second submission under that token, which is the cached one.
  pub record IsRetried (jwt signature : Bytes) (s s' : Session) : Type 0 where
    pub expired : IsExpired env s.sent ix jwt
    pub token : Bytes
    pub before : List Request
    pub issued : IsIssued env (s.sent ++ submission ix jwt ∷ []) token before
    pub accepted : IsAccepted env before ix token signature
    pub cached : s'.cached_token ≡ some token
    pub requests : s'.sent ≡ before ++ submission ix token ∷ []

  retried :
      (jwt signature : Bytes) (s s1 s' : Session)
      → IsExpired env s.sent ix jwt
      → s1 ≡ record { cached_token = none; sent = s.sent ++ submission ix jwt ∷ [] }
      → retry_send rt (live_manager env) ix (err (dark_pool_error auth_token_fetch)) s1
        ≡ (ok signature, s')
      → IsRetried jwt signature s s'
  unfolding retry_send
  retried jwt signature s s1 s' expired after e =
      bind-ok_then (get_token env) (send_instruction env ix) e λ token s2 e2 r2.
        let fresh =
          get_token-IsIssued env token s1 s2 (ap (λ (x : Session). x.cached_token) after) e2 in
        let sent = send_instruction-IsAccepted env ix token signature s2 s' r2 in
        record {
          expired = expired;
          token = token;
          before = s2.sent;
          issued = subst (λ (x : Session). IsIssued env x.sent token s2.sent) after fresh.0;
          accepted = sent.0;
          cached = ap (λ (x : Session). x.cached_token) sent.1 ∙ fresh.1;
          requests = ap (λ (x : Session). x.sent) sent.1;
        }

  -- A signature that the send with one retry returns over the live manager is one that the server gave
  -- to the last request: to the first submission, or, where the server answered that with 401, to a second
  -- under a token that was issued for a challenge in between and is cached afterwards. No other request
  -- is made.
  pub send_with_retry-IsSent :
      (jwt signature : Bytes) (s s' : Session)
      → send_with_retry rt (live_manager env) ix jwt s ≡ (ok signature, s')
      → IsFirst jwt signature s s' ⊎ IsRetried jwt signature s s'
  unfolding send_with_retry retry_send
  send_with_retry-IsSent jwt signature s s' e =
      by_first (send_instruction env ix jwt s).0 (send_instruction env ix jwt s).1 refl e
    where
      by_first :
          (r : Result Bytes) (s1 : Session)
          → send_instruction env ix jwt s ≡ (r, s1)
          → retry_send rt (live_manager env) ix r s1 ≡ (ok signature, s')
          → IsFirst jwt signature s s' ⊎ IsRetried jwt signature s s'
      by_first (ok own) s1 p h =
          let same : own ≡ signature = ok_injective (outcome_value h) in
          let end : s1 ≡ s' = ap (λ (q : Result Bytes × Session). q.1) h in
          let sent = send_instruction-IsAccepted env ix jwt own s s1 p in
          inl (record {
            accepted = subst (λ x. IsAccepted env s.sent ix jwt x) same sent.0;
            kept = ap (λ (x : Session). x.cached_token) (sym end ∙ sent.1);
            requests = ap (λ (x : Session). x.sent) (sym end ∙ sent.1);
          })
      by_first (err other_error) s1 p h = absurd (err-ok (outcome_value h))
      by_first (err (dark_pool_error auth_token_fetch)) s1 p h =
          let (expired, after) = send_instruction-IsExpired env ix jwt s s1 p in
          inr (retried jwt signature s s1 s' expired after h)
      by_first (err (dark_pool_error _)) s1 p h = absurd (err-ok (outcome_value h))

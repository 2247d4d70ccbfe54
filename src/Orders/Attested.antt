-- ===== src/Orders/Attested.antt =====
-- packages/sdk/src/orders/submit-order.ts and packages/sdk/src/orders/cancel-order.ts: nothing is done
-- without an attestation.
use darknyx_capstone_project.Base.{
  Bool, true, false, Option, none, some, not, ◌||◌, Bool-cases, ◌≡◌, refl, ap, ◌⊎◌, inl, inr,
}
use darknyx_capstone_project.Base.Int.{ℤ, pos, ltb_ℤ}
use darknyx_capstone_project.Errors.{
  Result, ok, err, Thrown, dark_pool_error, parameter, attestation_verify, auth_token_fetch,
}
use darknyx_capstone_project.Exec.{Exec, continue, ◌>>=◌, ◌>>◌, throw_unless, with_stage}
use darknyx_capstone_project.Solana.{Runtime, PublicKey}
use darknyx_capstone_project.Session.{PerSessionManager}
use darknyx_capstone_project.Orders.Params.{OrderParams, validate_order}
use darknyx_capstone_project.Orders.{submit_order, cancel_order, authorise}

module _ {S : Type 0} (rt : Runtime) (m : PerSessionManager S) where
  -- A call from `s` threw and did nothing, or did no more than ask for the attestation.
  abbrev pub IsRefused : {A : Type 0} → S → Result A × S → Type 0
  IsRefused s out =
      (thrown : Thrown) × ((out ≡ (err thrown, s))
        ⊎ (out ≡ (err thrown, (m.verify_attestation s).1)))

  module _ {A B : Type 0} where
    IsRefused-after :
        (r : Result A) (f : A → Exec S B) (s : S)
        → ((a : A) → IsRefused s (f a s))
        → IsRefused s (continue r f s)
    IsRefused-after (err thrown) f s h = (thrown, inl refl)
    IsRefused-after (ok a) f s h = h a

    IsRefused-first :
        (first : Exec S A) (f : A → Exec S B) (s : S) (thrown : Thrown)
        → first s ≡ (err thrown, (m.verify_attestation s).1)
        → IsRefused s ((first >>= f) s)
    IsRefused-first first f s thrown e =
        (thrown, inr (ap (λ (q : Result A × S). continue q.0 f q.1) e))

  attested_or_stopped :
      (s : S)
      → ((m.verify_attestation s).0 ≡ ok true)
        ⊎ ((thrown : Thrown) × (authorise rt m s ≡ (err thrown, (m.verify_attestation s).1)))
  unfolding authorise
  attested_or_stopped s = by_answer (m.verify_attestation s).0 (m.verify_attestation s).1
    where
      by_answer :
          (answer : Result Bool) (s1 : S)
          → (answer ≡ ok true)
            ⊎ ((thrown : Thrown) × (continue answer
                    (λ attest_ok. do
                      throw_unless attest_ok (dark_pool_error attestation_verify)
                      with_stage auth_token_fetch m.get_token)
                    s1
                  ≡ (err thrown, s1)))
      by_answer (ok true) s1 = inl refl
      by_answer (ok false) s1 = inr (dark_pool_error attestation_verify, refl)
      by_answer (err thrown) s1 = inr (thrown, refl)

  -- Over any manager, for any order, slot index and program id, one given or none: the attestation check
  -- answers yes, or both `submitOrder` and `cancelOrder` throw, having fetched no token and sent nothing:
  -- the session is the one before the call or the one that the attestation check left.
  pub attested_or_IsRefused :
      (program : Option PublicKey) (p : OrderParams) (trading_key market : PublicKey) (slot : ℤ)
      (s : S)
      → ((m.verify_attestation s).0 ≡ ok true)
        ⊎ (IsRefused s (submit_order rt m program p s)
            × IsRefused s (cancel_order rt m program trading_key market slot s))
  unfolding submit_order cancel_order
  attested_or_IsRefused none p trading_key market slot s =
      inr ((dark_pool_error parameter, inl refl), (dark_pool_error parameter, inl refl))
  attested_or_IsRefused (some program) p trading_key market slot s = elim (attested_or_stopped s) [
    | inl attested ↦ inl attested
    | inr (thrown, stopped) ↦ inr (
      IsRefused-after (validate_order p) _ s
          (λ _. IsRefused-first (authorise rt m) _ s thrown stopped),
      elim (Bool-cases (not (ltb_ℤ slot (pos 0) || ltb_ℤ (pos 255) slot))) [
        | inl in_range ↦ rw in_range (IsRefused-first (authorise rt m) _ s thrown stopped)
        | inr outside ↦ rw outside (dark_pool_error parameter, inl refl)
      ],
    )
  ]

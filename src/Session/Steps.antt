-- ===== src/Session/Steps.antt =====
-- packages/sdk/src/per/session-manager.ts: what a step that returned, or threw, was given.
use darknyx_capstone_project.Base.{Bool, true, false, Option, none, some, ◌≡◌, refl, sym, ap, ◌∙◌}
use darknyx_capstone_project.Errors.{
  Result, ok, err, Thrown, dark_pool_error, other_error, transaction_send, ok_injective,
  err_injective, err-ok,
}
use darknyx_capstone_project.Bytes.{Bytes}
use darknyx_capstone_project.Exec.{Exec, continue, ◌>>=◌, throw_unless, bind-ok_then, outcome_value}
use darknyx_capstone_project.Session.{Session, Reply, parsed, the_token, the_result}

module _ {A B : Type 0} where
  pub bind-err_then {ℓ} :
      {C : Type ℓ} {s s' : Session} {t : Thrown} (m : Exec Session A) (f : A → Exec Session B)
      → (m >>= f) s ≡ (err t, s')
      → ((s1 : Session) → m s ≡ (err t, s1) → C)
      → ((a : A) (s1 : Session) → m s ≡ (ok a, s1) → f a s1 ≡ (err t, s') → C)
      → C
  bind-err_then {C = C} {s = s} {s' = s'} {t = t} m f e threw went = by_first (m s) refl e
    where
      by_first : (r : Result A × Session) → m s ≡ r → continue r.0 f r.1 ≡ (err t, s') → C
      by_first (err t1, s1) p h = threw s1 (
          p
          ∙ ap (λ (x : Thrown). (err x, s1))
              (err_injective (ap (λ (q : Result B × Session). q.0) h)))
      by_first (ok a, s1) p h = went a s1 p h

pub throw_unless-ok :
    (b : Bool) (t : Thrown) (s s' : Session)
    → throw_unless b t s ≡ (ok tt, s')
    → (b ≡ true) × (s' ≡ s)
throw_unless-ok true t s s' e = (refl, sym (ap (λ (q : Result (Unit {0}) × Session). q.1) e))
throw_unless-ok false t s s' e = absurd (err-ok (outcome_value e))

pub throw_unless-err :
    (b : Bool) (t t' : Thrown) (s s' : Session) → throw_unless b t s ≡ (err t', s') → t' ≡ t
throw_unless-err true t t' s s' e =
    absurd (err-ok (sym (ap (λ (q : Result (Unit {0}) × Session). q.0) e)))
throw_unless-err false t t' s s' e =
    sym (err_injective (ap (λ (q : Result (Unit {0}) × Session). q.0) e))

pub parsed-ok :
    (r json : Reply) (s s' : Session) → parsed r s ≡ (ok json, s') → (json ≡ r) × (s' ≡ s)
parsed-ok r json s s' e = bind-ok_then (throw_unless r.parses other_error) _ e λ u s1 e1 r1. (
  sym (ok_injective (outcome_value r1)),
  sym (ap (λ (q : Result Reply × Session). q.1) r1)
      ∙ (throw_unless-ok r.parses other_error s s1 e1).1,
)

pub the_token-ok :
    (o : Option Bytes) (t : Bytes) (s s' : Session)
    → the_token o s ≡ (ok t, s')
    → (o ≡ some t) × (s' ≡ s)
the_token-ok none t s s' e = absurd (err-ok (outcome_value e))
the_token-ok (some x) t s s' e =
    (ap some (ok_injective (outcome_value e)), sym (ap (λ (q : Result Bytes × Session). q.1) e))

pub the_result-ok :
    (o : Option Bytes) (t : Bytes) (s s' : Session)
    → the_result o s ≡ (ok t, s')
    → (o ≡ some t) × (s' ≡ s)
the_result-ok none t s s' e = absurd (err-ok (outcome_value e))
the_result-ok (some x) t s s' e =
    (ap some (ok_injective (outcome_value e)), sym (ap (λ (q : Result Bytes × Session). q.1) e))

pub the_result-err :
    (o : Option Bytes) (t : Thrown) (s s' : Session)
    → the_result o s ≡ (err t, s')
    → t ≡ dark_pool_error transaction_send
the_result-err none t s s' e = sym (err_injective (ap (λ (q : Result Bytes × Session). q.0) e))
the_result-err (some x) t s s' e =
    absurd (err-ok (sym (ap (λ (q : Result Bytes × Session). q.0) e)))

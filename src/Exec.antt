-- ===== src/Exec.antt =====
-- `async` methods that change a session and may throw: the session comes back beside the exception
-- too, since what was done before a `throw` stays done. An `await` is a plain call.
use darknyx_capstone_project.Base.{ap, Bool, true, false, ◌≡◌, refl}
use darknyx_capstone_project.Errors.{
  Result, ok, err, Thrown, DarkPoolErrorStage, dark_pool_error, other_error,
}

abbrev pub Exec : Type 0 → Type 0 → Type 0
Exec State V = State → Result V × State

module _ {S A B : Type 0} where
  infixl 10 ◌>>=◌ ◌>>◌
  -- The rest of a chain, from what its first step gave and the session that it left.
  abbrev pub continue : Result A → (A → Exec S B) → Exec S B
  continue (err thrown) rest session = (err thrown, session)
  continue (ok value) rest session = rest value session

  abbrev pub ◌>>=◌ : Exec S A → (A → Exec S B) → Exec S B
  ◌>>=◌ first rest session = continue (first session).0 rest (first session).1

  abbrev pub ◌>>◌ : Exec S A → Exec S B → Exec S B
  ◌>>◌ first rest session = continue (first session).0 (λ _. rest) (first session).1

module _ {A : Type 0} where
  -- `catch (err) { if (err instanceof DarkPoolError) throw err; throw new DarkPoolError(stage, …) }`
  abbrev pub staged : DarkPoolErrorStage → Result A → Result A
  staged stage (ok a) = ok a
  staged stage (err other_error) = err (dark_pool_error stage)
  staged stage (err (dark_pool_error own)) = err (dark_pool_error own)

  -- `catch (err) { throw new DarkPoolError(stage, …) }`
  abbrev pub restaged : DarkPoolErrorStage → Result A → Result A
  restaged stage (ok a) = ok a
  restaged stage (err e) = err (dark_pool_error stage)

module _ {S A : Type 0} where
  abbrev pub raise : Thrown → Exec S A
  raise thrown session = (err thrown, session)

  abbrev pub pure : A → Exec S A
  pure value session = (ok value, session)

  abbrev pub lift : Result A → Exec S A
  lift outcome session = (outcome, session)

  abbrev pub with_stage : DarkPoolErrorStage → Exec S A → Exec S A
  with_stage stage m s = (staged stage (m s).0, (m s).1)

module _ {S : Type 0} where
  abbrev pub throw_unless : Bool → Thrown → Exec S (Unit {0})
  throw_unless true e s = (ok tt, s)
  throw_unless false e s = (err e, s)

-- A chain that returns: what its first step gave, and the session that it left.
module _ {S A B : Type 0} where
  pub bind-ok :
      (m : Exec S A) (f : A → Exec S B) (b : B) (s s' : S)
      → (m >>= f) s ≡ (ok b, s')
      → (a : A) × (s1 : S) × (m s ≡ (ok a, s1)) × (f a s1 ≡ (ok b, s'))
  bind-ok m f b s s' e = returned (m s) refl e
    where
      returned :
          (r : Result A × S)
          → m s ≡ r
          → continue r.0 f r.1 ≡ (ok b, s')
          → (a : A) × (s1 : S) × (m s ≡ (ok a, s1)) × (f a s1 ≡ (ok b, s'))
      returned (ok a, s1) p h = (a, s1, p, h)
      returned (err t, s1) p h = absurd (cc)

  -- The same for a goal: the first step's outcome stays a variable.
  pub bind-ok_then {ℓ} :
      {C : Type ℓ} {s s' : S} {b : B} (m : Exec S A) (f : A → Exec S B)
      → (m >>= f) s ≡ (ok b, s')
      → ((a : A) (s1 : S) → m s ≡ (ok a, s1) → f a s1 ≡ (ok b, s') → C)
      → C
  bind-ok_then {s = s} {s' = s'} {b = b} m f e rest =
      let (a, s1, p, h) = bind-ok m f b s s' e in rest a s1 p h

module _ {S A : Type 0} where
  pub outcome_value :
      {a : A} {s s1 : S} {r : Result A} → ◌≡◌ {A = Result A × S} (r, s) (ok a, s1) → r ≡ ok a
  outcome_value e = ap (λ (q : Result A × S). q.0) e

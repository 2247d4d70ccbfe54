-- ===== src/Client/Keeping.antt =====
-- Properties of states that the steps of a chain keep, for the pipelines of packages/sdk/src/utxo.
use darknyx_capstone_project.Exec.{throw_unless, continue, Exec, ◌>>=◌}
use darknyx_capstone_project.Errors.{Thrown, Result, ok, err}
use darknyx_capstone_project.Base.{true, false, Bool, Bool}

-- A call that leaves a property of the state as it is, whether it returns or throws.
abbrev pub Keeps : {S A : Type 0} → (S → Type 0) → Exec S A → Type 0
Keeps {S} P m = (s : S) → P s → P (m s).1

module _ {S A B : Type 0} (P : S → Type 0) where
  pub continue-Keeps :
      (m : Exec S A) (f : A → Exec S B) → Keeps P m → ((a : A) → Keeps P (f a)) → Keeps P (m >>= f)
  continue-Keeps m f first rest s h = after (m s) (first s h)
    where
      after : (r : Result A × S) → P r.1 → P (continue r.0 f r.1).1
      after (ok a, s1) k = rest a s1 k
      after (err t, s1) k = k

module _ {S : Type 0} (P : S → Type 0) where
  pub throw_unless-Keeps : (b : Bool) (t : Thrown) → Keeps P (throw_unless {S = S} b t)
  throw_unless-Keeps true t s h = h
  throw_unless-Keeps false t s h = h

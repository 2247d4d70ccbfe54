-- ===== src/Errors.antt =====
-- packages/sdk/src/errors.ts: the staged errors, and the result of code that may throw. A thrown
-- value is a `DarkPoolError` with its stage, or any other exception; messages are not modelled.
use darknyx_capstone_project.Base.{Bool, true, false, ◌≡◌, refl}

pub data DarkPoolErrorStage : Type 0 where
  attestation_verify auth_token_fetch note_lock_check merkle_proof_fetch : DarkPoolErrorStage
  merkle_position_fetch note_build proof_generation transaction_send : DarkPoolErrorStage
  transaction_validate instruction_build parameter : DarkPoolErrorStage

pub data Thrown : Type 0 where
  dark_pool_error : DarkPoolErrorStage → Thrown
  other_error : Thrown

unfoldable pub is_retryable : Thrown → Bool
is_retryable other_error = false
is_retryable (dark_pool_error auth_token_fetch) = true
is_retryable (dark_pool_error merkle_proof_fetch) = true
is_retryable (dark_pool_error merkle_position_fetch) = true
is_retryable (dark_pool_error transaction_send) = true
is_retryable (dark_pool_error transaction_validate) = true
is_retryable (dark_pool_error _) = false

-- What a call gives: a value, or what was thrown.
pub data Result {ℓ} (V : Type ℓ) : Type ℓ where
  ok : V → Result V
  err : Thrown → Result V

module _ {ℓ κ} {V : Type ℓ} {W : Type κ} where
  infixl 5 ◌>>=◌
  -- A throw skips the rest.
  abbrev pub ◌>>=◌ : Result V → (V → Result W) → Result W
  ◌>>=◌ (err thrown) rest = err thrown
  ◌>>=◌ (ok value) rest = rest value

module _ {κ} {W : Type κ} where
  infixl 5 ◌>>◌
  abbrev pub ◌>>◌ : Result (Unit {0}) → Result W → Result W
  ◌>>◌ check rest = check >>= λ _. rest

-- `if (bad) throw e`.
abbrev pub throw_if : Bool → Thrown → Result (Unit {0})
throw_if false thrown = ok tt
throw_if true thrown = err thrown

pub ok_injective {ℓ} : {A : Type ℓ} {a b : A} → ok a ≡ ok b → a ≡ b
ok_injective e = cc

pub err_injective {ℓ} : {A : Type ℓ} {t u : Thrown} → ◌≡◌ {A = Result A} (err t) (err u) → t ≡ u
err_injective e = cc

pub err-ok {ℓ} : {A : Type ℓ} {t : Thrown} {a : A} → err t ≡ ok a → ⊥
err-ok e = cc

-- A chain that returns has a first step that returns.
pub bind-ok {ℓ κ} :
    {A : Type ℓ} {B : Type κ} (m : Result A) (f : A → Result B) (b : B)
    → (m >>= f) ≡ ok b
    → (a : A) × (m ≡ ok a) × (f a ≡ ok b)
bind-ok (ok a) f b e = (a, refl, e)
bind-ok (err t) f b e = cc

pub bind-ok_then {ℓ κ μ} :
    {A : Type ℓ} {B : Type κ} {C : Type μ} {b : B} (m : Result A) (f : A → Result B)
    → (m >>= f) ≡ ok b
    → ((a : A) → m ≡ ok a → f a ≡ ok b → C)
    → C
bind-ok_then {b = b} m f e rest = let (a, p, h) = bind-ok m f b e in rest a p h

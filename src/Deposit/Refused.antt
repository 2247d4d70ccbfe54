-- ===== src/Deposit/Refused.antt =====
-- packages/sdk/src/utxo/deposit.ts: what is refused before anything is done.
use darknyx_capstone_project.Base.{≢→==, Bool-cases, inr, inl, ◌≢◌, length, ◌⊎◌, true, ◌≡◌}
use darknyx_capstone_project.Deposit.{DepositParams, check_deposit, deposit}
use darknyx_capstone_project.Errors.{parameter, dark_pool_error, err}
use darknyx_capstone_project.Base.Int.{pos, leb_ℤ}
use darknyx_capstone_project.Client.{ClientState, TransactionCallbacks, DarkPoolClient}
use darknyx_capstone_project.Keys.{Crypto}
use darknyx_capstone_project.Field.{Poseidon}
use darknyx_capstone_project.Solana.{Runtime}

module _ {W : Type 0} (rt : Runtime) (p : Poseidon) (c : Crypto) (client : DarkPoolClient W) where
  -- A deposit of no positive amount, or of a mint that has not 32 bytes, is refused with stage
  -- "parameter" before a key is resolved, a callback called or the network used: the state is left as
  -- it was.
  pub deposit-parameter :
      (callbacks : TransactionCallbacks W) (params : DepositParams) (s : ClientState W)
      → (leb_ℤ params.amount (pos 0) ≡ true) ⊎ (length params.token_mint ≢ 32)
      → deposit rt p c client callbacks params s ≡ (err (dark_pool_error parameter), s)
  unfolding deposit check_deposit
  deposit-parameter callbacks params s (inl h) = rw h
  deposit-parameter callbacks params s (inr h) = elim (Bool-cases (leb_ℤ params.amount (pos 0))) [
    | inl bad ↦ rw bad
    | inr good ↦ rw (good, ≢→== (length params.token_mint) 32 h)
  ]

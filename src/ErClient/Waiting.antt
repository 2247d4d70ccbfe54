-- ===== src/ErClient/Waiting.antt =====
-- packages/sdk/src/idl/er-client.ts: the wait ends, and how.
use darknyx_capstone_project.Base.{
  refl, none, some, inl, inr, ltb, ltb→lt, Bool-cases, zero, suc, arith, ◌+◌, ◌-◌, ◌≤◌, ◌<◌, Option,
  ℕ, ◌≡◌,
}
use darknyx_capstone_project.ErClient.{
  after_read, by_account, changed_data, wait_loop, wait_for_l1_account_change, TimedConnection,
}
use darknyx_capstone_project.Errors.{err, ok, other_error, Result, Thrown}
use darknyx_capstone_project.Client.{AccountInfo}
use darknyx_capstone_project.Bytes.{Bytes}
use darknyx_capstone_project.Solana.{PublicKey}

-- A clock that a pause moves on by a millisecond at least, and that a read does not turn back.
pub record IsTicking {W : Type 0} (l1 : TimedConnection W) (interval : ℕ) : Type 0 where
  pub moves : (w : W) → l1.now w < l1.now (l1.sleep interval w)
  pub stays : (key : PublicKey) (w : W) → l1.now w ≤ l1.now (l1.get_account_info key w).1

module _ {W : Type 0} (l1 : TimedConnection W) (pubkey : PublicKey) (initial : Option Bytes) where
  -- How a wait ends: a read before the deadline found an account that differs from the initial data,
  -- such a read threw, or the deadline has passed.
  pub data IsEnd (deadline : ℕ) : Result Bytes × W → Type 0 where
    changed :
        (w0 w1 : W) (acct : Option AccountInfo) (account : Bytes)
        → l1.now w0 < deadline
        → l1.get_account_info pubkey w0 ≡ (ok acct, w1)
        → changed_data initial acct ≡ some account
        → IsEnd deadline (ok account, w1)
    read_threw :
        (w0 w1 : W) (thrown : Thrown)
        → l1.now w0 < deadline
        → l1.get_account_info pubkey w0 ≡ (err thrown, w1)
        → IsEnd deadline (err thrown, w1)
    timed_out : (w1 : W) → deadline ≤ l1.now w1 → IsEnd deadline (err other_error, w1)

  abbrev pub Ends : ℕ → Option (Result Bytes × W) → Type 0
  Ends deadline result = (out : Result Bytes × W) × (result ≡ some out) × IsEnd deadline out

  -- More rounds than there are milliseconds to the deadline end the loop.
  wait_loop-Ends :
      (fuel interval deadline : ℕ) (w : W)
      → IsTicking l1 interval
      → deadline - l1.now w < fuel
      → Ends deadline (wait_loop l1 pubkey initial fuel interval deadline w)
  unfolding wait_loop
  wait_loop-Ends zero interval deadline w t h = absurd (omega arith)
  wait_loop-Ends (suc fuel) interval deadline w t h = elim (Bool-cases (ltb (l1.now w) deadline)) [
    | inr late ↦ rw late ((err other_error, w), refl, timed_out w (ground arith))
    | inl early ↦
        let before = ltb→lt (l1.now w) deadline early in
        rw early (
          by_read (λ w2 few. wait_loop-Ends fuel interval deadline w2 t few) before
            (l1.get_account_info pubkey w) refl (t.stays pubkey w))
  ]
    where
      by_changed :
          ((w2 : W)
            → deadline - l1.now w2 < fuel
            → Ends deadline (wait_loop l1 pubkey initial fuel interval deadline w2))
          → (acct : Option AccountInfo) (w1 : W) (found : Option Bytes) → l1.now w < deadline
          → l1.get_account_info pubkey w ≡ (ok acct, w1)
          → changed_data initial acct ≡ found
          → l1.now w ≤ l1.now w1
          → Ends deadline (
              after_read l1 pubkey initial
                (wait_loop l1 pubkey initial fuel interval deadline)
                interval
                found
                w1)
      by_changed again acct w1 (some account) before p c later =
          ((ok account, w1), refl, changed w w1 acct account before p c)
      by_changed again acct w1 none before p c later =
          again (l1.sleep interval w1) (omega (arith, t.moves w1, later, before, h))

      by_read :
          ((w2 : W)
            → deadline - l1.now w2 < fuel
            → Ends deadline (wait_loop l1 pubkey initial fuel interval deadline w2))
          → l1.now w < deadline
          → (r : Result (Option AccountInfo) × W) → l1.get_account_info pubkey w ≡ r
          → l1.now w ≤ l1.now r.1
          → Ends deadline (
              by_account l1 pubkey initial
                (wait_loop l1 pubkey initial fuel interval deadline)
                interval
                r)
      by_read again before (err thrown, w1) p later =
          ((err thrown, w1), refl, read_threw w w1 thrown before p)
      by_read again before (ok acct, w1) p later =
          by_changed again acct w1 (changed_data initial acct) before p refl later

  -- Under a clock that every pause moves on by a millisecond at least, the wait ends, after `timeout`
  -- pauses at most: it returns the data of an account that it read before the deadline and that
  -- differs from the initial data, or throws what a read before the deadline threw, or throws at or
  -- after the deadline.
  pub wait_for_l1_account_change-Ends :
      (timeout interval : ℕ) (w : W)
      → IsTicking l1 interval
      → Ends (l1.now w + timeout) (wait_for_l1_account_change l1 pubkey initial timeout interval w)
  unfolding wait_for_l1_account_change
  wait_for_l1_account_change-Ends timeout interval w t =
      wait_loop-Ends (suc timeout) interval (l1.now w + timeout) w t (omega arith)

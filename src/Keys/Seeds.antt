-- ===== src/Keys/Seeds.antt =====
-- packages/sdk/src/keys/key-generators.ts: `resolveMasterSeed`. A `Uint8Array` is never falsy, so that
-- `if (existing)` tests for `null` alone.
use darknyx_capstone_project.Exec.{bind-ok, Exec, ◌>>=◌, ◌>>◌, pure}
use darknyx_capstone_project.Keys.{master_seed_bytes, Crypto}
use darknyx_capstone_project.Errors.{Result, ok}
use darknyx_capstone_project.Solana.{text_bytes}
use darknyx_capstone_project.Bytes.{Bytes}
use darknyx_capstone_project.Base.{subst, ◌≡◌, none, some, Option, take}

-- Where the seed comes from, over the world `S`: a store, or a signature of the wallet. The random
-- seed of `generateMasterSeed` comes from `fresh`.
pub data MasterSeedMode (S : Type 0) : Type 0 where
  csprng : Exec S (Option Bytes) → (Bytes → Exec S (Unit {0})) → MasterSeedMode S
  wallet_signature : (Bytes → Exec S Bytes) → Option Bytes → MasterSeedMode S

module _ {S : Type 0} (c : Crypto) (fresh : Exec S Bytes) where
  -- What `resolveMasterSeed` does with what the store holds.
  unfoldable pub stored_or_fresh : (Bytes → Exec S (Unit {0})) → Option Bytes → Exec S Bytes
  stored_or_fresh store (some existing) = pure existing
  stored_or_fresh store none = do seed ← fresh; store seed; pure seed

  abbrev pub seed_message : Option Bytes → Bytes
  seed_message none = text_bytes "NYX_DARKPOOL_SEED_V1"
  seed_message (some message) = message

  unfoldable pub resolve_master_seed : MasterSeedMode S → Exec S Bytes
  unfolding stored_or_fresh
  resolve_master_seed (csprng load store) = do existing ← load; stored_or_fresh store existing
  resolve_master_seed (wallet_signature sign message) = do
    sig ← sign (seed_message message)
    pure (take master_seed_bytes (c.sha512 sig))

-- A store that gives back what it was given last, and that reading does not change.
pub record IsStore {S : Type 0} (load : Exec S (Option Bytes)) (store : Bytes → Exec S (Unit {0}))
    : Type 0 where
  pub stored :
      (seed : Bytes) (s s' : S) → store seed s ≡ (ok tt, s') → load s' ≡ (ok (some seed), s')
  pub kept :
      (seed : Bytes) (s s' : S) → load s ≡ (ok (some seed), s') → load s' ≡ (ok (some seed), s')

module _ {S : Type 0} (c : Crypto) (fresh : Exec S Bytes) where
  loaded_again :
      (load : Exec S (Option Bytes)) (store : Bytes → Exec S (Unit {0})) (seed : Bytes) (s : S)
      → load s ≡ (ok (some seed), s)
      → resolve_master_seed c fresh (csprng load store) s ≡ (ok seed, s)
  unfolding resolve_master_seed stored_or_fresh
  loaded_again load store seed s e = rw e

  -- Over a faithful store, a seed that was resolved once is resolved to the same seed ever after: a
  -- second call returns it and leaves the store alone.
  pub resolve_master_seed_again :
      (load : Exec S (Option Bytes)) (store : Bytes → Exec S (Unit {0})) (seed : Bytes) (s s' : S)
      → IsStore load store
      → resolve_master_seed c fresh (csprng load store) s ≡ (ok seed, s')
      → resolve_master_seed c fresh (csprng load store) s' ≡ (ok seed, s')
  unfolding resolve_master_seed stored_or_fresh
  resolve_master_seed_again load store seed s s' law e =
      let (existing, s1, loaded, e1) = bind-ok load (stored_or_fresh c fresh store) seed s s' e in
      by_store existing s1 loaded e1
    where
      by_store :
          (existing : Option Bytes) (s1 : S)
          → load s ≡ (ok existing, s1)
          → stored_or_fresh c fresh store existing s1 ≡ (ok seed, s')
          → resolve_master_seed c fresh (csprng load store) s' ≡ (ok seed, s')
      by_store (some x) s1 loaded h =
          subst (λ (q : Result Bytes × S). resolve_master_seed c fresh (csprng load store) q.1 ≡ q)
            h (loaded_again load store x s1 (law.kept x s s1 loaded))
      by_store none s1 loaded h =
          let (x, s2, made, h1) = bind-ok fresh (λ y. store y >> pure y) seed s1 s' h in
          let (done, s3, kept, h2) = bind-ok (store x) (λ _. pure x) seed s2 s' h1 in
          subst (λ (q : Result Bytes × S). resolve_master_seed c fresh (csprng load store) q.1 ≡ q)
            h2 (loaded_again load store x s3 (law.stored x s2 s3 kept))

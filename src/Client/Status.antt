-- ===== src/Client/Status.antt =====
-- packages/sdk/src/client.ts: `getNoteStatus` on every outcome of its reads, and the seed that
-- `getResolvedKeys` keeps.
use darknyx_capstone_project.Client.{
  outside, ClientState, DarkPoolClient, AccountInfo, NoteStatus, active, locked, consumed, unknown,
  get_note_status, status_after, get_resolved_keys, seed_of, keys_of, ResolvedKeys,
}
use darknyx_capstone_project.Keys.Seeds.{resolve_master_seed}
use darknyx_capstone_project.Exec.{pure, bind-ok}
use darknyx_capstone_project.Base.{◌∙◌, sym, ap, ◌≡◌, refl, Option, some, none}
use darknyx_capstone_project.Errors.{ok_injective, Result, ok, err}
use darknyx_capstone_project.Bytes.{Bytes}
use darknyx_capstone_project.Solana.{Runtime, PublicKey}
use darknyx_capstone_project.VaultClient.{consumed_note_pda, note_lock_pda}
use darknyx_capstone_project.Keys.{Crypto}

-- What the two reads say of a note: of its ConsumedNote account, and of its NoteLock account.
unfoldable pub status_of_reads :
    Result (Option AccountInfo) → Result (Option AccountInfo) → NoteStatus
status_of_reads (err e) lock = unknown
status_of_reads (ok (some info)) lock = consumed
status_of_reads (ok none) (err e) = unknown
status_of_reads (ok none) (ok (some info)) = locked
status_of_reads (ok none) (ok none) = active

module _ {W : Type 0} (rt : Runtime) (client : DarkPoolClient W) where
  -- Where the account provider only reads, and the commitment has its two addresses, the status is
  -- the one that the reads give: consumed where a ConsumedNote account is found, locked where only a
  -- NoteLock account is, active where neither is, and unknown where a read that is needed fails. No
  -- exception leaves the call, and the client's state is left as it was.
  pub get_note_status_lem :
      (lookup : W → PublicKey → Result (Option AccountInfo)) (commitment : Bytes)
      (consumed_key lock_key : PublicKey) (s : ClientState W)
      → ((k : PublicKey) (w : W) → client.get_account_info k w ≡ (lookup w k, w))
      → consumed_note_pda rt client.program_id commitment ≡ ok consumed_key
      → note_lock_pda rt client.program_id commitment ≡ ok lock_key
      → get_note_status rt client commitment s
        ≡ (ok (status_of_reads (lookup s.world consumed_key) (lookup s.world lock_key)), s)
  unfolding get_note_status status_after status_of_reads
  get_note_status_lem lookup commitment consumed_key lock_key s reads ec el =
      by_reads (lookup s.world consumed_key) (lookup s.world lock_key) (reads consumed_key s.world)
        (reads lock_key s.world)
    where
      by_reads :
          (first second : Result (Option AccountInfo))
          → client.get_account_info consumed_key s.world ≡ (first, s.world)
          → client.get_account_info lock_key s.world ≡ (second, s.world)
          → get_note_status rt client commitment s ≡ (ok (status_of_reads first second), s)
      by_reads (err e) second e1 e2 = rw (ec, el, e1)
      by_reads (ok (some info)) second e1 e2 = rw (ec, el, e1)
      by_reads (ok none) (err e) e1 e2 = rw (ec, el, e1, e2)
      by_reads (ok none) (ok (some info)) e1 e2 = rw (ec, el, e1, e2)
      by_reads (ok none) (ok none) e1 e2 = rw (ec, el, e1, e2)

module _ {W : Type 0} (c : Crypto) (client : DarkPoolClient W) where
  seed_of_kept :
      (kept : Option Bytes) (seed : Bytes) (s s' : ClientState W)
      → s.resolved_seed ≡ kept
      → seed_of c client kept s ≡ (ok seed, s')
      → s'.resolved_seed ≡ some seed
  unfolding seed_of
  seed_of_kept (some x) seed s s' p e =
      let same : s ≡ s' = ap (λ (q : Result Bytes × ClientState W). q.1) e in
      let found : x ≡ seed = ok_injective (ap (λ (q : Result Bytes × ClientState W). q.0) e) in
      ap (λ (t : ClientState W). t.resolved_seed) (sym same) ∙ p ∙ ap (λ y. some y) found
  seed_of_kept none seed s s' p e =
      let (x, s1, got, kept) =
        bind-ok (outside (resolve_master_seed c client.random_seed client.seed_mode)) _ seed s s'
          e in
      let found : x ≡ seed = ok_injective (ap (λ (q : Result Bytes × ClientState W). q.0) kept) in
      ap (λ (q : Result Bytes × ClientState W). q.1.resolved_seed) (sym kept)
      ∙ ap (λ y. some y) found

  -- Whatever the world did meanwhile, a client that resolved its keys once has the same keys ever
  -- after: a later call returns them, and asks neither the store nor the wallet.
  pub get_resolved_keys_again :
      (keys : ResolvedKeys) (s s' : ClientState W) (w : W)
      → get_resolved_keys c client s ≡ (ok keys, s')
      → get_resolved_keys c client (record { world = w; resolved_seed = s'.resolved_seed })
        ≡ (ok keys, record { world = w; resolved_seed = s'.resolved_seed })
  unfolding get_resolved_keys seed_of
  get_resolved_keys_again keys s s' w e =
      let (seed, s1, got, made) =
        bind-ok (seed_of c client s.resolved_seed) (λ x. pure (keys_of c client x)) keys s s' e in
      let after : s1 ≡ s' = ap (λ (q : Result ResolvedKeys × ClientState W). q.1) made in
      let kept : s'.resolved_seed ≡ some seed =
        ap (λ (t : ClientState W). t.resolved_seed) (sym after)
        ∙ seed_of_kept s.resolved_seed seed s s1 refl got in
      let same : keys_of c client seed ≡ keys =
        ok_injective (ap (λ (q : Result ResolvedKeys × ClientState W). q.0) made) in
      with_seed s'.resolved_seed seed kept same
    where
      with_seed :
          (r : Option Bytes) (seed : Bytes)
          → r ≡ some seed
          → keys_of c client seed ≡ keys
          → get_resolved_keys c client (record { world = w; resolved_seed = r })
            ≡ (ok keys, record { world = w; resolved_seed = r })
      with_seed r seed p same =
          rw p (ap (λ k. (ok k, record { world = w; resolved_seed = some seed })) same)

-- ===== src/Client.antt =====
-- packages/sdk/src/client.ts and packages/sdk/src/providers.ts: the client over a world `W` that its
-- providers read and change. The state of a client is that world and the seed resolved so far; the
-- providers, the prover and the callbacks are parameters, and an object of optional callbacks is one
-- whose missing callbacks do nothing.
pub mod Keeping
pub mod Status
use darknyx_capstone_project.Base.{List, Option, none, some, ℕ}
use Prim.Native.String.{String}
use darknyx_capstone_project.Base.Int.{ℤ, pos}
use darknyx_capstone_project.Bytes.{Bytes}
use darknyx_capstone_project.Errors.{Result, ok, err, DarkPoolErrorStage}
use darknyx_capstone_project.Exec.{Exec, ◌>>=◌, ◌>>◌, pure, lift, restaged}
use darknyx_capstone_project.Solana.{Runtime, PublicKey, TransactionInstruction}
use darknyx_capstone_project.Keys.{
  Crypto, derive_spending_key, derive_master_viewing_key, derive_root_key,
  derive_trading_key_at_offset,
}
use darknyx_capstone_project.Keys.Seeds.{MasterSeedMode, resolve_master_seed}
use darknyx_capstone_project.VaultClient.{consumed_note_pda, note_lock_pda}

pub record AccountInfo : Type 0 where
  pub account_data : Bytes
  pub owner : PublicKey

pub record InclusionProof : Type 0 where
  pub root : Bytes
  pub siblings : List Bytes
  pub path_indices : List ℕ

-- `SpendInputs` and `Groth16ProofBytes` of packages/sdk/src/zk/prover-suite.ts.
pub record SpendInputs : Type 0 where
  pub merkle_root : ℕ
  pub nullifier : ℕ
  pub token_mint : ℕ × ℕ
  pub amount : ℤ
  pub spending_key : ℤ
  pub owner_commitment_blinding : ℤ
  pub nonce : ℤ
  pub blinding_r : ℤ
  pub merkle_path : List ℕ
  pub merkle_indices : List ℕ

pub record Groth16ProofBytes : Type 0 where
  pub pi_a : Bytes
  pub pi_b : Bytes
  pub pi_c : Bytes
  pub public_inputs : List Bytes

pub record ClientState (W : Type 0) : Type 0 where
  pub world : W
  pub resolved_seed : Option Bytes

pub record DarkPoolClient (W : Type 0) : Type 0 where
  pub program_id : PublicKey
  pub seed_mode : MasterSeedMode W
  pub trading_offset : ℤ
  pub owner_blinding : ℤ
  pub get_account_info : PublicKey → Exec W (Option AccountInfo)
  pub send_and_confirm : List TransactionInstruction → Exec W Bytes
  pub get_inclusion_proof : ℤ → Exec W InclusionProof
  pub spend_prove : SpendInputs → Exec W Groth16ProofBytes
  -- The random bytes of `generateMasterSeed`.
  pub random_seed : Exec W Bytes

-- They may use the client.
pub record TransactionCallbacks (W : Type 0) : Type 0 where
  pub pre : String → Exec (ClientState W) (Unit {0})
  pub post : String → Bytes → Exec (ClientState W) (Unit {0})

pub record ResolvedKeys : Type 0 where
  pub master_seed : Bytes
  pub spending_key : ℤ
  pub viewing_key : ℤ
  pub root_key : Bytes
  pub trading_key : Bytes
  pub owner_blinding : ℤ

pub data NoteStatus : Type 0 where
  active locked consumed unknown : NoteStatus

module _ {W A : Type 0} where
  -- A provider's call: it changes the world alone.
  abbrev pub outside : Exec W A → Exec (ClientState W) A
  outside call s =
      let done = call s.world in
      (done.0, record { world = done.1; resolved_seed = s.resolved_seed })

  -- `try { … } catch (e) { throw new DarkPoolError(stage, …) }`.
  abbrev pub attempt : DarkPoolErrorStage → Exec (ClientState W) A → Exec (ClientState W) A
  attempt stage m s = (restaged stage (m s).0, (m s).1)

  -- `catch { return fallback; }`.
  abbrev pub recover : A → Result A × ClientState W → Result A × ClientState W
  recover fallback (ok a, s) = (ok a, s)
  recover fallback (err e, s) = (ok fallback, s)

  abbrev pub try_or : A → Exec (ClientState W) A → Exec (ClientState W) A
  try_or fallback m s = recover fallback (m s)

module _ {W : Type 0} where
  -- `this.resolvedSeed = seed`.
  abbrev pub keep_seed : Bytes → Exec (ClientState W) Bytes
  keep_seed seed s = (ok seed, record { world = s.world; resolved_seed = some seed })

  module _ (c : Crypto) (client : DarkPoolClient W) where
    -- `if (!this.resolvedSeed) { … }`; a `Uint8Array` is never falsy.
    unfoldable pub seed_of : Option Bytes → Exec (ClientState W) Bytes
    seed_of (some seed) = pure seed
    seed_of none = do
      seed ← outside (resolve_master_seed c client.random_seed client.seed_mode)
      keep_seed seed

    abbrev pub keys_of : Bytes → ResolvedKeys
    keys_of seed = record {
      master_seed = seed;
      spending_key = pos (derive_spending_key c seed);
      viewing_key = pos (derive_master_viewing_key c seed);
      root_key = derive_root_key c seed;
      trading_key = derive_trading_key_at_offset c seed client.trading_offset;
      owner_blinding = client.owner_blinding;
    }

    unfoldable pub get_resolved_keys : Exec (ClientState W) ResolvedKeys
    unfolding seed_of
    get_resolved_keys s = (do seed ← seed_of s.resolved_seed; pure (keys_of seed)) s

  module _ (rt : Runtime) (client : DarkPoolClient W) where
    abbrev pub status_of_lock : Option AccountInfo → NoteStatus
    status_of_lock (some info) = locked
    status_of_lock none = active

    -- What follows the first read.
    unfoldable pub status_after : PublicKey → Option AccountInfo → Exec (ClientState W) NoteStatus
    status_after lock (some info) = pure consumed
    status_after lock none = do
      lock_info ← outside (client.get_account_info lock)
      pure (status_of_lock lock_info)

    unfoldable pub get_note_status : Bytes → Exec (ClientState W) NoteStatus
    unfolding status_after
    get_note_status commitment = try_or unknown (do
      consumed_pda ← lift (consumed_note_pda rt client.program_id commitment)
      lock_pda ← lift (note_lock_pda rt client.program_id commitment)
      consumed_info ← outside (client.get_account_info consumed_pda)
      status_after lock_pda consumed_info)

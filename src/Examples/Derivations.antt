-- ===== src/Examples/Derivations.antt =====
-- The theorems on the keys, the commitments, the client and the formats at concrete inputs.
use darknyx_capstone_project.Field.{note_commitment}
use darknyx_capstone_project.Base.{
  ◌%◌, length-replicate, ◌+◌, false, ◌++◌, true, take, Option, ◌⊎◌, length, ◌≡◌, refl, arith,
  replicate, none, some, ℕ, [], ◌∷◌,
}
use darknyx_capstone_project.Groth16.Negation.{negate_g1_lem}
use darknyx_capstone_project.Keys.Expand.{hkdf_expand_lem, blocks}
use darknyx_capstone_project.Groth16.{
  bn254_p, negate_g1, format_groth16_for_on_chain, FormatGroth16Result,
}
use darknyx_capstone_project.VaultClient.{note_lock_pda, consumed_note_pda, keyed_pda}
use darknyx_capstone_project.Groth16.Points.{
  format_groth16_for_on_chain-IsFormatted, IsFormatted, raw_proof, RawPoints,
}
use darknyx_capstone_project.Bytes.{zeros, be_value, Bytes}
use darknyx_capstone_project.Watcher.Decoded.{decode_trade_settled-event_chunks, event_chunks}
use darknyx_capstone_project.Client.Status.{
  get_resolved_keys_again, get_note_status_lem, status_of_reads,
}
use darknyx_capstone_project.Wire.{write_field, cat_fields}
use darknyx_capstone_project.Keys.Seeds.{
  resolve_master_seed_again, csprng, resolve_master_seed, IsStore,
}
use darknyx_capstone_project.Keys.Derived.{
  derive_blinding_factor_binding, ReducedCollision, blinding_input,
}
use darknyx_capstone_project.Keys.Binding.{user_commitment_from_keys_binding, UserCollision}
use darknyx_capstone_project.Field.Binding.{note_commitment_binding, PoseidonCollision, note_inputs}
use darknyx_capstone_project.Client.{
  keys_of, AccountInfo, seed_of, get_resolved_keys, get_note_status, ClientState,
}
use darknyx_capstone_project.Watcher.{u64_max, decode_trade_settled, TradeSettledEvent}
use darknyx_capstone_project.Keys.{hkdf_expand}
use darknyx_capstone_project.Examples.{toy_runtime, toy_poseidon, leaf_of, from_ok}
use darknyx_capstone_project.Errors.{ok, Result}
use darknyx_capstone_project.Base.Int.{pos}
use darknyx_capstone_project.Bytes.Chunks.{cat}
use darknyx_capstone_project.Solana.{PublicKey}
use darknyx_capstone_project.Kmac.Binding.{kmac_input_injective}
use darknyx_capstone_project.Keys.Commitments.{user_commitment_from_keys, UserCommitmentInputs}
use darknyx_capstone_project.Exec.{Exec}
use darknyx_capstone_project.Examples.Pipelines.{toy_crypto, toy_client, fresh_state, sample_note}

abbrev sample_seed : Bytes
sample_seed = replicate 64 5

kmac_input_injective_example :
    (sample_seed ≡ sample_seed) × (leaf_of 1 ≡ leaf_of 1) × (leaf_of 2 ≡ leaf_of 2)
kmac_input_injective_example =
    kmac_input_injective sample_seed sample_seed (leaf_of 1) (leaf_of 1) (leaf_of 2) (leaf_of 2) 64
      (omega arith) (omega arith) (omega arith) (omega arith) refl

hkdf_expand_lem_example :
    (length (hkdf_expand toy_crypto sample_seed (leaf_of 1) 64) ≡ 64)
    × (hkdf_expand toy_crypto sample_seed (leaf_of 1) 64
        ≡ take 64 (blocks toy_crypto (toy_crypto.hmac (zeros 32) sample_seed) (leaf_of 1) 64 [] 1))
hkdf_expand_lem_example =
    hkdf_expand_lem toy_crypto (λ key message. length-replicate 32 (length message % 256))
      sample_seed (leaf_of 1) 64

derive_blinding_factor_binding_example :
    ((sample_seed ≡ sample_seed) × (pos 3 ≡ pos 3))
    ⊎ ReducedCollision toy_crypto
        (blinding_input toy_crypto sample_seed (pos 3))
        (blinding_input toy_crypto sample_seed (pos 3))
derive_blinding_factor_binding_example =
    derive_blinding_factor_binding toy_crypto sample_seed sample_seed (pos 3) (pos 3) refl refl
      (omega arith) (omega arith) refl

-- A store that is the world itself.
abbrev load : Exec (Option Bytes) (Option Bytes)
load w = (ok w, w)

abbrev store : Bytes → Exec (Option Bytes) (Unit {0})
store seed w = (ok tt, some seed)

abbrev random : Exec (Option Bytes) Bytes
random w = (ok sample_seed, w)

load-store-IsStore : IsStore load store
load-store-IsStore = record { stored = λ seed s s' e. cc; kept = λ seed s s' e. cc }

stored_lem :
    resolve_master_seed toy_crypto random (csprng load store) none
    ≡ (ok sample_seed, some sample_seed)
unfolding resolve_master_seed
stored_lem = refl

resolve_master_seed_again_example :
    resolve_master_seed toy_crypto random (csprng load store) (some sample_seed)
    ≡ (ok sample_seed, some sample_seed)
resolve_master_seed_again_example =
    resolve_master_seed_again toy_crypto random load store sample_seed none (some sample_seed)
      load-store-IsStore stored_lem

abbrev toy_lookup : ℕ → PublicKey → Result (Option AccountInfo)
toy_lookup w key = ok (some (record { account_data = replicate 120 0; owner = leaf_of 20 }))

keyed_lem :
    (consumed_note_pda toy_runtime (leaf_of 20) (leaf_of 1) ≡ ok (leaf_of 2))
    × (note_lock_pda toy_runtime (leaf_of 20) (leaf_of 1) ≡ ok (leaf_of 2))
unfolding keyed_pda cat_fields write_field
keyed_lem = (refl, refl)

get_note_status_lem_example :
    get_note_status toy_runtime toy_client (leaf_of 1) fresh_state
    ≡ (ok (status_of_reads (toy_lookup 0 (leaf_of 2)) (toy_lookup 0 (leaf_of 2))), fresh_state)
get_note_status_lem_example =
    get_note_status_lem toy_runtime toy_client toy_lookup (leaf_of 1) (leaf_of 2) (leaf_of 2)
      fresh_state (λ k w. refl) keyed_lem.0 keyed_lem.1

abbrev known_state : ClientState ℕ
known_state = record { world = 4; resolved_seed = some sample_seed }

resolved_lem :
    get_resolved_keys toy_crypto toy_client known_state
    ≡ (ok (keys_of toy_crypto toy_client sample_seed), known_state)
unfolding get_resolved_keys seed_of
resolved_lem = refl

get_resolved_keys_again_example :
    get_resolved_keys toy_crypto toy_client (record { world = 8; resolved_seed = some sample_seed })
    ≡ (
      ok (keys_of toy_crypto toy_client sample_seed),
      record { world = 8; resolved_seed = some sample_seed },
    )
get_resolved_keys_again_example =
    get_resolved_keys_again toy_crypto toy_client (keys_of toy_crypto toy_client sample_seed)
      known_state known_state 8 resolved_lem

abbrev sample_commitment : Bytes
unfolding note_commitment
sample_commitment = from_ok [] (note_commitment toy_poseidon sample_note)

sample_commitment_lem : note_commitment toy_poseidon sample_note ≡ ok sample_commitment
unfolding note_commitment sample_commitment
sample_commitment_lem = refl

note_commitment_binding_example :
    (sample_note ≡ sample_note)
    ⊎ PoseidonCollision toy_poseidon (note_inputs sample_note) (note_inputs sample_note)
note_commitment_binding_example =
    note_commitment_binding toy_poseidon sample_note sample_note sample_commitment (omega arith)
      (omega arith) sample_commitment_lem sample_commitment_lem

abbrev sample_user : UserCommitmentInputs
sample_user = record {
  root_key_pubkey = leaf_of 1;
  spending_key = pos 2;
  viewing_key = pos 3;
  r0 = pos 4;
  r1 = pos 5;
  r2 = pos 6;
}

abbrev user_bytes : Bytes
unfolding user_commitment_from_keys
user_bytes = from_ok [] (user_commitment_from_keys toy_poseidon sample_user)

user_bytes_lem : user_commitment_from_keys toy_poseidon sample_user ≡ ok user_bytes
unfolding user_commitment_from_keys user_bytes
user_bytes_lem = refl

user_commitment_from_keys_binding_example :
    (sample_user ≡ sample_user) ⊎ UserCollision toy_poseidon sample_user sample_user
user_commitment_from_keys_binding_example =
    user_commitment_from_keys_binding toy_poseidon sample_user sample_user user_bytes (omega arith)
      (omega arith) user_bytes_lem user_bytes_lem

abbrev sample_event : TradeSettledEvent
sample_event = record {
  match_id = replicate 16 1;
  clearing_price = 2;
  base_amount = 3;
  quote_amount = 4;
  buyer_change_amt = 5;
  seller_change_amt = 6;
  buyer_fee_amt = 7;
  seller_fee_amt = 8;
  note_c_leaf = 9;
  note_d_leaf = 10;
  note_e_leaf = 11;
  note_f_leaf = u64_max;
  note_fee_leaf = u64_max;
  buyer_relock_active = true;
  seller_relock_active = false;
  new_root = leaf_of 12;
}

decode_trade_settled-event_chunks_example :
    decode_trade_settled (cat (event_chunks sample_event)) ≡ ok sample_event
decode_trade_settled-event_chunks_example = decode_trade_settled-event_chunks sample_event (record {
  match_id_size = refl;
  clearing_price_u64 = omega arith;
  base_amount_u64 = omega arith;
  quote_amount_u64 = omega arith;
  buyer_change_amt_u64 = omega arith;
  seller_change_amt_u64 = omega arith;
  buyer_fee_amt_u64 = omega arith;
  seller_fee_amt_u64 = omega arith;
  note_c_leaf_u64 = omega arith;
  note_d_leaf_u64 = omega arith;
  note_e_leaf_u64 = omega arith;
  note_f_leaf_u64 = omega arith;
  note_fee_leaf_u64 = omega arith;
  new_root_size = refl;
})

-- The point (1, 2), whose coordinates are the texts "1" and "2".
abbrev sample_points : RawPoints
sample_points = record {
  ax = 49 ∷ [];
  ay = 50 ∷ [];
  bx0 = 51 ∷ [];
  bx1 = 52 ∷ [];
  by0 = 53 ∷ [];
  by1 = 54 ∷ [];
  cx = 55 ∷ [];
  cy = 49 ∷ 48 ∷ [];
}

format_groth16_for_on_chain-IsFormatted_example :
    (r : FormatGroth16Result) × (format_groth16_for_on_chain
        (raw_proof sample_points [] [])
        ((49 ∷ []) ∷ [])
      ≡ ok r)
    × IsFormatted sample_points ((49 ∷ []) ∷ []) r
format_groth16_for_on_chain-IsFormatted_example =
    format_groth16_for_on_chain-IsFormatted sample_points [] [] ((49 ∷ []) ∷ [])
      (
        (refl, omega arith),
        (
          (refl, omega arith),
          (
            (refl, omega arith),
            (
              (refl, omega arith),
              (
                (refl, omega arith),
                ((refl, omega arith), ((refl, omega arith), ((refl, omega arith), tt))),
              ),
            ),
          ),
        ),
      )
      ((refl, omega arith), tt)

negate_g1_lem_example :
    (y' : Bytes) × (negate_g1 (leaf_of 1 ++ leaf_of 2) ≡ ok (leaf_of 1 ++ y'))
    × (length y' ≡ 32)
    × (be_value y' + be_value (leaf_of 2) ≡ be_value bn254_p)
    × (negate_g1 (leaf_of 1 ++ y') ≡ ok (leaf_of 1 ++ leaf_of 2))
negate_g1_lem_example = negate_g1_lem (leaf_of 1) (leaf_of 2) refl refl (omega arith) (omega arith)

-- ===== src/Examples.antt =====
-- Concrete inputs on which the theorems apply: toy hashes, a runtime, payloads, a session.
mod Accounts
mod Trees
mod Settlements
mod Sessions
mod Replays
mod Pipelines
mod Trades
mod Derivations
mod Amounts
use darknyx_capstone_project.Base.{◌*◌, ◌+◌, ◌%◌, get_or, replicate, arith, ℕ, length}
use darknyx_capstone_project.Errors.{err, ok, Result}
use darknyx_capstone_project.Base.Int.{pos}
use darknyx_capstone_project.Solana.{Runtime}
use darknyx_capstone_project.Settlement.{MatchResultPayload}
use darknyx_capstone_project.Field.{Poseidon}
use darknyx_capstone_project.Bytes.{Bytes}

-- The value of a call that returns, and a default for one that throws.
abbrev pub from_ok {ℓ} : {A : Type ℓ} → A → Result A → A
from_ok d (ok a) = a
from_ok d (err e) = d

abbrev pub toy_hash : Bytes → Bytes → Bytes
toy_hash a b = replicate 32 ((get_or a 0 0 + 2 * get_or b 0 0 + 1) % 256)

abbrev pub toy_sha256 : Bytes → Bytes
toy_sha256 m = replicate 32 (length m % 256)

abbrev pub leaf_of : ℕ → Bytes
leaf_of n = replicate 32 n

abbrev pub toy_runtime : Runtime
toy_runtime = record {
  sha256 = toy_sha256;
  find_program_address = λ seeds program. (leaf_of (length seeds), 255);
  system_program = leaf_of 0;
  rent_sysvar = leaf_of 1;
  instructions_sysvar = leaf_of 2;
  ed25519_program = leaf_of 3;
}

abbrev pub toy_poseidon : Poseidon
toy_poseidon = record { hash = λ inputs. 7; in_field = λ inputs. omega arith }

-- A settlement with one change note and no fee note.
abbrev pub sample_payload : MatchResultPayload
sample_payload = record {
  match_id = replicate 16 1;
  note_a_commitment = leaf_of 2;
  note_b_commitment = leaf_of 3;
  note_c_commitment = leaf_of 4;
  note_d_commitment = leaf_of 5;
  note_e_commitment = leaf_of 6;
  note_f_commitment = leaf_of 0;
  nullifier_a = leaf_of 7;
  nullifier_b = leaf_of 8;
  order_id_a = replicate 16 9;
  order_id_b = replicate 16 10;
  base_amount = pos 11;
  quote_amount = pos 12;
  buyer_change_amt = pos 13;
  seller_change_amt = pos 14;
  buyer_fee_amt = pos 0;
  seller_fee_amt = pos 0;
  note_fee_commitment = leaf_of 0;
  buyer_relock_order_id = replicate 16 0;
  buyer_relock_expiry = pos 0;
  seller_relock_order_id = replicate 16 0;
  seller_relock_expiry = pos 0;
  clearing_price = pos 15;
  batch_slot = pos 16;
}

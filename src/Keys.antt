-- ===== src/Keys.antt =====
-- packages/sdk/src/keys: the derivation of a trader's keys from the master seed
-- (key-generators.ts) and trading-key rotation (key-rotation.ts). HMAC-SHA256, SHAKE256 and SHA-512
-- (node:crypto) are parameters; a keypair is its 32-byte secret.
pub mod Expand
pub mod Derived
pub mod Commitments
pub mod Binding
pub mod Seeds
use darknyx_capstone_project.Base.{
  ◌-◌, leb, if◌then◌else◌, ℕ, zero, suc, ◌+◌, ◌%◌, [], ◌∷◌, ◌++◌, length, take,
}
use darknyx_capstone_project.Base.Int.{◌+ℤ◌, ℤ, pos}
use darknyx_capstone_project.Field.{bn254_r}
use darknyx_capstone_project.Bytes.{Bytes, zeros, be_value, le_bytes, wrap64}
use darknyx_capstone_project.Solana.{text_bytes}
use darknyx_capstone_project.Kmac.{kmac256}

abbrev pub master_seed_bytes : ℕ
master_seed_bytes = 64

pub record Crypto : Type 0 where
  -- HMAC-SHA256 of a key and a message.
  pub hmac : Bytes → Bytes → Bytes
  -- SHAKE256 of a message, of a length.
  pub shake256 : Bytes → ℕ → Bytes
  pub sha512 : Bytes → Bytes

-- `reduceMod`: a big-endian number modulo r.
unfoldable pub reduce_mod : Bytes → ℕ
reduce_mod bytes = be_value bytes % bn254_r

module _ (c : Crypto) where
  -- The loop of `hkdfExpand`: `out` is the part that is filled, `prev` the last block. A block has at
  -- least a byte, so that `len` rounds are enough.
  unfoldable pub expand_loop : Bytes → Bytes → ℕ → ℕ → Bytes → ℕ → Bytes → Bytes
  expand_loop prk info len zero prev counter out = out
  expand_loop prk info len (suc fuel) prev counter out =
      let block = c.hmac prk (prev ++ (info ++ (counter % 256) ∷ [])) in
      let rest =
        expand_loop prk info len fuel block (counter + 1) (out ++ take (len - length out) block) in
      if leb len (length out) then out else rest

  unfoldable pub hkdf_expand : Bytes → Bytes → ℕ → Bytes
  unfolding expand_loop
  hkdf_expand ikm info len = expand_loop (c.hmac (zeros 32) ikm) info len len [] 1 []

  unfoldable pub derive_spending_key : Bytes → ℕ
  unfolding hkdf_expand reduce_mod
  derive_spending_key seed = reduce_mod (hkdf_expand seed (text_bytes "darkpool_spend_key_v1") 64)

  unfoldable pub derive_master_viewing_key : Bytes → ℕ
  unfolding kmac256 reduce_mod
  derive_master_viewing_key seed =
      reduce_mod (kmac256 c.shake256 seed (text_bytes "darkpool_viewing_key_v1") [] 64)

  -- `info ‖ offset`, the offset as a little-endian `u64`.
  abbrev pub with_offset : Bytes → ℤ → Bytes
  with_offset info offset = info ++ le_bytes 8 (wrap64 offset)

  unfoldable pub derive_trading_key_at_offset : Bytes → ℤ → Bytes
  unfolding hkdf_expand
  derive_trading_key_at_offset seed offset =
      hkdf_expand seed (with_offset (text_bytes "darkpool_trading_key_v1") offset) 32

  unfoldable pub derive_root_key : Bytes → Bytes
  unfolding hkdf_expand
  derive_root_key seed = hkdf_expand seed (text_bytes "darkpool_root_key_v1") 32

  unfoldable pub derive_blinding_factor : Bytes → ℤ → ℕ
  unfolding kmac256 reduce_mod
  derive_blinding_factor seed counter =
      reduce_mod
        (kmac256 c.shake256 seed (with_offset (text_bytes "note_blinding_v1") counter) [] 64)

  -- `rotateTradingKey`: the next offset, and its key.
  unfoldable pub rotate_trading_key : Bytes → ℤ → ℤ × Bytes
  unfolding derive_trading_key_at_offset
  rotate_trading_key seed current_offset =
      let next_offset = current_offset +ℤ pos 1 in
      (next_offset, derive_trading_key_at_offset seed next_offset)

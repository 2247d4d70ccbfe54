-- ===== src/Keys/Derived.antt =====
-- packages/sdk/src/keys/key-generators.ts: what the derived numbers depend on.
use darknyx_capstone_project.Base.{
  inr, inl, ◌⊎◌, drop, arith, ap, ◌%◌, drop-append, length-append, ◌≢◌, ◌≡◌, length, refl, ℕ, [],
  ◌∙◌, sym,
}
use darknyx_capstone_project.Kmac.Binding.{kmac_input_injective}
use darknyx_capstone_project.Field.{bn254_r, bn254_to_be32}
use darknyx_capstone_project.Bytes.{wrap64, be_value, IsU64, le_bytes, Bytes}
use darknyx_capstone_project.Wire.Layout.{u64_le_injective}
use darknyx_capstone_project.Keys.{
  hkdf_expand, with_offset, reduce_mod, derive_master_viewing_key, derive_spending_key,
  derive_blinding_factor, Crypto,
}
use darknyx_capstone_project.Solana.{text_bytes}
use darknyx_capstone_project.Errors.{ok}
use darknyx_capstone_project.Base.Int.{ℤ, pos}
use darknyx_capstone_project.Kmac.{kmac256, kmac_input}
use darknyx_capstone_project.Field.Encoding.{bn254_to_be32_lem}
use darknyx_capstone_project.Inclusion.Proofs.{Bytes-discrete}

-- These two SHAKE256 inputs differ, and their 64 bytes of output are one number modulo r.
pub record ReducedCollision (c : Crypto) (input input' : Bytes) : Type 0 where
  pub same_number : reduce_mod (c.shake256 input 64) ≡ reduce_mod (c.shake256 input' 64)
  pub differ : input ≢ input'

with_offset_injective :
    (c : Crypto) (info : Bytes) (n n' : ℤ)
    → IsU64 n
    → IsU64 n'
    → with_offset c info n ≡ with_offset c info n'
    → n ≡ n'
with_offset_injective c info n n' h h' e = u64_le_injective n n' h h' (
    sym (drop-append (length info) info (le_bytes 8 (wrap64 n)) refl)
    ∙ ap (drop (length info)) e
    ∙ drop-append (length info) info (le_bytes 8 (wrap64 n')) refl)

-- What KMAC256 hashes for the blinding factor of a seed at a counter.
abbrev pub blinding_input : Crypto → Bytes → ℤ → Bytes
blinding_input c seed counter =
    kmac_input seed (with_offset c (text_bytes "note_blinding_v1") counter) [] 64

blinding_input_injective :
    (c : Crypto) (seed seed' : Bytes) (n n' : ℤ)
    → length seed ≡ 64
    → length seed' ≡ 64
    → IsU64 n
    → IsU64 n'
    → blinding_input c seed n ≡ blinding_input c seed' n'
    → (seed ≡ seed') × (n ≡ n')
blinding_input_injective c seed seed' n n' hs hs' hn hn' e =
    let info : Bytes = text_bytes "note_blinding_v1" in
    let size : (k : ℤ) → length (with_offset c info k) ≡ 24 =
      λ k. length-append info (le_bytes 8 (wrap64 k)) in
    let (seeds, infos, _) =
      kmac_input_injective seed seed' (with_offset c info n) (with_offset c info n') [] [] 64
        (omega (arith, hs)) (omega (arith, hs')) (omega (arith, size n)) (omega (arith, size n'))
        e in
    (seeds, with_offset_injective c info n n' hn hn' infos)

-- Two 64-byte seeds with one blinding factor at two `u64` counters: seed and counter are the same, or
-- KMAC256's inputs for the two differ and their SHAKE256 outputs are one number modulo r.
pub derive_blinding_factor_binding :
    (c : Crypto) (seed seed' : Bytes) (n n' : ℤ)
    → length seed ≡ 64
    → length seed' ≡ 64
    → IsU64 n
    → IsU64 n'
    → derive_blinding_factor c seed n ≡ derive_blinding_factor c seed' n'
    → ((seed ≡ seed') × (n ≡ n'))
      ⊎ ReducedCollision c (blinding_input c seed n) (blinding_input c seed' n')
unfolding derive_blinding_factor kmac256
derive_blinding_factor_binding c seed seed' n n' hs hs' hn hn' e =
    elim (Bytes-discrete (blinding_input c seed n) (blinding_input c seed' n')) [
      | yes same ↦ inl (blinding_input_injective c seed seed' n n' hs hs' hn hn' same)
      | no other ↦ inr (record { same_number = e; differ = other })
    ]

-- The field encoding takes the number, gives 32 bytes and loses nothing.
abbrev pub IsEncoded : ℕ → Type 0
IsEncoded k = (b : Bytes) × (bn254_to_be32 (pos k) ≡ ok b) × (length b ≡ 32) × (be_value b ≡ k)

-- Spending key, viewing key and blinding factors are field elements: each is encoded in 32 bytes, which
-- read back as it.
pub derived_keys-IsEncoded :
    (c : Crypto) (seed : Bytes) (counter : ℤ)
    → IsEncoded (derive_spending_key c seed)
      × IsEncoded (derive_master_viewing_key c seed)
      × IsEncoded (derive_blinding_factor c seed counter)
unfolding derive_spending_key derive_master_viewing_key derive_blinding_factor reduce_mod
derived_keys-IsEncoded c seed counter = (
  bn254_to_be32_lem
      (be_value (hkdf_expand c seed (text_bytes "darkpool_spend_key_v1") 64) % bn254_r)
      (omega arith),
  bn254_to_be32_lem
      (be_value (kmac256 c.shake256 seed (text_bytes "darkpool_viewing_key_v1") [] 64) % bn254_r)
      (omega arith),
  bn254_to_be32_lem
      (be_value
          (kmac256 c.shake256 seed (with_offset c (text_bytes "note_blinding_v1") counter) [] 64)
        % bn254_r)
      (omega arith),
)

-- ===== src/Field/Binding.antt =====
-- packages/sdk/src/utxo/note.ts: what a note commitment determines.
use darknyx_capstone_project.Base.{ℕ, subst, ◌≡◌, ◌≢◌, ◌⊎◌, inl, inr, sym, ap, ◌∙◌, List, [], ◌∷◌}
use darknyx_capstone_project.Base.Int.{ℤ, pos, negsuc, pos_part}
use darknyx_capstone_project.Bytes.{Bytes, IsBytes}
use darknyx_capstone_project.Errors.{ok, bind-ok_then}
use darknyx_capstone_project.Field.{
  Poseidon, Note, note_commitment, pubkey_to_fr_pair, poseidon_hash_bytes_be, bn254_to_be32,
}
use darknyx_capstone_project.Field.Encoding.{
  bn254_to_be32_inverse, pubkey_to_fr_pair_injective, pubkey_to_fr_pair-halves, halves,
}
use mathlib.Core.List.{List-discrete}
use native.Mathlib.Decide.{ℕ_discrete}

-- These two inputs differ and have one Poseidon hash.
pub record PoseidonCollision (p : Poseidon) (inputs inputs' : List ℤ) : Type 0 where
  pub same_hash : p.hash inputs ≡ p.hash inputs'
  pub differ : inputs ≢ inputs'

ℤ-discrete : Discrete ℤ
ℤ-discrete (pos a) (pos b) = elim (ℕ_discrete a b) [
  | yes e ↦ yes (ap pos e)
  | no n ↦ no (λ e. n (ap pos_part e))
]
ℤ-discrete (negsuc a) (negsuc b) = elim (ℕ_discrete a b) [
  | yes e ↦ yes (ap negsuc e)
  | no n ↦ no (λ e. n (cc))
]
ℤ-discrete (pos a) (negsuc b) = no (λ e. cc)
ℤ-discrete (negsuc a) (pos b) = no (λ e. cc)

pub hash-cases :
    (p : Poseidon) (xs ys : List ℤ) → p.hash xs ≡ p.hash ys → (xs ≡ ys) ⊎ PoseidonCollision p xs ys
hash-cases p xs ys e = elim (List-discrete ℤ-discrete xs ys) [
  | yes same ↦ inl same
  | no other ↦ inr (record { same_hash = e; differ = other })
]

-- Encoded alike, the hashes are the same.
pub encoded_hashes :
    (p : Poseidon) (xs ys : List ℤ) (b : Bytes)
    → bn254_to_be32 (pos (p.hash xs)) ≡ ok b
    → bn254_to_be32 (pos (p.hash ys)) ≡ ok b
    → p.hash xs ≡ p.hash ys
encoded_hashes p xs ys b e e' = ap pos_part (
    sym (bn254_to_be32_inverse (pos (p.hash xs)) b e)
    ∙ bn254_to_be32_inverse (pos (p.hash ys)) b e')

-- The six inputs of a note's commitment, in order.
abbrev pub note_inputs : Note → List ℤ
note_inputs n =
    pos (halves n.token_mint).0
    ∷ pos (halves n.token_mint).1
    ∷ n.amount
    ∷ n.owner_commitment
    ∷ n.nonce
    ∷ n.blinding_r
    ∷ []

note_commitment-hash :
    (p : Poseidon) (note : Note) (b : Bytes)
    → note_commitment p note ≡ ok b
    → (pubkey_to_fr_pair note.token_mint ≡ ok (halves note.token_mint))
      × (bn254_to_be32 (pos (p.hash (note_inputs note))) ≡ ok b)
unfolding note_commitment poseidon_hash_bytes_be
note_commitment-hash p note b e = bind-ok_then (pubkey_to_fr_pair note.token_mint) _ e λ mint m r.
    let split = (pubkey_to_fr_pair-halves note.token_mint mint m).1 in
    (
      m ∙ ap ok split,
      subst
          (λ (q : ℕ × ℕ).
            bn254_to_be32 (
              pos (
                p.hash (
                  pos q.0
                  ∷ pos q.1
                  ∷ note.amount
                  ∷ note.owner_commitment
                  ∷ note.nonce
                  ∷ note.blinding_r
                  ∷ [])))
            ≡ ok b)
          split r,
    )

-- A commitment determines its note: two notes with one commitment, whose mints are bytes, are equal, or
-- the six inputs of the one and those of the other are different lists with one Poseidon hash.
pub note_commitment_binding :
    (p : Poseidon) (note note' : Note) (b : Bytes)
    → IsBytes note.token_mint
    → IsBytes note'.token_mint
    → note_commitment p note ≡ ok b
    → note_commitment p note' ≡ ok b
    → (note ≡ note') ⊎ PoseidonCollision p (note_inputs note) (note_inputs note')
note_commitment_binding p note note' b h h' e e' =
    let (m, r) = note_commitment-hash p note b e in
    let (m', r') = note_commitment-hash p note' b e' in
    elim (hash-cases p (note_inputs note) (note_inputs note')
      (encoded_hashes p (note_inputs note) (note_inputs note') b r r')) [
        | inr collision ↦ inr collision
        | inl same ↦ inl (same_note m m' same)
      ]
  where
    same_note :
        pubkey_to_fr_pair note.token_mint ≡ ok (halves note.token_mint)
        → pubkey_to_fr_pair note'.token_mint ≡ ok (halves note'.token_mint)
        → note_inputs note ≡ note_inputs note'
        → note ≡ note'
    same_note m m' same =
        let lo : pos (halves note.token_mint).0 ≡ pos (halves note'.token_mint).0 = cc in
        let hi : pos (halves note.token_mint).1 ≡ pos (halves note'.token_mint).1 = cc in
        let amounts : note.amount ≡ note'.amount = cc in
        let owners : note.owner_commitment ≡ note'.owner_commitment = cc in
        let nonces : note.nonce ≡ note'.nonce = cc in
        let blindings : note.blinding_r ≡ note'.blinding_r = cc in
        let pair : halves note.token_mint ≡ halves note'.token_mint =
          λ i. (pos_part (lo i), pos_part (hi i)) in
        let mints : note.token_mint ≡ note'.token_mint =
          pubkey_to_fr_pair_injective note.token_mint note'.token_mint (halves note'.token_mint) h
            h' (m ∙ ap ok pair) m' in
        λ i. record {
          token_mint = mints i;
          amount = amounts i;
          owner_commitment = owners i;
          nonce = nonces i;
          blinding_r = blindings i;
        }

-- ===== src/Keys/Binding.antt =====
-- packages/sdk/src/keys/user-commitment.ts: what a user commitment determines.
use darknyx_capstone_project.Errors.{other_error, throw_if, ok, bind-ok_then}
use darknyx_capstone_project.Base.{
  subst, ◌==◌, length, not, ℕ, ◌≡◌, ◌⊎◌, inl, inr, ap, ◌∙◌, List, [], ◌∷◌,
}
use darknyx_capstone_project.Field.{pubkey_to_fr_pair, Poseidon, bn254_to_be32}
use darknyx_capstone_project.Keys.Commitments.{user_commitment_from_keys, UserCommitmentInputs}
use darknyx_capstone_project.Base.Int.{ℤ, pos, pos_part}
use darknyx_capstone_project.Bytes.{Bytes, IsBytes}
use darknyx_capstone_project.Field.Binding.{PoseidonCollision, hash-cases, encoded_hashes}
use darknyx_capstone_project.Field.Encoding.{
  pubkey_to_fr_pair_injective, pubkey_to_fr_pair-halves, halves,
}

pair_cases :
    (p : Poseidon) (a b a' b' : ℤ)
    → p.hash (a ∷ b ∷ []) ≡ p.hash (a' ∷ b' ∷ [])
    → ((a ≡ a') × (b ≡ b')) ⊎ PoseidonCollision p (a ∷ b ∷ []) (a' ∷ b' ∷ [])
pair_cases p a b a' b' e = elim (hash-cases p (a ∷ b ∷ []) (a' ∷ b' ∷ []) e) [
  | inr collision ↦ inr collision
  | inl same ↦ inl (cc, cc)
]

-- The inputs of the five hashes of a user commitment: its three leaves, the first pair, the root.
abbrev root_inputs : UserCommitmentInputs → List ℤ
root_inputs u = pos (halves u.root_key_pubkey).0 ∷ pos (halves u.root_key_pubkey).1 ∷ u.r0 ∷ []

abbrev spend_inputs : UserCommitmentInputs → List ℤ
spend_inputs u = u.spending_key ∷ u.r1 ∷ []

abbrev view_inputs : UserCommitmentInputs → List ℤ
view_inputs u = u.viewing_key ∷ u.r2 ∷ []

module _ (p : Poseidon) where
  abbrev pair_inputs : UserCommitmentInputs → List ℤ
  pair_inputs u = pos (p.hash (root_inputs u)) ∷ pos (p.hash (spend_inputs u)) ∷ []

  abbrev top_inputs : UserCommitmentInputs → List ℤ
  top_inputs u = pos (p.hash (pair_inputs u)) ∷ pos (p.hash (view_inputs u)) ∷ []

  -- One of the five hashes collides on the inputs of the two users.
  pub data UserCollision (u v : UserCommitmentInputs) : Type 0 where
    at_root_key : PoseidonCollision p (root_inputs u) (root_inputs v) → UserCollision u v
    at_spending_key : PoseidonCollision p (spend_inputs u) (spend_inputs v) → UserCollision u v
    at_viewing_key : PoseidonCollision p (view_inputs u) (view_inputs v) → UserCollision u v
    at_pair : PoseidonCollision p (pair_inputs u) (pair_inputs v) → UserCollision u v
    at_top : PoseidonCollision p (top_inputs u) (top_inputs v) → UserCollision u v

  opened :
      (u v : UserCommitmentInputs)
      → p.hash (top_inputs u) ≡ p.hash (top_inputs v)
      → ((root_inputs u ≡ root_inputs v)
          × ((u.spending_key ≡ v.spending_key) × (u.r1 ≡ v.r1))
          × ((u.viewing_key ≡ v.viewing_key) × (u.r2 ≡ v.r2)))
        ⊎ UserCollision u v
  opened u v e =
      elim (pair_cases p (pos (p.hash (pair_inputs u))) (pos (p.hash (view_inputs u)))
        (pos (p.hash (pair_inputs v))) (pos (p.hash (view_inputs v))) e) [
          | inr collision ↦ inr (at_top collision)
          | inl top ↦
              elim (pair_cases p (pos (p.hash (root_inputs u))) (pos (p.hash (spend_inputs u)))
                (pos (p.hash (root_inputs v))) (pos (p.hash (spend_inputs v)))
                (ap pos_part top.0)) [
                  | inr collision ↦ inr (at_pair collision)
                  | inl pair ↦
                      elim (hash-cases p (root_inputs u) (root_inputs v) (ap pos_part pair.0)) [
                        | inr collision ↦ inr (at_root_key collision)
                        | inl roots ↦
                            elim (pair_cases p u.spending_key u.r1 v.spending_key v.r1
                              (ap pos_part pair.1)) [
                                | inr collision ↦ inr (at_spending_key collision)
                                | inl spends ↦
                                    elim (pair_cases p u.viewing_key u.r2 v.viewing_key v.r2
                                      (ap pos_part top.1)) [
                                        | inr collision ↦ inr (at_viewing_key collision)
                                        | inl views ↦ inl (roots, spends, views)
                                      ]
                              ]
                      ]
                ]
        ]

user_commitment_from_keys-hash :
    (p : Poseidon) (u : UserCommitmentInputs) (b : Bytes)
    → user_commitment_from_keys p u ≡ ok b
    → (pubkey_to_fr_pair u.root_key_pubkey ≡ ok (halves u.root_key_pubkey))
      × (bn254_to_be32 (pos (p.hash (top_inputs p u))) ≡ ok b)
unfolding user_commitment_from_keys
user_commitment_from_keys-hash p u b e =
    bind-ok_then (throw_if (not (length u.root_key_pubkey == 32)) other_error) _ e λ d c r.
      bind-ok_then (pubkey_to_fr_pair u.root_key_pubkey) _ r λ root m s.
        let split = (pubkey_to_fr_pair-halves u.root_key_pubkey root m).1 in
        (
          m ∙ ap ok split,
          subst
              (λ (q : ℕ × ℕ).
                bn254_to_be32 (
                  pos (
                    p.hash (
                      pos (
                        p.hash (
                          pos (p.hash (pos q.0 ∷ pos q.1 ∷ u.r0 ∷ []))
                          ∷ pos (p.hash (spend_inputs u))
                          ∷ []))
                      ∷ pos (p.hash (view_inputs u))
                      ∷ [])))
                ≡ ok b)
              split s,
        )

-- A user commitment determines the keys under it: two of them with one commitment, whose root keys are
-- bytes, have the same root key, spending key, viewing key and blinding factors, or one of the
-- commitment's five Poseidon hashes has, for the two of them, different inputs and one result.
pub user_commitment_from_keys_binding :
    (p : Poseidon) (u v : UserCommitmentInputs) (b : Bytes)
    → IsBytes u.root_key_pubkey
    → IsBytes v.root_key_pubkey
    → user_commitment_from_keys p u ≡ ok b
    → user_commitment_from_keys p v ≡ ok b
    → (u ≡ v) ⊎ UserCollision p u v
user_commitment_from_keys_binding p u v b hu hv eu ev =
    let (mu, su) = user_commitment_from_keys-hash p u b eu in
    let (mv, sv) = user_commitment_from_keys-hash p v b ev in
    elim (opened p u v (encoded_hashes p (top_inputs p u) (top_inputs p v) b su sv)) [
      | inr collision ↦ inr collision
      | inl (roots, spends, views) ↦ inl (same mu mv roots spends views)
    ]
  where
    same :
        pubkey_to_fr_pair u.root_key_pubkey ≡ ok (halves u.root_key_pubkey)
        → pubkey_to_fr_pair v.root_key_pubkey ≡ ok (halves v.root_key_pubkey)
        → root_inputs u ≡ root_inputs v
        → (u.spending_key ≡ v.spending_key) × (u.r1 ≡ v.r1)
        → (u.viewing_key ≡ v.viewing_key) × (u.r2 ≡ v.r2)
        → u ≡ v
    same mu mv roots spends views =
        let lo : pos (halves u.root_key_pubkey).0 ≡ pos (halves v.root_key_pubkey).0 = cc in
        let hi : pos (halves u.root_key_pubkey).1 ≡ pos (halves v.root_key_pubkey).1 = cc in
        let blinds : u.r0 ≡ v.r0 = cc in
        let pair : halves u.root_key_pubkey ≡ halves v.root_key_pubkey =
          λ i. (pos_part (lo i), pos_part (hi i)) in
        let root_keys : u.root_key_pubkey ≡ v.root_key_pubkey =
          pubkey_to_fr_pair_injective u.root_key_pubkey v.root_key_pubkey (halves v.root_key_pubkey)
            hu hv (mu ∙ ap ok pair) mv in
        λ i. record {
          root_key_pubkey = root_keys i;
          spending_key = spends.0 i;
          viewing_key = views.0 i;
          r0 = blinds i;
          r1 = spends.1 i;
          r2 = views.1 i;
        }

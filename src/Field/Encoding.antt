-- ===== src/Field/Encoding.antt =====
-- Lemmas on the field encoding of packages/sdk/src/keys/key-generators.ts and on the hashes of
-- packages/sdk/src/utxo/note.ts that go through it.
use darknyx_capstone_project.Errors.{err-ok, other_error, Result, ok, err, ok_injective}
use darknyx_capstone_project.Base.{
  true, length-take, length-drop, Bool-cases, inl, inr, ==_iff, ℕ, zero, suc, ◌+◌, ◌*◌, ◌/◌, ◌%◌,
  ◌<◌, List, [], ◌∷◌, ◌++◌, ◌==◌, ◌||◌, length, take, drop, false, ◌≡◌, refl, sym, ap, ap₂, ◌∙◌,
  arith, length-append, eq→==,
}
use darknyx_capstone_project.Base.Int.{negsuc, ℤ, pos, ltb_ℤ, leb_ℤ}
use darknyx_capstone_project.Field.{
  poseidon2, bn254_r, Poseidon, be_loop, bigint_to_be32, bn254_to_be32, pubkey_to_fr_pair,
  poseidon_hash_bytes_be,
}
use darknyx_capstone_project.Bytes.{Bytes, IsBytes, be_value, be_value_from, base_pow}
use darknyx_capstone_project.Bytes.Words.{be_value_from-append}

length-be_loop : (w x : ℕ) → length (be_loop w x).0 ≡ w
unfolding be_loop
length-be_loop zero x = refl
length-be_loop (suc w) x =
    omega
      (arith, length-append (be_loop w (x / 256)).0 ((x % 256) ∷ []), length-be_loop w (x / 256))

be_value-be_loop :
    (w x : ℕ) → x < base_pow w → (be_value (be_loop w x).0 ≡ x) × ((be_loop w x).1 ≡ 0)
unfolding be_loop
be_value-be_loop zero x h = (omega arith, omega arith)
be_value-be_loop (suc w) x h =
    let (v, left) = be_value-be_loop w (x / 256) (omega arith) in
    (omega (arith, be_value_from-append 0 (be_loop w (x / 256)).0 ((x % 256) ∷ []), v), left)

bigint_to_be32-ok : (n : ℕ) → n < base_pow 32 → bigint_to_be32 n ≡ ok (be_loop 32 n).0
unfolding bigint_to_be32
bigint_to_be32-ok n h = rw (eq→== (be_loop 32 n).1 0 (be_value-be_loop 32 n h).1)

-- A number below 256 ^ 32 is encoded, and its encoding has 32 bytes and reads back as it.
bigint_to_be32_lem :
    (n : ℕ)
    → n < base_pow 32
    → (b : Bytes) × (bigint_to_be32 n ≡ ok b) × (length b ≡ 32) × (be_value b ≡ n)
bigint_to_be32_lem n h =
    ((be_loop 32 n).0, bigint_to_be32-ok n h, length-be_loop 32 n, (be_value-be_loop 32 n h).0)

bn254_to_be32_encoded :
    (k : ℕ) (c : Bytes) → k < bn254_r → bigint_to_be32 k ≡ ok c → bn254_to_be32 (pos k) ≡ ok c
unfolding bn254_to_be32
bn254_to_be32_encoded k c lt e =
    let in_range : (ltb_ℤ (pos k) (pos 0) || leb_ℤ (pos bn254_r) (pos k)) ≡ false = ground arith in
    rw in_range e

-- Every field element is encoded without an exception, in 32 bytes that read back as it.
pub bn254_to_be32_lem :
    (n : ℕ)
    → n < bn254_r
    → (b : Bytes) × (bn254_to_be32 (pos n) ≡ ok b) × (length b ≡ 32) × (be_value b ≡ n)
bn254_to_be32_lem n h =
    let (b, e, size, value) = bigint_to_be32_lem n (omega arith) in
    (b, bn254_to_be32_encoded n b h e, size, value)

-- Poseidon's results are always encoded, in 32 bytes that read back as the result.
pub poseidon_hash_bytes_be_lem :
    (p : Poseidon) (inputs : List ℤ)
    → (b : Bytes) × (poseidon_hash_bytes_be p inputs ≡ ok b)
      × (length b ≡ 32)
      × (be_value b ≡ p.hash inputs)
unfolding poseidon_hash_bytes_be
poseidon_hash_bytes_be_lem p inputs = bn254_to_be32_lem (p.hash inputs) (p.in_field inputs)

-- The hash of two byte arrays never throws: it is `poseidon2` of the arrays.
pub poseidon2_lem :
    (p : Poseidon) (a b : Bytes)
    → poseidon_hash_bytes_be p (pos (be_value a) ∷ pos (be_value b) ∷ []) ≡ ok (poseidon2 p a b)
unfolding poseidon_hash_bytes_be poseidon2
poseidon2_lem p a b =
    let n = p.hash (pos (be_value a) ∷ pos (be_value b) ∷ []) in
    let lt : n < bn254_r = p.in_field (pos (be_value a) ∷ pos (be_value b) ∷ []) in
    bn254_to_be32_encoded n (be_loop 32 n).0 lt (bigint_to_be32-ok n (omega (arith, lt)))

-- Big-endian numerals of one length have one value only if they are one.
pub be_value_from_injective :
    (xs ys : Bytes) (a b : ℕ)
    → IsBytes xs
    → IsBytes ys
    → length xs ≡ length ys
    → be_value_from a xs ≡ be_value_from b ys
    → (a ≡ b) × (xs ≡ ys)
be_value_from_injective [] [] a b hx hy n e = (e, refl)
be_value_from_injective [] (y ∷ ys) a b hx hy n e = absurd (omega arith)
be_value_from_injective (x ∷ xs) [] a b hx hy n e = absurd (omega arith)
be_value_from_injective (x ∷ xs) (y ∷ ys) a b hx hy n e =
    let (top, rest) =
      be_value_from_injective xs ys (a * 256 + x) (b * 256 + y) hx.1 hy.1 (omega arith) e in
    let same : x ≡ y = omega (arith, hx.0, hy.0) in
    (omega (arith, hx.0, hy.0), ap₂ (λ c cs. c ∷ cs) same rest)

pub take_all : (n : ℕ) (xs : Bytes) → length xs ≡ n → take n xs ≡ xs
take_all zero [] h = refl
take_all zero (x ∷ xs) h = absurd (omega arith)
take_all (suc n) [] h = refl
take_all (suc n) (x ∷ xs) h = ap (λ t. x ∷ t) (take_all n xs (omega arith))

IsBytes-take : (n : ℕ) (xs : Bytes) → IsBytes xs → IsBytes (take n xs)
IsBytes-take zero xs h = tt
IsBytes-take (suc n) [] h = tt
IsBytes-take (suc n) (x ∷ xs) h = (h.0, IsBytes-take n xs h.1)

IsBytes-drop : (n : ℕ) (xs : Bytes) → IsBytes xs → IsBytes (drop n xs)
IsBytes-drop zero xs h = h
IsBytes-drop (suc n) [] h = tt
IsBytes-drop (suc n) (x ∷ xs) h = IsBytes-drop n xs h.1

take-append-drop : (n : ℕ) (xs : Bytes) → take n xs ++ drop n xs ≡ xs
take-append-drop zero xs = refl
take-append-drop (suc n) [] = refl
take-append-drop (suc n) (x ∷ xs) = ap (λ t. x ∷ t) (take-append-drop n xs)

-- The numbers of a key's last and first sixteen bytes.
abbrev pub halves : Bytes → ℕ × ℕ
halves pk = (be_value (take 16 (drop 16 pk)), be_value (take 16 pk))

pub pubkey_to_fr_pair-halves :
    (pk : Bytes) (r : ℕ × ℕ) → pubkey_to_fr_pair pk ≡ ok r → (length pk ≡ 32) × (r ≡ halves pk)
unfolding pubkey_to_fr_pair
pubkey_to_fr_pair-halves pk r e = elim (Bool-cases (length pk == 32)) [
  | inl same ↦ ((==_iff _ _).0 same, sym (ok_injective (rw same at e)))
  | inr other ↦ absurd (never (rw other at e))
]
  where
    never : ◌≡◌ {A = Result (ℕ × ℕ)} (err other_error) (ok r) → ⊥
    never h = cc

-- A public key is determined by its two field elements.
pub pubkey_to_fr_pair_injective :
    (pk pk' : Bytes) (r : ℕ × ℕ)
    → IsBytes pk
    → IsBytes pk'
    → pubkey_to_fr_pair pk ≡ ok r
    → pubkey_to_fr_pair pk' ≡ ok r
    → pk ≡ pk'
pubkey_to_fr_pair_injective pk pk' r h h' e e' =
    let (n, v) = pubkey_to_fr_pair-halves pk r e in
    let (n', v') = pubkey_to_fr_pair-halves pk' r e' in
    let same = sym v ∙ v' in
    let low =
      (be_value_from_injective (take 16 (drop 16 pk)) (take 16 (drop 16 pk')) 0 0
        (IsBytes-take 16 (drop 16 pk) (IsBytes-drop 16 pk h))
        (IsBytes-take 16 (drop 16 pk') (IsBytes-drop 16 pk' h'))
        (omega (
          arith,
          length-take 16 (drop 16 pk),
          length-take 16 (drop 16 pk'),
          length-drop 16 pk,
          length-drop 16 pk',
        ))
        (ap (λ (t : ℕ × ℕ). t.0) same)).1 in
    let high =
      (be_value_from_injective (take 16 pk) (take 16 pk') 0 0 (IsBytes-take 16 pk h)
        (IsBytes-take 16 pk' h') (omega (arith, length-take 16 pk, length-take 16 pk'))
        (ap (λ (t : ℕ × ℕ). t.1) same)).1 in
    sym (take-append-drop 16 pk)
    ∙ ap₂ (λ a b. a ++ b) high (whole pk n ∙ low ∙ sym (whole pk' n'))
    ∙ take-append-drop 16 pk'
  where
    whole : (k : Bytes) → length k ≡ 32 → drop 16 k ≡ take 16 (drop 16 k)
    whole k n = sym (take_all 16 (drop 16 k) (omega (arith, length-drop 16 k)))

-- What is encoded is the number that the bytes read back as.
pub bn254_to_be32_inverse : (x : ℤ) (b : Bytes) → bn254_to_be32 x ≡ ok b → pos (be_value b) ≡ x
unfolding bn254_to_be32
bn254_to_be32_inverse (negsuc n) b e =
    let negative : (ltb_ℤ (negsuc n) (pos 0) || leb_ℤ (pos bn254_r) (negsuc n)) ≡ true =
      ground arith in
    absurd (err-ok {t = other_error} (rw negative at e))
bn254_to_be32_inverse (pos n) b e =
    elim (Bool-cases (ltb_ℤ (pos n) (pos 0) || leb_ℤ (pos bn254_r) (pos n))) [
      | inr lt ↦
          let (b', e', size, value) = bn254_to_be32_lem n (ground arith) in
          ap pos (ap be_value (ok_injective (sym e ∙ e')) ∙ value)
      | inl le ↦ absurd (err-ok {t = other_error} (rw le at e))
    ]

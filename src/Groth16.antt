-- ===== src/Groth16.antt =====
-- packages/sdk/src/zk/groth16-format.ts: snarkjs proofs, whose coordinates are decimal texts, as the
-- bytes that the on-chain verifier expects. A text is its characters' codes.
pub mod Decimal
pub mod Negation
pub mod Points
use darknyx_capstone_project.Base.{
  ℕ, zero, suc, ◌+◌, ◌-◌, ◌*◌, ◌/◌, ◌%◌, List, [], ◌∷◌, ◌++◌, Bool, true, false, ◌&&◌, not, ◌==◌,
  leb, ltb, if◌then◌else◌, length, take, drop, map, get_elem?, none, some,
}
use darknyx_capstone_project.Bytes.{Bytes, zeros}
use darknyx_capstone_project.Errors.{Result, ok, err, other_error, throw_if, ◌>>=◌, ◌>>◌}
use darknyx_capstone_project.VaultClient.{Groth16OnChainProof}

-- The base field modulus of BN254, big-endian.
abbrev pub bn254_p : Bytes
bn254_p =
    48 ∷ 100 ∷ 78 ∷ 114 ∷ 225 ∷ 49 ∷ 160 ∷ 41 ∷ 184 ∷ 80 ∷ 69 ∷ 182 ∷ 129 ∷ 129 ∷ 88 ∷ 93 ∷ 151
    ∷ 129 ∷ 106 ∷ 145 ∷ 104 ∷ 113 ∷ 202 ∷ 141 ∷ 60 ∷ 32 ∷ 140 ∷ 22 ∷ 216 ∷ 124 ∷ 253 ∷ 71 ∷ []

pub record SnarkjsRawProof : Type 0 where
  pub pi_a : List Bytes
  pub pi_b : List (List Bytes)
  pub pi_c : List Bytes

pub record FormatGroth16Result : Type 0 where
  pub proof : Groth16OnChainProof
  pub public_inputs_be : List Bytes

-- `/^\d+$/.test(s)`, the part behind the first character.
abbrev pub all_digits : Bytes → Bool
all_digits [] = true
all_digits (c ∷ cs) = leb 48 c && leb c 57 && all_digits cs

abbrev pub is_decimal : Bytes → Bool
is_decimal [] = false
is_decimal (c ∷ cs) = all_digits (c ∷ cs)

-- One long division by 256 of decimal digits: the quotient's digits, and the remainder.
unfoldable pub divide_loop : List ℕ → ℕ → List ℕ → List ℕ × ℕ
divide_loop [] rem next = (next, rem)
divide_loop (d ∷ ds) rem next =
    let cur = rem * 10 + d in
    let q = cur / 256 in
    divide_loop ds (cur % 256) (if length next == 0 && q == 0 then next else next ++ q ∷ [])

-- The bytes `written` so far stand at the end of the buffer, `byte_idx` are left before them.
unfoldable pub fill_loop : ℕ → List ℕ → Bytes → Bytes
unfolding divide_loop
fill_loop zero digits written = written
fill_loop (suc byte_idx) [] written = zeros (suc byte_idx) ++ written
fill_loop (suc byte_idx) (d ∷ ds) written =
    let step = divide_loop (d ∷ ds) 0 [] in fill_loop byte_idx step.0 (step.1 ∷ written)

abbrev pub digits_of : Bytes → List ℕ
digits_of = map (λ c. c - 48)

unfoldable pub dec_to_be32 : Bytes → Result Bytes
unfolding fill_loop
dec_to_be32 s = do throw_if (not (is_decimal s)) other_error; ok (fill_loop 32 (digits_of s) [])

-- `v[i]`: where it is `undefined`, its use throws.
abbrev pub element {ℓ} : {A : Type ℓ} → List A → ℕ → Result A
element v i = elim (get_elem? v i) [ none ↦ err other_error | some a ↦ ok a ]

unfoldable pub groth16_g1_bytes : List Bytes → Result Bytes
unfolding dec_to_be32
groth16_g1_bytes v = do
  sx ← element v 0
  x ← dec_to_be32 sx
  sy ← element v 1
  y ← dec_to_be32 sy
  ok (x ++ y)

-- `decToBe32(v[i][j])`.
abbrev pub coefficient : List (List Bytes) → ℕ → ℕ → Result Bytes
coefficient v i j = do pair ← element v i; text ← element pair j; dec_to_be32 text

unfoldable pub groth16_g2_bytes : List (List Bytes) → Result Bytes
unfolding dec_to_be32
groth16_g2_bytes v = do
  x0 ← coefficient v 0 0
  x1 ← coefficient v 0 1
  y0 ← coefficient v 1 0
  y1 ← coefficient v 1 1
  ok (x1 ++ (x0 ++ (y1 ++ y0)))

-- One step of `subBe`, of the borrow that the bytes behind leave: the byte, and the borrow.
abbrev pub sub_byte : ℕ → ℕ → ℕ → ℕ × ℕ
sub_byte a b borrow =
    if ltb a (b + borrow) then (a + 256 - (b + borrow), 1) else (a - (b + borrow), 0)

-- The loop of `subBe`, from the last byte to the first.
unfoldable pub sub_loop : Bytes → Bytes → Bytes × ℕ
sub_loop (a ∷ as') (b ∷ bs) =
    let rest = sub_loop as' bs in let here = sub_byte a b rest.1 in (here.0 ∷ rest.0, here.1)
sub_loop [] bs = ([], 0)
sub_loop (a ∷ as') [] = ([], 0)

unfoldable pub sub_be : Bytes → Bytes → Result Bytes
unfolding sub_loop
sub_be a b = do throw_if (not (length a == 32 && length b == 32)) other_error; ok (sub_loop a b).0

unfoldable pub negate_g1 : Bytes → Result Bytes
unfolding sub_be
negate_g1 point = do
  throw_if (not (length point == 64)) other_error
  y_neg ← sub_be bn254_p (take 32 (drop 32 point))
  ok (take 32 point ++ y_neg)

abbrev pub all_dec : List Bytes → Result (List Bytes)
all_dec [] = ok []
all_dec (s ∷ ss) = do b ← dec_to_be32 s; rest ← all_dec ss; ok (b ∷ rest)

unfoldable pub format_groth16_for_on_chain :
    SnarkjsRawProof → List Bytes → Result FormatGroth16Result
unfolding groth16_g1_bytes groth16_g2_bytes negate_g1 dec_to_be32
format_groth16_for_on_chain proof_json public_json = do
  pi_a ← groth16_g1_bytes proof_json.pi_a
  pi_b ← groth16_g2_bytes proof_json.pi_b
  pi_c ← groth16_g1_bytes proof_json.pi_c
  pi_a_neg ← negate_g1 pi_a
  public_inputs_be ← all_dec public_json
  ok (record {
    proof = record { pi_a = pi_a_neg; pi_b = pi_b; pi_c = pi_c };
    public_inputs_be = public_inputs_be;
  })

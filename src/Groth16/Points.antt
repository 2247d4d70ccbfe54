-- ===== src/Groth16/Points.antt =====
-- packages/sdk/src/zk/groth16-format.ts: the layout of a formatted proof.
use darknyx_capstone_project.Base.{
  length-append, take-append, ℕ, suc, ◌+◌, ◌*◌, ◌≤◌, List, [], ◌∷◌, ◌++◌, ◌≡◌, refl, ap, ap₂, ◌∙◌,
  arith, length, map, true,
}
use darknyx_capstone_project.Groth16.Negation.{negate_g1_lem}
use darknyx_capstone_project.Groth16.{
  dec_to_be32, groth16_g2_bytes, groth16_g1_bytes, digits_of, bn254_p, is_decimal,
  format_groth16_for_on_chain, all_dec, SnarkjsRawProof, FormatGroth16Result,
}
use darknyx_capstone_project.Groth16.Decimal.{dec_to_be32_lem, dec_value}
use darknyx_capstone_project.Field.Encoding.{take_all}
use darknyx_capstone_project.Bytes.Chunks.{slice-append}
use darknyx_capstone_project.Errors.{ok}
use darknyx_capstone_project.Bytes.{Bytes, be_value, IsBytes, slice}

-- The number of a decimal text, and its number as the `i`-th 32-byte word of a buffer.
abbrev pub number_of : Bytes → ℕ
number_of s = dec_value (digits_of s)

abbrev pub word_at : Bytes → ℕ → ℕ
word_at buf i = be_value (slice (32 * i) 32 buf)

-- A decimal text of a coordinate: a number up to the modulus.
abbrev pub IsCoordinate : Bytes → Type 0
IsCoordinate s = (is_decimal s ≡ true) × (number_of s ≤ be_value bn254_p)

abbrev pub AllCoordinates : List Bytes → Type 0
AllCoordinates [] = Unit
AllCoordinates (s ∷ ss) = IsCoordinate s × AllCoordinates ss

-- A point of G1, and one of G2, as snarkjs writes them.
pub record RawPoints : Type 0 where
  pub ax : Bytes
  pub ay : Bytes
  pub bx0 : Bytes
  pub bx1 : Bytes
  pub by0 : Bytes
  pub by1 : Bytes
  pub cx : Bytes
  pub cy : Bytes

abbrev pub all_points : RawPoints → List Bytes
all_points q = q.ax ∷ q.ay ∷ q.bx0 ∷ q.bx1 ∷ q.by0 ∷ q.by1 ∷ q.cx ∷ q.cy ∷ []

-- The proof as snarkjs writes it, with anything behind the coordinates that are read.
abbrev pub raw_proof : RawPoints → List Bytes → List (List Bytes) → SnarkjsRawProof
raw_proof q more more_b = record {
  pi_a = q.ax ∷ q.ay ∷ more;
  pi_b = (q.bx0 ∷ q.bx1 ∷ more) ∷ (q.by0 ∷ q.by1 ∷ more) ∷ more_b;
  pi_c = q.cx ∷ q.cy ∷ more;
}

-- What a formatted proof says: A negated, B with its coefficients swapped, C as it is.
pub record IsFormatted (q : RawPoints) (publics : List Bytes) (r : FormatGroth16Result)
    : Type 0 where
  pub a_x : word_at r.proof.pi_a 0 ≡ number_of q.ax
  pub a_y : word_at r.proof.pi_a 1 + number_of q.ay ≡ be_value bn254_p
  pub b_x1 : word_at r.proof.pi_b 0 ≡ number_of q.bx1
  pub b_x0 : word_at r.proof.pi_b 1 ≡ number_of q.bx0
  pub b_y1 : word_at r.proof.pi_b 2 ≡ number_of q.by1
  pub b_y0 : word_at r.proof.pi_b 3 ≡ number_of q.by0
  pub c_x : word_at r.proof.pi_c 0 ≡ number_of q.cx
  pub c_y : word_at r.proof.pi_c 1 ≡ number_of q.cy
  pub a_size : length r.proof.pi_a ≡ 64
  pub b_size : length r.proof.pi_b ≡ 128
  pub c_size : length r.proof.pi_c ≡ 64
  pub inputs : map be_value r.public_inputs_be ≡ map number_of publics

word_first : (x rest : Bytes) → length x ≡ 32 → word_at (x ++ rest) 0 ≡ be_value x
word_first x rest h = ap be_value (take-append 32 x rest h)

word_last : (x : Bytes) → length x ≡ 32 → word_at x 0 ≡ be_value x
word_last x h = ap be_value (take_all 32 x h)

word_next : (x rest : Bytes) (i : ℕ) → length x ≡ 32 → word_at (x ++ rest) (suc i) ≡ word_at rest i
word_next x rest i h =
    let place : 32 * suc i ≡ 32 + 32 * i = omega arith in
    ap (λ k. be_value (slice k 32 (x ++ rest))) place
    ∙ ap be_value (slice-append 32 (32 * i) 32 x rest h)

all_dec_lem :
    (ss : List Bytes)
    → AllCoordinates ss
    → (bs : List Bytes) × (all_dec ss ≡ ok bs) × (map be_value bs ≡ map number_of ss)
all_dec_lem [] h = ([], refl, refl)
all_dec_lem (s ∷ ss) h =
    let (b, e, size, bytes, value) = dec_to_be32_lem s h.0.0 (omega (arith, h.0.1)) in
    let (bs, es, values) = all_dec_lem ss h.1 in
    (b ∷ bs, rw (e, es), ap₂ (λ v vs. v ∷ vs) value values)

-- A snarkjs proof whose coordinates are decimal texts of numbers up to the modulus, with public inputs
-- of that kind, is formatted without an exception, and the result is what the on-chain verifier
-- expects: A with its y negated modulo the modulus, B's coefficient pairs swapped, C as it is, each
-- coordinate 32 bytes big-endian, and the public inputs in order.
pub format_groth16_for_on_chain-IsFormatted :
    (q : RawPoints) (more : List Bytes) (more_b : List (List Bytes)) (publics : List Bytes)
    → AllCoordinates (all_points q)
    → AllCoordinates publics
    → (r : FormatGroth16Result) × (format_groth16_for_on_chain (raw_proof q more more_b) publics
        ≡ ok r)
      × IsFormatted q publics r
unfolding format_groth16_for_on_chain groth16_g1_bytes groth16_g2_bytes
format_groth16_for_on_chain-IsFormatted q more more_b publics h hp =
    let encoded : (s : Bytes)
        → IsCoordinate s
        → (b : Bytes) × (dec_to_be32 s ≡ ok b)
          × (length b ≡ 32)
          × IsBytes b
          × (be_value b ≡ number_of s) =
      λ s c. dec_to_be32_lem s c.0 (omega (arith, c.1)) in
    let (ax, e_ax, s_ax, i_ax, v_ax) = encoded q.ax h.0 in
    let (ay, e_ay, s_ay, i_ay, v_ay) = encoded q.ay h.1.0 in
    let (bx0, e_bx0, s_bx0, i_bx0, v_bx0) = encoded q.bx0 h.1.1.0 in
    let (bx1, e_bx1, s_bx1, i_bx1, v_bx1) = encoded q.bx1 h.1.1.1.0 in
    let (by0, e_by0, s_by0, i_by0, v_by0) = encoded q.by0 h.1.1.1.1.0 in
    let (by1, e_by1, s_by1, i_by1, v_by1) = encoded q.by1 h.1.1.1.1.1.0 in
    let (cx, e_cx, s_cx, i_cx, v_cx) = encoded q.cx h.1.1.1.1.1.1.0 in
    let (cy, e_cy, s_cy, i_cy, v_cy) = encoded q.cy h.1.1.1.1.1.1.1.0 in
    let (ay', e_neg, s_ay', sum, back) =
      negate_g1_lem ax ay s_ax s_ay i_ay (omega (arith, v_ay, h.1.0.1)) in
    let (inputs, e_inputs, values) = all_dec_lem publics hp in
    (
      record {
        proof = record { pi_a = ax ++ ay'; pi_b = bx1 ++ (bx0 ++ (by1 ++ by0)); pi_c = cx ++ cy };
        public_inputs_be = inputs;
      },
      rw (e_ax, e_ay, e_bx0, e_bx1, e_by0, e_by1, e_cx, e_cy, e_neg, e_inputs),
      record {
        a_x = word_first ax ay' s_ax ∙ v_ax;
        a_y = omega (arith, word_next ax ay' 0 s_ax, word_last ay' s_ay', sum, v_ay);
        b_x1 = word_first bx1 (bx0 ++ (by1 ++ by0)) s_bx1 ∙ v_bx1;
        b_x0 =
            word_next bx1 (bx0 ++ (by1 ++ by0)) 0 s_bx1 ∙ word_first bx0 (by1 ++ by0) s_bx0 ∙ v_bx0;
        b_y1 =
            word_next bx1 (bx0 ++ (by1 ++ by0)) 1 s_bx1
            ∙ word_next bx0 (by1 ++ by0) 0 s_bx0
            ∙ word_first by1 by0 s_by1
            ∙ v_by1;
        b_y0 =
            word_next bx1 (bx0 ++ (by1 ++ by0)) 2 s_bx1
            ∙ word_next bx0 (by1 ++ by0) 1 s_bx0
            ∙ word_next by1 by0 0 s_by1
            ∙ word_last by0 s_by0
            ∙ v_by0;
        c_x = word_first cx cy s_cx ∙ v_cx;
        c_y = word_next cx cy 0 s_cx ∙ word_last cy s_cy ∙ v_cy;
        a_size = omega (arith, length-append ax ay', s_ax, s_ay');
        b_size = omega (
          arith,
          length-append bx1 (bx0 ++ (by1 ++ by0)),
          length-append bx0 (by1 ++ by0),
          length-append by1 by0,
          s_bx1,
          s_bx0,
          s_by1,
          s_by0,
        );
        c_size = omega (arith, length-append cx cy, s_cx, s_cy);
        inputs = values;
      },
    )

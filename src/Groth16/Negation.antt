-- ===== src/Groth16/Negation.antt =====
-- packages/sdk/src/zk/groth16-format.ts: `negateG1` is negation modulo the base field's modulus.
use darknyx_capstone_project.Base.{
  take-append, drop-append, drop, take, length-append, true, ◌==◌, eq→==, length-replicate, ℕ, zero,
  suc, ◌+◌, ◌*◌, ◌<◌, ◌≤◌, [], ◌∷◌, ◌++◌, ◌≡◌, refl, sym, ap, ◌∙◌, arith, length,
}
use darknyx_capstone_project.Field.Encoding.{take_all, be_value_from_injective}
use darknyx_capstone_project.Groth16.{sub_be, negate_g1, bn254_p, sub_byte, sub_loop}
use darknyx_capstone_project.Errors.{ok}
use darknyx_capstone_project.Bytes.{Bytes, zeros, be_value, be_value_from, IsBytes}

sub_byte_sized :
    (a b borrow : ℕ)
    → a < 256
    → b < 256
    → borrow < 2
    → ((sub_byte a b borrow).0 < 256) × ((sub_byte a b borrow).1 < 2)
sub_byte_sized a b borrow ha hb h = ground arith

-- The difference has as many bytes, and the borrow is 0 or 1.
sub_loop_sized :
    (as' bs : Bytes)
    → IsBytes as'
    → IsBytes bs
    → length as' ≡ length bs
    → (length (sub_loop as' bs).0 ≡ length as')
      × IsBytes (sub_loop as' bs).0
      × ((sub_loop as' bs).1 < 2)
unfolding sub_loop
sub_loop_sized [] [] ha hb n = (refl, tt, omega arith)
sub_loop_sized [] (b ∷ bs) ha hb n = absurd (omega arith)
sub_loop_sized (a ∷ as') [] ha hb n = absurd (omega arith)
sub_loop_sized (a ∷ as') (b ∷ bs) ha hb n =
    let (size, bytes, small) = sub_loop_sized as' bs ha.1 hb.1 (omega arith) in
    let (byte, borrow) = sub_byte_sized a b (sub_loop as' bs).1 ha.0 hb.0 small in
    (ap suc size, (byte, bytes), borrow)

-- The invariant of the loop: the difference and the subtrahend give the minuend, where the numbers
-- before them do so up to the borrow.
sub_loop-value :
    (as' bs : Bytes) (x y z : ℕ)
    → IsBytes as'
    → IsBytes bs
    → length as' ≡ length bs
    → z + y + (sub_loop as' bs).1 ≡ x
    → be_value_from z (sub_loop as' bs).0 + be_value_from y bs ≡ be_value_from x as'
unfolding sub_loop
sub_loop-value [] [] x y z ha hb n h = omega (arith, h)
sub_loop-value [] (b ∷ bs) x y z ha hb n h = absurd (omega arith)
sub_loop-value (a ∷ as') [] x y z ha hb n h = absurd (omega arith)
sub_loop-value (a ∷ as') (b ∷ bs) x y z ha hb n h =
    let rest = sub_loop as' bs in
    sub_loop-value as' bs (x * 256 + a) (y * 256 + b) (z * 256 + (sub_byte a b rest.1).0) ha.1 hb.1
      (omega arith) (step rest.1 (sub_loop_sized as' bs ha.1 hb.1 (omega arith)).2 h)
  where
    step :
        (borrow : ℕ)
        → borrow < 2
        → z + y + (sub_byte a b borrow).1 ≡ x
        → (z * 256 + (sub_byte a b borrow).0) + (y * 256 + b) + borrow ≡ x * 256 + a
    step borrow small e = ground arith

-- A longer prefix makes a larger numeral.
pub be_value_from_mono :
    (xs ys : Bytes) (a b : ℕ)
    → IsBytes xs
    → length xs ≡ length ys
    → a < b
    → be_value_from a xs < be_value_from b ys
be_value_from_mono [] [] a b h n lt = lt
be_value_from_mono [] (y ∷ ys) a b h n lt = absurd (omega arith)
be_value_from_mono (x ∷ xs) [] a b h n lt = absurd (omega arith)
be_value_from_mono (x ∷ xs) (y ∷ ys) a b h n lt =
    be_value_from_mono xs ys (a * 256 + x) (b * 256 + y) h.1 (omega arith) (omega (arith, h.0))

be_value_from-add :
    (xs : Bytes) (a b : ℕ)
    → be_value_from (a + b) xs ≡ be_value_from a (zeros (length xs)) + be_value_from b xs
be_value_from-add [] a b = refl
be_value_from-add (x ∷ xs) a b =
    let regroup : (a + b) * 256 + x ≡ (a * 256 + 0) + (b * 256 + x) = omega arith in
    ap (λ acc. be_value_from acc xs) regroup ∙ be_value_from-add xs (a * 256 + 0) (b * 256 + x)

-- No borrow is left where the subtrahend is not the larger: the difference is exact.
sub_loop-exact :
    (as' bs : Bytes)
    → IsBytes as'
    → IsBytes bs
    → length as' ≡ length bs
    → be_value bs ≤ be_value as'
    → be_value (sub_loop as' bs).0 + be_value bs ≡ be_value as'
sub_loop-exact as' bs ha hb n le =
    let (size, bytes, small) = sub_loop_sized as' bs ha hb n in
    by_borrow (sub_loop as' bs).1 refl small
  where
    by_borrow :
        (borrow : ℕ)
        → (sub_loop as' bs).1 ≡ borrow
        → borrow < 2
        → be_value (sub_loop as' bs).0 + be_value bs ≡ be_value as'
    by_borrow zero e small = sub_loop-value as' bs 0 0 0 ha hb n (omega (arith, e))
    by_borrow (suc zero) e small =
        let (size, bytes, small') = sub_loop_sized as' bs ha hb n in
        let wrapped = sub_loop-value as' bs 1 0 0 ha hb n (omega (arith, e)) in
        let top =
          be_value_from_mono (sub_loop as' bs).0 (zeros (length as')) 0 1 bytes
            (size ∙ sym (length-replicate (length as') 0)) (omega arith) in
        absurd (omega (arith, wrapped, top, be_value_from-add as' 1 0, le))
    by_borrow (suc (suc borrow)) e small = absurd (omega (arith, small))

sub_be_lem :
    (b : Bytes)
    → length b ≡ 32
    → IsBytes b
    → be_value b ≤ be_value bn254_p
    → (d : Bytes) × (sub_be bn254_p b ≡ ok d)
      × (length d ≡ 32)
      × IsBytes d
      × (be_value d + be_value b ≡ be_value bn254_p)
unfolding sub_be
sub_be_lem b size bytes le =
    let p_bytes : IsBytes bn254_p = omega arith in
    let (size', bytes', small) = sub_loop_sized bn254_p b p_bytes bytes (sym size) in
    (
      (sub_loop bn254_p b).0,
      rw (eq→== (length b) 32 size),
      size',
      bytes',
      sub_loop-exact bn254_p b p_bytes bytes (sym size) le,
    )

negate_g1-split :
    (x y d : Bytes)
    → length x ≡ 32
    → length y ≡ 32
    → sub_be bn254_p y ≡ ok d
    → negate_g1 (x ++ y) ≡ ok (x ++ d)
unfolding negate_g1
negate_g1-split x y d hx hy e =
    let size : (length (x ++ y) == 64) ≡ true =
      eq→== (length (x ++ y)) 64 (omega (arith, length-append x y, hx, hy)) in
    let behind : take 32 (drop 32 (x ++ y)) ≡ y =
      ap (take 32) (drop-append 32 x y hx) ∙ take_all 32 y hy in
    rw (size, behind, e) (ap (λ t. ok (t ++ d)) (take-append 32 x y hx))

-- A G1 point whose y is at most the modulus is negated to the point of the same x whose y is the
-- modulus less that y, and is given back when it is negated again.
pub negate_g1_lem :
    (x y : Bytes)
    → length x ≡ 32
    → length y ≡ 32
    → IsBytes y
    → be_value y ≤ be_value bn254_p
    → (y' : Bytes) × (negate_g1 (x ++ y) ≡ ok (x ++ y'))
      × (length y' ≡ 32)
      × (be_value y' + be_value y ≡ be_value bn254_p)
      × (negate_g1 (x ++ y') ≡ ok (x ++ y))
negate_g1_lem x y hx hy bytes le =
    let (d, e, size, bytes', sum) = sub_be_lem y hy bytes le in
    let (d2, e2, size2, bytes2, sum2) = sub_be_lem d size bytes' (omega (arith, sum)) in
    let back : d2 ≡ y =
      (be_value_from_injective d2 y 0 0 bytes2 bytes (size2 ∙ sym hy)
        (omega (arith, sum, sum2))).1 in
    (
      d,
      negate_g1-split x y d hx hy e,
      size,
      sum,
      negate_g1-split x d d2 hx size e2 ∙ ap (λ t. ok (x ++ t)) back,
    )

-- ===== src/Kmac/Digits.antt =====
-- packages/sdk/src/keys/key-generators.ts: the digits that `leftEncode` and `rightEncode` write.
use darknyx_capstone_project.Bytes.Words.{be_value_from-append}
use darknyx_capstone_project.Base.{
  length-append, append_assoc, ◌%◌, ◌/◌, inr, ==_iff, true, inl, ◌==◌, length, arith, Bool-cases,
  ◌≡◌, ◌≤◌, ◌<◌, refl, ℕ, zero, suc, [], ◌∷◌, ◌++◌, sym, ap, ◌∙◌,
}
use darknyx_capstone_project.Bytes.{base_pow, be_value, Bytes}
use darknyx_capstone_project.Kmac.{unshift_loop, digits}

-- The loop sets the digits of `y` before `bytes`.
unshift_loop-append :
    (fuel y : ℕ) (bytes : Bytes) → unshift_loop fuel y bytes ≡ unshift_loop fuel y [] ++ bytes
unfolding unshift_loop
unshift_loop-append zero y bytes = refl
unshift_loop-append (suc fuel) y bytes = elim (Bool-cases (y == 0)) [
  | inl done ↦ rw done
  | inr more ↦ rw more (
      unshift_loop-append fuel (y / 256) ((y % 256) ∷ bytes)
      ∙ sym (append_assoc (unshift_loop fuel (y / 256) []) ((y % 256) ∷ []) bytes)
      ∙ ap (λ t. t ++ bytes) (sym (unshift_loop-append fuel (y / 256) ((y % 256) ∷ []))))
]

be_value-unshift_loop : (fuel y : ℕ) → y ≤ fuel → be_value (unshift_loop fuel y []) ≡ y
unfolding unshift_loop
be_value-unshift_loop zero y h = omega arith
be_value-unshift_loop (suc fuel) y h = elim (Bool-cases (y == 0)) [
  | inl done ↦ rw done (sym ((==_iff y 0).0 done))
  | inr more ↦ rw more (
      ap be_value (unshift_loop-append fuel (y / 256) ((y % 256) ∷ []))
      ∙ omega (
        arith,
        be_value_from-append 0 (unshift_loop fuel (y / 256) []) ((y % 256) ∷ []),
        be_value-unshift_loop fuel (y / 256) (ground arith),
      ))
]

length-unshift_loop : (fuel w y : ℕ) → y < base_pow w → length (unshift_loop fuel y []) ≤ w
unfolding unshift_loop
length-unshift_loop zero w y h = omega arith
length-unshift_loop (suc fuel) zero y h =
    let none_left : (y == 0) ≡ true = ground arith in rw none_left (omega arith)
length-unshift_loop (suc fuel) (suc w) y h = elim (Bool-cases (y == 0)) [
  | inl done ↦ rw done (omega arith)
  | inr more ↦ rw more (
      rw (unshift_loop-append fuel (y / 256) ((y % 256) ∷ [])) (
        omega (
          arith,
          length-append (unshift_loop fuel (y / 256) []) ((y % 256) ∷ []),
          length-unshift_loop fuel w (y / 256) (omega arith),
        )))
]

-- The digits of a number are big-endian and read back as it.
pub be_value-digits : (x : ℕ) → be_value (digits x) ≡ x
unfolding digits
be_value-digits x = be_value-unshift_loop x x (omega arith)

pub length-digits : (w x : ℕ) → x < base_pow w → length (digits x) ≤ w
unfolding digits
length-digits w x h = length-unshift_loop x w x h

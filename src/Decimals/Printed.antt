-- ===== src/Decimals/Printed.antt =====
-- apps/demo/src/lib/dapp/decimals.ts: the decimal text of a number.
use darknyx_capstone_project.Base.{
  zero, suc, ap, ◌∙◌, ◌-◌, ◌∷◌, ◌%◌, ◌+◌, ◌*◌, leb, ◌/◌, [], inr, sym, ==_iff, inl, ◌==◌,
  Bool-cases, true, ◌≤◌, ℕ, ◌≡◌, refl, arith,
}
use darknyx_capstone_project.Groth16.{all_digits, digits_of}
use darknyx_capstone_project.Decimals.{print_nat, print_loop}
use darknyx_capstone_project.Bytes.{Bytes}
use darknyx_capstone_project.Groth16.Decimal.{dec_value, dec_value_from}

pub print_loop-value :
    (fuel n : ℕ) (acc : Bytes)
    → n ≤ fuel
    → dec_value_from 0 (digits_of (print_loop fuel n acc)) ≡ dec_value_from n (digits_of acc)
unfolding print_loop
print_loop-value zero n acc h = let e : n ≡ 0 = omega arith in rw e
print_loop-value (suc fuel) n acc h = elim (Bool-cases (n == 0)) [
  | inl nought ↦ rw nought (let e : n ≡ 0 = (==_iff n 0).0 nought in rw e)
  | inr more ↦
      let e : (n / 10) * 10 + (48 + n % 10 - 48) ≡ n = omega arith in
      rw more (
        print_loop-value fuel (n / 10) ((48 + n % 10) ∷ acc) (ground arith)
        ∙ ap (λ k. dec_value_from k (digits_of acc)) e)
]

pub print_loop-digits :
    (fuel n : ℕ) (acc : Bytes) → all_digits acc ≡ true → all_digits (print_loop fuel n acc) ≡ true
unfolding print_loop
print_loop-digits zero n acc h = h
print_loop-digits (suc fuel) n acc h = elim (Bool-cases (n == 0)) [
  | inl nought ↦ rw nought h
  | inr more ↦
      let low : leb 48 (48 + n % 10) ≡ true = ground arith in
      let high : leb (48 + n % 10) 57 ≡ true = ground arith in
      rw more (print_loop-digits fuel (n / 10) ((48 + n % 10) ∷ acc) (rw (low, high, h)))
]

-- A number's text is of digits and stands for the number.
pub print_nat_lem :
    (n : ℕ) → (dec_value (digits_of (print_nat n)) ≡ n) × (all_digits (print_nat n) ≡ true)
unfolding print_nat
print_nat_lem n = elim (Bool-cases (n == 0)) [
  | inl nought ↦ (rw nought (sym ((==_iff n 0).0 nought)), rw nought)
  | inr more ↦
      (rw more (print_loop-value n n [] (omega arith)), rw more (print_loop-digits n n [] refl))
]

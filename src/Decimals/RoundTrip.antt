-- ===== src/Decimals/RoundTrip.antt =====
-- apps/demo/src/lib/dapp/decimals.ts: `toAtoms` reads what `fromAtoms` writes.
use darknyx_capstone_project.Base.{
  ℕ, zero, suc, ◌+◌, ◌-◌, ◌<◌, [], ◌∷◌, ◌++◌, Bool, true, false, ◌==◌, ltb, length, take, drop,
  replicate, length-append, length-replicate, length-take, length-drop, Bool-cases, inl, inr, some,
  ◌≡◌, refl, append-nil, subst, sym, ap, ◌∙◌, arith,
}
use darknyx_capstone_project.Base.Int.{ℤ, pos, negsuc}
use darknyx_capstone_project.Bytes.{Bytes}
use darknyx_capstone_project.Errors.{ok}
use darknyx_capstone_project.Groth16.{all_digits, digits_of}
use darknyx_capstone_project.Groth16.Decimal.{dec_value}
use darknyx_capstone_project.Decimals.{
  to_atoms, human_text, parse_atoms, from_atoms, atoms_of, signed, magnitude, sign_text,
  with_fraction, or_nought, strip_zeros, pad_start, print_nat,
}
use darknyx_capstone_project.Decimals.Printed.{print_nat_lem}
use darknyx_capstone_project.Decimals.Trimmed.{trim_amount}
use darknyx_capstone_project.Decimals.Strings.{
  digit_first, all_digits-append, take-drop, zeros_front, match_digits_lem, pad_end-strip_zeros,
  strip_zeros_lem,
}

abbrev is_negative : ℤ → Bool
is_negative (pos n) = false
is_negative (negsuc n) = true

signed_lem : (v : ℤ) → signed (is_negative v) (magnitude v) ≡ v
signed_lem (pos n) = refl
signed_lem (negsuc n) = refl

-- The sign and the two groups are matched.
parse_atoms-groups :
    (v : ℤ) (c : ℕ) (cs frac : Bytes) (d : ℕ)
    → all_digits (c ∷ cs) ≡ true
    → all_digits frac ≡ true
    → parse_atoms (sign_text v ++ with_fraction (c ∷ cs) frac) d
      ≡ atoms_of (is_negative v) (some (c ∷ cs, frac)) d
unfolding parse_atoms
parse_atoms-groups (negsuc n) c cs frac d digits tail =
    ap (λ m. atoms_of true m d) (match_digits_lem c cs frac digits tail)
parse_atoms-groups (pos n) c cs [] d digits tail =
    let (low, high, rest) = digit_first c cs digits in
    let plain : (c == 45) ≡ false = ground arith in
    rw plain (ap (λ m. atoms_of false m d) (match_digits_lem c cs [] digits tail))
parse_atoms-groups (pos n) c cs (f ∷ fs) d digits tail =
    let (low, high, rest) = digit_first c cs digits in
    let plain : (c == 45) ≡ false = ground arith in
    rw plain (ap (λ m. atoms_of false m d) (match_digits_lem c cs (f ∷ fs) digits tail))

-- A text of digits before and behind the point is read as their number.
to_atoms-parts :
    (v : ℤ) (int frac : Bytes)
    → 0 < length int
    → all_digits int ≡ true
    → all_digits frac ≡ true
    → dec_value (digits_of (int ++ frac)) ≡ magnitude v
    → to_atoms
        (human_text (sign_text v ++ with_fraction (or_nought int) (strip_zeros frac)))
        (length frac)
      ≡ ok v
unfolding to_atoms
to_atoms-parts v [] frac some' digits tail value = absurd (omega arith)
to_atoms-parts v (c ∷ cs) frac some' digits tail value =
    let (stripped, size) = strip_zeros_lem frac tail in
    let fits : ltb (length frac) (length (strip_zeros frac)) ≡ false = ground arith in
    ap (λ t. parse_atoms t (length frac))
      (trim_amount v (c ∷ cs) (strip_zeros frac) digits stripped)
    ∙ parse_atoms-groups v c cs (strip_zeros frac) (length frac) digits stripped
    ∙ rw (fits, pad_end-strip_zeros frac, value) (ap ok (signed_lem v))

nonempty : (p : Bytes) (n : ℕ) → dec_value (digits_of p) ≡ n → (n == 0) ≡ false → 0 < length p
nonempty [] n value more = absurd (ground arith)
nonempty (c ∷ cs) n value more = omega arith

or_nought_lem : (p : Bytes) → 0 < length p → or_nought p ≡ p
or_nought_lem [] some' = absurd (omega arith)
or_nought_lem (c ∷ cs) some' = refl

print_nat-nonempty : (n : ℕ) → 0 < length (print_nat n)
unfolding print_nat
print_nat-nonempty n = elim (Bool-cases (n == 0)) [
  | inl nought ↦ rw nought (omega arith)
  | inr more ↦ nonempty (print_nat n) n (print_nat_lem n).0 more
]

to_atoms-whole : (v : ℤ) → to_atoms (human_text (sign_text v ++ print_nat (magnitude v))) 0 ≡ ok v
to_atoms-whole v =
    let p = print_nat (magnitude v) in
    let (value, digits) = print_nat_lem (magnitude v) in
    let some' = print_nat-nonempty (magnitude v) in
    subst (λ t. to_atoms (human_text (sign_text v ++ t)) 0 ≡ ok v) (or_nought_lem p some')
      (to_atoms-parts v p [] some' digits refl
        (ap (λ t. dec_value (digits_of t)) (append-nil p) ∙ value))

-- For every amount and every number of decimals, the text that `fromAtoms` writes is read back by
-- `toAtoms` as the amount.
pub to_atoms-from_atoms : (v : ℤ) (d : ℕ) → to_atoms (human_text (from_atoms v d)) d ≡ ok v
unfolding from_atoms
to_atoms-from_atoms v zero = to_atoms-whole v
to_atoms-from_atoms v (suc d) =
    let (value, digits) = print_nat_lem (magnitude v) in
    let p = print_nat (magnitude v) in
    let s = pad_start (suc d + 1) p in
    let cut = length s - suc d in
    let (same, padded) = zeros_front (suc d + 1 - length p) p digits in
    let sized = length-append (replicate (suc d + 1 - length p) 48) p in
    let zeros = length-replicate {A = ℕ} (suc d + 1 - length p) 48 in
    let whole = take-drop cut s in
    let (left, right) =
      all_digits-append (take cut s) (drop cut s)
        (subst (λ t. all_digits t ≡ true) (sym whole) padded) in
    let behind : length (drop cut s) ≡ suc d = omega (arith, length-drop cut s, sized, zeros) in
    subst
      (λ n.
        to_atoms
          (human_text
            (sign_text v ++ with_fraction (or_nought (take cut s)) (strip_zeros (drop cut s))))
          n
        ≡ ok v)
      behind
      (to_atoms-parts v (take cut s) (drop cut s) (omega (arith, length-take cut s, sized, zeros))
        left right (ap (λ t. dec_value (digits_of t)) whole ∙ same ∙ value))

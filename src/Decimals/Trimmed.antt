-- ===== src/Decimals/Trimmed.antt =====
-- apps/demo/src/lib/dapp/decimals.ts: texts that `trim` leaves alone.
use mathlib.Core.List.{reverse, reverse-cons, reverse-reverse}
use darknyx_capstone_project.Base.{
  ℕ, [], ◌∷◌, ◌++◌, Bool, true, false, not, ◌&&◌, leb, ◌≡◌, refl, sym, ap, ◌∙◌, subst, arith,
}
use darknyx_capstone_project.Base.Int.{ℤ, pos, negsuc}
use darknyx_capstone_project.Bytes.{Bytes}
use darknyx_capstone_project.Groth16.{all_digits}
use darknyx_capstone_project.Decimals.{is_space, drop_spaces, trim, sign_text, with_fraction}
use darknyx_capstone_project.Decimals.Strings.{and_split, digit_first}

abbrev unspaced : Bytes → Bool
unspaced [] = true
unspaced (c ∷ cs) = not (is_space c) && unspaced cs

unspaced-append :
    (xs ys : Bytes) → unspaced xs ≡ true → unspaced ys ≡ true → unspaced (xs ++ ys) ≡ true
unspaced-append [] ys hx hy = hy
unspaced-append (x ∷ xs) ys hx hy =
    let (first, rest) = and_split (not (is_space x)) (unspaced xs) hx in
    rw first (unspaced-append xs ys rest hy)

unspaced-reverse : (xs : Bytes) → unspaced xs ≡ true → unspaced (reverse xs) ≡ true
unspaced-reverse [] h = refl
unspaced-reverse (x ∷ xs) h =
    let (first, rest) = and_split (not (is_space x)) (unspaced xs) h in
    subst (λ t. unspaced t ≡ true) (sym (reverse-cons x xs))
      (unspaced-append (reverse xs) (x ∷ []) (unspaced-reverse xs rest) (rw first refl))

not-true : (b : Bool) → not b ≡ true → b ≡ false
not-true true h = sym h
not-true false h = refl

drop_spaces-unspaced : (xs : Bytes) → unspaced xs ≡ true → drop_spaces xs ≡ xs
drop_spaces-unspaced [] h = refl
drop_spaces-unspaced (x ∷ xs) h =
    let (first, rest) = and_split (not (is_space x)) (unspaced xs) h in
    let seen = not-true (is_space x) first in rw seen

trim-unspaced : (xs : Bytes) → unspaced xs ≡ true → trim xs ≡ xs
trim-unspaced xs h =
    ap (λ t. reverse (drop_spaces (reverse t))) (drop_spaces-unspaced xs h)
    ∙ ap reverse (drop_spaces-unspaced (reverse xs) (unspaced-reverse xs h))
    ∙ reverse-reverse xs

is_space-digit : (c : ℕ) → leb 48 c ≡ true → leb c 57 ≡ true → is_space c ≡ false
is_space-digit c low high = ground arith

digits_unspaced : (xs : Bytes) → all_digits xs ≡ true → unspaced xs ≡ true
digits_unspaced [] h = refl
digits_unspaced (c ∷ cs) h =
    let (low, high, rest) = digit_first c cs h in
    rw (is_space-digit c low high) (digits_unspaced cs rest)

with_fraction-unspaced :
    (int frac : Bytes)
    → all_digits int ≡ true
    → all_digits frac ≡ true
    → unspaced (with_fraction int frac) ≡ true
with_fraction-unspaced int [] h k = digits_unspaced int h
with_fraction-unspaced int (f ∷ fs) h k =
    unspaced-append int (46 ∷ (f ∷ fs)) (digits_unspaced int h) (digits_unspaced (f ∷ fs) k)

-- An amount's text has no space to take away.
pub trim_amount :
    (v : ℤ) (int frac : Bytes)
    → all_digits int ≡ true
    → all_digits frac ≡ true
    → trim (sign_text v ++ with_fraction int frac) ≡ sign_text v ++ with_fraction int frac
trim_amount (pos n) int frac h k =
    trim-unspaced (with_fraction int frac) (with_fraction-unspaced int frac h k)
trim_amount (negsuc n) int frac h k =
    trim-unspaced (45 ∷ with_fraction int frac) (with_fraction-unspaced int frac h k)

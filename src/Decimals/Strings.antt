-- ===== src/Decimals/Strings.antt =====
-- apps/demo/src/lib/dapp/decimals.ts: texts of digits, cut, padded and matched.
use darknyx_capstone_project.Base.{
  ℕ, zero, suc, ◌-◌, ◌≤◌, [], ◌∷◌, ◌++◌, append-nil, Bool, true, false, ◌&&◌, ◌==◌, leb,
  if◌then◌else◌, length, take, drop, replicate, length-append, Bool-cases, ==_iff, inl, inr, some,
  ◌≡◌, refl, sym, ap, ◌∙◌, subst, arith,
}
use darknyx_capstone_project.Bytes.{Bytes}
use darknyx_capstone_project.Groth16.{all_digits, digits_of}
use darknyx_capstone_project.Groth16.Decimal.{dec_value}
use darknyx_capstone_project.Decimals.{
  span_digits, match_digits, strip_zeros, with_fraction, pad_end,
}

pub and_split : (a b : Bool) → (a && b) ≡ true → (a ≡ true) × (b ≡ true)
and_split true b h = (refl, h)
and_split false true h = (h, refl)
and_split false false h = (h, h)

-- A digit in front of digits.
pub digit_first :
    (c : ℕ) (cs : Bytes)
    → all_digits (c ∷ cs) ≡ true
    → (leb 48 c ≡ true) × (leb c 57 ≡ true) × (all_digits cs ≡ true)
digit_first c cs h =
    let (digit, rest) = and_split (leb 48 c && leb c 57) (all_digits cs) h in
    let (low, high) = and_split (leb 48 c) (leb c 57) digit in (low, high, rest)

pub all_digits-append :
    (xs ys : Bytes) → all_digits (xs ++ ys) ≡ true → (all_digits xs ≡ true) × (all_digits ys ≡ true)
all_digits-append [] ys h = (refl, h)
all_digits-append (x ∷ xs) ys h =
    let (low, high, rest) = digit_first x (xs ++ ys) h in
    let (left, right) = all_digits-append xs ys rest in (rw (low, high, left), right)

pub take-drop : (n : ℕ) (xs : Bytes) → take n xs ++ drop n xs ≡ xs
take-drop zero xs = refl
take-drop (suc n) [] = refl
take-drop (suc n) (x ∷ xs) = ap (λ t. x ∷ t) (take-drop n xs)

-- Zeros in front change no value.
pub zeros_front :
    (k : ℕ) (xs : Bytes)
    → all_digits xs ≡ true
    → (dec_value (digits_of (replicate k 48 ++ xs)) ≡ dec_value (digits_of xs))
      × (all_digits (replicate k 48 ++ xs) ≡ true)
zeros_front zero xs h = (refl, h)
zeros_front (suc k) xs h = zeros_front k xs h

span_digits-append :
    (xs rest : Bytes)
    → all_digits xs ≡ true
    → span_digits rest ≡ ([], rest)
    → span_digits (xs ++ rest) ≡ (xs, rest)
span_digits-append [] rest h stop = stop
span_digits-append (x ∷ xs) rest h stop =
    let (low, high, tail) = digit_first x xs h in
    rw (low, high) (ap (λ p. (x ∷ p.0, p.1)) (span_digits-append xs rest tail stop))

-- The two groups of a text of digits with a fraction.
pub match_digits_lem :
    (c : ℕ) (cs frac : Bytes)
    → all_digits (c ∷ cs) ≡ true
    → all_digits frac ≡ true
    → match_digits (with_fraction (c ∷ cs) frac) ≡ some (c ∷ cs, frac)
match_digits_lem c cs [] digits none_left =
    let e =
      subst (λ t. span_digits t ≡ (c ∷ cs, [])) (append-nil (c ∷ cs))
        (span_digits-append (c ∷ cs) [] digits refl) in
    let some' : (length (c ∷ cs) == 0) ≡ false = ground arith in rw (e, some')
match_digits_lem c cs (f ∷ fs) digits frac =
    let e = span_digits-append (c ∷ cs) (46 ∷ (f ∷ fs)) digits refl in
    let e' =
      subst (λ t. span_digits t ≡ (f ∷ fs, [])) (append-nil (f ∷ fs))
        (span_digits-append (f ∷ fs) [] frac refl) in
    let some' : (length (c ∷ cs) == 0) ≡ false = ground arith in
    let some'' : (length (f ∷ fs) == 0) ≡ false = ground arith in rw (e, some', e', some'')

restored :
    (c : ℕ) (cs rest : Bytes)
    → pad_end (length cs) rest ≡ cs
    → pad_end (suc (length cs)) (if c == 48 && length rest == 0 then [] else c ∷ rest) ≡ c ∷ cs
restored c cs [] h =
    let same : suc (length cs) - 1 ≡ length cs - 0 = omega arith in
    let one_more : suc (length cs) - 0 ≡ suc (length cs - 0) = omega arith in
    elim (Bool-cases (c == 48)) [
      | inl nought ↦ rw nought (
          ap (λ k. replicate k 48) one_more
          ∙ ap (λ t. 48 ∷ t) h
          ∙ ap (λ k. k ∷ cs) (sym ((==_iff c 48).0 nought)))
      | inr more ↦ rw more (ap (λ k. c ∷ replicate k 48) same ∙ ap (λ t. c ∷ t) h)
    ]
restored c cs (r ∷ rest) h =
    let more : (c == 48 && length (r ∷ rest) == 0) ≡ false = ground arith in
    let same : suc (length cs) - length (c ∷ r ∷ rest) ≡ length cs - length (r ∷ rest) =
      omega arith in
    rw more (ap (λ k. c ∷ r ∷ (rest ++ replicate k 48)) same ∙ ap (λ t. c ∷ t) h)

-- Padding brings the stripped zeros back.
pub pad_end-strip_zeros : (xs : Bytes) → pad_end (length xs) (strip_zeros xs) ≡ xs
pad_end-strip_zeros [] = refl
pad_end-strip_zeros (c ∷ cs) = restored c cs (strip_zeros cs) (pad_end-strip_zeros cs)

pub strip_zeros_lem :
    (xs : Bytes)
    → all_digits xs ≡ true
    → (all_digits (strip_zeros xs) ≡ true) × (length (strip_zeros xs) ≤ length xs)
strip_zeros_lem xs h =
    let t = strip_zeros xs in
    let back = pad_end-strip_zeros xs in
    let size = length-append t (replicate (length xs - length t) 48) in
    (
      (all_digits-append t (replicate (length xs - length t) 48)
          (subst (λ u. all_digits u ≡ true) (sym back) h)).0,
      omega (arith, size, ap length back),
    )

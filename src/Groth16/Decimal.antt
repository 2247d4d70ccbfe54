-- ===== src/Groth16/Decimal.antt =====
-- packages/sdk/src/zk/groth16-format.ts: the number that `decToBe32` encodes.
use darknyx_capstone_project.Base.{
  false, ◌&&◌, ◌==◌, if◌then◌else◌, true, append_assoc, append-nil, ℕ, zero, suc, ◌+◌, ◌*◌, ◌/◌,
  ◌%◌, ◌<◌, List, [], ◌∷◌, ◌++◌, ◌≡◌, refl, sym, ap, ◌∙◌, arith, length,
}
use darknyx_capstone_project.Groth16.{digits_of, is_decimal, dec_to_be32, divide_loop, fill_loop}
use darknyx_capstone_project.Errors.{ok}
use darknyx_capstone_project.Bytes.Words.{be_value_from-append}
use darknyx_capstone_project.Bytes.{Bytes, zeros, be_value, be_value_from, base_pow, IsBytes}

abbrev pub dec_value_from : ℕ → List ℕ → ℕ
dec_value_from acc [] = acc
dec_value_from acc (d ∷ ds) = dec_value_from (acc * 10 + d) ds

-- The number that decimal digits stand for.
abbrev pub dec_value : List ℕ → ℕ
dec_value = dec_value_from 0

dec_value_from-append :
    (acc : ℕ) (ds : List ℕ) (d : ℕ)
    → dec_value_from acc (ds ++ d ∷ []) ≡ dec_value_from acc ds * 10 + d
dec_value_from-append acc [] d = refl
dec_value_from-append acc (e ∷ ds) d = dec_value_from-append (acc * 10 + e) ds d

push_value :
    (next : List ℕ) (q : ℕ)
    → dec_value (if length next == 0 && q == 0 then next else next ++ q ∷ [])
      ≡ dec_value next * 10 + q
push_value [] zero = refl
push_value [] (suc q) = let e : (suc q == 0) ≡ false = ground arith in rw e (omega arith)
push_value (n ∷ next) q =
    let e : (length (n ∷ next) == 0) ≡ false = ground arith in
    rw e (dec_value_from-append 0 (n ∷ next) q)

-- A division's quotient and remainder give the number back.
divide_loop-value :
    (ds : List ℕ) (rem : ℕ) (next : List ℕ)
    → rem < 256
    → (dec_value (divide_loop ds rem next).0 * 256 + (divide_loop ds rem next).1
        ≡ dec_value_from (dec_value next * 256 + rem) ds)
      × ((divide_loop ds rem next).1 < 256)
unfolding divide_loop
divide_loop-value [] rem next h = (refl, h)
divide_loop-value (d ∷ ds) rem next h =
    let cur = rem * 10 + d in
    let next' = if length next == 0 && cur / 256 == 0 then next else next ++ (cur / 256) ∷ [] in
    let (value, small) = divide_loop-value ds (cur % 256) next' (omega arith) in
    (value ∙ ap (λ acc. dec_value_from acc ds) (omega (arith, push_value next (cur / 256))), small)

fill_loop-append :
    (i : ℕ) (ds : List ℕ) (written : Bytes) → fill_loop i ds written ≡ fill_loop i ds [] ++ written
unfolding fill_loop
fill_loop-append zero ds written = refl
fill_loop-append (suc i) [] written = ap (λ t. t ++ written) (sym (append-nil (zeros (suc i))))
fill_loop-append (suc i) (d ∷ ds) written =
    let step = divide_loop (d ∷ ds) 0 [] in
    fill_loop-append i step.0 (step.1 ∷ written)
    ∙ sym (append_assoc (fill_loop i step.0 []) (step.1 ∷ []) written)
    ∙ ap (λ t. t ++ written) (sym (fill_loop-append i step.0 (step.1 ∷ [])))

be_value-zeros : (n acc : ℕ) → acc ≡ 0 → be_value_from acc (zeros n) ≡ 0
be_value-zeros zero acc h = h
be_value-zeros (suc n) acc h = be_value-zeros n (acc * 256 + 0) (omega arith)

fill_loop-value :
    (i : ℕ) (ds : List ℕ) → dec_value ds < base_pow i → be_value (fill_loop i ds []) ≡ dec_value ds
unfolding fill_loop
fill_loop-value zero ds h = omega arith
fill_loop-value (suc i) [] h =
    ap be_value (append-nil (zeros (suc i))) ∙ be_value-zeros (suc i) 0 refl
fill_loop-value (suc i) (d ∷ ds) h =
    let step = divide_loop (d ∷ ds) 0 [] in
    let (value, small) = divide_loop-value (d ∷ ds) 0 [] (omega arith) in
    ap be_value (fill_loop-append i step.0 (step.1 ∷ []))
    ∙ omega (
      arith,
      be_value_from-append 0 (fill_loop i step.0 []) (step.1 ∷ []),
      fill_loop-value i step.0 (omega (arith, value)),
      value,
    )

zeros_sized :
    (n : ℕ) (written : Bytes)
    → IsBytes written
    → (length (zeros n ++ written) ≡ n + length written) × IsBytes (zeros n ++ written)
zeros_sized zero written h = (omega arith, h)
zeros_sized (suc n) written h =
    let (size, bytes) = zeros_sized n written h in (omega (arith, size), (omega arith, bytes))

fill_loop-sized :
    (i : ℕ) (ds : List ℕ) (written : Bytes)
    → IsBytes written
    → (length (fill_loop i ds written) ≡ i + length written) × IsBytes (fill_loop i ds written)
unfolding fill_loop
fill_loop-sized zero ds written h = (omega arith, h)
fill_loop-sized (suc i) [] written h = zeros_sized (suc i) written h
fill_loop-sized (suc i) (d ∷ ds) written h =
    let step = divide_loop (d ∷ ds) 0 [] in
    let (value, small) = divide_loop-value (d ∷ ds) 0 [] (omega arith) in
    let (size, bytes) = fill_loop-sized i step.0 (step.1 ∷ written) (small, h) in
    (omega (arith, size), bytes)

-- A decimal text of a number below 256 ^ 32 is encoded, in 32 bytes that read back as the number.
pub dec_to_be32_lem :
    (s : Bytes)
    → is_decimal s ≡ true
    → dec_value (digits_of s) < base_pow 32
    → (b : Bytes) × (dec_to_be32 s ≡ ok b)
      × (length b ≡ 32)
      × IsBytes b
      × (be_value b ≡ dec_value (digits_of s))
unfolding dec_to_be32
dec_to_be32_lem s decimal h =
    let (size, bytes) = fill_loop-sized 32 (digits_of s) [] tt in
    (fill_loop 32 (digits_of s) [], rw decimal, size, bytes, fill_loop-value 32 (digits_of s) h)

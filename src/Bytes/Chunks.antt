-- ===== src/Bytes/Chunks.antt =====
-- Buffers laid out as chunks of known sizes: offsets, slices and injectivity.
use darknyx_capstone_project.Base.{
  ℕ, zero, suc, ◌+◌, ◌<◌, List, [], ◌∷◌, ◌++◌, length, take, drop, get_or, ◌≡◌, refl, ap, ap₂, sym,
  ◌∙◌, length-append, take-append, drop-append, append_assoc, arith,
}
use darknyx_capstone_project.Bytes.{Bytes, slice}

-- `cat(...parts)`: one buffer, the parts set one behind the other.
abbrev pub cat : List Bytes → Bytes
cat [] = []
cat (p ∷ ps) = p ++ cat ps

abbrev pub Sized : List ℕ → List Bytes → Type 0
Sized [] [] = Unit
Sized [] (p ∷ ps) = ⊥
Sized (n ∷ ns) [] = ⊥
Sized (n ∷ ns) (p ∷ ps) = (length p ≡ n) × Sized ns ps

abbrev pub total : List ℕ → ℕ
total [] = 0
total (n ∷ ns) = n + total ns

-- The offset of field `i`.
abbrev pub offset : List ℕ → ℕ → ℕ
offset ns zero = 0
offset [] (suc i) = 0
offset (n ∷ ns) (suc i) = n + offset ns i

pub length-cat : (ns : List ℕ) (ps : List Bytes) → Sized ns ps → length (cat ps) ≡ total ns
length-cat [] [] h = refl
length-cat [] (p ∷ ps) h = absurd h
length-cat (n ∷ ns) [] h = absurd h
length-cat (n ∷ ns) (p ∷ ps) h = omega (arith, length-append p (cat ps), length-cat ns ps h.1, h.0)

drop-nil {ℓ} : {A : Type ℓ} (m : ℕ) → drop {A = A} m [] ≡ []
drop-nil zero = refl
drop-nil (suc m) = refl

pub drop-add {ℓ} : {A : Type ℓ} (a b : ℕ) (xs : List A) → drop (a + b) xs ≡ drop b (drop a xs)
drop-add zero b xs = let e : zero + b ≡ b = omega arith in rw e
drop-add (suc a) b [] = let e : suc a + b ≡ suc (a + b) = omega arith in rw e (sym (drop-nil b))
drop-add (suc a) b (x ∷ xs) =
    let e : suc a + b ≡ suc (a + b) = omega arith in rw e (drop-add a b xs)

-- A field behind a prefix of known length.
pub slice-append :
    (n off len : ℕ) (p rest : Bytes)
    → length p ≡ n
    → slice (n + off) len (p ++ rest) ≡ slice off len rest
slice-append n off len p rest h =
    ap (take len) (drop-add n off (p ++ rest) ∙ ap (drop off) (drop-append n p rest h))

pub slice-cat :
    (ns : List ℕ) (ps : List Bytes) (rest : Bytes) (i : ℕ)
    → Sized ns ps
    → i < length ns
    → slice (offset ns i) (get_or ns i 0) (cat ps ++ rest) ≡ get_or ps i []
slice-cat [] ps rest i h lt = absurd (omega arith)
slice-cat (n ∷ ns) [] rest i h lt = absurd h
slice-cat (n ∷ ns) (p ∷ ps) rest zero h lt =
    rw (append_assoc p (cat ps) rest) (take-append n p (cat ps ++ rest) h.0)
slice-cat (n ∷ ns) (p ∷ ps) rest (suc i) h lt = rw (append_assoc p (cat ps) rest) (
    slice-append n (offset ns i) (get_or ns i 0) p (cat ps ++ rest) h.0
    ∙ slice-cat ns ps rest i h.1 (omega arith))

-- The layout is injective.
pub cat_injective :
    (ns : List ℕ) (ps qs : List Bytes) → Sized ns ps → Sized ns qs → cat ps ≡ cat qs → ps ≡ qs
cat_injective [] [] [] h k e = refl
cat_injective [] [] (q ∷ qs) h k e = absurd k
cat_injective [] (p ∷ ps) qs h k e = absurd h
cat_injective (n ∷ ns) [] qs h k e = absurd h
cat_injective (n ∷ ns) (p ∷ ps) [] h k e = absurd k
cat_injective (n ∷ ns) (p ∷ ps) (q ∷ qs) h k e =
    ap₂ (λ x xs. x ∷ xs)
      (sym (take-append n p (cat ps) h.0) ∙ ap (take n) e ∙ take-append n q (cat qs) k.0)
      (cat_injective ns ps qs h.1 k.1
        (sym (drop-append n p (cat ps) h.0) ∙ ap (drop n) e ∙ drop-append n q (cat qs) k.0))

-- ===== src/Bytes/Words.antt =====
-- Round trips of the fixed-width words.
use darknyx_capstone_project.Base.{
  ℕ, zero, suc, ◌+◌, ◌*◌, ◌/◌, ◌%◌, ◌^◌, ◌<◌, [], ◌∷◌, ◌++◌, length, ◌≡◌, refl, ap, ◌∙◌, arith,
  true,
}
use darknyx_capstone_project.Base.Int.{ℤ, pos, negsuc}
use darknyx_capstone_project.Bytes.{
  Bytes, IsBytes, le_bytes, le_value, be_value_from, base_pow, wrap64, IsU64, same_bytes,
}

pub length-le_bytes : (w v : ℕ) → length (le_bytes w v) ≡ w
length-le_bytes zero v = refl
length-le_bytes (suc w) v = ap suc (length-le_bytes w (v / 256))

pub le_value-le_bytes : (w v : ℕ) → v < base_pow w → le_value (le_bytes w v) ≡ v
le_value-le_bytes zero v h = omega arith
le_value-le_bytes (suc w) v h = omega (arith, le_value-le_bytes w (v / 256) (omega arith))

pub le_bytes-IsBytes : (w v : ℕ) → IsBytes (le_bytes w v)
le_bytes-IsBytes zero v = tt
le_bytes-IsBytes (suc w) v = (omega arith, le_bytes-IsBytes w (v / 256))

-- A stored `u64` is read back.
pub wrap64-IsU64 : (v : ℤ) → IsU64 v → pos (le_value (le_bytes 8 (wrap64 v))) ≡ v
wrap64-IsU64 (pos n) h =
    let e : n % 2 ^ 64 ≡ n = omega arith in
    ap pos (le_value-le_bytes 8 (n % 2 ^ 64) (omega arith) ∙ e)
wrap64-IsU64 (negsuc n) h = absurd h

pub be_value_from-append :
    (acc : ℕ) (xs ys : Bytes)
    → be_value_from acc (xs ++ ys) ≡ be_value_from (be_value_from acc xs) ys
be_value_from-append acc [] ys = refl
be_value_from-append acc (x ∷ xs) ys = be_value_from-append (acc * 256 + x) xs ys

pub same_bytes_iff : (xs ys : Bytes) → same_bytes xs ys ≡ true → xs ≡ ys
same_bytes_iff [] [] h = refl
same_bytes_iff [] (y ∷ ys) h = cc
same_bytes_iff (x ∷ xs) [] h = cc
same_bytes_iff (x ∷ xs) (y ∷ ys) h = ground (arith, same_bytes_iff xs ys)

pub same_bytes_refl : (xs : Bytes) → same_bytes xs xs ≡ true
same_bytes_refl [] = refl
same_bytes_refl (x ∷ xs) = ground (arith, same_bytes_refl xs)

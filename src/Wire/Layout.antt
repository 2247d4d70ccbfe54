-- ===== src/Wire/Layout.antt =====
-- Written fields as chunks: their sizes, acceptance and layout.
use darknyx_capstone_project.Base.{
  ℕ, ◌%◌, ◌^◌, List, [], ◌∷◌, ◌++◌, length, map, ◌≡◌, refl, sym, ap, ◌∙◌, arith, eq→==,
}
use darknyx_capstone_project.Base.Int.{ℤ, pos}
use darknyx_capstone_project.Errors.{Result, ok, err}
use darknyx_capstone_project.Bytes.{Bytes, le_bytes, le_value, wrap64, IsU64}
use darknyx_capstone_project.Bytes.Words.{length-le_bytes, wrap64-IsU64}
use darknyx_capstone_project.Bytes.Chunks.{cat, Sized}
use darknyx_capstone_project.Wire.{
  WireField, fixed, u64_le, u16_le, u32_le, raw, write_field, cat_fields,
}

abbrev pub field_bytes : WireField → Bytes
field_bytes (fixed x n) = x
field_bytes (u64_le v) = le_bytes 8 (wrap64 v)
field_bytes (u16_le v) = le_bytes 2 (v % 2 ^ 16)
field_bytes (u32_le v) = le_bytes 4 (v % 2 ^ 32)
field_bytes (raw x) = x

abbrev pub field_size : WireField → ℕ
field_size (fixed x n) = n
field_size (u64_le v) = 8
field_size (u16_le v) = 2
field_size (u32_le v) = 4
field_size (raw x) = length x

-- The declared length is the length.
abbrev pub Fits : WireField → Type 0
Fits (fixed x n) = length x ≡ n
Fits (u64_le v) = Unit
Fits (u16_le v) = Unit
Fits (u32_le v) = Unit
Fits (raw x) = Unit

abbrev pub AllFit : List WireField → Type 0
AllFit [] = Unit
AllFit (f ∷ fs) = Fits f × AllFit fs

write_field-ok : (f : WireField) → Fits f → write_field f ≡ ok (field_bytes f)
unfolding write_field
write_field-ok (fixed x n) h = rw (eq→== _ _ h)
write_field-ok (u64_le v) h = refl
write_field-ok (u16_le v) h = refl
write_field-ok (u32_le v) h = refl
write_field-ok (raw x) h = refl

write_field-Fits : (f : WireField) (b : Bytes) → write_field f ≡ ok b → Fits f
unfolding write_field
write_field-Fits (fixed x n) b h = ground arith
write_field-Fits (u64_le v) b h = tt
write_field-Fits (u16_le v) b h = tt
write_field-Fits (u32_le v) b h = tt
write_field-Fits (raw x) b h = tt

-- Fields of the declared lengths are written one behind the other.
pub cat_fields-cat :
    (fs : List WireField) → AllFit fs → cat_fields fs ≡ ok (cat (map field_bytes fs))
unfolding cat_fields
cat_fields-cat [] h = refl
cat_fields-cat (f ∷ fs) h =
    rw (write_field-ok f h.0, cat_fields) (rw (cat_fields-cat fs h.1, cat_fields))

-- Only those are written.
pub cat_fields-AllFit : (fs : List WireField) (b : Bytes) → cat_fields fs ≡ ok b → AllFit fs
unfolding cat_fields
cat_fields-AllFit [] b h = tt
cat_fields-AllFit (f ∷ fs) b h =
    head_ok (write_field f) refl (cat_fields fs) (cat_fields-AllFit fs) h
  where
    head_ok :
        (r : Result Bytes)
        → write_field f ≡ r
        → (q : Result Bytes) → ((c : Bytes) → q ≡ ok c → AllFit fs)
        → (elim r [ err e ↦ err e | ok x ↦ elim q [ err e ↦ err e | ok rest ↦ ok (x ++ rest) ] ])
          ≡ ok b
        → AllFit (f ∷ fs)
    head_ok (err e) p q s k = cc
    head_ok (ok x) p (err e) s k = cc
    head_ok (ok x) p (ok rest) s k = (write_field-Fits f x p, s rest refl)

field_sized : (f : WireField) → Fits f → length (field_bytes f) ≡ field_size f
field_sized (fixed x n) h = h
field_sized (u64_le v) h = length-le_bytes 8 (wrap64 v)
field_sized (u16_le v) h = length-le_bytes 2 (v % 2 ^ 16)
field_sized (u32_le v) h = length-le_bytes 4 (v % 2 ^ 32)
field_sized (raw x) h = refl

pub fields-Sized :
    (fs : List WireField) → AllFit fs → Sized (map field_size fs) (map field_bytes fs)
fields-Sized [] h = tt
fields-Sized (f ∷ fs) h = (field_sized f h.0, fields-Sized fs h.1)

-- A written `u64` in range determines its number.
pub u64_le_injective :
    (v w : ℤ) → IsU64 v → IsU64 w → le_bytes 8 (wrap64 v) ≡ le_bytes 8 (wrap64 w) → v ≡ w
u64_le_injective v w hv hw e =
    sym (wrap64-IsU64 v hv) ∙ ap (λ b. pos (le_value b)) e ∙ wrap64-IsU64 w hw

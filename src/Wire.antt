-- ===== src/Wire.antt =====
-- The byte writers that packages/sdk/src/idl/vault-client.ts,
-- packages/sdk/src/idl/matching-engine-client.ts and packages/sdk/src/settlement/settle-builder.ts
-- each declare: `fixed`, `u64LE`, `cat`. An argument of `cat` is one `WireField`; the arguments are
-- evaluated in order, and the first of a wrong length throws.
pub mod Layout
use Prim.Native.String.{String}
use darknyx_capstone_project.Base.{
  ℕ, ◌++◌, ◌^◌, ◌%◌, List, [], ◌∷◌, ◌==◌, if◌then◌else◌, length, take,
}
use darknyx_capstone_project.Base.Int.{ℤ}
use darknyx_capstone_project.Errors.{Result, ok, err, other_error}
use darknyx_capstone_project.Bytes.{Bytes, le_bytes, wrap64}
use darknyx_capstone_project.Solana.{Runtime, text_bytes}

pub data WireField : Type 0 where
  -- `fixed(x, n)`, `fixed32(x)`, and so on.
  fixed : Bytes → ℕ → WireField
  -- `u64LE(v)`.
  u64_le : ℤ → WireField
  -- `u16LE(v)` and `u32LE(v)`, of a number that is not negative.
  u16_le : ℕ → WireField
  u32_le : ℕ → WireField
  -- Bytes that are written as they are.
  raw : Bytes → WireField

unfoldable pub write_field : WireField → Result Bytes
write_field (fixed x n) = if length x == n then ok x else err other_error
write_field (u64_le v) = ok (le_bytes 8 (wrap64 v))
write_field (u16_le v) = ok (le_bytes 2 (v % 2 ^ 16))
write_field (u32_le v) = ok (le_bytes 4 (v % 2 ^ 32))
write_field (raw x) = ok x

unfoldable pub cat_fields : List WireField → Result Bytes
unfolding write_field
cat_fields [] = ok []
cat_fields (f ∷ fs) = elim (write_field f) [
  | err e ↦ err e
  | ok x ↦ elim (cat_fields fs) [ err e ↦ err e | ok rest ↦ ok (x ++ rest) ]
]

-- `sha256("global:" + name)[0..8]`.
unfoldable pub anchor_discriminator : Runtime → String → Bytes
anchor_discriminator rt name = take 8 (rt.sha256 (text_bytes "global:" ++ text_bytes name))

-- ===== src/Bytes.antt =====
-- `Uint8Array` as a list of numbers below 256, and the integers that it encodes: `DataView`'s
-- little-endian words, and big-endian field elements.
pub mod Words
pub mod Chunks
use darknyx_capstone_project.Base.{
  ℕ, zero, suc, ◌+◌, ◌*◌, ◌/◌, ◌%◌, ◌-◌, ◌^◌, ◌<◌, List, [], ◌∷◌, Bool, take, drop, replicate, ◌==◌,
  ◌&&◌, true, false,
}
use darknyx_capstone_project.Base.Int.{ℤ, pos, negsuc}

abbrev pub Bytes : Type 0
Bytes = List ℕ

abbrev pub IsBytes : Bytes → Type 0
IsBytes [] = Unit
IsBytes (b ∷ bs) = (b < 256) × IsBytes bs

-- `new Uint8Array(n)`.
abbrev pub zeros : ℕ → Bytes
zeros n = replicate n 0

-- `buf.subarray(off, off + len)`, which JavaScript clamps to the buffer.
abbrev pub slice : ℕ → ℕ → Bytes → Bytes
slice off len buf = take len (drop off buf)

-- The `w` low bytes of a number, lowest first: `setBigUint64`, `setUint32`, `setUint16`.
abbrev pub le_bytes : ℕ → ℕ → Bytes
le_bytes zero v = []
le_bytes (suc w) v = (v % 256) ∷ le_bytes w (v / 256)

abbrev pub le_value : Bytes → ℕ
le_value [] = 0
le_value (b ∷ bs) = b + 256 * le_value bs

-- `for (const b of x) acc = (acc << 8n) | BigInt(b)`.
abbrev pub be_value_from : ℕ → Bytes → ℕ
be_value_from acc [] = acc
be_value_from acc (b ∷ bs) = be_value_from (acc * 256 + b) bs

abbrev pub be_value : Bytes → ℕ
be_value = be_value_from 0

-- 256 ^ w, by recursion.
abbrev pub base_pow : ℕ → ℕ
base_pow zero = 1
base_pow (suc w) = 256 * base_pow w

-- The number that `setBigUint64` stores for a `bigint`: its value modulo 2 ^ 64.
abbrev pub wrap64 : ℤ → ℕ
wrap64 (pos n) = n % 2 ^ 64
wrap64 (negsuc n) = 2 ^ 64 - 1 - n % 2 ^ 64

abbrev pub IsU64 : ℤ → Type 0
IsU64 (pos n) = n < 2 ^ 64
IsU64 (negsuc n) = ⊥

-- Equality of byte arrays, as a loop over both.
abbrev pub same_bytes : Bytes → Bytes → Bool
same_bytes [] [] = true
same_bytes [] (b ∷ bs) = false
same_bytes (a ∷ as') [] = false
same_bytes (a ∷ as') (b ∷ bs) = a == b && same_bytes as' bs

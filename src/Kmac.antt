-- ===== src/Kmac.antt =====
-- packages/sdk/src/keys/key-generators.ts, the encodings of NIST SP 800-185 over SHAKE256:
-- `leftEncode`, `rightEncode`, `encodeString`, `bytepad` and `kmac256`. SHAKE256 (node:crypto) is a
-- parameter. An element of a `Uint8Array` keeps a number modulo 256.
pub mod Digits
pub mod Binding
use darknyx_capstone_project.Base.{
  if◌then◌else◌, ℕ, zero, suc, ◌*◌, ◌/◌, ◌%◌, [], ◌∷◌, ◌++◌, ◌==◌, length,
}
use darknyx_capstone_project.Bytes.{Bytes}
use darknyx_capstone_project.Solana.{text_bytes}

-- `while (y > 0n) { bytes.unshift(y & 0xff); y >>= 8 }`; `y` itself bounds the rounds.
unfoldable pub unshift_loop : ℕ → ℕ → Bytes → Bytes
unshift_loop zero y bytes = bytes
unshift_loop (suc fuel) y bytes =
    let rest = unshift_loop fuel (y / 256) ((y % 256) ∷ bytes) in if y == 0 then bytes else rest

unfoldable pub digits : ℕ → Bytes
unfolding unshift_loop
digits x = unshift_loop x x []

unfoldable pub left_encode : ℕ → Bytes
unfolding digits
left_encode x = if x == 0 then 1 ∷ 0 ∷ [] else (length (digits x) % 256) ∷ digits x

unfoldable pub right_encode : ℕ → Bytes
unfolding digits
right_encode x = if x == 0 then 0 ∷ 1 ∷ [] else digits x ++ (length (digits x) % 256) ∷ []

unfoldable pub encode_string : Bytes → Bytes
unfolding left_encode
encode_string s = left_encode (length s * 8) ++ s

-- `while (out.length % w !== 0)` appends a zero; `w` rounds are enough.
unfoldable pub pad_loop : ℕ → ℕ → Bytes → Bytes
pad_loop zero w out = out
pad_loop (suc fuel) w out =
    let rest = pad_loop fuel w (out ++ 0 ∷ []) in if length out % w == 0 then out else rest

unfoldable pub bytepad : Bytes → ℕ → Bytes
unfolding pad_loop left_encode
bytepad x w = pad_loop w w (left_encode w ++ x)

-- What `kmac256` feeds to SHAKE256, in order.
unfoldable pub kmac_input : Bytes → Bytes → Bytes → ℕ → Bytes
unfolding bytepad encode_string right_encode
kmac_input key custom_info message out_len =
    bytepad (encode_string (text_bytes "KMAC") ++ encode_string custom_info) 136
    ++ (bytepad (encode_string key) 136 ++ (message ++ right_encode (out_len * 8)))

unfoldable pub kmac256 : (Bytes → ℕ → Bytes) → Bytes → Bytes → Bytes → ℕ → Bytes
unfolding kmac_input
kmac256 shake256 key custom_info message out_len =
    shake256 (kmac_input key custom_info message out_len) out_len

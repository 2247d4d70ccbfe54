-- ===== src/ChangeNote/Derived.antt =====
-- apps/demo/src/lib/dapp/change-note-derive.ts: derived nonces and blinding factors are field elements.
use darknyx_capstone_project.Field.Encoding.{bn254_to_be32_lem}
use darknyx_capstone_project.Keys.Derived.{IsEncoded}
use darknyx_capstone_project.Groth16.Negation.{be_value_from_mono}
use darknyx_capstone_project.ChangeNote.{derive_blinding, derive_nonce, clear_top}
use darknyx_capstone_project.Solana.{Runtime}
use darknyx_capstone_project.Bytes.{zeros, be_value_from, Bytes, IsBytes, be_value}
use darknyx_capstone_project.Base.{◌*◌, ℕ, ◌≡◌, ◌<◌, ◌+◌, ◌%◌, length, arith, [], ◌∷◌}
use darknyx_capstone_project.Field.{bn254_r}

-- Cleared at the top, 32 bytes are a number below r, whatever they were.
clear_top-small : (d : Bytes) → length d ≡ 32 → IsBytes d → be_value (clear_top d) < bn254_r
clear_top-small [] h k = absurd (omega arith)
clear_top-small (a ∷ []) h k = absurd (omega arith)
clear_top-small (a ∷ b ∷ rest) h k =
    let below : be_value_from (0 * 256 + b % 16) rest < be_value_from 16 (zeros 30) =
      be_value_from_mono rest (zeros 30) (0 * 256 + b % 16) 16 k.1.1 (omega arith) (omega arith) in
    omega (arith, below)

-- With a SHA-256 of 32 bytes, derived nonces and blinding factors are field elements: each is encoded in
-- 32 bytes that read back as its number.
pub derived-IsEncoded :
    (rt : Runtime) (match_id role : ℕ)
    → ((m : Bytes) → (length (rt.sha256 m) ≡ 32) × IsBytes (rt.sha256 m))
    → IsEncoded (be_value (derive_nonce rt match_id role))
      × IsEncoded (be_value (derive_blinding rt match_id role))
unfolding derive_nonce derive_blinding
derived-IsEncoded rt match_id role digest =
    let encoded : (m : Bytes) → IsEncoded (be_value (clear_top (rt.sha256 m))) = λ m.
      bn254_to_be32_lem (be_value (clear_top (rt.sha256 m)))
        (clear_top-small (rt.sha256 m) (digest m).0 (digest m).1) in
    (encoded _, encoded _)

-- ===== src/ChangeNote.antt =====
-- apps/demo/src/lib/dapp/change-note-derive.ts: nonces and blinding factors of a match's notes, and
-- `actorSeed` of apps/demo/src/lib/dapp/persona-client.ts.
pub mod Derived
use Prim.Native.String.{String}
use darknyx_capstone_project.Base.{ℕ, [], ◌∷◌, ◌++◌, ◌%◌}
use darknyx_capstone_project.Bytes.{Bytes, zeros, le_bytes, be_value}
use darknyx_capstone_project.Errors.{Result, ok, err, other_error}
use darknyx_capstone_project.Solana.{Runtime, text_bytes}

abbrev pub trade_role_buyer : ℕ
trade_role_buyer = 0xc1

abbrev pub trade_role_seller : ℕ
trade_role_seller = 0xd1

-- `d[0] = 0; d[1] &= 0x0f`.
abbrev pub clear_top : Bytes → Bytes
clear_top [] = []
clear_top (a ∷ []) = 0 ∷ []
clear_top (a ∷ b ∷ rest) = 0 ∷ (b % 16) ∷ rest

abbrev pub role_hash : Runtime → String → ℕ → ℕ → Bytes
role_hash rt tag match_id role =
    clear_top (rt.sha256 (text_bytes tag ++ (le_bytes 8 match_id ++ (role % 256) ∷ [])))

unfoldable pub derive_nonce : Runtime → ℕ → ℕ → Bytes
derive_nonce rt match_id role = role_hash rt "nyx-change-nonce" match_id role

unfoldable pub derive_blinding : Runtime → ℕ → ℕ → Bytes
derive_blinding rt match_id role = role_hash rt "nyx-change-blind" match_id role

-- `BigInt("0x")` is a SyntaxError.
unfoldable pub be32_to_bigint : Bytes → Result ℕ
be32_to_bigint [] = err other_error
be32_to_bigint (b ∷ bs) = ok (be_value (b ∷ bs))

unfoldable pub match_id_to_payload_bytes : ℕ → Bytes
match_id_to_payload_bytes match_id = zeros 8 ++ le_bytes 8 match_id

-- The seed of a demo persona, by its role's name and its public key.
unfoldable pub actor_seed : Runtime → String → Bytes → Bytes
actor_seed rt role public_key =
    rt.sha256 (text_bytes "demo-" ++ (text_bytes role ++ (text_bytes "-seed-v1" ++ public_key)))
    ++ rt.sha256 (text_bytes "demo-" ++ (text_bytes role ++ (text_bytes "-seed-v2" ++ public_key)))

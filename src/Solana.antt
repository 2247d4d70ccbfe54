-- ===== src/Solana.antt =====
-- What the instruction builders take from @solana/web3.js and node:crypto: public keys as their
-- bytes, instructions with their account lists, and as parameters SHA-256 and
-- `findProgramAddressSync`, which maps seeds and a program to an address and its bump.
use Prim.Native.Char.{code}
use Prim.Native.String.{String}
use darknyx_capstone_project.Base.{ℕ, List, [], ◌∷◌, Bool, true, false}
use darknyx_capstone_project.Bytes.{Bytes}

abbrev pub PublicKey : Type 0
PublicKey = Bytes

pub record AccountMeta : Type 0 where
  pub pubkey : PublicKey
  pub is_signer : Bool
  pub is_writable : Bool

pub record TransactionInstruction : Type 0 where
  pub program_id : PublicKey
  pub keys : List AccountMeta
  pub instruction_data : Bytes

pub record Runtime : Type 0 where
  pub sha256 : Bytes → Bytes
  pub find_program_address : List Bytes → PublicKey → PublicKey × ℕ
  pub system_program : PublicKey
  pub rent_sysvar : PublicKey
  pub instructions_sysvar : PublicKey
  pub ed25519_program : PublicKey

-- `new TextEncoder().encode(s)` and `Buffer.from(s)` of an ASCII text.
abbrev pub text_bytes : String → Bytes
text_bytes String.[] = []
text_bytes (String.◌∷◌ c s) = code c ∷ text_bytes s

abbrev pub signer_writable : PublicKey → AccountMeta
signer_writable k = record { pubkey = k; is_signer = true; is_writable = true }

abbrev pub signer_readonly : PublicKey → AccountMeta
signer_readonly k = record { pubkey = k; is_signer = true; is_writable = false }

abbrev pub writable : PublicKey → AccountMeta
writable k = record { pubkey = k; is_signer = false; is_writable = true }

abbrev pub readonly : PublicKey → AccountMeta
readonly k = record { pubkey = k; is_signer = false; is_writable = false }

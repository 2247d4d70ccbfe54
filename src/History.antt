-- ===== src/History.antt =====
-- apps/demo/src/lib/dapp/vault-leaf-history.ts: the ordered leaves of the vault's Merkle tree, read
-- back from the program's transactions. The RPC connection, base58 and the parser of addresses are
-- parameters.
pub mod Leaves
pub mod Instructions
pub mod Deposits
pub mod Pages
use mathlib.Core.List.{reverse}
use darknyx_capstone_project.Bytes.{same_bytes, slice, be_value, le_value, Bytes}
use darknyx_capstone_project.Base.{
  zero, ◌-◌, not, drop, ◌||◌, take, min, ◌&&◌, length, false, ◌==◌, true, suc, some, ltb, leb,
  get_elem?, none, map, if◌then◌else◌, Bool, ℕ, List, [], ◌∷◌, ◌++◌, Option,
}
use Prim.Native.String.{String}
use darknyx_capstone_project.Errors.{throw_if, ◌>>=◌, ◌>>◌, other_error, ok, err, Result}
use darknyx_capstone_project.Base.Int.{pos}
use darknyx_capstone_project.Wire.{anchor_discriminator}
use darknyx_capstone_project.Field.{note_commitment, Note, Poseidon}
use darknyx_capstone_project.Solana.{Runtime, PublicKey}

pub record CompiledInstruction : Type 0 where
  pub program_id_index : ℕ
  pub account_key_indexes : List ℕ
  pub ix_data : Bytes

pub data InnerInstruction : Type 0 where
  -- Data in base58, accounts as indexes.
  compiled : ℕ → String → List ℕ → InnerInstruction
  -- Data in bytes.
  compiled_raw : ℕ → Bytes → List ℕ → InnerInstruction
  -- The parsed shape: texts.
  parsed : String → String → List String → InnerInstruction

pub record Transaction : Type 0 where
  pub failed : Bool
  pub static_account_keys : List PublicKey
  pub loaded_addresses : Option (List PublicKey × List PublicKey)
  pub compiled_instructions : List CompiledInstruction
  pub inner_instructions : List (ℕ × List InnerInstruction)

pub record Connection : Type 0 where
  pub get_transaction : String → Result (Option Transaction)
  -- At most `limit` signatures, older than `before`.
  pub get_signatures : ℕ → Option String → Result (List String)
  pub bs58_decode : String → Result Bytes
  pub parse_public_key : String → Result PublicKey

-- `data.subarray(0, 8).every((b, i) => b === disc[i])`.
abbrev pub every_match : Bytes → Bytes → Bool
every_match [] disc = true
every_match (b ∷ bs) [] = false
every_match (b ∷ bs) (d ∷ ds) = b == d && every_match bs ds

abbrev pub is_zero32 : Bytes → Bool
is_zero32 [] = true
is_zero32 (b ∷ bs) = b == 0 && is_zero32 bs

unfoldable pub push_settle_leaves : List Bytes → Bytes → Result (List Bytes)
push_settle_leaves leaves p = do
  throw_if (ltb (length p) 448) other_error
  let note_e = slice 144 32 p
  let note_f = slice 176 32 p
  let note_fee = slice 352 32 p
  let with_cd = leaves ++ slice 80 32 p ∷ slice 112 32 p ∷ []
  let with_e = if is_zero32 note_e then with_cd else with_cd ++ note_e ∷ []
  let with_f = if is_zero32 note_f then with_e else with_e ++ note_f ∷ []
  ok (if is_zero32 note_fee then with_f else with_f ++ note_fee ∷ [])

-- `resolveAccountKeys`.
unfoldable pub resolve_account_keys : Transaction → List PublicKey
resolve_account_keys tx = elim tx.loaded_addresses [
  | none ↦ tx.static_account_keys
  | some loaded ↦ tx.static_account_keys ++ loaded.0 ++ loaded.1
]

-- `innerByTop.get(ti)`: the last group set for the index.
abbrev pub inner_by_top :
    List (ℕ × List InnerInstruction) → ℕ → List InnerInstruction → List InnerInstruction
inner_by_top [] ti found = found
inner_by_top (g ∷ gs) ti found = inner_by_top gs ti (if g.0 == ti then g.1 else found)

-- An account key beyond the resolved ones is `undefined`: using it throws.
abbrev pub defined {ℓ} : {A : Type ℓ} → Option A → Result A
defined none = err other_error
defined (some a) = ok a

abbrev pub keys_at : List PublicKey → List ℕ → List (Option PublicKey)
keys_at keys = map (get_elem? keys)

module _ (rt : Runtime) (p : Poseidon) where
  abbrev pub deposit_disc : Bytes
  deposit_disc = anchor_discriminator rt "deposit"

  abbrev pub settle_disc : Bytes
  settle_disc = anchor_discriminator rt "tee_forced_settle"

  abbrev pub deposited_note : PublicKey → Bytes → Note
  deposited_note mint raw_data = record {
    token_mint = mint;
    amount = pos (le_value (slice 8 8 raw_data));
    owner_commitment = pos (be_value (slice 16 32 raw_data));
    nonce = pos (be_value (slice 48 32 raw_data));
    blinding_r = pos (be_value (slice 80 32 raw_data));
  }

  unfoldable pub push_deposit_leaf :
      List Bytes → Bytes → List (Option PublicKey) → Result (List Bytes)
  unfolding note_commitment anchor_discriminator
  push_deposit_leaf leaves raw_data ix_account_keys =
      if ltb (length raw_data) 112 || not (every_match (take 8 raw_data) deposit_disc)
      then ok leaves
      else elim (get_elem? ix_account_keys 2) [
        | none ↦ ok leaves
        | some key ↦ do
          mint ← defined key
          leaf ← note_commitment p (deposited_note mint raw_data)
          ok (leaves ++ leaf ∷ [])
      ]

  unfoldable pub process_ix_data :
      List Bytes → Bytes → List (Option PublicKey) → Result (List Bytes)
  unfolding push_deposit_leaf push_settle_leaves anchor_discriminator
  process_ix_data leaves raw_data ix_account_keys =
      if leb 8 (length raw_data) && every_match (take 8 raw_data) deposit_disc
      then push_deposit_leaf leaves raw_data ix_account_keys
      else if leb 8 (length raw_data) && every_match (take 8 raw_data) settle_disc
      then push_settle_leaves leaves (drop 8 raw_data)
      else ok leaves

  module _ (connection : Connection) (vault_program_id : PublicKey) (maximum : ℕ) where
    unfoldable pub walk_ix :
        List Bytes → Bytes → Option PublicKey → List (Option PublicKey) → Result (List Bytes)
    unfolding process_ix_data
    walk_ix leaves raw_data program_id ix_account_keys =
        if leb maximum (length leaves) then ok leaves else do
          program ← defined program_id
          if same_bytes program vault_program_id
              then process_ix_data leaves raw_data ix_account_keys
              else ok leaves

    abbrev pub parse_keys : List String → Result (List (Option PublicKey))
    parse_keys [] = ok []
    parse_keys (s ∷ ss) = do
      key ← connection.parse_public_key s
      rest ← parse_keys ss
      ok (some key ∷ rest)

    -- `anyIx.data ? bs58.decode(anyIx.data) : new Uint8Array()`.
    abbrev pub decode_text : String → Result Bytes
    decode_text String.[] = ok []
    decode_text (String.◌∷◌ c text) = connection.bs58_decode (String.◌∷◌ c text)

    -- The body of the inner loop, below its test of the cap.
    unfoldable pub walk_inner : List PublicKey → List Bytes → InnerInstruction → Result (List Bytes)
    unfolding walk_ix
    walk_inner keys leaves (compiled i text accounts) = do
      raw ← connection.bs58_decode text
      walk_ix leaves raw (get_elem? keys i) (keys_at keys accounts)
    walk_inner keys leaves (compiled_raw i raw accounts) =
        walk_ix leaves raw (get_elem? keys i) (keys_at keys accounts)
    walk_inner keys leaves (parsed program text accounts) = do
      program_id ← connection.parse_public_key program
      raw ← decode_text text
      ix_keys ← parse_keys accounts
      walk_ix leaves raw (some program_id) ix_keys

    unfoldable pub inner_loop :
        List PublicKey → List Bytes → List InnerInstruction → Result (List Bytes)
    unfolding walk_inner
    inner_loop keys leaves [] = ok leaves
    inner_loop keys leaves (ix ∷ ixs) =
        if leb maximum (length leaves)
        then ok leaves
        else do leaves' ← walk_inner keys leaves ix; inner_loop keys leaves' ixs

    unfoldable pub top_loop :
        List PublicKey
        → List (ℕ × List InnerInstruction)
        → ℕ
        → List Bytes
        → List CompiledInstruction
        → Result (List Bytes)
    unfolding walk_ix inner_loop
    top_loop keys inners ti leaves [] = ok leaves
    top_loop keys inners ti leaves (ix ∷ ixs) =
        if leb maximum (length leaves) then ok leaves else do
          own ←
              walk_ix leaves ix.ix_data (get_elem? keys ix.program_id_index)
                (keys_at keys ix.account_key_indexes)
          inner ← inner_loop keys own (inner_by_top inners ti [])
          top_loop keys inners (suc ti) inner ixs

    unfoldable pub walk_transaction_ordered : String → List Bytes → Result (List Bytes)
    unfolding resolve_account_keys top_loop
    walk_transaction_ordered sig leaves = do
      tx ← connection.get_transaction sig
      elim tx [
        | none ↦ ok leaves
        | some t ↦
            if t.failed
            then ok leaves
            else top_loop (resolve_account_keys t) t.inner_instructions 0 leaves
                t.compiled_instructions
      ]

    -- The loop of `collectVaultLeavesOrdered` over the signatures, oldest first.
    unfoldable pub replay : List Bytes → List String → Result (List Bytes)
    unfolding walk_transaction_ordered
    replay leaves [] = ok leaves
    replay leaves (sig ∷ sigs) =
        if leb maximum (length leaves)
        then ok leaves
        else do leaves' ← walk_transaction_ordered sig leaves; replay leaves' sigs

-- The last element, if there is one.
abbrev pub last_signature : List String → Option String
last_signature [] = none
last_signature (s ∷ []) = some s
last_signature (s ∷ t ∷ ts) = last_signature (t ∷ ts)

-- What a round does with the server's answer, over the rounds behind it: what it threw, the end of the
-- history at an empty or a short page, or those rounds.
abbrev pub after_page :
    ℕ
    → List String
    → (List String → Option (Result (List String)))
    → Result (List String)
    → Option (Result (List String))
after_page remaining out next (err thrown) = some (err thrown)
after_page remaining out next (ok page) =
    if length page == 0
    then some (ok out)
    else (if ltb (length page) remaining then some (ok (out ++ page)) else next page)

-- The loop of `fetchSignaturesPaginated`; without fuel it has not ended.
unfoldable pub fetch_loop :
    Connection → ℕ → ℕ → List String → Option String → Option (Result (List String))
fetch_loop connection hard_cap zero out before = none
fetch_loop connection hard_cap (suc fuel) out before =
    let remaining = min 1000 (hard_cap - length out) in
    if leb hard_cap (length out)
    then some (ok out)
    else after_page remaining out
        (λ page. fetch_loop connection hard_cap fuel (out ++ page) (last_signature page))
        (connection.get_signatures remaining before)

-- Every round that goes on adds a signature, so that the loop ends within `hard_cap` rounds and the one
-- that finds the cap reached.
unfoldable pub fetch_signatures_paginated : Connection → ℕ → Result (List String)
unfolding fetch_loop
fetch_signatures_paginated connection hard_cap =
    elim (fetch_loop connection hard_cap (suc hard_cap) [] none) [
      | none ↦ err other_error
      | some ended ↦ ended
    ]

-- `max_sig` is 10000 unless an option says otherwise.
unfoldable pub collect_vault_leaves_ordered :
    Runtime → Poseidon → Connection → PublicKey → ℕ → ℕ → Result (List Bytes)
unfolding fetch_signatures_paginated replay
collect_vault_leaves_ordered rt p connection vault_program_id target_count max_sig = do
  sigs ← fetch_signatures_paginated connection max_sig
  throw_if (length sigs == 0) other_error
  leaves ← replay rt p connection vault_program_id target_count [] (reverse sigs)
  throw_if (not (length leaves == target_count)) other_error
  ok leaves

-- ===== src/History/Deposits.antt =====
-- apps/demo/src/lib/dapp/vault-leaf-history.ts on the instruction of the SDK's builder
-- `buildDepositInstruction`.
use darknyx_capstone_project.Base.{
  get_elem?, ◌≤◌, false, append-nil, ltb, ◌∙◌, length-append, ap, sym, get_or, arith, true, leb,
  ◌<◌, take-append, take, ◌≡◌, some, length, map, Option, ℕ, List, [], ◌∷◌, ◌++◌,
}
use darknyx_capstone_project.History.{
  every_match, deposited_note, ◌>>=◌, note_commitment, push_deposit_leaf, process_ix_data,
}
use darknyx_capstone_project.Errors.{ok, ok_injective, bind-ok}
use darknyx_capstone_project.Bytes.{be_value, Bytes, le_value, wrap64, le_bytes, slice, IsU64}
use darknyx_capstone_project.Wire.{anchor_discriminator, cat_fields}
use darknyx_capstone_project.Field.{Note, Poseidon}
use darknyx_capstone_project.Bytes.Words.{wrap64-IsU64}
use darknyx_capstone_project.History.Instructions.{every_match_refl}
use darknyx_capstone_project.Bytes.Chunks.{slice-cat, offset, length-cat, Sized, cat}
use darknyx_capstone_project.Wire.Layout.{
  cat_fields-cat, cat_fields-AllFit, fields-Sized, field_bytes, AllFit,
}
use darknyx_capstone_project.VaultClient.{
  deposit_keys, deposit_fields, DepositAccounts, build_deposit_instruction,
}
use darknyx_capstone_project.Base.Int.{pos, ℤ}
use darknyx_capstone_project.Solana.{TransactionInstruction, Runtime, PublicKey, AccountMeta}

-- The note that a deposit makes, its numbers read from their bytes.
unfoldable pub note_of_deposit : PublicKey → ℤ → Bytes → Bytes → Bytes → Note
note_of_deposit mint amount owner nonce blinding = record {
  token_mint = mint;
  amount = amount;
  owner_commitment = pos (be_value owner);
  nonce = pos (be_value nonce);
  blinding_r = pos (be_value blinding);
}

abbrev pub account_keys : List AccountMeta → List (Option PublicKey)
account_keys = map (λ (k : AccountMeta). some k.pubkey)

build_deposit_instruction-data :
    (rt : Runtime) (program : PublicKey) (a : DepositAccounts) (amount : ℤ)
    (owner nonce blinding : Bytes) (ix : TransactionInstruction)
    → build_deposit_instruction rt program a amount owner nonce blinding ≡ ok ix
    → AllFit (deposit_fields amount owner nonce blinding)
      × (ix.instruction_data
          ≡ anchor_discriminator rt "deposit"
            ++ cat (map field_bytes (deposit_fields amount owner nonce blinding)))
      × (account_keys ix.keys ≡ account_keys (deposit_keys rt program a))
unfolding build_deposit_instruction
build_deposit_instruction-data rt program a amount owner nonce blinding ix e =
    let fields = deposit_fields amount owner nonce blinding in
    let (b, body, e1) = bind-ok (cat_fields fields) _ ix e in
    let fit : AllFit fields = cat_fields-AllFit fields b body in
    let same : b ≡ cat (map field_bytes fields) =
      ok_injective (sym body ∙ cat_fields-cat fields fit) in
    (
      fit,
      ap (λ (i : TransactionInstruction). i.instruction_data) (sym (ok_injective e1))
          ∙ ap (λ c. anchor_discriminator rt "deposit" ++ c) same,
      ap (λ (i : TransactionInstruction). account_keys i.keys) (sym (ok_injective e1)),
    )

module _ (rt : Runtime) (p : Poseidon) where
  -- The note read from a deposit's data is the note of its arguments.
  deposited_note-cat :
      (mint : PublicKey) (amount : ℤ) (owner nonce blinding disc : Bytes)
      → length disc ≡ 8
      → IsU64 amount
      → AllFit (deposit_fields amount owner nonce blinding)
      → deposited_note rt p mint
          (disc ++ cat (map field_bytes (deposit_fields amount owner nonce blinding)))
        ≡ note_of_deposit mint amount owner nonce blinding
  unfolding note_of_deposit
  deposited_note-cat mint amount owner nonce blinding disc hd in_range fit =
      let chunks = map field_bytes (deposit_fields amount owner nonce blinding) in
      let sizes : List ℕ = 8 ∷ 8 ∷ 32 ∷ 32 ∷ 32 ∷ [] in
      let sized : Sized sizes (disc ∷ chunks) =
        (hd, fields-Sized (deposit_fields amount owner nonce blinding) fit) in
      let at : (i : ℕ)
          → i < 5
          → slice (offset sizes i) (get_or sizes i 0) (disc ++ cat chunks)
            ≡ get_or (disc ∷ chunks) i [] =
        λ i lt.
          ap (slice (offset sizes i) (get_or sizes i 0)) (sym (append-nil (disc ++ cat chunks)))
          ∙ slice-cat sizes (disc ∷ chunks) [] i sized lt in
      let amount_at : slice 8 8 (disc ++ cat chunks) ≡ le_bytes 8 (wrap64 amount) =
        at 1 (omega arith) in
      let owner_at : slice 16 32 (disc ++ cat chunks) ≡ owner = at 2 (omega arith) in
      let nonce_at : slice 48 32 (disc ++ cat chunks) ≡ nonce = at 3 (omega arith) in
      let blinding_at : slice 80 32 (disc ++ cat chunks) ≡ blinding = at 4 (omega arith) in
      let read : pos (le_value (slice 8 8 (disc ++ cat chunks))) ≡ amount =
        ap (λ b. pos (le_value b)) amount_at ∙ wrap64-IsU64 amount in_range in
      λ i. record {
        token_mint = mint;
        amount = read i;
        owner_commitment = pos (be_value (owner_at i));
        nonce = pos (be_value (nonce_at i));
        blinding_r = pos (be_value (blinding_at i));
      }

-- Long enough, behind the deposit's discriminator and with the mint in its place.
process_ix_data-deposit :
    (rt : Runtime) (p : Poseidon) (mint : PublicKey) (raw_data : Bytes) (leaves : List Bytes)
    (keys : List (Option PublicKey))
    → 112 ≤ length raw_data
    → every_match (take 8 raw_data) (anchor_discriminator rt "deposit") ≡ true
    → get_elem? keys 2 ≡ some (some mint)
    → process_ix_data rt p leaves raw_data keys
      ≡ (note_commitment p (deposited_note rt p mint raw_data) >>= λ leaf. ok (leaves ++ leaf ∷ []))
unfolding process_ix_data push_deposit_leaf
process_ix_data-deposit rt p mint raw_data leaves keys size same key =
    let long : leb 8 (length raw_data) ≡ true = ground arith in
    let enough : ltb (length raw_data) 112 ≡ false = ground arith in rw (same, long, enough, key)

-- With a discriminator of eight bytes and an amount of 64 bits, the replay takes from a deposit
-- instruction that `buildDepositInstruction` made exactly the commitment of the note that the
-- deposit's arguments describe, and throws where that commitment does.
pub process_ix_data-build_deposit_instruction :
    (rt : Runtime) (p : Poseidon) (program : PublicKey) (a : DepositAccounts) (amount : ℤ)
    (owner nonce blinding : Bytes) (ix : TransactionInstruction) (leaves : List Bytes)
    → length (anchor_discriminator rt "deposit") ≡ 8
    → IsU64 amount
    → build_deposit_instruction rt program a amount owner nonce blinding ≡ ok ix
    → process_ix_data rt p leaves ix.instruction_data (account_keys ix.keys) ≡ (
        note_commitment p (note_of_deposit a.token_mint amount owner nonce blinding) >>= λ leaf.
        ok (leaves ++ leaf ∷ []))
unfolding process_ix_data push_deposit_leaf
process_ix_data-build_deposit_instruction rt p program a amount owner nonce blinding ix leaves hd
      in_range e =
    let (fit, carried, keys) =
      build_deposit_instruction-data rt program a amount owner nonce blinding ix e in
    let disc : Bytes = anchor_discriminator rt "deposit" in
    let fields = deposit_fields amount owner nonce blinding in
    let body : Bytes = cat (map field_bytes fields) in
    let first : take 8 (disc ++ body) ≡ disc = take-append 8 disc body hd in
    let size : length body ≡ 104 =
      length-cat (8 ∷ 32 ∷ 32 ∷ 32 ∷ []) (map field_bytes fields) (fields-Sized fields fit) in
    ap (λ d. process_ix_data rt p leaves d (account_keys ix.keys)) carried
    ∙ process_ix_data-deposit rt p a.token_mint (disc ++ body) leaves (account_keys ix.keys)
        (omega (arith, length-append disc body, size, hd))
        (ap (λ d. every_match d disc) first ∙ every_match_refl disc)
        (ap (λ ks. get_elem? ks 2) keys)
    ∙ ap (λ n. note_commitment p n >>= λ leaf. ok (leaves ++ leaf ∷ []))
        (deposited_note-cat rt p a.token_mint amount owner nonce blinding disc hd in_range fit)

pub build_deposit_instruction-program_id :
    (rt : Runtime) (program : PublicKey) (a : DepositAccounts) (amount : ℤ)
    (owner nonce blinding : Bytes) (ix : TransactionInstruction)
    → build_deposit_instruction rt program a amount owner nonce blinding ≡ ok ix
    → ix.program_id ≡ program
unfolding build_deposit_instruction
build_deposit_instruction-program_id rt program a amount owner nonce blinding ix e =
    let (b, body, e1) = bind-ok (cat_fields (deposit_fields amount owner nonce blinding)) _ ix e in
    ap (λ (i : TransactionInstruction). i.program_id) (sym (ok_injective e1))

-- The replayed leaf, where the note and its commitment are known.
pub process_ix_data-committed :
    (rt : Runtime) (p : Poseidon) (program : PublicKey) (a : DepositAccounts) (amount : ℤ)
    (owner nonce blinding : Bytes) (ix : TransactionInstruction) (leaves : List Bytes) (note : Note)
    (commitment : Bytes)
    → length (anchor_discriminator rt "deposit") ≡ 8
    → IsU64 amount
    → build_deposit_instruction rt program a amount owner nonce blinding ≡ ok ix
    → note_of_deposit a.token_mint amount owner nonce blinding ≡ note
    → note_commitment p note ≡ ok commitment
    → process_ix_data rt p leaves ix.instruction_data (account_keys ix.keys)
      ≡ ok (leaves ++ commitment ∷ [])
process_ix_data-committed rt p program a amount owner nonce blinding ix leaves note commitment hd
      in_range e same committed =
    process_ix_data-build_deposit_instruction rt p program a amount owner nonce blinding ix leaves
      hd in_range e
    ∙ ap (λ n. note_commitment p n >>= λ leaf. ok (leaves ++ leaf ∷ [])) same
    ∙ ap (λ r. r >>= λ leaf. ok (leaves ++ leaf ∷ [])) committed

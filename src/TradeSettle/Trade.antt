-- ===== src/TradeSettle/Trade.antt =====
-- apps/demo/src/lib/dapp/run-trade-l1-settle.ts: what the settlement of a match is built from: the match
-- in BatchResults, the output notes, the payload, and the comparison with the replayed history. An
-- account's data is a buffer of its own; numbers that the source prints are kept as numbers, and a
-- hexadecimal text as its bytes.
use darknyx_capstone_project.Field.{poseidon2, Poseidon, note_commitment, nullifier}
use darknyx_capstone_project.Errors.{Result, ok, err, other_error, ◌>>=◌}
use darknyx_capstone_project.Base.{
  ℕ, List, [], ◌∷◌, ◌++◌, Bool, Option, none, some, ltb, ◌==◌, ◌&&◌, length, if◌then◌else◌,
  get_elem?,
}
use darknyx_capstone_project.Base.Int.{ℤ, pos}
use darknyx_capstone_project.Bytes.{Bytes, slice, le_value, same_bytes}
use darknyx_capstone_project.Solana.{Runtime, PublicKey}
use darknyx_capstone_project.Keys.{Crypto, derive_spending_key}
use darknyx_capstone_project.BatchResults.{MatchResultRecord}
use darknyx_capstone_project.Settlement.{MatchResultPayload, zero_commitment, relock_order_id_none}
use darknyx_capstone_project.History.{Connection, collect_vault_leaves_ordered, is_zero32}
use darknyx_capstone_project.Shadow.{MerkleShadow, create, append, witness}
use darknyx_capstone_project.ChangeNote.{
  derive_nonce, derive_blinding, be32_to_bigint, match_id_to_payload_bytes, actor_seed,
  trade_role_buyer, trade_role_seller,
}

pub record Keypair : Type 0 where
  pub public_key : PublicKey
  pub secret_key : Bytes

pub record TradeL1SettleContext : Type 0 where
  pub vault_program_id : PublicKey
  pub base_mint : PublicKey
  pub quote_mint : PublicKey
  pub batch_pda : PublicKey
  pub tee : Keypair
  pub maker : Keypair
  pub user_master_seed : Bytes
  pub user_quote_note_commitment : Bytes
  pub user_order_id : Bytes
  pub user_expiry_slot : ℤ
  pub maker_note_commitment : Bytes
  pub maker_order_id : Bytes
  pub maker_expiry_slot : ℤ

pub record BuyerBaseNote : Type 0 where
  pub match_id : ℕ
  pub leaf_index : ℕ
  pub amount : ℕ
  pub nonce : ℕ
  pub blinding_r : ℕ
  pub commitment : Bytes
  pub token_mint : PublicKey
  pub vault_leaf_count_after : ℕ

-- What the replay warns of.
pub data Warning : Type 0 where
  root_differs leaf_differs replay_skipped : Warning

pub record TradeL1SettleResult : Type 0 where
  pub lock_signature : Bytes
  pub settle_signature : Bytes
  pub buyer_base_note : BuyerBaseNote
  pub warnings : List Warning

-- An output note: its numbers as they were derived, and its commitment.
pub record OutputNote : Type 0 where
  pub nonce : ℕ
  pub blinding : ℕ
  pub commitment : Bytes

abbrev pub is_relock_none : Bytes → Bool
is_relock_none id = length id == 16 && is_zero32 id

abbrev pub relock_or_none : Bytes → Bytes
relock_or_none id = if is_relock_none id then relock_order_id_none else id

abbrev pub or_zero_commitment : Bytes → Bytes
or_zero_commitment note = if is_zero32 note then zero_commitment else note

unfoldable pub find_match : Bytes → Bytes → List MatchResultRecord → Option MatchResultRecord
find_match user_note maker_note [] = none
find_match user_note maker_note (r ∷ rs) =
    if r.status == 1 && same_bytes r.note_buyer user_note && same_bytes r.note_seller maker_note
    then some r
    else find_match user_note maker_note rs

-- An account that is missing, or a match, ends the run.
abbrev pub required {ℓ} : {A : Type ℓ} → Option A → Result A
required none = err other_error
required (some a) = ok a

-- `getBigUint64` at 104, a RangeError beyond the data.
abbrev pub leaf_count_of : Bytes → Result ℕ
leaf_count_of account =
    if ltb (length account) 112 then err other_error else ok (le_value (slice 104 8 account))

-- The two comparisons, in order.
abbrev pub leaf_warning : Option Bytes → Bytes → List Warning
leaf_warning none commitment = []
leaf_warning (some leaf) commitment = if same_bytes leaf commitment then [] else leaf_differs ∷ []

-- The `try` around them: what is thrown becomes a warning.
abbrev pub caught : Result (List Warning) → List Warning
caught (ok warnings) = warnings
caught (err e) = replay_skipped ∷ []

module _ (rt : Runtime) (p : Poseidon) where
  -- `noteCcommitment` and `noteDcommitment`, with the numbers under them.
  unfoldable pub output_note : PublicKey → ℕ → ℕ → ℕ → ℕ → Result OutputNote
  unfolding derive_nonce derive_blinding be32_to_bigint
  output_note mint amount owner match_id role = do
    nonce ← be32_to_bigint (derive_nonce rt match_id role)
    blinding ← be32_to_bigint (derive_blinding rt match_id role)
    commitment ← note_commitment p (record {
      token_mint = mint;
      amount = pos amount;
      owner_commitment = pos owner;
      nonce = pos nonce;
      blinding_r = pos blinding;
    })
    ok (record { nonce = nonce; blinding = blinding; commitment = commitment })

  -- The arguments of the settlement, after the nullifiers and the output notes.
  abbrev pub settle_payload :
      TradeL1SettleContext
      → MatchResultRecord
      → Bytes
      → Bytes
      → OutputNote
      → OutputNote
      → MatchResultPayload
  settle_payload ctx mr null_a null_b note_c note_d = record {
    match_id = match_id_to_payload_bytes mr.match_id;
    note_a_commitment = mr.note_buyer;
    note_b_commitment = mr.note_seller;
    note_c_commitment = note_c.commitment;
    note_d_commitment = note_d.commitment;
    note_e_commitment = or_zero_commitment mr.note_e_commitment;
    note_f_commitment = or_zero_commitment mr.note_f_commitment;
    nullifier_a = null_a;
    nullifier_b = null_b;
    order_id_a = ctx.user_order_id;
    order_id_b = ctx.maker_order_id;
    base_amount = pos mr.base_amt;
    quote_amount = pos mr.quote_amt;
    buyer_change_amt = pos mr.buyer_change_amt;
    seller_change_amt = pos mr.seller_change_amt;
    buyer_fee_amt = pos mr.buyer_fee_amt;
    seller_fee_amt = pos mr.seller_fee_amt;
    note_fee_commitment = zero_commitment;
    buyer_relock_order_id = relock_or_none mr.buyer_relock_order_id;
    buyer_relock_expiry = pos mr.buyer_relock_expiry;
    seller_relock_order_id = relock_or_none mr.seller_relock_order_id;
    seller_relock_expiry = pos mr.seller_relock_expiry;
    clearing_price = pos mr.price;
    batch_slot = pos mr.batch_slot;
  }

  module _ (c : Crypto) where
    -- From the spending keys to the payload: the buyer's output note, and the payload.
    unfoldable pub build_trade :
        TradeL1SettleContext → MatchResultRecord → Result (OutputNote × MatchResultPayload)
    unfolding output_note actor_seed be32_to_bigint
    build_trade ctx mr = do
      let user_spending = pos (derive_spending_key c ctx.user_master_seed)
      let maker_spending = pos (derive_spending_key c (actor_seed rt "maker" ctx.maker.public_key))
      null_a ← nullifier p user_spending mr.note_buyer
      null_b ← nullifier p maker_spending mr.note_seller
      uc_buyer ← be32_to_bigint mr.user_commitment_buyer
      uc_seller ← be32_to_bigint mr.user_commitment_seller
      note_c ← output_note ctx.base_mint mr.base_amt uc_buyer mr.match_id trade_role_buyer
      note_d ← output_note ctx.quote_mint mr.quote_amt uc_seller mr.match_id trade_role_seller
      ok (note_c, settle_payload ctx mr null_a null_b note_c note_d)

  -- `for (const leaf of leaves) await shadow.append(leaf)`.
  unfoldable pub append_all : MerkleShadow → List Bytes → Result MerkleShadow
  append_all shadow [] = ok shadow
  append_all shadow (leaf ∷ leaves) = do
    root ← (append (poseidon2 p) shadow leaf).1
    append_all (append (poseidon2 p) shadow leaf).0 leaves

  unfoldable pub compare_replay :
      Connection → PublicKey → ℕ → ℕ → Bytes → Bytes → Result (List Warning)
  unfolding append_all
  compare_replay connection program leaf_after leaf_before account commitment = do
    leaves ← collect_vault_leaves_ordered rt p connection program leaf_after 2000
    shadow ← append_all (create (poseidon2 p)) leaves
    w ← witness (poseidon2 p) shadow leaf_before
    ok (
        (if same_bytes w.root (slice 112 32 account) then [] else root_differs ∷ [])
        ++ leaf_warning (get_elem? leaves leaf_before) commitment)

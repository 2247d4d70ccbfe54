-- ===== src/History/Instructions.antt =====
-- apps/demo/src/lib/dapp/vault-leaf-history.ts on the instruction of the SDK's builder
-- `buildSettleIx`.
use darknyx_capstone_project.Solana.{text_bytes, TransactionInstruction, PublicKey, Runtime}
use darknyx_capstone_project.Settlement.{
  tagged_pda, serialize_payload, MatchResultPayload, build_settle_ix,
}
use darknyx_capstone_project.Base.{
  refl, length-append, leb, ◌∙◌, drop-append, drop, sym, take-append, take, inr, ap, inl,
  Bool-cases, false, arith, Option, ◌≢◌, true, ◌≡◌, length, List, [], ◌∷◌, ◌++◌,
}
use darknyx_capstone_project.History.Leaves.{push_settle_leaves-serialize_payload, settle_leaves}
use darknyx_capstone_project.Errors.{ok_injective, bind-ok, ok}
use darknyx_capstone_project.History.{every_match, process_ix_data}
use darknyx_capstone_project.Wire.{anchor_discriminator}
use darknyx_capstone_project.Field.{Poseidon}
use darknyx_capstone_project.Bytes.{Bytes}

pub every_match_refl : (xs : Bytes) → every_match xs xs ≡ true
every_match_refl [] = refl
every_match_refl (x ∷ xs) = ground (arith, every_match_refl xs)

every_match_eq : (xs ds : Bytes) → length xs ≡ length ds → every_match xs ds ≡ true → xs ≡ ds
every_match_eq [] [] n e = refl
every_match_eq [] (d ∷ ds) n e = absurd (omega arith)
every_match_eq (x ∷ xs) [] n e = absurd (omega arith)
every_match_eq (x ∷ xs) (d ∷ ds) n e = ground (arith, every_match_eq xs ds)

every_match_other : (xs ds : Bytes) → length xs ≡ length ds → xs ≢ ds → every_match xs ds ≡ false
every_match_other xs ds n differ = elim (Bool-cases (every_match xs ds)) [
  | inl same ↦ absurd (differ (every_match_eq xs ds n same))
  | inr other ↦ other
]

-- What a settlement instruction carries.
build_settle_ix-data :
    (rt : Runtime) (program tee_authority : PublicKey) (m : MatchResultPayload)
    (ix : TransactionInstruction)
    → build_settle_ix rt program tee_authority m ≡ ok ix
    → (b : Bytes) × (serialize_payload m ≡ ok b)
      × (ix.instruction_data ≡ anchor_discriminator rt "tee_forced_settle" ++ b)
unfolding build_settle_ix
build_settle_ix-data rt program tee_authority m ix e =
    let (_, _, e1) =
      bind-ok (tagged_pda rt program (text_bytes "note_lock") m.note_a_commitment) _ ix e in
    let (_, _, e2) =
      bind-ok (tagged_pda rt program (text_bytes "note_lock") m.note_b_commitment) _ ix e1 in
    let (_, _, e3) =
      bind-ok (tagged_pda rt program (text_bytes "consumed_note") m.note_a_commitment) _ ix e2 in
    let (_, _, e4) =
      bind-ok (tagged_pda rt program (text_bytes "consumed_note") m.note_b_commitment) _ ix e3 in
    let (_, _, e5) =
      bind-ok (tagged_pda rt program (text_bytes "nullifier") m.nullifier_a) _ ix e4 in
    let (_, _, e6) =
      bind-ok (tagged_pda rt program (text_bytes "nullifier") m.nullifier_b) _ ix e5 in
    let (_, _, e7) =
      bind-ok (tagged_pda rt program (text_bytes "note_lock") m.note_e_commitment) _ ix e6 in
    let (_, _, e8) =
      bind-ok (tagged_pda rt program (text_bytes "note_lock") m.note_f_commitment) _ ix e7 in
    let (b, body, e9) = bind-ok (serialize_payload m) _ ix e8 in
    (b, body, ap (λ (i : TransactionInstruction). i.instruction_data) (sym (ok_injective e9)))

-- With discriminators of eight bytes that differ, the replay takes from a settlement instruction
-- that `buildSettleIx` made the two output notes, then the change notes and the fee note that are
-- not zero, and nothing else.
pub process_ix_data-build_settle_ix :
    (rt : Runtime) (p : Poseidon) (program tee_authority : PublicKey) (m : MatchResultPayload)
    (ix : TransactionInstruction) (leaves : List Bytes) (keys : List (Option PublicKey))
    → length (anchor_discriminator rt "deposit") ≡ 8
    → length (anchor_discriminator rt "tee_forced_settle") ≡ 8
    → anchor_discriminator rt "tee_forced_settle" ≢ anchor_discriminator rt "deposit"
    → build_settle_ix rt program tee_authority m ≡ ok ix
    → process_ix_data rt p leaves ix.instruction_data keys ≡ ok (leaves ++ settle_leaves m)
unfolding process_ix_data
process_ix_data-build_settle_ix rt p program tee_authority m ix leaves keys hd hs differ e =
    let (b, body, carried) = build_settle_ix-data rt program tee_authority m ix e in
    let disc : Bytes = anchor_discriminator rt "tee_forced_settle" in
    let deposit : Bytes = anchor_discriminator rt "deposit" in
    let first : take 8 (disc ++ b) ≡ disc = take-append 8 disc b hs in
    let rest : drop 8 (disc ++ b) ≡ b = drop-append 8 disc b hs in
    let other : every_match disc deposit ≡ false =
      every_match_other disc deposit (hs ∙ sym hd) differ in
    let long : leb 8 (length (disc ++ b)) ≡ true = ground (arith, length-append disc b) in
    rw carried (
      rw (first, rest, other, long, every_match_refl disc)
        (push_settle_leaves-serialize_payload leaves m b body))

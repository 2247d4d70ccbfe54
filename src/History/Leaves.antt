-- ===== src/History/Leaves.antt =====
-- apps/demo/src/lib/dapp/vault-leaf-history.ts: `pushSettleLeaves` on serialised payloads.
use darknyx_capstone_project.Errors.{ok_injective, ok}
use darknyx_capstone_project.Settlement.Payload.{
  payload_slice, serialize_payload_iff, IsWellFormed, payload_chunks,
}
use darknyx_capstone_project.History.{is_zero32, push_settle_leaves}
use darknyx_capstone_project.Base.{
  arith, false, ltb, inr, ap, inl, Bool-cases, length, ◌∙◌, if◌then◌else◌, sym, ◌≡◌, List, [], ◌∷◌,
  ◌++◌, append_assoc, append-nil,
}
use darknyx_capstone_project.Settlement.{serialize_payload, MatchResultPayload}
use darknyx_capstone_project.Bytes.{slice, Bytes}

-- A note that is there.
unfoldable present : Bytes → List Bytes
present note = if is_zero32 note then [] else note ∷ []

-- The leaves of a settlement: the two output notes, then those of the change notes and the fee note
-- that are not zero.
unfoldable pub settle_leaves : MatchResultPayload → List Bytes
unfolding present
settle_leaves p =
    p.note_c_commitment
    ∷ p.note_d_commitment
    ∷ (present p.note_e_commitment ++ present p.note_f_commitment ++ present p.note_fee_commitment)

push_present :
    (leaves : List Bytes) (note : Bytes)
    → (if is_zero32 note then leaves else leaves ++ note ∷ []) ≡ leaves ++ present note
unfolding present
push_present leaves note = elim (Bool-cases (is_zero32 note)) [
  | inl zeroes ↦ rw zeroes (sym (append-nil leaves))
  | inr nonzero ↦ rw nonzero
]

push_all :
    (leaves : List Bytes) (c d e f fee : Bytes)
    → let with_cd : List Bytes = leaves ++ c ∷ d ∷ [] in
      let with_e : List Bytes = if is_zero32 e then with_cd else with_cd ++ e ∷ [] in
      let with_f : List Bytes = if is_zero32 f then with_e else with_e ++ f ∷ [] in
      (if is_zero32 fee then with_f else with_f ++ fee ∷ [])
      ≡ leaves ++ (c ∷ d ∷ (present e ++ present f ++ present fee))
push_all leaves c d e f fee = rw (push_present (leaves ++ c ∷ d ∷ []) e) (
    rw (push_present ((leaves ++ c ∷ d ∷ []) ++ present e) f) (
      push_present (((leaves ++ c ∷ d ∷ []) ++ present e) ++ present f) fee
      ∙ ap (λ xs. (xs ++ present f) ++ present fee) (append_assoc leaves (c ∷ d ∷ []) (present e))
      ∙ ap (λ xs. xs ++ present fee) (append_assoc leaves (c ∷ d ∷ present e) (present f))
      ∙ append_assoc leaves (c ∷ d ∷ (present e ++ present f)) (present fee)))

-- From the bytes of a serialised payload the replay takes the settlement's leaves.
pub push_settle_leaves-serialize_payload :
    (leaves : List Bytes) (p : MatchResultPayload) (b : Bytes)
    → serialize_payload p ≡ ok b
    → push_settle_leaves leaves b ≡ ok (leaves ++ settle_leaves p)
unfolding push_settle_leaves settle_leaves payload_chunks
push_settle_leaves-serialize_payload leaves p b e =
    let h : IsWellFormed p = (serialize_payload_iff p).1 b e in
    let (b', e', size') = (serialize_payload_iff p).0 h in
    let same : b' ≡ b = ok_injective (sym e' ∙ e) in
    let size : length b ≡ 448 = sym (ap length same) ∙ size' in
    let long : ltb (length b) 448 ≡ false = ground arith in
    let at_c : slice 80 32 b ≡ p.note_c_commitment = payload_slice p b 3 e (omega arith) in
    let at_d : slice 112 32 b ≡ p.note_d_commitment = payload_slice p b 4 e (omega arith) in
    let at_e : slice 144 32 b ≡ p.note_e_commitment = payload_slice p b 5 e (omega arith) in
    let at_f : slice 176 32 b ≡ p.note_f_commitment = payload_slice p b 6 e (omega arith) in
    let at_fee : slice 352 32 b ≡ p.note_fee_commitment = payload_slice p b 17 e (omega arith) in
    rw (long, at_c, at_d, at_e, at_f, at_fee)
      (ap ok (
        push_all leaves p.note_c_commitment p.note_d_commitment p.note_e_commitment
          p.note_f_commitment p.note_fee_commitment))

-- ===== src/TradeSettle/Outputs.antt =====
-- apps/demo/src/lib/dapp/run-trade-l1-settle.ts: the output notes of a built trade.
use darknyx_capstone_project.Field.{nullifier, note_commitment, Note, Poseidon}
use darknyx_capstone_project.ChangeNote.{
  trade_role_seller, trade_role_buyer, actor_seed, derive_blinding, derive_nonce, be32_to_bigint,
}
use darknyx_capstone_project.Settlement.{MatchResultPayload}
use darknyx_capstone_project.Base.Int.{pos}
use darknyx_capstone_project.BatchResults.{MatchResultRecord}
use darknyx_capstone_project.TradeSettle.Trade.{
  TradeL1SettleContext, OutputNote, output_note, build_trade,
}
use darknyx_capstone_project.Keys.{derive_spending_key, Crypto}
use darknyx_capstone_project.Base.{subst, [], ℕ, ◌≡◌, ap, sym, ◌∙◌}
use darknyx_capstone_project.Solana.{PublicKey, Runtime}
use darknyx_capstone_project.Errors.{bind-ok_then, ok, ok_injective}

module _ (rt : Runtime) (p : Poseidon) where
  -- The note of an output.
  abbrev pub note_of_output : PublicKey → ℕ → ℕ → OutputNote → Note
  note_of_output mint amount owner out = record {
    token_mint = mint;
    amount = pos amount;
    owner_commitment = pos owner;
    nonce = pos out.nonce;
    blinding_r = pos out.blinding;
  }

  output_note-committed :
      (mint : PublicKey) (amount owner match_id role : ℕ) (out : OutputNote)
      → output_note rt p mint amount owner match_id role ≡ ok out
      → note_commitment p (note_of_output mint amount owner out) ≡ ok out.commitment
  unfolding output_note
  output_note-committed mint amount owner match_id role out e =
      bind-ok_then (be32_to_bigint (derive_nonce rt match_id role)) _ e λ nonce e1 r1.
        bind-ok_then (be32_to_bigint (derive_blinding rt match_id role)) _ r1 λ blinding e2 r2.
          bind-ok_then
            (note_commitment p (
              note_of_output mint amount owner
                (record { nonce = nonce; blinding = blinding; commitment = [] })))
            _ r2
            λ commitment e3 r3.
              let made = ok_injective r3 in
              subst
                (λ (o : OutputNote).
                  note_commitment p (note_of_output mint amount owner o) ≡ ok o.commitment)
                made e3

  -- A built trade's first output note opens its commitment, which the payload carries.
  pub build_trade-committed :
      (c : Crypto) (ctx : TradeL1SettleContext) (mr : MatchResultRecord)
      (trade : OutputNote × MatchResultPayload)
      → build_trade rt p c ctx mr ≡ ok trade
      → (owner : ℕ) × (note_commitment p (note_of_output ctx.base_mint mr.base_amt owner trade.0)
          ≡ ok trade.0.commitment)
        × (trade.1.note_c_commitment ≡ trade.0.commitment)
  unfolding build_trade
  build_trade-committed c ctx mr trade e =
      bind-ok_then (nullifier p (pos (derive_spending_key c ctx.user_master_seed)) mr.note_buyer) _
        e
        λ null_a e1 r1.
          bind-ok_then
            (nullifier p (pos (derive_spending_key c (actor_seed rt "maker" ctx.maker.public_key)))
              mr.note_seller)
            _ r1
            λ null_b e2 r2.
              bind-ok_then (be32_to_bigint mr.user_commitment_buyer) _ r2 λ uc_buyer e3 r3.
                bind-ok_then (be32_to_bigint mr.user_commitment_seller) _ r3 λ uc_seller e4 r4.
                  bind-ok_then
                    (output_note rt p ctx.base_mint mr.base_amt uc_buyer mr.match_id
                      trade_role_buyer)
                    _ r4
                    λ note_c e5 r5.
                      bind-ok_then
                        (output_note rt p ctx.quote_mint mr.quote_amt uc_seller mr.match_id
                          trade_role_seller)
                        _ r5
                        λ note_d e6 r6.
                          let made = ok_injective r6 in
                          let committed =
                            output_note-committed ctx.base_mint mr.base_amt uc_buyer mr.match_id
                              trade_role_buyer note_c e5 in
                          (
                            uc_buyer,
                            subst
                                (λ (t : OutputNote × MatchResultPayload).
                                  note_commitment p
                                    (note_of_output ctx.base_mint mr.base_amt uc_buyer t.0)
                                  ≡ ok t.0.commitment)
                                made committed,
                            ap (λ (t : OutputNote × MatchResultPayload). t.1.note_c_commitment)
                                  (sym made)
                                ∙ ap (λ (t : OutputNote × MatchResultPayload). t.0.commitment) made,
                          )

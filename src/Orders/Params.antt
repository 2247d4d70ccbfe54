-- ===== src/Orders/Params.antt =====
-- packages/sdk/src/orders/submit-order.ts: the parameters of an order and their validation.
use darknyx_capstone_project.Errors.{ok, err, Result, dark_pool_error, parameter}
use darknyx_capstone_project.Base.{
  Bool, ◌∷◌, [], List, true, false, ◌≡◌, refl, ◌⊎◌, inl, inr, ◌↔◌, ℕ, Option, none, some, not, ◌==◌,
  length,
}
use darknyx_capstone_project.Base.Int.{ℤ, pos, ltb_ℤ, leb_ℤ, ◌*ℤ◌}
use darknyx_capstone_project.Bytes.{Bytes}
use darknyx_capstone_project.Solana.{PublicKey}
use darknyx_capstone_project.MatchingEngine.{OrderType, limit_order, bad_slot}

pub data OrderSide : Type 0 where
  bid ask : OrderSide

abbrev pub side_code : OrderSide → ℕ
side_code bid = 0
side_code ask = 1

pub record OrderParams : Type 0 where
  pub trading_key : PublicKey
  pub market : PublicKey
  pub slot_idx : ℤ
  pub user_commitment : Bytes
  pub note_commitment : Bytes
  pub amount : ℤ
  pub price_limit : ℤ
  pub side : OrderSide
  pub note_amount : ℤ
  pub expiry_slot : ℤ
  pub order_id : Bytes
  pub order_type : Option OrderType
  pub min_fill_qty : Option ℤ

abbrev pub min_fill : OrderParams → ℤ
min_fill p = elim p.min_fill_qty [ none ↦ pos 0 | some q ↦ q ]

abbrev pub order_kind : OrderParams → OrderType
order_kind p = elim p.order_type [ none ↦ limit_order | some t ↦ t ]

-- The conditions of the synchronous checks, in order.
abbrev pub order_checks : OrderParams → List Bool
order_checks p =
    not (length p.note_commitment == 32)
    ∷ not (length p.user_commitment == 32)
    ∷ not (length p.order_id == 16)
    ∷ leb_ℤ p.amount (pos 0)
    ∷ leb_ℤ p.price_limit (pos 0)
    ∷ bad_slot p.slot_idx
    ∷ ltb_ℤ p.note_amount (p.amount *ℤ p.price_limit)
    ∷ ltb_ℤ (min_fill p) (pos 0)
    ∷ ltb_ℤ p.amount (min_fill p)
    ∷ []

-- Each check throws with the stage "parameter" where its condition holds.
pub throw_on : List Bool → Result (Unit {0})
throw_on [] = ok tt
throw_on (true ∷ rest) = err (dark_pool_error parameter)
throw_on (false ∷ rest) = throw_on rest

unfoldable pub validate_order : OrderParams → Result (Unit {0})
unfolding throw_on
validate_order p = throw_on (order_checks p)

abbrev pub AllFalse : List Bool → Type 0
AllFalse [] = Unit
AllFalse (b ∷ rest) = (b ≡ false) × AllFalse rest

pub throw_on_iff : (bs : List Bool) → (throw_on bs ≡ ok tt) ↔ AllFalse bs
unfolding throw_on
throw_on_iff [] = (λ h. tt, λ h. refl)
throw_on_iff (true ∷ rest) = (λ h. cc, λ h. cc)
throw_on_iff (false ∷ rest) = (λ h. (refl, (throw_on_iff rest).0 h), λ h. (throw_on_iff rest).1 h.1)

pub throw_on-cases :
    (bs : List Bool) → (throw_on bs ≡ ok tt) ⊎ (throw_on bs ≡ err (dark_pool_error parameter))
unfolding throw_on
throw_on-cases [] = inl refl
throw_on-cases (true ∷ rest) = inr refl
throw_on-cases (false ∷ rest) = throw_on-cases rest

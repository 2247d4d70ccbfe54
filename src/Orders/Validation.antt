-- ===== src/Orders/Validation.antt =====
-- packages/sdk/src/orders/submit-order.ts: valid orders, and the checks that `submitOrder` makes.
use darknyx_capstone_project.Base.{
  false, some, inl, inr, ◌⊎◌, arith, ◌==◌, not, ◌↔◌, ℕ, ◌*◌, ◌≤◌, ◌<◌, ◌≡◌, length,
}
use darknyx_capstone_project.Errors.{parameter, err, dark_pool_error, ok}
use darknyx_capstone_project.Orders.{submit_order}
use darknyx_capstone_project.Solana.{PublicKey, Runtime}
use darknyx_capstone_project.Session.{PerSessionManager}
use darknyx_capstone_project.MatchingEngine.{bad_slot}
use darknyx_capstone_project.Base.Int.{◌*ℤ◌, negsuc, ltb_ℤ, leb_ℤ, ℤ, pos, pos_part}
use darknyx_capstone_project.Orders.Params.{
  throw_on_iff, throw_on-cases, order_checks, validate_order, OrderParams, min_fill,
}

abbrev pub Positive : ℤ → Type 0
Positive (pos n) = 0 < n
Positive (negsuc n) = ⊥

abbrev pub InSlots : ℤ → Type 0
InSlots (pos n) = n < 4
InSlots (negsuc n) = ⊥

-- `0 <= q <= limit`.
abbrev pub Within : ℤ → ℤ → Type 0
Within limit (pos n) = n ≤ pos_part limit
Within limit (negsuc n) = ⊥

-- An order that the SDK may send: sizes, signs, the slot, the note's cover and the fill quantity.
pub record IsValidOrder (p : OrderParams) : Type 0 where
  pub note_size : length p.note_commitment ≡ 32
  pub user_size : length p.user_commitment ≡ 32
  pub id_size : length p.order_id ≡ 16
  pub amount_positive : Positive p.amount
  pub price_positive : Positive p.price_limit
  pub slot_in_range : InSlots p.slot_idx
  pub note_covers : pos_part p.amount * pos_part p.price_limit ≤ pos_part p.note_amount
  pub fill_in_range : Within p.amount (min_fill p)

Positive-iff : (v : ℤ) → (leb_ℤ v (pos 0) ≡ false) ↔ Positive v
Positive-iff (pos n) = (λ h. ground arith, λ h. ground arith)
Positive-iff (negsuc n) = (λ h. ground arith, λ h. absurd h)

slot_iff : (v : ℤ) → (bad_slot v ≡ false) ↔ InSlots v
slot_iff (pos n) = (λ h. ground arith, λ h. ground arith)
slot_iff (negsuc n) = (λ h. ground arith, λ h. absurd h)

covers_iff :
    (a b note : ℤ)
    → Positive a
    → Positive b
    → (ltb_ℤ note (a *ℤ b) ≡ false) ↔ (pos_part a * pos_part b ≤ pos_part note)
covers_iff (pos a) (pos b) (pos c) ha hb = (λ h. ground arith, λ h. ground arith)
covers_iff (pos a) (pos b) (negsuc c) ha hb =
    (λ h. ground arith, λ h. absurd (none_left a b ha hb h))
  where
    none_left : (x y : ℕ) → 0 < x → 0 < y → x * y ≤ 0 → ⊥
    none_left x y hx hy h = grind arith
covers_iff (pos a) (negsuc b) c ha hb = absurd hb
covers_iff (negsuc a) b c ha hb = absurd ha

fill_iff : (a q : ℤ) → Positive a → ((ltb_ℤ q (pos 0) ≡ false) × (ltb_ℤ a q ≡ false)) ↔ Within a q
fill_iff (pos a) (pos q) h = (λ k. ground arith, λ k. (ground arith, ground arith))
fill_iff (pos a) (negsuc q) h = (λ k. ground arith, λ k. absurd k)
fill_iff (negsuc a) q h = absurd h

size_iff : (n k : ℕ) → (not (n == k) ≡ false) ↔ (n ≡ k)
size_iff n k = (λ h. ground arith, λ h. ground arith)

validate_order-IsValidOrder : (p : OrderParams) → validate_order p ≡ ok tt → IsValidOrder p
unfolding validate_order
validate_order-IsValidOrder p h =
    let (b0, (b1, (b2, (b3, (b4, (b5, (b6, (b7, (b8, _))))))))) =
      (throw_on_iff (order_checks p)).0 h in
    let amount = (Positive-iff p.amount).0 b3 in
    let price = (Positive-iff p.price_limit).0 b4 in
    record {
      note_size = (size_iff (length p.note_commitment) 32).0 b0;
      user_size = (size_iff (length p.user_commitment) 32).0 b1;
      id_size = (size_iff (length p.order_id) 16).0 b2;
      amount_positive = amount;
      price_positive = price;
      slot_in_range = (slot_iff p.slot_idx).0 b5;
      note_covers = (covers_iff p.amount p.price_limit p.note_amount amount price).0 b6;
      fill_in_range = (fill_iff p.amount (min_fill p) amount).0 (b7, b8);
    }

pub IsValidOrder-validate_order : (p : OrderParams) → IsValidOrder p → validate_order p ≡ ok tt
unfolding validate_order
IsValidOrder-validate_order p v =
    let fill = (fill_iff p.amount (min_fill p) v.amount_positive).1 v.fill_in_range in
    let covers =
      covers_iff p.amount p.price_limit p.note_amount v.amount_positive v.price_positive in
    (throw_on_iff (order_checks p)).1 (
      (size_iff (length p.note_commitment) 32).1 v.note_size,
      (
        (size_iff (length p.user_commitment) 32).1 v.user_size,
        (
          (size_iff (length p.order_id) 16).1 v.id_size,
          (
            (Positive-iff p.amount).1 v.amount_positive,
            (
              (Positive-iff p.price_limit).1 v.price_positive,
              (
                (slot_iff p.slot_idx).1 v.slot_in_range,
                (covers.1 v.note_covers, (fill.0, (fill.1, tt))),
              ),
            ),
          ),
        ),
      ),
    )

module _ {S : Type 0} (rt : Runtime) (m : PerSessionManager S) where
  -- With a client that has its program id: an order is valid, or `submitOrder` throws with the stage
  -- "parameter" and leaves the session as it was.
  pub submit_order_checks :
      (program : PublicKey) (p : OrderParams) (s : S)
      → IsValidOrder p
        ⊎ (submit_order rt m (some program) p s ≡ (err (dark_pool_error parameter), s))
  unfolding submit_order
  submit_order_checks program p s = elim (checked p) [
    | inl fine ↦ inl (validate_order-IsValidOrder p fine)
    | inr bad ↦ inr (rw bad)
  ]
    where
      checked :
          (q : OrderParams)
          → (validate_order q ≡ ok tt) ⊎ (validate_order q ≡ err (dark_pool_error parameter))
      checked q = throw_on-cases (order_checks q)

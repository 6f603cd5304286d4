-- ===== src/Manager/Check.antt =====
-- CheckOrder and OrderTaken: which orders can be taken.
pub mod Units
use democrit_marketplace.Prelude.{
  ℕ, ◌≡◌, refl, ◌↔◌, ◌≢◌, Bool, true, false, is_some, get_or, not, [], &&-true, ◌||◌, Bytes,
  bytes_eq, bytes_eq_iff, Bool-cases, inl, inr, arith, not-false, ◌∙◌, sym,
}
use democrit_marketplace.Prelude.Int.{ℤ, ◌≤ℤ◌, ltb_ℤ, to_int64}
use democrit_marketplace.Outcome.{ok}
use democrit_marketplace.Exec.Rules.{
  Returns, Returns-elim, Returns-if, Returns-check, Returns-gets, Returns-pure,
}
use democrit_marketplace.MyOrders.Refresh.{Returns-reads, Returns-write}
use democrit_marketplace.Proto.{Order}
use democrit_marketplace.Services.{Services}
use democrit_marketplace.MyOrders.{Global, Hooks}
use democrit_marketplace.Manager.{check_order, has_all_fields, new_trade, add_trade}
use democrit_marketplace.Manager.Negotiation.{order_taken}

pub ltb_ℤ-≤ : (a b : ℤ) → (ltb_ℤ a b ≡ false) ↔ (b ≤ℤ a)
ltb_ℤ-≤ a b = ground arith

true-ne-false : true ≢ false
true-ne-false e = ground arith

-- The order has the fields that a trade needs, and `units` is between its bounds, of which a missing
-- minimum is zero.
pub record Takeable (o : Order) (units : ℤ) : Type 0 where
  pub at_most : units ≤ℤ to_int64 o.max_units
  pub at_least : to_int64 (get_or o.min_units 0) ≤ℤ units
  pub account : is_some o.account ≡ true
  pub id : is_some o.id ≡ true
  pub asset : is_some o.asset ≡ true
  pub type : is_some o.type ≡ true
  pub price : is_some o.price_sat ≡ true

or-false : (a b : Bool) → (a || b) ≡ false → (a ≡ false) × (b ≡ false)
or-false false b h = (refl, h)
or-false true b h = ground arith

pub check_order-Takeable : (o : Order) (units : ℤ) → check_order o units ≡ true → Takeable o units
unfolding check_order has_all_fields
check_order-Takeable o units h =
    elim (Bool-cases
      (ltb_ℤ (to_int64 o.max_units) units || ltb_ℤ units (to_int64 (get_or o.min_units 0)))) [
        | inl out ↦ absurd (true-ne-false (sym h ∙ rw out refl))
        | inr within ↦
            let bounds = or-false _ _ within in
            let all = rw within at h in
            let price = &&-true _ _ all in
            let type = &&-true _ _ price.0 in
            let asset = &&-true _ _ type.0 in
            let id = &&-true _ _ asset.0 in
            record {
              at_most = (ltb_ℤ-≤ (to_int64 o.max_units) units).0 bounds.0;
              at_least = (ltb_ℤ-≤ units (to_int64 (get_or o.min_units 0))).0 bounds.1;
              account = id.0;
              id = id.1;
              asset = asset.1;
              type = type.1;
              price = price.1;
            }
      ]

-- What OrderTaken has done: it has started a trade of a counterparty with an order of ours.
pub record Started {W : Type 0} (o : Order) (units : ℤ) (counterparty : Bytes)
    (before after : Global W) : Type 0 where
  pub takeable : Takeable o units
  pub ours : get_or o.account [] ≡ before.state.account
  pub other : counterparty ≢ before.state.account
  pub now : ℕ
  pub added : after.state ≡ add_trade (new_trade o units counterparty now) before.state

abbrev pub OrderTakenResult : {W : Type 0} → Order → ℤ → Bytes → Global W → Bool → Global W → Type 0
OrderTakenResult o units counterparty g true g' = Started o units counterparty g g'
OrderTakenResult o units counterparty g false g' = g' ≡ g

module _ {W : Type 0} (sv : Services W) (hooks : Hooks W) where
  returns :
      (o : Order) (units : ℤ) (counterparty : Bytes) (g : Global W)
      → Returns
          (OrderTakenResult o units counterparty g)
          (order_taken sv hooks o units counterparty)
          g
  unfolding order_taken
  returns o units counterparty g =
      Returns-if (not (check_order o units)) _ _ _ (λ _. Returns-pure _ _ refl)
        (λ good. Returns-gets _ _ _ (
          Returns-reads _ _ (
            Returns-check _ _ _ λ ours.
              Returns-if (bytes_eq counterparty g.state.account) _ _ _ (λ _. Returns-pure _ _ refl)
                (λ other. Returns-write _ _ _ (
                  Returns-pure _ _ (record {
                    takeable = check_order-Takeable o units (not-false _ good);
                    ours = (bytes_eq_iff _ _).0 ours;
                    other = λ same. true-ne-false (sym ((bytes_eq_iff _ _).1 same) ∙ other);
                    now = sv.config.current_time g.world;
                    added = refl;
                  }))))))

  -- Where OrderTaken returns true, the order is one of ours that can be taken for so many units by
  -- somebody else, and exactly one new trade is added to the state; where it returns false, nothing
  -- has changed.
  pub order_taken-Result :
      (o : Order) (units : ℤ) (counterparty : Bytes) (g : Global W) {g' : Global W} {b : Bool}
      → order_taken sv hooks o units counterparty g ≡ (ok b, g')
      → OrderTakenResult o units counterparty g b g'
  order_taken-Result o units counterparty g h = Returns-elim (returns o units counterparty g) h

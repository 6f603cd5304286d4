-- ===== src/Daemon/Book.antt =====
-- daemon.cpp and orderbook.cpp: what gets into the order book of all accounts.
use democrit_marketplace.Prelude.{
  ℕ, ◌≡◌, Bool, true, is_some, get_or, not, [], ◌∷◌, Bytes, ◌==◌, ◌&&◌, All, &&-true,
}
use democrit_marketplace.Exec.{modify}
use democrit_marketplace.Exec.Rules.{Ends, Ends-check}
use democrit_marketplace.Proto.{Order, OrderMap, OrdersOfAccount}
use democrit_marketplace.OrderBook.Kept.{put_account-All, erase_account-All}
use democrit_marketplace.OrderBook.{
  AccountOrders, Accounts, OrderBook, has_order_fields, all_have_fields, store_orders,
  update_orders,
}
use democrit_marketplace.Daemon.Validation.{has_bad_minimum}

-- What ValidateOrder asks of an order alone.
unfoldable pub is_sound : Order → Bool
is_sound o = not (o.max_units == 0) && (not (has_bad_minimum o) && is_some o.price_sat)

abbrev pub IsSound : Bytes × AccountOrders → Type 0
IsSound x =
    All (λ (y : ℕ × Order). (is_sound y.1 ≡ true) × (has_order_fields y.1 ≡ true)) x.1.orders

abbrev pub IsSoundBook : Accounts → Type 0
IsSoundBook = All IsSound

abbrev pub AllSound : OrderMap → Type 0
AllSound = All (λ (y : ℕ × Order). is_sound y.1 ≡ true)

-- The orders are sound, and UpdateOrders has checked that they are complete.
complete-IsSound :
    (os : OrderMap)
    → AllSound os
    → all_have_fields os ≡ true
    → All (λ (y : ℕ × Order). (is_sound y.1 ≡ true) × (has_order_fields y.1 ≡ true)) os
unfolding all_have_fields
complete-IsSound [] h k = tt
complete-IsSound ((id, o) ∷ os) (s, h) k =
    let both = &&-true (has_order_fields o) (all_have_fields os) k in
    ((s, both.0), complete-IsSound os h both.1)

store_orders-IsSoundBook :
    (now : ℕ) (account : Bytes) (os : OrderMap) (b : OrderBook)
    → AllSound os
    → all_have_fields os ≡ true
    → IsSoundBook b.orders
    → IsSoundBook (store_orders now account os b).orders
unfolding store_orders
store_orders-IsSoundBook now account [] b s f h = erase_account-All IsSound account b.orders h
store_orders-IsSoundBook now account (o ∷ os) b s f h =
    put_account-All IsSound account (record { orders = o ∷ os; last_update = now }) b.orders
      (complete-IsSound (o ∷ os) s f) h

pub update_orders-IsSoundBook :
    (now : ℕ) (upd : OrdersOfAccount) (b : OrderBook)
    → AllSound upd.orders
    → IsSoundBook b.orders
    → Ends (λ (c : OrderBook). IsSoundBook c.orders) (update_orders now upd) b
unfolding update_orders modify
update_orders-IsSoundBook now upd b s h = Ends-check (is_some upd.account) _ b h (λ _.
    Ends-check (all_have_fields upd.orders) _ b h (λ f. record {
      holds = store_orders-IsSoundBook now (get_or upd.account []) upd.orders b s f h;
    }))

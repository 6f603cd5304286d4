-- ===== src/Daemon/Untyped.antt =====
-- ValidateOrder of daemon.cpp and UpdateOrders of orderbook.cpp together: a message with an order that has
-- no type.
use democrit_marketplace.Prelude.{
  ℕ, ◌≡◌, refl, ap, ◌∙◌, inl, inr, true, false, Option, none, some, is_some, [], ◌∷◌, Bytes, Bool,
  Bool-cases, ◌&&◌, not, arith, ◌==◌, if◌then◌else◌,
}
use democrit_marketplace.Outcome.{ok, abort}
use democrit_marketplace.Exec.{Exec, gets, modify, check, pure, zoom, ◌>>=◌}
use democrit_marketplace.Proto.{Order, OrderType, ask, OrdersOfAccount}
use democrit_marketplace.Services.{AssetSpec}
use democrit_marketplace.Daemon
use democrit_marketplace.Daemon.{
  Setup, update_book, valid_orders, handle_orders, if_account, handle_message, authenticated,
}
use democrit_marketplace.Daemon.Validation.{
  has_bad_minimum, validate_order, validate_asset, validate_side,
}
use democrit_marketplace.OrderBook.{OrderBook, has_order_fields, all_have_fields, update_orders}

-- The order, announced as an ask or without a type.
abbrev pub with_type : Option OrderType → Order → Order
with_type t o = record o { type = t }

module _ {W : Type 0} (spec : AssetSpec W) where
  -- ValidateOrder takes an order without a type for an ask.
  validate_order-with_type :
      (account : Bytes) (o : Order)
      → validate_order spec account (with_type none o)
        ≡ validate_order spec account (with_type (some ask) o)
  unfolding validate_order validate_asset validate_side has_bad_minimum
  validate_order-with_type account o = refl

  false-ok : (w v : W) → (pure false w) ≡ (ok true, v) → ⊥
  unfolding pure
  false-ok w v e = cc

  third_guard :
      (a b c : Bool) (m : Exec W Bool) (w v : W)
      → (if a then pure false else if b then pure false else if not c then pure false else m) w
        ≡ (ok true, v)
      → c ≡ true
  third_guard true b c m w v e = absurd (false-ok w v e)
  third_guard false true c m w v e = absurd (false-ok w v e)
  third_guard false false false m w v e = absurd (false-ok w v e)
  third_guard false false true m w v e = refl

  -- An order without a price is refused.
  validate_order-price :
      (account : Bytes) (o : Order) (w v : W)
      → validate_order spec account o w ≡ (ok true, v)
      → is_some o.price_sat ≡ true
  unfolding validate_order
  validate_order-price account o w v valid =
      third_guard (o.max_units == 0) (has_bad_minimum o) (is_some o.price_sat)
        (validate_asset spec account o) w v valid

module _ {J W : Type 0} (setup : Setup J W) where
  update_orders-abort :
      (now : ℕ) (upd : OrdersOfAccount) (b : OrderBook)
      → all_have_fields upd.orders ≡ false
      → (update_orders now upd b).0 ≡ abort
  unfolding update_orders check ◌>>=◌
  update_orders-abort now upd b h = elim (Bool-cases (is_some upd.account)) [
    | inl e ↦ rw (update_orders, e, h) refl
    | inr e ↦ rw (update_orders, e) refl
  ]

  handle_orders-abort :
      (x : Bytes) (id : ℕ) (o : Order) (own : Option Bytes) (w : W) (e : Daemon.Daemon J W)
      → has_order_fields o ≡ false
      → validate_order setup.services.spec x o e.global.world ≡ (ok true, w)
      → (handle_orders setup x (some (record { account = own; orders = (id, o) ∷ [] })) e).0 ≡ abort
  unfolding handle_orders zoom valid_orders update_book gets pure ◌>>=◌ all_have_fields
  handle_orders-abort x id o own w e h valid =
      let kept : valid_orders setup x [] ((id, o) ∷ []) e.global.world ≡ (ok ((id, o) ∷ []), w) =
        rw (valid_orders, valid) refl in
      rw (handle_orders, kept)
        (update_orders-abort (setup.book_time w)
          (record { account = some x; orders = (id, o) ∷ [] }) e.all_orders
          (rw (all_have_fields, h) refl))

  update_orders-ok :
      (now : ℕ) (account : Bytes) (id : ℕ) (o : Order) (b : OrderBook)
      → has_order_fields o ≡ true
      → (update_orders now (record { account = some account; orders = (id, o) ∷ [] }) b).0 ≡ ok tt
  unfolding update_orders check modify ◌>>=◌ all_have_fields
  update_orders-ok now account id o b h = rw h refl

  handle_orders-ok :
      (x : Bytes) (id : ℕ) (o : Order) (own : Option Bytes) (w : W) (e : Daemon.Daemon J W)
      → has_order_fields o ≡ true
      → validate_order setup.services.spec x o e.global.world ≡ (ok true, w)
      → (handle_orders setup x (some (record { account = own; orders = (id, o) ∷ [] })) e).0 ≡ ok tt
  unfolding handle_orders zoom valid_orders update_book gets pure ◌>>=◌
  handle_orders-ok x id o own w e h valid =
      let kept : valid_orders setup x [] ((id, o) ∷ []) e.global.world ≡ (ok ((id, o) ∷ []), w) =
        rw (valid_orders, valid) refl in
      rw (handle_orders, kept) (update_orders-ok (setup.book_time w) x id o e.all_orders h)

  -- One order that has an asset, in a message on the room from a JID that is authenticated: where
  -- ValidateOrder would accept the order as an ask, the message with the ask is handled, and the same
  -- message with the order's type left out aborts the process of whoever receives it.
  pub handle_message-abort :
      (jid : J) (d e : Daemon.Daemon J W) (x : Bytes) (id : ℕ) (o : Order) (own : Option Bytes)
      (w : W)
      → authenticated setup jid d ≡ (ok (some x), e)
      → is_some o.asset ≡ true
      → validate_order setup.services.spec x (with_type (some ask) o) e.global.world ≡ (ok true, w)
      → ((handle_message setup jid
            (some (record { account = own; orders = (id, with_type (some ask) o) ∷ [] }))
            d).0
          ≡ ok tt)
        × ((handle_message setup jid
              (some (record { account = own; orders = (id, with_type none o) ∷ [] }))
              d).0
            ≡ abort)
  unfolding handle_message if_account ◌>>=◌ has_order_fields
  handle_message-abort jid d e x id o own w known asset valid =
      let price =
        validate_order-price setup.services.spec x (with_type (some ask) o) e.global.world w
          valid in
      let untyped =
        ap (λ m. m e.global.world) (validate_order-with_type setup.services.spec x o) ∙ valid in
      (
        rw (handle_message, known)
            (handle_orders-ok x id (with_type (some ask) o) own w e (rw (asset, price) refl) valid),
        rw (handle_message, known)
            (handle_orders-abort x id (with_type none o) own w e (no_type (is_some o.asset))
              untyped),
      )
    where
      no_type : (b : Bool) → (b && false && is_some o.price_sat) ≡ false
      no_type b = ground arith

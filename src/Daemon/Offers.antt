-- ===== src/Daemon/Offers.antt =====
-- daemon.cpp: what is offered in the order book, whatever has happened to the daemon.
pub mod Handlers
pub mod Reached
use democrit_marketplace.Prelude.{
  ℕ, ◌≡◌, refl, ap, subst, inl, inr, Bool, true, false, Option, none, some, is_some, get_or, not,
  List, [], ◌∷◌, ◌++◌, Bytes, ◌==◌, ◌&&◌, All, All-append, Bool-cases, if◌then◌else◌,
}
use democrit_marketplace.Outcome.{Outcome, ok, raise, abort}
use democrit_marketplace.Exec.{Exec, pure, lift, gets, modify, check, zoom, ◌>>=◌, ◌>>◌}
use democrit_marketplace.Exec.Rules.{
  WhenOk, Returns, Returns-elim, Returns-bind, Returns-pure, Ends, Ends-bind, Ends-check, Ends-pure,
  Ends-if,
}
use democrit_marketplace.Proto.{Order, OrderMap, OrdersOfAccount, ProcessingMessage}
use democrit_marketplace.MyOrders
use democrit_marketplace.Authenticator.{KnownJids}
use democrit_marketplace.Services.{AssetSpec}
use democrit_marketplace.OrderBook.{OrderBook, update_orders, run_timeout}
use democrit_marketplace.Muc.{
  Room, Presence, handle_presence, handle_present, handle_left, handle_muc_message, from_sender,
}
use democrit_marketplace.Daemon
use democrit_marketplace.Daemon.{
  Setup, on_world, on_global, on_auth, on_book, update_book, valid_orders, handle_orders,
  if_account, handle_message, handle_private, handle_disconnect, cancel_order, refresh_orders,
  update_trades, timeout_orders, send_processing_message, handle_processing, send_reply,
  take_order_and_send, authenticated,
}
use democrit_marketplace.Daemon.Validation.{has_bad_minimum, validate_order, validate_asset}
use democrit_marketplace.Daemon.Book.{
  is_sound, AllSound, IsSound, IsSoundBook, update_orders-IsSoundBook,
}
use democrit_marketplace.Daemon.Events.{
  Event, presence, room_message, direct_message, room_error, client_gone, connecting, order_added,
  order_cancelled, order_taken, refresh_due, update_due, timeout_due, outside_change, run_event,
  run_events, set_room, ignore,
}

always :
    {S A : Type 0} {Q : A → S → Type 0} (m : Exec S A) (s : S)
    → ((a : A) (t : S) → Q a t)
    → Returns Q m s
always {S} {A} {Q} m s f = record { holds = go (m s) }
  where
    go : (r : Outcome A × S) → WhenOk Q r
    go (ok a, t) = f a t
    go (raise, t) = tt
    go (abort, t) = tt

module _ {W : Type 0} (spec : AssetSpec W) (account : Bytes) where
  validate_order-is_sound :
      (o : Order) (w : W)
      → Returns
          (λ (valid : Bool). λ (v : W). valid ≡ true → is_sound o ≡ true)
          (validate_order spec account o)
          w
  unfolding validate_order is_sound pure
  validate_order-is_sound o w = elim (Bool-cases (o.max_units == 0)) [
    | inl e ↦ record { holds = rw (validate_order, e) (λ h. cc) }
    | inr e ↦ elim (Bool-cases (has_bad_minimum o)) [
      | inl f ↦ record { holds = rw (validate_order, e, f) (λ h. cc) }
      | inr f ↦ elim (Bool-cases (is_some o.price_sat)) [
        | inl g ↦
            always (validate_order spec account o) w
              (λ (v : Bool). λ (t : W). λ (h : v ≡ true). (rw (is_sound, e, f, g) refl))
        | inr g ↦ record { holds = rw (validate_order, e, f, g) (λ h. cc) }
      ]
    ]
  ]

module _ {J W : Type 0} where
  abbrev pub IsSoundDaemon : Daemon.Daemon J W → Type 0
  IsSoundDaemon d = IsSoundBook d.all_orders.orders

  -- What works elsewhere leaves the book.
  pub on_world-Ends :
      {A : Type 0} (m : Exec W A) (d : Daemon.Daemon J W)
      → IsSoundDaemon d
      → Ends IsSoundDaemon (on_world m) d
  unfolding zoom
  on_world-Ends m d h = record { holds = h }

  pub on_global-Ends :
      {A : Type 0} (m : Exec (MyOrders.Global W) A) (d : Daemon.Daemon J W)
      → IsSoundDaemon d
      → Ends IsSoundDaemon (on_global m) d
  unfolding zoom
  on_global-Ends m d h = record { holds = h }

  pub on_auth-Ends :
      {A : Type 0} (m : Exec (KnownJids J) A) (d : Daemon.Daemon J W)
      → IsSoundDaemon d
      → Ends IsSoundDaemon (on_auth m) d
  unfolding zoom
  on_auth-Ends m d h = record { holds = h }

  pub on_book-Ends :
      {A : Type 0} (m : Exec OrderBook A) (d : Daemon.Daemon J W)
      → Ends (λ (b : OrderBook). IsSoundBook b.orders) m d.all_orders
      → Ends IsSoundDaemon (on_book m) d
  unfolding zoom
  on_book-Ends m d h = record { holds = h.holds }

  -- What the orders are that `on_world` returns.
  on_world-Returns :
      {A : Type 0} {P : A → Type 0} (m : Exec W A) (d : Daemon.Daemon J W) (a : A)
      (e : Daemon.Daemon J W)
      → Returns (λ (x : A). λ (w : W). P x) m d.global.world
      → on_world m d ≡ (ok a, e)
      → P a
  unfolding zoom
  on_world-Returns {A} {P} m d a e h eq =
      subst (λ (r : Outcome A). WhenOk (λ (x : A). λ (u : Unit). P x) (r, tt))
        (ap (λ (r : Outcome A × Daemon.Daemon J W). r.0) eq) (forget (m d.global.world) h.holds)
    where
      forget :
          (r : Outcome A × W)
          → WhenOk (λ (x : A). λ (w : W). P x) r
          → WhenOk (λ (x : A). λ (u : Unit). P x) (r.0, tt)
      forget (ok x, w) p = p
      forget (raise, w) p = tt
      forget (abort, w) p = tt

module _ {J W : Type 0} (setup : Setup J W) where
  valid_orders-AllSound :
      (account : Bytes) (kept : OrderMap) (os : OrderMap) (w : W)
      → AllSound kept
      → Returns
          (λ (orders : OrderMap). λ (v : W). AllSound orders)
          (valid_orders setup account kept os)
          w
  unfolding valid_orders
  valid_orders-AllSound account kept [] w h = Returns-pure kept w h
  valid_orders-AllSound account kept ((id, o) ∷ rest) w h =
      Returns-bind (validate_order setup.services.spec account o) _ w (λ valid. λ v. λ e.
        valid_orders-AllSound account (if valid then kept ++ (id, o) ∷ [] else kept) rest v
          (keeps valid (Returns-elim (validate_order-is_sound setup.services.spec account o w) e)))
    where
      keeps :
          (valid : Bool)
          → (valid ≡ true → is_sound o ≡ true)
          → AllSound (if valid then kept ++ (id, o) ∷ [] else kept)
      keeps true f = All-append _ kept ((id, o) ∷ []) h (f refl, tt)
      keeps false f = h

  update_book-Ends :
      (orders : OrdersOfAccount) (d : Daemon.Daemon J W)
      → AllSound orders.orders
      → IsSoundDaemon d
      → Ends IsSoundDaemon (update_book setup orders) d
  unfolding update_book ◌>>=◌ gets
  update_book-Ends orders d s h = record {
    holds =
        (on_book-Ends (update_orders (setup.book_time d.global.world) orders) d (
          update_orders-IsSoundBook (setup.book_time d.global.world) orders d.all_orders s
            h)).holds;
  }

  handle_orders-Ends :
      (account : Bytes) (ext : Option OrdersOfAccount) (d : Daemon.Daemon J W)
      → IsSoundDaemon d
      → Ends IsSoundDaemon (handle_orders setup account ext) d
  unfolding handle_orders
  handle_orders-Ends account none d h = Ends-pure tt d h
  handle_orders-Ends account (some ext) d h =
      Ends-bind (on_world (valid_orders setup account [] ext.orders)) _ d
        (on_world-Ends (valid_orders setup account [] ext.orders) d h)
        (λ orders. λ e. λ eq. λ k.
          update_book-Ends (record { account = some account; orders = orders }) e
            (on_world-Returns {P = AllSound} (valid_orders setup account [] ext.orders) d orders e
              (valid_orders-AllSound account [] ext.orders d.global.world tt) eq)
            k)

  pub if_account-Ends :
      (account : Option Bytes) (f : Bytes → Exec (Daemon.Daemon J W) Unit) (d : Daemon.Daemon J W)
      → IsSoundDaemon d
      → ((a : Bytes) → Ends IsSoundDaemon (f a) d)
      → Ends IsSoundDaemon (if_account setup account f) d
  unfolding if_account
  if_account-Ends none f d h k = Ends-pure tt d h
  if_account-Ends (some a) f d h k = k a

  pub handle_message-Ends :
      (sender : J) (ext : Option OrdersOfAccount) (d : Daemon.Daemon J W)
      → IsSoundDaemon d
      → Ends IsSoundDaemon (handle_message setup sender ext) d
  unfolding handle_message
  handle_message-Ends sender ext d h =
      Ends-bind (authenticated setup sender) _ d (on_auth-Ends _ d h) (λ account.
        λ e. λ eq. λ k. if_account-Ends account _ e k (λ a. handle_orders-Ends a ext e k))

  pub handle_disconnect-Ends :
      (gone : J) (d : Daemon.Daemon J W)
      → IsSoundDaemon d
      → Ends IsSoundDaemon (handle_disconnect setup gone) d
  unfolding handle_disconnect
  handle_disconnect-Ends gone d h =
      Ends-bind (authenticated setup gone) _ d (on_auth-Ends _ d h) (λ account. λ e. λ eq. λ k.
        if_account-Ends account _ e k
          (λ a. update_book-Ends (record { account = some a; orders = [] }) e tt k))

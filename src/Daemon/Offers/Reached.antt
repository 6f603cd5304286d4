-- ===== src/Daemon/Offers/Reached.antt =====
-- daemon.cpp: the order book after any events, and the views of it.
use democrit_marketplace.Prelude.{ℕ, ◌≡◌, refl, true, List, [], ◌∷◌, Bytes, All}
use democrit_marketplace.Outcome.{ok}
use democrit_marketplace.Exec.{modify}
use democrit_marketplace.Exec.Rules.{Ends, Ends-bind, Ends-pure, Ends-if}
use democrit_marketplace.Proto.{Order, OrderMap, OrderbookByAsset}
use democrit_marketplace.OrderBook.{
  OrderBook, Accounts, all_have_fields, has_order_fields, run_timeout,
}
use democrit_marketplace.OrderBook.ByAsset.Offered.{IsComplete, Offered, get_by_asset-Offered}
use democrit_marketplace.OrderBook.ByAsset.Sides.{entry}
use democrit_marketplace.Muc.{handle_muc_message}
use democrit_marketplace.Daemon
use democrit_marketplace.Daemon.{
  Setup, on_world, on_global, if_account, handle_message, handle_private, handle_disconnect,
  cancel_order, refresh_orders, update_trades, timeout_orders, send_processing_message,
  handle_processing, send_reply, take_order_and_send, authenticated, get_orders_by_asset,
}
use democrit_marketplace.Daemon.Book.{is_sound, IsSound, IsSoundBook}
use democrit_marketplace.OrderBook.Kept.{timeout_loop-All}
use democrit_marketplace.Daemon.Offers.{IsSoundDaemon, on_book-Ends}
use democrit_marketplace.Daemon.Events.{
  Event, presence, room_message, direct_message, room_error, client_gone, connecting, order_added,
  order_cancelled, order_taken, refresh_due, update_due, timeout_due, outside_change, run_event,
  run_events,
}
use democrit_marketplace.Daemon.Offers.Handlers.{
  gets-Ends, with_hooks-Ends, handle_private-Ends, take_order-Ends, ignore-Ends, modify-Ends,
  handle_presence-Ends, from_sender-Ends,
}

module _ {J W : Type 0} (setup : Setup J W) where
  run_event-Ends :
      (e : Event J W) (d : Daemon.Daemon J W)
      → IsSoundDaemon d
      → Ends IsSoundDaemon (run_event setup e) d
  unfolding run_event handle_muc_message cancel_order refresh_orders update_trades timeout_orders
      Daemon.add_order Daemon.take_order run_timeout modify
  run_event-Ends (presence p) d h = handle_presence-Ends setup p d h
  run_event-Ends (room_message private nick ext) d h =
      Ends-if private _ _ d (λ e. Ends-pure tt d h)
        (λ e. gets-Ends setup _ _ d (from_sender-Ends setup ext _ d h))
  run_event-Ends (direct_message sender ext) d h = handle_private-Ends setup sender ext d h
  run_event-Ends room_error d h = modify-Ends setup _ d h
  run_event-Ends client_gone d h = modify-Ends setup _ d h
  run_event-Ends connecting d h = modify-Ends setup _ d h
  run_event-Ends (order_added o) d h = ignore-Ends setup _ d (with_hooks-Ends setup _ d h)
  run_event-Ends (order_cancelled id) d h = with_hooks-Ends setup _ d h
  run_event-Ends (order_taken o units) d h = ignore-Ends setup _ d (
      Ends-bind _ _ d (with_hooks-Ends setup _ d h)
        (λ msg. λ e. λ eq. λ k. take_order-Ends setup msg e k))
  run_event-Ends refresh_due d h = with_hooks-Ends setup _ d h
  run_event-Ends update_due d h = with_hooks-Ends setup _ d h
  run_event-Ends timeout_due d h =
      gets-Ends setup _ _ d (on_book-Ends _ d (timed_out (setup.book_time d.global.world)))
    where
      timed_out :
          (now : ℕ)
          → Ends
              (λ (b : OrderBook). IsSoundBook b.orders)
              (modify (run_timeout setup.order_timeout now))
              d.all_orders
      timed_out now = record {
        holds =
            timeout_loop-All IsSound setup.order_timeout now d.all_orders.updates
              d.all_orders.orders h;
      }
  run_event-Ends (outside_change f) d h = modify-Ends setup _ d h

  -- Whatever has happened to a daemon that started with an empty order book: every order in the book
  -- has a positive maximum, no minimum that is zero or above the maximum, and an asset, a type and a
  -- price.
  pub run_events-IsSoundBook :
      (events : List (Event J W)) (d : Daemon.Daemon J W)
      → d.all_orders.orders ≡ []
      → IsSoundBook (run_events setup events d).all_orders.orders
  unfolding run_events
  run_events-IsSoundBook events d empty = kept events d (rw empty tt)
    where
      kept :
          (events : List (Event J W)) (d : Daemon.Daemon J W)
          → IsSoundDaemon d
          → IsSoundDaemon (run_events setup events d)
      kept [] d h = h
      kept (e ∷ rest) d h = kept rest (run_event setup e d).1 (run_event-Ends e d h).holds

  IsSound-IsComplete :
      (os : OrderMap)
      → All (λ (y : ℕ × Order). (is_sound y.1 ≡ true) × (has_order_fields y.1 ≡ true)) os
      → all_have_fields os ≡ true
  unfolding all_have_fields
  IsSound-IsComplete [] h = refl
  IsSound-IsComplete ((id, o) ∷ os) ((s, f), h) = rw (all_have_fields, f) (IsSound-IsComplete os h)

  IsSoundBook-IsComplete : (as_ : Accounts) → IsSoundBook as_ → IsComplete as_
  IsSoundBook-IsComplete [] h = tt
  IsSoundBook-IsComplete ((k, a) ∷ rest) (s, h) =
      (IsSound-IsComplete a.orders s, IsSoundBook-IsComplete rest h)

  -- Whatever has happened to a daemon that started with an empty order book: GetOrdersByAsset
  -- returns, no CHECK in it fails, and for each asset its asks and bids are those in the book of all
  -- accounts, sorted by the price.
  pub get_orders_by_asset-run_events :
      (events : List (Event J W)) (d : Daemon.Daemon J W)
      → d.all_orders.orders ≡ []
      → (book : OrderbookByAsset) × (get_orders_by_asset setup (run_events setup events d)
          ≡ ok book)
        × ((asset : Bytes)
            → Offered (run_events setup events d).all_orders.orders asset (entry asset book))
  unfolding get_orders_by_asset
  get_orders_by_asset-run_events events d empty =
      get_by_asset-Offered (run_events setup events d).all_orders.orders (
        IsSoundBook-IsComplete (run_events setup events d).all_orders.orders
          (run_events-IsSoundBook events d empty))

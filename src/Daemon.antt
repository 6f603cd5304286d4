-- ===== src/Daemon.antt =====
-- daemon.cpp: the parts of the program together, and what is done with messages from XMPP and calls
-- of the user.
pub mod Validation
pub mod Events
pub mod Book
pub mod Offers
pub mod Peers
pub mod Untyped
pub mod Answers
pub mod Rpc
use democrit_marketplace.Prelude.{
  ℕ, Bool, true, false, Option, none, some, get_or, not, List, [], ◌∷◌, ◌++◌, Bytes, bytes_eq,
  if◌then◌else◌,
}
use democrit_marketplace.Prelude.Int.{ℤ}
use democrit_marketplace.Outcome.{Outcome}
use democrit_marketplace.Exec.{Exec, pure, lift, gets, modify, check, zoom, ◌>>=◌, ◌>>◌}
use democrit_marketplace.Proto.{
  Order, OrderMap, OrdersOfAccount, OrderbookForAsset, OrderbookByAsset, ProcessingMessage,
  TradeInfo, TradeState, GlobalState,
}
use democrit_marketplace.Services.{Services}
use democrit_marketplace.Authenticator.{JidAccess, KnownJids, authenticate, lookup_jid}
use democrit_marketplace.MyOrders.{
  Global, Hooks, add, remove_by_id, run_refresh, internal_get_orders,
}
use democrit_marketplace.Manager
use democrit_marketplace.Manager.Negotiation
use democrit_marketplace.Manager.Negotiation.{process_message}
use democrit_marketplace.Manager.{get_trades, update_and_archive_trades}
use democrit_marketplace.OrderBook.{OrderBook, update_orders, run_timeout}
use democrit_marketplace.OrderBook.ByAsset.{get_for_asset, get_by_asset}
use democrit_marketplace.Muc.{
  Client, Room, Receiver, groupchat, normal, Stanza, account_orders, processing, is_connected,
  send_message,
}
use democrit_marketplace.Daemon.Validation.{validate_order}

-- The members of Daemon::Impl. `book_time` is the steady clock of the order book.
pub record Daemon (J W : Type 0) : Type 0 where
  pub auth : KnownJids J
  pub all_orders : OrderBook
  pub global : Global W
  pub room : Room J

-- What is fixed when the daemon is constructed, and the steady clock.
pub record Setup (J W : Type 0) : Type 0 where
  pub services : Services W
  pub client : Client J W
  pub jids : JidAccess J
  pub xid_servers : List Bytes
  pub account : Bytes
  pub order_timeout : ℕ
  pub book_time : W → ℕ
  pub moved_order : Order → Order
  pub moved_trade : TradeState → TradeState

module _ {J W : Type 0} where
  abbrev pub on_auth : {A : Type 0} → Exec (KnownJids J) A → Exec (Daemon J W) A
  on_auth = zoom (λ d. d.auth) (λ a d. record d { auth = a })

  abbrev pub on_book : {A : Type 0} → Exec OrderBook A → Exec (Daemon J W) A
  on_book = zoom (λ d. d.all_orders) (λ b d. record d { all_orders = b })

  abbrev pub on_global : {A : Type 0} → Exec (Global W) A → Exec (Daemon J W) A
  on_global = zoom (λ d. d.global) (λ g d. record d { global = g })

  abbrev pub on_world : {A : Type 0} → Exec W A → Exec (Daemon J W) A
  on_world =
      zoom (λ d. d.global.world) (λ w d. record d { global = record (d.global) { world = w } })

module _ {J W : Type 0} (setup : Setup J W) where
  -- MyOrdersImpl::UpdateOrders. The account of the global state is the one it was constructed with.
  unfoldable pub publish_orders : Room J → OrdersOfAccount → Exec W Unit
  publish_orders room own = do
    check (bytes_eq (get_or own.account []) setup.account)
    connected ← gets (is_connected setup.client room)
    if connected then send_message setup.client room groupchat (account_orders own) else pure tt

  -- MyOrdersImpl, as a subclass of MyOrders; it asks the room whether the client is connected.
  abbrev pub my_orders : Room J → Hooks W
  my_orders room = record {
    validate_order = validate_order setup.services.spec;
    update_orders = publish_orders room;
    moved_order = setup.moved_order;
    moved_trade = setup.moved_trade;
  }

  -- A method of the global state, with the room as it is during the call.
  unfoldable pub with_hooks : {A : Type 0} → (Hooks W → Exec (Global W) A) → Exec (Daemon J W) A
  with_hooks f = do room ← gets (λ d. d.room); on_global (f (my_orders room))

  abbrev pub authenticated : J → Exec (Daemon J W) (Option Bytes)
  authenticated sender = on_auth (authenticate setup.jids setup.xid_servers sender)

  -- The order book is updated at the time of its clock.
  unfoldable pub update_book : OrdersOfAccount → Exec (Daemon J W) Unit
  update_book orders = do
    now ← gets (λ d. setup.book_time d.global.world)
    on_book (update_orders now orders)

  unfoldable pub send_to : Room J → ProcessingMessage → Option J → Exec W Unit
  send_to room msg none = pure tt
  send_to room msg (some receiver) =
      send_message setup.client room (normal receiver)
        (processing (record msg { counterparty = none }))

  unfoldable pub send_processing_message : ProcessingMessage → Exec (Daemon J W) Unit
  send_processing_message msg = do
    receiver ← gets (λ d. lookup_jid (get_or msg.counterparty []) d.auth)
    room ← gets (λ d. d.room)
    on_world (send_to room msg receiver)

  -- The orders that are valid, in their order, after those kept.
  unfoldable pub valid_orders : Bytes → OrderMap → OrderMap → Exec W OrderMap
  valid_orders account kept [] = pure kept
  valid_orders account kept ((id, o) ∷ rest) = do
    valid ← validate_order setup.services.spec account o
    valid_orders account (if valid then kept ++ (id, o) ∷ [] else kept) rest

  -- Where the extension is there and valid.
  unfoldable pub handle_orders : Bytes → Option OrdersOfAccount → Exec (Daemon J W) Unit
  handle_orders account none = pure tt
  handle_orders account (some ext) = do
    orders ← on_world (valid_orders account [] ext.orders)
    update_book (record { account = some account; orders = orders })

  unfoldable pub if_account :
      Option Bytes → (Bytes → Exec (Daemon J W) Unit) → Exec (Daemon J W) Unit
  if_account none f = pure tt
  if_account (some account) f = f account

  unfoldable pub handle_message : J → Option OrdersOfAccount → Exec (Daemon J W) Unit
  handle_message sender ext = do
    account ← authenticated sender
    if_account account (λ a. handle_orders a ext)

  unfoldable pub send_reply : Option ProcessingMessage → Exec (Daemon J W) Unit
  send_reply none = pure tt
  send_reply (some reply) = send_processing_message reply

  unfoldable pub handle_processing : Option ProcessingMessage → Bytes → Exec (Daemon J W) Unit
  handle_processing none account = pure tt
  handle_processing (some msg) account = do
    reply ←
        with_hooks (λ hooks.
          process_message setup.services hooks (record msg { counterparty = some account }))
    send_reply reply

  unfoldable pub handle_private : J → Option ProcessingMessage → Exec (Daemon J W) Unit
  handle_private sender ext = do
    account ← authenticated sender
    if_account account (handle_processing ext)

  unfoldable pub handle_disconnect : J → Exec (Daemon J W) Unit
  handle_disconnect gone = do
    account ← authenticated gone
    if_account account (λ a. update_book (record { account = some a; orders = [] }))

  -- The calls of the user, and of the interval jobs.
  unfoldable pub add_order : Order → Exec (Daemon J W) Bool
  add_order o = with_hooks (λ hooks. add hooks o)

  unfoldable pub cancel_order : ℕ → Exec (Daemon J W) Unit
  cancel_order id = with_hooks (λ hooks. remove_by_id hooks id)

  unfoldable pub take_order_and_send : Option ProcessingMessage → Exec (Daemon J W) Bool
  take_order_and_send none = pure false
  take_order_and_send (some msg) = do send_processing_message msg; pure true

  unfoldable pub take_order : Order → ℤ → Exec (Daemon J W) Bool
  take_order o units = do
    msg ← with_hooks (λ hooks. Negotiation.take_order setup.services hooks o units)
    take_order_and_send msg

  unfoldable pub refresh_orders : Exec (Daemon J W) Unit
  refresh_orders = with_hooks run_refresh

  unfoldable pub update_trades : Exec (Daemon J W) Unit
  update_trades = with_hooks (update_and_archive_trades setup.services)

  unfoldable pub timeout_orders : Exec (Daemon J W) Unit
  timeout_orders = do
    now ← gets (λ d. setup.book_time d.global.world)
    on_book (modify (run_timeout setup.order_timeout now))

  unfoldable pub get_orders_by_asset : Daemon J W → Outcome OrderbookByAsset
  get_orders_by_asset d = get_by_asset d.all_orders.orders

  unfoldable pub get_orders_for_asset : Bytes → Daemon J W → Outcome OrderbookForAsset
  get_orders_for_asset asset d = get_for_asset asset d.all_orders.orders

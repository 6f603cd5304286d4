-- ===== src/Daemon/Offers/Handlers.antt =====
-- daemon.cpp and mucclient.cpp: each handler keeps what holds of the order book.
use democrit_marketplace.Prelude.{true, false, Option, none, some, Bytes, if◌then◌else◌}
use democrit_marketplace.Exec.{Exec, gets, modify, ◌>>=◌}
use democrit_marketplace.Exec.Rules.{Ends, Ends-bind, Ends-check, Ends-pure, Ends-if}
use democrit_marketplace.Proto.{OrdersOfAccount, ProcessingMessage}
use democrit_marketplace.MyOrders.{Global, Hooks}
use democrit_marketplace.Muc.{
  handle_leaving, handle_self, is_leaving, Presence, handle_presence, handle_present, handle_left,
  from_sender,
}
use democrit_marketplace.Daemon
use democrit_marketplace.Daemon.{
  Setup, on_world, on_global, with_hooks, if_account, handle_message, handle_private,
  handle_disconnect, cancel_order, refresh_orders, update_trades, timeout_orders,
  send_processing_message, handle_processing, send_reply, take_order_and_send, authenticated,
  get_orders_by_asset,
}
use democrit_marketplace.Daemon.Offers.{
  IsSoundDaemon, on_world-Ends, on_global-Ends, on_auth-Ends, handle_message-Ends,
  handle_disconnect-Ends, if_account-Ends,
}
use democrit_marketplace.Daemon.Events.{set_room, ignore}

module _ {J W : Type 0} (setup : Setup J W) where
  pub gets-Ends :
      {A B : Type 0} (g : Daemon.Daemon J W → A) (f : A → Exec (Daemon.Daemon J W) B)
      (d : Daemon.Daemon J W)
      → Ends IsSoundDaemon (f (g d)) d
      → Ends IsSoundDaemon (gets g >>= f) d
  unfolding gets ◌>>=◌
  gets-Ends g f d h = record { holds = h.holds }

  pub with_hooks-Ends :
      {A : Type 0} (f : Hooks W → Exec (Global W) A) (d : Daemon.Daemon J W)
      → IsSoundDaemon d
      → Ends IsSoundDaemon (with_hooks setup f) d
  unfolding with_hooks
  with_hooks-Ends f d h = gets-Ends _ _ d (on_global-Ends _ d h)

  pub send_processing_message-Ends :
      (msg : ProcessingMessage) (d : Daemon.Daemon J W)
      → IsSoundDaemon d
      → Ends IsSoundDaemon (send_processing_message setup msg) d
  unfolding send_processing_message
  send_processing_message-Ends msg d h = gets-Ends _ _ d (gets-Ends _ _ d (on_world-Ends _ d h))

  pub send_reply-Ends :
      (reply : Option ProcessingMessage) (d : Daemon.Daemon J W)
      → IsSoundDaemon d
      → Ends IsSoundDaemon (send_reply setup reply) d
  unfolding send_reply
  send_reply-Ends none d h = Ends-pure tt d h
  send_reply-Ends (some msg) d h = send_processing_message-Ends msg d h

  pub handle_processing-Ends :
      (ext : Option ProcessingMessage) (account : Bytes) (d : Daemon.Daemon J W)
      → IsSoundDaemon d
      → Ends IsSoundDaemon (handle_processing setup ext account) d
  unfolding handle_processing
  handle_processing-Ends none account d h = Ends-pure tt d h
  handle_processing-Ends (some msg) account d h =
      Ends-bind _ _ d (with_hooks-Ends _ d h) (λ reply. λ e. λ eq. λ k. send_reply-Ends reply e k)

  pub handle_private-Ends :
      (sender : J) (ext : Option ProcessingMessage) (d : Daemon.Daemon J W)
      → IsSoundDaemon d
      → Ends IsSoundDaemon (handle_private setup sender ext) d
  unfolding handle_private
  handle_private-Ends sender ext d h =
      Ends-bind (authenticated setup sender) _ d (on_auth-Ends _ d h) (λ account.
        λ e. λ eq. λ k. if_account-Ends setup account _ e k (λ a. handle_processing-Ends ext a e k))

  pub take_order-Ends :
      (msg : Option ProcessingMessage) (d : Daemon.Daemon J W)
      → IsSoundDaemon d
      → Ends IsSoundDaemon (take_order_and_send setup msg) d
  unfolding take_order_and_send
  take_order-Ends none d h = Ends-pure false d h
  take_order-Ends (some msg) d h =
      Ends-bind _ _ d (send_processing_message-Ends msg d h)
        (λ u. λ e. λ eq. λ k. Ends-pure true e k)

  pub ignore-Ends :
      {A : Type 0} (m : Exec (Daemon.Daemon J W) A) (d : Daemon.Daemon J W)
      → Ends IsSoundDaemon m d
      → Ends IsSoundDaemon (ignore m) d
  ignore-Ends m d h = Ends-bind m _ d h (λ a. λ e. λ eq. λ k. Ends-pure tt e k)

  -- What changes only the room, or the world.
  pub modify-Ends :
      (f : Daemon.Daemon J W → Daemon.Daemon J W) (d : Daemon.Daemon J W)
      → IsSoundDaemon (f d)
      → Ends IsSoundDaemon (modify f) d
  unfolding modify
  modify-Ends f d h = record { holds = h }

  pub handle_present-Ends :
      (p : Presence J) (jid : Option J) (d : Daemon.Daemon J W)
      → IsSoundDaemon d
      → Ends IsSoundDaemon (handle_present set_room (handle_disconnect setup) p jid) d
  unfolding handle_present
  handle_present-Ends p none d h = Ends-pure tt d h
  handle_present-Ends p (some jid) d h =
      Ends-bind _ _ d (modify-Ends _ d h)
        (λ u. λ e. λ eq. λ k. Ends-check _ _ e k (λ c. modify-Ends _ e k))

  pub handle_left-Ends :
      (jid : Option J) (d : Daemon.Daemon J W)
      → IsSoundDaemon d
      → Ends IsSoundDaemon (handle_left set_room (handle_disconnect setup) jid) d
  unfolding handle_left
  handle_left-Ends none d h = Ends-pure tt d h
  handle_left-Ends (some jid) d h = handle_disconnect-Ends setup jid d h

  pub handle_leaving-Ends :
      (p : Presence J) (d : Daemon.Daemon J W)
      → IsSoundDaemon d
      → Ends IsSoundDaemon (handle_leaving set_room (handle_disconnect setup) p) d
  unfolding handle_leaving
  handle_leaving-Ends p d h =
      Ends-bind _ _ d (modify-Ends _ d h) (λ u. λ e. λ eq. λ k. handle_left-Ends p.jid e k)

  pub handle_presence-Ends :
      (p : Presence J) (d : Daemon.Daemon J W)
      → IsSoundDaemon d
      → Ends IsSoundDaemon (handle_presence set_room (handle_disconnect setup) p) d
  unfolding handle_presence
  handle_presence-Ends p d h =
      let left = handle_leaving set_room (handle_disconnect setup) p in
      let here = handle_present set_room (handle_disconnect setup) p p.jid in
      Ends-if p.is_self (modify (set_room (handle_self (is_leaving p))))
        (if is_leaving p then left else here) d (λ e. modify-Ends _ d h)
        (λ e.
          Ends-if (is_leaving p) left here d (λ f. handle_leaving-Ends p d h)
            (λ f. handle_present-Ends p p.jid d h))

  pub from_sender-Ends :
      (ext : Option OrdersOfAccount) (jid : Option J) (d : Daemon.Daemon J W)
      → IsSoundDaemon d
      → Ends IsSoundDaemon (from_sender (λ e. e.room) (handle_message setup) ext jid) d
  unfolding from_sender
  from_sender-Ends ext none d h = Ends-pure tt d h
  from_sender-Ends ext (some jid) d h = handle_message-Ends setup jid ext d h

-- ===== src/Daemon/Events.antt =====
-- Everything that happens to a running daemon, one at a time: the handlers of the XMPP client, the
-- calls of the user and the interval jobs of daemon.cpp, myorders.cpp, orderbook.cpp and trades.cpp.
use democrit_marketplace.Prelude.{ℕ, Bool, Option, List, [], ◌∷◌, Bytes}
use democrit_marketplace.Prelude.Int.{ℤ}
use democrit_marketplace.Exec.{Exec, pure, modify, ◌>>=◌}
use democrit_marketplace.Proto.{Order, OrdersOfAccount, ProcessingMessage}
use democrit_marketplace.Muc.{
  Room, Presence, handle_presence, handle_muc_message, handle_muc_error, disconnected,
  start_joining,
}
use democrit_marketplace.Daemon
use democrit_marketplace.Daemon.{
  Setup, handle_message, handle_private, handle_disconnect, cancel_order, refresh_orders,
  update_trades, timeout_orders,
}

pub data Event (J W : Type 0) : Type 0 where
  presence : Presence J → Event J W
  room_message : Bool → Bytes → Option OrdersOfAccount → Event J W
  direct_message : J → Option ProcessingMessage → Event J W
  room_error : Event J W
  client_gone : Event J W
  connecting : Event J W
  order_added : Order → Event J W
  order_cancelled : ℕ → Event J W
  order_taken : Order → ℤ → Event J W
  refresh_due : Event J W
  update_due : Event J W
  timeout_due : Event J W
  -- what the world does between two of them
  outside_change : (W → W) → Event J W

module _ {J W : Type 0} where
  abbrev pub set_room : (Room J → Room J) → Daemon.Daemon J W → Daemon.Daemon J W
  set_room f d = record d { room = f d.room }

  abbrev pub ignore : {A : Type 0} → Exec (Daemon.Daemon J W) A → Exec (Daemon.Daemon J W) Unit
  ignore m = do result ← m; pure tt

module _ {J W : Type 0} (setup : Setup J W) where
  unfoldable pub run_event : Event J W → Exec (Daemon.Daemon J W) Unit
  run_event (presence p) = handle_presence set_room (handle_disconnect setup) p
  run_event (room_message is_private nick ext) =
      handle_muc_message (λ d. d.room) (handle_message setup) is_private nick ext
  run_event (direct_message sender ext) = handle_private setup sender ext
  run_event room_error = modify (set_room handle_muc_error)
  run_event client_gone = modify (set_room disconnected)
  run_event connecting = modify (set_room start_joining)
  run_event (order_added o) = ignore (Daemon.add_order setup o)
  run_event (order_cancelled id) = cancel_order setup id
  run_event (order_taken o units) = ignore (Daemon.take_order setup o units)
  run_event refresh_due = refresh_orders setup
  run_event update_due = update_trades setup
  run_event timeout_due = timeout_orders setup
  run_event (outside_change f) =
      modify (λ d. record d { global = record (d.global) { world = f d.global.world } })

  -- Each event on what the one before has left, however that one ended.
  unfoldable pub run_events : List (Event J W) → Daemon.Daemon J W → Daemon.Daemon J W
  run_events [] d = d
  run_events (e ∷ rest) d = run_events rest (run_event e d).1

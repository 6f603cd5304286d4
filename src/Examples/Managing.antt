-- ===== src/Examples/Managing.antt =====
-- The user's orders and the list of trades, at the example.
use democrit_marketplace.Prelude.{
  ℕ, ◌≡◌, refl, ◌↔◌, Bool, true, some, none, codes, List, [], ◌∷◌, bytes_eq, arith, ◌≢◌, sym, ◌∙◌,
}
use democrit_marketplace.Prelude.Int.{pos, to_int64}
use democrit_marketplace.Outcome.{ok, abort}
use democrit_marketplace.Exec.{◌>>=◌}
use democrit_marketplace.Json.{find_member}
use democrit_marketplace.Proto.{empty_order, Order, TradeState, pending, success}
use democrit_marketplace.Trade.{
  Ctx, state_of, is_finalised, get_public_info, get_order_type, get_role,
}
use democrit_marketplace.Trade.Update.{
  update, update_by_state, update_pending, update_initiated, check_trade, is_confirmed,
}
use democrit_marketplace.Trade.Update.Settled.{Reason, update-Justified}
use democrit_marketplace.MyOrders.{
  Global, Hooks, refresh_loop, run_refresh, remove_by_id, lock_found, try_lock, unlock, add,
}
use democrit_marketplace.MyOrders.Orders.{find_order, put_order, change_order, erase_order}
use democrit_marketplace.MyOrders.Locks.{
  Locked, try_lock-Locked, try_lock-Exclusive, unlock-remove_by_id,
}
use democrit_marketplace.MyOrders.Ids.{IsFresh}
use democrit_marketplace.MyOrders.Ids.Calls.{
  Call, refreshing, adding, removing, locking, unlocking, run_calls, run_calls-IsFresh,
}
use democrit_marketplace.Manager.{
  empty_trade, check_order, has_all_fields, new_trade, on_trade, archive_loop, handle_finalised,
  handle_by_state, handle_success, update_and_archive_trades,
}
use democrit_marketplace.Proto.{ProcessingMessage, empty_message}
use democrit_marketplace.Json.Text.{decimal}
use democrit_marketplace.Trade.Messages.{handle_message}
use democrit_marketplace.Trade.Reply.{has_reply, reply_to, exchange_psbts}
use democrit_marketplace.Trade.Wallet.{create_seller_data}
use democrit_marketplace.Trade.{matches, get_identifier}
use democrit_marketplace.Manager.Replies.{Processed, process_message-Processed}
use democrit_marketplace.Manager.Negotiation.{
  order_taken, process_message, reply_loop, start_as_maker,
}
use democrit_marketplace.Manager.Check.{OrderTakenResult, order_taken-Result}
use democrit_marketplace.Manager.Check.Units.{CanTake, check_order_exact}
use democrit_marketplace.Manager.Archive.Whole.{ArchivedFrom, update_and_archive_trades-Sorted}
use democrit_marketplace.Examples.World.{services, trade, order}

-- Every order is valid, and the new set goes nowhere.
abbrev pub hooks : Hooks ℕ
hooks = record {
  validate_order = λ _ _ w. (ok true, w);
  update_orders = λ _ w. (ok tt, w);
  moved_order = λ _. empty_order;
  moved_trade = λ _. empty_trade;
}

abbrev pub own : Order
own = record order { account = none; id = none }

abbrev pub signed : TradeState
signed = record (trade (codes "b") none) { state = some pending; our_psbt = some (codes "f") }

abbrev pub global : Global ℕ
global = record {
  state = record {
    account = codes "s";
    own_orders = (7, own) ∷ [];
    next_free_id = 8;
    trades = signed ∷ trade (codes "c") none ∷ [];
    trade_archive = [];
  };
  world = 5;
}

abbrev with_lock : Bool → Global ℕ
with_lock b = record global {
  state = record global.state { own_orders = (7, record own { locked = b }) ∷ [] };
}

locks : try_lock hooks 7 global ≡ (ok (some order), with_lock true)
unfolding ◌>>=◌ try_lock lock_found find_order run_refresh refresh_loop change_order
locks = refl

try_lock-Locked_example : Locked 7 order global.state (with_lock true).state
try_lock-Locked_example = try_lock-Locked hooks 7 global locks

try_lock-Exclusive_example :
    try_lock hooks 7 (record (with_lock true) { world = 9 })
    ≡ (ok none, record (with_lock true) { world = 9 })
try_lock-Exclusive_example = try_lock-Exclusive hooks 7 global 9 locks

abbrev without : Global ℕ
without = record global { state = record global.state { own_orders = [] } }

removes : remove_by_id hooks 7 (with_lock true) ≡ (ok tt, without)
unfolding ◌>>=◌ remove_by_id run_refresh refresh_loop erase_order
removes = refl

unlock-remove_by_id_example :
    unlock hooks 7 (record without { world = 9 }) ≡ (abort, record without { world = 9 })
unlock-remove_by_id_example = unlock-remove_by_id hooks 7 (with_lock true) 9 removes

abbrev calls : List (ℕ × Call)
calls = (6, adding own) ∷ (7, locking 8) ∷ (8, removing 7) ∷ (9, unlocking 8) ∷ (9, refreshing) ∷ []

run_calls-IsFresh_example : IsFresh (run_calls hooks calls global).state
run_calls-IsFresh_example =
    run_calls-IsFresh hooks calls global (ground arith) ((ground arith, tt), (tt, tt))

check_order_exact_example : (check_order order (to_int64 0) ≡ true) ↔ CanTake order 0
check_order_exact_example = check_order_exact order 0 (ground arith) (ground arith) (ground arith)

abbrev started : Global ℕ
started = record global {
  state = record global.state {
    trades = signed ∷ trade (codes "c") none ∷ new_trade order (pos 2) (codes "d") 5 ∷ [];
  };
}

takes : order_taken services hooks order (pos 2) (codes "d") global ≡ (ok true, started)
unfolding ◌>>=◌ order_taken check_order has_all_fields bytes_eq
takes = refl

order_taken-Result_example : OrderTakenResult order (pos 2) (codes "d") global true started
order_taken-Result_example =
    order_taken-Result services hooks order (pos 2) (codes "d") global takes

abbrev watched : Ctx ℕ
watched = record { pb = signed; world = 5 }

settles : state_of (update services watched).1.pb ≡ success
unfolding ◌>>=◌ update update_by_state update_pending check_trade is_confirmed find_member bytes_eq
settles = refl

moves : state_of (update services watched).1.pb ≢ state_of watched.pb
moves e = final (sym settles ∙ e)
  where
    final : success ≢ pending
    final same = cc

update-Justified_example : Reason services (state_of (update services watched).1.pb) watched.pb
update-Justified_example = update-Justified services watched moves

-- The order is gone, and what is left of it has the next ID.
abbrev finished : Global ℕ
finished = record {
  state = record {
    account = codes "s";
    own_orders = (8, record own { max_units = 3 }) ∷ [];
    next_free_id = 9;
    trades = trade (codes "c") none ∷ [];
    trade_archive = get_public_info (codes "s") (record signed { state = some success }) ∷ [];
  };
  world = 5;
}

archives : update_and_archive_trades services hooks global ≡ (ok tt, finished)
unfolding ◌>>=◌ update_and_archive_trades archive_loop on_trade update update_by_state
    update_pending update_initiated check_trade is_confirmed find_member bytes_eq is_finalised
    get_public_info get_role get_order_type handle_finalised handle_by_state handle_success
    remove_by_id run_refresh refresh_loop erase_order add put_order
archives = refl

update_and_archive_trades-Sorted_example : ArchivedFrom services hooks global finished
update_and_archive_trades-Sorted_example =
    update_and_archive_trades-Sorted services hooks global archives

-- A message for the second trade, in which we wait for the buyer's transaction.
abbrev for_second : ProcessingMessage
for_second = record empty_message {
  counterparty = some (codes "c");
  identifier = get_identifier (trade (codes "c") none);
}

answered : process_message services hooks for_second global ≡ (ok none, global)
unfolding ◌>>=◌ process_message start_as_maker reply_loop matches get_identifier decimal bytes_eq
    on_trade has_reply reply_to create_seller_data exchange_psbts handle_message get_order_type
    get_role
answered = refl

process_message-Processed_example : Processed for_second global.state none global.state
process_message-Processed_example =
    process_message-Processed services hooks for_second global refl answered

-- ===== src/Examples/Selling.antt =====
-- An order of the user that is added and sold, at the example.
use democrit_marketplace.Prelude.{ℕ, ◌≡◌, refl, true, some, none, codes, [], ◌∷◌, bytes_eq, arith}
use democrit_marketplace.Prelude.Int.{pos, to_int64}
use democrit_marketplace.Manager.Check.Units.{IsSale, order_taken-IsSale}
use democrit_marketplace.Outcome.{ok}
use democrit_marketplace.Exec.{◌>>=◌}
use democrit_marketplace.Proto.{ProcessingMessage, empty_message, TradeState}
use democrit_marketplace.Json.Text.{decimal}
use democrit_marketplace.Json.{find_member}
use democrit_marketplace.Checker.{out_point_from_json}
use democrit_marketplace.Checker.Ancestry.{get_name_out_point}
use democrit_marketplace.Trade.{
  init_processing_message, matches, get_identifier, get_role, get_order_type,
}
use democrit_marketplace.Trade.Messages.{handle_message}
use democrit_marketplace.Trade.Reply.{has_reply, reply_to, exchange_psbts}
use democrit_marketplace.Trade.Wallet.{create_seller_data, lock_unspent}
use democrit_marketplace.MyOrders.{Global, refresh_loop, run_refresh, lock_found, try_lock, add}
use democrit_marketplace.MyOrders.Orders.{find_order, put_order, change_order}
use democrit_marketplace.Manager.{check_order, has_all_fields, new_trade, on_trade}
use democrit_marketplace.Manager.Negotiation.{
  order_taken, process_message, reply_loop, start_as_maker,
}
use democrit_marketplace.Manager.Sales.Steps.{
  begins, does, adding, receiving, IsExclusive, Reached-IsExclusive,
}
use democrit_marketplace.Examples.World.{services, order}
use democrit_marketplace.Examples.Managing.{hooks, own, global}

abbrev empty : Global ℕ
empty = record global {
  state = record global.state { own_orders = []; next_free_id = 7; trades = [] };
}

abbrev pub offered : Global ℕ
offered = record global { state = record global.state { trades = [] } }

adds : add hooks own empty ≡ (ok true, offered)
unfolding ◌>>=◌ add put_order run_refresh refresh_loop
adds = refl

-- The first message of a taker.
abbrev pub taking_it : ProcessingMessage
taking_it = record empty_message {
  counterparty = some (codes "c");
  identifier = get_identifier (new_trade order (pos 2) (codes "c") 5);
  taking_order = some (record { id = 7; units = 2 });
}

abbrev sold : TradeState
sold = record (new_trade order (pos 2) (codes "c") 5) {
  seller_data = some (record {
    name_address = some (5 ∷ []);
    chi_address = some (6 ∷ []);
    name_output = some (record { hash = some (codes "n"); n = some 1 });
  });
}

-- The maker's addresses.
abbrev reply : ProcessingMessage
reply = record empty_message {
  counterparty = some (codes "c");
  identifier = get_identifier sold;
  seller_data =
      some
        (record { name_address = some (5 ∷ []); chi_address = some (6 ∷ []); name_output = none });
}

abbrev negotiating : Global ℕ
negotiating = record {
  state = record offered.state {
    own_orders = (7, record own { locked = true }) ∷ [];
    trades = sold ∷ [];
  };
  world = 7;
}

receives : process_message services hooks taking_it offered ≡ (ok (some reply), negotiating)
unfolding ◌>>=◌ process_message start_as_maker try_lock lock_found find_order change_order
    run_refresh refresh_loop order_taken check_order has_all_fields reply_loop matches
    get_identifier decimal bytes_eq on_trade has_reply reply_to create_seller_data exchange_psbts
    handle_message get_order_type get_role get_name_out_point out_point_from_json find_member
    lock_unspent init_processing_message
receives = refl

Reached-IsExclusive_example : IsExclusive negotiating.state
Reached-IsExclusive_example = Reached-IsExclusive services hooks negotiating (
    does {g = offered} 5 (receiving taking_it) (ground arith) (some reply, receives)
      (does {g = empty} 5 (adding own) (ground arith) (true, adds) (begins refl (tt, tt))))

abbrev taken : Global ℕ
taken = record offered {
  state = record offered.state { trades = new_trade order (pos 2) (codes "c") 5 ∷ [] };
}

takes : order_taken services hooks order (to_int64 2) (codes "c") offered ≡ (ok true, taken)
unfolding ◌>>=◌ order_taken check_order has_all_fields bytes_eq
takes = refl

order_taken-IsSale_example : IsSale order 2 offered.state.trades taken.state.trades
order_taken-IsSale_example =
    order_taken-IsSale services hooks order 2 (codes "c") offered (ground arith) (ground arith)
      (ground arith) takes

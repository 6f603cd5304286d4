-- ===== src/Examples/Books.antt =====
-- The order book, and orders and trades as JSON.
use democrit_marketplace.Prelude.{ℕ, ◌≡◌, some, List, [], ◌∷◌, codes, arith}
use democrit_marketplace.Outcome.{ok}
use democrit_marketplace.Json.{Json}
use democrit_marketplace.Proto.{OrderbookForAsset, TradeInfo, initiated, ask, taker}
use democrit_marketplace.OrderBook.{OrderBook, run_timeout}
use democrit_marketplace.OrderBook.Timeouts.{fresh_only}
use democrit_marketplace.OrderBook.Timeouts.Runs.{
  Step, update, tick, run_steps, end_time, run_timeout-exact, run_steps-Offered,
}
use democrit_marketplace.OrderBook.ByAsset.{get_for_asset}
use democrit_marketplace.OrderBook.ByAsset.Offered.{Offered}
use democrit_marketplace.Conversion.{order_to_json, order_from_json, trade_to_json}
use democrit_marketplace.Conversion.Orders.{normalised, order_from_json-order_to_json}
use democrit_marketplace.Conversion.Views.{trade_of_json, trade_of_json-trade_to_json}
use democrit_marketplace.Examples.World.{order}

-- `s` and then `t` offer the same order, and the timeout runs when that of `s` is too old.
abbrev steps : List (ℕ × Step)
steps =
    (1, update (record { account = some (codes "s"); orders = (7, order) ∷ [] }))
    ∷ (3, update (record { account = some (codes "t"); orders = (8, order) ∷ [] }))
    ∷ (4, tick)
    ∷ []

abbrev no_orders : OrderBook
no_orders = record { orders = []; updates = [] }

run_timeout-exact_example :
    (run_timeout 5 (end_time 5 2 steps) (run_steps 5 2 steps no_orders)).orders
    ≡ fresh_only 5 (end_time 5 2 steps) (run_steps 5 2 steps no_orders).orders
run_timeout-exact_example = run_timeout-exact 5 2 steps

run_steps-Offered_example :
    (e : OrderbookForAsset) × (get_for_asset (codes "a") (run_steps 5 2 steps no_orders).orders
      ≡ ok e)
    × Offered (run_steps 5 2 steps no_orders).orders (codes "a") e
run_steps-Offered_example = run_steps-Offered 5 2 steps (codes "a")

order_from_json-order_to_json_example :
    (j : Json) × (order_to_json order ≡ ok j) × (order_from_json j ≡ some (normalised order))
order_from_json-order_to_json_example =
    order_from_json-order_to_json order
      (record {
        id = ground arith;
        min_units = ground arith;
        max_units = ground arith;
        price_sat = ground arith;
      })
      (ground arith)

abbrev shown : TradeInfo
shown = record {
  state = initiated;
  start_time = 5;
  counterparty = codes "s";
  type = ask;
  asset = codes "a";
  units = 2;
  price_sat = 10;
  role = taker;
}

trade_of_json-trade_to_json_example : trade_of_json (trade_to_json shown) ≡ shown
trade_of_json-trade_to_json_example =
    trade_of_json-trade_to_json shown (ground arith) (ground arith) (ground arith)

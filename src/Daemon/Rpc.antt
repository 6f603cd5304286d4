-- ===== src/Daemon/Rpc.antt =====
-- rpcserver.cpp: the RPC methods of the daemon, over what daemon.cpp passes on. `stop` and the loop
-- that waits for it are left out.
use democrit_marketplace.Prelude.{Bool, true, Option, none, some, map, Bytes, codes}
use democrit_marketplace.Prelude.Int.{ℤ}
use democrit_marketplace.Outcome.{Outcome, ◌>>=◌}
use democrit_marketplace.Exec.{Exec, lift}
use democrit_marketplace.Json.{Json, bool, str, array, empty_object, with_member}
use democrit_marketplace.Proto.{Order}
use democrit_marketplace.MyOrders.{internal_get_orders}
use democrit_marketplace.Manager.{get_trades, to_uint64}
use democrit_marketplace.Conversion.{
  order_from_json, orders_of_account_to_json, orderbook_for_asset_to_json,
  orderbook_by_asset_to_json, trade_to_json,
}
use democrit_marketplace.Muc.{is_connected}
use democrit_marketplace.Daemon
use democrit_marketplace.Daemon.{Setup, cancel_order, get_orders_by_asset, get_orders_for_asset}

module _ {J W : Type 0} (setup : Setup J W) where
  unfoldable pub getstatus : Daemon.Daemon J W → Json
  getstatus d =
      let connected =
        with_member empty_object (codes "connected")
          (bool (is_connected setup.client d.room d.global.world)) in
      let with_game =
        with_member connected (codes "gameid") (str setup.services.spec.get_game_id) in
      with_member with_game (codes "account") (str d.global.state.account)

  unfoldable pub getordersforasset : Bytes → Daemon.Daemon J W → Outcome Json
  getordersforasset asset d = get_orders_for_asset setup asset d >>= orderbook_for_asset_to_json

  unfoldable pub getordersbyasset : Daemon.Daemon J W → Outcome Json
  getordersbyasset d = get_orders_by_asset setup d >>= orderbook_by_asset_to_json

  unfoldable pub getownorders : Daemon.Daemon J W → Outcome Json
  getownorders d = orders_of_account_to_json (internal_get_orders true d.global.state)

  unfoldable pub gettrades : Daemon.Daemon J W → Json
  gettrades d = array (map trade_to_json (get_trades d.global.state))

  unfoldable pub with_order :
      {A : Type 0}
      → Option Order
      → (Order → Exec (Daemon.Daemon J W) A)
      → Exec (Daemon.Daemon J W) A
  with_order none f = lift Outcome.raise
  with_order (some o) f = f o

  -- JSON that is no order is answered with an error.
  unfoldable pub addorder : Json → Exec (Daemon.Daemon J W) Bool
  addorder order = with_order (order_from_json order) (Daemon.add_order setup)

  -- The id is an int.
  unfoldable pub cancelorder : ℤ → Exec (Daemon.Daemon J W) Unit
  cancelorder id = cancel_order setup (to_uint64 id)

  unfoldable pub takeorder : Json → ℤ → Exec (Daemon.Daemon J W) Bool
  takeorder order units = with_order (order_from_json order) (λ o. Daemon.take_order setup o units)

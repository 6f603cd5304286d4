-- ===== src/OrderBook.antt =====
-- private/orderbook.hpp and orderbook.cpp: the orders of all other accounts, which time out unless
-- they are refreshed. `Book` has the view by asset. A time is read from the clock by the caller.
pub mod Kept
pub mod Timeouts
pub mod Sort
pub mod ByAsset
use democrit_marketplace.Prelude.{
  ℕ, ◌+◌, Bool, true, false, Option, none, some, is_some, get_or, List, [], ◌∷◌, ◌++◌, Bytes,
  bytes_eq, ltb, ◌&&◌, if◌then◌else◌,
}
use democrit_marketplace.Exec.{Exec, modify, check, ◌>>=◌, ◌>>◌}
use democrit_marketplace.Json.{bytes_lt}
use democrit_marketplace.Proto.{Order, OrderMap, OrdersOfAccount}

-- An account's orders, and when they were updated.
pub record AccountOrders : Type 0 where
  pub orders : OrderMap
  pub last_update : ℕ

-- map<string, AccountOrders>, in the order of the accounts
abbrev pub Accounts : Type 0
Accounts = List (Bytes × AccountOrders)

pub record UpdateEvent : Type 0 where
  pub account : Bytes
  pub time : ℕ

-- The queue has its front at the head.
pub record OrderBook : Type 0 where
  pub orders : Accounts
  pub updates : List UpdateEvent

unfoldable pub put_account : Bytes → AccountOrders → Accounts → Accounts
unfolding bytes_lt
put_account k v [] = (k, v) ∷ []
put_account k v ((i, w) ∷ rest) =
    let later = put_account k v rest in
    if bytes_eq i k
    then (k, v) ∷ rest
    else if bytes_lt k i
    then (k, v) ∷ (i, w) ∷ rest
    else (i, w) ∷ later

unfoldable pub erase_account : Bytes → Accounts → Accounts
erase_account k [] = []
erase_account k ((i, w) ∷ rest) =
    let later = erase_account k rest in if bytes_eq i k then later else (i, w) ∷ later

unfoldable pub has_order_fields : Order → Bool
has_order_fields o = is_some o.asset && is_some o.type && is_some o.price_sat

unfoldable pub all_have_fields : OrderMap → Bool
unfolding has_order_fields
all_have_fields [] = true
all_have_fields ((id, o) ∷ rest) = has_order_fields o && all_have_fields rest

-- The update of the two members: without any orders, the account is removed.
unfoldable pub store_orders : ℕ → Bytes → OrderMap → OrderBook → OrderBook
store_orders now account [] b = record b { orders = erase_account account b.orders }
store_orders now account (o ∷ os) b = record {
  orders = put_account account (record { orders = o ∷ os; last_update = now }) b.orders;
  updates = b.updates ++ record { account = account; time = now } ∷ [];
}

unfoldable pub update_orders : ℕ → OrdersOfAccount → Exec OrderBook Unit
update_orders now upd = do
  check (is_some upd.account)
  check (all_have_fields upd.orders)
  modify (store_orders now (get_or upd.account []) upd.orders)

module _ (timeout now : ℕ) where
  -- `time < timeoutBefore`, with nothing subtracted.
  abbrev pub is_stale : ℕ → Bool
  is_stale time = ltb (time + timeout) now

  -- The account is looked up, and erased if it is stale.
  unfoldable pub drop_stale : Bytes → Accounts → Accounts
  drop_stale account [] = []
  drop_stale account ((i, a) ∷ rest) =
      let later = drop_stale account rest in
      if bytes_eq i account && is_stale a.last_update then later else (i, a) ∷ later

  unfoldable pub timeout_loop : List UpdateEvent → Accounts → OrderBook
  timeout_loop [] as_ = record { orders = as_; updates = [] }
  timeout_loop (e ∷ q) as_ =
      let rest = timeout_loop q (drop_stale e.account as_) in
      if is_stale e.time then rest else record { orders = as_; updates = e ∷ q }

  unfoldable pub run_timeout : OrderBook → OrderBook
  run_timeout b = timeout_loop b.updates b.orders

-- ===== src/MyOrders.antt =====
-- private/myorders.hpp and myorders.cpp: the user's own orders, in the global state. What a subclass
-- decides, whether an order is valid and what is done with the new set, is an interface here.
pub mod Orders
pub mod Refresh
pub mod Ids
pub mod Locks
pub mod Held
pub mod Entries
use democrit_marketplace.Prelude.{
  ℕ, ◌+◌, ◌%◌, ◌^◌, Bool, true, false, Option, none, some, is_some, get_or, not, List, [], ◌∷◌,
  ◌++◌, Bytes, ◌||◌, if◌then◌else◌,
}
use democrit_marketplace.Exec.{Exec, pure, gets, modify, check, zoom, ◌>>=◌, ◌>>◌}
use democrit_marketplace.Proto.{
  Order, OrderMap, OrdersOfAccount, TradeState, GlobalState, empty_order,
}
use democrit_marketplace.MyOrders.Orders.{
  find_order, put_order, change_order, erase_order, visible_orders,
}

-- The state behind class State, with the world outside.
pub record Global (W : Type 0) : Type 0 where
  pub state : GlobalState
  pub world : W

-- The virtual methods ValidateOrder and UpdateOrders, and what protobuf leaves of a message that has
-- been moved away (it may be any message, and is an empty one in the usual case).
pub record Hooks (W : Type 0) : Type 0 where
  pub validate_order : Bytes → Order → Exec W Bool
  pub update_orders : OrdersOfAccount → Exec W Unit
  pub moved_order : Order → Order
  pub moved_trade : TradeState → TradeState

abbrev pub outside : {W A : Type 0} → Exec W A → Exec (Global W) A
outside = zoom (λ g. g.world) (λ w g. record g { world = w })

abbrev pub set_orders : OrderMap → GlobalState → GlobalState
set_orders orders s = record s { own_orders = orders }

abbrev pub write : {W : Type 0} → (GlobalState → GlobalState) → Exec (Global W) Unit
write f = modify (λ g. record g { state = f g.state })

abbrev pub read : {W : Type 0} → Exec (Global W) GlobalState
read = gets (λ g. g.state)

-- An order without the fields that Add clears.
abbrev pub without_owner : Order → Order
without_owner o = record o { account = none; id = none }

-- The order that TryLock gives out.
abbrev pub with_owner : Bytes → ℕ → Order → Order
with_owner account id o = record o { account = some account; id = some id }

abbrev pub set_locked : Bool → Order → Order
set_locked b o = record o { locked = b }

unfoldable pub internal_get_orders : Bool → GlobalState → OrdersOfAccount
internal_get_orders include_locked s = record {
  account = some s.account;
  orders = visible_orders include_locked s.own_orders;
}

abbrev pub add_order : Order → GlobalState → GlobalState
add_order o s = record s {
  own_orders = put_order s.next_free_id (without_owner o) s.own_orders;
  next_free_id = (s.next_free_id + 1) % 2 ^ 64;
}

module _ {W : Type 0} (hooks : Hooks W) where
  -- The loop of RunRefresh. An order that is valid moves into the new map, and leaves what a move
  -- leaves behind, which stays if a later call raises an exception.
  unfoldable pub refresh_loop : Bytes → OrderMap → OrderMap → OrderMap → Exec (Global W) Unit
  refresh_loop account visited updated [] = write (set_orders updated)
  refresh_loop account visited updated ((id, o) ∷ rest) = do
    valid ← outside (hooks.validate_order account o)
    if valid
        then (do
          write (set_orders ((visited ++ (id, hooks.moved_order o) ∷ []) ++ rest))
          refresh_loop account (visited ++ (id, hooks.moved_order o) ∷ []) (updated ++ (id, o) ∷ [])
              rest)
        else refresh_loop account (visited ++ (id, o) ∷ []) updated rest

  unfoldable pub run_refresh : Exec (Global W) Unit
  run_refresh = do
    s ← read
    refresh_loop s.account [] [] s.own_orders
    t ← read
    outside (hooks.update_orders (internal_get_orders false t))

  unfoldable pub add : Order → Exec (Global W) Bool
  add o = do
    s ← read
    valid ← outside (hooks.validate_order s.account o)
    if valid then (do write (add_order o); run_refresh; pure true) else pure false

  unfoldable pub remove_by_id : ℕ → Exec (Global W) Unit
  remove_by_id id = do write (λ s. set_orders (erase_order id s.own_orders) s); run_refresh

  -- What TryLock does with the order that it has found.
  unfoldable pub lock_found : ℕ → Option Order → Exec (Global W) (Option Order)
  lock_found id none = pure none
  lock_found id (some o) = if o.locked then pure none else (do
    s ← read
    write (set_orders (change_order id (set_locked true) s.own_orders))
    run_refresh
    pure (some (with_owner s.account id o)))

  -- `none` where the method returns false.
  unfoldable pub try_lock : ℕ → Exec (Global W) (Option Order)
  try_lock id = do s ← read; lock_found id (find_order id s.own_orders)

  unfoldable pub unlock : ℕ → Exec (Global W) Unit
  unlock id = do
    s ← read
    check (is_some (find_order id s.own_orders))
    check (get_or (find_order id s.own_orders) empty_order).locked
    write (set_orders (change_order id (set_locked false) s.own_orders))
    run_refresh

-- ===== src/Manager.antt =====
-- class TradeManager of private/trades.hpp and trades.cpp, with Trade::HandleSuccess and
-- HandleFailure: the list of trades in the global state, and what is done to the user's orders when a
-- trade starts and ends. A method of a trade works on its data in place.
pub mod Archive
pub mod Negotiation
pub mod Check
pub mod Replies
pub mod Sales
use democrit_marketplace.Prelude.{
  ℕ, ◌+◌, ◌-◌, ◌%◌, ◌^◌, Bool, true, false, Option, none, some, is_some, get_or, not, List, [], ◌∷◌,
  ◌++◌, map, Bytes, bytes_eq, ltb, leb, ◌&&◌, ◌||◌, if◌then◌else◌,
}
use democrit_marketplace.Prelude.Int.{ℤ, pos, negsuc, ltb_ℤ, to_int64}
use democrit_marketplace.Outcome.{Outcome, ok, raise, abort}
use democrit_marketplace.Exec.{Exec, pure, lift, gets, modify, check, fatal, ◌>>=◌, ◌>>◌}
use democrit_marketplace.Proto.{
  Order, OrderType, ask, bid, TradeStatus, initiated, pending, success, failed, abandoned, Role,
  maker, taker, TradeInfo, TakingOrder, OutPoint, TradeState, ProcessingMessage, GlobalState,
  empty_order,
}
use democrit_marketplace.Services.{Services}
use democrit_marketplace.Trade.{
  Ctx, state_of, get_role, get_order_type, is_finalised, get_public_info, matches,
  init_processing_message, set_taking_order,
}
use democrit_marketplace.Trade.Messages.{is_ask, handle_message}
use democrit_marketplace.Trade.Wallet.{lock_unspent, unlock_psbt_inputs}
use democrit_marketplace.Trade.Reply.{is_maker, has_reply}
use democrit_marketplace.Trade.Update.{update}
use democrit_marketplace.MyOrders.{
  Global, Hooks, outside, write, read, add, remove_by_id, try_lock, unlock,
}

-- A trade with no field set.
abbrev pub empty_trade : TradeState
empty_trade = record {
  order = empty_order;
  units = 0;
  counterparty = [];
  start_time = 0;
  state = none;
  seller_data = none;
  our_psbt = none;
  their_psbt = none;
  conflict_height = none;
}

abbrev pub set_trades : List TradeState → GlobalState → GlobalState
set_trades trades s = record s { trades = trades }

-- The uint64_t that an int64_t is stored as.
abbrev pub to_uint64 : ℤ → ℕ
to_uint64 (pos n) = n
to_uint64 (negsuc n) = 2 ^ 64 - 1 - n

abbrev pub settle :
    {W A : Type 0} → Global W → Outcome A × Ctx W → Outcome (Option A × TradeState) × Global W
settle g (ok a, c) = (ok (some a, c.pb), record g { world = c.world })
settle g (raise, c) = (ok (none, c.pb), record g { world = c.world })
settle g (abort, c) = (abort, record g { world = c.world })

-- A method of a trade, run in place. A raise is told apart, and the data are kept either way.
unfoldable pub on_trade :
    {W A : Type 0} → TradeState → Exec (Ctx W) A → Exec (Global W) (Option A × TradeState)
on_trade t m g = settle g (m (record { pb = t; world = g.world }))

unfoldable pub has_all_fields : Order → Bool
has_all_fields o =
    is_some o.account && is_some o.id && is_some o.asset && is_some o.type && is_some o.price_sat

unfoldable pub check_order : Order → ℤ → Bool
check_order o units =
    if ltb_ℤ (to_int64 o.max_units) units || ltb_ℤ units (to_int64 (get_or o.min_units 0))
    then false
    else has_all_fields o

-- What TakeOrder and OrderTaken fill in.
abbrev pub new_trade : Order → ℤ → Bytes → ℕ → TradeState
new_trade o units counterparty now = record empty_trade {
  order = o;
  start_time = now;
  units = to_uint64 units;
  counterparty = counterparty;
  state = some initiated;
}

abbrev pub add_trade : TradeState → GlobalState → GlobalState
add_trade t s = record s { trades = s.trades ++ t ∷ [] }

unfoldable pub get_trades : GlobalState → List TradeInfo
get_trades s = map (get_public_info s.account) s.trades ++ s.trade_archive

-- The order that is left of `o` after `units` have been traded.
abbrev pub reduced : Order → ℕ → Order
reduced o units = record o { id = none; max_units = (o.max_units + 2 ^ 64 - units) % 2 ^ 64 }

abbrev pub name_output_of : TradeState → Option OutPoint
name_output_of t = elim t.seller_data [ none ↦ none | some sd ↦ sd.name_output ]

module _ {W : Type 0} (sv : Services W) where
  unfoldable pub release_inputs : Bytes → TradeState → Exec W Unit
  release_inputs account t =
      if not (is_ask (get_order_type account t)) && is_some t.our_psbt
      then unlock_psbt_inputs sv.xaya (get_or t.our_psbt [])
      else pure tt

  unfoldable pub release_name : Option OutPoint → Exec W Unit
  release_name none = pure tt
  release_name (some out) = do unlocked ← lock_unspent sv.xaya false out; pure tt

module _ {W : Type 0} (sv : Services W) (hooks : Hooks W) where
  unfoldable pub handle_success : Bytes → TradeState → Exec (Global W) Unit
  handle_success account t =
      if is_maker (get_role account t)
      then (do
        remove_by_id hooks (get_or t.order.id 0)
        let rest = reduced t.order t.units
        if ltb 0 rest.max_units && leb (get_or rest.min_units 0) rest.max_units
            then (do added ← add hooks rest; pure tt)
            else pure tt)
      else pure tt

  unfoldable pub release_order : Bytes → TradeState → Exec (Global W) Unit
  release_order account t =
      if is_maker (get_role account t) then unlock hooks (get_or t.order.id 0) else pure tt

  unfoldable pub handle_failure : Bytes → TradeState → Exec (Global W) Unit
  handle_failure account t = do
    release_order account t
    outside (release_name sv (name_output_of t))
    outside (release_inputs sv account t)

  -- The loop that updates the trades. Each trade moves into one of two new lists and leaves a
  -- moved one behind, which stays if a later call raises an exception.
  unfoldable pub archive_loop :
      Bytes
      → List TradeState
      → List TradeState
      → List TradeState
      → List TradeState
      → Exec (Global W) (List TradeState)
  archive_loop account [] visited active finalised = do write (set_trades active); pure finalised
  archive_loop account (t ∷ rest) visited active finalised = do
    (done, t') ← on_trade t (update sv)
    write (set_trades ((visited ++ t' ∷ []) ++ rest))
    if not (is_some done)
        then lift raise
        else if is_finalised t'
        then (do
          write
              (λ s. record s { trade_archive = s.trade_archive ++ get_public_info account t' ∷ [] })
          write (set_trades ((visited ++ hooks.moved_trade t' ∷ []) ++ rest))
          archive_loop account rest (visited ++ hooks.moved_trade t' ∷ []) active
              (finalised ++ t' ∷ []))
        else (do
          write (set_trades ((visited ++ hooks.moved_trade t' ∷ []) ++ rest))
          archive_loop account rest (visited ++ hooks.moved_trade t' ∷ []) (active ++ t' ∷ [])
              finalised)

  unfoldable pub handle_by_state : Bytes → TradeState → TradeStatus → Exec (Global W) Unit
  handle_by_state account t abandoned = handle_failure account t
  handle_by_state account t failed = handle_failure account t
  handle_by_state account t success = handle_success account t
  handle_by_state account t _ = fatal

  unfoldable pub handle_finalised : Bytes → List TradeState → Exec (Global W) Unit
  handle_finalised account [] = pure tt
  handle_finalised account (t ∷ rest) = do
    handle_by_state account t (state_of t)
    handle_finalised account rest

  unfoldable pub update_and_archive_trades : Exec (Global W) Unit
  update_and_archive_trades = do
    s ← read
    finalised ← archive_loop s.account s.trades [] [] []
    handle_finalised s.account finalised

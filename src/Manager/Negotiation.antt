-- ===== src/Manager/Negotiation.antt =====
-- TradeManager of trades.cpp: orders that are taken, and the messages of the trades.
use democrit_marketplace.Prelude.{
  Bool, true, false, Option, none, some, is_some, get_or, not, List, [], ◌∷◌, ◌++◌, Bytes, bytes_eq,
  if◌then◌else◌,
}
use democrit_marketplace.Prelude.Int.{ℤ, to_int64}
use democrit_marketplace.Exec.{Exec, pure, gets, check, ◌>>=◌, ◌>>◌}
use democrit_marketplace.Proto.{Order, TakingOrder, TradeState, ProcessingMessage, empty_order}
use democrit_marketplace.Services.{Services}
use democrit_marketplace.Trade.{matches, init_processing_message, set_taking_order}
use democrit_marketplace.Trade.Messages.{handle_message}
use democrit_marketplace.Trade.Reply.{has_reply}
use democrit_marketplace.MyOrders.{Global, Hooks, write, read, try_lock, unlock}
use democrit_marketplace.Manager.{set_trades, on_trade, check_order, new_trade, add_trade}

module _ {W : Type 0} (sv : Services W) (hooks : Hooks W) where
  -- The message that TakeOrder sends, with the trade as it is then; `none` after an exception.
  abbrev pub first_message :
      Option (Option ProcessingMessage) → TradeState → Option ProcessingMessage
  first_message none t = none
  first_message (some r) t = some (set_taking_order t (get_or r (init_processing_message t)))

  unfoldable pub start_trade :
      TradeState → Option ProcessingMessage → Exec (Global W) (Option ProcessingMessage)
  start_trade t none = pure none
  start_trade t (some msg) = do write (add_trade t); pure (some msg)

  -- `none` where the method returns false.
  unfoldable pub take_order : Order → ℤ → Exec (Global W) (Option ProcessingMessage)
  take_order o units = if not (check_order o units) then pure none else (do
    now ← gets (λ g. sv.config.current_time g.world)
    s ← read
    let t = new_trade o units (get_or o.account []) now
    if bytes_eq t.counterparty s.account then pure none else (do
      (reply, t') ← on_trade t (has_reply sv s.account)
      start_trade t' (first_message reply t')))

  unfoldable pub order_taken : Order → ℤ → Bytes → Exec (Global W) Bool
  order_taken o units counterparty = if not (check_order o units) then pure false else (do
    now ← gets (λ g. sv.config.current_time g.world)
    s ← read
    check (bytes_eq (get_or o.account []) s.account)
    if bytes_eq counterparty s.account
        then pure false
        else (do write (add_trade (new_trade o units counterparty now)); pure true))

  -- The first trade that the message is for. An exception is caught, and means no reply.
  unfoldable pub reply_loop :
      ProcessingMessage
      → Bytes
      → List TradeState
      → List TradeState
      → Exec (Global W) (Option ProcessingMessage)
  reply_loop msg account [] visited = pure none
  reply_loop msg account (t ∷ rest) visited =
      let later = reply_loop msg account rest (visited ++ t ∷ []) in
      if matches t msg
      then (do
        (reply, t') ← on_trade (handle_message account msg t) (has_reply sv account)
        write (set_trades ((visited ++ t' ∷ []) ++ rest))
        pure (get_or reply none))
      else later

  -- The order that the message takes is locked, and the trade is started: whether to go on.
  unfoldable pub start_as_maker : ProcessingMessage → Option TakingOrder → Exec (Global W) Bool
  start_as_maker msg none = pure true
  start_as_maker msg (some taking) = do
    locked ← try_lock hooks taking.id
    if is_some locked
        then (do
          taken ←
              order_taken (get_or locked empty_order) (to_int64 taking.units)
                (get_or msg.counterparty [])
          if taken then pure true else (do unlock hooks taking.id; pure false))
        else pure false

  -- `none` where the method returns false.
  unfoldable pub process_message : ProcessingMessage → Exec (Global W) (Option ProcessingMessage)
  process_message msg = do
    check (is_some msg.counterparty)
    go_on ← start_as_maker msg msg.taking_order
    if go_on then (do s ← read; reply_loop msg s.account s.trades []) else pure none

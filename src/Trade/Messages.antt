-- ===== src/Trade/Messages.antt =====
-- Trade::HandleMessage: what a message of the counterparty may change.
pub mod Grows
use democrit_marketplace.Prelude.{
  Bool, true, false, Option, none, some, is_some, get_or, not, ◌||◌, [], Bytes, bytes_eq,
  if◌then◌else◌,
}
use democrit_marketplace.Proto.{
  OrderType, ask, bid, TradeStatus, initiated, pending, success, failed, abandoned, TradeState,
  SellerData, ProcessingMessage,
}
use democrit_marketplace.Trade.{get_order_type, state_of}

abbrev pub is_ask : OrderType → Bool
is_ask ask = true
is_ask bid = false

abbrev pub is_initiated : TradeStatus → Bool
is_initiated initiated = true
is_initiated _ = false

unfoldable pub merge_seller_data : Bytes → SellerData → TradeState → TradeState
merge_seller_data account sd pb =
    if is_ask (get_order_type account pb)
    then pb
    else if is_some pb.seller_data
    then pb
    else if not (is_some sd.name_address) || not (is_some sd.chi_address) || is_some sd.name_output
    then pb
    else if bytes_eq (get_or sd.name_address []) (get_or sd.chi_address [])
    then pb
    else record pb { seller_data = some sd }

unfoldable pub merge_psbt : Bytes → TradeState → TradeState
merge_psbt psbt pb = if is_some pb.their_psbt then pb else record pb { their_psbt = some psbt }

abbrev pub merge_some :
    {A : Type 0} → Option A → (A → TradeState → TradeState) → TradeState → TradeState
merge_some none merge pb = pb
merge_some (some a) merge pb = merge a pb

unfoldable pub handle_message : Bytes → ProcessingMessage → TradeState → TradeState
unfolding merge_seller_data merge_psbt
handle_message account msg pb =
    if is_initiated (state_of pb)
    then merge_some msg.psbt merge_psbt (merge_some msg.seller_data (merge_seller_data account) pb)
    else pb

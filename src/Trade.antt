-- ===== src/Trade.antt =====
-- class Trade of private/trades.hpp and trades.cpp: what can be read off a trade's data. The children
-- hold its methods: `Messages` and `Reply` the negotiation, `Wallet` the steps that the wallet does, and
-- `Update` the watch over the chain.
pub mod Messages
pub mod Wallet
pub mod Reply
pub mod Update
pub mod Rules
pub mod Growth
use democrit_marketplace.Prelude.{
  ℕ, ◌++◌, Bool, true, false, Option, none, some, get_or, is_some, [], ◌∷◌, Bytes, bytes_eq, ◌&&◌,
  if◌then◌else◌,
}
use democrit_marketplace.Prelude.Int.{to_int64}
use democrit_marketplace.Exec.{Exec, zoom}
use democrit_marketplace.Json.Text.{decimal}
use democrit_marketplace.Proto.{
  OrderType, ask, bid, TradeStatus, initiated, pending, success, failed, abandoned, Role, maker,
  taker, TradeInfo, TradeState, ProcessingMessage, empty_message,
}
use democrit_marketplace.Checker.{TradeChecker}

-- A trade that is worked on, with the world outside. The account of the user is an argument.
pub record Ctx (W : Type 0) : Type 0 where
  pub pb : TradeState
  pub world : W

abbrev pub on_world : {W A : Type 0} → Exec W A → Exec (Ctx W) A
on_world = zoom (λ c. c.world) (λ w c. record c { world = w })

-- The accessors of the order, an unset field being its default.
abbrev pub order_type_of : TradeState → OrderType
order_type_of pb = get_or pb.order.type ask

abbrev pub state_of : TradeState → TradeStatus
state_of pb = get_or pb.state initiated

abbrev pub flip : OrderType → OrderType
flip bid = ask
flip ask = bid

unfoldable pub get_role : Bytes → TradeState → Role
get_role account pb = if bytes_eq (get_or pb.order.account []) account then maker else taker

-- The order's type from the view of the user.
unfoldable pub get_order_type : Bytes → TradeState → OrderType
get_order_type account pb = elim (get_role account pb) [
  | maker ↦ order_type_of pb
  | taker ↦ flip (order_type_of pb)
]

-- The maker's account and the order's ID, with a line break between them.
unfoldable pub get_identifier : TradeState → Bytes
get_identifier pb = get_or pb.order.account [] ++ b'\n' ∷ decimal (get_or pb.order.id 0)

unfoldable pub build_trade_checker : Bytes → TradeState → TradeChecker
build_trade_checker account pb = elim (get_order_type account pb) [
  | bid ↦ record {
    buyer = account;
    seller = pb.counterparty;
    asset = get_or pb.order.asset [];
    price = to_int64 (get_or pb.order.price_sat 0);
    units = to_int64 pb.units;
  }
  | ask ↦ record {
    buyer = pb.counterparty;
    seller = account;
    asset = get_or pb.order.asset [];
    price = to_int64 (get_or pb.order.price_sat 0);
    units = to_int64 pb.units;
  }
]

unfoldable pub init_processing_message : TradeState → ProcessingMessage
init_processing_message pb = record empty_message {
  counterparty = some pb.counterparty;
  identifier = get_identifier pb;
}

unfoldable pub set_taking_order : TradeState → ProcessingMessage → ProcessingMessage
set_taking_order pb msg = record msg {
  taking_order = some (record { id = get_or pb.order.id 0; units = pb.units });
}

abbrev pub is_final : TradeStatus → Bool
is_final abandoned = true
is_final success = true
is_final failed = true
is_final initiated = false
is_final pending = false

unfoldable pub is_finalised : TradeState → Bool
is_finalised pb = elim pb.state [ none ↦ false | some st ↦ is_final st ]

unfoldable pub get_public_info : Bytes → TradeState → TradeInfo
get_public_info account pb = record {
  state = state_of pb;
  start_time = pb.start_time;
  counterparty = pb.counterparty;
  type = get_order_type account pb;
  asset = get_or pb.order.asset [];
  units = pb.units;
  price_sat = get_or pb.order.price_sat 0;
  role = get_role account pb;
}

unfoldable pub matches : TradeState → ProcessingMessage → Bool
matches pb msg =
    bytes_eq (get_or msg.counterparty []) pb.counterparty
    && bytes_eq msg.identifier (get_identifier pb)

-- ===== src/Proto.antt =====
-- The protocol buffers (src/proto/*.proto), as the C++ code sees them. A field whose `has_` is asked
-- somewhere is an `Option`; of the others the code reads the value only, and an unset one reads as
-- its default, so they are held by value. Numbers of uint64 fields are below 2^64.
use democrit_marketplace.Prelude.{ℕ, Bool, false, List, [], Option, none, Bytes}

-- orders.proto
pub data OrderType : Type 0 where
  ask bid : OrderType

pub record Order : Type 0 where
  pub account : Option Bytes
  pub id : Option ℕ
  pub asset : Option Bytes
  pub min_units : Option ℕ
  pub max_units : ℕ
  pub type : Option OrderType
  pub price_sat : Option ℕ
  pub locked : Bool

-- A message with no field set.
abbrev pub empty_order : Order
empty_order = record {
  account = none;
  id = none;
  asset = none;
  min_units = none;
  max_units = 0;
  type = none;
  price_sat = none;
  locked = false;
}

-- map<uint64, Order>, with one entry for each key
abbrev pub OrderMap : Type 0
OrderMap = List (ℕ × Order)

pub record OrdersOfAccount : Type 0 where
  pub account : Option Bytes
  pub orders : OrderMap

pub record OrderbookForAsset : Type 0 where
  pub asset : Bytes
  pub bids : List Order
  pub asks : List Order

-- map<string, OrderbookForAsset>
abbrev pub OrderbookByAsset : Type 0
OrderbookByAsset = List (Bytes × OrderbookForAsset)

-- trades.proto: Trade.State and Trade.Role
pub data TradeStatus : Type 0 where
  initiated pending success failed abandoned : TradeStatus

pub data Role : Type 0 where
  maker taker : Role

-- message Trade, the public data of a trade
pub record TradeInfo : Type 0 where
  pub state : TradeStatus
  pub start_time : ℕ
  pub counterparty : Bytes
  pub type : OrderType
  pub asset : Bytes
  pub units : ℕ
  pub price_sat : ℕ
  pub role : Role

pub record OutPoint : Type 0 where
  pub hash : Option Bytes
  pub n : Option ℕ

pub record SellerData : Type 0 where
  pub name_address : Option Bytes
  pub chi_address : Option Bytes
  pub name_output : Option OutPoint

pub record TradeState : Type 0 where
  pub order : Order
  pub units : ℕ
  pub counterparty : Bytes
  pub start_time : ℕ
  pub state : Option TradeStatus
  pub seller_data : Option SellerData
  pub our_psbt : Option Bytes
  pub their_psbt : Option Bytes
  pub conflict_height : Option ℕ

-- processing.proto; the one field of TradePsbt is read by value
pub record TakingOrder : Type 0 where
  pub id : ℕ
  pub units : ℕ

pub record ProcessingMessage : Type 0 where
  pub counterparty : Option Bytes
  pub identifier : Bytes
  pub taking_order : Option TakingOrder
  pub seller_data : Option SellerData
  pub psbt : Option Bytes

abbrev pub empty_message : ProcessingMessage
empty_message = record {
  counterparty = none;
  identifier = [];
  taking_order = none;
  seller_data = none;
  psbt = none;
}

-- state.proto: message State
pub record GlobalState : Type 0 where
  pub account : Bytes
  pub own_orders : OrderMap
  pub next_free_id : ℕ
  pub trades : List TradeState
  pub trade_archive : List TradeInfo

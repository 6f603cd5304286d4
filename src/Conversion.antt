-- ===== src/Conversion.antt =====
-- json.hpp and json.cpp: the conversion between protocol buffers and the JSON of the RPC interface.
pub mod Fields
pub mod Orders
pub mod Views
use democrit_marketplace.Prelude.{
  ℕ, suc, Bool, true, false, Option, none, some, is_some, get_or, List, [], ◌∷◌, Bytes, bytes_eq,
  codes, leb, ltb, ◌==◌, if◌then◌else◌,
}
use democrit_marketplace.Prelude.Int.{ℤ, pos, negsuc, to_int64}
use democrit_marketplace.Outcome.{Outcome, ok, check, ◌>>=◌, ◌>>◌}
use democrit_marketplace.Json.{
  Json, null, bool, num, str, obj, Members, end, is_object, is_string, is_uint64, field, is_member,
  string_of, uint_of, set_member, remove_member, array, with_member, empty_object,
}
use democrit_marketplace.Proto.{
  OrderType, ask, bid, Order, OrderMap, OrdersOfAccount, OrderbookForAsset, OrderbookByAsset,
  TradeStatus, initiated, pending, success, failed, abandoned, Role, maker, taker, TradeInfo,
  empty_order,
}

-- IntToJson: the argument is converted to int64_t.
abbrev pub int_to_json : ℕ → Json
int_to_json n = num (to_int64 n)

abbrev pub order_type_text : OrderType → Bytes
order_type_text ask = codes "ask"
order_type_text bid = codes "bid"

-- `if (pb.has_x ()) res[k] = x`
abbrev pub set_some : {A : Type 0} → Bytes → (A → Json) → Option A → Members → Members
set_some k f none m = m
set_some k f (some a) m = set_member k (f a) m

-- std::max<int64_t> (1, min_units), of which the minimum is 1 at least
abbrev pub least_units : ℤ → ℕ
least_units (pos n) = if ltb 1 n then n else 1
least_units (negsuc n) = 1

abbrev pub set_locked_flag : Bool → Members → Members
set_locked_flag true m = set_member (codes "locked") (bool true) m
set_locked_flag false m = m

unfoldable pub order_members : Order → Members
order_members o =
    let m₁ = set_some (codes "account") str o.account end in
    let m₂ = set_some (codes "id") int_to_json o.id m₁ in
    let m₃ = set_some (codes "asset") str o.asset m₂ in
    let m₄ = set_member (codes "min_units") (int_to_json (get_or o.min_units 1)) m₃ in
    let m₅ = set_member (codes "max_units") (int_to_json o.max_units) m₄ in
    let m₆ = set_member (codes "price_sat") (int_to_json (get_or o.price_sat 0)) m₅ in
    let m₇ = set_some (codes "type") (λ t. str (order_type_text t)) o.type m₆ in
    set_locked_flag o.locked m₇

unfoldable pub order_to_json : Order → Outcome Json
order_to_json o =
    check (leb (least_units (to_int64 (get_or o.min_units 0))) o.max_units)
    >> ok (obj (order_members o))

-- A member that may be missing: `none` where it has the wrong type.
abbrev pub read_string : Json → Bytes → Option (Option Bytes)
read_string j k =
    if is_member j k
    then (if is_string (field j k) then some (some (string_of (field j k))) else none)
    else some none

abbrev pub read_uint64 : Json → Bytes → Option (Option ℕ)
read_uint64 j k =
    if is_member j k
    then (if is_uint64 (field j k) then some (some (uint_of (field j k))) else none)
    else some none

abbrev pub need_uint64 : Json → Bytes → Option ℕ
need_uint64 j k = if is_uint64 (field j k) then some (uint_of (field j k)) else none

abbrev pub order_type_of_text : Bytes → Option OrderType
order_type_of_text s =
    if bytes_eq s (codes "bid")
    then some bid
    else if bytes_eq s (codes "ask")
    then some ask
    else none

abbrev pub known_type : Option OrderType → Option (Option OrderType)
known_type none = none
known_type (some t) = some (some t)

abbrev pub read_type : Json → Option (Option OrderType)
read_type j =
    if is_member j (codes "type")
    then (if is_string (field j (codes "type"))
        then known_type (order_type_of_text (string_of (field j (codes "type"))))
        else none)
    else some none

abbrev pub and_then : {A B : Type 0} → Option A → (A → Option B) → Option B
and_then none f = none
and_then (some a) f = f a

-- The fields, in the order of the source.
unfoldable pub read_order : Json → Option Order
read_order j = and_then (read_string j (codes "account")) λ account.
    and_then (read_uint64 j (codes "id")) λ id. and_then (read_string j (codes "asset")) λ asset.
      and_then (read_uint64 j (codes "min_units")) λ min_units.
        and_then (need_uint64 j (codes "max_units")) λ max_units.
          and_then (need_uint64 j (codes "price_sat")) λ price_sat. and_then (read_type j) λ type.
            some (record {
              account = account;
              id = id;
              asset = asset;
              min_units = min_units;
              max_units = max_units;
              type = type;
              price_sat = some price_sat;
              locked = false;
            })

-- `none` where the function returns false.
unfoldable pub order_from_json : Json → Option Order
order_from_json j = if is_object j then read_order j else none

abbrev pub without_member : Bytes → Json → Json
without_member k (obj m) = obj (remove_member k m)
without_member k j = j

-- map<uint64_t, Json::Value>: emplace leaves an entry that is there.
unfoldable pub emplace_by_id : ℕ → Json → List (ℕ × Json) → List (ℕ × Json)
emplace_by_id id j [] = (id, j) ∷ []
emplace_by_id id j ((k, v) ∷ rest) =
    let later = emplace_by_id id j rest in
    if id == k then (k, v) ∷ rest else if ltb id k then (id, j) ∷ (k, v) ∷ rest else (k, v) ∷ later

unfoldable pub orders_by_id : OrderMap → List (ℕ × Json) → Outcome (List (ℕ × Json))
orders_by_id [] sorted = ok sorted
orders_by_id ((id, o) ∷ rest) sorted = do
  cur ← order_to_json o
  orders_by_id rest (
      emplace_by_id id
        (with_member (without_member (codes "account") cur) (codes "id") (int_to_json id)) sorted)

abbrev pub values : List (ℕ × Json) → List Json
values [] = []
values ((k, v) ∷ rest) = v ∷ values rest

unfoldable pub orders_of_account_to_json : OrdersOfAccount → Outcome Json
orders_of_account_to_json pb = do
  by_id ← orders_by_id pb.orders []
  ok (
      with_member (with_member empty_object (codes "account") (str (get_or pb.account [])))
        (codes "orders") (array (values by_id)))

unfoldable pub orderbook_side_to_json : List Order → Outcome (List Json)
orderbook_side_to_json [] = ok []
orderbook_side_to_json (o ∷ os) = do
  cur ← order_to_json o
  rest ← orderbook_side_to_json os
  ok (without_member (codes "type") (without_member (codes "asset") cur) ∷ rest)

unfoldable pub orderbook_for_asset_to_json : OrderbookForAsset → Outcome Json
orderbook_for_asset_to_json pb = do
  bids ← orderbook_side_to_json pb.bids
  asks ← orderbook_side_to_json pb.asks
  let res = with_member empty_object (codes "asset") (str pb.asset)
  ok (with_member (with_member res (codes "bids") (array bids)) (codes "asks") (array asks))

unfoldable pub orderbook_entries_to_json : OrderbookByAsset → Json → Outcome Json
orderbook_entries_to_json [] res = ok res
orderbook_entries_to_json ((asset, e) ∷ rest) res = do
  cur ← orderbook_for_asset_to_json e
  orderbook_entries_to_json rest
      (with_member res asset (with_member cur (codes "asset") (str asset)))

unfoldable pub orderbook_by_asset_to_json : OrderbookByAsset → Outcome Json
orderbook_by_asset_to_json book = orderbook_entries_to_json book empty_object

abbrev pub state_text : TradeStatus → Bytes
state_text initiated = codes "initiated"
state_text pending = codes "pending"
state_text success = codes "success"
state_text failed = codes "failed"
state_text abandoned = codes "abandoned"

abbrev pub role_text : Role → Bytes
role_text maker = codes "maker"
role_text taker = codes "taker"

unfoldable pub trade_members : TradeInfo → Members
trade_members t =
    let m₁ = set_member (codes "start_time") (int_to_json t.start_time) end in
    let m₂ = set_member (codes "counterparty") (str t.counterparty) m₁ in
    let m₃ = set_member (codes "type") (str (order_type_text t.type)) m₂ in
    let m₄ = set_member (codes "asset") (str t.asset) m₃ in
    let m₅ = set_member (codes "units") (int_to_json t.units) m₄ in
    let m₆ = set_member (codes "price_sat") (int_to_json t.price_sat) m₅ in
    let m₇ = set_member (codes "state") (str (state_text t.state)) m₆ in
    set_member (codes "role") (str (role_text t.role)) m₇

abbrev pub trade_to_json : TradeInfo → Json
trade_to_json t = obj (trade_members t)

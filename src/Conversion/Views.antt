-- ===== src/Conversion/Views.antt =====
-- The JSON of a trade has all of it: a description of how a client reads it.
use democrit_marketplace.Prelude.{◌≡◌, refl, Bytes, bytes_eq, codes, if◌then◌else◌}
use democrit_marketplace.Json.{Json, str, Members, field, string_of, uint_of, find_member}
use democrit_marketplace.Proto.{
  OrderType, ask, bid, TradeStatus, initiated, pending, success, failed, abandoned, Role, maker,
  taker, TradeInfo,
}
use democrit_marketplace.Conversion.{
  int_to_json, order_type_text, state_text, role_text, trade_members, trade_to_json,
}
use democrit_marketplace.Conversion.Fields.{
  lookup_member, find_member-lookup_member, lookup_member-set_member,
}
use democrit_marketplace.Conversion.Orders.{IsSmall, uint_of-int_to_json}

unfoldable pub type_of_text : Bytes → OrderType
type_of_text s = if bytes_eq s (codes "bid") then bid else ask

unfoldable pub state_of_text : Bytes → TradeStatus
state_of_text s =
    if bytes_eq s (codes "pending")
    then pending
    else if bytes_eq s (codes "success")
    then success
    else if bytes_eq s (codes "failed")
    then failed
    else if bytes_eq s (codes "abandoned")
    then abandoned
    else initiated

unfoldable pub role_of_text : Bytes → Role
role_of_text s = if bytes_eq s (codes "taker") then taker else maker

-- How the trade can be read off its JSON.
unfoldable pub trade_of_json : Json → TradeInfo
trade_of_json j = record {
  state = state_of_text (string_of (field j (codes "state")));
  start_time = uint_of (field j (codes "start_time"));
  counterparty = string_of (field j (codes "counterparty"));
  type = type_of_text (string_of (field j (codes "type")));
  asset = string_of (field j (codes "asset"));
  units = uint_of (field j (codes "units"));
  price_sat = uint_of (field j (codes "price_sat"));
  role = role_of_text (string_of (field j (codes "role")));
}

type_of_text-order_type_text : (t : OrderType) → type_of_text (order_type_text t) ≡ t
unfolding type_of_text bytes_eq
type_of_text-order_type_text ask = refl
type_of_text-order_type_text bid = refl

state_of_text-state_text : (s : TradeStatus) → state_of_text (state_text s) ≡ s
unfolding state_of_text bytes_eq
state_of_text-state_text initiated = refl
state_of_text-state_text pending = refl
state_of_text-state_text success = refl
state_of_text-state_text failed = refl
state_of_text-state_text abandoned = refl

role_of_text-role_text : (r : Role) → role_of_text (role_text r) ≡ r
unfolding role_of_text bytes_eq
role_of_text-role_text maker = refl
role_of_text-role_text taker = refl

-- The members of a trade, one by one.
record Shows (t : TradeInfo) (m : Members) : Type 0 where
  state : find_member (codes "state") m ≡ str (state_text t.state)
  start_time : find_member (codes "start_time") m ≡ int_to_json t.start_time
  counterparty : find_member (codes "counterparty") m ≡ str t.counterparty
  type : find_member (codes "type") m ≡ str (order_type_text t.type)
  asset : find_member (codes "asset") m ≡ str t.asset
  units : find_member (codes "units") m ≡ int_to_json t.units
  price_sat : find_member (codes "price_sat") m ≡ int_to_json t.price_sat
  role : find_member (codes "role") m ≡ str (role_text t.role)

ruleset finds = (find_member-lookup_member, lookup_member-set_member)

trade_members-Shows : (t : TradeInfo) → Shows t (trade_members t)
unfolding trade_members lookup_member bytes_eq
trade_members-Shows t = record {
  state = simp finds;
  start_time = simp finds;
  counterparty = simp finds;
  type = simp finds;
  asset = simp finds;
  units = simp finds;
  price_sat = simp finds;
  role = simp finds;
}

-- Where the start time, the units and the price of a trade are below 2^63, its JSON determines it:
-- each of its fields is read off a member.
pub trade_of_json-trade_to_json :
    (t : TradeInfo)
    → IsSmall t.start_time
    → IsSmall t.units
    → IsSmall t.price_sat
    → trade_of_json (trade_to_json t) ≡ t
unfolding trade_of_json
trade_of_json-trade_to_json t start units price =
    let s = trade_members-Shows t in
    rw
      (
        s.state,
        s.start_time,
        s.counterparty,
        s.type,
        s.asset,
        s.units,
        s.price_sat,
        s.role,
        state_of_text-state_text t.state,
        type_of_text-order_type_text t.type,
        role_of_text-role_text t.role,
        uint_of-int_to_json t.start_time start,
        uint_of-int_to_json t.units units,
        uint_of-int_to_json t.price_sat price,
      )
      refl

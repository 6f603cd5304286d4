-- ===== src/OrderBook/ByAsset.antt =====
-- InternalGetByAsset, GetForAsset and GetByAsset: the orders of all accounts, by asset and side.
pub mod Sides
pub mod Offered
use democrit_marketplace.Prelude.{
  ℕ, Bool, true, false, Option, none, some, is_some, get_or, not, List, [], ◌∷◌, ◌++◌, Bytes,
  bytes_eq, length, ◌==◌, if◌then◌else◌,
}
use democrit_marketplace.Outcome.{Outcome, ok, check, ◌>>=◌, ◌>>◌}
use democrit_marketplace.Proto.{
  Order, OrderMap, OrderType, ask, bid, OrderbookForAsset, OrderbookByAsset,
}
use democrit_marketplace.OrderBook.{AccountOrders, Accounts}
use democrit_marketplace.OrderBook.Sort.{sort_by_prices}

abbrev pub add_side : OrderType → Order → OrderbookForAsset → OrderbookForAsset
add_side ask o e = record e { asks = e.asks ++ o ∷ [] }
add_side bid o e = record e { bids = e.bids ++ o ∷ [] }

abbrev pub no_offers : Bytes → OrderbookForAsset
no_offers asset = record { asset = asset; bids = []; asks = [] }

-- What is stored of an order in the book of its asset.
abbrev pub stripped : Order → Order
stripped o = record o { asset = none; type = none }

unfoldable pub put_offer : Bytes → OrderType → Order → OrderbookByAsset → OrderbookByAsset
put_offer asset type o [] = (asset, add_side type o (no_offers asset)) ∷ []
put_offer asset type o ((k, e) ∷ rest) =
    let later = put_offer asset type o rest in
    if bytes_eq k asset then (k, add_side type o e) ∷ rest else (k, e) ∷ later

unfoldable pub add_order_for_asset : OrderbookByAsset → Order → Outcome OrderbookByAsset
add_order_for_asset book o =
    check (is_some o.asset)
    >> ok (put_offer (get_or o.asset []) (get_or o.type ask) (stripped o) book)

-- The orders of an account, with the account and the ID filled in.
abbrev pub owned_by : Bytes → OrderMap → List Order
owned_by account [] = []
owned_by account ((id, o) ∷ rest) =
    record o { account = some account; id = some id } ∷ owned_by account rest

abbrev pub listing : Accounts → List Order
listing [] = []
listing ((account, a) ∷ rest) = owned_by account a.orders ++ listing rest

abbrev pub is_skipped : Option Bytes → Order → Bool
is_skipped none o = false
is_skipped (some asset) o = not (bytes_eq (get_or o.asset []) asset)

-- The two loops, over all orders.
unfoldable pub add_listed : Option Bytes → List Order → OrderbookByAsset → Outcome OrderbookByAsset
add_listed only [] book = ok book
add_listed only (o ∷ os) book =
    check (is_some o.asset)
    >> (if is_skipped only o
        then add_listed only os book
        else (add_order_for_asset book o >>= add_listed only os))

unfoldable pub internal_get_by_asset : Option Bytes → Accounts → Outcome OrderbookByAsset
internal_get_by_asset only accounts = do
  book ← add_listed only (listing accounts) []
  sort_by_prices book

unfoldable pub find_asset : Bytes → OrderbookByAsset → Option OrderbookForAsset
find_asset asset [] = none
find_asset asset ((k, e) ∷ rest) = if bytes_eq k asset then some e else find_asset asset rest

-- The CHECKs of GetForAsset on the only entry.
unfoldable pub single_entry : Bytes → OrderbookByAsset → Outcome OrderbookForAsset
single_entry asset [] = ok (no_offers asset)
single_entry asset ((k, e) ∷ rest) =
    check (length ((k, e) ∷ rest) == 1)
    >> (check (is_some (find_asset asset ((k, e) ∷ rest)))
        >> (check (bytes_eq (get_or (find_asset asset ((k, e) ∷ rest)) (no_offers [])).asset asset)
            >> ok (get_or (find_asset asset ((k, e) ∷ rest)) (no_offers []))))

unfoldable pub get_for_asset : Bytes → Accounts → Outcome OrderbookForAsset
get_for_asset asset accounts = do
  book ← internal_get_by_asset (some asset) accounts
  single_entry asset book

unfoldable pub get_by_asset : Accounts → Outcome OrderbookByAsset
get_by_asset accounts = internal_get_by_asset none accounts

-- ===== src/OrderBook/Sort.antt =====
-- SortByPrices: the order of the two sides of a book, and std::sort by it. std::sort compares each
-- element of a range of two or more at least once, so a CHECK of the comparison fails exactly if an
-- element of such a range lacks a field.
pub mod Laws
use democrit_marketplace.Prelude.{
  ℕ, Bool, true, false, is_some, get_or, not, List, [], ◌∷◌, reverse, Bytes, bytes_eq, ltb, ◌==◌,
  ◌&&◌, length, if◌then◌else◌,
}
use democrit_marketplace.Outcome.{Outcome, ok, check, ◌>>=◌, ◌>>◌}
use democrit_marketplace.Json.{bytes_lt}
use democrit_marketplace.Proto.{Order, OrderbookForAsset, OrderbookByAsset}

unfoldable pub is_keyed : Order → Bool
is_keyed o = is_some o.price_sat && is_some o.account && is_some o.id

-- byPriceAsc, without its CHECKs
unfoldable pub by_price_asc : Order → Order → Bool
by_price_asc a b =
    if not (get_or a.price_sat 0 == get_or b.price_sat 0)
    then ltb (get_or a.price_sat 0) (get_or b.price_sat 0)
    else if not (bytes_eq (get_or a.account []) (get_or b.account []))
    then bytes_lt (get_or a.account []) (get_or b.account [])
    else ltb (get_or a.id 0) (get_or b.id 0)

unfoldable pub insert_sorted : Order → List Order → List Order
insert_sorted x [] = x ∷ []
insert_sorted x (y ∷ ys) =
    let later = insert_sorted x ys in if by_price_asc y x then y ∷ later else x ∷ y ∷ ys

unfoldable pub sort_asc : List Order → List Order
sort_asc [] = []
sort_asc (x ∷ xs) = insert_sorted x (sort_asc xs)

unfoldable pub all_keyed : List Order → Bool
all_keyed [] = true
all_keyed (o ∷ os) = is_keyed o && all_keyed os

-- std::sort (asks.begin (), asks.end (), byPriceAsc)
unfoldable pub sort_range : List Order → Outcome (List Order)
sort_range os = if ltb 1 (length os) then (check (all_keyed os) >> ok (sort_asc os)) else ok os

-- The bids are sorted from their end to their front.
unfoldable pub sort_entry : OrderbookForAsset → Outcome OrderbookForAsset
sort_entry e = do
  asks ← sort_range e.asks
  bids ← sort_range (reverse e.bids)
  ok (record { asset = e.asset; bids = reverse bids; asks = asks })

unfoldable pub sort_by_prices : OrderbookByAsset → Outcome OrderbookByAsset
sort_by_prices [] = ok []
sort_by_prices ((k, e) ∷ rest) = do
  sorted ← sort_entry e
  later ← sort_by_prices rest
  ok ((k, sorted) ∷ later)

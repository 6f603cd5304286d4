-- ===== src/OrderBook/ByAsset/Offered.antt =====
-- The views by asset against a description of what they hold.
use mathlib.Core.List.{Perm}
use mathlib.Core.List.Perm
use democrit_marketplace.Prelude.{
  ◌≡◌, refl, sym, ◌∙◌, subst, ap, true, Option, none, some, is_some, get_or, List, [], ◌∷◌, All,
  All-append, reverse, Bytes, bytes_eq, bytes_eq→eq, ◌&&◌, &&-true, Bool-cases, inl, inr,
  eq→bytes_eq,
}
use democrit_marketplace.Outcome.{ok, ok-inj}
use democrit_marketplace.Proto.{
  Order, OrderMap, OrderType, ask, bid, OrderbookForAsset, OrderbookByAsset,
}
use democrit_marketplace.OrderBook.{Accounts, all_have_fields, has_order_fields}
use democrit_marketplace.OrderBook.Sort.{is_keyed, sort_by_prices}
use democrit_marketplace.OrderBook.Sort.Laws.{IsSorted, InOrder, sort_entry-InOrder}
use democrit_marketplace.OrderBook.ByAsset.{
  no_offers, owned_by, listing, add_listed, put_offer, add_order_for_asset, stripped,
  internal_get_by_asset, find_asset, single_entry, get_for_asset, get_by_asset,
}
use democrit_marketplace.OrderBook.ByAsset.Sides.{
  entry, offers, passing, IsListed, KeyedBook, Gathered, add_listed-Gathered, same_type,
}

-- The book of an asset has the offers of all accounts: the asks from the lowest price up, the bids
-- from the highest price down.
pub record Offered (accounts : Accounts) (asset : Bytes) (e : OrderbookForAsset) : Type 0 where
  pub asks_sorted : IsSorted e.asks
  pub asks_same : Perm e.asks (offers ask asset (listing accounts))
  pub bids_sorted : IsSorted (reverse e.bids)
  pub bids_same : Perm e.bids (offers bid asset (listing accounts))

-- UpdateOrders has checked the orders.
abbrev pub IsComplete : Accounts → Type 0
IsComplete accounts = All (λ x. all_have_fields x.1.orders ≡ true) accounts

owned_by-IsListed :
    (account : Bytes) (os : OrderMap)
    → all_have_fields os ≡ true
    → All IsListed (owned_by account os)
unfolding all_have_fields has_order_fields is_keyed
owned_by-IsListed account [] h = tt
owned_by-IsListed account ((id, o) ∷ os) h =
    let both = &&-true (has_order_fields o) (all_have_fields os) h in
    let p = &&-true (is_some o.asset && is_some o.type) (is_some o.price_sat) both.0 in
    let q = &&-true (is_some o.asset) (is_some o.type) p.0 in
    ((q.0, rw p.1 refl), owned_by-IsListed account os both.1)

listing-IsListed : (accounts : Accounts) → IsComplete accounts → All IsListed (listing accounts)
listing-IsListed [] h = tt
listing-IsListed ((account, a) ∷ rest) h =
    All-append IsListed (owned_by account a.orders) (listing rest)
      (owned_by-IsListed account a.orders h.0) (listing-IsListed rest h.1)

offers-passing :
    (t : OrderType) (asset : Bytes) (os : List Order)
    → offers t asset (passing (some asset) os) ≡ offers t asset os
unfolding offers passing
offers-passing t asset [] = refl
offers-passing t asset (o ∷ os) = elim (Bool-cases (bytes_eq (get_or o.asset []) asset)) [
  | inl same ↦
      rw (same, same)
        (elim (Bool-cases (same_type (get_or o.type ask) t)) [
          | inl e ↦ rw e (ap (λ l. stripped o ∷ l) (offers-passing t asset os))
          | inr e ↦ rw e (offers-passing t asset os)
        ])
  | inr other ↦ rw other (offers-passing t asset os)
]

passing-none : (os : List Order) → passing none os ≡ os
unfolding passing
passing-none [] = refl
passing-none (o ∷ os) = ap (λ l. o ∷ l) (passing-none os)

InOrder-refl : (asset : Bytes) → InOrder (no_offers asset) (no_offers asset)
InOrder-refl asset = record {
  asset = refl;
  asks_sorted = tt;
  asks_same = Perm.refl [];
  bids_sorted = tt;
  bids_same = Perm.refl [];
}

record SortedBook (book book' : OrderbookByAsset) : Type 0 where
  ran : sort_by_prices book ≡ ok book'
  entries : (asset : Bytes) → InOrder (entry asset book) (entry asset book')

sort_by_prices-SortedBook :
    (book : OrderbookByAsset) → KeyedBook book → (book' : OrderbookByAsset) × SortedBook book book'
unfolding sort_by_prices find_asset
sort_by_prices-SortedBook [] h = ([], record { ran = refl; entries = InOrder-refl })
sort_by_prices-SortedBook ((k, e) ∷ rest) (hk, h) =
    let (e', ran, good) = sort_entry-InOrder e hk.0 hk.1 in
    let (rest', s) = sort_by_prices-SortedBook rest h in
    (
      (k, e') ∷ rest',
      record {
        ran = rw (ran, s.ran) refl;
        entries = λ asset. elim (Bool-cases (bytes_eq k asset)) [
          | inl same ↦ rw same good
          | inr other ↦ rw other (s.entries asset)
        ];
      },
    )

-- What there is of an asset alone.
abbrev Single : Bytes → OrderbookByAsset → Type 0
Single a [] = Unit
Single a ((k, e) ∷ []) = (k ≡ a) × (e.asset ≡ a)
Single a (x ∷ y ∷ rest) = ⊥

put_offer-Single :
    (a : Bytes) (u : OrderType) (o : Order) (book : OrderbookByAsset)
    → Single a book
    → Single a (put_offer a u o book)
unfolding put_offer
put_offer-Single a ask o [] h = (refl, refl)
put_offer-Single a bid o [] h = (refl, refl)
put_offer-Single a ask o ((k, e) ∷ []) h = rw (eq→bytes_eq k a h.0) h
put_offer-Single a bid o ((k, e) ∷ []) h = rw (eq→bytes_eq k a h.0) h
put_offer-Single a u o (x ∷ y ∷ rest) h = elim h [ ]

add_listed-Single :
    (a : Bytes) (os : List Order) (book : OrderbookByAsset) {book' : OrderbookByAsset}
    → add_listed (some a) os book ≡ ok book'
    → Single a book
    → Single a book'
unfolding add_listed add_order_for_asset
add_listed-Single a [] book h s = subst (Single a) (ok-inj h) s
add_listed-Single a (o ∷ os) book h s = elim (Bool-cases (is_some o.asset)) [
  | inr lacks ↦ cc (rw lacks at h)
  | inl has ↦ elim (Bool-cases (bytes_eq (get_or o.asset []) a)) [
    | inr other ↦ add_listed-Single a os book (rw (has, other) at h) s
    | inl same ↦
        add_listed-Single a os (put_offer (get_or o.asset []) (get_or o.type ask) (stripped o) book)
          (rw (has, same) at h)
          (subst (λ (x : Bytes). Single a (put_offer x (get_or o.type ask) (stripped o) book))
            (sym (bytes_eq→eq (get_or o.asset []) a same))
            (put_offer-Single a (get_or o.type ask) (stripped o) book s))
  ]
]

sort_by_prices-Single :
    (a : Bytes) (book : OrderbookByAsset) {book' : OrderbookByAsset}
    → KeyedBook book
    → sort_by_prices book ≡ ok book'
    → Single a book
    → Single a book'
unfolding sort_by_prices
sort_by_prices-Single a [] keyed h s = subst (Single a) (ok-inj h) s
sort_by_prices-Single a ((k, e) ∷ []) keyed h s =
    let (e', ran, good) = sort_entry-InOrder e keyed.0.0 keyed.0.1 in
    subst (Single a) (ok-inj (rw ran at h)) (s.0, good.asset ∙ s.1)
sort_by_prices-Single a (x ∷ y ∷ rest) keyed h s = elim s [ ]

-- The CHECKs of GetForAsset hold.
single_entry-Single :
    (a : Bytes) (book : OrderbookByAsset) → Single a book → single_entry a book ≡ ok (entry a book)
unfolding single_entry find_asset
single_entry-Single a [] s = refl
single_entry-Single a ((k, e) ∷ []) s =
    rw (eq→bytes_eq k a s.0) (rw (eq→bytes_eq e.asset a s.1) refl)
single_entry-Single a (x ∷ y ∷ rest) s = elim s [ ]

module _ (accounts : Accounts) (complete : IsComplete accounts) where
  -- One run of the loops and the sorting, from an empty book.
  gathered :
      (only : Option Bytes) → (book : OrderbookByAsset) × Gathered only (listing accounts) [] book
  gathered only =
      add_listed-Gathered only (listing accounts) [] (listing-IsListed accounts complete) tt

  offered :
      (only : Option Bytes) (asset : Bytes) (book : OrderbookByAsset) (e : OrderbookForAsset)
      → Gathered only (listing accounts) [] book
      → ((t : OrderType)
          → offers t asset (passing only (listing accounts)) ≡ offers t asset (listing accounts))
      → InOrder (entry asset book) e
      → Offered accounts asset e
  unfolding find_asset
  offered only asset book e g all s = record {
    asks_sorted = s.asks_sorted;
    asks_same = subst (Perm e.asks) (g.sides ask asset ∙ all ask) s.asks_same;
    bids_sorted = s.bids_sorted;
    bids_same = subst (Perm e.bids) (g.sides bid asset ∙ all bid) s.bids_same;
  }

  -- Where the orders of all accounts have an asset, a type and a price, GetByAsset returns, and for
  -- each asset its bids and asks are those of all accounts, sorted.
  pub get_by_asset-Offered :
      (book : OrderbookByAsset) × (get_by_asset accounts ≡ ok book)
      × ((asset : Bytes) → Offered accounts asset (entry asset book))
  unfolding get_by_asset internal_get_by_asset
  get_by_asset-Offered =
      let (book, g) = gathered none in
      let (book', s) = sort_by_prices-SortedBook book g.keyed in
      (
        book',
        rw (g.ran, s.ran) refl,
        λ asset.
            offered none asset book (entry asset book') g
              (λ t. ap (offers t asset) (passing-none (listing accounts))) (s.entries asset),
      )

  -- Where the orders of all accounts have an asset, a type and a price, GetForAsset returns, its
  -- CHECKs hold, and the bids and asks are those of all accounts for the asset, sorted.
  pub get_for_asset-Offered :
      (asset : Bytes)
      → (e : OrderbookForAsset) × (get_for_asset asset accounts ≡ ok e) × Offered accounts asset e
  unfolding get_for_asset internal_get_by_asset find_asset
  get_for_asset-Offered asset =
      let (book, g) = gathered (some asset) in
      let (book', s) = sort_by_prices-SortedBook book g.keyed in
      (
        entry asset book',
        rw (g.ran, s.ran)
            (single_entry-Single asset book' (
              sort_by_prices-Single asset book g.keyed s.ran
                (add_listed-Single asset (listing accounts) [] g.ran tt))),
        offered (some asset) asset book (entry asset book') g
            (λ t. offers-passing t asset (listing accounts)) (s.entries asset),
      )

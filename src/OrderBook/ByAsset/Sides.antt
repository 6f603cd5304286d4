-- ===== src/OrderBook/ByAsset/Sides.antt =====
-- What one side of an asset's book holds, while the orders are added to it.
use democrit_marketplace.Prelude.{
  ◌≡◌, refl, sym, ◌∙◌, subst, ap, Bool, true, false, Option, is_some, get_or, List, [], ◌∷◌, ◌++◌,
  append-nil, append_assoc, All, Bytes, bytes_eq, bytes_eq→eq, bytes_eq_refl, ◌&&◌, &&-true,
  Bool-cases, inl, inr, if◌then◌else◌,
}
use democrit_marketplace.Outcome.{ok}
use democrit_marketplace.Proto.{Order, OrderType, ask, bid, OrderbookForAsset, OrderbookByAsset}
use democrit_marketplace.OrderBook.Sort.{is_keyed, all_keyed}
use democrit_marketplace.OrderBook.ByAsset.{
  add_side, no_offers, stripped, put_offer, add_order_for_asset, is_skipped, add_listed, find_asset,
}

abbrev pub same_type : OrderType → OrderType → Bool
same_type ask ask = true
same_type bid bid = true
same_type _ _ = false

abbrev pub side : OrderType → OrderbookForAsset → List Order
side ask e = e.asks
side bid e = e.bids

-- The entry of an asset, or an empty one.
abbrev pub entry : Bytes → OrderbookByAsset → OrderbookForAsset
entry asset book = get_or (find_asset asset book) (no_offers asset)

-- The orders for one side of an asset, as they are stored.
unfoldable pub offers : OrderType → Bytes → List Order → List Order
offers t asset [] = []
offers t asset (o ∷ os) =
    let rest = offers t asset os in
    if bytes_eq (get_or o.asset []) asset && same_type (get_or o.type ask) t
    then stripped o ∷ rest
    else rest

unfoldable pub passing : Option Bytes → List Order → List Order
passing only [] = []
passing only (o ∷ os) = let rest = passing only os in if is_skipped only o then rest else o ∷ rest

side-add_side :
    (u t : OrderType) (o : Order) (e : OrderbookForAsset)
    → side t (add_side u o e) ≡ side t e ++ (if same_type u t then o ∷ [] else [])
side-add_side ask ask o e = refl
side-add_side bid bid o e = refl
side-add_side ask bid o e = sym (append-nil e.bids)
side-add_side bid ask o e = sym (append-nil e.asks)

side-no_offers : (t : OrderType) (a : Bytes) → side t (no_offers a) ≡ []
side-no_offers ask a = refl
side-no_offers bid a = refl

side-put_offer :
    (t u : OrderType) (b : Bytes) (o : Order) (book : OrderbookByAsset)
    → side t (entry b (put_offer b u o book))
      ≡ side t (entry b book) ++ (if same_type u t then o ∷ [] else [])
unfolding put_offer find_asset
side-put_offer t u b o [] = rw (bytes_eq_refl b) (side-add_side u t o (no_offers b))
side-put_offer t u b o ((k, e) ∷ rest) = elim (Bool-cases (bytes_eq k b)) [
  | inl same ↦ rw (same, same) (side-add_side u t o e)
  | inr other ↦ rw (other, other) (side-put_offer t u b o rest)
]

find_asset-put_offer :
    (a b : Bytes) (u : OrderType) (o : Order) (book : OrderbookByAsset)
    → bytes_eq b a ≡ false
    → find_asset a (put_offer b u o book) ≡ find_asset a book
unfolding put_offer find_asset
find_asset-put_offer a b u o [] h = rw h refl
find_asset-put_offer a b u o ((k, e) ∷ rest) h = elim (Bool-cases (bytes_eq k b)) [
  | inl same ↦
      rw (same, subst (λ (x : Bytes). bytes_eq x a ≡ false) (sym (bytes_eq→eq k b same)) h) refl
  | inr other ↦ rw other (elim (Bool-cases (bytes_eq k a)) [
    | inl here ↦ rw here refl
    | inr there ↦ rw there (find_asset-put_offer a b u o rest h)
  ])
]

-- One order is added to its side, and to no other.
side-put_order :
    (t : OrderType) (a : Bytes) (o : Order) (book : OrderbookByAsset)
    → side t (entry a (put_offer (get_or o.asset []) (get_or o.type ask) (stripped o) book))
      ≡ side t (entry a book) ++ offers t a (o ∷ [])
unfolding offers
side-put_order t a o book = elim (Bool-cases (bytes_eq (get_or o.asset []) a)) [
  | inl same ↦ rw same (
      subst
        (λ (x : Bytes).
          side t (entry x (put_offer (get_or o.asset []) (get_or o.type ask) (stripped o) book))
          ≡ side t (entry x book)
            ++ (if same_type (get_or o.type ask) t then stripped o ∷ [] else []))
        (bytes_eq→eq (get_or o.asset []) a same)
        (side-put_offer t (get_or o.type ask) (get_or o.asset []) (stripped o) book))
  | inr other ↦
      rw
        (
          other,
          find_asset-put_offer a (get_or o.asset []) (get_or o.type ask) (stripped o) book other,
        )
        (sym (append-nil (side t (entry a book))))
]

offers-cons :
    (t : OrderType) (a : Bytes) (o : Order) (os : List Order)
    → offers t a (o ∷ os) ≡ offers t a (o ∷ []) ++ offers t a os
unfolding offers
offers-cons t a o os =
    elim (Bool-cases (bytes_eq (get_or o.asset []) a && same_type (get_or o.type ask) t)) [
      | inl e ↦ rw e refl
      | inr e ↦ rw e refl
    ]

-- An order has what the sorting and the adding ask for.
abbrev pub IsListed : Order → Type 0
IsListed o = (is_some o.asset ≡ true) × (is_keyed o ≡ true)

abbrev pub IsKeyed : OrderbookForAsset → Type 0
IsKeyed e = (all_keyed e.asks ≡ true) × (all_keyed e.bids ≡ true)

abbrev pub KeyedBook : OrderbookByAsset → Type 0
KeyedBook = All (λ x. IsKeyed x.1)

all_keyed-append :
    (os : List Order) (o : Order)
    → is_keyed o ≡ true
    → all_keyed os ≡ true
    → all_keyed (os ++ o ∷ []) ≡ true
unfolding all_keyed
all_keyed-append [] o ho h = rw ho refl
all_keyed-append (x ∷ os) o ho h =
    let both = &&-true (is_keyed x) (all_keyed os) h in
    rw (both.0, all_keyed-append os o ho both.1) refl

add_side-IsKeyed :
    (u : OrderType) (o : Order) (e : OrderbookForAsset)
    → is_keyed o ≡ true
    → IsKeyed e
    → IsKeyed (add_side u o e)
add_side-IsKeyed ask o e ho h = (all_keyed-append e.asks o ho h.0, h.1)
add_side-IsKeyed bid o e ho h = (h.0, all_keyed-append e.bids o ho h.1)

put_offer-KeyedBook :
    (b : Bytes) (u : OrderType) (o : Order) (book : OrderbookByAsset)
    → is_keyed o ≡ true
    → KeyedBook book
    → KeyedBook (put_offer b u o book)
unfolding put_offer all_keyed
put_offer-KeyedBook b u o [] ho h = (add_side-IsKeyed u o (no_offers b) ho (refl, refl), tt)
put_offer-KeyedBook b u o ((k, e) ∷ rest) ho (hk, h) = elim (Bool-cases (bytes_eq k b)) [
  | inl same ↦ rw same (add_side-IsKeyed u o e ho hk, h)
  | inr other ↦ rw other (hk, put_offer-KeyedBook b u o rest ho h)
]

is_keyed-stripped : (o : Order) → is_keyed (stripped o) ≡ is_keyed o
unfolding is_keyed
is_keyed-stripped o = refl

-- What AddOrderForAsset has gathered of a list of orders.
pub record Gathered (only : Option Bytes) (os : List Order) (book book' : OrderbookByAsset)
    : Type 0 where
  pub ran : add_listed only os book ≡ ok book'
  pub sides :
      (t : OrderType) (a : Bytes)
      → side t (entry a book') ≡ side t (entry a book) ++ offers t a (passing only os)
  pub keyed : KeyedBook book'

pub add_listed-Gathered :
    (only : Option Bytes) (os : List Order) (book : OrderbookByAsset)
    → All IsListed os
    → KeyedBook book
    → (book' : OrderbookByAsset) × Gathered only os book book'
unfolding add_listed passing add_order_for_asset offers
add_listed-Gathered only [] book hos h = (
  book,
  record { ran = refl; sides = λ t a. sym (append-nil (side t (entry a book))); keyed = h },
)
add_listed-Gathered only (o ∷ os) book ((has, key), hos) h = elim (Bool-cases (is_skipped only o)) [
  | inl skip ↦
      let (book', g) = add_listed-Gathered only os book hos h in
      (
        book',
        record {
          ran = rw (has, skip) g.ran;
          sides = λ t a. rw skip (g.sides t a);
          keyed = g.keyed;
        },
      )
  | inr take ↦
      let (book', g) =
        add_listed-Gathered only os
          (put_offer (get_or o.asset []) (get_or o.type ask) (stripped o) book) hos
          (put_offer-KeyedBook _ _ (stripped o) book (is_keyed-stripped o ∙ key) h) in
      (
        book',
        record {
          ran = rw (has, take) g.ran;
          sides = λ t a. rw take (
              g.sides t a
              ∙ ap (λ l. l ++ offers t a (passing only os)) (side-put_order t a o book)
              ∙ append_assoc (side t (entry a book)) (offers t a (o ∷ []))
                  (offers t a (passing only os))
              ∙ ap (λ l. side t (entry a book) ++ l) (sym (offers-cons t a o (passing only os))));
          keyed = g.keyed;
        },
      )
]

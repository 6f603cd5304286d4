-- ===== src/OrderBook/Sort/Laws.antt =====
-- What sorting does: the result is in order and has the same orders.
use mathlib.Core.List.{Perm, reverse_perm, reverse-reverse, reverse_aux}
use mathlib.Core.List.Perm
use democrit_marketplace.Prelude.{
  ℕ, suc, ◌≡◌, refl, sym, subst, Bool, true, false, get_or, not, List, [], ◌∷◌, reverse, Bytes,
  bytes_eq, ltb, ◌==◌, &&-true, length, Bool-cases, inl, inr, arith, if◌then◌else◌,
}
use democrit_marketplace.Outcome.{ok}
use democrit_marketplace.Json.{bytes_lt}
use democrit_marketplace.Proto.{Order, OrderbookForAsset}
use democrit_marketplace.OrderBook.Sort.{
  is_keyed, by_price_asc, insert_sorted, sort_asc, all_keyed, sort_range, sort_entry,
}

-- No order is before the one to its left.
abbrev pub IsSorted : List Order → Type 0
IsSorted [] = Unit
IsSorted (x ∷ []) = Unit
IsSorted (x ∷ y ∷ l) = (by_price_asc y x ≡ false) × IsSorted (y ∷ l)

bytes_lt_asym : (s t : Bytes) → bytes_lt s t ≡ true → bytes_lt t s ≡ false
unfolding bytes_lt
bytes_lt_asym [] [] h = refl
bytes_lt_asym [] (b ∷ t) h = refl
bytes_lt_asym (a ∷ s) [] h = cc
bytes_lt_asym (a ∷ s) (b ∷ t) h = ground (arith, bytes_lt_asym s t)

bytes_eq_comm : (s t : Bytes) → bytes_eq s t ≡ bytes_eq t s
unfolding bytes_eq
bytes_eq_comm [] [] = refl
bytes_eq_comm [] (b ∷ t) = refl
bytes_eq_comm (a ∷ s) [] = refl
bytes_eq_comm (a ∷ s) (b ∷ t) = ground (arith, bytes_eq_comm s t)

-- The comparison, on its keys.
key_lt : ℕ → ℕ → Bytes → Bytes → ℕ → ℕ → Bool
key_lt p q s t i j =
    if not (p == q) then ltb p q else if not (bytes_eq s t) then bytes_lt s t else ltb i j

key_lt_asym :
    (p q : ℕ) (s t : Bytes) (i j : ℕ) → key_lt p q s t i j ≡ true → key_lt q p t s j i ≡ false
unfolding key_lt
key_lt_asym p q s t i j h = ground (arith, bytes_lt_asym s t, bytes_eq_comm s t)

by_price_asc_asym : (a b : Order) → by_price_asc a b ≡ true → by_price_asc b a ≡ false
unfolding by_price_asc key_lt
by_price_asc_asym a b h =
    key_lt_asym (get_or a.price_sat 0) (get_or b.price_sat 0) (get_or a.account [])
      (get_or b.account []) (get_or a.id 0) (get_or b.id 0) h

insert_sorted-Perm : (x : Order) (l : List Order) → Perm (insert_sorted x l) (x ∷ l)
unfolding insert_sorted
insert_sorted-Perm x [] = Perm.refl (x ∷ [])
insert_sorted-Perm x (y ∷ l) = elim (Bool-cases (by_price_asc y x)) [
  | inl e ↦ rw e (Perm.trans (Perm.cons y (insert_sorted-Perm x l)) (Perm.swap x y l))
  | inr e ↦ rw e (Perm.refl (x ∷ y ∷ l))
]

pub sort_asc-Perm : (l : List Order) → Perm (sort_asc l) l
unfolding sort_asc
sort_asc-Perm [] = Perm.refl []
sort_asc-Perm (x ∷ l) =
    Perm.trans (insert_sorted-Perm x (sort_asc l)) (Perm.cons x (sort_asc-Perm l))

-- An element that may follow `y` is put behind it.
insert_sorted-after :
    (y x : Order) (l : List Order)
    → by_price_asc x y ≡ false
    → IsSorted (y ∷ l)
    → IsSorted (insert_sorted x l)
    → IsSorted (y ∷ insert_sorted x l)
unfolding insert_sorted
insert_sorted-after y x [] h s t = (h, tt)
insert_sorted-after y x (z ∷ l) h s t = elim (Bool-cases (by_price_asc z x)) [
  | inl e ↦ rw e (s.0, rw e at t)
  | inr e ↦ rw e (h, rw e at t)
]

insert_sorted-IsSorted : (x : Order) (l : List Order) → IsSorted l → IsSorted (insert_sorted x l)
unfolding insert_sorted
insert_sorted-IsSorted x [] s = tt
insert_sorted-IsSorted x (y ∷ l) s = elim (Bool-cases (by_price_asc y x)) [
  | inl e ↦ rw e (
      insert_sorted-after y x l (by_price_asc_asym y x e) s (insert_sorted-IsSorted x l (tail l s)))
  | inr e ↦ rw e (e, s)
]
  where
    tail : (l : List Order) → IsSorted (y ∷ l) → IsSorted l
    tail [] s = tt
    tail (z ∷ l) s = s.1

pub sort_asc-IsSorted : (l : List Order) → IsSorted (sort_asc l)
unfolding sort_asc
sort_asc-IsSorted [] = tt
sort_asc-IsSorted (x ∷ l) = insert_sorted-IsSorted x (sort_asc l) (sort_asc-IsSorted l)

-- A range of which the CHECKs hold is sorted.
pub sort_range-eq : (l : List Order) → all_keyed l ≡ true → sort_range l ≡ ok (sort_asc l)
unfolding sort_range sort_asc insert_sorted
sort_range-eq [] h = refl
sort_range-eq (x ∷ []) h = refl
sort_range-eq (x ∷ y ∷ l) h = rw h (rw (long l) refl)
  where
    long : (l : List Order) → ltb 1 (suc (suc (length l))) ≡ true
    long l = ground arith

all_keyed-reverse_aux :
    (l r : List Order)
    → all_keyed l ≡ true
    → all_keyed r ≡ true
    → all_keyed (reverse_aux l r) ≡ true
unfolding all_keyed
all_keyed-reverse_aux [] r hl hr = hr
all_keyed-reverse_aux (x ∷ l) r hl hr =
    let both = &&-true (is_keyed x) (all_keyed l) hl in
    all_keyed-reverse_aux l (x ∷ r) both.1 (rw (both.0, hr) refl)

all_keyed-reverse : (l : List Order) → all_keyed l ≡ true → all_keyed (reverse l) ≡ true
unfolding all_keyed
all_keyed-reverse l h = all_keyed-reverse_aux l [] h refl

-- The bids from the highest price down, and the asks from the lowest up.
pub record InOrder (before after : OrderbookForAsset) : Type 0 where
  pub asset : after.asset ≡ before.asset
  pub asks_sorted : IsSorted after.asks
  pub asks_same : Perm after.asks before.asks
  pub bids_sorted : IsSorted (reverse after.bids)
  pub bids_same : Perm after.bids before.bids

pub sort_entry-InOrder :
    (e : OrderbookForAsset)
    → all_keyed e.asks ≡ true
    → all_keyed e.bids ≡ true
    → (e' : OrderbookForAsset) × (sort_entry e ≡ ok e') × InOrder e e'
unfolding sort_entry
sort_entry-InOrder e ha hb = (
  record { asset = e.asset; bids = reverse (sort_asc (reverse e.bids)); asks = sort_asc e.asks },
  rw (sort_range-eq e.asks ha, sort_range-eq (reverse e.bids) (all_keyed-reverse e.bids hb)) refl,
  record {
    asset = refl;
    asks_sorted = sort_asc-IsSorted e.asks;
    asks_same = sort_asc-Perm e.asks;
    bids_sorted =
        subst IsSorted (sym (reverse-reverse (sort_asc (reverse e.bids))))
          (sort_asc-IsSorted (reverse e.bids));
    bids_same =
        Perm.trans (reverse_perm (sort_asc (reverse e.bids)))
          (Perm.trans (sort_asc-Perm (reverse e.bids)) (reverse_perm e.bids));
  },
)

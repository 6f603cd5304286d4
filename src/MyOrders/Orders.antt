-- ===== src/MyOrders/Orders.antt =====
-- map<uint64, Order> of protobuf, by its entries. A key has at most one entry.
use democrit_marketplace.Prelude.{
  ℕ, ◌≡◌, refl, ap, Bool, Option, none, some, not, List, [], ◌∷◌, ◌++◌, All, ◌==◌, ==_iff, ◌||◌,
  Bool-cases, inl, inr, some-inj, subst, if◌then◌else◌,
}
use democrit_marketplace.Proto.{Order, OrderMap}

-- find
unfoldable pub find_order : ℕ → OrderMap → Option Order
find_order id [] = none
find_order id ((k, o) ∷ rest) = if k == id then some o else find_order id rest

-- An assignment to operator[].
unfoldable pub put_order : ℕ → Order → OrderMap → OrderMap
put_order id o [] = (id, o) ∷ []
put_order id o ((k, p) ∷ rest) =
    let others = put_order id o rest in if k == id then (k, o) ∷ rest else (k, p) ∷ others

-- A change of an entry in place.
unfoldable pub change_order : ℕ → (Order → Order) → OrderMap → OrderMap
change_order id f [] = []
change_order id f ((k, o) ∷ rest) =
    let others = change_order id f rest in if k == id then (k, f o) ∷ others else (k, o) ∷ others

-- erase
unfoldable pub erase_order : ℕ → OrderMap → OrderMap
erase_order id [] = []
erase_order id ((k, o) ∷ rest) =
    let others = erase_order id rest in if k == id then others else (k, o) ∷ others

-- All entries, or those that are not locked.
unfoldable pub visible_orders : Bool → OrderMap → OrderMap
visible_orders include_locked [] = []
visible_orders include_locked ((k, o) ∷ rest) =
    let others = visible_orders include_locked rest in
    if include_locked || not o.locked then (k, o) ∷ others else others

abbrev pub keys : OrderMap → List ℕ
keys [] = []
keys ((k, o) ∷ rest) = k ∷ keys rest

pub keys-append : (xs ys : OrderMap) → keys (xs ++ ys) ≡ keys xs ++ keys ys
keys-append [] ys = refl
keys-append ((k, o) ∷ xs) ys = ap (λ ks. k ∷ ks) (keys-append xs ys)

pub keys-change_order :
    (id : ℕ) (f : Order → Order) (m : OrderMap) → keys (change_order id f m) ≡ keys m
unfolding change_order
keys-change_order id f [] = refl
keys-change_order id f ((k, o) ∷ m) = elim (Bool-cases (k == id)) [
  | inl e ↦ rw e (ap (λ ks. k ∷ ks) (keys-change_order id f m))
  | inr e ↦ rw e (ap (λ ks. k ∷ ks) (keys-change_order id f m))
]

-- The entry of a key, if there is one, is as `P` says.
abbrev pub At : ℕ → (Order → Type 0) → ℕ × Order → Type 0
At id P e = e.0 ≡ id → P e.1

pub find_order-At :
    (id : ℕ) (P : Order → Type 0) (m : OrderMap) (o : Order)
    → All (At id P) m
    → find_order id m ≡ some o
    → P o
unfolding find_order
find_order-At id P [] o h e = cc
find_order-At id P ((k, p) ∷ m) o (hp, h) e = elim (Bool-cases (k == id)) [
  | inl same ↦ subst P (some-inj (rw same at e)) (hp ((==_iff k id).0 same))
  | inr other ↦ find_order-At id P m o h (rw other at e)
]

pub change_order-At :
    (id : ℕ) (P : Order → Type 0) (f : Order → Order) (m : OrderMap)
    → ((o : Order) → P (f o))
    → All (At id P) (change_order id f m)
unfolding change_order
change_order-At id P f [] h = tt
change_order-At id P f ((k, o) ∷ m) h = elim (Bool-cases (k == id)) [
  | inl same ↦ rw same (λ _. h o, change_order-At id P f m h)
  | inr other ↦ rw other (λ e. cc ((==_iff k id).1 e), change_order-At id P f m h)
]

pub erase_order-At : (id : ℕ) (P : Order → Type 0) (m : OrderMap) → All (At id P) (erase_order id m)
unfolding erase_order
erase_order-At id P [] = tt
erase_order-At id P ((k, o) ∷ m) = elim (Bool-cases (k == id)) [
  | inl same ↦ rw same (erase_order-At id P m)
  | inr other ↦ rw other (λ e. cc ((==_iff k id).1 e), erase_order-At id P m)
]

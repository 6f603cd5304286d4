-- ===== src/MyOrders/Entries.antt =====
-- What holds of all entries of the map of orders, after each change of it.
use democrit_marketplace.Prelude.{
  ℕ, ◌≡◌, ◌≢◌, sym, subst, some, [], ◌∷◌, All, ◌==◌, ==_iff, Bool-cases, inl, inr,
}
use democrit_marketplace.Proto.{Order, OrderMap}
use democrit_marketplace.MyOrders.Orders.{
  find_order, put_order, change_order, erase_order, At, find_order-At,
}

pub All-entries :
    (P Q : ℕ × Order → Type 0) (m : OrderMap) → ((e : ℕ × Order) → P e → Q e) → All P m → All Q m
All-entries P Q [] f h = tt
All-entries P Q (e ∷ m) f (he, h) = (f e he, All-entries P Q m f h)

pub erase_order-All :
    (P : ℕ × Order → Type 0) (id : ℕ) (m : OrderMap) → All P m → All P (erase_order id m)
unfolding erase_order
erase_order-All P id [] h = tt
erase_order-All P id ((k, o) ∷ m) (p, h) = elim (Bool-cases (k == id)) [
  | inl e ↦ rw e (erase_order-All P id m h)
  | inr e ↦ rw e (p, erase_order-All P id m h)
]

pub put_order-All :
    (P : ℕ × Order → Type 0) (id : ℕ) (o : Order) (m : OrderMap)
    → P (id, o)
    → All P m
    → All P (put_order id o m)
unfolding put_order
put_order-All P id o [] new h = (new, tt)
put_order-All P id o ((k, p) ∷ m) new (old, h) = elim (Bool-cases (k == id)) [
  | inl e ↦ rw e (subst (λ (x : ℕ). P (x, o)) (sym ((==_iff k id).0 e)) new, h)
  | inr e ↦ rw e (old, put_order-All P id o m new h)
]

-- A change of the entries with one key.
pub change_order-All :
    (P Q : ℕ × Order → Type 0) (id : ℕ) (f : Order → Order) (m : OrderMap)
    → ((o : Order) → P (id, o) → Q (id, f o))
    → ((k : ℕ) (o : Order) → k ≢ id → P (k, o) → Q (k, o))
    → All P m
    → All Q (change_order id f m)
unfolding change_order
change_order-All P Q id f [] here there h = tt
change_order-All P Q id f ((k, o) ∷ m) here there (p, h) = elim (Bool-cases (k == id)) [
  | inl e ↦
      let same = (==_iff k id).0 e in
      rw e (
        subst (λ (x : ℕ). Q (x, f o)) (sym same) (here o (subst (λ (x : ℕ). P (x, o)) same p)),
        change_order-All P Q id f m here there h,
      )
  | inr e ↦
      rw e
        (there k o (λ same. cc ((==_iff k id).1 same)) p, change_order-All P Q id f m here there h)
]

pub find_order-All :
    (P : ℕ × Order → Type 0) (id : ℕ) (m : OrderMap) (o : Order)
    → All P m
    → find_order id m ≡ some o
    → P (id, o)
find_order-All P id m o h e =
    find_order-At id (λ (p : Order). P (id, p)) m o
      (All-entries P (At id (λ (p : Order). P (id, p))) m
        (λ x. λ px. λ same. subst (λ (k : ℕ). P (k, x.1)) same px) h)
      e

-- ===== src/Manager/Sales.antt =====
-- trades.cpp and myorders.cpp together: an order of the user is in one active trade at most.
pub mod Taking
pub mod Buying
pub mod Sorting
pub mod Ending
pub mod Steps
use democrit_marketplace.Prelude.{
  ℕ, ◌+◌, ◌<◌, ◌≤◌, ◌≡◌, ◌≢◌, refl, sym, subst, ap, ◌∙◌, Bool, true, false, get_or, List, [], ◌∷◌,
  ◌++◌, append-nil, append_assoc, All, All-append, Bytes, Bool-cases, inl, inr, if◌then◌else◌,
  arith,
}
use democrit_marketplace.Proto.{TradeState, Order, OrderMap, GlobalState}
use democrit_marketplace.Trade.{get_role}
use democrit_marketplace.Trade.Reply.{is_maker}
use democrit_marketplace.MyOrders.Ids.{Distinct}
use democrit_marketplace.MyOrders.Held.{IsHeld, Holds, SameRest}

-- The order's ID, where the order is the user's.
abbrev pub own_id : Bytes → TradeState → List ℕ
own_id account t = if is_maker (get_role account t) then get_or t.order.id 0 ∷ [] else []

-- The IDs of the user's orders that are traded.
unfoldable pub own_ids : Bytes → List TradeState → List ℕ
own_ids account [] = []
own_ids account (t ∷ ts) = own_id account t ++ own_ids account ts

abbrev pub ids_of : GlobalState → List ℕ
ids_of s = own_ids s.account s.trades

-- No order is in two trades, and each order that is traded is locked or gone.
pub record IsSoldOnce (n : ℕ) (s : GlobalState) : Type 0 where
  pub distinct : Distinct (ids_of s)
  pub holds : Holds (ids_of s) n s

pub own_ids-append :
    (a : Bytes) (xs ys : List TradeState) → own_ids a (xs ++ ys) ≡ own_ids a xs ++ own_ids a ys
unfolding own_ids
own_ids-append a [] ys = refl
own_ids-append a (x ∷ xs) ys =
    ap (λ (is : List ℕ). own_id a x ++ is) (own_ids-append a xs ys)
    ∙ sym (append_assoc (own_id a x) (own_ids a xs) (own_ids a ys))

-- It depends on the order only.
pub own_id-order : (a : Bytes) (t t' : TradeState) → t'.order ≡ t.order → own_id a t' ≡ own_id a t
unfolding get_role
own_id-order a t t' e = ap (λ (o : Order). own_id a (record t { order = o })) e

pub own_ids-replaced :
    (a : Bytes) (xs : List TradeState) (t t' : TradeState) (ys : List TradeState)
    → t'.order ≡ t.order
    → own_ids a (xs ++ t' ∷ ys) ≡ own_ids a (xs ++ t ∷ ys)
unfolding own_ids
own_ids-replaced a [] t t' ys e = ap (λ (is : List ℕ). is ++ own_ids a ys) (own_id-order a t t' e)
own_ids-replaced a (x ∷ xs) t t' ys e =
    ap (λ (is : List ℕ). own_id a x ++ is) (own_ids-replaced a xs t t' ys e)

-- Lists of different IDs.
pub Distinct-rotate :
    (k : ℕ) (ks : List ℕ) → All (λ (j : ℕ). j ≢ k) ks → Distinct ks → Distinct (ks ++ k ∷ [])
Distinct-rotate k [] h d = (tt, tt)
Distinct-rotate k (j ∷ ks) (ne, h) (hj, d) =
    (All-append (λ (i : ℕ). i ≢ j) ks (k ∷ []) hj ((λ e. ne (sym e)), tt), Distinct-rotate k ks h d)

pub Distinct-insert :
    (xs : List ℕ) (k : ℕ) (ys : List ℕ)
    → All (λ (j : ℕ). j ≢ k) (xs ++ ys)
    → Distinct (xs ++ ys)
    → Distinct (xs ++ k ∷ ys)
Distinct-insert [] k ys h d = (h, d)
Distinct-insert (x ∷ xs) k ys (ne, h) (hx, d) = (All-insert xs hx, Distinct-insert xs k ys h d)
  where
    All-insert :
        (xs : List ℕ) → All (λ (j : ℕ). j ≢ x) (xs ++ ys) → All (λ (j : ℕ). j ≢ x) (xs ++ k ∷ ys)
    All-insert [] h = ((λ e. ne (sym e)), h)
    All-insert (y ∷ zs) (hy, h) = (hy, All-insert zs h)

-- The held orders, listed in another way.
pub Holds-by :
    (is js : List ℕ) (n : ℕ) (s : GlobalState)
    → ((P : ℕ → Type 0) → All P is → All P js)
    → Holds is n s
    → Holds js n s
Holds-by is js n s f h = record {
  held = each s.own_orders h.held;
  below = f (λ (i : ℕ). i < s.next_free_id) h.below;
  fresh = h.fresh;
  bound = h.bound;
}
  where
    each : (m : OrderMap) → All (IsHeld is) m → All (IsHeld js) m
    each [] g = tt
    each (e ∷ m) (ge, g) = (f (λ (i : ℕ). e.0 ≡ i → e.1.locked ≡ true) ge, each m g)

-- The same trades and account.
pub Holds-same :
    (is : List ℕ) (n : ℕ) (s t : GlobalState)
    → t.own_orders ≡ s.own_orders
    → t.next_free_id ≡ s.next_free_id
    → Holds is n s
    → Holds is n t
Holds-same is n s t eo en h = record {
  held = subst (All (IsHeld is)) (sym eo) h.held;
  below = subst (λ (b : ℕ). All (λ (i : ℕ). i < b) is) (sym en) h.below;
  fresh = rw (eo, en) h.fresh;
  bound = subst (λ (b : ℕ). b ≤ n) (sym en) h.bound;
}

pub All-swap : (P : ℕ → Type 0) (k : ℕ) (ks : List ℕ) → All P (k ∷ ks) → All P (ks ++ k ∷ [])
All-swap P k ks (hk, h) = All-append P ks (k ∷ []) h (hk, tt)

-- With the IDs of the orders that are traded given as a list.
pub IsSoldOnce-by :
    (ids : List ℕ) (n : ℕ) (s : GlobalState)
    → ids_of s ≡ ids
    → Distinct ids
    → Holds ids n s
    → IsSoldOnce n s
IsSoldOnce-by ids n s e d h = record {
  distinct = subst Distinct (sym e) d;
  holds = subst (λ (is : List ℕ). Holds is n s) (sym e) h;
}

-- The same trades, account and bounds.
pub IsSoldOnce-same :
    (n : ℕ) (s t : GlobalState)
    → SameRest s t
    → Distinct (ids_of s)
    → Holds (ids_of s) n t
    → IsSoldOnce n t
IsSoldOnce-same n s t (ea, et) d h = IsSoldOnce-by (ids_of s) n t (rw (ea, et) refl) d h

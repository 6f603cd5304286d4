-- ===== src/MyOrders/Ids.antt =====
-- The IDs of the orders: a new one is never in use.
pub mod Calls
use democrit_marketplace.Prelude.{
  ℕ, suc, ◌+◌, ◌%◌, ◌^◌, ◌≤◌, ◌<◌, ◌≡◌, refl, sym, subst, ◌≢◌, Bool, true, false, Option, none,
  some, is_some, get_or, List, [], ◌∷◌, ◌++◌, All, length, ◌==◌, Bool-cases, inl, inr, arith,
  if◌then◌else◌, ap,
}
use democrit_marketplace.Exec.{Exec, pure, ◌>>=◌, ◌>>◌}
use democrit_marketplace.Proto.{Order, OrderMap, GlobalState, empty_order}
use democrit_marketplace.MyOrders.{
  Global, Hooks, set_orders, set_locked, without_owner, add_order, run_refresh, add, remove_by_id,
  lock_found, try_lock, unlock,
}
use democrit_marketplace.MyOrders.Orders.{
  find_order, put_order, change_order, erase_order, keys, keys-change_order,
}
use democrit_marketplace.MyOrders.Refresh.{
  Leaves, Leaves-pure, Leaves-reads, Leaves-write, Leaves-ask, Leaves-bind, Leaves-check, Leaves-if,
  run_refresh-Keys,
}

abbrev pub Distinct : List ℕ → Type 0
Distinct [] = Unit
Distinct (k ∷ ks) = All (λ j. j ≢ k) ks × Distinct ks

abbrev pub FreshFrom : ℕ → List ℕ → Type 0
FreshFrom n ks = All (λ k. k < n) ks × Distinct ks

-- The IDs in use are different, and below the next free one.
abbrev pub IsFresh : GlobalState → Type 0
IsFresh s = FreshFrom s.next_free_id (keys s.own_orders)

module _ (P : ℕ → Type 0) where
  pub All-drop : (xs : List ℕ) (k : ℕ) (ys : List ℕ) → All P (xs ++ k ∷ ys) → All P (xs ++ ys)
  All-drop [] k ys h = h.1
  All-drop (x ∷ xs) k ys (hx, h) = (hx, All-drop xs k ys h)

  pub All-erase_order : (id : ℕ) (m : OrderMap) → All P (keys m) → All P (keys (erase_order id m))
  unfolding erase_order
  All-erase_order id [] h = tt
  All-erase_order id ((k, o) ∷ m) (hk, h) = elim (Bool-cases (k == id)) [
    | inl e ↦ rw e (All-erase_order id m h)
    | inr e ↦ rw e (hk, All-erase_order id m h)
  ]

  All-put_order :
      (id : ℕ) (o : Order) (m : OrderMap) → P id → All P (keys m) → All P (keys (put_order id o m))
  unfolding put_order
  All-put_order id o [] hi h = (hi, tt)
  All-put_order id o ((k, p) ∷ m) hi (hk, h) = elim (Bool-cases (k == id)) [
    | inl e ↦ rw e (hk, h)
    | inr e ↦ rw e (hk, All-put_order id o m hi h)
  ]

pub All-imp : {P Q : ℕ → Type 0} (ks : List ℕ) → ((k : ℕ) → P k → Q k) → All P ks → All Q ks
All-imp [] f h = tt
All-imp (k ∷ ks) f (hk, h) = (f k hk, All-imp ks f h)

pub Distinct-drop :
    (xs : List ℕ) (k : ℕ) (ys : List ℕ) → Distinct (xs ++ k ∷ ys) → Distinct (xs ++ ys)
Distinct-drop [] k ys h = h.1
Distinct-drop (x ∷ xs) k ys (hx, h) = (All-drop _ xs k ys hx, Distinct-drop xs k ys h)

pub Distinct-erase_order :
    (id : ℕ) (m : OrderMap) → Distinct (keys m) → Distinct (keys (erase_order id m))
unfolding erase_order
Distinct-erase_order id [] h = tt
Distinct-erase_order id ((k, o) ∷ m) (hk, h) = elim (Bool-cases (k == id)) [
  | inl e ↦ rw e (Distinct-erase_order id m h)
  | inr e ↦ rw e (All-erase_order _ id m hk, Distinct-erase_order id m h)
]

Distinct-put_order :
    (n : ℕ) (o : Order) (m : OrderMap) → FreshFrom n (keys m) → Distinct (keys (put_order n o m))
unfolding put_order
Distinct-put_order n o [] h = (tt, tt)
Distinct-put_order n o ((k, p) ∷ m) ((below, all_below), (hk, h)) = elim (Bool-cases (k == n)) [
  | inl e ↦ absurd (ground arith)
  | inr e ↦ rw e (
    All-put_order _ n o m (λ same. omega (arith, same)) hk,
    Distinct-put_order n o m (all_below, h),
  )
]

pub put_order-FreshFrom :
    (n : ℕ) (o : Order) (m : OrderMap)
    → FreshFrom n (keys m)
    → FreshFrom (n + 1) (keys (put_order n o m))
put_order-FreshFrom n o m h = (
  All-put_order _ n o m (omega arith) (All-imp (keys m) (λ k below. omega arith) h.0),
  Distinct-put_order n o m h,
)

-- The invariant, with a bound on the next ID.
abbrev pub FreshUpTo : ℕ → GlobalState → Type 0
FreshUpTo n s = (s.next_free_id ≤ n) × IsFresh s

pub FreshUpTo-mono : (m n : ℕ) (s : GlobalState) → m ≤ n → FreshUpTo m s → FreshUpTo n s
FreshUpTo-mono m n s le h = (omega (arith, le, h.0), h.1)

module _ {W : Type 0} (hooks : Hooks W) where
  pub run_refresh-FreshUpTo :
      (b : ℕ) (g : Global W) → FreshUpTo b g.state → Leaves (FreshUpTo b) (run_refresh hooks) g
  run_refresh-FreshUpTo b g h = record { holds = ready.holds.0 }
    where
      ready :
          Leaves
            (λ s. FreshUpTo b s × (s.next_free_id ≡ g.state.next_free_id))
            (run_refresh hooks)
            g
      ready =
          run_refresh-Keys hooks _ (FreshFrom g.state.next_free_id)
            (λ xs k ys f. (All-drop _ xs k ys f.0, Distinct-drop xs k ys f.1))
            (λ m s q f. ((q.0.0, subst (λ t. FreshFrom t (keys m)) (sym q.1) f), q.1)) g (h, refl)
            h.1

  pub add-FreshUpTo :
      (b : ℕ) (o : Order) (g : Global W)
      → b + 1 < 2 ^ 64
      → FreshUpTo b g.state
      → Leaves (FreshUpTo (b + 1)) (add hooks o) g
  unfolding add
  add-FreshUpTo b o g room h =
      let stay = FreshUpTo-mono b (b + 1) g.state (omega arith) h in
      Leaves-reads _ _ (
        Leaves-ask _ _ _ stay λ valid w e.
          Leaves-if valid _ _ _
            (λ _. Leaves-write _ _ _ (
              Leaves-bind _ _ _ (run_refresh-FreshUpTo (b + 1) _ (added g.state h))
                λ _ g' e q. Leaves-pure _ _ q))
            (λ _. Leaves-pure _ _ stay))
    where
      next :
          (s : GlobalState)
          → s.next_free_id ≤ b
          → (s.next_free_id + 1) % 2 ^ 64 ≡ s.next_free_id + 1
      next s le = omega (arith, room)

      added : (s : GlobalState) → FreshUpTo b s → FreshUpTo (b + 1) (add_order o s)
      added s (le, f) = (
        omega (arith, next s le, le),
        subst (λ n. FreshFrom n (keys (put_order s.next_free_id (without_owner o) s.own_orders)))
            (sym (next s le)) (put_order-FreshFrom s.next_free_id (without_owner o) s.own_orders f),
      )

  pub remove_by_id-FreshUpTo :
      (b id : ℕ) (g : Global W)
      → FreshUpTo b g.state
      → Leaves (FreshUpTo b) (remove_by_id hooks id) g
  unfolding remove_by_id
  remove_by_id-FreshUpTo b id g (le, (below, distinct)) = Leaves-write _ _ _ (
      run_refresh-FreshUpTo b _ (
        le,
        (
          All-erase_order _ id g.state.own_orders below,
          Distinct-erase_order id g.state.own_orders distinct,
        ),
      ))

  changed :
      (b id : ℕ) (f : Order → Order) (s : GlobalState)
      → FreshUpTo b s
      → FreshUpTo b (set_orders (change_order id f s.own_orders) s)
  changed b id f s (le, h) =
      (le, subst (FreshFrom s.next_free_id) (sym (keys-change_order id f s.own_orders)) h)

  lock_found-FreshUpTo :
      (b id : ℕ) (found : Option Order) (g : Global W)
      → FreshUpTo b g.state
      → Leaves (FreshUpTo b) (lock_found hooks id found) g
  unfolding lock_found
  lock_found-FreshUpTo b id none g h = Leaves-pure _ _ h
  lock_found-FreshUpTo b id (some o) g h =
      Leaves-if o.locked _ _ _ (λ _. Leaves-pure _ _ h)
        (λ _. Leaves-reads _ _ (
          Leaves-write _ _ _ (
            Leaves-bind _ _ _ (run_refresh-FreshUpTo b _ (changed b id (set_locked true) g.state h))
              λ _ g' e q. Leaves-pure _ _ q)))

  pub try_lock-FreshUpTo :
      (b id : ℕ) (g : Global W) → FreshUpTo b g.state → Leaves (FreshUpTo b) (try_lock hooks id) g
  unfolding try_lock
  try_lock-FreshUpTo b id g h = Leaves-reads _ _ (lock_found-FreshUpTo b id _ g h)

  pub unlock-FreshUpTo :
      (b id : ℕ) (g : Global W) → FreshUpTo b g.state → Leaves (FreshUpTo b) (unlock hooks id) g
  unfolding unlock
  unlock-FreshUpTo b id g h = Leaves-reads _ _ (
      Leaves-check _ _ _ h λ _. Leaves-check _ _ _ h λ _.
        Leaves-write _ _ _ (run_refresh-FreshUpTo b _ (changed b id (set_locked false) g.state h)))

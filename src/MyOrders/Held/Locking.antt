-- ===== src/MyOrders/Held/Locking.antt =====
-- TryLock and Unlock of myorders.cpp: what they do to the orders that are held.
use democrit_marketplace.Prelude.{
  ℕ, ◌<◌, ◌≡◌, ◌≢◌, refl, sym, subst, true, false, Option, none, some, List, [], ◌∷◌, All,
}
use democrit_marketplace.Exec.Rules.{
  Returns, Returns-bind, Returns-check, Returns-if, Returns-pure, Returns-elim,
}
use democrit_marketplace.Proto.{Order, OrderMap, GlobalState}
use democrit_marketplace.MyOrders.{
  Global, Hooks, set_orders, set_locked, lock_found, try_lock, unlock,
}
use democrit_marketplace.MyOrders.Orders.{find_order, change_order, keys, keys-change_order}
use democrit_marketplace.MyOrders.Refresh.{Returns-reads, Returns-write}
use democrit_marketplace.MyOrders.Ids.{FreshFrom}
use democrit_marketplace.MyOrders.Held.{IsHeld, Holds, SameRest, Holding, refreshed}
use democrit_marketplace.MyOrders.Entries.{change_order-All, find_order-All}

-- The order that TryLock gives out, which is held from then on.
pub record LockedNow (ids : List ℕ) (id n : ℕ) (o : Order) (s t : GlobalState) : Type 0 where
  pub new : All (λ (i : ℕ). i ≢ id) ids
  pub holds : Holds (id ∷ ids) n t
  pub same : SameRest s t
  pub owner : o.account ≡ some s.account
  pub its_id : o.id ≡ some id

module _ {W : Type 0} (hooks : Hooks W) where
  abbrev pub LockResult : List ℕ → ℕ → ℕ → GlobalState → Option Order → Global W → Type 0
  LockResult ids id n s none h = Holding hooks ids n s h
  LockResult ids id n s (some o) h = LockedNow ids id n o s h.state

  change_order-fresh :
      (b id : ℕ) (f : Order → Order) (m : OrderMap)
      → FreshFrom b (keys m)
      → FreshFrom b (keys (change_order id f m))
  change_order-fresh b id f m h = subst (FreshFrom b) (sym (keys-change_order id f m)) h

  -- A free order is not one of those held.
  free-new :
      (ids : List ℕ) (id : ℕ) (o : Order)
      → IsHeld ids (id, o)
      → o.locked ≡ false
      → All (λ (i : ℕ). i ≢ id) ids
  free-new [] id o h free = tt
  free-new (i ∷ ids) id o (held, h) free = (λ same. cc (held (sym same)), free-new ids id o h free)

  below_next :
      (b id : ℕ) (m : OrderMap) (o : Order)
      → All (λ (k : ℕ). k < b) (keys m)
      → find_order id m ≡ some o
      → id < b
  below_next b id m o h e = find_order-All (λ (x : ℕ × Order). x.0 < b) id m o (entries m h) e
    where
      entries :
          (m : OrderMap) → All (λ (k : ℕ). k < b) (keys m) → All (λ (x : ℕ × Order). x.0 < b) m
      entries [] h = tt
      entries ((k, p) ∷ m) (lt, h) = (lt, entries m h)

  locked_now :
      (ids : List ℕ) (n id : ℕ) (o : Order) (s : GlobalState)
      → Holds ids n s
      → find_order id s.own_orders ≡ some o
      → Holds (id ∷ ids) n (set_orders (change_order id (set_locked true) s.own_orders) s)
  locked_now ids n id o s h found = record {
    held =
        change_order-All (IsHeld ids) (IsHeld (id ∷ ids)) id (set_locked true) s.own_orders
          (λ p q. (λ same. refl, all_locked ids id p))
          (λ k p other q. (λ same. absurd (other same), q)) h.held;
    below = (below_next s.next_free_id id s.own_orders o h.fresh.0 found, h.below);
    fresh = change_order-fresh s.next_free_id id (set_locked true) s.own_orders h.fresh;
    bound = h.bound;
  }
    where
      all_locked : (ids : List ℕ) (k : ℕ) (p : Order) → IsHeld ids (k, set_locked true p)
      all_locked [] k p = tt
      all_locked (i ∷ ids) k p = (λ same. refl, all_locked ids k p)

  lock_found-Holding :
      (ids : List ℕ) (n id : ℕ) (found : Option Order) (g : Global W)
      → Holds ids n g.state
      → find_order id g.state.own_orders ≡ found
      → Returns
          (λ (r : Option Order). λ (h : Global W). LockResult ids id n g.state r h)
          (lock_found hooks id found)
          g
  unfolding lock_found
  lock_found-Holding ids n id none g h e = Returns-pure _ g (h, (refl, refl))
  lock_found-Holding ids n id (some o) g h e =
      Returns-if o.locked _ _ g (λ taken. Returns-pure _ g (h, (refl, refl)))
        (λ free. Returns-reads _ g (
          Returns-write _ _ g (
            Returns-bind _ _ _ λ u g' ran.
              let q =
                Returns-elim
                  (refreshed hooks (id ∷ ids) n
                    (λ s. set_orders (change_order id (set_locked true) s.own_orders) s) g
                    (refl, refl) (locked_now ids n id o g.state h e))
                  ran in
              Returns-pure _ g' (record {
                new =
                    free-new ids id o (find_order-All (IsHeld ids) id g.state.own_orders o h.held e)
                      free;
                holds = q.0;
                same = q.1;
                owner = refl;
                its_id = refl;
              }))))

  pub try_lock-Holding :
      (ids : List ℕ) (n id : ℕ) (g : Global W)
      → Holds ids n g.state
      → Returns
          (λ (r : Option Order). λ (h : Global W). LockResult ids id n g.state r h)
          (try_lock hooks id)
          g
  unfolding try_lock
  try_lock-Holding ids n id g h = Returns-reads _ g (lock_found-Holding ids n id _ g h refl)

  -- The order that is unlocked is not one of those held.
  unlocked :
      (ids : List ℕ) (n id : ℕ) (s : GlobalState)
      → All (λ (i : ℕ). i ≢ id) ids
      → Holds ids n s
      → Holds ids n (set_orders (change_order id (set_locked false) s.own_orders) s)
  unlocked ids n id s apart h = record {
    held =
        change_order-All (IsHeld ids) (IsHeld ids) id (set_locked false) s.own_orders
          (λ p q. none_held ids p apart) (λ k p other q. q) h.held;
    below = h.below;
    fresh = change_order-fresh s.next_free_id id (set_locked false) s.own_orders h.fresh;
    bound = h.bound;
  }
    where
      none_held :
          (ids : List ℕ) (p : Order)
          → All (λ (i : ℕ). i ≢ id) ids
          → IsHeld ids (id, set_locked false p)
      none_held [] p h = tt
      none_held (i ∷ ids) p (other, h) = (λ same. absurd (other (sym same)), none_held ids p h)

  pub unlock-Holding :
      (ids : List ℕ) (n id : ℕ) (g : Global W)
      → All (λ (i : ℕ). i ≢ id) ids
      → Holds ids n g.state
      → Returns (λ (u : Unit). λ (h : Global W). Holding hooks ids n g.state h) (unlock hooks id) g
  unfolding unlock
  unlock-Holding ids n id g apart h = Returns-reads _ g (
      Returns-check _ _ g λ there. Returns-check _ _ g λ locked. Returns-write _ _ g (
        refreshed hooks ids n (λ s. set_orders (change_order id (set_locked false) s.own_orders) s)
          g (refl, refl) (unlocked ids n id g.state apart h)))

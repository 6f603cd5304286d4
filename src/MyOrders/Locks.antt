-- ===== src/MyOrders/Locks.antt =====
-- An order is locked by one trade at a time.
use democrit_marketplace.Prelude.{
  ℕ, ◌≡◌, refl, true, false, Option, Option-cases, inl, inr, none, some, All, some-inj, sym,
}
use democrit_marketplace.Outcome.{ok, abort}
use democrit_marketplace.Exec.{◌>>=◌}
use democrit_marketplace.Exec.Rules.{Returns, Returns-elim, Returns-bind, Returns-if, Returns-pure}
use democrit_marketplace.Proto.{Order, OrderMap, GlobalState}
use democrit_marketplace.MyOrders.{
  Global, Hooks, set_locked, with_owner, remove_by_id, lock_found, try_lock, unlock,
}
use democrit_marketplace.MyOrders.Orders.{
  find_order, At, find_order-At, change_order-At, erase_order-At,
}
use democrit_marketplace.MyOrders.Refresh.{Returns-reads, Returns-write, run_refresh-Kept}

-- The order with this ID is locked, unless it is gone.
abbrev pub LockedOrGone : ℕ → GlobalState → Type 0
LockedOrGone id s = All (At id (λ o. o.locked ≡ true)) s.own_orders

-- What TryLock has done where it returns an order.
pub record Locked (id : ℕ) (o : Order) (before after : GlobalState) : Type 0 where
  pub order : Order
  pub found : find_order id before.own_orders ≡ some order
  pub free : order.locked ≡ false
  pub given : o ≡ with_owner before.account id order
  pub locked_or_gone : LockedOrGone id after

module _ {W : Type 0} (hooks : Hooks W) where
  lock_found-Locked :
      (id : ℕ) (g : Global W) (found : Option Order)
      → find_order id g.state.own_orders ≡ found
      → Returns
          (λ r h. (o : Order) → r ≡ some o → Locked id o g.state h.state)
          (lock_found hooks id found)
          g
  unfolding lock_found
  lock_found-Locked id g none e = Returns-pure _ _ (λ o h. cc)
  lock_found-Locked id g (some p) e =
      Returns-if p.locked _ _ _ (λ _. Returns-pure _ _ (λ o h. cc))
        (λ free. Returns-reads _ _ (
          Returns-write _ _ _ (
            Returns-bind _ _ _ λ _ g' ran. Returns-pure _ _ λ o h. record {
              order = p;
              found = e;
              free = free;
              given = sym (some-inj h);
              locked_or_gone =
                  Returns-elim
                    (run_refresh-Kept hooks _ _ (
                      change_order-At id (λ q. q.locked ≡ true) (set_locked true) g.state.own_orders
                        (λ _. refl)))
                    ran;
            })))

  -- Where TryLock returns an order, it is the order with the ID, which was there and not locked,
  -- with the account and the ID filled in; and afterwards the order is locked or has been dropped.
  pub try_lock-Locked :
      (id : ℕ) (g : Global W) {g' : Global W} {o : Order}
      → try_lock hooks id g ≡ (ok (some o), g')
      → Locked id o g.state g'.state
  unfolding try_lock
  try_lock-Locked id g {o} h =
      Returns-elim {Q = λ r g'. (o : Order) → r ≡ some o → Locked id o g.state g'.state}
        (Returns-reads _ _ (lock_found-Locked id g _ refl)) h o refl

  refuses :
      (id : ℕ) (g : Global W) (found : Option Order)
      → ((o : Order) → found ≡ some o → o.locked ≡ true)
      → lock_found hooks id found g ≡ (ok none, g)
  unfolding ◌>>=◌ lock_found
  refuses id g none h = refl
  refuses id g (some o) h = rw (h o refl) refl

  -- Where TryLock has returned an order, another TryLock of the same ID returns false and changes
  -- nothing, in any world.
  pub try_lock-Exclusive :
      (id : ℕ) (g : Global W) (w : W) {g' : Global W} {o : Order}
      → try_lock hooks id g ≡ (ok (some o), g')
      → try_lock hooks id (record g' { world = w }) ≡ (ok none, record g' { world = w })
  unfolding ◌>>=◌ try_lock
  try_lock-Exclusive id g w {g'} h =
      refuses id (record g' { world = w }) (find_order id g'.state.own_orders)
        (λ p e. find_order-At id _ g'.state.own_orders p (try_lock-Locked id g h).locked_or_gone e)

  gone-abort :
      (id : ℕ) (g : Global W)
      → find_order id g.state.own_orders ≡ none
      → unlock hooks id g ≡ (abort, g)
  unfolding ◌>>=◌ unlock
  gone-abort id g h = rw h refl

  nothing_found : (id : ℕ) (m : OrderMap) → All (At id (λ _. ⊥)) m → find_order id m ≡ none
  nothing_found id m h = elim (Option-cases (find_order id m)) [
    | inl e ↦ e
    | inr (o, e) ↦ absurd (find_order-At id (λ _. ⊥) m o h e)
  ]

  -- Where RemoveById has returned, Unlock of the same ID aborts the process, in any world, whether or
  -- not the order was locked when it was removed.
  pub unlock-remove_by_id :
      (id : ℕ) (g : Global W) (w : W) {g' : Global W}
      → remove_by_id hooks id g ≡ (ok tt, g')
      → unlock hooks id (record g' { world = w }) ≡ (abort, record g' { world = w })
  unfolding remove_by_id
  unlock-remove_by_id id g w {g'} h =
      gone-abort id (record g' { world = w })
        (nothing_found id g'.state.own_orders (
          Returns-elim
            (Returns-write _ _ _
              (run_refresh-Kept hooks _ _ (erase_order-At id (λ _. ⊥) g.state.own_orders)))
            h))

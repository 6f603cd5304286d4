-- ===== src/MyOrders/Held.antt =====
-- Orders that are held for trades: each is locked, unless it has been dropped, whatever is done to the
-- others.
pub mod Locking
use democrit_marketplace.Prelude.{
  ℕ, ◌+◌, ◌%◌, ◌^◌, ◌≤◌, ◌<◌, ◌≡◌, ◌≢◌, refl, sym, subst, ap, ◌∙◌, Bool, true, false, Option, none,
  some, List, [], ◌∷◌, ◌++◌, All, ◌==◌, ==_iff, Bool-cases, inl, inr, arith, is_some, get_or,
  if◌then◌else◌, some-inj, Option-cases,
}
use democrit_marketplace.Exec.{Exec, pure, ◌>>=◌, ◌>>◌}
use democrit_marketplace.Exec.Rules.{
  Returns, Returns-bind, Returns-check, Returns-if, Returns-pure, Returns-elim, Returns-map, WhenOk,
}
use democrit_marketplace.Outcome.{Outcome, ok, raise, abort}
use democrit_marketplace.Proto.{Order, OrderMap, TradeState, GlobalState, empty_order}
use democrit_marketplace.MyOrders.{
  Global, Hooks, set_orders, set_locked, without_owner, with_owner, add_order, run_refresh, add,
  remove_by_id, lock_found, try_lock, unlock, outside, write, read,
}
use democrit_marketplace.MyOrders.Orders.{
  find_order, put_order, change_order, erase_order, keys, keys-change_order, At, find_order-At,
}
use democrit_marketplace.MyOrders.Refresh.{
  Leaves, Leaves-elim, Returns-reads, Returns-write, Returns-outside, run_refresh-Kept,
  run_refresh-Keys,
}
use democrit_marketplace.MyOrders.Ids.{
  Distinct, FreshFrom, Distinct-drop, All-drop, All-imp, All-erase_order, Distinct-erase_order,
  put_order-FreshFrom,
}
use democrit_marketplace.MyOrders.Entries.{erase_order-All, put_order-All}

-- An entry that is locked if it is one of these.
abbrev pub IsHeld : List ℕ → ℕ × Order → Type 0
IsHeld ids e = All (λ (i : ℕ). e.0 ≡ i → e.1.locked ≡ true) ids

-- The orders with these IDs are locked or gone, and will not be used again: `n` bounds the next ID.
pub record Holds (ids : List ℕ) (n : ℕ) (s : GlobalState) : Type 0 where
  pub held : All (IsHeld ids) s.own_orders
  pub below : All (λ (i : ℕ). i < s.next_free_id) ids
  pub fresh : FreshFrom s.next_free_id (keys s.own_orders)
  pub bound : s.next_free_id ≤ n

-- What the calls of MyOrders leave of the rest.
abbrev pub SameRest : GlobalState → GlobalState → Type 0
SameRest s t = (t.account ≡ s.account) × (t.trades ≡ s.trades)

pub Returns-and :
    {W A : Type 0} {P : Global W → Type 0} {Q : GlobalState → Type 0} (m : Exec (Global W) A)
    (g : Global W)
    → Returns (λ (a : A). λ (h : Global W). P h) m g
    → Leaves Q m g
    → Returns (λ (a : A). λ (h : Global W). P h × Q h.state) m g
Returns-and {W} {A} {P} {Q} m g r l = go (m g) refl
  where
    go :
        (x : Outcome A × Global W)
        → m g ≡ x
        → Returns (λ (a : A). λ (h : Global W). P h × Q h.state) m g
    go (ok a, h) e = record { holds = rw e (Returns-elim r e, Leaves-elim l e) }
    go (raise, h) e = record { holds = rw e tt }
    go (abort, h) e = record { holds = rw e tt }

module _ {W : Type 0} (hooks : Hooks W) where
  -- After a call that has returned.
  abbrev pub Holding : List ℕ → ℕ → GlobalState → Global W → Type 0
  Holding ids n s h = Holds ids n h.state × SameRest s h.state

  Fixed : GlobalState → GlobalState → Type 0
  Fixed s t =
      (t.next_free_id ≡ s.next_free_id)
      × FreshFrom s.next_free_id (keys t.own_orders)
      × SameRest s t

  refresh-Fixed :
      (g : Global W)
      → FreshFrom g.state.next_free_id (keys g.state.own_orders)
      → Leaves (Fixed g.state) (run_refresh hooks) g
  unfolding Fixed
  refresh-Fixed g h =
      run_refresh-Keys hooks (Fixed g.state) (FreshFrom g.state.next_free_id)
        (λ xs k ys f. (All-drop _ xs k ys f.0, Distinct-drop xs k ys f.1))
        (λ m s q f. (q.0, f, q.2)) g (refl, h, (refl, refl)) h

  pub run_refresh-Holding :
      (ids : List ℕ) (n : ℕ) (g : Global W)
      → Holds ids n g.state
      → Returns (λ (u : Unit). λ (h : Global W). Holding ids n g.state h) (run_refresh hooks) g
  unfolding Fixed
  run_refresh-Holding ids n g h =
      Returns-map
        (λ (u : Unit). λ (t : Global W). λ q. (
          record {
            held = q.0;
            below = subst (λ (b : ℕ). All (λ (i : ℕ). i < b) ids) (sym q.1.0) h.below;
            fresh = subst (λ (b : ℕ). FreshFrom b (keys t.state.own_orders)) (sym q.1.0) q.1.1;
            bound = subst (λ (b : ℕ). b ≤ n) (sym q.1.0) h.bound;
          },
          q.1.2,
        ))
        (Returns-and (run_refresh hooks) g (run_refresh-Kept hooks (IsHeld ids) g h.held)
          (refresh-Fixed g h.fresh))

  -- After a write, and the refresh that follows it.
  pub refreshed :
      (ids : List ℕ) (n : ℕ) (u : GlobalState → GlobalState) (g : Global W)
      → SameRest g.state (u g.state)
      → Holds ids n (u g.state)
      → Returns
          (λ (x : Unit). λ (h : Global W). Holding ids n g.state h)
          (run_refresh hooks)
          (record g { state = u g.state })
  refreshed ids n u g same h =
      Returns-map (λ (x : Unit). λ (t : Global W). λ q. (q.0, (q.1.0 ∙ same.0, q.1.1 ∙ same.1)))
        (run_refresh-Holding ids n (record g { state = u g.state }) h)

  pub remove_by_id-Holding :
      (ids : List ℕ) (n id : ℕ) (g : Global W)
      → Holds ids n g.state
      → Returns (λ (x : Unit). λ (h : Global W). Holding ids n g.state h) (remove_by_id hooks id) g
  unfolding remove_by_id
  remove_by_id-Holding ids n id g h = Returns-write _ _ g (
      refreshed ids n (λ s. set_orders (erase_order id s.own_orders) s) g (refl, refl)
        (record {
          held = erase_order-All (IsHeld ids) id g.state.own_orders h.held;
          below = h.below;
          fresh = (
            All-erase_order _ id g.state.own_orders h.fresh.0,
            Distinct-erase_order id g.state.own_orders h.fresh.1,
          );
          bound = h.bound;
        }))

  -- None of the held orders has the next ID.
  new-IsHeld : (ids : List ℕ) (n : ℕ) (o : Order) → All (λ (i : ℕ). i < n) ids → IsHeld ids (n, o)
  new-IsHeld [] n o h = tt
  new-IsHeld (i ∷ ids) n o (lt, h) =
      (λ same. absurd (omega (arith, lt, same)), new-IsHeld ids n o h)

  added :
      (ids : List ℕ) (n : ℕ) (o : Order) (s : GlobalState)
      → n + 1 < 2 ^ 64
      → Holds ids n s
      → Holds ids (n + 1) (add_order o s)
  added ids n o s room h =
      let le = h.bound in
      let next : (s.next_free_id + 1) % 2 ^ 64 ≡ s.next_free_id + 1 = omega (arith, le, room) in
      record {
        held =
            put_order-All (IsHeld ids) s.next_free_id (without_owner o) s.own_orders
              (new-IsHeld ids s.next_free_id (without_owner o) h.below) h.held;
        below = All-imp ids (λ i lt. omega (arith, next, lt)) h.below;
        fresh =
            subst
              (λ (b : ℕ).
                FreshFrom b (keys (put_order s.next_free_id (without_owner o) s.own_orders)))
              (sym next)
              (put_order-FreshFrom s.next_free_id (without_owner o) s.own_orders h.fresh);
        bound = omega (arith, next, le);
      }

  pub Holds-mono :
      (ids : List ℕ) (m n : ℕ) (s : GlobalState) → m ≤ n → Holds ids m s → Holds ids n s
  Holds-mono ids m n s le h = record {
    held = h.held;
    below = h.below;
    fresh = h.fresh;
    bound = omega (arith, le, h.bound);
  }

  pub add-Holding :
      (ids : List ℕ) (n : ℕ) (o : Order) (g : Global W)
      → n + 1 < 2 ^ 64
      → Holds ids n g.state
      → Returns (λ (x : Bool). λ (h : Global W). Holding ids (n + 1) g.state h) (add hooks o) g
  unfolding add
  add-Holding ids n o g room h =
      let stay = Holds-mono ids n (n + 1) g.state (omega arith) h in
      Returns-reads _ g (
        Returns-outside _ _ g λ valid w e.
          Returns-if valid _ _ _
            (λ accepted. Returns-write _ _ _ (
              Returns-bind _ _ _ λ u h' ran. Returns-pure true h' (
                Returns-elim
                  (refreshed ids (n + 1) (add_order o) (record g { world = w }) (refl, refl)
                    (added ids n o g.state room h))
                  ran)))
            (λ refused. Returns-pure false _ (stay, (refl, refl))))

-- ===== src/Manager/Sales/Steps.antt =====
-- The calls of TradeManager and MyOrders one after another, as the daemon makes them.
use democrit_marketplace.Prelude.{ℕ, ◌+◌, ◌^◌, ◌<◌, ◌≡◌, ap, [], ◌∷◌, All, length, arith}
use democrit_marketplace.Prelude.Int.{ℤ}
use democrit_marketplace.Outcome.{ok}
use democrit_marketplace.Exec.{Exec}
use democrit_marketplace.Exec.Rules.{Returns, Returns-elim}
use democrit_marketplace.Proto.{Order, OrderMap, ProcessingMessage, GlobalState}
use democrit_marketplace.Services.{Services}
use democrit_marketplace.MyOrders.{Global, Hooks, run_refresh, add, remove_by_id}
use democrit_marketplace.MyOrders.Ids.{Distinct, IsFresh}
use democrit_marketplace.MyOrders.Held.{
  IsHeld, Holding, run_refresh-Holding, remove_by_id-Holding, add-Holding,
}
use democrit_marketplace.Manager.{update_and_archive_trades}
use democrit_marketplace.Manager.Negotiation.{take_order, process_message}
use democrit_marketplace.Manager.Sales.{own_ids, ids_of, IsSoldOnce}
use democrit_marketplace.Manager.Sales.{IsSoldOnce-same, IsSoldOnce-by}
use democrit_marketplace.Manager.Sales.Taking.{process_message-IsSoldOnce}
use democrit_marketplace.Manager.Sales.Buying.{take_order-IsSoldOnce}
use democrit_marketplace.Manager.Sales.Ending.{update_and_archive_trades-IsSoldOnce}

-- What the daemon does with the user's orders and the trades.
pub data Action : Type 0 where
  refreshing updating : Action
  adding : Order → Action
  removing : ℕ → Action
  receiving : ProcessingMessage → Action
  taking : Order → ℤ → Action

module _ {W : Type 0} where
  -- The call has returned and left this.
  abbrev Returned : {A : Type 0} → Exec (Global W) A → Global W → Global W → Type 0
  Returned {A} m g h = (a : A) × (m g ≡ (ok a, h))

module _ {W : Type 0} (sv : Services W) (hooks : Hooks W) where
  abbrev pub Done : Action → Global W → Global W → Type 0
  Done refreshing = Returned (run_refresh hooks)
  Done updating = Returned (update_and_archive_trades sv hooks)
  Done (adding o) = Returned (add hooks o)
  Done (removing id) = Returned (remove_by_id hooks id)
  Done (receiving msg) = Returned (process_message sv hooks msg)
  Done (taking o units) = Returned (take_order sv hooks o units)

-- The user's orders that are traded are different ones, and are locked if they are still there.
abbrev pub IsExclusive : GlobalState → Type 0
IsExclusive s = Distinct (ids_of s) × All (IsHeld (ids_of s)) s.own_orders

-- The IDs that one call may use up are left.
abbrev pub HasRoom : GlobalState → Type 0
HasRoom s = s.next_free_id + length s.trades + 1 < 2 ^ 64

-- What calls that have returned lead to from a state without trades. The outside may change at will
-- between two of them.
pub data Reached {W : Type 0} (sv : Services W) (hooks : Hooks W) : Global W → Type 0 where
  begins : {g : Global W} → g.state.trades ≡ [] → IsFresh g.state → Reached sv hooks g
  does :
      {g h : Global W} (w : W) (a : Action)
      → HasRoom g.state
      → Done sv hooks a (record g { world = w }) h
      → Reached sv hooks g
      → Reached sv hooks h

-- With the least bound.
IsSoldOnce-now : (n : ℕ) (s : GlobalState) → IsSoldOnce n s → IsSoldOnce s.next_free_id s
IsSoldOnce-now n s sold = record {
  distinct = sold.distinct;
  holds = record {
    held = sold.holds.held;
    below = sold.holds.below;
    fresh = sold.holds.fresh;
    bound = omega arith;
  };
}

no_trades-IsSoldOnce : (s : GlobalState) → s.trades ≡ [] → IsFresh s → IsSoldOnce s.next_free_id s
unfolding own_ids
no_trades-IsSoldOnce s none fresh =
    IsSoldOnce-by [] s.next_free_id s (ap (own_ids s.account) none) tt
      (record { held = all s.own_orders; below = tt; fresh = fresh; bound = omega arith })
  where
    all : (m : OrderMap) → All (IsHeld []) m
    all [] = tt
    all (e ∷ m) = (tt, all m)

module _ {W : Type 0} (sv : Services W) (hooks : Hooks W) where
  -- The calls of MyOrders.
  Holding-IsSoldOnce :
      {A : Type 0} (m : Exec (Global W) A) (n : ℕ) (g h : Global W)
      → IsSoldOnce g.state.next_free_id g.state
      → Returns (λ (a : A). λ (k : Global W). Holding hooks (ids_of g.state) n g.state k) m g
      → Returned m g h
      → IsSoldOnce h.state.next_free_id h.state
  Holding-IsSoldOnce m n g h sold r (a, ran) =
      let q = Returns-elim r ran in
      IsSoldOnce-now n h.state (IsSoldOnce-same n g.state h.state q.1 sold.distinct q.0)

  -- The calls of TradeManager.
  Returned-IsSoldOnce :
      {A : Type 0} (m : Exec (Global W) A) (n : ℕ) (g h : Global W)
      → Returns (λ (a : A). λ (k : Global W). IsSoldOnce n k.state) m g
      → Returned m g h
      → IsSoldOnce h.state.next_free_id h.state
  Returned-IsSoldOnce m n g h r (a, ran) = IsSoldOnce-now n h.state (Returns-elim r ran)

  Done-IsSoldOnce :
      (a : Action) (g h : Global W)
      → HasRoom g.state
      → Done sv hooks a g h
      → IsSoldOnce g.state.next_free_id g.state
      → IsSoldOnce h.state.next_free_id h.state
  Done-IsSoldOnce refreshing g h room d sold =
      Holding-IsSoldOnce (run_refresh hooks) g.state.next_free_id g h sold
        (run_refresh-Holding hooks (ids_of g.state) g.state.next_free_id g sold.holds) d
  Done-IsSoldOnce (adding o) g h room d sold =
      Holding-IsSoldOnce (add hooks o) (g.state.next_free_id + 1) g h sold
        (add-Holding hooks (ids_of g.state) g.state.next_free_id o g (omega (arith, room))
          sold.holds)
        d
  Done-IsSoldOnce (removing id) g h room d sold =
      Holding-IsSoldOnce (remove_by_id hooks id) g.state.next_free_id g h sold
        (remove_by_id-Holding hooks (ids_of g.state) g.state.next_free_id id g sold.holds) d
  Done-IsSoldOnce updating g h room d sold =
      Returned-IsSoldOnce (update_and_archive_trades sv hooks)
        (g.state.next_free_id + length g.state.trades) g h
        (update_and_archive_trades-IsSoldOnce sv hooks g.state.next_free_id g (omega (arith, room))
          sold)
        d
  Done-IsSoldOnce (receiving msg) g h room d sold =
      Returned-IsSoldOnce (process_message sv hooks msg) g.state.next_free_id g h
        (process_message-IsSoldOnce sv hooks msg g.state.next_free_id g sold) d
  Done-IsSoldOnce (taking o units) g h room d sold =
      Returned-IsSoldOnce (take_order sv hooks o units) g.state.next_free_id g h
        (take_order-IsSoldOnce sv hooks o units g.state.next_free_id g sold) d

  Reached-IsSoldOnce : (g : Global W) → Reached sv hooks g → IsSoldOnce g.state.next_free_id g.state
  Reached-IsSoldOnce g (begins none fresh) = no_trades-IsSoldOnce g.state none fresh
  Reached-IsSoldOnce h (does {g} w a room d r) =
      Done-IsSoldOnce a (record g { world = w }) h room d (Reached-IsSoldOnce g r)

  -- From a state without trades, in which the IDs of the user's orders are different and below the next
  -- free one, let any sequence of these calls be made, in any worlds, each of which returns, and while
  -- the 64 bits of the next ID are not used up: orders are added, removed and refreshed, messages are
  -- processed, orders are taken, and trades are updated and archived. Then the trades in the list that
  -- are about the user's own orders are about different orders, and each of those orders that is still
  -- there is locked.
  pub Reached-IsExclusive : (g : Global W) → Reached sv hooks g → IsExclusive g.state
  Reached-IsExclusive g r = let sold = Reached-IsSoldOnce g r in (sold.distinct, sold.holds.held)

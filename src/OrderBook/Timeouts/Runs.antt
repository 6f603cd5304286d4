-- ===== src/OrderBook/Timeouts/Runs.antt =====
-- The book in any sequence of updates and timeouts.
use democrit_marketplace.Prelude.{
  ℕ, ◌+◌, ◌≤◌, ◌≡◌, refl, true, is_some, get_or, List, [], ◌∷◌, ◌++◌, All-append, Bytes, arith,
}
use democrit_marketplace.Exec.{modify}
use democrit_marketplace.Exec.Rules.{Ends, Ends-check}
use democrit_marketplace.Proto.{OrdersOfAccount, OrderMap}
use democrit_marketplace.OrderBook.{
  Accounts, UpdateEvent, OrderBook, all_have_fields, store_orders, update_orders, run_timeout,
}
use democrit_marketplace.OrderBook.Kept.{put_account-All, erase_account-All, timeout_loop-All}
use democrit_marketplace.Outcome.{ok}
use democrit_marketplace.Proto.{OrderbookForAsset}
use democrit_marketplace.OrderBook.ByAsset.{get_for_asset}
use democrit_marketplace.OrderBook.ByAsset.Offered.{IsComplete, Offered, get_for_asset-Offered}
use democrit_marketplace.OrderBook.Timeouts.{
  fresh_only, AllNoted, Ascending, Until, Noted-append, Noted-last, timeout_loop-Left,
}

-- What holds of the book at the time `now`: each account's last update is in the queue, which is in
-- order and has no event of the future.
pub record WellTimed (now : ℕ) (b : OrderBook) : Type 0 where
  pub noted : AllNoted b.updates b.orders
  pub ascending : Ascending 0 b.updates
  pub until : Until now b.updates

Ascending-append :
    (t now : ℕ) (q : List UpdateEvent) (e : UpdateEvent)
    → Ascending t q
    → Until now q
    → e.time ≡ now
    → t ≤ now
    → Ascending t (q ++ e ∷ [])
Ascending-append t now [] e asc u x le = (omega (arith, x, le), tt)
Ascending-append t now (f ∷ q) e asc u x le =
    (asc.0, Ascending-append f.time now q e asc.1 u.1 x u.0)

Until-mono : (m n : ℕ) (q : List UpdateEvent) → m ≤ n → Until m q → Until n q
Until-mono m n [] h u = tt
Until-mono m n (e ∷ q) h u = (omega (arith, h, u.0), Until-mono m n q h u.1)

AllNoted-append : (q r : List UpdateEvent) (as_ : Accounts) → AllNoted q as_ → AllNoted (q ++ r) as_
AllNoted-append q r [] h = tt
AllNoted-append q r ((i, a) ∷ as_) (hk, h) = (Noted-append i a q r hk, AllNoted-append q r as_ h)

store_orders-WellTimed :
    (now : ℕ) (k : Bytes) (os : OrderMap) (b : OrderBook)
    → WellTimed now b
    → WellTimed now (store_orders now k os b)
unfolding store_orders
store_orders-WellTimed now k [] b h = record {
  noted = erase_account-All _ k b.orders h.noted;
  ascending = h.ascending;
  until = h.until;
}
store_orders-WellTimed now k (o ∷ os) b h = record {
  noted =
      put_account-All _ k _ b.orders (Noted-last k _ b.updates _ refl refl)
        (AllNoted-append b.updates _ b.orders h.noted);
  ascending = Ascending-append 0 now b.updates _ h.ascending h.until refl (omega arith);
  until = All-append _ b.updates _ h.until (omega arith, tt);
}

update_orders-WellTimed :
    (now : ℕ) (upd : OrdersOfAccount) (b : OrderBook)
    → WellTimed now b
    → WellTimed now (update_orders now upd b).1
unfolding update_orders modify
update_orders-WellTimed now upd b h =
    (Ends-check {Q = WellTimed now} (is_some upd.account) _ b h
      λ _. Ends-check {Q = WellTimed now} (all_have_fields upd.orders) _ b h λ _. changed).holds
  where
    changed : Ends (WellTimed now) (modify (store_orders now (get_or upd.account []) upd.orders)) b
    changed = record { holds = store_orders-WellTimed now (get_or upd.account []) upd.orders b h }

store_orders-IsComplete :
    (now : ℕ) (k : Bytes) (os : OrderMap) (b : OrderBook)
    → all_have_fields os ≡ true
    → IsComplete b.orders
    → IsComplete (store_orders now k os b).orders
unfolding store_orders
store_orders-IsComplete now k [] b good h = erase_account-All _ k b.orders h
store_orders-IsComplete now k (o ∷ os) b good h = put_account-All _ k _ b.orders good h

update_orders-IsComplete :
    (now : ℕ) (upd : OrdersOfAccount) (b : OrderBook)
    → IsComplete b.orders
    → IsComplete (update_orders now upd b).1.orders
unfolding update_orders modify
update_orders-IsComplete now upd b h =
    (Ends-check {Q = λ (c : OrderBook). IsComplete c.orders} (is_some upd.account) _ b h λ _.
      Ends-check {Q = λ (c : OrderBook). IsComplete c.orders} (all_have_fields upd.orders) _ b h
        λ good. changed good).holds
  where
    changed :
        all_have_fields upd.orders ≡ true
        → Ends
            (λ (c : OrderBook). IsComplete c.orders)
            (modify (store_orders now (get_or upd.account []) upd.orders))
            b
    changed good = record {
      holds = store_orders-IsComplete now (get_or upd.account []) upd.orders b good h;
    }

-- What is done to the book, at a time of the clock.
pub data Step : Type 0 where
  update : OrdersOfAccount → Step
  tick : Step

module _ (timeout : ℕ) where
  abbrev pub after_step : ℕ → Step → OrderBook → OrderBook
  after_step now (update upd) b = (update_orders now upd b).1
  after_step now tick b = run_timeout timeout now b

  -- The times are given by how much later each is.
  abbrev pub run_steps : ℕ → List (ℕ × Step) → OrderBook → OrderBook
  run_steps now [] b = b
  run_steps now ((d, s) ∷ ss) b = run_steps (now + d) ss (after_step (now + d) s b)

  abbrev pub end_time : ℕ → List (ℕ × Step) → ℕ
  end_time now [] = now
  end_time now ((d, s) ∷ ss) = end_time (now + d) ss

  later : (now d : ℕ) (b : OrderBook) → WellTimed now b → WellTimed (now + d) b
  later now d b h = record {
    noted = h.noted;
    ascending = h.ascending;
    until = Until-mono now (now + d) b.updates (omega arith) h.until;
  }

  run_timeout-WellTimed :
      (now : ℕ) (b : OrderBook) → WellTimed now b → WellTimed now (run_timeout timeout now b)
  unfolding run_timeout
  run_timeout-WellTimed now b h =
      let left = timeout_loop-Left timeout now b.updates 0 b.orders h.ascending h.noted in
      record { noted = left.noted; ascending = left.ascending; until = left.until now h.until }

  step-WellTimed :
      (now : ℕ) (s : Step) (b : OrderBook) → WellTimed now b → WellTimed now (after_step now s b)
  step-WellTimed now (update upd) b h = update_orders-WellTimed now upd b h
  step-WellTimed now tick b h = run_timeout-WellTimed now b h

  run_steps-WellTimed :
      (now : ℕ) (ss : List (ℕ × Step)) (b : OrderBook)
      → WellTimed now b
      → WellTimed (end_time now ss) (run_steps now ss b)
  run_steps-WellTimed now [] b h = h
  run_steps-WellTimed now ((d, s) ∷ ss) b h =
      run_steps-WellTimed (now + d) ss _ (step-WellTimed (now + d) s b (later now d b h))

  -- After any sequence of updates and timeouts from an empty book, with a clock that does not go
  -- back, RunTimeout leaves exactly the accounts whose last update is not older than the timeout.
  pub run_timeout-exact :
      (start : ℕ) (ss : List (ℕ × Step))
      → (run_timeout timeout
          (end_time start ss)
          (run_steps start ss (record { orders = []; updates = [] }))).orders
        ≡ fresh_only timeout
            (end_time start ss)
            (run_steps start ss (record { orders = []; updates = [] })).orders
  unfolding run_timeout
  run_timeout-exact start ss =
      let h =
        run_steps-WellTimed start ss (record { orders = []; updates = [] })
          (record { noted = tt; ascending = tt; until = tt }) in
      (timeout_loop-Left timeout (end_time start ss) _ 0 _ h.ascending h.noted).exact

  step-IsComplete :
      (now : ℕ) (s : Step) (b : OrderBook)
      → IsComplete b.orders
      → IsComplete (after_step now s b).orders
  unfolding run_timeout
  step-IsComplete now (update upd) b h = update_orders-IsComplete now upd b h
  step-IsComplete now tick b h = timeout_loop-All _ timeout now b.updates b.orders h

  run_steps-IsComplete :
      (now : ℕ) (ss : List (ℕ × Step)) (b : OrderBook)
      → IsComplete b.orders
      → IsComplete (run_steps now ss b).orders
  run_steps-IsComplete now [] b h = h
  run_steps-IsComplete now ((d, s) ∷ ss) b h =
      run_steps-IsComplete (now + d) ss _ (step-IsComplete (now + d) s b h)

  -- After any sequence of updates and timeouts from an empty book, however each ends, GetForAsset
  -- returns, and the bids and asks are those of all accounts for the asset, sorted by price.
  pub run_steps-Offered :
      (start : ℕ) (ss : List (ℕ × Step)) (asset : Bytes)
      → (e : OrderbookForAsset) × (get_for_asset asset
            (run_steps start ss (record { orders = []; updates = [] })).orders
          ≡ ok e)
        × Offered (run_steps start ss (record { orders = []; updates = [] })).orders asset e
  run_steps-Offered start ss asset =
      get_for_asset-Offered (run_steps start ss (record { orders = []; updates = [] })).orders
        (run_steps-IsComplete start ss _ tt) asset

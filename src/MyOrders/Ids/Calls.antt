-- ===== src/MyOrders/Ids/Calls.antt =====
-- Any sequence of calls of MyOrders.
use democrit_marketplace.Prelude.{ℕ, ◌+◌, ◌^◌, ◌<◌, List, [], ◌∷◌, length, arith}
use democrit_marketplace.Proto.{Order}
use democrit_marketplace.MyOrders.{Global, Hooks, run_refresh, add, remove_by_id, try_lock, unlock}
use democrit_marketplace.MyOrders.Ids.{
  IsFresh, FreshUpTo, FreshUpTo-mono, run_refresh-FreshUpTo, add-FreshUpTo, remove_by_id-FreshUpTo,
  try_lock-FreshUpTo, unlock-FreshUpTo,
}

-- The calls of MyOrders.
pub data Call : Type 0 where
  refreshing : Call
  adding : Order → Call
  removing locking unlocking : ℕ → Call

module _ {W : Type 0} (hooks : Hooks W) where
  abbrev pub after_call : Call → Global W → Global W
  after_call refreshing g = (run_refresh hooks g).1
  after_call (adding o) g = (add hooks o g).1
  after_call (removing id) g = (remove_by_id hooks id g).1
  after_call (locking id) g = (try_lock hooks id g).1
  after_call (unlocking id) g = (unlock hooks id g).1

  -- The outside may change at will between two calls.
  abbrev pub run_calls : List (W × Call) → Global W → Global W
  run_calls [] g = g
  run_calls ((w, c) ∷ cs) g = run_calls cs (after_call c (record g { world = w }))

  after_call-FreshUpTo :
      (b : ℕ) (c : Call) (g : Global W)
      → b + 1 < 2 ^ 64
      → FreshUpTo b g.state
      → FreshUpTo (b + 1) (after_call c g).state
  after_call-FreshUpTo b refreshing g room h =
      FreshUpTo-mono b (b + 1) (run_refresh hooks g).1.state (omega arith)
        (run_refresh-FreshUpTo hooks b g h).holds
  after_call-FreshUpTo b (adding o) g room h = (add-FreshUpTo hooks b o g room h).holds
  after_call-FreshUpTo b (removing id) g room h =
      FreshUpTo-mono b (b + 1) (remove_by_id hooks id g).1.state (omega arith)
        (remove_by_id-FreshUpTo hooks b id g h).holds
  after_call-FreshUpTo b (locking id) g room h =
      FreshUpTo-mono b (b + 1) (try_lock hooks id g).1.state (omega arith)
        (try_lock-FreshUpTo hooks b id g h).holds
  after_call-FreshUpTo b (unlocking id) g room h =
      FreshUpTo-mono b (b + 1) (unlock hooks id g).1.state (omega arith)
        (unlock-FreshUpTo hooks b id g h).holds

  run_calls-FreshUpTo :
      (b : ℕ) (cs : List (W × Call)) (g : Global W)
      → b + length cs < 2 ^ 64
      → FreshUpTo b g.state
      → IsFresh (run_calls cs g).state
  run_calls-FreshUpTo b [] g room h = h.1
  run_calls-FreshUpTo b ((w, c) ∷ cs) g room h =
      run_calls-FreshUpTo (b + 1) cs (after_call c (record g { world = w })) (omega (arith, room))
        (after_call-FreshUpTo b c (record g { world = w }) (omega (arith, room)) h)

  -- Over any sequence of calls, in any worlds and however each ends, in which the 64 bits of the
  -- next ID are not used up: if the IDs in use were different and below the next free one, they
  -- still are.
  pub run_calls-IsFresh :
      (cs : List (W × Call)) (g : Global W)
      → g.state.next_free_id + length cs < 2 ^ 64
      → IsFresh g.state
      → IsFresh (run_calls cs g).state
  run_calls-IsFresh cs g room h =
      run_calls-FreshUpTo g.state.next_free_id cs g room (omega arith, h)

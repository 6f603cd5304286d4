-- ===== src/Manager/Sales/Ending.antt =====
-- UpdateAndArchiveTrades of trades.cpp: the orders of the trades that end are removed or released, and
-- those of the others stay held.
use democrit_marketplace.Prelude.{
  ℕ, ◌+◌, ◌<◌, ◌^◌, ◌≡◌, refl, sym, subst, ap, ◌∙◌, get_or, is_some, not, List, [], ◌∷◌, ◌++◌,
  length, append_assoc, Bytes, ltb, leb, ◌&&◌, arith,
}
use democrit_marketplace.Exec.{lift, fatal}
use democrit_marketplace.Exec.Rules.{
  Returns, Returns-elim, Returns-map, Returns-bind, Returns-if, Returns-pure,
}
use democrit_marketplace.Proto.{
  TradeStatus, initiated, pending, success, failed, abandoned, TradeState, GlobalState,
}
use democrit_marketplace.Services.{Services}
use democrit_marketplace.Trade.{get_role, state_of, is_finalised}
use democrit_marketplace.Trade.Reply.{is_maker}
use democrit_marketplace.MyOrders.{Global, Hooks}
use democrit_marketplace.MyOrders.Refresh.{
  Returns-reads, Returns-write, Returns-outside, Returns-left,
}
use democrit_marketplace.MyOrders.Ids.{Distinct}
use democrit_marketplace.MyOrders.Held.{
  Holds, Holding, SameRest, Holds-mono, remove_by_id-Holding, add-Holding,
}
use democrit_marketplace.MyOrders.Held.Locking.{unlock-Holding}
use democrit_marketplace.Manager.{
  reduced, handle_success, release_order, handle_failure, archive_loop, handle_by_state,
  handle_finalised, update_and_archive_trades,
}
use democrit_marketplace.Manager.Archive.{Returns-on_trade, archive_loop-Archived}
use democrit_marketplace.Manager.Sales.{own_id, own_ids, ids_of, IsSoldOnce, Holds-by, Holds-same}
use democrit_marketplace.Manager.Sales.{IsSoldOnce-by}
use democrit_marketplace.Manager.Sales.Sorting.{
  All-parts, Distinct-parts, Sorted-All-split, Sorted-Distinct, Sorted-length,
}

-- What the loop leaves of the rest.
SameOrders : GlobalState → GlobalState → Type 0
SameOrders s t =
    (t.account ≡ s.account) × (t.own_orders ≡ s.own_orders) × (t.next_free_id ≡ s.next_free_id)

module _ {W : Type 0} (sv : Services W) (hooks : Hooks W) where
  archive_loop-SameOrders :
      (account : Bytes) (ts visited active finalised : List TradeState) (g : Global W)
      → Returns
          (λ (r : List TradeState). λ (h : Global W). SameOrders g.state h.state)
          (archive_loop sv hooks account ts visited active finalised)
          g
  unfolding archive_loop lift SameOrders
  archive_loop-SameOrders account [] visited active finalised g =
      Returns-write _ _ _ (Returns-pure _ _ (refl, refl, refl))
  archive_loop-SameOrders account (t ∷ rest) visited active finalised g =
      Returns-on_trade _ _ _ _ λ r c e. Returns-write _ _ _ (
        Returns-if (not (is_some r)) _ _ _ (λ failed. record { holds = tt })
          (λ done.
            Returns-if (is_finalised c.pb) _ _ _
              (λ final.
                Returns-write _ _ _
                  (Returns-write _ _ _ (archive_loop-SameOrders account rest _ active _ _)))
              (λ live. Returns-write _ _ _ (archive_loop-SameOrders account rest _ _ finalised _))))

  -- The order of a trade that has succeeded is removed, and what is left of it has a new ID.
  success-Holding :
      (account : Bytes) (t : TradeState) (ids : List ℕ) (n : ℕ) (g : Global W)
      → n + 1 < 2 ^ 64
      → Holds ids n g.state
      → Returns
          (λ (u : Unit). λ (h : Global W). Holding hooks ids (n + 1) g.state h)
          (handle_success sv hooks account t)
          g
  unfolding handle_success
  success-Holding account t ids n g room h =
      Returns-if (is_maker (get_role account t)) _ _ g
        (λ maker. Returns-bind _ _ g λ u g' ran.
          let q = Returns-elim (remove_by_id-Holding hooks ids n (get_or t.order.id 0) g h) ran in
          let rest = reduced t.order t.units in
          Returns-if (ltb 0 rest.max_units && leb (get_or rest.min_units 0) rest.max_units) _ _ g'
            (λ some_left. Returns-bind _ _ g' λ b g'' ran'.
              let r = Returns-elim (add-Holding hooks ids n rest g' room q.0) ran' in
              Returns-pure tt g'' (r.0, (r.1.0 ∙ q.1.0, r.1.1 ∙ q.1.1)))
            (λ none_left.
              Returns-pure tt g' (Holds-mono hooks ids n (n + 1) g'.state (omega arith) q.0, q.1)))
        (λ taker.
          Returns-pure tt g (Holds-mono hooks ids n (n + 1) g.state (omega arith) h, (refl, refl)))

  release-Holding :
      (account : Bytes) (t : TradeState) (ids : List ℕ) (n : ℕ) (g : Global W)
      → Distinct (own_id account t ++ ids)
      → Holds ids n g.state
      → Returns
          (λ (u : Unit). λ (h : Global W). Holding hooks ids n g.state h)
          (release_order sv hooks account t)
          g
  unfolding release_order
  release-Holding account t ids n g d h =
      Returns-if (is_maker (get_role account t)) _ _ g
        (λ maker. unlock-Holding hooks ids n (get_or t.order.id 0) g (rw maker at d).0 h)
        (λ taker. Returns-pure tt g (h, (refl, refl)))

  failure-Holding :
      (account : Bytes) (t : TradeState) (ids : List ℕ) (n : ℕ) (g : Global W)
      → Distinct (own_id account t ++ ids)
      → Holds ids n g.state
      → Returns
          (λ (u : Unit). λ (h : Global W). Holding hooks ids (n + 1) g.state h)
          (handle_failure sv hooks account t)
          g
  unfolding handle_failure
  failure-Holding account t ids n g d h = Returns-bind _ _ g λ u g' ran.
      let q = Returns-elim (release-Holding account t ids n g d h) ran in
      Returns-outside _ _ g' λ v w e.
        Returns-left (λ (s : GlobalState). Holds ids (n + 1) s × SameRest g.state s) _ _
          (Holds-mono hooks ids n (n + 1) g'.state (omega arith) q.0, q.1)

  state-Holding :
      (account : Bytes) (t : TradeState) (st : TradeStatus) (ids : List ℕ) (n : ℕ) (g : Global W)
      → n + 1 < 2 ^ 64
      → Distinct (own_id account t ++ ids)
      → Holds ids n g.state
      → Returns
          (λ (u : Unit). λ (h : Global W). Holding hooks ids (n + 1) g.state h)
          (handle_by_state sv hooks account t st)
          g
  unfolding handle_by_state fatal
  state-Holding account t abandoned ids n g room d h = failure-Holding account t ids n g d h
  state-Holding account t failed ids n g room d h = failure-Holding account t ids n g d h
  state-Holding account t success ids n g room d h = success-Holding account t ids n g room h
  state-Holding account t initiated ids n g room d h = record { holds = tt }
  state-Holding account t pending ids n g room d h = record { holds = tt }

  -- The orders of the final trades are let go of one by one.
  handle-Holding :
      (account : Bytes) (ts : List TradeState) (ids : List ℕ) (n : ℕ) (g : Global W)
      → n + length ts < 2 ^ 64
      → Distinct (own_ids account ts ++ ids)
      → Holds (own_ids account ts ++ ids) n g.state
      → Returns
          (λ (u : Unit). λ (h : Global W). Holding hooks ids (n + length ts) g.state h)
          (handle_finalised sv hooks account ts)
          g
  unfolding handle_finalised own_ids
  handle-Holding account [] ids n g room d h =
      Returns-pure tt g (Holds-mono hooks ids n (n + 0) g.state (omega arith) h, (refl, refl))
  handle-Holding account (t ∷ ts) ids n g room d h =
      let d' = subst Distinct (append_assoc (own_id account t) (own_ids account ts) ids) d in
      let h' =
        subst (λ (is : List ℕ). Holds is n g.state)
          (append_assoc (own_id account t) (own_ids account ts) ids) h in
      let others = own_ids account ts ++ ids in
      Returns-bind _ _ g λ u g' ran.
        let q =
          Returns-elim
            (state-Holding account t (state_of t) others n g (omega (arith, room)) d' (
              Holds-by (own_id account t ++ others) others n g.state
                (λ P k. (All-parts P (own_id account t) others k).1) h'))
            ran in
        Returns-map
          (λ (v : Unit). λ (k : Global W). λ r. (
            Holds-mono hooks ids (n + 1 + length ts) (n + length (t ∷ ts)) k.state (omega arith)
                r.0,
            (r.1.0 ∙ q.1.0, r.1.1 ∙ q.1.1),
          ))
          (handle-Holding account ts ids (n + 1) g' (omega (arith, room))
            (Distinct-parts (own_id account t) others d') q.0)

  pub update_and_archive_trades-IsSoldOnce :
      (n : ℕ) (g : Global W)
      → n + length g.state.trades < 2 ^ 64
      → IsSoldOnce n g.state
      → Returns
          (λ (u : Unit). λ (h : Global W). IsSoldOnce (n + length g.state.trades) h.state)
          (update_and_archive_trades sv hooks)
          g
  unfolding update_and_archive_trades SameOrders
  update_and_archive_trades-IsSoldOnce n g room sold =
      let account = g.state.account in
      Returns-reads _ g (
        Returns-bind _ _ g λ finalised g₁ ran.
          let a =
            Returns-elim (archive_loop-Archived sv hooks account g.state.trades [] [] [] g) ran in
          let same = Returns-elim (archive_loop-SameOrders account g.state.trades [] [] [] g) ran in
          let d = Sorted-Distinct account a.sorted sold.distinct in
          let few = Sorted-length a.sorted in
          let still = own_ids account a.going_on in
          let h = Holds-same (own_ids account a.final ++ still) n g.state g₁.state same.1 same.2 (
            Holds-by (ids_of g.state) (own_ids account a.final ++ still) n g.state
              (λ P. Sorted-All-split account P a.sorted) sold.holds) in
          subst
            (λ (fs : List TradeState).
              Returns
                (λ (u : Unit). λ (k : Global W). IsSoldOnce (n + length g.state.trades) k.state)
                (handle_finalised sv hooks account fs) g₁)
            (sym a.result)
            (Returns-map
              (λ (u : Unit). λ (k : Global W). λ q.
                IsSoldOnce-by still (n + length g.state.trades) k.state
                  (ap (λ (b : Bytes). own_ids b k.state.trades) (q.1.0 ∙ same.0)
                    ∙ ap (own_ids account) (q.1.1 ∙ a.trades))
                  (Distinct-parts (own_ids account a.final) still d)
                  (Holds-mono hooks still (n + length a.final) (n + length g.state.trades) k.state
                    (omega (arith, few)) q.0))
              (handle-Holding account a.final still n g₁ (omega (arith, room, few)) d h)))

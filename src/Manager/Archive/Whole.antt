-- ===== src/Manager/Archive/Whole.antt =====
-- UpdateAndArchiveTrades as a whole: what is done about the final trades leaves the lists alone.
use democrit_marketplace.Prelude.{
  ◌≡◌, refl, sym, ◌∙◌, subst, get_or, List, [], ◌∷◌, ◌++◌, map, Bytes, ltb, leb, ◌&&◌,
}
use democrit_marketplace.Outcome.{Outcome, ok, raise, abort}
use democrit_marketplace.Exec.{Exec, fatal}
use democrit_marketplace.Exec.Rules.{Returns, Returns-elim, Returns-bind}
use democrit_marketplace.Proto.{
  Order, TradeStatus, initiated, pending, success, failed, abandoned, TradeState, GlobalState,
}
use democrit_marketplace.Services.{Services}
use democrit_marketplace.Trade.{state_of, get_role, get_public_info}
use democrit_marketplace.Trade.Reply.{is_maker}
use democrit_marketplace.MyOrders.{Global, Hooks, run_refresh, add, remove_by_id, unlock}
use democrit_marketplace.MyOrders.Refresh.{
  Leaves, Leaves-elim, Leaves-pure, Leaves-reads, Leaves-write, Leaves-ask, Leaves-outside,
  Leaves-bind, Leaves-check, Leaves-if, Returns-reads, run_refresh-Keys,
}
use democrit_marketplace.Manager.{
  reduced, handle_success, release_order, handle_failure, handle_by_state, handle_finalised,
  update_and_archive_trades,
}
use democrit_marketplace.Manager.Archive.{Sorted, archive_loop-Archived}

module _ {W : Type 0} (sv : Services W) (hooks : Hooks W) where
  -- What the calls of MyOrders leave alone.
  abbrev SameTrades : GlobalState → GlobalState → Type 0
  SameTrades s t = (t.trades ≡ s.trades) × (t.trade_archive ≡ s.trade_archive)

  refresh-SameTrades :
      (s : GlobalState) (g : Global W)
      → SameTrades s g.state
      → Leaves (SameTrades s) (run_refresh hooks) g
  refresh-SameTrades s g h =
      run_refresh-Keys hooks (SameTrades s) (λ _. Unit) (λ _ _ _ _. tt) (λ m t q _. q) g h tt

  add-SameTrades :
      (s : GlobalState) (o : Order) (g : Global W)
      → SameTrades s g.state
      → Leaves (SameTrades s) (add hooks o) g
  unfolding add
  add-SameTrades s o g h = Leaves-reads _ _ (
      Leaves-ask _ _ _ h λ valid w e.
        Leaves-if valid _ _ _
          (λ _.
            Leaves-write _ _ _
              (Leaves-bind _ _ _ (refresh-SameTrades s _ h) λ _ g' e q. Leaves-pure _ _ q))
          (λ _. Leaves-pure _ _ h))

  success-SameTrades :
      (s : GlobalState) (account : Bytes) (t : TradeState) (g : Global W)
      → SameTrades s g.state
      → Leaves (SameTrades s) (handle_success sv hooks account t) g
  unfolding handle_success remove_by_id
  success-SameTrades s account t g h =
      let rest = reduced t.order t.units in
      Leaves-if (is_maker (get_role account t)) _ _ _
        (λ _. Leaves-bind _ _ _ (Leaves-write _ _ _ (refresh-SameTrades s _ h)) λ _ g' e q.
          Leaves-if (ltb 0 rest.max_units && leb (get_or rest.min_units 0) rest.max_units) _ _ _
            (λ _. Leaves-bind _ _ _ (add-SameTrades s rest g' q) λ _ g'' e r. Leaves-pure _ _ r)
            (λ _. Leaves-pure _ _ q))
        (λ _. Leaves-pure _ _ h)

  release-SameTrades :
      (s : GlobalState) (account : Bytes) (t : TradeState) (g : Global W)
      → SameTrades s g.state
      → Leaves (SameTrades s) (release_order sv hooks account t) g
  unfolding release_order unlock
  release-SameTrades s account t g h =
      Leaves-if (is_maker (get_role account t)) _ _ _
        (λ _. Leaves-reads _ _ (
          Leaves-check _ _ _ h
            λ _. Leaves-check _ _ _ h λ _. Leaves-write _ _ _ (refresh-SameTrades s _ h)))
        (λ _. Leaves-pure _ _ h)

  failure-SameTrades :
      (s : GlobalState) (account : Bytes) (t : TradeState) (g : Global W)
      → SameTrades s g.state
      → Leaves (SameTrades s) (handle_failure sv hooks account t) g
  unfolding handle_failure
  failure-SameTrades s account t g h =
      Leaves-bind _ _ _ (release-SameTrades s account t g h)
        λ _ g' e q. Leaves-ask _ _ _ q λ _ w e. Leaves-outside _ _ q

  state-SameTrades :
      (s : GlobalState) (account : Bytes) (t : TradeState) (st : TradeStatus) (g : Global W)
      → SameTrades s g.state
      → Leaves (SameTrades s) (handle_by_state sv hooks account t st) g
  unfolding handle_by_state fatal
  state-SameTrades s account t abandoned g h = failure-SameTrades s account t g h
  state-SameTrades s account t failed g h = failure-SameTrades s account t g h
  state-SameTrades s account t success g h = success-SameTrades s account t g h
  state-SameTrades s account t initiated g h = record { holds = h }
  state-SameTrades s account t pending g h = record { holds = h }

  handle-SameTrades :
      (s : GlobalState) (account : Bytes) (ts : List TradeState) (g : Global W)
      → SameTrades s g.state
      → Leaves (SameTrades s) (handle_finalised sv hooks account ts) g
  unfolding handle_finalised
  handle-SameTrades s account [] g h = Leaves-pure _ _ h
  handle-SameTrades s account (t ∷ ts) g h =
      Leaves-bind _ _ _ (state-SameTrades s account t (state_of t) g h)
        λ _ g' e q. handle-SameTrades s account ts g' q

  abbrev pub ArchivedFrom : Global W → Global W → Type 0
  ArchivedFrom g g' =
      (final : List TradeState) × Sorted g.state.trades g'.state.trades final
      × (g'.state.trade_archive
          ≡ g.state.trade_archive ++ map (get_public_info g.state.account) final)

  Returns-of_Leaves :
      {A : Type 0} {Q : Global W → Type 0} (m : Exec (Global W) A) (g : Global W)
      → ((h : Global W) → SameTrades g.state h.state → Q h)
      → Leaves (SameTrades g.state) m g
      → Returns (λ _ h. Q h) m g
  Returns-of_Leaves {A} {Q} m g f l = go (m g) refl
    where
      go : (r : Outcome A × Global W) → m g ≡ r → Returns (λ _ h. Q h) m g
      go (ok a, h) e = record { holds = rw e (f h (Leaves-elim l e)) }
      go (raise, h) e = record { holds = rw e tt }
      go (abort, h) e = record { holds = rw e tt }

  returns :
      (g : Global W) → Returns (λ _ g'. ArchivedFrom g g') (update_and_archive_trades sv hooks) g
  unfolding update_and_archive_trades
  returns g = Returns-reads _ _ (
      Returns-bind _ _ _ λ finalised g₁ e.
        let a =
          Returns-elim (archive_loop-Archived sv hooks g.state.account g.state.trades [] [] [] g)
            e in
        later g₁ finalised (
          a.final,
          subst (λ ts. Sorted g.state.trades ts a.final) (sym a.trades) a.sorted,
          a.archive,
        ))
    where
      later :
          (g₁ : Global W) (finalised : List TradeState)
          → ArchivedFrom g g₁
          → Returns
              (λ _ g'. ArchivedFrom g g')
              (handle_finalised sv hooks g.state.account finalised)
              g₁
      later g₁ finalised (final, sorted, archive) =
          Returns-of_Leaves {Q = ArchivedFrom g} _ _
            (λ s q.
              (final, subst (λ ts. Sorted g.state.trades ts final) (sym q.0) sorted, q.1 ∙ archive))
            (handle-SameTrades g₁.state g.state.account finalised g₁ (refl, refl))

  -- Where UpdateAndArchiveTrades returns, each trade has only been extended and is in one place: those
  -- that are not final are still the trades, in their order, and of those that are final the public
  -- information has been appended to the archive.
  pub update_and_archive_trades-Sorted :
      (g : Global W) {g' : Global W}
      → update_and_archive_trades sv hooks g ≡ (ok tt, g')
      → ArchivedFrom g g'
  update_and_archive_trades-Sorted g h = Returns-elim (returns g) h

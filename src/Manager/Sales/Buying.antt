-- ===== src/Manager/Sales/Buying.antt =====
-- TakeOrder of trades.cpp: the trade that it starts is about no order of the user.
use democrit_marketplace.Prelude.{
  ℕ, ◌≡◌, refl, subst, ap, ◌∙◌, false, Option, none, some, get_or, List, [], ◌∷◌, ◌++◌, append-nil,
  Bytes, not, bytes_eq,
}
use democrit_marketplace.Prelude.Int.{ℤ}
use democrit_marketplace.Exec.Rules.{Returns, Returns-if, Returns-gets, Returns-pure}
use democrit_marketplace.Proto.{Order, TradeState, ProcessingMessage}
use democrit_marketplace.Services.{Services}
use democrit_marketplace.Trade.{Ctx, get_role}
use democrit_marketplace.Trade.Reply.Grows.{has_reply-Extends}
use democrit_marketplace.MyOrders.{Global, Hooks}
use democrit_marketplace.MyOrders.Refresh.{Returns-reads, Returns-write}
use democrit_marketplace.Manager.{check_order, new_trade, add_trade}
use democrit_marketplace.Manager.Negotiation.{take_order, start_trade, first_message}
use democrit_marketplace.Manager.Archive.{Returns-on_trade}
use democrit_marketplace.Manager.Sales.{
  own_id, own_ids, own_id-order, ids_of, IsSoldOnce, own_ids-append, Holds-same,
}
use democrit_marketplace.Manager.Sales.{IsSoldOnce-by}

module _ {W : Type 0} (sv : Services W) (hooks : Hooks W) where
  -- A trade of an order that is not the user's.
  started-IsSoldOnce :
      (nt t : TradeState) (reply : Option (Option ProcessingMessage)) (n : ℕ) (g : Global W)
      → own_id g.state.account nt ≡ []
      → t.order ≡ nt.order
      → IsSoldOnce n g.state
      → Returns
          (λ (r : Option ProcessingMessage). λ (h : Global W). IsSoldOnce n h.state)
          (start_trade sv hooks t (first_message sv hooks reply t))
          g
  unfolding start_trade own_ids
  started-IsSoldOnce nt t none n g theirs e sold = Returns-pure none g sold
  started-IsSoldOnce nt t (some r) n g theirs e sold = Returns-write _ _ g (
      Returns-pure _ _ (
        IsSoldOnce-by (ids_of g.state) n (add_trade t g.state)
          (own_ids-append g.state.account g.state.trades (t ∷ [])
            ∙ ap (λ (is : List ℕ). ids_of g.state ++ (is ++ []))
                (own_id-order g.state.account nt t e ∙ theirs)
            ∙ append-nil (ids_of g.state))
          sold.distinct
          (Holds-same (ids_of g.state) n g.state (add_trade t g.state) refl refl sold.holds)))

  their_order :
      (account : Bytes) (o : Order) (units : ℤ) (now : ℕ)
      → bytes_eq (get_or o.account []) account ≡ false
      → own_id account (new_trade o units (get_or o.account []) now) ≡ []
  unfolding get_role
  their_order account o units now other = rw other refl

  pub take_order-IsSoldOnce :
      (o : Order) (units : ℤ) (n : ℕ) (g : Global W)
      → IsSoldOnce n g.state
      → Returns
          (λ (r : Option ProcessingMessage). λ (h : Global W). IsSoldOnce n h.state)
          (take_order sv hooks o units)
          g
  unfolding take_order
  take_order-IsSoldOnce o units n g sold =
      Returns-if (not (check_order o units)) _ _ g (λ refused. Returns-pure none g sold)
        (λ accepted. Returns-gets _ _ g (
          Returns-reads _ g (
            Returns-if (bytes_eq (get_or o.account []) g.state.account) _ _ g
              (λ own. Returns-pure none g sold)
              (λ other. Returns-on_trade _ _ _ g λ r c e.
                started-IsSoldOnce
                  (new_trade o units (get_or o.account []) (sv.config.current_time g.world)) c.pb r
                  n (record g { world = c.world })
                  (their_order g.state.account o units (sv.config.current_time g.world) other)
                  (subst (λ (x : Ctx W). x.pb.order ≡ o) e
                    (has_reply-Extends sv g.state.account (record {
                      pb = new_trade o units (get_or o.account []) (sv.config.current_time g.world);
                      world = g.world;
                    })).order)
                  sold))))

-- ===== src/Manager/Sales/Taking.antt =====
-- ProcessMessage of trades.cpp: no order is sold twice by it.
use democrit_marketplace.Prelude.{
  ℕ, ◌≡◌, refl, sym, subst, ap, ◌∙◌, Bool, true, false, Option, none, some, get_or, is_some, [],
  ◌∷◌, ◌++◌, append-nil, Bool-cases, inl, inr, if◌then◌else◌,
}
use democrit_marketplace.Prelude.Int.{to_int64}
use democrit_marketplace.Exec.{pure, ◌>>=◌}
use democrit_marketplace.Exec.Rules.{
  Returns, Returns-elim, Returns-map, Returns-bind, Returns-if, Returns-check, Returns-pure,
}
use democrit_marketplace.Proto.{
  Order, TakingOrder, TradeState, ProcessingMessage, GlobalState, empty_order,
}
use democrit_marketplace.Services.{Services}
use democrit_marketplace.Trade.{get_role}
use democrit_marketplace.Trade.Reply.{is_maker}
use democrit_marketplace.MyOrders.{Global, Hooks, unlock}
use democrit_marketplace.MyOrders.Refresh.{Returns-reads}
use democrit_marketplace.MyOrders.Ids.{Distinct}
use democrit_marketplace.MyOrders.Held.{Holds}
use democrit_marketplace.MyOrders.Held.Locking.{
  LockedNow, LockResult, try_lock-Holding, unlock-Holding,
}
use democrit_marketplace.Manager.{new_trade, add_trade, set_trades}
use democrit_marketplace.Manager.Negotiation.{order_taken, start_as_maker, process_message}
use democrit_marketplace.Manager.Check.{OrderTakenResult, order_taken-Result}
use democrit_marketplace.Manager.Replies.{Processed, reply_loop-Processed}
use democrit_marketplace.Manager.Sales.{
  own_id, own_ids, ids_of, IsSoldOnce, own_ids-append, own_ids-replaced, Distinct-rotate, Holds-by,
  Holds-same, All-swap,
}
use democrit_marketplace.Manager.Sales.{IsSoldOnce-by, IsSoldOnce-same}

-- One trade more, of an order that has just been locked.
add_trade-IsSoldOnce :
    (n id : ℕ) (s t : GlobalState) (o : Order) (nt : TradeState)
    → Distinct (ids_of s)
    → LockedNow (ids_of s) id n o s t
    → nt.order.id ≡ some id
    → IsSoldOnce n (add_trade nt t)
unfolding own_ids
add_trade-IsSoldOnce n id s t o nt d l its =
    let listed : ids_of (add_trade nt t) ≡ ids_of s ++ (own_id s.account nt ++ []) =
      own_ids-append t.account t.trades (nt ∷ []) ∙ rw (l.same.0, l.same.1) refl in
    elim (Bool-cases (is_maker (get_role s.account nt))) [
      | inl maker ↦
          IsSoldOnce-by (ids_of s ++ id ∷ []) n (add_trade nt t) (listed ∙ rw (maker, its) refl)
            (Distinct-rotate id (ids_of s) l.new d)
            (Holds-same (ids_of s ++ id ∷ []) n t (add_trade nt t) refl refl (
              Holds-by (id ∷ ids_of s) (ids_of s ++ id ∷ []) n t (λ P h. All-swap P id (ids_of s) h)
                l.holds))
      | inr taker ↦
          IsSoldOnce-by (ids_of s) n (add_trade nt t) (listed ∙ rw taker (append-nil (ids_of s))) d
            (Holds-same (ids_of s) n t (add_trade nt t) refl refl
              (Holds-by (id ∷ ids_of s) (ids_of s) n t (λ P h. h.1) l.holds))
    ]

module _ {W : Type 0} (sv : Services W) (hooks : Hooks W) where
  module _ (msg : ProcessingMessage) (taking : TakingOrder) (n : ℕ) (s : GlobalState) where
    -- What is done once the order has been locked or has not.
    after_lock :
        (sold : IsSoldOnce n s) (r : Option Order) (g : Global W)
        → LockResult hooks (ids_of s) taking.id n s r g
        → Returns
            (λ (b : Bool). λ (h : Global W). IsSoldOnce n h.state)
            (if is_some r
              then (order_taken sv hooks
                    (get_or r empty_order)
                    (to_int64 taking.units)
                    (get_or msg.counterparty [])
                  >>= λ (taken : Bool).
                      if taken
                      then pure true
                      else (unlock hooks taking.id >>= λ (u : Unit). pure false))
              else pure false)
            g
    after_lock sold none g l =
        Returns-pure false g (IsSoldOnce-same n s g.state l.1 sold.distinct l.0)
    after_lock sold (some o) g l = Returns-bind _ _ g λ taken g' ran.
        go taken g'
          (order_taken-Result sv hooks o (to_int64 taking.units) (get_or msg.counterparty []) g ran)
      where
        go :
            (taken : Bool) (g' : Global W)
            → OrderTakenResult o (to_int64 taking.units) (get_or msg.counterparty []) g taken g'
            → Returns
                (λ (b : Bool). λ (h : Global W). IsSoldOnce n h.state)
                (if taken then pure true else (unlock hooks taking.id >>= λ (u : Unit). pure false))
                g'
        go true g' started = Returns-pure true g' (
            subst (IsSoldOnce n) (sym started.added) (
              add_trade-IsSoldOnce n taking.id s g.state o
                (new_trade o (to_int64 taking.units) (get_or msg.counterparty []) started.now)
                sold.distinct l l.its_id))
        go false g' same = Returns-bind _ _ g' λ u h ran.
            let q =
              Returns-elim
                (unlock-Holding hooks (ids_of s) n taking.id g' l.new (
                  subst (λ (x : Global W). Holds (ids_of s) n x.state) (sym same)
                    (Holds-by (taking.id ∷ ids_of s) (ids_of s) n g.state (λ P k. k.1) l.holds)))
                ran in
            let before : g'.state ≡ g.state = ap (λ (x : Global W). x.state) same in
            Returns-pure false h (
              IsSoldOnce-same n s h.state
                (
                  q.1.0 ∙ ap (λ (x : GlobalState). x.account) before ∙ l.same.0,
                  q.1.1 ∙ ap (λ (x : GlobalState). x.trades) before ∙ l.same.1,
                )
                sold.distinct q.0)

  start_as_maker-IsSoldOnce :
      (msg : ProcessingMessage) (taking : Option TakingOrder) (n : ℕ) (g : Global W)
      → IsSoldOnce n g.state
      → Returns
          (λ (b : Bool). λ (h : Global W). IsSoldOnce n h.state)
          (start_as_maker sv hooks msg taking)
          g
  unfolding start_as_maker
  start_as_maker-IsSoldOnce msg none n g sold = Returns-pure true g sold
  start_as_maker-IsSoldOnce msg (some taking) n g sold = Returns-bind _ _ g λ r g' ran.
      after_lock msg taking n g.state sold r g'
        (Returns-elim (try_lock-Holding hooks (ids_of g.state) n taking.id g sold.holds) ran)

  Processed-IsSoldOnce :
      (msg : ProcessingMessage) (n : ℕ) (s : GlobalState) (r : Option ProcessingMessage)
      (t : GlobalState)
      → Processed msg s r t
      → IsSoldOnce n s
      → IsSoldOnce n t
  Processed-IsSoldOnce msg n s r t (inl a) sold = subst (IsSoldOnce n) (sym a.changed) (
      IsSoldOnce-by (ids_of s) n (set_trades (a.earlier ++ a.new ∷ a.later) s)
        (own_ids-replaced s.account a.earlier a.old a.new a.later a.extends.order
          ∙ ap (own_ids s.account) (sym a.was))
        sold.distinct
        (Holds-same (ids_of s) n s (set_trades (a.earlier ++ a.new ∷ a.later) s) refl refl
          sold.holds))
  Processed-IsSoldOnce msg n s r t (inr (h, none_sent, same)) sold =
      subst (IsSoldOnce n) (sym same) sold

  pub process_message-IsSoldOnce :
      (msg : ProcessingMessage) (n : ℕ) (g : Global W)
      → IsSoldOnce n g.state
      → Returns
          (λ (r : Option ProcessingMessage). λ (h : Global W). IsSoldOnce n h.state)
          (process_message sv hooks msg)
          g
  unfolding process_message
  process_message-IsSoldOnce msg n g sold = Returns-check (is_some msg.counterparty) _ g λ given.
      Returns-bind _ _ g λ go_on g' ran.
        let sold' = Returns-elim (start_as_maker-IsSoldOnce msg msg.taking_order n g sold) ran in
        Returns-if go_on _ _ g'
          (λ on. Returns-reads _ g' (
            Returns-map
              (λ (r : Option ProcessingMessage).
                λ (h : Global W). λ p. Processed-IsSoldOnce msg n g'.state r h.state p sold')
              (reply_loop-Processed sv hooks msg g'.state.account g'.state.trades [] g' refl tt)))
          (λ off. Returns-pure none g' sold')

-- ===== src/Manager/Replies.antt =====
-- TradeManager::ProcessMessage of trades.cpp: which trade a message is for, and what it changes.
pub mod Sender
use democrit_marketplace.Prelude.{
  ◌≡◌, refl, sym, ap, ◌∙◌, subst, ◌⊎◌, inl, inr, Bool, true, false, Option, none, some, is_some,
  List, [], ◌∷◌, ◌++◌, append-nil, append_assoc, Bytes, All, All-append, if◌then◌else◌,
}
use democrit_marketplace.Outcome.{ok}
use democrit_marketplace.Exec.{pure, ◌>>=◌}
use democrit_marketplace.Exec.Rules.{Returns, Returns-elim, Returns-if, Returns-check, Returns-pure}
use democrit_marketplace.Proto.{TakingOrder, TradeState, ProcessingMessage, GlobalState}
use democrit_marketplace.Services.{Services}
use democrit_marketplace.Trade.{Ctx, matches}
use democrit_marketplace.Trade.Growth.{Extends, Extends-trans}
use democrit_marketplace.Trade.Messages.{handle_message}
use democrit_marketplace.Trade.Messages.Grows.{handle_message-Extends}
use democrit_marketplace.Trade.Reply.{has_reply}
use democrit_marketplace.Trade.Reply.Grows.{has_reply-Extends}
use democrit_marketplace.MyOrders.{Global, Hooks, read}
use democrit_marketplace.MyOrders.Refresh.{Returns-reads, Returns-write}
use democrit_marketplace.Manager.{set_trades}
use democrit_marketplace.Manager.Negotiation.{reply_loop, start_as_maker, process_message}
use democrit_marketplace.Manager.Archive.{Returns-on_trade}

abbrev pub IsForOther : ProcessingMessage → TradeState → Type 0
IsForOther msg t = matches t msg ≡ false

-- The first trade that the message is for has been extended, and nothing else has changed.
pub record Advanced (msg : ProcessingMessage) (s s' : GlobalState) : Type 0 where
  pub earlier : List TradeState
  pub old : TradeState
  pub new : TradeState
  pub later : List TradeState
  pub was : s.trades ≡ earlier ++ old ∷ later
  pub others : All (IsForOther msg) earlier
  pub is_meant : matches old msg ≡ true
  pub extends : Extends old new
  pub changed : s' ≡ set_trades (earlier ++ new ∷ later) s

-- What ProcessMessage returns and leaves, for a message that starts no trade.
abbrev pub Processed :
    ProcessingMessage → GlobalState → Option ProcessingMessage → GlobalState → Type 0
Processed msg s reply s' =
    Advanced msg s s' ⊎ (All (IsForOther msg) s.trades × (reply ≡ none) × (s' ≡ s))

module _ {W : Type 0} (sv : Services W) (hooks : Hooks W) where
  pub reply_loop-Processed :
      (msg : ProcessingMessage) (account : Bytes) (rest visited : List TradeState) (g : Global W)
      → g.state.trades ≡ visited ++ rest
      → All (IsForOther msg) visited
      → Returns
          (λ (r : Option ProcessingMessage). λ (h : Global W). Processed msg g.state r h.state)
          (reply_loop sv hooks msg account rest visited)
          g
  unfolding reply_loop
  reply_loop-Processed msg account [] visited g e h =
      Returns-pure none g (inr (rw (e, append-nil) h, refl, refl))
  reply_loop-Processed msg account (t ∷ rest) visited g e h =
      Returns-if (matches t msg) _ _ g
        (λ mine.
          Returns-on_trade (handle_message account msg t) (has_reply sv account) _ g λ r c e'.
            Returns-write _ _ _ (
              Returns-pure _ _ (
                inl (record {
                  earlier = visited;
                  old = t;
                  new = c.pb;
                  later = rest;
                  was = e;
                  others = h;
                  is_meant = mine;
                  extends = grown c e';
                  changed =
                      ap (λ ts. set_trades ts g.state) (append_assoc visited (c.pb ∷ []) rest);
                }))))
        (λ other.
          reply_loop-Processed msg account rest (visited ++ t ∷ []) g
            (e ∙ sym (append_assoc visited (t ∷ []) rest))
            (All-append _ visited (t ∷ []) h (other, tt)))
    where
      grown :
          (c : Ctx W)
          → (has_reply sv account (record { pb = handle_message account msg t; world = g.world })).1
            ≡ c
          → Extends t c.pb
      grown c e' = Extends-trans (handle_message-Extends account msg t) (
          subst (λ (x : Ctx W). Extends (handle_message account msg t) x.pb) e'
            (has_reply-Extends sv account
              (record { pb = handle_message account msg t; world = g.world })))

  running :
      (msg : ProcessingMessage) (g : Global W)
      → msg.taking_order ≡ none
      → Returns
          (λ (r : Option ProcessingMessage). λ (h : Global W). Processed msg g.state r h.state)
          (process_message sv hooks msg)
          g
  unfolding process_message start_as_maker pure ◌>>=◌
  running msg g none_taken =
      Returns-check (is_some msg.counterparty) _ g λ given. started msg.taking_order none_taken
    where
      started :
          (o : Option TakingOrder)
          → o ≡ none
          → Returns
              (λ (r : Option ProcessingMessage). λ (h : Global W). Processed msg g.state r h.state)
              (start_as_maker sv hooks msg o >>= λ (go_on : Bool).
                if go_on
                then (do s ← read; reply_loop sv hooks msg s.account s.trades [])
                else pure none)
              g
      started none e = record {
        holds =
            (Returns-reads (λ s. reply_loop sv hooks msg s.account s.trades []) g
              (reply_loop-Processed msg g.state.account g.state.trades [] g refl tt)).holds;
      }
      started (some o) e = cc

  -- Where ProcessMessage returns for a message that takes no order: if trades in the list are for the
  -- message, by its sender and its identifier, the first of them has been extended and nothing else in
  -- the state has changed; and if none is, there is no reply and nothing has changed.
  pub process_message-Processed :
      (msg : ProcessingMessage) (g : Global W) {g' : Global W} {reply : Option ProcessingMessage}
      → msg.taking_order ≡ none
      → process_message sv hooks msg g ≡ (ok reply, g')
      → Processed msg g.state reply g'.state
  process_message-Processed msg g none_taken e = Returns-elim (running msg g none_taken) e

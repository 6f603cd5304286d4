-- ===== src/Manager/Replies/Sender.antt =====
-- TradeManager::ProcessMessage of trades.cpp: to whom the reply is sent.
use democrit_marketplace.Prelude.{
  ◌≡◌, refl, sym, subst, ◌∙◌, true, Option, none, some, is_some, get_or, List, [], ◌∷◌, ◌++◌, Bytes,
  bytes_eq, bytes_eq→eq, &&-true,
}
use democrit_marketplace.Outcome.{Outcome, ok, raise, abort}
use democrit_marketplace.Exec.{Exec, ◌>>=◌}
use democrit_marketplace.Exec.Rules.{
  Returns, Returns-elim, Returns-bind, Returns-check, Returns-if, Returns-pure,
}
use democrit_marketplace.Proto.{TradeState, ProcessingMessage}
use democrit_marketplace.Services.{Services}
use democrit_marketplace.Trade.{Ctx, matches}
use democrit_marketplace.Trade.Messages.{handle_message}
use democrit_marketplace.Trade.Messages.Grows.{handle_message-Extends}
use democrit_marketplace.Trade.Reply.{has_reply}
use democrit_marketplace.Trade.Reply.Addressed.{IsReplyTo, has_reply-IsReplyTo}
use democrit_marketplace.MyOrders.{Global, Hooks}
use democrit_marketplace.MyOrders.Refresh.{Returns-reads, Returns-write}
use democrit_marketplace.Manager.{on_trade}
use democrit_marketplace.Manager.Negotiation.{process_message, reply_loop}

-- A method of a trade, by what holds where it returns.
Returns-settled :
    {W A B : Type 0} {P : A → Ctx W → Type 0} {Q : B → Global W → Type 0} (t : TradeState)
    (m : Exec (Ctx W) A) (f : Option A × TradeState → Exec (Global W) B) (g : Global W)
    → Returns P m (record { pb = t; world = g.world })
    → ((a : A) (c : Ctx W) → P a c → Returns Q (f (some a, c.pb)) (record g { world = c.world }))
    → ((c : Ctx W) → Returns Q (f (none, c.pb)) (record g { world = c.world }))
    → Returns Q (on_trade t m >>= f) g
unfolding ◌>>=◌ on_trade
Returns-settled {W} {A} {B} {P} {Q} t m f g p returned raised =
    go (m (record { pb = t; world = g.world })) refl
  where
    go :
        (r : Outcome A × Ctx W)
        → m (record { pb = t; world = g.world }) ≡ r
        → Returns Q (on_trade t m >>= f) g
    go (ok a, c) e = record { holds = rw e (returned a c (Returns-elim p e)).holds }
    go (raise, c) e = record { holds = rw e (raised c).holds }
    go (abort, c) e = record { holds = rw e tt }

module _ {W : Type 0} (sv : Services W) (hooks : Hooks W) where
  -- The trade that a message is for is with its sender.
  matches-sender :
      (t : TradeState) (msg : ProcessingMessage) (a : Bytes)
      → msg.counterparty ≡ some a
      → matches t msg ≡ true
      → t.counterparty ≡ a
  unfolding matches
  matches-sender t msg a from mine = sym (
      bytes_eq→eq a t.counterparty
        (rw from at (&&-true (bytes_eq (get_or msg.counterparty []) t.counterparty) _ mine).0))

  reply_loop-IsReplyTo :
      (msg : ProcessingMessage) (a account : Bytes) (rest visited : List TradeState) (g : Global W)
      → msg.counterparty ≡ some a
      → Returns (λ r h. IsReplyTo a r) (reply_loop sv hooks msg account rest visited) g
  unfolding reply_loop
  reply_loop-IsReplyTo msg a account [] visited g from = Returns-pure _ _ tt
  reply_loop-IsReplyTo msg a account (t ∷ rest) visited g from =
      Returns-if (matches t msg) _ _ g
        (λ mine.
          let its =
            (handle_message-Extends account msg t).counterparty
            ∙ matches-sender t msg a from mine in
          Returns-settled (handle_message account msg t) (has_reply sv account) _ g
            (subst
              (λ (b : Bytes).
                Returns (λ r c. IsReplyTo b r) (has_reply sv account)
                  (record { pb = handle_message account msg t; world = g.world }))
              its
              (has_reply-IsReplyTo sv account
                (record { pb = handle_message account msg t; world = g.world })))
            (λ r c h. Returns-write _ _ _ (Returns-pure _ _ h))
            (λ c. Returns-write _ _ _ (Returns-pure _ _ tt)))
        (λ other. reply_loop-IsReplyTo msg a account rest (visited ++ t ∷ []) g from)

  pub process_message-IsReplyTo :
      (msg : ProcessingMessage) (a : Bytes) (g : Global W)
      → msg.counterparty ≡ some a
      → Returns (λ r h. IsReplyTo a r) (process_message sv hooks msg) g
  unfolding process_message
  process_message-IsReplyTo msg a g from = Returns-check (is_some msg.counterparty) _ g λ given.
      Returns-bind _ _ g λ go_on g' ran.
        Returns-if go_on _ _ g'
          (λ on.
            Returns-reads _ g'
              (reply_loop-IsReplyTo msg a g'.state.account g'.state.trades [] g' from))
          (λ off. Returns-pure _ _ tt)

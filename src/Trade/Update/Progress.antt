-- ===== src/Trade/Update/Progress.antt =====
-- Trade::Update over time: a trade does not wait for ever, whatever else happens to it.
use democrit_marketplace.Prelude.{
  ℕ, ◌+◌, ◌*◌, ◌<◌, ◌≤◌, ◌≡◌, ◌≢◌, refl, sym, subst, ap, ◌∙◌, true, Option, some, List, [], ◌∷◌,
  ◌++◌, Bytes, leb, ◌⊎◌, inl, inr, arith,
}
use democrit_marketplace.Exec.{◌>>=◌}
use democrit_marketplace.Proto.{TradeStatus, initiated, pending, success, failed, abandoned}
use democrit_marketplace.Services.{Services}
use democrit_marketplace.Trade.{Ctx, state_of}
use democrit_marketplace.Trade.Growth.{Leads, Kept}
use democrit_marketplace.Trade.Update.{update, update_by_state, update_initiated, is_timed_out}
use democrit_marketplace.Trade.Update.Grows.{
  Event, tick, run_events, run_events-Extends, update-Extends,
}
use democrit_marketplace.Trade.Update.Seen.{IsTransaction, update-watch}
use democrit_marketplace.Trade.Update.Watched.{IsGame, IsRecorded, chain_state}
use democrit_marketplace.Game.{Table, confirmed}

Leads-NotInitiated : (a b : TradeStatus) → Leads a b → a ≢ initiated → b ≢ initiated
Leads-NotInitiated initiated b h moved = absurd (moved refl)
Leads-NotInitiated pending pending h moved = moved
Leads-NotInitiated pending success h moved = λ e. cc
Leads-NotInitiated pending failed h moved = λ e. cc
Leads-NotInitiated success success h moved = moved
Leads-NotInitiated failed failed h moved = moved
Leads-NotInitiated abandoned abandoned h moved = moved
Leads-NotInitiated _ _ h moved = ground arith

Leads-success : (b : TradeStatus) → Leads success b → b ≡ success
Leads-success success h = refl
Leads-success _ h = ground arith

-- Where a pending trade may be later.
Leads-pending : (b : TradeStatus) → Leads pending b → (b ≡ pending) ⊎ (b ≡ success) ⊎ (b ≡ failed)
Leads-pending pending h = inl refl
Leads-pending success h = inr (inl refl)
Leads-pending failed h = inr (inr refl)
Leads-pending _ h = ground arith

module _ {W : Type 0} (sv : Services W) (account : Bytes) where
  run_events-append :
      (xs ys : List (W × Event)) (c : Ctx W)
      → run_events sv account (xs ++ ys) c ≡ run_events sv account ys (run_events sv account xs c)
  run_events-append [] ys c = refl
  run_events-append ((w, e) ∷ xs) ys c = run_events-append xs ys _

  -- The trade right after the timer has run in the world `w`.
  at_tick : List (W × Event) → W → Ctx W → Ctx W
  at_tick before w c = (update sv (record (run_events sv account before c) { world = w })).1

  run_events-at_tick :
      (before after : List (W × Event)) (w : W) (c : Ctx W)
      → run_events sv account (before ++ (w, tick) ∷ after) c
        ≡ run_events sv account after (at_tick before w c)
  unfolding at_tick
  run_events-at_tick before after w c = run_events-append before ((w, tick) ∷ after) c

  -- A timer run after the timeout ends a negotiation.
  update-NotInitiated :
      (c : Ctx W) → is_timed_out sv c.pb c.world ≡ true → state_of (update sv c).1.pb ≢ initiated
  unfolding update ◌>>=◌ update_by_state update_initiated
  update-NotInitiated c late = go (state_of c.pb) refl
    where
      moves_on :
          (s : TradeStatus)
          → state_of c.pb ≡ s
          → s ≢ initiated
          → state_of (update sv c).1.pb ≢ initiated
      moves_on s e other =
          Leads-NotInitiated (state_of c.pb) (state_of (update sv c).1.pb)
            (update-Extends sv c).status (λ same. other (sym e ∙ same))

      ends : state_of c.pb ≡ initiated → state_of (update sv c).1.pb ≡ abandoned
      ends e = rw (e, late) refl

      go : (s : TradeStatus) → state_of c.pb ≡ s → state_of (update sv c).1.pb ≢ initiated
      go initiated e = λ still. apart (sym (ends e) ∙ still)
        where
          apart : abandoned ≢ initiated
          apart same = cc
      go pending e = moves_on pending e (λ same. cc)
      go success e = moves_on success e (λ same. cc)
      go failed e = moves_on failed e (λ same. cc)
      go abandoned e = moves_on abandoned e (λ same. cc)

  -- Whatever happens to a trade, in any worlds and however each call ends: if the timer runs once when
  -- more than the timeout has gone by since the trade was started, then the trade is not in the state
  -- initiated afterwards: it is pending or final.
  pub run_events-NotInitiated :
      (before after : List (W × Event)) (w : W) (c : Ctx W)
      → c.pb.start_time * 1000 + sv.config.trade_timeout_ms < sv.config.current_time w * 1000
      → state_of (run_events sv account (before ++ (w, tick) ∷ after) c).pb ≢ initiated
  unfolding at_tick
  run_events-NotInitiated before after w c late =
      let c' = record (run_events sv account before c) { world = w } in
      let start = (run_events-Extends sv account before c).start_time in
      let over : is_timed_out sv c'.pb w ≡ true = rw start (ground arith) in
      subst (λ (x : Ctx W). state_of x.pb ≢ initiated) (sym (run_events-at_tick before after w c))
        (Leads-NotInitiated (state_of (at_tick before w c).pb)
          (state_of (run_events sv account after (at_tick before w c)).pb)
          (run_events-Extends sv account after (at_tick before w c)).status
          (update-NotInitiated c' over))

  module _ {D : Type 0} (table : Table D) (game : IsGame sv table) (psbt t : Bytes)
      (it : IsTransaction sv psbt t) where
    -- The GSP is the game g/dem, the wallet decodes our PSBT of a pending trade as the transaction `t`,
    -- and the node knows which of its inputs are spent. Whatever happens to the trade, in any worlds and
    -- however each call ends: if the timer runs once when the table has one row of `t`, with a height
    -- below 2^31 that is not above the game's and deep enough below it, then the trade is a success from
    -- then on, unless it had failed before.
    pub run_events-success :
        (before after : List (W × Event)) (w : W) (c : Ctx W) (h : ℕ)
        → state_of c.pb ≡ pending
        → c.pb.our_psbt ≡ some psbt
        → IsRecorded sv table game t w
        → chain_state sv table game t w ≡ confirmed h
        → h + sv.config.confirmations ≤ game.height w + 1
        → (state_of (run_events sv account before c).pb ≡ failed)
          ⊎ (state_of (run_events sv account (before ++ (w, tick) ∷ after) c).pb ≡ success)
    unfolding at_tick
    run_events-success before after w c h waiting ours r chain deep =
        elim (Leads-pending (state_of (run_events sv account before c).pb) (
          subst (λ (s : TradeStatus). Leads s (state_of (run_events sv account before c).pb))
            waiting (run_events-Extends sv account before c).status)) [
              | inl still ↦ inr (from_success (sees still))
              | inr (inl over) ↦ inr (from_success (stays over))
              | inr (inr over) ↦ inl over
            ]
      where
        c' : Ctx W
        c' = record (run_events sv account before c) { world = w }

        from_success :
            state_of (at_tick before w c).pb ≡ success
            → state_of (run_events sv account (before ++ (w, tick) ∷ after) c).pb ≡ success
        from_success e =
            ap (λ (x : Ctx W). state_of x.pb) (run_events-at_tick before after w c)
            ∙ Leads-success (state_of (run_events sv account after (at_tick before w c)).pb) (
                subst
                  (λ (s : TradeStatus).
                    Leads s (state_of (run_events sv account after (at_tick before w c)).pb))
                  e (run_events-Extends sv account after (at_tick before w c)).status)

        stays :
            state_of (run_events sv account before c).pb ≡ success
            → state_of (at_tick before w c).pb ≡ success
        stays e = Leads-success (state_of (at_tick before w c).pb) (
            subst (λ (s : TradeStatus). Leads s (state_of (at_tick before w c).pb)) e
              (update-Extends sv c').status)

        sees :
            state_of (run_events sv account before c).pb ≡ pending
            → state_of (at_tick before w c).pb ≡ success
        sees e =
            let same : c'.pb.our_psbt ≡ some psbt =
              subst (λ (o : Option Bytes). Kept o c'.pb.our_psbt) ours
                (run_events-Extends sv account before c).our_psbt in
            let q : leb (h + sv.config.confirmations) (game.height w + 1) ≡ true = ground arith in
            ap (λ x. state_of x.1.pb) (update-watch sv table game psbt t it c' e same r)
            ∙ rw (chain, q) refl

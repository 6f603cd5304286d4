-- ===== src/Trade/Update/Grows.antt =====
-- Update only extends a trade's data, however it ends; so does any run of the three methods.
use democrit_marketplace.Prelude.{
  ℕ, ◌≡◌, refl, subst, Option, none, some, not, List, [], ◌∷◌, Bytes, bytes_eq, codes, leb, ◌+◌,
}
use democrit_marketplace.Proto.{
  TradeStatus, initiated, pending, success, failed, abandoned, TradeState, ProcessingMessage,
}
use democrit_marketplace.Services.{Services}
use democrit_marketplace.Trade.{Ctx, state_of}
use democrit_marketplace.Trade.Growth.{
  Leads, Extends, Extends-refl, Extends-trans, Extends-state, Extends-conflict_height,
}
use democrit_marketplace.Trade.Rules.{
  Always, Always-pure, Always-world, Always-check, Always-read, Always-if, Always-end, Always-gets,
}
use democrit_marketplace.Trade.Messages.{handle_message}
use democrit_marketplace.Trade.Messages.Grows.{handle_message-Extends}
use democrit_marketplace.Trade.Reply.{has_reply}
use democrit_marketplace.Trade.Reply.Grows.{has_reply-Extends}
use democrit_marketplace.Trade.Update.{
  set_state, note_conflict, update_pending, update_initiated, update_by_state, update, is_timed_out,
}

module _ {W : Type 0} (sv : Services W) where
  from_state :
      (pb : TradeState) (a b : TradeStatus)
      → a ≡ state_of pb
      → Leads a b
      → Extends pb (set_state b pb)
  from_state pb a b e leads = Extends-state pb b (subst (λ s. Leads s b) e leads)

  note_conflict-Grows :
      (height : ℕ) (since : Option ℕ) (c : Ctx W)
      → pending ≡ state_of c.pb
      → Always (Extends c.pb) (note_conflict sv height since) c
  unfolding note_conflict
  note_conflict-Grows height none c e = Always-end _ _ (Extends-conflict_height c.pb (some height))
  note_conflict-Grows height (some since) c e =
      Always-if (leb (since + sv.config.confirmations) (height + 1)) _ _ _
        (λ _. Always-end _ _ (from_state c.pb pending failed e tt))
        (λ _. Always-pure _ _ (Extends-refl c.pb))

  update_pending-Grows :
      (c : Ctx W) → pending ≡ state_of c.pb → Always (Extends c.pb) (update_pending sv c.pb) c
  unfolding update_pending
  update_pending-Grows c e =
      let stay = Extends-refl c.pb in
      Always-check _ _ _ stay λ _. Always-world _ _ _ stay λ report w₁ _.
        Always-world _ _ _ stay λ confirmed w₂ _.
          Always-if confirmed _ _ _ (λ _. Always-end _ _ (from_state c.pb pending success e tt))
            λ _.
              Always-if (not (bytes_eq report.state (codes "unknown"))) _ _ _
                (λ _. Always-end _ _ (Extends-conflict_height c.pb none))
                λ _. Always-world _ _ _ stay λ conflicted w₃ _.
                  Always-if (not conflicted) _ _ _
                    (λ _. Always-end _ _ (Extends-conflict_height c.pb none))
                    (λ _.
                      note_conflict-Grows report.height c.pb.conflict_height
                        (record c { world = w₃ }) e)

  update_by_state-Grows :
      (st : TradeStatus) (c : Ctx W)
      → st ≡ state_of c.pb
      → Always (Extends c.pb) (update_by_state sv c.pb st) c
  unfolding update_by_state update_initiated
  update_by_state-Grows initiated c e = Always-gets _ _ _ (
      Always-if (is_timed_out sv c.pb c.world) _ _ _
        (λ _. Always-end _ _ (from_state c.pb initiated abandoned e tt))
        (λ _. Always-pure _ _ (Extends-refl c.pb)))
  update_by_state-Grows pending c e = update_pending-Grows c e
  update_by_state-Grows success c e = Always-pure _ _ (Extends-refl c.pb)
  update_by_state-Grows failed c e = Always-pure _ _ (Extends-refl c.pb)
  update_by_state-Grows abandoned c e = Always-pure _ _ (Extends-refl c.pb)

  grows : (c : Ctx W) → Always (Extends c.pb) (update sv) c
  unfolding update
  grows c = Always-read _ _ (update_by_state-Grows (state_of c.pb) c refl)

  pub update-Extends : (c : Ctx W) → Extends c.pb (update sv c).1.pb
  update-Extends c = (grows c).holds

-- What can happen to a trade: a message comes in, we take our turn, or the timer runs.
pub data Event : Type 0 where
  incoming : ProcessingMessage → Event
  turn tick : Event

module _ {W : Type 0} (sv : Services W) (account : Bytes) where
  abbrev pub after_event : Event → Ctx W → Ctx W
  after_event (incoming msg) c = record c { pb = handle_message account msg c.pb }
  after_event turn c = (has_reply sv account c).1
  after_event tick c = (update sv c).1

  -- The outside may change at will between two events.
  abbrev pub run_events : List (W × Event) → Ctx W → Ctx W
  run_events [] c = c
  run_events ((w, e) ∷ es) c = run_events es (after_event e (record c { world = w }))

  event-Extends : (e : Event) (c : Ctx W) → Extends c.pb (after_event e c).pb
  event-Extends (incoming msg) c = handle_message-Extends account msg c.pb
  event-Extends turn c = has_reply-Extends sv account c
  event-Extends tick c = update-Extends sv c

  -- Over any sequence of messages, turns and timer runs, in any worlds, and however each call ends:
  -- the order, units, counterparty and start time stay; the seller's data and the two PSBTs keep
  -- their values once they are set; and the state moves along the state machine only, so that a
  -- final state is never left.
  pub run_events-Extends : (es : List (W × Event)) (c : Ctx W) → Extends c.pb (run_events es c).pb
  run_events-Extends [] c = Extends-refl c.pb
  run_events-Extends ((w, e) ∷ es) c =
      Extends-trans (event-Extends e (record c { world = w }))
        (run_events-Extends es (after_event e (record c { world = w })))

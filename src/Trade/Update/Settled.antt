-- ===== src/Trade/Update/Settled.antt =====
-- When Update settles a trade: what has been seen on the chain before a final state is set.
use democrit_marketplace.Prelude.{
  ℕ, ◌+◌, ◌*◌, ◌≤◌, ◌<◌, ◌≡◌, refl, ◌≢◌, Bool, true, Option, none, some, is_some-true, not-false,
  get_or, not, List, [], ◌∷◌, Bytes, bytes_eq, bytes_eq_iff, codes, leb, arith,
}
use democrit_marketplace.Outcome.{ok}
use democrit_marketplace.Exec.Rules.{
  Returns, Returns-elim, Returns-map, Returns-bind, Returns-check, Returns-if, Returns-pure,
}
use democrit_marketplace.Json.{Json, field, is_null, string_of, uint_of, elements_of}
use democrit_marketplace.Proto.{
  TradeStatus, initiated, pending, success, failed, abandoned, TradeState,
}
use democrit_marketplace.Services.{Services}
use democrit_marketplace.Trade.{Ctx, state_of}
use democrit_marketplace.Trade.Rules.{
  Always, Always-pure, Always-world, Always-check, Always-read, Always-if, Always-end, Always-gets,
}
use democrit_marketplace.Trade.Update.{
  Report, any_spent, check_trade, is_confirmed, is_conflicted, note_conflict, update_pending,
  update_initiated, update_by_state, update, is_timed_out,
}

module _ {W : Type 0} (sv : Services W) where
  -- An input of which the node has said that it is spent.
  pub data Spent : List Json → Type 0 where
    here :
        {vin : Json} {rest : List Json} {utxo : Json} (at after : W)
        → sv.xaya.gettxout
            (string_of (field vin (codes "txid")))
            (uint_of (field vin (codes "vout")))
            at
          ≡ (ok utxo, after)
        → is_null utxo ≡ true
        → Spent (vin ∷ rest)
    there : {vin : Json} {rest : List Json} → Spent rest → Spent (vin ∷ rest)

  -- The GSP has reported our transaction as confirmed, deep enough below its height.
  pub record Confirmed (pb : TradeState) : Type 0 where
    pub psbt : Bytes
    pub ours : pb.our_psbt ≡ some psbt
    pub at : W
    pub after : W
    pub report : Report
    pub reported : check_trade sv psbt at ≡ (ok report, after)
    pub confirmed : report.state ≡ codes "confirmed"
    pub deep :
        uint_of (field report.entry (codes "height")) + sv.config.confirmations ≤ report.height + 1

  -- The GSP does not know our transaction, an input of it is spent, and this was seen first long
  -- enough ago.
  pub record Conflicted (pb : TradeState) : Type 0 where
    pub psbt : Bytes
    pub ours : pb.our_psbt ≡ some psbt
    pub at : W
    pub after : W
    pub report : Report
    pub reported : check_trade sv psbt at ≡ (ok report, after)
    pub unknown : report.state ≡ codes "unknown"
    pub spent : Spent (elements_of (field report.tx (codes "vin")))
    pub since : ℕ
    pub noted : pb.conflict_height ≡ some since
    pub old : since + sv.config.confirmations ≤ report.height + 1

  pub record TimedOut (pb : TradeState) : Type 0 where
    pub at : W
    pub waiting : state_of pb ≡ initiated
    pub late : pb.start_time * 1000 + sv.config.trade_timeout_ms < sv.config.current_time at * 1000

  -- What a state says that the trade was not in before.
  abbrev pub Reason : TradeStatus → TradeState → Type 0
  Reason initiated pb = ⊥
  Reason pending pb = ⊥
  Reason success pb = Confirmed pb
  Reason failed pb = Conflicted pb
  Reason abandoned pb = TimedOut pb

  abbrev pub Justified : TradeState → TradeState → Type 0
  Justified pb pb' = state_of pb' ≢ state_of pb → Reason (state_of pb') pb

  any_spent-Spent :
      (vins : List Json) (w : W) → Returns (λ b _. b ≡ true → Spent vins) (any_spent sv vins) w
  unfolding any_spent
  any_spent-Spent [] w = Returns-pure _ _ (λ e. cc)
  any_spent-Spent (vin ∷ rest) w = Returns-check _ _ _ λ _. Returns-check _ _ _ λ _.
      Returns-check _ _ _ λ _. Returns-bind _ _ _ λ utxo w₁ e.
        Returns-if (is_null utxo) _ _ _ (λ gone. Returns-pure _ _ (λ _. here w w₁ e gone))
          (λ _. later (any_spent-Spent rest w₁))
    where
      use_later : (b : Bool) → (b ≡ true → Spent rest) → b ≡ true → Spent (vin ∷ rest)
      use_later b f e = there (f e)

      later :
          {w₁ : W}
          → Returns (λ b _. b ≡ true → Spent rest) (any_spent sv rest) w₁
          → Returns (λ b _. b ≡ true → Spent (vin ∷ rest)) (any_spent sv rest) w₁
      later h = Returns-map (λ b _ f. use_later b f) h

  is_conflicted-Spent :
      (report : Report) (w : W)
      → Returns
          (λ b _. b ≡ true → Spent (elements_of (field report.tx (codes "vin"))))
          (is_conflicted sv report)
          w
  unfolding is_conflicted
  is_conflicted-Spent report w = Returns-check _ _ _ λ _. any_spent-Spent _ w

  abbrev Deep : Report → Type 0
  Deep report =
      (report.state ≡ codes "confirmed")
      × (uint_of (field report.entry (codes "height")) + sv.config.confirmations
          ≤ report.height + 1)

  is_confirmed-Deep :
      (report : Report) (w : W) → Returns (λ b _. b ≡ true → Deep report) (is_confirmed sv report) w
  unfolding is_confirmed
  is_confirmed-Deep report w =
      Returns-if (not (bytes_eq report.state (codes "confirmed"))) _ _ _
        (λ _. Returns-pure _ _ (λ e. cc))
        (λ same. Returns-check _ _ _ λ _.
          Returns-check _ _ _
            λ _. Returns-pure _ _ (λ deep. ((bytes_eq_iff _ _).0 (not-false _ same), leb-≤ deep)))
    where
      leb-≤ : {a b : ℕ} → leb a b ≡ true → a ≤ b
      leb-≤ h = ground arith

  note_conflict-Justified :
      (c : Ctx W) (height : ℕ) (since : Option ℕ)
      → ((s : ℕ) → since ≡ some s → s + sv.config.confirmations ≤ height + 1 → Conflicted c.pb)
      → Always (Justified c.pb) (note_conflict sv height since) c
  unfolding note_conflict
  note_conflict-Justified c height none why = Always-end _ _ (λ moved. absurd (moved refl))
  note_conflict-Justified c height (some since) why =
      Always-if (leb (since + sv.config.confirmations) (height + 1)) _ _ _
        (λ old. Always-end _ _ (λ _. why since refl (ground arith)))
        (λ _. Always-pure _ _ (λ moved. absurd (moved refl)))

  update_pending-Justified : (c : Ctx W) → Always (Justified c.pb) (update_pending sv c.pb) c
  unfolding update_pending
  update_pending-Justified c =
      let stay : Justified c.pb c.pb = λ moved. absurd (moved refl) in
      Always-check _ _ _ stay λ have. Always-world _ _ _ stay λ report w₁ e₁.
        Always-world _ _ _ stay λ confirmed w₂ e₂.
          Always-if confirmed _ _ _
            (λ yes. Always-end _ _ (λ _.
              let deep = Returns-elim (is_confirmed-Deep report w₁) e₂ yes in
              record {
                psbt = get_or c.pb.our_psbt [];
                ours = is_some-true c.pb.our_psbt [] have;
                at = c.world;
                after = w₁;
                report = report;
                reported = e₁;
                confirmed = deep.0;
                deep = deep.1;
              }))
            (λ _.
              Always-if (not (bytes_eq report.state (codes "unknown"))) _ _ _
                (λ _. Always-end _ _ (λ moved. absurd (moved refl)))
                (λ unknown. Always-world _ _ _ stay λ conflicted w₃ e₃.
                  Always-if (not conflicted) _ _ _
                    (λ _. Always-end _ _ (λ moved. absurd (moved refl)))
                    (λ spent.
                      note_conflict-Justified (record c { world = w₃ }) report.height
                        c.pb.conflict_height
                        λ since noted old. record {
                          psbt = get_or c.pb.our_psbt [];
                          ours = is_some-true c.pb.our_psbt [] have;
                          at = c.world;
                          after = w₁;
                          report = report;
                          reported = e₁;
                          unknown = (bytes_eq_iff _ _).0 (not-false _ unknown);
                          spent =
                              Returns-elim (is_conflicted-Spent report w₂) e₃ (not-false _ spent);
                          since = since;
                          noted = noted;
                          old = old;
                        })))

  update_by_state-Justified :
      (st : TradeStatus) (c : Ctx W)
      → state_of c.pb ≡ st
      → Always (Justified c.pb) (update_by_state sv c.pb st) c
  unfolding update_by_state update_initiated
  update_by_state-Justified initiated c e = Always-gets _ _ _ (
      Always-if (is_timed_out sv c.pb c.world) _ _ _
        (λ late. Always-end _ _ (λ _. record { at = c.world; waiting = e; late = ground arith }))
        (λ _. Always-pure _ _ (λ moved. absurd (moved refl))))
  update_by_state-Justified pending c e = update_pending-Justified c
  update_by_state-Justified success c e = Always-pure _ _ (λ moved. absurd (moved refl))
  update_by_state-Justified failed c e = Always-pure _ _ (λ moved. absurd (moved refl))
  update_by_state-Justified abandoned c e = Always-pure _ _ (λ moved. absurd (moved refl))

  justified : (c : Ctx W) → Always (Justified c.pb) (update sv) c
  unfolding update
  justified c = Always-read _ _ (update_by_state-Justified (state_of c.pb) c refl)

  -- However Update ends: if it has changed the state of a trade, then to success with our transaction
  -- reported as confirmed deep enough, to failed with our transaction unknown to the GSP, one of its
  -- inputs spent and the conflict noted long enough ago, or from initiated to abandoned after the
  -- timeout.
  pub update-Justified :
      (c : Ctx W)
      → state_of (update sv c).1.pb ≢ state_of c.pb
      → Reason (state_of (update sv c).1.pb) c.pb
  update-Justified c moved = (justified c).holds moved

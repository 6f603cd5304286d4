-- ===== src/Manager/Archive.antt =====
-- The loop of UpdateAndArchiveTrades: where each trade goes.
pub mod Whole
use democrit_marketplace.Prelude.{
  ◌≡◌, refl, sym, ap, ◌∙◌, subst, Bool, true, false, Option, none, some, is_some, get_or, not,
  not-true, not-false, List, [], ◌∷◌, ◌++◌, map, append-nil, append_assoc, All, Bytes, ltb, leb,
  ◌&&◌, if◌then◌else◌, ◌+◌, ◌%◌, ◌^◌, Bool-cases, inl, inr,
}
use democrit_marketplace.Outcome.{Outcome, ok, raise, abort}
use democrit_marketplace.Exec.{Exec, pure, lift, fatal, ◌>>=◌, ◌>>◌}
use democrit_marketplace.Exec.Rules.{
  Returns, Returns-elim, Returns-map, Returns-bind, Returns-if, Returns-check, Returns-lift,
  Returns-pure,
}
use democrit_marketplace.Proto.{
  Order, TradeStatus, initiated, pending, success, failed, abandoned, TradeInfo, TradeState,
  GlobalState,
}
use democrit_marketplace.Services.{Services}
use democrit_marketplace.Trade.{Ctx, state_of, get_role, is_finalised, get_public_info}
use democrit_marketplace.Trade.Growth.{Extends}
use democrit_marketplace.Trade.Reply.{is_maker}
use democrit_marketplace.Trade.Update.{update}
use democrit_marketplace.Trade.Update.Grows.{update-Extends}
use democrit_marketplace.MyOrders.{Global, Hooks, outside, run_refresh, add, remove_by_id, unlock}
use democrit_marketplace.MyOrders.Refresh.{
  Leaves, Leaves-elim, Leaves-pure, Leaves-reads, Leaves-write, Leaves-written, Leaves-ask,
  Leaves-outside, Leaves-bind, Leaves-check, Leaves-if, Returns-reads, Returns-write,
  run_refresh-Keys,
}
use democrit_marketplace.Manager.{
  on_trade, empty_trade, reduced, release_inputs, release_name, name_output_of, handle_success,
  release_order, handle_failure, archive_loop, handle_by_state, handle_finalised,
  update_and_archive_trades,
}

-- Each trade, extended, is in one of two lists: those that go on and those that are final.
pub data Sorted : List TradeState → List TradeState → List TradeState → Type 0 where
  done : Sorted [] [] []
  stays :
      {t t' : TradeState} {ts active finalised : List TradeState}
      → Extends t t'
      → is_finalised t' ≡ false
      → Sorted ts active finalised
      → Sorted (t ∷ ts) (t' ∷ active) finalised
  goes :
      {t t' : TradeState} {ts active finalised : List TradeState}
      → Extends t t'
      → is_finalised t' ≡ true
      → Sorted ts active finalised
      → Sorted (t ∷ ts) active (t' ∷ finalised)

-- The loop appends to what it has been given.
pub record Archived (account : Bytes) (ts active₀ finalised₀ : List TradeState)
    (archive₀ : List TradeInfo) (finalised : List TradeState) (s : GlobalState) : Type 0 where
  pub going_on : List TradeState
  pub final : List TradeState
  pub sorted : Sorted ts going_on final
  pub trades : s.trades ≡ active₀ ++ going_on
  pub result : finalised ≡ finalised₀ ++ final
  pub archive : s.trade_archive ≡ archive₀ ++ map (get_public_info account) final

module _ {account : Bytes} {ts active₀ finalised₀ : List TradeState} {archive₀ : List TradeInfo}
    {finalised : List TradeState} {s : GlobalState} {t t' : TradeState} where
  Archived-stays :
      Extends t t'
      → is_finalised t' ≡ false
      → Archived account ts (active₀ ++ t' ∷ []) finalised₀ archive₀ finalised s
      → Archived account (t ∷ ts) active₀ finalised₀ archive₀ finalised s
  Archived-stays ext live h = record {
    going_on = t' ∷ h.going_on;
    final = h.final;
    sorted = stays ext live h.sorted;
    trades = h.trades ∙ append_assoc active₀ (t' ∷ []) h.going_on;
    result = h.result;
    archive = h.archive;
  }

  Archived-goes :
      Extends t t'
      → is_finalised t' ≡ true
      → Archived account ts active₀
          (finalised₀ ++ t' ∷ [])
          (archive₀ ++ get_public_info account t' ∷ [])
          finalised
          s
      → Archived account (t ∷ ts) active₀ finalised₀ archive₀ finalised s
  Archived-goes ext final h = record {
    going_on = h.going_on;
    final = t' ∷ h.final;
    sorted = goes ext final h.sorted;
    trades = h.trades;
    result = h.result ∙ append_assoc finalised₀ (t' ∷ []) h.final;
    archive =
        h.archive
        ∙ append_assoc archive₀ (get_public_info account t' ∷ [])
            (map (get_public_info account) h.final);
  }

module _ {W : Type 0} where
  pub Returns-on_trade :
      {A B : Type 0} {Q : B → Global W → Type 0} (t : TradeState) (m : Exec (Ctx W) A)
      (f : Option A × TradeState → Exec (Global W) B) (g : Global W)
      → ((r : Option A) (c : Ctx W)
          → (m (record { pb = t; world = g.world })).1 ≡ c
          → Returns Q (f (r, c.pb)) (record g { world = c.world }))
      → Returns Q (on_trade t m >>= f) g
  unfolding ◌>>=◌ on_trade
  Returns-on_trade {A} {B} {Q} t m f g h = go (m (record { pb = t; world = g.world })) refl
    where
      go :
          (r : Outcome A × Ctx W)
          → m (record { pb = t; world = g.world }) ≡ r
          → Returns Q (on_trade t m >>= f) g
      go (ok a, c) e = record { holds = rw e (h (some a) c (ap (λ r. r.1) e)).holds }
      go (raise, c) e = record { holds = rw e (h none c (ap (λ r. r.1) e)).holds }
      go (abort, c) e = record { holds = rw e tt }

module _ {W : Type 0} (sv : Services W) (hooks : Hooks W) where
  pub archive_loop-Archived :
      (account : Bytes) (ts visited active finalised : List TradeState) (g : Global W)
      → Returns
          (λ r h. Archived account ts active finalised g.state.trade_archive r h.state)
          (archive_loop sv hooks account ts visited active finalised)
          g
  unfolding archive_loop lift
  archive_loop-Archived account [] visited active finalised g = Returns-write _ _ _ (
      Returns-pure _ _ (record {
        going_on = [];
        final = [];
        sorted = done;
        trades = sym (append-nil active);
        result = sym (append-nil finalised);
        archive = sym (append-nil g.state.trade_archive);
      }))
  archive_loop-Archived account (t ∷ rest) visited active finalised g =
      Returns-on_trade _ _ _ _ λ r c e. Returns-write _ _ _ (
        Returns-if (not (is_some r)) _ _ _ (λ _. record { holds = tt })
          (λ _.
            Returns-if (is_finalised c.pb) _ _ _
              (λ final. Returns-write _ _ _ (
                Returns-write _ _ _ (
                  Returns-map (λ r h. Archived-goes (ext c e) final)
                    (archive_loop-Archived account rest _ active _ _))))
              (λ live. Returns-write _ _ _ (
                Returns-map (λ r h. Archived-stays (ext c e) live)
                  (archive_loop-Archived account rest _ _ finalised _)))))
    where
      ext : (c : Ctx W) → (update sv (record { pb = t; world = g.world })).1 ≡ c → Extends t c.pb
      ext c e =
          subst (λ (c : Ctx W). Extends t c.pb) e
            (update-Extends sv (record { pb = t; world = g.world }))

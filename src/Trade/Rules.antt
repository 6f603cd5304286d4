-- ===== src/Trade/Rules.antt =====
-- What the methods of a trade leave in its data, however they end: one rule for each kind of step.
use democrit_marketplace.Prelude.{◌≡◌, refl, subst, Bool, true, false, if◌then◌else◌}
use democrit_marketplace.Outcome.{Outcome, ok, raise, abort}
use democrit_marketplace.Exec.{Exec, pure, gets, check, ◌>>=◌}
use democrit_marketplace.Exec.Rules.{Returns}
use democrit_marketplace.Proto.{TradeState}
use democrit_marketplace.Trade.{Ctx, on_world}
use democrit_marketplace.Trade.Reply.{read_pb, update_pb}

-- `Q` holds of the trade's data after the call, also where it raised or aborted.
pub record Always {W A : Type 0} (Q : TradeState → Type 0) (m : Exec (Ctx W) A) (c : Ctx W)
    : Type 0 where
  pub holds : Q (m c).1.pb

pub Always-map :
    {W A : Type 0} {P Q : TradeState → Type 0} {m : Exec (Ctx W) A} {c : Ctx W}
    → ((pb : TradeState) → P pb → Q pb)
    → Always P m c
    → Always Q m c
Always-map f h = record { holds = f _ h.holds }

-- What held however the call ended holds where it returned.
pub Always-elim :
    {W A : Type 0} {Q : TradeState → Type 0} {m : Exec (Ctx W) A} {c c' : Ctx W} {a : A}
    → Always Q m c
    → m c ≡ (ok a, c')
    → Q c'.pb
Always-elim {W} {A} {Q} h e = subst (λ (r : Outcome A × Ctx W). Q r.1.pb) e h.holds

module _ {W : Type 0} {Q : TradeState → Type 0} where
  pub Always-pure : {A : Type 0} (a : A) (c : Ctx W) → Q c.pb → Always Q (pure a) c
  unfolding pure
  Always-pure a c h = record { holds = h }

  pub Always-bind :
      {A B : Type 0} (m : Exec (Ctx W) A) (f : A → Exec (Ctx W) B) (c : Ctx W)
      → Always Q m c
      → ((a : A) (c' : Ctx W) → m c ≡ (ok a, c') → Always Q (f a) c')
      → Always Q (m >>= f) c
  unfolding ◌>>=◌
  Always-bind {A} {B} m f c h k = go (m c) refl
    where
      go : (r : Outcome A × Ctx W) → m c ≡ r → Always Q (m >>= f) c
      go (ok a, c') e = record { holds = rw e (k a c' e).holds }
      go (raise, c') e = record { holds = rw e (rw e at h.holds) }
      go (abort, c') e = record { holds = rw e (rw e at h.holds) }

  pub Always-on_world : {A : Type 0} (m : Exec W A) (c : Ctx W) → Q c.pb → Always Q (on_world m) c
  unfolding ◌>>=◌
  Always-on_world m c h = record { holds = h }

  -- A call to the outside leaves the trade's data as they were.
  pub Always-world :
      {A B : Type 0} (m : Exec W A) (f : A → Exec (Ctx W) B) (c : Ctx W)
      → Q c.pb
      → ((a : A) (w : W) → m c.world ≡ (ok a, w) → Always Q (f a) (record c { world = w }))
      → Always Q (on_world m >>= f) c
  unfolding ◌>>=◌
  Always-world {A} {B} m f c h k = go (m c.world) refl
    where
      go : (r : Outcome A × W) → m c.world ≡ r → Always Q (on_world m >>= f) c
      go (ok a, w) e = record { holds = rw e (k a w e).holds }
      go (raise, w) e = record { holds = rw e h }
      go (abort, w) e = record { holds = rw e h }

  pub Always-check :
      {B : Type 0} (b : Bool) (f : Unit → Exec (Ctx W) B) (c : Ctx W)
      → Q c.pb
      → (b ≡ true → Always Q (f tt) c)
      → Always Q (check b >>= f) c
  unfolding ◌>>=◌
  Always-check true f c h k = record { holds = (k refl).holds }
  Always-check false f c h k = record { holds = h }

  pub Always-read :
      {B : Type 0} (f : TradeState → Exec (Ctx W) B) (c : Ctx W)
      → Always Q (f c.pb) c
      → Always Q (read_pb >>= f) c
  unfolding ◌>>=◌
  Always-read f c h = record { holds = h.holds }

  pub Always-update :
      {B : Type 0} (g : TradeState → TradeState) (f : Unit → Exec (Ctx W) B) (c : Ctx W)
      → Always Q (f tt) (record c { pb = g c.pb })
      → Always Q (update_pb g >>= f) c
  unfolding ◌>>=◌
  Always-update g f c h = record { holds = h.holds }

  pub Always-if :
      {B : Type 0} (b : Bool) (m n : Exec (Ctx W) B) (c : Ctx W)
      → (b ≡ true → Always Q m c)
      → (b ≡ false → Always Q n c)
      → Always Q (if b then m else n) c
  Always-if true m n c h k = h refl
  Always-if false m n c h k = k refl

-- The same steps, where only what the method returns is of interest.
module _ {W : Type 0} where
  pub Returns-world :
      {A B : Type 0} {Q : B → Ctx W → Type 0} (m : Exec W A) (f : A → Exec (Ctx W) B) (c : Ctx W)
      → ((a : A) (w : W) → m c.world ≡ (ok a, w) → Returns Q (f a) (record c { world = w }))
      → Returns Q (on_world m >>= f) c
  unfolding ◌>>=◌
  Returns-world {A} {B} {Q} m f c k = go (m c.world) refl
    where
      go : (r : Outcome A × W) → m c.world ≡ r → Returns Q (on_world m >>= f) c
      go (ok a, w) e = record { holds = rw e (k a w e).holds }
      go (raise, w) e = record { holds = rw e tt }
      go (abort, w) e = record { holds = rw e tt }

  pub Returns-read :
      {B : Type 0} {Q : B → Ctx W → Type 0} (f : TradeState → Exec (Ctx W) B) (c : Ctx W)
      → Returns Q (f c.pb) c
      → Returns Q (read_pb >>= f) c
  unfolding ◌>>=◌
  Returns-read f c h = record { holds = h.holds }

  pub Returns-update :
      {B : Type 0} {Q : B → Ctx W → Type 0} (g : TradeState → TradeState)
      (f : Unit → Exec (Ctx W) B) (c : Ctx W)
      → Returns Q (f tt) (record c { pb = g c.pb })
      → Returns Q (update_pb g >>= f) c
  unfolding ◌>>=◌
  Returns-update g f c h = record { holds = h.holds }

module _ {W : Type 0} {Q : TradeState → Type 0} where
  -- A write as the last step.
  pub Always-end : (g : TradeState → TradeState) (c : Ctx W) → Q (g c.pb) → Always Q (update_pb g) c
  unfolding ◌>>=◌
  Always-end g c h = record { holds = h }

  pub Always-gets :
      {A B : Type 0} (g : Ctx W → A) (f : A → Exec (Ctx W) B) (c : Ctx W)
      → Always Q (f (g c)) c
      → Always Q (gets g >>= f) c
  unfolding ◌>>=◌
  Always-gets g f c h = record { holds = h.holds }

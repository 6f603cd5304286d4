-- ===== src/Exec/Rules.antt =====
-- How to reason about a method without running it: one rule for each way to build it.
use democrit_marketplace.Prelude.{
  ◌≡◌, refl, subst, Bool, true, false, Option, none, some, if◌then◌else◌,
}
use democrit_marketplace.Outcome.{Outcome, ok, raise, abort}
use democrit_marketplace.Exec.{Exec, pure, lift, gets, check, check_some, ◌>>=◌}

-- What holds of the result and the new state where the method returns.
abbrev pub WhenOk : {S A : Type 0} → (A → S → Type 0) → Outcome A × S → Type 0
WhenOk Q (ok a, s) = Q a s
WhenOk Q (raise, s) = Unit
WhenOk Q (abort, s) = Unit

WhenOk-map :
    {S A : Type 0} {P Q : A → S → Type 0} (r : Outcome A × S)
    → ((a : A) (s : S) → P a s → Q a s)
    → WhenOk P r
    → WhenOk Q r
WhenOk-map (ok a, s) f h = f a s h
WhenOk-map (raise, s) f h = tt
WhenOk-map (abort, s) f h = tt

pub record Returns {S A : Type 0} (Q : A → S → Type 0) (m : Exec S A) (s : S) : Type 0 where
  pub holds : WhenOk Q (m s)

module _ {S : Type 0} where
  pub Returns-elim :
      {A : Type 0} {Q : A → S → Type 0} {m : Exec S A} {s s' : S} {a : A}
      → Returns Q m s
      → m s ≡ (ok a, s')
      → Q a s'
  Returns-elim {Q} h e = subst (WhenOk Q) e h.holds

  pub Returns-map :
      {A : Type 0} {P Q : A → S → Type 0} {m : Exec S A} {s : S}
      → ((a : A) (t : S) → P a t → Q a t)
      → Returns P m s
      → Returns Q m s
  Returns-map {m} {s} f h = record { holds = WhenOk-map (m s) f h.holds }

  -- After a step that returned, what remains has to meet the claim.
  pub Returns-bind :
      {A B : Type 0} {Q : B → S → Type 0} (m : Exec S A) (f : A → Exec S B) (s : S)
      → ((a : A) (s' : S) → m s ≡ (ok a, s') → Returns Q (f a) s')
      → Returns Q (m >>= f) s
  unfolding ◌>>=◌
  Returns-bind {A} {B} {Q} m f s h = go (m s) refl
    where
      go : (r : Outcome A × S) → m s ≡ r → Returns Q (m >>= f) s
      go (ok a, s') e = record { holds = rw e (h a s' e).holds }
      go (raise, s') e = record { holds = rw e tt }
      go (abort, s') e = record { holds = rw e tt }

  pub Returns-check :
      {B : Type 0} {Q : B → S → Type 0} (b : Bool) (f : Unit → Exec S B) (s : S)
      → (b ≡ true → Returns Q (f tt) s)
      → Returns Q (check b >>= f) s
  unfolding ◌>>=◌
  Returns-check true f s h = record { holds = (h refl).holds }
  Returns-check false f s h = record { holds = tt }

  pub Returns-check_some :
      {A B : Type 0} {Q : B → S → Type 0} (o : Option A) (f : A → Exec S B) (s : S)
      → ((a : A) → o ≡ some a → Returns Q (f a) s)
      → Returns Q (check_some o >>= f) s
  unfolding ◌>>=◌
  Returns-check_some (some a) f s h = record { holds = (h a refl).holds }
  Returns-check_some none f s h = record { holds = tt }

  pub Returns-lift :
      {A B : Type 0} {Q : B → S → Type 0} (r : Outcome A) (f : A → Exec S B) (s : S)
      → ((a : A) → r ≡ ok a → Returns Q (f a) s)
      → Returns Q (lift r >>= f) s
  unfolding ◌>>=◌
  Returns-lift (ok a) f s h = record { holds = (h a refl).holds }
  Returns-lift raise f s h = record { holds = tt }
  Returns-lift abort f s h = record { holds = tt }

  pub Returns-if :
      {B : Type 0} {Q : B → S → Type 0} (b : Bool) (m n : Exec S B) (s : S)
      → (b ≡ true → Returns Q m s)
      → (b ≡ false → Returns Q n s)
      → Returns Q (if b then m else n) s
  Returns-if true m n s h k = h refl
  Returns-if false m n s h k = k refl

  pub Returns-gets :
      {A B : Type 0} {Q : B → S → Type 0} (g : S → A) (f : A → Exec S B) (s : S)
      → Returns Q (f (g s)) s
      → Returns Q (gets g >>= f) s
  unfolding ◌>>=◌
  Returns-gets g f s h = record { holds = h.holds }

  pub Returns-pure :
      {B : Type 0} {Q : B → S → Type 0} (b : B) (s : S) → Q b s → Returns Q (pure b) s
  unfolding pure
  Returns-pure b s h = record { holds = h }

-- What holds of the state afterwards, whether the method returns, raises or aborts.
pub record Ends {S A : Type 0} (Q : S → Type 0) (m : Exec S A) (s : S) : Type 0 where
  pub holds : Q (m s).1

module _ {S : Type 0} {Q : S → Type 0} where
  pub Ends-pure : {A : Type 0} (a : A) (s : S) → Q s → Ends Q (pure a) s
  unfolding pure
  Ends-pure a s h = record { holds = h }

  pub Ends-bind :
      {A B : Type 0} (m : Exec S A) (f : A → Exec S B) (s : S)
      → Ends Q m s
      → ((a : A) (s' : S) → m s ≡ (ok a, s') → Q s' → Ends Q (f a) s')
      → Ends Q (m >>= f) s
  unfolding ◌>>=◌
  Ends-bind {A} {B} m f s h k = go (m s) refl
    where
      go : (r : Outcome A × S) → m s ≡ r → Ends Q (m >>= f) s
      go (ok a, s') e = record {
        holds = rw e (k a s' e (subst (λ (r : Outcome A × S). Q r.1) e h.holds)).holds;
      }
      go (raise, s') e = record { holds = rw e (rw e at h.holds) }
      go (abort, s') e = record { holds = rw e (rw e at h.holds) }

  pub Ends-check :
      {B : Type 0} (b : Bool) (f : Unit → Exec S B) (s : S)
      → Q s
      → (b ≡ true → Ends Q (f tt) s)
      → Ends Q (check b >>= f) s
  unfolding ◌>>=◌
  Ends-check true f s h k = record { holds = (k refl).holds }
  Ends-check false f s h k = record { holds = h }

  pub Ends-if :
      {B : Type 0} (b : Bool) (m n : Exec S B) (s : S)
      → (b ≡ true → Ends Q m s)
      → (b ≡ false → Ends Q n s)
      → Ends Q (if b then m else n) s
  Ends-if true m n s h k = h refl
  Ends-if false m n s h k = k refl

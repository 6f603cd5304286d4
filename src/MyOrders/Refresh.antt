-- ===== src/MyOrders/Refresh.antt =====
-- Reasoning about the methods on the global state, and what RunRefresh leaves of the orders.
use democrit_marketplace.Prelude.{
  ℕ, ◌≡◌, refl, sym, subst, ap, ◌∙◌, Bool, true, false, List, [], ◌∷◌, ◌++◌, append-nil,
  append_assoc, All, All-append, Bytes, if◌then◌else◌,
}
use democrit_marketplace.Outcome.{Outcome, ok, raise, abort}
use democrit_marketplace.Exec.{Exec, pure, check, ◌>>=◌}
use democrit_marketplace.Exec.Rules.{Returns, Returns-elim, Returns-bind, Returns-if}
use democrit_marketplace.Proto.{Order, OrderMap, GlobalState}
use democrit_marketplace.MyOrders.{
  Global, Hooks, outside, set_orders, write, read, refresh_loop, run_refresh,
}
use democrit_marketplace.MyOrders.Orders.{keys, keys-append}

-- A property of the program's own state, however the method ends.
pub record Leaves {W A : Type 0} (Q : GlobalState → Type 0) (m : Exec (Global W) A) (g : Global W)
    : Type 0 where
  pub holds : Q (m g).1.state

module _ {W : Type 0} where
  pub Returns-reads :
      {B : Type 0} {Q : B → Global W → Type 0} (f : GlobalState → Exec (Global W) B) (g : Global W)
      → Returns Q (f g.state) g
      → Returns Q (read >>= f) g
  unfolding ◌>>=◌
  Returns-reads f g h = record { holds = h.holds }

  pub Returns-write :
      {B : Type 0} {Q : B → Global W → Type 0} (u : GlobalState → GlobalState)
      (f : Unit → Exec (Global W) B) (g : Global W)
      → Returns Q (f tt) (record g { state = u g.state })
      → Returns Q (write u >>= f) g
  unfolding ◌>>=◌
  Returns-write u f g h = record { holds = h.holds }

  pub Returns-written :
      {Q : Unit → Global W → Type 0} (u : GlobalState → GlobalState) (g : Global W)
      → Q tt (record g { state = u g.state })
      → Returns Q (write u) g
  unfolding ◌>>=◌
  Returns-written u g h = record { holds = h }

  pub Returns-outside :
      {A B : Type 0} {Q : B → Global W → Type 0} (m : Exec W A) (f : A → Exec (Global W) B)
      (g : Global W)
      → ((a : A) (w : W) → m g.world ≡ (ok a, w) → Returns Q (f a) (record g { world = w }))
      → Returns Q (outside m >>= f) g
  unfolding ◌>>=◌
  Returns-outside {A} {B} {Q} m f g k = go (m g.world) refl
    where
      go : (r : Outcome A × W) → m g.world ≡ r → Returns Q (outside m >>= f) g
      go (ok a, w) e = record { holds = rw e (k a w e).holds }
      go (raise, w) e = record { holds = rw e tt }
      go (abort, w) e = record { holds = rw e tt }

  pub Returns-left :
      {A : Type 0} (Q : GlobalState → Type 0) (m : Exec W A) (g : Global W)
      → Q g.state
      → Returns (λ _ h. Q h.state) (outside m) g
  unfolding ◌>>=◌
  Returns-left {A} Q m g h = go (m g.world) refl
    where
      go : (r : Outcome A × W) → m g.world ≡ r → Returns (λ _ h. Q h.state) (outside m) g
      go (ok a, w) e = record { holds = rw e h }
      go (raise, w) e = record { holds = rw e tt }
      go (abort, w) e = record { holds = rw e tt }

  pub Leaves-elim :
      {A : Type 0} {Q : GlobalState → Type 0} {m : Exec (Global W) A} {g g' : Global W} {a : A}
      → Leaves Q m g
      → m g ≡ (ok a, g')
      → Q g'.state
  Leaves-elim {A} {Q} h e = subst (λ (r : Outcome A × Global W). Q r.1.state) e h.holds

  module _ {Q : GlobalState → Type 0} where
    pub Leaves-bind :
        {A B : Type 0} (m : Exec (Global W) A) (f : A → Exec (Global W) B) (g : Global W)
        → Leaves Q m g
        → ((a : A) (g' : Global W) → m g ≡ (ok a, g') → Q g'.state → Leaves Q (f a) g')
        → Leaves Q (m >>= f) g
    unfolding ◌>>=◌
    Leaves-bind {A} {B} m f g h k = go (m g) refl
      where
        go : (r : Outcome A × Global W) → m g ≡ r → Leaves Q (m >>= f) g
        go (ok a, g') e = record { holds = rw e (k a g' e (Leaves-elim h e)).holds }
        go (raise, g') e = record { holds = rw e (rw e at h.holds) }
        go (abort, g') e = record { holds = rw e (rw e at h.holds) }

    pub Leaves-pure : {A : Type 0} (a : A) (g : Global W) → Q g.state → Leaves Q (pure a) g
    unfolding pure
    Leaves-pure a g h = record { holds = h }

    pub Leaves-check :
        {B : Type 0} (b : Bool) (f : Unit → Exec (Global W) B) (g : Global W)
        → Q g.state
        → (b ≡ true → Leaves Q (f tt) g)
        → Leaves Q (check b >>= f) g
    unfolding ◌>>=◌
    Leaves-check true f g h k = record { holds = (k refl).holds }
    Leaves-check false f g h k = record { holds = h }

    pub Leaves-if :
        {B : Type 0} (b : Bool) (m n : Exec (Global W) B) (g : Global W)
        → (b ≡ true → Leaves Q m g)
        → (b ≡ false → Leaves Q n g)
        → Leaves Q (if b then m else n) g
    Leaves-if true m n g h k = h refl
    Leaves-if false m n g h k = k refl

    pub Leaves-reads :
        {B : Type 0} (f : GlobalState → Exec (Global W) B) (g : Global W)
        → Leaves Q (f g.state) g
        → Leaves Q (read >>= f) g
    unfolding ◌>>=◌
    Leaves-reads f g h = record { holds = h.holds }

    pub Leaves-write :
        {B : Type 0} (u : GlobalState → GlobalState) (f : Unit → Exec (Global W) B) (g : Global W)
        → Leaves Q (f tt) (record g { state = u g.state })
        → Leaves Q (write u >>= f) g
    unfolding ◌>>=◌
    Leaves-write u f g h = record { holds = h.holds }

    pub Leaves-written :
        (u : GlobalState → GlobalState) (g : Global W) → Q (u g.state) → Leaves Q (write u) g
    unfolding ◌>>=◌
    Leaves-written u g h = record { holds = h }

    pub Leaves-outside :
        {A : Type 0} (m : Exec W A) (g : Global W) → Q g.state → Leaves Q (outside m) g
    unfolding ◌>>=◌
    Leaves-outside m g h = record { holds = h }

    pub Leaves-ask :
        {A B : Type 0} (m : Exec W A) (f : A → Exec (Global W) B) (g : Global W)
        → Q g.state
        → ((a : A) (w : W) → m g.world ≡ (ok a, w) → Leaves Q (f a) (record g { world = w }))
        → Leaves Q (outside m >>= f) g
    unfolding ◌>>=◌
    Leaves-ask {A} {B} m f g h k = go (m g.world) refl
      where
        go : (r : Outcome A × W) → m g.world ≡ r → Leaves Q (outside m >>= f) g
        go (ok a, w) e = record { holds = rw e (k a w e).holds }
        go (raise, w) e = record { holds = rw e h }
        go (abort, w) e = record { holds = rw e h }

module _ {W : Type 0} (hooks : Hooks W) where
  -- What holds of every order, and of the rest of the state, holds after the loop has returned.
  refresh_loop-Kept :
      (P : ℕ × Order → Type 0) (account : Bytes) (rest visited updated : OrderMap) (g : Global W)
      → All P updated
      → All P rest
      → Returns
          (λ _ h. All P h.state.own_orders)
          (refresh_loop hooks account visited updated rest)
          g
  unfolding refresh_loop
  refresh_loop-Kept P account [] visited updated g hu hr = Returns-written _ _ hu
  refresh_loop-Kept P account ((id, o) ∷ rest) visited updated g hu (ho, hr) =
      Returns-outside _ _ _ λ valid w e.
        Returns-if valid _ _ _
          (λ _.
            Returns-write _ _ _
              (refresh_loop-Kept P account rest _ _ _ (All-append P updated _ hu (ho, tt)) hr))
          (λ _. refresh_loop-Kept P account rest _ _ _ hu hr)

  pub run_refresh-Kept :
      (P : ℕ × Order → Type 0) (g : Global W)
      → All P g.state.own_orders
      → Returns (λ _ h. All P h.state.own_orders) (run_refresh hooks) g
  unfolding run_refresh
  run_refresh-Kept P g h = Returns-reads _ _ (
      Returns-bind _ _ _ λ _ g' e. Returns-reads _ _ (
        Returns-left (λ s. All P s.own_orders) _ _
          (Returns-elim (refresh_loop-Kept P g.state.account g.state.own_orders [] [] g tt h) e)))

  -- A property of the keys that stays when one of them is dropped.
  abbrev pub Hereditary : (List ℕ → Type 0) → Type 0
  Hereditary I = (xs : List ℕ) (k : ℕ) (ys : List ℕ) → I (xs ++ k ∷ ys) → I (xs ++ ys)

  -- The keys move from `rest` to the end of the list before it.
  shift :
      (I : List ℕ → Type 0) (xs : OrderMap) (k : ℕ) (o p : Order) (rest : OrderMap)
      → I (keys xs ++ keys ((k, o) ∷ rest))
      → I (keys (xs ++ (k, p) ∷ []) ++ keys rest)
  shift I xs k o p rest h =
      subst I
        (sym (append_assoc (keys xs) (k ∷ []) (keys rest))
          ∙ ap (λ ks. ks ++ keys rest) (sym (keys-append xs ((k, p) ∷ []))))
        h

  -- However the loop ends, the keys are some of those that were there.
  refresh_loop-Keys :
      (Q : GlobalState → Type 0) (I : List ℕ → Type 0)
      → Hereditary I
      → ((m : OrderMap) (s : GlobalState) → Q s → I (keys m) → Q (set_orders m s))
      → (account : Bytes) (rest visited updated : OrderMap) (g : Global W) → Q g.state
      → I (keys visited ++ keys rest)
      → I (keys updated ++ keys rest)
      → Leaves Q (refresh_loop hooks account visited updated rest) g
  unfolding refresh_loop
  refresh_loop-Keys Q I her put account [] visited updated g q iv iu =
      Leaves-written _ _ (put updated g.state q (subst I (append-nil (keys updated)) iu))
  refresh_loop-Keys Q I her put account ((k, o) ∷ rest) visited updated g q iv iu =
      Leaves-ask _ _ _ q λ valid w e.
        Leaves-if valid _ _ _
          (λ _. Leaves-write _ _ _ (
            refresh_loop-Keys Q I her put account rest _ _ _
              (put _ g.state q (
                subst I (sym (keys-append (visited ++ (k, hooks.moved_order o) ∷ []) rest))
                  (shift I visited k o (hooks.moved_order o) rest iv)))
              (shift I visited k o (hooks.moved_order o) rest iv) (shift I updated k o o rest iu)))
          (λ _.
            refresh_loop-Keys Q I her put account rest _ _ _ q (shift I visited k o o rest iv)
              (her (keys updated) k (keys rest) iu))

  pub run_refresh-Keys :
      (Q : GlobalState → Type 0) (I : List ℕ → Type 0)
      → Hereditary I
      → ((m : OrderMap) (s : GlobalState) → Q s → I (keys m) → Q (set_orders m s))
      → (g : Global W) → Q g.state
      → I (keys g.state.own_orders)
      → Leaves Q (run_refresh hooks) g
  unfolding run_refresh
  run_refresh-Keys Q I her put g q i = Leaves-reads _ _ (
      Leaves-bind _ _ _
        (refresh_loop-Keys Q I her put g.state.account g.state.own_orders [] [] g q i i)
        λ _ g' e q'. Leaves-reads _ _ (Leaves-outside _ _ q'))

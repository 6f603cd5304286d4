-- ===== src/OrderBook/Timeouts.antt =====
-- The loop of RunTimeout: which accounts are left.
pub mod Runs
use democrit_marketplace.Prelude.{
  ℕ, ◌+◌, ◌≤◌, ◌<◌, ◌≡◌, refl, sym, subst, ap, ◌∙◌, Bool, true, false, Option, none, some, is_some,
  get_or, List, [], ◌∷◌, ◌++◌, All, All-append, Bytes, bytes_eq, bytes_eq_iff, eq→bytes_eq, ltb,
  ◌&&◌, Bool-cases, inl, inr, arith, if◌then◌else◌,
}
use democrit_marketplace.Json.{bytes_lt}
use democrit_marketplace.Exec.{Exec, pure, check, modify, ◌>>=◌, ◌>>◌}
use democrit_marketplace.Exec.Rules.{Ends, Ends-check}
use democrit_marketplace.Proto.{OrdersOfAccount, OrderMap}
use democrit_marketplace.OrderBook.{
  AccountOrders, Accounts, UpdateEvent, OrderBook, put_account, erase_account, all_have_fields,
  store_orders, update_orders, is_stale, drop_stale, timeout_loop, run_timeout,
}

-- The accounts that are not older than the timeout.
unfoldable pub fresh_only : ℕ → ℕ → Accounts → Accounts
fresh_only timeout now [] = []
fresh_only timeout now ((i, a) ∷ rest) =
    let later = fresh_only timeout now rest in
    if is_stale timeout now a.last_update then later else (i, a) ∷ later

-- The queue has the event of the account's last update.
pub data Noted (i : Bytes) (a : AccountOrders) : List UpdateEvent → Type 0 where
  here :
      {e : UpdateEvent} {q : List UpdateEvent}
      → e.account ≡ i
      → e.time ≡ a.last_update
      → Noted i a (e ∷ q)
  there : {e : UpdateEvent} {q : List UpdateEvent} → Noted i a q → Noted i a (e ∷ q)

abbrev pub AllNoted : List UpdateEvent → Accounts → Type 0
AllNoted q as_ = All (λ e. Noted e.0 e.1 q) as_

-- Events are in the order of their times, from `t` on.
abbrev pub Ascending : ℕ → List UpdateEvent → Type 0
Ascending t [] = Unit
Ascending t (e ∷ q) = (t ≤ e.time) × Ascending e.time q

-- The events are not later than `now`.
abbrev pub Until : ℕ → List UpdateEvent → Type 0
Until now q = All (λ e. e.time ≤ now) q

Ascending-from : (s t : ℕ) (q : List UpdateEvent) → s ≤ t → Ascending t q → Ascending s q
Ascending-from s t [] h asc = tt
Ascending-from s t (e ∷ q) h asc = (omega (arith, h, asc.0), asc.1)

pub Noted-append :
    (i : Bytes) (a : AccountOrders) (q r : List UpdateEvent) → Noted i a q → Noted i a (q ++ r)
Noted-append i a [] r n = elim n [ ]
Noted-append i a (e ∷ q) r (here x y) = here x y
Noted-append i a (e ∷ q) r (there n) = there (Noted-append i a q r n)

pub Noted-last :
    (i : Bytes) (a : AccountOrders) (q : List UpdateEvent) (e : UpdateEvent)
    → e.account ≡ i
    → e.time ≡ a.last_update
    → Noted i a (q ++ e ∷ [])
Noted-last i a [] e x y = here x y
Noted-last i a (f ∷ q) e x y = there (Noted-last i a q e x y)

-- From `t` on, all that is noted is that old at most.
Noted-after :
    (i : Bytes) (a : AccountOrders) (t : ℕ) (q : List UpdateEvent)
    → Ascending t q
    → Noted i a q
    → t ≤ a.last_update
Noted-after i a t [] asc n = elim n [ ]
Noted-after i a t (e ∷ q) asc (here x y) = omega (arith, asc.0, y)
Noted-after i a t (e ∷ q) asc (there n) =
    let later = Noted-after i a e.time q asc.1 n in omega (arith, asc.0, later)

module _ (timeout now : ℕ) where
  fresh_only-drop_stale :
      (k : Bytes) (as_ : Accounts)
      → fresh_only timeout now (drop_stale timeout now k as_) ≡ fresh_only timeout now as_
  unfolding fresh_only drop_stale
  fresh_only-drop_stale k [] = refl
  fresh_only-drop_stale k ((i, a) ∷ as_) = elim (Bool-cases (is_stale timeout now a.last_update)) [
    | inl old ↦ elim (Bool-cases (bytes_eq i k)) [
      | inl same ↦ rw (same, old) (fresh_only-drop_stale k as_)
      | inr other ↦ rw (other, old) (fresh_only-drop_stale k as_)
    ]
    | inr young ↦ elim (Bool-cases (bytes_eq i k)) [
      | inl same ↦ rw (same, young) (rw young (ap (λ r. (i, a) ∷ r) (fresh_only-drop_stale k as_)))
      | inr other ↦ rw (other, young) (ap (λ r. (i, a) ∷ r) (fresh_only-drop_stale k as_))
    ]
  ]

  fresh_only-All :
      (as_ : Accounts)
      → All (λ e. is_stale timeout now e.1.last_update ≡ false) as_
      → fresh_only timeout now as_ ≡ as_
  unfolding fresh_only
  fresh_only-All [] h = refl
  fresh_only-All ((i, a) ∷ as_) (hk, h) = rw hk (ap (λ r. (i, a) ∷ r) (fresh_only-All as_ h))

  -- An event that is stale is needed no more, once its account has been looked at.
  Noted-drop :
      (i : Bytes) (a : AccountOrders) (e : UpdateEvent) (q : List UpdateEvent)
      → (bytes_eq i e.account && is_stale timeout now a.last_update) ≡ false
      → is_stale timeout now e.time ≡ true
      → Noted i a (e ∷ q)
      → Noted i a q
  Noted-drop i a e q kept old (there n) = n
  Noted-drop i a e q kept old (here x y) = absurd (true-ne-false (sym both ∙ kept))
    where
      true-ne-false : true ≡ false → ⊥
      true-ne-false h = cc

      both : (bytes_eq i e.account && is_stale timeout now a.last_update) ≡ true
      both = rw (eq→bytes_eq i e.account (sym x), sym y, old) refl

  AllNoted-drop :
      (e : UpdateEvent) (q : List UpdateEvent) (as_ : Accounts)
      → is_stale timeout now e.time ≡ true
      → AllNoted (e ∷ q) as_
      → AllNoted q (drop_stale timeout now e.account as_)
  unfolding drop_stale
  AllNoted-drop e q [] old h = tt
  AllNoted-drop e q ((i, a) ∷ as_) old (hk, h) =
      elim (Bool-cases (bytes_eq i e.account && is_stale timeout now a.last_update)) [
        | inl gone ↦ rw gone (AllNoted-drop e q as_ old h)
        | inr kept ↦ rw kept (Noted-drop i a e q kept old hk, AllNoted-drop e q as_ old h)
      ]

  -- What the loop leaves, for a queue that notes all accounts.
  pub record Left (t : ℕ) (q : List UpdateEvent) (as_ : Accounts) (b : OrderBook) : Type 0 where
    pub exact : b.orders ≡ fresh_only timeout now as_
    pub noted : AllNoted b.updates b.orders
    pub ascending : Ascending t b.updates
    pub until : (n : ℕ) → Until n q → Until n b.updates

  pub timeout_loop-Left :
      (q : List UpdateEvent) (t : ℕ) (as_ : Accounts)
      → Ascending t q
      → AllNoted q as_
      → Left t q as_ (timeout_loop timeout now q as_)
  unfolding timeout_loop
  timeout_loop-Left [] t [] asc noted = record {
    exact = unfold fresh_only in refl;
    noted = tt;
    ascending = tt;
    until = λ n h. h;
  }
  timeout_loop-Left [] t ((i, a) ∷ as_) asc (none_noted, h) = absurd (nowhere none_noted)
    where
      nowhere : Noted i a [] → ⊥
      nowhere n = elim n [ ]
  timeout_loop-Left (e ∷ q) t as_ asc noted = elim (Bool-cases (is_stale timeout now e.time)) [
    | inl old ↦ rw old (
        let later =
          timeout_loop-Left q e.time (drop_stale timeout now e.account as_) asc.1
            (AllNoted-drop e q as_ old noted) in
        record {
          exact = later.exact ∙ fresh_only-drop_stale e.account as_;
          noted = later.noted;
          ascending = Ascending-from t e.time _ asc.0 later.ascending;
          until = λ n h. later.until n h.1;
        })
    | inr young ↦ rw young (record {
      exact = sym (fresh_only-All as_ (all_young as_ young noted));
      noted = noted;
      ascending = asc;
      until = λ n h. h;
    })
  ]
    where
      all_young :
          (as_ : Accounts)
          → is_stale timeout now e.time ≡ false
          → AllNoted (e ∷ q) as_
          → All (λ x. is_stale timeout now x.1.last_update ≡ false) as_
      all_young [] young h = tt
      all_young ((i, a) ∷ as_) young (hk, h) =
          (still (Noted-after i a e.time (e ∷ q) (omega arith, asc.1) hk), all_young as_ young h)
        where
          still : e.time ≤ a.last_update → is_stale timeout now a.last_update ≡ false
          still le = ground arith

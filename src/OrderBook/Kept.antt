-- ===== src/OrderBook/Kept.antt =====
-- orderbook.cpp: what holds of each account's entry, and is kept by whatever changes the entries.
use democrit_marketplace.Prelude.{
  ℕ, inl, inr, Bool, true, false, List, [], ◌∷◌, Bytes, bytes_eq, ◌&&◌, All, Bool-cases,
  if◌then◌else◌,
}
use democrit_marketplace.Json.{bytes_lt}
use democrit_marketplace.OrderBook.{
  AccountOrders, Accounts, UpdateEvent, put_account, erase_account, is_stale, drop_stale,
  timeout_loop,
}

All-if {ℓ κ} :
    {A : Type ℓ} (P : A → Type κ) (b : Bool) (xs ys : List A)
    → All P xs
    → All P ys
    → All P (if b then xs else ys)
All-if P true xs ys h k = h
All-if P false xs ys h k = k

module _ (P : Bytes × AccountOrders → Type 0) where
  pub put_account-All :
      (k : Bytes) (v : AccountOrders) (as_ : Accounts)
      → P (k, v)
      → All P as_
      → All P (put_account k v as_)
  unfolding put_account
  put_account-All k v [] p h = (p, tt)
  put_account-All k v ((i, w) ∷ rest) p (q, h) =
      All-if P (bytes_eq i k) ((k, v) ∷ rest) _ (p, h)
        (All-if P (bytes_lt k i) ((k, v) ∷ (i, w) ∷ rest) ((i, w) ∷ put_account k v rest)
          (p, (q, h)) (q, put_account-All k v rest p h))

  pub erase_account-All : (k : Bytes) (as_ : Accounts) → All P as_ → All P (erase_account k as_)
  unfolding erase_account
  erase_account-All k [] h = tt
  erase_account-All k ((i, w) ∷ rest) (q, h) =
      let later = erase_account-All k rest h in
      All-if P (bytes_eq i k) (erase_account k rest) ((i, w) ∷ erase_account k rest) later
        (q, later)

  drop_stale-All :
      (timeout now : ℕ) (k : Bytes) (as_ : Accounts)
      → All P as_
      → All P (drop_stale timeout now k as_)
  unfolding drop_stale
  drop_stale-All timeout now k [] h = tt
  drop_stale-All timeout now k ((i, w) ∷ rest) (q, h) =
      let later = drop_stale-All timeout now k rest h in
      All-if P (bytes_eq i k && is_stale timeout now w.last_update) (drop_stale timeout now k rest)
        ((i, w) ∷ drop_stale timeout now k rest) later (q, later)

  pub timeout_loop-All :
      (timeout now : ℕ) (q : List UpdateEvent) (as_ : Accounts)
      → All P as_
      → All P (timeout_loop timeout now q as_).orders
  unfolding timeout_loop
  timeout_loop-All timeout now [] as_ h = h
  timeout_loop-All timeout now (e ∷ q) as_ h = elim (Bool-cases (is_stale timeout now e.time)) [
    | inl b ↦
        rw (timeout_loop, b)
          (timeout_loop-All timeout now q (drop_stale timeout now e.account as_)
            (drop_stale-All timeout now e.account as_ h))
    | inr b ↦ rw (timeout_loop, b) h
  ]

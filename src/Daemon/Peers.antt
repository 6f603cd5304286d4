-- ===== src/Daemon/Peers.antt =====
-- daemon.cpp: what a message from another account can change.
use democrit_marketplace.Prelude.{
  ℕ, ◌≡◌, refl, sym, ap, ◌∙◌, inl, inr, true, false, Option, none, some, is_some, get_or, [], ◌∷◌,
  Bytes, bytes_eq, bytes_eq→eq, All, Bool-cases, if◌then◌else◌,
}
use democrit_marketplace.Outcome.{Outcome, ok}
use democrit_marketplace.Exec.{Exec, gets, modify, zoom, ◌>>=◌}
use democrit_marketplace.Json.{bytes_lt}
use democrit_marketplace.Proto.{OrderMap, OrdersOfAccount}
use democrit_marketplace.Exec.Rules.{Ends, Ends-bind, Ends-check, Ends-pure}
use democrit_marketplace.Authenticator.Names.Digits.{IsByte}
use democrit_marketplace.Authenticator.Known.{is_jid_of, authenticate-account}
use democrit_marketplace.Daemon
use democrit_marketplace.Daemon.{
  Setup, on_world, update_book, valid_orders, handle_orders, if_account, handle_message,
  handle_disconnect, authenticated,
}
use democrit_marketplace.OrderBook.{
  AccountOrders, Accounts, OrderBook, put_account, erase_account, all_have_fields, store_orders,
  update_orders,
}

-- The orders of an account in the book.
unfoldable pub orders_of : Bytes → Accounts → OrderMap
orders_of a [] = []
orders_of a ((k, v) ∷ rest) = if bytes_eq k a then v.orders else orders_of a rest

-- The keys of the book.
keys_differ : (i k a : Bytes) → bytes_eq i k ≡ true → bytes_eq k a ≡ false → bytes_eq i a ≡ false
keys_differ i k a e h = rw (bytes_eq→eq i k e) h

orders_of-put_account :
    (k a : Bytes) (v : AccountOrders) (as_ : Accounts)
    → bytes_eq k a ≡ false
    → orders_of a (put_account k v as_) ≡ orders_of a as_
unfolding orders_of put_account
orders_of-put_account k a v [] h = rw h refl
orders_of-put_account k a v ((i, w) ∷ rest) h = elim (Bool-cases (bytes_eq i k)) [
  | inl e ↦ rw (e, orders_of, h, keys_differ i k a e h) refl
  | inr e ↦ elim (Bool-cases (bytes_lt k i)) [
    | inl f ↦ rw (e, f, orders_of, h) refl
    | inr f ↦ rw (e, f, orders_of, orders_of-put_account k a v rest h) refl
  ]
]

orders_of-erase_account :
    (k a : Bytes) (as_ : Accounts)
    → bytes_eq k a ≡ false
    → orders_of a (erase_account k as_) ≡ orders_of a as_
unfolding orders_of erase_account
orders_of-erase_account k a [] h = refl
orders_of-erase_account k a ((i, w) ∷ rest) h = elim (Bool-cases (bytes_eq i k)) [
  | inl e ↦ rw (e, keys_differ i k a e h) (orders_of-erase_account k a rest h)
  | inr e ↦ rw (e, orders_of, orders_of-erase_account k a rest h) refl
]

orders_of-store_orders :
    (now : ℕ) (k a : Bytes) (os : OrderMap) (b : OrderBook)
    → bytes_eq k a ≡ false
    → orders_of a (store_orders now k os b).orders ≡ orders_of a b.orders
unfolding store_orders
orders_of-store_orders now k a [] b h = orders_of-erase_account k a b.orders h
orders_of-store_orders now k a (o ∷ os) b h = orders_of-put_account k a _ b.orders h

module _ {J W : Type 0} (setup : Setup J W) (a : Bytes) (d : Daemon.Daemon J W) where
  -- The account's orders in the book are the same, and so are the user's orders and trades.
  abbrev pub IsKept : Daemon.Daemon J W → Type 0
  IsKept e =
      (orders_of a e.all_orders.orders ≡ orders_of a d.all_orders.orders)
      × (e.global.state ≡ d.global.state)

  update_orders-Ends :
      (now : ℕ) (upd : OrdersOfAccount) (b : OrderBook)
      → bytes_eq (get_or upd.account []) a ≡ false
      → Ends
          (λ (c : OrderBook). orders_of a c.orders ≡ orders_of a b.orders)
          (update_orders now upd)
          b
  unfolding update_orders modify
  update_orders-Ends now upd b h = Ends-check (is_some upd.account) _ b refl (λ e.
      Ends-check (all_have_fields upd.orders) _ b refl (λ f. record {
        holds = orders_of-store_orders now (get_or upd.account []) a upd.orders b h;
      }))

  update_book-Ends :
      (upd : OrdersOfAccount) (e : Daemon.Daemon J W)
      → bytes_eq (get_or upd.account []) a ≡ false
      → IsKept e
      → Ends IsKept (update_book setup upd) e
  unfolding update_book gets zoom ◌>>=◌
  update_book-Ends upd e h (k, s) = record {
    holds = ((update_orders-Ends (setup.book_time e.global.world) upd e.all_orders h).holds ∙ k, s);
  }

  handle_orders-Ends :
      (x : Bytes) (ext : Option OrdersOfAccount) (e : Daemon.Daemon J W)
      → bytes_eq x a ≡ false
      → IsKept e
      → Ends IsKept (handle_orders setup x ext) e
  unfolding handle_orders zoom
  handle_orders-Ends x none e h k = Ends-pure tt e k
  handle_orders-Ends x (some ext) e h k =
      Ends-bind (on_world (valid_orders setup x [] ext.orders)) _ e (record { holds = k })
        (λ orders.
          λ f. λ eq. λ l. update_book-Ends (record { account = some x; orders = orders }) f h l)

  -- A handler that acts for the account of a JID that is not one of `a`.
  as_account-Ends :
      (jid : J) (f : Bytes → Exec (Daemon.Daemon J W) Unit)
      → All IsByte a
      → is_jid_of setup.jids setup.xid_servers a jid ≡ false
      → ((x : Bytes) (e : Daemon.Daemon J W)
          → bytes_eq x a ≡ false
          → IsKept e
          → Ends IsKept (f x) e)
      → Ends IsKept
          (authenticated setup jid >>= λ (account : Option Bytes). if_account setup account f)
          d
  unfolding zoom if_account
  as_account-Ends jid f ha other h =
      Ends-bind (authenticated setup jid) _ d (record { holds = (refl, refl) }) go
    where
      go :
          (account : Option Bytes) (e : Daemon.Daemon J W)
          → authenticated setup jid d ≡ (ok account, e)
          → IsKept e
          → Ends IsKept (if_account setup account f) e
      go none e eq k = Ends-pure tt e k
      go (some x) e eq k =
          h x e
            (sym (
                authenticate-account setup.jids setup.xid_servers jid d.auth x a
                  (ap (λ (r : Outcome (Option Bytes) × Daemon.Daemon J W). r.0) eq) ha)
              ∙ other)
            k

  -- A message on the room from a JID that is not the account's, and the news that such a JID has left
  -- the room, change no orders of the account in the book and nothing in the user's own state, however
  -- the handler ends.
  pub handle_message-IsKept :
      (jid : J) (ext : Option OrdersOfAccount)
      → All IsByte a
      → is_jid_of setup.jids setup.xid_servers a jid ≡ false
      → IsKept (handle_message setup jid ext d).1 × IsKept (handle_disconnect setup jid d).1
  unfolding handle_message handle_disconnect
  handle_message-IsKept jid ext ha other = (
    (as_account-Ends jid (λ x. handle_orders setup x ext) ha other
        (λ x. λ e. handle_orders-Ends x ext e)).holds,
    (as_account-Ends jid (λ x. update_book setup (record { account = some x; orders = [] })) ha
        other (λ x. λ e. update_book-Ends (record { account = some x; orders = [] }) e)).holds,
  )

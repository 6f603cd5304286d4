-- ===== src/Manager/Check/Units.antt =====
-- TradeManager::CheckOrder and OrderTaken of trades.cpp in 64 bits: how many units a trade of one of our
-- orders has, and what Trade::HandleSuccess leaves of the order.
use democrit_marketplace.Prelude.{
  ℕ, ◌+◌, ◌-◌, ◌^◌, ◌≤◌, ◌<◌, ◌≡◌, ◌↔◌, ◌⊎◌, refl, ap, true, get_or, List, [], ◌∷◌, ◌++◌, Bytes,
  ltb, Bool-cases, inl, inr, arith,
}
use democrit_marketplace.Prelude.Int.{ℤ, pos_part, neg_part, ◌≤ℤ◌, to_int64}
use democrit_marketplace.Outcome.{ok}
use democrit_marketplace.Proto.{Order, TradeState}
use democrit_marketplace.Services.{Services}
use democrit_marketplace.MyOrders.{Global, Hooks}
use democrit_marketplace.Manager.{check_order, has_all_fields, to_uint64, reduced, new_trade}
use democrit_marketplace.Manager.Negotiation.{order_taken}
use democrit_marketplace.Manager.Check.{Takeable, ltb_ℤ-≤, check_order-Takeable, order_taken-Result}

to_uint64-to_int64 : (u : ℕ) → u < 2 ^ 64 → to_uint64 (to_int64 u) ≡ u
to_uint64-to_int64 u small = elim (Bool-cases (ltb u (2 ^ 63))) [
  | inl e ↦ rw e refl
  | inr e ↦ rw e (omega (arith, small))
]

-- The two halves of the 64-bit numbers.
Halves : ℕ → Type 0
Halves n =
    ((n < 2 ^ 63) × (pos_part (to_int64 n) ≡ n) × (neg_part (to_int64 n) ≡ 0))
    ⊎ ((2 ^ 63 ≤ n) × (pos_part (to_int64 n) ≡ 0) × (neg_part (to_int64 n) ≡ 2 ^ 64 - n))

halves : (n : ℕ) → n < 2 ^ 64 → Halves n
unfolding Halves
halves n small = elim (Bool-cases (ltb n (2 ^ 63))) [
  | inl e ↦ inl (ground arith, rw e refl, rw e refl)
  | inr e ↦ inr (ground arith, rw e refl, rw e (omega (arith, small)))
]

-- Between two bounds as int64_t is between them as uint64_t, where these are in their order.
between :
    (low u high : ℕ)
    → low ≤ high
    → high < 2 ^ 64
    → u < 2 ^ 64
    → to_int64 low ≤ℤ to_int64 u
    → to_int64 u ≤ℤ to_int64 high
    → (low ≤ u) × (u ≤ high)
unfolding Halves
between low u high ordered top small above below = elim (halves u small) [
  | inl (us, up, un) ↦ elim (halves high top) [
    | inl (hs, hp, hn) ↦ elim (halves low (omega arith)) [
      | inl (ls, lp, ln) ↦
          (omega (arith, above, up, un, lp, ln), omega (arith, below, up, un, hp, hn))
      | inr (ls, lp, ln) ↦ absurd (omega (arith, ls, hs, ordered))
    ]
    | inr (hs, hp, hn) ↦ absurd (omega (arith, below, up, un, hp, hn, hs, top))
  ]
  | inr (us, up, un) ↦ elim (halves low (omega (arith, ordered, top))) [
    | inl (ls, lp, ln) ↦ absurd (omega (arith, above, up, un, lp, ln, small))
    | inr (ls, lp, ln) ↦ elim (halves high top) [
      | inl (hs, hp, hn) ↦ absurd (omega (arith, ls, hs, ordered))
      | inr (hs, hp, hn) ↦ (
        omega (arith, above, up, un, lp, ln, ls, us, small, ordered, top),
        omega (arith, below, up, un, hp, hn, hs, us, small, top),
      )
    ]
  ]
]

-- Both bounds are in the same half, or the upper one is not negative as int64_t.
same_half :
    (low u high : ℕ)
    → low ≤ high
    → high < 2 ^ 64
    → u < 2 ^ 64
    → to_int64 low ≤ℤ to_int64 u
    → to_int64 u ≤ℤ to_int64 high
    → (high < 2 ^ 63) ⊎ (2 ^ 63 ≤ low)
unfolding Halves
same_half low u high ordered top small above below = elim (halves high top) [
  | inl (hs, hp, hn) ↦ inl hs
  | inr (hs, hp, hn) ↦ elim (halves low (omega arith)) [
    | inr (ls, lp, ln) ↦ inr ls
    | inl (ls, lp, ln) ↦ absurd (omega (arith, above, below, lp, ln, hp, hn, top))
  ]
]

-- Between two bounds of the same half.
back :
    (low u high : ℕ)
    → high < 2 ^ 64
    → (high < 2 ^ 63) ⊎ (2 ^ 63 ≤ low)
    → low ≤ u
    → u ≤ high
    → (to_int64 low ≤ℤ to_int64 u) × (to_int64 u ≤ℤ to_int64 high)
unfolding Halves
back low u high top (inl small) above below = elim (halves low (omega arith)) [
  | inr (ls, lp, ln) ↦ absurd (omega arith)
  | inl (ls, lp, ln) ↦ elim (halves u (omega arith)) [
    | inr (us, up, un) ↦ absurd (omega arith)
    | inl (us, up, un) ↦ elim (halves high top) [
      | inr (hs, hp, hn) ↦ absurd (omega arith)
      | inl (hs, hp, hn) ↦
          (omega (arith, above, up, un, lp, ln), omega (arith, below, up, un, hp, hn))
    ]
  ]
]
back low u high top (inr large) above below = elim (halves low (omega arith)) [
  | inl (ls, lp, ln) ↦ absurd (omega arith)
  | inr (ls, lp, ln) ↦ elim (halves u (omega arith)) [
    | inl (us, up, un) ↦ absurd (omega arith)
    | inr (us, up, un) ↦ elim (halves high top) [
      | inl (hs, hp, hn) ↦ absurd (omega arith)
      | inr (hs, hp, hn) ↦ (
        omega (arith, above, up, un, lp, ln, ls, us, top),
        omega (arith, below, up, un, hp, hn, hs, us, top),
      )
    ]
  ]
]

-- What CheckOrder accepts, on the 64-bit numbers themselves.
abbrev pub CanTake : Order → ℕ → Type 0
CanTake o u =
    (has_all_fields o ≡ true)
    × (get_or o.min_units 0 ≤ u)
    × (u ≤ o.max_units)
    × ((o.max_units < 2 ^ 63) ⊎ (2 ^ 63 ≤ get_or o.min_units 0))

takes :
    (o : Order) (units : ℤ)
    → has_all_fields o ≡ true
    → to_int64 (get_or o.min_units 0) ≤ℤ units
    → units ≤ℤ to_int64 o.max_units
    → check_order o units ≡ true
unfolding check_order
takes o units all above below =
    rw
      (
        (ltb_ℤ-≤ (to_int64 o.max_units) units).1 below,
        (ltb_ℤ-≤ units (to_int64 (get_or o.min_units 0))).1 above,
      )
      all

complete : (o : Order) (units : ℤ) → Takeable o units → has_all_fields o ≡ true
unfolding has_all_fields
complete o units t = rw (t.account, t.id, t.asset, t.type, t.price) refl

-- For an order whose minimum is not above its maximum, and a number of units that came as 64 bits,
-- CheckOrder returns true exactly where the order has all the fields that it asks for, the units are at
-- least the minimum (zero if there is none) and at most the maximum, and the two bounds are not on
-- different sides of 2^63: an order with a maximum of 2^63 or more and a smaller minimum cannot be taken
-- at all, whatever the units.
pub check_order_exact :
    (o : Order) (u : ℕ)
    → get_or o.min_units 0 ≤ o.max_units
    → o.max_units < 2 ^ 64
    → u < 2 ^ 64
    → (check_order o (to_int64 u) ≡ true) ↔ CanTake o u
check_order_exact o u ordered top small = (
  λ accepted.
      let t = check_order-Takeable o (to_int64 u) accepted in
      let low = get_or o.min_units 0 in
      let within = between low u o.max_units ordered top small t.at_least t.at_most in
      (
        complete o (to_int64 u) t,
        within.0,
        within.1,
        same_half low u o.max_units ordered top small t.at_least t.at_most,
      ),
  λ c.
      let b = back (get_or o.min_units 0) u o.max_units top c.3 c.1 c.2 in
      takes o (to_int64 u) c.0 b.0 b.1,
)

-- The trade that OrderTaken has started for `u` units of `o`.
pub record IsSale (o : Order) (u : ℕ) (trades trades' : List TradeState) : Type 0 where
  pub sale : TradeState
  pub added : trades' ≡ trades ++ sale ∷ []
  pub units : sale.units ≡ u
  pub at_least : get_or o.min_units 0 ≤ u
  pub at_most : u ≤ o.max_units
  pub left : (reduced sale.order sale.units).max_units + u ≡ o.max_units

module _ {W : Type 0} (sv : Services W) (hooks : Hooks W) where
  -- Where OrderTaken returns true for an order whose minimum is not above its maximum, with a number of
  -- units that came as 64 bits: whatever the signs of these numbers as int64_t, the trade that is added
  -- has exactly these units, at least the minimum and at most the maximum of the order, and what
  -- HandleSuccess computes as the maximum of the order that is left is the exact difference.
  pub order_taken-IsSale :
      (o : Order) (u : ℕ) (counterparty : Bytes) (g : Global W) {g' : Global W}
      → get_or o.min_units 0 ≤ o.max_units
      → o.max_units < 2 ^ 64
      → u < 2 ^ 64
      → order_taken sv hooks o (to_int64 u) counterparty g ≡ (ok true, g')
      → IsSale o u g.state.trades g'.state.trades
  order_taken-IsSale o u counterparty g ordered top small ran =
      let s = order_taken-Result sv hooks o (to_int64 u) counterparty g ran in
      let (low, high) =
        between (get_or o.min_units 0) u o.max_units ordered top small s.takeable.at_least
          s.takeable.at_most in
      let stored = to_uint64-to_int64 u small in
      record {
        sale = new_trade o (to_int64 u) counterparty s.now;
        added = ap (λ s. s.trades) s.added;
        units = stored;
        at_least = low;
        at_most = high;
        left = rw stored (omega (arith, low, high, top));
      }

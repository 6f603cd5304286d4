-- ===== src/Checker/Total.antt =====
-- The overflow test of TradeChecker::GetTotalSat.
use native.Mathlib.Nat.{mul-div_cancel, div-mul-le_self}
use democrit_marketplace.Prelude.{
  ℕ, zero, suc, ◌*◌, ◌/◌, ◌^◌, ◌≤◌, ◌<◌, ◌≡◌, refl, ◌≢◌, true, false, none, some, if◌then◌else◌,
  ltb, arith, ap, inl, inr, Bool-cases,
}
use democrit_marketplace.Prelude.Int.{
  ℤ, pos, negsuc, ◌*ℤ◌, fits_int64, wrap_int64, quot_ℤ, eqb_ℤ, neg_ℕ, to_int64,
}
use democrit_marketplace.Outcome.{ok}
use democrit_marketplace.Checker.{TradeChecker, get_total_sat}

wrap_of_fits : (z : ℤ) → fits_int64 z ≡ true → wrap_int64 z ≡ z
wrap_of_fits (pos n) h = ground arith
wrap_of_fits (negsuc n) h = ground arith

-- A quotient that gives back `p` has a numerator of at least `p * u`.
quot-ne : (r p u : ℕ) → r < p * u → r / u ≢ p
quot-ne r p u h e = omega (arith, div-mul-le_self r u, ap (λ (t : ℕ). t * u) e)

eqb_pos : (q p : ℕ) → q ≢ p → eqb_ℤ (pos q) (pos p) ≡ false
eqb_pos q p h = ground arith

eqb_neg_pos : (q p : ℕ) → 0 < p → eqb_ℤ (neg_ℕ q) (pos p) ≡ false
eqb_neg_pos zero p h = ground arith
eqb_neg_pos (suc q) p h = refl

eqb_neg_neg : (q p : ℕ) → q ≢ suc p → eqb_ℤ (neg_ℕ q) (negsuc p) ≡ false
eqb_neg_neg zero p h = refl
eqb_neg_neg (suc q) p h = ground arith

-- Whatever 64 bits are left of a product that is too large, the division does not give `p` back.
quot-to_int64-ne :
    (r p u : ℕ) → 2 ^ 63 ≤ suc p * u → eqb_ℤ (quot_ℤ (to_int64 r) u) (pos (suc p)) ≡ false
quot-to_int64-ne r p u h = elim (Bool-cases (ltb r (2 ^ 63))) [
  | inl low ↦ rw low (eqb_pos (r / u) (suc p) (quot-ne r (suc p) u (ground arith)))
  | inr high ↦ rw high (eqb_neg_pos _ (suc p) (omega arith))
]

quot-to_int64-ne_neg :
    (r p u : ℕ) → 2 ^ 63 < suc p * u → eqb_ℤ (quot_ℤ (to_int64 r) u) (negsuc p) ≡ false
quot-to_int64-ne_neg r p u h = elim (Bool-cases (ltb r (2 ^ 63))) [
  | inl low ↦ rw low refl
  | inr high ↦ rw high (eqb_neg_neg _ p (quot-ne _ (suc p) u (ground arith)))
]

quot_neg : (m u : ℕ) → quot_ℤ (neg_ℕ m) u ≡ neg_ℕ (m / u)
quot_neg zero u = ground arith
quot_neg (suc m) u = refl

quot-mul : (p : ℤ) (u : ℕ) → 0 < u → quot_ℤ (p *ℤ pos u) u ≡ p
quot-mul (pos p) u h = rw (mul-div_cancel p h)
quot-mul (negsuc p) u h = rw (quot_neg (suc p * u) u, mul-div_cancel (suc p) h)

eqb_refl : (z : ℤ) → eqb_ℤ z z ≡ true
eqb_refl (pos n) = ground arith
eqb_refl (negsuc n) = ground arith

fits_neg : (m : ℕ) → fits_int64 (neg_ℕ m) ≡ false → 2 ^ 63 < m
fits_neg zero h = ground arith
fits_neg (suc m) h = ground arith

wrap_neg : (m : ℕ) → 0 < m → (r : ℕ) × (wrap_int64 (neg_ℕ m) ≡ to_int64 r)
wrap_neg zero h = absurd (omega arith)
wrap_neg (suc m) h = (_, refl)

quot-wrap-ne :
    (p : ℤ) (u : ℕ)
    → fits_int64 (p *ℤ pos u) ≡ false
    → eqb_ℤ (quot_ℤ (wrap_int64 (p *ℤ pos u)) u) p ≡ false
quot-wrap-ne (pos zero) u h = ground arith
quot-wrap-ne (pos (suc p)) u h = quot-to_int64-ne _ p u (ground arith)
quot-wrap-ne (negsuc p) u h =
    let large = fits_neg (suc p * u) h in
    let (r, e) = wrap_neg (suc p * u) (omega arith) in rw e (quot-to_int64-ne_neg r p u large)

-- For a positive number of units GetTotalSat returns false exactly when the exact product does not
-- fit into int64_t, and otherwise sets the exact product.
pub get_total_sat_exact :
    (c : TradeChecker) (u : ℕ)
    → c.units ≡ pos u
    → 0 < u
    → get_total_sat c
      ≡ ok (if fits_int64 (c.price *ℤ c.units) then some (c.price *ℤ c.units) else none)
unfolding get_total_sat
get_total_sat_exact c u e h = elim (Bool-cases (fits_int64 (c.price *ℤ pos u))) [
  | inl fits ↦
      rw e
        (rw fits (rw (wrap_of_fits _ fits, quot-mul c.price u h, eqb_refl c.price) (ground arith)))
  | inr large ↦ rw e (rw (large, quot-wrap-ne c.price u large) (ground arith))
]

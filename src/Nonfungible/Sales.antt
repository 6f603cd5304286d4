-- ===== src/Nonfungible/Sales.antt =====
-- nonfungible/main.cpp with ValidateOrder of daemon.cpp: which asks are valid, by the replies of the
-- GSP.
use democrit_marketplace.Prelude.{
  ℕ, ◌^◌, ◌<◌, ◌≡◌, refl, ◌∙◌, ap, inl, inr, Bool, true, false, some, is_some, not, Bytes, codes,
  ltb, leb, ◌==◌, ◌||◌, arith, &&-true,
}
use democrit_marketplace.Prelude.Int.{ℤ, pos, ltb_ℤ, to_int64}
use democrit_marketplace.Outcome.{ok}
use democrit_marketplace.Exec.{pure, lift, check, check_some, ◌>>=◌}
use democrit_marketplace.Json.{
  num, str, obj, Members, find_member, has_member, is_null, is_object, set_member,
}
use democrit_marketplace.Proto.{Order, ask}
use democrit_marketplace.Services.{Util}
use democrit_marketplace.Nonfungible.Assets.{get_nf_asset_exact}
use democrit_marketplace.Nonfungible.{NfRpc, get_nf_asset, is_asset, can_sell, nf_asset_spec}
use democrit_marketplace.Daemon.Validation.{
  has_bad_minimum, validate_side, validate_asset, validate_order,
}
use democrit_marketplace.Daemon.Book.{is_sound}

-- The GSP knows the asset, and answers that the account's balance is `balance`.
pub record Answers {W : Type 0} (util : Util) (gsp : NfRpc W) (asset account : Bytes) (balance : ℕ)
    (w : W) : Type 0 where
  pub details : Members
  pub between : W
  pub detailed : gsp.getassetdetails (get_nf_asset asset) w ≡ (ok (obj details), between)
  pub has_data : has_member (codes "data") details ≡ true
  pub is_known : is_null (find_member (codes "data") details) ≡ false
  pub reply : Members
  pub after : W
  pub replied : gsp.getbalance (get_nf_asset asset) account between ≡ (ok (obj reply), after)
  pub has_balance : find_member (codes "data") reply ≡ num (pos balance)
  pub in_range : balance < 2 ^ 63
  pub hash_hex : Bytes
  pub hash : ℕ
  pub has_hash : find_member (codes "blockhash") reply ≡ str hash_hex
  pub is_hash : util.uint256_from_hex hash_hex ≡ some hash

module _ {W : Type 0} (util : Util) (gsp : NfRpc W) (account asset : Bytes) (balance : ℕ) (w : W)
    (answers : Answers util gsp asset account balance w) where
  is_asset_lem :
      is_null (get_nf_asset asset) ≡ false → is_asset util gsp asset w ≡ (ok true, answers.between)
  unfolding is_asset ◌>>=◌ check lift pure
  is_asset_lem e = rw (is_asset, e, answers.detailed, answers.has_data, answers.is_known) refl

  can_sell_lem :
      (n : ℤ)
      → is_object (get_nf_asset asset) ≡ true
      → can_sell util gsp account asset n answers.between
        ≡ (ok (not (ltb_ℤ (pos balance) n), answers.hash), answers.after)
  unfolding can_sell ◌>>=◌ check check_some lift pure
  can_sell_lem n e =
      let b : ltb balance (2 ^ 63) ≡ true = ground (arith, answers.in_range) in
      rw (can_sell, e, answers.replied, answers.has_balance, b, answers.has_hash, answers.is_hash)
        refl

  is_object_lem : is_null (get_nf_asset asset) ≡ false → is_object (get_nf_asset asset) ≡ true
  unfolding set_member
  is_object_lem h = elim (get_nf_asset_exact asset) [
    | inl (m, a, line, e, parsed, back) ↦ ap is_object parsed
    | inr (line, e) ↦ cc (ap is_null e)
  ]

  validate_ask :
      (o : Order)
      → o.type ≡ some ask
      → o.asset ≡ some asset
      → is_null (get_nf_asset asset) ≡ false
      → validate_asset (nf_asset_spec util gsp) account o w
        ≡ (ok (not (ltb_ℤ (pos balance) (to_int64 o.max_units))), answers.after)
  unfolding validate_asset validate_side nf_asset_spec ◌>>=◌ pure
  validate_ask o t a h =
      rw
        (
          validate_asset,
          a,
          t,
          is_asset_lem h,
          can_sell_lem (to_int64 o.max_units) (is_object_lem h),
        )
        refl

  -- A number of units that is a negative one to CanSell is never too many.
  in_int64 :
      (n : ℕ)
      → n < 2 ^ 64
      → balance < 2 ^ 63
      → not (ltb_ℤ (pos balance) (to_int64 n)) ≡ (leb n balance || leb (2 ^ 63) n)
  in_int64 n h b = ground arith

  -- An ask of a non-fungible asset that the GSP knows, with a positive maximum below 2^64, a price and
  -- no minimum that is zero or above the maximum, is valid exactly where its maximum is at most the
  -- balance of the account or is 2^63 or more: those are negative amounts to CanSell.
  pub validate_order-nf_asset_spec :
      (o : Order)
      → o.type ≡ some ask
      → o.asset ≡ some asset
      → is_null (get_nf_asset asset) ≡ false
      → o.max_units < 2 ^ 64
      → is_sound o ≡ true
      → validate_order (nf_asset_spec util gsp) account o w
        ≡ (ok (leb o.max_units balance || leb (2 ^ 63) o.max_units), answers.after)
  unfolding validate_order is_sound
  validate_order-nf_asset_spec o t a h small s =
      let (positive, rest) = &&-true (not (o.max_units == 0)) _ s in
      let (minimum, price) = &&-true (not (has_bad_minimum o)) (is_some o.price_sat) rest in
      rw
        (
          validate_order,
          not_true (o.max_units == 0) positive,
          not_true (has_bad_minimum o) minimum,
          price,
        )
        (validate_ask o t a h
          ∙ ap (λ (b : Bool). (ok b, answers.after)) (in_int64 o.max_units small answers.in_range))
    where
      not_true : (b : Bool) → not b ≡ true → b ≡ false
      not_true false e = refl
      not_true true e = cc

-- ===== src/Daemon/Validation.antt =====
-- Daemon::Impl::ValidateOrder of daemon.cpp.
use democrit_marketplace.Prelude.{
  Bool, false, none, some, is_some, get_or, not, [], Bytes, ltb, ◌==◌, ◌||◌, if◌then◌else◌,
}
use democrit_marketplace.Prelude.Int.{to_int64}
use democrit_marketplace.Exec.{Exec, pure, ◌>>=◌}
use democrit_marketplace.Proto.{Order, OrderType, ask, bid}
use democrit_marketplace.Services.{AssetSpec}

-- A minimum that is set and makes no sense.
unfoldable pub has_bad_minimum : Order → Bool
has_bad_minimum o = elim o.min_units [ none ↦ false | some m ↦ (m == 0) || ltb o.max_units m ]

module _ {W : Type 0} (spec : AssetSpec W) where
  unfoldable pub validate_side : Bytes → Order → OrderType → Exec W Bool
  validate_side account o bid = spec.can_buy account (get_or o.asset []) (to_int64 o.max_units)
  validate_side account o ask = do
    (can_sell, hash) ← spec.can_sell account (get_or o.asset []) (to_int64 o.max_units)
    pure can_sell

  -- A type that is not set reads as ASK.
  unfoldable pub validate_asset : Bytes → Order → Exec W Bool
  validate_asset account o = do
    is_asset ← spec.is_asset (get_or o.asset [])
    if is_asset then validate_side account o (get_or o.type ask) else pure false

  unfoldable pub validate_order : Bytes → Order → Exec W Bool
  validate_order account o =
      if o.max_units == 0
      then pure false
      else if has_bad_minimum o
      then pure false
      else if not (is_some o.price_sat)
      then pure false
      else validate_asset account o

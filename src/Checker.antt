-- ===== src/Checker.antt =====
-- private/checker.hpp and checker.cpp: the verification of a trade before it is signed. The children
-- hold the four checks, each beside its proofs.
pub mod Total
pub mod Ancestry
pub mod Outputs
pub mod Signatures
use democrit_marketplace.Prelude.{
  ℕ, ◌++◌, Option, none, some, true, false, Bytes, codes, ltb, not, if◌then◌else◌, ◌&&◌,
}
use democrit_marketplace.Prelude.Int.{ℤ, pos, ltb_ℤ, eqb_ℤ, ◌*ℤ◌, quot_ℤ, wrap_int64, pos_part}
use democrit_marketplace.Outcome.{Outcome, ok, ◌>>=◌, ◌>>◌, check}
use democrit_marketplace.Exec.{Exec}
use democrit_marketplace.Json.{
  Json, is_object, is_string, is_uint, field, string_of, uint_of, with_member, empty_object,
}
use democrit_marketplace.Proto.{OutPoint}
use democrit_marketplace.Services.{AssetSpec, Util}

-- The data of class TradeChecker. Amounts are int64_t.
pub record TradeChecker : Type 0 where
  pub buyer : Bytes
  pub seller : Bytes
  pub asset : Bytes
  pub price : ℤ
  pub units : ℤ

unfoldable pub get_xaya_name : Bytes → Bytes
get_xaya_name account = codes "p/" ++ account

unfoldable pub out_point_from_json : Json → Outcome OutPoint
out_point_from_json val = do
  check (is_object val)
  let txid = field val (codes "txid")
  let vout = field val (codes "vout")
  check (is_string txid && is_uint vout)
  ok (record { hash = some (string_of txid); n = some (uint_of vout) })

module _ {W : Type 0} (spec : AssetSpec W) (util : Util) (c : TradeChecker) where
  -- The name_update value: `{"g": {<game id>: <move>, "dem": {}}}`.
  unfoldable pub get_name_update_value : Outcome Bytes
  get_name_update_value = do
    move ← spec.get_transfer_move c.seller c.buyer c.asset c.units
    let g = with_member (with_member empty_object spec.get_game_id move) (codes "dem") empty_object
    ok (util.write_string (with_member empty_object (codes "g") g))

-- `none` where the method returns false. The product is computed in 64 bits.
unfoldable pub get_total_sat : TradeChecker → Outcome (Option ℤ)
get_total_sat c = do
  let total = wrap_int64 (c.price *ℤ c.units)
  check (ltb_ℤ (pos 0) c.units)
  ok (if eqb_ℤ (quot_ℤ total (pos_part c.units)) c.price then some total else none)

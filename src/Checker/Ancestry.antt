-- ===== src/Checker/Ancestry.antt =====
-- IsBlockAncestor and TradeChecker::CheckForBuyerTrade.
pub mod Chain
pub mod Buyer
use democrit_marketplace.Prelude.{
  ℕ, zero, suc, ◌≡◌, refl, Bool, true, false, Option, none, some, get_or, Bytes, codes, ◌==◌,
  if◌then◌else◌, arith, Bool-cases, inl, inr, ◌≤◌, [],
}
use democrit_marketplace.Prelude.Int.{ℤ}
use democrit_marketplace.Outcome.{Outcome, ok}
use democrit_marketplace.Exec.{Exec, pure, lift, check, check_some, ◌>>=◌, ◌>>◌}
use democrit_marketplace.Json.{Json, obj, null, is_object, is_string, is_null, field, string_of}
use democrit_marketplace.Proto.{OutPoint}
use democrit_marketplace.Services.{XayaRpc, AssetSpec, Util}
use democrit_marketplace.Checker.{TradeChecker, get_xaya_name, out_point_from_json}

-- MAX_BLOCK_ANCESTORS_CHECKED
abbrev pub max_block_ancestors_checked : ℕ
max_block_ancestors_checked = 3

module _ {W : Type 0} (xaya : XayaRpc W) (util : Util) where
  -- At most `n` blocks back.
  unfoldable pub is_block_ancestor : ℕ → ℕ → ℕ → Exec W Bool
  is_block_ancestor ancestor child zero = pure (ancestor == child)
  is_block_ancestor ancestor child (suc n) = if ancestor == child then pure true else (do
    child_data ← xaya.getblockheader (util.uint256_to_hex child)
    check (is_object child_data)
    let prev = field child_data (codes "previousblockhash")
    if is_null prev then pure false else (do
      check (is_string prev)
      parent ← check_some (util.uint256_from_hex (string_of prev))
      is_block_ancestor ancestor parent n))

  unfoldable pub get_name_out_point : Bytes → Exec W OutPoint
  get_name_out_point account = do
    shown ← xaya.name_show (get_xaya_name account)
    lift (out_point_from_json shown)

  -- The second half of CheckForBuyerTrade, from the seller's name output on.
  unfoldable pub check_sale : AssetSpec W → TradeChecker → OutPoint → Exec W (Option OutPoint)
  check_sale spec c name_input = do
    utxo_data ← xaya.gettxout (get_or name_input.hash []) (get_or name_input.n 0)
    if is_null utxo_data then pure none else (do
      check (is_object utxo_data)
      let best = field utxo_data (codes "bestblock")
      check (is_string best)
      utxo_block ← check_some (util.uint256_from_hex (string_of best))
      (sells, gsp_block) ← spec.can_sell c.seller c.asset c.units
      if sells
          then (do
            recent ← is_block_ancestor utxo_block gsp_block max_block_ancestors_checked
            pure (if recent then some name_input else none))
          else pure none)

  -- `none` where the method returns false, and otherwise the seller's name output.
  unfoldable pub check_for_buyer_trade : AssetSpec W → TradeChecker → Exec W (Option OutPoint)
  check_for_buyer_trade spec c = do
    valid ← spec.is_asset c.asset
    if valid
        then (do
          receives ← spec.can_buy c.buyer c.asset c.units
          if receives
              then (do name_input ← get_name_out_point c.seller; check_sale spec c name_input)
              else pure none)
        else pure none

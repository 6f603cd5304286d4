-- ===== src/Examples/Checks.antt =====
-- The checks of a trade, at the example.
use democrit_marketplace.Prelude.{
  ◌≡◌, refl, ◌↔◌, Bool, true, some, none, codes, if◌then◌else◌, arith, ◌^◌, bytes_eq,
}
use democrit_marketplace.Prelude.Int.{pos, ◌*ℤ◌, fits_int64}
use democrit_marketplace.Outcome.{ok}
use democrit_marketplace.Exec.{◌>>=◌}
use democrit_marketplace.Proto.{OutPoint}
use democrit_marketplace.Json.{find_member, has_member}
use democrit_marketplace.Json.Equality.{json_eq}
use democrit_marketplace.Json.Text.{as_string}
use democrit_marketplace.Checker.{
  TradeChecker, get_total_sat, out_point_from_json, get_xaya_name, get_name_update_value,
}
use democrit_marketplace.Checker.Total.{get_total_sat_exact}
use democrit_marketplace.Checker.Ancestry.{
  is_block_ancestor, check_sale, get_name_out_point, check_for_buyer_trade,
}
use democrit_marketplace.Checker.Ancestry.Chain.{Within, is_block_ancestor_exact}
use democrit_marketplace.Checker.Ancestry.Buyer.{Vouched, check_for_buyer_trade-Vouched}
use democrit_marketplace.Checker.Outputs.{
  check_for_seller_outputs, check_outputs, scan_outputs, examine_output, examine_name_op,
  matches_address, has_address,
}
use democrit_marketplace.Checker.Outputs.Sound.{Protects, check_for_seller_outputs-Protects}
use democrit_marketplace.Checker.Signatures.{
  check_for_buyer_signature, check_for_seller_signature, decode_pair, input_pair, count_modified,
  find_input, others_unchanged, check_others, check_own_input,
}
use democrit_marketplace.Checker.Signatures.Buyer.{
  AllButOneSigned, check_for_buyer_signature-AllButOneSigned,
}
use democrit_marketplace.Checker.Signatures.Seller.{
  OnlyOwnSigned, check_for_seller_signature-OnlyOwnSigned,
}
use democrit_marketplace.Examples.World.{parent, util, xaya, spec, checker, seller_data, served}

-- A product of 2^63 is refused.
abbrev large : TradeChecker
large = record checker { price = pos (2 ^ 62) }

get_total_sat_exact_example :
    get_total_sat large
    ≡ ok (
        if fits_int64 (large.price *ℤ large.units) then some (large.price *ℤ large.units) else none)
get_total_sat_exact_example = get_total_sat_exact large 2 refl (ground arith)

is_block_ancestor_exact_example :
    (b : Bool) × (is_block_ancestor xaya util 2 5 3 0 ≡ (ok b, 0))
    × ((b ≡ true) ↔ Within parent 2 5 3)
is_block_ancestor_exact_example = is_block_ancestor_exact xaya util parent served 2 5 3 0

abbrev name_out : OutPoint
name_out = record { hash = some (codes "n"); n = some 1 }

accepts_trade : check_for_buyer_trade xaya util spec checker 0 ≡ (ok (some name_out), 0)
unfolding ◌>>=◌ check_for_buyer_trade check_sale get_name_out_point out_point_from_json find_member
    bytes_eq is_block_ancestor
accepts_trade = refl

check_for_buyer_trade-Vouched_example : Vouched xaya util spec checker name_out
check_for_buyer_trade-Vouched_example =
    check_for_buyer_trade-Vouched xaya util spec checker 0 accepts_trade

accepts_outputs :
    check_for_seller_outputs xaya util spec checker (codes "b") seller_data 0 ≡ (ok true, 0)
unfolding ◌>>=◌ check_for_seller_outputs bytes_eq find_member get_total_sat check_outputs
    scan_outputs examine_output examine_name_op as_string has_member get_xaya_name
    get_name_update_value matches_address has_address
accepts_outputs = refl

check_for_seller_outputs-Protects_example :
    Protects xaya util spec checker seller_data 0 (codes "b")
check_for_seller_outputs-Protects_example =
    check_for_seller_outputs-Protects xaya util spec checker (codes "b") seller_data 0
      accepts_outputs

accepts_buyer : check_for_buyer_signature xaya (codes "u") (codes "b") 0 ≡ (ok true, 0)
unfolding ◌>>=◌ check_for_buyer_signature bytes_eq find_member decode_pair input_pair count_modified
    json_eq
accepts_buyer = refl

check_for_buyer_signature-AllButOneSigned_example : AllButOneSigned xaya (codes "u") (codes "b") 0
check_for_buyer_signature-AllButOneSigned_example =
    check_for_buyer_signature-AllButOneSigned xaya (codes "u") (codes "b") 0 accepts_buyer

accepts_seller :
    check_for_seller_signature xaya (codes "b") (codes "f") seller_data 0 ≡ (ok true, 0)
unfolding ◌>>=◌ check_for_seller_signature bytes_eq find_member decode_pair input_pair find_input
    others_unchanged check_others check_own_input json_eq
accepts_seller = refl

check_for_seller_signature-OnlyOwnSigned_example :
    OnlyOwnSigned xaya name_out (codes "b") (codes "f") 0
check_for_seller_signature-OnlyOwnSigned_example =
    check_for_seller_signature-OnlyOwnSigned xaya (codes "b") (codes "f") seller_data name_out 0
      refl accepts_seller

-- ===== src/Examples/Trading.antt =====
-- The trade as a whole, at the example.
use democrit_marketplace.Prelude.{
  ℕ, ◌≡◌, refl, true, false, some, none, codes, List, [], ◌∷◌, bytes_eq,
}
use democrit_marketplace.Exec.{◌>>=◌}
use democrit_marketplace.Json.{find_member, has_member, set_member, bytes_lt}
use democrit_marketplace.Json.Equality.{json_eq}
use democrit_marketplace.Json.Text.{as_string, decimal}
use democrit_marketplace.Checker.{
  get_total_sat, out_point_from_json, get_xaya_name, get_name_update_value,
}
use democrit_marketplace.Checker.Ancestry.{
  check_for_buyer_trade, check_sale, get_name_out_point, is_block_ancestor,
}
use democrit_marketplace.Checker.Outputs.{
  check_for_seller_outputs, check_outputs, scan_outputs, examine_output, examine_name_op,
  matches_address, has_address,
}
use democrit_marketplace.Checker.Signatures.{
  check_for_buyer_signature, check_for_seller_signature, decode_pair, input_pair, count_modified,
  find_input, others_unchanged, check_others, check_own_input,
}
use democrit_marketplace.Trade.Wallet.{create_seller_data, sign_psbt, construct_transaction}
use democrit_marketplace.Trade.{
  Ctx, get_order_type, get_role, build_trade_checker, init_processing_message, get_identifier,
}
use democrit_marketplace.Trade.Growth.{Extends}
use democrit_marketplace.Trade.Messages.{is_ask}
use democrit_marketplace.Trade.Reply.{
  has_reply, reply_to, exchange_psbts, sign, sign_as_seller, sign_as_buyer, construct_and_sign,
  after_signing, share, broadcast, final_psbt,
}
use democrit_marketplace.Trade.Reply.Safety.{SellerSigned, BuyerSigned}
use democrit_marketplace.Trade.Reply.Signed.{has_reply-SellerSigned, has_reply-BuyerSigned}
use democrit_marketplace.Trade.Update.Grows.{
  Event, incoming, turn, tick, run_events, run_events-Extends,
}
use democrit_marketplace.Proto.{empty_message}
use democrit_marketplace.Examples.World.{services, trade}

-- The view of the seller, who has the buyer's half, and of the buyer.
abbrev selling : Ctx ℕ
selling = record { pb = trade (codes "b") (some (codes "b")); world = 1 }

abbrev buying : Ctx ℕ
buying = record { pb = trade (codes "s") none; world = 1 }

sells : is_ask (get_order_type (codes "s") selling.pb) ≡ true
unfolding get_order_type get_role bytes_eq
sells = refl

buys : is_ask (get_order_type (codes "b") buying.pb) ≡ false
unfolding get_order_type get_role bytes_eq
buys = refl

signs_sale : (has_reply services (codes "s") selling).1.pb.our_psbt ≡ some (codes "f")
unfolding ◌>>=◌ has_reply reply_to create_seller_data get_order_type get_role bytes_eq
    exchange_psbts sign build_trade_checker find_member get_total_sat get_xaya_name
    get_name_update_value decode_pair input_pair json_eq after_signing share init_processing_message
    get_identifier sign_psbt set_member bytes_lt decimal sign_as_seller check_for_seller_outputs
    check_outputs scan_outputs examine_output examine_name_op as_string has_member matches_address
    has_address check_for_seller_signature find_input others_unchanged check_others check_own_input
    broadcast final_psbt
signs_sale = refl

has_reply-SellerSigned_example : SellerSigned services (codes "s") selling.pb (codes "f")
has_reply-SellerSigned_example =
    has_reply-SellerSigned services (codes "s") selling (codes "f") refl sells signs_sale

signs_purchase : (has_reply services (codes "b") buying).1.pb.our_psbt ≡ some (codes "b")
unfolding ◌>>=◌ has_reply reply_to create_seller_data get_order_type get_role bytes_eq
    exchange_psbts sign build_trade_checker find_member get_total_sat get_xaya_name
    get_name_update_value decode_pair input_pair json_eq after_signing share init_processing_message
    get_identifier sign_psbt set_member bytes_lt decimal sign_as_buyer check_for_buyer_trade
    check_sale get_name_out_point out_point_from_json is_block_ancestor construct_and_sign
    construct_transaction check_for_buyer_signature count_modified
signs_purchase = refl

has_reply-BuyerSigned_example : BuyerSigned services (codes "b") buying.pb (codes "b")
has_reply-BuyerSigned_example =
    has_reply-BuyerSigned services (codes "b") buying (codes "b") refl buys signs_purchase

-- A message comes that has a transaction, we answer, and time goes by.
abbrev history : List (ℕ × Event)
history =
    (1, incoming (record empty_message { psbt = some (codes "b") }))
    ∷ (2, turn)
    ∷ (3, tick)
    ∷ (100, tick)
    ∷ []

run_events-Extends_example : Extends buying.pb (run_events services (codes "b") history buying).pb
run_events-Extends_example = run_events-Extends services (codes "b") history buying

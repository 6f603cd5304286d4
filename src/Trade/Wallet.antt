-- ===== src/Trade/Wallet.antt =====
-- The steps of a trade that the wallet does: locks, addresses, the transaction and its signature.
use democrit_marketplace.Prelude.{
  ℕ, ◌-◌, ◌^◌, ◌++◌, Bool, true, false, none, some, is_some, get_or, not, List, [], ◌∷◌, Bytes,
  codes, ltb, ◌&&◌, if◌then◌else◌,
}
use democrit_marketplace.Prelude.Int.{ℤ, pos, negsuc}
use democrit_marketplace.Outcome.{ok, raise, abort}
use democrit_marketplace.Exec.{Exec, pure, gets, modify, lift, check, check_some, ◌>>=◌, ◌>>◌}
use democrit_marketplace.Json.{
  Json, str, num, bool, array, empty_object, with_member, is_object, is_array, is_string, is_bool,
  field, string_of, bool_of, elements_of,
}
use democrit_marketplace.Proto.{OutPoint, TradeState}
use democrit_marketplace.Services.{XayaRpc, Services}
use democrit_marketplace.Checker.{
  TradeChecker, out_point_from_json, get_total_sat, get_name_update_value,
}
use democrit_marketplace.Checker.Ancestry.{get_name_out_point}
use democrit_marketplace.Trade.{Ctx, on_world, get_order_type}
use democrit_marketplace.Trade.Messages.{is_ask}

-- NAME_VALUE
abbrev pub name_value : ℤ
name_value = pos 1000000

-- static_cast<Json::Int> of a uint32_t
abbrev pub to_int32 : ℕ → ℤ
to_int32 n = if ltb n (2 ^ 31) then pos n else negsuc (2 ^ 32 - 1 - n)

abbrev pub out_point_json : OutPoint → Json
out_point_json out =
    with_member (with_member empty_object (codes "txid") (str (get_or out.hash []))) (codes "vout")
      (num (to_int32 (get_or out.n 0)))

module _ {W : Type 0} (xaya : XayaRpc W) where
  -- An exception of the RPC call is caught, and means false.
  unfoldable pub lock_unspent : Bool → OutPoint → Exec W Bool
  lock_unspent lock out w =
      let (r, w') = xaya.lockunspent (not lock) (array (out_point_json out ∷ [])) w in
      (elim r [ ok b ↦ ok b | raise ↦ ok false | abort ↦ abort ], w')

  unfoldable pub unlock_all : List Json → Exec W Unit
  unlock_all [] = pure tt
  unlock_all (vin ∷ rest) = do
    out ← lift (out_point_from_json vin)
    unlocked ← lock_unspent false out
    unlock_all rest

  unfoldable pub unlock_psbt_inputs : Bytes → Exec W Unit
  unlock_psbt_inputs psbt = do
    decoded ← xaya.decodepsbt psbt
    check (is_object decoded)
    let tx = field decoded (codes "tx")
    check (is_object tx)
    let vin = field tx (codes "vin")
    check (is_array vin)
    unlock_all (elements_of vin)

  -- The signed transaction, and whether it is complete.
  unfoldable pub sign_psbt : Bytes → Exec W (Bytes × Bool)
  sign_psbt psbt = do
    reply ← xaya.walletprocesspsbt psbt
    check (is_object reply)
    let psbt_val = field reply (codes "psbt")
    check (is_string psbt_val)
    let complete_val = field reply (codes "complete")
    check (is_bool complete_val)
    pure (string_of psbt_val, bool_of complete_val)

module _ {W : Type 0} (sv : Services W) (account : Bytes) where
  unfoldable pub create_seller_data : Exec (Ctx W) Bool
  create_seller_data = do
    pb ← gets (λ c. c.pb)
    if not (is_ask (get_order_type account pb))
        then pure false
        else if is_some pb.seller_data
        then pure false
        else (do
          name_output ← on_world (get_name_out_point sv.xaya sv.util account)
          locked ← on_world (lock_unspent sv.xaya true name_output)
          if not locked then pure false else (do
            name_address ← on_world sv.xaya.getnewaddress
            chi_address ← on_world sv.xaya.getnewaddress
            modify (λ c. record c {
              pb = record c.pb {
                seller_data = some (record {
                  name_address = some name_address;
                  chi_address = some chi_address;
                  name_output = some name_output;
                });
              };
            })
            pure true))

  -- The three steps: the buyer's coins, the seller's name, and both together.
  unfoldable pub construct_transaction : TradeState → TradeChecker → OutPoint → Exec W Bytes
  construct_transaction pb checker name_in = do
    check (not (is_ask (get_order_type account pb)))
    sd ← pure (
        get_or pb.seller_data
          (record { name_address = none; chi_address = none; name_output = none }))
    check (is_some sd.chi_address && is_some sd.name_address)
    maybe_total ← lift (get_total_sat checker)
    total ← check_some maybe_total
    let chi_out =
        with_member empty_object (get_or sd.chi_address []) (sv.util.chi_amount_to_json total)
    let fee = with_member empty_object (codes "fee_rate") (num (pos sv.config.feerate_wo_names))
    let options = with_member fee (codes "lockUnspents") (bool true)
    funded ← sv.xaya.walletcreatefundedpsbt (array []) (array (chi_out ∷ [])) 0 options
    check (is_object funded)
    let chi_part = field funded (codes "psbt")
    check (is_string chi_part)
    let name_out =
        with_member empty_object (get_or sd.name_address []) (sv.util.chi_amount_to_json name_value)
    bare ← sv.xaya.createpsbt (array (out_point_json name_in ∷ [])) (array (name_out ∷ []))
    value ← lift (get_name_update_value sv.spec sv.util checker)
    let op = with_member empty_object (codes "op") (str (codes "name_update"))
    let named = with_member op (codes "name") (str (codes "p/" ++ pb.counterparty))
    with_op ← sv.xaya.namepsbt bare 0 (with_member named (codes "value") (str value))
    check (is_object with_op)
    let name_part = field with_op (codes "psbt")
    check (is_string name_part)
    sv.xaya.joinpsbts (array (str (string_of chi_part) ∷ str (string_of name_part) ∷ []))

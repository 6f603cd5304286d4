-- ===== src/Checker/Outputs.antt =====
-- TradeChecker::CheckForSellerOutputs: what the seller checks of the transaction before signing it.
pub mod Sound
use democrit_marketplace.Prelude.{
  ℕ, Bool, true, false, Option, none, some, is_some, get_or, List, [], ◌∷◌, Bytes, bytes_eq, codes,
  not, ◌&&◌, ◌||◌, if◌then◌else◌,
}
use democrit_marketplace.Prelude.Int.{ℤ, pos, ltb_ℤ, eqb_ℤ}
use democrit_marketplace.Exec.{Exec, pure, lift, check, check_some, ◌>>=◌, ◌>>◌}
use democrit_marketplace.Json.{
  Json, null, is_object, is_array, is_string, is_null, is_member, field, string_of, elements_of,
}
use democrit_marketplace.Json.Text.{as_string}
use democrit_marketplace.Proto.{SellerData}
use democrit_marketplace.Services.{XayaRpc, AssetSpec, Util}
use democrit_marketplace.Checker.{TradeChecker, get_xaya_name, get_name_update_value, get_total_sat}

-- `addresses.size () == 1 && addresses[0].isString () && addresses[0].asString () == addr`
abbrev pub only_address : List Json → Bytes → Bool
only_address (a ∷ []) addr = is_string a && bytes_eq (string_of a) addr
only_address _ addr = false

-- What MatchesAddress tests of an object.
unfoldable pub has_address : Json → Bytes → Bool
has_address script addr =
    let addresses = field script (codes "addresses") in
    let address = field script (codes "address") in
    (is_array addresses && only_address (elements_of addresses) addr)
    || (is_string address && bytes_eq (string_of address) addr)

-- What one round of the loop over the outputs has found.
pub data Found : Type 0 where
  nothing name_output chi_output : Found

-- foundChi and foundName.
pub record Flags : Type 0 where
  pub chi : Bool
  pub name : Bool

abbrev pub mark : Found → Flags → Flags
mark nothing fl = fl
mark name_output fl = record fl { name = true }
mark chi_output fl = record fl { chi = true }

module _ {W : Type 0} (spec : AssetSpec W) (util : Util) (c : TradeChecker) (sd : SellerData)
    (total : ℤ) where
  unfoldable pub matches_address : Json → Bytes → Exec W Bool
  matches_address script addr = do check (is_object script); pure (has_address script addr)

  -- An output that is a name operation.
  unfoldable pub examine_name_op : Json → Json → Exec W Found
  examine_name_op script name_op = do
    name_encoding ← lift (as_string (field name_op (codes "name_encoding")))
    check (bytes_eq name_encoding (codes "utf8"))
    value_encoding ← lift (as_string (field name_op (codes "value_encoding")))
    check (bytes_eq value_encoding (codes "utf8"))
    check (is_member name_op (codes "name") && is_member name_op (codes "value"))
    op ← lift (as_string (field name_op (codes "op")))
    if bytes_eq op (codes "name_update")
        then (do
          name ← lift (as_string (field name_op (codes "name")))
          if bytes_eq name (get_xaya_name c.seller)
              then (do
                value ← lift (as_string (field name_op (codes "value")))
                expected ← lift (get_name_update_value spec util c)
                if bytes_eq value expected
                    then (do
                      ours ← matches_address script (get_or sd.name_address [])
                      pure (if ours then name_output else nothing))
                    else pure nothing)
              else pure nothing)
        else pure nothing

  unfoldable pub examine_output : Json → Exec W Found
  examine_output out = do
    check (is_object out)
    let script = field out (codes "scriptPubKey")
    check (is_object script)
    let name_op = field script (codes "nameOp")
    if is_object name_op then examine_name_op script name_op else (do
      check (is_null name_op)
      ours ← matches_address script (get_or sd.chi_address [])
      if ours
          then (do
            payment ← check_some (util.chi_amount_from_json (field out (codes "value")))
            pure (if ltb_ℤ payment total then nothing else chi_output))
          else pure nothing)

  unfoldable pub scan_outputs : List Json → Flags → Exec W Flags
  scan_outputs [] fl = pure fl
  scan_outputs (out ∷ rest) fl = do found ← examine_output out; scan_outputs rest (mark found fl)

module _ {W : Type 0} (util : Util) (spec : AssetSpec W) (c : TradeChecker) where
  -- The part of the method that has the expected total.
  unfoldable pub check_outputs : SellerData → List Json → Option ℤ → Exec W Bool
  check_outputs sd vout none = pure false
  check_outputs sd vout (some total) = do
    check (not (ltb_ℤ total (pos 0)))
    found ←
        scan_outputs spec util c sd total vout (record { chi = eqb_ℤ total (pos 0); name = false })
    pure (found.chi && found.name)

module _ {W : Type 0} (xaya : XayaRpc W) (util : Util) (spec : AssetSpec W) (c : TradeChecker) where
  unfoldable pub check_for_seller_outputs : Bytes → SellerData → Exec W Bool
  check_for_seller_outputs psbt sd = do
    check (is_some sd.chi_address && is_some sd.name_address)
    decoded ← xaya.decodepsbt psbt
    check (is_object decoded)
    let tx = field decoded (codes "tx")
    check (is_object tx)
    let vout = field tx (codes "vout")
    check (is_array vout)
    total ← lift (get_total_sat c)
    check_outputs util spec c sd (elements_of vout) total

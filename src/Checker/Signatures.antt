-- ===== src/Checker/Signatures.antt =====
-- CheckForBuyerSignature and CheckForSellerSignature: what signing has changed in a transaction.
pub mod Buyer
pub mod Seller
use democrit_marketplace.Prelude.{
  ℕ, zero, suc, ◌+◌, Bool, true, false, Option, none, some, is_some, get_or, List, [], ◌∷◌, Bytes,
  bytes_eq, codes, length, not, ◌&&◌, ◌==◌, if◌then◌else◌,
}
use democrit_marketplace.Exec.{Exec, pure, lift, check, ◌>>=◌, ◌>>◌}
use democrit_marketplace.Json.{
  Json, is_object, is_array, is_string, is_uint, field, get_member, string_of, uint_of, elements_of,
}
use democrit_marketplace.Json.Equality.{json_eq}
use democrit_marketplace.Proto.{OutPoint, SellerData}
use democrit_marketplace.Services.{XayaRpc}

-- How many positions differ, over two lists of one length.
unfoldable pub count_modified : List Json → List Json → ℕ
count_modified (a ∷ as_) (b ∷ bs) =
    let rest = count_modified as_ bs in if json_eq a b then rest else rest + 1
count_modified _ _ = 0

module _ {W : Type 0} (xaya : XayaRpc W) where
  -- Both transactions decoded; the unsigned part has to be the same.
  unfoldable pub decode_pair : Bytes → Bytes → Exec W (Json × Json)
  decode_pair before_str after_str = do
    before ← xaya.decodepsbt before_str
    after ← xaya.decodepsbt after_str
    tx_before ← lift (get_member before (codes "tx"))
    tx_after ← lift (get_member after (codes "tx"))
    check (json_eq tx_before tx_after)
    pure (before, after)

module _ {W : Type 0} where
  -- The `inputs` of both, which are arrays of one size.
  unfoldable pub input_pair : Json × Json → Exec W (List Json × List Json)
  input_pair (before, after) = do
    inputs_before ← lift (get_member before (codes "inputs"))
    check (is_array inputs_before)
    inputs_after ← lift (get_member after (codes "inputs"))
    check (is_array inputs_after)
    check (length (elements_of inputs_before) == length (elements_of inputs_after))
    pure (elements_of inputs_before, elements_of inputs_after)

  -- The loop that looks for the name input: its first position.
  unfoldable pub find_input : OutPoint → List Json → ℕ → Exec W (Option ℕ)
  find_input out [] i = pure none
  find_input out (vin ∷ rest) i = do
    check (is_object vin)
    let hash_val = field vin (codes "txid")
    check (is_string hash_val)
    let n_val = field vin (codes "vout")
    check (is_uint n_val)
    if bytes_eq (string_of hash_val) (get_or out.hash []) && (uint_of n_val == get_or out.n 0)
        then pure (some i)
        else find_input out rest (suc i)

module _ {W : Type 0} (xaya : XayaRpc W) where
  unfoldable pub check_for_buyer_signature : Bytes → Bytes → Exec W Bool
  check_for_buyer_signature before_str after_str = do
    txs ← decode_pair xaya before_str after_str
    (before, after) ← input_pair txs
    pure (count_modified before after + 1 == length before)

-- Whether each position but `input_index` is the same; `i` is the position of the heads.
unfoldable pub others_unchanged : ℕ → ℕ → List Json → List Json → Bool
others_unchanged input_index i (a ∷ as_) (b ∷ bs) =
    let rest = others_unchanged input_index (suc i) as_ bs in
    if i == input_index then rest else if json_eq a b then rest else false
others_unchanged input_index i _ _ = true

module _ {W : Type 0} (xaya : XayaRpc W) where
  unfoldable pub check_others : Json × Json → Option ℕ → Exec W Bool
  check_others txs none = pure false
  check_others txs (some input_index) = do
    (before, after) ← input_pair txs
    pure (others_unchanged input_index 0 before after)

  unfoldable pub check_own_input : OutPoint → Bytes → Bytes → Exec W Bool
  check_own_input nm_out before_str after_str = do
    check (is_some nm_out.hash && is_some nm_out.n)
    txs ← decode_pair xaya before_str after_str
    tx ← lift (get_member txs.0 (codes "tx"))
    check (is_object tx)
    let vin = field tx (codes "vin")
    check (is_array vin)
    input_index ← find_input nm_out (elements_of vin) 0
    check_others txs input_index

  unfoldable pub check_for_seller_signature : Bytes → Bytes → SellerData → Exec W Bool
  check_for_seller_signature before_str after_str sd = do
    check (is_some sd.name_output)
    check_own_input (get_or sd.name_output (record { hash = none; n = none })) before_str after_str

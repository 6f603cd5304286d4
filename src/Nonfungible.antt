-- ===== src/Nonfungible.antt =====
-- nonfungible/main.cpp: the AssetSpec of non-fungible assets, over the RPC interface of their GSP.
pub mod Assets
pub mod Sales
use democrit_marketplace.Prelude.{
  ℕ, Bool, true, false, Option, none, some, not, List, [], ◌∷◌, ◌++◌, Bytes, codes, bytes_eq, ◌==◌,
  if◌then◌else◌,
}
use democrit_marketplace.Prelude.Int.{ℤ, ltb_ℤ}
use democrit_marketplace.Outcome.{Outcome, ok}
use democrit_marketplace.Outcome
use democrit_marketplace.Exec.{Exec, pure, lift, check, check_some, ◌>>=◌, ◌>>◌}
use democrit_marketplace.Json.{
  Json, null, num, str, obj, Members, end, with_member, empty_object, is_object, is_null, is_string,
  is_int64, is_member, get_member, int_of, string_of,
}
use democrit_marketplace.Services.{AssetSpec, Util}

-- The calls of rpc-stubs/nf.json: getassetdetails (asset) and getbalance (asset, name).
pub record NfRpc (W : Type 0) : Type 0 where
  pub getassetdetails : Json → Exec W Json
  pub getbalance : Json → Bytes → Exec W Json

-- What is before the first '\n' and what is after it: `none` without one. `before` is what has
-- been read.
unfoldable pub split_line : Bytes → Bytes → Option (Bytes × Bytes)
split_line before [] = none
split_line before (c ∷ rest) =
    let later = split_line (before ++ c ∷ []) rest in
    if c == b'\n' then some (before, rest) else later

abbrev pub asset_json : Bytes → Bytes → Json
asset_json minter name =
    with_member (with_member empty_object (codes "m") (str minter)) (codes "a") (str name)

unfoldable pub asset_of_parts : Option (Bytes × Bytes) → Json
asset_of_parts none = null
asset_of_parts (some (minter, name)) = asset_json minter name

unfoldable pub get_nf_asset : Bytes → Json
get_nf_asset asset = asset_of_parts (split_line [] asset)

unfoldable pub get_transfer_move : Bytes → Bytes → Bytes → ℤ → Outcome Json
get_transfer_move sender receiver asset n =
    let parsed = get_nf_asset asset in
    Outcome.◌>>◌ (Outcome.check (is_object parsed)) (
      let with_asset = with_member empty_object (codes "a") parsed in
      let with_amount = with_member with_asset (codes "n") (num n) in
      let transfer = with_member with_amount (codes "r") (str receiver) in
      ok (with_member empty_object (codes "t") transfer))

module _ {W : Type 0} (util : Util) (gsp : NfRpc W) where
  unfoldable pub is_asset : Bytes → Exec W Bool
  is_asset asset =
      let parsed = get_nf_asset asset in
      if is_null parsed then pure false else (do
        response ← gsp.getassetdetails parsed
        check (is_member response (codes "data"))
        details ← lift (get_member response (codes "data"))
        pure (not (is_null details)))

  -- The result, and the block's hash.
  unfoldable pub can_sell : Bytes → Bytes → ℤ → Exec W (Bool × ℕ)
  can_sell name asset n = do
    check (is_object (get_nf_asset asset))
    response ← gsp.getbalance (get_nf_asset asset) name
    check (is_object response)
    balance ← lift (get_member response (codes "data"))
    check (is_int64 balance)
    hash_val ← lift (get_member response (codes "blockhash"))
    check (is_string hash_val)
    hash ← check_some (util.uint256_from_hex (string_of hash_val))
    pure (not (ltb_ℤ (int_of balance) n), hash)

  unfoldable pub can_buy : Bytes → Bytes → ℤ → Exec W Bool
  can_buy name asset n = pure true

  unfoldable pub nf_asset_spec : AssetSpec W
  nf_asset_spec = record {
    get_game_id = codes "nf";
    is_asset = is_asset;
    can_sell = can_sell;
    can_buy = can_buy;
    get_transfer_move = get_transfer_move;
  }

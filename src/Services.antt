-- ===== src/Services.antt =====
-- What the program calls and does not implement: the RPC interfaces of Xaya Core and of the GSP, the
-- game's AssetSpec, libxayautil, jsoncpp's writer and the clock. `W` is the world outside: the
-- wallet, the chain, the network. Each call may change it, and may raise.
use democrit_marketplace.Prelude.{ℕ, Bool, Option, Bytes}
use democrit_marketplace.Prelude.Int.{ℤ}
use democrit_marketplace.Outcome.{Outcome}
use democrit_marketplace.Exec.{Exec}
use democrit_marketplace.Json.{Json}

-- rpc-stubs/xaya.json, and `gettxout`, which the code calls through CallMethod.
pub record XayaRpc (W : Type 0) : Type 0 where
  pub lockunspent : Bool → Json → Exec W Bool
  pub getnewaddress : Exec W Bytes
  pub name_show : Bytes → Exec W Json
  pub gettxout : Bytes → ℕ → Exec W Json
  pub getblockheader : Bytes → Exec W Json
  pub walletcreatefundedpsbt : Json → Json → ℕ → Json → Exec W Json
  pub createpsbt : Json → Json → Exec W Bytes
  pub namepsbt : Bytes → ℕ → Json → Exec W Json
  pub joinpsbts : Json → Exec W Bytes
  pub decodepsbt : Bytes → Exec W Json
  pub walletprocesspsbt : Bytes → Exec W Json
  pub combinepsbt : Json → Exec W Bytes
  pub finalizepsbt : Bytes → Exec W Json
  pub sendrawtransaction : Bytes → Exec W Bytes

-- rpc-stubs/dem-gsp.json
pub record DemGspRpc (W : Type 0) : Type 0 where
  pub checktrade : Bytes → Exec W Json

-- assetspec.hpp. `can_sell` returns its hash argument beside the result.
pub record AssetSpec (W : Type 0) : Type 0 where
  pub get_game_id : Bytes
  pub is_asset : Bytes → Exec W Bool
  pub can_sell : Bytes → Bytes → ℤ → Exec W (Bool × ℕ)
  pub can_buy : Bytes → Bytes → ℤ → Exec W Bool
  pub get_transfer_move : Bytes → Bytes → Bytes → ℤ → Outcome Json

-- xaya::uint256, xaya::ChiAmountToJson and its inverse, and Json::writeString.
pub record Util : Type 0 where
  pub uint256_from_hex : Bytes → Option ℕ
  pub uint256_to_hex : ℕ → Bytes
  pub chi_amount_to_json : ℤ → Json
  pub chi_amount_from_json : Json → Option ℤ
  pub write_string : Json → Bytes

-- The command-line flags (--democrit_…) and the system clock, in seconds since the epoch.
pub record Config (W : Type 0) : Type 0 where
  pub confirmations : ℕ
  pub feerate_wo_names : ℕ
  pub trade_timeout_ms : ℕ
  pub current_time : W → ℕ

pub record Services (W : Type 0) : Type 0 where
  pub xaya : XayaRpc W
  pub dem_gsp : DemGspRpc W
  pub spec : AssetSpec W
  pub util : Util
  pub config : Config W

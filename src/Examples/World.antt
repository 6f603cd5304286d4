-- ===== src/Examples/World.antt =====
-- A chain, a wallet and a game for the examples. The world is the time. The block at height `n` has
-- the hash `n`, and one transaction is traded, at three stages of its signature: `u`, `b` with the
-- buyer's part and `f` with both.
use democrit_marketplace.Prelude.{
  ℕ, zero, suc, ◌≡◌, refl, Bool, true, false, Option, none, some, List, [], ◌∷◌, Bytes, bytes_eq,
  codes, if◌then◌else◌,
}
use democrit_marketplace.Prelude.Int.{ℤ, pos}
use democrit_marketplace.Outcome.{ok}
use democrit_marketplace.Json.{
  Json, Members, num, str, bool, null, obj, member, end, array, field, is_object, find_member,
}
use democrit_marketplace.Proto.{ask, Order, initiated, SellerData, TradeState}
use democrit_marketplace.Services.{XayaRpc, DemGspRpc, AssetSpec, Util, Services}
use democrit_marketplace.Checker.{TradeChecker}
use democrit_marketplace.Checker.Ancestry.Chain.{Served}

-- An object with one, two or three members.
abbrev pub one : Bytes → Json → Json
one k v = obj (member k v end)

abbrev pub two : Bytes → Json → Bytes → Json → Json
two k v l w = obj (member k v (member l w end))

abbrev pub header : ℕ → Json
header zero = obj end
header (suc n) = one (codes "previousblockhash") (str (n ∷ []))

abbrev pub parent : ℕ → Option ℕ
parent zero = none
parent (suc n) = some n

abbrev pub header_of : Bytes → Json
header_of (n ∷ []) = header n
header_of _ = null

abbrev pub from_hex : Bytes → Option ℕ
from_hex (n ∷ []) = some n
from_hex _ = none

abbrev pub amount : Json → Option ℤ
amount (num z) = some z
amount _ = none

abbrev pub util : Util
util = record {
  uint256_from_hex = from_hex;
  uint256_to_hex = λ n. n ∷ [];
  chi_amount_to_json = num;
  chi_amount_from_json = amount;
  write_string = λ _. codes "v";
}

abbrev pub input : Bytes → ℕ → Json
input h n = two (codes "txid") (str h) (codes "vout") (num (pos n))

abbrev pub name_op : Json
name_op = obj (
    member (codes "name_encoding") (str (codes "utf8")) (
      member (codes "value_encoding") (str (codes "utf8")) (
        member (codes "op") (str (codes "name_update")) (
          member (codes "name") (str (codes "p/s"))
            (member (codes "value") (str (codes "v")) end)))))

abbrev pub vins : List Json
vins = input (codes "c") 0 ∷ input (codes "n") 1 ∷ []

abbrev pub tx_members : Members
tx_members = member (codes "btxid") (str (codes "t")) (
    member (codes "vin") (array vins) (
      member (codes "vout")
        (array (
          one (codes "scriptPubKey")
            (two (codes "address") (str (codes "A")) (codes "nameOp") name_op)
          ∷ two (codes "value") (num (pos 20)) (codes "scriptPubKey")
              (one (codes "addresses") (array (str (codes "B") ∷ [])))
          ∷ []))
        end))

abbrev pub tx : Json
tx = obj tx_members

-- The inputs with or without a signature of the buyer and of the seller.
abbrev pub decoded : Bool → Bool → Json
decoded buyer seller = two (codes "tx") tx (codes "inputs") (array (bool buyer ∷ bool seller ∷ []))

abbrev pub decode : Bytes → Json
decode p =
    if bytes_eq p (codes "u")
    then decoded false false
    else if bytes_eq p (codes "b")
    then decoded true false
    else decoded true true

abbrev pub sign_next : Bytes → Json
sign_next p =
    if bytes_eq p (codes "u")
    then two (codes "psbt") (str (codes "b")) (codes "complete") (bool false)
    else two (codes "psbt") (str (codes "f")) (codes "complete") (bool true)

abbrev pub xaya : XayaRpc ℕ
xaya = record {
  lockunspent = λ _ _ w. (ok true, w);
  getnewaddress = λ w. (ok (w ∷ []), suc w);
  name_show = λ _ w. (ok (input (codes "n") 1), w);
  gettxout = λ _ _ w. (ok (one (codes "bestblock") (str (4 ∷ []))), w);
  getblockheader = λ h w. (ok (header_of h), w);
  walletcreatefundedpsbt = λ _ _ _ _ w. (ok (one (codes "psbt") (str (codes "c"))), w);
  createpsbt = λ _ _ w. (ok (codes "n"), w);
  namepsbt = λ _ _ _ w. (ok (one (codes "psbt") (str (codes "m"))), w);
  joinpsbts = λ _ w. (ok (codes "u"), w);
  decodepsbt = λ p w. (ok (decode p), w);
  walletprocesspsbt = λ p w. (ok (sign_next p), w);
  combinepsbt = λ _ w. (ok (codes "f"), w);
  finalizepsbt =
      λ _ w. (ok (two (codes "hex") (str (codes "h")) (codes "complete") (bool true)), w);
  sendrawtransaction = λ _ w. (ok (codes "t"), w);
}

-- The trade is unknown to the game until the time 100, and confirmed at block 3 from then on.
abbrev pub trade_at : ℕ → Json
trade_at height =
    two (codes "height") (num (pos height)) (codes "data")
      (two (codes "state") (str (codes "confirmed")) (codes "height") (num (pos 3)))

abbrev pub dem_gsp : DemGspRpc ℕ
dem_gsp = record { checktrade = λ _ w. (ok (trade_at w), w) }

abbrev pub spec : AssetSpec ℕ
spec = record {
  get_game_id = codes "g";
  is_asset = λ _ w. (ok true, w);
  can_sell = λ _ _ _ w. (ok (true, 5), w);
  can_buy = λ _ _ _ w. (ok true, w);
  get_transfer_move = λ _ _ _ _. ok null;
}

abbrev pub services : Services ℕ
services = record {
  xaya = xaya;
  dem_gsp = dem_gsp;
  spec = spec;
  util = util;
  config = record {
    confirmations = 2;
    feerate_wo_names = 1000;
    trade_timeout_ms = 60000;
    current_time = λ w. w;
  };
}

abbrev pub checker : TradeChecker
checker = record {
  buyer = codes "b";
  seller = codes "s";
  asset = codes "a";
  price = pos 10;
  units = pos 2;
}

abbrev pub seller_data : SellerData
seller_data = record {
  name_address = some (codes "A");
  chi_address = some (codes "B");
  name_output = some (record { hash = some (codes "n"); n = some 1 });
}

-- `s` offers up to 5 units of `a` at 10 each.
abbrev pub order : Order
order = record {
  account = some (codes "s");
  id = some 7;
  asset = some (codes "a");
  min_units = none;
  max_units = 5;
  type = some ask;
  price_sat = some 10;
  locked = false;
}

-- Two units of it are traded with `counterparty`, from the time 1 on.
abbrev pub trade : Bytes → Option Bytes → TradeState
trade counterparty theirs = record {
  order = order;
  units = 2;
  counterparty = counterparty;
  start_time = 1;
  state = some initiated;
  seller_data = some seller_data;
  our_psbt = none;
  their_psbt = theirs;
  conflict_height = none;
}

pub served : Served xaya util parent
unfolding bytes_eq find_member
served = record {
  header = header;
  replies = λ _ _. refl;
  is_obj = header-IsObject;
  genesis = genesis;
  linked = linked;
}
  where
    header-IsObject : (b : ℕ) → is_object (header b) ≡ true
    header-IsObject zero = refl
    header-IsObject (suc b) = refl

    genesis : (b : ℕ) → parent b ≡ none → field (header b) (codes "previousblockhash") ≡ null
    genesis zero e = refl
    genesis (suc b) e = cc

    linked :
        (b p : ℕ)
        → parent b ≡ some p
        → (h : Bytes) × (field (header b) (codes "previousblockhash") ≡ str h)
          × (from_hex h ≡ some p)
    linked zero p e = cc
    linked (suc b) p e = (b ∷ [], refl, e)

-- ===== src/Game.antt =====
-- gsp/game.cpp, gsp/pending.cpp and checktrade of gsp/rpcserver.cpp: the game g/dem, which keeps the
-- height at which each trade was confirmed. SQLite and libxayagame are parameters: a table with one
-- primary key, and what the framework adds to the data of a state.
pub mod Blocks
pub mod Trades
use democrit_marketplace.Prelude.{
  ℕ, ◌<◌, ◌^◌, ◌≡◌, Bool, true, false, List, [], ◌∷◌, Bytes, bytes_eq, codes, ltb, ◌||◌,
  if◌then◌else◌,
}
use democrit_marketplace.Prelude.Int.{ℤ, pos, negsuc}
use democrit_marketplace.Outcome.{Outcome, ok, abort, check, ◌>>=◌, ◌>>◌}
use democrit_marketplace.Json.{
  Json, null, bool, num, real, str, arr, obj, Members, end, member, elements, with_member,
  remove_member, empty_object, is_object, is_null, is_uint, is_member, get_member, field, uint_of,
}
use democrit_marketplace.Json.Text.{as_string}

-- The table `trades` with the statements of the code. `heights` reads the column as an int.
pub record Table (D : Type 0) : Type 0 where
  pub insert : Bytes → ℕ → D → Outcome D
  pub heights : Bytes → D → List ℤ
  pub rows : D → List (Bytes × ℤ)

-- A statement fails only on a key that is there, and writes one row.
pub record IsTable {D : Type 0} (table : Table D) : Type 0 where
  pub accepts :
      (b : Bytes) (h : ℕ) (d : D) → table.heights b d ≡ [] → (e : D) × (table.insert b h d ≡ ok e)
  pub inserted :
      (b : Bytes) (h : ℕ) (d e : D)
      → h < 2 ^ 31
      → table.insert b h d ≡ ok e
      → table.heights b e ≡ pos h ∷ []
  pub kept :
      (b c : Bytes) (h : ℕ) (d e : D)
      → table.insert b h d ≡ ok e
      → bytes_eq b c ≡ false
      → table.heights c e ≡ table.heights c d

-- GetPendingJsonState, and GetCustomStateData by what it makes of the callback's value.
pub record Framework : Type 0 where
  pub pending_state : Json
  pub custom_state : Json → Json

pub data TradeState : Type 0 where
  unknown pending : TradeState
  confirmed : ℕ → TradeState

pub record TradeData : Type 0 where
  pub state : TradeState
  pub gsp_state : Json

-- xaya::Chain; GetInitialStateBlock fails on any other value.
pub data Chain : Type 0 where
  main test regtest : Chain

unfoldable pub initial_state_block : Chain → ℕ × Bytes
initial_state_block main =
    (2350000, codes "c66f30db579e0aad429648f4cb7dd67648d007ae4313f265a406b88f043b3d93")
initial_state_block test =
    (109000, codes "ebc9c179a6a9700777851d2b5452fa1c4b14aaa194a646e2a37cec8ca410e62a")
initial_state_block regtest =
    (0, codes "6f750b36d22f1dc3d0a6e483af45301022646dfc3b3ba2187865f5a7d6d83ab1")

unfoldable pub parse_move : Json → Outcome Bytes
parse_move mv = do btxid ← get_member mv (codes "btxid"); as_string btxid

-- The values that a loop over a Json::Value visits.
abbrev pub member_values : Members → List Json
member_values end = []
member_values (member k j r) = j ∷ member_values r

abbrev pub values_of : Json → List Json
values_of (arr xs) = elements xs
values_of (obj m) = member_values m
values_of _ = []

-- isInt: a value of int32_t
abbrev pub is_int : Json → Bool
is_int (num (pos n)) = ltb n (2 ^ 31)
is_int (num (negsuc n)) = ltb n (2 ^ 31)
is_int _ = false

abbrev pub without : Json → Bytes → Json
without (obj m) k = obj (remove_member k m)
without j k = j

-- PendingMoves::AddPendingMove, on the pending moves; Clear sets them to an empty object.
unfoldable pub add_pending_move : Json → Json → Outcome Json
add_pending_move mv moves = do btxid ← parse_move mv; ok (with_member moves btxid empty_object)

-- The row of a trade, for the state's data.
unfoldable pub row_json : List ℤ → Outcome Json
row_json [] = ok null
row_json (h ∷ []) = ok (num h)
row_json (h ∷ i ∷ rest) = abort

unfoldable pub trade_state : Json → Json → Bytes → TradeState
trade_state row moves btxid =
    if is_int row
    then confirmed (uint_of row)
    else if is_member moves btxid
    then pending
    else unknown

unfoldable pub state_json : TradeState → Json
state_json unknown = with_member empty_object (codes "state") (str (codes "unknown"))
state_json pending = with_member empty_object (codes "state") (str (codes "pending"))
state_json (confirmed height) =
    with_member (with_member empty_object (codes "state") (str (codes "confirmed")))
      (codes "height") (num (pos height))

unfoldable pub state_members : List (Bytes × ℤ) → Json → Json
state_members [] res = res
state_members ((btxid, height) ∷ rest) res = state_members rest (with_member res btxid (num height))

-- `real_to_uint` is what jsoncpp makes of a number that is not integral.
module _ {D : Type 0} (table : Table D) (real_to_uint : Bytes → Outcome ℕ) where
  unfoldable pub as_uint : Json → Outcome ℕ
  as_uint null = ok 0
  as_uint (bool b) = ok (if b then 1 else 0)
  as_uint (num (pos n)) = if ltb n (2 ^ 32) then ok n else abort
  as_uint (real s) = real_to_uint s
  as_uint _ = abort

  unfoldable pub insert_moves : ℕ → List Json → D → Outcome D
  insert_moves height [] d = ok d
  insert_moves height (entry ∷ rest) d = do
    btxid ← parse_move entry
    next ← table.insert btxid height d
    insert_moves height rest next

  unfoldable pub update_state : Json → D → Outcome D
  update_state block_data d = do
    block ← get_member block_data (codes "block")
    height_val ← get_member block (codes "height")
    height ← as_uint height_val
    moves ← get_member block_data (codes "moves")
    insert_moves height (values_of moves) d

module _ {D : Type 0} (table : Table D) where
  unfoldable pub get_state_as_json : D → Json
  get_state_as_json d = state_members (table.rows d) empty_object

  unfoldable pub check_trade : Framework → Bytes → D → Outcome TradeData
  check_trade g btxid d = do
    moves ← get_member g.pending_state (codes "pending")
    row ← row_json (table.heights btxid d)
    let confirmed_state = g.custom_state row
    check (is_object moves)
    check (is_object confirmed_state)
    check (is_member confirmed_state (codes "data"))
    let data_val = field confirmed_state (codes "data")
    check (is_null data_val || is_uint data_val)
    ok (record {
      state = trade_state data_val moves btxid;
      gsp_state = without confirmed_state (codes "data");
    })

  -- The RPC method of the GSP.
  unfoldable pub checktrade : Framework → Bytes → D → Outcome Json
  checktrade g btxid d = do
    found ← check_trade g btxid d
    ok (with_member found.gsp_state (codes "data") (state_json found.state))

-- ===== src/Trade/Update.antt =====
-- Trade::Update: a negotiation that takes too long is abandoned, and a pending trade is checked
-- against the chain. Times are in seconds since the epoch, the timeout is in milliseconds.
pub mod Grows
pub mod Settled
pub mod Seen
pub mod Watched
pub mod Progress
use democrit_marketplace.Prelude.{
  ℕ, ◌+◌, ◌*◌, Bool, true, false, Option, none, some, is_some, get_or, not, List, [], ◌∷◌, Bytes,
  bytes_eq, codes, ltb, leb, if◌then◌else◌,
}
use democrit_marketplace.Exec.{Exec, pure, gets, check, ◌>>=◌, ◌>>◌}
use democrit_marketplace.Json.{
  Json, is_object, is_array, is_string, is_uint, is_null, field, string_of, uint_of, elements_of,
}
use democrit_marketplace.Proto.{
  TradeStatus, initiated, pending, success, failed, abandoned, TradeState,
}
use democrit_marketplace.Services.{Services}
use democrit_marketplace.Trade.{Ctx, on_world, state_of}
use democrit_marketplace.Trade.Reply.{read_pb, update_pb}

abbrev pub set_state : TradeStatus → TradeState → TradeState
set_state st pb = record pb { state = some st }

abbrev pub set_conflict_height : Option ℕ → TradeState → TradeState
set_conflict_height height pb = record pb { conflict_height = height }

-- What the g/dem GSP says of the trade, and the transaction.
pub record Report : Type 0 where
  pub tx : Json
  pub height : ℕ
  pub entry : Json
  pub state : Bytes

module _ {W : Type 0} (sv : Services W) where
  -- The loop over the inputs: gettxout has null for one that is spent.
  unfoldable pub any_spent : List Json → Exec W Bool
  any_spent [] = pure false
  any_spent (vin ∷ rest) = do
    check (is_object vin)
    let hash_val = field vin (codes "txid")
    check (is_string hash_val)
    let n_val = field vin (codes "vout")
    check (is_uint n_val)
    utxo_data ← sv.xaya.gettxout (string_of hash_val) (uint_of n_val)
    if is_null utxo_data then pure true else any_spent rest

  unfoldable pub check_trade : Bytes → Exec W Report
  check_trade psbt = do
    decoded ← sv.xaya.decodepsbt psbt
    check (is_object decoded)
    let tx = field decoded (codes "tx")
    check (is_object tx)
    let btxid_val = field tx (codes "btxid")
    check (is_string btxid_val)
    checked ← sv.dem_gsp.checktrade (string_of btxid_val)
    check (is_object checked)
    let height_val = field checked (codes "height")
    check (is_uint height_val)
    let entry = field checked (codes "data")
    check (is_object entry)
    let state_val = field entry (codes "state")
    check (is_string state_val)
    pure (record {
      tx = tx;
      height = uint_of height_val;
      entry = entry;
      state = string_of state_val;
    })

  -- Whether a confirmed trade has enough confirmations.
  unfoldable pub is_confirmed : Report → Exec W Bool
  is_confirmed report = if not (bytes_eq report.state (codes "confirmed")) then pure false else (do
    let conf_val = field report.entry (codes "height")
    check (is_uint conf_val)
    check (leb (uint_of conf_val) report.height)
    pure (leb (uint_of conf_val + sv.config.confirmations) (report.height + 1)))

  unfoldable pub is_conflicted : Report → Exec W Bool
  is_conflicted report = do
    let vin = field report.tx (codes "vin")
    check (is_array vin)
    any_spent (elements_of vin)

  -- The conflict is noted when it is first seen, and the trade has failed when it is old enough.
  unfoldable pub note_conflict : ℕ → Option ℕ → Exec (Ctx W) Unit
  note_conflict height none = update_pb (set_conflict_height (some height))
  note_conflict height (some since) =
      if leb (since + sv.config.confirmations) (height + 1)
      then update_pb (set_state failed)
      else pure tt

  unfoldable pub update_pending : TradeState → Exec (Ctx W) Unit
  update_pending pb = do
    check (is_some pb.our_psbt)
    report ← on_world (check_trade (get_or pb.our_psbt []))
    confirmed ← on_world (is_confirmed report)
    if confirmed
        then update_pb (set_state success)
        else if not (bytes_eq report.state (codes "unknown"))
        then update_pb (set_conflict_height none)
        else (do
          conflicted ← on_world (is_conflicted report)
          if not conflicted
              then update_pb (set_conflict_height none)
              else note_conflict report.height pb.conflict_height)

  -- `now - start > timeout`, with nothing subtracted.
  abbrev pub is_timed_out : TradeState → W → Bool
  is_timed_out pb w =
      ltb (pb.start_time * 1000 + sv.config.trade_timeout_ms) (sv.config.current_time w * 1000)

  unfoldable pub update_initiated : TradeState → Exec (Ctx W) Unit
  update_initiated pb = do
    timed_out ← gets (λ c. is_timed_out pb c.world)
    if timed_out then update_pb (set_state abandoned) else pure tt

  unfoldable pub update_by_state : TradeState → TradeStatus → Exec (Ctx W) Unit
  update_by_state pb initiated = update_initiated pb
  update_by_state pb pending = update_pending pb
  update_by_state pb _ = pure tt

  unfoldable pub update : Exec (Ctx W) Unit
  update = do pb ← read_pb; update_by_state pb (state_of pb)

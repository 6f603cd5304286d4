-- ===== src/Examples/Watching.antt =====
-- A trade that is watched until its transaction is confirmed, at the example.
use democrit_marketplace.Prelude.{
  ℕ, ◌+◌, ◌≤◌, ◌≡◌, ◌≢◌, refl, ◌⊎◌, inr, true, none, codes, List, [], ◌∷◌, ◌++◌, bytes_eq, arith,
}
use democrit_marketplace.Outcome.{ok}
use democrit_marketplace.Json.{str, bool, member, end, array, find_member, items}
use democrit_marketplace.Services.{Services}
use democrit_marketplace.Proto.{initiated, success, failed}
use democrit_marketplace.Trade.{Ctx, state_of}
use democrit_marketplace.Trade.Update.{update}
use democrit_marketplace.Trade.Update.Grows.{Event, turn, tick, run_events}
use democrit_marketplace.Trade.Update.Watched.{IsGame, IsRecorded, chain_state}
use democrit_marketplace.Trade.Update.Seen.{IsTransaction, none_left, input, seen_by, update-watch}
use democrit_marketplace.Trade.Update.Progress.{run_events-NotInitiated, run_events-success}
use democrit_marketplace.Conversion.Fields.{lookup_member}
use democrit_marketplace.Game.{checktrade, confirmed}
use democrit_marketplace.Game.Trades.{expected}
use democrit_marketplace.Examples.World.{services, trade, one, tx, tx_members, vins}
use democrit_marketplace.Examples.Managing.{signed}
use democrit_marketplace.Examples.Blocks.{
  Rows, heights_of, table, base, pending_moves, framework, is_framework,
}

abbrev rows : Rows
rows = (codes "t", 3) ∷ []

-- The GSP is the game over this table, at height 4.
abbrev over_game : Services ℕ
over_game = record services {
  dem_gsp = record { checktrade = λ t w. (checktrade table framework t rows, w) };
}

is_game : IsGame over_game table
unfolding lookup_member bytes_eq
is_game = record {
  database = λ w. rows;
  framework = λ w. framework;
  moves = λ w. pending_moves;
  base = λ w. base;
  height = λ w. 4;
  serves = λ t w. refl;
  law = λ w. is_framework;
  at_height = λ w. refl;
  small = λ w. ground arith;
}

is_transaction : IsTransaction over_game (codes "f") (codes "t")
unfolding find_member bytes_eq
is_transaction = record {
  decoded =
      member (codes "tx") tx (member (codes "inputs") (array (bool true ∷ bool true ∷ [])) end);
  tx = tx_members;
  vins = items vins;
  outs = (codes "c", 0) ∷ (codes "n", 1) ∷ [];
  utxo = λ hash n w. one (codes "bestblock") (str (4 ∷ []));
  decodes = λ w. refl;
  has_tx = refl;
  its_id = refl;
  has_vin = refl;
  inputs = input refl refl (ground arith) (input refl refl (ground arith) none_left);
  looks_up = λ hash n w. refl;
}

abbrev watched : Ctx ℕ
watched = record { pb = signed; world = 5 }

recorded : IsRecorded over_game table is_game (codes "t") 5
unfolding is_game heights_of bytes_eq
recorded = inr (3, ground arith, ground arith, refl)

update-watch_example : update over_game watched ≡ (
  ok tt,
  record watched {
    pb = seen_by over_game table is_game (codes "f") (codes "t") is_transaction 5 signed;
  },
)
update-watch_example =
    update-watch over_game table is_game (codes "f") (codes "t") is_transaction watched refl refl
      recorded

-- It is our turn, the timer runs, and it runs again later.
abbrev later : List (ℕ × Event)
later = (6, turn) ∷ (7, tick) ∷ []

known : chain_state over_game table is_game (codes "t") 5 ≡ confirmed 3
unfolding is_game heights_of expected bytes_eq
known = refl

is_deep : 3 + over_game.config.confirmations ≤ is_game.height 5 + 1
unfolding is_game
is_deep = ground arith

run_events-success_example :
    (state_of (run_events over_game (codes "b") ((4, tick) ∷ []) watched).pb ≡ failed)
    ⊎ (state_of
          (run_events over_game (codes "b") (((4, tick) ∷ []) ++ (5, tick) ∷ later) watched).pb
        ≡ success)
run_events-success_example =
    run_events-success over_game (codes "b") table is_game (codes "f") (codes "t") is_transaction
      ((4, tick) ∷ []) later 5 watched 3 refl refl recorded known is_deep

abbrev negotiated : Ctx ℕ
negotiated = record { pb = trade (codes "c") none; world = 1 }

run_events-NotInitiated_example :
    state_of
      (run_events services (codes "b") (((2, turn) ∷ []) ++ (100, tick) ∷ later) negotiated).pb
    ≢ initiated
run_events-NotInitiated_example =
    run_events-NotInitiated services (codes "b") ((2, turn) ∷ []) later 100 negotiated
      (ground arith)

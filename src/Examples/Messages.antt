-- ===== src/Examples/Messages.antt =====
-- A daemon, with what is sent to it; and the asks of a non-fungible asset.
use democrit_marketplace.Prelude.{
  ℕ, ◌^◌, ◌≡◌, refl, true, false, none, some, List, [], ◌∷◌, Bytes, bytes_eq, codes, arith, leb,
  ◌||◌,
}
use democrit_marketplace.Prelude.Int.{pos}
use democrit_marketplace.Outcome.{ok, abort}
use democrit_marketplace.Exec.{◌>>=◌, pure, lift, modify, zoom}
use democrit_marketplace.Json.{num, str, obj, member, end, find_member, has_member, is_null}
use democrit_marketplace.Proto.{Order, ask, OrderbookByAsset}
use democrit_marketplace.OrderBook.{AccountOrders}
use democrit_marketplace.OrderBook.ByAsset.Sides.{entry}
use democrit_marketplace.OrderBook.ByAsset.Offered.{Offered}
use democrit_marketplace.Authenticator.{
  authenticate, decode_name, put_jid, is_simple_char, all_simple,
}
use democrit_marketplace.Authenticator.Known.{is_jid_of}
use democrit_marketplace.Authenticator.Names.{encode_name}
use democrit_marketplace.Daemon.{
  Daemon, Setup, authenticated, handle_message, handle_disconnect, get_orders_by_asset,
}
use democrit_marketplace.Daemon.Validation.{
  validate_order, validate_asset, validate_side, has_bad_minimum,
}
use democrit_marketplace.Daemon.Book.{is_sound, IsSoundBook}
use democrit_marketplace.Daemon.Events.{
  Event, run_events, presence, room_message, timeout_due, outside_change,
}
use democrit_marketplace.Daemon.Offers.Reached.{
  run_events-IsSoundBook, get_orders_by_asset-run_events,
}
use democrit_marketplace.Daemon.Peers.{IsKept, handle_message-IsKept}
use democrit_marketplace.Daemon.Untyped.{with_type, handle_message-abort}
use democrit_marketplace.Nonfungible.{
  NfRpc, nf_asset_spec, get_nf_asset, split_line, asset_of_parts,
}
use democrit_marketplace.Nonfungible.Sales.{Answers, validate_order-nf_asset_spec}
use democrit_marketplace.Examples.World.{services, order, util, one, two}
use democrit_marketplace.Examples.Accounts.{Jid, jids, servers}

abbrev pub setup : Setup Jid ℕ
setup = record {
  services = services;
  client = record { xmpp_connected = λ w. true; send = λ _ _ w. (ok tt, w) };
  jids = jids;
  xid_servers = servers;
  account = codes "b";
  order_timeout = 3;
  book_time = λ w. w;
  moved_order = λ o. o;
  moved_trade = λ t. t;
}

-- `t` has an order in the book.
abbrev pub daemon : List (Bytes × AccountOrders) → List (Bytes × Jid) → Daemon Jid ℕ
daemon accounts known = record {
  auth = known;
  all_orders = record { orders = accounts; updates = [] };
  global = record {
    state = record {
      account = codes "b";
      own_orders = [];
      next_free_id = 1;
      trades = [];
      trade_archive = [];
    };
    world = 5;
  };
  room = record { nick_to_jid = []; joining = false; disconnecting = false };
}

abbrev sender : Jid
sender = (codes "x", codes "s")

-- `s` enters the room and sends two orders, one of them with no units; then the time passes.
abbrev events : List (Event Jid ℕ)
events =
    presence (record {
      is_self = false;
      is_unavailable = false;
      nick_changed = false;
      nick = codes "n";
      new_nick = [];
      jid = some sender;
    })
    ∷ room_message false (codes "n") (
        some (record {
          account = none;
          orders = (7, order) ∷ (8, record order { max_units = 0 }) ∷ [];
        }))
    ∷ outside_change (λ w. 7)
    ∷ timeout_due
    ∷ []

run_events-IsSoundBook_example :
    IsSoundBook (run_events setup events (daemon [] [])).all_orders.orders
run_events-IsSoundBook_example = run_events-IsSoundBook setup events (daemon [] []) refl

get_orders_by_asset-run_events_example :
    (book : OrderbookByAsset) × (get_orders_by_asset setup (run_events setup events (daemon [] []))
      ≡ ok book)
    × ((asset : Bytes)
        → Offered
            (run_events setup events (daemon [] [])).all_orders.orders
            asset
            (entry asset book))
get_orders_by_asset-run_events_example =
    get_orders_by_asset-run_events setup events (daemon [] []) refl

abbrev of_t : List (Bytes × AccountOrders)
of_t = (codes "t", record { orders = (7, order) ∷ []; last_update = 4 }) ∷ []

apart : is_jid_of jids servers (codes "t") sender ≡ false
unfolding is_jid_of encode_name bytes_eq all_simple is_simple_char
apart = refl

handle_message-IsKept_example :
    IsKept setup
      (codes "t")
      (daemon of_t [])
      (handle_message setup sender
        (some (record { account = none; orders = (7, order) ∷ [] }))
        (daemon of_t [])).1
    × IsKept setup (codes "t") (daemon of_t []) (handle_disconnect setup sender (daemon of_t [])).1
handle_message-IsKept_example =
    handle_message-IsKept setup (codes "t") (daemon of_t []) sender
      (some (record { account = none; orders = (7, order) ∷ [] })) (ground arith, tt) apart

known :
    authenticated setup sender (daemon of_t [])
    ≡ (ok (some (codes "s")), daemon of_t ((codes "s", sender) ∷ []))
unfolding authenticate decode_name put_jid all_simple is_simple_char bytes_eq ◌>>=◌ pure lift modify
    zoom
known = refl

accepted : validate_order services.spec (codes "s") (with_type (some ask) order) 5 ≡ (ok true, 5)
unfolding validate_order validate_asset validate_side has_bad_minimum ◌>>=◌ pure
accepted = refl

handle_message-abort_example :
    ((handle_message setup sender
        (some (record { account = none; orders = (7, with_type (some ask) order) ∷ [] }))
        (daemon of_t [])).0
      ≡ ok tt)
    × ((handle_message setup sender
          (some (record { account = none; orders = (7, with_type none order) ∷ [] }))
          (daemon of_t [])).0
        ≡ abort)
handle_message-abort_example =
    handle_message-abort setup sender (daemon of_t []) (daemon of_t ((codes "s", sender) ∷ []))
      (codes "s") 7 order none 5 known refl accepted

-- The asset `a` of the minter `m`, of which `s` has three units.
abbrev gsp : NfRpc ℕ
gsp = record {
  getassetdetails = λ _ w. (ok (one (codes "data") (obj end)), w);
  getbalance =
      λ _ _ w. (ok (two (codes "blockhash") (str (9 ∷ [])) (codes "data") (num (pos 3))), w);
}

answers : Answers util gsp (codes "m\na") (codes "s") 3 5
unfolding find_member has_member bytes_eq
answers = record {
  details = member (codes "data") (obj end) end;
  between = 5;
  detailed = refl;
  has_data = refl;
  is_known = refl;
  reply = member (codes "blockhash") (str (9 ∷ [])) (member (codes "data") (num (pos 3)) end);
  after = 5;
  replied = refl;
  has_balance = refl;
  in_range = ground arith;
  hash_hex = 9 ∷ [];
  hash = 9;
  has_hash = refl;
  is_hash = refl;
}

-- More units than there are, and a negative number for CanSell.
abbrev huge : Order
huge = record order { asset = some (codes "m\na"); max_units = 9223372036854775808 }

sound : is_sound huge ≡ true
unfolding is_sound has_bad_minimum
sound = refl

parsed : is_null (get_nf_asset (codes "m\na")) ≡ false
unfolding get_nf_asset split_line asset_of_parts
parsed = refl

validate_order-nf_asset_spec_example :
    validate_order (nf_asset_spec util gsp) (codes "s") huge 5
    ≡ (ok (leb 9223372036854775808 3 || leb (2 ^ 63) 9223372036854775808), answers.after)
validate_order-nf_asset_spec_example =
    validate_order-nf_asset_spec util gsp (codes "s") (codes "m\na") 3 5 answers huge refl refl
      parsed (ground arith) sound

-- ===== src/Lib.antt =====
-- Democrit: atomic trades of game assets for CHI on the Xaya blockchain, without a central market.
--
-- Each user runs the daemon. It keeps the user's own orders and announces them to the others, and when
-- an order is taken, maker and taker negotiate over direct messages one transaction, in which the buyer
-- pays the seller and the seller's name sends the move that transfers the asset. The transaction takes
-- effect as a whole or not at all, so what protects a user is what the daemon checks before it signs.
--
-- The parts, and the files that model them (paths are from the repository's root):
--   Checker    src/checker.cpp, the checks of a trade. Total has GetTotalSat, Ancestry has
--              IsBlockAncestor and CheckForBuyerTrade, Outputs has CheckForSellerOutputs, and
--              Signatures has CheckForBuyerSignature and CheckForSellerSignature.
--   Trade      src/trades.cpp, class Trade. Messages has HandleMessage, Wallet has CreateSellerData,
--              ConstructTransaction and the helpers, Reply has HasReply, and Update has Update, over the
--              GSP in Watched and Seen and over time in Progress.
--   Manager    src/trades.cpp, class TradeManager, with Trade::HandleSuccess and HandleFailure.
--              Negotiation has TakeOrder, OrderTaken and ProcessMessage, Replies
--              what a message changes, and Sales the orders that are traded.
--   MyOrders   src/myorders.cpp, the user's own orders.
--   OrderBook  src/orderbook.cpp, the orders of all other accounts. ByAsset has the views by asset, and
--              Timeouts what RunTimeout leaves.
--   Authenticator  src/authenticator.cpp. Names has what DecodeName decodes, and Known the noted JIDs.
--   Muc        src/mucclient.cpp, the messages sent and the nicknames of the room; Nicks has whom a nick
--              stands for.
--   Daemon     src/daemon.cpp, where these parts meet, and src/rpcserver.cpp in Daemon/Rpc. Validation has
--              ValidateOrder, Events all that may happen to a daemon, Offers what is then in the order
--              book, Peers what the message of another account can do, Untyped what one without an
--              order's type does, and Answers who gets a reply.
--   Conversion src/json.cpp, orders, order books and trades as JSON.
--   Game       gsp/game.cpp, gsp/pending.cpp and checktrade of gsp/rpcserver.cpp.
--   Nonfungible  nonfungible/main.cpp, the AssetSpec of non-fungible assets.
--   Proto      src/proto/*.proto, the data of all of these.
--   Services   what the program calls and does not implement: the RPC interfaces of Xaya Core and the
--              GSP, the game's AssetSpec, libxayautil, the clock.
--   Json       the values of jsoncpp, as far as the code reads and builds them.
--   Exec       the effects: a method reads and writes a state and returns, raises an exception or ends
--              the process (a failed CHECK or LOG (FATAL)). Exec/Rules has the rules to reason with.
--   Outcome    the same three ends, without a state.
--   Examples   the theorems at a concrete trade, in a small world.
--
-- A method is one function of the model, or one function for each part between two comments of it, under
-- the source's names. TradeManager calls MyOrders to lock, unlock, remove and add orders, and runs the
-- methods of Trade on the entries of the list of trades; Trade calls TradeChecker. The daemon finds the
-- account of a JID with Authenticator, gives the orders of other accounts to OrderBook and their direct
-- messages to TradeManager, and is what MyOrders asks whether an order is valid. The state of the program
-- is the record Daemon: the message State, the order book, the JIDs and the room. The world outside is a
-- type `W` that each call of a service may change.
--
-- Integers: uint64 fields are natural numbers below 2^64, and int64_t is the type ℤ with the wrap-around
-- written out (to_int64, wrap_int64). Signed overflow, which C++ leaves undefined, is taken to wrap. All
-- loops are structural; IsBlockAncestor counts down from at most 3 blocks, as in the source.
--
-- Not modelled: log output, the locks and timers (each method is one step, and sequences of steps stand
-- for the threads), the order in which a protobuf map is walked (a map is a list of entries), the
-- connection of the XMPP client and the encoding of its stanzas (calls of gloox and charon), the RPC
-- methods and main functions that only pass on what libraries return, and the test doubles.
mod Prelude
pub mod Outcome
pub mod Exec
pub mod Json
pub mod Proto
pub mod Services
pub mod Checker
pub mod Trade
pub mod Examples
pub mod MyOrders
pub mod Manager
pub mod OrderBook
pub mod Conversion
pub mod Authenticator
pub mod Nonfungible
pub mod Muc
pub mod Daemon
pub mod Game

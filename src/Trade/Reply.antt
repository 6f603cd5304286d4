-- ===== src/Trade/Reply.antt =====
-- Trade::HasReply: whether it is our turn in a trade that is being negotiated, and what we answer.
-- The method is one function of the source; each part of it between two comments is one here. `none`
-- stands for the result false: what has been written into the reply is then not read by any caller.
pub mod Grows
pub mod Safety
pub mod Addressed
pub mod Signed
use democrit_marketplace.Prelude.{
  Bool, true, false, Option, none, some, is_some, get_or, not, List, [], ◌∷◌, Bytes, ◌&&◌,
  if◌then◌else◌,
}
use democrit_marketplace.Exec.{Exec, pure, gets, modify, check, ◌>>=◌, ◌>>◌}
use democrit_marketplace.Json.{
  Json, str, array, is_object, is_string, is_bool, field, string_of, bool_of,
}
use democrit_marketplace.Json
use democrit_marketplace.Proto.{
  OrderType, ask, bid, initiated, pending, Role, maker, taker, OutPoint, SellerData, TradeState,
  ProcessingMessage,
}
use democrit_marketplace.Prelude.{codes}
use democrit_marketplace.Services.{Services}
use democrit_marketplace.Checker.Ancestry.{check_for_buyer_trade}
use democrit_marketplace.Checker.Outputs.{check_for_seller_outputs}
use democrit_marketplace.Checker.Signatures.{check_for_buyer_signature, check_for_seller_signature}
use democrit_marketplace.Trade.{
  Ctx, on_world, state_of, get_role, get_order_type, build_trade_checker, init_processing_message,
}
use democrit_marketplace.Trade.Messages.{is_ask, is_initiated}
use democrit_marketplace.Trade.Wallet.{
  sign_psbt, unlock_psbt_inputs, create_seller_data, construct_transaction,
}

abbrev pub is_maker : Role → Bool
is_maker maker = true
is_maker taker = false

abbrev pub no_seller_data : SellerData
no_seller_data = record { name_address = none; chi_address = none; name_output = none }

-- How a part ends: HasReply returns false, returns true with a reply, or goes on.
pub data Progress : Type 0 where
  wait proceed : Progress
  answer : ProcessingMessage → Progress

abbrev pub set_our_psbt : Bytes → TradeState → TradeState
set_our_psbt psbt pb = record pb { our_psbt = some psbt }

abbrev pub set_pending : TradeState → TradeState
set_pending pb = record pb { state = some pending }

module _ {W : Type 0} where
  abbrev pub update_pb : (TradeState → TradeState) → Exec (Ctx W) Unit
  update_pb f = modify (λ c. record c { pb = f c.pb })

  abbrev pub read_pb : Exec (Ctx W) TradeState
  read_pb = gets (λ c. c.pb)

module _ {W : Type 0} (sv : Services W) (account : Bytes) where
  -- The seller signs what the buyer has sent.
  unfoldable pub sign_as_seller : TradeState → Exec (Ctx W) Progress
  sign_as_seller pb = do
    check (is_some pb.their_psbt)
    let their = get_or pb.their_psbt []
    let sd = get_or pb.seller_data no_seller_data
    let checker = build_trade_checker account pb
    outputs ← on_world (check_for_seller_outputs sv.xaya sv.util sv.spec checker their sd)
    if not outputs then pure wait else (do
      (psbt, complete) ← on_world (sign_psbt sv.xaya their)
      valid ← on_world (check_for_seller_signature sv.xaya their psbt sd)
      if not valid
          then pure wait
          else if (if is_maker (get_role account pb) then not complete else complete)
          then pure wait
          else (do update_pb (set_our_psbt psbt); pure proceed))

  -- The buyer constructs the transaction and signs it. As the maker, it is shared unsigned.
  unfoldable pub construct_and_sign : TradeState → Option OutPoint → Exec (Ctx W) Progress
  construct_and_sign pb none = pure wait
  construct_and_sign pb (some name_in) = do
    unsigned_psbt ←
        on_world (construct_transaction sv account pb (build_trade_checker account pb) name_in)
    (signed_psbt, complete) ← on_world (sign_psbt sv.xaya unsigned_psbt)
    valid ← on_world (check_for_buyer_signature sv.xaya unsigned_psbt signed_psbt)
    if not valid then (do on_world (unlock_psbt_inputs sv.xaya signed_psbt); pure wait) else (do
      check (not complete)
      update_pb (set_our_psbt signed_psbt)
      if is_maker (get_role account pb)
          then pure (answer (record (init_processing_message pb) { psbt = some unsigned_psbt }))
          else pure proceed)

  unfoldable pub sign_as_buyer : TradeState → Exec (Ctx W) Progress
  sign_as_buyer pb = do
    vouched ←
        on_world (check_for_buyer_trade sv.xaya sv.util sv.spec (build_trade_checker account pb))
    construct_and_sign pb vouched

  unfoldable pub sign : TradeState → Exec (Ctx W) Progress
  sign pb =
      if is_some pb.our_psbt
      then pure proceed
      else if is_ask (get_order_type account pb)
      then sign_as_seller pb
      else sign_as_buyer pb

  -- The fully signed transaction, of which both parties' parts are there.
  unfoldable pub final_psbt : TradeState → Exec W Bytes
  final_psbt pb =
      if is_ask (get_order_type account pb)
      then pure (get_or pb.our_psbt [])
      else sv.xaya.combinepsbt
          (array (str (get_or pb.their_psbt []) ∷ str (get_or pb.our_psbt []) ∷ []))

  unfoldable pub broadcast : TradeState → Exec (Ctx W) Progress
  broadcast pb = do
    psbt ← on_world (final_psbt pb)
    finalised ← on_world (sv.xaya.finalizepsbt psbt)
    check (is_object finalised)
    let complete_val = field finalised (codes "complete")
    check (is_bool complete_val)
    if not (bool_of complete_val) then pure wait else (do
      let hex_val = field finalised (codes "hex")
      check (is_string hex_val)
      txid ← on_world (sv.xaya.sendrawtransaction (string_of hex_val))
      update_pb set_pending
      pure wait)

  -- Our own PSBT is there: the taker shares it, and the maker broadcasts once it has both.
  unfoldable pub share : Exec (Ctx W) Progress
  share = do
    pb ← read_pb
    check (is_some pb.our_psbt)
    if not (is_maker (get_role account pb))
        then (do
          update_pb set_pending
          pure (answer (record (init_processing_message pb) { psbt = pb.our_psbt })))
        else if not (is_some pb.their_psbt)
        then pure wait
        else broadcast pb

  unfoldable pub after_signing : Progress → Exec (Ctx W) Progress
  after_signing wait = pure wait
  after_signing (answer msg) = pure (answer msg)
  after_signing proceed = share

  -- From here on the seller's data is there.
  unfoldable pub exchange_psbts : Exec (Ctx W) Progress
  exchange_psbts = do
    pb ← read_pb
    if not (is_some pb.seller_data)
        then pure wait
        else if is_ask (get_order_type account pb) && not (is_some pb.their_psbt)
        then pure wait
        else (do signed ← sign pb; after_signing signed)

  unfoldable pub reply_to : Exec (Ctx W) Progress
  reply_to = do
    created ← create_seller_data sv account
    if created
        then (do
          pb ← read_pb
          check (is_some pb.seller_data)
          let shared = record (get_or pb.seller_data no_seller_data) { name_output = none }
          pure (answer (record (init_processing_message pb) { seller_data = some shared })))
        else exchange_psbts

  abbrev pub reply_of : Progress → Option ProcessingMessage
  reply_of (answer msg) = some msg
  reply_of _ = none

  unfoldable pub has_reply : Exec (Ctx W) (Option ProcessingMessage)
  has_reply = do
    pb ← read_pb
    if not (is_initiated (state_of pb))
        then pure none
        else (do progress ← reply_to; pure (reply_of progress))

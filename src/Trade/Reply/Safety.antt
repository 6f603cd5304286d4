-- ===== src/Trade/Reply/Safety.antt =====
-- What has been checked before a party signs: whatever HasReply stores as our PSBT has passed the
-- checks of our side, for this very trade.
use democrit_marketplace.Prelude.{
  ◌≡◌, refl, Bool, true, false, Option, none, some, is_some, is_some-true, not-false, not-true,
  get_or, none-ne-some, some-inj, Bytes, [], codes, not, ◌&&◌, ◌∙◌, sym, ap, subst, if◌then◌else◌,
}
use democrit_marketplace.Outcome.{ok}
use democrit_marketplace.Exec.{pure}
use democrit_marketplace.Json.{field, bool_of}
use democrit_marketplace.Proto.{TradeState, OutPoint}
use democrit_marketplace.Services.{Services}
use democrit_marketplace.Checker.Ancestry.Buyer.{Vouched, check_for_buyer_trade-Vouched}
use democrit_marketplace.Checker.Outputs.Sound.{Protects, check_for_seller_outputs-Protects}
use democrit_marketplace.Checker.Signatures.{check_for_seller_signature}
use democrit_marketplace.Checker.Signatures.Buyer.{
  AllButOneSigned, check_for_buyer_signature-AllButOneSigned,
}
use democrit_marketplace.Trade.{
  Ctx, get_role, get_order_type, build_trade_checker, init_processing_message,
}
use democrit_marketplace.Trade.Messages.{is_ask}
use democrit_marketplace.Trade.Wallet.{sign_psbt, construct_transaction}
use democrit_marketplace.Trade.Rules.{
  Always, Always-map, Always-elim, Always-pure, Always-bind, Always-world, Always-check,
  Always-read, Always-update, Always-if,
}
use democrit_marketplace.Trade.Reply.{
  Progress, wait, proceed, answer, no_seller_data, set_our_psbt, is_maker, sign_as_seller,
  construct_and_sign, sign_as_buyer, sign, broadcast, share, after_signing, exchange_psbts,
}

module _ {W : Type 0} (sv : Services W) (account : Bytes) where
  -- We signed as the seller: the counterparty's transaction pays us and hands over the name, and
  -- our signature is on the name input only.
  pub record SellerSigned (pb : TradeState) (psbt : Bytes) : Type 0 where
    pub their : Bytes
    pub received : pb.their_psbt ≡ some their
    pub at_outputs : W
    pub at_sign : W
    pub at_signature : W
    pub complete : Bool
    pub protects :
        Protects sv.xaya sv.util sv.spec
          (build_trade_checker account pb)
          (get_or pb.seller_data no_seller_data)
          at_outputs
          their
    pub signed : sign_psbt sv.xaya their at_sign ≡ (ok (psbt, complete), at_signature)
    pub after : W
    pub own_only :
        check_for_seller_signature sv.xaya their psbt
          (get_or pb.seller_data no_seller_data)
          at_signature
        ≡ (ok true, after)

  -- We signed as the buyer: the seller can deliver, the transaction is the one that we constructed
  -- on the output that was vouched for, and all inputs but one have our signature.
  pub record BuyerSigned (pb : TradeState) (psbt : Bytes) : Type 0 where
    pub name_in : OutPoint
    pub vouched : Vouched sv.xaya sv.util sv.spec (build_trade_checker account pb) name_in
    pub unsigned_psbt : Bytes
    pub at_construct : W
    pub at_sign : W
    pub at_signature : W
    pub constructed :
        construct_transaction sv account pb (build_trade_checker account pb) name_in at_construct
        ≡ (ok unsigned_psbt, at_sign)
    pub signed : sign_psbt sv.xaya unsigned_psbt at_sign ≡ (ok (psbt, false), at_signature)
    pub all_but_one : AllButOneSigned sv.xaya unsigned_psbt psbt at_signature

  -- Our PSBT is there only with the evidence.
  abbrev pub SignedBy : (TradeState → Bytes → Type 0) → TradeState → TradeState → Type 0
  SignedBy E pb pb' = (p : Bytes) → pb'.our_psbt ≡ some p → E pb p

  pub unsigned :
      (E : TradeState → Bytes → Type 0) (pb : TradeState) → pb.our_psbt ≡ none → SignedBy E pb pb
  unsigned E pb e p h = absurd (none-ne-some (sym e ∙ h))

  set-SignedBy :
      (E : TradeState → Bytes → Type 0) (pb : TradeState) (psbt : Bytes)
      → E pb psbt
      → SignedBy E pb (set_our_psbt psbt pb)
  set-SignedBy E pb psbt ev p h = subst (E pb) (some-inj h) ev

  sign_as_seller-SignedBy :
      (c : Ctx W)
      → c.pb.our_psbt ≡ none
      → Always (SignedBy SellerSigned c.pb) (sign_as_seller sv account c.pb) c
  unfolding sign_as_seller
  sign_as_seller-SignedBy c lack =
      let stay = unsigned SellerSigned c.pb lack in
      Always-check _ _ _ stay λ have. Always-world _ _ _ stay λ outputs w₁ e₁.
        Always-if (not outputs) _ _ _ (λ _. Always-pure _ _ stay)
          λ good. Always-world _ _ _ stay λ signed w₂ e₂. Always-world _ _ _ stay λ valid w₃ e₃.
            Always-if (not valid) _ _ _ (λ _. Always-pure _ _ stay)
              λ own.
                Always-if (if is_maker (get_role account c.pb) then not signed.1 else signed.1) _ _
                  _ (λ _. Always-pure _ _ stay)
                  (λ _. Always-update _ _ _ (
                    Always-pure _ _ (
                      set-SignedBy SellerSigned c.pb signed.0 (record {
                        their = get_or c.pb.their_psbt [];
                        received = is_some-true c.pb.their_psbt [] have;
                        at_outputs = c.world;
                        at_sign = w₁;
                        at_signature = w₂;
                        complete = signed.1;
                        protects =
                            check_for_seller_outputs-Protects _ _ _ _ _ _ c.world
                              (rw (not-false outputs good) at e₁);
                        signed = e₂;
                        after = w₃;
                        own_only = rw (not-false valid own) at e₃;
                      }))))

  signed_as_buyer :
      (c : Ctx W) (w : W) (unsigned_psbt psbt : Bytes)
      → BuyerSigned c.pb psbt
      → Always
          (SignedBy BuyerSigned c.pb)
          (if is_maker (get_role account c.pb)
            then pure (answer (record (init_processing_message c.pb) { psbt = some unsigned_psbt }))
            else pure proceed)
          (record { pb = set_our_psbt psbt c.pb; world = w })
  signed_as_buyer c w unsigned_psbt psbt ev =
      let have = set-SignedBy BuyerSigned c.pb psbt ev in
      Always-if (is_maker (get_role account c.pb)) _ _ _ (λ _. Always-pure _ _ have)
        (λ _. Always-pure _ _ have)

  construct_and_sign-SignedBy :
      (c : Ctx W) (vouched : Option OutPoint)
      → c.pb.our_psbt ≡ none
      → ((out : OutPoint)
          → vouched ≡ some out
          → Vouched sv.xaya sv.util sv.spec (build_trade_checker account c.pb) out)
      → Always (SignedBy BuyerSigned c.pb) (construct_and_sign sv account c.pb vouched) c
  unfolding construct_and_sign
  construct_and_sign-SignedBy c none lack v = Always-pure _ _ (unsigned BuyerSigned c.pb lack)
  construct_and_sign-SignedBy c (some name_in) lack v =
      let stay = unsigned BuyerSigned c.pb lack in
      Always-world _ _ _ stay λ unsigned_psbt w₁ e₁. Always-world _ _ _ stay λ signed w₂ e₂.
        Always-world _ _ _ stay λ valid w₃ e₃.
          Always-if (not valid) _ _ _ (λ _. Always-world _ _ _ stay λ _ w₄ _. Always-pure _ _ stay)
            (λ good. Always-check _ _ _ stay λ partial. Always-update _ _ _ (
              signed_as_buyer c w₃ unsigned_psbt signed.0 (record {
                name_in = name_in;
                vouched = v name_in refl;
                unsigned_psbt = unsigned_psbt;
                at_construct = c.world;
                at_sign = w₁;
                at_signature = w₂;
                constructed = e₁;
                signed = e₂ ∙ ap (λ b. (ok (signed.0, b), w₂)) (not-true signed.1 partial);
                all_but_one =
                    check_for_buyer_signature-AllButOneSigned _ _ _ w₂
                      (rw (not-false valid good) at e₃);
              })))

  sign_as_buyer-SignedBy :
      (c : Ctx W)
      → c.pb.our_psbt ≡ none
      → Always (SignedBy BuyerSigned c.pb) (sign_as_buyer sv account c.pb) c
  unfolding sign_as_buyer
  sign_as_buyer-SignedBy c lack =
      Always-world _ _ _ (unsigned BuyerSigned c.pb lack) λ vouched w₁ e₁.
        construct_and_sign-SignedBy (record c { world = w₁ }) vouched lack
          λ out e. check_for_buyer_trade-Vouched _ _ _ _ c.world (rw e at e₁)

  -- What a trade's side signs, by the type of the order from our view.
  abbrev pub Evidence : TradeState → Bytes → Type 0
  Evidence pb psbt =
      (is_ask (get_order_type account pb) ≡ true → SellerSigned pb psbt)
      × (is_ask (get_order_type account pb) ≡ false → BuyerSigned pb psbt)

  sign-SignedBy :
      (c : Ctx W) → c.pb.our_psbt ≡ none → Always (SignedBy Evidence c.pb) (sign sv account c.pb) c
  unfolding sign
  sign-SignedBy c lack =
      Always-if (is_some c.pb.our_psbt) _ _ _ (λ _. Always-pure _ _ (unsigned Evidence c.pb lack))
        (λ _.
          Always-if (is_ask (get_order_type account c.pb)) _ _ _
            (λ sells.
              Always-map (λ pb ev p h. (λ _. ev p h, λ buys. cc)) (sign_as_seller-SignedBy c lack))
            (λ buys.
              Always-map (λ pb ev p h. (λ sells. cc, λ _. ev p h)) (sign_as_buyer-SignedBy c lack)))

  abbrev pub KeepsOurs : TradeState → TradeState → Type 0
  KeepsOurs pb pb' = pb'.our_psbt ≡ pb.our_psbt

  broadcast-KeepsOurs : (c : Ctx W) → Always (KeepsOurs c.pb) (broadcast sv account c.pb) c
  unfolding broadcast
  broadcast-KeepsOurs c = Always-world _ _ _ refl λ psbt w₁ _. Always-world _ _ _ refl λ fin w₂ _.
      Always-check _ _ _ refl λ _. Always-check _ _ _ refl λ _.
        Always-if (not (bool_of (field fin (codes "complete")))) _ _ _ (λ _. Always-pure _ _ refl)
          (λ _.
            Always-check _ _ _ refl
              λ _. Always-world _ _ _ refl λ txid w₃ _. Always-update _ _ _ (Always-pure _ _ refl))

  share-KeepsOurs : (c : Ctx W) → Always (KeepsOurs c.pb) (share sv account) c
  unfolding share
  share-KeepsOurs c = Always-read _ _ (
      Always-check _ _ _ refl λ _.
        Always-if (not (is_maker (get_role account c.pb))) _ _ _
          (λ _. Always-update _ _ _ (Always-pure _ _ refl))
          (λ _.
            Always-if (not (is_some c.pb.their_psbt)) _ _ _ (λ _. Always-pure _ _ refl)
              (λ _. broadcast-KeepsOurs c)))

  after_signing-KeepsOurs :
      (progress : Progress) (c : Ctx W)
      → Always (KeepsOurs c.pb) (after_signing sv account progress) c
  unfolding after_signing
  after_signing-KeepsOurs wait c = Always-pure _ _ refl
  after_signing-KeepsOurs (answer msg) c = Always-pure _ _ refl
  after_signing-KeepsOurs proceed c = share-KeepsOurs c

  pub exchange_psbts-SignedBy :
      (c : Ctx W)
      → c.pb.our_psbt ≡ none
      → Always (SignedBy Evidence c.pb) (exchange_psbts sv account) c
  unfolding exchange_psbts
  exchange_psbts-SignedBy c lack =
      let stay = unsigned Evidence c.pb lack in
      Always-read _ _ (
        Always-if (not (is_some c.pb.seller_data)) _ _ _ (λ _. Always-pure _ _ stay)
          λ _.
            Always-if (is_ask (get_order_type account c.pb) && not (is_some c.pb.their_psbt)) _ _ _
              (λ _. Always-pure _ _ stay)
              λ _. Always-bind _ _ _ (sign-SignedBy c lack) λ progress c' e.
                Always-map (λ pb keeps p h. Always-elim (sign-SignedBy c lack) e p (sym keeps ∙ h))
                  (after_signing-KeepsOurs progress c'))

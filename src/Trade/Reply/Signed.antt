-- ===== src/Trade/Reply/Signed.antt =====
-- No signature without the checks: the evidence of `Safety`, for the whole of HasReply.
use democrit_marketplace.Prelude.{
  ◌≡◌, refl, ap, sym, ◌∙◌, subst, true, false, none, some, is_some, not, Bytes,
}
use democrit_marketplace.Exec.Rules.{Returns, Returns-if, Returns-pure, Returns-elim}
use democrit_marketplace.Proto.{TradeState}
use democrit_marketplace.Services.{Services}
use democrit_marketplace.Trade.{Ctx, get_order_type, state_of}
use democrit_marketplace.Trade.Messages.{is_ask, is_initiated}
use democrit_marketplace.Trade.Wallet.{create_seller_data}
use democrit_marketplace.Trade.Rules.{
  Always, Always-map, Always-elim, Always-pure, Always-bind, Always-world, Always-check,
  Always-read, Always-update, Always-if, Returns-world, Returns-read, Returns-update,
}
use democrit_marketplace.Trade.Reply.{exchange_psbts, reply_to, has_reply}
use democrit_marketplace.Trade.Reply.Safety.{
  SellerSigned, BuyerSigned, SignedBy, Evidence, KeepsOurs, unsigned, exchange_psbts-SignedBy,
}

module _ {W : Type 0} (sv : Services W) (account : Bytes) where
  create_seller_data-KeepsOurs :
      (c : Ctx W) → Always (KeepsOurs sv account c.pb) (create_seller_data sv account) c
  unfolding create_seller_data
  create_seller_data-KeepsOurs c = Always-read _ _ (
      Always-if (not (is_ask (get_order_type account c.pb))) _ _ _ (λ _. Always-pure _ _ refl)
        λ _.
          Always-if (is_some c.pb.seller_data) _ _ _ (λ _. Always-pure _ _ refl)
            λ _. Always-world _ _ _ refl λ out w₁ _. Always-world _ _ _ refl λ locked w₂ _.
              Always-if (not locked) _ _ _ (λ _. Always-pure _ _ refl)
                λ _. Always-world _ _ _ refl λ a₁ w₃ _.
                  Always-world _ _ _ refl λ a₂ w₄ _. Always-update _ _ _ (Always-pure _ _ refl))

  -- Without new seller data the trade is as it was.
  create_seller_data-false :
      (c : Ctx W) → Returns (λ b c'. b ≡ false → c'.pb ≡ c.pb) (create_seller_data sv account) c
  unfolding create_seller_data
  create_seller_data-false c = Returns-read _ _ (
      Returns-if (not (is_ask (get_order_type account c.pb))) _ _ _
        (λ _. Returns-pure _ _ λ _. refl)
        λ _.
          Returns-if (is_some c.pb.seller_data) _ _ _ (λ _. Returns-pure _ _ λ _. refl)
            λ _. Returns-world _ _ _ λ out w₁ _. Returns-world _ _ _ λ locked w₂ _.
              Returns-if (not locked) _ _ _ (λ _. Returns-pure _ _ λ _. refl)
                λ _. Returns-world _ _ _ λ a₁ w₃ _.
                  Returns-world _ _ _ λ a₂ w₄ _. Returns-update _ _ _ (Returns-pure _ _ λ no_. cc))

  still_unsigned :
      (pb pb' : TradeState)
      → pb.our_psbt ≡ none
      → KeepsOurs sv account pb pb'
      → SignedBy sv account (Evidence sv account) pb pb'
  still_unsigned pb pb' lack keeps p h =
      unsigned sv account (Evidence sv account) pb lack p (sym keeps ∙ h)

  exchange-SignedBy :
      (c c' : Ctx W)
      → c.pb.our_psbt ≡ none
      → c'.pb ≡ c.pb
      → Always (SignedBy sv account (Evidence sv account) c.pb) (exchange_psbts sv account) c'
  exchange-SignedBy c c' lack e =
      subst
        (λ pb. Always (SignedBy sv account (Evidence sv account) pb) (exchange_psbts sv account) c')
        e (exchange_psbts-SignedBy sv account c' (ap (λ (pb : TradeState). pb.our_psbt) e ∙ lack))

  reply_to-SignedBy :
      (c : Ctx W)
      → c.pb.our_psbt ≡ none
      → Always (SignedBy sv account (Evidence sv account) c.pb) (reply_to sv account) c
  unfolding reply_to
  reply_to-SignedBy c lack =
      Always-bind _ _ _
        (Always-map (λ pb keeps. still_unsigned c.pb pb lack keeps)
          (create_seller_data-KeepsOurs c))
        λ created c' e.
          let keeps = Always-elim (create_seller_data-KeepsOurs c) e in
          Always-if created _ _ c'
            (λ _. Always-read _ _ (
              Always-check _ _ _ (still_unsigned c.pb c'.pb lack keeps)
                λ _. Always-pure _ _ (still_unsigned c.pb c'.pb lack keeps)))
            (λ old. exchange-SignedBy c c' lack (Returns-elim (create_seller_data-false c) e old))

  returns :
      (c : Ctx W)
      → c.pb.our_psbt ≡ none
      → Always (SignedBy sv account (Evidence sv account) c.pb) (has_reply sv account) c
  unfolding has_reply
  returns c lack =
      let stay = unsigned sv account (Evidence sv account) c.pb lack in
      Always-read _ _ (
        Always-if (not (is_initiated (state_of c.pb))) _ _ _ (λ _. Always-pure _ _ stay)
          λ _.
            Always-bind _ _ _ (reply_to-SignedBy c lack)
              λ progress c' e. Always-pure _ _ (Always-elim (reply_to-SignedBy c lack) e))

  -- However HasReply ends: if a PSBT of ours, which was missing, is there in a trade in which we sell, then the
  -- counterparty's transaction has passed CheckForSellerOutputs, the PSBT is what the wallet made of
  -- it, and it has passed CheckForSellerSignature.
  pub has_reply-SellerSigned :
      (c : Ctx W) (psbt : Bytes)
      → c.pb.our_psbt ≡ none
      → is_ask (get_order_type account c.pb) ≡ true
      → (has_reply sv account c).1.pb.our_psbt ≡ some psbt
      → SellerSigned sv account c.pb psbt
  has_reply-SellerSigned c psbt lack sells h = ((returns c lack).holds psbt h).0 sells

  -- However HasReply ends: if a PSBT of ours, which was missing, is there in a trade in which we buy, then the name
  -- output has passed CheckForBuyerTrade, the PSBT is what the wallet made of the transaction that
  -- ConstructTransaction built on that output, not complete, and exactly one input has no new
  -- signature.
  pub has_reply-BuyerSigned :
      (c : Ctx W) (psbt : Bytes)
      → c.pb.our_psbt ≡ none
      → is_ask (get_order_type account c.pb) ≡ false
      → (has_reply sv account c).1.pb.our_psbt ≡ some psbt
      → BuyerSigned sv account c.pb psbt
  has_reply-BuyerSigned c psbt lack buys h = ((returns c lack).holds psbt h).1 buys

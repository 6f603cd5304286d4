-- ===== src/Checker/Ancestry/Buyer.antt =====
-- What a buyer knows once TradeChecker::CheckForBuyerTrade has returned true.
use democrit_marketplace.Prelude.{
  ℕ, ◌≡◌, refl, Bool, true, false, Option, none, some, get_or, codes, [], if◌then◌else◌,
}
use democrit_marketplace.Outcome.{ok}
use democrit_marketplace.Exec.{pure}
use democrit_marketplace.Exec.Rules.{
  Returns, Returns-bind, Returns-if, Returns-check, Returns-check_some, Returns-elim, Returns-pure,
}
use democrit_marketplace.Json.{Json, field, is_null, is_object, is_string, string_of}
use democrit_marketplace.Proto.{OutPoint}
use democrit_marketplace.Services.{XayaRpc, AssetSpec, Util}
use democrit_marketplace.Checker.{TradeChecker}
use democrit_marketplace.Checker.Ancestry.{
  is_block_ancestor, get_name_out_point, check_sale, check_for_buyer_trade,
  max_block_ancestors_checked,
}

module _ {W : Type 0} (xaya : XayaRpc W) (util : Util) (spec : AssetSpec W) (c : TradeChecker) where
  -- The answers that the check got, in the worlds in which it asked.
  pub record Vouched (out : OutPoint) : Type 0 where
    pub at_asset : W
    pub at_buyer : W
    pub at_name : W
    pub at_utxo : W
    pub at_sell : W
    pub at_chain : W
    pub after : W
    pub utxo : Json
    pub best_block : ℕ
    pub gsp_block : ℕ
    pub is_asset : spec.is_asset c.asset at_asset ≡ (ok true, at_buyer)
    pub receives : spec.can_buy c.buyer c.asset c.units at_buyer ≡ (ok true, at_name)
    pub named : get_name_out_point xaya util c.seller at_name ≡ (ok out, at_utxo)
    pub looked_up : xaya.gettxout (get_or out.hash []) (get_or out.n 0) at_utxo ≡ (ok utxo, at_sell)
    pub unspent : is_object utxo ≡ true
    pub has_block : is_string (field utxo (codes "bestblock")) ≡ true
    pub best : util.uint256_from_hex (string_of (field utxo (codes "bestblock"))) ≡ some best_block
    pub sells : spec.can_sell c.seller c.asset c.units at_sell ≡ (ok (true, gsp_block), at_chain)
    pub recent :
        is_block_ancestor xaya util best_block gsp_block max_block_ancestors_checked at_chain
        ≡ (ok true, after)

  abbrev Answer : Option OutPoint → W → Type 0
  Answer none w = Unit
  Answer (some out) w = Vouched out

  accepted :
      (recent : Bool) (out : OutPoint) (w : W)
      → (recent ≡ true → Vouched out)
      → Returns Answer (pure (if recent then some out else none)) w
  accepted true out w v = Returns-pure _ _ (v refl)
  accepted false out w v = Returns-pure _ _ tt

  -- What has been found out about the asset and the buyer.
  record Willing (w : W) : Type 0 where
    at_asset : W
    at_buyer : W
    is_asset : spec.is_asset c.asset at_asset ≡ (ok true, at_buyer)
    receives : spec.can_buy c.buyer c.asset c.units at_buyer ≡ (ok true, w)

  -- From the name output on: the seller is asked, and the two blocks are compared.
  sold :
      (out : OutPoint) (w₂ w₃ : W)
      → Willing w₂
      → get_name_out_point xaya util c.seller w₂ ≡ (ok out, w₃)
      → Returns Answer (check_sale xaya util spec c out) w₃
  unfolding check_sale
  sold out w₂ w₃ willing e₃ = Returns-bind _ _ _ λ utxo w₄ e₄.
      Returns-if (is_null utxo) _ _ _ (λ _. Returns-pure _ _ tt)
        (λ found. Returns-check _ _ _ λ obj. Returns-check _ _ _ λ text.
          Returns-check_some _ _ _ λ best e₅. Returns-bind _ _ _ λ sale w₆ e₆.
            Returns-if sale.0 _ _ _
              (λ can. Returns-bind _ _ _ λ recent w₇ e₇. accepted recent out w₇ λ r. record {
                at_asset = willing.at_asset;
                at_buyer = willing.at_buyer;
                at_name = w₂;
                at_utxo = w₃;
                at_sell = w₄;
                at_chain = w₆;
                after = w₇;
                utxo = utxo;
                best_block = best;
                gsp_block = sale.1;
                is_asset = willing.is_asset;
                receives = willing.receives;
                named = e₃;
                looked_up = e₄;
                unspent = obj;
                has_block = text;
                best = e₅;
                sells = rw can at e₆;
                recent = rw r at e₇;
              })
              (λ _. Returns-pure _ _ tt))

  returns : (w : W) → Returns Answer (check_for_buyer_trade xaya util spec c) w
  unfolding check_for_buyer_trade
  returns w = Returns-bind _ _ _ λ valid w₁ e₁.
      Returns-if valid _ _ _
        (λ good. Returns-bind _ _ _ λ receives w₂ e₂.
          Returns-if receives _ _ _
            (λ can. Returns-bind _ _ _ λ out w₃ e₃.
              sold out w₂ w₃
                (record {
                  at_asset = w;
                  at_buyer = w₁;
                  is_asset = rw good at e₁;
                  receives = rw can at e₂;
                })
                e₃)
            (λ _. Returns-pure _ _ tt))
        (λ _. Returns-pure _ _ tt)

  -- Where CheckForBuyerTrade returns true with a name output, the asset is valid and the buyer can
  -- receive the units of it; the output was named by name_show, and gettxout found it unspent, with an
  -- object that names a block; and the seller could sell the units at a block of which IsBlockAncestor
  -- has then said, with a limit of three, that this one is an ancestor of it.
  pub check_for_buyer_trade-Vouched :
      (w : W) {w' : W} {out : OutPoint}
      → check_for_buyer_trade xaya util spec c w ≡ (ok (some out), w')
      → Vouched out
  check_for_buyer_trade-Vouched w h = Returns-elim (returns w) h

-- ===== src/Trade/Reply/Grows.antt =====
-- HasReply only extends a trade's data, however they end.
use democrit_marketplace.Prelude.{
  ◌≡◌, true, Option, none, some, is_some, is_some-false, not-false, Bytes, not, if◌then◌else◌,
  arith, ap, codes, ◌∙◌, ◌&&◌,
}
use democrit_marketplace.Exec.{Exec, pure}
use democrit_marketplace.Proto.{TradeState, OutPoint, pending, initiated, TradeStatus}
use democrit_marketplace.Services.{Services}
use democrit_marketplace.Json.{field, bool_of}
use democrit_marketplace.Trade.{Ctx, init_processing_message, state_of, get_role, get_order_type}
use democrit_marketplace.Trade.Messages.{is_ask, is_initiated}
use democrit_marketplace.Trade.Wallet.{create_seller_data}
use democrit_marketplace.Trade.Growth.{
  Extends, Extends-refl, Extends-trans, Extends-state, Leads, Quiet, Quiet-refl, Quiet-seller_data,
  Quiet-our_psbt,
}
use democrit_marketplace.Trade.Rules.{
  Always, Always-map, Always-elim, Always-pure, Always-bind, Always-world, Always-check,
  Always-read, Always-update, Always-if,
}
use democrit_marketplace.Trade.Reply.{
  Progress, wait, proceed, answer, set_our_psbt, set_pending, is_maker, sign_as_seller,
  construct_and_sign, sign_as_buyer, sign, broadcast, share, after_signing, exchange_psbts,
  reply_to, has_reply,
}

Leads-pending : (s : TradeStatus) → is_initiated s ≡ true → Leads s pending
Leads-pending initiated h = tt
Leads-pending _ h = ground arith

pending-Extends :
    (pb : TradeState) → is_initiated (state_of pb) ≡ true → Extends pb (set_pending pb)
pending-Extends pb h = Extends-state pb pending (Leads-pending (state_of pb) h)

module _ {W : Type 0} where
  abbrev Grows : {A : Type 0} → Exec (Ctx W) A → Ctx W → Type 0
  Grows m c = Always (Extends c.pb) m c

  abbrev Calm : {A : Type 0} → Exec (Ctx W) A → Ctx W → Type 0
  Calm m c = Always (Quiet c.pb) m c

module _ {W : Type 0} (sv : Services W) (account : Bytes) where
  create_seller_data-Calm : (c : Ctx W) → Calm (create_seller_data sv account) c
  unfolding create_seller_data
  create_seller_data-Calm c = Always-read _ _ (
      Always-if (not (is_ask (get_order_type account c.pb))) _ _ _
        (λ _. Always-pure _ _ (Quiet-refl c.pb))
        (λ _.
          Always-if (is_some c.pb.seller_data) _ _ _ (λ _. Always-pure _ _ (Quiet-refl c.pb))
            (λ lack. Always-world _ _ _ (Quiet-refl c.pb) λ out w₁ _.
              Always-world _ _ _ (Quiet-refl c.pb) λ locked w₂ _.
                Always-if (not locked) _ _ _ (λ _. Always-pure _ _ (Quiet-refl c.pb))
                  (λ _. Always-world _ _ _ (Quiet-refl c.pb) λ name_address w₃ _.
                    Always-world _ _ _ (Quiet-refl c.pb) λ chi_address w₄ _.
                      Always-update _ _ _
                        (Always-pure _ _ (Quiet-seller_data c.pb _ (is_some-false _ lack)))))))

  sign_as_seller-Calm : (c : Ctx W) → c.pb.our_psbt ≡ none → Calm (sign_as_seller sv account c.pb) c
  unfolding sign_as_seller
  sign_as_seller-Calm c lack = Always-check _ _ _ (Quiet-refl c.pb) λ _.
      Always-world _ _ _ (Quiet-refl c.pb) λ outputs w₁ _.
        Always-if (not outputs) _ _ _ (λ _. Always-pure _ _ (Quiet-refl c.pb))
          λ _. Always-world _ _ _ (Quiet-refl c.pb) λ signed w₂ _.
            Always-world _ _ _ (Quiet-refl c.pb) λ valid w₃ _.
              Always-if (not valid) _ _ _ (λ _. Always-pure _ _ (Quiet-refl c.pb))
                λ _.
                  Always-if (if is_maker (get_role account c.pb) then not signed.1 else signed.1) _
                    _ _ (λ _. Always-pure _ _ (Quiet-refl c.pb))
                    (λ _. Always-update _ _ _ (Always-pure _ _ (Quiet-our_psbt c.pb signed.0 lack)))

  signed-Calm :
      (c : Ctx W) (pb : TradeState) (w : W) (unsigned_psbt signed_psbt : Bytes)
      → pb.our_psbt ≡ none
      → Always
          (Quiet pb)
          (if is_maker (get_role account pb)
            then pure (answer (record (init_processing_message pb) { psbt = some unsigned_psbt }))
            else pure proceed)
          (record { pb = set_our_psbt signed_psbt pb; world = w })
  signed-Calm c pb w unsigned_psbt signed_psbt lack =
      Always-if (is_maker (get_role account pb)) _ _ _
        (λ _. Always-pure _ _ (Quiet-our_psbt pb signed_psbt lack))
        (λ _. Always-pure _ _ (Quiet-our_psbt pb signed_psbt lack))

  vouched-Calm :
      (c : Ctx W) (vouched : Option OutPoint)
      → c.pb.our_psbt ≡ none
      → Calm (construct_and_sign sv account c.pb vouched) c
  unfolding construct_and_sign
  vouched-Calm c none lack = Always-pure _ _ (Quiet-refl c.pb)
  vouched-Calm c (some name_in) lack = Always-world _ _ _ (Quiet-refl c.pb) λ unsigned_psbt w₁ _.
      Always-world _ _ _ (Quiet-refl c.pb) λ signed w₂ _.
        Always-world _ _ _ (Quiet-refl c.pb) λ valid w₃ _.
          Always-if (not valid) _ _ _
            (λ _. Always-world _ _ _ (Quiet-refl c.pb) λ _ w₄ _. Always-pure _ _ (Quiet-refl c.pb))
            (λ _.
              Always-check _ _ _ (Quiet-refl c.pb)
                λ _. Always-update _ _ _ (signed-Calm c c.pb w₃ unsigned_psbt signed.0 lack))

  sign_as_buyer-Calm : (c : Ctx W) → c.pb.our_psbt ≡ none → Calm (sign_as_buyer sv account c.pb) c
  unfolding sign_as_buyer
  sign_as_buyer-Calm c lack =
      Always-world _ _ _ (Quiet-refl c.pb)
        λ vouched w₁ _. vouched-Calm (record c { world = w₁ }) vouched lack

  sign-Calm : (c : Ctx W) → Calm (sign sv account c.pb) c
  unfolding sign
  sign-Calm c =
      Always-if (is_some c.pb.our_psbt) _ _ _ (λ _. Always-pure _ _ (Quiet-refl c.pb))
        λ lack.
          Always-if (is_ask (get_order_type account c.pb)) _ _ _
            (λ _. sign_as_seller-Calm c (is_some-false _ lack))
            (λ _. sign_as_buyer-Calm c (is_some-false _ lack))

  broadcast-Grows :
      (c : Ctx W) → is_initiated (state_of c.pb) ≡ true → Grows (broadcast sv account c.pb) c
  unfolding broadcast
  broadcast-Grows c live = Always-world _ _ _ (Extends-refl c.pb) λ psbt w₁ _.
      Always-world _ _ _ (Extends-refl c.pb) λ fin w₂ _. Always-check _ _ _ (Extends-refl c.pb) λ _.
        Always-check _ _ _ (Extends-refl c.pb) λ _.
          Always-if (not (bool_of (field fin (codes "complete")))) _ _ _
            (λ _. Always-pure _ _ (Extends-refl c.pb))
            (λ _. Always-check _ _ _ (Extends-refl c.pb) λ _.
              Always-world _ _ _ (Extends-refl c.pb)
                λ txid w₃ _. Always-update _ _ _ (Always-pure _ _ (pending-Extends c.pb live)))

  share-Grows : (c : Ctx W) → is_initiated (state_of c.pb) ≡ true → Grows (share sv account) c
  unfolding share
  share-Grows c live = Always-read _ _ (
      Always-check _ _ _ (Extends-refl c.pb) λ _.
        Always-if (not (is_maker (get_role account c.pb))) _ _ _
          (λ _. Always-update _ _ _ (Always-pure _ _ (pending-Extends c.pb live)))
          (λ _.
            Always-if (not (is_some c.pb.their_psbt)) _ _ _
              (λ _. Always-pure _ _ (Extends-refl c.pb)) (λ _. broadcast-Grows c live)))

  after_signing-Grows :
      (progress : Progress) (c : Ctx W)
      → is_initiated (state_of c.pb) ≡ true
      → Grows (after_signing sv account progress) c
  unfolding after_signing
  after_signing-Grows wait c live = Always-pure _ _ (Extends-refl c.pb)
  after_signing-Grows (answer msg) c live = Always-pure _ _ (Extends-refl c.pb)
  after_signing-Grows proceed c live = share-Grows c live

  exchange_psbts-Grows :
      (c : Ctx W) → is_initiated (state_of c.pb) ≡ true → Grows (exchange_psbts sv account) c
  unfolding exchange_psbts
  exchange_psbts-Grows c live = Always-read _ _ (
      Always-if (not (is_some c.pb.seller_data)) _ _ _ (λ _. Always-pure _ _ (Extends-refl c.pb))
        λ _.
          Always-if (is_ask (get_order_type account c.pb) && not (is_some c.pb.their_psbt)) _ _ _
            (λ _. Always-pure _ _ (Extends-refl c.pb))
            λ _. Always-bind _ _ _ (Always-map (λ pb q. q.extends) (sign-Calm c)) λ progress c' e.
              let quiet = Always-elim (sign-Calm c) e in
              Always-map (λ pb ext. Extends-trans quiet.extends ext)
                (after_signing-Grows progress c' (ap is_initiated quiet.state ∙ live)))

  reply_to-Grows : (c : Ctx W) → is_initiated (state_of c.pb) ≡ true → Grows (reply_to sv account) c
  unfolding reply_to
  reply_to-Grows c live =
      Always-bind _ _ _ (Always-map (λ pb q. q.extends) (create_seller_data-Calm c)) λ created c' e.
        let quiet = Always-elim (create_seller_data-Calm c) e in
        Always-map (λ pb ext. Extends-trans quiet.extends ext)
          (Always-if created _ _ c'
            (λ _.
              Always-read _ _
                (Always-check _ _ _ (Extends-refl c'.pb) λ _. Always-pure _ _ (Extends-refl c'.pb)))
            (λ _. exchange_psbts-Grows c' (ap is_initiated quiet.state ∙ live)))

  -- However HasReply ends, the trade's data have only been extended: the order, the units, the
  -- counterparty and the start time stay, fields that were set keep their values, and the state
  -- has moved forward.
  pub has_reply-Extends : (c : Ctx W) → Extends c.pb (has_reply sv account c).1.pb
  has_reply-Extends c = (grows c).holds
    where
      grows : (c : Ctx W) → Grows (has_reply sv account) c
      grows c =
          unfold has_reply in
          Always-read _ _ (
            Always-if (not (is_initiated (state_of c.pb))) _ _ _
              (λ _. Always-pure _ _ (Extends-refl c.pb))
              λ live. Always-bind _ _ _ (reply_to-Grows c (not-false _ live)) λ progress c' e.
                Always-pure _ _ (Always-elim (reply_to-Grows c (not-false _ live)) e))

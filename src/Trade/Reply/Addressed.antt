-- ===== src/Trade/Reply/Addressed.antt =====
-- To whom HasReply wants its reply sent.
use democrit_marketplace.Prelude.{
  ◌≡◌, refl, subst, ap, Option, none, some, is_some, not, Bytes, codes, ◌&&◌, if◌then◌else◌,
}
use democrit_marketplace.Exec.{Exec}
use democrit_marketplace.Exec.Rules.{
  Returns, Returns-elim, Returns-bind, Returns-check, Returns-if, Returns-pure,
}
use democrit_marketplace.Json.{field, bool_of}
use democrit_marketplace.Proto.{OutPoint, ProcessingMessage}
use democrit_marketplace.Services.{Services}
use democrit_marketplace.Trade.{Ctx, init_processing_message, state_of, get_role, get_order_type}
use democrit_marketplace.Trade.Messages.{is_ask, is_initiated}
use democrit_marketplace.Trade.Wallet.{create_seller_data}
use democrit_marketplace.Trade.Rules.{Returns-world, Returns-read, Returns-update}
use democrit_marketplace.Trade.Reply.{
  Progress, wait, proceed, answer, is_maker, sign_as_seller, construct_and_sign, sign_as_buyer,
  sign, broadcast, share, after_signing, exchange_psbts, reply_to, reply_of, has_reply,
}

-- A reply, where there is one, is for this account.
abbrev pub IsReplyTo : Bytes → Option ProcessingMessage → Type 0
IsReplyTo a none = Unit
IsReplyTo a (some msg) = msg.counterparty ≡ some a

module _ {W : Type 0} (sv : Services W) (account : Bytes) where
  abbrev For : Bytes → Progress → Ctx W → Type 0
  For a p c = IsReplyTo a (reply_of sv account p) × (c.pb.counterparty ≡ a)

  abbrev Asks : Exec (Ctx W) Progress → Ctx W → Type 0
  Asks m c = Returns (For c.pb.counterparty) m c

  sign_as_seller-Asks : (c : Ctx W) → Asks (sign_as_seller sv account c.pb) c
  unfolding sign_as_seller
  sign_as_seller-Asks c = Returns-check _ _ _ λ given. Returns-world _ _ _ λ outputs w₁ e₁.
      Returns-if (not outputs) _ _ _ (λ bad. Returns-pure _ _ (tt, refl))
        λ good. Returns-world _ _ _ λ signed w₂ e₂. Returns-world _ _ _ λ valid w₃ e₃.
          Returns-if (not valid) _ _ _ (λ bad. Returns-pure _ _ (tt, refl))
            λ fine.
              Returns-if (if is_maker (get_role account c.pb) then not signed.1 else signed.1) _ _ _
                (λ odd. Returns-pure _ _ (tt, refl))
                (λ even. Returns-update _ _ _ (Returns-pure _ _ (tt, refl)))

  construct_and_sign-Asks :
      (c : Ctx W) (vouched : Option OutPoint) → Asks (construct_and_sign sv account c.pb vouched) c
  unfolding construct_and_sign init_processing_message
  construct_and_sign-Asks c none = Returns-pure _ _ (tt, refl)
  construct_and_sign-Asks c (some name_in) = Returns-world _ _ _ λ unsigned_psbt w₁ e₁.
      Returns-world _ _ _ λ signed w₂ e₂. Returns-world _ _ _ λ valid w₃ e₃.
        Returns-if (not valid) _ _ _
          (λ bad. Returns-world _ _ _ λ u w₄ e₄. Returns-pure _ _ (tt, refl))
          (λ good. Returns-check _ _ _ λ incomplete. Returns-update _ _ _ (
            Returns-if (is_maker (get_role account c.pb)) _ _ _
              (λ made. Returns-pure _ _ (refl, refl)) (λ taken. Returns-pure _ _ (tt, refl))))

  sign_as_buyer-Asks : (c : Ctx W) → Asks (sign_as_buyer sv account c.pb) c
  unfolding sign_as_buyer
  sign_as_buyer-Asks c =
      Returns-world _ _ _ λ vouched w e. construct_and_sign-Asks (record c { world = w }) vouched

  sign-Asks : (c : Ctx W) → Asks (sign sv account c.pb) c
  unfolding sign
  sign-Asks c =
      Returns-if (is_some c.pb.our_psbt) _ _ _ (λ there. Returns-pure _ _ (tt, refl))
        λ lack.
          Returns-if (is_ask (get_order_type account c.pb)) _ _ _ (λ sells. sign_as_seller-Asks c)
            (λ buys. sign_as_buyer-Asks c)

  broadcast-Asks : (c : Ctx W) → Asks (broadcast sv account c.pb) c
  unfolding broadcast
  broadcast-Asks c = Returns-world _ _ _ λ psbt w₁ e₁. Returns-world _ _ _ λ fin w₂ e₂.
      Returns-check _ _ _ λ is_obj. Returns-check _ _ _ λ is_flag.
        Returns-if (not (bool_of (field fin (codes "complete")))) _ _ _
          (λ part. Returns-pure _ _ (tt, refl))
          λ whole. Returns-check _ _ _ λ is_hex.
            Returns-world _ _ _ λ txid w₃ e₃. Returns-update _ _ _ (Returns-pure _ _ (tt, refl))

  share-Asks : (c : Ctx W) → Asks (share sv account) c
  unfolding share init_processing_message
  share-Asks c = Returns-read _ _ (
      Returns-check _ _ _ λ given.
        Returns-if (not (is_maker (get_role account c.pb))) _ _ _
          (λ taken. Returns-update _ _ _ (Returns-pure _ _ (refl, refl)))
          (λ made.
            Returns-if (not (is_some c.pb.their_psbt)) _ _ _ (λ lack. Returns-pure _ _ (tt, refl))
              (λ both. broadcast-Asks c)))

  after_signing-Asks :
      (a : Bytes) (p : Progress) (c : Ctx W)
      → For a p c
      → Returns (For a) (after_signing sv account p) c
  unfolding after_signing
  after_signing-Asks a wait c h = Returns-pure _ _ h
  after_signing-Asks a (answer msg) c h = Returns-pure _ _ h
  after_signing-Asks a proceed c h =
      subst (λ (b : Bytes). Returns (For b) (share sv account) c) h.1 (share-Asks c)

  exchange_psbts-Asks : (c : Ctx W) → Asks (exchange_psbts sv account) c
  unfolding exchange_psbts
  exchange_psbts-Asks c = Returns-read _ _ (
      Returns-if (not (is_some c.pb.seller_data)) _ _ _ (λ lack. Returns-pure _ _ (tt, refl))
        λ given.
          Returns-if (is_ask (get_order_type account c.pb) && not (is_some c.pb.their_psbt)) _ _ _
            (λ early. Returns-pure _ _ (tt, refl))
            (λ ready. Returns-bind _ _ _ λ p c' ran.
              after_signing-Asks c.pb.counterparty p c' (Returns-elim (sign-Asks c) ran)))

  create_seller_data-counterparty :
      (c : Ctx W)
      → Returns (λ b c'. c'.pb.counterparty ≡ c.pb.counterparty) (create_seller_data sv account) c
  unfolding create_seller_data
  create_seller_data-counterparty c = Returns-read _ _ (
      Returns-if (not (is_ask (get_order_type account c.pb))) _ _ _ (λ buys. Returns-pure _ _ refl)
        λ sells.
          Returns-if (is_some c.pb.seller_data) _ _ _ (λ there. Returns-pure _ _ refl)
            λ lack. Returns-world _ _ _ λ out w₁ e₁. Returns-world _ _ _ λ locked w₂ e₂.
              Returns-if (not locked) _ _ _ (λ free. Returns-pure _ _ refl)
                λ held. Returns-world _ _ _ λ name_address w₃ e₃.
                  Returns-world _ _ _
                    λ chi_address w₄ e₄. Returns-update _ _ _ (Returns-pure _ _ refl))

  reply_to-Asks : (c : Ctx W) → Asks (reply_to sv account) c
  unfolding reply_to init_processing_message
  reply_to-Asks c = Returns-bind _ _ _ λ created c' ran.
      let same = Returns-elim (create_seller_data-counterparty c) ran in
      Returns-if created _ _ _
        (λ new.
          Returns-read _ _ (Returns-check _ _ _ λ given. Returns-pure _ _ (ap some same, same)))
        (λ old.
          subst (λ (b : Bytes). Returns (For b) (exchange_psbts sv account) c') same
            (exchange_psbts-Asks c'))

  pub has_reply-IsReplyTo :
      (c : Ctx W) → Returns (λ r c'. IsReplyTo c.pb.counterparty r) (has_reply sv account) c
  unfolding has_reply
  has_reply-IsReplyTo c = Returns-read _ _ (
      Returns-if (not (is_initiated (state_of c.pb))) _ _ _ (λ over. Returns-pure _ _ tt)
        λ live.
          Returns-bind _ _ _ λ p c' ran. Returns-pure _ _ (Returns-elim (reply_to-Asks c) ran).0)

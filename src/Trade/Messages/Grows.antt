-- ===== src/Trade/Messages/Grows.antt =====
-- HandleMessage only extends a trade's data.
use democrit_marketplace.Prelude.{
  ◌≡◌, refl, Bool, true, false, Bool-cases, inl, inr, Option, none, some, is_some, is_some-false,
  get_or, Bytes, [], not, ◌||◌, bytes_eq, if◌then◌else◌,
}
use democrit_marketplace.Proto.{TradeState, ProcessingMessage, SellerData}
use democrit_marketplace.Trade.{state_of, get_order_type}
use democrit_marketplace.Trade.Messages.{
  is_ask, is_initiated, merge_seller_data, merge_psbt, merge_some, handle_message,
}
use democrit_marketplace.Trade.Growth.{
  Extends, Extends-refl, Extends-trans, Extends-seller_data, Extends-their_psbt,
}

merge_psbt-Extends : (psbt : Bytes) (pb : TradeState) → Extends pb (merge_psbt psbt pb)
unfolding merge_psbt
merge_psbt-Extends psbt pb = elim (Bool-cases (is_some pb.their_psbt)) [
  | inl have ↦ rw have (Extends-refl pb)
  | inr lack ↦ rw lack (Extends-their_psbt pb psbt (is_some-false _ lack))
]

if-Extends :
    (b : Bool) (pb x y : TradeState)
    → (b ≡ true → Extends pb x)
    → (b ≡ false → Extends pb y)
    → Extends pb (if b then x else y)
if-Extends true pb x y h k = h refl
if-Extends false pb x y h k = k refl

merge_seller_data-Extends :
    (account : Bytes) (sd : SellerData) (pb : TradeState)
    → Extends pb (merge_seller_data account sd pb)
unfolding merge_seller_data
merge_seller_data-Extends account sd pb =
    if-Extends (is_ask (get_order_type account pb)) pb _ _ (λ _. Extends-refl pb)
      λ _.
        if-Extends (is_some pb.seller_data) pb _ _ (λ _. Extends-refl pb)
          λ lack.
            if-Extends
              (not (is_some sd.name_address)
                || not (is_some sd.chi_address)
                || is_some sd.name_output)
              pb _ _ (λ _. Extends-refl pb)
              λ _.
                if-Extends (bytes_eq (get_or sd.name_address []) (get_or sd.chi_address [])) pb _ _
                  (λ _. Extends-refl pb) λ _. Extends-seller_data pb sd (is_some-false _ lack)

merge_some-Extends :
    {A : Type 0} (o : Option A) (merge : A → TradeState → TradeState) (pb : TradeState)
    → ((a : A) → Extends pb (merge a pb))
    → Extends pb (merge_some o merge pb)
merge_some-Extends none merge pb h = Extends-refl pb
merge_some-Extends (some a) merge pb h = h a

pub handle_message-Extends :
    (account : Bytes) (msg : ProcessingMessage) (pb : TradeState)
    → Extends pb (handle_message account msg pb)
unfolding handle_message
handle_message-Extends account msg pb =
    let merged = merge_some msg.seller_data (merge_seller_data account) pb in
    if-Extends (is_initiated (state_of pb)) pb _ _
      (λ _.
        Extends-trans
          (merge_some-Extends msg.seller_data (merge_seller_data account) pb
            (λ sd. merge_seller_data-Extends account sd pb))
          (merge_some-Extends msg.psbt merge_psbt merged (λ psbt. merge_psbt-Extends psbt merged)))
      (λ _. Extends-refl pb)

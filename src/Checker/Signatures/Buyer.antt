-- ===== src/Checker/Signatures/Buyer.antt =====
-- The buyer signs all inputs but one, which is the seller's name.
use democrit_marketplace.Prelude.{
  ◌+◌, ◌≤◌, ◌≡◌, ◌≢◌, refl, true, Bool-cases, inl, inr, List, [], ◌∷◌, Bytes, codes, length, arith,
  ==_iff,
}
use democrit_marketplace.Outcome.{ok}
use democrit_marketplace.Exec.Rules.{
  Returns, Returns-bind, Returns-check, Returns-elim, Returns-lift, Returns-pure,
}
use democrit_marketplace.Json.{Json, get_member, elements_of}
use democrit_marketplace.Json.Equality.{json_eq, json_eq→eq, json_eq→ne}
use democrit_marketplace.Services.{XayaRpc}
use democrit_marketplace.Checker.Signatures.{
  count_modified, decode_pair, input_pair, check_for_buyer_signature,
}

-- Two lists of one length that differ at each position.
pub data AllDiffer : List Json → List Json → Type 0 where
  nil : AllDiffer [] []
  differ :
      {a b : Json} {as_ bs : List Json} → a ≢ b → AllDiffer as_ bs → AllDiffer (a ∷ as_) (b ∷ bs)

-- Two lists of one length that are the same at exactly one position.
pub data OneSame : List Json → List Json → Type 0 where
  here : {a b : Json} {as_ bs : List Json} → a ≡ b → AllDiffer as_ bs → OneSame (a ∷ as_) (b ∷ bs)
  there : {a b : Json} {as_ bs : List Json} → a ≢ b → OneSame as_ bs → OneSame (a ∷ as_) (b ∷ bs)

count_modified-le : (as_ bs : List Json) → count_modified as_ bs ≤ length as_
unfolding count_modified
count_modified-le [] bs = omega arith
count_modified-le (a ∷ as_) [] = omega arith
count_modified-le (a ∷ as_) (b ∷ bs) = ground (arith, count_modified-le as_ bs)

count_modified-AllDiffer :
    (as_ bs : List Json)
    → length as_ ≡ length bs
    → count_modified as_ bs ≡ length as_
    → AllDiffer as_ bs
unfolding count_modified
count_modified-AllDiffer [] [] l h = nil
count_modified-AllDiffer [] (b ∷ bs) l h = absurd (omega arith)
count_modified-AllDiffer (a ∷ as_) [] l h = absurd (omega arith)
count_modified-AllDiffer (a ∷ as_) (b ∷ bs) l h = elim (Bool-cases (json_eq a b)) [
  | inl same ↦ absurd (ground (arith, count_modified-le as_ bs))
  | inr other ↦
      differ (json_eq→ne a b other) (count_modified-AllDiffer as_ bs (omega arith) (ground arith))
]

count_modified-OneSame :
    (as_ bs : List Json)
    → length as_ ≡ length bs
    → count_modified as_ bs + 1 ≡ length as_
    → OneSame as_ bs
unfolding count_modified
count_modified-OneSame [] bs l h = absurd (omega arith)
count_modified-OneSame (a ∷ as_) [] l h = absurd (omega arith)
count_modified-OneSame (a ∷ as_) (b ∷ bs) l h = elim (Bool-cases (json_eq a b)) [
  | inl same ↦
      here (json_eq→eq a b same) (count_modified-AllDiffer as_ bs (omega arith) (ground arith))
  | inr other ↦
      there (json_eq→ne a b other) (count_modified-OneSame as_ bs (omega arith) (ground arith))
]

-- Two decoded transactions with one unsigned part, and their lists of inputs.
pub record Pair (before after : Json) : Type 0 where
  pub tx : Json
  pub tx_before : get_member before (codes "tx") ≡ ok tx
  pub tx_after : get_member after (codes "tx") ≡ ok tx

pub record Inputs (before after : Json) (ins outs : List Json) : Type 0 where
  pub arr_before : Json
  pub arr_after : Json
  pub at_before : get_member before (codes "inputs") ≡ ok arr_before
  pub at_after : get_member after (codes "inputs") ≡ ok arr_after
  pub ins_eq : ins ≡ elements_of arr_before
  pub outs_eq : outs ≡ elements_of arr_after
  pub one_size : length ins ≡ length outs

module _ {W : Type 0} (xaya : XayaRpc W) where
  -- The worlds in which the two transactions were decoded.
  pub record Decoded (before_str after_str : Bytes) (w : W) (before after : Json) : Type 0 where
    pub between : W
    pub later : W
    pub first : xaya.decodepsbt before_str w ≡ (ok before, between)
    pub second : xaya.decodepsbt after_str between ≡ (ok after, later)

  pub decode_pair-Pair :
      (before_str after_str : Bytes) (w : W)
      → Returns
          (λ txs _. Decoded before_str after_str w txs.0 txs.1 × Pair txs.0 txs.1)
          (decode_pair xaya before_str after_str)
          w
  unfolding decode_pair
  decode_pair-Pair before_str after_str w = Returns-bind _ _ _ λ before w₁ e₁.
      Returns-bind _ _ _ λ after w₂ e₂. Returns-lift _ _ _ λ t₁ h₁. Returns-lift _ _ _ λ t₂ h₂.
        Returns-check _ _ _ λ same. Returns-pure _ _ (
          record { between = w₁; later = w₂; first = e₁; second = e₂ },
          record { tx = t₁; tx_before = h₁; tx_after = rw (json_eq→eq t₁ t₂ same) h₂ },
        )

module _ {W : Type 0} where
  pub input_pair-Inputs :
      (before after : Json) (w : W)
      → Returns (λ ins _. Inputs before after ins.0 ins.1) (input_pair (before, after)) w
  unfolding input_pair
  input_pair-Inputs before after w = Returns-lift _ _ _ λ i₁ h₁. Returns-check _ _ _ λ _.
      Returns-lift _ _ _ λ i₂ h₂. Returns-check _ _ _ λ _. Returns-check _ _ _ λ size.
        Returns-pure _ _ (record {
          arr_before = i₁;
          arr_after = i₂;
          at_before = h₁;
          at_after = h₂;
          ins_eq = refl;
          outs_eq = refl;
          one_size = (==_iff _ _).0 size;
        })

module _ {W : Type 0} (xaya : XayaRpc W) where
  pub record AllButOneSigned (before_str after_str : Bytes) (w : W) : Type 0 where
    pub before : Json
    pub after : Json
    pub ins : List Json
    pub outs : List Json
    pub decoded : Decoded xaya before_str after_str w before after
    pub pair : Pair before after
    pub inputs : Inputs before after ins outs
    pub one_same : OneSame ins outs

  -- Where CheckForBuyerSignature returns true, the two transactions have the same unsigned part and
  -- equally many inputs, of which exactly one is left as it was and all others have changed.
  pub check_for_buyer_signature-AllButOneSigned :
      (before_str after_str : Bytes) (w : W) {w' : W}
      → check_for_buyer_signature xaya before_str after_str w ≡ (ok true, w')
      → AllButOneSigned before_str after_str w
  unfolding check_for_buyer_signature
  check_for_buyer_signature-AllButOneSigned before_str after_str w h =
      Returns-elim {Q = λ b _. b ≡ true → AllButOneSigned before_str after_str w}
        (Returns-bind _ _ _ λ txs w₁ e₁. Returns-bind _ _ _ λ ins w₂ e₂. Returns-pure _ _ λ counted.
          let found = Returns-elim (decode_pair-Pair xaya before_str after_str w) e₁ in
          let inputs = Returns-elim (input_pair-Inputs txs.0 txs.1 w₁) e₂ in
          record {
            before = txs.0;
            after = txs.1;
            ins = ins.0;
            outs = ins.1;
            decoded = found.0;
            pair = found.1;
            inputs = inputs;
            one_same = count_modified-OneSame ins.0 ins.1 inputs.one_size ((==_iff _ _).0 counted);
          })
        h refl

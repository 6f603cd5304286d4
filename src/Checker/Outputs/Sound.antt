-- ===== src/Checker/Outputs/Sound.antt =====
-- What a seller knows once TradeChecker::CheckForSellerOutputs has returned true.
use democrit_marketplace.Prelude.{
  ◌≡◌, refl, Bool, true, false, Option, none, some, get_or, List, [], ◌∷◌, Bytes, codes, ◌⊎◌, inl,
  inr, bytes_eq, bytes_eq→eq, &&-true, arith, if◌then◌else◌, ap, ◌∙◌, Bool-cases,
}
use democrit_marketplace.Prelude.Int.{ℤ, pos, ltb_ℤ, ◌≤ℤ◌}
use democrit_marketplace.Outcome.{ok}
use democrit_marketplace.Exec.{pure}
use democrit_marketplace.Exec.Rules.{
  Returns-map, Returns, Returns-bind, Returns-if, Returns-check, Returns-check_some, Returns-elim,
  Returns-lift, Returns-pure,
}
use democrit_marketplace.Json.{Json, field, is_object, elements_of}
use democrit_marketplace.Json.Equality.{eqb_ℤ→eq}
use democrit_marketplace.Json.Text.{as_string}
use democrit_marketplace.Proto.{SellerData}
use democrit_marketplace.Services.{XayaRpc, AssetSpec, Util}
use democrit_marketplace.Checker.{TradeChecker, get_xaya_name, get_name_update_value, get_total_sat}
use democrit_marketplace.Checker.Outputs.{
  has_address, Found, nothing, name_output, chi_output, Flags, mark, matches_address,
  examine_name_op, examine_output, scan_outputs, check_outputs, check_for_seller_outputs,
}

abbrev pub script_of : Json → Json
script_of out = field out (codes "scriptPubKey")

abbrev pub name_op_of : Json → Json
name_op_of out = field (script_of out) (codes "nameOp")

abbrev pub vout_of : Json → List Json
vout_of decoded = elements_of (field (field decoded (codes "tx")) (codes "vout"))

-- One of the values of a list.
pub data Among {A : Type 0} (P : A → Type 0) : List A → Type 0 where
  first : {x : A} {xs : List A} → P x → Among P (x ∷ xs)
  later : {x : A} {xs : List A} → Among P xs → Among P (x ∷ xs)

either_way : {A B C : Type 0} → A ⊎ B → (A → C) → (B → C) → C
either_way (inl a) f g = f a
either_way (inr b) f g = g b

module _ {W : Type 0} (spec : AssetSpec W) (util : Util) (c : TradeChecker) (sd : SellerData) where
  -- The output updates the seller's name, with the move of the trade as its value, and sends the
  -- name to the seller's name address.
  pub record IsNameUpdate (out : Json) : Type 0 where
    pub op : as_string (field (name_op_of out) (codes "op")) ≡ ok (codes "name_update")
    pub name : as_string (field (name_op_of out) (codes "name")) ≡ ok (get_xaya_name c.seller)
    pub value :
        as_string (field (name_op_of out) (codes "value")) ≡ get_name_update_value spec util c
    pub address : has_address (script_of out) (get_or sd.name_address []) ≡ true

  -- The output is no name operation, and pays at least the total to the seller's CHI address.
  pub record IsPayment (total : ℤ) (out : Json) : Type 0 where
    pub plain : is_object (name_op_of out) ≡ false
    pub address : has_address (script_of out) (get_or sd.chi_address []) ≡ true
    pub amount : ℤ
    pub value : util.chi_amount_from_json (field out (codes "value")) ≡ some amount
    pub enough : total ≤ℤ amount

  abbrev Shows : ℤ → Json → Found → Type 0
  Shows total out nothing = Unit
  Shows total out name_output = IsNameUpdate out
  Shows total out chi_output = IsPayment total out

  module _ (total : ℤ) where
    address_lem :
        (script : Json) (addr : Bytes) (w : W)
        → Returns
            (λ b _. has_address script addr ≡ b)
            (matches_address spec util c sd total script addr)
            w
    unfolding matches_address
    address_lem script addr w = Returns-check _ _ _ λ _. Returns-pure _ _ refl

    flagged :
        (b : Bool) (f : Found) (out : Json) (w : W)
        → (b ≡ true → Shows total out f)
        → Returns (λ found _. Shows total out found) (pure (if b then f else nothing)) w
    flagged true f out w h = Returns-pure _ _ (h refl)
    flagged false f out w h = Returns-pure _ _ tt

    name_op-Shows :
        (out : Json) (w : W)
        → Returns
            (λ found _. Shows total out found)
            (examine_name_op spec util c sd total (script_of out) (name_op_of out))
            w
    unfolding examine_name_op
    name_op-Shows out w = Returns-lift _ _ _ λ _ _. Returns-check _ _ _ λ _.
        Returns-lift _ _ _ λ _ _. Returns-check _ _ _ λ _. Returns-check _ _ _ λ _.
          Returns-lift _ _ _ λ op e₁.
            Returns-if (bytes_eq op (codes "name_update")) _ _ _
              (λ h₁. Returns-lift _ _ _ λ name e₂.
                Returns-if (bytes_eq name (get_xaya_name c.seller)) _ _ _
                  (λ h₂. Returns-lift _ _ _ λ value e₃. Returns-lift _ _ _ λ expected e₄.
                    Returns-if (bytes_eq value expected) _ _ _
                      (λ h₃. Returns-bind _ _ _ λ ours w₁ e₅.
                        flagged ours name_output out w₁ λ yes_. record {
                          op = rw e₁ (ap ok (bytes_eq→eq op _ h₁));
                          name = rw e₂ (ap ok (bytes_eq→eq name _ h₂));
                          value = rw (e₃, e₄) (ap ok (bytes_eq→eq value expected h₃));
                          address = Returns-elim (address_lem _ _ _) e₅ ∙ yes_;
                        })
                      (λ _. Returns-pure _ _ tt))
                  (λ _. Returns-pure _ _ tt))
              (λ _. Returns-pure _ _ tt)

    pays :
        (payment : ℤ) (out : Json) (w : W)
        → (total ≤ℤ payment → IsPayment total out)
        → Returns
            (λ found _. Shows total out found)
            (pure (if ltb_ℤ payment total then nothing else chi_output))
            w
    pays payment out w h = elim (Bool-cases (ltb_ℤ payment total)) [
      | inl low ↦ rw low (Returns-pure _ _ tt)
      | inr high ↦ rw high (Returns-pure _ _ (h (ground arith)))
    ]

    output-Shows :
        (out : Json) (w : W)
        → Returns (λ found _. Shows total out found) (examine_output spec util c sd total out) w
    unfolding examine_output
    output-Shows out w = Returns-check _ _ _ λ _. Returns-check _ _ _ λ _.
        Returns-if (is_object (name_op_of out)) _ _ _ (λ _. name_op-Shows out _)
          (λ plain. Returns-check _ _ _ λ _. Returns-bind _ _ _ λ ours w₁ e₁.
            Returns-if ours _ _ _
              (λ yes_. Returns-check_some _ _ _ λ payment e₂. pays payment out w₁ λ enough. record {
                plain = plain;
                address = Returns-elim (address_lem _ _ _) e₁ ∙ yes_;
                amount = payment;
                value = e₂;
                enough = enough;
              })
              (λ _. Returns-pure _ _ tt))

    -- What the flags say of the outputs that have been looked at, beside those they began with.
    record Seen (start : Flags) (outs : List Json) (end_ : Flags) : Type 0 where
      chi : end_.chi ≡ true → (start.chi ≡ true) ⊎ Among (IsPayment total) outs
      name : end_.name ≡ true → (start.name ≡ true) ⊎ Among IsNameUpdate outs

    Seen-step :
        (found : Found) (out : Json) (outs : List Json) (fl end_ : Flags)
        → Shows total out found
        → Seen (mark found fl) outs end_
        → Seen fl (out ∷ outs) end_
    Seen-step nothing out outs fl end_ shows seen = record {
      chi = λ h. either_way (seen.chi h) inl (λ a. inr (later a));
      name = λ h. either_way (seen.name h) inl (λ a. inr (later a));
    }
    Seen-step name_output out outs fl end_ shows seen = record {
      chi = λ h. either_way (seen.chi h) inl (λ a. inr (later a));
      name = λ _. inr (first shows);
    }
    Seen-step chi_output out outs fl end_ shows seen = record {
      chi = λ _. inr (first shows);
      name = λ h. either_way (seen.name h) inl (λ a. inr (later a));
    }

    scan-Seen :
        (outs : List Json) (fl : Flags) (w : W)
        → Returns (λ end_ _. Seen fl outs end_) (scan_outputs spec util c sd total outs fl) w
    unfolding scan_outputs
    scan-Seen [] fl w = Returns-pure _ _ (record { chi = inl; name = inl })
    scan-Seen (out ∷ outs) fl w = Returns-bind _ _ _ λ found w₁ e₁.
        Returns-map
          (λ end_ w₂ seen.
            Seen-step found out outs fl end_ (Returns-elim (output-Shows out w) e₁) seen)
          (scan-Seen outs (mark found fl) w₁)

module _ {W : Type 0} (xaya : XayaRpc W) (util : Util) (spec : AssetSpec W) (c : TradeChecker) where
  -- The transaction pays the seller, unless the price is zero, and hands the name to the seller.
  pub record Protects (sd : SellerData) (w : W) (psbt : Bytes) : Type 0 where
    pub decoded : Json
    pub after : W
    pub decodes : xaya.decodepsbt psbt w ≡ (ok decoded, after)
    pub total : ℤ
    pub total_sat : get_total_sat c ≡ ok (some total)
    pub paid : (total ≡ pos 0) ⊎ Among (IsPayment spec util c sd total) (vout_of decoded)
    pub updated : Among (IsNameUpdate spec util c sd) (vout_of decoded)

  outputs-Protects :
      (sd : SellerData) (psbt : Bytes) (w w₁ : W) (decoded : Json) (total : Option ℤ)
      → xaya.decodepsbt psbt w ≡ (ok decoded, w₁)
      → get_total_sat c ≡ ok total
      → Returns
          (λ b _. b ≡ true → Protects sd w psbt)
          (check_outputs util spec c sd (vout_of decoded) total)
          w₁
  unfolding check_outputs
  outputs-Protects sd psbt w w₁ decoded none e t = Returns-pure _ _ (λ no_. cc)
  outputs-Protects sd psbt w w₁ decoded (some total) e t = Returns-check _ _ _ λ _.
      Returns-bind _ _ _ λ found w₂ e₂. Returns-pure _ _ λ both.
        let seen = Returns-elim (scan-Seen spec util c sd total _ _ w₁) e₂ in
        let (chi, name) = &&-true found.chi found.name both in
        record {
          decoded = decoded;
          after = w₁;
          decodes = e;
          total = total;
          total_sat = t;
          paid = either_way (seen.chi chi) (λ z. inl (eqb_ℤ→eq total (pos 0) z)) inr;
          updated = either_way (seen.name name) (λ z. cc) (λ a. a);
        }

  -- Where CheckForSellerOutputs returns true, the decoded transaction has an output that updates the
  -- seller's name with the move of the trade, to the seller's name address, and, unless the total
  -- price is zero, an output that pays at least the total to the seller's CHI address.
  pub check_for_seller_outputs-Protects :
      (psbt : Bytes) (sd : SellerData) (w : W) {w' : W}
      → check_for_seller_outputs xaya util spec c psbt sd w ≡ (ok true, w')
      → Protects sd w psbt
  unfolding check_for_seller_outputs
  check_for_seller_outputs-Protects psbt sd w h =
      Returns-elim {Q = λ b _. b ≡ true → Protects sd w psbt}
        (Returns-check _ _ _ λ _. Returns-bind _ _ _ λ decoded w₁ e₁. Returns-check _ _ _ λ _.
          Returns-check _ _ _ λ _.
            Returns-check _ _ _
              λ _. Returns-lift _ _ _ λ total e₂. outputs-Protects sd psbt w w₁ decoded total e₁ e₂)
        h refl

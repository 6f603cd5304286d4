-- ===== src/Checker/Signatures/Seller.antt =====
-- The seller signs the name input, and nothing else.
use democrit_marketplace.Prelude.{
  ℕ, zero, suc, ◌+◌, ◌-◌, ◌≤◌, ◌≡◌, ◌≢◌, refl, Bool, true, false, Option, none, some, get_or, List,
  [], ◌∷◌, Bytes, bytes_eq, bytes_eq→eq, codes, length, get_elem?, arith, ◌==◌, ==_iff, ◌&&◌,
  &&-true,
}
use democrit_marketplace.Outcome.{ok}
use democrit_marketplace.Exec.Rules.{
  Returns, Returns-map, Returns-bind, Returns-check, Returns-if, Returns-elim, Returns-lift,
  Returns-pure,
}
use democrit_marketplace.Json.{Json, get_member, field, elements_of, string_of, uint_of}
use democrit_marketplace.Json.Equality.{json_eq→eq}
use democrit_marketplace.Proto.{OutPoint, SellerData}
use democrit_marketplace.Services.{XayaRpc}
use democrit_marketplace.Checker.Signatures.{
  find_input, others_unchanged, check_others, check_own_input, check_for_seller_signature,
}
use democrit_marketplace.Checker.Signatures.Buyer.{
  Pair, Inputs, Decoded, decode_pair-Pair, input_pair-Inputs,
}

-- The two lists agree at each position but `i`.
abbrev pub SameBut : ℕ → List Json → List Json → Type 0
SameBut i as_ bs = (j : ℕ) → j ≢ i → get_elem? as_ j ≡ get_elem? bs j

SameBut_of_test :
    (k i : ℕ) (as_ bs : List Json)
    → length as_ ≡ length bs
    → others_unchanged k i as_ bs ≡ true
    → (j : ℕ) → i + j ≢ k
    → get_elem? as_ j ≡ get_elem? bs j
unfolding others_unchanged
SameBut_of_test k i [] [] l h j ne = refl
SameBut_of_test k i [] (b ∷ bs) l h j ne = absurd (omega arith)
SameBut_of_test k i (a ∷ as_) [] l h j ne = absurd (omega arith)
SameBut_of_test k i (a ∷ as_) (b ∷ bs) l h zero ne = ground (arith, json_eq→eq a b)
SameBut_of_test k i (a ∷ as_) (b ∷ bs) l h (suc j) ne =
    SameBut_of_test k (suc i) as_ bs (omega arith) (ground arith) j (omega arith)

-- The input spends the outpoint.
pub record Spends (out : OutPoint) (vin : Json) : Type 0 where
  pub txid : string_of (field vin (codes "txid")) ≡ get_or out.hash []
  pub vout : uint_of (field vin (codes "vout")) ≡ get_or out.n 0

abbrev Finds : OutPoint → ℕ → List Json → Option ℕ → Type 0
Finds out i vins none = Unit
Finds out i vins (some k) =
    (vin : Json) × (i ≤ k) × (get_elem? vins (k - i) ≡ some vin) × Spends out vin

Finds-suc :
    (out : OutPoint) (i : ℕ) (v : Json) (vins : List Json) (r : Option ℕ)
    → Finds out (suc i) vins r
    → Finds out i (v ∷ vins) r
Finds-suc out i v vins none f = tt
Finds-suc out i v vins (some k) (vin, below, at, spends) =
    let step : k - i ≡ suc (k - suc i) = omega arith in (vin, omega arith, rw step at, spends)

module _ {W : Type 0} where
  find_input-Finds :
      (out : OutPoint) (vins : List Json) (i : ℕ) (w : W)
      → Returns (λ r _. Finds out i vins r) (find_input out vins i) w
  unfolding find_input
  find_input-Finds out [] i w = Returns-pure _ _ tt
  find_input-Finds out (vin ∷ rest) i w = Returns-check _ _ _ λ _. Returns-check _ _ _ λ _.
      Returns-check _ _ _ λ _.
        Returns-if
          (bytes_eq (string_of (field vin (codes "txid"))) (get_or out.hash [])
            && (uint_of (field vin (codes "vout")) == get_or out.n 0))
          _ _ _
          (λ both.
            let (txid, vout) = &&-true _ _ both in
            Returns-pure _ _ (
              vin,
              omega arith,
              here,
              record { txid = bytes_eq→eq _ _ txid; vout = (==_iff _ _).0 vout },
            ))
          (λ _.
            Returns-map (λ r _ f. Finds-suc out i vin rest r f)
              (find_input-Finds out rest (suc i) w))
    where
      here : get_elem? (vin ∷ rest) (i - i) ≡ some vin
      here = let e : i - i ≡ 0 = omega arith in rw e refl

module _ {W : Type 0} (xaya : XayaRpc W) where
  pub record OnlyOwnSigned (nm_out : OutPoint) (before_str after_str : Bytes) (w : W) : Type 0 where
    pub before : Json
    pub after : Json
    pub tx : Json
    pub ins : List Json
    pub outs : List Json
    pub decoded : Decoded xaya before_str after_str w before after
    pub pair : Pair before after
    pub inputs : Inputs before after ins outs
    pub tx_eq : get_member before (codes "tx") ≡ ok tx
    pub index : ℕ
    pub vin : Json
    pub at_index : get_elem? (elements_of (field tx (codes "vin"))) index ≡ some vin
    pub spends : Spends nm_out vin
    pub same_but : SameBut index ins outs

  abbrev Unchanged : Json × Json → Option ℕ → Bool → Type 0
  Unchanged txs none b = b ≡ false
  Unchanged txs (some k) b =
      b ≡ true
      → (ins : List Json) × (outs : List Json) × Inputs txs.0 txs.1 ins outs × SameBut k ins outs

  check_others-Unchanged :
      (txs : Json × Json) (index : Option ℕ) (w : W)
      → Returns (λ b _. Unchanged txs index b) (check_others xaya txs index) w
  unfolding check_others
  check_others-Unchanged txs none w = Returns-pure _ _ refl
  check_others-Unchanged txs (some k) w = Returns-bind _ _ _ λ ins w₁ e₁. Returns-pure _ _ λ same.
      let inputs = Returns-elim (input_pair-Inputs txs.0 txs.1 w) e₁ in
      (
        ins.0,
        ins.1,
        inputs,
        λ j ne. SameBut_of_test k 0 ins.0 ins.1 inputs.one_size same j (omega arith),
      )

  own_input :
      (nm_out : OutPoint) (before_str after_str : Bytes) (w : W) (txs : Json × Json) (tx : Json)
      → Decoded xaya before_str after_str w txs.0 txs.1 × Pair txs.0 txs.1
      → get_member txs.0 (codes "tx") ≡ ok tx
      → (index : Option ℕ) (b : Bool) → Finds nm_out 0 (elements_of (field tx (codes "vin"))) index
      → Unchanged txs index b
      → b ≡ true
      → OnlyOwnSigned nm_out before_str after_str w
  own_input nm_out before_str after_str w txs tx found e none b f u t = cc
  own_input nm_out before_str after_str w txs tx found e (some k) b (vin, _, at, spends) u t =
      let (ins, outs, inputs, same) = u t in
      record {
        before = txs.0;
        after = txs.1;
        tx = tx;
        ins = ins;
        outs = outs;
        decoded = found.0;
        pair = found.1;
        inputs = inputs;
        tx_eq = e;
        index = k;
        vin = vin;
        at_index = let z : k - 0 ≡ k = omega arith in rw z at at;
        spends = spends;
        same_but = same;
      }

  check_own_input-OnlyOwnSigned :
      (nm_out : OutPoint) (before_str after_str : Bytes) (w : W)
      → Returns
          (λ b _. b ≡ true → OnlyOwnSigned nm_out before_str after_str w)
          (check_own_input xaya nm_out before_str after_str)
          w
  unfolding check_own_input
  check_own_input-OnlyOwnSigned nm_out before_str after_str w = Returns-check _ _ _ λ _.
      Returns-bind _ _ _ λ txs w₁ e₁. Returns-lift _ _ _ λ tx e₂. Returns-check _ _ _ λ _.
        Returns-check _ _ _ λ _. Returns-bind _ _ _ λ index w₃ e₃.
          Returns-map
            (λ b _ u.
              own_input nm_out before_str after_str w txs tx
                (Returns-elim (decode_pair-Pair xaya before_str after_str w) e₁) e₂ index b
                (Returns-elim (find_input-Finds nm_out _ 0 w₁) e₃) u)
            (check_others-Unchanged txs index w₃)

  returns :
      (before_str after_str : Bytes) (sd : SellerData) (nm_out : OutPoint) (w : W)
      → sd.name_output ≡ some nm_out
      → Returns
          (λ b _. b ≡ true → OnlyOwnSigned nm_out before_str after_str w)
          (check_for_seller_signature xaya before_str after_str sd)
          w
  unfolding check_for_seller_signature
  returns before_str after_str sd nm_out w e =
      Returns-check _ _ _ λ _. rw e (check_own_input-OnlyOwnSigned nm_out before_str after_str w)

  -- Where CheckForSellerSignature returns true, the two transactions have the same unsigned part, an
  -- input of it spends the seller's name output, and every other input is left as it was.
  pub check_for_seller_signature-OnlyOwnSigned :
      (before_str after_str : Bytes) (sd : SellerData) (nm_out : OutPoint) (w : W) {w' : W}
      → sd.name_output ≡ some nm_out
      → check_for_seller_signature xaya before_str after_str sd w ≡ (ok true, w')
      → OnlyOwnSigned nm_out before_str after_str w
  check_for_seller_signature-OnlyOwnSigned before_str after_str sd nm_out w e h =
      Returns-elim (returns before_str after_str sd nm_out w e) h refl

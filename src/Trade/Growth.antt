-- ===== src/Trade/Growth.antt =====
-- How a trade's data may change: what was agreed stays, what has been filled in stays, and the state
-- moves forward only.
use democrit_marketplace.Prelude.{
  ℕ, ◌≡◌, refl, ◌∙◌, subst, Option, none, some, get_or, Bytes, arith,
}
use democrit_marketplace.Proto.{
  TradeStatus, initiated, pending, success, failed, abandoned, SellerData, TradeState,
}
use democrit_marketplace.Trade.{state_of}

-- The state machine: initiated, then pending or abandoned; pending, then success or failed. The
-- last three are final.
abbrev pub Leads : TradeStatus → TradeStatus → Type 0
Leads initiated _ = Unit
Leads pending pending = Unit
Leads pending success = Unit
Leads pending failed = Unit
Leads success success = Unit
Leads failed failed = Unit
Leads abandoned abandoned = Unit
Leads _ _ = ⊥

Leads-refl : (s : TradeStatus) → Leads s s
Leads-refl initiated = tt
Leads-refl pending = tt
Leads-refl success = tt
Leads-refl failed = tt
Leads-refl abandoned = tt

Leads-trans : (a b c : TradeStatus) → Leads a b → Leads b c → Leads a c
Leads-trans initiated b c h k = tt
Leads-trans pending pending c h k = k
Leads-trans pending success success h k = tt
Leads-trans pending failed failed h k = tt
Leads-trans success success c h k = k
Leads-trans failed failed c h k = k
Leads-trans abandoned abandoned c h k = k
Leads-trans _ _ _ h k = ground arith

-- A field that has been set keeps its value.
abbrev pub Kept : {A : Type 0} → Option A → Option A → Type 0
Kept none o = Unit
Kept (some a) o = o ≡ some a

pub Kept-refl : {A : Type 0} (o : Option A) → Kept o o
Kept-refl none = tt
Kept-refl (some a) = refl

Kept-trans : {A : Type 0} (a b c : Option A) → Kept a b → Kept b c → Kept a c
Kept-trans none b c h k = tt
Kept-trans (some x) b c h k = subst (λ o. Kept o c) h k

pub Kept-none : {A : Type 0} (o p : Option A) → o ≡ none → Kept o p
Kept-none none p e = tt
Kept-none (some x) p e = cc

pub record Extends (a b : TradeState) : Type 0 where
  pub order : b.order ≡ a.order
  pub units : b.units ≡ a.units
  pub counterparty : b.counterparty ≡ a.counterparty
  pub start_time : b.start_time ≡ a.start_time
  pub status : Leads (state_of a) (state_of b)
  pub seller_data : Kept a.seller_data b.seller_data
  pub our_psbt : Kept a.our_psbt b.our_psbt
  pub their_psbt : Kept a.their_psbt b.their_psbt

-- The fields that the methods write, written in a way that is allowed.
pub Extends-write :
    (a : TradeState) (st : Option TradeStatus) (sd : Option SellerData) (ours theirs : Option Bytes)
    (height : Option ℕ)
    → Leads (state_of a) (get_or st initiated)
    → Kept a.seller_data sd
    → Kept a.our_psbt ours
    → Kept a.their_psbt theirs
    → Extends a (record a {
      state = st;
      seller_data = sd;
      our_psbt = ours;
      their_psbt = theirs;
      conflict_height = height;
    })
Extends-write a st sd ours theirs height leads ks ko kt = record {
  order = refl;
  units = refl;
  counterparty = refl;
  start_time = refl;
  status = leads;
  seller_data = ks;
  our_psbt = ko;
  their_psbt = kt;
}

module _ (a : TradeState) where
  pub Extends-seller_data :
      (sd : SellerData) → a.seller_data ≡ none → Extends a (record a { seller_data = some sd })
  Extends-seller_data sd e =
      Extends-write a a.state (some sd) a.our_psbt a.their_psbt a.conflict_height
        (Leads-refl (state_of a)) (Kept-none _ _ e) (Kept-refl _) (Kept-refl _)

  pub Extends-our_psbt :
      (psbt : Bytes) → a.our_psbt ≡ none → Extends a (record a { our_psbt = some psbt })
  Extends-our_psbt psbt e =
      Extends-write a a.state a.seller_data (some psbt) a.their_psbt a.conflict_height
        (Leads-refl (state_of a)) (Kept-refl _) (Kept-none _ _ e) (Kept-refl _)

  pub Extends-their_psbt :
      (psbt : Bytes) → a.their_psbt ≡ none → Extends a (record a { their_psbt = some psbt })
  Extends-their_psbt psbt e =
      Extends-write a a.state a.seller_data a.our_psbt (some psbt) a.conflict_height
        (Leads-refl (state_of a)) (Kept-refl _) (Kept-refl _) (Kept-none _ _ e)

  pub Extends-state :
      (st : TradeStatus) → Leads (state_of a) st → Extends a (record a { state = some st })
  Extends-state st leads =
      Extends-write a (some st) a.seller_data a.our_psbt a.their_psbt a.conflict_height leads
        (Kept-refl _) (Kept-refl _) (Kept-refl _)

  pub Extends-conflict_height :
      (height : Option ℕ) → Extends a (record a { conflict_height = height })
  Extends-conflict_height height =
      Extends-write a a.state a.seller_data a.our_psbt a.their_psbt height (Leads-refl (state_of a))
        (Kept-refl _) (Kept-refl _) (Kept-refl _)

  pub Extends-refl : Extends a a
  Extends-refl = Extends-conflict_height a.conflict_height

pub Extends-trans : {a b c : TradeState} → Extends a b → Extends b c → Extends a c
Extends-trans {a} {b} {c} h k = record {
  order = k.order ∙ h.order;
  units = k.units ∙ h.units;
  counterparty = k.counterparty ∙ h.counterparty;
  start_time = k.start_time ∙ h.start_time;
  status = Leads-trans (state_of a) (state_of b) (state_of c) h.status k.status;
  seller_data = Kept-trans a.seller_data b.seller_data c.seller_data h.seller_data k.seller_data;
  our_psbt = Kept-trans a.our_psbt b.our_psbt c.our_psbt h.our_psbt k.our_psbt;
  their_psbt = Kept-trans a.their_psbt b.their_psbt c.their_psbt h.their_psbt k.their_psbt;
}

-- An extension that leaves the state of the trade.
pub record Quiet (a b : TradeState) : Type 0 where
  pub extends : Extends a b
  pub state : state_of b ≡ state_of a

module _ (a : TradeState) where
  pub Quiet-refl : Quiet a a
  Quiet-refl = record { extends = Extends-refl a; state = refl }

  pub Quiet-seller_data :
      (sd : SellerData) → a.seller_data ≡ none → Quiet a (record a { seller_data = some sd })
  Quiet-seller_data sd e = record { extends = Extends-seller_data a sd e; state = refl }

  pub Quiet-our_psbt :
      (psbt : Bytes) → a.our_psbt ≡ none → Quiet a (record a { our_psbt = some psbt })
  Quiet-our_psbt psbt e = record { extends = Extends-our_psbt a psbt e; state = refl }

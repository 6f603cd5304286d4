-- ===== src/Manager/Sales/Sorting.antt =====
-- The IDs of the traded orders, where UpdateAndArchiveTrades of trades.cpp has sorted the trades.
use democrit_marketplace.Prelude.{
  ℕ, ◌≤◌, ◌≡◌, refl, sym, subst, ◌∙◌, true, false, get_or, ◌⊎◌, List, [], ◌∷◌, ◌++◌, length, All,
  All-append, Bytes, Bool-cases, inl, inr, arith,
}
use democrit_marketplace.Proto.{TradeState}
use democrit_marketplace.Trade.{get_role}
use democrit_marketplace.Trade.Reply.{is_maker}
use democrit_marketplace.MyOrders.Ids.{Distinct}
use democrit_marketplace.Manager.Archive.{Sorted, done, stays, goes}
use democrit_marketplace.Manager.Sales.{own_id, own_ids, own_id-order, Distinct-insert}

pub All-parts : (P : ℕ → Type 0) (is js : List ℕ) → All P (is ++ js) → All P is × All P js
All-parts P [] js h = (tt, h)
All-parts P (i ∷ is) js (hi, h) = let q = All-parts P is js h in ((hi, q.0), q.1)

pub Distinct-parts : (is js : List ℕ) → Distinct (is ++ js) → Distinct js
Distinct-parts [] js d = d
Distinct-parts (i ∷ is) js (h, d) = Distinct-parts is js d

module _ (a : Bytes) where
  -- The IDs, with those of the final trades first.
  abbrev pub split_ids : List TradeState → List TradeState → List ℕ
  split_ids active final = own_ids a final ++ own_ids a active

  -- The order of the trade is the user's or it is not.
  pub own_id-cases :
      (t : TradeState)
      → (is_maker (get_role a t) ≡ true) × (own_id a t ≡ get_or t.order.id 0 ∷ [])
        ⊎ (is_maker (get_role a t) ≡ false) × (own_id a t ≡ [])
  own_id-cases t = elim (Bool-cases (is_maker (get_role a t))) [
    | inl e ↦ inl (e, rw e refl)
    | inr e ↦ inr (e, rw e refl)
  ]

  Sorted-All :
      {ts active final : List TradeState} (P : ℕ → Type 0)
      → Sorted ts active final
      → All P (own_ids a ts)
      → All P (own_ids a final) × All P (own_ids a active)
  unfolding own_ids
  Sorted-All P done h = (tt, tt)
  Sorted-All P (stays {t} {t'} {ts} ext live s) h =
      let q = All-parts P (own_id a t) (own_ids a ts) h in
      let rest = Sorted-All P s q.1 in
      (
        rest.0,
        All-append P (own_id a t') _ (subst (All P) (sym (own_id-order a t t' ext.order)) q.0)
            rest.1,
      )
  Sorted-All P (goes {t} {t'} {ts} ext final s) h =
      let q = All-parts P (own_id a t) (own_ids a ts) h in
      let rest = Sorted-All P s q.1 in
      (
        All-append P (own_id a t') _ (subst (All P) (sym (own_id-order a t t' ext.order)) q.0)
            rest.0,
        rest.1,
      )

  pub Sorted-All-split :
      {ts active final : List TradeState} (P : ℕ → Type 0)
      → Sorted ts active final
      → All P (own_ids a ts)
      → All P (split_ids active final)
  Sorted-All-split P s h = let q = Sorted-All P s h in All-append P _ _ q.0 q.1

  -- The IDs stay different when the trades are sorted.
  pub Sorted-Distinct :
      {ts active final : List TradeState}
      → Sorted ts active final
      → Distinct (own_ids a ts)
      → Distinct (split_ids active final)
  unfolding own_ids
  Sorted-Distinct done d = tt
  Sorted-Distinct (stays {t} {t'} {ts} {active} {finalised} ext live s) d =
      let same = own_id-order a t t' ext.order in
      elim (own_id-cases t) [
        | inl (m, e) ↦
            let d' = subst (λ (is : List ℕ). Distinct (is ++ own_ids a ts)) e d in
            subst (λ (is : List ℕ). Distinct (own_ids a finalised ++ (is ++ own_ids a active)))
              (sym (same ∙ e))
              (Distinct-insert (own_ids a finalised) (get_or t.order.id 0) (own_ids a active)
                (Sorted-All-split _ s d'.0) (Sorted-Distinct s d'.1))
        | inr (m, e) ↦
            subst (λ (is : List ℕ). Distinct (own_ids a finalised ++ (is ++ own_ids a active)))
              (sym (same ∙ e))
              (Sorted-Distinct s (subst (λ (is : List ℕ). Distinct (is ++ own_ids a ts)) e d))
      ]
  Sorted-Distinct (goes {t} {t'} {ts} {active} {finalised} ext over s) d =
      let same = own_id-order a t t' ext.order in
      elim (own_id-cases t) [
        | inl (m, e) ↦
            let d' = subst (λ (is : List ℕ). Distinct (is ++ own_ids a ts)) e d in
            subst (λ (is : List ℕ). Distinct ((is ++ own_ids a finalised) ++ own_ids a active))
              (sym (same ∙ e)) (Sorted-All-split _ s d'.0, Sorted-Distinct s d'.1)
        | inr (m, e) ↦
            subst (λ (is : List ℕ). Distinct ((is ++ own_ids a finalised) ++ own_ids a active))
              (sym (same ∙ e))
              (Sorted-Distinct s (subst (λ (is : List ℕ). Distinct (is ++ own_ids a ts)) e d))
      ]

pub Sorted-length :
    {ts active final : List TradeState} → Sorted ts active final → length final ≤ length ts
Sorted-length done = omega arith
Sorted-length (stays ext live s) = omega (arith, Sorted-length s)
Sorted-length (goes ext over s) = omega (arith, Sorted-length s)

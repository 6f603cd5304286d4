-- ===== src/Checker/Ancestry/Chain.antt =====
-- What IsBlockAncestor decides, when the headers of the blocks are served as they are.
use democrit_marketplace.Prelude.{
  ℕ, zero, suc, ◌≡◌, refl, ◌≢◌, ◌↔◌, Bool, true, false, Option, none, some, Option-cases, sym, ◌∙◌,
  subst, Bytes, codes, ◌==◌, ==_iff, arith, Bool-cases, inl, inr,
}
use democrit_marketplace.Outcome.{ok}
use democrit_marketplace.Exec.{◌>>=◌}
use democrit_marketplace.Json.{Json, null, str, is_object, field}
use democrit_marketplace.Services.{XayaRpc, Util}
use democrit_marketplace.Checker.Ancestry.{is_block_ancestor}

-- `parent` gives the parent of each block, and getblockheader reports it without an error. A hash
-- that has been printed is the hash of its block.
pub record Served {W : Type 0} (xaya : XayaRpc W) (util : Util) (parent : ℕ → Option ℕ)
    : Type 0 where
  pub header : ℕ → Json
  pub replies : (b : ℕ) (w : W) → xaya.getblockheader (util.uint256_to_hex b) w ≡ (ok (header b), w)
  pub is_obj : (b : ℕ) → is_object (header b) ≡ true
  pub genesis : (b : ℕ) → parent b ≡ none → field (header b) (codes "previousblockhash") ≡ null
  pub linked :
      (b p : ℕ)
      → parent b ≡ some p
      → (h : Bytes) × (field (header b) (codes "previousblockhash") ≡ str h)
        × (util.uint256_from_hex h ≡ some p)

-- `a` is reached from `c` by at most `n` steps to the parent.
pub data Within (parent : ℕ → Option ℕ) (a : ℕ) : ℕ → ℕ → Type 0 where
  here : {c n : ℕ} → a ≡ c → Within parent a c n
  back : {c p n : ℕ} → parent c ≡ some p → Within parent a p n → Within parent a c (suc n)

module _ {parent : ℕ → Option ℕ} {a : ℕ} where
  Within-zero : {c n : ℕ} → Within parent a c n → n ≡ zero → a ≡ c
  Within-zero (here e) z = e
  Within-zero (back e r) z = absurd (omega arith)

  Within-stuck : {c n : ℕ} → parent c ≡ none → Within parent a c n → a ≡ c
  Within-stuck g (here e) = e
  Within-stuck g (back e r) = cc

  Within-back :
      {c n : ℕ} (m p : ℕ)
      → n ≡ suc m
      → parent c ≡ some p
      → a ≢ c
      → Within parent a c n
      → Within parent a p m
  Within-back m p z g ne (here e) = absurd (ne e)
  Within-back m p z g ne (back {p = q} {n = k} e r) =
      let sp : some p ≡ some q = sym g ∙ e in
      subst (λ t. Within parent a t m) (ground arith)
        (subst (λ t. Within parent a q t) (omega arith) r)

module _ {W : Type 0} (xaya : XayaRpc W) (util : Util) (parent : ℕ → Option ℕ)
    (s : Served xaya util parent) where
  -- Where the headers are served as they are, IsBlockAncestor returns, without a change of the world,
  -- and returns true exactly if the first block is reached from the second by at most `n` steps to
  -- the parent.
  pub is_block_ancestor_exact :
      (ancestor child n : ℕ) (w : W)
      → (b : Bool) × (is_block_ancestor xaya util ancestor child n w ≡ (ok b, w))
        × ((b ≡ true) ↔ Within parent ancestor child n)
  unfolding is_block_ancestor ◌>>=◌
  is_block_ancestor_exact a c zero w =
      (a == c, refl, (λ e. here ((==_iff a c).0 e), λ h. (==_iff a c).1 (Within-zero h refl)))
  is_block_ancestor_exact a c (suc n) w = elim (Bool-cases (a == c)) [
    | inl same ↦
        (true, rw (same, is_block_ancestor) refl, (λ _. here ((==_iff a c).0 same), λ _. refl))
    | inr other ↦ elim (Option-cases (parent c)) [
      | inl g ↦ (
        false,
        rw (other, is_block_ancestor, s.replies c w, s.is_obj c, s.genesis c g) refl,
        (λ e. cc, λ h. cc ((==_iff a c).1 (Within-stuck g h))),
      )
      | inr (p, g) ↦
          let (h, is_str, is_hash) = s.linked c p g in
          let (b, run, exact) = is_block_ancestor_exact a p n w in
          (
            b,
            rw (other, is_block_ancestor, s.replies c w, s.is_obj c, is_str, is_hash) run,
            (
              λ e. back g (exact.0 e),
              λ r. exact.1 (Within-back n p refl g (λ e. cc ((==_iff a c).1 e)) r),
            ),
          )
    ]
  ]

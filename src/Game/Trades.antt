-- ===== src/Game/Trades.antt =====
-- gsp/rpcserver.cpp, checktrade, with CheckTrade of gsp/game.cpp: what the state of a trade is.
use democrit_marketplace.Prelude.{
  ℕ, ◌<◌, ◌^◌, ◌≡◌, refl, ap, ◌∙◌, ◌⊎◌, inl, inr, true, false, Option, some, is_some, get_or, List,
  [], ◌∷◌, Bytes, bytes_eq, bytes_eq→eq, codes, ltb, ◌||◌, Bool-cases, if◌then◌else◌, arith,
}
use democrit_marketplace.Prelude.Int.{ℤ, pos}
use democrit_marketplace.Outcome.{ok}
use democrit_marketplace.Json.{
  Json, null, num, obj, Members, end, member, find_member, has_member, set_member, remove_member,
  is_null, is_uint,
}
use democrit_marketplace.Conversion.Fields.{
  lookup_member, has_member-lookup_member, find_member-lookup_member, lookup_member-set_member,
}
use democrit_marketplace.Game.{
  Table, Framework, TradeState, unknown, pending, confirmed, row_json, trade_state, state_json,
  check_trade, checktrade,
}

-- libxayagame has the pending moves among the members of the pending state and, beside the callback's
-- value "data", the members of `base`.
pub record IsFramework (g : Framework) (moves base : Members) : Type 0 where
  pub pending_members : Members
  pub is_pending : g.pending_state ≡ obj pending_members
  pub has_pending : find_member (codes "pending") pending_members ≡ obj moves
  pub custom : Json → Members
  pub is_custom : (v : Json) → g.custom_state v ≡ obj (custom v)
  pub has_data : (v : Json) → lookup_member (codes "data") (custom v) ≡ some v
  pub others :
      (v : Json) (k : Bytes)
      → bytes_eq (codes "data") k ≡ false
      → lookup_member k (custom v) ≡ lookup_member k base

-- The state of a trade by its rows in the table and the pending moves.
unfoldable pub expected : List ℤ → Members → Bytes → TradeState
expected (pos h ∷ rest) moves btxid = confirmed h
expected _ moves btxid = if has_member btxid moves then pending else unknown

lookup_member-remove_member :
    (k l : Bytes) (m : Members)
    → bytes_eq l k ≡ false
    → lookup_member k (remove_member l m) ≡ lookup_member k m
unfolding lookup_member remove_member
lookup_member-remove_member k l end h = refl
lookup_member-remove_member k l (member i j r) h = elim (Bool-cases (bytes_eq i l)) [
  | inl e ↦ rw (remove_member, e, lookup_member, bytes_eq→eq i l e, h) refl
  | inr e ↦ rw (remove_member, e, lookup_member, lookup_member-remove_member k l r h) refl
]

module _ {D : Type 0} (table : Table D) (g : Framework) (moves base : Members)
    (law : IsFramework g moves base) where
  -- The reply where the row of the trade reads as `v`.
  Replied : Json → Bytes → D → Members
  Replied v t d =
      set_member (codes "data") (state_json (trade_state v (obj moves) t))
        (remove_member (codes "data") (law.custom v))

  replies :
      (t : Bytes) (d : D) (v : Json)
      → row_json (table.heights t d) ≡ ok v
      → (is_null v || is_uint v) ≡ true
      → checktrade table g t d ≡ ok (obj (Replied v t d))
  unfolding checktrade check_trade Replied find_member bytes_eq
  replies t d v row valid =
      let present : has_member (codes "data") (law.custom v) ≡ true =
        has_member-lookup_member (codes "data") (law.custom v) ∙ ap is_some (law.has_data v) in
      let value : find_member (codes "data") (law.custom v) ≡ v =
        find_member-lookup_member (codes "data") (law.custom v)
        ∙ ap (λ (o : Option Json). get_or o null) (law.has_data v) in
      rw
        (
          checktrade,
          check_trade,
          law.is_pending,
          law.has_pending,
          row,
          law.is_custom v,
          present,
          value,
          valid,
        )
        refl

  -- What is read of that reply.
  reads :
      (t : Bytes) (d : D) (v : Json) (s : TradeState)
      → trade_state v (obj moves) t ≡ s
      → (lookup_member (codes "data") (Replied v t d) ≡ some (state_json s))
        × ((k : Bytes)
            → bytes_eq (codes "data") k ≡ false
            → lookup_member k (Replied v t d) ≡ lookup_member k base)
  unfolding Replied bytes_eq
  reads t d v s e =
      let state = state_json (trade_state v (obj moves) t) in
      let kept = remove_member (codes "data") (law.custom v) in
      (
        lookup_member-set_member (codes "data") (codes "data") state kept
            ∙ ap (λ (x : TradeState). some (state_json x)) e,
        λ k. λ h.
            lookup_member-set_member k (codes "data") state kept
            ∙ (rw h (lookup_member-remove_member k (codes "data") (law.custom v) h))
            ∙ law.others v k h,
      )

  -- Where libxayagame has a state of the game and a pending state, `checktrade` returns, and no CHECK
  -- in it fails, if the table has no row of the transaction, or one row with a height below 2^31. The
  -- reply's "data" is confirmed with that height where there is a row, whatever is pending; else pending
  -- where the transaction is among the pending moves, and else unknown. Its other members are those of
  -- the game's state.
  pub checktrade-expected :
      (t : Bytes) (d : D)
      → (table.heights t d ≡ []) ⊎ ((h : ℕ) × (h < 2 ^ 31) × (table.heights t d ≡ pos h ∷ []))
      → (reply : Members) × (checktrade table g t d ≡ ok (obj reply))
        × (lookup_member (codes "data") reply
            ≡ some (state_json (expected (table.heights t d) moves t)))
        × ((k : Bytes)
            → bytes_eq (codes "data") k ≡ false
            → lookup_member k reply ≡ lookup_member k base)
  unfolding expected row_json trade_state
  checktrade-expected t d (inl none_there) =
      let (value, other) = reads t d null (expected [] moves t) refl in
      (
        Replied null t d,
        replies t d null (ap row_json none_there) refl,
        (rw none_there value),
        other,
      )
  checktrade-expected t d (inr (h, small, row)) =
      let i : ltb h (2 ^ 31) ≡ true = ground arith in
      let u : ltb h (2 ^ 32) ≡ true = ground arith in
      let (value, other) = reads t d (num (pos h)) (confirmed h) (rw (trade_state, i) refl) in
      (
        Replied (num (pos h)) t d,
        replies t d (num (pos h)) (ap row_json row) u,
        (rw row value),
        other,
      )

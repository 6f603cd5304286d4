-- ===== src/Trade/Update/Watched.antt =====
-- What a pending trade is told of its transaction by the game g/dem, and what becomes of it: the RPC
-- method checktrade that Trade::Update calls is that of gsp/rpcserver.cpp.
use democrit_marketplace.Prelude.{
  ℕ, ◌+◌, ◌<◌, ◌≤◌, ◌^◌, ◌≡◌, refl, ap, ◌∙◌, Bool, true, false, Option, none, some, get_or, [], ◌∷◌,
  Bytes, bytes_eq, codes, leb, inl, inr, ◌⊎◌, if◌then◌else◌,
}
use democrit_marketplace.Prelude.Int.{pos}
use democrit_marketplace.Outcome.{Outcome, ok}
use democrit_marketplace.Json.{
  Json, null, num, str, obj, Members, member, end, find_member, set_member, has_member,
}
use democrit_marketplace.Conversion.Fields.{lookup_member, find_member-lookup_member}
use democrit_marketplace.Services.{Services}
use democrit_marketplace.Proto.{TradeState, success, failed}
use democrit_marketplace.Trade.Update.{set_state, set_conflict_height}
use democrit_marketplace.Game.{
  Table, Framework, unknown, pending, confirmed, state_json, checktrade,
}
use democrit_marketplace.Game.{TradeState as ChainState}
use democrit_marketplace.Game.Trades.{IsFramework, expected, checktrade-expected}

-- The GSP that the daemon is connected to: g/dem, whose state moves with the world. A call of it
-- changes nothing.
pub record IsGame {W D : Type 0} (sv : Services W) (table : Table D) : Type 0 where
  pub database : W → D
  pub framework : W → Framework
  pub moves : W → Members
  pub base : W → Members
  pub height : W → ℕ
  pub serves :
      (t : Bytes) (w : W)
      → sv.dem_gsp.checktrade t w ≡ (checktrade table (framework w) t (database w), w)
  pub law : (w : W) → IsFramework (framework w) (moves w) (base w)
  pub at_height : (w : W) → lookup_member (codes "height") (base w) ≡ some (num (pos (height w)))
  pub small : (w : W) → height w < 2 ^ 32

-- The state as the text in the JSON.
abbrev pub text : ChainState → Bytes
text unknown = codes "unknown"
text pending = codes "pending"
text (confirmed h) = codes "confirmed"

-- A height is not above that of the game.
abbrev pub IsPast : ℕ → ChainState → Type 0
IsPast height (confirmed h) = h ≤ height
IsPast height _ = Unit

-- The conflict, noted when it is seen first, has lasted long enough.
abbrev pub after_conflict : ℕ → ℕ → Option ℕ → TradeState → TradeState
after_conflict depth height none pb = set_conflict_height (some height) pb
after_conflict depth height (some since) pb =
    if leb (since + depth) (height + 1) then set_state failed pb else pb

-- What becomes of a pending trade whose transaction is in this state at this height; `spent` says
-- whether one of its inputs is.
abbrev pub watch : ℕ → ℕ → Bool → ChainState → TradeState → TradeState
watch depth height spent (confirmed h) pb =
    if leb (h + depth) (height + 1) then set_state success pb else set_conflict_height none pb
watch depth height spent pending pb = set_conflict_height none pb
watch depth height spent unknown pb =
    if spent then after_conflict depth height pb.conflict_height pb else set_conflict_height none pb

pub entry_of :
    (x : ChainState)
    → (m : Members) × (state_json x ≡ obj m) × (find_member (codes "state") m ≡ str (text x))
unfolding state_json set_member find_member bytes_eq
entry_of unknown = (member (codes "state") (str (codes "unknown")) end, refl, refl)
entry_of pending = (member (codes "state") (str (codes "pending")) end, refl, refl)
entry_of (confirmed h) = (
  member (codes "height") (num (pos h)) (member (codes "state") (str (codes "confirmed")) end),
  refl,
  refl,
)

module _ {W D : Type 0} (sv : Services W) (table : Table D) (game : IsGame sv table) where
  -- The table has one row of the transaction at most, with a height that is not above the game's.
  abbrev pub IsRecorded : Bytes → W → Type 0
  IsRecorded t w =
      (table.heights t (game.database w) ≡ [])
      ⊎ ((h : ℕ) × (h < 2 ^ 31)
          × (h ≤ game.height w)
          × (table.heights t (game.database w) ≡ pos h ∷ []))

  -- What the game knows of the transaction.
  abbrev pub chain_state : Bytes → W → ChainState
  chain_state t w = expected (table.heights t (game.database w)) (game.moves w) t

  -- What the GSP answers.
  abbrev pub Answered : Bytes → W → Members → Type 0
  Answered t w reply =
      (sv.dem_gsp.checktrade t w ≡ (ok (obj reply), w))
      × (find_member (codes "data") reply ≡ state_json (chain_state t w))
      × (find_member (codes "height") reply ≡ num (pos (game.height w)))

  one_row :
      (t : Bytes) (w : W)
      → IsRecorded t w
      → (table.heights t (game.database w) ≡ [])
        ⊎ ((h : ℕ) × (h < 2 ^ 31) × (table.heights t (game.database w) ≡ pos h ∷ []))
  one_row t w (inl e) = inl e
  one_row t w (inr (h, small, past, e)) = inr (h, small, e)

  pub checktrade-Answered :
      (t : Bytes) (w : W) → IsRecorded t w → (reply : Members) × Answered t w reply
  unfolding bytes_eq
  checktrade-Answered t w r =
      let (reply, returns, entry, others) =
        checktrade-expected table (game.framework w) (game.moves w) (game.base w) (game.law w) t
          (game.database w) (one_row t w r) in
      (
        reply,
        (
          game.serves t w ∙ ap (λ (o : Outcome Json). (o, w)) returns,
          find_member-lookup_member (codes "data") reply
              ∙ ap (λ (o : Option Json). get_or o null) entry,
          find_member-lookup_member (codes "height") reply
              ∙ ap (λ (o : Option Json). get_or o null)
                  (others (codes "height") refl ∙ game.at_height w),
        ),
      )

  by_moves : (height : ℕ) (b : Bool) → IsPast height (if b then pending else unknown)
  by_moves height true = tt
  by_moves height false = tt

  pub chain_state-IsPast :
      (t : Bytes) (w : W) → IsRecorded t w → IsPast (game.height w) (chain_state t w)
  unfolding expected
  chain_state-IsPast t w (inl e) = rw e (by_moves (game.height w) (has_member t (game.moves w)))
  chain_state-IsPast t w (inr (h, small, past, e)) = rw e past

-- ===== src/Trade/Update/Seen.antt =====
-- Trade::Update of a pending trade, as a function of what the chain knows.
use democrit_marketplace.Prelude.{
  ℕ, ◌+◌, ◌<◌, ◌^◌, ◌≡◌, refl, Bool, true, false, Option, none, some, List, [], ◌∷◌, Bytes,
  bytes_eq, codes, leb, ltb, inl, inr, arith, ◌||◌, Bool-cases,
}
use democrit_marketplace.Prelude.Int.{pos}
use democrit_marketplace.Outcome.{ok}
use democrit_marketplace.Exec.{pure, check, ◌>>=◌}
use democrit_marketplace.Json.{
  Json, num, str, arr, obj, Items, elements, Members, is_null, find_member, set_member,
}
use democrit_marketplace.Services.{Services}
use democrit_marketplace.Proto.{TradeState, pending}
use democrit_marketplace.Trade.{Ctx, state_of}
use democrit_marketplace.Trade.Update.{
  Report, any_spent, check_trade, is_confirmed, is_conflicted, note_conflict, update,
  update_by_state, update_pending,
}
use democrit_marketplace.Trade.Update.Watched.{
  IsGame, IsPast, IsRecorded, chain_state, chain_state-IsPast, checktrade-Answered, text, entry_of,
  watch, after_conflict,
}
use democrit_marketplace.Game.{Table, unknown, confirmed, state_json}
use democrit_marketplace.Game.{TradeState as ChainState, pending as waiting}

-- The inputs of a transaction, as the node writes them.
pub data Inputs : List Json → List (Bytes × ℕ) → Type 0 where
  none_left : Inputs [] []
  input :
      {m : Members} {hash : Bytes} {n : ℕ} {vins : List Json} {outs : List (Bytes × ℕ)}
      → find_member (codes "txid") m ≡ str hash
      → find_member (codes "vout") m ≡ num (pos n)
      → n < 2 ^ 32
      → Inputs vins outs
      → Inputs (obj m ∷ vins) ((hash, n) ∷ outs)

-- The wallet decodes the PSBT as the transaction `t` with these inputs, and the node knows at any time
-- which of them are spent: gettxout has null for these.
pub record IsTransaction {W : Type 0} (sv : Services W) (psbt t : Bytes) : Type 0 where
  pub decoded : Members
  pub tx : Members
  pub vins : Items
  pub outs : List (Bytes × ℕ)
  pub utxo : Bytes → ℕ → W → Json
  pub decodes : (w : W) → sv.xaya.decodepsbt psbt w ≡ (ok (obj decoded), w)
  pub has_tx : find_member (codes "tx") decoded ≡ obj tx
  pub its_id : find_member (codes "btxid") tx ≡ str t
  pub has_vin : find_member (codes "vin") tx ≡ arr vins
  pub inputs : Inputs (elements vins) outs
  pub looks_up :
      (hash : Bytes) (n : ℕ) (w : W) → sv.xaya.gettxout hash n w ≡ (ok (utxo hash n w), w)

module _ {W D : Type 0} (sv : Services W) (table : Table D) (game : IsGame sv table) where
  module _ (psbt t : Bytes) (it : IsTransaction sv psbt t) where
    told : ChainState → ℕ → Report
    told x height = record { tx = obj it.tx; height = height; entry = state_json x; state = text x }

    check_trade-told :
        (w : W)
        → IsRecorded sv table game t w
        → check_trade sv psbt w ≡ (ok (told (chain_state sv table game t w) (game.height w)), w)
    unfolding check_trade ◌>>=◌ told find_member bytes_eq
    check_trade-told w r =
        let (reply, (answers, entry, high)) = checktrade-Answered sv table game t w r in
        let (m, written, state) = entry_of (chain_state sv table game t w) in
        let u : ltb (game.height w) (2 ^ 32) ≡ true = let small = game.small w in ground arith in
        rw (it.decodes w, it.has_tx, it.its_id, answers, entry, high, u, written, state) refl

    -- Whether the transaction is confirmed deep enough.
    is_deep : ℕ → ChainState → Bool
    is_deep height (confirmed h) = leb (h + sv.config.confirmations) (height + 1)
    is_deep height _ = false

    is_confirmed-told :
        (x : ChainState) (height : ℕ) (w : W)
        → height < 2 ^ 32
        → IsPast height x
        → is_confirmed sv (told x height) w ≡ (ok (is_deep height x), w)
    unfolding is_confirmed pure check ◌>>=◌ told is_deep state_json set_member find_member bytes_eq
    is_confirmed-told unknown height w small past = refl
    is_confirmed-told waiting height w small past = refl
    is_confirmed-told (confirmed h) height w small past =
        let u : ltb h (2 ^ 32) ≡ true = ground arith in
        let p : leb h height ≡ true = ground arith in rw (u, p) refl

    -- Whether one of the inputs is spent.
    unfoldable pub is_spent : List (Bytes × ℕ) → W → Bool
    is_spent [] w = false
    is_spent ((hash, n) ∷ outs) w = is_null (it.utxo hash n w) || is_spent outs w

    any_spent-is_spent :
        {vins : List Json} {outs : List (Bytes × ℕ)} (w : W)
        → Inputs vins outs
        → any_spent sv vins w ≡ (ok (is_spent outs w), w)
    unfolding any_spent pure check ◌>>=◌ is_spent
    any_spent-is_spent w none_left = refl
    any_spent-is_spent w (input {m} {hash} {n} {vins} {outs} its_hash its_n small rest) =
        let u : ltb n (2 ^ 32) ≡ true = ground arith in
        elim (Bool-cases (is_null (it.utxo hash n w))) [
          | inl gone ↦ rw (its_hash, its_n, u, it.looks_up hash n w, gone) refl
          | inr there ↦
              rw (its_hash, its_n, u, it.looks_up hash n w, there) (any_spent-is_spent w rest)
        ]

    is_conflicted-told :
        (x : ChainState) (height : ℕ) (w : W)
        → is_conflicted sv (told x height) w ≡ (ok (is_spent it.outs w), w)
    unfolding is_conflicted check ◌>>=◌ told
    is_conflicted-told x height w = rw it.has_vin (any_spent-is_spent w it.inputs)

    -- What becomes of the trade then.
    abbrev pub seen_by : W → TradeState → TradeState
    seen_by w =
        watch sv.config.confirmations (game.height w) (is_spent it.outs w)
          (chain_state sv table game t w)

    note_conflict-after :
        (height : ℕ) (since : Option ℕ) (c : Ctx W)
        → note_conflict sv height since c
          ≡ (ok tt, record c { pb = after_conflict sv.config.confirmations height since c.pb })
    unfolding note_conflict pure ◌>>=◌
    note_conflict-after height none c = refl
    note_conflict-after height (some since) c =
        elim (Bool-cases (leb (since + sv.config.confirmations) (height + 1))) [
          | inl old ↦ rw old refl
          | inr young ↦ rw young refl
        ]

    decide :
        (x : ChainState) (height : ℕ) (c : Ctx W)
        → height < 2 ^ 32
        → IsPast height x
        → c.pb.our_psbt ≡ some psbt
        → check_trade sv psbt c.world ≡ (ok (told x height), c.world)
        → update_pending sv c.pb c ≡ (
          ok tt,
          record c { pb = watch sv.config.confirmations height (is_spent it.outs c.world) x c.pb },
        )
    unfolding update_pending ◌>>=◌ check pure is_deep told note_conflict bytes_eq
    decide (confirmed h) height c small past ours e =
        elim (Bool-cases (leb (h + sv.config.confirmations) (height + 1))) [
          | inl deep ↦
              rw (ours, e, is_confirmed-told (confirmed h) height c.world small past, deep) refl
          | inr shallow ↦
              rw (ours, e, is_confirmed-told (confirmed h) height c.world small past, shallow) refl
        ]
    decide waiting height c small past ours e =
        rw (ours, e, is_confirmed-told waiting height c.world small past) refl
    decide unknown height c small past ours e = elim (Bool-cases (is_spent it.outs c.world)) [
      | inl spent ↦
          rw
            (
              ours,
              e,
              is_confirmed-told unknown height c.world small past,
              is_conflicted-told unknown height c.world,
              spent,
            )
            (note_conflict-after height c.pb.conflict_height
              (record c { pb = record c.pb { our_psbt = some psbt } }))
      | inr fine ↦
          rw
            (
              ours,
              e,
              is_confirmed-told unknown height c.world small past,
              is_conflicted-told unknown height c.world,
              fine,
            )
            refl
    ]

    -- The GSP is the game g/dem, the wallet decodes our PSBT as the transaction `t`, and the node knows
    -- which of its inputs are spent. Where a trade is pending and has this PSBT, and the table has one
    -- row of `t` at most, with a height below 2^31 that is not above the game's, Update returns, no
    -- CHECK in it fails, and nothing else is done than this: where `t` is confirmed deep enough, the
    -- trade is a success; where it is unknown to the game and an input is spent, the conflict is noted
    -- with its height, and the trade has failed if it was noted before and deep enough; and in all
    -- other cases a noted conflict is forgotten.
    pub update-watch :
        (c : Ctx W)
        → state_of c.pb ≡ pending
        → c.pb.our_psbt ≡ some psbt
        → IsRecorded sv table game t c.world
        → update sv c ≡ (ok tt, record c { pb = seen_by c.world c.pb })
    unfolding update update_by_state ◌>>=◌
    update-watch c is_pending ours r = rw is_pending (
        decide (chain_state sv table game t c.world) (game.height c.world) c (game.small c.world)
          (chain_state-IsPast sv table game t c.world r) ours (check_trade-told c.world r))

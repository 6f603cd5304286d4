-- ===== src/Game/Blocks.antt =====
-- gsp/game.cpp: what a block does to the table of trades.
use democrit_marketplace.Prelude.{
  ℕ, ◌<◌, ◌^◌, ◌≡◌, refl, sym, ap, subst, ◌∙◌, inl, inr, Bool, true, false, List, [], ◌∷◌, Bytes,
  bytes_eq, bytes_eq→eq, bytes_eq_refl, codes, ltb, All, ◌||◌, Bool-cases, if◌then◌else◌, arith,
}
use democrit_marketplace.Prelude.Int.{pos}
use democrit_marketplace.Outcome.{Outcome, ok}
use democrit_marketplace.Json.{Json, num, str, obj, Members, find_member, array, elements, items}
use democrit_marketplace.Json.Text.{as_string}
use democrit_marketplace.Game.{Table, IsTable, parse_move, as_uint, insert_moves, update_state}

-- The moves of a block, which are of these transactions: each names its own among its members.
pub data AreMoves : List Json → List Bytes → Type 0 where
  no_moves : AreMoves [] []
  one_more :
      {m : Members} {btxid : Bytes} {js : List Json} {ids : List Bytes}
      → find_member (codes "btxid") m ≡ str btxid
      → AreMoves js ids
      → AreMoves (obj m ∷ js) (btxid ∷ ids)

unfoldable pub contains : Bytes → List Bytes → Bool
contains b [] = false
contains b (c ∷ cs) = bytes_eq c b || contains b cs

-- Different transactions.
abbrev pub IsDistinct : List Bytes → Type 0
IsDistinct [] = Unit
IsDistinct (b ∷ bs) = (contains b bs ≡ false) × IsDistinct bs

module _ {D : Type 0} (table : Table D) (law : IsTable table)
    (real_to_uint : Bytes → Outcome ℕ) where
  -- None of these is in the table.
  abbrev pub IsNew : D → List Bytes → Type 0
  IsNew d = All (λ (b : Bytes). table.heights b d ≡ [])

  parse_move-btxid :
      (m : Members) (b : Bytes) → find_member (codes "btxid") m ≡ str b → parse_move (obj m) ≡ ok b
  unfolding parse_move as_string
  parse_move-btxid m b e = rw e refl

  insert-IsNew :
      (b : Bytes) (h : ℕ) (d e : D) (bs : List Bytes)
      → table.insert b h d ≡ ok e
      → contains b bs ≡ false
      → IsNew d bs
      → IsNew e bs
  unfolding contains
  insert-IsNew b h d e [] i apart fresh = tt
  insert-IsNew b h d e (c ∷ cs) i apart (new, rest) = elim (Bool-cases (bytes_eq c b)) [
    | inl eq ↦ cc (rw (contains, eq) at apart)
    | inr ne ↦ (
      law.kept b c h d e i (flip b c ne) ∙ new,
      insert-IsNew b h d e cs i (rw (contains, ne) at apart) rest,
    )
  ]
    where
      flip : (x y : Bytes) → bytes_eq y x ≡ false → bytes_eq x y ≡ false
      flip x y h = elim (Bool-cases (bytes_eq x y)) [
        | inr e ↦ e
        | inl e ↦ cc (sym (bytes_eq_refl y) ∙ (rw (bytes_eq→eq x y e) at h))
      ]

  one_move :
      (b t : Bytes) (bs : List Bytes) (h : ℕ) (d e : D)
      → h < 2 ^ 31
      → table.insert b h d ≡ ok e
      → contains b bs ≡ false
      → (if contains t bs then pos h ∷ [] else table.heights t e)
        ≡ (if contains t (b ∷ bs) then pos h ∷ [] else table.heights t d)
  unfolding contains
  one_move b t bs h d e small i apart = elim (Bool-cases (bytes_eq b t)) [
    | inl eq ↦
        rw (contains, eq)
          (subst
            (λ (x : Bytes). (if contains x bs then pos h ∷ [] else table.heights x e) ≡ pos h ∷ [])
            (bytes_eq→eq b t eq) (rw apart (law.inserted b h d e small i)))
    | inr ne ↦ rw (contains, ne, law.kept b t h d e i ne) refl
  ]

  insert_moves-heights :
      {js : List Json} {ids : List Bytes} (h : ℕ) (d : D)
      → h < 2 ^ 31
      → AreMoves js ids
      → IsDistinct ids
      → IsNew d ids
      → (e : D) × (insert_moves table real_to_uint h js d ≡ ok e)
        × ((t : Bytes)
            → table.heights t e ≡ (if contains t ids then pos h ∷ [] else table.heights t d))
  unfolding insert_moves contains
  insert_moves-heights h d small no_moves distinct fresh = (d, refl, λ t. refl)
  insert_moves-heights h d small (one_more {m} {btxid} {js} {ids} its_id moves) (apart, distinct)
        (new, fresh) =
      let (next, i) = law.accepts btxid h d new in
      let (e, ran, found) =
        insert_moves-heights h next small moves distinct
          (insert-IsNew btxid h d next ids i apart fresh) in
      (
        e,
        rw (insert_moves, parse_move-btxid m btxid its_id, i) ran,
        λ t. found t ∙ one_move btxid t ids h d next small i apart,
      )

  -- A block at a height below 2^31, whose moves are objects that name different transactions as their
  -- btxid, whatever else they have, and none of these in the table yet, is processed; and afterwards
  -- the table has the block's height for these, and for every other transaction what it had before.
  pub update_state-heights :
      (block : Members) (header : Members) (h : ℕ) (js : List Json) (ids : List Bytes) (d : D)
      → find_member (codes "block") block ≡ obj header
      → find_member (codes "height") header ≡ num (pos h)
      → find_member (codes "moves") block ≡ array js
      → AreMoves js ids
      → h < 2 ^ 31
      → IsDistinct ids
      → IsNew d ids
      → (e : D) × (update_state table real_to_uint (obj block) d ≡ ok e)
        × ((t : Bytes)
            → table.heights t e ≡ (if contains t ids then pos h ∷ [] else table.heights t d))
  unfolding update_state as_uint
  update_state-heights block header h js ids d eb eh em moves small distinct fresh =
      let (e, ran, found) = insert_moves-heights h d small moves distinct fresh in
      let u : ltb h (2 ^ 32) ≡ true = ground arith in
      (e, (rw (update_state, eb, eh, u, em, visited js) ran), found)
    where
      visited : (js : List Json) → elements (items js) ≡ js
      visited [] = refl
      visited (j ∷ js) = ap (λ (x : List Json). j ∷ x) (visited js)

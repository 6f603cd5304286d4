-- ===== src/Examples/Blocks.antt =====
-- The game of the trades, over a table that is a list.
use democrit_marketplace.Prelude.{
  ℕ, ◌≡◌, refl, sym, ◌∙◌, inr, false, some, List, [], ◌∷◌, Bytes, bytes_eq, bytes_eq_refl, codes,
  arith, if◌then◌else◌,
}
use democrit_marketplace.Prelude.Int.{ℤ, pos}
use democrit_marketplace.Outcome.{Outcome, ok, raise, ok-inj}
use democrit_marketplace.Json.{
  Json, num, str, obj, member, end, Members, array, set_member, find_member,
}
use democrit_marketplace.Conversion.Fields.{lookup_member, lookup_member-set_member}
use democrit_marketplace.Game.{Table, IsTable, Framework, state_json, update_state, checktrade}
use democrit_marketplace.Game.Blocks.{
  IsDistinct, AreMoves, no_moves, one_more, contains, update_state-heights,
}
use democrit_marketplace.Game.Trades.{IsFramework, expected, checktrade-expected}

abbrev pub Rows : Type 0
Rows = List (Bytes × ℕ)

unfoldable pub heights_of : Bytes → Rows → List ℤ
heights_of b [] = []
heights_of b ((c, h) ∷ rest) = if bytes_eq c b then pos h ∷ [] else heights_of b rest

unfoldable pub add_row : Bytes → ℕ → Rows → List ℤ → Outcome Rows
add_row b h d [] = ok ((b, h) ∷ d)
add_row b h d (i ∷ rest) = raise

abbrev as_rows : Rows → List (Bytes × ℤ)
as_rows [] = []
as_rows ((b, h) ∷ rest) = (b, pos h) ∷ as_rows rest

abbrev pub table : Table Rows
table = record {
  insert = λ b h d. add_row b h d (heights_of b d);
  heights = heights_of;
  rows = as_rows;
}

added :
    (b : Bytes) (h : ℕ) (d e : Rows) (found : List ℤ) → add_row b h d found ≡ ok e → e ≡ (b, h) ∷ d
unfolding add_row
added b h d e [] i = sym (ok-inj i)
added b h d e (x ∷ rest) i = cc

is_table : IsTable table
unfolding heights_of add_row
is_table = record {
  accepts = λ b h d e. ((b, h) ∷ d, (rw (add_row, e) refl));
  inserted =
      λ b h d e small i. rw (added b h d e (heights_of b d) i, heights_of, bytes_eq_refl b) refl;
  kept = λ b c h d e i ne. rw (added b h d e (heights_of b d) i, heights_of, ne) refl;
}

abbrev header : Members
header = member (codes "height") (num (pos 4)) end

-- A move as it is in a block, of which the code reads one member.
abbrev move : Bytes → Members
move btxid =
    member (codes "btxid") (str btxid)
      (member (codes "move") (obj end) (member (codes "name") (str (codes "n")) end))

abbrev moves : List Json
moves = obj (move (codes "t")) ∷ obj (move (codes "u")) ∷ []

are_moves : AreMoves moves (codes "t" ∷ codes "u" ∷ [])
unfolding find_member bytes_eq
are_moves = one_more refl (one_more refl no_moves)

abbrev block : Members
block = member (codes "block") (obj header) (member (codes "moves") (array moves) end)

distinct : IsDistinct (codes "t" ∷ codes "u" ∷ [])
unfolding contains bytes_eq
distinct = (refl, (refl, tt))

block_header : find_member (codes "block") block ≡ obj header
unfolding find_member bytes_eq
block_header = refl

block_height : find_member (codes "height") header ≡ num (pos 4)
unfolding find_member bytes_eq
block_height = refl

block_moves : find_member (codes "moves") block ≡ array moves
unfolding find_member bytes_eq
block_moves = refl

fresh : heights_of (codes "t") ((codes "v", 3) ∷ []) ≡ []
unfolding heights_of bytes_eq
fresh = refl

also_fresh : heights_of (codes "u") ((codes "v", 3) ∷ []) ≡ []
unfolding heights_of bytes_eq
also_fresh = refl

update_state-heights_example :
    (e : Rows) × (update_state table (λ _. ok 0) (obj block) ((codes "v", 3) ∷ []) ≡ ok e)
    × ((t : Bytes)
        → heights_of t e ≡ (
            if contains t (codes "t" ∷ codes "u" ∷ [])
            then pos 4 ∷ []
            else heights_of t ((codes "v", 3) ∷ [])))
update_state-heights_example =
    update_state-heights table is_table (λ _. ok 0) block header 4 moves
      (codes "t" ∷ codes "u" ∷ []) ((codes "v", 3) ∷ []) block_header block_height block_moves
      are_moves (ground arith) distinct (fresh, (also_fresh, tt))

-- The state beside the data of the callback, and one pending move.
abbrev pub base : Members
base = member (codes "height") (num (pos 4)) end

abbrev pub pending_moves : Members
pending_moves = member (codes "p") (obj end) end

-- Other members stand beside the moves.
abbrev pub pending_state : Members
pending_state =
    member (codes "chain") (str (codes "regtest"))
      (member (codes "pending") (obj pending_moves) (member (codes "version") (num (pos 7)) end))

abbrev pub framework : Framework
framework = record {
  pending_state = obj pending_state;
  custom_state = λ v. obj (set_member (codes "data") v base);
}

pub is_framework : IsFramework framework pending_moves base
unfolding find_member bytes_eq
is_framework = record {
  pending_members = pending_state;
  is_pending = refl;
  has_pending = refl;
  custom = λ v. set_member (codes "data") v base;
  is_custom = λ v. refl;
  has_data = λ v. lookup_member-set_member (codes "data") (codes "data") v base;
  others = λ v k ne. lookup_member-set_member k (codes "data") v base ∙ (rw ne refl);
}

confirmed_at : heights_of (codes "v") ((codes "v", 3) ∷ []) ≡ pos 3 ∷ []
unfolding heights_of bytes_eq
confirmed_at = refl

checktrade-expected_example :
    (reply : Members) × (checktrade table framework (codes "v") ((codes "v", 3) ∷ [])
      ≡ ok (obj reply))
    × (lookup_member (codes "data") reply
        ≡ some (
            state_json
              (expected (heights_of (codes "v") ((codes "v", 3) ∷ [])) pending_moves (codes "v"))))
    × ((k : Bytes)
        → bytes_eq (codes "data") k ≡ false
        → lookup_member k reply ≡ lookup_member k base)
checktrade-expected_example =
    checktrade-expected table framework pending_moves base is_framework (codes "v")
      ((codes "v", 3) ∷ []) (inr (3, ground arith, confirmed_at))

-- ===== src/Authenticator.antt =====
-- private/authenticator.hpp and authenticator.cpp: from XMPP identities to accounts and back.
pub mod Names
pub mod Known
use democrit_marketplace.Prelude.{
  ℕ, ◌+◌, ◌-◌, ◌*◌, ◌%◌, Bool, true, false, Option, none, some, not, List, [], ◌∷◌, ◌++◌, Bytes,
  bytes_eq, codes, leb, ◌==◌, ◌&&◌, ◌||◌, length, take, drop, if◌then◌else◌,
}
use democrit_marketplace.Outcome.{Outcome, ok}
use democrit_marketplace.Outcome
use democrit_marketplace.Exec.{Exec, pure, lift, modify, ◌>>=◌, ◌>>◌}

-- std::getline with a comma, until the end: `cur` is what has been read of the piece.
unfoldable pub split_commas : Bytes → Bytes → List Bytes
split_commas [] cur = cur ∷ []
split_commas (c ∷ rest) cur =
    let piece = split_commas rest (cur ++ c ∷ []) in
    let next = split_commas rest [] in if c == b',' then cur ∷ next else piece

unfoldable pub parse_comma_separated : Bytes → List Bytes
parse_comma_separated [] = []
parse_comma_separated (c ∷ rest) = split_commas (c ∷ rest) []

unfoldable pub is_simple_char : ℕ → Bool
is_simple_char c = (leb b'0' c && leb c b'9') || (leb b'a' c && leb c b'z')

-- `none` for -1
unfoldable pub hex_char_value : ℕ → Option ℕ
hex_char_value c =
    if leb b'0' c && leb c b'9'
    then some (c - b'0')
    else if leb b'a' c && leb c b'f'
    then some (10 + (c - b'a'))
    else none

abbrev pub encoded_prefix : Bytes
encoded_prefix = codes "x-"

unfoldable pub all_simple : Bytes → Bool
all_simple [] = true
all_simple (c ∷ rest) = is_simple_char c && all_simple rest

-- Where the loop over the digits is.
pub record HexState : Type 0 where
  pub cur : ℕ
  pub in_byte : Bool
  pub found_non_simple : Bool
  pub out : Bytes

-- One round, for a digit of this value. `cur |= val` is a sum: the low four bits of `cur` are zero.
unfoldable pub hex_step : ℕ → HexState → HexState
hex_step val h =
    let c = h.cur + val in
    if h.in_byte
    then record {
      cur = 0;
      in_byte = false;
      found_non_simple = h.found_non_simple || not (is_simple_char c);
      out = h.out ++ c ∷ [];
    }
    else record h { cur = (c * 16) % 256; in_byte = true }

unfoldable pub hex_loop : Bytes → HexState → Option HexState
hex_loop [] h = some h
hex_loop (c ∷ rest) h = elim (hex_char_value c) [
  | none ↦ none
  | some val ↦ hex_loop rest (hex_step val h)
]

-- After the loop. Names that are all simple must not be encoded.
unfoldable pub finish_hex : Option HexState → Outcome (Option Bytes)
finish_hex none = ok none
finish_hex (some h) = Outcome.◌>>◌ (Outcome.check (not h.in_byte)) (
    Outcome.◌>>◌ (Outcome.check (h.cur == 0))
      (ok (if h.found_non_simple then some h.out else none)))

abbrev pub hex_start : HexState
hex_start = record { cur = 0; in_byte = false; found_non_simple = false; out = [] }

unfoldable pub decode_hex : Bytes → Outcome (Option Bytes)
decode_hex [] = ok (some [])
decode_hex (c ∷ rest) = finish_hex (hex_loop (c ∷ rest) hex_start)

-- `none` where the function returns false.
unfoldable pub decode_name : Bytes → Outcome (Option Bytes)
decode_name [] = ok none
decode_name (c ∷ rest) =
    let name = c ∷ rest in
    if not (bytes_eq (take 2 name) encoded_prefix)
    then ok (if all_simple name then some name else none)
    else if not (length (drop 2 name) % 2 == 0)
    then ok none
    else decode_hex (drop 2 name)

-- gloox::JID, by what the code reads of it.
pub record JidAccess (J : Type 0) : Type 0 where
  pub server : J → Bytes
  pub username : J → Bytes

-- knownJids: unordered_map<string, JID>
abbrev pub KnownJids : Type 0 → Type 0
KnownJids J = List (Bytes × J)

abbrev pub has_server : Bytes → List Bytes → Bool
has_server s [] = false
has_server s (t ∷ ts) = bytes_eq t s || has_server s ts

module _ {J : Type 0} where
  unfoldable pub put_jid : Bytes → J → KnownJids J → KnownJids J
  put_jid account jid [] = (account, jid) ∷ []
  put_jid account jid ((k, j) ∷ rest) =
      let later = put_jid account jid rest in
      if bytes_eq k account then (k, jid) ∷ rest else (k, j) ∷ later

  unfoldable pub lookup_jid : Bytes → KnownJids J → Option J
  lookup_jid account [] = none
  lookup_jid account ((k, j) ∷ rest) =
      if bytes_eq k account then some j else lookup_jid account rest

module _ {J : Type 0} (access : JidAccess J) (xid_servers : List Bytes) where
  abbrev pub remember : J → Option Bytes → Exec (KnownJids J) (Option Bytes)
  remember jid none = pure none
  remember jid (some account) = do modify (put_jid account jid); pure (some account)

  -- `none` where the method returns false.
  unfoldable pub authenticate : J → Exec (KnownJids J) (Option Bytes)
  authenticate jid =
      if not (has_server (access.server jid) xid_servers)
      then pure none
      else (do decoded ← lift (decode_name (access.username jid)); remember jid decoded)

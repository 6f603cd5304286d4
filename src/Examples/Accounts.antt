-- ===== src/Examples/Accounts.antt =====
-- XMPP names and JIDs, and the game of the trades.
use democrit_marketplace.Prelude.{
  ◌≡◌, ◌≢◌, ◌⊎◌, none, some, List, [], ◌∷◌, Bytes, codes, All, arith, true, false, bytes_eq, refl,
}
use democrit_marketplace.Outcome.{ok}
use democrit_marketplace.Json.{null}
use democrit_marketplace.Authenticator.{JidAccess, decode_name, lookup_jid}
use democrit_marketplace.Authenticator.Names.{
  encode_name, decode_name-encode_name, decode_name_exact,
}
use democrit_marketplace.Authenticator.Names.Digits.{IsByte}
use democrit_marketplace.Authenticator.Known.{
  latest, authenticate_each, authenticate_each-lookup_jid,
}
use democrit_marketplace.Muc.{Presence, Room, resolve_nickname}
use democrit_marketplace.Muc.Nicks.{see_all, holder_after, see_all-holder_after}
use democrit_marketplace.Nonfungible.{get_nf_asset, asset_json}
use democrit_marketplace.Nonfungible.Assets.{IsInLine, joined, asset_of_json, get_nf_asset_exact}

abbrev pub Jid : Type 0
Jid = Bytes × Bytes

abbrev pub jids : JidAccess Jid
jids = record { server = λ j. j.0; username = λ j. j.1 }

abbrev pub servers : List Bytes
servers = codes "x" ∷ []

-- The name "S" is not simple.
decode_name-encode_name_example : decode_name (encode_name (codes "S")) ≡ ok (some (codes "S"))
decode_name-encode_name_example = decode_name-encode_name (codes "S") (ground arith, tt)

decode_name_exact_example :
    ((a : Bytes) × All IsByte a
      × (codes "x-53" ≡ encode_name a)
      × (decode_name (codes "x-53") ≡ ok (some a)))
    ⊎ ((decode_name (codes "x-53") ≡ ok none)
        × ((a : Bytes) → All IsByte a → codes "x-53" ≢ encode_name a))
decode_name_exact_example = decode_name_exact (codes "x-53")

abbrev three : List Jid
three = (codes "x", codes "s") ∷ (codes "y", codes "s") ∷ (codes "x", codes "t") ∷ []

authenticate_each-lookup_jid_example :
    ((authenticate_each jids servers three []).0 ≡ ok tt)
    × (lookup_jid (codes "s") (authenticate_each jids servers three []).1
        ≡ latest jids servers (codes "s") three none)
unfolding lookup_jid
authenticate_each-lookup_jid_example =
    authenticate_each-lookup_jid jids servers (codes "s") three [] (ground arith, tt)

get_nf_asset_exact_example :
    ((m : Bytes) × (a : Bytes) × All IsInLine m
      × (codes "m\na" ≡ joined m a)
      × (get_nf_asset (codes "m\na") ≡ asset_json m a)
      × (asset_of_json (get_nf_asset (codes "m\na")) ≡ codes "m\na"))
    ⊎ (All IsInLine (codes "m\na") × (get_nf_asset (codes "m\na") ≡ null))
get_nf_asset_exact_example = get_nf_asset_exact (codes "m\na")

-- `n` is renamed to `o`, and then somebody else becomes `n`.
abbrev seen : List (Presence Jid)
seen =
    record {
      is_self = false;
      is_unavailable = true;
      nick_changed = true;
      nick = codes "n";
      new_nick = codes "o";
      jid = some (codes "x", codes "s");
    }
    ∷ record {
      is_self = false;
      is_unavailable = false;
      nick_changed = false;
      nick = codes "n";
      new_nick = [];
      jid = some (codes "x", codes "t");
    }
    ∷ []

abbrev room : Room Jid
room = record {
  nick_to_jid = (codes "n", (codes "x", codes "s")) ∷ [];
  joining = false;
  disconnecting = false;
}

see_all-holder_after_example :
    resolve_nickname (codes "o") (see_all seen room)
    ≡ holder_after (codes "o") seen (resolve_nickname (codes "o") room)
unfolding lookup_jid bytes_eq
see_all-holder_after_example =
    see_all-holder_after seen room (codes "o") ((refl, refl), ((refl, refl), tt)) (refl, tt)
